-- ===== src/Tasks/Invariant.antt =====
-- Every event keeps the table of tasks in order.
use fylane.Common.{
  ℕ, ◌+◌, ◌<◌, ◌≡◌, ◌≢◌, ◌⊎◌, refl, sym, ◌∙◌, subst, inl, inr, Bool, true, false, [], Option, none,
  some, ltb, nat_beq, ◌==◌, ==→eq, ne→==, ==-refl, Bool-cases, Option-cases, if_cases, arith,
}
use fylane.Common.Text.{Text, text_eq}
use fylane.Common.Dict.{lookup, insert, delete, lookup-insert, lookup-delete}
use fylane.Tasks.Buffer.{write}
use fylane.Tasks.State.{Task, terminal, finish, Outcome, Meta, context_canceled, deadline_exceeded}
use fylane.Tasks.Manager.{
  Manager, new, Options, write_cell, purge, acquire, acquire_by, place, place_given,
  place_generated, fresh_task, in_flight, running_under, running_at, drop_key, Acquired, refused,
  shutting_down, ended, ids_of,
}
use fylane.Tasks.Calls.{
  update, end_task, work_ends, cancel, cancel_at, clear, close, stop, Event, acquires, writes_out,
  writes_err, ends, expires, cancels, polls, clears, closes, stops, step, FreshId, Run, start,
  after, if_allocated,
}
use fylane.Tasks.Forget.{Inv, Running, purge_same, purge-Inv, forget_where-Inv}

-- A change that keeps the id and the key, and starts no finished task again.
pub record IsGentle (t u : Task) : Type 0 where
  pub id : u.id ≡ t.id
  pub key : u.key ≡ t.key
  pub state : terminal u.state ≡ false → terminal t.state ≡ false

abbrev gentle_self : (t : Task) → IsGentle t t
gentle_self t = record { id = refl; key = refl; state = λ h. h }

-- The table stands if every task changes gently.
gentle-Inv :
    (m : Manager) (cells : ℕ → Task)
    → ((q : ℕ) → IsGentle (m.cells q) (cells q))
    → Inv m
    → Inv (record m { cells = cells })
gentle-Inv m cells g v = record {
  found = λ id p h. ((v.found id p h).0, (g p).id ∙ (v.found id p h).1);
  live = λ p r. rw (g p).id (v.live p (r.0, (g p).state r.1));
  keyed = λ p r k. rw ((g p).key, (g p).id) (v.keyed p (r.0, (g p).state r.1) (rw (g p).key at k));
}

update-Inv :
    (p : ℕ) (f : Task → Task) (m : Manager)
    → ((t : Task) → IsGentle t (f t))
    → Inv m
    → Inv (update p f m)
update-Inv p f m g v =
    gentle-Inv m (write_cell p (f (m.cells p)) m.cells)
      (λ q. elim (Bool-cases (nat_beq q p)) [
        | inr h ↦ rw h (gentle_self (m.cells q))
        | inl h ↦
            let e : q ≡ p = ground arith in
            rw h (subst (λ x. IsGentle (m.cells x) (f (m.cells p))) (sym e) (g (m.cells p)))
      ])
      v

finish_gentle :
    (now : ℕ) (out : Outcome) (err : Option Text) (t : Task) → IsGentle t (finish now out err t)
unfolding finish
finish_gentle now out err t = elim (Bool-cases (terminal t.state)) [
  | inl h ↦ rw h (gentle_self t)
  | inr h ↦ rw h (record { id = refl; key = refl; state = λ _. h })
]

-- No running task has the key.
abbrev Unkeyed : Manager → Text → Type 0
Unkeyed m key = (p : ℕ) → Running m p → (m.cells p).key ≢ [] → key ≢ (m.cells p).key

-- A fresh task is written at the next address, the others stay.
placed_cell :
    (m : Manager) (t : Task) (p : ℕ)
    → p < m.next + 1
    → ((p ≡ m.next) × (write_cell m.next t m.cells p ≡ t))
      ⊎ ((p < m.next) × (write_cell m.next t m.cells p ≡ m.cells p))
placed_cell m t p h = elim (Bool-cases (nat_beq p m.next)) [
  | inl e ↦ inl (ground arith, rw e)
  | inr e ↦ inr (ground arith, rw e)
]

module _ (now : ℕ) (meta : Meta) (id : Text) (m : Manager) (fresh : lookup id m.tasks ≡ none)
    (unkeyed : Unkeyed m meta.key) (v : Inv m) where
  abbrev placed : Manager
  placed = (place now meta id m).0

  placed_found :
      (j : Text) (p : ℕ)
      → lookup j placed.tasks ≡ some p
      → (p < placed.next) × ((placed.cells p).id ≡ j)
  unfolding place
  placed_found j p h = elim (Bool-cases (id == j)) [
    | inl e ↦
        let n : some m.next ≡ some p = sym (lookup-insert id j m.next m.tasks ∙ rw e) ∙ h in
        let q : m.next ≡ p = cc in
        let self : nat_beq m.next m.next ≡ true = ground arith in
        subst
          (λ x.
            (x < m.next + 1) × ((write_cell m.next (fresh_task now meta id m) m.cells x).id ≡ j))
          q (omega arith, rw self (==→eq id j e))
    | inr e ↦
        let old : lookup j m.tasks ≡ some p = sym (lookup-insert id j m.next m.tasks ∙ rw e) ∙ h in
        let (lt, same) = v.found j p old in
        let other : nat_beq p m.next ≡ false = ground arith in (omega arith, rw other same)
  ]

  placed_live : (p : ℕ) → Running placed p → lookup (placed.cells p).id placed.tasks ≡ some p
  unfolding place
  placed_live p r = elim (placed_cell m (fresh_task now meta id m) p r.0) [
    | inl (e, c) ↦ rw (c, e) (lookup-insert id id m.next m.tasks ∙ rw (==-refl id))
    | inr (lt, c) ↦
        let run : Running m p = (lt, rw c at r.1) in
        let other : id ≢ (m.cells p).id = λ e. cc (v.live p run, fresh) in
        rw c (
          lookup-insert id (m.cells p).id m.next m.tasks
          ∙ rw (ne→== id (m.cells p).id other) (v.live p run))
  ]

  placed_keyed :
      (p : ℕ)
      → Running placed p
      → (placed.cells p).key ≢ []
      → lookup (placed.cells p).key placed.by_key ≡ some (placed.cells p).id
  unfolding place
  placed_keyed p r k = elim (placed_cell m (fresh_task now meta id m) p r.0) [
    | inl (e, c) ↦
        rw (c, ne→== meta.key [] (rw c at k))
          (lookup-insert meta.key meta.key id m.by_key ∙ rw (==-refl meta.key))
    | inr (lt, c) ↦
        let run : Running m p = (lt, rw c at r.1) in
        let named : (m.cells p).key ≢ [] = rw c at k in
        rw c (
          if_cases (λ d. lookup (m.cells p).key d ≡ some (m.cells p).id) (meta.key == []) m.by_key
            (insert meta.key id m.by_key) (λ _. v.keyed p run named)
            (λ _.
              lookup-insert meta.key (m.cells p).key id m.by_key
              ∙ rw (ne→== meta.key (m.cells p).key (unkeyed p run named)) (v.keyed p run named)))
  ]

  place-Inv : Inv placed
  place-Inv = record { found = placed_found; live = placed_live; keyed = placed_keyed }

-- The tasks that a call does not re-attach to do not run under its key.
in_flight-none : (key : Text) (m : Manager) → in_flight key m ≡ none → Inv m → Unkeyed m key
unfolding in_flight running_under running_at
in_flight-none key m h v p r k e =
    let by : lookup key m.by_key ≡ some (m.cells p).id = rw e (v.keyed p r k) in
    let named : (key == []) ≡ false = ne→== key [] (rw e k) in
    let n : ◌≡◌ {A = Option ℕ} none (some p) = sym h ∙ rw (named, by, v.live p r, r.1) in cc

drop_key-Inv : (key : Text) (m : Manager) → Unkeyed m key → Inv m → Inv (drop_key key m)
unfolding drop_key
drop_key-Inv key m u v =
    if_cases Inv (key == []) m (record m { by_key = delete key m.by_key }) (λ _. v)
      (λ _. record {
        found = v.found;
        live = v.live;
        keyed = λ p r k.
            lookup-delete key (m.cells p).key m.by_key
            ∙ rw (ne→== key (m.cells p).key (u p r k)) (v.keyed p r k);
      })

drop_key_same :
    (key : Text) (m : Manager)
    → ((drop_key key m).tasks ≡ m.tasks) × (Unkeyed m key → Unkeyed (drop_key key m) key)
unfolding drop_key
drop_key_same key m =
    if_cases (λ d. (d.tasks ≡ m.tasks) × (Unkeyed m key → Unkeyed d key)) (key == []) m
      (record m { by_key = delete key m.by_key }) (λ _. (refl, λ u. u)) (λ _. (refl, λ u. u))

place_given-Inv :
    (now : ℕ) (meta : Meta) (o : Option ℕ) (m : Manager)
    → lookup meta.id m.tasks ≡ o
    → Unkeyed m meta.key
    → Inv m
    → Inv (place_given now meta o m).0
unfolding place_given
place_given-Inv now meta none m e u v = place-Inv now meta meta.id m e u v
place_given-Inv now meta (some taken) m e u v = v

place_generated-Inv :
    (now : ℕ) (meta : Meta) (o : Option Text) (m : Manager)
    → ((id : Text) → o ≡ some id → lookup id m.tasks ≡ none)
    → Unkeyed m meta.key
    → Inv m
    → Inv (place_generated now meta o m).0
unfolding place_generated
place_generated-Inv now meta none m fresh u v = v
place_generated-Inv now meta (some id) m fresh u v = place-Inv now meta id m (fresh id refl) u v

acquire_by-Inv :
    (now : ℕ) (meta : Meta) (generated : Option Text) (o : Option ℕ) (m : Manager)
    → in_flight meta.key m ≡ o
    → ((id : Text) → generated ≡ some id → lookup id m.tasks ≡ none)
    → Inv m
    → Inv (acquire_by now meta generated o m).0
unfolding acquire_by
acquire_by-Inv now meta generated (some p) m e fresh v = v
acquire_by-Inv now meta generated none m e fresh v =
    let free = in_flight-none meta.key m e v in
    let d = drop_key meta.key m in
    let w = drop_key-Inv meta.key m free v in
    let (same, still) = drop_key_same meta.key m in
    if_cases (λ (r : Manager × Acquired). Inv r.0) (meta.id == [])
      (place_generated now meta generated d) (place_given now meta (lookup meta.id d.tasks) d)
      (λ _. place_generated-Inv now meta generated d (λ id g. rw same (fresh id g)) (still free) w)
      (λ _. place_given-Inv now meta (lookup meta.id d.tasks) d refl (still free) w)

purged_none :
    (now : ℕ) (m : Manager) (id : Text)
    → lookup id m.tasks ≡ none
    → lookup id (purge now m).tasks ≡ none
purged_none now m id h = elim (Option-cases (lookup id (purge now m).tasks)) [
  | inl n ↦ n
  | inr (p, s) ↦
      let n : ◌≡◌ {A = Option ℕ} none (some p) = sym h ∙ (purge_same now m).fewer id p s in
      absurd (cc)
]

acquire-Inv :
    (now later : ℕ) (meta : Meta) (generated : Option Text) (m : Manager)
    → ((id : Text) → generated ≡ some id → lookup id m.tasks ≡ none)
    → Inv m
    → Inv (acquire now later meta generated m).0
unfolding acquire
acquire-Inv now later meta generated m fresh v =
    let d = purge now m in
    if_cases (λ (r : Manager × Acquired). Inv r.0) m.closed (m, refused shutting_down)
      (acquire_by later meta generated (in_flight meta.key d) d) (λ _. v)
      (λ _.
        acquire_by-Inv later meta generated (in_flight meta.key d) d refl
          (λ id g. purged_none now m id (fresh id g)) (purge-Inv now m v))

FreshId-some :
    (m : Manager) (now later : ℕ) (meta : Meta) (generated : Option Text)
    → FreshId m (acquires now later meta generated)
    → (id : Text) → generated ≡ some id
    → lookup id m.tasks ≡ none
FreshId-some m now later meta none f id e = cc
FreshId-some m now later meta (some g) f id e = let same : g ≡ id = cc in rw same at f

cancel_at-Inv : (o : Option ℕ) (m : Manager) → Inv m → Inv (cancel_at o m).0
unfolding cancel_at
cancel_at-Inv none m v = v
cancel_at-Inv (some p) m v =
    update-Inv p (end_task context_canceled) m
      (λ t. record { id = refl; key = refl; state = λ h. h }) v

allocated-Inv :
    (p : ℕ) (f : Task → Task) (m : Manager)
    → ((t : Task) → IsGentle t (f t))
    → Inv m
    → Inv (if_allocated p (update p f) m)
allocated-Inv p f m g v =
    if_cases Inv (ltb p m.next) (update p f m) m (λ _. update-Inv p f m g v) (λ _. v)

ends_gentle :
    (now : ℕ) (out : Outcome) (err : Option Text) (t : Task)
    → IsGentle t (end_task context_canceled (finish now out err t))
ends_gentle now out err t =
    let g = finish_gentle now out err t in record { id = g.id; key = g.key; state = g.state }

pub step-Inv : (e : Event) (m : Manager) → FreshId m e → Inv m → Inv (step m e)
unfolding step work_ends close stop clear cancel
step-Inv (acquires now later meta generated) m f v =
    acquire-Inv now later meta generated m (FreshId-some m now later meta generated f) v
step-Inv (writes_out p text) m f v =
    allocated-Inv p (λ t. record t { stdout = (write t.stdout text).0 }) m
      (λ t. record { id = refl; key = refl; state = λ h. h }) v
step-Inv (writes_err p text) m f v =
    allocated-Inv p (λ t. record t { stderr = (write t.stderr text).0 }) m
      (λ t. record { id = refl; key = refl; state = λ h. h }) v
step-Inv (ends now p out err) m f v =
    if_cases Inv (ltb p m.next) (work_ends now p out err m) m
      (λ _.
        update-Inv p (λ t. end_task context_canceled (finish now out err t)) m
          (ends_gentle now out err) v)
      (λ _. v)
step-Inv (expires p) m f v =
    allocated-Inv p (end_task deadline_exceeded) m
      (λ t. record { id = refl; key = refl; state = λ h. h }) v
step-Inv (cancels id) m f v = cancel_at-Inv (lookup id m.tasks) m v
step-Inv (polls now) m f v = purge-Inv now m v
step-Inv clears m f v = forget_where-Inv ended (ids_of m) m (λ t h. h) v
step-Inv closes m f v =
    if_cases (λ (r : Manager × Bool). Inv r.0) m.closed (m, false)
      (record m { closed = true }, true) (λ _. v)
      (λ _. record { found = v.found; live = v.live; keyed = v.keyed })
step-Inv stops m f v =
    gentle-Inv (record m { stopped = true }) (λ q. end_task context_canceled (m.cells q))
      (λ q. record { id = refl; key = refl; state = λ h. h })
      (record { found = v.found; live = v.live; keyed = v.keyed })

pub Run-Inv : {opts : Options} {m : Manager} → Run opts m → Inv m
unfolding new lookup
Run-Inv start = record {
  found = λ id p h. cc;
  live = λ p r. absurd (omega (arith, r.0));
  keyed = λ p r k. absurd (omega (arith, r.0));
}
Run-Inv (after e r f h) = subst Inv (sym h) (step-Inv e _ f (Run-Inv r))
