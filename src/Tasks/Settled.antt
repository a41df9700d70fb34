-- ===== src/Tasks/Settled.antt =====
-- Ends are final, and a shutdown is not taken for a result.
use native.Mathlib.Nat.{le_trans, lt_of_lt_of_le}
use fylane.Common.{
  ℕ, ◌<◌, ◌≤◌, ◌≡◌, ◌≢◌, ◌⊎◌, refl, sym, ap, ◌∙◌, subst, inl, inr, Bool, true, false, List, [], ◌∷◌,
  Option, none, some, ◌==◌, if_cases, nat_beq, ltb, Bool-cases, arith,
}
use fylane.Common.Text.{Text, text_eq}
use fylane.Common.Dict.{lookup, delete}
use fylane.Tasks.Buffer.{write}
use fylane.Tasks.State.{
  State, timed_out, canceled, Outcome, Meta, Task, terminal, finish, finished_as, ended_in, CtxErr,
  Message, context_canceled, deadline_exceeded, end_context,
}
use fylane.Tasks.Manager.{
  Manager, Acquired, refused, shutting_down, purge, acquire, acquire_by, place, place_given,
  place_generated, drop_key, in_flight, ended, ids_of,
}
use fylane.Tasks.Calls.{
  update, end_task, work_ends, cancel, cancel_at, clear, close, stop, Event, acquires, writes_out,
  writes_err, ends, expires, cancels, polls, clears, closes, stops, step, if_allocated,
}
use fylane.Tasks.Forget.{OnlyForgets, purge_same, forget_where_same}

-- What one event may make of one task.
data Change (t : Task) : Task → Type 0 where
  same : Change t t
  to_out : (u : Task) → u ≡ record t { stdout = u.stdout } → Change t u
  to_err : (u : Task) → u ≡ record t { stderr = u.stderr } → Change t u
  context : (e : CtxErr) → Change t (end_task e t)
  ending :
      (now : ℕ) (out : Outcome) (err : Option Text)
      → Change t (end_task context_canceled (finish now out err t))

-- The addresses in use, and the tasks there, after a call that only adds.
record OnlyAdds (m n : Manager) : Type 0 where
  grows : m.next ≤ n.next
  cells : (p : ℕ) → p < m.next → n.cells p ≡ m.cells p

adds_self : (m : Manager) → OnlyAdds m m
adds_self m = record { grows = omega arith; cells = λ p h. refl }

place_adds : (now : ℕ) (meta : Meta) (id : Text) (m : Manager) → OnlyAdds m (place now meta id m).0
unfolding place
place_adds now meta id m = record {
  grows = omega arith;
  cells = λ p h. let other : nat_beq p m.next ≡ false = ground arith in rw other;
}

drop_key_adds : (key : Text) (m n : Manager) → OnlyAdds (drop_key key m) n → OnlyAdds m n
unfolding drop_key
drop_key_adds key m n =
    if_cases (λ d. OnlyAdds d n → OnlyAdds m n) (key == []) m
      (record m { by_key = delete key m.by_key }) (λ _ a. a)
      (λ _ a. record { grows = a.grows; cells = a.cells })

place_given_adds :
    (now : ℕ) (meta : Meta) (o : Option ℕ) (m : Manager) → OnlyAdds m (place_given now meta o m).0
unfolding place_given
place_given_adds now meta none m = place_adds now meta meta.id m
place_given_adds now meta (some taken) m = adds_self m

place_generated_adds :
    (now : ℕ) (meta : Meta) (o : Option Text) (m : Manager)
    → OnlyAdds m (place_generated now meta o m).0
unfolding place_generated
place_generated_adds now meta none m = adds_self m
place_generated_adds now meta (some id) m = place_adds now meta id m

acquire_by_adds :
    (now : ℕ) (meta : Meta) (generated : Option Text) (o : Option ℕ) (m : Manager)
    → OnlyAdds m (acquire_by now meta generated o m).0
unfolding acquire_by
acquire_by_adds now meta generated (some p) m = adds_self m
acquire_by_adds now meta generated none m =
    let d = drop_key meta.key m in
    if_cases (λ (r : Manager × Acquired). OnlyAdds m r.0) (meta.id == [])
      (place_generated now meta generated d) (place_given now meta (lookup meta.id d.tasks) d)
      (λ _.
        drop_key_adds meta.key m (place_generated now meta generated d).0
          (place_generated_adds now meta generated d))
      (λ _.
        drop_key_adds meta.key m (place_given now meta (lookup meta.id d.tasks) d).0
          (place_given_adds now meta (lookup meta.id d.tasks) d))

forgets_adds : (m n : Manager) → OnlyForgets m n → OnlyAdds m n
forgets_adds m n s = record {
  grows = omega (arith, s.next);
  cells = λ p h. ap (λ (c : ℕ → Task). c p) s.cells;
}

adds_trans : {l m n : Manager} → OnlyAdds l m → OnlyAdds m n → OnlyAdds l n
adds_trans a b = record {
  grows = le_trans a.grows b.grows;
  cells = λ p h. b.cells p (lt_of_lt_of_le h a.grows) ∙ a.cells p h;
}

acquire_adds :
    (now later : ℕ) (meta : Meta) (generated : Option Text) (m : Manager)
    → OnlyAdds m (acquire now later meta generated m).0
unfolding acquire
acquire_adds now later meta generated m =
    let d = purge now m in
    if_cases (λ (r : Manager × Acquired). OnlyAdds m r.0) m.closed (m, refused shutting_down)
      (acquire_by later meta generated (in_flight meta.key d) d) (λ _. adds_self m)
      (λ _.
        adds_trans (forgets_adds m d (purge_same now m))
          (acquire_by_adds later meta generated (in_flight meta.key d) d))

-- An event changes a task in one of the ways of Change, and takes back no address.
abbrev Changes : Manager → ℕ → Manager → Type 0
Changes m p n = Change (m.cells p) (n.cells p) × (m.next ≤ n.next)

adds-Changes : (m n : Manager) (p : ℕ) → p < m.next → OnlyAdds m n → Changes m p n
adds-Changes m n p h a = (subst (Change (m.cells p)) (sym (a.cells p h)) same, a.grows)

update-Changes :
    (q : ℕ) (f : Task → Task) (m : Manager) (p : ℕ)
    → ((t : Task) → Change t (f t))
    → Changes m p (update q f m)
update-Changes q f m p c = elim (Bool-cases (nat_beq p q)) [
  | inr h ↦ rw h (same, omega arith)
  | inl h ↦
      let e : p ≡ q = ground arith in
      rw h (subst (λ x. Change (m.cells x) (f (m.cells q))) (sym e) (c (m.cells q)), omega arith)
]

allocated-Changes :
    (q : ℕ) (f : Task → Task) (m : Manager) (p : ℕ)
    → ((t : Task) → Change t (f t))
    → Changes m p (if_allocated q (update q f) m)
allocated-Changes q f m p c =
    if_cases (Changes m p) (ltb q m.next) (update q f m) m (λ _. update-Changes q f m p c)
      (λ _. (same, omega arith))

cancel_at-Changes : (o : Option ℕ) (m : Manager) (p : ℕ) → Changes m p (cancel_at o m).0
unfolding cancel_at
cancel_at-Changes none m p = (same, omega arith)
cancel_at-Changes (some q) m p =
    update-Changes q (end_task context_canceled) m p (λ t. context context_canceled)

step-Changes : (e : Event) (m : Manager) (p : ℕ) → p < m.next → Changes m p (step m e)
unfolding step work_ends cancel clear close stop
step-Changes (acquires now later meta generated) m p h =
    adds-Changes m (acquire now later meta generated m).0 p h
      (acquire_adds now later meta generated m)
step-Changes (writes_out q text) m p h =
    allocated-Changes q (λ t. record t { stdout = (write t.stdout text).0 }) m p
      (λ t. to_out _ refl)
step-Changes (writes_err q text) m p h =
    allocated-Changes q (λ t. record t { stderr = (write t.stderr text).0 }) m p
      (λ t. to_err _ refl)
step-Changes (ends now q out err) m p h =
    if_cases (Changes m p) (ltb q m.next) (work_ends now q out err m) m
      (λ _.
        update-Changes q (λ t. end_task context_canceled (finish now out err t)) m p
          (λ t. ending now out err))
      (λ _. (same, omega arith))
step-Changes (expires q) m p h =
    allocated-Changes q (end_task deadline_exceeded) m p (λ t. context deadline_exceeded)
step-Changes (cancels id) m p h = cancel_at-Changes (lookup id m.tasks) m p
step-Changes (polls now) m p h =
    adds-Changes m (purge now m) p h (forgets_adds m (purge now m) (purge_same now m))
step-Changes clears m p h =
    adds-Changes m (clear m).0 p h
      (forgets_adds m (clear m).0 (forget_where_same ended (ids_of m) m))
step-Changes closes m p h =
    if_cases (λ (r : Manager × Bool). Changes m p r.0) m.closed (m, false)
      (record m { closed = true }, true) (λ _. (same, omega arith)) (λ _. (same, omega arith))
step-Changes stops m p h = (context context_canceled, omega arith)

unfoldable pub steps : Manager → List Event → Manager
steps m [] = m
steps m (e ∷ es) = steps (step m e) es

-- What every change keeps, every run keeps.
steps_keep :
    (P : Task → Type 0)
    → ((t u : Task) → Change t u → P t → P u)
    → (es : List Event) (m : Manager) (p : ℕ) → p < m.next
    → P (m.cells p)
    → P ((steps m es).cells p)
unfolding steps
steps_keep P keep [] m p h k = k
steps_keep P keep (e ∷ es) m p h k =
    let (c, grows) = step-Changes e m p h in
    steps_keep P keep es (step m e) p (lt_of_lt_of_le h grows)
      (keep (m.cells p) ((step m e).cells p) c k)

-- The result that a task ended with.
pub record SameResult (t u : Task) : Type 0 where
  pub ended : terminal u.state ≡ true
  pub state : u.state ≡ t.state
  pub exit_code : u.exit_code ≡ t.exit_code
  pub err_msg : u.err_msg ≡ t.err_msg
  pub ended_at : u.ended_at ≡ t.ended_at
  pub done : u.done ≡ t.done

Change-SameResult : (r t u : Task) → Change t u → SameResult r t → SameResult r u
unfolding finish
Change-SameResult r t u same k = k
Change-SameResult r t u (to_out v e) k = rw e (record {
  ended = k.ended;
  state = k.state;
  exit_code = k.exit_code;
  err_msg = k.err_msg;
  ended_at = k.ended_at;
  done = k.done;
})
Change-SameResult r t u (to_err v e) k = rw e (record {
  ended = k.ended;
  state = k.state;
  exit_code = k.exit_code;
  err_msg = k.err_msg;
  ended_at = k.ended_at;
  done = k.done;
})
Change-SameResult r t u (context e) k = record {
  ended = k.ended;
  state = k.state;
  exit_code = k.exit_code;
  err_msg = k.err_msg;
  ended_at = k.ended_at;
  done = k.done;
}
Change-SameResult r t u (ending now out err) k = rw k.ended (record {
  ended = k.ended;
  state = k.state;
  exit_code = k.exit_code;
  err_msg = k.err_msg;
  ended_at = k.ended_at;
  done = k.done;
})

-- A task that has ended keeps its result, whatever follows: no second end of the work, cancel,
-- deadline or shutdown changes the state, the exit code, the message or the time of its end.
pub steps-SameResult :
    (es : List Event) (m : Manager) (p : ℕ)
    → p < m.next
    → terminal (m.cells p).state ≡ true
    → SameResult (m.cells p) ((steps m es).cells p)
steps-SameResult es m p h t =
    steps_keep (SameResult (m.cells p)) (Change-SameResult (m.cells p)) es m p h (record {
      ended = t;
      state = refl;
      exit_code = refl;
      err_msg = refl;
      ended_at = refl;
      done = refl;
    })

-- A task that was stopped: it runs with its context ended, or has ended without a result.
Stopped : Task → Type 0
Stopped t =
    ((terminal t.state ≡ false) × (t.ctx ≢ none)) ⊎ (t.state ≡ canceled) ⊎ (t.state ≡ timed_out)

end_context_some : (e : CtxErr) (o : Option CtxErr) → end_context e o ≢ none
end_context_some e none h = cc
end_context_some e (some first) h = cc

ended_in_stopped :
    (ceiling : ℕ) (old : Message) (out : Outcome) (err : Option Text) (o : Option CtxErr)
    → o ≢ none
    → let s = (ended_in ceiling old out err o).0 in (s ≡ canceled) ⊎ (s ≡ timed_out)
unfolding ended_in
ended_in_stopped ceiling old out err none n = absurd (n refl)
ended_in_stopped ceiling old out err (some context_canceled) n = inl refl
ended_in_stopped ceiling old out err (some deadline_exceeded) n = inr refl

finished_stopped :
    (t : Task) (out : Outcome) (err : Option Text)
    → t.ctx ≢ none
    → let s = (finished_as t out err).0 in (s ≡ canceled) ⊎ (s ≡ timed_out)
unfolding finished_as
finished_stopped t out err n =
    if_cases (λ (r : State × Message). (r.0 ≡ canceled) ⊎ (r.0 ≡ timed_out)) out.timed_out
      (timed_out, t.err_msg) (ended_in t.max_runtime t.err_msg out err t.ctx) (λ _. inr refl)
      (λ _. ended_in_stopped t.max_runtime t.err_msg out err t.ctx n)

Change-Stopped : (t u : Task) → Change t u → Stopped t → Stopped u
unfolding Stopped finish terminal
Change-Stopped t u same k = k
Change-Stopped t u (to_out v e) k = subst Stopped (sym e) k
Change-Stopped t u (to_err v e) k = subst Stopped (sym e) k
Change-Stopped t u (context e) (inl (r, n)) = inl (r, end_context_some e t.ctx)
Change-Stopped t u (context e) (inr over) = inr over
Change-Stopped t u (ending now out err) (inl (r, n)) = rw r (inr (finished_stopped t out err n))
Change-Stopped t u (ending now out err) (inr (inl c)) =
    let over : terminal t.state ≡ true = rw c in rw over (inr (inl c))
Change-Stopped t u (ending now out err) (inr (inr c)) =
    let over : terminal t.state ≡ true = rw c in rw over (inr (inr c))

-- Once Close has ended the contexts, work that was running ends as canceled or timed out, or not
-- at all: whatever it reports and whatever follows, it is not taken for a success or a failure.
pub stop-Stopped :
    (es : List Event) (m : Manager) (p : ℕ)
    → p < m.next
    → terminal (m.cells p).state ≡ false
    → let t = (steps (stop m) es).cells p in
      (terminal t.state ≡ false) ⊎ (t.state ≡ canceled) ⊎ (t.state ≡ timed_out)
unfolding Stopped stop
stop-Stopped es m p h r =
    let start : Stopped ((stop m).cells p) =
      inl (r, end_context_some context_canceled (m.cells p).ctx) in
    elim (steps_keep Stopped Change-Stopped es (stop m) p h start) [
      | inl (f, _) ↦ inl f
      | inr over ↦ inr over
    ]
