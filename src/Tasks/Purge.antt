-- ===== src/Tasks/Purge.antt =====
-- What a purge and Clear take out of the table, and what they leave.
use native.Mathlib.Nat.{le_trans}
use mathlib.Core.Bool.{true≢false}
use fylane.Common.{
  ℕ, ◌<◌, ◌≤◌, ◌≡◌, ◌≢◌, ◌⊎◌, ◌↔◌, refl, sym, ◌∙◌, subst, inl, inr, Bool, true, false, List, [],
  ◌∷◌, Option, none, some, leb, leb→le, le→leb, length, All, filter, map, ◌==◌, ==→eq, ==-refl,
  ne→==, Bool-cases, Option-cases, if_cases, arith,
}
use fylane.Common.Sort.{All-of_sort_by}
use fylane.Common.Text.{Text, text_eq}
use fylane.Common.Dict.{Dict, lookup, length-delete-le}
use fylane.Tasks.State.{Task, terminal}
use fylane.Tasks.Manager.{
  Options, Manager, forget, forget_if, forget_where, expired, ended, trim, purge, collect,
  finished_tasks, ids_of, older, with_address,
}
use fylane.Tasks.Calls.{Run, clear}
use fylane.Tasks.Forget.{
  Inv, Running, OnlyForgets, forget_if_same, lookup-forget, forget_where_same, trim_same,
  purge_same, purge-Inv, forget_where-Inv, expired-OnlyEnded,
}
use fylane.Tasks.Invariant.{Run-Inv}

some≢none : {p : ℕ} → ◌≢◌ {A = Option ℕ} (some p) none
some≢none h = cc

-- After the loop has met a key, what stands there does not satisfy the test.
forget_if_gone :
    (p : Task → Bool) (id : Text) (q : ℕ) (o : Option ℕ) (m : Manager)
    → lookup id m.tasks ≡ o
    → lookup id (forget_if p id o m).0.tasks ≡ some q
    → p (m.cells q) ≡ false
unfolding forget_if
forget_if_gone p id q none m e h = absurd (some≢none (sym h ∙ e))
forget_if_gone p id q (some at) m e h = elim (Bool-cases (p (m.cells at))) [
  | inl y ↦
      let k : lookup id (forget id (m.cells at) m).tasks ≡ some q = rw y at h in
      absurd (some≢none (sym k ∙ lookup-forget id id (m.cells at) m ∙ rw (==-refl id)))
  | inr n ↦
      let k : lookup id m.tasks ≡ some q = rw n at h in
      let same : at ≡ q = let s : some at ≡ some q = sym e ∙ k in cc in
      subst (λ x. p (m.cells x) ≡ false) same n
]

forget_where_gone :
    (p : Task → Bool) (id : Text) (w q : ℕ) (es : Dict Text ℕ) (m : Manager)
    → lookup id es ≡ some w
    → lookup id (forget_where p (map (λ e. e.0) es) m).0.tasks ≡ some q
    → p (m.cells q) ≡ false
unfolding forget_where lookup
forget_where_gone p id w q [] m e h = cc
forget_where_gone p id w q ((j, v) ∷ es) m e h =
    let n = (forget_if p j (lookup j m.tasks) m).0 in
    elim (Bool-cases (j == id)) [
      | inl y ↦
          let left = (forget_where_same p (map (λ e. e.0) es) n).fewer id q h in
          let same : j ≡ id = ==→eq j id y in
          forget_if_gone p j q (lookup j m.tasks) m refl
            (subst (λ x. lookup x n.tasks ≡ some q) (sym same) left)
      | inr y ↦
          let below : lookup id es ≡ some w = rw y at e in
          let ih = forget_where_gone p id w q es n below h in
          subst (λ (c : ℕ → Task). p (c q) ≡ false) (forget_if_same p j (lookup j m.tasks) m).cells
            ih
    ]

-- The loop keeps what does not satisfy the test.
forget_if_kept :
    (p : Task → Bool) (j id : Text) (q : ℕ) (o : Option ℕ) (m : Manager)
    → lookup j m.tasks ≡ o
    → lookup id m.tasks ≡ some q
    → p (m.cells q) ≡ false
    → lookup id (forget_if p j o m).0.tasks ≡ some q
unfolding forget_if
forget_if_kept p j id q none m e h f = h
forget_if_kept p j id q (some at) m e h f =
    if_cases (λ (r : Manager × Bool). lookup id r.0.tasks ≡ some q) (p (m.cells at))
      (forget j (m.cells at) m, true) (m, false)
      (λ y.
        let other : j ≢ id = λ same.
          let s : some at ≡ some q = sym e ∙ rw same h in
          let eq : at ≡ q = cc in true≢false (sym y ∙ rw eq f) in
        lookup-forget j id (m.cells at) m ∙ rw (ne→== j id other) h)
      (λ _. h)

forget_where_kept :
    (p : Task → Bool) (id : Text) (q : ℕ) (ids : List Text) (m : Manager)
    → lookup id m.tasks ≡ some q
    → p (m.cells q) ≡ false
    → lookup id (forget_where p ids m).0.tasks ≡ some q
unfolding forget_where
forget_where_kept p id q [] m h f = h
forget_where_kept p id q (j ∷ ids) m h f =
    forget_where_kept p id q ids (forget_if p j (lookup j m.tasks) m).0
      (forget_if_kept p j id q (lookup j m.tasks) m refl h f)
      (subst (λ (c : ℕ → Task). p (c q) ≡ false)
        (sym (forget_if_same p j (lookup j m.tasks) m).cells) f)

length-forget_if :
    (p : Task → Bool) (j : Text) (o : Option ℕ) (m : Manager)
    → length (forget_if p j o m).0.tasks ≤ length m.tasks
unfolding forget_if forget
length-forget_if p j none m = omega arith
length-forget_if p j (some at) m =
    if_cases (λ (r : Manager × Bool). length r.0.tasks ≤ length m.tasks) (p (m.cells at))
      (forget j (m.cells at) m, true) (m, false) (λ _. length-delete-le j m.tasks)
      (λ _. omega arith)

length-forget_where :
    (p : Task → Bool) (ids : List Text) (m : Manager)
    → length (forget_where p ids m).0.tasks ≤ length m.tasks
unfolding forget_where
length-forget_where p [] m = omega arith
length-forget_where p (j ∷ ids) m = omega (
  arith,
  length-forget_if p j (lookup j m.tasks) m,
  length-forget_where p ids (forget_if p j (lookup j m.tasks) m).0,
)

forgotten : (id : Text) (t : Task) (m : Manager) → lookup id (forget id t m).tasks ≡ none
forgotten id t m = lookup-forget id id t m ∙ rw (==-refl id)

trimmed_none :
    (ps : List ℕ) (m : Manager) (id : Text)
    → lookup id m.tasks ≡ none
    → lookup id (trim ps m).tasks ≡ none
trimmed_none ps m id h = elim (Option-cases (lookup id (trim ps m).tasks)) [
  | inl n ↦ n
  | inr (q, s) ↦ absurd (some≢none (sym ((trim_same ps m).fewer id q s) ∙ h))
]

-- The loop of trim ends within the cap, or has forgotten its whole list.
trim_end :
    (ps : List ℕ) (m : Manager)
    → (length (trim ps m).tasks ≤ m.max_tasks)
      ⊎ All (λ p. lookup (m.cells p).id (trim ps m).tasks ≡ none) ps
unfolding trim forget
trim_end [] m = inr tt
trim_end (p ∷ ps) m =
    let n = forget (m.cells p).id (m.cells p) m in
    if_cases
      (λ (r : Manager).
        (length r.tasks ≤ m.max_tasks) ⊎ All (λ q. lookup (m.cells q).id r.tasks ≡ none) (p ∷ ps))
      (leb (length m.tasks) m.max_tasks) m (trim ps n)
      (λ h. inl (leb→le (length m.tasks) m.max_tasks h))
      (λ _. elim (trim_end ps n) [
        | inl le ↦ inl le
        | inr all ↦
            inr (trimmed_none ps n (m.cells p).id (forgotten (m.cells p).id (m.cells p) m), all)
      ])

filter_rest :
    (P : ℕ → Type 0) (f : ℕ → Bool) (o : Option ℕ) (ps : List ℕ)
    → All P (filter f (with_address o ps))
    → All P (filter f ps)
filter_rest P f none ps h = h
filter_rest P f (some p) ps h =
    if_cases (λ r. All P r → All P (filter f ps)) (f p) (p ∷ filter f ps) (filter f ps) (λ _ k. k.1)
      (λ _ k. k) h

collected :
    (P : ℕ → Type 0) (m : Manager) (id : Text) (p : ℕ) (es : Dict Text ℕ)
    → lookup id es ≡ some p
    → lookup id m.tasks ≡ some p
    → ended (m.cells p) ≡ true
    → All P (filter (λ q. ended (m.cells q)) (collect m.tasks (map (λ e. e.0) es)))
    → P p
unfolding collect lookup
collected P m id p [] e h t all = cc
collected P m id p ((j, v) ∷ es) e h t all = elim (Bool-cases (j == id)) [
  | inl y ↦
      let same : lookup j m.tasks ≡ some p = rw (==→eq j id y) h in
      let at : All P (filter (λ q. ended (m.cells q)) (p ∷ collect m.tasks (map (λ e. e.0) es))) =
        rw same at all in
      (rw t at at).0
  | inr y ↦
      let below : lookup id es ≡ some p = rw y at e in
      collected P m id p es below h t (
        filter_rest P (λ q. ended (m.cells q)) (lookup j m.tasks)
          (collect m.tasks (map (λ e. e.0) es)) all)
]

finished_forgotten :
    (P : ℕ → Type 0) (m : Manager) (id : Text) (p : ℕ)
    → lookup id m.tasks ≡ some p
    → ended (m.cells p) ≡ true
    → All P (finished_tasks m)
    → P p
unfolding finished_tasks
finished_forgotten P m id p h t all = collected P m id p m.tasks h h t (
    All-of_sort_by (λ a b. older (m.cells a) (m.cells b)) P
      (filter (λ q. ended (m.cells q)) (collect m.tasks (ids_of m))) all)

-- A running task stays in the table.
pub kept_live :
    (m n : Manager)
    → OnlyForgets m n
    → Inv n
    → (p : ℕ) → Running m p
    → lookup (m.cells p).id n.tasks ≡ some p
kept_live m n s w p r =
    let next : p < n.next = subst (λ k. p < k) (sym s.next) r.0 in
    let state : terminal (n.cells p).state ≡ false =
      subst (λ (c : ℕ → Task). terminal (c p).state ≡ false) (sym s.cells) r.1 in
    subst (λ (c : ℕ → Task). lookup (c p).id n.tasks ≡ some p) s.cells (w.live p (next, state))

forgotten_running :
    (m n : Manager)
    → Inv m
    → (id : Text) (p : ℕ) → lookup id m.tasks ≡ some p
    → lookup id n.tasks ≡ some p
    → All (λ q. lookup (m.cells q).id n.tasks ≡ none) (finished_tasks m)
    → terminal (m.cells p).state ≡ false
forgotten_running m n v id p h k all = elim (Bool-cases (ended (m.cells p))) [
  | inr running ↦ running
  | inl t ↦
      let gone = finished_forgotten (λ q. lookup (m.cells q).id n.tasks ≡ none) m id p h t all in
      absurd (some≢none (sym k ∙ subst (λ j. lookup j n.tasks ≡ none) (v.found id p h).1 gone))
]

-- The table after a purge.
pub record IsPurged (now : ℕ) (m n : Manager) : Type 0 where
  pub young :
      (id : Text) (p : ℕ) → lookup id n.tasks ≡ some p → expired now m.retention (m.cells p) ≡ false
  pub capped :
      (length n.tasks ≤ m.max_tasks)
      ⊎ ((id : Text) (p : ℕ) → lookup id n.tasks ≡ some p → terminal (m.cells p).state ≡ false)
  pub kept :
      (id : Text) (p : ℕ)
      → lookup id m.tasks ≡ some p
      → length m.tasks ≤ m.max_tasks
      → expired now m.retention (m.cells p) ≡ false
      → lookup id n.tasks ≡ some p
  pub running : (p : ℕ) → Running m p → lookup (m.cells p).id n.tasks ≡ some p
  pub cells : n.cells ≡ m.cells

purged : (now : ℕ) (m : Manager) → Inv m → IsPurged now m (purge now m)
unfolding purge
purged now m v =
    let late = expired now m.retention in
    let kept = (forget_where late (ids_of m) m).0 in
    let same = forget_where_same late (ids_of m) m in
    let n = trim (finished_tasks kept) kept in
    let more = trim_same (finished_tasks kept) kept in
    let young : (id : Text) (p : ℕ) → lookup id kept.tasks ≡ some p → late (m.cells p) ≡ false =
      λ id p h. forget_where_gone late id p p m.tasks m (same.fewer id p h) h in
    let w = forget_where-Inv late (ids_of m) m (expired-OnlyEnded now m.retention) v in
    let fits : length m.tasks ≤ m.max_tasks → length kept.tasks ≤ kept.max_tasks = λ small.
      subst (λ k. length kept.tasks ≤ k) (sym same.max_tasks)
        (le_trans (length-forget_where late (ids_of m) m) small) in
    let alive : (p : ℕ) → Running m p → lookup (m.cells p).id (purge now m).tasks ≡ some p =
      kept_live m (purge now m) (purge_same now m) (purge-Inv now m v) in
    if_cases (λ r. (r ≡ purge now m) → IsPurged now m r) (leb (length kept.tasks) kept.max_tasks)
      kept n
      (λ h e. record {
        young = young;
        capped = inl (
            subst (λ k. length kept.tasks ≤ k) same.max_tasks
              (leb→le (length kept.tasks) kept.max_tasks h));
        kept = λ id p l _ f. forget_where_kept late id p (ids_of m) m l f;
        running = λ p r. rw e (alive p r);
        cells = same.cells;
      })
      (λ h e. record {
        young = λ id p l. young id p (more.fewer id p l);
        capped = elim (trim_end (finished_tasks kept) kept) [
          | inl le ↦ inl (subst (λ k. length n.tasks ≤ k) same.max_tasks le)
          | inr all ↦ inr (λ id p l.
              subst (λ (c : ℕ → Task). terminal (c p).state ≡ false) same.cells
                (forgotten_running kept n w id p (more.fewer id p l) l all))
        ];
        kept = λ id p l small f.
            absurd (true≢false (sym (le→leb (length kept.tasks) kept.max_tasks (fits small)) ∙ h));
        running = λ p r. rw e (alive p r);
        cells = more.cells ∙ same.cells;
      })
      refl

-- A purge leaves no finished task that is past retention, and either brings the table within its
-- cap or leaves only running tasks in it. It takes out no running task, none that is young enough
-- where the table was within its cap, and changes none.
pub purge-IsPurged :
    {opts : Options} {m : Manager} (now : ℕ) → Run opts m → IsPurged now m (purge now m)
purge-IsPurged {m} now run = purged now m (Run-Inv run)

-- Clear takes out exactly the finished tasks.
pub lookup-clear :
    (id : Text) (p : ℕ) (m : Manager)
    → (lookup id (clear m).0.tasks ≡ some p)
      ↔ ((lookup id m.tasks ≡ some p) × (terminal (m.cells p).state ≡ false))
unfolding clear
lookup-clear id p m = (
  λ h.
      let before = (forget_where_same ended (ids_of m) m).fewer id p h in
      (before, forget_where_gone ended id p p m.tasks m before h),
  λ (h, f). forget_where_kept ended id p (ids_of m) m h f,
)
