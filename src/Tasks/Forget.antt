-- ===== src/Tasks/Forget.antt =====
-- Forgetting finished tasks keeps every running task in the table, and its key with it.
use mathlib.Core.Bool.{true≢false}
use fylane.Common.{
  ℕ, ◌-◌, ◌<◌, ◌≡◌, ◌≢◌, refl, sym, ◌∙◌, inl, inr, subst, Bool, true, false, List, [], ◌∷◌, Option,
  none, some, if◌then◌else◌, ltb, leb, length, All, filter, ◌==◌, ==→eq, ne→==, Bool-cases,
  if_cases, and_true,
}
use fylane.Common.Sort.{All-sort_by}
use fylane.Common.Text.{Text, text_eq}
use fylane.Common.Dict.{Dict, lookup, lookup-delete, lookup_of_delete}
use fylane.Tasks.State.{Task, terminal}
use fylane.Tasks.Manager.{
  Manager, unkey, forget, forget_if, forget_where, expired, ended, trim, purge, collect,
  finished_tasks, ids_of, older, with_address,
}

abbrev pub Running : Manager → ℕ → Type 0
Running m p = (p < m.next) × (terminal (m.cells p).state ≡ false)

-- The table: an entry stands under the id of its task; a running task is found under its id, and
-- its key stands for that id.
pub record Inv (m : Manager) : Type 0 where
  pub found :
      (id : Text) (p : ℕ) → lookup id m.tasks ≡ some p → (p < m.next) × ((m.cells p).id ≡ id)
  pub live : (p : ℕ) → Running m p → lookup (m.cells p).id m.tasks ≡ some p
  pub keyed :
      (p : ℕ)
      → Running m p
      → (m.cells p).key ≢ []
      → lookup (m.cells p).key m.by_key ≡ some (m.cells p).id

-- No running task has the id.
abbrev pub Unused : Manager → Text → Type 0
Unused m id = (p : ℕ) → Running m p → id ≢ (m.cells p).id

unkey_kept :
    (id key k v : Text) (o : Option Text) (by_key : Dict Text Text)
    → o ≡ lookup key by_key
    → lookup k by_key ≡ some v
    → id ≢ v
    → lookup k (unkey id key o by_key) ≡ some v
unfolding unkey
unkey_kept id key k v none by_key e h n = h
unkey_kept id key k v (some held) by_key e h n = elim (Bool-cases (held == id)) [
  | inr other ↦ rw other h
  | inl same ↦
      rw (same, lookup-delete key k by_key)
        (elim (Bool-cases (key == k)) [
          | inr other ↦ rw other h
          | inl at ↦
              let a : key ≡ k = ==→eq key k at in
              let b : held ≡ id = ==→eq held id same in
              absurd (
                n (
                  let c : some held ≡ lookup k by_key =
                    subst (λ x. some held ≡ lookup x by_key) a e in
                  cc))
        ])
]

forget_key :
    (id k v : Text) (t : Task) (m : Manager)
    → lookup k m.by_key ≡ some v
    → id ≢ v
    → lookup k (forget id t m).by_key ≡ some v
unfolding forget
forget_key id k v t m h n =
    if_cases (λ d. lookup k d ≡ some v) (t.key == []) m.by_key
      (unkey id t.key (lookup t.key m.by_key) m.by_key) (λ _. h)
      (λ _. unkey_kept id t.key k v (lookup t.key m.by_key) m.by_key refl h n)

pub lookup-forget :
    (id j : Text) (t : Task) (m : Manager)
    → lookup j (forget id t m).tasks ≡ (if id == j then none else lookup j m.tasks)
unfolding forget
lookup-forget id j t m = lookup-delete id j m.tasks

-- What forgetting leaves alone: it only takes entries out.
pub record OnlyForgets (m n : Manager) : Type 0 where
  pub cells : n.cells ≡ m.cells
  pub next : n.next ≡ m.next
  pub max_tasks : n.max_tasks ≡ m.max_tasks
  pub closed : n.closed ≡ m.closed
  pub stopped : n.stopped ≡ m.stopped
  pub fewer : (id : Text) (p : ℕ) → lookup id n.tasks ≡ some p → lookup id m.tasks ≡ some p

abbrev pub same_self : (m : Manager) → OnlyForgets m m
same_self m = record {
  cells = refl;
  next = refl;
  max_tasks = refl;
  closed = refl;
  stopped = refl;
  fewer = λ id p h. h;
}

pub forget_same : (id : Text) (t : Task) (m : Manager) → OnlyForgets m (forget id t m)
unfolding forget
forget_same id t m = record {
  cells = refl;
  next = refl;
  max_tasks = refl;
  closed = refl;
  stopped = refl;
  fewer = λ j p h. lookup_of_delete id j p m.tasks h;
}

forget-Inv : (id : Text) (t : Task) (m : Manager) → Unused m id → Inv m → Inv (forget id t m)
unfolding forget
forget-Inv id t m unused v = record {
  found = λ j p h. v.found j p (lookup_of_delete id j p m.tasks h);
  live = λ p r.
      lookup-forget id (m.cells p).id t m ∙ rw (ne→== id (m.cells p).id (unused p r)) (v.live p r);
  keyed = λ p r k. forget_key id (m.cells p).key (m.cells p).id t m (v.keyed p r k) (unused p r);
}

-- A finished task of the table has an id of its own.
finished-Unused :
    (m : Manager) (id : Text) (p : ℕ)
    → Inv m
    → lookup id m.tasks ≡ some p
    → terminal (m.cells p).state ≡ true
    → Unused m id
finished-Unused m id p v h t q r e =
    let same : some p ≡ some q = sym h ∙ rw e (v.live q r) in
    let eq : p ≡ q = cc in true≢false (sym t ∙ rw eq r.1)

-- A predicate that holds of finished tasks only.
abbrev pub OnlyEnded : (Task → Bool) → Type 0
OnlyEnded p = (t : Task) → p t ≡ true → terminal t.state ≡ true

same_trans : {l m n : Manager} → OnlyForgets l m → OnlyForgets m n → OnlyForgets l n
same_trans s t = record {
  cells = t.cells ∙ s.cells;
  next = t.next ∙ s.next;
  max_tasks = t.max_tasks ∙ s.max_tasks;
  closed = t.closed ∙ s.closed;
  stopped = t.stopped ∙ s.stopped;
  fewer = λ id p h. s.fewer id p (t.fewer id p h);
}

pub forget_if_same :
    (p : Task → Bool) (id : Text) (o : Option ℕ) (m : Manager)
    → OnlyForgets m (forget_if p id o m).0
unfolding forget_if
forget_if_same p id none m = same_self m
forget_if_same p id (some at) m =
    if_cases (λ (r : Manager × Bool). OnlyForgets m r.0) (p (m.cells at))
      (forget id (m.cells at) m, true) (m, false) (λ _. forget_same id (m.cells at) m)
      (λ _. same_self m)

pub forget_where_same :
    (p : Task → Bool) (ids : List Text) (m : Manager) → OnlyForgets m (forget_where p ids m).0
unfolding forget_where
forget_where_same p [] m = same_self m
forget_where_same p (id ∷ ids) m =
    same_trans (forget_if_same p id (lookup id m.tasks) m)
      (forget_where_same p ids (forget_if p id (lookup id m.tasks) m).0)

pub trim_same : (ps : List ℕ) (m : Manager) → OnlyForgets m (trim ps m)
unfolding trim
trim_same [] m = same_self m
trim_same (p ∷ ps) m =
    let n = forget (m.cells p).id (m.cells p) m in
    if_cases (OnlyForgets m) (leb (length m.tasks) m.max_tasks) m (trim ps n) (λ _. same_self m)
      (λ _. same_trans (forget_same (m.cells p).id (m.cells p) m) (trim_same ps n))

pub purge_same : (now : ℕ) (m : Manager) → OnlyForgets m (purge now m)
unfolding purge
purge_same now m =
    let kept = (forget_where (expired now m.retention) (ids_of m) m).0 in
    let same = forget_where_same (expired now m.retention) (ids_of m) m in
    if_cases (OnlyForgets m) (leb (length kept.tasks) kept.max_tasks) kept
      (trim (finished_tasks kept) kept) (λ _. same)
      (λ _. same_trans same (trim_same (finished_tasks kept) kept))

forget_if-Inv :
    (p : Task → Bool) (id : Text) (o : Option ℕ) (m : Manager)
    → OnlyEnded p
    → o ≡ lookup id m.tasks
    → Inv m
    → Inv (forget_if p id o m).0
unfolding forget_if
forget_if-Inv p id none m only e v = v
forget_if-Inv p id (some at) m only e v = elim (Bool-cases (p (m.cells at))) [
  | inr h ↦ rw h v
  | inl h ↦
      rw h
        (forget-Inv id (m.cells at) m (finished-Unused m id at v (sym e) (only (m.cells at) h)) v)
]

pub forget_where-Inv :
    (p : Task → Bool) (ids : List Text) (m : Manager)
    → OnlyEnded p
    → Inv m
    → Inv (forget_where p ids m).0
unfolding forget_where
forget_where-Inv p [] m only v = v
forget_where-Inv p (id ∷ ids) m only v =
    forget_where-Inv p ids (forget_if p id (lookup id m.tasks) m).0 only
      (forget_if-Inv p id (lookup id m.tasks) m only refl v)

-- Every address of the list holds a finished task whose id no running task has.
abbrev pub AllUnused : Manager → List ℕ → Type 0
AllUnused m ps = All (λ p. Unused m (m.cells p).id) ps

trim-Inv : (ps : List ℕ) (m : Manager) → AllUnused m ps → Inv m → Inv (trim ps m)
unfolding trim forget
trim-Inv [] m u v = v
trim-Inv (p ∷ ps) m (u, us) v = elim (Bool-cases (leb (length m.tasks) m.max_tasks)) [
  | inl h ↦ rw h v
  | inr h ↦ rw h (
      trim-Inv ps (forget (m.cells p).id (m.cells p) m) us
        (forget-Inv (m.cells p).id (m.cells p) m u v))
]

collected-Unused :
    (m : Manager) (id : Text) (o : Option ℕ) (ps : List ℕ)
    → Inv m
    → o ≡ lookup id m.tasks
    → AllUnused m (filter (λ p. ended (m.cells p)) ps)
    → AllUnused m (filter (λ p. ended (m.cells p)) (with_address o ps))
collected-Unused m id none ps v e us = us
collected-Unused m id (some p) ps v e us = elim (Bool-cases (ended (m.cells p))) [
  | inr h ↦ rw h us
  | inl h ↦ rw h (rw (v.found id p (sym e)).1 (finished-Unused m id p v (sym e) h), us)
]

AllUnused-collect :
    (m : Manager) (ids : List Text)
    → Inv m
    → AllUnused m (filter (λ p. ended (m.cells p)) (collect m.tasks ids))
unfolding collect
AllUnused-collect m [] v = tt
AllUnused-collect m (id ∷ ids) v =
    collected-Unused m id (lookup id m.tasks) (collect m.tasks ids) v refl
      (AllUnused-collect m ids v)

AllUnused-finished : (m : Manager) → Inv m → AllUnused m (finished_tasks m)
unfolding finished_tasks
AllUnused-finished m v =
    All-sort_by (λ a b. older (m.cells a) (m.cells b)) (λ p. Unused m (m.cells p).id)
      (filter (λ p. ended (m.cells p)) (collect m.tasks (ids_of m)))
      (AllUnused-collect m (ids_of m) v)

pub expired-OnlyEnded : (now retention : ℕ) → OnlyEnded (expired now retention)
expired-OnlyEnded now retention t h =
    (and_true (terminal t.state) (ltb retention (now - t.ended_at)) h).0

pub purge-Inv : (now : ℕ) (m : Manager) → Inv m → Inv (purge now m)
unfolding purge
purge-Inv now m v =
    let kept = (forget_where (expired now m.retention) (ids_of m) m).0 in
    let w =
      forget_where-Inv (expired now m.retention) (ids_of m) m (expired-OnlyEnded now m.retention)
        v in
    if_cases Inv (leb (length kept.tasks) kept.max_tasks) kept (trim (finished_tasks kept) kept)
      (λ _. w) (λ _. trim-Inv (finished_tasks kept) kept (AllUnused-finished kept w) w)
