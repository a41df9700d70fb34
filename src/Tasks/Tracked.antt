-- ===== src/Tasks/Tracked.antt =====
-- What a caller may rely on while a task runs.
use mathlib.Core.Bool.{true≢false}
use fylane.Common.{
  ℕ, ◌<◌, ◌≡◌, ◌≢◌, sym, ap, ◌∙◌, subst, true, false, [], Option, some, ne→==, if_cases,
}
use fylane.Common.Int.{ℤ}
use fylane.Common.Text.{Text, text_eq}
use fylane.Common.Dict.{lookup}
use fylane.Tasks.State.{Meta, Task, terminal, snapshot, context_canceled}
use fylane.Tasks.Manager.{
  Options, Manager, acquire, acquire_by, Acquired, attached, refused, shutting_down, in_flight,
  running_under, running_at, purge,
}
use fylane.Tasks.Calls.{Run, status, status_at, cancel, cancel_at, update, end_task}
use fylane.Tasks.Forget.{Inv, Running, purge_same, purge-Inv}
use fylane.Tasks.Purge.{kept_live}
use fylane.Tasks.Invariant.{Run-Inv}

-- The calls that concern the task at `p` find it: Status with any cursors answers with its
-- snapshot, Cancel ends its context, and a call with its key is attached to it.
pub record IsTracked (m : Manager) (p : ℕ) : Type 0 where
  pub seen :
      (now later : ℕ) (out err : ℤ)
      → (status now later (m.cells p).id out err m).1 ≡ some (snapshot later (m.cells p) out err)
  pub canceled : cancel (m.cells p).id m ≡ (update p (end_task context_canceled) m, true)
  pub attached_to :
      (now later : ℕ) (meta : Meta) (generated : Option Text)
      → meta.key ≡ (m.cells p).key
      → meta.key ≢ []
      → m.closed ≡ false
      → (acquire now later meta generated m).1 ≡ attached p
  pub alone :
      (q : ℕ) → Running m q → (m.cells q).key ≡ (m.cells p).key → (m.cells p).key ≢ [] → q ≡ p

Running-purge : (now : ℕ) (m : Manager) (p : ℕ) → Running m p → Running (purge now m) p
Running-purge now m p r =
    let s = purge_same now m in
    (
      subst (λ k. p < k) (sym s.next) r.0,
      subst (λ (c : ℕ → Task). terminal (c p).state ≡ false) (sym s.cells) r.1,
    )

attached_lem :
    (m : Manager) (p : ℕ) (key : Text)
    → Inv m
    → Running m p
    → key ≡ (m.cells p).key
    → key ≢ []
    → in_flight key m ≡ some p
unfolding in_flight running_under running_at
attached_lem m p key v r e named =
    rw (ne→== key [] named, e, v.keyed p r (rw e at named), v.live p r, r.1)

same_key :
    (m : Manager) (p q : ℕ)
    → Inv m
    → Running m p
    → Running m q
    → (m.cells q).key ≡ (m.cells p).key
    → (m.cells p).key ≢ []
    → q ≡ p
same_key m p q v r s e named =
    let k : lookup (m.cells p).key m.by_key ≡ some (m.cells q).id =
      subst (λ x. lookup x m.by_key ≡ some (m.cells q).id) e
        (v.keyed q s (λ n. named (sym e ∙ n))) in
    let l = v.keyed p r named in
    let ids : (m.cells q).id ≡ (m.cells p).id = cc in
    let found = v.live q s in
    let mine = v.live p r in let both : some q ≡ some p = sym found ∙ rw ids mine in cc

-- A task that runs is never lost, whatever has happened to the manager: Status and Cancel find it
-- under its id, and, if its key is not empty, no other running task has its key and a call with that
-- key is attached to it as long as the manager is not closed. New ids are assumed not to be in the
-- table.
pub Running-IsTracked :
    {opts : Options} {m : Manager} (p : ℕ) → Run opts m → Running m p → IsTracked m p
unfolding status status_at cancel cancel_at acquire acquire_by
Running-IsTracked {m} p run r =
    let v = Run-Inv run in
    record {
      seen = λ now later out err.
          rw (kept_live m (purge now m) (purge_same now m) (purge-Inv now m v) p r)
            (ap (λ (c : ℕ → Task). some (snapshot later (c p) out err)) (purge_same now m).cells);
      canceled = rw (v.live p r);
      attached_to = λ now later meta generated e named is_open.
          let d = purge now m in
          let e' : meta.key ≡ (d.cells p).key =
            subst (λ (c : ℕ → Task). meta.key ≡ (c p).key) (sym (purge_same now m).cells) e in
          let at =
            attached_lem d p meta.key (purge-Inv now m v) (Running-purge now m p r) e' named in
          if_cases (λ (x : Manager × Acquired). x.1 ≡ attached p) m.closed
            (m, refused shutting_down) (acquire_by later meta generated (in_flight meta.key d) d)
            (λ h. absurd (true≢false (sym h ∙ is_open))) (λ _. rw at);
      alone = λ q s e named. same_key m p q v r s e named;
    }
