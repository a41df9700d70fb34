-- ===== src/Approval/Race.antt =====
-- Resolve releases the lock between deciding a prompt and filing the decision: what a waiter that
-- wakes in between leaves behind.
use fylane.Common.{ℕ, ◌-◌, ◌<◌, ◌≡◌, refl, ◌∙◌, ap, Bool, false, arith}
use fylane.Common.Text.{Text, text_eq, text_beq_iff}
use fylane.Common.Dict.{delete, lookup-insert}
use fylane.Txn.{ApprovalRequest}
use fylane.Approval.State.{Service, Pending, Cells, decision_ttl, write_cell}
use fylane.Approval.Prompts.{
  attach, attach_pending, open_prompt, wake, remove, done, mark, file, local_decision,
}
use fylane.Approval.Attach.{
  file_lem, file_fields, decided_cell, mark_first, write_cell_self, attach_replays,
}

-- The waiter collects the decision before Resolve files it, and the collected decision is left in
-- the store: the next request for the change set from the same platform, within the limit, gets
-- the same decision again with nobody asked.
pub late_file-replays :
    (now later : ℕ) (s : Service) (req : ApprovalRequest) (p : ℕ) (approved : Bool) (reason : Text)
    → (s.cells p).decided ≡ false
    → (s.cells p).request.provider ≡ req.provider
    → later - now < decision_ttl
    → let id = req.change_set_id in
      let (woken, collected) = wake (mark now p (local_decision approved reason) s).0 id p done in
      let (u, q, is_new) = attach later (file now id p approved woken) req in
      (collected ≡ local_decision approved reason)
      × (is_new ≡ false)
      × ((wake u id q done).1 ≡ local_decision approved reason)
unfolding wake remove
late_file-replays now later s req p approved reason undecided same young =
    let d = local_decision approved reason in
    let id = req.change_set_id in
    let marked : Service = record s {
      cells = write_cell p (decided_cell now d (s.cells p)) s.cells;
    } in
    let woken : Service = remove id marked in
    let t = file now id p approved woken in
    let cell : (woken.cells p ≡ decided_cell now d (s.cells p)) =
      write_cell_self p (decided_cell now d (s.cells p)) s.cells in
    let (gone, kept) = file_lem now id p approved woken (ap (λ (c : Pending). c.decided_at) cell) in
    let (_, _, cells, _) = file_fields now id p approved woken in
    let cell' : (t.cells p ≡ decided_cell now d (s.cells p)) =
      ap (λ (f : Cells). f p) cells ∙ cell in
    let a : attach later t req ≡ (record t { decided = delete id t.decided }, p, false) =
      attach_replays later t req p gone kept (rw cell' young) (rw cell' same) in
    rw (mark_first now p d s undecided)
      (rw a (ap (λ (c : Pending). c.decision) cell, refl, ap (λ (c : Pending). c.decision) cell'))

-- A second platform that asks for a change set whose prompt is still open shares that prompt,
-- whatever platform the prompt was made for.
pub attach_any_provider :
    (now later : ℕ) (s : Service) (first second : ApprovalRequest)
    → first.change_set_id ≡ second.change_set_id
    → let (t, p, _) = open_prompt now s first in attach later t second ≡ (t, p, false)
unfolding open_prompt attach attach_pending
attach_any_provider now later s first second e = ground (
  arith,
  text_beq_iff first.change_set_id second.change_set_id,
  lookup-insert first.change_set_id second.change_set_id s.next s.pending,
)
