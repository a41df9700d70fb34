-- ===== src/Txn/Execute.antt =====
-- companion/internal/txn/engine.go: Execute. The database
-- calls and the approval are what the surroundings say; measuring trees and impact is left out.
use fylane.Common.{
  nat_beq, ◌+◌, Bool, true, false, List, [], ◌++◌, Option, none, some, if◌then◌else◌, ltb, ◌==◌,
  not, map, length,
}
use fylane.Common.Text.{Text, codes, text_eq}
use fylane.Common.Dict.{insert}
use fylane.Txn.{Decision}
use fylane.Txn.Disk.{Nodes, Disk}
use fylane.Txn.Ops.{PlannedOp, Workspace, Planned, ready, conflicted, invalid, max_ops}
use fylane.Txn.Plan.{plan}
use fylane.Txn.Apply.{
  backup, apply, Outcome, ApplyError, appeared, changed, write_failed, move_failed, delete_failed,
  verification_failed,
}
use fylane.Txn.Apply
use fylane.Txn.Effect.{reconcile, not_started_effects}
use fylane.Txn.Store.{
  set_pending, set_approved, set_applied, set_denied, set_failed, ChangeSet, Request, applied,
  conflict, denied, pending_approval, Result, read_only, no_operations, too_many_operations,
  store_failed, different_operations, approval_failed, journal_failed, plan_invalid, Reply, replied,
  refused, Engine, Surroundings, blank_result, rollback_retention, approval_request, before_hashes,
  after_hashes,
}
use fylane.Txn.Claim.{
  release, Claim, fresh, resumes, finished, not_claimed, claim, put, finish, audit_ops, op_result,
  same_operations,
}

-- The reasons of the source, without the wrapped error.
abbrev pub error_text : ApplyError → Text
error_text (appeared p) = p ++ codes " appeared while awaiting approval; re-plan the change"
error_text (changed p) =
    p ++ codes " changed while awaiting approval; read it again and re-plan the change"
error_text (write_failed p) = codes "writing " ++ p
error_text (move_failed p) = codes "moving " ++ p
error_text (delete_failed p) = codes "deleting " ++ p
error_text (verification_failed p) = codes "verification failed for " ++ p

module _ (env : Surroundings) where
  abbrev pub failed_result : ChangeSet → Text → Result
  failed_result rec reason = record blank_result { change_set_id = rec.id; reason = reason }

  unfoldable pub journal : ChangeSet → List PlannedOp → Engine → Engine × Reply
  unfolding audit_ops after_hashes
  journal rec ps st =
      let deadline = env.now + rollback_retention in
      let rec' : ChangeSet = record rec {
        status = set_applied;
        after_hashes = after_hashes ps [];
        applied_at = env.now;
        rollback_deadline = deadline;
      } in
      if env.journal_fails then (st, refused journal_failed) else (
        audit_ops rec' ps (put rec' st),
        replied (record blank_result {
          status = applied;
          change_set_id = rec.id;
          rollback_available_until = deadline;
          operations = map op_result ps;
        }),
      )

  -- Steps 11 to 14, with the outcome of apply.
  unfoldable pub conclude : ChangeSet → List PlannedOp → Engine → Outcome → Engine × Reply
  unfolding journal finish reconcile
  conclude rec ps st Apply.applied = journal rec ps st
  conclude rec ps st (Apply.failed e too) = (
    finish env.finish_fails rec set_failed (error_text e) st,
    replied (record (failed_result rec (error_text e)) {
      effects = reconcile env.hash st.disk.nodes ps;
    }),
  )

  abbrev pub with_disk : Engine → Disk → Engine
  with_disk st d = record st { disk = d }

  unfoldable pub apply_saved :
      ChangeSet → List PlannedOp → Engine → Disk × Nodes × Bool → Engine × Reply
  unfolding conclude apply finish not_started_effects
  apply_saved rec ps st (d, saved, false) = (
    finish env.finish_fails rec set_failed (codes "backup failed") (with_disk st d),
    replied
        (record (failed_result rec (codes "backup failed")) { effects = not_started_effects ps }),
  )
  apply_saved rec ps st (d, saved, true) =
      let rec' : ChangeSet = record rec { backup_location = rec.id } in
      let (d', outcome) = apply env.hash saved ps d in
      conclude rec' ps (record st { disk = d'; saved = insert rec.id saved st.saved }) outcome

  -- Steps 10 to 14, once the approval is recorded.
  unfoldable pub write_approved : ChangeSet → List PlannedOp → Engine → Engine × Reply
  unfolding apply_saved backup
  write_approved rec ps st = apply_saved rec ps st (backup ps st.disk [])

  unfoldable pub decided : ChangeSet → List PlannedOp → Engine → Option Decision → Engine × Reply
  unfolding write_approved finish
  decided rec ps st none =
      (finish env.finish_fails rec set_failed (codes "approval error") st, refused approval_failed)
  decided rec ps st (some d) =
      let reason = if d.reason == [] then codes "user_rejected" else d.reason in
      let rec' : ChangeSet = record rec { status = set_approved; approved_at = env.now } in
      if d.pending
      then (
        st,
        replied (record blank_result {
          status = pending_approval;
          change_set_id = rec.id;
          reason = codes "waiting for local approval; retry this call with the same change_set_id";
        }),
      )
      else if not d.approved
      then (
        finish env.finish_fails rec set_denied reason st,
        replied (record blank_result { status = denied; change_set_id = rec.id; reason = reason }),
      )
      else if env.update_fails
      then (st, refused store_failed)
      else write_approved rec' ps (put rec' st)

  -- Step 9: the question, and what happens to the disk before the answer.
  unfoldable pub ask :
      Workspace → Request → Text → ChangeSet → List PlannedOp → Engine → Engine × Reply
  unfolding decided approval_request
  ask ws req id rec ps st =
      decided rec ps (with_disk st (env.meanwhile st.disk))
        (env.approve (approval_request ws req id ps))

  abbrev pub new_record : Workspace → Request → Text → List PlannedOp → ChangeSet
  new_record ws req id ps = record {
    id = id;
    workspace_id = ws.id;
    provider = req.provider;
    summary = req.summary;
    operations = req.operations;
    status = set_pending;
    before_hashes = before_hashes ps [];
    after_hashes = [];
    backup_location = [];
    approved_at = 0;
    applied_at = 0;
    rollback_deadline = 0;
  }

  unfoldable pub record_and_ask :
      Workspace → Request → Text → Option ChangeSet → List PlannedOp → Engine → Engine × Reply
  unfolding ask before_hashes
  record_and_ask ws req id (some rec) ps st = ask ws req id rec ps st
  record_and_ask ws req id none ps st =
      let rec = new_record ws req id ps in
      if env.create_fails then (st, refused store_failed) else ask ws req id rec ps (put rec st)

  unfoldable pub drop_resumed : Option ChangeSet → Text → Engine → Engine
  unfolding finish
  drop_resumed none reason st = st
  drop_resumed (some rec) reason st =
      finish env.finish_fails rec set_failed (codes "conflict on retry: " ++ reason) st

  unfoldable pub run_plan :
      Workspace
      → Request
      → Text
      → Option ChangeSet
      → Engine
      → Planned (List PlannedOp)
      → Engine × Reply
  unfolding record_and_ask drop_resumed
  run_plan ws req id resume st (invalid e) = (st, refused (plan_invalid e))
  run_plan ws req id resume st (conflicted c) = (
    drop_resumed resume c.reason st,
    replied (record blank_result { status = conflict; conflict_found = some c }),
  )
  run_plan ws req id resume st (ready ps) = record_and_ask ws req id resume ps st

  unfoldable pub run : Workspace → Request → Text → Option ChangeSet → Engine → Engine × Reply
  unfolding run_plan plan
  run ws req id resume st =
      run_plan ws req id resume st (plan env.hash env.diff_text ws st.disk.nodes req.operations)

  unfoldable pub run_claimed : Workspace → Request → Text → Engine → Claim → Engine × Reply
  unfolding run same_operations release
  run_claimed ws req id st (not_claimed e) = (st, refused e)
  run_claimed ws req id st (finished r) = (st, replied r)
  run_claimed ws req id st fresh = let (t, reply) = run ws req id none st in (release id t, reply)
  run_claimed ws req id st (resumes rec) =
      let (t, reply) = run ws req id (some rec) st in
      if same_operations rec.operations req.operations
      then (release id t, reply)
      else (release id st, refused different_operations)

  unfoldable pub execute : Workspace → Request → Engine → Engine × Reply
  unfolding run_claimed claim
  execute ws req st =
      let id = if req.change_set_id == [] then env.new_id else req.change_set_id in
      let (t, claimed) = claim env.get_fails id st in
      if not ws.writable
      then (st, refused read_only)
      else if nat_beq (length req.operations) 0
      then (st, refused no_operations)
      else if ltb max_ops (length req.operations)
      then (st, refused too_many_operations)
      else run_claimed ws req id t claimed
