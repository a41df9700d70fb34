-- ===== src/Txn/Rollback.antt =====
-- companion/internal/txn/rollback.go: Rollback.
use fylane.Common.{
  false, not, List, [], ◌∷◌, ◌++◌, Option, none, some, if◌then◌else◌, ◌==◌, any, ltb, map,
}
use mathlib.Core.List.{reverse}
use fylane.Common.Text.{Text, codes, text_eq}
use fylane.Common.Dict.{lookup}
use fylane.Txn.{ApprovalRequest, Decision, write}
use fylane.Txn.Disk.{Nodes, Disk}
use fylane.Txn.Ops.{Workspace}
use fylane.Txn.Store.{
  ChangeSetStatus, set_applied, set_failed, set_rolled_back, ChangeSet, Result, Engine,
  Surroundings, blank_result, conflict, denied, pending_approval, rolled_back, type_text,
  status_text, or_empty, OpResult,
}
use fylane.Txn.Claim.{release, put, finish}
use fylane.Txn.Inverse.{
  RollbackStep, RollbackError, read_only, already_executing, unknown_change_set, store_failed,
  other_workspace, approval_failed, journal_failed, Inverse, prepared, moved_on, impossible,
  plan_rollback, apply_rollback,
}

pub data RollbackReply : Type 0 where
  replied : Result → RollbackReply
  refused : RollbackError → RollbackReply

unfoldable pub rollback_request : Workspace → ChangeSet → List RollbackStep → ApprovalRequest
rollback_request ws rec steps = record {
  change_set_id = codes "rollback:" ++ rec.id;
  workspace_id = ws.id;
  workspace_name = ws.name;
  provider = rec.provider;
  summary = codes "Roll back change set " ++ (rec.id ++ (codes " (" ++ (rec.summary ++ codes ")")));
  operations = map (λ (s : RollbackStep). s.preview) steps;
  kind = write;
  must_ask = false;
  argv = [];
  rule = [];
  reason = [];
  dir = [];
  network = [];
  grant = false;
}

abbrev pub nodes_or_none : Option Nodes → Nodes
nodes_or_none none = []
nodes_or_none (some n) = n

-- The backup area of a change set.
abbrev pub backup_of : ChangeSet → Engine → Nodes
backup_of rec st = nodes_or_none (lookup rec.backup_location st.saved)

abbrev pub with_reason : ChangeSet → Text → Result
with_reason rec reason = record blank_result { change_set_id = rec.id; reason = reason }

abbrev pub step_result : RollbackStep → OpResult
step_result s = record { path = s.path; status = s.status; sha256 = [] }

-- The audit events: one for each step, and one for the change set.
unfoldable pub audit_steps : ChangeSet → List RollbackStep → Engine → Engine
audit_steps rec [] st = record st {
  audit = (rec.id, codes "change_set_rolled_back", codes "ok") ∷ st.audit;
}
audit_steps rec (s ∷ steps) st = audit_steps rec steps (record st {
  audit = (rec.id, codes "rollback_" ++ type_text s.op_type, codes "ok") ∷ st.audit;
})

module _ (env : Surroundings) where
  unfoldable pub rolled : ChangeSet → List RollbackStep → Engine → Engine × RollbackReply
  unfolding audit_steps
  rolled rec steps st =
      let rec' : ChangeSet = record rec { status = set_rolled_back } in
      if env.journal_fails then (st, refused journal_failed) else (
        audit_steps rec' steps (put rec' st),
        replied (record blank_result {
          status = rolled_back;
          change_set_id = rec.id;
          operations = map step_result steps;
        }),
      )

  unfoldable pub reversed :
      ChangeSet → List RollbackStep → Engine → Disk × Option Text → Engine × RollbackReply
  unfolding rolled finish
  reversed rec steps st (d, none) = rolled rec steps (record st { disk = d })
  reversed rec steps st (d, some path) =
      let reason = codes "restoring " ++ path in
      (
        finish env.finish_fails rec set_failed (codes "rollback failed: " ++ reason)
            (record st { disk = d }),
        replied (with_reason rec reason),
      )

  unfoldable pub rollback_decided :
      ChangeSet → List RollbackStep → Engine → Option Decision → Engine × RollbackReply
  unfolding reversed apply_rollback
  rollback_decided rec steps st none = (st, refused approval_failed)
  rollback_decided rec steps st (some d) =
      let reason = if d.reason == [] then codes "user_rejected" else d.reason in
      if d.pending
      then (
        st,
        replied
            (record (with_reason rec
              (codes "waiting for local approval; retry this call with the same change_set_id")) {
                status = pending_approval;
              }),
      )
      else if not d.approved
      then (st, replied (record (with_reason rec reason) { status = denied }))
      else reversed rec steps st (apply_rollback (backup_of rec st) steps st.disk)

  -- The question, and what happens to the disk before the answer.
  unfoldable pub rollback_ask :
      Workspace → ChangeSet → Engine → Inverse (List RollbackStep) → Engine × RollbackReply
  unfolding rollback_decided rollback_request
  rollback_ask ws rec st (impossible e) = (st, refused e)
  rollback_ask ws rec st (moved_on c) =
      (st, replied (record (with_reason rec []) { status = conflict; conflict_found = some c }))
  rollback_ask ws rec st (prepared steps) =
      rollback_decided rec steps (record st { disk = env.meanwhile st.disk })
        (env.approve (rollback_request ws rec steps))

  abbrev pub planned_rollback : Workspace → ChangeSet → Engine → Inverse (List RollbackStep)
  planned_rollback ws rec st =
      plan_rollback env.hash env.diff_text ws st.disk.nodes (backup_of rec st)
        (λ path. or_empty (lookup path rec.after_hashes)) (reverse rec.operations)

  unfoldable pub rollback_by :
      ChangeSetStatus → Workspace → ChangeSet → Engine → Engine × RollbackReply
  unfolding rollback_ask plan_rollback
  rollback_by set_applied ws rec st =
      if ltb rec.rollback_deadline env.now
      then (
        st,
        replied (with_reason rec (codes "the rollback window for this change set has expired")),
      )
      else rollback_ask ws rec st (planned_rollback ws rec st)
  rollback_by set_rolled_back ws rec st =
      (st, replied (record blank_result { status = rolled_back; change_set_id = rec.id }))
  rollback_by s ws rec st = (
    st,
    replied (
        with_reason rec (
          codes "change set has status " ++ (status_text s ++ codes " and cannot be rolled back"))),
  )

  unfoldable pub rollback_found : Workspace → Option ChangeSet → Engine → Engine × RollbackReply
  unfolding rollback_by
  rollback_found ws none st = (st, refused unknown_change_set)
  rollback_found ws (some rec) st =
      if not (rec.workspace_id == ws.id)
      then (st, refused other_workspace)
      else rollback_by rec.status ws rec st

  unfoldable pub rollback_claimed : Workspace → Text → Engine → Engine × RollbackReply
  unfolding rollback_found
  rollback_claimed ws id st =
      if env.get_fails
      then (st, refused store_failed)
      else rollback_found ws (lookup id st.change_sets) st

  unfoldable pub rollback : Workspace → Text → Engine → Engine × RollbackReply
  unfolding rollback_claimed release
  rollback ws id st =
      let key = codes "rollback:" ++ id in
      let (t, reply) = rollback_claimed ws id (record st { inflight = key ∷ st.inflight }) in
      if not ws.writable
      then (st, refused read_only)
      else if any (λ i. i == key) st.inflight
      then (st, refused already_executing)
      else (release key t, reply)
