-- ===== src/Txn/Store.antt =====
-- The change sets of companion/internal/store/changeset.go, the requests and results of
-- companion/internal/txn/txn.go, and the state that the engine works on.
use fylane.Common.{
  ℕ, ◌*◌, Bool, false, List, [], ◌∷◌, ◌++◌, Option, none, some, if◌then◌else◌, ◌==◌, map,
}
use fylane.Common.Text.{Text, codes, text_eq}
use fylane.Common.Dict.{Dict, lookup, insert}
use fylane.Txn.{OpType, create, update, move, delete, other, ApprovalRequest, Decision, write}
use fylane.Txn.Disk.{Nodes, Disk}
use fylane.Txn.Ops.{Operation, PlannedOp, Conflict, PlanError, Workspace, result_path}
use fylane.Txn.Effect.{OpEffect}

pub data ChangeSetStatus : Type 0 where
  set_pending set_approved set_applied set_denied set_failed set_rolled_back : ChangeSetStatus

pub record ChangeSet : Type 0 where
  pub id : Text
  pub workspace_id : Text
  pub provider : Text
  pub summary : Text
  pub operations : List Operation
  pub status : ChangeSetStatus
  pub before_hashes : Dict Text Text
  pub after_hashes : Dict Text Text
  pub backup_location : Text
  pub approved_at : ℕ
  pub applied_at : ℕ
  pub rollback_deadline : ℕ

pub record Request : Type 0 where
  pub change_set_id : Text
  pub provider : Text
  pub summary : Text
  pub operations : List Operation
  pub must_ask : Bool

pub record OpResult : Type 0 where
  pub path : Text
  pub status : Text
  pub sha256 : Text

pub data Status : Type 0 where
  applied conflict denied failed pending_approval rolled_back : Status

pub record Result : Type 0 where
  pub status : Status
  pub change_set_id : Text
  pub operations : List OpResult
  pub rollback_available_until : ℕ
  pub conflict_found : Option Conflict
  pub reason : Text
  pub effects : List OpEffect
  pub replayed : Bool

pub data ExecError : Type 0 where
  read_only no_operations too_many_operations already_executing : ExecError
  store_failed different_operations approval_failed journal_failed : ExecError
  plan_invalid : PlanError → ExecError

-- Execute returns a result or an error.
pub data Reply : Type 0 where
  replied : Result → Reply
  refused : ExecError → Reply

-- `saved` is the backup area, by change set; `audit` are the audit events, newest first: the change
-- set, the type and the result.
pub record Engine : Type 0 where
  pub change_sets : Dict Text ChangeSet
  pub inflight : List Text
  pub disk : Disk
  pub saved : Dict Text Nodes
  pub audit : List (Text × Text × Text)

-- What one call of Execute meets: the hash and the diff, a new identifier, the time, the local
-- approval (none where it fails) and what else happens to the disk while it is awaited, and which
-- of the database calls fail.
pub record Surroundings : Type 0 where
  pub hash : Text → Text
  pub diff_text : Text → Text → Text → Text
  pub new_id : Text
  pub now : ℕ
  pub approve : ApprovalRequest → Option Decision
  pub meanwhile : Disk → Disk
  pub get_fails : Bool
  pub create_fails : Bool
  pub update_fails : Bool
  pub finish_fails : Bool
  pub journal_fails : Bool

abbrev pub blank_result : Result
blank_result = record {
  status = failed;
  change_set_id = [];
  operations = [];
  rollback_available_until = 0;
  conflict_found = none;
  reason = [];
  effects = [];
  replayed = false;
}

abbrev pub type_text : OpType → Text
type_text create = codes "create"
type_text update = codes "update"
type_text move = codes "move"
type_text delete = codes "delete"
type_text (other t) = t

abbrev pub status_text : ChangeSetStatus → Text
status_text set_pending = codes "pending"
status_text set_approved = codes "approved"
status_text set_applied = codes "applied"
status_text set_denied = codes "denied"
status_text set_failed = codes "failed"
status_text set_rolled_back = codes "rolled_back"

abbrev pub rollback_retention : ℕ
rollback_retention = 7 * 24 * 3600 * 1000000000

unfoldable pub approval_request : Workspace → Request → Text → List PlannedOp → ApprovalRequest
approval_request ws req id plan = record {
  change_set_id = id;
  workspace_id = ws.id;
  workspace_name = ws.name;
  provider = req.provider;
  summary = req.summary;
  operations = map (λ (p : PlannedOp). p.preview) plan;
  kind = write;
  must_ask = req.must_ask;
  argv = [];
  rule = [];
  reason = [];
  dir = [];
  network = [];
  grant = false;
}

unfoldable pub before_hashes : List PlannedOp → Dict Text Text → Dict Text Text
before_hashes [] m = m
before_hashes (p ∷ ps) m =
    before_hashes ps (if p.before_sha == [] then m else insert p.canonical p.before_sha m)

unfoldable pub after_hashes : List PlannedOp → Dict Text Text → Dict Text Text
unfolding result_path
after_hashes [] m = m
after_hashes (p ∷ ps) m =
    after_hashes ps (if p.after_sha == [] then m else insert (result_path p) p.after_sha m)

-- m[target] of a Go map of strings: empty for a missing key.
abbrev pub or_empty : Option Text → Text
or_empty none = []
or_empty (some t) = t

-- The result of one operation of a stored change set, as a retry is told it.
unfoldable pub stored_op : Dict Text Text → OpType → Operation → OpResult
stored_op hashes move op = record {
  path = op.to;
  status = codes "moved";
  sha256 = or_empty (lookup op.to hashes);
}
stored_op hashes t op = record {
  path = op.path;
  status = type_text t ++ codes "d";
  sha256 = or_empty (lookup op.path hashes);
}
