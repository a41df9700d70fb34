-- ===== src/Txn/Ops.antt =====
-- companion/internal/txn/engine.go and txn.go: the operations of a change set, a planned operation
-- and the outcome of planning.
use fylane.Common.{ℕ, ◌*◌, ◌^◌, Bool, false, [], Option, none, some}
use fylane.Common.Text.{Text, text_eq}
use fylane.Txn.{OpType, create, move, OpPreview}

pub record Operation : Type 0 where
  pub op_type : OpType
  pub path : Text
  pub from : Text
  pub to : Text
  pub content : Text
  pub expected_sha256 : Text
  pub recursive : Bool

-- What the sandbox is asked for.
pub data Access : Type 0 where
  op_write op_delete : Access

-- The workspace as the pipeline sees it: `resolve` gives the absolute and the canonical path, or
-- refuses.
pub record Workspace : Type 0 where
  pub id : Text
  pub name : Text
  pub writable : Bool
  pub resolve : Text → Access → Option (Text × Text)
  pub sensitive : Text → Bool

pub record PlannedOp : Type 0 where
  pub op : Operation
  pub canonical : Text
  pub to_canonical : Text
  pub abs : Text
  pub to_abs : Text
  pub old_data : Text
  pub old_mode : ℕ
  pub is_dir : Bool
  pub before_sha : Text
  pub after_sha : Text
  pub status : Text
  pub preview : OpPreview

-- The conflict, without the advice to the caller and the diff.
pub record Conflict : Type 0 where
  pub path : Text
  pub reason : Text
  pub current_sha256 : Text

pub data PlanError : Type 0 where
  content_too_large not_resolved not_regular file_too_large dir_not_empty : PlanError
  unknown_type path_twice : Text → PlanError

pub data Planned {ℓ} (A : Type ℓ) : Type ℓ where
  ready : A → Planned A
  conflicted : Conflict → Planned A
  invalid : PlanError → Planned A

abbrev pub and_then {ℓ κ} : {A : Type ℓ} {B : Type κ} → Planned A → (A → Planned B) → Planned B
and_then (ready a) f = f a
and_then (conflicted c) f = conflicted c
and_then (invalid e) f = invalid e

abbrev pub conflict_at {ℓ} : {A : Type ℓ} → Text → Text → Text → Planned A
conflict_at path reason current =
    conflicted (record { path = path; reason = reason; current_sha256 = current })

abbrev pub resolved : Option (Text × Text) → Planned (Text × Text)
resolved none = invalid not_resolved
resolved (some at) = ready at

abbrev pub max_ops : ℕ
max_ops = 100

abbrev pub max_op_content_bytes : ℕ
max_op_content_bytes = 16 * 2 ^ 20

abbrev pub no_preview : OpPreview
no_preview = record {
  op_type = create;
  path = [];
  to = [];
  diff = [];
  sensitive = false;
  recursive_delete = false;
  beyond_undo = false;
}

-- p := &plannedOp{op: op}, with the paths that the sandbox gave.
abbrev pub planned_at : Operation → Text × Text → PlannedOp
planned_at op (abs, canonical) = record {
  op = op;
  canonical = canonical;
  to_canonical = [];
  abs = abs;
  to_abs = [];
  old_data = [];
  old_mode = 0;
  is_dir = false;
  before_sha = [];
  after_sha = [];
  status = [];
  preview = no_preview;
}

-- The path that a result names.
abbrev pub path_of_type : OpType → PlannedOp → Text
path_of_type move p = p.to_canonical
path_of_type _ p = p.canonical

unfoldable pub result_path : PlannedOp → Text
result_path p = path_of_type p.op.op_type p
