-- ===== src/Txn.antt =====
-- companion/internal/txn/txn.go: the types that the write pipeline and the approval share.
pub mod Disk
pub mod Ops
pub mod Plan
pub mod Apply
pub mod Effect
pub mod Contents
pub mod Undo
pub mod Restore
pub mod Unwind
pub mod Landed
pub mod Effects
pub mod Store
pub mod Claim
pub mod Execute
pub mod Overwrite
pub mod Consent
pub mod Loaded
pub mod Grounded
pub mod Claims
pub mod Planned
pub mod Filed
pub mod Retry
pub mod Inverse
pub mod Rollback
pub mod Reversed
pub mod Rewound
mod Tests
use fylane.Common.{Bool, List}
use fylane.Common.Text.{Text}

-- The operation types; the source compares strings, and `other` is any string it does not name.
pub data OpType : Type 0 where
  create update move delete : OpType
  other : Text → OpType

pub record OpPreview : Type 0 where
  pub op_type : OpType
  pub path : Text
  pub to : Text
  pub diff : Text
  pub sensitive : Bool
  pub recursive_delete : Bool
  pub beyond_undo : Bool

pub data Kind : Type 0 where
  write command disclosure delegation proxy : Kind

pub record ApprovalRequest : Type 0 where
  pub change_set_id : Text
  pub workspace_id : Text
  pub workspace_name : Text
  pub provider : Text
  pub summary : Text
  pub operations : List OpPreview
  pub kind : Kind
  pub must_ask : Bool
  pub argv : List Text
  pub rule : Text
  pub reason : Text
  pub dir : Text
  pub network : Text
  pub grant : Bool

pub record Decision : Type 0 where
  pub approved : Bool
  pub pending : Bool
  pub reason : Text
