-- ===== src/Approval/Policy.antt =====
-- companion/internal/approval/approval.go: the policy table of autoApproved.
use fylane.Common.{
  ◌≡◌, ◌≢◌, ◌↔◌, ◌⊎◌, refl, Bool, true, false, not, List, [], ◌∷◌, if◌then◌else◌, arith, All,
}
use fylane.Txn.{OpType, create, update, move, OpPreview, ApprovalRequest}
use fylane.Approval.State.{Mode, safe, open_mode, Service, is_empty}

abbrev pub is_open : Mode → Bool
is_open open_mode = true
is_open _ = false

abbrev pub is_safe : Mode → Bool
is_safe safe = true
is_safe _ = false

-- One round of the loop over the operations: may it go on?
unfoldable pub op_passes : Mode → OpType → Bool
op_passes mode create = true
op_passes mode update = is_open mode
op_passes mode move = is_open mode
op_passes mode _ = false

unfoldable pub ops_pass : Mode → List OpPreview → Bool
unfolding op_passes
ops_pass mode [] = true
ops_pass mode (op ∷ ops) =
    let rest = ops_pass mode ops in
    if op.sensitive then false else if op_passes mode op.op_type then rest else false

unfoldable pub auto_approved : Service → ApprovalRequest → Bool
unfolding ops_pass
auto_approved s req =
    if req.must_ask
    then false
    else if is_safe s.mode
    then false
    else if is_empty req.operations
    then false
    else if not (is_empty req.argv)
    then false
    else ops_pass s.mode req.operations

-- What the policy table may let through in a mode.
abbrev pub MayPass : Mode → OpPreview → Type 0
MayPass mode op =
    (op.sensitive ≡ false)
    × ((op.op_type ≡ create) ⊎ ((mode ≡ open_mode) × ((op.op_type ≡ update) ⊎ (op.op_type ≡ move))))

op_passes→MayPass :
    (mode : Mode) (op : OpPreview)
    → op.sensitive ≡ false
    → op_passes mode op.op_type ≡ true
    → MayPass mode op
unfolding op_passes
op_passes→MayPass mode op h e = ground arith

MayPass→op_passes :
    (mode : Mode) (op : OpPreview) → MayPass mode op → op_passes mode op.op_type ≡ true
unfolding op_passes
MayPass→op_passes mode op h = ground arith

ops_pass→All :
    (mode : Mode) (ops : List OpPreview) → ops_pass mode ops ≡ true → All (MayPass mode) ops
unfolding ops_pass
ops_pass→All mode [] h = tt
ops_pass→All mode (op ∷ ops) h = ground (arith, op_passes→MayPass mode op, ops_pass→All mode ops)

All→ops_pass :
    (mode : Mode) (ops : List OpPreview) → All (MayPass mode) ops → ops_pass mode ops ≡ true
unfolding ops_pass
All→ops_pass mode [] h = refl
All→ops_pass mode (op ∷ ops) (h, hs) =
    ground (arith, MayPass→op_passes mode op h, All→ops_pass mode ops hs)

-- The conditions under which a request passes with nobody asked.
pub record PassesUnasked (mode : Mode) (req : ApprovalRequest) : Type 0 where
  pub not_forced : req.must_ask ≡ false
  pub not_safe : is_safe mode ≡ false
  pub some_operation : req.operations ≢ []
  pub no_command : req.argv ≡ []
  pub each_passes : All (MayPass mode) req.operations

auto_approved→ :
    (s : Service) (req : ApprovalRequest) → auto_approved s req ≡ true → PassesUnasked s.mode req
unfolding auto_approved
auto_approved→ s req h = ground (arith, ops_pass→All s.mode req.operations)

auto_approved← :
    (s : Service) (req : ApprovalRequest) → PassesUnasked s.mode req → auto_approved s req ≡ true
unfolding auto_approved
auto_approved← s req h = ground (arith, All→ops_pass s.mode req.operations h.each_passes)

-- A request passes unasked exactly when no rule forces a question, the mode is not safe, it holds
-- file operations and no command, and each operation is a create of a non-sensitive file or, in
-- the open mode, an update or a move of one.
pub auto_approved_iff :
    (s : Service) (req : ApprovalRequest) → (auto_approved s req ≡ true) ↔ PassesUnasked s.mode req
auto_approved_iff s req = (auto_approved→ s req, auto_approved← s req)
