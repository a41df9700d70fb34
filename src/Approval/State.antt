-- ===== src/Approval/State.antt =====
-- companion/internal/approval/approval.go: the modes, the budgets, the prompts and the service
-- record, with New and SetMode. A *Pending is an address into `cells`; times are nanoseconds.
use fylane.Common.{
  ℕ, ◌*◌, Bool, true, false, List, [], ◌∷◌, Option, none, some, if◌then◌else◌, nat_beq, ◌==◌,
}
use fylane.Common.Text.{Text, codes, text_eq}
use fylane.Common.Dict.{Dict, lookup}
use fylane.Txn.{ApprovalRequest, Decision, disclosure}

pub data Mode : Type 0 where
  safe balanced open_mode : Mode

pub data Error : Type 0 where
  unknown_mode : Text → Error
  budget_not_positive confirmation_required : Error

abbrev pub second : ℕ
second = 1000000000

abbrev pub decision_ttl : ℕ
decision_ttl = 15 * 60 * second

pub record Budgets : Type 0 where
  pub default : ℕ
  pub per_provider : Dict Text ℕ

abbrev pub default_budgets : Budgets
default_budgets = record {
  default = 50 * second;
  per_provider = (codes "claude", 240 * second) ∷ [];
}

unfoldable pub budget_for : Budgets → Text → ℕ
unfolding lookup
budget_for b provider = elim (lookup provider b.per_provider) [ some d ↦ d | none ↦ b.default ]

-- `closed` is the channel `done`: closed or still open.
pub record Pending : Type 0 where
  pub request : ApprovalRequest
  pub created_at : ℕ
  pub decided : Bool
  pub decided_at : ℕ
  pub decision : Decision
  pub closed : Bool

abbrev pub Cells : Type 0
Cells = ℕ → Pending

abbrev pub write_cell : ℕ → Pending → Cells → Cells
write_cell p v cells q = if nat_beq q p then v else cells q

-- `on_request` and `on_decision` tell whether the callbacks are set; `prompted` and `reported`
-- are their calls so far, newest first.
pub record Service : Type 0 where
  pub budgets : Budgets
  pub on_request : Bool
  pub on_decision : Bool
  pub mode : Mode
  pub pending : Dict Text ℕ
  pub decided : Dict Text ℕ
  pub cells : Cells
  pub next : ℕ
  pub prompted : List ℕ
  pub reported : List (ℕ × Bool × ℕ)

-- p.resolve(d): the first decision is kept, a later one is refused.
unfoldable pub resolve_cell : ℕ → Decision → Pending → Pending × Bool
resolve_cell now d p =
    if p.decided
    then (p, false)
    else (record p { decided = true; decided_at = now; decision = d; closed = true }, true)

unfoldable pub parse_mode : Text → Option Mode
parse_mode m =
    if m == codes "safe"
    then some safe
    else if m == codes "balanced"
    then some balanced
    else if m == codes "open"
    then some open_mode
    else none

pub data Result {ℓ} (A : Type ℓ) : Type ℓ where
  ok : A → Result A
  err : Error → Result A

abbrev pub blank_request : ApprovalRequest
blank_request = record {
  change_set_id = [];
  workspace_id = [];
  workspace_name = [];
  provider = [];
  summary = [];
  operations = [];
  kind = disclosure;
  must_ask = false;
  argv = [];
  rule = [];
  reason = [];
  dir = [];
  network = [];
  grant = false;
}

abbrev pub no_decision : Decision
no_decision = record { approved = false; pending = false; reason = [] }

abbrev pub fresh_pending : ℕ → ApprovalRequest → Pending
fresh_pending now req = record {
  request = req;
  created_at = now;
  decided = false;
  decided_at = 0;
  decision = no_decision;
  closed = false;
}

-- The record that New builds, with nothing allocated.
abbrev pub started : Mode → Budgets → Bool → Service
started mode budgets on_request = record {
  budgets = budgets;
  on_request = on_request;
  on_decision = false;
  mode = mode;
  pending = [];
  decided = [];
  cells = λ _. fresh_pending 0 blank_request;
  next = 0;
  prompted = [];
  reported = [];
}

unfoldable pub new_in : Option Mode → Text → Budgets → Bool → Result Service
new_in none text budgets on_request = err (unknown_mode text)
new_in (some mode) text budgets on_request =
    if nat_beq budgets.default 0
    then err budget_not_positive
    else ok (started mode budgets on_request)

unfoldable pub new : Text → Budgets → Bool → Result Service
unfolding new_in parse_mode
new text budgets on_request =
    new_in (if text == [] then some safe else parse_mode text) text budgets on_request

unfoldable pub set_mode_to : Option Mode → Text → Bool → Service → Result Service
set_mode_to none text confirm s = err (unknown_mode text)
set_mode_to (some open_mode) text confirm s =
    if confirm then ok (record s { mode = open_mode }) else err confirmation_required
set_mode_to (some m) text confirm s = ok (record s { mode = m })

unfoldable pub set_mode : Text → Bool → Service → Result Service
unfolding set_mode_to parse_mode
set_mode text confirm s = set_mode_to (parse_mode text) text confirm s

abbrev pub is_empty {ℓ} : {A : Type ℓ} → List A → Bool
is_empty [] = true
is_empty (x ∷ xs) = false
