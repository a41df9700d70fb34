-- ===== src/Approval/Events.antt =====
-- Every interleaving of the calls: each event below runs under one hold of the lock, and any
-- events may follow one another.
use mathlib.Core.List.{Memᴰ}
use fylane.Common.{ℕ, ◌≡◌, Bool, List, [], ◌∷◌, Option, none, some, if◌then◌else◌, ltb}
use fylane.Common.Text.{Text, text_eq}
use fylane.Txn.{ApprovalRequest, Decision}
use fylane.Approval.State.{Service, Mode, Budgets, Result, ok, err, started, set_mode}
use fylane.Approval.Prompts.{ask_policy, attach_call, wake, Wake, done, mark, file, local_decision}

-- `asks` and `attaches` are the two halves of Approve up to its select, `marks` and `files` those of
-- Resolve; an address is used only once it is allocated.
pub data Event : Type 0 where
  asks : ApprovalRequest → Event
  attaches : ℕ → ApprovalRequest → Event
  wakes : Text → ℕ → Wake → Event
  marks : ℕ → ℕ → Bool → Text → Event
  files : ℕ → Text → ℕ → Bool → Event
  sets : Text → Bool → Event

abbrev pub ignore_error : Service → Result Service → Service
ignore_error s (ok t) = t
ignore_error s (err e) = s

-- The state after an event, and the decision that a call of Approve returns by it: the policy's, that
-- of a closed prompt, or that it is still pending.
unfoldable pub step : Service → Event → Service × Option Decision
step s (asks req) = (s, ask_policy s req)
step s (attaches now req) = ((attach_call now s req).0, none)
step s (wakes id p done) =
    if (s.cells p).closed then ((wake s id p done).0, some (wake s id p done).1) else (s, none)
step s (wakes id p w) = ((wake s id p w).0, some (wake s id p w).1)
step s (marks now p approved reason) =
    if ltb p s.next then ((mark now p (local_decision approved reason) s).0, none) else (s, none)
step s (files now id p approved) = (file now id p approved s, none)
step s (sets text confirm) = (ignore_error s (set_mode text confirm s), none)

-- A service as New leaves it, and the events since, newest first.
pub data Run (mode : Mode) (b : Budgets) (r : Bool) : Service → List Event → Type 0 where
  start : Run mode b r (started mode b r) []
  after :
      {s t : Service} {es : List Event} (e : Event)
      → Run mode b r s es
      → t ≡ (step s e).0
      → Run mode b r t (e ∷ es)

unfoldable pub steps : Service → List Event → Service
steps s [] = s
steps s (e ∷ es) = steps (step s e).0 es

-- The prompt at `p` has its decision from a local answer to it among the events.
abbrev pub Answered : List Event → ℕ → Decision → Type 0
Answered es p d =
    (now : ℕ) × (approved : Bool) × (reason : Text) × Memᴰ (marks now p approved reason) es
    × (d ≡ local_decision approved reason)
