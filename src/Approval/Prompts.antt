-- ===== src/Approval/Prompts.antt =====
-- companion/internal/approval/approval.go: Approve, Resolve and ApproveRead. A function takes the
-- current time as `now`; what runs under one hold of the lock is one function.
use fylane.Common.{
  ℕ, suc, ◌-◌, Bool, true, false, ◌&&◌, not, [], ◌∷◌, ◌++◌, Option, none, some, if◌then◌else◌, ltb,
  ◌==◌,
}
use fylane.Common.Text.{Text, codes, text_eq}
use fylane.Common.Dict.{lookup, insert, delete, delete_where}
use fylane.Txn.{other, ApprovalRequest, Decision}
use fylane.Approval.State.{
  Service, write_cell, resolve_cell, decision_ttl, blank_request, fresh_pending,
}
use fylane.Approval.Policy.{auto_approved}

-- A new prompt for the request.
unfoldable pub open_prompt : ℕ → Service → ApprovalRequest → Service × ℕ × Bool
open_prompt now s req = (
  record s {
    cells = write_cell s.next (fresh_pending now req) s.cells;
    pending = insert req.change_set_id s.next s.pending;
    next = suc s.next;
  },
  s.next,
  true,
)

unfoldable pub attach_decided : ℕ → Service → ApprovalRequest → Option ℕ → Service × ℕ × Bool
unfolding open_prompt
attach_decided now s req none = open_prompt now s req
attach_decided now s req (some p) =
    let is_fresh = ltb (now - (s.cells p).decided_at) decision_ttl in
    let swept = record s { decided = delete req.change_set_id s.decided } in
    if is_fresh && (s.cells p).request.provider == req.provider
    then (swept, p, false)
    else open_prompt now (if is_fresh then s else swept) req

unfoldable pub attach_pending : ℕ → Service → ApprovalRequest → Option ℕ → Service × ℕ × Bool
unfolding attach_decided
attach_pending now s req (some p) = (s, p, false)
attach_pending now s req none = attach_decided now s req (lookup req.change_set_id s.decided)

unfoldable pub attach : ℕ → Service → ApprovalRequest → Service × ℕ × Bool
unfolding attach_pending
attach now s req = attach_pending now s req (lookup req.change_set_id s.pending)

unfoldable pub remove : Text → Service → Service
remove id s = record s { pending = delete id s.pending; decided = delete id s.decided }

-- The caller of Approve either has its answer or waits at an address.
pub data Entered : Type 0 where
  answered : Decision → Entered
  waits : ℕ → Entered

-- The policy's own yes.
abbrev pub policy_decision : Decision
policy_decision = record { approved = true; pending = false; reason = codes "policy_auto_approved" }

-- Approve takes the lock to read the mode, and again to attach.
unfoldable pub ask_policy : Service → ApprovalRequest → Option Decision
unfolding auto_approved
ask_policy s req = if auto_approved s req then some policy_decision else none

unfoldable pub attach_call : ℕ → Service → ApprovalRequest → Service × ℕ
unfolding attach
attach_call now s req =
    let (t, p, is_new) = attach now s req in
    (if is_new && s.on_request then record t { prompted = p ∷ t.prompted } else t, p)

abbrev entered : Option Decision → Service → Service × ℕ → Service × Entered
entered (some d) s (t, p) = (s, answered d)
entered none s (t, p) = (t, waits p)

-- Approve up to its select, with nobody between the two.
unfoldable pub enter : ℕ → Service → ApprovalRequest → Service × Entered
unfolding ask_policy attach_call
enter now s req = entered (ask_policy s req) s (attach_call now s req)

-- What the select of Approve sees first.
pub data Wake : Type 0 where
  done timer canceled : Wake

abbrev pub still_pending : Text → Decision
still_pending why = record { approved = false; pending = true; reason = why }

unfoldable pub wake : Service → Text → ℕ → Wake → Service × Decision
unfolding remove
wake s id p done = (remove id s, (s.cells p).decision)
wake s id p timer = (s, still_pending (codes "approval_budget_exceeded"))
wake s id p canceled = (s, still_pending (codes "caller_disconnected"))

unfoldable pub sweep : ℕ → Service → Service
sweep now s = record s {
  decided = delete_where (λ id p. not (ltb (now - (s.cells p).decided_at) decision_ttl)) s.decided;
}

abbrev pub reason_or : Text → Bool → Text
reason_or reason approved =
    if reason == [] then codes (if approved then "user_approved" else "user_rejected") else reason

-- The decision that Resolve records.
abbrev pub local_decision : Bool → Text → Decision
local_decision approved reason = record {
  approved = approved;
  pending = false;
  reason = reason_or reason approved;
}

-- Resolve takes the lock three times: to find the prompt, to decide it, and to file the decision.
unfoldable pub mark : ℕ → ℕ → Decision → Service → Service × Bool
unfolding resolve_cell
mark now p d s =
    let (cell, first) = resolve_cell now d (s.cells p) in
    (record s { cells = write_cell p cell s.cells }, first)

unfoldable pub file : ℕ → Text → ℕ → Bool → Service → Service
unfolding sweep
file now id p approved s =
    let t =
      sweep now (record s { pending = delete id s.pending; decided = insert id p s.decided }) in
    if t.on_decision
    then record t { reported = (p, approved, now - (t.cells p).created_at) ∷ t.reported }
    else t

unfoldable pub resolve_found : ℕ → Text → Bool → Text → Option ℕ → Service → Service × Bool
unfolding mark file
resolve_found now id approved reason none s = (s, false)
resolve_found now id approved reason (some p) s =
    let (t, first) = mark now p (local_decision approved reason) s in
    if first then (file now id p approved t, true) else (t, false)

unfoldable pub resolve : ℕ → Text → Bool → Text → Service → Service × Bool
unfolding resolve_found
resolve now id approved reason s = resolve_found now id approved reason (lookup id s.pending) s

unfoldable pub read_request : Text → Text → Text → Text → ApprovalRequest
read_request provider workspace_id workspace_name path =
    let who = if provider == [] then codes "the caller" else provider in
    record blank_request {
      change_set_id = codes "read:" ++ who ++ codes ":" ++ workspace_id ++ codes ":" ++ path;
      workspace_id = workspace_id;
      workspace_name = workspace_name;
      provider = provider;
      summary = codes "Read sensitive file " ++ path;
      operations =
          record {
            op_type = other (codes "read");
            path = path;
            to = [];
            diff = [];
            sensitive = true;
            recursive_delete = false;
            beyond_undo = false;
          }
          ∷ [];
      reason = codes "the contents of this file would be sent to " ++ who;
    }

unfoldable pub enter_read : ℕ → Service → Text → Text → Text → Text → Service × Entered
unfolding read_request enter
enter_read now s provider workspace_id workspace_name path =
    enter now s (read_request provider workspace_id workspace_name path)
