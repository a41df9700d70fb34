-- ===== src/Approval/Tests.antt =====
-- The theorems about the approval at concrete inputs, and runs of the code.
use fylane.Common.{◌≡◌, refl, ◌↔◌, true, false, List, [], ◌∷◌, some, arith, ◌*◌}
use fylane.Common.Text.{codes, text_beq, text_eq}
use fylane.Common.Dict.{lookup, insert}
use fylane.Txn.{OpPreview, update, ApprovalRequest}
use fylane.Approval.State.{
  Service, safe, open_mode, second, default_budgets, blank_request, started, set_mode, err,
  confirmation_required, budget_for,
}
use fylane.Approval.Policy.{auto_approved, auto_approved_iff, PassesUnasked}
use fylane.Approval.Prompts.{
  attach, open_prompt, enter, wake, done, resolve, resolve_found, ask_policy, attach_call, mark,
  file, local_decision,
}
use fylane.Approval.Attach.{attach-Shared, Shared, attach-resolve}
use fylane.Approval.Race.{late_file-replays, attach_any_provider}
use fylane.Approval.Events.{Event, attaches, wakes, sets, marks, step, steps, Run, start, after}
use fylane.Approval.Collected.{wake-attach}
use fylane.Approval.History.{collected-GivenBy, GivenBy, steps_closed}

abbrev an_update : OpPreview
an_update = record {
  op_type = update;
  path = codes "main.go";
  to = [];
  diff = [];
  sensitive = false;
  recursive_delete = false;
  beyond_undo = false;
}

abbrev request : ApprovalRequest
request = record blank_request {
  change_set_id = codes "chg_1";
  provider = codes "claude";
  operations = an_update ∷ [];
}

abbrev other_request : ApprovalRequest
other_request = record request { provider = codes "grok" }

abbrev idle : Service
idle = started safe default_budgets true

abbrev relaxed : Service
relaxed = started open_mode default_budgets true

-- One prompt is open, at address 0.
abbrev asked : Service
asked = (open_prompt 0 idle request).0

auto_approved_iff_example : (auto_approved relaxed request ≡ true) ↔ PassesUnasked open_mode request
auto_approved_iff_example = auto_approved_iff relaxed request

open_update_passes : auto_approved relaxed request ≡ true
unfolding auto_approved
open_update_passes = refl

safe_update_asks : auto_approved idle request ≡ false
unfolding auto_approved
safe_update_asks = refl

claude_waits_longer : budget_for default_budgets (codes "claude") ≡ 240 * second
unfolding budget_for text_beq
claude_waits_longer = refl

open_needs_confirm : set_mode (codes "open") false idle ≡ err confirmation_required
unfolding set_mode text_beq
open_needs_confirm = refl

prompts_once : (enter 5 (enter 0 idle request).0 request).0.prompted ≡ 0 ∷ []
unfolding enter ask_policy attach_call auto_approved attach lookup insert text_beq
prompts_once = refl

asked_is_shared : (attach 7 asked request).2 ≡ false
unfolding attach open_prompt lookup insert text_beq
asked_is_shared = refl

attach-Shared_example : Shared 7 asked request (attach 7 asked request).1 (attach 7 asked request).0
attach-Shared_example = attach-Shared 7 asked request asked_is_shared

wake-attach_example :
    let t = steps (wake asked request.change_set_id 0 done).0 (sets (codes "safe") false ∷ []) in
    attach 9 t request ≡ open_prompt 9 t request
wake-attach_example = wake-attach asked 0 9 request (sets (codes "safe") false ∷ []) (tt, tt)

asked_open : lookup request.change_set_id asked.pending ≡ some 0
unfolding open_prompt lookup insert text_beq
asked_open = refl

asked_undecided : (asked.cells 0).decided ≡ false
unfolding open_prompt
asked_undecided = refl

asked_provider : (asked.cells 0).request.provider ≡ request.provider
unfolding open_prompt
asked_provider = refl

attach-resolve_example :
    let (t, accepted) = resolve 1 request.change_set_id true [] asked in
    let (u, q, is_new) = attach 2 t request in
    (accepted ≡ true)
    × (q ≡ 0)
    × (is_new ≡ false)
    × ((wake u request.change_set_id q done).1 ≡ local_decision true [])
attach-resolve_example =
    attach-resolve 1 2 asked request 0 true [] asked_open asked_undecided asked_provider
      (omega arith)

late_file-replays_example :
    let id = request.change_set_id in
    let (woken, collected) = wake (mark 1 0 (local_decision true []) asked).0 id 0 done in
    let (u, q, is_new) = attach 2 (file 1 id 0 true woken) request in
    (collected ≡ local_decision true [])
    × (is_new ≡ false)
    × ((wake u id q done).1 ≡ local_decision true [])
late_file-replays_example =
    late_file-replays 1 2 asked request 0 true [] asked_undecided asked_provider (omega arith)

attach_any_provider_example :
    let (t, p, _) = open_prompt 0 idle request in attach 1 t other_request ≡ (t, p, false)
attach_any_provider_example = attach_any_provider 0 1 idle request other_request refl

abbrev one_answer : List Event
one_answer = marks 3 0 true [] ∷ attaches 0 request ∷ []

-- The prompt was opened and answered.
abbrev answered_service : Service
answered_service = (step (step idle (attaches 0 request)).0 (marks 3 0 true [])).0

one_answer-Run : Run safe default_budgets true answered_service one_answer
one_answer-Run = after (marks 3 0 true []) (after (attaches 0 request) start refl) refl

collected : (step answered_service (wakes (codes "chg_1") 0 done)).1 ≡ some (local_decision true [])
unfolding step attach_call attach lookup insert mark wake text_beq
collected = refl

collected-GivenBy_example :
    GivenBy answered_service one_answer (wakes (codes "chg_1") 0 done) (local_decision true [])
collected-GivenBy_example =
    collected-GivenBy (wakes (codes "chg_1") 0 done) (local_decision true []) one_answer-Run
      collected

closed : (answered_service.cells 0).closed ≡ true
unfolding step attach_call attach lookup insert mark wake text_beq
closed = refl

steps_closed_example :
    let t = steps answered_service (marks 4 0 false [] ∷ []) in
    let (u, taken) = resolve_found 5 (codes "chg_1") true [] (some 0) t in
    (t.cells 0 ≡ answered_service.cells 0)
    × (taken ≡ false)
    × (u.cells 0 ≡ answered_service.cells 0)
steps_closed_example =
    steps_closed (marks 4 0 false [] ∷ []) 0 5 (codes "chg_1") [] true one_answer-Run closed
