-- ===== src/Approval/History.antt =====
-- Where decisions come from, and that they stay, in every interleaving of calls.
use mathlib.Core.Bool.{true≢false}
use fylane.Common.{
  ℕ, ◌≡◌, refl, inl, inr, Bool, true, false, List, [], ◌∷◌, Option, none, some, subst, sym, ap, ◌∙◌,
  ltb, Bool-cases,
}
use fylane.Common.Text.{Text, codes, text_eq}
use fylane.Approval.Policy.{auto_approved}
use fylane.Txn.{Decision}
use fylane.Approval.State.{
  Service, Pending, Cells, Mode, Budgets, set_mode, parse_mode, fresh_pending, write_cell,
}
use fylane.Approval.Prompts.{
  wake, done, timer, canceled, remove, local_decision, ask_policy, policy_decision, still_pending,
  resolve_found,
}
use fylane.Approval.Attach.{file_fields, write_cell_self}
use fylane.Approval.Events.{
  Event, asks, attaches, wakes, marks, files, sets, step, steps, Run, after, Answered,
}
use fylane.Approval.Cells.{attach_call-Opens, set_mode_cells, write_cell_ne, ne_of_lt, mark_closed}
use fylane.Approval.Invariant.{Inv, Run-Inv}

-- Where a decision comes from that a call of Approve returns by an event.
abbrev pub GivenBy : Service → List Event → Event → Decision → Type 0
GivenBy s es (asks req) d = (auto_approved s req ≡ true) × (d ≡ policy_decision)
GivenBy s es (wakes id p done) d = Answered es p d
GivenBy s es (wakes id p w) d = (d.approved ≡ false) × (d.pending ≡ true)
GivenBy s es e d = true ≡ false

closed-Answered :
    {s : Service} {es : List Event} (id : Text) (p : ℕ) (d : Decision)
    → Inv s es
    → (step s (wakes id p done)).1 ≡ some d
    → Answered es p d
unfolding step wake
closed-Answered {s} {es} id p d v h = elim (Bool-cases (s.cells p).closed) [
  | inr c ↦ let n : ◌≡◌ {A = Option Decision} none (some d) = rw c at h in cc
  | inl c ↦ elim (v.answered p) [
    | inl o ↦ absurd (true≢false (sym c ∙ o))
    | inr a ↦
        let e : ◌≡◌ {A = Option Decision} (some (s.cells p).decision) (some d) = rw c at h in
        let same : (s.cells p).decision ≡ d = cc in subst (Answered es p) same a
  ]
]

-- After any interleaving of calls, a decision that a call of Approve returns is the policy's, for a
-- request that the policy passes; or one that a local answer gave to the very prompt at which the
-- call waited; or, where the budget or the caller ran out, not an approval but still pending.
pub collected-GivenBy :
    {mode : Mode} {b : Budgets} {r : Bool} {s : Service} {es : List Event} (e : Event)
    (d : Decision)
    → Run mode b r s es
    → (step s e).1 ≡ some d
    → GivenBy s es e d
unfolding step wake ask_policy
collected-GivenBy {s} (asks req) d run h = elim (Bool-cases (auto_approved s req)) [
  | inl a ↦
      let e : ◌≡◌ {A = Option Decision} (some policy_decision) (some d) = rw a at h in
      let same : policy_decision ≡ d = cc in (a, sym same)
  | inr a ↦ let n : ◌≡◌ {A = Option Decision} none (some d) = rw a at h in cc
]
collected-GivenBy (wakes id p done) d run h = closed-Answered id p d (Run-Inv run) h
collected-GivenBy (wakes id p timer) d run h =
    let same : still_pending (codes "approval_budget_exceeded") ≡ d = cc in
    (sym (ap (λ (x : Decision). x.approved) same), sym (ap (λ (x : Decision). x.pending) same))
collected-GivenBy (wakes id p canceled) d run h =
    let same : still_pending (codes "caller_disconnected") ≡ d = cc in
    (sym (ap (λ (x : Decision). x.approved) same), sym (ap (λ (x : Decision). x.pending) same))
collected-GivenBy (attaches now req) d run h = cc
collected-GivenBy {s} (marks now p approved reason) d run h = elim (Bool-cases (ltb p s.next)) [
  | inl k ↦ let n : ◌≡◌ {A = Option Decision} none (some d) = rw k at h in cc
  | inr k ↦ let n : ◌≡◌ {A = Option Decision} none (some d) = rw k at h in cc
]
collected-GivenBy (files now id p approved) d run h = cc
collected-GivenBy (sets text confirm) d run h = cc

-- One event leaves a closed prompt as it is.
step_closed :
    {s : Service} {es : List Event} (e : Event) (p : ℕ)
    → Inv s es
    → (s.cells p).closed ≡ true
    → (step s e).0.cells p ≡ s.cells p
unfolding step wake remove set_mode
step_closed (asks req) p v c = refl
step_closed {s} (attaches now req) p v c = elim (attach_call-Opens now s req) [
  | inl (k, _) ↦ ap (λ (f : Cells). f p) k
  | inr (at_time, q, k, _) ↦
      ap (λ (f : Cells). f p) k
      ∙ write_cell_ne p s.next (fresh_pending at_time q) s.cells (ne_of_lt (v.allocated p c))
]
step_closed {s} (wakes id q done) p v c = elim (Bool-cases (s.cells q).closed) [
  | inl k ↦ rw k
  | inr k ↦ rw k
]
step_closed (wakes id q timer) p v c = refl
step_closed (wakes id q canceled) p v c = refl
step_closed {s} (marks now q approved reason) p v c = elim (Bool-cases (ltb q s.next)) [
  | inr k ↦ rw k
  | inl k ↦ rw k (mark_closed now q (local_decision approved reason) s p (sym (v.agrees p) ∙ c))
]
step_closed {s} (files now id q approved) p v c =
    ap (λ (f : Cells). f p) (file_fields now id q approved s).2
step_closed {s} (sets text confirm) p v c =
    ap (λ (f : Cells). f p) (set_mode_cells (parse_mode text) text confirm s).0

steps_keep :
    (fs : List Event) {mode : Mode} {b : Budgets} {r : Bool} {s : Service} {es : List Event} (p : ℕ)
    → Run mode b r s es
    → (s.cells p).closed ≡ true
    → ((steps s fs).cells p ≡ s.cells p) × (((steps s fs).cells p).decided ≡ true)
unfolding steps
steps_keep [] p run c = (refl, sym ((Run-Inv run).agrees p) ∙ c)
steps_keep (f ∷ fs) {s} p run c =
    let same = step_closed f p (Run-Inv run) c in
    let (kept, decided) =
      steps_keep fs p (after f run refl) (ap (λ (d : Pending). d.closed) same ∙ c) in
    (kept ∙ same, decided)

resolve_found_again :
    (now : ℕ) (id : Text) (approved : Bool) (reason : Text) (p : ℕ) (s : Service)
    → (s.cells p).decided ≡ true
    → resolve_found now id approved reason (some p) s
      ≡ (record s { cells = write_cell p (s.cells p) s.cells }, false)
unfolding resolve_found
resolve_found_again now id approved reason p s decided = rw decided refl

-- A decided prompt keeps its first decision, whatever calls follow, and a later answer to it is
-- refused: Resolve, once it has found the prompt, reports that the answer was not taken and leaves the
-- prompt as it was.
pub steps_closed :
    (fs : List Event) {mode : Mode} {b : Budgets} {r : Bool} {s : Service} {es : List Event} (p : ℕ)
    (now : ℕ) (id reason : Text) (approved : Bool)
    → Run mode b r s es
    → (s.cells p).closed ≡ true
    → let t = steps s fs in
      let (u, taken) = resolve_found now id approved reason (some p) t in
      (t.cells p ≡ s.cells p) × (taken ≡ false) × (u.cells p ≡ s.cells p)
steps_closed fs {s} p now id reason approved run c =
    let (kept, decided) = steps_keep fs p run c in
    let t = steps s fs in
    rw (resolve_found_again now id approved reason p t decided)
      (kept, refl, write_cell_self p (t.cells p) t.cells ∙ kept)
