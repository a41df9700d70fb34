-- ===== src/Approval/Collected.antt =====
-- What a change set finds once the answer to its prompt is collected.
use fylane.Common.{
  ℕ, ◌-◌, ◌≡◌, refl, ◌≢◌, inl, inr, Bool, true, false, ◌&&◌, not, Option, none, some, List, [], ◌∷◌,
  All, Bool-cases, Option-cases, ltb, ◌==◌, ne→==, arith,
}
use fylane.Common.Text.{Text, text_eq}
use fylane.Common.Dict.{Dict, lookup, insert, delete, delete_where, lookup-insert, lookup-delete}
use fylane.Txn.{ApprovalRequest}
use fylane.Approval.State.{
  Service, decision_ttl, set_mode, set_mode_to, parse_mode, safe, balanced, open_mode, Mode,
}
use fylane.Approval.Prompts.{
  attach, attach_pending, attach_decided, attach_call, open_prompt, wake, remove, done, timer,
  canceled, mark, file, sweep,
}
use fylane.Approval.Attach.{attach_fresh, remove_forgets}
use fylane.Approval.Events.{
  Event, asks, attaches, wakes, marks, files, sets, step, steps, ignore_error,
}

-- An event that neither asks for the change set nor files a decision about it.
abbrev pub IsAway : Text → Event → Type 0
IsAway id (attaches now req) = req.change_set_id ≢ id
IsAway id (files now other p approved) = other ≢ id
IsAway id e = Unit

-- The change set has neither a prompt nor a decision.
abbrev pub IsForgotten : Text → Service → Type 0
IsForgotten id s = (lookup id s.pending ≡ none) × (lookup id s.decided ≡ none)

module _ {ℓ} {V : Type ℓ} where
  delete-none :
      (id other : Text) (d : Dict Text V) → lookup id d ≡ none → lookup id (delete other d) ≡ none
  delete-none id other d h =
      rw lookup-delete (elim (Bool-cases (other == id)) [ inl e ↦ rw e refl | inr e ↦ rw e h ])

  insert-none :
      (id other : Text) (v : V) (d : Dict Text V)
      → other ≢ id
      → lookup id d ≡ none
      → lookup id (insert other v d) ≡ none
  insert-none id other v d n h = rw (lookup-insert, ne→== other id n) h

  delete_where-none :
      (p : Text → V → Bool) (id : Text) (d : Dict Text V)
      → lookup id d ≡ none
      → lookup id (delete_where p d) ≡ none
  unfolding lookup delete_where
  delete_where-none p id [] h = refl
  delete_where-none p id ((i, v) ∷ d) h = ground (arith, delete_where-none p id d)

open_prompt-IsForgotten :
    (id : Text) (now : ℕ) (s : Service) (req : ApprovalRequest)
    → req.change_set_id ≢ id
    → IsForgotten id s
    → IsForgotten id (open_prompt now s req).0
unfolding open_prompt
open_prompt-IsForgotten id now s req n (p, d) =
    (insert-none id req.change_set_id s.next s.pending n p, d)

attach_decided-IsForgotten :
    (id : Text) (now : ℕ) (s : Service) (req : ApprovalRequest) (o : Option ℕ)
    → req.change_set_id ≢ id
    → IsForgotten id s
    → IsForgotten id (attach_decided now s req o).0
unfolding attach_decided
attach_decided-IsForgotten id now s req none n f = open_prompt-IsForgotten id now s req n f
attach_decided-IsForgotten id now s req (some q) n (p, d) =
    let is_fresh = ltb (now - (s.cells q).decided_at) decision_ttl in
    let swept : IsForgotten id (record s { decided = delete req.change_set_id s.decided }) =
      (p, delete-none id req.change_set_id s.decided d) in
    elim (Bool-cases (is_fresh && (s.cells q).request.provider == req.provider)) [
      | inl e ↦ rw e swept
      | inr e ↦ rw e (elim (Bool-cases is_fresh) [
        | inl k ↦ rw k (open_prompt-IsForgotten id now s req n (p, d))
        | inr k ↦ rw k (
            open_prompt-IsForgotten id now
              (record s { decided = delete req.change_set_id s.decided }) req n swept)
      ])
    ]

attach-IsForgotten :
    (id : Text) (now : ℕ) (s : Service) (req : ApprovalRequest)
    → req.change_set_id ≢ id
    → IsForgotten id s
    → IsForgotten id (attach now s req).0
unfolding attach attach_pending
attach-IsForgotten id now s req n f = elim (Option-cases (lookup req.change_set_id s.pending)) [
  | inl e ↦ rw e (attach_decided-IsForgotten id now s req (lookup req.change_set_id s.decided) n f)
  | inr (p, e) ↦ rw e f
]

set_mode-IsForgotten :
    (id : Text) (o : Option Mode) (text : Text) (confirm : Bool) (s : Service)
    → IsForgotten id s
    → IsForgotten id (ignore_error s (set_mode_to o text confirm s))
unfolding set_mode_to
set_mode-IsForgotten id none text confirm s f = f
set_mode-IsForgotten id (some safe) text confirm s f = f
set_mode-IsForgotten id (some balanced) text confirm s f = f
set_mode-IsForgotten id (some open_mode) text true s f = f
set_mode-IsForgotten id (some open_mode) text false s f = f

step-IsForgotten :
    (id : Text) (s : Service) (e : Event)
    → IsAway id e
    → IsForgotten id s
    → IsForgotten id (step s e).0
unfolding step wake remove set_mode mark attach_call file sweep
step-IsForgotten id s (asks req) a f = f
step-IsForgotten id s (attaches now req) a f =
    elim (Bool-cases ((attach now s req).2 && s.on_request)) [
      | inl e ↦ rw e (attach-IsForgotten id now s req a f)
      | inr e ↦ rw e (attach-IsForgotten id now s req a f)
    ]
step-IsForgotten id s (wakes other p done) a (x, y) = elim (Bool-cases (s.cells p).closed) [
  | inl e ↦ rw e (delete-none id other s.pending x, delete-none id other s.decided y)
  | inr e ↦ rw e (x, y)
]
step-IsForgotten id s (wakes other p timer) a f = f
step-IsForgotten id s (wakes other p canceled) a f = f
step-IsForgotten id s (marks now p approved reason) a f = elim (Bool-cases (ltb p s.next)) [
  | inl e ↦ rw e f
  | inr e ↦ rw e f
]
step-IsForgotten id s (files now other p approved) a (x, y) =
    let filed =
      delete_where-none (λ i q. not (ltb (now - (s.cells q).decided_at) decision_ttl)) id
        (insert other p s.decided) (insert-none id other p s.decided a y) in
    let gone = delete-none id other s.pending x in
    elim (Bool-cases s.on_decision) [ inl e ↦ rw e (gone, filed) | inr e ↦ rw e (gone, filed) ]
step-IsForgotten id s (sets text confirm) a f =
    set_mode-IsForgotten id (parse_mode text) text confirm s f

steps-IsForgotten :
    (id : Text) (s : Service) (es : List Event)
    → All (IsAway id) es
    → IsForgotten id s
    → IsForgotten id (steps s es)
unfolding steps
steps-IsForgotten id s [] a f = f
steps-IsForgotten id s (e ∷ es) (a, rest) f =
    steps-IsForgotten id (step s e).0 es rest (step-IsForgotten id s e a f)

-- Once a decision is collected, the next request for its change set makes a new prompt, whatever was
-- open or decided before and whatever calls come between, as long as none of them asks for that
-- change set or files a decision about it.
pub wake-attach :
    (s : Service) (p now : ℕ) (req : ApprovalRequest) (es : List Event)
    → All (IsAway req.change_set_id) es
    → let t = steps (wake s req.change_set_id p done).0 es in
      attach now t req ≡ open_prompt now t req
unfolding wake
wake-attach s p now req es away =
    let id = req.change_set_id in
    let (x, y) = steps-IsForgotten id (remove id s) es away (remove_forgets id s) in
    attach_fresh now (steps (remove id s) es) req x y
