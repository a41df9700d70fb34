-- ===== src/Approval/Cells.antt =====
-- Which cells a call of the service may write.
use fylane.Common.{
  ℕ, suc, ◌<◌, ◌≡◌, refl, ◌⊎◌, inl, inr, Bool, true, false, ◌&&◌, Option, none, some, ◌-◌,
  Option-cases, subst, sym, ap, ◌≢◌, nat_beq_iff, ltb, nat_beq, ◌==◌, arith, Bool-cases,
}
use fylane.Common.Text.{Text, text_eq}
use fylane.Common.Dict.{lookup}
use fylane.Txn.{ApprovalRequest, Decision}
use fylane.Approval.State.{
  Service, Pending, Cells, decision_ttl, Mode, set_mode_to, safe, balanced, open_mode, resolve_cell,
  fresh_pending, write_cell,
}
use fylane.Approval.Prompts.{
  attach, attach_pending, attach_decided, open_prompt, attach_call, mark, file, sweep,
}
use fylane.Approval.Events.{ignore_error}

-- A part of the program leaves the cells alone, or opens the next cell as a fresh prompt.
abbrev pub Opens : Service → Service → Type 0
Opens s t =
    ((t.cells ≡ s.cells) × (t.next ≡ s.next))
    ⊎ ((now : ℕ) × (req : ApprovalRequest) × (t.cells
          ≡ write_cell s.next (fresh_pending now req) s.cells)
        × (t.next ≡ suc s.next))

attach_decided-Opens :
    (now : ℕ) (s : Service) (req : ApprovalRequest) (o : Option ℕ)
    → Opens s (attach_decided now s req o).0
unfolding attach_decided open_prompt
attach_decided-Opens now s req none = inr (now, req, refl, refl)
attach_decided-Opens now s req (some p) =
    elim (Bool-cases (is_fresh && (s.cells p).request.provider == req.provider)) [
      | inl e ↦ rw e (inl (refl, refl))
      | inr e ↦ rw e (elim (Bool-cases is_fresh) [
        | inl f ↦ rw f (inr (now, req, refl, refl))
        | inr f ↦ rw f (inr (now, req, refl, refl))
      ])
    ]
  where
    is_fresh : Bool
    is_fresh = ltb (now - (s.cells p).decided_at) decision_ttl

attach-Opens : (now : ℕ) (s : Service) (req : ApprovalRequest) → Opens s (attach now s req).0
unfolding attach attach_pending
attach-Opens now s req = elim (Option-cases (lookup req.change_set_id s.pending)) [
  | inl e ↦ rw e (attach_decided-Opens now s req (lookup req.change_set_id s.decided))
  | inr (p, e) ↦ rw e (inl (refl, refl))
]

pub attach_call-Opens :
    (now : ℕ) (s : Service) (req : ApprovalRequest) → Opens s (attach_call now s req).0
unfolding attach_call
attach_call-Opens now s req = elim (Bool-cases ((attach now s req).2 && s.on_request)) [
  | inl f ↦ rw f (attach-Opens now s req)
  | inr f ↦ rw f (attach-Opens now s req)
]

resolve_cell_again :
    (now : ℕ) (d : Decision) (c : Pending) → c.decided ≡ true → resolve_cell now d c ≡ (c, false)
unfolding resolve_cell
resolve_cell_again now d c e = simp e

-- A second decision changes no cell.
pub mark_again :
    (now p : ℕ) (d : Decision) (s : Service)
    → (s.cells p).decided ≡ true
    → mark now p d s ≡ (record s { cells = write_cell p (s.cells p) s.cells }, false)
unfolding mark
mark_again now p d s e = rw (resolve_cell_again now d (s.cells p) e)

pub set_mode_cells :
    (o : Option Mode) (text : Text) (confirm : Bool) (s : Service)
    → let t = ignore_error s (set_mode_to o text confirm s) in
      (t.cells ≡ s.cells) × (t.next ≡ s.next)
unfolding set_mode_to
set_mode_cells none text confirm s = (refl, refl)
set_mode_cells (some safe) text confirm s = (refl, refl)
set_mode_cells (some balanced) text confirm s = (refl, refl)
set_mode_cells (some open_mode) text true s = (refl, refl)
set_mode_cells (some open_mode) text false s = (refl, refl)

pub file-next :
    (now : ℕ) (id : Text) (p : ℕ) (approved : Bool) (s : Service)
    → (file now id p approved s).next ≡ s.next
unfolding file sweep
file-next now id p approved s = elim (Bool-cases s.on_decision) [ inl e ↦ rw e | inr e ↦ rw e ]

pub write_cell_ne : (p q : ℕ) (c : Pending) (f : Cells) → p ≢ q → write_cell q c f p ≡ f p
write_cell_ne p q c f h = ground arith

pub ne_of_lt : {p q : ℕ} → p < q → p ≢ q
ne_of_lt h = omega arith

pub mark_closed :
    (now q : ℕ) (d : Decision) (s : Service) (p : ℕ)
    → (s.cells p).decided ≡ true
    → (mark now q d s).0.cells p ≡ s.cells p
mark_closed now q d s p e = elim (Bool-cases (nat_beq p q)) [
  | inr h ↦ (unfold mark in rw h)
  | inl h ↦
      let same = (nat_beq_iff p q).0 h in
      rw (mark_again now q d s (subst (λ r. (s.cells r).decided ≡ true) same e))
        (rw h (ap s.cells (sym same)))
]
