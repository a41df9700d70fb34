-- ===== src/Approval/Attach.antt =====
-- What a caller attaches to, and what becomes of a decision that is collected, left or replayed.
use fylane.Common.{
  ℕ, ◌-◌, ◌<◌, ◌≡◌, refl, ◌⊎◌, inl, inr, Bool, true, false, not, Option, none, some, ltb, ap, ◌∙◌,
  arith, Bool-cases,
}
use fylane.Common.Text.{Text, text_eq, text_beq_iff}
use fylane.Common.Dict.{lookup, insert, delete, delete_where}
use fylane.Common.Dict.{lookup-insert, lookup-delete, lookup-delete_where}
use fylane.Txn.{ApprovalRequest, Decision}
use fylane.Approval.State.{Service, Pending, Cells, write_cell, decision_ttl, resolve_cell}
use fylane.Approval.Prompts.{
  attach, attach_decided, attach_pending, open_prompt, wake, remove, done, resolve, resolve_found,
  mark, file, sweep, local_decision,
}

-- The caller took over the decision at `p`.
abbrev pub Replayed : ℕ → Service → ApprovalRequest → ℕ → Service → Type 0
Replayed now s req p t =
    (lookup req.change_set_id s.decided ≡ some p)
    × (now - (s.cells p).decided_at < decision_ttl)
    × ((s.cells p).request.provider ≡ req.provider)
    × (lookup req.change_set_id t.decided ≡ none)

attach_decided-Shared :
    (now : ℕ) (s : Service) (req : ApprovalRequest) (p : ℕ)
    → lookup req.change_set_id s.decided ≡ some p
    → (attach_decided now s req (some p)).2 ≡ false
    → Replayed now s req (attach_decided now s req (some p)).1 (attach_decided now s req (some p)).0
unfolding attach_decided
attach_decided-Shared now s req p e h = ground (
  arith,
  text_beq_iff req.change_set_id req.change_set_id,
  lookup-delete req.change_set_id req.change_set_id s.decided,
  text_beq_iff (s.cells p).request.provider req.provider,
)

decided-Shared :
    (now : ℕ) (s : Service) (req : ApprovalRequest) (o : Option ℕ)
    → lookup req.change_set_id s.decided ≡ o
    → (attach_decided now s req o).2 ≡ false
    → Replayed now s req (attach_decided now s req o).1 (attach_decided now s req o).0
unfolding attach_decided open_prompt
decided-Shared now s req none e h = cc
decided-Shared now s req (some p) e h = replayed
  where
    replayed :
        Replayed now s req
          (attach_decided now s req (some p)).1
          (attach_decided now s req (some p)).0
    replayed = attach_decided-Shared now s req p e h

-- What a caller attached to at `p`, with the service then in the state `t`.
abbrev pub Shared : ℕ → Service → ApprovalRequest → ℕ → Service → Type 0
Shared now s req p t = (lookup req.change_set_id s.pending ≡ some p) ⊎ Replayed now s req p t

pending-Shared :
    (now : ℕ) (s : Service) (req : ApprovalRequest) (o : Option ℕ)
    → lookup req.change_set_id s.pending ≡ o
    → (attach_pending now s req o).2 ≡ false
    → Shared now s req (attach_pending now s req o).1 (attach_pending now s req o).0
unfolding attach_pending
pending-Shared now s req (some p) e h = inl e
pending-Shared now s req none e h =
    inr (decided-Shared now s req (lookup req.change_set_id s.decided) refl h)

-- A caller that attaches with no new prompt shares the open prompt of its change set, or takes
-- over a decision that is younger than the limit, was made for the same platform, and is gone
-- from the store of decisions afterwards.
pub attach-Shared :
    (now : ℕ) (s : Service) (req : ApprovalRequest)
    → (attach now s req).2 ≡ false
    → Shared now s req (attach now s req).1 (attach now s req).0
unfolding attach
attach-Shared now s req h = pending-Shared now s req (lookup req.change_set_id s.pending) refl h

-- The first attach for a change set that is neither open nor decided makes a prompt.
pub attach_fresh :
    (now : ℕ) (s : Service) (req : ApprovalRequest)
    → lookup req.change_set_id s.pending ≡ none
    → lookup req.change_set_id s.decided ≡ none
    → attach now s req ≡ open_prompt now s req
unfolding attach attach_pending attach_decided
attach_fresh now s req p d = ground arith

-- A change set that is removed has neither a prompt nor a decision.
pub remove_forgets :
    (id : Text) (s : Service)
    → (lookup id (remove id s).pending ≡ none) × (lookup id (remove id s).decided ≡ none)
unfolding remove
remove_forgets id s = (
  ground (arith, text_beq_iff id id, lookup-delete id id s.pending),
  ground (arith, text_beq_iff id id, lookup-delete id id s.decided),
)

abbrev pub stale : ℕ → Service → Text → ℕ → Bool
stale now s id p = not (ltb (now - (s.cells p).decided_at) decision_ttl)

pub file_fields :
    (now : ℕ) (id : Text) (p : ℕ) (approved : Bool) (s : Service)
    → let t = file now id p approved s in
      (t.pending ≡ delete id s.pending)
      × (t.decided ≡ delete_where (stale now s) (insert id p s.decided))
      × (t.cells ≡ s.cells)
      × (t.mode ≡ s.mode)
unfolding file sweep
file_fields now id p approved s = elim (Bool-cases s.on_decision) [
  | inl e ↦ rw e (refl, refl, refl, refl)
  | inr e ↦ rw e (refl, refl, refl, refl)
]

-- What a decision leaves behind once it is filed: no open prompt for the change set, and the
-- decision where a retry finds it.
pub file_lem :
    (now : ℕ) (id : Text) (p : ℕ) (approved : Bool) (s : Service)
    → (s.cells p).decided_at ≡ now
    → let t = file now id p approved s in
      (lookup id t.pending ≡ none) × (lookup id t.decided ≡ some p)
file_lem now id p approved s e =
    let (ep, ed, _, _) = file_fields now id p approved s in
    (
      rw ep (ground (arith, text_beq_iff id id, lookup-delete id id s.pending)),
      rw ed (
          lookup-delete_where (stale now s) id p (insert id p s.decided)
            (ground (arith, text_beq_iff id id, lookup-insert id id p s.decided)) (ground arith)),
    )

-- The cell of a prompt after its first decision.
abbrev pub decided_cell : ℕ → Decision → Pending → Pending
decided_cell now d c = record c { decided = true; decided_at = now; decision = d; closed = true }

pub write_cell_self : (p : ℕ) (c : Pending) (f : Cells) → write_cell p c f p ≡ c
write_cell_self p c f = ground arith

pub mark_first :
    (now p : ℕ) (d : Decision) (s : Service)
    → (s.cells p).decided ≡ false
    → mark now p d s
      ≡ (record s { cells = write_cell p (decided_cell now d (s.cells p)) s.cells }, true)
unfolding mark resolve_cell
mark_first now p d s e = rw e

resolve_open :
    (now : ℕ) (id : Text) (approved : Bool) (reason : Text) (s : Service) (p : ℕ)
    → lookup id s.pending ≡ some p
    → (s.cells p).decided ≡ false
    → resolve now id approved reason s
      ≡ (file now id p approved (mark now p (local_decision approved reason) s).0, true)
unfolding resolve resolve_found
resolve_open now id approved reason s p open_p undecided = rw open_p (rw undecided)

-- Attaching to a young decision of the same platform takes it over.
pub attach_replays :
    (now : ℕ) (s : Service) (req : ApprovalRequest) (p : ℕ)
    → lookup req.change_set_id s.pending ≡ none
    → lookup req.change_set_id s.decided ≡ some p
    → now - (s.cells p).decided_at < decision_ttl
    → (s.cells p).request.provider ≡ req.provider
    → attach now s req ≡ (record s { decided = delete req.change_set_id s.decided }, p, false)
unfolding attach attach_pending attach_decided
attach_replays now s req p ep ed young same =
    rw (ep, ed) (ground (arith, text_beq_iff (s.cells p).request.provider req.provider))

-- A decision made while nobody waited is replayed to the retry: resolving an open prompt, and
-- then attaching for the same change set and platform within the limit, gives the decided prompt
-- without asking again, and the retry reads the decision that was made.
pub attach-resolve :
    (now later : ℕ) (s : Service) (req : ApprovalRequest) (p : ℕ) (approved : Bool) (reason : Text)
    → lookup req.change_set_id s.pending ≡ some p
    → (s.cells p).decided ≡ false
    → (s.cells p).request.provider ≡ req.provider
    → later - now < decision_ttl
    → let (t, accepted) = resolve now req.change_set_id approved reason s in
      let (u, q, is_new) = attach later t req in
      (accepted ≡ true)
      × (q ≡ p)
      × (is_new ≡ false)
      × ((wake u req.change_set_id q done).1 ≡ local_decision approved reason)
unfolding wake
attach-resolve now later s req p approved reason open_p undecided same young =
    let d = local_decision approved reason in
    let marked : Service = record s {
      cells = write_cell p (decided_cell now d (s.cells p)) s.cells;
    } in
    let t = file now req.change_set_id p approved marked in
    let e : resolve now req.change_set_id approved reason s ≡ (t, true) =
      resolve_open now req.change_set_id approved reason s p open_p undecided
      ∙ ap (λ (m : Service × Bool). (file now req.change_set_id p approved m.0, true))
          (mark_first now p d s undecided) in
    let cell : (marked.cells p ≡ decided_cell now d (s.cells p)) =
      write_cell_self p (decided_cell now d (s.cells p)) s.cells in
    let (gone, kept) =
      file_lem now req.change_set_id p approved marked (ap (λ (c : Pending). c.decided_at) cell) in
    let (_, _, cells, _) = file_fields now req.change_set_id p approved marked in
    let cell' : (t.cells p ≡ decided_cell now d (s.cells p)) =
      ap (λ (f : Cells). f p) cells ∙ cell in
    let a : attach later t req
        ≡ (record t { decided = delete req.change_set_id t.decided }, p, false) =
      attach_replays later t req p gone kept (rw cell' young) (rw cell' same) in
    rw e (rw a (refl, refl, refl, ap (λ (c : Pending). c.decision) cell'))
