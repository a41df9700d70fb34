-- ===== src/Txn/Filed.antt =====
-- A reply that says applied is backed by the store.
use fylane.Common.{
  ℕ, ◌≡◌, refl, sym, ◌∙◌, ap, map, ◌+◌, ◌≢◌, inl, inr, Bool, true, false, List, [], ◌∷◌, Option,
  none, some, not, Bool-cases, ◌==◌, any, ==-refl, if_cases,
}
use fylane.Common.Text.{Text, text_eq}
use fylane.Common.Dict.{Dict, lookup, insert, lookup-insert}
use fylane.Txn.{Decision}
use fylane.Txn.Disk.{Disk, Nodes}
use fylane.Txn.Ops.{PlannedOp, Workspace, Planned, ready, conflicted, invalid}
use fylane.Txn.Plan.{plan}
use fylane.Txn.Apply.{Outcome, apply, backup}
use fylane.Txn.Apply
use fylane.Txn.Store.{
  ChangeSetStatus, set_pending, set_approved, set_applied, set_denied, set_failed, set_rolled_back,
  ChangeSet, Request, Engine, Surroundings, approval_request, Reply, replied, refused, Result,
  ExecError, journal_failed, applied, after_hashes, rollback_retention, blank_result,
}
use fylane.Txn.Claim.{
  Claim, fresh, resumes, finished, not_claimed, claim, claim_found, claim_by, release,
  same_operations, put, audit_ops, op_result, stored_result,
}
use fylane.Txn.Execute.{
  new_record, run_claimed, run, run_plan, record_and_ask, ask, decided, write_approved, apply_saved,
  conclude, journal,
}

-- The change set stands in the store as applied, with this deadline for a rollback.
abbrev pub Filed : Text → ℕ → Dict Text ChangeSet → Type 0
Filed id until sets =
    (rec : ChangeSet) × (lookup id sets ≡ some rec)
    × (rec.status ≡ set_applied)
    × (rec.rollback_deadline ≡ until)

-- A reply that says applied is backed by the store.
abbrev pub BackedIn : Text → Dict Text ChangeSet → Reply → Type 0
BackedIn id sets reply =
    (r : Result) → reply ≡ replied r → r.status ≡ applied → Filed id r.rollback_available_until sets

abbrev pub Backed : Text → Engine × Reply → Type 0
Backed id x = BackedIn id x.0.change_sets x.1

other_status :
    (id : Text) (sets : Dict Text ChangeSet) {reply : Reply} {q : Result}
    → reply ≡ replied q
    → q.status ≢ applied
    → BackedIn id sets reply
other_status id sets {reply} {q} e n r f h =
    let both : replied q ≡ replied r = sym e ∙ f in
    let same : q ≡ r = cc in absurd (n (ap (λ (y : Result). y.status) same ∙ h))

refused-BackedIn :
    (id : Text) (sets : Dict Text ChangeSet) {reply : Reply} {e : ExecError}
    → reply ≡ refused e
    → BackedIn id sets reply
refused-BackedIn id sets {e} h r f g = let both : refused e ≡ replied r = sym h ∙ f in cc

audit_ops-change_sets :
    (rec : ChangeSet) (ps : List PlannedOp) (st : Engine)
    → (audit_ops rec ps st).change_sets ≡ st.change_sets
unfolding audit_ops
audit_ops-change_sets rec [] st = refl
audit_ops-change_sets rec (p ∷ ps) st = audit_ops-change_sets rec ps _

-- A stored change set stands under its own name.
abbrev pub HasId : Text → Option ChangeSet → Type 0
HasId id none = Unit
HasId id (some rec) = rec.id ≡ id

-- What claim gives agrees with the store.
abbrev pub ClaimBacked : Text → Engine × Claim → Type 0
ClaimBacked id (st, fresh) = Unit
ClaimBacked id (st, resumes rec) = rec.id ≡ id
ClaimBacked id (st, finished r) = BackedIn id st.change_sets (replied r)
ClaimBacked id (st, not_claimed e) = Unit

claim_by-ClaimBacked :
    (s : ChangeSetStatus) (rec : ChangeSet) (id : Text) (st : Engine)
    → rec.status ≡ s
    → rec.id ≡ id
    → lookup id st.change_sets ≡ some rec
    → ClaimBacked id (claim_by s rec id st)
unfolding claim_by release
claim_by-ClaimBacked set_pending rec id st s k l = k
claim_by-ClaimBacked set_approved rec id st s k l = other_status id _ refl (λ e. cc)
claim_by-ClaimBacked set_applied rec id st s k l = λ r e h.
    let same : stored_result rec ≡ r = cc in
    (rec, l, s, ap (λ (y : Result). y.rollback_available_until) same)
claim_by-ClaimBacked set_denied rec id st s k l = other_status id _ refl (λ e. cc)
claim_by-ClaimBacked set_failed rec id st s k l = other_status id _ refl (λ e. cc)
claim_by-ClaimBacked set_rolled_back rec id st s k l = other_status id _ refl (λ e. cc)

claim_found-ClaimBacked :
    (o : Option ChangeSet) (id : Text) (st : Engine)
    → HasId id o
    → lookup id st.change_sets ≡ o
    → ClaimBacked id (claim_found o id st)
unfolding claim_found
claim_found-ClaimBacked none id st k l = tt
claim_found-ClaimBacked (some rec) id st k l = claim_by-ClaimBacked rec.status rec id st refl k l

pub claim-ClaimBacked :
    (fails : Bool) (id : Text) (st : Engine)
    → HasId id (lookup id st.change_sets)
    → ClaimBacked id (claim fails id st)
unfolding claim
claim-ClaimBacked fails id st k =
    if_cases (ClaimBacked id) (any (λ i. i == id) st.inflight) _ _ (λ b. tt)
      (λ b.
        if_cases (ClaimBacked id) fails _ _ (λ f. tt)
          (λ f.
            claim_found-ClaimBacked (lookup id st.change_sets) id
              (record st { inflight = id ∷ st.inflight }) k refl))

module _ (env : Surroundings) where
  abbrev applied_result : ChangeSet → List PlannedOp → Result
  applied_result rec ps = record blank_result {
    status = applied;
    change_set_id = rec.id;
    rollback_available_until = env.now + rollback_retention;
    operations = map op_result ps;
  }

  journal-Backed :
      (id : Text) (rec : ChangeSet) (ps : List PlannedOp) (st : Engine)
      → rec.id ≡ id
      → Backed id (journal env rec ps st)
  unfolding journal
  journal-Backed id rec ps st k = elim (Bool-cases env.journal_fails) [
    | inl f ↦ refused-BackedIn id _ {e = journal_failed} (rw f refl)
    | inr f ↦ λ r e h.
        let rec' : ChangeSet = record rec {
          status = set_applied;
          after_hashes = after_hashes ps [];
          applied_at = env.now;
          rollback_deadline = env.now + rollback_retention;
        } in
        let sent : replied (applied_result rec ps) ≡ replied r = rw f at e in
        let same : applied_result rec ps ≡ r = cc in
        let filed : lookup id (insert rec.id rec' st.change_sets) ≡ some rec' =
          rw (lookup-insert, k, ==-refl id) refl in
        rw f (
          rec',
          ap (lookup id) (audit_ops-change_sets rec' ps (put rec' st)) ∙ filed,
          refl,
          ap (λ (y : Result). y.rollback_available_until) same,
        )
  ]

  conclude-Backed :
      (id : Text) (rec : ChangeSet) (ps : List PlannedOp) (st : Engine) (o : Outcome)
      → rec.id ≡ id
      → Backed id (conclude env rec ps st o)
  unfolding conclude
  conclude-Backed id rec ps st Apply.applied k = journal-Backed id rec ps st k
  conclude-Backed id rec ps st (Apply.failed e too) k = other_status id _ refl (λ c. cc)

  apply_saved-Backed :
      (id : Text) (rec : ChangeSet) (ps : List PlannedOp) (st : Engine) (b : Disk × Nodes × Bool)
      → rec.id ≡ id
      → Backed id (apply_saved env rec ps st b)
  unfolding apply_saved
  apply_saved-Backed id rec ps st (d, saved, false) k = other_status id _ refl (λ c. cc)
  apply_saved-Backed id rec ps st (d, saved, true) k =
      let x = apply env.hash saved ps d in
      conclude-Backed id (record rec { backup_location = rec.id }) ps
        (record st { disk = x.0; saved = insert rec.id saved st.saved }) x.1 k

  accepted-Backed :
      (id : Text) (rec : ChangeSet) (ps : List PlannedOp) (st : Engine)
      → rec.id ≡ id
      → let rec' : ChangeSet = record rec { status = set_approved; approved_at = env.now } in
        Backed id (write_approved env rec' ps (put rec' st))
  unfolding write_approved
  accepted-Backed id rec ps st k =
      let rec' : ChangeSet = record rec { status = set_approved; approved_at = env.now } in
      apply_saved-Backed id rec' ps (put rec' st) (backup ps st.disk []) k

  decided-Backed :
      (id : Text) (rec : ChangeSet) (ps : List PlannedOp) (st : Engine) (o : Option Decision)
      → rec.id ≡ id
      → Backed id (decided env rec ps st o)
  unfolding decided
  decided-Backed id rec ps st none k = refused-BackedIn id _ refl
  decided-Backed id rec ps st (some d) k =
      if_cases (Backed id) d.pending _ _ (λ p. other_status id _ refl (λ c. cc))
        (λ p.
          if_cases (Backed id) (not d.approved) _ _ (λ a. other_status id _ refl (λ c. cc))
            (λ a.
              if_cases (Backed id) env.update_fails _ _ (λ u. refused-BackedIn id _ refl)
                (λ u. accepted-Backed id rec ps st k)))

  ask-Backed :
      (ws : Workspace) (req : Request) (id : Text) (rec : ChangeSet) (ps : List PlannedOp)
      (st : Engine)
      → rec.id ≡ id
      → Backed id (ask env ws req id rec ps st)
  unfolding ask
  ask-Backed ws req id rec ps st k =
      decided-Backed id rec ps (record st { disk = env.meanwhile st.disk })
        (env.approve (approval_request ws req id ps)) k

  record_and_ask-Backed :
      (ws : Workspace) (req : Request) (id : Text) (resume : Option ChangeSet) (ps : List PlannedOp)
      (st : Engine)
      → HasId id resume
      → Backed id (record_and_ask env ws req id resume ps st)
  unfolding record_and_ask
  record_and_ask-Backed ws req id (some rec) ps st k = ask-Backed ws req id rec ps st k
  record_and_ask-Backed ws req id none ps st k =
      if_cases (Backed id) env.create_fails _ _ (λ f. refused-BackedIn id _ refl)
        (λ f.
          let rec = new_record env ws req id ps in ask-Backed ws req id rec ps (put rec st) refl)

  run_plan-Backed :
      (ws : Workspace) (req : Request) (id : Text) (resume : Option ChangeSet) (st : Engine)
      (planned : Planned (List PlannedOp))
      → HasId id resume
      → Backed id (run_plan env ws req id resume st planned)
  unfolding run_plan
  run_plan-Backed ws req id resume st (invalid x) k = refused-BackedIn id _ refl
  run_plan-Backed ws req id resume st (conflicted c) k = other_status id _ refl (λ e. cc)
  run_plan-Backed ws req id resume st (ready ps) k = record_and_ask-Backed ws req id resume ps st k

  pub run_claimed-Backed :
      (ws : Workspace) (req : Request) (id : Text) (st : Engine) (c : Claim)
      → ClaimBacked id (st, c)
      → Backed id (run_claimed env ws req id st c)
  unfolding run_claimed run release
  run_claimed-Backed ws req id st (not_claimed e) k = refused-BackedIn id _ refl
  run_claimed-Backed ws req id st (finished r) k = k
  run_claimed-Backed ws req id st fresh k =
      run_plan-Backed ws req id none st
        (plan env.hash env.diff_text ws st.disk.nodes req.operations) tt
  run_claimed-Backed ws req id st (resumes rec) k =
      if_cases (Backed id) (same_operations rec.operations req.operations) _ _
        (λ s.
          run_plan-Backed ws req id (some rec) st
            (plan env.hash env.diff_text ws st.disk.nodes req.operations) k)
        (λ s. refused-BackedIn id _ refl)
