-- ===== src/Txn/Consent.antt =====
-- What Execute does to the disk when it is not told to write.
use fylane.Common.{
  ◌≡◌, refl, subst, ◌⊎◌, inl, inr, Bool, true, false, List, [], ◌∷◌, Option, none, some,
  if◌then◌else◌, Bool-cases, length, ltb, nat_beq, ◌==◌, any,
}
use fylane.Common.Text.{Text, text_eq}
use fylane.Common.Dict.{lookup}
use fylane.Txn.{Decision}
use fylane.Txn.Disk.{Disk}
use fylane.Txn.Ops.{PlannedOp, Workspace, Planned, ready, conflicted, invalid, max_ops}
use fylane.Txn.Plan.{plan}
use fylane.Txn.Store.{
  ChangeSetStatus, set_pending, set_approved, set_applied, set_denied, set_failed, set_rolled_back,
  ChangeSet, Request, Engine, Surroundings, approval_request,
}
use fylane.Txn.Claim.{
  Claim, fresh, resumes, finished, not_claimed, claim, claim_found, claim_by, release, finish,
  same_operations, put,
}
use fylane.Txn.Execute.{
  execute, new_record, run_claimed, run, run_plan, record_and_ask, ask, decided, drop_resumed,
}

-- The local approval said yes.
abbrev pub Yes : Option Decision → Type 0
Yes o = (d : Decision) × (o ≡ some d) × (d.pending ≡ false) × (d.approved ≡ true)

-- The name under which a request is executed.
abbrev pub id_of : Surroundings → Request → Text
id_of env req = if req.change_set_id == [] then env.new_id else req.change_set_id

pub finish-disk :
    (fails : Bool) (rec : ChangeSet) (status : ChangeSetStatus) (reason : Text) (st : Engine)
    → (finish fails rec status reason st).disk ≡ st.disk
unfolding finish
finish-disk true rec status reason st = refl
finish-disk false rec status reason st = refl

claim_by-disk :
    (s : ChangeSetStatus) (rec : ChangeSet) (id : Text) (st : Engine)
    → (claim_by s rec id st).0.disk ≡ st.disk
unfolding claim_by release
claim_by-disk set_pending rec id st = refl
claim_by-disk set_approved rec id st = refl
claim_by-disk set_applied rec id st = refl
claim_by-disk set_denied rec id st = refl
claim_by-disk set_failed rec id st = refl
claim_by-disk set_rolled_back rec id st = refl

claim_found-disk :
    (o : Option ChangeSet) (id : Text) (st : Engine) → (claim_found o id st).0.disk ≡ st.disk
unfolding claim_found
claim_found-disk none id st = refl
claim_found-disk (some rec) id st = claim_by-disk rec.status rec id st

claim-disk : (fails : Bool) (id : Text) (st : Engine) → (claim fails id st).0.disk ≡ st.disk
unfolding claim release
claim-disk fails id st = elim (Bool-cases (any (λ i. i == id) st.inflight)) [
  | inl h ↦ rw h
  | inr h ↦ elim (Bool-cases fails) [
    | inl f ↦ rw (h, f)
    | inr f ↦
        rw (h, f)
          (claim_found-disk (lookup id st.change_sets) id
            (record st { inflight = id ∷ st.inflight }))
  ]
]

module _ (env : Surroundings) where
  -- The disk that `d` was before is as it was, or as others left it while the answer was awaited,
  -- or the answer to the previews of the whole plan was a yes.
  abbrev pub Consents : Workspace → Request → Text → Disk → Disk → Type 0
  Consents ws req id before after =
      (after ≡ before)
      ⊎ (after ≡ env.meanwhile before)
      ⊎ ((ps : List PlannedOp) × (plan env.hash env.diff_text ws before.nodes req.operations
            ≡ ready ps)
          × Yes (env.approve (approval_request ws req id ps)))

  decided-disk :
      (rec : ChangeSet) (ps : List PlannedOp) (st : Engine) (o : Option Decision)
      → ((decided env rec ps st o).0.disk ≡ st.disk) ⊎ Yes o
  unfolding decided
  decided-disk rec ps st none = inl (finish-disk env.finish_fails rec set_failed _ st)
  decided-disk rec ps st (some d) = elim (Bool-cases d.pending) [
    | inl p ↦ inl (rw p)
    | inr p ↦ elim (Bool-cases d.approved) [
      | inl a ↦ inr (d, refl, p, a)
      | inr a ↦ inl (rw (p, a) (finish-disk env.finish_fails rec set_denied _ st))
    ]
  ]

  ask-disk :
      (ws : Workspace) (req : Request) (id : Text) (rec : ChangeSet) (ps : List PlannedOp)
      (st : Engine)
      → ((ask env ws req id rec ps st).0.disk ≡ env.meanwhile st.disk)
        ⊎ Yes (env.approve (approval_request ws req id ps))
  unfolding ask
  ask-disk ws req id rec ps st =
      decided-disk rec ps (record st { disk = env.meanwhile st.disk })
        (env.approve (approval_request ws req id ps))

  asked-Consents :
      (ws : Workspace) (req : Request) (id : Text) (ps : List PlannedOp) (before after : Disk)
      → plan env.hash env.diff_text ws before.nodes req.operations ≡ ready ps
      → (after ≡ env.meanwhile before) ⊎ Yes (env.approve (approval_request ws req id ps))
      → Consents ws req id before after
  asked-Consents ws req id ps before after e (inl m) = inr (inl m)
  asked-Consents ws req id ps before after e (inr y) = inr (inr (ps, e, y))

  record_and_ask-Consents :
      (ws : Workspace) (req : Request) (id : Text) (resume : Option ChangeSet) (ps : List PlannedOp)
      (st : Engine)
      → plan env.hash env.diff_text ws st.disk.nodes req.operations ≡ ready ps
      → Consents ws req id st.disk (record_and_ask env ws req id resume ps st).0.disk
  unfolding record_and_ask
  record_and_ask-Consents ws req id (some rec) ps st e =
      asked-Consents ws req id ps st.disk (ask env ws req id rec ps st).0.disk e
        (ask-disk ws req id rec ps st)
  record_and_ask-Consents ws req id none ps st e = elim (Bool-cases env.create_fails) [
    | inl f ↦ inl (rw f)
    | inr f ↦
        let rec = new_record env ws req id ps in
        rw f (
          asked-Consents ws req id ps st.disk (ask env ws req id rec ps (put rec st)).0.disk e
            (ask-disk ws req id rec ps (put rec st)))
  ]

  drop_resumed-disk :
      (resume : Option ChangeSet) (reason : Text) (st : Engine)
      → (drop_resumed env resume reason st).disk ≡ st.disk
  unfolding drop_resumed
  drop_resumed-disk none reason st = refl
  drop_resumed-disk (some rec) reason st = finish-disk env.finish_fails rec set_failed _ st

  run_plan-Consents :
      (ws : Workspace) (req : Request) (id : Text) (resume : Option ChangeSet) (st : Engine)
      (planned : Planned (List PlannedOp))
      → plan env.hash env.diff_text ws st.disk.nodes req.operations ≡ planned
      → Consents ws req id st.disk (run_plan env ws req id resume st planned).0.disk
  unfolding run_plan
  run_plan-Consents ws req id resume st (invalid x) e = inl refl
  run_plan-Consents ws req id resume st (conflicted c) e =
      inl (drop_resumed-disk resume c.reason st)
  run_plan-Consents ws req id resume st (ready ps) e =
      record_and_ask-Consents ws req id resume ps st e

  run-Consents :
      (ws : Workspace) (req : Request) (id : Text) (resume : Option ChangeSet) (st : Engine)
      → Consents ws req id st.disk (run env ws req id resume st).0.disk
  unfolding run
  run-Consents ws req id resume st =
      run_plan-Consents ws req id resume st
        (plan env.hash env.diff_text ws st.disk.nodes req.operations) refl

  run_claimed-Consents :
      (ws : Workspace) (req : Request) (id : Text) (st : Engine) (c : Claim)
      → Consents ws req id st.disk (run_claimed env ws req id st c).0.disk
  unfolding run_claimed release
  run_claimed-Consents ws req id st (not_claimed e) = inl refl
  run_claimed-Consents ws req id st (finished r) = inl refl
  run_claimed-Consents ws req id st fresh = run-Consents ws req id none st
  run_claimed-Consents ws req id st (resumes rec) =
      elim (Bool-cases (same_operations rec.operations req.operations)) [
        | inr s ↦ inl (rw s)
        | inl s ↦ rw s (run-Consents ws req id (some rec) st)
      ]

  -- Nothing is written without a local yes: after Execute the disk is as it was, or as others left
  -- it while the answer was awaited, or the local approval was asked about this change set with
  -- the previews of the whole plan and answered yes.
  pub execute-Consents :
      (ws : Workspace) (req : Request) (st : Engine)
      → Consents ws req (id_of env req) st.disk (execute env ws req st).0.disk
  unfolding execute
  execute-Consents ws req st = elim (Bool-cases ws.writable) [
    | inr w ↦ inl (rw w)
    | inl w ↦ elim (Bool-cases (nat_beq (length req.operations) 0)) [
      | inl z ↦ inl (rw (w, z))
      | inr z ↦ elim (Bool-cases (ltb max_ops (length req.operations))) [
        | inl m ↦ inl (rw (w, z, m))
        | inr m ↦ rw (w, z, m) claimed
      ]
    ]
  ]
    where
      c : Engine × Claim
      c = claim env.get_fails (id_of env req) st

      claimed :
          Consents ws req
            (id_of env req)
            st.disk
            (run_claimed env ws req (id_of env req) c.0 c.1).0.disk
      claimed =
          subst
            (λ d.
              Consents ws req (id_of env req) d
                (run_claimed env ws req (id_of env req) c.0 c.1).0.disk)
            (claim-disk env.get_fails (id_of env req) st)
            (run_claimed-Consents ws req (id_of env req) c.0 c.1)
