-- ===== src/Txn/Retry.antt =====
-- A change set that was applied is not applied again.
use fylane.Common.{
  ◌≡◌, refl, sym, ◌∙◌, ap, ◌≢◌, Bool, true, false, List, [], ◌∷◌, Option, none, some, not,
  if◌then◌else◌, Bool-cases, length, ltb, nat_beq, ◌==◌, ne→==, any, filter, inl, inr, subst,
  if_cases,
}
use fylane.Common.Text.{Text, text_eq}
use fylane.Common.Dict.{lookup}
use fylane.Txn.Ops.{Workspace, max_ops}
use fylane.Txn.Store.{
  ChangeSetStatus, set_pending, set_approved, set_denied, set_failed, set_rolled_back, set_applied,
  ChangeSet, Request, Engine, Surroundings, Reply, replied, Result, applied,
}
use fylane.Txn.Claim.{
  Claim, fresh, resumes, finished, not_claimed, claim, claim_found, claim_by, release,
  same_operations, stored_result,
}
use fylane.Txn.Execute.{execute, run, run_claimed}
use fylane.Txn.Filed.{Backed, HasId, claim-ClaimBacked, run_claimed-Backed}

abbrev holds : Text → Engine → Bool
holds id st = any (λ i. i == id) st.inflight

any-filter :
    (id : Text) (l : List Text) → any (λ i. i == id) (filter (λ i. not (i == id)) l) ≡ false
any-filter id [] = refl
any-filter id (x ∷ l) = elim (Bool-cases (x == id)) [
  | inl h ↦ rw h (any-filter id l)
  | inr h ↦ rw (h, h) (any-filter id l)
]

holds-release : (id : Text) (st : Engine) → holds id (release id st) ≡ false
unfolding release
holds-release id st = any-filter id st.inflight

-- A claim that finds an applied change set gives its stored result and is given back.
claim_applied :
    (id : Text) (st : Engine) (rec : ChangeSet)
    → holds id st ≡ false
    → lookup id st.change_sets ≡ some rec
    → rec.status ≡ set_applied
    → claim false id st
      ≡ (release id (record st { inflight = id ∷ st.inflight }), finished (stored_result rec))
unfolding claim claim_found
claim_applied id st rec h l s = rw (h, l) (by_status rec s)
  where
    by_status :
        (rec : ChangeSet)
        → rec.status ≡ set_applied
        → claim_by rec.status rec id (record st { inflight = id ∷ st.inflight })
          ≡ (release id (record st { inflight = id ∷ st.inflight }), finished (stored_result rec))
    by_status rec s = ap (λ x. claim_by x rec id (record st { inflight = id ∷ st.inflight })) s

-- The requests that Execute looks at.
abbrev Accepted : Workspace → Request → Type 0
Accepted ws req =
    (ws.writable ≡ true)
    × (nat_beq (length req.operations) 0 ≡ false)
    × (ltb max_ops (length req.operations) ≡ false)

abbrev name_of : Surroundings → Request → Text
name_of env req = if req.change_set_id == [] then env.new_id else req.change_set_id

named :
    (env : Surroundings) (req : Request)
    → req.change_set_id ≢ []
    → name_of env req ≡ req.change_set_id
named env req n = rw (ne→== req.change_set_id [] n) refl

execute-Accepted :
    (env : Surroundings) (ws : Workspace) (req : Request) (id : Text) (st : Engine)
    → name_of env req ≡ id
    → Accepted ws req
    → execute env ws req st
      ≡ run_claimed env ws req id (claim env.get_fails id st).0 (claim env.get_fails id st).1
unfolding execute
execute-Accepted env ws req id st e (w, z, m) =
    rw (w, z, m)
      (ap (λ i. run_claimed env ws req i (claim env.get_fails i st).0 (claim env.get_fails i st).1)
        e)

replied-Accepted :
    (env : Surroundings) (ws : Workspace) (req : Request) (st : Engine) (r : Result)
    → (execute env ws req st).1 ≡ replied r
    → Accepted ws req
unfolding execute
replied-Accepted env ws req st r e = elim (Bool-cases ws.writable) [
  | inr w ↦ absurd (let f = rw w at e in cc)
  | inl w ↦ elim (Bool-cases (nat_beq (length req.operations) 0)) [
    | inl z ↦ absurd (let f = rw (w, z) at e in cc)
    | inr z ↦ elim (Bool-cases (ltb max_ops (length req.operations))) [
      | inl m ↦ absurd (let f = rw (w, z, m) at e in cc)
      | inr m ↦ (w, z, m)
    ]
  ]
]

-- A claim that ends the call gives the name back.
abbrev GivenBack : Text → Engine × Claim → Type 0
GivenBack id (st, finished r) = holds id st ≡ false
GivenBack id (st, _) = Unit

claim_by-GivenBack :
    (s : ChangeSetStatus) (rec : ChangeSet) (id : Text) (st : Engine)
    → GivenBack id (claim_by s rec id st)
unfolding claim_by
claim_by-GivenBack set_pending rec id st = tt
claim_by-GivenBack set_approved rec id st = holds-release id st
claim_by-GivenBack set_applied rec id st = holds-release id st
claim_by-GivenBack set_denied rec id st = holds-release id st
claim_by-GivenBack set_failed rec id st = holds-release id st
claim_by-GivenBack set_rolled_back rec id st = holds-release id st

claim_found-GivenBack :
    (o : Option ChangeSet) (id : Text) (st : Engine) → GivenBack id (claim_found o id st)
unfolding claim_found
claim_found-GivenBack none id st = tt
claim_found-GivenBack (some rec) id st = claim_by-GivenBack rec.status rec id st

claim-GivenBack : (fails : Bool) (id : Text) (st : Engine) → GivenBack id (claim fails id st)
unfolding claim
claim-GivenBack fails id st =
    if_cases (GivenBack id) (holds id st) _ _ (λ b. tt)
      (λ b.
        if_cases (GivenBack id) fails _ _ (λ f. tt)
          (λ f.
            claim_found-GivenBack (lookup id st.change_sets) id
              (record st { inflight = id ∷ st.inflight })))

run_claimed-GivenBack :
    (env : Surroundings) (ws : Workspace) (req : Request) (id : Text) (st : Engine) (c : Claim)
    (r : Result)
    → GivenBack id (st, c)
    → (run_claimed env ws req id st c).1 ≡ replied r
    → holds id (run_claimed env ws req id st c).0 ≡ false
unfolding run_claimed
run_claimed-GivenBack env ws req id st (not_claimed e) r g h = absurd cc
run_claimed-GivenBack env ws req id st (finished q) r g h = g
run_claimed-GivenBack env ws req id st fresh r g h = holds-release id (run env ws req id none st).0
run_claimed-GivenBack env ws req id st (resumes rec) r g h =
    if_cases (λ (x : Engine × Reply). holds id x.0 ≡ false)
      (same_operations rec.operations req.operations) _ _
      (λ s. holds-release id (run env ws req id (some rec) st).0) (λ s. holds-release id st)

-- The second call, on a store in which the change set stands as applied.
retried :
    (env : Surroundings) (ws : Workspace) (req : Request) (id : Text) (st : Engine)
    (rec : ChangeSet)
    → name_of env req ≡ id
    → Accepted ws req
    → env.get_fails ≡ false
    → holds id st ≡ false
    → lookup id st.change_sets ≡ some rec
    → rec.status ≡ set_applied
    → execute env ws req st
      ≡ (release id (record st { inflight = id ∷ st.inflight }), replied (stored_result rec))
unfolding run_claimed
retried env ws req id st rec e a g h l s =
    execute-Accepted env ws req id st e a
    ∙ ap (λ x. run_claimed env ws req id x.0 x.1)
        (ap (λ f. claim f id st) g ∙ claim_applied id st rec h l s)

-- Applied once: if Execute reports a change set as applied, then the same request again, whatever
-- the approval, the disk and the clock do by then, is answered from the store with the same
-- deadline, marked as replayed, and changes neither the disk nor the store nor the audit. The
-- request names its change set, stored change sets stand under their own names, and the second
-- call can read the store.
pub execute_again :
    (env later : Surroundings) (ws : Workspace) (req : Request) (st : Engine) (r : Result)
    → req.change_set_id ≢ []
    → HasId req.change_set_id (lookup req.change_set_id st.change_sets)
    → later.get_fails ≡ false
    → (execute env ws req st).1 ≡ replied r
    → r.status ≡ applied
    → let t = (execute env ws req st).0 in
      let (u, reply) = execute later ws req t in
      ((q : Result) × (reply ≡ replied q)
        × (q.status ≡ applied)
        × (q.replayed ≡ true)
        × (q.rollback_available_until ≡ r.rollback_available_until))
      × (u.disk ≡ t.disk)
      × (u.change_sets ≡ t.change_sets)
      × (u.audit ≡ t.audit)
unfolding release
execute_again env later ws req st r n k g e h =
    let id = req.change_set_id in
    let accepted = replied-Accepted env ws req st r e in
    let x = execute env ws req st in
    let c = claim env.get_fails id st in
    let first : (x ≡ run_claimed env ws req id c.0 c.1) =
      execute-Accepted env ws req id st (named env req n) accepted in
    let backed : Backed id x =
      subst (Backed id) (sym first)
        (run_claimed-Backed env ws req id c.0 c.1 (claim-ClaimBacked env.get_fails id st k)) in
    let (rec, stored, status, deadline) = backed r e h in
    let answered : (run_claimed env ws req id c.0 c.1).1 ≡ replied r =
      subst (λ (y : Engine × Reply). y.1 ≡ replied r) first e in
    let free : holds id x.0 ≡ false =
      subst (λ (y : Engine × Reply). holds id y.0 ≡ false) (sym first)
        (run_claimed-GivenBack env ws req id c.0 c.1 r (claim-GivenBack env.get_fails id st)
          answered) in
    rw (retried later ws req id x.0 rec (named later req n) accepted g free stored status)
      ((stored_result rec, refl, refl, refl, deadline), refl, refl, refl)
