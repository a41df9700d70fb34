-- ===== src/Txn/Claim.antt =====
-- companion/internal/txn/engine.go: claim, release, finish and audit, and the comparison of a
-- retried change set with the recorded one.
use fylane.Common.{
  Bool, true, false, ◌&&◌, List, [], ◌∷◌, ◌++◌, Option, none, some, if◌then◌else◌, ◌==◌, any,
  filter, not, map,
}
use fylane.Common.Text.{Text, codes, text_eq}
use fylane.Common.Dict.{lookup, insert}
use fylane.Txn.Ops.{Operation, PlannedOp, result_path}
use fylane.Txn.Store.{
  ChangeSetStatus, set_pending, set_applied, set_denied, ChangeSet, OpResult, applied, denied,
  failed, Result, ExecError, already_executing, store_failed, Engine, blank_result, type_text,
  status_text, stored_op,
}

unfoldable pub release : Text → Engine → Engine
release id st = record st { inflight = filter (λ i. not (i == id)) st.inflight }

-- What claim gives Execute.
pub data Claim : Type 0 where
  fresh : Claim
  resumes : ChangeSet → Claim
  finished : Result → Claim
  not_claimed : ExecError → Claim

abbrev pub stored_result : ChangeSet → Result
stored_result rec = record blank_result {
  status = applied;
  change_set_id = rec.id;
  rollback_available_until = rec.rollback_deadline;
  operations = map (λ (op : Operation). stored_op rec.after_hashes op.op_type op) rec.operations;
  replayed = true;
}

unfoldable pub claim_by : ChangeSetStatus → ChangeSet → Text → Engine → Engine × Claim
unfolding release stored_op
claim_by set_pending rec id st = (st, resumes rec)
claim_by set_applied rec id st = (release id st, finished (stored_result rec))
claim_by set_denied rec id st = (
  release id st,
  finished (record blank_result {
    status = denied;
    change_set_id = rec.id;
    reason = codes "user_rejected";
    replayed = true;
  }),
)
claim_by s rec id st = (
  release id st,
  finished (record blank_result {
    status = failed;
    change_set_id = rec.id;
    reason =
        codes "change set already finished with status "
        ++ status_text s
        ++ codes "; use a new change_set_id";
    replayed = true;
  }),
)

unfoldable pub claim_found : Option ChangeSet → Text → Engine → Engine × Claim
unfolding claim_by
claim_found none id st = (st, fresh)
claim_found (some rec) id st = claim_by rec.status rec id st

unfoldable pub claim : Bool → Text → Engine → Engine × Claim
unfolding claim_found
claim get_fails id st =
    let claimed = record st { inflight = id ∷ st.inflight } in
    if any (λ i. i == id) st.inflight
    then (st, not_claimed already_executing)
    else if get_fails
    then (release id claimed, not_claimed store_failed)
    else claim_found (lookup id st.change_sets) id claimed

abbrev pub put : ChangeSet → Engine → Engine
put rec st = record st { change_sets = insert rec.id rec st.change_sets }

-- finish: nothing more is written where the update fails.
unfoldable pub finish : Bool → ChangeSet → ChangeSetStatus → Text → Engine → Engine
finish fails rec status reason st =
    let t = put (record rec { status = status }) st in
    if fails
    then st
    else record t { audit = (rec.id, codes "change_set_" ++ status_text status, reason) ∷ t.audit }

unfoldable pub audit_ops : ChangeSet → List PlannedOp → Engine → Engine
audit_ops rec [] st = record st {
  audit = (rec.id, codes "change_set_applied", codes "ok") ∷ st.audit;
}
audit_ops rec (p ∷ ps) st =
    audit_ops rec ps (record st { audit = (rec.id, type_text p.op.op_type, codes "ok") ∷ st.audit })

abbrev pub op_result : PlannedOp → OpResult
op_result p = record { path = result_path p; status = p.status; sha256 = p.after_sha }

abbrev pub bool_beq : Bool → Bool → Bool
bool_beq true b = b
bool_beq false b = not b

-- The comparison of the two encodings.
abbrev pub same_operation : Operation → Operation → Bool
same_operation a b =
    (type_text a.op_type == type_text b.op_type)
    && (a.path == b.path)
    && (a.from == b.from)
    && (a.to == b.to)
    && (a.content == b.content)
    && (a.expected_sha256 == b.expected_sha256)
    && bool_beq a.recursive b.recursive

unfoldable pub same_operations : List Operation → List Operation → Bool
same_operations [] [] = true
same_operations (a ∷ xs) (b ∷ ys) = let rest = same_operations xs ys in same_operation a b && rest
same_operations _ _ = false
