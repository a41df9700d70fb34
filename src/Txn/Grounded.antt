-- ===== src/Txn/Grounded.antt =====
-- What a plan that is ready records of its operations.
use fylane.Common.{
  ◌≡◌, refl, sym, subst, inl, inr, Bool, true, false, ◌&&◌, not, List, [], ◌∷◌, Option, none, some,
  All, Bool-cases, ltb, length, any,
}
use fylane.Common.Text.{Text, text_eq}
use fylane.Common.Dict.{lookup}
use fylane.Txn.{OpType, create, update, move, delete, other}
use fylane.Txn.Disk.{Node, file, dir, link, special, Nodes, is_under}
use fylane.Txn.Ops.{
  Operation, op_delete, Workspace, PlannedOp, ready, resolved, planned_at, max_op_content_bytes,
}
use fylane.Txn.Plan.{
  load_base, deleted, deleted_dir, deleted_node, plan_delete, plan_op, plan_one, claim_paths,
  plan_ops,
}
use fylane.Txn.Landed.{Recorded}
use fylane.Txn.Loaded.{
  ready_same, and_then_ready, resolved_ready, Located, Grounded, loaded, load_base_ready,
  create-Grounded, update-Grounded, move-Grounded,
}

module _ (hash : Text → Text) (diff_text : Text → Text → Text → Text) (ws : Workspace)
    (n : Nodes) where
  gone : Text → Bool → PlannedOp → PlannedOp
  gone diff recursive p = deleted hash diff_text ws n diff recursive p

  deleted_dir_ready :
      (p q : PlannedOp)
      → deleted_dir hash diff_text ws n p ≡ ready q
      → (recursive : Bool) × (gone [] recursive (record p { is_dir = true }) ≡ q)
  unfolding deleted_dir gone
  deleted_dir_ready p q e =
      let has_entries = any (λ (x : Text × Node). is_under p.abs x.0) n in
      elim (Bool-cases (has_entries && not p.op.recursive)) [
        | inl h ↦ absurd (let f = rw h at e in cc)
        | inr h ↦
            let f : ready (gone [] has_entries (record p { is_dir = true })) ≡ ready q =
              rw h at e in
            (has_entries, ready_same f)
      ]

  delete-Grounded_node :
      (op : Operation) (at : Text × Text) (p : PlannedOp) (o : Option Node)
      → op.op_type ≡ delete
      → Located ws at.0 at.1
      → deleted_node hash diff_text ws n (planned_at op at) o ≡ ready p
      → Grounded hash ws p
  unfolding deleted_node gone
  delete-Grounded_node op at p none t l e = cc
  delete-Grounded_node op at p (some (link k)) t l e = cc
  delete-Grounded_node op at p (some special) t l e = cc
  delete-Grounded_node op at p (some dir) t l e =
      let (recursive, same) = deleted_dir_ready (planned_at op at) p e in
      let start : PlannedOp = record (planned_at op at) { is_dir = true } in
      subst (Grounded hash ws) same (record {
        recorded = subst (λ s. Recorded hash s (gone [] recursive start)) (sym t) (λ d. absurd cc);
        based = λ c d. absurd cc;
        at = l;
        to_at = λ m. absurd cc;
      })
  delete-Grounded_node op at p (some (file b m)) t l e =
      let (q, loads, k) = and_then_ready (load_base hash n (planned_at op at)) _ p e in
      let (b, m, same) = load_base_ready hash n (planned_at op at) q loads in
      let diff : PlannedOp → Text = λ x. diff_text x.canonical x.old_data [] in
      subst (Grounded hash ws) (ready_same k) (
        subst (λ x. Grounded hash ws (gone (diff x) false x)) same
          (record {
            recorded =
                subst
                  (λ s. Recorded hash s (
                    gone (diff (loaded hash (planned_at op at) b m)) false
                      (loaded hash (planned_at op at) b m)))
                  (sym t) (λ d. refl);
            based = λ c d. refl;
            at = l;
            to_at = λ m. absurd cc;
          }))

  plan_op-Grounded :
      (t : OpType) (op : Operation) (p : PlannedOp)
      → op.op_type ≡ t
      → plan_op hash diff_text ws n t op ≡ ready p
      → Grounded hash ws p
  unfolding plan_op plan_delete
  plan_op-Grounded create op p t e = create-Grounded hash diff_text ws n op p t e
  plan_op-Grounded update op p t e = update-Grounded hash diff_text ws n op p t e
  plan_op-Grounded move op p t e = move-Grounded hash diff_text ws n op p t e
  plan_op-Grounded delete op p t e =
      let (at, r, f) = and_then_ready (resolved (ws.resolve op.path op_delete)) _ p e in
      delete-Grounded_node op at p (lookup at.0 n) t
        (op.path, op_delete, resolved_ready (ws.resolve op.path op_delete) at r) f
  plan_op-Grounded (other x) op p t e = cc

  pub plan_one-Grounded :
      (op : Operation) (p : PlannedOp)
      → plan_one hash diff_text ws n op ≡ ready p
      → Grounded hash ws p
  unfolding plan_one
  plan_one-Grounded op p e = elim (Bool-cases (ltb max_op_content_bytes (length op.content))) [
    | inl h ↦ absurd (let f = rw h at e in cc)
    | inr h ↦ plan_op-Grounded op.op_type op p refl (rw h at e)
  ]

  pub plan_ops-Grounded :
      (seen : List Text) (ops : List Operation) (ps : List PlannedOp)
      → plan_ops hash diff_text ws n seen ops ≡ ready ps
      → All (Grounded hash ws) ps
  unfolding plan_ops
  plan_ops-Grounded seen [] ps e = subst (All (Grounded hash ws)) (ready_same e) tt
  plan_ops-Grounded seen (op ∷ ops) ps e =
      let (p, one, f) = and_then_ready (plan_one hash diff_text ws n op) _ ps e in
      let (seen', claims, g) = and_then_ready (claim_paths p seen) _ ps f in
      let (qs, rest, k) = and_then_ready (plan_ops hash diff_text ws n seen' ops) _ ps g in
      subst (All (Grounded hash ws)) (ready_same k)
        (plan_one-Grounded op p one, plan_ops-Grounded seen' ops qs rest)
