-- ===== src/Txn/Plan.antt =====
-- companion/internal/txn/engine.go: plan, which validates each operation of a change
-- set against the disk and writes nothing.
use fylane.Common.{
  ℕ, Bool, true, false, ◌||◌, ◌&&◌, not, List, [], ◌∷◌, Option, none, some, if◌then◌else◌, ltb,
  ◌==◌, any, length,
}
use fylane.Common.Text.{Text, codes, text_eq, equal_fold}
use fylane.Common.Dict.{lookup}
use fylane.Txn.{OpType, create, update, move, delete, other}
use fylane.Txn.Disk.{Node, file, dir, Nodes, is_under, exists, bytes_of}
use fylane.Txn.Ops.{
  Operation, Planned, PlannedOp, Workspace, and_then, conflict_at, content_too_large, dir_not_empty,
  file_too_large, invalid, max_op_content_bytes, no_preview, not_regular, op_delete, op_write,
  path_twice, planned_at, ready, resolved, unknown_type,
}

module _ (hash : Text → Text) where
  unfoldable pub load_file : PlannedOp → Text → ℕ → Planned PlannedOp
  unfolding equal_fold
  load_file p bytes mode =
      if ltb max_op_content_bytes (length bytes)
      then invalid file_too_large
      else if p.op.expected_sha256 == []
      then conflict_at p.canonical (codes "expected_sha256_missing") (hash bytes)
      else if not (equal_fold p.op.expected_sha256 (hash bytes))
      then conflict_at p.canonical (codes "base_hash_mismatch") (hash bytes)
      else ready (record p { old_data = bytes; old_mode = mode; before_sha = hash bytes })

  unfoldable pub load_found : PlannedOp → Option Node → Planned PlannedOp
  unfolding load_file
  load_found p none = conflict_at p.canonical (codes "target_missing") []
  load_found p (some (file bytes mode)) = load_file p bytes mode
  load_found p (some _) = invalid not_regular

  -- loadBase: the file as it stands, checked against the hash that the caller read.
  unfoldable pub load_base : Nodes → PlannedOp → Planned PlannedOp
  unfolding load_found
  load_base n p = load_found p (lookup p.abs n)

  abbrev pub hash_of : Option Text → Text
  hash_of (some bytes) = hash bytes
  hash_of none = []

  -- hashFile: empty for what cannot be read as a file.
  unfoldable pub hash_file : Nodes → Text → Text
  hash_file n path = hash_of (bytes_of (lookup path n))

  module _ (diff_text : Text → Text → Text → Text) (ws : Workspace) (n : Nodes) where
    unfoldable pub created : PlannedOp → Planned PlannedOp
    unfolding hash_file
    created p =
        if exists p.abs n
        then conflict_at p.canonical (codes "already_exists") (hash_file n p.abs)
        else ready (record p {
          after_sha = hash p.op.content;
          status = codes "created";
          preview = record no_preview {
            path = p.canonical;
            diff = diff_text p.canonical [] p.op.content;
            sensitive = ws.sensitive p.canonical;
          };
        })

    unfoldable pub plan_create : Operation → Planned PlannedOp
    unfolding created
    plan_create op =
        and_then (resolved (ws.resolve op.path op_write)) (λ at. created (planned_at op at))

    abbrev pub updated : PlannedOp → PlannedOp
    updated p = record p {
      after_sha = hash p.op.content;
      status = codes "updated";
      preview = record no_preview {
        op_type = update;
        path = p.canonical;
        diff = diff_text p.canonical p.old_data p.op.content;
        sensitive = ws.sensitive p.canonical;
      };
    }

    unfoldable pub plan_update : Operation → Planned PlannedOp
    unfolding load_base
    plan_update op =
        and_then (resolved (ws.resolve op.path op_write))
          (λ at. and_then (load_base n (planned_at op at)) (λ p. ready (updated p)))

    -- A target that exists is a conflict, unless it is the source itself.
    unfoldable pub moved : PlannedOp → Planned PlannedOp
    moved p =
        if exists p.to_abs n && not (p.to_abs == p.abs)
        then conflict_at p.to_canonical (codes "target_exists") []
        else ready (record p {
          after_sha = p.before_sha;
          status = codes "moved";
          preview = record no_preview {
            op_type = move;
            path = p.canonical;
            to = p.to_canonical;
            sensitive = ws.sensitive p.canonical || ws.sensitive p.to_canonical;
          };
        })

    abbrev pub with_target : PlannedOp → Text × Text → PlannedOp
    with_target p (to_abs, to_canonical) = record p { to_abs = to_abs; to_canonical = to_canonical }

    unfoldable pub plan_move : Operation → Planned PlannedOp
    unfolding load_base moved
    plan_move op = and_then (resolved (ws.resolve op.from op_delete)) (λ at.
        and_then (resolved (ws.resolve op.to op_write))
          (λ to. and_then (load_base n (with_target (planned_at op at) to)) (λ p. moved p)))

    abbrev pub deleted : Text → Bool → PlannedOp → PlannedOp
    deleted diff recursive p = record p {
      status = codes "deleted";
      preview = record no_preview {
        op_type = delete;
        path = p.canonical;
        diff = diff;
        sensitive = ws.sensitive p.canonical;
        recursive_delete = recursive;
      };
    }

    unfoldable pub deleted_dir : PlannedOp → Planned PlannedOp
    deleted_dir p =
        let has_entries = any (λ (e : Text × Node). is_under p.abs e.0) n in
        if has_entries && not p.op.recursive
        then invalid dir_not_empty
        else ready (deleted [] has_entries (record p { is_dir = true }))

    unfoldable pub deleted_node : PlannedOp → Option Node → Planned PlannedOp
    unfolding load_base deleted_dir
    deleted_node p none = conflict_at p.canonical (codes "target_missing") []
    deleted_node p (some dir) = deleted_dir p
    deleted_node p (some (file bytes mode)) =
        and_then (load_base n p)
          (λ q. ready (deleted (diff_text q.canonical q.old_data []) false q))
    deleted_node p (some _) = invalid not_regular

    unfoldable pub plan_delete : Operation → Planned PlannedOp
    unfolding deleted_node
    plan_delete op =
        and_then (resolved (ws.resolve op.path op_delete))
          (λ at. let p = planned_at op at in deleted_node p (lookup p.abs n))

    unfoldable pub plan_op : OpType → Operation → Planned PlannedOp
    unfolding plan_create plan_update plan_move plan_delete
    plan_op create op = plan_create op
    plan_op update op = plan_update op
    plan_op move op = plan_move op
    plan_op delete op = plan_delete op
    plan_op (other t) op = invalid (unknown_type t)

-- The paths that are already claimed, with one more.
unfoldable pub claim_path : Text → List Text → Planned (List Text)
claim_path canonical seen =
    if any (λ s. s == canonical) seen
    then invalid (path_twice canonical)
    else ready (canonical ∷ seen)

unfoldable pub claim_target : Text → List Text → Planned (List Text)
unfolding claim_path
claim_target to_canonical seen =
    if to_canonical == [] then ready seen else claim_path to_canonical seen

unfoldable pub claim_paths : PlannedOp → List Text → Planned (List Text)
unfolding claim_target
claim_paths p seen = and_then (claim_path p.canonical seen) (claim_target p.to_canonical)

-- One round of the loop of plan.
unfoldable pub plan_one :
    (Text → Text) → (Text → Text → Text → Text) → Workspace → Nodes → Operation → Planned PlannedOp
unfolding plan_op
plan_one hash diff_text ws n op =
    if ltb max_op_content_bytes (length op.content)
    then invalid content_too_large
    else plan_op hash diff_text ws n op.op_type op

module _ (hash : Text → Text) (diff_text : Text → Text → Text → Text) (ws : Workspace)
    (n : Nodes) where
  unfoldable pub plan_ops : List Text → List Operation → Planned (List PlannedOp)
  unfolding plan_one claim_paths
  plan_ops seen [] = ready []
  plan_ops seen (op ∷ ops) = and_then (plan_one hash diff_text ws n op) (λ p.
      and_then (claim_paths p seen) (λ seen'. and_then (plan_ops seen' ops) (λ ps. ready (p ∷ ps))))

  unfoldable pub plan : List Operation → Planned (List PlannedOp)
  unfolding plan_ops
  plan ops = plan_ops [] ops
