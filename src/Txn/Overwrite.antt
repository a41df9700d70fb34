-- ===== src/Txn/Overwrite.antt =====
-- A move whose target appeared while the approval was awaited.
use fylane.Common.{ℕ, ◌≡◌, refl, ◌∙◌, ap, inl, Bool, true, false, [], ◌∷◌, none, some, ==-refl}
use fylane.Common.Text.{Text, text_eq, equal_fold}
use fylane.Common.Dict.{lookup}
use fylane.Txn.{move}
use fylane.Txn.Disk.{file, Nodes, Disk, content, rename, rename_node, all_dirs, ancestors, bytes_of}
use fylane.Txn.Contents.{content-rename}
use fylane.Txn.Ops.{PlannedOp}
use fylane.Txn.Plan.{hash_file}
use fylane.Txn.Apply.{
  apply, apply_from, apply_op, apply_move, finish_apply, verify, verified, still_at_base, settled,
  applied, settle, Undo, move_back, move_failed, ApplyError,
}

rename_over :
    (p q b c : Text) (m k : ℕ) (d : Disk)
    → d.faults ≡ []
    → all_dirs d.nodes (ancestors q) ≡ true
    → lookup p d.nodes ≡ some (file b m)
    → lookup q d.nodes ≡ some (file c k)
    → (rename p q d).1 ≡ true
unfolding rename rename_node
rename_over p q b c m k d f dirs src dst = rw (f, dirs, src, dst) refl

settle_done :
    (r : Disk × Bool) (u : Undo) (e : ApplyError) → r.1 ≡ true → settle r u e ≡ (r.0, inl (u ∷ []))
settle_done (d, true) u e h = refl
settle_done (d, false) u e h = cc

still_there :
    (hash : Text → Text) (p : PlannedOp) (n : Nodes) (m : ℕ)
    → p.before_sha ≡ hash p.old_data
    → equal_fold (hash p.old_data) (hash p.old_data) ≡ true
    → lookup p.abs n ≡ some (file p.old_data m)
    → still_at_base hash p n ≡ true
unfolding still_at_base hash_file
still_there hash p n m before same src = rw (src, before) same

moved_verified :
    (hash : Text → Text) (p : PlannedOp) (n : Nodes)
    → p.after_sha ≡ hash p.old_data
    → content n p.to_abs ≡ some p.old_data
    → verified hash move p n ≡ true
unfolding verified hash_file content
moved_verified hash p n after c = rw (c, after) (==-refl (hash p.old_data))

source_bytes :
    (p : PlannedOp) (n : Nodes) (m : ℕ)
    → lookup p.abs n ≡ some (file p.old_data m)
    → content n p.abs ≡ some p.old_data
unfolding content
source_bytes p n m src = ap bytes_of src

arrival :
    (p : PlannedOp) (d : Disk) (m : ℕ)
    → lookup p.abs d.nodes ≡ some (file p.old_data m)
    → (rename p.abs p.to_abs d).1 ≡ true
    → content (rename p.abs p.to_abs d).0.nodes p.to_abs ≡ some p.old_data
arrival p d m src works =
    let c : content d.nodes p.abs ≡ some p.old_data = source_bytes p d.nodes m src in
    content-rename p.abs p.to_abs d p.to_abs ∙ rw (works, ==-refl p.to_abs) c

move_step :
    (hash : Text → Text) (p : PlannedOp) (d : Disk)
    → p.op.op_type ≡ move
    → still_at_base hash p d.nodes ≡ true
    → (rename p.abs p.to_abs d).1 ≡ true
    → apply_op hash p.op.op_type p d
      ≡ ((rename p.abs p.to_abs d).0, inl (move_back p.to_abs p.abs ∷ []))
unfolding apply_op apply_move
move_step hash p d t at_base works =
    ap (λ s. apply_op hash s p d) t
    ∙ rw at_base (
        settle_done (rename p.abs p.to_abs d) (move_back p.to_abs p.abs) (move_failed p.canonical)
          works)

one_verified :
    (hash : Text → Text) (p : PlannedOp) (n : Nodes)
    → p.op.op_type ≡ move
    → verified hash move p n ≡ true
    → verify hash (p ∷ []) n ≡ none
unfolding verify
one_verified hash p n t v =
    let e : verified hash p.op.op_type p n ≡ true = ap (λ s. verified hash s p n) t ∙ v in rw e

-- A move does not look at its target again when it is applied: if the source still has its bytes,
-- every call works, and a file has appeared at the target since the plan was made, then the move
-- reports success and the target holds the source's bytes; what the new file held is gone.
pub apply-overwrites :
    (hash : Text → Text) (saved : Nodes) (p : PlannedOp) (d : Disk) (appeared_bytes : Text)
    (m k : ℕ)
    → p.op.op_type ≡ move
    → p.before_sha ≡ hash p.old_data
    → p.after_sha ≡ hash p.old_data
    → equal_fold (hash p.old_data) (hash p.old_data) ≡ true
    → d.faults ≡ []
    → all_dirs d.nodes (ancestors p.to_abs) ≡ true
    → lookup p.abs d.nodes ≡ some (file p.old_data m)
    → lookup p.to_abs d.nodes ≡ some (file appeared_bytes k)
    → ((apply hash saved (p ∷ []) d).1 ≡ applied)
      × (content (apply hash saved (p ∷ []) d).0.nodes p.to_abs ≡ some p.old_data)
unfolding apply apply_from finish_apply
apply-overwrites hash saved p d b m k t before after same f dirs src dst =
    let r = rename p.abs p.to_abs d in
    let works : r.1 ≡ true = rename_over p.abs p.to_abs p.old_data b m k d f dirs src dst in
    let arrives = arrival p d m src works in
    let checks = one_verified hash p r.0.nodes t (moved_verified hash p r.0.nodes after arrives) in
    let here = still_there hash p d.nodes m before same src in
    let undo = move_back p.to_abs p.abs ∷ [] in
    let result : (apply hash saved (p ∷ []) d ≡ (r.0, applied)) =
      ap (λ s. finish_apply hash saved (p ∷ []) (apply_from hash s [] []))
        (move_step hash p d t here works)
      ∙ ap (settled saved r.0 undo) checks in
    rw result (refl, arrives)
