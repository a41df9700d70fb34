-- ===== src/Txn/Apply.antt =====
-- companion/internal/txn/engine.go: backup and apply. The closures of the undo list are data, and
-- the deferred function that runs them is `restore`.
use fylane.Common.{
  ◌⊎◌, inl, inr, ℕ, Bool, true, false, ◌&&◌, not, List, [], ◌∷◌, ◌++◌, Option, none, some,
  if◌then◌else◌, ◌==◌,
}
use fylane.Common.Text.{Text, text_eq, equal_fold}
use fylane.Txn.{OpType, create, update, move, delete, other}
use fylane.Txn.Disk.{
  Nodes, Disk, call, atomic_write, remove, remove_all, rename, copy_file, copy_tree, exists,
}
use fylane.Txn.Ops.{PlannedOp}
use fylane.Txn.Plan.{hash_file}

pub data Undo : Type 0 where
  remove_created : Text → Undo
  rewrite : Text → Text → ℕ → Undo
  move_back : Text → Text → Undo
  copy_back : Text → Text → Undo

-- The reason of a failed apply, without its wording.
pub data ApplyError : Type 0 where
  appeared changed write_failed move_failed delete_failed verification_failed : Text → ApplyError

-- The first error, and whether a restore failed too.
pub data Outcome : Type 0 where
  applied : Outcome
  failed : ApplyError → Bool → Outcome

-- The backup of one operation, under its canonical path.
unfoldable pub backup_op : PlannedOp → Disk → Nodes → Nodes × Bool
unfolding copy_tree copy_file
backup_op p d saved =
    if p.is_dir
    then copy_tree p.abs p.canonical d.nodes saved
    else copy_file p.abs p.canonical d.nodes saved

-- A create has nothing to save. A fault in the schedule is a copy that fails.
unfoldable pub backup_one : OpType → PlannedOp → Disk → Nodes → Disk × Nodes × Bool
unfolding backup_op
backup_one create p d saved = (d, saved, true)
backup_one _ p d saved =
    let (saved', copied) = backup_op p d saved in
    let (d', reached) = call d (d.nodes, true) (λ _. d.nodes) in (d', saved', copied && reached)

unfoldable pub backup : List PlannedOp → Disk → Nodes → Disk × Nodes × Bool
unfolding backup_one
backup [] d saved = (d, saved, true)
backup (p ∷ ps) d saved =
    let (d', saved', done) = backup_one p.op.op_type p d saved in
    let rest = backup ps d' saved' in if done then rest else (d', saved', false)

-- What one operation did: the disk, and the undo that it recorded, if any, or the error.
abbrev pub Step : Type 0
Step = Disk × (List Undo ⊎ ApplyError)

abbrev pub settle : Disk × Bool → Undo → ApplyError → Step
settle (d, true) u e = (d, inl (u ∷ []))
settle (d, false) u e = (d, inr e)

module _ (hash : Text → Text) where
  unfoldable pub still_at_base : PlannedOp → Nodes → Bool
  unfolding hash_file equal_fold
  still_at_base p n = equal_fold (hash_file hash n p.abs) p.before_sha

  unfoldable pub apply_create : PlannedOp → Disk → Step
  unfolding atomic_write
  apply_create p d =
      if exists p.abs d.nodes
      then (d, inr (appeared p.canonical))
      else settle (atomic_write p.abs p.op.content 420 d) (remove_created p.abs)
          (write_failed p.canonical)

  unfoldable pub apply_update : PlannedOp → Disk → Step
  unfolding atomic_write still_at_base
  apply_update p d =
      if still_at_base p d.nodes
      then settle (atomic_write p.abs p.op.content p.old_mode d)
          (rewrite p.abs p.old_data p.old_mode) (write_failed p.canonical)
      else (d, inr (changed p.canonical))

  unfoldable pub apply_move : PlannedOp → Disk → Step
  unfolding rename still_at_base
  apply_move p d =
      if still_at_base p d.nodes
      then settle (rename p.abs p.to_abs d) (move_back p.to_abs p.abs) (move_failed p.canonical)
      else (d, inr (changed p.canonical))

  unfoldable pub apply_delete_file : PlannedOp → Disk → Step
  unfolding remove still_at_base
  apply_delete_file p d =
      if still_at_base p d.nodes
      then settle (remove p.abs d) (rewrite p.abs p.old_data p.old_mode) (delete_failed p.canonical)
      else (d, inr (changed p.canonical))

  unfoldable pub apply_delete_dir : PlannedOp → Disk → Step
  unfolding remove_all
  apply_delete_dir p d =
      settle (remove_all p.abs d) (copy_back p.canonical p.abs) (delete_failed p.canonical)

  unfoldable pub apply_delete : PlannedOp → Disk → Step
  unfolding apply_delete_dir apply_delete_file
  apply_delete p d = if p.is_dir then apply_delete_dir p d else apply_delete_file p d

  -- The switch has no default: an operation of another type does nothing.
  unfoldable pub apply_op : OpType → PlannedOp → Disk → Step
  unfolding apply_create apply_update apply_move apply_delete
  apply_op create p d = apply_create p d
  apply_op update p d = apply_update p d
  apply_op move p d = apply_move p d
  apply_op delete p d = apply_delete p d
  apply_op (other t) p d = (d, inl [])

  -- The loop, after the step that is given: it stops at an error.
  unfoldable pub apply_from :
      Step → List Undo → List PlannedOp → Disk × List Undo × Option ApplyError
  unfolding apply_op
  apply_from (d, inr e) us ps = (d, us, some e)
  apply_from (d, inl u) us [] = (d, u ++ us, none)
  apply_from (d, inl u) us (p ∷ ps) = apply_from (apply_op p.op.op_type p d) (u ++ us) ps

  -- Step 12, for one operation.
  unfoldable pub verified : OpType → PlannedOp → Nodes → Bool
  unfolding hash_file
  verified create p n = hash_file hash n p.abs == p.after_sha
  verified update p n = hash_file hash n p.abs == p.after_sha
  verified move p n = hash_file hash n p.to_abs == p.after_sha
  verified delete p n = not (exists p.abs n)
  verified (other t) p n = true

  unfoldable pub verify : List PlannedOp → Nodes → Option ApplyError
  unfolding verified
  verify [] n = none
  verify (p ∷ ps) n =
      let rest = verify ps n in
      if verified p.op.op_type p n then rest else some (verification_failed (p.canonical))

abbrev pub with_nodes : Disk → Nodes × Bool → Disk × Bool
with_nodes d (n, done) = (record d { nodes = n }, done)

-- One closure of the undo list, with the backup that a directory is copied back from.
unfoldable pub run_undo : Nodes → Undo → Disk → Disk × Bool
unfolding atomic_write remove rename copy_tree
run_undo saved (remove_created p) d = remove p d
run_undo saved (rewrite p bytes mode) d = atomic_write p bytes mode d
run_undo saved (move_back from to) d = rename from to d
run_undo saved (copy_back from to) d = with_nodes d (copy_tree from to saved d.nodes)

-- The deferred function: the whole list runs, newest first; the flag tells whether one failed.
unfoldable pub restore : Nodes → List Undo → Disk → Disk × Bool
unfolding run_undo
restore saved [] d = (d, false)
restore saved (u ∷ us) d =
    let (d', done) = run_undo saved u d in
    let (d'', failed_later) = restore saved us d' in (d'', if done then failed_later else true)

abbrev pub failed_with : ApplyError → Disk × Bool → Disk × Outcome
failed_with e (d, failed_too) = (d, failed e failed_too)

abbrev pub settled : Nodes → Disk → List Undo → Option ApplyError → Disk × Outcome
settled saved d us none = (d, applied)
settled saved d us (some e) = failed_with e (restore saved us d)

-- The verification runs only after every operation did.
unfoldable pub finish_apply :
    (Text → Text) → Nodes → List PlannedOp → Disk × List Undo × Option ApplyError → Disk × Outcome
unfolding restore verify
finish_apply hash saved plan (d, us, some e) = settled saved d us (some e)
finish_apply hash saved plan (d, us, none) = settled saved d us (verify hash plan d.nodes)

unfoldable pub apply : (Text → Text) → Nodes → List PlannedOp → Disk → Disk × Outcome
unfolding apply_from finish_apply
apply hash saved plan d = finish_apply hash saved plan (apply_from hash (d, inl []) [] plan)
