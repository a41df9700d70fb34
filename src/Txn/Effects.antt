-- ===== src/Txn/Effects.antt =====
-- The effects that a failed change set reports, against the disk.
use fylane.Common.{
  Bool, not, if◌then◌else◌, ◌≡◌, ◌↔◌, inl, inr, true, false, [], some, arith, Option-cases,
}
use fylane.Common.Text.{Text, text_eq, text_beq_iff, equal_fold}
use fylane.Common.Dict.{lookup}
use fylane.Txn.{OpType, create, update, move, delete, other}
use fylane.Txn.Disk.{
  file, dir, link, dangling, unread, reads, special, Nodes, content, exists, is_missing,
}
use fylane.Txn.Ops.{PlannedOp}
use fylane.Txn.Effect.{
  not_started, state_changed, effect_of, effect_of_type, hash_now, create_effect, update_effect,
  move_effect, delete_effect, PathState, is_readable_at, is_absent,
}
use fylane.Txn.Landed.{Stands, Untouched, Recorded, hash_unlike}

module _ (hash : Text → Text) (unlike : (a b : Text) → equal_fold (hash a) (hash b) ≡ true → a ≡ b)
    (some_hash : (a : Text) → equal_fold [] (hash a) ≡ false) where
  -- The states of a path.
  readable-content :
      (n : Nodes) (path sum b : Text)
      → sum ≡ hash b
      → (is_readable_at sum (hash_now hash n path) ≡ true) ↔ (content n path ≡ some b)
  unfolding hash_now content
  readable-content n path sum b e = elim (Option-cases (lookup path n)) [
    | inl o ↦ rw o (ground arith)
    | inr (file a m, o) ↦
        rw (o, e)
          (ground (arith, text_beq_iff (hash a) (hash b), hash_unlike hash unlike some_hash a b))
    | inr (dir, o) ↦ rw o (ground arith)
    | inr (link dangling, o) ↦ rw o (ground arith)
    | inr (link unread, o) ↦ rw o (ground arith)
    | inr (link (reads a), o) ↦
        rw (o, e)
          (ground (arith, text_beq_iff (hash a) (hash b), hash_unlike hash unlike some_hash a b))
    | inr (special, o) ↦ rw o (ground arith)
  ]

  absent-is_missing :
      (n : Nodes) (path : Text)
      → (is_absent (hash_now hash n path) ≡ true) ↔ (is_missing (lookup path n) ≡ true)
  unfolding hash_now
  absent-is_missing n path = elim (Option-cases (lookup path n)) [
    | inl o ↦ rw o (ground arith)
    | inr (file a m, o) ↦ rw o (ground arith)
    | inr (dir, o) ↦ rw o (ground arith)
    | inr (link dangling, o) ↦ rw o (ground arith)
    | inr (link unread, o) ↦ rw o (ground arith)
    | inr (link (reads a), o) ↦ rw o (ground arith)
    | inr (special, o) ↦ rw o (ground arith)
  ]

  create_not_started :
      (p : PlannedOp) (s : PathState) → (create_effect p s ≡ not_started) ↔ (is_absent s ≡ true)
  unfolding create_effect
  create_not_started p s = ground arith

  update_not_started :
      (p : PlannedOp) (s : PathState)
      → (update_effect p s ≡ not_started) ↔ (is_readable_at p.before_sha s ≡ true)
  unfolding update_effect
  update_not_started p s = ground arith

  move_not_started :
      (p : PlannedOp) (s t : PathState)
      → (move_effect p s t ≡ not_started)
        ↔ ((is_readable_at p.before_sha s ≡ true) × (is_absent t ≡ true))
  unfolding move_effect
  move_not_started p s t = ground arith

  delete_not_started :
      (p : PlannedOp) (there : Bool) (s : PathState)
      → (delete_effect p there s ≡ not_started)
        ↔ ((p.is_dir ≡ false) × (is_readable_at p.before_sha s ≡ true))
  unfolding delete_effect
  delete_not_started p there s = ground arith

  iff_trans {ℓ κ μ} : {A : Type ℓ} {B : Type κ} {C : Type μ} → A ↔ B → B ↔ C → A ↔ C
  iff_trans (f, g) (h, k) = (λ a. h (f a), λ c. g (k c))

  both {ℓ κ μ ν} :
      {A : Type ℓ} {B : Type κ} {C : Type μ} {D : Type ν} → A ↔ B → C ↔ D → (A × C) ↔ (B × D)
  both (f, g) (h, k) = (λ (a, c). (f a, h c), λ (b, d). (g b, k d))

  not_started_iff :
      (t : OpType) (p : PlannedOp) (n : Nodes)
      → Recorded hash t p
      → (effect_of_type hash n t p ≡ not_started) ↔ Untouched t p n
  unfolding effect_of_type
  not_started_iff create p n r =
      iff_trans (create_not_started p (hash_now hash n p.abs)) (absent-is_missing n p.abs)
  not_started_iff update p n (r, _) =
      iff_trans (update_not_started p (hash_now hash n p.abs))
        (readable-content n p.abs p.before_sha p.old_data r)
  not_started_iff move p n (r, _) =
      iff_trans (move_not_started p (hash_now hash n p.abs) (hash_now hash n p.to_abs))
        (both (readable-content n p.abs p.before_sha p.old_data r) (absent-is_missing n p.to_abs))
  not_started_iff delete p n r =
      iff_trans (delete_not_started p (exists p.abs n) (hash_now hash n p.abs)) (
        λ (f, h). (f, (readable-content n p.abs p.before_sha p.old_data (r f)).0 h),
        λ (f, h). (f, (readable-content n p.abs p.before_sha p.old_data (r f)).1 h),
      )
  not_started_iff (other t) p n r = (λ e. cc, λ e. cc)

  iff_not {ℓ κ} : {A : Type ℓ} {B : Type κ} → A ↔ B → (¬ A) ↔ (¬ B)
  iff_not (f, g) = (λ h b. h (g b), λ h a. h (f a))

  create_changed :
      (p : PlannedOp) (s : PathState)
      → (create_effect p s ≡ state_changed)
        ↔ ((is_readable_at p.after_sha s ≡ true) × (¬ (create_effect p s ≡ not_started)))
  unfolding create_effect
  create_changed p s = ground arith

  update_changed :
      (p : PlannedOp) (s : PathState)
      → (update_effect p s ≡ state_changed)
        ↔ ((is_readable_at p.after_sha s ≡ true) × (¬ (update_effect p s ≡ not_started)))
  unfolding update_effect
  update_changed p s = ground arith

  move_changed :
      (p : PlannedOp) (s t : PathState)
      → (move_effect p s t ≡ state_changed) ↔ (
          ((is_absent s ≡ true) × (is_readable_at p.after_sha t ≡ true))
          × (¬ (move_effect p s t ≡ not_started)))
  unfolding move_effect
  move_changed p s t = ground arith

  delete_changed :
      (p : PlannedOp) (there : Bool) (s : PathState)
      → (delete_effect p there s ≡ state_changed) ↔ (
          ((if p.is_dir then not there else is_absent s) ≡ true)
          × (¬ (delete_effect p there s ≡ not_started)))
  unfolding delete_effect
  delete_changed p there s = ground arith

  delete-Stands :
      (p : PlannedOp) (n : Nodes)
      → ((if p.is_dir then not (exists p.abs n) else is_absent (hash_now hash n p.abs)) ≡ true)
        ↔ Stands delete p n
  delete-Stands p n =
      let m = (absent-is_missing n p.abs).0 in let k = (absent-is_missing n p.abs).1 in ground arith

  state_changed_iff :
      (t : OpType) (p : PlannedOp) (n : Nodes)
      → Recorded hash t p
      → (effect_of_type hash n t p ≡ state_changed) ↔ (Stands t p n × (¬ Untouched t p n))
  unfolding effect_of_type
  state_changed_iff create p n r = iff_trans (create_changed p (hash_now hash n p.abs)) (
      both (readable-content n p.abs p.after_sha p.op.content r)
        (iff_not (not_started_iff create p n r)))
  state_changed_iff update p n (b, r) = iff_trans (update_changed p (hash_now hash n p.abs)) (
      both (readable-content n p.abs p.after_sha p.op.content r)
        (iff_not (not_started_iff update p n (b, r))))
  state_changed_iff move p n (b, r) =
      iff_trans (move_changed p (hash_now hash n p.abs) (hash_now hash n p.to_abs)) (
        both
          (both (absent-is_missing n p.abs) (readable-content n p.to_abs p.after_sha p.old_data r))
          (iff_not (not_started_iff move p n (b, r))))
  state_changed_iff delete p n r =
      iff_trans (delete_changed p (exists p.abs n) (hash_now hash n p.abs))
        (both (delete-Stands p n) (iff_not (not_started_iff delete p n r)))
  state_changed_iff (other t) p n r = (λ e. cc, λ (e, _). cc)

  -- The effect reported for a path is true of what reading the path gives, symbolic links followed:
  -- not_started is said exactly where it gives what the operation found (never of a directory that
  -- was to be deleted), and state_changed exactly where it gives what the operation makes and not
  -- what it found. A link that leads nowhere reads as a missing file; a directory that was to be
  -- deleted is gone where nothing stands at its path, not even a link.
  pub effect_of_lem :
      (p : PlannedOp) (n : Nodes)
      → Recorded hash p.op.op_type p
      → ((effect_of hash n p ≡ not_started) ↔ Untouched p.op.op_type p n)
        × ((effect_of hash n p ≡ state_changed)
            ↔ (Stands p.op.op_type p n × (¬ Untouched p.op.op_type p n)))
  unfolding effect_of
  effect_of_lem p n r = (not_started_iff p.op.op_type p n r, state_changed_iff p.op.op_type p n r)
