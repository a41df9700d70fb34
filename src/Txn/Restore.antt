-- ===== src/Txn/Restore.antt =====
-- A failed apply puts the contents back.
use fylane.Common.{
  ℕ, ◌≡◌, refl, sym, ◌∙◌, ap, subst, ◌≢◌, inl, inr, Bool, true, false, ◌&&◌, ◌||◌, [], Option, none,
  some, if◌then◌else◌, arith, ◌==◌, All, Bool-cases, Option-cases,
}
use fylane.Common.Text.{Text, text_eq, text_beq_iff, equal_fold}
use fylane.Common.Dict.{lookup}
use fylane.Txn.{OpType, create, update, move, delete}
use fylane.Txn.Disk.{Nodes, Disk, content, bytes_of, exists, atomic_write, remove, rename}
use fylane.Txn.Contents.{content-atomic_write, content-remove, content-rename, renamed}
use fylane.Txn.Ops.{PlannedOp}
use fylane.Txn.Plan.{hash_file}
use fylane.Txn.Apply.{
  Undo, remove_created, rewrite, move_back, Step, settle, still_at_base, apply_create, apply_update,
  apply_move, apply_delete, apply_delete_file, apply_delete_dir, ApplyError, write_failed,
  move_failed, delete_failed,
}
use fylane.Txn.Undo.{Contents, is_file_undo, undo_content, undo_all}

-- The paths that an operation changes.
abbrev pub touches : OpType → PlannedOp → Text → Bool
touches move p q = (p.abs == q) || (p.to_abs == q)
touches _ p q = p.abs == q

-- What a step may leave: with its undo the contents are as before, and elsewhere they are
-- untouched; an error leaves them as they were.
abbrev pub Kept : PlannedOp → Nodes → Step → Type 0
Kept p n (d, inl us) =
    All (λ u. is_file_undo u ≡ true) us
    × ((q : Text) → undo_all us (content d.nodes) q ≡ content n q)
    × ((q : Text) → touches p.op.op_type p q ≡ false → content d.nodes q ≡ content n q)
Kept p n (d, inr e) = (q : Text) → content d.nodes q ≡ content n q

settle-Kept :
    (p : PlannedOp) (n : Nodes) (r : Disk × Bool) (u : Undo) (e : ApplyError)
    → is_file_undo u ≡ true
    → (r.1 ≡ true → (q : Text) → undo_content u (content r.0.nodes) q ≡ content n q)
    → (r.1 ≡ true
        → (q : Text) → touches p.op.op_type p q ≡ false
        → content r.0.nodes q ≡ content n q)
    → (r.1 ≡ false → (q : Text) → content r.0.nodes q ≡ content n q)
    → Kept p n (settle r u e)
settle-Kept p n (d, true) u e f back frame same = ((f, tt), back refl, frame refl)
settle-Kept p n (d, false) u e f back frame same = same refl

-- Putting the old content back over a change at one path.
put_back :
    (p q : Text) (hit : Bool) (c d : Option Text) (new : Option Text) (c' : Contents)
    → hit ≡ true
    → c' q ≡ (if hit && p == q then new else c)
    → (p ≡ q → c ≡ d)
    → (if p == q then d else c' q) ≡ c
put_back p q hit c d new c' h e old = ground (arith, text_beq_iff p q)

outside :
    (p q : Text) (hit : Bool) (c v new : Option Text)
    → v ≡ (if hit && p == q then new else c)
    → (p == q) ≡ false
    → v ≡ c
outside p q hit c v new e h = ground arith

undone :
    (p q : Text) (hit : Bool) (c v new : Option Text)
    → v ≡ (if hit && p == q then new else c)
    → hit ≡ false
    → v ≡ c
undone p q hit c v new e h = ground arith

absent_content : (n : Nodes) (p : Text) → exists p n ≡ false → content n p ≡ none
unfolding content
absent_content n p h = elim (Option-cases (lookup p n)) [
  | inl e ↦ rw e
  | inr (node, e) ↦ let f : true ≡ false = rw e at h in cc
]

module _ (hash : Text → Text) (unlike : (a b : Text) → equal_fold (hash a) (hash b) ≡ true → a ≡ b)
    (some_hash : (a : Text) → equal_fold [] (hash a) ≡ false) where
  -- A file that still has the hash that was recorded still has the bytes that were loaded.
  pub still_at_base-content :
      (p : PlannedOp) (n : Nodes)
      → p.before_sha ≡ hash p.old_data
      → still_at_base hash p n ≡ true
      → content n p.abs ≡ some p.old_data
  unfolding still_at_base hash_file content
  still_at_base-content p n e h = elim (Option-cases (bytes_of (lookup p.abs n))) [
    | inl o ↦
        let f : equal_fold [] (hash p.old_data) ≡ true = rw (o, e) at h in
        let g = some_hash p.old_data in cc
    | inr (b, o) ↦
        let f : equal_fold (hash b) (hash p.old_data) ≡ true = rw (o, e) at h in
        o ∙ ap some (unlike b p.old_data f)
  ]

  pub apply_create-Kept :
      (p : PlannedOp) (d : Disk) → p.op.op_type ≡ create → Kept p d.nodes (apply_create hash p d)
  unfolding apply_create
  apply_create-Kept p d t = elim (Bool-cases (exists p.abs d.nodes)) [
    | inl h ↦ rw h (λ q. refl)
    | inr h ↦
        let r = atomic_write p.abs p.op.content 420 d in
        let changes = content-atomic_write p.abs p.op.content 420 d in
        let gone = absent_content d.nodes p.abs h in
        rw h (
          settle-Kept p d.nodes r (remove_created p.abs) (write_failed p.canonical) refl
            (λ done q.
              put_back p.abs q r.1 (content d.nodes q) none (some p.op.content) (content r.0.nodes)
                done (changes q) (λ e. ap (content d.nodes) (sym e) ∙ gone))
            (λ done q out.
              outside p.abs q r.1 (content d.nodes q) (content r.0.nodes q) (some p.op.content)
                (changes q) (rw t at out))
            (λ not_done q.
              undone p.abs q r.1 (content d.nodes q) (content r.0.nodes q) (some p.op.content)
                (changes q) not_done))
  ]

  -- A call at one path that can be rewritten with the bytes that stood there.
  rewritten-Kept :
      (p : PlannedOp) (n : Nodes) (r : Disk × Bool) (new : Option Text) (mode : ℕ) (e : ApplyError)
      → ((q : Text) → touches p.op.op_type p q ≡ (p.abs == q))
      → content n p.abs ≡ some p.old_data
      → ((q : Text) → content r.0.nodes q ≡ (if r.1 && p.abs == q then new else content n q))
      → Kept p n (settle r (rewrite p.abs p.old_data mode) e)
  rewritten-Kept p n r new mode e at here changes =
      settle-Kept p n r (rewrite p.abs p.old_data mode) e refl
        (λ done q.
          put_back p.abs q r.1 (content n q) (some p.old_data) new (content r.0.nodes) done
            (changes q) (λ s. ap (content n) (sym s) ∙ here))
        (λ done q out.
          outside p.abs q r.1 (content n q) (content r.0.nodes q) new (changes q)
            (sym (at q) ∙ out))
        (λ not_done q.
          undone p.abs q r.1 (content n q) (content r.0.nodes q) new (changes q) not_done)

  pub apply_update-Kept :
      (p : PlannedOp) (d : Disk)
      → p.op.op_type ≡ update
      → p.before_sha ≡ hash p.old_data
      → Kept p d.nodes (apply_update hash p d)
  unfolding apply_update
  apply_update-Kept p d t b = elim (Bool-cases (still_at_base hash p d.nodes)) [
    | inr h ↦ rw h (λ q. refl)
    | inl h ↦ rw h (
        rewritten-Kept p d.nodes (atomic_write p.abs p.op.content p.old_mode d) (some p.op.content)
          p.old_mode (write_failed p.canonical) (λ q. rw t) (still_at_base-content p d.nodes b h)
          (content-atomic_write p.abs p.op.content p.old_mode d))
  ]

  apply_delete_file-Kept :
      (p : PlannedOp) (d : Disk)
      → p.op.op_type ≡ delete
      → p.before_sha ≡ hash p.old_data
      → Kept p d.nodes (apply_delete_file hash p d)
  unfolding apply_delete_file
  apply_delete_file-Kept p d t b = elim (Bool-cases (still_at_base hash p d.nodes)) [
    | inr h ↦ rw h (λ q. refl)
    | inl h ↦ rw h (
        rewritten-Kept p d.nodes (remove p.abs d) none p.old_mode (delete_failed p.canonical)
          (λ q. rw t) (still_at_base-content p d.nodes b h) (content-remove p.abs d))
  ]

  pub apply_delete-Kept :
      (p : PlannedOp) (d : Disk)
      → p.op.op_type ≡ delete
      → p.is_dir ≡ false
      → p.before_sha ≡ hash p.old_data
      → Kept p d.nodes (apply_delete hash p d)
  unfolding apply_delete
  apply_delete-Kept p d t f b =
      let at : Bool → Step =
        λ b. if b then apply_delete_dir hash p d else apply_delete_file hash p d in
      subst (Kept p d.nodes) (sym (ap at f)) (apply_delete_file-Kept p d t b)

  move_back_lem :
      (p : PlannedOp) (n : Nodes) (c : Contents) (q : Text)
      → p.abs ≢ p.to_abs
      → content n p.to_abs ≡ none
      → ((r : Text) → c r ≡ renamed p.abs p.to_abs (content n) r)
      → renamed p.to_abs p.abs c q ≡ content n q
  move_back_lem p n c q apart free changes = ground (
    arith,
    changes q,
    changes p.to_abs,
    text_beq_iff p.abs q,
    text_beq_iff p.to_abs q,
    text_beq_iff p.to_abs p.to_abs,
  )

  moved_outside :
      (p : PlannedOp) (q : Text) (c : Contents)
      → ((p.abs == q) || (p.to_abs == q)) ≡ false
      → renamed p.abs p.to_abs c q ≡ c q
  moved_outside p q c h = ground arith

  pub apply_move-Kept :
      (p : PlannedOp) (d : Disk)
      → p.op.op_type ≡ move
      → p.abs ≢ p.to_abs
      → content d.nodes p.to_abs ≡ none
      → Kept p d.nodes (apply_move hash p d)
  unfolding apply_move
  apply_move-Kept p d t apart free = elim (Bool-cases (still_at_base hash p d.nodes)) [
    | inr h ↦ rw h (λ q. refl)
    | inl h ↦
        let r = rename p.abs p.to_abs d in
        let changes : ((done : r.1 ≡ true) (q : Text)
            → content r.0.nodes q ≡ renamed p.abs p.to_abs (content d.nodes) q) =
          λ done q. content-rename p.abs p.to_abs d q ∙ rw done in
        rw h (
          settle-Kept p d.nodes r (move_back p.to_abs p.abs) (move_failed p.canonical) refl
            (λ done q. move_back_lem p d.nodes (content r.0.nodes) q apart free (changes done))
            (λ done q out. changes done q ∙ moved_outside p q (content d.nodes) (rw t at out))
            (λ not_done q. content-rename p.abs p.to_abs d q ∙ rw not_done))
  ]
