-- ===== src/Txn/Unwind.antt =====
-- A whole apply that fails: the loop over the plan, the verification, and the undo list.
use fylane.Common.{
  ◌≡◌, refl, ◌∙◌, ap, ◌≢◌, inl, inr, true, false, List, [], ◌∷◌, ◌++◌, Option, none, some, All,
  All-append,
}
use fylane.Common.Text.{Text, text_eq, equal_fold}
use fylane.Txn.{OpType, create, update, move, delete, other}
use fylane.Txn.Disk.{Nodes, Disk, content}
use fylane.Txn.Ops.{PlannedOp}
use fylane.Txn.Apply.{
  Undo, Step, apply_op, apply_from, verify, finish_apply, apply, failed, restore, ApplyError,
  settled,
}
use fylane.Txn.Undo.{
  Contents, is_file_undo, undo_all, undo_all_append, undo_all_same, restore-content,
}
use fylane.Txn.Restore.{
  touches, Kept, apply_create-Kept, apply_update-Kept, apply_move-Kept, apply_delete-Kept,
}

-- What the plan records of an operation on a file, and what the disk must not have gained since: a
-- move needs a target where no file stands.
pub record Sound (hash : Text → Text) (n : Nodes) (p : PlannedOp) : Type 0 where
  pub is_file : p.is_dir ≡ false
  pub based : p.op.op_type ≢ create → p.before_sha ≡ hash p.old_data
  pub two_paths : p.op.op_type ≡ move → p.abs ≢ p.to_abs
  pub free : p.op.op_type ≡ move → content n p.to_abs ≡ none

-- No operation changes the path to which a later one moves a file.
abbrev pub Apart : List PlannedOp → Type 0
Apart [] = Unit
Apart (p ∷ ps) =
    All (λ q. q.op.op_type ≡ move → touches p.op.op_type p q.to_abs ≡ false) ps × Apart ps

-- The undo list brings the contents back to `base`.
abbrev pub Restores : List Undo → Disk → Contents → Type 0
Restores us d base =
    All (λ u. is_file_undo u ≡ true) us × ((q : Text) → undo_all us (content d.nodes) q ≡ base q)

abbrev pub After : Contents → List Undo → Step → Type 0
After base us (d, inl u) = Restores (u ++ us) d base
After base us (d, inr e) = Restores us d base

module _ (hash : Text → Text) (unlike : (a b : Text) → equal_fold (hash a) (hash b) ≡ true → a ≡ b)
    (some_hash : (a : Text) → equal_fold [] (hash a) ≡ false) where
  apply_op-Kept :
      (p : PlannedOp) (d : Disk) (t : OpType)
      → p.op.op_type ≡ t
      → Sound hash d.nodes p
      → Kept p d.nodes (apply_op hash t p d)
  unfolding apply_op
  apply_op-Kept p d create e s = apply_create-Kept hash unlike some_hash p d e
  apply_op-Kept p d update e s = apply_update-Kept hash unlike some_hash p d e (s.based (λ c. cc))
  apply_op-Kept p d move e s =
      apply_move-Kept hash unlike some_hash p d e (s.two_paths e) (s.free e)
  apply_op-Kept p d delete e s =
      apply_delete-Kept hash unlike some_hash p d e s.is_file (s.based (λ c. cc))
  apply_op-Kept p d (other t) e s = (tt, λ q. refl, λ q out. refl)

  step-After :
      (p : PlannedOp) (base : Contents) (us : List Undo) (d : Disk) (st : Step)
      → Restores us d base
      → Kept p d.nodes st
      → After base us st
  step-After p base us d (d', inl u) (fs, back) (f, undoes, frame) = (
    All-append (λ v. is_file_undo v ≡ true) u us f fs,
    λ q.
        ap (λ c. c q) (undo_all_append u us (content d'.nodes))
        ∙ undo_all_same us (undo_all u (content d'.nodes)) (content d.nodes) undoes q
        ∙ back q,
  )
  step-After p base us d (d', inr e) (fs, back) same =
      (fs, λ q. undo_all_same us (content d'.nodes) (content d.nodes) same q ∙ back q)

  still-Sound :
      (p : PlannedOp) (n : Nodes) (d' : Disk) (ps : List PlannedOp)
      → ((q : Text) → touches p.op.op_type p q ≡ false → content d'.nodes q ≡ content n q)
      → All (λ q. q.op.op_type ≡ move → touches p.op.op_type p q.to_abs ≡ false) ps
      → All (Sound hash n) ps
      → All (Sound hash d'.nodes) ps
  still-Sound p n d' [] frame apart s = tt
  still-Sound p n d' (q ∷ ps) frame (a, apart) (s, ss) = (
    record {
      is_file = s.is_file;
      based = s.based;
      two_paths = s.two_paths;
      free = λ m. frame q.to_abs (a m) ∙ s.free m;
    },
    still-Sound p n d' ps frame apart ss,
  )

  abbrev SoundAfter : Step → List PlannedOp → Type 0
  SoundAfter (d, inl u) ps = All (Sound hash d.nodes) ps
  SoundAfter (d, inr e) ps = Unit

  step-SoundAfter :
      (p : PlannedOp) (n : Nodes) (st : Step) (ps : List PlannedOp)
      → Kept p n st
      → All (λ q. q.op.op_type ≡ move → touches p.op.op_type p q.to_abs ≡ false) ps
      → All (Sound hash n) ps
      → SoundAfter st ps
  step-SoundAfter p n (d', inl u) ps (f, undoes, frame) apart s =
      still-Sound p n d' ps frame apart s
  step-SoundAfter p n (d', inr e) ps k apart s = tt

  apply_from-Restores :
      (base : Contents) (st : Step) (us : List Undo) (ps : List PlannedOp)
      → After base us st
      → Apart ps
      → SoundAfter st ps
      → let (d, us', _) = apply_from hash st us ps in Restores us' d base
  unfolding apply_from
  apply_from-Restores base (d, inr e) us ps a apart s = a
  apply_from-Restores base (d, inl u) us [] a apart s = a
  apply_from-Restores base (d, inl u) us (p ∷ ps) a (apart, aparts) (s, ss) =
      let k = apply_op-Kept p d p.op.op_type refl s in
      let st = apply_op hash p.op.op_type p d in
      apply_from-Restores base st (u ++ us) ps (step-After p base (u ++ us) d st a k) aparts
        (step-SoundAfter p d.nodes st ps k apart ss)

  settled-content :
      (saved : Nodes) (base : Contents) (d : Disk) (us : List Undo) (o : Option ApplyError)
      (e : ApplyError)
      → Restores us d base
      → (settled saved d us o).1 ≡ failed e false
      → (q : Text) → content (settled saved d us o).0.nodes q ≡ base q
  settled-content saved base d us none e r h q = cc
  settled-content saved base d us (some e') e (fs, back) h q =
      let all_ran : (restore saved us d).1 ≡ false = cc in
      restore-content saved us d fs all_ran q ∙ back q

  finish-content :
      (saved : Nodes) (base : Contents) (plan : List PlannedOp)
      (r : Disk × List Undo × Option ApplyError) (e : ApplyError)
      → Restores r.1 r.0 base
      → (finish_apply hash saved plan r).1 ≡ failed e false
      → (q : Text) → content (finish_apply hash saved plan r).0.nodes q ≡ base q
  unfolding finish_apply
  finish-content saved base plan (d, us, some e') e r h q =
      settled-content saved base d us (some e') e r h q
  finish-content saved base plan (d, us, none) e r h q =
      settled-content saved base d us (verify hash plan d.nodes) e r h q

  -- An apply of a plan of file operations that fails, and does not report that a restore failed
  -- too, leaves every file with the bytes that it had when apply began, and no file that was not
  -- there: whatever call failed, at whatever point. The plan is sound for the disk as apply finds
  -- it, and the targets of the moves are apart from what the other operations change.
  pub apply-restores :
      (saved : Nodes) (plan : List PlannedOp) (d : Disk) (e : ApplyError)
      → All (Sound hash d.nodes) plan
      → Apart plan
      → (apply hash saved plan d).1 ≡ failed e false
      → (q : Text) → content (apply hash saved plan d).0.nodes q ≡ content d.nodes q
  unfolding apply
  apply-restores saved plan d e s a h =
      finish-content saved (content d.nodes) plan (apply_from hash (d, inl []) [] plan) e
        (apply_from-Restores (content d.nodes) (d, inl []) [] plan (tt, λ q. refl) a s) h
