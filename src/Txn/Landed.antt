-- ===== src/Txn/Landed.antt =====
-- What a success says of the disk, and what the effects of a failure say of it.
use fylane.Common.{
  ◌≡◌, refl, sym, ◌∙◌, ap, inl, inr, true, false, not, if◌then◌else◌, List, [], ◌∷◌, Option, none,
  some, All, ==→eq, Option-cases, Bool-cases,
}
use fylane.Common.Text.{Text, text_eq, text_beq_iff, equal_fold, to_lower}
use fylane.Common.Dict.{lookup}
use fylane.Txn.{OpType, create, update, move, delete, other}
use fylane.Txn.Disk.{Nodes, Disk, content, exists, bytes_of, is_missing}
use fylane.Txn.Ops.{PlannedOp}
use fylane.Txn.Plan.{hash_file}
use fylane.Txn.Apply.{
  Undo, verified, verify, apply_from, finish_apply, apply, applied, settled, ApplyError,
}

-- The disk as the operation wants it.
abbrev pub Landed : OpType → PlannedOp → Nodes → Type 0
Landed create p n = content n p.abs ≡ some p.op.content
Landed update p n = content n p.abs ≡ some p.op.content
Landed move p n = content n p.to_abs ≡ some p.old_data
Landed delete p n = lookup p.abs n ≡ none
Landed (other t) p n = Unit

-- The operation's work, as reading the path shows it: a link that leads nowhere reads as missing.
-- A directory that was to be deleted is not read: nothing stands at its path.
abbrev pub Stands : OpType → PlannedOp → Nodes → Type 0
Stands move p n = (is_missing (lookup p.abs n) ≡ true) × (content n p.to_abs ≡ some p.old_data)
Stands delete p n = (if p.is_dir then not (exists p.abs n) else is_missing (lookup p.abs n)) ≡ true
Stands (other t) p n = true ≡ false
Stands t p n = content n p.abs ≡ some p.op.content

-- What the operation found when it was planned, as reading the path shows it.
abbrev pub Untouched : OpType → PlannedOp → Nodes → Type 0
Untouched create p n = is_missing (lookup p.abs n) ≡ true
Untouched update p n = content n p.abs ≡ some p.old_data
Untouched move p n = (content n p.abs ≡ some p.old_data) × (is_missing (lookup p.to_abs n) ≡ true)
Untouched delete p n = (p.is_dir ≡ false) × (content n p.abs ≡ some p.old_data)
Untouched (other t) p n = true ≡ false

-- The hashes that the plan records.
abbrev pub Recorded : (Text → Text) → OpType → PlannedOp → Type 0
Recorded hash create p = p.after_sha ≡ hash p.op.content
Recorded hash update p = (p.before_sha ≡ hash p.old_data) × (p.after_sha ≡ hash p.op.content)
Recorded hash move p = (p.before_sha ≡ hash p.old_data) × (p.after_sha ≡ hash p.old_data)
Recorded hash delete p = p.is_dir ≡ false → p.before_sha ≡ hash p.old_data
Recorded hash (other t) p = Unit

equal_fold_self : (a : Text) → equal_fold a a ≡ true
unfolding equal_fold
equal_fold_self a = (text_beq_iff (to_lower a) (to_lower a)).1 refl

module _ (hash : Text → Text) (unlike : (a b : Text) → equal_fold (hash a) (hash b) ≡ true → a ≡ b)
    (some_hash : (a : Text) → equal_fold [] (hash a) ≡ false) where
  pub hash_unlike : (a b : Text) → hash a ≡ hash b → a ≡ b
  hash_unlike a b e = unlike a b (ap (equal_fold (hash a)) (sym e) ∙ equal_fold_self (hash a))

  hash_file-content :
      (n : Nodes) (path b : Text) → hash_file hash n path ≡ hash b → content n path ≡ some b
  unfolding hash_file content
  hash_file-content n path b e = elim (Option-cases (bytes_of (lookup path n))) [
    | inr (a, o) ↦ let h : hash a ≡ hash b = rw o at e in o ∙ ap some (hash_unlike a b h)
    | inl o ↦
        let h : [] ≡ hash b = rw o at e in
        let f : equal_fold [] (hash b) ≡ true = rw (sym h) (equal_fold_self []) in
        let g = some_hash b in cc
  ]

  exists-lookup : (p : Text) (n : Nodes) → not (exists p n) ≡ true → lookup p n ≡ none
  exists-lookup p n h = elim (Option-cases (lookup p n)) [
    | inl e ↦ e
    | inr (node, e) ↦ let f : false ≡ true = rw e at h in cc
  ]

  verified-Landed :
      (t : OpType) (p : PlannedOp) (n : Nodes)
      → Recorded hash t p
      → verified hash t p n ≡ true
      → Landed t p n
  unfolding verified
  verified-Landed create p n r h =
      hash_file-content n p.abs p.op.content (==→eq (hash_file hash n p.abs) p.after_sha h ∙ r)
  verified-Landed update p n (_, r) h =
      hash_file-content n p.abs p.op.content (==→eq (hash_file hash n p.abs) p.after_sha h ∙ r)
  verified-Landed move p n (_, r) h =
      hash_file-content n p.to_abs p.old_data (==→eq (hash_file hash n p.to_abs) p.after_sha h ∙ r)
  verified-Landed delete p n r h = exists-lookup p.abs n h
  verified-Landed (other t) p n r h = tt

  verify-Landed :
      (plan : List PlannedOp) (n : Nodes)
      → All (λ p. Recorded hash p.op.op_type p) plan
      → verify hash plan n ≡ none
      → All (λ p. Landed p.op.op_type p n) plan
  unfolding verify
  verify-Landed [] n r h = tt
  verify-Landed (p ∷ ps) n (r, rs) h = elim (Bool-cases (verified hash p.op.op_type p n)) [
    | inl v ↦ (
      verified-Landed p.op.op_type p n r v,
      verify-Landed ps n rs (let g : verify hash ps n ≡ none = rw v at h in g),
    )
    | inr v ↦ absurd (let g = rw v at h in cc)
  ]

  settled-applied :
      (saved : Nodes) (d : Disk) (us : List Undo) (o : Option ApplyError)
      → (settled saved d us o).1 ≡ applied
      → (o ≡ none) × ((settled saved d us o).0 ≡ d)
  settled-applied saved d us none h = (refl, refl)
  settled-applied saved d us (some e) h = absurd cc

  finish-Landed :
      (saved : Nodes) (plan : List PlannedOp) (r : Disk × List Undo × Option ApplyError)
      → All (λ p. Recorded hash p.op.op_type p) plan
      → (finish_apply hash saved plan r).1 ≡ applied
      → All (λ p. Landed p.op.op_type p (finish_apply hash saved plan r).0.nodes) plan
  unfolding finish_apply
  finish-Landed saved plan (d, us, some e) rs h = absurd cc
  finish-Landed saved plan (d, us, none) rs h =
      let (v, same) = settled-applied saved d us (verify hash plan d.nodes) h in
      let landed = verify-Landed plan d.nodes rs v in rw same landed

  -- An apply that reports success has done every operation of the plan: each created or updated
  -- file holds the bytes that were approved, each moved file's bytes stand at its target, and
  -- nothing stands where something was to be deleted. The plan's hashes are those of the bytes it
  -- loaded and of those it was given.
  pub apply-Landed :
      (saved : Nodes) (plan : List PlannedOp) (d : Disk)
      → All (λ p. Recorded hash p.op.op_type p) plan
      → (apply hash saved plan d).1 ≡ applied
      → All (λ p. Landed p.op.op_type p (apply hash saved plan d).0.nodes) plan
  unfolding apply
  apply-Landed saved plan d rs h =
      finish-Landed saved plan (apply_from hash (d, inl []) [] plan) rs h
