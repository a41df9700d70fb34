-- ===== src/Txn/Undo.antt =====
-- The undo list of apply, read as what it makes of the contents of files.
use fylane.Common.{
  ◌≡◌, refl, ◌∙◌, Bool, true, false, List, [], ◌∷◌, ◌++◌, Option, none, some, if◌then◌else◌, arith,
  ◌==◌, All,
}
use fylane.Common.Text.{Text, text_eq}
use fylane.Txn.Disk.{Nodes, Disk, content}
use fylane.Txn.Contents.{content-atomic_write, content-remove, content-rename, renamed}
use fylane.Txn.Apply.{Undo, remove_created, rewrite, move_back, copy_back, run_undo, restore}

abbrev pub Contents : Type 0
Contents = Text → Option Text

abbrev pub is_file_undo : Undo → Bool
is_file_undo (copy_back p q) = false
is_file_undo _ = true

abbrev pub undo_content : Undo → Contents → Contents
undo_content (remove_created p) c q = if p == q then none else c q
undo_content (rewrite p bytes mode) c q = if p == q then some bytes else c q
undo_content (move_back from to) c q = renamed from to c q
undo_content (copy_back from to) c q = c q

abbrev pub undo_all : List Undo → Contents → Contents
undo_all [] c = c
undo_all (u ∷ us) c = undo_all us (undo_content u c)

pub undo_all_append :
    (us vs : List Undo) (c : Contents) → undo_all (us ++ vs) c ≡ undo_all vs (undo_all us c)
undo_all_append [] vs c = refl
undo_all_append (u ∷ us) vs c = undo_all_append us vs (undo_content u c)

undo_content_same :
    (u : Undo) (c d : Contents)
    → ((q : Text) → c q ≡ d q)
    → (q : Text) → undo_content u c q ≡ undo_content u d q
undo_content_same (remove_created p) c d e q = rw (e q)
undo_content_same (rewrite p bytes mode) c d e q = rw (e q)
undo_content_same (move_back from to) c d e q = rw (e q, e from)
undo_content_same (copy_back from to) c d e q = e q

pub undo_all_same :
    (us : List Undo) (c d : Contents)
    → ((q : Text) → c q ≡ d q)
    → (q : Text) → undo_all us c q ≡ undo_all us d q
undo_all_same [] c d e q = e q
undo_all_same (u ∷ us) c d e q =
    undo_all_same us (undo_content u c) (undo_content u d) (undo_content_same u c d e) q

pub run_undo-content :
    (saved : Nodes) (u : Undo) (d : Disk) (q : Text)
    → is_file_undo u ≡ true
    → (run_undo saved u d).1 ≡ true
    → content (run_undo saved u d).0.nodes q ≡ undo_content u (content d.nodes) q
unfolding run_undo
run_undo-content saved (remove_created p) d q f e = rw (content-remove p d q, e)
run_undo-content saved (rewrite p bytes mode) d q f e =
    rw (content-atomic_write p bytes mode d q, e)
run_undo-content saved (move_back from to) d q f e = rw (content-rename from to d q, e)
run_undo-content saved (copy_back from to) d q f e = cc

both_done : (a b : Bool) → (if a then b else true) ≡ false → (a ≡ true) × (b ≡ false)
both_done a b h = ground arith

-- A restore that reports no failure undoes every entry of the list.
pub restore-content :
    (saved : Nodes) (us : List Undo) (d : Disk)
    → All (λ u. is_file_undo u ≡ true) us
    → (restore saved us d).1 ≡ false
    → (q : Text) → content (restore saved us d).0.nodes q ≡ undo_all us (content d.nodes) q
unfolding restore
restore-content saved [] d fs e q = refl
restore-content saved (u ∷ us) d (f, fs) e q =
    let d' = (run_undo saved u d).0 in
    let (now, later) = both_done (run_undo saved u d).1 (restore saved us d').1 e in
    restore-content saved us d' fs later q
    ∙ undo_all_same us (content d'.nodes) (undo_content u (content d.nodes))
        (λ r. run_undo-content saved u d r f now) q
