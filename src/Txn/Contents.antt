-- ===== src/Txn/Contents.antt =====
-- What each call does to the contents of files, whether it works or fails.
use fylane.Common.{
  ℕ, ◌≡◌, refl, sym, ◌∙◌, inl, inr, Bool, true, false, ◌&&◌, List, [], ◌∷◌, Option, none, some,
  if◌then◌else◌, arith, ◌==◌, any, Bool-cases, Option-cases,
}
use fylane.Common.Text.{Text, text_eq, text_beq_iff}
use fylane.Common.Dict.{lookup, insert, delete, lookup-insert, lookup-delete}
use fylane.Txn.Disk.{
  Node, file, dir, link, special, Nodes, Fault, works, fails, Disk, call_with, next_fault,
  later_faults, make_dirs, put_file, put_in, atomic_write, remove_node, remove, move_node,
  rename_node, rename, all_dirs, ancestors, bytes_of, content, is_dir_node, is_under,
}

pub content-insert :
    (p q : Text) (node : Node) (n : Nodes)
    → content (insert p node n) q ≡ (if p == q then bytes_of (some node) else content n q)
unfolding content
content-insert p q node n = ground (arith, lookup-insert p q node n)

pub content-delete :
    (p q : Text) (n : Nodes) → content (delete p n) q ≡ (if p == q then none else content n q)
unfolding content
content-delete p q n = ground (arith, lookup-delete p q n)

-- The contents after a call, with what it does where it works.
abbrev pub changed_to : Bool → Option Text → Option Text → Option Text
changed_to done new old = if done then new else old

content-insert_dir :
    (p q : Text) (n : Nodes) → lookup p n ≡ none → content (insert p dir n) q ≡ content n q
unfolding content
content-insert_dir p q n e = ground (arith, lookup-insert p q dir n, text_beq_iff p q)

pub content-make_dirs :
    (ps : List Text) (q : Text) (n : Nodes) → content (make_dirs ps n).0 q ≡ content n q
unfolding make_dirs
content-make_dirs [] q n = refl
content-make_dirs (p ∷ ps) q n = elim (Option-cases (lookup p n)) [
  | inl e ↦ rw e (content-make_dirs ps q (insert p dir n) ∙ content-insert_dir p q n e)
  | inr (file b m, e) ↦ rw e
  | inr (dir, e) ↦ rw e (content-make_dirs ps q n)
  | inr (link l, e) ↦ rw e
  | inr (special, e) ↦ rw e
]

content-put_file :
    (p : Text) (b : Text) (m : ℕ) (q : Text) (n : Nodes)
    → content (put_file p b m n).0 q
      ≡ (if (put_file p b m n).1 && p == q then some b else content n q)
unfolding put_file
content-put_file p b m q n = elim (Option-cases (lookup p n)) [
  | inl e ↦ rw (e, content-insert)
  | inr (file b' m', e) ↦ rw (e, content-insert)
  | inr (dir, e) ↦ rw e
  | inr (link l, e) ↦ rw (e, content-insert)
  | inr (special, e) ↦ rw (e, content-insert)
]

-- A call that leaves everything as it was when it fails.
content-call :
    (f : Fault) (fs : List Fault) (n : Nodes) (done : Nodes × Bool) (q : Text) (hit : Bool)
    (v : Option Text)
    → content done.0 q ≡ (if done.1 && hit then v else content n q)
    → content (call_with f fs done (λ _. n)).0.nodes q
      ≡ (if (call_with f fs done (λ _. n)).1 && hit then v else content n q)
content-call works fs n done q hit v e = e
content-call (fails g) fs n done q hit v e = refl

content-put_in :
    (p : Text) (b : Text) (m : ℕ) (q : Text) (fs : List Fault) (made : Nodes × Bool)
    → content (put_in p b m fs made).0.nodes q
      ≡ (if (put_in p b m fs made).1 && p == q then some b else content made.0 q)
unfolding put_in
content-put_in p b m q fs (n, false) = refl
content-put_in p b m q fs (n, true) =
    content-call (next_fault fs) (later_faults fs) n (put_file p b m n) q (p == q) (some b)
      (content-put_file p b m q n)

pub content-atomic_write :
    (p : Text) (b : Text) (m : ℕ) (d : Disk) (q : Text)
    → content (atomic_write p b m d).0.nodes q
      ≡ (if (atomic_write p b m d).1 && p == q then some b else content d.nodes q)
unfolding atomic_write
content-atomic_write p b m d q =
    rw (sym (content-make_dirs (ancestors p) q d.nodes))
      (content-put_in p b m q d.faults (make_dirs (ancestors p) d.nodes))

content-remove_node :
    (p q : Text) (n : Nodes)
    → content (remove_node p n).0 q ≡ (if (remove_node p n).1 && p == q then none else content n q)
unfolding remove_node
content-remove_node p q n = elim (Option-cases (lookup p n)) [
  | inl e ↦ rw e
  | inr (file b m, e) ↦ rw (e, content-delete)
  | inr (dir, e) ↦ elim (Bool-cases (any (λ (e : Text × Node). is_under p e.0) n)) [
    | inl u ↦ rw (e, u)
    | inr u ↦ rw (e, u, content-delete)
  ]
  | inr (link l, e) ↦ rw (e, content-delete)
  | inr (special, e) ↦ rw (e, content-delete)
]

pub content-remove :
    (p : Text) (d : Disk) (q : Text)
    → content (remove p d).0.nodes q
      ≡ (if (remove p d).1 && p == q then none else content d.nodes q)
unfolding remove
content-remove p d q =
    content-call (next_fault d.faults) (later_faults d.faults) d.nodes (remove_node p d.nodes) q
      (p == q) none (content-remove_node p q d.nodes)

-- What a rename that works makes of the contents.
abbrev pub renamed : Text → Text → (Text → Option Text) → Text → Option Text
renamed p q c r = if q == r then c p else if p == r then none else c r

content-move_node :
    (p q r : Text) (node : Node) (n : Nodes)
    → lookup p n ≡ some node
    → content (move_node p q node n).0 r
      ≡ (if (move_node p q node n).1 then renamed p q (content n) r else content n r)
unfolding content
content-move_node p q r node n e = elim (Bool-cases (is_dir_node (lookup q n))) [
  | inl h ↦ rw h
  | inr h ↦ rw (h, e, lookup-insert, lookup-delete) (ground arith)
]

content-rename_node :
    (p q r : Text) (o : Option Node) (n : Nodes)
    → lookup p n ≡ o
    → content (rename_node p q o n).0 r
      ≡ (if (rename_node p q o n).1 then renamed p q (content n) r else content n r)
unfolding rename_node
content-rename_node p q r none n e = refl
content-rename_node p q r (some dir) n e = refl
content-rename_node p q r (some (file b m)) n e = content-move_node p q r (file b m) n e
content-rename_node p q r (some (link l)) n e = content-move_node p q r (link l) n e
content-rename_node p q r (some special) n e = content-move_node p q r special n e

content-call_rename :
    (f : Fault) (fs : List Fault) (n : Nodes) (done : Nodes × Bool) (q : Text) (v : Option Text)
    → content done.0 q ≡ (if done.1 then v else content n q)
    → content (call_with f fs done (λ _. n)).0.nodes q
      ≡ (if (call_with f fs done (λ _. n)).1 then v else content n q)
content-call_rename works fs n done q v e = e
content-call_rename (fails g) fs n done q v e = refl

pub content-rename :
    (p q : Text) (d : Disk) (r : Text)
    → content (rename p q d).0.nodes r
      ≡ (if (rename p q d).1 then renamed p q (content d.nodes) r else content d.nodes r)
unfolding rename
content-rename p q d r = elim (Bool-cases (all_dirs d.nodes (ancestors q))) [
  | inl h ↦ rw h (
      content-call_rename (next_fault d.faults) (later_faults d.faults) d.nodes
        (rename_node p q (lookup p d.nodes) d.nodes) r (renamed p q (content d.nodes) r)
        (content-rename_node p q r (lookup p d.nodes) d.nodes refl))
  | inr h ↦ rw h (
      content-call_rename (next_fault d.faults) (later_faults d.faults) d.nodes (d.nodes, false) r
        (renamed p q (content d.nodes) r) refl)
]
