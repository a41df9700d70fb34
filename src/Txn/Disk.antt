-- ===== src/Txn/Disk.antt =====
-- companion/internal/txn/fs.go, and the calls of package os that the pipeline makes: a disk is a
-- map from paths to what stands there, and a schedule of the calls that fail.
use fylane.Common.{
  ℕ, Bool, true, false, ◌&&◌, ◌||◌, not, List, [], ◌∷◌, ◌++◌, Option, none, some, if◌then◌else◌,
  nat_beq, ◌==◌, any, drop, length,
}
use fylane.Common.Text.{Text, text_eq, has_prefix}
use fylane.Common.Paths.{slash}
use fylane.Common.Dict.{Dict, lookup, insert, delete, delete_where}

-- What os.ReadFile finds behind a symbolic link: nothing, something that it cannot read, or bytes.
pub data Linked : Type 0 where
  dangling unread : Linked
  reads : Text → Linked

-- A regular file with its bytes and permission bits, a directory, a symbolic link, or another kind.
pub data Node : Type 0 where
  file : Text → ℕ → Node
  dir special : Node
  link : Linked → Node

abbrev pub Nodes : Type 0
Nodes = Dict Text Node

-- What becomes of a call that reaches the disk. A call that fails may leave a part of its work: a
-- failing RemoveAll has removed the paths that are marked.
pub data Fault : Type 0 where
  works : Fault
  fails : (Text → Bool) → Fault

-- Past the end of the schedule every call works.
pub record Disk : Type 0 where
  pub nodes : Nodes
  pub faults : List Fault

abbrev pub next_fault : List Fault → Fault
next_fault [] = works
next_fault (f ∷ fs) = f

abbrev pub later_faults : List Fault → List Fault
later_faults [] = []
later_faults (f ∷ fs) = fs

-- One call: what it does if it works, and what it leaves if it fails.
abbrev pub call_with : Fault → List Fault → Nodes × Bool → ((Text → Bool) → Nodes) → Disk × Bool
call_with works fs done left = (record { nodes = done.0; faults = fs }, done.1)
call_with (fails gone) fs done left = (record { nodes = left gone; faults = fs }, false)

abbrev pub call : Disk → Nodes × Bool → ((Text → Bool) → Nodes) → Disk × Bool
call d done left = call_with (next_fault d.faults) (later_faults d.faults) done left

-- The proper prefixes of a path that end before a slash, the shortest first.
unfoldable pub ancestors_from : Text → Text → List Text
ancestors_from before [] = []
ancestors_from before (c ∷ p) =
    let rest = ancestors_from (before ++ c ∷ []) p in
    if nat_beq c slash && not (before == []) then before ∷ rest else rest

abbrev pub ancestors : Text → List Text
ancestors p = ancestors_from [] p

abbrev pub is_under : Text → Text → Bool
is_under p q = has_prefix q (p ++ slash ∷ [])

abbrev pub in_tree : Text → Text → Bool
in_tree p q = (q == p) || is_under p q

abbrev pub is_dir_node : Option Node → Bool
is_dir_node (some dir) = true
is_dir_node _ = false

unfoldable pub all_dirs : Nodes → List Text → Bool
all_dirs n [] = true
all_dirs n (p ∷ ps) = let rest = all_dirs n ps in is_dir_node (lookup p n) && rest

-- One ancestor, as os.MkdirAll finds it.
abbrev pub dir_at : Option Node → Text → Nodes → Nodes × Bool
dir_at none p n = (insert p dir n, true)
dir_at (some dir) p n = (n, true)
dir_at (some _) p n = (n, false)

-- os.MkdirAll, over the ancestors: it stops where something else than a directory stands.
unfoldable pub make_dirs : List Text → Nodes → Nodes × Bool
make_dirs [] n = (n, true)
make_dirs (p ∷ ps) n =
    let (n', made) = dir_at (lookup p n) p n in
    let rest = make_dirs ps n' in if made then rest else (n', false)

abbrev pub put_over : Option Node → Text → Text → ℕ → Nodes → Nodes × Bool
put_over (some dir) p bytes mode n = (n, false)
put_over (some (file old old_mode)) p bytes mode n = (insert p (file bytes old_mode) n, true)
put_over _ p bytes mode n = (insert p (file bytes mode) n, true)

-- The rename at the end of an atomic write: an existing file keeps its permission bits, and a
-- directory is not replaced.
unfoldable pub put_file : Text → Text → ℕ → Nodes → Nodes × Bool
put_file p bytes mode n = put_over (lookup p n) p bytes mode n

unfoldable pub put_in : Text → Text → ℕ → List Fault → Nodes × Bool → Disk × Bool
unfolding put_file
put_in p bytes mode fs (n, false) = (record { nodes = n; faults = fs }, false)
put_in p bytes mode fs (n, true) =
    call (record { nodes = n; faults = fs }) (put_file p bytes mode n) (λ _. n)

-- AtomicWrite: what comes before the rename leaves the target as it was.
unfoldable pub atomic_write : Text → Text → ℕ → Disk → Disk × Bool
unfolding put_in make_dirs ancestors_from
atomic_write p bytes mode d = put_in p bytes mode d.faults (make_dirs (ancestors p) d.nodes)

abbrev pub remove_found : Option Node → Text → Nodes → Nodes × Bool
remove_found none p n = (n, false)
remove_found (some dir) p n =
    if any (λ (e : Text × Node). is_under p e.0) n then (n, false) else (delete p n, true)
remove_found (some _) p n = (delete p n, true)

unfoldable pub remove_node : Text → Nodes → Nodes × Bool
remove_node p n = remove_found (lookup p n) p n

-- os.Remove
unfoldable pub remove : Text → Disk → Disk × Bool
unfolding remove_node
remove p d = call d (remove_node p d.nodes) (λ _. d.nodes)

-- os.RemoveAll
unfoldable pub remove_all : Text → Disk → Disk × Bool
remove_all p d =
    call d (delete_where (λ q _. in_tree p q) d.nodes, true)
      (λ gone. delete_where (λ q _. in_tree p q && gone q) d.nodes)

abbrev pub move_node : Text → Text → Node → Nodes → Nodes × Bool
move_node p q node n =
    if is_dir_node (lookup q n) then (n, false) else (insert q node (delete p n), true)

unfoldable pub rename_node : Text → Text → Option Node → Nodes → Nodes × Bool
rename_node p q none n = (n, false)
rename_node p q (some dir) n = (n, false)
rename_node p q (some node) n = move_node p q node n

-- os.Rename of a file: a file at the target is replaced, a missing parent is an error.
unfoldable pub rename : Text → Text → Disk → Disk × Bool
unfolding rename_node all_dirs ancestors_from
rename p q d =
    let done =
      if all_dirs d.nodes (ancestors q)
      then rename_node p q (lookup p d.nodes) d.nodes
      else (d.nodes, false) in
    call d done (λ _. d.nodes)

abbrev pub linked_bytes : Linked → Option Text
linked_bytes (reads bytes) = some bytes
linked_bytes _ = none

-- os.ReadFile, which follows a symbolic link: the bytes, or none for an error.
abbrev pub bytes_of : Option Node → Option Text
bytes_of (some (file bytes mode)) = some bytes
bytes_of (some (link l)) = linked_bytes l
bytes_of _ = none

unfoldable pub content : Nodes → Text → Option Text
content n p = bytes_of (lookup p n)

-- os.ReadFile says that there is no file.
abbrev pub is_missing : Option Node → Bool
is_missing none = true
is_missing (some (link dangling)) = true
is_missing _ = false

abbrev pub is_there : Option Node → Bool
is_there none = false
is_there (some _) = true

abbrev pub exists : Text → Nodes → Bool
exists p n = is_there (lookup p n)

abbrev pub copied : Option Node → Text → Nodes → Nodes × Bool
copied (some (file bytes mode)) dst to = (insert dst (file bytes mode) to, true)
copied _ dst to = (to, false)

-- copyFileDurable, into the node map of another place.
unfoldable pub copy_file : Text → Text → Nodes → Nodes → Nodes × Bool
copy_file src dst from to = copied (lookup src from) dst to

-- One entry of the walk of copyTreeDurable: a symbolic link is skipped, another kind is an error.
unfoldable pub copy_entry : Text → Node → Nodes → Nodes × Bool
copy_entry at dir to = (insert at dir to, true)
copy_entry at (file bytes mode) to = (insert at (file bytes mode) to, true)
copy_entry at (link l) to = (to, true)
copy_entry at special to = (to, false)

-- copyTreeDurable: the walk over what stands in the tree at `src`.
unfoldable pub copy_tree : Text → Text → Nodes → Nodes → Nodes × Bool
unfolding copy_entry
copy_tree src dst [] to = (to, true)
copy_tree src dst ((at, node) ∷ from) to =
    let here =
      if in_tree src at then copy_entry (dst ++ drop (length src) at) node to else (to, true) in
    let rest = copy_tree src dst from here.0 in if here.1 then rest else (here.0, false)
