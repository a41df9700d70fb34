-- ===== src/Sandbox/Resolve.antt =====
-- companion/internal/sandbox/resolve.go: Resolve. What the operating system answers is an argument.
use fylane.Common.{
  ℕ, Bool, true, false, ◌&&◌, ◌||◌, Option, none, some, List, [], ◌∷◌, ◌++◌, if◌then◌else◌, any,
  drop, length, ltb, ◌==◌,
}
use fylane.Common.Text.{Text, codes, text_eq, has_prefix, split_on, equal_fold}
use fylane.Common.Paths.{slash, join}
use fylane.Sandbox.Names.{
  Alphabets, PathError, path_traversal, path_too_long, symlink, special_file, protected_path,
  not_directory, inspecting_path, resolving_path, or_next,
}
use fylane.Sandbox.Clean.{Checked, accepted, refused, clean_path}

pub data Op : Type 0 where
  op_read op_write op_delete : Op

-- What os.Lstat finds.
pub data Entry : Type 0 where
  absent failed a_file a_dir a_link a_special : Entry

-- What filepath.EvalSymlinks answers.
pub data Real : Type 0 where
  no_path broken : Real
  real_path : Text → Real

pub record Files : Type 0 where
  pub lstat : Text → Entry
  pub eval_symlinks : Text → Real

abbrev pub max_abs_path_len : ℕ
max_abs_path_len = 4096

abbrev pub writes : Op → Bool
writes op_read = false
writes _ = true

abbrev pub is_git : Text → Bool
is_git c = equal_fold c (codes ".git")

abbrev pub is_last : List Text → Bool
is_last [] = true
is_last _ = false

-- One component: an error, and whether the walk goes on.
unfoldable pub step_into : Entry → Bool → Option PathError × Bool
step_into absent last = (none, false)
step_into failed last = (some inspecting_path, false)
step_into a_link last = (some symlink, false)
step_into a_dir last = (none, true)
step_into a_file true = (none, true)
step_into a_file false = (some not_directory, false)
step_into a_special true = (some special_file, false)
step_into a_special false = (some not_directory, false)

unfoldable pub walk_in : Files → Text → List Text → Option PathError
unfolding join step_into
walk_in fs cur [] = none
walk_in fs cur (c ∷ cs) =
    let here = join (cur ∷ c ∷ []) in
    let rest = walk_in fs here cs in
    let (error, on) = step_into (fs.lstat here) (is_last cs) in
    or_next error (if on then rest else none)

abbrev pub is_inside : Text → Text → Bool
is_inside root r = r == root || has_prefix r (root ++ slash ∷ [])

-- The path and its parents, the path first: filepath.Dir until it changes nothing.
unfoldable pub parents : Text → List Text → List Text
unfolding join
parents top [] = top ∷ []
parents top (w ∷ ws) = parents (join (top ∷ w ∷ [])) ws ++ top ∷ []

abbrev pub judge_real : Text → Real → Option PathError → Option PathError
judge_real root (real_path r) rest = if is_inside root r then none else some path_traversal
judge_real root broken rest = some resolving_path
judge_real root no_path rest = rest

unfoldable pub verify_real : Files → Text → List Text → Option PathError
verify_real fs root [] = some path_traversal
verify_real fs root (p ∷ ps) = judge_real root (fs.eval_symlinks p) (verify_real fs root ps)

abbrev pub when_none : Option PathError → Checked (Text × Text) → Checked (Text × Text)
when_none (some e) next = refused e
when_none none next = next

unfoldable pub resolve_cleaned : Files → Text → Op → Checked Text → Checked (Text × Text)
unfolding equal_fold split_on join walk_in verify_real parents
resolve_cleaned fs root op (refused e) = refused e
resolve_cleaned fs root op (accepted canonical) =
    let comps = split_on slash canonical in
    let abs = join (root ∷ canonical ∷ []) in
    if writes op && any is_git comps
    then refused protected_path
    else if ltb max_abs_path_len (length abs)
    then refused path_too_long
    else when_none (walk_in fs root comps) (
        when_none (verify_real fs root (parents (slash ∷ []) (drop 1 (split_on slash abs))))
          (accepted (abs, canonical)))

-- The absolute and the canonical path.
unfoldable pub resolve : Alphabets → Files → Text → Text → Op → Checked (Text × Text)
unfolding clean_path resolve_cleaned
resolve a fs root rel op = resolve_cleaned fs root op (clean_path a rel)
