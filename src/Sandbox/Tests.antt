-- ===== src/Sandbox/Tests.antt =====
-- The theorems about paths at concrete requests, and runs of the code.
use fylane.Common.Dict.{lookup}
use fylane.Common.{
  none, map, true, false, List, ◌≡◌, refl, ◌&&◌, [], ◌∷◌, some, All, if◌then◌else◌, leb, ◌==◌,
}
use fylane.Common.Text.{Text, codes, text_beq, text_eq, has_byte}
use fylane.Common.Paths.Walk.{IsPlain, rooted_path}
use fylane.Sandbox.Names.{
  Alphabets, validate_component, confusable_name, reserved_name, invalid_char, path_traversal,
  absolute_path, symlink, protected_path,
}
use fylane.Sandbox.Clean.{accepted, refused, clean_path}
use fylane.Sandbox.Resolve.{
  op_read, op_write, Entry, a_dir, a_link, absent, Files, real_path, no_path, resolve,
}
use fylane.Sandbox.Accepted.{IsAccepted, clean_path-IsAccepted}
use fylane.Txn.{create}
use fylane.Txn.Ops.{Operation, Planned, PlannedOp, Workspace, ready}
use fylane.Txn.Plan.{plan}
use fylane.Sandbox.Workspaces.{sandboxed, IsInside, plan-IsInside}
use fylane.Sandbox.Inside.{IsResolved, resolve-IsResolved}

-- Some ranges of the tables.
abbrev alphabets : Alphabets
alphabets = record {
  is_letter = λ r. leb 65 r;
  latin = λ r. leb r 591;
  cyrillic = λ r. leb 1024 r && leb r 1279;
  greek = λ r. leb 880 r && leb r 1023;
}

abbrev lstat_w : Text → Entry
lstat_w p = if p == codes "/w/src" then a_dir else if p == codes "/w/out" then a_link else absent

abbrev files : Files
files = record {
  lstat = lstat_w;
  eval_symlinks = λ p. if p == codes "/w/src" then real_path p else no_path;
}

w-IsPlain : All IsPlain (codes "w" ∷ [])
unfolding text_beq has_byte
w-IsPlain = (record { some_byte = refl; not_dot = refl; not_dot_dot = refl; no_slash = refl }, tt)

backslashes : clean_path alphabets (codes "src\\.\\x\\..\\a.go") ≡ accepted (codes "src/a.go")
unfolding clean_path text_beq
backslashes = refl

clean_path-IsAccepted_example :
    IsAccepted alphabets (codes "src\\.\\x\\..\\a.go") (codes "src/a.go")
clean_path-IsAccepted_example =
    clean_path-IsAccepted alphabets (codes "src\\.\\x\\..\\a.go") (codes "src/a.go") backslashes

traversal : clean_path alphabets (codes "a/../../b") ≡ refused path_traversal
unfolding clean_path text_beq
traversal = refl

drive : clean_path alphabets (codes "C:/b") ≡ refused absolute_path
unfolding clean_path text_beq
drive = refl

device : clean_path alphabets (codes "src/com1.txt") ≡ refused reserved_name
unfolding clean_path text_beq
device = refl

-- The middle letter is Cyrillic.
homoglyph : validate_component alphabets (115 ∷ 208 ∷ 179 ∷ 99 ∷ []) ≡ some confusable_name
unfolding validate_component text_beq
homoglyph = refl

soft_hyphen : validate_component alphabets (97 ∷ 194 ∷ 173 ∷ []) ≡ some invalid_char
unfolding validate_component text_beq
soft_hyphen = refl

through_link : resolve alphabets files (codes "/w") (codes "out/x") op_read ≡ refused symlink
unfolding resolve text_beq
through_link = refl

git_write :
    resolve alphabets files (codes "/w") (codes "src/.GIT/x") op_write ≡ refused protected_path
unfolding resolve text_beq
git_write = refl

new_file :
    resolve alphabets files (rooted_path (codes "w" ∷ [])) (codes "src/a.go") op_write
    ≡ accepted (codes "/w/src/a.go", codes "src/a.go")
unfolding resolve text_beq
new_file = refl

resolve-IsResolved_example :
    IsResolved alphabets files
      (codes "w" ∷ [])
      (codes "src/a.go")
      op_write
      (codes "/w/src/a.go")
      (codes "src/a.go")
resolve-IsResolved_example =
    resolve-IsResolved alphabets files (codes "w" ∷ []) (codes "src/a.go") (codes "/w/src/a.go")
      (codes "src/a.go") op_write (λ e. cc) w-IsPlain new_file

abbrev inner : Workspace
inner = record {
  id = codes "ws";
  name = codes "work";
  writable = true;
  resolve = λ path access. none;
  sensitive = λ path. false;
}

abbrev creates_a : Operation
creates_a = record {
  op_type = create;
  path = codes "src\\a.go";
  from = [];
  to = [];
  content = codes "package a";
  expected_sha256 = [];
  recursive = false;
}

abbrev got : Planned (List PlannedOp) → List PlannedOp
got (ready ps) = ps
got _ = []

abbrev one_plan : Planned (List PlannedOp)
one_plan =
    plan (λ t. t) (λ p s t. t) (sandboxed alphabets files (rooted_path (codes "w" ∷ [])) inner) []
      (creates_a ∷ [])

one_plan_ready : one_plan ≡ ready (got one_plan)
unfolding plan sandboxed text_beq lookup
one_plan_ready = refl

one_path : map (λ p. p.abs) (got one_plan) ≡ codes "/w/src/a.go" ∷ []
unfolding plan sandboxed text_beq lookup
one_path = refl

plan-IsInside_example : All (IsInside files (codes "w" ∷ [])) (got one_plan)
plan-IsInside_example =
    plan-IsInside alphabets files (codes "w" ∷ []) (λ e. cc) w-IsPlain inner (λ t. t) (λ p s t. t)
      [] (creates_a ∷ []) (got one_plan) one_plan_ready
