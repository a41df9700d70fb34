-- ===== src/Command/Line.antt =====
-- companion/internal/cmdrule/cmdrule.go: a parsed argv and the questions that the rules ask of it.
use Prim.Native.String.{String}
use fylane.Common.{
  ℕ, zero, suc, Bool, true, false, ◌&&◌, ◌||◌, not, List, [], ◌∷◌, ◌++◌, Option, none, some,
  if◌then◌else◌, any, ◌==◌,
}
use fylane.Common.Text.{
  Text, codes, text_eq, replace_byte, to_lower, trim_space, trim_suffix, has_prefix, has_byte,
  contains, after_byte,
}
use fylane.Common.Paths.{base, slash, is_abs, join, clean}
use fylane.Command.Shells.{in_set, backslash}

pub record Request : Type 0 where
  pub argv : List Text
  pub root : Text
  pub dir : Text

pub record Cmdline : Type 0 where
  pub req : Request
  pub argv : List Text
  pub prog : Text
  pub args : List Text

unfoldable pub slashed : Text → Text
unfolding replace_byte
slashed s = replace_byte backslash slash s

unfoldable pub normalize_prog : Text → Text
unfolding slashed trim_space base to_lower trim_suffix
normalize_prog name = trim_suffix (to_lower (base (slashed (trim_space name)))) (codes ".exe")

unfoldable pub parse_argv : Request → List Text → Cmdline
parse_argv req [] = record { req = req; argv = req.argv; prog = []; args = [] }
parse_argv req (name ∷ args) = record {
  req = req;
  argv = req.argv;
  prog = normalize_prog name;
  args = args;
}

unfoldable pub parse : Request → Cmdline
unfolding parse_argv normalize_prog
parse req = parse_argv req req.argv

abbrev pub dash : Text
dash = b'-' ∷ []

abbrev pub is_flag : Text → Bool
is_flag a = has_prefix a dash

-- The loop of subArg, `n` words before the one that is wanted.
unfoldable pub nth_word : ℕ → List Text → Text
unfolding to_lower has_prefix
nth_word n [] = []
nth_word zero (a ∷ args) = if is_flag a then nth_word zero args else to_lower a
nth_word (suc n) (a ∷ args) = nth_word (if is_flag a then suc n else n) args

unfoldable pub sub_arg : ℕ → Cmdline → Text
unfolding nth_word
sub_arg n c = nth_word n c.args

unfoldable pub sub : Cmdline → Text
unfolding sub_arg
sub c = sub_arg 0 c

abbrev pub names_a_program : Text → Bool
names_a_program a = not (is_flag a) && not (has_byte b'=' a)

unfoldable pub execs_a_program : Cmdline → Bool
unfolding has_prefix has_byte
execs_a_program c = any names_a_program c.args

abbrev pub tail_of : Text → Text
tail_of [] = []
tail_of (c ∷ s) = s

abbrev pub has_letter : ℕ → Text → Bool
has_letter letter a =
    if not (is_flag a) || has_prefix a (b'-' ∷ dash) || a == dash
    then false
    else has_byte letter (tail_of a)

unfoldable pub has_short_opt : ℕ → Cmdline → Bool
unfolding has_prefix has_byte
has_short_opt letter c = any (has_letter letter) c.args

abbrev pub is_long_opt : Text → Text → Bool
is_long_opt name a = a == codes "--" ++ name || has_prefix a (codes "--" ++ name ++ codes "=")

unfoldable pub has_long_opt : String → Cmdline → Bool
unfolding has_prefix
has_long_opt name c = any (is_long_opt (codes name)) c.args

unfoldable pub windows_switch : Cmdline → Text → Bool
unfolding in_set has_prefix
windows_switch c arg =
    if not (has_prefix arg (slash ∷ []))
    then false
    else in_set c.prog (
        "icacls" ∷ "cacls" ∷ "takeown" ∷ "attrib" ∷ "schtasks" ∷ "sc" ∷ "reg" ∷ "net" ∷ "robocopy"
        ∷ "xcopy" ∷ [])

-- What one argument adds to the paths.
abbrev pub after_equals : Option Text → List Text
after_equals none = []
after_equals (some p) = p ∷ []

unfoldable pub path_arg : Cmdline → Text → List Text
unfolding windows_switch has_prefix after_byte has_byte in_set
path_arg c a =
    if windows_switch c a
    then []
    else if is_flag a && not (a == dash)
    then after_equals (after_byte b'=' a)
    else if has_byte b'=' a && in_set c.prog ("dd" ∷ "rsync" ∷ [])
    then after_equals (after_byte b'=' a)
    else a ∷ []

unfoldable pub collect_paths : Cmdline → List Text → List Text
unfolding path_arg
collect_paths c [] = []
collect_paths c (a ∷ args) = path_arg c a ++ collect_paths c args

abbrev pub without_first : List Text → List Text
without_first [] = []
without_first (p ∷ ps) = ps

-- For these the first such argument is a mode or an owner.
abbrev pub takes_mode : List String
takes_mode = "chmod" ∷ "chown" ∷ "chgrp" ∷ []

unfoldable pub path_args : Cmdline → List Text
unfolding collect_paths in_set
path_args c =
    let out = collect_paths c c.args in if in_set c.prog takes_mode then without_first out else out

unfoldable pub abs : Cmdline → Text → Option Text
abs c arg =
    if arg == [] || c.req.root == []
    then none
    else if is_abs arg
    then some (clean arg)
    else some (clean (join (c.req.root ∷ c.req.dir ∷ arg ∷ [])))

abbrev pub is_outside : Text → Option Text → Bool
is_outside root none = false
is_outside root (some a) = not (a == root) && not (has_prefix a (root ++ slash ∷ []))

unfoldable pub outside_workspace : Cmdline → Text → Bool
unfolding abs has_prefix
outside_workspace c arg = is_outside c.req.root (abs c arg)

abbrev pub is_root : Text → Option Text → Bool
is_root root none = false
is_root root (some a) = a == root

unfoldable pub is_workspace_root : Cmdline → Text → Bool
unfolding abs
is_workspace_root c arg = is_root c.req.root (abs c arg)

unfoldable pub contains_arg : List Text → List String → Bool
unfolding in_set
contains_arg args want = any (λ a. in_set a want) args

abbrev pub carries_file : Text → Bool
carries_file a = has_prefix a (codes "@") || contains a (codes "=@")

unfoldable pub uploads_a_file : Cmdline → Bool
unfolding has_short_opt has_long_opt has_prefix contains
uploads_a_file c =
    if c.prog == codes "curl" && (has_short_opt b'T' c || has_long_opt "upload-file" c)
    then true
    else if c.prog == codes "wget" && (has_long_opt "post-file" c || has_long_opt "body-file" c)
    then true
    else any carries_file c.args
