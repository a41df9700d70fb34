-- ===== src/Sandbox/Clean.antt =====
-- companion/internal/sandbox/sandbox.go: CleanPath.
use fylane.Common.{
  ℕ, Bool, false, ◌&&◌, ◌||◌, Option, none, some, [], ◌∷◌, ◌++◌, if◌then◌else◌, length, ltb, leb,
  ◌==◌, nat_eq,
}
use fylane.Common.Text.{Text, text_eq, has_byte, has_prefix, split_on, replace_byte}
use fylane.Common.Paths.{slash, dot, dot_dot, clean}
use fylane.Sandbox.Names.{
  Alphabets, PathError, empty_path, absolute_path, path_traversal, invalid_char, workspace_root,
  path_too_long, validate_components,
}

abbrev pub max_path_len : ℕ
max_path_len = 1024

pub data Checked {ℓ} (A : Type ℓ) : Type ℓ where
  accepted : A → Checked A
  refused : PathError → Checked A

abbrev pub is_windows_drive_path : Text → Bool
is_windows_drive_path (c ∷ d ∷ s) =
    d == b':' && (leb b'a' c && leb c b'z' || leb b'A' c && leb c b'Z')
is_windows_drive_path _ = false

abbrev pub unless : Option PathError → Text → Checked Text
unless none s = accepted s
unless (some e) s = refused e

unfoldable pub check_cleaned : Alphabets → Text → Checked Text
unfolding has_prefix split_on validate_components
check_cleaned a cleaned =
    if cleaned == dot
    then refused workspace_root
    else if cleaned == dot_dot || has_prefix cleaned (dot_dot ++ slash ∷ [])
    then refused path_traversal
    else unless (validate_components a (split_on slash cleaned)) cleaned

unfoldable pub clean_path : Alphabets → Text → Checked Text
unfolding has_byte replace_byte has_prefix clean check_cleaned
clean_path a p =
    if p == []
    then refused empty_path
    else if ltb max_path_len (length p)
    then refused path_too_long
    else if has_byte 0 p
    then refused invalid_char
    else let slashed = replace_byte 92 slash p in
      if has_prefix slashed (slash ∷ [])
      then refused absolute_path
      else if is_windows_drive_path slashed
      then refused absolute_path
      else if has_byte b':' slashed
      then refused invalid_char
      else check_cleaned a (clean slashed)
