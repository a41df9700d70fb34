-- ===== src/Sandbox/Names.antt =====
-- companion/internal/sandbox/sandbox.go: the check of one component of a path.
use mathlib.Core.List.{reverse}
use fylane.Common.{
  ℕ, Bool, true, false, ◌&&◌, ◌||◌, not, Option, none, some, List, [], ◌∷◌, map, ◌-◌, if◌then◌else◌,
  any, length, ltb, leb, ◌==◌, nat_eq, get_elem?,
}
use fylane.Common.Text.{Text, codes, text_eq, has_prefix, has_suffix, split_on}
use fylane.Common.Utf8.{valid_utf8, runes}

-- The tables of package unicode.
pub record Alphabets : Type 0 where
  pub is_letter : ℕ → Bool
  pub latin : ℕ → Bool
  pub cyrillic : ℕ → Bool
  pub greek : ℕ → Bool

pub data PathError : Type 0 where
  empty_path absolute_path path_traversal invalid_char workspace_root path_too_long : PathError
  reserved_name symlink special_file confusable_name protected_path not_directory : PathError
  inspecting_path resolving_path : PathError

pub data Script : Type 0 where
  latin cyrillic greek : Script

abbrev same_script : Script → Script → Bool
same_script latin latin = true
same_script cyrillic cyrillic = true
same_script greek greek = true
same_script _ _ = false

abbrev script_of : Alphabets → ℕ → Option Script
script_of a r =
    if not (a.is_letter r)
    then none
    else if a.latin r
    then some latin
    else if a.cyrillic r
    then some cyrillic
    else if a.greek r
    then some greek
    else none

abbrev joins : Option Script → Option Script → Option Script × Bool
joins first none = (first, false)
joins none (some t) = (some t, false)
joins (some s) (some t) = (some s, not (same_script s t))

unfoldable pub mixed_from : Alphabets → Option Script → List ℕ → Bool
mixed_from a first [] = false
mixed_from a first (r ∷ rs) =
    let (first', mixed) = joins first (script_of a r) in mixed || mixed_from a first' rs

unfoldable pub mixed_scripts : Alphabets → Text → Bool
unfolding mixed_from runes
mixed_scripts a s = mixed_from a none (runes s)

unfoldable pub is_deceptive_rune : ℕ → Bool
is_deceptive_rune r =
    any (λ d. r == d) (173 ∷ 8203 ∷ 8204 ∷ 8205 ∷ 8206 ∷ 8207 ∷ 8232 ∷ 8233 ∷ 65279 ∷ [])
    || leb 8234 r && leb r 8238
    || leb 8294 r && leb r 8297

abbrev upper_byte : ℕ → ℕ
upper_byte c = if leb b'a' c && leb c b'z' then c - 32 else c

-- What stands before the first dot.
abbrev before_dot : Text → Text
before_dot [] = []
before_dot (c ∷ s) = let rest = before_dot s in if c == b'.' then [] else c ∷ rest

abbrev trim_blanks : Text → Text
trim_blanks [] = []
trim_blanks (c ∷ s) = let rest = trim_blanks s in if c == b' ' then rest else c ∷ s

abbrev is_digit_1_9 : Option ℕ → Bool
is_digit_1_9 none = false
is_digit_1_9 (some c) = leb b'1' c && leb c b'9'

unfoldable pub is_reserved_name : Text → Bool
unfolding has_prefix
is_reserved_name comp =
    let stem = map upper_byte (reverse (trim_blanks (reverse (before_dot comp)))) in
    if any (λ w. stem == w) (codes "CON" ∷ codes "PRN" ∷ codes "AUX" ∷ codes "NUL" ∷ [])
    then true
    else if length stem == 4 && (has_prefix stem (codes "COM") || has_prefix stem (codes "LPT"))
    then is_digit_1_9 (get_elem? stem 3)
    else false

unfoldable pub check_runes : List ℕ → Option PathError
unfolding is_deceptive_rune
check_runes [] = none
check_runes (r ∷ rs) =
    let rest = check_runes rs in
    if ltb r 32 || r == 127 || is_deceptive_rune r then some invalid_char else rest

abbrev pub or_next : Option PathError → Option PathError → Option PathError
or_next (some e) next = some e
or_next none next = next

unfoldable pub validate_component : Alphabets → Text → Option PathError
unfolding valid_utf8 has_suffix runes check_runes is_reserved_name mixed_scripts split_on
validate_component a comp =
    if not (valid_utf8 comp)
    then some invalid_char
    else if has_suffix comp (codes ".") || has_suffix comp (codes " ")
    then some invalid_char
    else or_next (check_runes (runes comp)) (
        if is_reserved_name comp
        then some reserved_name
        else if any (mixed_scripts a) (split_on b'.' comp)
        then some confusable_name
        else none)

unfoldable pub validate_components : Alphabets → List Text → Option PathError
unfolding validate_component
validate_components a [] = none
validate_components a (w ∷ ws) = or_next (validate_component a w) (validate_components a ws)
