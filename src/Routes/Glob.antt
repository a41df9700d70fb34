-- ===== src/Routes/Glob.antt =====
-- path.Match of the standard library, on a name of one word in ASCII: a pattern is read byte by byte
-- into tokens, and a pattern that ends inside a class or an escape is malformed. A question mark and
-- a class take one byte, where Go takes one character.
use fylane.Common.{
  ℕ, Bool, true, false, ◌&&◌, ◌||◌, not, Option, none, some, List, [], ◌∷◌, if◌then◌else◌, leb, any,
  ◌==◌, nat_eq,
}
use mathlib.Core.List.{reverse}
use fylane.Common.Text.{Text}
use fylane.Common.Paths.{slash}

pub data Token : Type 0 where
  star : Token
  one_byte : Token
  literal : ℕ → Token
  class : Bool → List (ℕ × ℕ) → Token

-- Where the reading stands: outside of a class, behind a backslash, behind `[`, and in a class
-- with its ranges so far, newest first: before a range, behind its first byte, behind its dash.
pub data ReadMode : Type 0 where
  outside : ReadMode
  escaped : ReadMode
  opened : ReadMode
  ranges : Bool → List (ℕ × ℕ) → ReadMode
  low_escaped : Bool → List (ℕ × ℕ) → ReadMode
  low : Bool → List (ℕ × ℕ) → ℕ → ReadMode
  dashed : Bool → List (ℕ × ℕ) → ℕ → ReadMode
  high_escaped : Bool → List (ℕ × ℕ) → ℕ → ReadMode

abbrev pub Scan : Type 0
Scan = ReadMode × List Token

abbrev is_empty : List (ℕ × ℕ) → Bool
is_empty [] = true
is_empty (r ∷ rs) = false

-- A byte where a range or the end of the class is due.
unfoldable pub next_range : Bool → List (ℕ × ℕ) → List Token → ℕ → Option Scan
next_range negated rs tokens c =
    if c == b']'
    then if is_empty rs then none else some (outside, class negated rs ∷ tokens)
    else if c == b'-'
    then none
    else if c == 92
    then some (low_escaped negated rs, tokens)
    else some (low negated rs c, tokens)

unfoldable pub read_byte : Scan → ℕ → Option Scan
unfolding next_range
read_byte (outside, tokens) c =
    if c == b'*'
    then some (outside, star ∷ tokens)
    else if c == b'?'
    then some (outside, one_byte ∷ tokens)
    else if c == b'['
    then some (opened, tokens)
    else if c == 92
    then some (escaped, tokens)
    else some (outside, literal c ∷ tokens)
read_byte (escaped, tokens) c = some (outside, literal c ∷ tokens)
read_byte (opened, tokens) c =
    if c == b'^' then some (ranges true [], tokens) else next_range false [] tokens c
read_byte (ranges negated rs, tokens) c = next_range negated rs tokens c
read_byte (low_escaped negated rs, tokens) c = some (low negated rs c, tokens)
read_byte (low negated rs lo, tokens) c =
    if c == b'-'
    then some (dashed negated rs lo, tokens)
    else next_range negated ((lo, lo) ∷ rs) tokens c
read_byte (dashed negated rs lo, tokens) c =
    if c == b'-' || c == b']'
    then none
    else if c == 92
    then some (high_escaped negated rs lo, tokens)
    else some (ranges negated ((lo, c) ∷ rs), tokens)
read_byte (high_escaped negated rs lo, tokens) c = some (ranges negated ((lo, c) ∷ rs), tokens)

-- The tokens, if the pattern ends outside of a class and of an escape.
abbrev read_end : Scan → Option (List Token)
read_end (outside, tokens) = some (reverse tokens)
read_end (_, tokens) = none

unfoldable pub read_pattern : Option Scan → Text → Option (List Token)
unfolding read_byte
read_pattern none p = none
read_pattern (some scan) [] = read_end scan
read_pattern (some scan) (c ∷ p) = read_pattern (read_byte scan c) p

abbrev pub in_class : Bool → List (ℕ × ℕ) → ℕ → Bool
in_class negated rs c =
    let there = any (λ r. leb r.0 c && leb c r.1) rs in if negated then not there else there

-- A star takes any bytes but slashes.
unfoldable pub skip : (Text → Bool) → Text → Bool
skip rest [] = rest []
skip rest (c ∷ s) = rest (c ∷ s) || not (c == slash) && skip rest s

unfoldable pub match_tokens : List Token → Text → Bool
unfolding skip
match_tokens [] [] = true
match_tokens [] (c ∷ s) = false
match_tokens (star ∷ ts) s = skip (match_tokens ts) s
match_tokens (one_byte ∷ ts) [] = false
match_tokens (one_byte ∷ ts) (c ∷ s) = not (c == slash) && match_tokens ts s
match_tokens (literal d ∷ ts) [] = false
match_tokens (literal d ∷ ts) (c ∷ s) = c == d && match_tokens ts s
match_tokens (class negated rs ∷ ts) [] = false
match_tokens (class negated rs ∷ ts) (c ∷ s) = in_class negated rs c && match_tokens ts s

abbrev on_tokens : Option (List Token) → Text → Option Bool
on_tokens none s = none
on_tokens (some ts) s = some (match_tokens ts s)

-- path.Match(p, s); none for a malformed pattern.
unfoldable pub glob : Text → Text → Option Bool
unfolding read_pattern match_tokens
glob p s = on_tokens (read_pattern (some (outside, [])) p) s
