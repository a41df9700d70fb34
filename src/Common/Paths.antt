-- ===== src/Common/Paths.antt =====
-- The functions of packages path and path/filepath that the program calls, as on Unix.
pub mod Split
pub mod Walk
pub mod Join
use Prim.Native.Nat.{ℕ}
use mathlib.Core.Bool.{Bool}
use mathlib.Core.List.{List, [], ◌∷◌, ◌++◌, reverse}
use fylane.Common.Tests.{if◌then◌else◌, ◌==◌}
use fylane.Common.Text.{Text, text_eq, has_prefix, split_on}

abbrev pub slash : ℕ
slash = b'/'

abbrev pub dot : Text
dot = b'.' ∷ []

abbrev pub dot_dot : Text
dot_dot = b'.' ∷ b'.' ∷ []

unfoldable pub last_word : Text → List Text → Text
last_word found [] = found
last_word found (w ∷ ws) = last_word (if w == [] then found else w) ws

-- path.Base: the last element, with no slashes behind it.
unfoldable pub base : Text → Text
unfolding last_word split_on
base s = if s == [] then dot else last_word (slash ∷ []) (split_on slash s)

-- The stack of Clean, last element first: an empty element or a dot is dropped, and `..` takes
-- the last element away where there is one that is not itself a `..`.
unfoldable pub pop_word : Bool → List Text → List Text
pop_word rooted [] = if rooted then [] else dot_dot ∷ []
pop_word rooted (w ∷ ws) = if w == dot_dot then dot_dot ∷ w ∷ ws else ws

unfoldable pub push_word : Bool → List Text → Text → List Text
unfolding pop_word
push_word rooted stack w =
    if w == []
    then stack
    else if w == dot
    then stack
    else if w == dot_dot
    then pop_word rooted stack
    else w ∷ stack

unfoldable pub walk : Bool → List Text → List Text → List Text
unfolding push_word
walk rooted stack [] = stack
walk rooted stack (w ∷ ws) = walk rooted (push_word rooted stack w) ws

-- strings.Join(ws, "/")
unfoldable pub join_words : List Text → Text
join_words [] = []
join_words (w ∷ []) = w
join_words (w ∷ v ∷ ws) = w ++ slash ∷ join_words (v ∷ ws)

-- filepath.IsAbs
unfoldable pub is_abs : Text → Bool
unfolding has_prefix
is_abs s = has_prefix s (slash ∷ [])

-- filepath.Clean
unfoldable pub clean : Text → Text
unfolding walk is_abs join_words split_on
clean s =
    let rooted = is_abs s in
    let words = join_words (reverse (walk rooted [] (split_on slash s))) in
    if rooted then slash ∷ words else if words == [] then dot else words

-- filepath.Join: the elements that are not empty, joined and cleaned.
unfoldable pub non_empty : List Text → List Text
non_empty [] = []
non_empty (w ∷ ws) = let rest = non_empty ws in if w == [] then rest else w ∷ rest

unfoldable pub join : List Text → Text
unfolding non_empty join_words clean
join ws = let joined = join_words (non_empty ws) in if joined == [] then [] else clean joined
