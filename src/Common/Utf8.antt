-- ===== src/Common/Utf8.antt =====
-- Package unicode/utf8 of the standard library: valid texts, and the characters of a text.
use fylane.Common.Tests.{if◌then◌else◌, ltb, leb, ◌==◌, nat_eq}
use Prim.Native.Nat.{ℕ, zero, suc, ◌+◌, ◌*◌, ◌%◌}
use mathlib.Core.Bool.{Bool, true, false, ◌&&◌}
use mathlib.Core.List.{List, [], ◌∷◌}
use fylane.Common.Text.{Text}

-- The first byte of a character: whether it can be one, how many bytes follow, and the bounds of
-- the next of them.
abbrev lead : ℕ → Bool × ℕ × ℕ × ℕ
lead c =
    if ltb c 128
    then (true, 0, 128, 191)
    else if ltb c 194
    then (false, 0, 128, 191)
    else if ltb c 224
    then (true, 1, 128, 191)
    else if c == 224
    then (true, 2, 160, 191)
    else if c == 237
    then (true, 2, 128, 159)
    else if ltb c 240
    then (true, 2, 128, 191)
    else if c == 240
    then (true, 3, 144, 191)
    else if ltb c 244
    then (true, 3, 128, 191)
    else if c == 244
    then (true, 3, 128, 143)
    else (false, 0, 128, 191)

-- utf8.Valid: `n` more bytes are due, the next one between `lo` and `hi`.
unfoldable pub valid_from : ℕ → ℕ → ℕ → Text → Bool
valid_from zero lo hi [] = true
valid_from (suc n) lo hi [] = false
valid_from zero lo hi (c ∷ s) = let (good, n, low, high) = lead c in good && valid_from n low high s
valid_from (suc n) lo hi (c ∷ s) = leb lo c && leb c hi && valid_from n 128 191 s

unfoldable pub valid_utf8 : Text → Bool
unfolding valid_from
valid_utf8 = valid_from 0 128 191

-- What the first byte says of the character.
abbrev lead_bits : ℕ → ℕ
lead_bits c =
    if ltb c 128 then c else if ltb c 224 then c % 32 else if ltb c 240 then c % 16 else c % 8

abbrev add_bits : ℕ → ℕ → ℕ
add_bits sofar c = sofar * 64 + c % 64

-- The characters of a valid text: `n` more bytes of one are due, which reads `sofar`.
unfoldable pub runes_from : ℕ → ℕ → Text → List ℕ
runes_from n sofar [] = []
runes_from (suc (suc n)) sofar (c ∷ s) = runes_from (suc n) (add_bits sofar c) s
runes_from (suc zero) sofar (c ∷ s) = add_bits sofar c ∷ runes_from 0 0 s
runes_from zero sofar (c ∷ s) =
    let (good, n, low, high) = lead c in
    let rest = runes_from n (lead_bits c) s in if n == 0 then c ∷ rest else rest

unfoldable pub runes : Text → List ℕ
unfolding runes_from
runes s = runes_from 0 0 s
