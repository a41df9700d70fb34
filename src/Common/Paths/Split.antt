-- ===== src/Common/Paths/Split.antt =====
-- Splitting at slashes and joining again.
use mathlib.Core.List.{append_assoc}
use fylane.Common.Tests.{nat_beq, nat_beq_iff, Bool-cases, and_true}
use fylane.Common.Lists.{All}
use Prim.Native.Nat.{ℕ}
use mathlib.Core.Path.{◌≡◌, refl, sym, ap, ap₂, ◌∙◌}
use mathlib.Core.Logic.{◌≢◌, inl, inr}
use mathlib.Core.Bool.{true, false, false≢true}
use mathlib.Core.List.{List, [], ◌∷◌, ◌++◌}
use native.Mathlib.Omega.{arith}
use fylane.Common.Text.{Text, has_byte, has_prefix, split_on, cons_head}
use fylane.Common.Paths.{slash, join_words}

-- The words of a path hold no slash.
abbrev pub NoSlash : Text → Type 0
NoSlash w = has_byte slash w ≡ false

split_on-cons : (s : Text) → split_on slash s ≢ []
unfolding split_on
split_on-cons [] e = cc
split_on-cons (c ∷ s) e = ground (arith, split_on-cons s)

cons_head-append :
    (c : ℕ) (ws vs : List Text) → ws ≢ [] → cons_head c (ws ++ vs) ≡ cons_head c ws ++ vs
cons_head-append c [] vs h = absurd (h refl)
cons_head-append c (w ∷ ws) vs h = refl

-- A path splits at each slash.
pub split_on-append :
    (a b : Text) → split_on slash (a ++ slash ∷ b) ≡ split_on slash a ++ split_on slash b
unfolding split_on
split_on-append [] b = refl
split_on-append (c ∷ a) b = elim (Bool-cases (nat_beq c slash)) [
  | inl e ↦ rw e (ap (◌∷◌ []) (split_on-append a b))
  | inr e ↦ rw e (
      ap (cons_head c) (split_on-append a b)
      ∙ cons_head-append c (split_on slash a) (split_on slash b) (split_on-cons a))
]

cons_head-NoSlash :
    (c : ℕ) (ws : List Text)
    → nat_beq c slash ≡ false
    → All NoSlash ws
    → All NoSlash (cons_head c ws)
unfolding has_byte
cons_head-NoSlash c [] h hs = (rw h, tt)
cons_head-NoSlash c (w ∷ ws) h (k, ks) = (rw (h, k), ks)

pub split_on-NoSlash : (s : Text) → All NoSlash (split_on slash s)
unfolding split_on has_byte
split_on-NoSlash [] = (refl, tt)
split_on-NoSlash (c ∷ s) = elim (Bool-cases (nat_beq c slash)) [
  | inl e ↦ rw e (refl, split_on-NoSlash s)
  | inr e ↦ rw e (cons_head-NoSlash c (split_on slash s) e (split_on-NoSlash s))
]

pub split_on_word : (w : Text) → NoSlash w → split_on slash w ≡ w ∷ []
unfolding split_on has_byte
split_on_word [] h = refl
split_on_word (c ∷ w) h = ground (arith, split_on_word w)

-- Words without slashes come back from the path that they make.
pub split_on-join_words :
    (ws : List Text) → ws ≢ [] → All NoSlash ws → split_on slash (join_words ws) ≡ ws
unfolding join_words
split_on-join_words [] h k = absurd (h refl)
split_on-join_words (w ∷ []) h (k, _) = split_on_word w k
split_on-join_words (w ∷ v ∷ ws) h (k, ks) =
    split_on-append w (join_words (v ∷ ws))
    ∙ (rw (split_on_word w k) (ap (◌∷◌ w) (split_on-join_words (v ∷ ws) (λ e. cc) ks)))

pub join_words-append :
    (ws vs : List Text)
    → ws ≢ []
    → vs ≢ []
    → join_words (ws ++ vs) ≡ join_words ws ++ slash ∷ join_words vs
unfolding join_words
join_words-append [] vs h k = absurd (h refl)
join_words-append (w ∷ []) [] h k = absurd (k refl)
join_words-append (w ∷ []) (v ∷ vs) h k = refl
join_words-append (w ∷ u ∷ ws) vs h k =
    ap (λ (t : Text). w ++ slash ∷ t) (join_words-append (u ∷ ws) vs (λ e. cc) k)
    ∙ sym (append_assoc w (slash ∷ join_words (u ∷ ws)) (slash ∷ join_words vs))

pub has_prefix→ : (s p : Text) → has_prefix s p ≡ true → (t : Text) × (s ≡ p ++ t)
unfolding has_prefix
has_prefix→ s [] h = (s, refl)
has_prefix→ [] (d ∷ p) h = absurd (false≢true h)
has_prefix→ (c ∷ s) (d ∷ p) h =
    let (same, rest) = and_true (nat_beq c d) (has_prefix s p) h in
    let (t, e) = has_prefix→ s p rest in (t, ap₂ ◌∷◌ ((nat_beq_iff c d).0 same) e)
