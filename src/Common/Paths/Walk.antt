-- ===== src/Common/Paths/Walk.antt =====
-- The stack of Clean over plain words.
use mathlib.Core.Path.{◌≡◌, refl, sym, ap, ◌∙◌}
use mathlib.Core.Logic.{inl, inr}
use mathlib.Core.Bool.{Bool, true, false}
use mathlib.Core.List.{
  List, [], ◌∷◌, ◌++◌, reverse, reverse-cons, append_assoc, append-nil, reverse-reverse,
}
use fylane.Common.Tests.{Bool-cases, ◌==◌}
use fylane.Common.Lists.{All, All-append}
use fylane.Common.Text.{Text, text_beq, text_eq, split_on, has_prefix}
use fylane.Common.Paths.{slash, dot, dot_dot, push_word, pop_word, walk, clean, is_abs, join_words}
use fylane.Common.Paths.Split.{NoSlash, split_on-join_words, split_on-NoSlash}

-- A word that stays when a path is cleaned.
pub record IsPlain (w : Text) : Type 0 where
  pub some_byte : (w == []) ≡ false
  pub not_dot : (w == dot) ≡ false
  pub not_dot_dot : (w == dot_dot) ≡ false
  pub no_slash : NoSlash w

pub walk-append :
    (rooted : Bool) (stack ws vs : List Text)
    → walk rooted stack (ws ++ vs) ≡ walk rooted (walk rooted stack ws) vs
unfolding walk
walk-append rooted stack [] vs = refl
walk-append rooted stack (w ∷ ws) vs = walk-append rooted (push_word rooted stack w) ws vs

push_word_plain :
    (rooted : Bool) (stack : List Text) (w : Text)
    → IsPlain w
    → push_word rooted stack w ≡ w ∷ stack
unfolding push_word
push_word_plain rooted stack w h = rw (h.some_byte, h.not_dot, h.not_dot_dot)

-- Plain words are pushed one by one.
pub walk_plain :
    (rooted : Bool) (stack ws : List Text)
    → All IsPlain ws
    → walk rooted stack ws ≡ reverse ws ++ stack
unfolding walk
walk_plain rooted stack [] h = refl
walk_plain rooted stack (w ∷ ws) (h, hs) = rw (push_word_plain rooted stack w h) (
    rw (reverse-cons w ws)
      (walk_plain rooted (w ∷ stack) ws hs ∙ sym (append_assoc (reverse ws) (w ∷ []) stack)))

pop_word-IsPlain : (stack : List Text) → All IsPlain stack → All IsPlain (pop_word true stack)
unfolding pop_word
pop_word-IsPlain [] h = tt
pop_word-IsPlain (w ∷ ws) (h, hs) = rw h.not_dot_dot hs

push_word-IsPlain :
    (stack : List Text) (w : Text)
    → NoSlash w
    → All IsPlain stack
    → All IsPlain (push_word true stack w)
unfolding push_word
push_word-IsPlain stack w n h = elim (Bool-cases (w == [])) [
  | inl e ↦ rw e h
  | inr e ↦ rw e (elim (Bool-cases (w == dot)) [
    | inl f ↦ rw f h
    | inr f ↦ rw f (elim (Bool-cases (w == dot_dot)) [
      | inl g ↦ rw g (pop_word-IsPlain stack h)
      | inr g ↦ rw g (record { some_byte = e; not_dot = f; not_dot_dot = g; no_slash = n }, h)
    ])
  ])
]

-- From the root, only plain words are ever on the stack.
pub walk-IsPlain :
    (stack ws : List Text) → All NoSlash ws → All IsPlain stack → All IsPlain (walk true stack ws)
unfolding walk
walk-IsPlain stack [] n h = h
walk-IsPlain stack (w ∷ ws) (n, ns) h =
    walk-IsPlain (push_word true stack w) ws ns (push_word-IsPlain stack w n h)

pub All-reverse {ℓ κ} : {A : Type ℓ} (P : A → Type κ) (xs : List A) → All P xs → All P (reverse xs)
All-reverse P [] h = h
All-reverse P (x ∷ xs) (h, hs) =
    rw (reverse-cons x xs) (All-append P (reverse xs) (x ∷ []) (All-reverse P xs hs) (h, tt))

-- A path from the root, as its words.
abbrev pub rooted_path : List Text → Text
rooted_path ws = slash ∷ join_words ws

-- The words of a path from the root, after it is cleaned.
abbrev pub landing : List Text → List Text
landing ws = reverse (walk true [] ws)

pub landing-IsPlain : (s : Text) → All IsPlain (landing (split_on slash s))
landing-IsPlain s =
    All-reverse IsPlain (walk true [] (split_on slash s))
      (walk-IsPlain [] (split_on slash s) (split_on-NoSlash s) tt)

pub is_abs-slash : (s : Text) → is_abs (slash ∷ s) ≡ true
unfolding is_abs has_prefix
is_abs-slash [] = refl
is_abs-slash (c ∷ s) = refl

pub clean_rooted : (s : Text) → clean (slash ∷ s) ≡ rooted_path (landing (split_on slash s))
unfolding clean push_word text_beq
clean_rooted s = rw (is_abs-slash s)

landing_plain : (ws : List Text) → All IsPlain ws → landing ws ≡ ws
landing_plain ws h = rw (walk_plain true [] ws h) (rw append-nil (reverse-reverse ws))

pub All-NoSlash : (ws : List Text) → All IsPlain ws → All NoSlash ws
All-NoSlash [] h = tt
All-NoSlash (w ∷ ws) (h, hs) = (h.no_slash, All-NoSlash ws hs)

-- A path of plain words from the root is clean already.
pub clean-rooted_path : (ws : List Text) → All IsPlain ws → clean (rooted_path ws) ≡ rooted_path ws
unfolding join_words walk split_on text_beq
clean-rooted_path [] h = clean_rooted [] ∙ refl
clean-rooted_path (w ∷ ws) h =
    clean_rooted (join_words (w ∷ ws))
    ∙ rw (split_on-join_words (w ∷ ws) (λ e. cc) (All-NoSlash (w ∷ ws) h))
        (ap rooted_path (landing_plain (w ∷ ws) h))
