-- ===== src/Routes/Landing.antt =====
-- companion/internal/routerule/rule.go: where path.Join puts the file's name under a destination.
use mathlib.Core.List.{reverse-reverse, append-nil}
use mathlib.Core.Bool.{true≢false}
use fylane.Common.{
  ◌≡◌, refl, sym, ap, ◌∙◌, ◌≢◌, inl, inr, false, ◌||◌, not, List, [], ◌∷◌, ◌++◌, none, All,
  All-append, any, filter, Bool-cases, ◌==◌, ==→ne, ne→==, nat_eq, arith,
}
use fylane.Common.Text.{Text, text_beq, text_eq, has_prefix, split_on}
use fylane.Common.Paths.{slash, dot, dot_dot, is_abs, walk, push_word, join_words, clean, join}
use fylane.Common.Paths.Split.{NoSlash, split_on-append, split_on-NoSlash, split_on_word}
use fylane.Common.Paths.Walk.{IsPlain, walk_plain, walk-append}
use fylane.Common.Paths.Join.{join_two}
use fylane.Routes.Rules.{validate_dest}

-- The words that stay when a path is cleaned, where none is `..`.
abbrev pub kept : List Text → List Text
kept = filter (λ (w : Text). not (w == [] || w == dot))

abbrev IsNoDotDot : Text → Type 0
IsNoDotDot w = (w == dot_dot) ≡ false

walk-kept :
    (stack ws : List Text) → All IsNoDotDot ws → walk false stack ws ≡ walk false stack (kept ws)
unfolding walk push_word
walk-kept stack [] h = refl
walk-kept stack (w ∷ ws) (h, hs) = elim (Bool-cases (w == [])) [
  | inl e ↦ rw e (walk-kept stack ws hs)
  | inr e ↦ elim (Bool-cases (w == dot)) [
    | inl f ↦ rw (e, f) (walk-kept stack ws hs)
    | inr f ↦ rw (e, f, h) (rw (e, f) (walk-kept (w ∷ stack) ws hs))
  ]
]

pub kept-IsPlain : (ws : List Text) → All NoSlash ws → All IsNoDotDot ws → All IsPlain (kept ws)
kept-IsPlain [] n h = tt
kept-IsPlain (w ∷ ws) (n, ns) (h, hs) = elim (Bool-cases (w == [])) [
  | inl e ↦ rw e (kept-IsPlain ws ns hs)
  | inr e ↦ elim (Bool-cases (w == dot)) [
    | inl f ↦ rw (e, f) (kept-IsPlain ws ns hs)
    | inr f ↦
        rw (e, f)
          (
            record { some_byte = e; not_dot = f; not_dot_dot = h; no_slash = n },
            kept-IsPlain ws ns hs,
          )
  ]
]

join_words-some :
    (ws : List Text) (w : Text) → All IsPlain ws → IsPlain w → join_words (ws ++ w ∷ []) ≢ []
unfolding join_words text_beq
join_words-some [] w hs h e = ==→ne w h.some_byte e
join_words-some ([] ∷ ws) w (k, ks) h e = true≢false k.some_byte
join_words-some ((c ∷ v) ∷ []) w hs h e = cc
join_words-some ((c ∷ v) ∷ u ∷ ws) w hs h e = cc

clean_relative :
    (s : Text) (ws : List Text) (w : Text)
    → is_abs s ≡ false
    → All IsPlain ws
    → IsPlain w
    → walk false [] (split_on slash s) ≡ walk false [] (ws ++ w ∷ [])
    → clean s ≡ join_words (ws ++ w ∷ [])
unfolding clean
clean_relative s ws w a hs h e =
    let there : join_words (ws ++ w ∷ []) ≢ [] = join_words-some ws w hs h in
    rw (a, e, walk_plain false [] (ws ++ w ∷ []) (All-append IsPlain ws (w ∷ []) hs (h, tt)))
      (rw (append-nil, reverse-reverse, ne→== (join_words (ws ++ w ∷ [])) [] there) refl)

-- What the check of a destination promises.
pub record IsDest (dest : Text) : Type 0 where
  pub there : dest ≢ []
  pub relative : is_abs dest ≡ false
  pub no_dot_dot : All IsNoDotDot (split_on slash dest)

any-All : (ws : List Text) → any (λ seg. seg == dot_dot) ws ≡ false → All IsNoDotDot ws
any-All [] h = tt
any-All (w ∷ ws) h = (ground arith, any-All ws (ground arith))

pub validate_dest-IsDest : (dest : Text) → validate_dest dest ≡ none → IsDest dest
unfolding validate_dest is_abs
validate_dest-IsDest dest h = record {
  there = ==→ne dest (ground arith);
  relative = ground arith;
  no_dot_dot = any-All (split_on slash dest) (ground arith);
}

is_abs-append : (dest s : Text) → dest ≢ [] → is_abs (dest ++ s) ≡ is_abs dest
unfolding is_abs has_prefix
is_abs-append [] s n = absurd (n refl)
is_abs-append (c ∷ dest) s n = refl

-- The words of the directory, then the name.
pub join-kept :
    (dest name : Text)
    → IsDest dest
    → IsPlain name
    → (join (dest ∷ name ∷ []) ≡ join_words (kept (split_on slash dest) ++ name ∷ []))
      × All IsPlain (kept (split_on slash dest) ++ name ∷ [])
join-kept dest name d h =
    let ws = split_on slash dest in
    let plain : All IsPlain (kept ws) = kept-IsPlain ws (split_on-NoSlash dest) d.no_dot_dot in
    let same : walk false [] (ws ++ name ∷ []) ≡ walk false [] (kept ws ++ name ∷ []) =
      walk-append false [] ws (name ∷ [])
      ∙ ap (λ (stack : List Text). walk false stack (name ∷ [])) (walk-kept [] ws d.no_dot_dot)
      ∙ sym (walk-append false [] (kept ws) (name ∷ [])) in
    (
      join_two dest name d.there (==→ne name h.some_byte)
          ∙ clean_relative (dest ++ slash ∷ name) (kept ws) name
              (is_abs-append dest (slash ∷ name) d.there ∙ d.relative) plain h
              (rw (split_on-append dest name, split_on_word name h.no_slash) same),
      All-append IsPlain (kept ws) (name ∷ []) plain (h, tt),
    )
