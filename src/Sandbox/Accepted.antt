-- ===== src/Sandbox/Accepted.antt =====
-- companion/internal/sandbox/sandbox.go: what an accepted path is made of.
use mathlib.Core.Bool.{true≢false}
use mathlib.Core.List.{reverse}
use fylane.Common.{
  ◌≡◌, refl, ap, ◌∙◌, subst, ◌≢◌, inl, inr, false, ◌||◌, Option, none, some, List, [], ◌∷◌, ◌++◌,
  if_cases, All, length, ltb, Bool-cases, ◌==◌, ==→ne, ne→==, nat_eq,
}
use fylane.Common.Text.{
  Text, codes, text_eq, text_beq, has_byte, has_prefix, has_suffix, split_on, replace_byte,
}
use fylane.Common.Utf8.{valid_utf8}
use fylane.Common.Paths.{slash, dot, dot_dot, is_abs, walk, push_word, pop_word, join_words, clean}
use fylane.Common.Paths.Split.{NoSlash, split_on-NoSlash, split_on-join_words}
use fylane.Common.Paths.Walk.{IsPlain, All-reverse}
use fylane.Sandbox.Names.{
  Alphabets, PathError, validate_component, validate_components, or_next, workspace_root,
  path_traversal, empty_path, path_too_long, invalid_char, absolute_path,
}
use fylane.Sandbox.Clean.{
  Checked, accepted, refused, clean_path, check_cleaned, unless, max_path_len,
  is_windows_drive_path,
}

-- A word with something in it.
record IsWord (w : Text) : Type 0 where
  some_byte : (w == []) ≡ false
  no_slash : NoSlash w

pop_word-IsWord : (stack : List Text) → All IsWord stack → All IsWord (pop_word false stack)
unfolding pop_word text_beq has_byte
pop_word-IsWord [] h = (record { some_byte = refl; no_slash = refl }, tt)
pop_word-IsWord (w ∷ ws) (h, hs) = elim (Bool-cases (w == dot_dot)) [
  | inl e ↦ rw e (record { some_byte = refl; no_slash = refl }, (h, hs))
  | inr e ↦ rw e hs
]

push_word-IsWord :
    (stack : List Text) (w : Text)
    → NoSlash w
    → All IsWord stack
    → All IsWord (push_word false stack w)
unfolding push_word
push_word-IsWord stack w n h = elim (Bool-cases (w == [])) [
  | inl e ↦ rw e h
  | inr e ↦ rw e (elim (Bool-cases (w == dot)) [
    | inl f ↦ rw f h
    | inr f ↦ rw f (elim (Bool-cases (w == dot_dot)) [
      | inl g ↦ rw g (pop_word-IsWord stack h)
      | inr g ↦ rw g (record { some_byte = e; no_slash = n }, h)
    ])
  ])
]

walk-IsWord :
    (stack ws : List Text) → All NoSlash ws → All IsWord stack → All IsWord (walk false stack ws)
unfolding walk
walk-IsWord stack [] n h = h
walk-IsWord stack (w ∷ ws) (n, ns) h =
    walk-IsWord (push_word false stack w) ws ns (push_word-IsWord stack w n h)

-- The words of a relative path, after it is cleaned.
abbrev pub relative_words : Text → List Text
relative_words s = reverse (walk false [] (split_on slash s))

relative_words-IsWord : (s : Text) → All IsWord (relative_words s)
relative_words-IsWord s =
    All-reverse IsWord (walk false [] (split_on slash s))
      (walk-IsWord [] (split_on slash s) (split_on-NoSlash s) tt)

All-NoSlash_words : (ws : List Text) → All IsWord ws → All NoSlash ws
All-NoSlash_words [] h = tt
All-NoSlash_words (w ∷ ws) (h, hs) = (h.no_slash, All-NoSlash_words ws hs)

no_dots :
    (w : Text) → has_suffix w (codes ".") ≡ false → ((w == dot) ≡ false) × ((w == dot_dot) ≡ false)
unfolding has_suffix has_prefix
no_dots w h =
    (ne→== w dot (λ e. true≢false (rw e at h)), ne→== w dot_dot (λ e. true≢false (rw e at h)))

-- A component that is accepted does not end with a dot.
no_dot_suffix :
    (a : Alphabets) (w : Text) → validate_component a w ≡ none → has_suffix w (codes ".") ≡ false
unfolding validate_component
no_dot_suffix a w v = elim (Bool-cases (has_suffix w (codes "."))) [
  | inr h ↦ h
  | inl h ↦ elim (Bool-cases (valid_utf8 w)) [
    | inl u ↦ absurd (let bad = rw (u, h) at v in cc)
    | inr u ↦ absurd (let bad = rw u at v in cc)
  ]
]

or_next-none : (o p : Option PathError) → or_next o p ≡ none → (o ≡ none) × (p ≡ none)
or_next-none none p h = (refl, h)
or_next-none (some e) p h = absurd (let bad = h in cc)

validate_components-IsPlain :
    (a : Alphabets) (ws : List Text)
    → All IsWord ws
    → validate_components a ws ≡ none
    → All IsPlain ws
unfolding validate_components
validate_components-IsPlain a [] h v = tt
validate_components-IsPlain a (w ∷ ws) (h, hs) v =
    let (here, there) = or_next-none (validate_component a w) (validate_components a ws) v in
    let (d, dd) = no_dots w (no_dot_suffix a w here) in
    (
      record { some_byte = h.some_byte; not_dot = d; not_dot_dot = dd; no_slash = h.no_slash },
      validate_components-IsPlain a ws hs there,
    )

-- What an accepted path promises: its words are those of the request with each `..` resolved, with
-- backslashes read as slashes; each is plain, and the check of the components finds nothing.
pub record IsAccepted (a : Alphabets) (p s : Text) : Type 0 where
  pub words : List Text
  pub there : words ≢ []
  pub named : words ≡ relative_words (replace_byte 92 slash p)
  pub path : s ≡ join_words words
  pub plain : All IsPlain words
  pub valid : validate_components a words ≡ none

clean_relative :
    (s : Text)
    → is_abs s ≡ false
    → (clean s == dot) ≡ false
    → (relative_words s ≢ []) × (clean s ≡ join_words (relative_words s))
unfolding clean join_words text_beq
clean_relative s a h = elim (Bool-cases (join_words (relative_words s) == [])) [
  | inl e ↦ absurd (true≢false (rw (a, e) at h))
  | inr e ↦ (λ q. ==→ne (join_words (relative_words s)) e (ap join_words q), rw (a, e) refl)
]

-- A promise about an outcome that is accepted.
abbrev pub IfAccepted {ℓ} : {A : Type ℓ} → (A → Type 0) → Checked A → Type 0
IfAccepted P (accepted s) = P s
IfAccepted P (refused e) = Unit

unless-IfAccepted :
    (P : Text → Type 0) (o : Option PathError) (s : Text)
    → (o ≡ none → P s)
    → IfAccepted P (unless o s)
unless-IfAccepted P none s h = h refl
unless-IfAccepted P (some e) s h = tt

checked_words :
    (a : Alphabets) (p : Text)
    → let slashed = replace_byte 92 slash p in
      is_abs slashed ≡ false
      → (clean slashed == dot) ≡ false
      → validate_components a (split_on slash (clean slashed)) ≡ none
      → IsAccepted a p (clean slashed)
checked_words a p h e v =
    let slashed = replace_byte 92 slash p in
    let ws = relative_words slashed in
    let (some_word, path) = clean_relative slashed h e in
    let words = relative_words-IsWord slashed in
    let split : split_on slash (clean slashed) ≡ ws =
      ap (split_on slash) path ∙ split_on-join_words ws some_word (All-NoSlash_words ws words) in
    let valid : validate_components a ws ≡ none = rw split at v in
    record {
      words = ws;
      there = some_word;
      named = refl;
      path = path;
      plain = validate_components-IsPlain a ws words valid;
      valid = valid;
    }

check_cleaned-IsAccepted :
    (a : Alphabets) (p : Text)
    → is_abs (replace_byte 92 slash p) ≡ false
    → IfAccepted (IsAccepted a p) (check_cleaned a (clean (replace_byte 92 slash p)))
unfolding check_cleaned
check_cleaned-IsAccepted a p h =
    let cleaned = clean (replace_byte 92 slash p) in
    let P = IfAccepted (IsAccepted a p) in
    if_cases P (cleaned == dot) (refused workspace_root) _ (λ e. tt)
      (λ e.
        if_cases P (cleaned == dot_dot || has_prefix cleaned (dot_dot ++ slash ∷ []))
          (refused path_traversal) _ (λ f. tt)
          (λ f.
            unless-IfAccepted (IsAccepted a p) (validate_components a (split_on slash cleaned))
              cleaned (checked_words a p h e)))

-- A path is accepted only as its words with each `..` resolved, none of them outside of the
-- workspace: at least one word, each plain and passed by the check of the components.
pub clean_path-IsAccepted :
    (a : Alphabets) (p s : Text) → clean_path a p ≡ accepted s → IsAccepted a p s
unfolding clean_path is_abs
clean_path-IsAccepted a p s h = subst (IfAccepted (IsAccepted a p)) h always
  where
    always : IfAccepted (IsAccepted a p) (clean_path a p)
    always =
        let P = IfAccepted (IsAccepted a p) in
        let slashed = replace_byte 92 slash p in
        if_cases P (p == []) (refused empty_path) _ (λ e. tt)
          (λ e.
            if_cases P (ltb max_path_len (length p)) (refused path_too_long) _ (λ e. tt)
              (λ e.
                if_cases P (has_byte 0 p) (refused invalid_char) _ (λ e. tt)
                  (λ e.
                    if_cases P (has_prefix slashed (slash ∷ [])) (refused absolute_path) _ (λ e. tt)
                      (λ rel.
                        if_cases P (is_windows_drive_path slashed) (refused absolute_path) _
                          (λ e. tt)
                          (λ e.
                            if_cases P (has_byte b':' slashed) (refused invalid_char) _ (λ e. tt)
                              (λ e. check_cleaned-IsAccepted a p rel))))))
