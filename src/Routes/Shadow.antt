-- ===== src/Routes/Shadow.antt =====
-- companion/internal/routerule/rule.go: a rule that is marked as shadowed never decides.
use mathlib.Core.Bool.{false≢true}
use mathlib.Core.List.{append_assoc, append-nil}
use fylane.Common.{
  ℕ, zero, suc, ◌+◌, ◌≡◌, refl, ap, ◌∙◌, inl, inr, true, false, some, List, [], ◌∷◌, ◌++◌, All, any,
  get_elem?, take, drop, All-take, subst, Bool-cases, ◌==◌, ==→eq, or_true, and_true, arith,
}
use fylane.Common.Text.{Text, codes, text_eq, has_byte, equal_fold, to_lower, text_beq→eq}
use fylane.Common.Paths.{base}
use fylane.Common.Paths.Split.{NoSlash}
use fylane.Routes.Glob.{glob, skip, match_tokens, read_pattern}
use fylane.Routes.Rules.{
  Rule, source_any, matches, is_match, apply, first_shadow, shadows, pattern_covered, all_covered,
  shadowed_by, shadowed_from,
}
use fylane.Routes.First.{IsValid, decide_rule-Decides}

-- A star alone takes each name.
skip_all : (s : Text) → NoSlash s → skip (match_tokens []) s ≡ true
unfolding skip match_tokens has_byte
skip_all [] h = refl
skip_all (c ∷ s) h = ground (arith, skip_all s (ground arith))

glob-star : (s : Text) → NoSlash s → glob (codes "*") s ≡ some true
unfolding glob read_pattern match_tokens
glob-star s h = ap some (skip_all s h)

covered_matches :
    (es : List Text) (p name : Text)
    → NoSlash name
    → pattern_covered es p ≡ true
    → is_match (glob p name) ≡ true
    → any (λ e. is_match (glob e name)) es ≡ true
unfolding pattern_covered
covered_matches [] p name n h m = cc
covered_matches (e ∷ es) p name n h m = elim (Bool-cases (e == p)) [
  | inl q ↦ let q' = ==→eq e p q in rw (q', m)
  | inr q ↦ elim (Bool-cases (e == codes "*")) [
    | inl t ↦ rw (==→eq e (codes "*") t, glob-star name n)
    | inr t ↦
        let rest : any (λ e. is_match (glob e name)) es ≡ true =
          covered_matches es p name n (ground arith) m in
        rw rest (ground arith)
  ]
]

all_covered_matches :
    (es ps : List Text) (name : Text)
    → NoSlash name
    → all_covered es ps ≡ true
    → any (λ p. is_match (glob p name)) ps ≡ true
    → any (λ e. is_match (glob e name)) es ≡ true
unfolding all_covered
all_covered_matches es [] name n h m = cc
all_covered_matches es (p ∷ ps) name n h m =
    let (c, cs) = and_true (pattern_covered es p) (all_covered es ps) h in
    elim (or_true (is_match (glob p name)) (any (λ p. is_match (glob p name)) ps) m) [
      | inl here ↦ covered_matches es p name n c here
      | inr there ↦ all_covered_matches es ps name n cs there
    ]

-- Two sources that fold to the same text accept the same providers.
equal_fold_same :
    (s t u : Text) → equal_fold s t ≡ true → equal_fold t u ≡ true → equal_fold s u ≡ true
unfolding equal_fold
equal_fold_same s t u h k = let e = text_beq→eq (to_lower s) (to_lower t) h in rw e k

shadows-matches :
    (earlier later : Rule) (provider name : Text)
    → NoSlash name
    → shadows earlier later ≡ true
    → matches later provider name ≡ true
    → matches earlier provider name ≡ true
unfolding shadows matches
shadows-matches earlier later provider name n h m =
    let any_source = equal_fold_same earlier.source later.source source_any in
    let one_source = equal_fold_same earlier.source later.source provider in
    let covered : all_covered earlier.patterns later.patterns ≡ true = ground arith in
    let some_pattern =
      all_covered_matches earlier.patterns later.patterns name n covered (ground arith) in
    elim (Bool-cases (equal_fold earlier.source source_any)) [
      | inl e ↦ rw e some_pattern
      | inr e ↦
          let same : equal_fold earlier.source later.source ≡ true = ground arith in
          let narrow : equal_fold later.source source_any ≡ false = ground arith in
          let one : equal_fold later.source provider ≡ true = ground arith in
          rw (e, one_source same one) some_pattern
    ]

-- A rule that does not match is not missed.
apply_without :
    (front : List Rule) (r : Rule) (back : List Rule) (provider requested : Text)
    → matches r provider (base requested) ≡ false
    → apply (front ++ r ∷ back) provider requested ≡ apply (front ++ back) provider requested
unfolding apply
apply_without [] r back provider requested m = rw m refl
apply_without (f ∷ front) r back provider requested m =
    rw (apply_without front r back provider requested m) refl

apply_shadowed :
    (front : List Rule) (later : Rule) (back : List Rule) (provider requested : Text)
    → All IsValid front
    → NoSlash (base requested)
    → any (λ r. shadows r later) front ≡ true
    → apply (front ++ later ∷ back) provider requested ≡ apply (front ++ back) provider requested
unfolding apply
apply_shadowed [] later back provider requested v n h = absurd (false≢true h)
apply_shadowed (r ∷ front) later back provider requested (v, vs) n h =
    let (o, e, _) = decide_rule-Decides r requested v in
    elim (Bool-cases (matches r provider (base requested))) [
      | inl m ↦ rw (m, e) refl
      | inr m ↦ rw m (elim (Bool-cases (shadows r later)) [
        | inl s ↦ apply_without front later back provider requested (never s m)
        | inr s ↦ apply_shadowed front later back provider requested vs n (rw s at h)
      ])
    ]
  where
    never :
        shadows r later ≡ true
        → matches r provider (base requested) ≡ false
        → matches later provider (base requested) ≡ false
    never s m = elim (Bool-cases (matches later provider (base requested))) [
      | inl k ↦ absurd (let bad = shadows-matches r later provider (base requested) n s k in cc)
      | inr k ↦ k
    ]

first_shadow-any :
    (n j : ℕ) (front : List Rule) (later : Rule)
    → first_shadow n front later ≡ some j
    → any (λ r. shadows r later) front ≡ true
first_shadow-any n j [] later h = absurd (let bad = h in cc)
first_shadow-any n j (r ∷ front) later h = elim (Bool-cases (shadows r later)) [
  | inl s ↦ rw s refl
  | inr s ↦ rw s (first_shadow-any (n + 1) j front later (rw s at h))
]

shadowed_from-any :
    (before rules : List Rule) (i j : ℕ)
    → get_elem? (shadowed_from before rules) i ≡ some (some j)
    → (later : Rule) × (rules ≡ take i rules ++ later ∷ drop (suc i) rules)
      × (any (λ r. shadows r later) (before ++ take i rules) ≡ true)
unfolding shadowed_from
shadowed_from-any before [] i j h = absurd (let bad = h in cc)
shadowed_from-any before (r ∷ rules) zero j h =
    (r, refl, rw append-nil (first_shadow-any 0 j before r cc))
shadowed_from-any before (r ∷ rules) (suc i) j h =
    let (later, e, a) = shadowed_from-any (before ++ r ∷ []) rules i j h in
    (
      later,
      ap (◌∷◌ r) e,
      subst (λ (front : List Rule). any (λ r. shadows r later) front ≡ true)
          (append_assoc before (r ∷ []) (take i rules)) a,
    )

-- In a table of valid rules, a rule that the shadow marks say never matches can be left out, and
-- each save whose file name is not a slash lands where it did.
pub shadowed_by-apply :
    (rules : List Rule) (i j : ℕ) (provider requested : Text)
    → All IsValid rules
    → NoSlash (base requested)
    → get_elem? (shadowed_by rules) i ≡ some (some j)
    → apply rules provider requested ≡ apply (take i rules ++ drop (suc i) rules) provider requested
unfolding shadowed_by
shadowed_by-apply rules i j provider requested v n h =
    let (later, e, a) = shadowed_from-any [] rules i j h in
    ap (λ (rs : List Rule). apply rs provider requested) e
    ∙ apply_shadowed (take i rules) later (drop (suc i) rules) provider requested
        (All-take IsValid i rules v) n a
