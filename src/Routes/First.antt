-- ===== src/Routes/First.antt =====
-- companion/internal/routerule/rule.go: the first rule that matches decides.
use fylane.Common.{
  ◌≡◌, refl, ◌⊎◌, inl, inr, true, false, Option, none, some, List, [], ◌∷◌, ◌++◌, if◌then◌else◌,
  All, Bool-cases, ◌==◌, ==→eq, arith,
}
use fylane.Common.Text.{Text, text_eq, text_beq, split_on}
use fylane.Common.Paths.{slash, base, join, join_words}
use fylane.Common.Paths.Walk.{IsPlain}
use fylane.Routes.Rules.{
  Rule, Outcome, validate, validate_action, validate_dest, matches, apply, decide_rule, action_ask,
  action_route,
}
use fylane.Routes.Landing.{kept, validate_dest-IsDest, join-kept}

-- The rules that the settings accept.
abbrev pub IsValid : Rule → Type 0
IsValid r = validate r ≡ none

-- The first rule of the table that matches.
abbrev pub first_rule : List Rule → Text → Text → Option Rule
first_rule [] provider name = none
first_rule (r ∷ rs) provider name =
    let rest = first_rule rs provider name in if matches r provider name then some r else rest

-- What the deciding rule says of a save.
abbrev pub Decides : Option Rule → Text → Outcome → Type 0
Decides none requested o = (o.path ≡ requested) × (o.ask ≡ false) × (o.rule_id ≡ [])
Decides (some r) requested o =
    (o.rule_id ≡ r.id)
    × (((r.action ≡ action_ask) × (o.ask ≡ true) × (o.path ≡ requested))
        ⊎ ((r.action ≡ action_route)
            × (o.ask ≡ false)
            × (o.path ≡ join_words (kept (split_on slash r.dest) ++ base requested ∷ []))
            × All IsPlain (kept (split_on slash r.dest) ++ base requested ∷ [])))

valid_action : (r : Rule) → IsValid r → validate_action r ≡ none
unfolding validate
valid_action r h = ground arith

-- A valid rule that matches decides.
pub decide_rule-Decides :
    (r : Rule) (requested : Text)
    → IsValid r
    → (o : Outcome) × (decide_rule r requested ≡ some o)
      × (IsPlain (base requested) → Decides (some r) requested o)
unfolding decide_rule validate_action text_beq
decide_rule-Decides r requested v =
    let checked : validate_action r ≡ none = valid_action r v in
    elim (Bool-cases (r.action == action_ask)) [
      | inl e ↦ (
        record { path = requested; ask = true; rule_id = r.id },
        rw e refl,
        λ p. (refl, inl (==→eq r.action action_ask e, refl, refl)),
      )
      | inr e ↦ elim (Bool-cases (r.action == action_route)) [
        | inl f ↦
            let dest : validate_dest r.dest ≡ none = rw (e, f) at checked in
            let landed = join-kept r.dest (base requested) (validate_dest-IsDest r.dest dest) in
            (
              record { path = join (r.dest ∷ base requested ∷ []); ask = false; rule_id = r.id },
              rw (e, f, dest) refl,
              λ p. (refl, inr (==→eq r.action action_route f, refl, (landed p).0, (landed p).1)),
            )
        | inr f ↦ absurd (let bad = rw (e, f) at checked in cc)
      ]
    ]

-- Over valid rules, the first rule whose source and pattern match decides a save: an ask rule
-- leaves the path and asks, a route rule puts the file under the plain words of its destination
-- with the file's own name at the end, and with no rule that matches nothing changes. The file's
-- name is not a dot, two dots or a slash.
pub apply-Decides :
    (rules : List Rule) (provider requested : Text)
    → All IsValid rules
    → IsPlain (base requested)
    → Decides
        (first_rule rules provider (base requested))
        requested
        (apply rules provider requested)
unfolding apply
apply-Decides [] provider requested v p = (refl, refl, refl)
apply-Decides (r ∷ rules) provider requested (v, vs) p =
    let (o, e, d) = decide_rule-Decides r requested v in
    elim (Bool-cases (matches r provider (base requested))) [
      | inl m ↦ rw (m, e) (d p)
      | inr m ↦ rw m (apply-Decides rules provider requested vs p)
    ]
