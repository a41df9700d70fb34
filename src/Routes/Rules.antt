-- ===== src/Routes/Rules.antt =====
-- companion/internal/routerule/rule.go: a rule, the check when it is saved, the table at work.
use Prim.Native.String.{String}
use fylane.Common.{
  ℕ, ◌+◌, Bool, true, false, ◌&&◌, ◌||◌, not, Option, none, some, List, [], ◌∷◌, if◌then◌else◌, any,
  ◌++◌, drop, ◌==◌, nat_eq,
}
use fylane.Common.Text.{
  Text, codes, text_eq, has_byte, has_prefix, split_on, equal_fold, trim_space,
}
use fylane.Common.Paths.{slash, dot_dot, base, join}
use fylane.Routes.Glob.{glob}

pub record Rule : Type 0 where
  pub id : Text
  pub source : Text
  pub patterns : List Text
  pub dest : Text
  pub action : Text
  pub uses : ℕ

abbrev pub source_any : Text
source_any = codes "ANY"

abbrev pub action_route : Text
action_route = codes "route"

abbrev pub action_ask : Text
action_ask = codes "ask"

abbrev starts_with_drive : Text → Bool
starts_with_drive (a ∷ c ∷ s) = c == b':'
starts_with_drive _ = false

-- The error of the destination, if it has one.
unfoldable pub validate_dest : Text → Option String
unfolding has_byte has_prefix split_on
validate_dest dest =
    if dest == []
    then some "destination is required"
    else if has_byte 92 dest
    then some "destination must use forward slashes"
    else if has_prefix dest (slash ∷ []) || starts_with_drive dest
    then some "destination must be relative to the workspace"
    else if any (λ seg. seg == dot_dot) (split_on slash dest)
    then some "destination must not leave the workspace"
    else none

abbrev is_malformed : Option Bool → Bool
is_malformed none = true
is_malformed (some _) = false

unfoldable pub validate_patterns : List Text → Option String
unfolding trim_space glob
validate_patterns [] = none
validate_patterns (p ∷ ps) =
    let rest = validate_patterns ps in
    if trim_space p == []
    then some "empty pattern"
    else if is_malformed (glob p (codes "probe"))
    then some "invalid pattern"
    else rest

unfoldable pub validate_action : Rule → Option String
unfolding validate_dest
validate_action r =
    if r.action == action_ask
    then if not (r.dest == []) then some "an ask rule has no destination" else none
    else if r.action == action_route
    then validate_dest r.dest
    else some "unknown action"

-- The first error, or none.
abbrev first_error : Option String → Option String → Option String
first_error (some e) later = some e
first_error none later = later

unfoldable pub validate : Rule → Option String
unfolding validate_patterns validate_action
validate r =
    if r.id == []
    then some "rule id is required"
    else if r.source == []
    then some "source is required"
    else if no_patterns r.patterns
    then some "at least one pattern is required"
    else first_error (validate_patterns r.patterns) (validate_action r)
  where
    no_patterns : List Text → Bool
    no_patterns [] = true
    no_patterns (p ∷ ps) = false

abbrev pub is_match : Option Bool → Bool
is_match none = false
is_match (some ok) = ok

unfoldable pub matches : Rule → Text → Text → Bool
unfolding equal_fold glob
matches r provider name =
    if not (equal_fold r.source source_any) && not (equal_fold r.source provider)
    then false
    else any (λ p. is_match (glob p name)) r.patterns

pub record Outcome : Type 0 where
  pub path : Text
  pub ask : Bool
  pub rule_id : Text

abbrev unrouted : Text → Outcome
unrouted requested = record { path = requested; ask = false; rule_id = [] }

abbrev fits : Option String → Bool
fits none = true
fits (some _) = false

-- What a rule that matches decides, if it decides.
unfoldable pub decide_rule : Rule → Text → Option Outcome
unfolding validate_dest join base
decide_rule r requested =
    if r.action == action_ask
    then some (record { path = requested; ask = true; rule_id = r.id })
    else if r.action == action_route
    then if not (fits (validate_dest r.dest))
      then none
      else some (record { path = join (r.dest ∷ base requested ∷ []); ask = false; rule_id = r.id })
    else none

abbrev or_else : Option Outcome → Outcome → Outcome
or_else (some o) later = o
or_else none later = later

unfoldable pub apply : List Rule → Text → Text → Outcome
unfolding matches base decide_rule
apply [] provider requested = unrouted requested
apply (r ∷ rs) provider requested =
    let rest = apply rs provider requested in
    if not (matches r provider (base requested))
    then rest
    else or_else (decide_rule r requested) rest

-- The table with one more use of the rule, and whether the rule is there.
unfoldable pub count_use : List Rule → Text → List Rule × Bool
count_use [] id = ([], false)
count_use (r ∷ rs) id =
    let (rest, there) = count_use rs id in
    if r.id == id then (record r { uses = r.uses + 1 } ∷ rs, true) else (r ∷ rest, there)

abbrev holds_any : Text → Text → Bool
holds_any s cs = any (λ c. has_byte c s) cs

unfoldable pub pattern_covered : List Text → Text → Bool
unfolding has_byte has_prefix
pattern_covered [] later = false
pattern_covered (e ∷ es) later =
    e == later
    || e == codes "*"
    || has_prefix e (codes "*.")
      && not (holds_any (drop 2 e) (codes "*?["))
      && has_prefix later (codes "*.")
      && e == later
    || pattern_covered es later

unfoldable pub all_covered : List Text → List Text → Bool
unfolding pattern_covered
all_covered earlier [] = true
all_covered earlier (p ∷ ps) = pattern_covered earlier p && all_covered earlier ps

unfoldable pub shadows : Rule → Rule → Bool
unfolding equal_fold all_covered
shadows earlier later =
    if not (equal_fold earlier.source source_any) && not (equal_fold earlier.source later.source)
    then false
    else all_covered earlier.patterns later.patterns

abbrev pub first_shadow : ℕ → List Rule → Rule → Option ℕ
first_shadow j [] later = none
first_shadow j (r ∷ rs) later =
    let rest = first_shadow (j + 1) rs later in if shadows r later then some j else rest

-- For each rule behind the rules `before`, the index of the first rule that shadows it.
unfoldable pub shadowed_from : List Rule → List Rule → List (Option ℕ)
unfolding shadows
shadowed_from before [] = []
shadowed_from before (r ∷ rs) = first_shadow 0 before r ∷ shadowed_from (before ++ r ∷ []) rs

unfoldable pub shadowed_by : List Rule → List (Option ℕ)
unfolding shadowed_from
shadowed_by rules = shadowed_from [] rules
