-- ===== src/Routes/Tests.antt =====
-- The theorems about the rules at concrete tables.
use fylane.Common.{
  ◌≡◌, refl, true, false, List, [], ◌∷◌, ◌++◌, none, some, All, take, drop, get_elem?,
}
use fylane.Common.Text.{codes, text_beq, has_byte}
use fylane.Common.Paths.{base}
use fylane.Common.Paths.Walk.{IsPlain}
use fylane.Routes.Glob.{glob}
use fylane.Routes.Rules.{Rule, apply, count_use, validate, shadowed_by}
use fylane.Routes.First.{IsValid, Decides, first_rule, apply-Decides}
use fylane.Routes.Shadow.{shadowed_by-apply}

abbrev to_src : Rule
to_src = record {
  id = codes "r1";
  source = codes "any";
  patterns = codes "*.ts" ∷ codes "[a-c^]?\\**" ∷ [];
  dest = codes "src/./a";
  action = codes "route";
  uses = 0;
}

abbrev asks_first : Rule
asks_first = record {
  id = codes "r2";
  source = codes "Grok";
  patterns = codes "*.ts" ∷ [];
  dest = [];
  action = codes "ask";
  uses = 0;
}

abbrev table : List Rule
table = to_src ∷ asks_first ∷ []

class_and_escape : glob (codes "[a-c^]?\\**") (codes "bx*.go") ≡ some true
unfolding glob
class_and_escape = refl

empty_class : glob (codes "[]") (codes "b") ≡ none
unfolding glob
empty_class = refl

suffix_only : glob (codes "*.ts") (codes "x.ts.go") ≡ some false
unfolding glob
suffix_only = refl

star_keeps_slash : glob (codes "*") (codes "/") ≡ some false
unfolding glob
star_keeps_slash = refl

counted : (count_use table (codes "r2")).1 ≡ true
unfolding count_use text_beq
counted = refl

second_is_shadowed : shadowed_by table ≡ none ∷ some 0 ∷ []
unfolding shadowed_by text_beq
second_is_shadowed = refl

table-IsValid : All IsValid table
unfolding validate text_beq
table-IsValid = (refl, (refl, tt))

x_name : base (codes "q/x.ts") ≡ codes "x.ts"
unfolding base text_beq
x_name = refl

x-IsPlain : IsPlain (base (codes "q/x.ts"))
unfolding base text_beq has_byte
x-IsPlain = record { some_byte = refl; not_dot = refl; not_dot_dot = refl; no_slash = refl }

apply-Decides_example :
    Decides
      (first_rule table (codes "gpt") (base (codes "q/x.ts")))
      (codes "q/x.ts")
      (apply table (codes "gpt") (codes "q/x.ts"))
apply-Decides_example = apply-Decides table (codes "gpt") (codes "q/x.ts") table-IsValid x-IsPlain

lands_in_src : (apply table (codes "gpt") (codes "q/x.ts")).path ≡ codes "src/a/x.ts"
unfolding apply text_beq
lands_in_src = refl

second_marked : get_elem? (shadowed_by table) 1 ≡ some (some 0)
unfolding shadowed_by text_beq
second_marked = refl

shadowed_by-apply_example :
    apply table (codes "grok") (codes "q/x.ts")
    ≡ apply (take 1 table ++ drop 2 table) (codes "grok") (codes "q/x.ts")
shadowed_by-apply_example =
    shadowed_by-apply table 1 0 (codes "grok") (codes "q/x.ts") table-IsValid x-IsPlain.no_slash
      second_marked
