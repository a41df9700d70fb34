-- ===== src/Command/Safety.antt =====
-- What Check stops, whatever else is on the command line.
use mathlib.Core.Bool.{false≢true, or-true}
use mathlib.Core.List.{Memᴰ}
use fylane.Common.{
  ◌≡◌, refl, ap, ◌∙◌, ◌≢◌, ◌⊎◌, inl, inr, Bool, true, false, ◌||◌, List, [], ◌∷◌, some, All, any,
  Bool-cases, ne→==, arith, subst, sym,
}
use fylane.Common.Text.{Text, text_eq}
use fylane.Common.Paths.Walk.{IsPlain, rooted_path}
use fylane.Command.Shells.{in_set}
use fylane.Command.Line.{Request, Cmdline, parse, parse_argv, path_args, outside_workspace}
use fylane.Command.Lexical.{Under, target, outside_workspace_iff}
use fylane.Command.Rules.{
  Rule, deleters, deletes_outside, names_a_shell, escalates, builds_command_lines, writes_devices,
  git_internals, deletes_root,
}
use fylane.Command.Check.{
  Verdict, block, disclose, Decision, check, judge, first_match, block_rules,
}

any_of_mem {ℓ} :
    {A : Type ℓ} (f : A → Bool) {x : A} {xs : List A} → Memᴰ x xs → f x ≡ true → any f xs ≡ true
any_of_mem f (Memᴰ.head e) h = rw (sym (ap f e) ∙ h)
any_of_mem f (Memᴰ.tail {x = y} m) h = rw (any_of_mem f m h) (or-true (f y))

first_match_verdict :
    (v : Verdict) (c : Cmdline) (rules : List Rule)
    → any (λ r. r.match c) rules ≡ true
    → (d : Decision) × (first_match v c rules ≡ some d) × (d.verdict ≡ v)
unfolding first_match
first_match_verdict v c [] h = absurd (false≢true h)
first_match_verdict v c (r ∷ rules) h = elim (Bool-cases (r.match c)) [
  | inl e ↦ rw e (record { verdict = v; rule = r.id; reason = r.reason }, refl, refl)
  | inr e ↦ rw e (first_match_verdict v c rules (rw e at h))
]

-- A block rule that matches decides.
judge_block : (c : Cmdline) → any (λ r. r.match c) block_rules ≡ true → (judge c).verdict ≡ block
unfolding judge
judge_block c h = let (d, e, v) = first_match_verdict block c block_rules h in rw e v

check_block :
    (req : Request)
    → (parse req).prog ≢ []
    → any (λ r. r.match (parse req)) block_rules ≡ true
    → (check req).verdict ≡ block
unfolding check
check_block req n h = rw (ne→== (parse req).prog [] n) (judge_block (parse req) h)

-- The verdicts that stop a command for a human or for good at every rung.
abbrev pub Stops : Verdict → Type 0
Stops v = (v ≡ block) ⊎ (v ≡ disclose)

last_true :
    (a b c d e f g : Bool)
    → g ≡ true
    → (a || (b || (c || (d || (e || (f || (g || false))))))) ≡ true
last_true a b c d e f g h = ground arith

deletes_outside-true :
    (c : Cmdline)
    → in_set c.prog deleters ≡ true
    → any (outside_workspace c) (path_args c) ≡ true
    → deletes_outside c ≡ true
unfolding deletes_outside
deletes_outside-true c h k = rw (h, k)

parse_argv-req : (req : Request) (argv : List Text) → (parse_argv req argv).req ≡ req
unfolding parse_argv
parse_argv-req req [] = refl
parse_argv-req req (name ∷ args) = refl

parse-req : (req : Request) → (parse req).req ≡ req
unfolding parse
parse-req req = parse_argv-req req req.argv

-- A path whose words leave those of the root is outside for the test.
escape-outside :
    (req : Request) (rs : List Text) (p : Text)
    → rs ≢ []
    → All IsPlain rs
    → req.root ≡ rooted_path rs
    → p ≢ []
    → ¬ Under rs (target rs req.dir p)
    → outside_workspace (parse req) p ≡ true
escape-outside req rs p m plain root some_path escapes =
    let root' : (parse req).req.root ≡ rooted_path rs =
      ap (λ (r : Request). r.root) (parse-req req) ∙ root in
    let iff = outside_workspace_iff (parse req) rs p some_path m plain root' in
    elim (Bool-cases (outside_workspace (parse req) p)) [
      | inl e ↦ e
      | inr e ↦ absurd (
          escapes (subst (λ (r : Request). Under rs (target rs r.dir p)) (parse-req req) (iff.0 e)))
    ]

-- A command whose program deletes, and that names a path which leads outside a workspace root of
-- plain words, gets the verdict block.
pub check_delete_outside :
    (req : Request) (rs : List Text) (p : Text)
    → in_set (parse req).prog deleters ≡ true
    → (parse req).prog ≢ []
    → rs ≢ []
    → All IsPlain rs
    → req.root ≡ rooted_path rs
    → Memᴰ p (path_args (parse req))
    → p ≢ []
    → ¬ Under rs (target rs req.dir p)
    → (check req).verdict ≡ block
check_delete_outside req rs p del n m plain root here some_path escapes =
    let c = parse req in
    let out = escape-outside req rs p m plain root some_path escapes in
    let deletes : deletes_outside (parse req) ≡ true =
      deletes_outside-true (parse req) del (any_of_mem (outside_workspace (parse req)) here out) in
    check_block req n (
      last_true (escalates c) (names_a_shell c) (builds_command_lines c) (writes_devices c)
        (git_internals c) (deletes_root c) (deletes_outside c) deletes)
