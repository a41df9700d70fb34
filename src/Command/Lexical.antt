-- ===== src/Command/Lexical.antt =====
-- companion/internal/cmdrule/cmdrule.go: the textual test of outsideWorkspace against the words of
-- the paths.
use mathlib.Core.Bool.{true≢false}
use mathlib.Core.List.{append-nil, append_assoc, reverse}
use fylane.Common.{
  ◌≡◌, refl, sym, ap, ◌∙◌, subst, ◌≢◌, ◌↔◌, inl, inr, true, false, List, [], ◌∷◌, ◌++◌, some,
  if◌then◌else◌, All, Bool-cases, ◌==◌, ==→eq, ==-refl, ne→==, arith,
}
use fylane.Common.Text.{Text, text_beq, text_eq, split_on, has_prefix, has_prefix-append}
use fylane.Common.Paths.{slash, is_abs, join_words, join, clean, walk, push_word}
use fylane.Common.Paths.Split.{split_on-join_words, split_on-append, has_prefix→, join_words-append}
use fylane.Common.Paths.Walk.{
  IsPlain, rooted_path, landing, landing-IsPlain, clean_rooted, clean-rooted_path, is_abs-slash,
  All-NoSlash, walk-append,
}
use fylane.Command.Line.{Cmdline, abs, outside_workspace, is_outside}

-- The words `ws` begin with the words of the root.
abbrev pub Under : List Text → List Text → Type 0
Under rs ws = (rest : List Text) × (ws ≡ rs ++ rest)

words : (ws : List Text) → ws ≢ [] → All IsPlain ws → split_on slash (join_words ws) ≡ ws
words ws n p = split_on-join_words ws n (All-NoSlash ws p)

-- Plain words are not empty.
head_not_empty : (w : Text) (ws vs : List Text) → IsPlain w → [] ∷ vs ≢ w ∷ ws
unfolding text_beq
head_not_empty w ws vs p e =
    let same : [] ≡ w = cc in true≢false (ap (λ (t : Text). text_beq t []) same ∙ p.some_byte)

rooted-eq :
    (rs ws : List Text)
    → rs ≢ []
    → All IsPlain rs
    → All IsPlain ws
    → rooted_path ws ≡ rooted_path rs
    → ws ≡ rs
unfolding join_words split_on
rooted-eq [] ws n pr pw e = absurd (n refl)
rooted-eq (r ∷ rs) [] n pr pw e =
    let f : [] ≡ join_words (r ∷ rs) = cc in
    absurd (head_not_empty r rs [] pr.0 (ap (split_on slash) f ∙ words (r ∷ rs) n pr))
rooted-eq (r ∷ rs) (w ∷ ws) n pr pw e =
    let f : join_words (w ∷ ws) ≡ join_words (r ∷ rs) = cc in
    sym (words (w ∷ ws) (λ q. cc) pw) ∙ ap (split_on slash) f ∙ words (r ∷ rs) n pr

-- A path that goes on behind the root and a slash goes on with words behind the root's.
goes_on :
    (rs ws : List Text) (t : Text)
    → rs ≢ []
    → All IsPlain rs
    → All IsPlain ws
    → join_words ws ≡ join_words rs ++ slash ∷ t
    → ws ≡ rs ++ split_on slash t
unfolding join_words split_on
goes_on rs (w ∷ ws) t n pr pw e =
    sym (words (w ∷ ws) (λ q. cc) pw)
    ∙ ap (split_on slash) e
    ∙ split_on-append (join_words rs) t
    ∙ ap (λ (v : List Text). v ++ split_on slash t) (words rs n pr)
goes_on [] [] t n pr pw e = absurd (n refl)
goes_on (r ∷ rs) [] t n pr pw e = absurd (
    head_not_empty r (rs ++ split_on slash t) [] pr.0 (
      ap (split_on slash) e
      ∙ split_on-append (join_words (r ∷ rs)) t
      ∙ ap (λ (v : List Text). v ++ split_on slash t) (words (r ∷ rs) n pr)))

inside→Under :
    (rs ws : List Text)
    → rs ≢ []
    → All IsPlain rs
    → All IsPlain ws
    → is_outside (rooted_path rs) (some (rooted_path ws)) ≡ false
    → Under rs ws
inside→Under rs ws n pr pw h = elim (Bool-cases (rooted_path ws == rooted_path rs)) [
  | inl a ↦ (
    [],
    rooted-eq rs ws n pr pw (==→eq (rooted_path ws) (rooted_path rs) a) ∙ sym (append-nil rs),
  )
  | inr a ↦
      let b : has_prefix (rooted_path ws) (rooted_path rs ++ slash ∷ []) ≡ true = ground arith in
      let (t, e) = has_prefix→ (rooted_path ws) (rooted_path rs ++ slash ∷ []) b in
      let f : join_words ws ≡ join_words rs ++ slash ∷ t =
        cc (append_assoc (join_words rs) (slash ∷ []) t) in
      (split_on slash t, goes_on rs ws t n pr pw f)
]

Under→inside :
    (rs ws : List Text)
    → rs ≢ []
    → Under rs ws
    → is_outside (rooted_path rs) (some (rooted_path ws)) ≡ false
Under→inside rs ws n ([], e) =
    let same : ws ≡ rs = e ∙ append-nil rs in rw same (rw (==-refl (rooted_path rs)))
Under→inside rs ws n (v ∷ vs, e) =
    let f : rooted_path (rs ++ v ∷ vs) ≡ (rooted_path rs ++ slash ∷ []) ++ join_words (v ∷ vs) =
      ap (◌∷◌ slash) (
        join_words-append rs (v ∷ vs) n (λ q. cc)
        ∙ sym (append_assoc (join_words rs) (slash ∷ []) (join_words (v ∷ vs)))) in
    let g : has_prefix (rooted_path (rs ++ v ∷ vs)) (rooted_path rs ++ slash ∷ []) ≡ true =
      rw f (has_prefix-append (rooted_path rs ++ slash ∷ []) (join_words (v ∷ vs))) in
    rw e (ground arith)

-- Where an argument leads, as words from the file system's root: from the top for an absolute
-- one, else from the working directory, which lies under the workspace.
abbrev pub target : List Text → Text → Text → List Text
target rs dir arg =
    if is_abs arg
    then landing (split_on slash arg)
    else landing (rs ++ split_on slash dir ++ split_on slash arg)

landing_empty : (ws : List Text) → landing ([] ∷ ws) ≡ landing ws
unfolding walk text_beq
landing_empty ws = refl

split_on-slash : (t : Text) → split_on slash (slash ∷ t) ≡ [] ∷ split_on slash t
unfolding split_on
split_on-slash t = refl

abs_absolute :
    (c : Cmdline) (arg : Text)
    → c.req.root ≢ []
    → is_abs arg ≡ true
    → abs c arg ≡ some (rooted_path (landing (split_on slash arg)))
unfolding abs is_abs text_beq
abs_absolute c arg m h =
    let (t, e) = has_prefix→ arg (slash ∷ []) h in
    rw (e, ne→== c.req.root [] m, is_abs-slash t, split_on-slash t, landing_empty, clean_rooted)
      refl

-- The words of a path that goes on behind the root.
split_behind :
    (rs : List Text) (t : Text)
    → rs ≢ []
    → All IsPlain rs
    → split_on slash (join_words rs ++ slash ∷ t) ≡ rs ++ split_on slash t
split_behind rs t m p =
    split_on-append (join_words rs) t ∙ ap (λ (v : List Text). v ++ split_on slash t) (words rs m p)

-- An empty word between others changes no landing.
landing_skip : (rs ws : List Text) → landing (rs ++ [] ∷ ws) ≡ landing (rs ++ ws)
unfolding push_word walk text_beq
landing_skip rs ws = ap reverse (walk-append true [] rs ([] ∷ ws) ∙ sym (walk-append true [] rs ws))

clean_behind :
    (rs : List Text) (t : Text)
    → rs ≢ []
    → All IsPlain rs
    → clean (rooted_path rs ++ slash ∷ t) ≡ rooted_path (landing (rs ++ split_on slash t))
clean_behind rs t m p =
    clean_rooted (join_words rs ++ slash ∷ t)
    ∙ ap (λ (v : List Text). rooted_path (landing v)) (split_behind rs t m p)

join_root :
    (rs : List Text) (dir arg : Text)
    → arg ≢ []
    → rs ≢ []
    → All IsPlain rs
    → join (rooted_path rs ∷ dir ∷ arg ∷ [])
      ≡ rooted_path (landing (rs ++ split_on slash dir ++ split_on slash arg))
unfolding join text_beq split_on
join_root rs dir [] n m p = absurd (n refl)
join_root rs [] (a ∷ arg) n m p =
    clean_behind rs (a ∷ arg) m p
    ∙ ap rooted_path (
        sym (landing_skip rs (split_on slash (a ∷ arg)))
        ∙ ap landing (sym (append_assoc rs ([] ∷ []) (split_on slash (a ∷ arg)))))
join_root rs (d ∷ dir) (a ∷ arg) n m p =
    clean_behind rs ((d ∷ dir) ++ slash ∷ (a ∷ arg)) m p
    ∙ ap (λ (v : List Text). rooted_path (landing v))
        (ap (λ (v : List Text). rs ++ v) (split_on-append (d ∷ dir) (a ∷ arg))
          ∙ sym (append_assoc rs (split_on slash (d ∷ dir)) (split_on slash (a ∷ arg))))

-- The words of the joined path are plain, so cleaning it again changes nothing.
landing_behind-IsPlain :
    (rs : List Text) (dir arg : Text)
    → rs ≢ []
    → All IsPlain rs
    → All IsPlain (landing (rs ++ split_on slash dir ++ split_on slash arg))
landing_behind-IsPlain rs dir arg m p =
    subst (λ (v : List Text). All IsPlain (landing v))
      (split_behind rs (dir ++ slash ∷ arg) m p
        ∙ ap (λ (v : List Text). rs ++ v) (split_on-append dir arg)
        ∙ sym (append_assoc rs (split_on slash dir) (split_on slash arg)))
      (landing-IsPlain (join_words rs ++ slash ∷ (dir ++ slash ∷ arg)))

abs_relative :
    (c : Cmdline) (rs : List Text) (arg : Text)
    → arg ≢ []
    → rs ≢ []
    → All IsPlain rs
    → c.req.root ≡ rooted_path rs
    → is_abs arg ≡ false
    → abs c arg
      ≡ some (rooted_path (landing (rs ++ split_on slash c.req.dir ++ split_on slash arg)))
unfolding abs
abs_relative c rs arg n m p e h =
    let root_some : (rooted_path rs == []) ≡ false = ne→== (rooted_path rs) [] (λ q. cc) in
    rw (e, root_some, ne→== arg [] n, h)
      (ap some (
        ap clean (join_root rs c.req.dir arg n m p)
        ∙ clean-rooted_path (landing (rs ++ split_on slash c.req.dir ++ split_on slash arg))
            (landing_behind-IsPlain rs c.req.dir arg m p)))

abs-target :
    (c : Cmdline) (rs : List Text) (arg : Text)
    → arg ≢ []
    → rs ≢ []
    → All IsPlain rs
    → c.req.root ≡ rooted_path rs
    → (abs c arg ≡ some (rooted_path (target rs c.req.dir arg)))
      × All IsPlain (target rs c.req.dir arg)
abs-target c rs arg n m p e = elim (Bool-cases (is_abs arg)) [
  | inl h ↦ rw h (abs_absolute c arg (λ q. cc) h, landing-IsPlain arg)
  | inr h ↦ rw h (abs_relative c rs arg n m p e h, landing_behind-IsPlain rs c.req.dir arg m p)
]

-- For a workspace root of plain words, the textual test says that a non-empty argument stays in
-- the workspace exactly when the words that it leads to, with each `..` resolved, begin with the
-- words of the root.
pub outside_workspace_iff :
    (c : Cmdline) (rs : List Text) (arg : Text)
    → arg ≢ []
    → rs ≢ []
    → All IsPlain rs
    → c.req.root ≡ rooted_path rs
    → (outside_workspace c arg ≡ false) ↔ Under rs (target rs c.req.dir arg)
unfolding outside_workspace
outside_workspace_iff c rs arg n m p e =
    let (a, plain) = abs-target c rs arg n m p e in
    rw (a, e)
      (
        inside→Under rs (target rs c.req.dir arg) m p plain,
        Under→inside rs (target rs c.req.dir arg) m,
      )
