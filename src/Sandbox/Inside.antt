-- ===== src/Sandbox/Inside.antt =====
-- companion/internal/sandbox/resolve.go: a resolved path lies in the workspace and passes no link.
use mathlib.Core.List.{Memᴰ}
use fylane.Common.{
  ◌≡◌, refl, ap, ◌∙◌, subst, ◌≢◌, ◌⊎◌, inl, inr, Bool, true, false, ◌&&◌, Option, none, some, List,
  [], ◌∷◌, ◌++◌, if◌then◌else◌, if_cases, All, All-append, any, drop, length, ltb, Bool-cases,
  arith,
}
use fylane.Common.Text.{Text, text_eq, split_on}
use fylane.Common.Paths.{slash, join_words, join}
use fylane.Common.Paths.Split.{split_on-join_words}
use fylane.Common.Paths.Walk.{IsPlain, rooted_path, All-NoSlash}
use fylane.Common.Paths.Join.{join-rooted_path}
use fylane.Sandbox.Names.{Alphabets, PathError, or_next, protected_path, path_too_long}
use fylane.Sandbox.Clean.{Checked, accepted, refused, clean_path}
use fylane.Sandbox.Resolve.{
  Op, Entry, Files, Real, absent, failed, a_file, a_dir, a_link, a_special, real_path, writes,
  is_git, is_last, is_inside, step_into, walk_in, judge_real, no_path, broken, verify_real, parents,
  resolve_cleaned, resolve, when_none, max_abs_path_len,
}
use fylane.Sandbox.Accepted.{IsAccepted, IfAccepted, clean_path-IsAccepted}

-- The way down from a directory: each component is a directory, up to the first that is missing;
-- the last may be a file. No component is a link.
abbrev pub Walked : Files → List Text → List Text → Type 0
Walked fs rs [] = Unit
Walked fs rs (w ∷ ws) =
    (fs.lstat (rooted_path (rs ++ w ∷ [])) ≡ absent)
    ⊎ (((fs.lstat (rooted_path (rs ++ w ∷ [])) ≡ a_dir) × Walked fs (rs ++ w ∷ []) ws)
        ⊎ ((fs.lstat (rooted_path (rs ++ w ∷ [])) ≡ a_file) × (ws ≡ [])))

entered :
    (o : Entry) (last : Bool) (rest : Option PathError)
    → or_next (step_into o last).0 (if (step_into o last).1 then rest else none) ≡ none
    → (o ≡ absent) ⊎ (((o ≡ a_dir) × (rest ≡ none)) ⊎ ((o ≡ a_file) × (last ≡ true)))
unfolding step_into
entered absent last rest h = inl refl
entered failed last rest h = absurd (let bad = h in cc)
entered a_link last rest h = absurd (let bad = h in cc)
entered a_dir last rest h = inr (inl (refl, h))
entered a_file true rest h = inr (inr (refl, refl))
entered a_file false rest h = absurd (let bad = h in cc)
entered a_special true rest h = absurd (let bad = h in cc)
entered a_special false rest h = absurd (let bad = h in cc)

is_last_nil : (ws : List Text) → is_last ws ≡ true → ws ≡ []
is_last_nil [] h = refl
is_last_nil (w ∷ ws) h = absurd (let bad = h in cc)

pub words_some : (rs ws : List Text) → rs ≢ [] → rs ++ ws ≢ []
words_some [] ws n e = n refl
words_some (r ∷ rs) ws n e = cc

walk_in-Walked :
    (fs : Files) (rs ws : List Text)
    → rs ≢ []
    → All IsPlain rs
    → All IsPlain ws
    → walk_in fs (rooted_path rs) ws ≡ none
    → Walked fs rs ws
unfolding walk_in join_words
walk_in-Walked fs rs [] n p q h = tt
walk_in-Walked fs rs (w ∷ ws) n p (q, qs) h =
    let here : join (rooted_path rs ∷ w ∷ []) ≡ rooted_path (rs ++ w ∷ []) =
      join-rooted_path rs (w ∷ []) n (λ e. cc) p (q, tt) in
    let walked =
      walk_in-Walked fs (rs ++ w ∷ []) ws (words_some rs (w ∷ []) n)
        (All-append IsPlain rs (w ∷ []) p (q, tt)) qs in
    elim (entered (fs.lstat (rooted_path (rs ++ w ∷ []))) (is_last ws)
      (walk_in fs (rooted_path (rs ++ w ∷ [])) ws) (rw here at h)) [
        | inl a ↦ inl a
        | inr (inl (d, rest)) ↦ inr (inl (d, walked rest))
        | inr (inr (f, l)) ↦ inr (inr (f, is_last_nil ws l))
      ]

when_none_accepted :
    (P : Text × Text → Type 0) (o : Option PathError) (next : Checked (Text × Text))
    → (o ≡ none → IfAccepted P next)
    → IfAccepted P (when_none o next)
when_none_accepted P none next h = h refl
when_none_accepted P (some e) next h = tt

judged :
    (root : Text) (o : Real) (rest : Option PathError)
    → judge_real root o rest ≡ none
    → ((r : Text) × (o ≡ real_path r) × (is_inside root r ≡ true)) ⊎ (rest ≡ none)
judged root no_path rest h = inr h
judged root broken rest h = absurd (let bad = h in cc)
judged root (real_path r) rest h = elim (Bool-cases (is_inside root r)) [
  | inl i ↦ inl (r, refl, i)
  | inr i ↦ absurd (let bad = rw i at h in cc)
]

verify_real-inside :
    (fs : Files) (root : Text) (ps : List Text)
    → verify_real fs root ps ≡ none
    → (p : Text) × (r : Text) × Memᴰ p ps
      × (fs.eval_symlinks p ≡ real_path r)
      × (is_inside root r ≡ true)
unfolding verify_real
verify_real-inside fs root [] h = absurd (let bad = h in cc)
verify_real-inside fs root (p ∷ ps) h =
    elim (judged root (fs.eval_symlinks p) (verify_real fs root ps) h) [
      | inl (r, e, i) ↦ (p, r, Memᴰ.head refl, e, i)
      | inr rest ↦
          let (q, r, m, e, i) = verify_real-inside fs root ps rest in (q, r, Memᴰ.tail m, e, i)
    ]

-- What a resolved path promises, for a root of the words `rs`.
pub record IsResolved (a : Alphabets) (fs : Files) (rs : List Text) (rel : Text) (op : Op)
    (abs canonical : Text) : Type 0 where
  pub clean : IsAccepted a rel canonical
  pub under : abs ≡ rooted_path (rs ++ clean.words)
  pub walked : Walked fs rs clean.words
  pub no_git : writes op ≡ true → any is_git clean.words ≡ false
  pub real :
      (p : Text) × (r : Text) × Memᴰ p (parents (slash ∷ []) (rs ++ clean.words))
      × (fs.eval_symlinks p ≡ real_path r)
      × (is_inside (rooted_path rs) r ≡ true)

pub split_on-rooted_path :
    (ws : List Text) → ws ≢ [] → All IsPlain ws → drop 1 (split_on slash (rooted_path ws)) ≡ ws
unfolding split_on
split_on-rooted_path ws n h = split_on-join_words ws n (All-NoSlash ws h)

resolve_cleaned-IsResolved :
    (a : Alphabets) (fs : Files) (rs : List Text) (rel : Text) (op : Op) (canonical : Text)
    → rs ≢ []
    → All IsPlain rs
    → IsAccepted a rel canonical
    → IfAccepted
        (λ o. IsResolved a fs rs rel op o.0 o.1)
        (resolve_cleaned fs (rooted_path rs) op (accepted canonical))
unfolding resolve_cleaned
resolve_cleaned-IsResolved a fs rs rel op canonical n p k =
    let P = IfAccepted (λ (o : Text × Text). IsResolved a fs rs rel op o.0 o.1) in
    let words : split_on slash canonical ≡ k.words =
      ap (split_on slash) k.path
      ∙ split_on-join_words k.words k.there (All-NoSlash k.words k.plain) in
    let under : join (rooted_path rs ∷ canonical ∷ []) ≡ rooted_path (rs ++ k.words) =
      ap (λ (t : Text). join (rooted_path rs ∷ t ∷ [])) k.path
      ∙ join-rooted_path rs k.words n k.there p k.plain in
    let up : drop 1 (split_on slash (rooted_path (rs ++ k.words))) ≡ rs ++ k.words =
      split_on-rooted_path (rs ++ k.words) (words_some rs k.words n)
        (All-append IsPlain rs k.words p k.plain) in
    let Q = λ (o : Text × Text). IsResolved a fs rs rel op o.0 o.1 in
    rw (words, under, up)
      (if_cases P (writes op && any is_git k.words) (refused protected_path) _ (λ g. tt)
        (λ g.
          if_cases P (ltb max_abs_path_len (length (rooted_path (rs ++ k.words))))
            (refused path_too_long) _ (λ l. tt)
            (λ l. when_none_accepted Q (walk_in fs (rooted_path rs) k.words) _ (λ w.
              when_none_accepted Q
                (verify_real fs (rooted_path rs) (parents (slash ∷ []) (rs ++ k.words))) _
                (λ v. record {
                  clean = k;
                  under = refl;
                  walked = walk_in-Walked fs rs k.words n p k.plain w;
                  no_git = λ o. ground arith;
                  real =
                      verify_real-inside fs (rooted_path rs) (parents (slash ∷ []) (rs ++ k.words))
                        v;
                })))))

-- A path that Resolve accepts, for a workspace root of plain words, is the root's words followed by
-- the accepted words of the request, the way down to it passes no symbolic link and no special
-- file, a write goes to no .git, and the real path of it or of a parent lies in the root.
pub resolve-IsResolved :
    (a : Alphabets) (fs : Files) (rs : List Text) (rel abs canonical : Text) (op : Op)
    → rs ≢ []
    → All IsPlain rs
    → resolve a fs (rooted_path rs) rel op ≡ accepted (abs, canonical)
    → IsResolved a fs rs rel op abs canonical
unfolding resolve
resolve-IsResolved a fs rs rel abs canonical op n p h =
    subst (IfAccepted (λ (o : Text × Text). IsResolved a fs rs rel op o.0 o.1)) h
      (always (clean_path a rel) refl)
  where
    always :
        (o : Checked Text)
        → clean_path a rel ≡ o
        → IfAccepted
            (λ (o : Text × Text). IsResolved a fs rs rel op o.0 o.1)
            (resolve_cleaned fs (rooted_path rs) op o)
    always (refused e) q = tt
    always (accepted s) q =
        resolve_cleaned-IsResolved a fs rs rel op s n p (clean_path-IsAccepted a rel s q)
