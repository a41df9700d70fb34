-- ===== src/Edit/Traced.antt =====
-- The loop of applyUnified, followed piece by piece.
use mathlib.Core.List.{append-nil}
use fylane.Common.{
  ℕ, zero, suc, ◌+◌, ◌≡◌, refl, sym, ap, ◌∙◌, subst, inl, inr, Bool, true, false, List, [], ◌∷◌,
  ◌++◌, Option, none, some, Bool-cases, Option-cases, ◌==◌, ==→eq, take, get_elem?, All, arith,
}
use fylane.Common.Text.{Text, text_eq}
use fylane.Edit.Splice.{newline}
use fylane.Edit.Patch.{
  PatchError, ok, Progress, trim_nl, copy_line, copy_lines, keep_line, drop_line, add_line,
}
use fylane.Edit.Pieces.{
  Piece, copied, named, gone, added, old_of, new_of, named_of, gone_of, added_of, gather,
  IsSameLine, IsSameLine-copied, IsSameLine-named, bare-ended, gather-snoc,
}

-- The loop so far, as pieces: the lines before the cursor became the lines put out, and the lines
-- that the patch names, takes away and adds are these.
pub record Traced (loose : Bool) (src names goes comes : List Text) (st : Progress) : Type 0 where
  pub pieces : List Piece
  pub file : st.src ≡ src
  pub old : gather old_of pieces ≡ take st.cursor src
  pub new : gather new_of pieces ≡ st.out
  pub names_are : gather named_of pieces ≡ names
  pub goes_are : gather gone_of pieces ≡ goes
  pub comes_are : gather added_of pieces ≡ comes
  pub same : All (IsSameLine loose) pieces

-- A step that adds one piece.
pub record Extends (loose : Bool) (st : Progress) (p : Piece) (t : Progress) : Type 0 where
  pub file : t.src ≡ st.src
  pub old : take t.cursor st.src ≡ take st.cursor st.src ++ old_of p
  pub new : t.out ≡ st.out ++ new_of p
  pub same : IsSameLine loose p

All-snoc {ℓ} :
    (P : Piece → Type ℓ) (ps : List Piece) (p : Piece) → All P ps → P p → All P (ps ++ p ∷ [])
All-snoc P [] p h k = (k, tt)
All-snoc P (q ∷ ps) p (h, hs) k = (h, All-snoc P ps p hs k)

pub extend :
    {loose : Bool} {src names goes comes : List Text} {st t : Progress} {p : Piece}
    → Traced loose src names goes comes st
    → Extends loose st p t
    → Traced loose src (names ++ named_of p) (goes ++ gone_of p) (comes ++ added_of p) t
extend {loose} {st} {t} {p} d e = record {
  pieces = d.pieces ++ p ∷ [];
  file = e.file ∙ d.file;
  old =
      gather-snoc old_of d.pieces p
      ∙ ap (λ r. r ++ old_of p) d.old
      ∙ sym (subst (λ s. take t.cursor s ≡ take st.cursor s ++ old_of p) d.file e.old);
  new = gather-snoc new_of d.pieces p ∙ ap (λ r. r ++ new_of p) d.new ∙ sym e.new;
  names_are = gather-snoc named_of d.pieces p ∙ ap (λ r. r ++ named_of p) d.names_are;
  goes_are = gather-snoc gone_of d.pieces p ∙ ap (λ r. r ++ gone_of p) d.goes_are;
  comes_are = gather-snoc added_of d.pieces p ∙ ap (λ r. r ++ added_of p) d.comes_are;
  same = All-snoc (IsSameLine loose) d.pieces p d.same e.same;
}

take_next :
    (n : ℕ) (ls : List Text) (l : Text)
    → get_elem? ls n ≡ some l
    → take (n + 1) ls ≡ take n ls ++ l ∷ []
take_next n [] l h = cc
take_next zero (k ∷ ls) l h = let e : k ≡ l = cc in ap (λ (x : Text). x ∷ []) e
take_next (suc n) (k ∷ ls) l h =
    let up : suc n + 1 ≡ suc (n + 1) = omega arith in rw up (ap (◌∷◌ k) (take_next n ls l h))

pub keep_line-Extends :
    {loose : Bool} (o : Option Text) (want : Text) (e : PatchError) (st t : Progress)
    → get_elem? st.src st.cursor ≡ o
    → keep_line o want e st ≡ ok t
    → (l : Text) × (trim_nl l ≡ want)
      × Extends loose st (named l l) t
      × Extends loose st (copied l l) t
unfolding keep_line
keep_line-Extends none want e st t h r = cc
keep_line-Extends {loose} (some l) want e st t h r = elim (Bool-cases (trim_nl l == want)) [
  | inr k ↦ absurd (let f = rw k at r in cc)
  | inl k ↦
      let kept : Progress = record st {
        out = st.out ++ l ∷ [];
        cursor = st.cursor + 1;
        last_kind = b' ';
      } in
      let f : ok kept ≡ ok t = rw k at r in
      let same : kept ≡ t = cc in
      (
        l,
        ==→eq (trim_nl l) want k,
        subst (Extends loose st (named l l)) same (record {
          file = refl;
          old = take_next st.cursor st.src l h;
          new = refl;
          same = IsSameLine-named loose l;
        }),
        subst (Extends loose st (copied l l)) same (record {
          file = refl;
          old = take_next st.cursor st.src l h;
          new = refl;
          same = IsSameLine-copied loose l;
        }),
      )
]

pub drop_line-Extends :
    {loose : Bool} (o : Option Text) (want : Text) (e : PatchError) (st t : Progress)
    → get_elem? st.src st.cursor ≡ o
    → drop_line o want e st ≡ ok t
    → (l : Text) × (trim_nl l ≡ want) × Extends loose st (gone l) t
unfolding drop_line
drop_line-Extends none want e st t h r = cc
drop_line-Extends {loose} (some l) want e st t h r = elim (Bool-cases (trim_nl l == want)) [
  | inr k ↦ absurd (let f = rw k at r in cc)
  | inl k ↦
      let cut : Progress = record st { cursor = st.cursor + 1; last_kind = b'-' } in
      let f : ok cut ≡ ok t = rw k at r in
      let same : cut ≡ t = cc in
      (
        l,
        ==→eq (trim_nl l) want k,
        subst (Extends loose st (gone l)) same (record {
          file = refl;
          old = take_next st.cursor st.src l h;
          new = sym (append-nil st.out);
          same = tt;
        }),
      )
]

pub add_line-Extends :
    {loose : Bool} (l : Text) (st t : Progress)
    → add_line l st ≡ ok t
    → Extends loose st (added l (l ++ newline ∷ [])) t
add_line-Extends {loose} l st t r =
    let more : Progress = record st {
      out = st.out ++ (l ++ newline ∷ []) ∷ [];
      last_kind = b'+';
    } in
    let same : more ≡ t = cc in
    subst (Extends loose st (added l (l ++ newline ∷ []))) same (record {
      file = refl;
      old = sym (append-nil (take st.cursor st.src));
      new = refl;
      same = ended_line loose;
    })
  where
    ended_line : (loose : Bool) → IsSameLine loose (added l (l ++ newline ∷ []))
    ended_line true = bare-ended l
    ended_line false = refl

pub copy_lines-Traced :
    {loose : Bool} (n from : ℕ) {src names goes comes : List Text} (st t : Progress)
    → Traced loose src names goes comes st
    → copy_lines n from st ≡ ok t
    → Traced loose src names goes comes t
unfolding copy_lines
copy_lines-Traced zero from st t d r = let same : st ≡ t = cc in subst (Traced _ _ _ _ _) same d
copy_lines-Traced {loose} (suc n) from {src} {names} {goes} {comes} st t d r =
    elim (Option-cases (get_elem? st.src st.cursor)) [
      | inl h ↦ absurd (let f = rw (h, copy_line) at r in cc)
      | inr (l, h) ↦
          let next : Progress = record st { out = st.out ++ l ∷ []; cursor = st.cursor + 1 } in
          let f : copy_lines n from next ≡ ok t = rw (h, copy_line) at r in
          let e : Extends loose st (copied l l) next = record {
            file = refl;
            old = take_next st.cursor st.src l h;
            new = refl;
            same = IsSameLine-copied loose l;
          } in
          let x : Traced loose src (names ++ []) (goes ++ []) (comes ++ []) next = extend d e in
          copy_lines-Traced n from next t
            (rw (append-nil names, append-nil goes, append-nil comes) at x) f
    ]
