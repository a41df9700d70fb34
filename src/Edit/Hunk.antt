-- ===== src/Edit/Hunk.antt =====
-- A patch that is written from a change applies, and makes that change.
use mathlib.Core.List.{append-nil, append_assoc}
use fylane.Common.{
  ℕ, suc, ◌+◌, ◌-◌, ◌≡◌, refl, sym, ◌∙◌, Bool, true, false, List, [], ◌∷◌, ◌++◌, Option, none, some,
  map, Bool-cases, ltb, ==-refl, length, get_elem?, All, length-append, arith, inl, inr,
}
use fylane.Common.Text.{Text, codes, text_eq, has_prefix}
use fylane.Edit.Splice.{newline}
use fylane.Edit.Patch.{
  ok, Progress, copy_line, copy_lines, open_at, open_number, open_hunk, hunk_header, expect, atoi,
  keep_line, drop_line, content_line, other_line, is_file_header, apply_line, apply_lines,
}
use fylane.Edit.Pieces.{trim_nl-ended}

-- A line of a change, without the newline at its end.
pub data Line : Type 0 where
  keep cut put : Text → Line

abbrev pub old_line : Line → List Text
old_line (keep l) = l ∷ []
old_line (cut l) = l ∷ []
old_line (put l) = []

abbrev pub new_line : Line → List Text
new_line (keep l) = l ∷ []
new_line (cut l) = []
new_line (put l) = l ∷ []

abbrev pub each_line : (Line → List Text) → List Line → List Text
each_line f [] = []
each_line f (c ∷ cs) = f c ++ each_line f cs

abbrev pub render_line : Line → Text
render_line (keep l) = b' ' ∷ l
render_line (cut l) = b'-' ∷ l
render_line (put l) = b'+' ∷ l

-- What the format can say of a line: with its mark it is not taken for a file header.
abbrev pub IsPlain : Line → Type 0
IsPlain (keep l) = Unit
IsPlain (cut l) = has_prefix l (codes "-- ") ≡ false
IsPlain (put l) = has_prefix l (codes "++ ") ≡ false

-- Lines with a newline at the end of each.
abbrev pub ended : List Text → List Text
ended = map (λ l. l ++ newline ∷ [])

abbrev pub progress : List Text → List Text → ℕ → Bool → ℕ → Progress
progress src out n saw kind = record {
  src = src;
  out = out;
  cursor = n;
  saw_hunk = saw;
  last_kind = kind;
}

get_elem?-append_here {ℓ} :
    {A : Type ℓ} (xs ys : List A) (y : A) → get_elem? (xs ++ y ∷ ys) (length xs) ≡ some y
get_elem?-append_here [] ys y = refl
get_elem?-append_here (x ∷ xs) ys y = get_elem?-append_here xs ys y

at_cursor :
    (src done todo : List Text) (l : Text) (n : ℕ)
    → src ≡ done ++ l ∷ todo
    → n ≡ length done
    → get_elem? src n ≡ some l
at_cursor src done todo l n e k = rw (e, k) (get_elem?-append_here done todo l)

pub length-snoc {ℓ} : {A : Type ℓ} (xs : List A) (x : A) → length (xs ++ x ∷ []) ≡ length xs + 1
length-snoc xs x = length-append xs (x ∷ [])

abbrev pub kind_after : ℕ → List Line → ℕ
kind_after kind [] = kind
kind_after kind (keep l ∷ cs) = kind_after b' ' cs
kind_after kind (cut l ∷ cs) = kind_after b'-' cs
kind_after kind (put l ∷ cs) = kind_after b'+' cs

-- The lines of a hunk, from the place where they stand in the file.
module _ (src rest : List Text) (more : List Text) where
  -- What the lines are to do, from the progress with this output and cursor.
  abbrev pub Applies : List Line → List Text → ℕ → ℕ → Type 0
  Applies cs out n kind =
      apply_lines (map render_line cs ++ more) (progress src out n true kind)
      ≡ apply_lines more (
          progress src (out ++ ended (each_line new_line cs)) (n + length (each_line old_line cs))
            true (kind_after kind cs))

  pub content-Applies :
      (cs : List Line) (done out : List Text) (n kind : ℕ)
      → src ≡ done ++ (ended (each_line old_line cs) ++ rest)
      → n ≡ length done
      → All IsPlain cs
      → Applies cs out n kind
  unfolding apply_lines apply_line content_line keep_line drop_line other_line has_prefix
  content-Applies [] done out n kind e at plain =
      let z : n + 0 ≡ n = omega arith in rw (z, append-nil out)
  content-Applies (keep l ∷ cs) done out n kind e at (p, plain) =
      let l' = l ++ newline ∷ [] in
      let todo = ended (each_line old_line cs) ++ rest in
      let here = at_cursor src done todo l' n e at in
      let ih =
        content-Applies cs (done ++ l' ∷ []) (out ++ l' ∷ []) (n + 1) b' '
          (e ∙ sym (append_assoc done (l' ∷ []) todo)) (omega (arith, length-snoc done l')) plain in
      let next : n + 1 + length (each_line old_line cs) ≡ n + suc (length (each_line old_line cs)) =
        omega arith in
      rw (here, trim_nl-ended l, ==-refl l)
        (rw (append_assoc out (l' ∷ []) (ended (each_line new_line cs)), next) at ih)
  content-Applies (cut l ∷ cs) done out n kind e at (p, plain) =
      let l' = l ++ newline ∷ [] in
      let todo = ended (each_line old_line cs) ++ rest in
      let here = at_cursor src done todo l' n e at in
      let ih =
        content-Applies cs (done ++ l' ∷ []) out (n + 1) b'-'
          (e ∙ sym (append_assoc done (l' ∷ []) todo)) (omega (arith, length-snoc done l')) plain in
      let next : n + 1 + length (each_line old_line cs) ≡ n + suc (length (each_line old_line cs)) =
        omega arith in
      rw (p, here, trim_nl-ended l, ==-refl l) (rw next at ih)
  content-Applies (put l ∷ cs) done out n kind e at (p, plain) =
      let l' = l ++ newline ∷ [] in
      let ih = content-Applies cs done (out ++ l' ∷ []) n b'+' e at plain in
      rw p (rw (append_assoc out (l' ∷ []) (ended (each_line new_line cs))) at ih)

header_prefix : (l d : Text) → hunk_header l ≡ some d → has_prefix l (codes "@@ -") ≡ true
unfolding hunk_header expect
header_prefix l d h = elim (Bool-cases (has_prefix l (codes "@@ -"))) [
  | inl k ↦ k
  | inr k ↦ let n : ◌≡◌ {A = Option Text} none (some d) = rw k at h in cc
]

header_kind :
    (l : Text)
    → has_prefix l (codes "@@ -") ≡ true
    → (has_prefix l (codes "@@") ≡ true) × (is_file_header l ≡ false)
unfolding has_prefix
header_kind [] h = cc
header_kind (a ∷ []) h = ground arith
header_kind (a ∷ b ∷ s) h = ground arith

copies :
    (src todo : List Text) (from : ℕ) (saw : Bool) (kind : ℕ) (skipped done out : List Text) (n : ℕ)
    → src ≡ done ++ (skipped ++ todo)
    → n ≡ length done
    → copy_lines (length skipped) from (progress src out n saw kind)
      ≡ ok (progress src (out ++ skipped) (n + length skipped) saw kind)
unfolding copy_lines copy_line
copies src todo from saw kind [] done out n e at =
    let z : n + 0 ≡ n = omega arith in rw (z, append-nil out)
copies src todo from saw kind (l ∷ skipped) done out n e at =
    let here = at_cursor src done (skipped ++ todo) l n e at in
    let ih =
      copies src todo from saw kind skipped (done ++ l ∷ []) (out ++ l ∷ []) (n + 1)
        (e ∙ sym (append_assoc done (l ∷ []) (skipped ++ todo)))
        (omega (arith, length-snoc done l)) in
    let next : n + 1 + length skipped ≡ n + suc (length skipped) = omega arith in
    rw here (rw (append_assoc out (l ∷ []) skipped, next) at ih)

-- A header names the first line of its hunk, counted from 1.
abbrev pub Names : Text → ℕ → Type 0
Names header from = (d : Text) × (hunk_header header ≡ some d) × (atoi d ≡ some from)

pub opens :
    (last : Bool) (header : Text) (src todo : List Text) (saw : Bool) (kind : ℕ)
    (skipped done out : List Text) (n : ℕ)
    → Names header (suc (n + length skipped))
    → src ≡ done ++ (skipped ++ todo)
    → n ≡ length done
    → apply_line last header (progress src out n saw kind)
      ≡ ok (progress src (out ++ skipped) (n + length skipped) true 0)
unfolding apply_line open_hunk open_number open_at
opens last header src todo saw kind skipped done out n (d, h, a) e at =
    let (k, f) = header_kind header (header_prefix header d h) in
    let start : suc (n + length skipped) - 1 ≡ n + length skipped = omega arith in
    let forward : ltb (n + length skipped) n ≡ false = ground arith in
    let rounds : n + length skipped - n ≡ length skipped = omega arith in
    rw (
      f,
      k,
      h,
      a,
      start,
      forward,
      rounds,
      copies src todo (suc (n + length skipped)) saw kind skipped done out n e at,
    )
