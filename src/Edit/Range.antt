-- ===== src/Edit/Range.antt =====
-- What a range edit leaves alone.
use fylane.Common.{
  ℕ, zero, suc, ◌+◌, ◌-◌, ◌≤◌, ◌≡◌, refl, sym, ap, ◌∙◌, ◌||◌, List, [], ◌∷◌, ◌++◌, arith, length,
  take, drop, ltb, Bool-cases, inl, inr,
}
use fylane.Common.Text.{Text}
use fylane.Edit.Splice.{EditOp, ok, split_after_lines, concat, replace_range, closed_line}
use fylane.Edit.Unique.{concat-split_after_lines}

append_assoc : (s t u : Text) → s ++ t ++ u ≡ s ++ (t ++ u)
append_assoc [] t u = refl
append_assoc (c ∷ s) t u = ap (◌∷◌ c) (append_assoc s t u)

concat-take : (k : ℕ) (ls : List Text) → concat (take k ls) ++ concat (drop k ls) ≡ concat ls
concat-take zero ls = refl
concat-take (suc k) [] = refl
concat-take (suc k) (l ∷ ls) =
    append_assoc l (concat (take k ls)) (concat (drop k ls)) ∙ ap (λ j. l ++ j) (concat-take k ls)

drop_empty : (k : ℕ) → drop {A = Text} k [] ≡ []
drop_empty zero = refl
drop_empty (suc k) = refl

drop-drop : (a k : ℕ) (ls : List Text) → drop k (drop a ls) ≡ drop (a + k) ls
drop-drop zero k ls = ap (λ j. drop j ls) (omega arith)
drop-drop (suc a) k [] = drop_empty k ∙ sym (drop_empty (suc a + k))
drop-drop (suc a) k (l ∷ ls) =
    let step : suc (a + k) ≡ suc a + k = omega arith in
    drop-drop a k ls ∙ ap (λ j. drop j (l ∷ ls)) step

-- The lines from the first to the last, between what stands before them and behind them.
pub record Ranged (cur out : Text) (op : EditOp) : Type 0 where
  pub in_range : (1 ≤ op.start_line) × (op.start_line ≤ op.end_line)
  pub in_file : op.end_line ≤ length (split_after_lines cur)
  pub before : Text
  pub after : Text
  pub was :
      cur
      ≡ before
        ++ concat (
            take
              (op.end_line - (op.start_line - 1))
              (drop (op.start_line - 1) (split_after_lines cur)))
        ++ after
  pub is_now :
      out
      ≡ before ++ closed_line cur op.content op.end_line (length (split_after_lines cur)) ++ after

-- A range edit that succeeds names lines of the file, and replaces exactly the text of these lines:
-- what stands before the first and behind the last of them stays, byte for byte.
pub replace_range-Ranged :
    (cur out : Text) (op : EditOp) → replace_range cur op ≡ ok out → Ranged cur out op
unfolding replace_range
replace_range-Ranged cur out op e =
    elim (Bool-cases (ltb op.start_line 1 || ltb op.end_line op.start_line)) [
      | inl h ↦ absurd (let f = rw h at e in cc)
      | inr h ↦ elim (Bool-cases (ltb (length (split_after_lines cur)) op.end_line)) [
        | inl k ↦ absurd (let f = rw (h, k) at e in cc)
        | inr k ↦
            let lines = split_after_lines cur in
            let a = op.start_line - 1 in
            let n = op.end_line - a in
            let order : (1 ≤ op.start_line) × (op.start_line ≤ op.end_line) = ground arith in
            let fits : op.end_line ≤ length lines = ground arith in
            let last : a + n ≡ op.end_line = omega arith in
            let f : ok (
                  concat (take a lines)
                  ++ closed_line cur op.content op.end_line (length lines)
                  ++ concat (drop op.end_line lines))
                ≡ ok out =
              rw (h, k) at e in
            let rest : concat (drop a lines)
                ≡ concat (take n (drop a lines)) ++ concat (drop op.end_line lines) =
              sym (concat-take n (drop a lines))
              ∙ ap (λ j. concat (take n (drop a lines)) ++ concat j)
                  (drop-drop a n lines ∙ ap (λ j. drop j lines) last) in
            record {
              in_range = order;
              in_file = fits;
              before = concat (take a lines);
              after = concat (drop op.end_line lines);
              was =
                  sym (concat-split_after_lines cur)
                  ∙ sym (concat-take a lines)
                  ∙ ap (λ j. concat (take a lines) ++ j) rest
                  ∙ sym (
                      append_assoc (concat (take a lines)) (concat (take n (drop a lines)))
                        (concat (drop op.end_line lines)));
              is_now = sym (
                  let g : concat (take a lines)
                        ++ closed_line cur op.content op.end_line (length lines)
                        ++ concat (drop op.end_line lines)
                      ≡ out =
                    cc in
                  g);
            }
      ]
    ]
