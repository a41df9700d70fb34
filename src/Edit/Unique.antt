-- ===== src/Edit/Unique.antt =====
-- Where an exact edit lands, and what a range edit leaves alone.
use fylane.Common.{
  ℕ, zero, suc, ◌+◌, ◌-◌, ◌≡◌, refl, sym, ap, ◌∙◌, ◌≢◌, true, false, List, [], ◌∷◌, ◌++◌, arith,
  length, drop, nat_beq, ◌==◌, ==→ne, Bool-cases, inl, inr, subst,
}
use fylane.Common.Text.{Text, text_eq, has_prefix, contains}
use fylane.Edit.Splice.{
  ok, count, replace_first, splice_counted, splice_unique, split_after_lines, concat, push_byte,
  newline,
}

has_prefix-drop : (s m : Text) → has_prefix s m ≡ true → m ++ drop (length m) s ≡ s
unfolding has_prefix
has_prefix-drop s [] h = refl
has_prefix-drop [] (d ∷ m) h = cc
has_prefix-drop (c ∷ s) (d ∷ m) h = ground (arith, has_prefix-drop s m)

-- Bytes that are skipped hold no match.
count-drop : (m : Text) (k : ℕ) (s : Text) → count m k s ≡ count m 0 (drop k s)
unfolding count
count-drop m zero s = refl
count-drop m (suc k) [] = refl
count-drop m (suc k) (c ∷ s) = count-drop m k s

count-contains : (m s : Text) → m ≢ [] → count m 0 s ≡ 0 → contains s m ≡ false
unfolding count contains
count-contains [] s n h = absurd (n refl)
count-contains (d ∷ m) [] n h = refl
count-contains (d ∷ m) (c ∷ s) n h = elim (Bool-cases (has_prefix (c ∷ s) (d ∷ m))) [
  | inl f ↦ absurd (let g : 1 + count (d ∷ m) (suc (length m) - 1) s ≡ 0 = rw f at h in omega arith)
  | inr f ↦
      rw f
        (count-contains (d ∷ m) s n (let g : 0 + count (d ∷ m) 0 s ≡ 0 = rw f at h in omega arith))
]

-- The edit took the match that stands between `before` and `after`, and only that one.
pub record Spliced (cur m r out : Text) : Type 0 where
  pub before : Text
  pub after : Text
  pub was : cur ≡ before ++ m ++ after
  pub is_now : out ≡ before ++ r ++ after
  pub no_other : contains after m ≡ false

first_here :
    (d c : ℕ) (m r s : Text)
    → has_prefix (c ∷ s) (d ∷ m) ≡ true
    → count (d ∷ m) 0 (c ∷ s) ≡ 1
    → Spliced (c ∷ s) (d ∷ m) r (replace_first (d ∷ m) r (c ∷ s))
unfolding count replace_first
first_here d c m r s f h =
    let hits : 1 + count (d ∷ m) (suc (length m) - 1) s ≡ 1 = rw f at h in
    let rest : count (d ∷ m) (suc (length m) - 1) s ≡ 0 = omega arith in
    let pred : suc (length m) - 1 ≡ length m = omega arith in
    let none_left : count (d ∷ m) 0 (drop (length m) s) ≡ 0 =
      sym (ap (λ k. count (d ∷ m) 0 (drop k s)) pred)
      ∙ sym (count-drop (d ∷ m) (suc (length m) - 1) s)
      ∙ rest in
    record {
      before = [];
      after = drop (length m) s;
      was = sym (has_prefix-drop (c ∷ s) (d ∷ m) f);
      is_now = rw f refl;
      no_other = count-contains (d ∷ m) (drop (length m) s) (λ e. cc) none_left;
    }

replace_first-Spliced :
    (m r s : Text) → m ≢ [] → count m 0 s ≡ 1 → Spliced s m r (replace_first m r s)
unfolding count replace_first
replace_first-Spliced [] r s n h = absurd (n refl)
replace_first-Spliced (d ∷ m) r [] n h = absurd cc
replace_first-Spliced (d ∷ m) r (c ∷ s) n h = elim (Bool-cases (has_prefix (c ∷ s) (d ∷ m))) [
  | inl f ↦ first_here d c m r s f h
  | inr f ↦
      let g0 : 0 + count (d ∷ m) 0 s ≡ 1 = rw f at h in
      let g : count (d ∷ m) 0 s ≡ 1 = omega arith in
      let later = replace_first-Spliced (d ∷ m) r s n g in
      record {
        before = c ∷ later.before;
        after = later.after;
        was = ap (◌∷◌ c) later.was;
        is_now = rw f (ap (◌∷◌ c) later.is_now);
        no_other = later.no_other;
      }
]

splice_counted-Spliced :
    (k : ℕ) (cur m r out : Text)
    → count m 0 cur ≡ k
    → m ≢ []
    → splice_counted k cur m r ≡ ok out
    → Spliced cur m r out
unfolding splice_counted
splice_counted-Spliced zero cur m r out h n e = absurd cc
splice_counted-Spliced (suc zero) cur m r out h n e =
    let same : replace_first m r cur ≡ out = cc in
    subst (Spliced cur m r) same (replace_first-Spliced m r cur n h)
splice_counted-Spliced (suc (suc k)) cur m r out h n e = absurd cc

-- An exact edit that succeeds replaces one occurrence of the match and nothing else, and the
-- match does not occur again behind it.
pub splice_unique-Spliced :
    (cur m r out : Text) → splice_unique cur m r ≡ ok out → Spliced cur m r out
unfolding splice_unique
splice_unique-Spliced cur m r out e = elim (Bool-cases (m == [])) [
  | inl h ↦ absurd (let f = rw h at e in cc)
  | inr h ↦ splice_counted-Spliced (count m 0 cur) cur m r out refl (==→ne m h) (rw h at e)
]

concat-push_byte : (c : ℕ) (ls : List Text) → concat (push_byte c ls) ≡ c ∷ concat ls
concat-push_byte c [] = refl
concat-push_byte c (l ∷ ls) = refl

-- The lines of a text are the text.
pub concat-split_after_lines : (s : Text) → concat (split_after_lines s) ≡ s
unfolding split_after_lines
concat-split_after_lines [] = refl
concat-split_after_lines (c ∷ s) = elim (Bool-cases (nat_beq c newline)) [
  | inl h ↦ rw h (ap (◌∷◌ c) (concat-split_after_lines s))
  | inr h ↦
      rw h (concat-push_byte c (split_after_lines s) ∙ ap (◌∷◌ c) (concat-split_after_lines s))
]
