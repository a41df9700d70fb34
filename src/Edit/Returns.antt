-- ===== src/Edit/Returns.antt =====
-- companion/internal/mcpserver/preserve.go: returns before newlines, taken away and put back.
use fylane.Common.{
  ℕ, ◌+◌, ◌≡◌, refl, sym, ap, ◌∙◌, inl, inr, Bool, true, false, ◌&&◌, ◌||◌, not, [], ◌∷◌,
  if◌then◌else◌, ltb, nat_beq, nat_beq_iff, ◌==◌, nat_eq, Bool-cases, arith,
}
use fylane.Common.Text.{Text, text_eq, has_prefix, contains}
use fylane.Edit.Splice.{newline}
use fylane.Edit.Endings.{
  starts_line, return_byte, to_lf, put_returns, to_crlf, count_crlf, count_lf, profile,
  with_endings,
}

-- Two returns before a newline.
abbrev pub double_return : Text
double_return = return_byte ∷ return_byte ∷ newline ∷ []

-- The newlines with no return before them; the Boolean says whether one stands before the text.
count_bare : Bool → Text → ℕ
count_bare behind [] = 0
count_bare behind (c ∷ s) =
    (if nat_beq c newline && not behind then 1 else 0) + count_bare (nat_beq c return_byte) s

count_lf-bare :
    (behind : Bool) (s : Text)
    → count_lf s ≡ count_bare behind s + count_crlf s + (if behind && starts_line s then 1 else 0)
unfolding count_bare count_lf count_crlf
count_lf-bare behind [] = ground arith
count_lf-bare behind (c ∷ s) = let rest = count_lf-bare (nat_beq c return_byte) s in ground arith

-- Where each newline has its return, the returns that toLF takes away come back.
put_returns-to_lf :
    (behind : Bool) (s : Text)
    → count_bare behind s ≡ 0
    → put_returns (to_lf s) ≡ (if behind && starts_line s then return_byte ∷ s else s)
unfolding put_returns to_lf count_bare
put_returns-to_lf behind [] h = ground arith
put_returns-to_lf behind (c ∷ s) h =
    let rest = put_returns-to_lf (nat_beq c return_byte) s (ground arith) in
    elim (Bool-cases (nat_beq c newline)) [
      | inl e ↦
          let r : nat_beq c return_byte ≡ false = ground arith in
          let b : behind ≡ true = ground arith in
          rw (e, r, b) (rw e (ap (λ (t : Text). return_byte ∷ c ∷ t) (rw r at rest)))
      | inr e ↦
          let k : (behind && nat_beq c newline) ≡ false = ground arith in
          elim (Bool-cases (nat_beq c return_byte)) [
            | inl r ↦ elim (Bool-cases (starts_line s)) [
              | inl n ↦
                  rw (k, r, n)
                    (rw (r, n) at rest
                      ∙ ap (λ (d : ℕ). d ∷ s) (sym ((nat_beq_iff c return_byte).0 r)))
              | inr n ↦ rw (k, r, n) (rw e (ap (◌∷◌ c) (rw (r, n) at rest)))
            ]
            | inr r ↦ rw (k, r) (rw e (ap (◌∷◌ c) (rw r at rest)))
          ]
    ]

-- With no return before a newline, none goes.
to_lf_plain : (s : Text) → count_crlf s ≡ 0 → to_lf s ≡ s
unfolding to_lf count_crlf
to_lf_plain [] h = refl
to_lf_plain (c ∷ s) h =
    let one : (nat_beq c return_byte && starts_line s) ≡ false = ground arith in
    rw one (ap (◌∷◌ c) (to_lf_plain s (ground arith)))

starts_line-to_lf :
    (s : Text)
    → starts_line (to_lf s) ≡ (starts_line s || has_prefix s (return_byte ∷ newline ∷ []))
unfolding to_lf has_prefix
starts_line-to_lf [] = refl
starts_line-to_lf (c ∷ []) = ground arith
starts_line-to_lf (c ∷ d ∷ s) = elim (Bool-cases (nat_beq c return_byte)) [
  | inl r ↦
      let e : nat_beq c newline ≡ false = ground arith in
      elim (Bool-cases (nat_beq d newline)) [
        | inl n ↦
            let f : nat_beq d return_byte ≡ false = ground arith in rw (r, n, e, f) (rw n refl)
        | inr n ↦ rw (r, n, e) refl
      ]
  | inr r ↦ rw r (ground arith)
]

count_crlf-to_lf : (s : Text) → contains s double_return ≡ false → count_crlf (to_lf s) ≡ 0
unfolding to_lf count_crlf contains has_prefix
count_crlf-to_lf [] h = refl
count_crlf-to_lf (c ∷ s) h =
    let rest = count_crlf-to_lf s (ground arith) in
    let ahead = starts_line-to_lf s in
    elim (Bool-cases (nat_beq c return_byte)) [
      | inl r ↦ elim (Bool-cases (starts_line s)) [
        | inl n ↦ rw (r, n) rest
        | inr n ↦
            let apart : has_prefix s (return_byte ∷ newline ∷ []) ≡ false = ground arith in
            let kept : starts_line (to_lf s) ≡ false = ground arith in rw (r, n) (ground arith)
      ]
      | inr r ↦ rw r (ground arith)
    ]

-- The text of a file, in the form that it has in the file.
pub with_endings-profile :
    (text enc : Text)
    → contains text double_return ≡ false
    → let p = profile text enc in with_endings p (if p.crlf then to_lf text else text) ≡ text
unfolding with_endings profile to_crlf
with_endings-profile text enc h = elim (Bool-cases (count_crlf text == 0)) [
  | inl z ↦
      let none_there = to_lf_plain text ((nat_beq_iff (count_crlf text) 0).0 z) in
      let not_crlf : (ltb 0 (count_crlf text) && count_crlf text == count_lf text) ≡ false =
        ground arith in
      rw (z, not_crlf) none_there
  | inr z ↦ elim (Bool-cases (count_crlf text == count_lf text)) [
    | inl e ↦
        let some_there : ltb 0 (count_crlf text) ≡ true = ground arith in
        let once : to_lf (to_lf text) ≡ to_lf text =
          to_lf_plain (to_lf text) (count_crlf-to_lf text h) in
        let counted = count_lf-bare false text in
        let no_bare : count_bare false text ≡ 0 = ground arith in
        rw (z, e, some_there, once, once) (put_returns-to_lf false text no_bare)
    | inr e ↦
        let not_crlf : (ltb 0 (count_crlf text) && count_crlf text == count_lf text) ≡ false =
          ground arith in
        rw (not_crlf, z, e) refl
  ]
]

starts_line-put_returns : (s : Text) → starts_line (put_returns s) ≡ false
unfolding put_returns
starts_line-put_returns [] = refl
starts_line-put_returns (c ∷ s) = elim (Bool-cases (nat_beq c newline)) [
  | inl e ↦ rw e refl
  | inr e ↦ rw e e
]

pub to_lf-put_returns : (s : Text) → to_lf (put_returns s) ≡ s
unfolding to_lf put_returns
to_lf-put_returns [] = refl
to_lf-put_returns (c ∷ s) = elim (Bool-cases (nat_beq c newline)) [
  | inl e ↦
      let r : nat_beq c return_byte ≡ false = ground arith in
      rw e (rw (e, r) (ap (◌∷◌ c) (to_lf-put_returns s)))
  | inr e ↦
      let ahead = starts_line-put_returns s in
      let k : (nat_beq c return_byte && starts_line (put_returns s)) ≡ false = ground arith in
      rw (e, k) (ap (◌∷◌ c) (to_lf-put_returns s))
]
