-- ===== src/Txn/Claims.antt =====
-- A plan claims each path once: what the set of seen paths of plan knows.
use fylane.Common.{
  ◌≡◌, sym, ◌∙◌, ap, subst, ◌≢◌, Bool, true, false, List, [], ◌∷◌, some, Bool-cases, inl, inr, ◌==◌,
  ==→eq, any, arith,
}
use fylane.Common.Text.{Text, text_eq, text_beq_iff}
use fylane.Txn.Ops.{Access, Workspace, PlannedOp, ready}
use fylane.Txn.Plan.{claim_path, claim_target, claim_paths}
use fylane.Txn.Loaded.{ready_same, and_then_ready}

-- What the sandbox promises: a file has one canonical path, and it is not empty.
pub record Lawful (ws : Workspace) : Type 0 where
  pub one_name :
      (p q : Text) (x y : Access) (abs c d : Text)
      → ws.resolve p x ≡ some (abs, c)
      → ws.resolve q y ≡ some (abs, d)
      → c ≡ d
  pub some_name : (p : Text) (x : Access) (abs c : Text) → ws.resolve p x ≡ some (abs, c) → c ≢ []

abbrev pub has : Text → List Text → Bool
has x seen = any (λ s. s == x) seen

claim_path_ready :
    (c : Text) (seen seen' : List Text)
    → claim_path c seen ≡ ready seen'
    → (has c seen ≡ false) × (c ∷ seen ≡ seen')
unfolding claim_path
claim_path_ready c seen seen' e = elim (Bool-cases (has c seen)) [
  | inl h ↦ absurd (let f = rw h at e in cc)
  | inr h ↦ let f : ready (c ∷ seen) ≡ ready seen' = rw h at e in (h, ready_same f)
]

-- What is known once the paths of an operation are claimed.
pub record Claimed (p : PlannedOp) (seen seen' : List Text) : Type 0 where
  pub grows : (x : Text) → has x seen ≡ true → has x seen' ≡ true
  pub source : has p.canonical seen' ≡ true
  pub target : p.to_canonical ≢ [] → has p.to_canonical seen' ≡ true
  pub fresh_target : p.to_canonical ≢ [] → has p.to_canonical seen ≡ false
  pub two_names : p.to_canonical ≢ [] → p.canonical ≢ p.to_canonical

has_later : (x y : Text) (seen : List Text) → has x seen ≡ true → has x (y ∷ seen) ≡ true
has_later x y seen h = ground arith

has_first : (x : Text) (seen : List Text) → has x (x ∷ seen) ≡ true
has_first x seen = ground (arith, text_beq_iff x x)

not_has :
    (x y : Text) (seen : List Text) → has x (y ∷ seen) ≡ false → (y ≢ x) × (has x seen ≡ false)
not_has x y seen h = (λ e. ground (arith, text_beq_iff y x), ground arith)

pub claims-Claimed :
    (p : PlannedOp) (seen seen' : List Text)
    → claim_paths p seen ≡ ready seen'
    → Claimed p seen seen'
unfolding claim_paths claim_target
claims-Claimed p seen seen' e =
    let (mid, first, second) =
      and_then_ready (claim_path p.canonical seen) (claim_target p.to_canonical) seen' e in
    let (new, grown) = claim_path_ready p.canonical seen mid first in
    elim (Bool-cases (p.to_canonical == [])) [
      | inl h ↦
          let f : ready mid ≡ ready seen' = rw h at second in
          let same : p.canonical ∷ seen ≡ seen' = grown ∙ ready_same f in
          let empty = ==→eq p.to_canonical [] h in
          record {
            grows = λ x k. rw⁻¹ same (has_later x p.canonical seen k);
            source = rw⁻¹ same (has_first p.canonical seen);
            target = λ n. absurd (n empty);
            fresh_target = λ n. absurd (n empty);
            two_names = λ n. absurd (n empty);
          }
      | inr h ↦
          let f : claim_path p.to_canonical mid ≡ ready seen' = rw h at second in
          let (new', grown') = claim_path_ready p.to_canonical mid seen' f in
          let apart =
            not_has p.to_canonical p.canonical seen
              (subst (λ l. has p.to_canonical l ≡ false) (sym grown) new') in
          let same : p.to_canonical ∷ p.canonical ∷ seen ≡ seen' =
            ap (◌∷◌ p.to_canonical) grown ∙ grown' in
          record {
            grows = λ x k.
                subst (λ l. has x l ≡ true) same
                  (has_later x p.to_canonical (p.canonical ∷ seen)
                    (has_later x p.canonical seen k));
            source =
                subst (λ l. has p.canonical l ≡ true) same
                  (has_later p.canonical p.to_canonical (p.canonical ∷ seen)
                    (has_first p.canonical seen));
            target = λ n.
                subst (λ l. has p.to_canonical l ≡ true) same
                  (has_first p.to_canonical (p.canonical ∷ seen));
            fresh_target = λ n. apart.1;
            two_names = λ n. apart.0;
          }
    ]
