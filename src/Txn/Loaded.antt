-- ===== src/Txn/Loaded.antt =====
-- What planCreate, planUpdate and planMove record of an operation.
use fylane.Common.{
  ℕ, ◌≡◌, refl, sym, ap, subst, ◌≢◌, inl, inr, false, ◌&&◌, not, [], Option, none, some, Bool-cases,
  ltb, length, ◌==◌, ◌||◌,
}
use fylane.Common.Text.{Text, text_eq, equal_fold, codes}
use fylane.Common.Dict.{lookup}
use fylane.Txn.{create, update, move}
use fylane.Txn.Disk.{Node, file, dir, link, special, Nodes, exists}
use fylane.Txn.Ops.{
  Operation, Access, op_write, op_delete, Workspace, PlannedOp, Planned, ready, conflicted, invalid,
  and_then, resolved, planned_at, max_op_content_bytes, no_preview,
}
use fylane.Txn.Plan.{
  load_file, load_found, load_base, created, plan_create, updated, plan_update, moved, with_target,
  plan_move,
}
use fylane.Txn.Landed.{Recorded}

pub ready_same {ℓ} : {A : Type ℓ} {a b : A} → ready a ≡ ready b → a ≡ b
ready_same e = cc

-- A chain that is ready was ready at its first step.
pub and_then_ready {ℓ κ} :
    {A : Type ℓ} {B : Type κ} (m : Planned A) (f : A → Planned B) (b : B)
    → and_then m f ≡ ready b
    → (a : A) × (m ≡ ready a) × (f a ≡ ready b)
and_then_ready (ready a) f b e = (a, refl, e)
and_then_ready (conflicted c) f b e = cc
and_then_ready (invalid x) f b e = cc

-- A pair of paths that the workspace gave.
abbrev pub Located : Workspace → Text → Text → Type 0
Located ws abs canonical =
    (path : Text) × (access : Access) × (ws.resolve path access ≡ some (abs, canonical))

-- What is known of an operation of a plan: its type is one of the four, the hashes are those of the
-- bytes, and the workspace gave its paths.
pub record Grounded (hash : Text → Text) (ws : Workspace) (p : PlannedOp) : Type 0 where
  pub recorded : Recorded hash p.op.op_type p
  pub based : p.op.op_type ≢ create → p.is_dir ≡ false → p.before_sha ≡ hash p.old_data
  pub at : Located ws p.abs p.canonical
  pub to_at : p.op.op_type ≡ move → Located ws p.to_abs p.to_canonical

pub resolved_ready :
    (o : Option (Text × Text)) (a : Text × Text) → resolved o ≡ ready a → o ≡ some a
resolved_ready none a e = cc
resolved_ready (some b) a e = ap some (ready_same e)

module _ (hash : Text → Text) where
  abbrev pub loaded : PlannedOp → Text → ℕ → PlannedOp
  loaded p b m = record p { old_data = b; old_mode = m; before_sha = hash b }

  load_file_ready :
      (p q : PlannedOp) (b : Text) (m : ℕ) → load_file hash p b m ≡ ready q → loaded p b m ≡ q
  unfolding load_file
  load_file_ready p q b m e = elim (Bool-cases (ltb max_op_content_bytes (length b))) [
    | inl h ↦ absurd (let f = rw h at e in cc)
    | inr h ↦ elim (Bool-cases (p.op.expected_sha256 == [])) [
      | inl k ↦ absurd (let f = rw (h, k) at e in cc)
      | inr k ↦ elim (Bool-cases (equal_fold p.op.expected_sha256 (hash b))) [
        | inr l ↦ absurd (let f = rw (h, k, l) at e in cc)
        | inl l ↦ let f : ready (loaded p b m) ≡ ready q = rw (h, k, l) at e in ready_same f
      ]
    ]
  ]

  load_found_ready :
      (p q : PlannedOp) (o : Option Node)
      → load_found hash p o ≡ ready q
      → (b : Text) × (m : ℕ) × (loaded p b m ≡ q)
  unfolding load_found
  load_found_ready p q none e = cc
  load_found_ready p q (some (file b m)) e = (b, m, load_file_ready p q b m e)
  load_found_ready p q (some dir) e = cc
  load_found_ready p q (some (link l)) e = cc
  load_found_ready p q (some special) e = cc

  pub load_base_ready :
      (n : Nodes) (p q : PlannedOp)
      → load_base hash n p ≡ ready q
      → (b : Text) × (m : ℕ) × (loaded p b m ≡ q)
  unfolding load_base
  load_base_ready n p q e = load_found_ready p q (lookup p.abs n) e

  module _ (diff_text : Text → Text → Text → Text) (ws : Workspace) (n : Nodes) where
    pub update-Grounded :
        (op : Operation) (p : PlannedOp)
        → op.op_type ≡ update
        → plan_update hash diff_text ws n op ≡ ready p
        → Grounded hash ws p
    unfolding plan_update
    update-Grounded op p t e =
        let (at, r, f) = and_then_ready (resolved (ws.resolve op.path op_write)) _ p e in
        let (q, l, g) = and_then_ready (load_base hash n (planned_at op at)) _ p f in
        let (b, m, same) = load_base_ready n (planned_at op at) q l in
        subst (Grounded hash ws) (ready_same g) (
          subst (λ x. Grounded hash ws (updated hash diff_text ws n x)) same
            (record {
              recorded =
                  subst
                    (λ s.
                      Recorded hash s (updated hash diff_text ws n (loaded (planned_at op at) b m)))
                    (sym t) (refl, refl);
              based = λ c f. refl;
              at = (op.path, op_write, resolved_ready (ws.resolve op.path op_write) at r);
              to_at = λ m. absurd cc;
            }))

    abbrev new_file : PlannedOp → PlannedOp
    new_file p = record p {
      after_sha = hash p.op.content;
      status = codes "created";
      preview = record no_preview {
        path = p.canonical;
        diff = diff_text p.canonical [] p.op.content;
        sensitive = ws.sensitive p.canonical;
      };
    }

    created_ready : (p q : PlannedOp) → created hash diff_text ws n p ≡ ready q → new_file p ≡ q
    unfolding created
    created_ready p q e = elim (Bool-cases (exists p.abs n)) [
      | inl h ↦ absurd (let f = rw h at e in cc)
      | inr h ↦ let f : ready (new_file p) ≡ ready q = rw h at e in ready_same f
    ]

    pub create-Grounded :
        (op : Operation) (p : PlannedOp)
        → op.op_type ≡ create
        → plan_create hash diff_text ws n op ≡ ready p
        → Grounded hash ws p
    unfolding plan_create
    create-Grounded op p t e =
        let (at, r, f) = and_then_ready (resolved (ws.resolve op.path op_write)) _ p e in
        subst (Grounded hash ws) (created_ready (planned_at op at) p f) (record {
          recorded = subst (λ s. Recorded hash s (new_file (planned_at op at))) (sym t) refl;
          based = λ c f. absurd (c t);
          at = (op.path, op_write, resolved_ready (ws.resolve op.path op_write) at r);
          to_at = λ m. absurd cc;
        })

    abbrev moved_file : PlannedOp → PlannedOp
    moved_file p = record p {
      after_sha = p.before_sha;
      status = codes "moved";
      preview = record no_preview {
        op_type = move;
        path = p.canonical;
        to = p.to_canonical;
        sensitive = ws.sensitive p.canonical || ws.sensitive p.to_canonical;
      };
    }

    moved_ready : (p q : PlannedOp) → moved hash diff_text ws n p ≡ ready q → moved_file p ≡ q
    unfolding moved
    moved_ready p q e = elim (Bool-cases (exists p.to_abs n && not (p.to_abs == p.abs))) [
      | inl h ↦ absurd (let f = rw h at e in cc)
      | inr h ↦ let f : ready (moved_file p) ≡ ready q = rw h at e in ready_same f
    ]

    pub move-Grounded :
        (op : Operation) (p : PlannedOp)
        → op.op_type ≡ move
        → plan_move hash diff_text ws n op ≡ ready p
        → Grounded hash ws p
    unfolding plan_move
    move-Grounded op p t e =
        let (at, r, f) = and_then_ready (resolved (ws.resolve op.from op_delete)) _ p e in
        let (to, s, g) = and_then_ready (resolved (ws.resolve op.to op_write)) _ p f in
        let start = with_target hash diff_text ws n (planned_at op at) to in
        let (q, l, k) = and_then_ready (load_base hash n start) _ p g in
        let (b, m, same) = load_base_ready n start q l in
        subst (Grounded hash ws) (moved_ready q p k) (
          subst (λ x. Grounded hash ws (moved_file x)) same
            (record {
              recorded =
                  subst (λ s. Recorded hash s (moved_file (loaded start b m))) (sym t) (refl, refl);
              based = λ c f. refl;
              at = (op.from, op_delete, resolved_ready (ws.resolve op.from op_delete) at r);
              to_at = λ m. (op.to, op_write, resolved_ready (ws.resolve op.to op_write) to s);
            }))
