-- ===== src/Txn/Planned.antt =====
-- What apply makes of a plan.
use fylane.Common.{
  ◌≡◌, refl, sym, subst, ◌≢◌, true, false, List, [], ◌∷◌, some, none, All, Bool-cases, inl, inr,
  ◌==◌, ne→==,
}
use fylane.Common.Text.{Text, text_eq, equal_fold}
use fylane.Txn.{OpType, create, update, move, delete, other}
use fylane.Txn.Disk.{Nodes, Disk, content}
use fylane.Txn.Ops.{Operation, Workspace, PlannedOp, ready}
use fylane.Txn.Plan.{claim_paths, plan_one, plan_ops, plan}
use fylane.Txn.Apply.{apply, failed, applied, ApplyError}
use fylane.Txn.Restore.{touches}
use fylane.Txn.Unwind.{Sound, Apart, apply-restores}
use fylane.Txn.Landed.{Landed, Recorded, apply-Landed}
use fylane.Txn.Loaded.{Grounded, Located, ready_same, and_then_ready}
use fylane.Txn.Grounded.{plan_one-Grounded, plan_ops-Grounded}
use fylane.Txn.Claims.{Lawful, has, Claimed, claims-Claimed}

-- What apply needs of an operation, once no file stands at the target of a move.
abbrev pub Prepared : Nodes → PlannedOp → Type 0
Prepared now p = (p.is_dir ≡ false) × (p.op.op_type ≡ move → content now p.to_abs ≡ none)

module _ (hash : Text → Text) (diff_text : Text → Text → Text → Text) (ws : Workspace)
    (lawful : Lawful ws) (n : Nodes) where
  -- The target of a move of the plan is named by no claim before it.
  abbrev Fresh : List Text → PlannedOp → Type 0
  Fresh seen q = q.op.op_type ≡ move → (q.to_canonical ≢ []) × (has q.to_canonical seen ≡ false)

  target_named : (q : PlannedOp) → Grounded hash ws q → q.op.op_type ≡ move → q.to_canonical ≢ []
  target_named q g m =
      let (path, access, e) = g.to_at m in lawful.some_name path access q.to_abs q.to_canonical e

  new_earlier :
      (p q : PlannedOp) (seen seen' : List Text)
      → Claimed p seen seen'
      → Fresh seen' q
      → Fresh seen q
  new_earlier p q seen seen' c f m =
      let (named, new) = f m in
      (
        named,
        elim (Bool-cases (has q.to_canonical seen)) [
          | inr h ↦ h
          | inl h ↦ let k = c.grows q.to_canonical h in cc
        ],
      )

  each_new_earlier :
      (p : PlannedOp) (qs : List PlannedOp) (seen seen' : List Text)
      → Claimed p seen seen'
      → All (Fresh seen') qs
      → All (Fresh seen) qs
  each_new_earlier p [] seen seen' c fs = tt
  each_new_earlier p (q ∷ qs) seen seen' c (f, fs) =
      (new_earlier p q seen seen' c f, each_new_earlier p qs seen seen' c fs)

  plan_ops-Fresh :
      (seen : List Text) (ops : List Operation) (ps : List PlannedOp)
      → plan_ops hash diff_text ws n seen ops ≡ ready ps
      → All (Fresh seen) ps
  unfolding plan_ops
  plan_ops-Fresh seen [] ps e = subst (All (Fresh seen)) (ready_same e) tt
  plan_ops-Fresh seen (op ∷ ops) ps e =
      let (p, one, f) = and_then_ready (plan_one hash diff_text ws n op) _ ps e in
      let (seen', claims, g) = and_then_ready (claim_paths p seen) _ ps f in
      let (qs, rest, k) = and_then_ready (plan_ops hash diff_text ws n seen' ops) _ ps g in
      let c = claims-Claimed p seen seen' claims in
      let grounded = plan_one-Grounded hash diff_text ws n op p one in
      subst (All (Fresh seen)) (ready_same k) (
        λ m. let named = target_named p grounded m in (named, c.fresh_target named),
        each_new_earlier p qs seen seen' c (plan_ops-Fresh seen' ops qs rest),
      )

  -- Two located paths under different names are different.
  apart_paths : (a b c d : Text) → Located ws a c → Located ws b d → c ≢ d → a ≢ b
  apart_paths a b c d (p, x, e) (q, y, f) names same =
      names (lawful.one_name p q x y b c d (subst (λ z. ws.resolve p x ≡ some (z, c)) same e) f)

  has_apart : (c d : Text) (seen : List Text) → has c seen ≡ true → has d seen ≡ false → c ≢ d
  has_apart c d seen h k e = let f : has d seen ≡ true = subst (λ z. has z seen ≡ true) e h in cc

  untouched :
      (t : OpType) (p q : PlannedOp) (seen seen' : List Text)
      → p.op.op_type ≡ t
      → Grounded hash ws p
      → Claimed p seen seen'
      → Grounded hash ws q
      → Fresh seen' q
      → q.op.op_type ≡ move
      → touches t p q.to_abs ≡ false
  untouched t p q seen seen' e gp c gq f m =
      let (named, new) = f m in
      let first : (p.abs == q.to_abs) ≡ false = ne→== p.abs q.to_abs (
        apart_paths p.abs q.to_abs p.canonical q.to_canonical gp.at (gq.to_at m)
          (has_apart p.canonical q.to_canonical seen' c.source new)) in
      by_type t e first
    where
      second : p.op.op_type ≡ move → (p.to_abs == q.to_abs) ≡ false
      second k =
          let own = target_named p gp k in
          ne→== p.to_abs q.to_abs (
            apart_paths p.to_abs q.to_abs p.to_canonical q.to_canonical (gp.to_at k) (gq.to_at m)
              (has_apart p.to_canonical q.to_canonical seen' (c.target own) (f m).1))

      by_type :
          (t : OpType)
          → p.op.op_type ≡ t
          → (p.abs == q.to_abs) ≡ false
          → touches t p q.to_abs ≡ false
      by_type create e h = h
      by_type update e h = h
      by_type move e h = let k = second e in rw (h, k) refl
      by_type delete e h = h
      by_type (other x) e h = h

  All-untouched :
      (p : PlannedOp) (qs : List PlannedOp) (seen seen' : List Text)
      → Grounded hash ws p
      → Claimed p seen seen'
      → All (Grounded hash ws) qs
      → All (Fresh seen') qs
      → All (λ q. q.op.op_type ≡ move → touches p.op.op_type p q.to_abs ≡ false) qs
  All-untouched p [] seen seen' gp c gs fs = tt
  All-untouched p (q ∷ qs) seen seen' gp c (g, gs) (f, fs) = (
    λ m. untouched p.op.op_type p q seen seen' refl gp c g f m,
    All-untouched p qs seen seen' gp c gs fs,
  )

  plan_ops-Apart :
      (seen : List Text) (ops : List Operation) (ps : List PlannedOp)
      → plan_ops hash diff_text ws n seen ops ≡ ready ps
      → Apart ps
  unfolding plan_ops
  plan_ops-Apart seen [] ps e = subst Apart (ready_same e) tt
  plan_ops-Apart seen (op ∷ ops) ps e =
      let (p, one, f) = and_then_ready (plan_one hash diff_text ws n op) _ ps e in
      let (seen', claims, g) = and_then_ready (claim_paths p seen) _ ps f in
      let (qs, rest, k) = and_then_ready (plan_ops hash diff_text ws n seen' ops) _ ps g in
      subst Apart (ready_same k) (
        All-untouched p qs seen seen' (plan_one-Grounded hash diff_text ws n op p one)
            (claims-Claimed p seen seen' claims)
            (plan_ops-Grounded hash diff_text ws n seen' ops qs rest)
            (plan_ops-Fresh seen' ops qs rest),
        plan_ops-Apart seen' ops qs rest,
      )

  two_paths_of :
      (p : PlannedOp) (seen seen' : List Text)
      → Grounded hash ws p
      → Claimed p seen seen'
      → p.op.op_type ≡ move
      → p.abs ≢ p.to_abs
  two_paths_of p seen seen' g c m =
      apart_paths p.abs p.to_abs p.canonical p.to_canonical g.at (g.to_at m)
        (c.two_names (target_named p g m))

  plan_ops-Sound :
      (now : Nodes) (seen : List Text) (ops : List Operation) (ps : List PlannedOp)
      → plan_ops hash diff_text ws n seen ops ≡ ready ps
      → All (Prepared now) ps
      → All (Sound hash now) ps
  unfolding plan_ops
  plan_ops-Sound now seen [] ps e h = subst (All (Sound hash now)) (ready_same e) tt
  plan_ops-Sound now seen (op ∷ ops) ps e h =
      let (p, one, f) = and_then_ready (plan_one hash diff_text ws n op) _ ps e in
      let (seen', claims, g) = and_then_ready (claim_paths p seen) _ ps f in
      let (qs, rest, k) = and_then_ready (plan_ops hash diff_text ws n seen' ops) _ ps g in
      let (prepared, others) = subst (All (Prepared now)) (sym (ready_same k)) h in
      let grounded = plan_one-Grounded hash diff_text ws n op p one in
      subst (All (Sound hash now)) (ready_same k) (
        record {
          is_file = prepared.0;
          based = λ c. grounded.based c prepared.0;
          two_paths =
              λ m. two_paths_of p seen seen' grounded (claims-Claimed p seen seen' claims) m;
          free = prepared.1;
        },
        plan_ops-Sound now seen' ops qs rest others,
      )

  All-Recorded :
      (ps : List PlannedOp) → All (Grounded hash ws) ps → All (λ p. Recorded hash p.op.op_type p) ps
  All-Recorded [] gs = tt
  All-Recorded (p ∷ ps) (g, gs) = (g.recorded, All-Recorded ps gs)

  module _ (unlike : (a b : Text) → equal_fold (hash a) (hash b) ≡ true → a ≡ b)
      (some_hash : (a : Text) → equal_fold [] (hash a) ≡ false) where
    -- A plan is done whole or undone: apply a plan of file operations to a disk that may have
    -- changed since the plan was made, but has no file at the target of a move. If apply reports
    -- success, every created or updated file holds its new bytes, every moved file stands at its
    -- target and every deleted one is gone; if it fails at whatever call, and does not report that
    -- a restore failed too, every file holds the bytes that it had when apply began, and no file
    -- is new. The sandbox gives each file one name, and the hash tells different bytes apart.
    pub plan-apply :
        (ops : List Operation) (ps : List PlannedOp) (saved : Nodes) (d : Disk)
        → plan hash diff_text ws n ops ≡ ready ps
        → All (Prepared d.nodes) ps
        → ((apply hash saved ps d).1 ≡ applied
            → All (λ p. Landed p.op.op_type p (apply hash saved ps d).0.nodes) ps)
          × ((e : ApplyError)
              → (apply hash saved ps d).1 ≡ failed e false
              → (q : Text) → content (apply hash saved ps d).0.nodes q ≡ content d.nodes q)
    unfolding plan
    plan-apply ops ps saved d e prepared = (
      λ h.
          apply-Landed hash unlike some_hash saved ps d
            (All-Recorded ps (plan_ops-Grounded hash diff_text ws n [] ops ps e)) h,
      λ why h q.
          apply-restores hash unlike some_hash saved ps d why
            (plan_ops-Sound d.nodes [] ops ps e prepared) (plan_ops-Apart [] ops ps e) h q,
    )
