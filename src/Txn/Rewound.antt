-- ===== src/Txn/Rewound.antt =====
-- What a rollback leaves in the files, whatever became of them since it was planned.
use fylane.Common.{
  ℕ, ◌≡◌, refl, ◌∙◌, Bool, true, false, not, List, [], ◌∷◌, Option, none, some, if◌then◌else◌,
  Bool-cases, inl, inr, subst, ◌==◌, ==-refl, map, All,
}
use fylane.Common.Text.{Text, text_eq}
use fylane.Common.Dict.{lookup}
use fylane.Txn.{update}
use fylane.Txn.Disk.{Nodes, Disk, content, bytes_of}
use fylane.Txn.Ops.{Operation, Workspace, op_write}
use fylane.Txn.Plan.{hash_file}
use fylane.Txn.Apply.{Undo, rewrite, run_undo}
use fylane.Txn.Undo.{is_file_undo, undo_content, undo_all, undo_all_same, run_undo-content}
use fylane.Txn.Inverse.{
  backup_path, RollbackStep, Inverse, prepared, at_path, invert, invert_written, undo_update,
  plan_rollback, apply_rollback,
}

abbrev pub inverses : List RollbackStep → List Undo
inverses steps = map (λ (s : RollbackStep). s.inverse) steps

ran_all :
    (done : Bool) (rest : Disk × Option Text) (failed : Disk) (path : Text)
    → (if done then rest else (failed, some path)).1 ≡ none
    → (done ≡ true) × (rest.1 ≡ none)
ran_all true rest failed path h = (refl, h)
ran_all false rest failed path h = cc

-- A rollback of files that reports no failure makes of the contents what its inverses say, one
-- after the other, and nothing else.
pub apply_rollback-content :
    (saved : Nodes) (steps : List RollbackStep) (d : Disk)
    → All (λ u. is_file_undo u ≡ true) (inverses steps)
    → (apply_rollback saved steps d).1 ≡ none
    → (q : Text)
    → content (apply_rollback saved steps d).0.nodes q
      ≡ undo_all (inverses steps) (content d.nodes) q
unfolding apply_rollback
apply_rollback-content saved [] d fs e q = refl
apply_rollback-content saved (s ∷ steps) d (f, fs) e q =
    let r = run_undo saved s.inverse d in
    let (now, later) = ran_all r.1 (apply_rollback saved steps r.0) r.0 s.path e in
    rw now (
      apply_rollback-content saved steps r.0 fs later q
      ∙ undo_all_same (inverses steps) (content r.0.nodes)
          (undo_content s.inverse (content d.nodes))
          (λ p. run_undo-content saved s.inverse d p f now) q)

one_step :
    (s : RollbackStep) (steps : List RollbackStep)
    → ◌≡◌ {A = Inverse (List RollbackStep)} (prepared (s ∷ [])) (prepared steps)
    → s ∷ [] ≡ steps
one_step s steps e = cc

written_back :
    (saved : Nodes) (s : RollbackStep) (abs old : Text) (mode : ℕ) (d : Disk)
    → s.inverse ≡ rewrite abs old mode
    → (apply_rollback saved (s ∷ []) d).1 ≡ none
    → content (apply_rollback saved (s ∷ []) d).0.nodes abs ≡ some old
written_back saved s abs old mode d e ran =
    apply_rollback-content saved (s ∷ []) d (rw e refl, tt) ran abs ∙ rw (e, ==-refl abs)

module _ (hash : Text → Text) (diff_text : Text → Text → Text → Text) (ws : Workspace)
    (n saved : Nodes) (hashes : Text → Text) where
  -- A rollback is checked against the disk as it is planned, and not again: if the rollback of an
  -- update was planned and then runs without a failure, on any disk, the file holds the old bytes
  -- of the backup; what was written to it while the answer was awaited is gone.
  pub rollback_overwrites :
      (op : Operation) (abs old : Text) (steps : List RollbackStep) (d : Disk)
      → op.op_type ≡ update
      → at_path (ws.resolve op.path op_write) ≡ prepared abs
      → bytes_of (lookup (backup_path op.path) saved) ≡ some old
      → plan_rollback hash diff_text ws n saved hashes (op ∷ []) ≡ prepared steps
      → (apply_rollback saved steps d).1 ≡ none
      → content (apply_rollback saved steps d).0.nodes abs ≡ some old
  unfolding plan_rollback invert invert_written undo_update
  rollback_overwrites op abs old steps d t at backup planned ran =
      elim (Bool-cases (not (hash_file hash n abs == hashes op.path))) [
        | inl h ↦ absurd (let f = rw (t, at, h) at planned in cc)
        | inr h ↦
            let f = rw (t, at, h, backup) at planned in
            subst
              (λ ss.
                (apply_rollback saved ss d).1 ≡ none
                → content (apply_rollback saved ss d).0.nodes abs ≡ some old)
              (one_step _ steps f) (written_back saved _ abs old _ d refl) ran
      ]
