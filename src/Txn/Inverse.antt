-- ===== src/Txn/Inverse.antt =====
-- companion/internal/txn/rollback.go: planRollback and applyRollback. The closure of a step is one
-- of the undo list's, as data.
use fylane.Common.{ℕ, ◌||◌, ◌&&◌, not, List, [], ◌∷◌, ◌++◌, Option, none, some, if◌then◌else◌, ◌==◌}
use fylane.Common.Text.{Text, codes, text_eq}
use fylane.Common.Paths.{clean}
use fylane.Common.Dict.{lookup}
use fylane.Txn.{OpType, create, update, move, delete, other, OpPreview}
use fylane.Txn.Disk.{Node, file, dir, Nodes, Disk, exists, bytes_of}
use fylane.Txn.Ops.{Operation, Workspace, op_write, op_delete, Conflict, no_preview}
use fylane.Txn.Plan.{hash_file}
use fylane.Txn.Apply.{Undo, remove_created, rewrite, move_back, copy_back, run_undo}

pub record RollbackStep : Type 0 where
  pub op_type : OpType
  pub path : Text
  pub status : Text
  pub inverse : Undo
  pub preview : OpPreview

pub data RollbackError : Type 0 where
  read_only already_executing unknown_change_set store_failed other_workspace : RollbackError
  not_resolved approval_failed journal_failed : RollbackError
  backup_missing : Text → RollbackError

-- What planning an inverse gives: the value, a path that moved on, or an error.
pub data Inverse {ℓ} (A : Type ℓ) : Type ℓ where
  prepared : A → Inverse A
  moved_on : Conflict → Inverse A
  impossible : RollbackError → Inverse A

infixl 5 ◌>>=◌
abbrev pub ◌>>=◌ {ℓ κ} : {A : Type ℓ} {B : Type κ} → Inverse A → (A → Inverse B) → Inverse B
prepared a >>= f = f a
moved_on c >>= f = moved_on c
impossible e >>= f = impossible e

abbrev pub at_path : Option (Text × Text) → Inverse Text
at_path none = impossible not_resolved
at_path (some (abs, canonical)) = prepared abs

-- filepath.Join(backupDir, op.Path), below the backup directory: Join cleans the path.
unfoldable pub backup_path : Text → Text
unfolding clean
backup_path path = clean path

-- The conflict, without the advice to the caller and the diff.
abbrev pub changed_conflict : Text → Text → Inverse RollbackStep
changed_conflict path current =
    moved_on
      (record { path = path; reason = codes "changed_since_apply"; current_sha256 = current })

-- fileModeOr: directories carry no permission bits here.
abbrev pub file_mode_or : Option Node → ℕ → ℕ
file_mode_or (some (file bytes mode)) fallback = mode
file_mode_or _ fallback = fallback

module _ (hash : Text → Text) (diff_text : Text → Text → Text → Text) (ws : Workspace) (n : Nodes)
    (saved : Nodes) (hashes : Text → Text) where
  abbrev pub step_of : OpType → Text → Text → Undo → OpPreview → RollbackStep
  step_of t path status inverse preview = record {
    op_type = t;
    path = path;
    status = status;
    inverse = inverse;
    preview = preview;
  }

  unfoldable pub undo_create : Operation → Text → RollbackStep
  undo_create op abs =
      step_of create op.path (codes "removed") (remove_created abs) (record no_preview {
        op_type = delete;
        path = op.path;
        diff = diff_text op.path op.content [];
        sensitive = ws.sensitive op.path;
      })

  unfoldable pub undo_update : Operation → Text → Option Text → Inverse RollbackStep
  undo_update op abs none = impossible (backup_missing op.path)
  undo_update op abs (some old) = prepared (
      step_of update op.path (codes "restored") (rewrite abs old (file_mode_or (lookup abs n) 420))
        (record no_preview {
          op_type = update;
          path = op.path;
          diff = diff_text op.path op.content old;
          sensitive = ws.sensitive op.path;
        }))

  -- A create or an update, once its path is known.
  unfoldable pub invert_written : OpType → Operation → Text → Inverse RollbackStep
  unfolding hash_file undo_create undo_update backup_path
  invert_written t op abs =
      let current = hash_file hash n abs in
      if not (current == hashes op.path) then changed_conflict op.path current else elim t [
        | create ↦ prepared (undo_create op abs)
        | _ ↦ undo_update op abs (bytes_of (lookup (backup_path op.path) saved))
      ]

  -- Two paths name one file only if they are the same path.
  unfoldable pub invert_move : Operation → Text → Text → Inverse RollbackStep
  unfolding hash_file
  invert_move op from_abs to_abs =
      let current = hash_file hash n to_abs in
      if not (current == hashes op.to)
      then changed_conflict op.to current
      else if exists from_abs n && not (exists to_abs n && (from_abs == to_abs))
      then changed_conflict op.from (hash_file hash n from_abs)
      else prepared (
          step_of move op.from (codes "moved_back") (move_back to_abs from_abs) (record no_preview {
            op_type = move;
            path = op.to;
            to = op.from;
            sensitive = ws.sensitive op.to || ws.sensitive op.from;
          }))

  unfoldable pub undo_delete : Operation → Text → Option Node → Inverse RollbackStep
  unfolding backup_path
  undo_delete op abs (some dir) = prepared (
      step_of delete op.path (codes "restored") (copy_back (backup_path op.path) abs)
        (record no_preview { op_type = create; path = op.path; sensitive = ws.sensitive op.path }))
  undo_delete op abs (some (file bytes mode)) = prepared (
      step_of delete op.path (codes "restored") (rewrite abs bytes mode) (record no_preview {
        op_type = create;
        path = op.path;
        diff = diff_text op.path [] bytes;
        sensitive = ws.sensitive op.path;
      }))
  undo_delete op abs _ = impossible (backup_missing op.path)

  unfoldable pub invert_delete : Operation → Text → Inverse RollbackStep
  unfolding undo_delete hash_file backup_path
  invert_delete op abs =
      if exists abs n
      then changed_conflict op.path (hash_file hash n abs)
      else undo_delete op abs (lookup (backup_path op.path) saved)

  -- One operation. The switch has no default: an operation of another type gets no step.
  unfoldable pub invert : OpType → Operation → Inverse (List RollbackStep)
  unfolding invert_written invert_move invert_delete
  invert create op = at_path (ws.resolve op.path op_write) >>= λ abs.
      invert_written create op abs >>= λ s. prepared (s ∷ [])
  invert update op = at_path (ws.resolve op.path op_write) >>= λ abs.
      invert_written update op abs >>= λ s. prepared (s ∷ [])
  invert move op = at_path (ws.resolve op.from op_write) >>= λ from_abs.
      at_path (ws.resolve op.to op_delete) >>= λ to_abs.
      invert_move op from_abs to_abs >>= λ s. prepared (s ∷ [])
  invert delete op = at_path (ws.resolve op.path op_write) >>= λ abs.
      invert_delete op abs >>= λ s. prepared (s ∷ [])
  invert (other t) op = prepared []

  -- The operations, from the last to the first.
  unfoldable pub plan_rollback : List Operation → Inverse (List RollbackStep)
  unfolding invert
  plan_rollback [] = prepared []
  plan_rollback (op ∷ ops) =
      invert op.op_type op >>= λ s. plan_rollback ops >>= λ rest. prepared (s ++ rest)

-- applyRollback stops at the first step that fails, and names its path.
unfoldable pub apply_rollback : Nodes → List RollbackStep → Disk → Disk × Option Text
unfolding run_undo
apply_rollback saved [] d = (d, none)
apply_rollback saved (s ∷ steps) d =
    let (d', done) = run_undo saved s.inverse d in
    let rest = apply_rollback saved steps d' in if done then rest else (d', some s.path)
