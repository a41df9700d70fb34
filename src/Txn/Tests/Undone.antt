-- ===== src/Txn/Tests/Undone.antt =====
-- The theorems about rollbacks at concrete inputs, and runs of the code.
use fylane.Common.{◌≡◌, refl, true, [], ◌∷◌, none, some}
use fylane.Common.Text.{Text, codes, text_eq, text_beq, equal_fold, to_lower}
use fylane.Common.Dict.{lookup, insert}
use fylane.Txn.Disk.{file, dir, Disk, Nodes, content}
use fylane.Txn.{update}
use fylane.Txn.Ops.{no_preview}
use fylane.Txn.Apply.{rewrite}
use fylane.Txn.Undo.{undo_all}
use fylane.Txn.Store.{Engine}
use fylane.Txn.Execute.{execute}
use fylane.Txn.Inverse.{backup_path, RollbackStep, prepared, plan_rollback, apply_rollback}
use fylane.Txn.Rollback.{rollback}
use fylane.Txn.Reversed.{RunsOnYes, rollback-RunsOnYes}
use fylane.Txn.Rewound.{inverses, apply_rollback-content, rollback_overwrites}
use fylane.Txn.Tests.{ws, request, engine, answering, sum, no_diff, planned_update}

abbrev after_update : Engine
after_update = (execute (answering true) ws request engine).0

-- The rollback of an update brings the old bytes back.
back :
    content (rollback (answering true) ws (codes "chg_1") after_update).0.disk.nodes (codes "/w/a")
    ≡ some (codes "x")
unfolding rollback execute content lookup insert text_beq equal_fold to_lower
back = refl

rollback-RunsOnYes_example :
    RunsOnYes
      (answering true)
      ws
      (codes "chg_1")
      after_update
      (rollback (answering true) ws (codes "chg_1") after_update).0.disk
rollback-RunsOnYes_example = rollback-RunsOnYes (answering true) ws (codes "chg_1") after_update

abbrev put_back : RollbackStep
put_back = record {
  op_type = update;
  path = codes "a";
  status = codes "restored";
  inverse = rewrite (codes "/w/a") (codes "x") 420;
  preview = record no_preview { op_type = update; path = codes "a" };
}

abbrev written : Nodes
written = (codes "/w", dir) ∷ (codes "/w/a", file (codes "y") 420) ∷ []

abbrev kept : Nodes
kept = (codes "a", file (codes "x") 420) ∷ []

-- Somebody wrote to the file while the answer was awaited.
abbrev written_again : Disk
written_again = record {
  nodes = (codes "/w", dir) ∷ (codes "/w/a", file (codes "other") 420) ∷ [];
  faults = [];
}

hashes : Text → Text
hashes p = sum (codes "y")

put_back_planned :
    plan_rollback sum no_diff ws written kept hashes (planned_update.op ∷ [])
    ≡ prepared (put_back ∷ [])
unfolding plan_rollback lookup text_beq hashes
put_back_planned = refl

put_back_runs : (apply_rollback kept (put_back ∷ []) written_again).1 ≡ none
unfolding apply_rollback lookup insert text_beq
put_back_runs = refl

apply_rollback-content_example :
    content (apply_rollback kept (put_back ∷ []) written_again).0.nodes (codes "/w/a")
    ≡ undo_all (inverses (put_back ∷ [])) (content written_again.nodes) (codes "/w/a")
apply_rollback-content_example =
    apply_rollback-content kept (put_back ∷ []) written_again (refl, tt) put_back_runs
      (codes "/w/a")

rollback_overwrites_example :
    content (apply_rollback kept (put_back ∷ []) written_again).0.nodes (codes "/w/a")
    ≡ some (codes "x")
unfolding lookup text_beq backup_path
rollback_overwrites_example =
    rollback_overwrites sum no_diff ws written kept hashes planned_update.op (codes "/w/a")
      (codes "x") (put_back ∷ []) written_again refl refl refl put_back_planned put_back_runs
