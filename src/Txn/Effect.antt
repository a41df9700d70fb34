-- ===== src/Txn/Effect.antt =====
-- companion/internal/txn/effect.go: what a failed change set did to each path, read from the disk.
use fylane.Common.{Bool, true, false, ◌&&◌, List, [], ◌∷◌, Option, none, some, if◌then◌else◌, ◌==◌}
use fylane.Common.Text.{Text, text_eq}
use fylane.Common.Dict.{lookup}
use fylane.Txn.{OpType, create, update, move, delete, other}
use fylane.Txn.Disk.{Node, file, link, dangling, reads, Nodes, exists}
use fylane.Txn.Ops.{PlannedOp, result_path}

pub data Effect : Type 0 where
  not_started state_changed outcome_unknown : Effect

pub record OpEffect : Type 0 where
  pub path : Text
  pub effect : Effect

-- hashNow: what stands at a path, with the hash where it could be read.
pub data PathState : Type 0 where
  absent : PathState
  readable : Text → PathState
  unreadable : PathState

abbrev pub is_readable_at : Text → PathState → Bool
is_readable_at sum (readable s) = s == sum
is_readable_at sum _ = false

abbrev pub is_absent : PathState → Bool
is_absent absent = true
is_absent _ = false

unfoldable pub create_effect : PlannedOp → PathState → Effect
create_effect p absent = not_started
create_effect p (readable sum) = if sum == p.after_sha then state_changed else outcome_unknown
create_effect p unreadable = outcome_unknown

unfoldable pub update_effect : PlannedOp → PathState → Effect
update_effect p (readable sum) =
    if sum == p.before_sha
    then not_started
    else if sum == p.after_sha
    then state_changed
    else outcome_unknown
update_effect p _ = outcome_unknown

unfoldable pub move_effect : PlannedOp → PathState → PathState → Effect
move_effect p from to =
    if is_readable_at p.before_sha from && is_absent to
    then not_started
    else if is_absent from && is_readable_at p.after_sha to
    then state_changed
    else outcome_unknown

-- `there` is what os.Lstat says, which a directory is judged by.
unfoldable pub delete_effect : PlannedOp → Bool → PathState → Effect
delete_effect p there s =
    if p.is_dir
    then if there then outcome_unknown else state_changed
    else if is_absent s
    then state_changed
    else if is_readable_at p.before_sha s
    then not_started
    else outcome_unknown

module _ (hash : Text → Text) (n : Nodes) where
  abbrev pub state_of : Option Node → PathState
  state_of none = absent
  state_of (some (file bytes mode)) = readable (hash bytes)
  state_of (some (link dangling)) = absent
  state_of (some (link (reads bytes))) = readable (hash bytes)
  state_of (some _) = unreadable

  unfoldable pub hash_now : Text → PathState
  hash_now path = state_of (lookup path n)

  unfoldable pub effect_of_type : OpType → PlannedOp → Effect
  unfolding hash_now create_effect update_effect move_effect delete_effect
  effect_of_type create p = create_effect p (hash_now p.abs)
  effect_of_type update p = update_effect p (hash_now p.abs)
  effect_of_type move p = move_effect p (hash_now p.abs) (hash_now p.to_abs)
  effect_of_type delete p = delete_effect p (exists p.abs n) (hash_now p.abs)
  effect_of_type (other t) p = outcome_unknown

  unfoldable pub effect_of : PlannedOp → Effect
  unfolding effect_of_type
  effect_of p = effect_of_type p.op.op_type p

  unfoldable pub reconcile : List PlannedOp → List OpEffect
  unfolding effect_of result_path
  reconcile [] = []
  reconcile (p ∷ ps) = record { path = result_path p; effect = effect_of p } ∷ reconcile ps

unfoldable pub not_started_effects : List PlannedOp → List OpEffect
unfolding result_path
not_started_effects [] = []
not_started_effects (p ∷ ps) =
    record { path = result_path p; effect = not_started } ∷ not_started_effects ps
