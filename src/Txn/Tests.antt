-- ===== src/Txn/Tests.antt =====
-- The theorems about the write pipeline at concrete inputs, and runs of the code.
mod Undone
use fylane.Common.{
  ◌+◌, ◌≡◌, refl, sym, ap₂, ◌∙◌, ◌↔◌, Bool, true, false, List, [], ◌∷◌, ◌++◌, some, arith, All,
}
use fylane.Common.Text.{Text, codes, text_beq, text_beq_iff, equal_fold, to_lower}
use fylane.Common.Dict.{lookup, insert}
use fylane.Txn.{OpType, create, update, move}
use fylane.Txn.Disk.{file, dir, Nodes, works, fails, Disk, ancestors_from, content}
use fylane.Txn.Ops.{Operation, PlannedOp, Workspace, no_preview, ready}
use fylane.Txn.Plan.{plan}
use fylane.Txn.Apply.{apply, write_failed, failed, applied}
use fylane.Txn.Unwind.{Sound, Apart}
use fylane.Txn.Landed.{Landed, Stands, Untouched}
use fylane.Txn.Effect.{not_started, state_changed, effect_of}
use fylane.Txn.Effects.{effect_of_lem}
use fylane.Txn.Disk.{all_dirs, ancestors}
use fylane.Txn.Overwrite.{apply-overwrites}
use fylane.Common.{if◌then◌else◌, ◌==◌, none, Bool-cases, inl, inr, ==→ne, ◌≢◌, Option}
use fylane.Txn.Ops.{Access}
use fylane.Txn.Apply.{ApplyError}
use fylane.Txn.Claims.{Lawful}
use fylane.Txn.Planned.{plan-apply}
use fylane.Txn.Store
use fylane.Txn.Store.{
  Request, Engine, Surroundings, Result, blank_result, replied, rollback_retention,
}
use fylane.Txn.Filed.{HasId}
use fylane.Txn.Retry.{execute_again}
use fylane.Txn.Execute.{execute}
use fylane.Txn.Consent.{Consents, execute-Consents}
use fylane.Common.Text.{text_eq}

-- A stand-in for the hash: no two texts share it, and folding letter case leaves it alone.
abbrev shifted : Text → Text
shifted [] = []
shifted (b ∷ t) = (200 + b) ∷ shifted t

abbrev sum : Text → Text
sum t = 200 ∷ shifted t

lower-shifted : (t : Text) → to_lower (shifted t) ≡ shifted t
unfolding to_lower
lower-shifted [] = refl
lower-shifted (b ∷ t) = ap₂ ◌∷◌ (ground arith) (lower-shifted t)

shifted_unlike : (a b : Text) → shifted a ≡ shifted b → a ≡ b
shifted_unlike [] [] e = refl
shifted_unlike [] (c ∷ b) e = cc
shifted_unlike (c ∷ a) [] e = cc
shifted_unlike (c ∷ a) (d ∷ b) e =
    let heads : 200 + c ≡ 200 + d = cc in
    let tails : shifted a ≡ shifted b = cc in ap₂ ◌∷◌ (omega arith) (shifted_unlike a b tails)

sum_unlike : (a b : Text) → equal_fold (sum a) (sum b) ≡ true → a ≡ b
unfolding equal_fold to_lower
sum_unlike a b e =
    let folded : to_lower (sum a) ≡ to_lower (sum b) =
      (text_beq_iff (to_lower (sum a)) (to_lower (sum b))).0 e in
    let both : shifted a ≡ shifted b = sym (lower-shifted a) ∙ tail_same folded ∙ lower-shifted b in
    shifted_unlike a b both
  where
    tail_same : to_lower (sum a) ≡ to_lower (sum b) → to_lower (shifted a) ≡ to_lower (shifted b)
    tail_same f = cc

some_sum : (a : Text) → equal_fold [] (sum a) ≡ false
unfolding equal_fold to_lower text_beq
some_sum a = refl

abbrev op_on : OpType → Text → Text → Text → Text → Operation
op_on t path content expected to = record {
  op_type = t;
  path = path;
  from = path;
  to = to;
  content = content;
  expected_sha256 = expected;
  recursive = false;
}

-- A workspace at /w that refuses only the empty path.
abbrev ws : Workspace
ws = record {
  id = codes "ws";
  name = codes "work";
  writable = true;
  resolve = λ path access. if path == [] then none else some (codes "/w/" ++ path, path);
  sensitive = λ path. false;
}

abbrev no_diff : Text → Text → Text → Text
no_diff path old new = []

abbrev nodes : Nodes
nodes = (codes "/w", dir) ∷ (codes "/w/a", file (codes "x") 420) ∷ []

abbrev planned_update : PlannedOp
planned_update = record {
  op = op_on update (codes "a") (codes "y") (sum (codes "x")) [];
  canonical = codes "a";
  to_canonical = [];
  abs = codes "/w/a";
  to_abs = [];
  old_data = codes "x";
  old_mode = 420;
  is_dir = false;
  before_sha = sum (codes "x");
  after_sha = sum (codes "y");
  status = codes "updated";
  preview = record no_preview { op_type = update; path = codes "a" };
}

abbrev planned_create : PlannedOp
planned_create = record {
  op = op_on create (codes "b") (codes "z") [] [];
  canonical = codes "b";
  to_canonical = [];
  abs = codes "/w/b";
  to_abs = [];
  old_data = [];
  old_mode = 0;
  is_dir = false;
  before_sha = [];
  after_sha = sum (codes "z");
  status = codes "created";
  preview = record no_preview { path = codes "b" };
}

abbrev two_ops : List PlannedOp
two_ops = planned_update ∷ planned_create ∷ []

-- The second write fails.
abbrev failing : Disk
failing = record { nodes = nodes; faults = works ∷ fails (λ p. false) ∷ [] }

abbrev working : Disk
working = record { nodes = nodes; faults = [] }

two_ops_planned :
    plan sum no_diff ws nodes (planned_update.op ∷ planned_create.op ∷ []) ≡ ready two_ops
unfolding plan lookup text_beq equal_fold to_lower
two_ops_planned = refl

two_ops-Sound : All (Sound sum nodes) two_ops
two_ops-Sound = (
  record { is_file = refl; based = λ n. refl; two_paths = λ m. absurd cc; free = λ m. absurd cc },
  (
    record {
      is_file = refl;
      based = λ n. absurd (n refl);
      two_paths = λ m. absurd cc;
      free = λ m. absurd cc;
    },
    tt,
  ),
)

two_ops-Apart : Apart two_ops
two_ops-Apart = ((λ m. absurd cc, tt), (tt, tt))

second_fails : (apply sum [] two_ops failing).1 ≡ failed (write_failed (codes "b")) false
unfolding apply lookup insert text_beq equal_fold to_lower
second_fails = refl

both_work : (apply sum [] two_ops working).1 ≡ applied
unfolding apply lookup insert text_beq equal_fold to_lower
both_work = refl

effect_of_lem_example :
    ((effect_of sum nodes planned_update ≡ not_started) ↔ Untouched update planned_update nodes)
    × ((effect_of sum nodes planned_update ≡ state_changed)
        ↔ (Stands update planned_update nodes × (¬ Untouched update planned_update nodes)))
effect_of_lem_example = effect_of_lem sum sum_unlike some_sum planned_update nodes (refl, refl)

abbrev planned_move : PlannedOp
planned_move = record {
  op = op_on move (codes "a") [] (sum (codes "x")) (codes "c");
  canonical = codes "a";
  to_canonical = codes "c";
  abs = codes "/w/a";
  to_abs = codes "/w/c";
  old_data = codes "x";
  old_mode = 420;
  is_dir = false;
  before_sha = sum (codes "x");
  after_sha = sum (codes "x");
  status = codes "moved";
  preview = record no_preview { op_type = move; path = codes "a"; to = codes "c" };
}

-- The target of the move appeared after the plan was made.
abbrev with_target : Disk
with_target = record { nodes = (codes "/w/c", file (codes "other") 420) ∷ nodes; faults = [] }

dirs_there : all_dirs with_target.nodes (ancestors (codes "/w/c")) ≡ true
unfolding all_dirs ancestors_from lookup text_beq
dirs_there = refl

source_there : lookup (codes "/w/a") with_target.nodes ≡ some (file (codes "x") 420)
unfolding lookup text_beq
source_there = refl

target_there : lookup (codes "/w/c") with_target.nodes ≡ some (file (codes "other") 420)
unfolding lookup text_beq
target_there = refl

folds : equal_fold (sum (codes "x")) (sum (codes "x")) ≡ true
unfolding equal_fold to_lower text_beq
folds = refl

apply-overwrites_example :
    ((apply sum [] (planned_move ∷ []) with_target).1 ≡ applied)
    × (content (apply sum [] (planned_move ∷ []) with_target).0.nodes (codes "/w/c")
        ≡ some (codes "x"))
apply-overwrites_example =
    apply-overwrites sum [] planned_move with_target (codes "other") 420 420 refl refl refl folds
      refl dirs_there source_there target_there

abbrev request : Request
request = record {
  change_set_id = codes "chg_1";
  provider = codes "claude";
  summary = [];
  operations = planned_update.op ∷ [];
  must_ask = false;
}

abbrev engine : Engine
engine = record { change_sets = []; inflight = []; disk = working; saved = []; audit = [] }

-- The answer to every question is the given one, and nothing else happens meanwhile.
abbrev answering : Bool → Surroundings
answering said = record {
  hash = sum;
  diff_text = no_diff;
  new_id = codes "chg_new";
  now = 5;
  approve = λ r. some (record { approved = said; pending = false; reason = [] });
  meanwhile = λ d. d;
  get_fails = false;
  create_fails = false;
  update_fails = false;
  finish_fails = false;
  journal_fails = false;
}

execute-Consents_example :
    Consents
      (answering true)
      ws
      request
      (codes "chg_1")
      working
      (execute (answering true) ws request engine).0.disk
unfolding text_beq
execute-Consents_example = execute-Consents (answering true) ws request engine

-- A yes writes, and a no does not.
yes_writes :
    content (execute (answering true) ws request engine).0.disk.nodes (codes "/w/a")
    ≡ some (codes "y")
unfolding execute content lookup insert text_beq equal_fold to_lower
yes_writes = refl

no_leaves : (execute (answering false) ws request engine).0.disk.nodes ≡ nodes
unfolding execute content lookup insert text_beq equal_fold to_lower
no_leaves = refl

abbrev first_result : Result
first_result = record blank_result {
  status = Store.applied;
  change_set_id = codes "chg_1";
  operations = record { path = codes "a"; status = codes "updated"; sha256 = sum (codes "y") } ∷ [];
  rollback_available_until = 5 + rollback_retention;
}

first_applied : (execute (answering true) ws request engine).1 ≡ replied first_result
unfolding execute content lookup insert text_beq equal_fold to_lower
first_applied = refl

nothing_stored : HasId (codes "chg_1") (lookup (codes "chg_1") engine.change_sets)
unfolding lookup
nothing_stored = tt

-- The retry is told the first result although the approval would now say no.
execute_again_example :
    let t = (execute (answering true) ws request engine).0 in
    let (u, reply) = execute (answering false) ws request t in
    ((q : Result) × (reply ≡ replied q)
      × (q.status ≡ Store.applied)
      × (q.replayed ≡ true)
      × (q.rollback_available_until ≡ 5 + rollback_retention))
    × (u.disk ≡ t.disk)
    × (u.change_sets ≡ t.change_sets)
    × (u.audit ≡ t.audit)
execute_again_example =
    execute_again (answering true) (answering false) ws request engine first_result (λ e. cc)
      nothing_stored refl first_applied refl

ws-Lawful : Lawful ws
ws-Lawful = record { one_name = one; some_name = named }
  where
    one :
        (p q : Text) (x y : Access) (abs c d : Text)
        → ws.resolve p x ≡ some (abs, c)
        → ws.resolve q y ≡ some (abs, d)
        → c ≡ d
    one p q x y abs c d e f = elim (Bool-cases (p == [])) [
      | inl h ↦ absurd (let g = rw h at e in cc)
      | inr h ↦ elim (Bool-cases (q == [])) [
        | inl k ↦ absurd (let g = rw k at f in cc)
        | inr k ↦
            let e' : ◌≡◌ {A = Option (Text × Text)} (some (codes "/w/" ++ p, p)) (some (abs, c)) =
              rw h at e in
            let f' : ◌≡◌ {A = Option (Text × Text)} (some (codes "/w/" ++ q, q)) (some (abs, d)) =
              rw k at f in
            cc
      ]
    ]

    named : (p : Text) (x : Access) (abs c : Text) → ws.resolve p x ≡ some (abs, c) → c ≢ []
    named p x abs c e z = elim (Bool-cases (p == [])) [
      | inl h ↦ absurd (let g = rw h at e in cc)
      | inr h ↦
          let e' : ◌≡◌ {A = Option (Text × Text)} (some (codes "/w/" ++ p, p)) (some (abs, c)) =
            rw h at e in
          let same : p ≡ [] = cc in ==→ne p h same
    ]

plan-apply_example :
    ((apply sum [] two_ops failing).1 ≡ applied
      → All (λ p. Landed p.op.op_type p (apply sum [] two_ops failing).0.nodes) two_ops)
    × ((e : ApplyError)
        → (apply sum [] two_ops failing).1 ≡ failed e false
        → (q : Text) → content (apply sum [] two_ops failing).0.nodes q ≡ content nodes q)
plan-apply_example =
    plan-apply sum no_diff ws ws-Lawful nodes sum_unlike some_sum
      (planned_update.op ∷ planned_create.op ∷ []) two_ops [] failing two_ops_planned
      ((refl, λ m. absurd cc), ((refl, λ m. absurd cc), tt))
