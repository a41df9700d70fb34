-- ===== src/Tasks/Manager.antt =====
-- companion/internal/tasks/tasks.go: the manager. A *task is an address into `cells`; the map of
-- tasks is walked in the order of its list.
use fylane.Common.{
  ℕ, ◌+◌, ◌-◌, ◌*◌, ◌%◌, ◌^◌, Bool, true, false, List, [], ◌∷◌, Option, none, some, if◌then◌else◌,
  ◌==◌, ◌&&◌, ltb, leb, nat_beq, length, filter, map,
}
use fylane.Common.Int.{ℤ, pos, negsuc}
use fylane.Common.Sort.{sort_by}
use fylane.Common.Text.{Text, text_eq}
use fylane.Common.Dict.{Dict, lookup, insert, delete}
use fylane.Tasks.Buffer.{new_buffer}
use fylane.Tasks.State.{running, terminal, Meta, context_canceled, no_message, Task}

abbrev pub second : ℕ
second = 1000000000

abbrev pub default_budget : ℕ
default_budget = 45 * second

abbrev pub default_max_output_bytes : ℕ
default_max_output_bytes = 2 ^ 20

abbrev pub default_retention : ℕ
default_retention = 3600 * second

abbrev pub default_max_tasks : ℕ
default_max_tasks = 200

abbrev pub default_max_runtime : ℕ
default_max_runtime = 2 * 3600 * second

-- orInt and orDuration
unfoldable pub or_default : ℤ → ℕ → ℕ
or_default (pos n) fallback = if nat_beq n 0 then fallback else n
or_default (negsuc n) fallback = fallback

pub record Options : Type 0 where
  pub budget : ℤ
  pub max_output_bytes : ℤ
  pub retention : ℤ
  pub max_tasks : ℤ
  pub max_runtime : ℤ

-- `stopped` tells whether the manager's own context was canceled.
pub record Manager : Type 0 where
  pub budget : ℕ
  pub max_output : ℕ
  pub retention : ℕ
  pub max_tasks : ℕ
  pub max_runtime : ℕ
  pub stopped : Bool
  pub tasks : Dict Text ℕ
  pub by_key : Dict Text Text
  pub closed : Bool
  pub next_seq : ℕ
  pub cells : ℕ → Task
  pub next : ℕ

abbrev pub write_cell : ℕ → Task → (ℕ → Task) → ℕ → Task
write_cell p v cells q = if nat_beq q p then v else cells q

-- What no address of the manager holds yet.
abbrev pub no_task : Task
no_task = record {
  id = [];
  key = [];
  seq = 0;
  label = [];
  dir = [];
  provider = [];
  network = [];
  workspace_id = [];
  started_at = 0;
  max_runtime = 0;
  stdout = new_buffer 0;
  stderr = new_buffer 0;
  ctx = none;
  done = false;
  state = running;
  exit_code = pos 0;
  err_msg = no_message;
  ended_at = 0;
}

unfoldable pub new : Options → Manager
unfolding or_default
new opts = record {
  budget = or_default opts.budget default_budget;
  max_output = or_default opts.max_output_bytes default_max_output_bytes;
  retention = or_default opts.retention default_retention;
  max_tasks = or_default opts.max_tasks default_max_tasks;
  max_runtime = or_default opts.max_runtime default_max_runtime;
  stopped = false;
  tasks = [];
  by_key = [];
  closed = false;
  next_seq = 0;
  cells = λ _. no_task;
  next = 0;
}

-- delete(m.byKey, key), if the key still stands for the id.
unfoldable pub unkey : Text → Text → Option Text → Dict Text Text → Dict Text Text
unkey id key none by_key = by_key
unkey id key (some held) by_key = if held == id then delete key by_key else by_key

unfoldable pub forget : Text → Task → Manager → Manager
unfolding unkey
forget id t m = record m {
  tasks = delete id m.tasks;
  by_key = if t.key == [] then m.by_key else unkey id t.key (lookup t.key m.by_key) m.by_key;
}

abbrev pub ended : Task → Bool
ended t = terminal t.state

abbrev pub expired : ℕ → ℕ → Task → Bool
expired now retention t = terminal t.state && ltb retention (now - t.ended_at)

unfoldable pub forget_if : (Task → Bool) → Text → Option ℕ → Manager → Manager × Bool
unfolding forget
forget_if p id none m = (m, false)
forget_if p id (some at) m = if p (m.cells at) then (forget id (m.cells at) m, true) else (m, false)

-- A range loop over the map that forgets the tasks of which p holds, and counts them. As a range
-- loop does, it meets each key with the entry that stands there by then.
unfoldable pub forget_where : (Task → Bool) → List Text → Manager → Manager × ℕ
unfolding forget_if
forget_where p [] m = (m, 0)
forget_where p (id ∷ ids) m =
    let (n, gone) = forget_if p id (lookup id m.tasks) m in
    let (rest, k) = forget_where p ids n in (rest, if gone then k + 1 else k)

abbrev pub ids_of : Manager → List Text
ids_of m = map (λ e. e.0) m.tasks

abbrev pub with_address : Option ℕ → List ℕ → List ℕ
with_address none ps = ps
with_address (some p) ps = p ∷ ps

-- A range loop that collects the tasks.
unfoldable pub collect : Dict Text ℕ → List Text → List ℕ
collect tasks [] = []
collect tasks (id ∷ ids) = with_address (lookup id tasks) (collect tasks ids)

-- By start, then by arrival.
abbrev pub older : Task → Task → Bool
older a b =
    if nat_beq a.started_at b.started_at then ltb a.seq b.seq else ltb a.started_at b.started_at

-- Forgets tasks in turn until the table is within its cap.
unfoldable pub trim : List ℕ → Manager → Manager
unfolding forget
trim [] m = m
trim (p ∷ ps) m =
    let rest = trim ps (forget (m.cells p).id (m.cells p) m) in
    if leb (length m.tasks) m.max_tasks then m else rest

-- The finished tasks, oldest first.
unfoldable pub finished_tasks : Manager → List ℕ
unfolding collect
finished_tasks m =
    sort_by (λ a b. older (m.cells a) (m.cells b))
      (filter (λ p. ended (m.cells p)) (collect m.tasks (ids_of m)))

unfoldable pub purge : ℕ → Manager → Manager
unfolding forget_where trim finished_tasks
purge now m =
    let kept = (forget_where (expired now m.retention) (ids_of m) m).0 in
    if leb (length kept.tasks) kept.max_tasks then kept else trim (finished_tasks kept) kept

pub data Error : Type 0 where
  unknown_task : Text → Error
  shutting_down no_random_id : Error
  id_in_use : Text → Error

-- The task that a call is answered from, and whether it is a new one.
pub data Acquired : Type 0 where
  attached : ℕ → Acquired
  created : ℕ → Acquired
  refused : Error → Acquired

unfoldable pub running_at : Manager → Option ℕ → Option ℕ
unfolding terminal
running_at m none = none
running_at m (some p) = if terminal (m.cells p).state then none else some p

unfoldable pub running_under : Manager → Option Text → Option ℕ
unfolding running_at
running_under m none = none
running_under m (some id) = running_at m (lookup id m.tasks)

-- The running task that the key re-attaches to.
unfoldable pub in_flight : Text → Manager → Option ℕ
unfolding running_under
in_flight key m = if key == [] then none else running_under m (lookup key m.by_key)

unfoldable pub drop_key : Text → Manager → Manager
drop_key key m = if key == [] then m else record m { by_key = delete key m.by_key }

abbrev pub fresh_task : ℕ → Meta → Text → Manager → Task
fresh_task now meta id m = record {
  id = id;
  key = meta.key;
  seq = m.next_seq;
  label = meta.label;
  dir = meta.dir;
  provider = meta.provider;
  network = meta.network;
  workspace_id = meta.workspace_id;
  started_at = now;
  max_runtime = m.max_runtime;
  stdout = new_buffer m.max_output;
  stderr = new_buffer m.max_output;
  ctx = if m.stopped then some context_canceled else none;
  done = false;
  state = running;
  exit_code = pos 0;
  err_msg = no_message;
  ended_at = 0;
}

unfoldable pub place : ℕ → Meta → Text → Manager → Manager × Acquired
place now meta id m = (
  record m {
    cells = write_cell m.next (fresh_task now meta id m) m.cells;
    next = m.next + 1;
    next_seq = (m.next_seq + 1) % 2 ^ 64;
    tasks = insert id m.next m.tasks;
    by_key = if meta.key == [] then m.by_key else insert meta.key id m.by_key;
  },
  created m.next,
)

unfoldable pub place_given : ℕ → Meta → Option ℕ → Manager → Manager × Acquired
unfolding place
place_given now meta none m = place now meta meta.id m
place_given now meta (some taken) m = (m, refused (id_in_use meta.id))

unfoldable pub place_generated : ℕ → Meta → Option Text → Manager → Manager × Acquired
unfolding place
place_generated now meta none m = (m, refused no_random_id)
place_generated now meta (some id) m = place now meta id m

unfoldable pub acquire_by : ℕ → Meta → Option Text → Option ℕ → Manager → Manager × Acquired
unfolding place_given place_generated drop_key
acquire_by now meta generated (some p) m = (m, attached p)
acquire_by now meta generated none m =
    let dropped = drop_key meta.key m in
    if meta.id == []
    then place_generated now meta generated dropped
    else place_given now meta (lookup meta.id dropped.tasks) dropped

-- `now` and `later` are the two readings of the clock; `generated` is what newID would return.
unfoldable pub acquire : ℕ → ℕ → Meta → Option Text → Manager → Manager × Acquired
unfolding acquire_by purge in_flight
acquire now later meta generated m =
    if m.closed
    then (m, refused shutting_down)
    else let purged = purge now m in
      acquire_by later meta generated (in_flight meta.key purged) purged
