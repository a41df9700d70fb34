-- ===== src/Tasks/Tests.antt =====
-- The theorems about tasks at concrete inputs, and runs of the code.
use fylane.Common.{
  ◌≡◌, ◌⊎◌, ◌↔◌, refl, List, [], ◌∷◌, ◌++◌, none, some, false, take, drop, min, ltb, arith,
}
use fylane.Common.Int.{pos, negsuc}
use fylane.Common.Dict.{lookup, insert, delete}
use fylane.Common.Text.{codes, text_eq, text_beq}
use fylane.Tasks.Buffer.{new_buffer, since}
use fylane.Tasks.Stream.{Use, writes, polls, uses, new_poller, uses-since, uses-received}
use fylane.Tasks.State.{
  Meta, Outcome, terminal, succeeded, canceled, timed_out, finish, finished_as, state_from_outcome,
  failed,
}
use fylane.Tasks.Manager.{
  Options, Manager, new, purge, acquire, attached, created, place, in_flight,
}
use fylane.Tasks.Calls.{Run, start, after, Event, acquires, ends, closes, step, clear, stop}
use fylane.Tasks.Forget.{Running}
use fylane.Tasks.Purge.{IsPurged, purge-IsPurged, lookup-clear}
use fylane.Tasks.Tracked.{IsTracked, Running-IsTracked}
use fylane.Tasks.Settled.{SameResult, steps, steps-SameResult, stop-Stopped}

abbrev two_writes : List Use
two_writes = writes (codes "abc") ∷ polls ∷ writes (codes "def") ∷ []

uses-since_example :
    since (uses (new_buffer 4) new_poller two_writes).0 (pos 2)
    ≡ (drop 2 (take 4 (codes "abcdef")), min 4 6, ltb 4 6)
uses-since_example = uses-since 4 two_writes (pos 2)

uses-received_example :
    (uses (new_buffer 4) new_poller (two_writes ++ polls ∷ [])).1.received ≡ codes "abcd"
uses-received_example = uses-received 4 two_writes

abbrev npm_test : Meta
npm_test = record {
  key = codes "k";
  label = codes "npm test";
  dir = [];
  provider = codes "claude";
  network = [];
  workspace_id = codes "w";
  budget = pos 0;
  id = [];
}

abbrev one_task : Options
one_task = record {
  budget = pos 0;
  max_output_bytes = negsuc 0;
  retention = pos 10;
  max_tasks = pos 1;
  max_runtime = pos 0;
}

abbrev first_call : Event
first_call = acquires 3 3 npm_test (some (codes "t1"))

abbrev one_running : Manager
one_running = step (new one_task) first_call

runs : Run one_task one_running
unfolding new lookup
runs = after first_call start refl refl

is_Running : Running one_running 0
unfolding step new acquire purge place in_flight lookup text_beq terminal
is_Running = (omega arith, refl)

Running-IsTracked_example : IsTracked one_running 0
Running-IsTracked_example = Running-IsTracked 0 runs is_Running

purge-IsPurged_example : IsPurged 20 one_running (purge 20 one_running)
purge-IsPurged_example = purge-IsPurged 20 runs

abbrev went_well : Outcome
went_well = record { exit_code = pos 0; timed_out = false }

abbrev one_ended : Manager
one_ended = step one_running (ends 5 0 went_well none)

lookup-clear_example : (lookup (codes "t1") (clear one_running).0.tasks ≡ some 0) ↔ (
    (lookup (codes "t1") one_running.tasks ≡ some 0)
    × (terminal (one_running.cells 0).state ≡ false))
lookup-clear_example = lookup-clear (codes "t1") 0 one_running

has_ended : (one_ended.cells 0).state ≡ succeeded
unfolding step new acquire purge place in_flight lookup text_beq finish finished_as
has_ended = refl

steps-SameResult_example :
    SameResult
      (one_ended.cells 0)
      ((steps one_ended (ends 6 0 went_well (some (codes "late")) ∷ closes ∷ [])).cells 0)
unfolding step new acquire purge place in_flight lookup text_beq finish terminal finished_as
steps-SameResult_example =
    steps-SameResult (ends 6 0 went_well (some (codes "late")) ∷ closes ∷ []) one_ended 0
      (omega arith) refl

stop-Stopped_example :
    let t = (steps (stop one_running) (ends 5 0 went_well none ∷ [])).cells 0 in
    (terminal t.state ≡ false) ⊎ (t.state ≡ canceled) ⊎ (t.state ≡ timed_out)
stop-Stopped_example =
    stop-Stopped (ends 5 0 went_well none ∷ []) one_running 0 is_Running.0 is_Running.1

-- A retry while the work runs is attached to it.
retried : (acquire 4 4 npm_test (some (codes "t2")) one_running).1 ≡ attached 0
unfolding step new acquire purge place in_flight lookup text_beq insert delete
retried = refl

-- The same call after the end starts anew.
again : (acquire 6 6 npm_test (some (codes "t2")) one_ended).1 ≡ created 1
unfolding step new acquire purge place in_flight lookup text_beq insert delete finish finished_as
again = refl

unknown_outcome : state_from_outcome (codes "exploded") ≡ failed
unfolding state_from_outcome text_beq
unknown_outcome = refl
