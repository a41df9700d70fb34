-- ===== src/Tasks/Calls.antt =====
-- companion/internal/tasks/tasks.go: the calls of the manager, and what the goroutine of a task
-- does to it. Each function is one hold of a lock.
use fylane.Common.{ℕ, ◌≡◌, Bool, true, false, List, Option, none, some, if◌then◌else◌, ltb, map}
use fylane.Common.Int.{ℤ, pos}
use fylane.Common.Sort.{sort_by}
use fylane.Common.Text.{Text, text_eq}
use fylane.Common.Dict.{lookup}
use fylane.Tasks.Buffer.{write}
use fylane.Tasks.State.{
  Outcome, Meta, CtxErr, context_canceled, deadline_exceeded, Task, end_context, finish, Snapshot,
  snapshot,
}
use fylane.Tasks.Manager.{
  Options, Manager, new, write_cell, purge, acquire, ended, forget_where, ids_of, collect, older,
}

-- A change of one task.
abbrev pub update : ℕ → (Task → Task) → Manager → Manager
update p f m = record m { cells = write_cell p (f (m.cells p)) m.cells }

abbrev pub end_task : CtxErr → Task → Task
end_task e t = record t { ctx = end_context e t.ctx }

-- The goroutine of launch: the end of the work, and the deferred cancel.
unfoldable pub work_ends : ℕ → ℕ → Outcome → Option Text → Manager → Manager
unfolding finish
work_ends now p out err = update p (λ t. end_task context_canceled (finish now out err t))

unfoldable pub status_at : ℕ → Text → ℤ → ℤ → Option ℕ → Manager → Option Snapshot
unfolding snapshot
status_at now id out_cursor err_cursor none m = none
status_at now id out_cursor err_cursor (some p) m =
    some (snapshot now (m.cells p) out_cursor err_cursor)

-- Status. No snapshot stands for ErrUnknownTask.
unfoldable pub status : ℕ → ℕ → Text → ℤ → ℤ → Manager → Manager × Option Snapshot
unfolding purge status_at
status now later id out_cursor err_cursor m =
    let purged = purge now m in
    (purged, status_at later id out_cursor err_cursor (lookup id purged.tasks) purged)

unfoldable pub cancel_at : Option ℕ → Manager → Manager × Bool
cancel_at none m = (m, false)
cancel_at (some p) m = (update p (end_task context_canceled) m, true)

-- Cancel, and whether the task was known.
unfoldable pub cancel : Text → Manager → Manager × Bool
unfolding cancel_at
cancel id m = cancel_at (lookup id m.tasks) m

-- List: newest first.
unfoldable pub list : ℕ → ℕ → Manager → Manager × List Snapshot
unfolding purge collect snapshot
list now later m =
    let purged = purge now m in
    let sorted =
      sort_by (λ a b. older (purged.cells b) (purged.cells a))
        (collect purged.tasks (ids_of purged)) in
    (purged, map (λ p. snapshot later (purged.cells p) (pos 0) (pos 0)) sorted)

unfoldable pub clear : Manager → Manager × ℕ
unfolding forget_where
clear m = forget_where ended (ids_of m) m

-- Close, under the lock; then it cancels the context of every task.
unfoldable pub close : Manager → Manager × Bool
close m = if m.closed then (m, false) else (record m { closed = true }, true)

unfoldable pub stop : Manager → Manager
stop m = record m { stopped = true; cells = λ p. end_task context_canceled (m.cells p) }

-- Run once its wait is over, for whatever reason: the answer holds no matter what became of the
-- table meanwhile.
unfoldable pub run_answer : ℕ → ℕ → Manager → Snapshot
unfolding snapshot
run_answer now p m = snapshot now (m.cells p) (pos 0) (pos 0)

-- What happens to a manager, in any order. `expires` is the deadline of a task's context; an
-- address is used only once it is allocated.
pub data Event : Type 0 where
  acquires : ℕ → ℕ → Meta → Option Text → Event
  writes_out writes_err : ℕ → Text → Event
  ends : ℕ → ℕ → Outcome → Option Text → Event
  expires : ℕ → Event
  cancels : Text → Event
  polls : ℕ → Event
  clears closes stops : Event

abbrev pub if_allocated : ℕ → (Manager → Manager) → Manager → Manager
if_allocated p f m = if ltb p m.next then f m else m

unfoldable pub step : Manager → Event → Manager
unfolding work_ends acquire purge cancel clear close stop
step m (acquires now later meta generated) = (acquire now later meta generated m).0
step m (writes_out p text) =
    if_allocated p (update p (λ t. record t { stdout = (write t.stdout text).0 })) m
step m (writes_err p text) =
    if_allocated p (update p (λ t. record t { stderr = (write t.stderr text).0 })) m
step m (ends now p out err) = if_allocated p (work_ends now p out err) m
step m (expires p) = if_allocated p (update p (end_task deadline_exceeded)) m
step m (cancels id) = (cancel id m).0
step m (polls now) = purge now m
step m clears = (clear m).0
step m closes = (close m).0
step m stops = stop m

-- What newID draws is not the id of a task in the table.
abbrev pub FreshId : Manager → Event → Type 0
FreshId m (acquires now later meta (some id)) = lookup id m.tasks ≡ none
FreshId m e = Unit

-- A manager as New leaves it, and the events since.
pub data Run (opts : Options) : Manager → Type 0 where
  start : Run opts (new opts)
  after : {m n : Manager} (e : Event) → Run opts m → FreshId m e → n ≡ step m e → Run opts n
