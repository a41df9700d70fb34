-- ===== src/Tasks/State.antt =====
-- companion/internal/tasks/tasks.go: the states, a task, its end and its snapshot. Times are
-- nanoseconds.
use fylane.Common.{ℕ, Bool, true, false, Option, none, some, if◌then◌else◌, ◌==◌}
use fylane.Common.Int.{ℤ, is_zero, sub_ℕ}
use fylane.Common.Text.{Text, codes, text_eq}
use fylane.Tasks.Buffer.{Buffer, since}

pub data State : Type 0 where
  running succeeded failed timed_out canceled denied interrupted : State

unfoldable pub terminal : State → Bool
terminal running = false
terminal s = true

unfoldable pub state_from_outcome : Text → State
state_from_outcome outcome =
    if outcome == codes "ok"
    then succeeded
    else if outcome == codes "timeout"
    then timed_out
    else if outcome == codes "denied"
    then denied
    else if outcome == codes "refused"
    then denied
    else if outcome == codes "interrupted"
    then interrupted
    else failed

pub record Outcome : Type 0 where
  pub exit_code : ℤ
  pub timed_out : Bool

pub record Meta : Type 0 where
  pub key : Text
  pub label : Text
  pub dir : Text
  pub provider : Text
  pub network : Text
  pub workspace_id : Text
  pub budget : ℤ
  pub id : Text

-- ctx.Err() of the task's context: its first error stays.
pub data CtxErr : Type 0 where
  context_canceled deadline_exceeded : CtxErr

-- The text of an error; that of the runtime ceiling is kept as the duration in it.
pub data Message : Type 0 where
  no_message : Message
  said : Text → Message
  stopped_at_ceiling : ℕ → Message

-- `done` tells whether the channel is closed.
pub record Task : Type 0 where
  pub id : Text
  pub key : Text
  pub seq : ℕ
  pub label : Text
  pub dir : Text
  pub provider : Text
  pub network : Text
  pub workspace_id : Text
  pub started_at : ℕ
  pub max_runtime : ℕ
  pub stdout : Buffer
  pub stderr : Buffer
  pub ctx : Option CtxErr
  pub done : Bool
  pub state : State
  pub exit_code : ℤ
  pub err_msg : Message
  pub ended_at : ℕ

abbrev pub end_context : CtxErr → Option CtxErr → Option CtxErr
end_context e none = some e
end_context e (some first) = some first

-- The switch of finish: the state and the message.
unfoldable pub ended_by_itself : Message → Outcome → Option Text → State × Message
ended_by_itself old out (some err) = (failed, said err)
ended_by_itself old out none = if is_zero out.exit_code then (succeeded, old) else (failed, old)

unfoldable pub ended_in : ℕ → Message → Outcome → Option Text → Option CtxErr → State × Message
unfolding ended_by_itself
ended_in ceiling old out err (some deadline_exceeded) = (timed_out, stopped_at_ceiling ceiling)
ended_in ceiling old out err (some context_canceled) = (canceled, old)
ended_in ceiling old out err none = ended_by_itself old out err

unfoldable pub finished_as : Task → Outcome → Option Text → State × Message
unfolding ended_in
finished_as t out err =
    if out.timed_out then (timed_out, t.err_msg) else ended_in t.max_runtime t.err_msg out err t.ctx

unfoldable pub finish : ℕ → Outcome → Option Text → Task → Task
unfolding terminal
finish now out err t =
    if terminal t.state
    then t
    else let (state, message) = finished_as t out err in
      record t {
        ended_at = now;
        exit_code = out.exit_code;
        state = state;
        err_msg = message;
        done = true;
      }

pub record Snapshot : Type 0 where
  pub id : Text
  pub state : State
  pub workspace_id : Text
  pub label : Text
  pub dir : Text
  pub provider : Text
  pub network : Text
  pub exit_code : ℤ
  pub error : Message
  pub stdout : Text
  pub stderr : Text
  pub stdout_cursor : ℕ
  pub stderr_cursor : ℕ
  pub stdout_truncated : Bool
  pub stderr_truncated : Bool
  pub started_at : ℕ
  pub duration : ℤ

-- `now` is read only while the task runs.
unfoldable pub snapshot : ℕ → Task → ℤ → ℤ → Snapshot
unfolding since terminal
snapshot now t stdout_cursor stderr_cursor =
    let (out_text, out_next, out_trunc) = since t.stdout stdout_cursor in
    let (err_text, err_next, err_trunc) = since t.stderr stderr_cursor in
    let end = if terminal t.state then t.ended_at else now in
    record {
      id = t.id;
      state = t.state;
      workspace_id = t.workspace_id;
      label = t.label;
      dir = t.dir;
      provider = t.provider;
      network = t.network;
      exit_code = t.exit_code;
      error = t.err_msg;
      stdout = out_text;
      stderr = err_text;
      stdout_cursor = out_next;
      stderr_cursor = err_next;
      stdout_truncated = out_trunc;
      stderr_truncated = err_trunc;
      started_at = t.started_at;
      duration = sub_ℕ end t.started_at;
    }
