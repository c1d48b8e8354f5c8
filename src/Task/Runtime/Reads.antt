-- ===== src/Task/Runtime/Reads.antt =====
-- src/task/runtime.ts: the operations that change no task, `get` and `wait`.
use slnc_tr_z_mcp.Prelude.{
  ℕ, String, Bool, true, false, not, ◌&&◌, Option, none, some, Result, ok, err, ◌>>=◌, ◌>>◌,
  throw_if, leb, if◌then◌else◌,
}
use slnc_tr_z_mcp.Task.Types.{
  MutableRunnerTask, RunnerTaskActor, RunnerTaskSnapshot, TaskSnapshot, Thrown, task_error,
  task_invalid_state, task_invalid_wait, task_wait_cancelled, runner, coordination, runner_snapshot,
  coordination_snapshot, is_running,
}
use slnc_tr_z_mcp.Task.Runtime.{
  TaskRuntime, or_default, has_runner, has_coordination, lookup_runner, lookup_coordination,
}

unfoldable pub get : RunnerTaskActor → String → TaskRuntime → Result Thrown TaskSnapshot
get actor id s =
    if has_runner id s
    then (do t ← lookup_runner actor id s; ok (runner (runner_snapshot t)))
    else (do t ← lookup_coordination actor id s; ok (coordination (coordination_snapshot t)))

pub record RunnerTaskWaitResult : Type 0 where
  pub task : RunnerTaskSnapshot
  pub wait_timed_out : Bool

-- `wait` up to the race: an answer, or none where the race is on.
unfoldable pub wait_for :
    RunnerTaskActor → String → TaskRuntime → Result Thrown (Option RunnerTaskWaitResult)
wait_for actor id s =
    if has_coordination id s
    then lookup_coordination actor id s >>= (λ t. err (task_error task_invalid_state))
    else lookup_runner actor id s >>= (λ t.
      if is_running t.state
      then ok none
      else ok (some (record { task = runner_snapshot t; wait_timed_out = false })))

unfoldable pub wait_begins :
    RunnerTaskActor → String → Option ℕ → TaskRuntime → Result Thrown (Option RunnerTaskWaitResult)
unfolding wait_for
wait_begins actor id timeout_ms s =
    throw_if (not (leb 1 (or_default timeout_ms 60000) && leb (or_default timeout_ms 60000) 60000))
      (task_error task_invalid_wait)
    >> wait_for actor id s

pub data WaitOutcome : Type 0 where
  settled timeout aborted : WaitOutcome

-- The end of `wait`, over the task as it is when the race ends.
unfoldable pub wait_ends : WaitOutcome → MutableRunnerTask → Result Thrown RunnerTaskWaitResult
wait_ends settled t = ok (record { task = runner_snapshot t; wait_timed_out = false })
wait_ends timeout t = ok (record { task = runner_snapshot t; wait_timed_out = true })
wait_ends aborted t = err (task_error task_wait_cancelled)
