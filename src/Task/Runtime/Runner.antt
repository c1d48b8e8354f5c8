-- ===== src/Task/Runtime/Runner.antt =====
-- src/task/runtime.ts: the operations on runner tasks, as the steps that one event loop runs to the
-- end. `start` returns at its first `await`; the launch and the command settle in steps of their own.
use slnc_tr_z_mcp.Prelude.{
  ℕ, ◌-◌, String, Bool, true, false, not, ◌&&◌, ◌||◌, Option, none, some, List, [], ◌∷◌, ◌++◌, ◌==◌,
  Result, ok, err, ◌>>=◌, ◌>>◌, throw_if, leb, eqb, if◌then◌else◌, length, select, update, delete,
}
use slnc_tr_z_mcp.Task.Types.{
  RunnerTaskState, running, timed_out, is_running, ExecResult, Failure, exec_error, other_failure,
  FailureCode, exec_code, execution_failed, MutableRunnerTask, RunnerTaskActor,
  RunnerTaskTerminalEvent, runner_snapshot, TaskSnapshot, runner, coordination, Thrown, task_error,
  task_id_collision, range_error, task_capacity,
}
use slnc_tr_z_mcp.Task.Runtime.{
  max_safe_integer, or_default, Limits, TaskRuntime, Called, from_state, assert_accepting,
  runner_at, has_runner, has_coordination, active_count, active_client_count, prune_terminal_tasks,
  lookup_runner,
}
use slnc_tr_z_mcp.Task.Runtime.Coordination.{cancel_coordination}

abbrev pub is_some {ℓ} : {A : Type ℓ} → Option A → Bool
is_some none = false
is_some (some a) = true

abbrev pub write_runner :
    String → (MutableRunnerTask → MutableRunnerTask) → TaskRuntime → TaskRuntime
write_runner id f s = record s { runner_tasks = update (λ t. t.task_id == id) f s.runner_tasks }

abbrev pub is_zero : Option ℕ → Bool
is_zero none = false
is_zero (some n) = eqb n 0

unfoldable pub state_from_result : ExecResult → RunnerTaskState
state_from_result r =
    if r.timed_out
    then timed_out
    else if r.cancelled
    then RunnerTaskState.cancelled
    else if is_zero r.exit_code
    then RunnerTaskState.completed
    else RunnerTaskState.failed

unfoldable pub new_runner_task :
    RunnerTaskActor → String → Option String → String → ℕ → MutableRunnerTask
new_runner_task actor policy command id now = record {
  task_id = id;
  workspace_id = actor.workspace_id;
  created_by_client_id = actor.client_id;
  policy_version = policy;
  state = running;
  created_at = now;
  completed_at = none;
  result = none;
  failure_code = none;
  handle = none;
  cancel_requested = false;
  terminal_emitted = false;
  command_id = command;
}

-- The capacity checks of `start` and the insertion, after the pruning.
unfoldable pub insert_runner :
    Limits → MutableRunnerTask → TaskRuntime → Result Thrown (Unit {0} × TaskRuntime)
insert_runner l t s = do
  throw_if
      (leb l.max_retained (length s.runner_tasks) || leb l.max_active (active_count s.runner_tasks))
      (task_error task_capacity)
  throw_if (leb l.max_active_per_client (active_client_count t.created_by_client_id s.runner_tasks))
      (task_error task_capacity)
  throw_if (has_runner t.task_id s || has_coordination t.task_id s) task_id_collision
  ok (tt, record s { runner_tasks = s.runner_tasks ++ t ∷ [] })

abbrev pub pruned_runners : Limits → TaskRuntime → TaskRuntime
pruned_runners l s = record s { runner_tasks = prune_terminal_tasks l s.runner_tasks }

-- `start` up to `await launchPromise`.
unfoldable pub start :
    Limits → RunnerTaskActor → String → Option String → String → ℕ → TaskRuntime → Called (Unit {0})
unfolding new_runner_task insert_runner
start l actor policy command id now s = elim (assert_accepting s) [
  | err e ↦ (err e, s)
  | ok _ ↦
      (let pruned = pruned_runners l s in
        from_state pruned (insert_runner l (new_runner_task actor policy command id now) pruned))
]

unfoldable pub failure_code_of : Failure → FailureCode
failure_code_of (exec_error code) = exec_code code
failure_code_of other_failure = execution_failed

unfoldable pub fail_runner : Failure → ℕ → MutableRunnerTask → MutableRunnerTask
unfolding failure_code_of
fail_runner e now t = record t {
  state = RunnerTaskState.failed;
  failure_code = some (failure_code_of e);
  completed_at = some now;
}

unfoldable pub finish_runner : ExecResult → ℕ → MutableRunnerTask → MutableRunnerTask
unfolding state_from_result
finish_runner r now t = record t {
  result = some r;
  state = state_from_result r;
  completed_at = some now;
}

-- What `task.settled` writes before it emits.
unfoldable pub settle_with : Result Failure ExecResult → ℕ → MutableRunnerTask → MutableRunnerTask
unfolding fail_runner finish_runner
settle_with (err e) now t = fail_runner e now t
settle_with (ok r) now t = finish_runner r now t

-- The test of `emitRunnerTerminal`.
unfoldable pub can_emit : MutableRunnerTask → Bool
can_emit t =
    not t.terminal_emitted && is_some t.handle && not (is_running t.state) && is_some t.completed_at

-- `Date.parse` gives back the time, so the duration is the difference, stopped at 0.
unfoldable pub terminal_event : MutableRunnerTask → RunnerTaskTerminalEvent
terminal_event t = record {
  task_id = t.task_id;
  workspace_id = t.workspace_id;
  client_id = t.created_by_client_id;
  policy_version = t.policy_version;
  state = t.state;
  completed_at = or_default t.completed_at 0;
  duration_ms = or_default t.completed_at 0 - t.created_at;
  command_id = t.command_id;
}

unfoldable pub mark_emitted : MutableRunnerTask → MutableRunnerTask
unfolding can_emit
mark_emitted t = if can_emit t then record t { terminal_emitted = true } else t

unfoldable pub emitted : MutableRunnerTask → List RunnerTaskTerminalEvent
unfolding can_emit terminal_event
emitted t = if can_emit t then terminal_event t ∷ [] else []

unfoldable pub settle_task : Result Failure ExecResult → ℕ → MutableRunnerTask → MutableRunnerTask
unfolding settle_with mark_emitted
settle_task outcome now t = mark_emitted (settle_with outcome now t)

-- The end of the task that is `t` so far.
unfoldable pub settle_found :
    Result Failure ExecResult → ℕ → MutableRunnerTask → TaskRuntime → TaskRuntime
unfolding settle_with settle_task emitted
settle_found outcome now t s = record (write_runner t.task_id (settle_task outcome now) s) {
  events = s.events ++ emitted (settle_with outcome now t);
}

abbrev pub handles : Option String → List String
handles none = []
handles (some h) = h ∷ []

abbrev pub take_handle : String → MutableRunnerTask → MutableRunnerTask
take_handle h t = record t { handle = some h }

-- The launch gives a handle, or is rejected. It does so once, while the task waits for it.
unfoldable pub launched : Result Failure String → ℕ → MutableRunnerTask → TaskRuntime → TaskRuntime
unfolding settle_found
launched (err e) now t s = settle_found (err e) now t s
launched (ok h) now t s = record (write_runner t.task_id (take_handle h) s) {
  cancels = s.cancels ++ (if t.cancel_requested then h ∷ [] else []);
}

unfoldable pub launch_settles : String → Result Failure String → ℕ → TaskRuntime → TaskRuntime
unfolding launched
launch_settles id outcome now s = elim (runner_at id s.runner_tasks) [
  | none ↦ s
  | some t ↦ if is_running t.state && not (is_some t.handle) then launched outcome now t s else s
]

-- `handle.completion` gives a result, or is rejected. It does so once, after the launch.
unfoldable pub completion_settles :
    String → Result Failure ExecResult → ℕ → TaskRuntime → TaskRuntime
unfolding settle_found
completion_settles id outcome now s = elim (runner_at id s.runner_tasks) [
  | none ↦ s
  | some t ↦ if is_running t.state && is_some t.handle then settle_found outcome now t s else s
]

-- The end of `start` after a launch that was rejected.
unfoldable pub start_fails : String → TaskRuntime → TaskRuntime
start_fails id s = elim (runner_at id s.runner_tasks) [
  | none ↦ s
  | some t ↦
      (if not (is_running t.state) && not (is_some t.handle)
        then record s { runner_tasks = delete (λ t. t.task_id == id) s.runner_tasks }
        else s)
]

abbrev pub request_cancel : MutableRunnerTask → MutableRunnerTask
request_cancel t = record t { cancel_requested = true }

unfoldable pub request_runner_cancel : MutableRunnerTask → TaskRuntime → TaskRuntime
request_runner_cancel t s = record (write_runner t.task_id request_cancel s) {
  cancels = s.cancels ++ handles t.handle;
}

-- An answer, or the task on whose `settled` the call waits to answer with its snapshot.
pub data Answer : Type 0 where
  answered : TaskSnapshot → Answer
  after_settled : String → Answer

-- The end of `start` once the launch has given a handle.
unfoldable pub start_answers : MutableRunnerTask → Answer
start_answers t =
    if t.cancel_requested then after_settled t.task_id else answered (runner (runner_snapshot t))

unfoldable pub cancel_found : MutableRunnerTask → TaskRuntime → Answer × TaskRuntime
unfolding request_runner_cancel
cancel_found t s =
    if is_running t.state
    then (after_settled t.task_id, request_runner_cancel t s)
    else (answered (runner (runner_snapshot t)), s)

unfoldable pub cancel_runner :
    RunnerTaskActor → String → TaskRuntime → Result Thrown (Answer × TaskRuntime)
unfolding cancel_found
cancel_runner actor id s = do t ← lookup_runner actor id s; ok (cancel_found t s)

unfoldable pub cancel :
    RunnerTaskActor → String → ℕ → TaskRuntime → Result Thrown (Answer × TaskRuntime)
unfolding cancel_runner
cancel actor id now s = if has_runner id s then cancel_runner actor id s else (do
  (snap, after) ← cancel_coordination actor id now s
  ok (answered (coordination snap), after))

unfoldable pub cancel_all : List MutableRunnerTask → TaskRuntime → TaskRuntime
unfolding request_runner_cancel
cancel_all [] s = s
cancel_all (t ∷ ts) s = cancel_all ts (request_runner_cancel t s)

-- `shutdown`, up to the race of the settlements with the timeout.
unfoldable pub shutdown : Option ℕ → TaskRuntime → Called (Unit {0})
unfolding cancel_all
shutdown timeout_ms s =
    let ms = or_default timeout_ms 5000 in
    if s.shutdown_started
    then (ok tt, s)
    else if not (leb 1 ms && leb ms max_safe_integer)
    then (err range_error, s)
    else (
      ok tt,
      cancel_all (select (λ t. is_running t.state) s.runner_tasks)
          (record s { accepting = false; shutdown_started = true }),
    )
