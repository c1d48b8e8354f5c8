-- ===== src/Task/Reports.antt =====
-- The terminal events of runner tasks (src/task/runtime.ts).
use slnc_tr_z_mcp.Prelude.{
  ℕ, zero, suc, ◌-◌, String, Bool, true, false, not, ◌&&◌, Option, none, some, List, [], ◌∷◌, ◌++◌,
  ◌≡◌, ◌⊎◌, refl, arith, ok, err, Result, select, delete, ◌==◌, if◌then◌else◌, All, All-select,
  All-append_one, All-update, All-first, first-write, inl, inr, ◌∙◌, first_key, ap, eq_iff,
  append-nil,
}
use slnc_tr_z_mcp.Task.Types.{
  is_running, RunnerTaskState, timed_out, MutableRunnerTask, Failure, ExecResult,
  RunnerTaskTerminalEvent,
}
use slnc_tr_z_mcp.Task.Runtime.{Limits, TaskRuntime, new_runtime, runner_at}
use slnc_tr_z_mcp.Task.Runtime.Runner.{
  pruned_runners, settle_with, settle_task, settle_found, request_runner_cancel, can_emit, emitted,
  terminal_event, take_handle, request_cancel, new_runner_task, completion_settles, fail_runner,
  finish_runner, mark_emitted, state_from_result,
}
use slnc_tr_z_mcp.Task.History.{Event, finishes, step, run}
use slnc_tr_z_mcp.Task.Effects.{
  Effect, nothing, prunes_runners, inserts_runner, takes_handle, rejects_launch, settles_task,
  drops_runner, cancels_runner, shuts, prunes_coordination, inserts_task, claims_task,
  releases_task, completes_task, fails_task, withdraws_task, is_launched,
}
use slnc_tr_z_mcp.Task.Effects.Runners.{step-Effect}
use slnc_tr_z_mcp.Task.Pruning.{prune_keeps, cancel_all_keeps}
use slnc_tr_z_mcp.Task.Capacity.{settle_task_stops}
use slnc_tr_z_mcp.Task.Identity.{runner_key, settle_task_key}

-- What is running has not been reported.
abbrev pub is_quiet : MutableRunnerTask → Bool
is_quiet t = not (is_running t.state && t.terminal_emitted)

abbrev pub AreQuiet : List MutableRunnerTask → Type 0
AreQuiet ts = All (λ t. is_quiet t ≡ true) ts

delete-AreQuiet :
    (p : MutableRunnerTask → Bool) (ts : List MutableRunnerTask)
    → AreQuiet ts
    → AreQuiet (delete p ts)
unfolding delete
delete-AreQuiet p ts h = All-select (λ t. is_quiet t ≡ true) (λ t. not (p t)) ts h

settle-AreQuiet :
    (outcome : Result Failure ExecResult) (now : ℕ) (t : MutableRunnerTask) (s : TaskRuntime)
    → AreQuiet s.runner_tasks
    → AreQuiet (settle_found outcome now t s).runner_tasks
unfolding settle_found
settle-AreQuiet outcome now t s h =
    All-update (λ x. is_quiet x ≡ true) (λ x. x.task_id == t.task_id) (settle_task outcome now)
      (λ x _ _. ground (arith, settle_task_stops outcome now x)) s.runner_tasks h

request-AreQuiet :
    (t : MutableRunnerTask) (s : TaskRuntime)
    → AreQuiet s.runner_tasks
    → AreQuiet (request_runner_cancel t s).runner_tasks
unfolding request_runner_cancel
request-AreQuiet t s h =
    All-update (λ x. is_quiet x ≡ true) (λ x. x.task_id == t.task_id) request_cancel (λ x _ p. p)
      s.runner_tasks h

Effect-AreQuiet :
    (l : Limits) (s after : TaskRuntime) (e : Event)
    → Effect l s e after
    → AreQuiet s.runner_tasks
    → AreQuiet after.runner_tasks
unfolding new_runner_task
Effect-AreQuiet l s _ _ (nothing e) h = h
Effect-AreQuiet l s _ _ (prunes_runners actor policy command id now) h =
    prune_keeps AreQuiet delete-AreQuiet l s.runner_tasks h
Effect-AreQuiet l s _ _ (inserts_runner actor policy command id now on room) h =
    All-append_one (λ t. is_quiet t ≡ true) (pruned_runners l s).runner_tasks
      (new_runner_task actor policy command id now)
      (prune_keeps AreQuiet delete-AreQuiet l s.runner_tasks h) refl
Effect-AreQuiet l s _ _ (takes_handle id x now t found on empty) h =
    All-update (λ r. is_quiet r ≡ true) (λ r. r.task_id == t.task_id) (take_handle x) (λ r _ p. p)
      s.runner_tasks h
Effect-AreQuiet l s _ _ (rejects_launch id x now t found on empty) h =
    settle-AreQuiet (err x) now t s h
Effect-AreQuiet l s _ _ (settles_task id outcome now t found on full) h =
    settle-AreQuiet outcome now t s h
Effect-AreQuiet l s _ _ (drops_runner id t found off empty) h =
    delete-AreQuiet (λ x. x.task_id == id) s.runner_tasks h
Effect-AreQuiet l s _ _ (cancels_runner actor id now t found on workspace client) h =
    request-AreQuiet t s h
Effect-AreQuiet l s _ _ (shuts timeout_ms first_time) h =
    cancel_all_keeps (λ x. AreQuiet x.runner_tasks) request-AreQuiet
      (select (λ t. is_running t.state) s.runner_tasks)
      (record s { accepting = false; shutdown_started = true }) h
Effect-AreQuiet l s _ _ (prunes_coordination actor title instructions id now) h = h
Effect-AreQuiet l s _ _ (inserts_task actor title instructions id now on room) h = h
Effect-AreQuiet l s _ _ (claims_task actor id now t on seen free) h = h
Effect-AreQuiet l s _ _ (releases_task actor id now t on held) h = h
Effect-AreQuiet l s _ _ (completes_task actor id text now t on held) h = h
Effect-AreQuiet l s _ _ (fails_task actor id text now t on held) h = h
Effect-AreQuiet l s _ _ (withdraws_task actor id now t seen creator live) h = h

run_from-AreQuiet :
    (l : Limits) (s : TaskRuntime) (es : List Event)
    → AreQuiet s.runner_tasks
    → AreQuiet (run l s es).runner_tasks
unfolding run
run_from-AreQuiet l s [] h = h
run_from-AreQuiet l s (e ∷ es) h =
    run_from-AreQuiet l (step l s e) es (Effect-AreQuiet l s (step l s e) e (step-Effect l s e) h)

abbrev pub state_of_exit : Option ℕ → RunnerTaskState
state_of_exit none = RunnerTaskState.failed
state_of_exit (some zero) = RunnerTaskState.completed
state_of_exit (some (suc n)) = RunnerTaskState.failed

-- The state that an outcome of the command stands for.
abbrev pub state_of_outcome : Result Failure ExecResult → RunnerTaskState
state_of_outcome (err e) = RunnerTaskState.failed
state_of_outcome (ok r) =
    if r.timed_out
    then timed_out
    else if r.cancelled
    then RunnerTaskState.cancelled
    else state_of_exit r.exit_code

-- The report that is due when the command of `t` settles.
abbrev pub report : Result Failure ExecResult → ℕ → MutableRunnerTask → RunnerTaskTerminalEvent
report outcome now t = record {
  task_id = t.task_id;
  workspace_id = t.workspace_id;
  client_id = t.created_by_client_id;
  policy_version = t.policy_version;
  state = state_of_outcome outcome;
  completed_at = now;
  duration_ms = now - t.created_at;
  command_id = t.command_id;
}

emitted-report :
    (outcome : Result Failure ExecResult) (now : ℕ) (t : MutableRunnerTask)
    → is_running t.state ≡ true
    → is_quiet t ≡ true
    → is_launched t.handle ≡ true
    → emitted (settle_with outcome now t) ≡ report outcome now t ∷ []
unfolding emitted can_emit settle_with fail_runner finish_runner terminal_event state_from_result
emitted-report (err e) now t on quiet full = ground arith
emitted-report (ok r) now t on quiet full = ground arith

state-state_of_outcome :
    (outcome : Result Failure ExecResult) (now : ℕ) (t : MutableRunnerTask)
    → ((settle_task outcome now t).state ≡ state_of_outcome outcome)
      × ((settle_task outcome now t).completed_at ≡ some now)
unfolding settle_task settle_with fail_runner finish_runner mark_emitted state_from_result
state-state_of_outcome (err e) now t = (ground arith, ground arith)
state-state_of_outcome (ok r) now t = (ground arith, ground arith)

settle-emitted :
    (s : TaskRuntime) (outcome : Result Failure ExecResult) (now : ℕ) (t : MutableRunnerTask)
    → (settle_found outcome now t s).events ≡ s.events ++ emitted (settle_with outcome now t)
unfolding settle_found
settle-emitted s outcome now t = refl

completion_settles-found :
    (id : String) (outcome : Result Failure ExecResult) (now : ℕ) (s : TaskRuntime)
    (t : MutableRunnerTask)
    → runner_at id s.runner_tasks ≡ some t
    → is_running t.state ≡ true
    → is_launched t.handle ≡ true
    → completion_settles id outcome now s ≡ settle_found outcome now t s
unfolding completion_settles
completion_settles-found id outcome now s t found on full = ground arith

-- What settling leaves of the task.
settle-at :
    (id : String) (outcome : Result Failure ExecResult) (now : ℕ) (s : TaskRuntime)
    (t : MutableRunnerTask)
    → runner_at id s.runner_tasks ≡ some t
    → runner_at id (settle_found outcome now t s).runner_tasks ≡ some (settle_task outcome now t)
unfolding runner_at settle_found
settle-at id outcome now s t found =
    let same = first_key runner_key id s.runner_tasks t found in
    first-write runner_key id t.task_id (settle_task outcome now) (settle_task_key outcome now)
      s.runner_tasks
    ∙ ground (arith, found, eq_iff t.task_id id)

-- At any point of any history, when the command of a running task settles, the task takes the state
-- that the outcome stands for (timed out before cancelled before the exit code; failed when the
-- command is rejected) and the time, and exactly one event is added, which reports this state, the
-- time since the creation, and the task's identity.
pub finishes-report :
    (l : Limits) (es : List Event) (id : String) (outcome : Result Failure ExecResult) (now : ℕ)
    (t : MutableRunnerTask)
    → runner_at id (run l new_runtime es).runner_tasks ≡ some t
    → is_running t.state ≡ true
    → is_launched t.handle ≡ true
    → ((step l (run l new_runtime es) (finishes id outcome now)).events
        ≡ (run l new_runtime es).events ++ report outcome now t ∷ [])
      × ((u : MutableRunnerTask) × (runner_at id
              (step l (run l new_runtime es) (finishes id outcome now)).runner_tasks
            ≡ some u)
          × (u.state ≡ state_of_outcome outcome)
          × (u.completed_at ≡ some now))
unfolding step runner_at
finishes-report l es id outcome now t found on full =
    let s = run l new_runtime es in
    let quiet =
      All-first (λ x. is_quiet x ≡ true) (λ x. x.task_id == id) s.runner_tasks t
        (run_from-AreQuiet l new_runtime es tt) found in
    let settles = completion_settles-found id outcome now s t found on full in
    (
      ap (λ x. TaskRuntime.events x) settles
          ∙ settle-emitted s outcome now t
          ∙ ap (λ x. s.events ++ x) (emitted-report outcome now t on quiet full),
      (
        settle_task outcome now t,
        ap (λ x. runner_at id (TaskRuntime.runner_tasks x)) settles
            ∙ settle-at id outcome now s t found,
        (state-state_of_outcome outcome now t).0,
        (state-state_of_outcome outcome now t).1,
      ),
    )

-- The event is the end of a command whose task is running.
pub record Finishes (s : TaskRuntime) (e : Event) : Type 0 where
  pub id : String
  pub outcome : Result Failure ExecResult
  pub now : ℕ
  pub t : MutableRunnerTask
  pub this : e ≡ finishes id outcome now
  pub found : runner_at id s.runner_tasks ≡ some t
  pub on : is_running t.state ≡ true
  pub full : is_launched t.handle ≡ true

unlaunched_silent :
    (e : Failure) (now : ℕ) (t : MutableRunnerTask)
    → t.handle ≡ none
    → emitted (settle_with (err e) now t) ≡ []
unfolding emitted can_emit settle_with fail_runner
unlaunched_silent e now t empty = ground arith

Effect-silent :
    (l : Limits) (s after : TaskRuntime) (e : Event)
    → Effect l s e after
    → (after.events ≡ s.events) ⊎ Finishes s e
unfolding settle_found request_runner_cancel
Effect-silent l s _ _ (nothing e) = inl refl
Effect-silent l s _ _ (prunes_runners actor policy command id now) = inl refl
Effect-silent l s _ _ (inserts_runner actor policy command id now on room) = inl refl
Effect-silent l s _ _ (takes_handle id x now t found on empty) = inl refl
Effect-silent l s _ _ (rejects_launch id x now t found on empty) =
    inl (rw (unlaunched_silent x now t empty) (append-nil s.events))
Effect-silent l s _ _ (settles_task id outcome now t found on full) = inr (record {
  id = id;
  outcome = outcome;
  now = now;
  t = t;
  this = refl;
  found = found;
  on = on;
  full = full;
})
Effect-silent l s _ _ (drops_runner id t found off empty) = inl refl
Effect-silent l s _ _ (cancels_runner actor id now t found on workspace client) = inl refl
Effect-silent l s _ _ (shuts timeout_ms first_time) = inl (
    cancel_all_keeps (λ x. x.events ≡ s.events) (λ t x h. h)
      (select (λ t. is_running t.state) s.runner_tasks)
      (record s { accepting = false; shutdown_started = true }) refl)
Effect-silent l s _ _ (prunes_coordination actor title instructions id now) = inl refl
Effect-silent l s _ _ (inserts_task actor title instructions id now on room) = inl refl
Effect-silent l s _ _ (claims_task actor id now t on seen free) = inl refl
Effect-silent l s _ _ (releases_task actor id now t on held) = inl refl
Effect-silent l s _ _ (completes_task actor id text now t on held) = inl refl
Effect-silent l s _ _ (fails_task actor id text now t on held) = inl refl
Effect-silent l s _ _ (withdraws_task actor id now t seen creator live) = inl refl

-- No other event than the end of the command of a running task adds a report.
pub step-silent :
    (l : Limits) (s : TaskRuntime) (e : Event) → ((step l s e).events ≡ s.events) ⊎ Finishes s e
step-silent l s e = Effect-silent l s (step l s e) e (step-Effect l s e)
