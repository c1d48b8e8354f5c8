-- ===== src/Task/Runtime.antt =====
-- src/task/runtime.ts: the state of the task runtime, its limits, and the helpers that its
-- operations share. The `Map`s are lists of tasks in the order of insertion.
pub mod Runner
pub mod Reads
pub mod Coordination
use slnc_tr_z_mcp.Prelude.{
  ℕ, max, ◌-◌, String, len, Bool, true, false, not, ◌&&◌, ◌||◌, Option, none, some, List, [], ◌∷◌,
  ◌++◌, map, ◌==◌, Result, ok, err, ◌>>=◌, ◌>>◌, throw_if, or_throw, ltb, leb, eqb, if◌then◌else◌,
  length, first, select, any, delete, update, sort_by, utf16_length,
}
use slnc_tr_z_mcp.Task.Types.{
  MutableRunnerTask, MutableCoordinationTask, RunnerTaskActor, RunnerTaskTerminalEvent, Thrown,
  task_error, range_error, task_not_found, task_forbidden, task_invalid_state,
  task_payload_too_large, is_running, is_over,
}

abbrev pub max_safe_integer : ℕ
max_safe_integer = 9007199254740991

abbrev pub or_default {ℓ} : {A : Type ℓ} → Option A → A → A
or_default none d = d
or_default (some a) d = a

-- The limits that the caller sets, and the order of texts that `localeCompare` gives.
pub record TaskRuntimeOptions : Type 0 where
  pub max_active_tasks : Option ℕ
  pub max_active_tasks_per_client : Option ℕ
  pub max_retained_tasks : Option ℕ
  pub max_coordination_tasks : Option ℕ
  pub locale_before : String → String → Bool

pub record Limits : Type 0 where
  pub max_active : ℕ
  pub max_active_per_client : ℕ
  pub max_retained : ℕ
  pub max_coordination : ℕ
  pub locale_before : String → String → Bool

unfoldable pub validate_positive_bound : ℕ → Result Thrown (Unit {0})
validate_positive_bound n = throw_if (not (leb 1 n && leb n max_safe_integer)) range_error

abbrev pub chosen_limits : TaskRuntimeOptions → Limits
chosen_limits o = record {
  max_active = or_default o.max_active_tasks 32;
  max_active_per_client = or_default o.max_active_tasks_per_client 8;
  max_retained = or_default o.max_retained_tasks 256;
  max_coordination = or_default o.max_coordination_tasks 256;
  locale_before = o.locale_before;
}

-- The checks of `createTaskRuntime`.
unfoldable pub limits_of : TaskRuntimeOptions → Result Thrown Limits
unfolding validate_positive_bound
limits_of o = do
  let l = chosen_limits o
  validate_positive_bound l.max_active
  validate_positive_bound l.max_active_per_client
  validate_positive_bound l.max_retained
  validate_positive_bound l.max_coordination
  throw_if (ltb l.max_active l.max_active_per_client) range_error
  throw_if (ltb l.max_retained l.max_active) range_error
  ok l

-- `cancels` are the handles whose `cancel` was called, `events` the calls of `onRunnerTerminal`.
pub record TaskRuntime : Type 0 where
  pub runner_tasks : List MutableRunnerTask
  pub coordination_tasks : List MutableCoordinationTask
  pub accepting : Bool
  pub shutdown_started : Bool
  pub cancels : List String
  pub events : List RunnerTaskTerminalEvent

abbrev pub new_runtime : TaskRuntime
new_runtime = record {
  runner_tasks = [];
  coordination_tasks = [];
  accepting = true;
  shutdown_started = false;
  cancels = [];
  events = [];
}

unfoldable pub assert_accepting : TaskRuntime → Result Thrown (Unit {0})
assert_accepting s = throw_if (not s.accepting) (task_error task_invalid_state)

unfoldable pub runner_at : String → List MutableRunnerTask → Option MutableRunnerTask
runner_at id ts = first (λ t. t.task_id == id) ts

unfoldable pub coordination_at :
    String → List MutableCoordinationTask → Option MutableCoordinationTask
coordination_at id ts = first (λ t. t.task_id == id) ts

unfoldable pub has_runner : String → TaskRuntime → Bool
has_runner id s = any (λ t. t.task_id == id) s.runner_tasks

unfoldable pub has_coordination : String → TaskRuntime → Bool
has_coordination id s = any (λ t. t.task_id == id) s.coordination_tasks

abbrev pub is_active : MutableRunnerTask → Bool
is_active t = is_running t.state

abbrev pub is_active_of : String → MutableRunnerTask → Bool
is_active_of client t = is_running t.state && t.created_by_client_id == client

unfoldable pub active_count : List MutableRunnerTask → ℕ
active_count ts = length (select is_active ts)

unfoldable pub active_client_count : String → List MutableRunnerTask → ℕ
active_client_count client ts = length (select (is_active_of client) ts)

abbrev pub created_before : MutableRunnerTask → MutableRunnerTask → Bool
created_before a b = ltb a.created_at b.created_at

unfoldable pub terminal_tasks : List MutableRunnerTask → List MutableRunnerTask
terminal_tasks ts = sort_by created_before (select (λ t. not (is_running t.state)) ts)

-- `for (const task of terminal) { if (size < bound) break; delete(task.taskId); }`
unfoldable pub delete_until_below {ℓ} : {A : Type ℓ} → (A → String) → ℕ → List A → List A → List A
delete_until_below key bound [] ts = ts
delete_until_below key bound (x ∷ xs) ts =
    let rest = delete_until_below key bound xs (delete (λ t. key t == key x) ts) in
    if ltb (length ts) bound then ts else rest

unfoldable pub prune_terminal_tasks : Limits → List MutableRunnerTask → List MutableRunnerTask
prune_terminal_tasks l ts =
    if ltb (length ts) l.max_retained
    then ts
    else delete_until_below (λ t. t.task_id) l.max_retained (terminal_tasks ts) ts

abbrev pub settled_before :
    (String → String → Bool) → MutableCoordinationTask → MutableCoordinationTask → Bool
settled_before locale_before a b =
    ltb a.updated_at b.updated_at
    || (eqb a.updated_at b.updated_at
        && (ltb a.created_at b.created_at
            || (eqb a.created_at b.created_at && locale_before a.task_id b.task_id)))

unfoldable pub terminal_coordination_tasks :
    Limits → List MutableCoordinationTask → List MutableCoordinationTask
terminal_coordination_tasks l ts =
    sort_by (settled_before l.locale_before) (select (λ t. is_over t.state) ts)

unfoldable pub prune_terminal_coordination_tasks :
    Limits → List MutableCoordinationTask → List MutableCoordinationTask
prune_terminal_coordination_tasks l ts =
    if ltb (length ts) l.max_coordination
    then ts
    else delete_until_below (λ t. t.task_id) l.max_coordination (terminal_coordination_tasks l ts)
        ts

unfoldable pub lookup_runner :
    RunnerTaskActor → String → TaskRuntime → Result Thrown MutableRunnerTask
lookup_runner actor id s = do
  t ← or_throw (runner_at id s.runner_tasks) (task_error task_not_found)
  throw_if (not (t.workspace_id == actor.workspace_id)) (task_error task_not_found)
  throw_if (not (t.created_by_client_id == actor.client_id)) (task_error task_forbidden)
  ok t

unfoldable pub lookup_coordination :
    RunnerTaskActor → String → TaskRuntime → Result Thrown MutableCoordinationTask
lookup_coordination actor id s = do
  t ← or_throw (coordination_at id s.coordination_tasks) (task_error task_not_found)
  throw_if (not (t.workspace_id == actor.workspace_id)) (task_error task_not_found)
  ok t

-- The four labels of `assertCoordinationText`.
pub data TextLabel : Type 0 where
  title instructions result failure : TextLabel

abbrev pub fits : TextLabel → String → Bool
fits title text = leb (utf16_length text) 256
fits instructions text = leb (len text) 65536
fits result text = leb (len text) 65536
fits failure text = leb (len text) 65536

unfoldable pub assert_coordination_text : String → TextLabel → Result Thrown (Unit {0})
assert_coordination_text text label = do
  throw_if (eqb (utf16_length text) 0) (task_error task_payload_too_large)
  throw_if (not (fits label text)) (task_error task_payload_too_large)
  ok tt

-- A call that may throw after it has changed `s`: what it throws leaves `s` as it is.
abbrev pub Called : Type 0 → Type 0
Called A = Result Thrown A × TaskRuntime

abbrev pub from_state : {A : Type 0} → TaskRuntime → Result Thrown (A × TaskRuntime) → Called A
from_state s (err e) = (err e, s)
from_state s (ok (a, after)) = (ok a, after)
