-- ===== src/Task/Types.antt =====
-- src/task/runtime.ts: the tasks, the events and the errors of the task runtime, with the results
-- of commands of src/kernel/exec.ts. A time is in ms.
use slnc_tr_z_mcp.Prelude.{ℕ, String, Bool, true, false, Option, List}

pub record ExecResult : Type 0 where
  pub command_id : String
  pub argv : List String
  pub cwd : String
  pub env_keys : List String
  pub applied : Bool
  pub exit_code : Option ℕ
  pub signal : Option String
  pub timed_out : Bool
  pub cancelled : Bool
  pub stdout : String
  pub stderr : String
  pub stdout_truncated : Bool
  pub stderr_truncated : Bool
  pub duration_ms : ℕ

pub data ExecErrorCode : Type 0 where
  no_root unknown_command invalid_args invalid_cwd invalid_input invalid_limit permission_denied
        spawn_failed :
      ExecErrorCode

-- What a launch or a command can be rejected with.
pub data Failure : Type 0 where
  exec_error : ExecErrorCode → Failure
  other_failure : Failure

pub data FailureCode : Type 0 where
  exec_code : ExecErrorCode → FailureCode
  execution_failed : FailureCode

pub data TaskRuntimeErrorCode : Type 0 where
  task_not_found task_forbidden task_capacity task_wait_cancelled task_invalid_wait
        task_invalid_state task_already_claimed task_payload_too_large :
      TaskRuntimeErrorCode

pub data Thrown : Type 0 where
  task_error : TaskRuntimeErrorCode → Thrown
  task_id_collision : Thrown
  range_error : Thrown

pub data RunnerTaskState : Type 0 where
  running completed failed cancelled timed_out : RunnerTaskState

abbrev pub is_running : RunnerTaskState → Bool
is_running running = true
is_running RunnerTaskState.completed = false
is_running RunnerTaskState.failed = false
is_running RunnerTaskState.cancelled = false
is_running timed_out = false

pub data CoordinationTaskState : Type 0 where
  available claimed completed failed cancelled : CoordinationTaskState

abbrev pub is_available : CoordinationTaskState → Bool
is_available available = true
is_available claimed = false
is_available CoordinationTaskState.completed = false
is_available CoordinationTaskState.failed = false
is_available CoordinationTaskState.cancelled = false

abbrev pub is_claimed : CoordinationTaskState → Bool
is_claimed available = false
is_claimed claimed = true
is_claimed CoordinationTaskState.completed = false
is_claimed CoordinationTaskState.failed = false
is_claimed CoordinationTaskState.cancelled = false

abbrev pub is_over : CoordinationTaskState → Bool
is_over available = false
is_over claimed = false
is_over CoordinationTaskState.completed = true
is_over CoordinationTaskState.failed = true
is_over CoordinationTaskState.cancelled = true

pub record RunnerTaskActor : Type 0 where
  pub client_id : String
  pub workspace_id : String

pub record RunnerTaskTerminalEvent : Type 0 where
  pub task_id : String
  pub workspace_id : String
  pub client_id : String
  pub policy_version : String
  pub state : RunnerTaskState
  pub completed_at : ℕ
  pub duration_ms : ℕ
  pub command_id : Option String

pub record RunnerTaskSnapshot : Type 0 where
  pub task_id : String
  pub workspace_id : String
  pub created_by_client_id : String
  pub policy_version : String
  pub state : RunnerTaskState
  pub created_at : ℕ
  pub completed_at : Option ℕ
  pub result : Option ExecResult
  pub failure_code : Option FailureCode

pub record CoordinationTaskSnapshot : Type 0 where
  pub task_id : String
  pub workspace_id : String
  pub created_by_client_id : String
  pub title : String
  pub instructions : String
  pub state : CoordinationTaskState
  pub claimed_by : Option String
  pub created_at : ℕ
  pub updated_at : ℕ
  pub result : Option String
  pub failure : Option String

pub data TaskSnapshot : Type 0 where
  runner : RunnerTaskSnapshot → TaskSnapshot
  coordination : CoordinationTaskSnapshot → TaskSnapshot

-- `handle` names the handle that the launch has given, once it has.
pub record MutableRunnerTask : Type 0 where
  pub task_id : String
  pub workspace_id : String
  pub created_by_client_id : String
  pub policy_version : String
  pub state : RunnerTaskState
  pub created_at : ℕ
  pub completed_at : Option ℕ
  pub result : Option ExecResult
  pub failure_code : Option FailureCode
  pub handle : Option String
  pub cancel_requested : Bool
  pub terminal_emitted : Bool
  pub command_id : Option String

pub record MutableCoordinationTask : Type 0 where
  pub task_id : String
  pub workspace_id : String
  pub created_by_client_id : String
  pub title : String
  pub instructions : String
  pub state : CoordinationTaskState
  pub claimed_by : Option String
  pub created_at : ℕ
  pub updated_at : ℕ
  pub result : Option String
  pub failure : Option String

abbrev pub runner_snapshot : MutableRunnerTask → RunnerTaskSnapshot
runner_snapshot t = record {
  task_id = t.task_id;
  workspace_id = t.workspace_id;
  created_by_client_id = t.created_by_client_id;
  policy_version = t.policy_version;
  state = t.state;
  created_at = t.created_at;
  completed_at = t.completed_at;
  result = t.result;
  failure_code = t.failure_code;
}

abbrev pub coordination_snapshot : MutableCoordinationTask → CoordinationTaskSnapshot
coordination_snapshot t = record {
  task_id = t.task_id;
  workspace_id = t.workspace_id;
  created_by_client_id = t.created_by_client_id;
  title = t.title;
  instructions = t.instructions;
  state = t.state;
  claimed_by = t.claimed_by;
  created_at = t.created_at;
  updated_at = t.updated_at;
  result = t.result;
  failure = t.failure;
}
