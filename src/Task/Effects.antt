-- ===== src/Task/Effects.antt =====
-- The specification of src/task/runtime.ts as a transition system: what an event may do to the
-- runtime, and under which conditions.
pub mod Tasks
pub mod Runners
use slnc_tr_z_mcp.Prelude.{
  ℕ, ◌<◌, String, Bool, true, false, Option, none, some, List, [], ◌∷◌, ◌++◌, ◌≡◌, refl, ◌>>=◌,
  ◌>>◌, Result, ok, err, if◌then◌else◌, length, delete, select, ◌==◌,
}
use slnc_tr_z_mcp.Task.Types.{
  is_running, is_available, is_claimed, is_over, ExecResult, Failure, MutableRunnerTask,
  MutableCoordinationTask, RunnerTaskActor, Thrown,
}
use slnc_tr_z_mcp.Task.Runtime.{
  Limits, TaskRuntime, from_state, runner_at, coordination_at, has_runner, has_coordination,
  active_count, active_client_count,
}
use slnc_tr_z_mcp.Task.Runtime.Runner.{
  new_runner_task, pruned_runners, write_runner, take_handle, settle_found, request_runner_cancel,
  cancel_all,
}
use slnc_tr_z_mcp.Task.Runtime.Coordination.{
  new_task, pruned_coordination, write, claim_by, unclaim, complete_with, fail_with, withdraw,
}
use slnc_tr_z_mcp.Task.History.{
  Event, starts, launches, finishes, start_rejects, creates, claims, releases, completes, fails,
  cancels, shuts_down,
}

-- There is room for another runner task of the client.
pub record HasRoom (l : Limits) (client id : String) (s : TaskRuntime) : Type 0 where
  pub retained : length s.runner_tasks < l.max_retained
  pub active : active_count s.runner_tasks < l.max_active
  pub of_client : active_client_count client s.runner_tasks < l.max_active_per_client
  pub fresh_runner : has_runner id s ≡ false
  pub fresh_coordination : has_coordination id s ≡ false

pub record HasPlace (l : Limits) (id : String) (s : TaskRuntime) : Type 0 where
  pub place : length s.coordination_tasks < l.max_coordination
  pub fresh_runner : has_runner id s ≡ false
  pub fresh_coordination : has_coordination id s ≡ false

-- The task is there, and in the workspace of the caller.
pub record IsSeen (actor : RunnerTaskActor) (id : String) (t : MutableCoordinationTask)
    (s : TaskRuntime) : Type 0 where
  pub found : coordination_at id s.coordination_tasks ≡ some t
  pub workspace : t.workspace_id ≡ actor.workspace_id

-- The caller holds the claim on the task.
pub record IsHeld (actor : RunnerTaskActor) (id : String) (t : MutableCoordinationTask)
    (s : TaskRuntime) : Type 0 where
  pub seen : IsSeen actor id t s
  pub state : is_claimed t.state ≡ true
  pub holder : t.claimed_by ≡ some actor.client_id

abbrev pub is_launched {ℓ} : {A : Type ℓ} → Option A → Bool
is_launched none = false
is_launched (some h) = true

pub data Effect (l : Limits) (s : TaskRuntime) : Event → TaskRuntime → Type 0 where
  nothing : (e : Event) → Effect l s e s
  prunes_runners :
      (actor : RunnerTaskActor) (policy : String) (command : Option String) (id : String) (now : ℕ)
      → Effect l s (starts actor policy command id now) (pruned_runners l s)
  inserts_runner :
      (actor : RunnerTaskActor) (policy : String) (command : Option String) (id : String) (now : ℕ)
      → s.accepting ≡ true
      → HasRoom l actor.client_id id (pruned_runners l s)
      → Effect l s (starts actor policy command id now) (record (pruned_runners l s) {
        runner_tasks =
            (pruned_runners l s).runner_tasks ++ new_runner_task actor policy command id now ∷ [];
      })
  takes_handle :
      (id h : String) (now : ℕ) (t : MutableRunnerTask)
      → runner_at id s.runner_tasks ≡ some t
      → is_running t.state ≡ true
      → t.handle ≡ none
      → Effect l s (launches id (ok h) now) (record (write_runner t.task_id (take_handle h) s) {
        cancels = s.cancels ++ (if t.cancel_requested then h ∷ [] else []);
      })
  rejects_launch :
      (id : String) (e : Failure) (now : ℕ) (t : MutableRunnerTask)
      → runner_at id s.runner_tasks ≡ some t
      → is_running t.state ≡ true
      → t.handle ≡ none
      → Effect l s (launches id (err e) now) (settle_found (err e) now t s)
  settles_task :
      (id : String) (outcome : Result Failure ExecResult) (now : ℕ) (t : MutableRunnerTask)
      → runner_at id s.runner_tasks ≡ some t
      → is_running t.state ≡ true
      → is_launched t.handle ≡ true
      → Effect l s (finishes id outcome now) (settle_found outcome now t s)
  drops_runner :
      (id : String) (t : MutableRunnerTask)
      → runner_at id s.runner_tasks ≡ some t
      → is_running t.state ≡ false
      → t.handle ≡ none
      → Effect l s (start_rejects id) (record s {
        runner_tasks = delete (λ x. MutableRunnerTask.task_id x == id) s.runner_tasks;
      })
  cancels_runner :
      (actor : RunnerTaskActor) (id : String) (now : ℕ) (t : MutableRunnerTask)
      → runner_at id s.runner_tasks ≡ some t
      → is_running t.state ≡ true
      → t.workspace_id ≡ actor.workspace_id
      → t.created_by_client_id ≡ actor.client_id
      → Effect l s (cancels actor id now) (request_runner_cancel t s)
  shuts :
      (timeout_ms : Option ℕ)
      → s.shutdown_started ≡ false
      → Effect l s (shuts_down timeout_ms) (
          cancel_all
            (select (λ t. is_running t.state) s.runner_tasks)
            (record s { accepting = false; shutdown_started = true }))
  prunes_coordination :
      (actor : RunnerTaskActor) (title instructions id : String) (now : ℕ)
      → Effect l s (creates actor title instructions id now) (pruned_coordination l s)
  inserts_task :
      (actor : RunnerTaskActor) (title instructions id : String) (now : ℕ)
      → s.accepting ≡ true
      → HasPlace l id (pruned_coordination l s)
      → Effect l s (creates actor title instructions id now) (record (pruned_coordination l s) {
        coordination_tasks =
            (pruned_coordination l s).coordination_tasks
            ++ new_task actor title instructions id now ∷ [];
      })
  claims_task :
      (actor : RunnerTaskActor) (id : String) (now : ℕ) (t : MutableCoordinationTask)
      → s.accepting ≡ true
      → IsSeen actor id t s
      → is_available t.state ≡ true
      → Effect l s (claims actor id now) (write t.task_id (claim_by actor.client_id now) s)
  releases_task :
      (actor : RunnerTaskActor) (id : String) (now : ℕ) (t : MutableCoordinationTask)
      → s.accepting ≡ true
      → IsHeld actor id t s
      → Effect l s (releases actor id now) (write t.task_id (unclaim now) s)
  completes_task :
      (actor : RunnerTaskActor) (id text : String) (now : ℕ) (t : MutableCoordinationTask)
      → s.accepting ≡ true
      → IsHeld actor id t s
      → Effect l s (completes actor id text now) (write t.task_id (complete_with text now) s)
  fails_task :
      (actor : RunnerTaskActor) (id text : String) (now : ℕ) (t : MutableCoordinationTask)
      → s.accepting ≡ true
      → IsHeld actor id t s
      → Effect l s (fails actor id text now) (write t.task_id (fail_with text now) s)
  withdraws_task :
      (actor : RunnerTaskActor) (id : String) (now : ℕ) (t : MutableCoordinationTask)
      → IsSeen actor id t s
      → t.created_by_client_id ≡ actor.client_id
      → is_over t.state ≡ false
      → Effect l s (cancels actor id now) (write t.task_id (withdraw now) s)

-- A step of a chain that throws does nothing.
pub chain-Effect :
    {A B : Type 0} (l : Limits) (s : TaskRuntime) (e : Event) (m : Result Thrown A)
    (k : A → Result Thrown (B × TaskRuntime))
    → ((a : A) → m ≡ ok a → Effect l s e (from_state s (k a)).1)
    → Effect l s e (from_state s (m >>= k)).1
chain-Effect l s e (ok a) k h = h a refl
chain-Effect l s e (err x) k h = nothing e

pub check-Effect :
    {B : Type 0} (l : Limits) (s : TaskRuntime) (e : Event) (m : Result Thrown (Unit {0}))
    (k : Result Thrown (B × TaskRuntime))
    → ((u : Unit {0}) → m ≡ ok u → Effect l s e (from_state s k).1)
    → Effect l s e (from_state s (m >> k)).1
check-Effect l s e (ok a) k h = h a refl
check-Effect l s e (err x) k h = nothing e
