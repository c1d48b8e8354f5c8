-- ===== src/Task/History.antt =====
-- Histories of one task runtime (src/task/runtime.ts): calls, and launches and commands that settle,
-- in any order in which the event loop may run them.
use slnc_tr_z_mcp.Prelude.{ℕ, String, Option, List, [], ◌∷◌, Result}
use slnc_tr_z_mcp.Task.Types.{RunnerTaskActor, ExecResult, Failure}
use slnc_tr_z_mcp.Task.Runtime.{Limits, TaskRuntime, from_state}
use slnc_tr_z_mcp.Task.Runtime.Runner.{
  start, launch_settles, completion_settles, start_fails, cancel, shutdown,
}
use slnc_tr_z_mcp.Task.Runtime.Coordination.{create, claim, release, complete, fail}

pub data Event : Type 0 where
  starts : RunnerTaskActor → String → Option String → String → ℕ → Event
  launches : String → Result Failure String → ℕ → Event
  finishes : String → Result Failure ExecResult → ℕ → Event
  start_rejects : String → Event
  creates : RunnerTaskActor → String → String → String → ℕ → Event
  claims : RunnerTaskActor → String → ℕ → Event
  releases : RunnerTaskActor → String → ℕ → Event
  completes : RunnerTaskActor → String → String → ℕ → Event
  fails : RunnerTaskActor → String → String → ℕ → Event
  cancels : RunnerTaskActor → String → ℕ → Event
  shuts_down : Option ℕ → Event

-- The runtime after an event; what a call returns or throws is dropped.
unfoldable pub step : Limits → TaskRuntime → Event → TaskRuntime
step l s (starts actor policy command id now) = (start l actor policy command id now s).1
step l s (launches id outcome now) = launch_settles id outcome now s
step l s (finishes id outcome now) = completion_settles id outcome now s
step l s (start_rejects id) = start_fails id s
step l s (creates actor title instructions id now) = (create l actor title instructions id now s).1
step l s (claims actor id now) = (from_state s (claim actor id now s)).1
step l s (releases actor id now) = (from_state s (release actor id now s)).1
step l s (completes actor id text now) = (from_state s (complete actor id text now s)).1
step l s (fails actor id text now) = (from_state s (fail actor id text now s)).1
step l s (cancels actor id now) = (from_state s (cancel actor id now s)).1
step l s (shuts_down timeout_ms) = (shutdown timeout_ms s).1

unfoldable pub run : Limits → TaskRuntime → List Event → TaskRuntime
run l s [] = s
run l s (e ∷ es) = run l (step l s e) es
