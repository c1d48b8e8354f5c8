-- ===== src/Task/Tests.antt =====
-- Runs of the task runtime (src/task/runtime.ts) at concrete inputs.
use slnc_tr_z_mcp.Prelude.{
  ℕ, true, false, not, none, some, List, [], ◌∷◌, ◌++◌, ◌≡◌, ◌⊎◌, refl, arith, inr, ok, any, ◌==◌,
  length, utf16_length, first, select, delete, update, sort_by, insert_by,
}
use Prim.Native.Nat.{Ordering}
use Prim.Native.String.{compare}
use slnc_tr_z_mcp.Task.Types.{
  ExecResult, RunnerTaskActor, MutableRunnerTask, MutableCoordinationTask, coordination_snapshot,
  is_running, is_claimed, is_over,
}
use slnc_tr_z_mcp.Task.Runtime.{
  TaskRuntimeOptions, Limits, limits_of, chosen_limits, TaskRuntime, new_runtime, runner_at,
  coordination_at, prune_terminal_tasks, prune_terminal_coordination_tasks, assert_accepting,
  assert_coordination_text, has_runner, has_coordination, active_count, active_client_count,
  terminal_tasks, terminal_coordination_tasks, delete_until_below, lookup_runner,
  lookup_coordination, title, instructions,
}
use slnc_tr_z_mcp.Task.Runtime.Runner.{
  start, insert_runner, new_runner_task, launch_settles, launched, completion_settles, start_fails,
  cancel, cancel_runner, cancel_found, request_runner_cancel, shutdown, cancel_all, settle_found,
  settle_with, settle_task, mark_emitted, emitted, can_emit, terminal_event, fail_runner,
  finish_runner, state_from_result, failure_code_of,
}
use slnc_tr_z_mcp.Task.Runtime.Reads.{get, wait_begins, wait_for}
use slnc_tr_z_mcp.Task.Runtime.Coordination.{
  create, insert_task, check_create, new_task, claim, claim_found, release, complete, fail,
  held_claim, cancel_coordination, withdraw_found, list,
}
use slnc_tr_z_mcp.Task.History.{
  Event, starts, launches, finishes, creates, claims, completes, cancels, shuts_down, step, run,
}
use slnc_tr_z_mcp.Task.Refinement.{Refines, run-Refines}
use slnc_tr_z_mcp.Task.Capacity.{IsBounded, run-IsBounded}
use slnc_tr_z_mcp.Task.Identity.{IsKeyed, run-IsKeyed}
use slnc_tr_z_mcp.Task.Claims.{may_end, step-claim}
use slnc_tr_z_mcp.Task.Over.{StaysOrGoes, makes, step-over}
use slnc_tr_z_mcp.Task.Settled.{RunnerStaysOrGoes, starts_as, step-settled}
use slnc_tr_z_mcp.Task.Reports.{report, state_of_outcome, Finishes, finishes-report, step-silent}
use slnc_tr_z_mcp.Task.Shutdown.{run-is_cancelled}
use slnc_tr_z_mcp.Task.Room.{start-accepts, create-accepts}
use slnc_tr_z_mcp.Task.Visibility.{in_workspace, run-in_workspace}

-- What a run unfolds.
runtime : Unit {0}
unfolding run step start insert_runner new_runner_task launch_settles launched completion_settles
    start_fails cancel cancel_runner cancel_found request_runner_cancel shutdown cancel_all
    settle_found settle_with settle_task mark_emitted emitted can_emit terminal_event fail_runner
    finish_runner state_from_result failure_code_of create insert_task check_create new_task claim
    claim_found release complete fail held_claim cancel_coordination withdraw_found assert_accepting
    assert_coordination_text runner_at coordination_at has_runner has_coordination active_count
    active_client_count prune_terminal_tasks prune_terminal_coordination_tasks terminal_tasks
    terminal_coordination_tasks delete_until_below lookup_runner lookup_coordination utf16_length
    first select any delete update sort_by insert_by get wait_begins wait_for may_end
runtime = tt

abbrev options : TaskRuntimeOptions
options = record {
  max_active_tasks = some 2;
  max_active_tasks_per_client = some 1;
  max_retained_tasks = some 2;
  max_coordination_tasks = some 2;
  locale_before = λ a b. elim (compare a b) [ Ordering.lt ↦ true | _ ↦ false ];
}

abbrev limits : Limits
limits = chosen_limits options

limits_accepted : limits_of options ≡ ok limits
unfolding limits_of
limits_accepted = refl

abbrev ann : RunnerTaskActor
ann = record { client_id = "ann"; workspace_id = "w1" }

abbrev bob : RunnerTaskActor
bob = record { client_id = "bob"; workspace_id = "w1" }

abbrev eve : RunnerTaskActor
eve = record { client_id = "eve"; workspace_id = "w2" }

abbrev exited : ℕ → ExecResult
exited code = record {
  command_id = "make";
  argv = "all" ∷ [];
  cwd = "/w1";
  env_keys = [];
  applied = true;
  exit_code = some code;
  signal = none;
  timed_out = false;
  cancelled = false;
  stdout = "done";
  stderr = "";
  stdout_truncated = false;
  stderr_truncated = false;
  duration_ms = 40;
}

abbrev begun : List Event
begun = starts ann "v1" (some "make") "r1" 100 ∷ launches "r1" (ok "h1") 110 ∷ []

abbrev busy : TaskRuntime
busy = run limits new_runtime begun

busy_task :
    (t : MutableRunnerTask) × (runner_at "r1" busy.runner_tasks ≡ some t)
    × (is_running t.state ≡ true)
    × (t.handle ≡ some "h1")
unfolding runtime
busy_task = (_, refl, refl, refl)

abbrev stopped : List Event
stopped = begun ++ shuts_down none ∷ []

stopped_task :
    (t : MutableRunnerTask) × (runner_at "r1" (run limits new_runtime stopped).runner_tasks
      ≡ some t)
    × (is_running t.state ≡ true)
    × (t.handle ≡ some "h1")
    × ((run limits new_runtime stopped).accepting ≡ false)
unfolding runtime
stopped_task = (_, refl, refl, refl, refl)

run-is_cancelled_example : any (λ c. c == "h1") (run limits new_runtime stopped).cancels ≡ true
run-is_cancelled_example =
    run-is_cancelled limits stopped "r1" "h1" stopped_task.0 stopped_task.1 stopped_task.2
      stopped_task.3 (inr stopped_task.4)

finishes-report_example :
    ((step limits busy (finishes "r1" (ok (exited 0)) 150)).events
      ≡ busy.events ++ report (ok (exited 0)) 150 busy_task.0 ∷ [])
    × ((u : MutableRunnerTask) × (runner_at "r1"
            (step limits busy (finishes "r1" (ok (exited 0)) 150)).runner_tasks
          ≡ some u)
        × (u.state ≡ state_of_outcome (ok (exited 0)))
        × (u.completed_at ≡ some 150))
finishes-report_example =
    finishes-report limits begun "r1" (ok (exited 0)) 150 busy_task.0 busy_task.1 busy_task.2
      (rw busy_task.3 refl)

abbrev finished : List Event
finished = begun ++ finishes "r1" (ok (exited 0)) 150 ∷ []

finished_task :
    (t : MutableRunnerTask) × (runner_at "r1" (run limits new_runtime finished).runner_tasks
      ≡ some t)
    × (is_running t.state ≡ false)
unfolding runtime
finished_task = (_, refl, refl)

step-settled_example :
    RunnerStaysOrGoes "r1" finished_task.0
      (step limits (run limits new_runtime finished) (cancels ann "r1" 160)).runner_tasks
unfolding starts_as
step-settled_example =
    step-settled limits finished (cancels ann "r1" 160) "r1" finished_task.0 finished_task.1
      finished_task.2 refl

step-silent_example :
    ((step limits busy (starts bob "v1" none "r2" 170)).events ≡ busy.events)
    ⊎ Finishes busy (starts bob "v1" none "r2" 170)
step-silent_example = step-silent limits busy (starts bob "v1" none "r2" 170)

run-Refines_example : Refines limits busy (starts bob "v1" none "r2" 170)
run-Refines_example = run-Refines limits begun (starts bob "v1" none "r2" 170)

run-IsBounded_example : IsBounded limits (run limits new_runtime finished)
run-IsBounded_example = run-IsBounded limits finished

run-IsKeyed_example : IsKeyed (run limits new_runtime finished)
run-IsKeyed_example = run-IsKeyed limits finished

free_for_bob :
    (busy.accepting ≡ true)
    × (active_count busy.runner_tasks ≡ 1)
    × (active_client_count "bob" busy.runner_tasks ≡ 0)
    × (has_runner "r2" busy ≡ false)
    × (has_coordination "r2" busy ≡ false)
unfolding runtime
free_for_bob = (refl, refl, refl, refl, refl)

start-accepts_example : start limits bob "v1" none "r2" 170 busy ≡ (
  ok tt,
  record busy {
    runner_tasks =
        prune_terminal_tasks limits busy.runner_tasks
        ++ new_runner_task bob "v1" none "r2" 170 ∷ [];
  },
)
start-accepts_example =
    start-accepts options limits bob "v1" none "r2" 170 busy limits_accepted free_for_bob.0
      (omega (arith, free_for_bob.1)) (omega (arith, free_for_bob.2)) free_for_bob.3 free_for_bob.4

abbrev shared : List Event
shared = creates ann "Build" "Run make." "c1" 200 ∷ claims bob "c1" 210 ∷ []

claimed_task :
    (t : MutableCoordinationTask) × (coordination_at "c1"
        (run limits new_runtime shared).coordination_tasks
      ≡ some t)
    × (is_claimed t.state ≡ true)
    × (t.claimed_by ≡ some "bob")
    × (may_end "bob" t.created_by_client_id "c1" (completes ann "c1" "ok" 220) ≡ false)
unfolding runtime
claimed_task = (_, refl, refl, refl, refl)

-- The creator cannot complete the task that another holds.
step-claim_example :
    coordination_at "c1"
      (step limits (run limits new_runtime shared) (completes ann "c1" "ok" 220)).coordination_tasks
    ≡ some claimed_task.0
step-claim_example =
    step-claim limits shared (completes ann "c1" "ok" 220) "c1" "bob" claimed_task.0 claimed_task.1
      claimed_task.2 claimed_task.3 claimed_task.4

abbrev done : List Event
done = shared ++ completes bob "c1" "ok" 220 ∷ []

done_task :
    (t : MutableCoordinationTask) × (coordination_at "c1"
        (run limits new_runtime done).coordination_tasks
      ≡ some t)
    × (is_over t.state ≡ true)
unfolding runtime
done_task = (_, refl, refl)

step-over_example :
    StaysOrGoes "c1" done_task.0
      (step limits (run limits new_runtime done) (cancels ann "c1" 230)).coordination_tasks
unfolding makes
step-over_example =
    step-over limits (run limits new_runtime done) (cancels ann "c1" 230) "c1" done_task.0
      done_task.1 done_task.2 refl

can_create :
    ((run limits new_runtime done).accepting ≡ true)
    × (assert_coordination_text "Test" title ≡ ok tt)
    × (assert_coordination_text "Run the tests." instructions ≡ ok tt)
    × (length (select (λ t. not (is_over t.state)) (run limits new_runtime done).coordination_tasks)
        ≡ 0)
    × (has_runner "c2" (run limits new_runtime done) ≡ false)
    × (has_coordination "c2" (run limits new_runtime done) ≡ false)
unfolding runtime
can_create = (refl, refl, refl, refl, refl, refl)

create-accepts_example :
    create limits bob "Test" "Run the tests." "c2" 240 (run limits new_runtime done) ≡ (
      ok (coordination_snapshot (new_task bob "Test" "Run the tests." "c2" 240)),
      record (run limits new_runtime done) {
        coordination_tasks =
            prune_terminal_coordination_tasks limits
              (run limits new_runtime done).coordination_tasks
            ++ new_task bob "Test" "Run the tests." "c2" 240 ∷ [];
      },
    )
create-accepts_example =
    create-accepts limits bob "Test" "Run the tests." "c2" 240 (run limits new_runtime done)
      can_create.0 can_create.1 can_create.2 (omega (arith, can_create.3)) can_create.4 can_create.5

run-in_workspace_example :
    (get eve "c1" (in_workspace eve (run limits new_runtime shared))
      ≡ get eve "c1" (run limits new_runtime shared))
    × (wait_begins eve "c1" none (in_workspace eve (run limits new_runtime shared))
        ≡ wait_begins eve "c1" none (run limits new_runtime shared))
    × (list eve (in_workspace eve (run limits new_runtime shared))
        ≡ list eve (run limits new_runtime shared))
run-in_workspace_example = run-in_workspace limits shared eve "c1" none
