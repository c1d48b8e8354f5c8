-- ===== src/Task/Refinement.antt =====
-- The task runtime (src/task/runtime.ts) against its specification: what an event changes, what a call
-- that throws leaves, and which tasks a pruning may drop.
use slnc_tr_z_mcp.Prelude.{
  ℕ, String, Bool, true, false, not, Option, List, ◌≡◌, arith, inl, inr, Result, ok, err,
  Result-cases, subst, sym,
}
use slnc_tr_z_mcp.Task.Types.{is_running, is_over, RunnerTaskActor, Thrown}
use slnc_tr_z_mcp.Task.Runtime.{
  Limits, TaskRuntime, Called, new_runtime, from_state, assert_accepting,
}
use slnc_tr_z_mcp.Task.Runtime.Runner.{
  start, insert_runner, new_runner_task, pruned_runners, cancel, shutdown,
}
use slnc_tr_z_mcp.Task.Runtime.Coordination.{
  create, check_create, insert_task, new_task, pruned_coordination, claim, release, complete, fail,
}
use slnc_tr_z_mcp.Task.History.{
  Event, starts, launches, finishes, start_rejects, creates, claims, releases, completes, fails,
  cancels, shuts_down, step, run,
}
use slnc_tr_z_mcp.Task.Effects.{Effect}
use slnc_tr_z_mcp.Task.Effects.Runners.{step-Effect}
use slnc_tr_z_mcp.Task.Identity.{run-IsKeyed}
use slnc_tr_z_mcp.Task.Pruned.{
  IsPruned, prune_terminal_tasks-IsPruned, prune_terminal_coordination_tasks-IsPruned,
}

abbrev pub is_err {ℓ κ} : {E : Type ℓ} {A : Type κ} → Result E A → Bool
is_err (ok a) = false
is_err (err e) = true

-- Whether the call throws; the events that are not calls do not.
unfoldable pub throws : Limits → TaskRuntime → Event → Bool
throws l s (starts actor policy command id now) = is_err (start l actor policy command id now s).0
throws l s (launches id outcome now) = false
throws l s (finishes id outcome now) = false
throws l s (start_rejects id) = false
throws l s (creates actor title instructions id now) =
    is_err (create l actor title instructions id now s).0
throws l s (claims actor id now) = is_err (claim actor id now s)
throws l s (releases actor id now) = is_err (release actor id now s)
throws l s (completes actor id text now) = is_err (complete actor id text now s)
throws l s (fails actor id text now) = is_err (fail actor id text now s)
throws l s (cancels actor id now) = is_err (cancel actor id now s)
throws l s (shuts_down timeout_ms) = is_err (shutdown timeout_ms s).0

-- What is left when the event throws, and when it does not.
pub data Outcome (l : Limits) (s : TaskRuntime) : Event → Bool → TaskRuntime → Type 0 where
  returns : (e : Event) (after : TaskRuntime) → Outcome l s e false after
  refuses : (e : Event) → Outcome l s e true s
  refuses_start :
      (actor : RunnerTaskActor) (policy : String) (command : Option String) (id : String) (now : ℕ)
      → Outcome l s (starts actor policy command id now) true (pruned_runners l s)
  refuses_create :
      (actor : RunnerTaskActor) (title instructions id : String) (now : ℕ)
      → Outcome l s (creates actor title instructions id now) true (pruned_coordination l s)

from_state-Outcome :
    {A : Type 0} (l : Limits) (s : TaskRuntime) (e : Event) (m : Result Thrown (A × TaskRuntime))
    → Outcome l s e (is_err m) (from_state s m).1
from_state-Outcome l s e (ok (a, after)) = returns e after
from_state-Outcome l s e (err x) = refuses e

called-Outcome :
    {A : Type 0} (l : Limits) (s : TaskRuntime) (e : Event) (c x : Called A)
    → c ≡ x
    → Outcome l s e (is_err x.0) x.1
    → Outcome l s e (is_err c.0) c.1
called-Outcome l s e c x same h = subst (λ y. Outcome l s e (is_err y.0) y.1) (sym same) h

start-Outcome :
    (l : Limits) (actor : RunnerTaskActor) (policy : String) (command : Option String) (id : String)
    (now : ℕ) (s : TaskRuntime)
    → Outcome l s
        (starts actor policy command id now)
        (is_err (start l actor policy command id now s).0)
        (start l actor policy command id now s).1
unfolding start
start-Outcome l actor policy command id now s =
    let e = starts actor policy command id now in
    let c = start l actor policy command id now s in
    let t = new_runner_task actor policy command id now in
    elim (Result-cases (assert_accepting s)) [
      | inr (x, p) ↦ called-Outcome l s e c (err x, s) (ground arith) (refuses e)
      | inl (u, p) ↦ elim (Result-cases (insert_runner l t (pruned_runners l s))) [
        | inr (x, q) ↦
            called-Outcome l s e c (err x, pruned_runners l s) (ground arith)
              (refuses_start actor policy command id now)
        | inl ((v, after), q) ↦
            called-Outcome l s e c (ok v, after) (ground arith) (returns e after)
      ]
    ]

create-Outcome :
    (l : Limits) (actor : RunnerTaskActor) (title instructions id : String) (now : ℕ)
    (s : TaskRuntime)
    → Outcome l s
        (creates actor title instructions id now)
        (is_err (create l actor title instructions id now s).0)
        (create l actor title instructions id now s).1
unfolding create
create-Outcome l actor title instructions id now s =
    let e = creates actor title instructions id now in
    let c = create l actor title instructions id now s in
    let t = new_task actor title instructions id now in
    elim (Result-cases (check_create title instructions s)) [
      | inr (x, p) ↦ called-Outcome l s e c (err x, s) (ground arith) (refuses e)
      | inl (u, p) ↦ elim (Result-cases (insert_task l t (pruned_coordination l s))) [
        | inr (x, q) ↦
            called-Outcome l s e c (err x, pruned_coordination l s) (ground arith)
              (refuses_create actor title instructions id now)
        | inl ((v, after), q) ↦
            called-Outcome l s e c (ok v, after) (ground arith) (returns e after)
      ]
    ]

shutdown-Outcome :
    (l : Limits) (timeout_ms : Option ℕ) (s : TaskRuntime)
    → Outcome l s
        (shuts_down timeout_ms)
        (is_err (shutdown timeout_ms s).0)
        (shutdown timeout_ms s).1
unfolding shutdown
shutdown-Outcome l timeout_ms s =
    let e = shuts_down timeout_ms in
    let c = shutdown timeout_ms s in
    elim (Result-cases c.0) [
      | inl (u, p) ↦ called-Outcome l s e c (ok u, c.1) (ground arith) (returns e c.1)
      | inr (x, p) ↦ called-Outcome l s e c (err x, s) (ground arith) (refuses e)
    ]

step-Outcome :
    (l : Limits) (s : TaskRuntime) (e : Event) → Outcome l s e (throws l s e) (step l s e)
unfolding step throws
step-Outcome l s (starts actor policy command id now) =
    start-Outcome l actor policy command id now s
step-Outcome l s (launches id outcome now) = returns _ _
step-Outcome l s (finishes id outcome now) = returns _ _
step-Outcome l s (start_rejects id) = returns _ _
step-Outcome l s (creates actor title instructions id now) =
    create-Outcome l actor title instructions id now s
step-Outcome l s (claims actor id now) = from_state-Outcome l s _ (claim actor id now s)
step-Outcome l s (releases actor id now) = from_state-Outcome l s _ (release actor id now s)
step-Outcome l s (completes actor id text now) =
    from_state-Outcome l s _ (complete actor id text now s)
step-Outcome l s (fails actor id text now) = from_state-Outcome l s _ (fail actor id text now s)
step-Outcome l s (cancels actor id now) = from_state-Outcome l s _ (cancel actor id now s)
step-Outcome l s (shuts_down timeout_ms) = shutdown-Outcome l timeout_ms s

-- The specification of an event.
pub record Refines (l : Limits) (s : TaskRuntime) (e : Event) : Type 0 where
  pub effect : Effect l s e (step l s e)
  pub outcome : Outcome l s e (throws l s e) (step l s e)
  pub runners :
      IsPruned
        (λ t. not (is_running t.state))
        l.max_retained
        s.runner_tasks
        (pruned_runners l s).runner_tasks
  pub coordination :
      IsPruned
        (λ t. is_over t.state)
        l.max_coordination
        s.coordination_tasks
        (pruned_coordination l s).coordination_tasks

-- At any point of any history, an event does what its specification allows. A call that throws leaves
-- the runtime as it was, but for what `start` and `create` have pruned, and a pruning drops no task
-- that runs, and none that is not over, changes no task, and drops none below the bound. A runner task
-- starts only while the runtime accepts and below all three limits; only a running task without a
-- handle takes one, or has its launch rejected, only a running task with a handle is settled by its
-- command, and only a task that has stopped without a handle is dropped by a failed start. A
-- coordination task is claimed only while available, in the caller's workspace, released, completed
-- and failed only by its claimant, and cancelled only by its creator before it is over.
pub run-Refines : (l : Limits) (es : List Event) (e : Event) → Refines l (run l new_runtime es) e
run-Refines l es e =
    let s = run l new_runtime es in
    let keyed = run-IsKeyed l es in
    record {
      effect = step-Effect l s e;
      outcome = step-Outcome l s e;
      runners = prune_terminal_tasks-IsPruned l s.runner_tasks keyed.runners;
      coordination =
          prune_terminal_coordination_tasks-IsPruned l s.coordination_tasks keyed.coordination;
    }
