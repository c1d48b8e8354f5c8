-- ===== src/Task/Visibility.antt =====
-- What a caller of the task runtime (src/task/runtime.ts) can learn of other workspaces.
use slnc_tr_z_mcp.Prelude.{
  String, true, false, Option, none, some, List, ◌≡◌, refl, arith, inl, inr, select, ◌==◌, ◌∙◌,
  Bool-cases, Option-cases, first-select, any-first, passing, ℕ, select-select,
}
use slnc_tr_z_mcp.Task.Types.{RunnerTaskActor, MutableCoordinationTask}
use slnc_tr_z_mcp.Task.Runtime.{
  Limits, TaskRuntime, new_runtime, runner_at, coordination_at, has_runner, has_coordination,
  lookup_runner, lookup_coordination,
}
use slnc_tr_z_mcp.Task.Runtime.Reads.{get, wait_begins, wait_for}
use slnc_tr_z_mcp.Task.Runtime.Coordination.{list}
use slnc_tr_z_mcp.Task.History.{Event, run}
use slnc_tr_z_mcp.Task.Identity.{runner_key, coordination_key, IsKeyed, run-IsKeyed}

-- The runtime with the tasks of the actor's workspace only.
unfoldable pub in_workspace : RunnerTaskActor → TaskRuntime → TaskRuntime
in_workspace actor s = record s {
  runner_tasks = select (λ t. t.workspace_id == actor.workspace_id) s.runner_tasks;
  coordination_tasks = select (λ t. t.workspace_id == actor.workspace_id) s.coordination_tasks;
}

module _ (actor : RunnerTaskActor) (id : String) (s : TaskRuntime) (k : IsKeyed s) where
  runner_in :
      runner_at id (in_workspace actor s).runner_tasks
      ≡ passing runner_key (λ t. t.workspace_id == actor.workspace_id) (runner_at id s.runner_tasks)
  unfolding runner_at in_workspace
  runner_in =
      first-select runner_key id (λ t. t.workspace_id == actor.workspace_id) s.runner_tasks
        k.runners

  coordination_in :
      coordination_at id (in_workspace actor s).coordination_tasks
      ≡ passing coordination_key
          (λ t. t.workspace_id == actor.workspace_id)
          (coordination_at id s.coordination_tasks)
  unfolding coordination_at in_workspace
  coordination_in =
      first-select coordination_key id (λ t. t.workspace_id == actor.workspace_id)
        s.coordination_tasks k.coordination

  lookup_runner-in : lookup_runner actor id (in_workspace actor s) ≡ lookup_runner actor id s
  unfolding lookup_runner
  lookup_runner-in = elim (Option-cases (runner_at id s.runner_tasks)) [
    | inl e ↦ ground (arith, runner_in, e)
    | inr (t, e) ↦ ground (arith, runner_in, e)
  ]

  lookup_coordination-in :
      lookup_coordination actor id (in_workspace actor s) ≡ lookup_coordination actor id s
  unfolding lookup_coordination
  lookup_coordination-in = elim (Option-cases (coordination_at id s.coordination_tasks)) [
    | inl e ↦ ground (arith, coordination_in, e)
    | inr (t, e) ↦ ground (arith, coordination_in, e)
  ]

  has_runner-at :
      (x : TaskRuntime)
      → has_runner id x ≡ elim (runner_at id x.runner_tasks) [ none ↦ false | some t ↦ true ]
  unfolding has_runner runner_at
  has_runner-at x = any-first runner_key id x.runner_tasks

  has_coordination-at :
      (x : TaskRuntime)
      → has_coordination id x
        ≡ elim (coordination_at id x.coordination_tasks) [ none ↦ false | some t ↦ true ]
  unfolding has_coordination coordination_at
  has_coordination-at x = any-first coordination_key id x.coordination_tasks

  -- What a caller gets under an identifier does not depend on the tasks of other workspaces.
  pub get-in : get actor id (in_workspace actor s) ≡ get actor id s
  unfolding get lookup_runner lookup_coordination
  get-in = elim (Option-cases (runner_at id s.runner_tasks)) [
    | inl e ↦ ground (
      arith,
      e,
      runner_in,
      has_runner-at s,
      has_runner-at (in_workspace actor s),
      lookup_coordination-in,
    )
    | inr (t, e) ↦ elim (Bool-cases (t.workspace_id == actor.workspace_id)) [
      | inl same ↦ ground (
        arith,
        e,
        same,
        runner_in,
        has_runner-at s,
        has_runner-at (in_workspace actor s),
        lookup_runner-in,
      )
      | inr other ↦ ground (
        arith,
        e,
        other,
        runner_in,
        has_runner-at s,
        has_runner-at (in_workspace actor s),
        k.apart id (has_runner-at s ∙ ground arith),
        has_coordination-at s,
        coordination_in,
      )
    ]
  ]

  wait_for-in : wait_for actor id (in_workspace actor s) ≡ wait_for actor id s
  unfolding wait_for lookup_runner lookup_coordination
  wait_for-in = elim (Option-cases (coordination_at id s.coordination_tasks)) [
    | inl e ↦ ground (
      arith,
      e,
      coordination_in,
      has_coordination-at s,
      has_coordination-at (in_workspace actor s),
      lookup_runner-in,
    )
    | inr (t, e) ↦ elim (Bool-cases (t.workspace_id == actor.workspace_id)) [
      | inl same ↦ ground (
        arith,
        e,
        same,
        coordination_in,
        has_coordination-at s,
        has_coordination-at (in_workspace actor s),
        lookup_coordination-in,
      )
      | inr other ↦ elim (Option-cases (runner_at id s.runner_tasks)) [
        | inl none_there ↦ ground (
          arith,
          e,
          other,
          none_there,
          coordination_in,
          has_coordination-at s,
          has_coordination-at (in_workspace actor s),
          lookup_runner-in,
        )
        | inr (r, there) ↦ absurd (
            ground (
              arith,
              e,
              there,
              has_coordination-at s,
              has_runner-at s,
              k.apart id (has_runner-at s ∙ ground arith),
            ))
      ]
    ]
  ]

-- At any point of any history, what `get`, `wait` and `list` answer or throw to a caller is what
-- they would if the tasks of the other workspaces were not there.
pub run-in_workspace :
    (l : Limits) (es : List Event) (actor : RunnerTaskActor) (id : String) (timeout_ms : Option ℕ)
    → (get actor id (in_workspace actor (run l new_runtime es))
        ≡ get actor id (run l new_runtime es))
      × (wait_begins actor id timeout_ms (in_workspace actor (run l new_runtime es))
          ≡ wait_begins actor id timeout_ms (run l new_runtime es))
      × (list actor (in_workspace actor (run l new_runtime es)) ≡ list actor (run l new_runtime es))
unfolding wait_begins list in_workspace
run-in_workspace l es actor id timeout_ms =
    let s = run l new_runtime es in
    let k = run-IsKeyed l es in
    (
      get-in actor id s k,
      rw (wait_for-in actor id s k) refl,
      rw
          (select-select (λ t. MutableCoordinationTask.workspace_id t == actor.workspace_id)
            s.coordination_tasks)
          refl,
    )
