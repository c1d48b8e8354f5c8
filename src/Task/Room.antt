-- ===== src/Task/Room.antt =====
-- The room that the pruning of src/task/runtime.ts makes for new tasks.
use slnc_tr_z_mcp.Prelude.{
  ℕ, ◌≤◌, ◌<◌, String, Bool, true, false, not, Option, List, [], ◌∷◌, ◌++◌, ◌≡◌, ◌⊎◌, arith, inl,
  inr, ok, length, select, delete, any, sort_by, ltb, ◌==◌, All, All-map, All-both, All-any-select,
  any-sort_by, Bool-cases, eq_iff, every, delete_passes, length-select-All, fewer_deleted,
  All-delete, ltb→lt, select_congr, any-select,
}
use slnc_tr_z_mcp.Task.Types.{
  is_running, is_over, MutableRunnerTask, MutableCoordinationTask, RunnerTaskActor,
  coordination_snapshot,
}
use slnc_tr_z_mcp.Task.Runtime.{
  TaskRuntimeOptions, Limits, limits_of, TaskRuntime, has_runner, has_coordination, active_count,
  active_client_count, is_active, delete_until_below, created_before, terminal_tasks,
  prune_terminal_tasks, settled_before, terminal_coordination_tasks,
  prune_terminal_coordination_tasks, assert_accepting, assert_coordination_text, title,
  instructions,
}
use slnc_tr_z_mcp.Task.Runtime.Runner.{start, insert_runner, new_runner_task, pruned_runners}
use slnc_tr_z_mcp.Task.Runtime.Coordination.{
  create, check_create, insert_task, new_task, pruned_coordination,
}
use slnc_tr_z_mcp.Task.Pruning.{delete_until_below_keeps, prune_keeps, prune_coordination_keeps}
use slnc_tr_z_mcp.Task.Capacity.{prune-IsSmaller}

module _ {ℓ} {A : Type ℓ} (key : A → String) where
  -- The loop gets below the bound, or through the whole list.
  delete_until_below_ends :
      (bound : ℕ) (xs ts : List A)
      → (length (delete_until_below key bound xs ts) < bound)
        ⊎ All (λ t. any (λ x. key x == key t) xs ≡ false) (delete_until_below key bound xs ts)
  unfolding delete_until_below any
  delete_until_below_ends bound [] ts = inr (every ts)
  delete_until_below_ends bound (x ∷ xs) ts = elim (Bool-cases (ltb (length ts) bound)) [
    | inl e ↦ inl (rw e (ltb→lt (length ts) bound e))
    | inr e ↦ elim (delete_until_below_ends bound xs (delete (λ t. key t == key x) ts)) [
      | inl below ↦ inl (rw e below)
      | inr through ↦ inr (
          rw e (
            All-map (λ t. ((key t == key x) ≡ false) × (any (λ y. key y == key t) xs ≡ false))
              (λ t. any (λ y. key y == key t) (x ∷ xs) ≡ false)
              (λ t (apart, h).
                ground (arith, apart, h, eq_iff (key t) (key x), eq_iff (key x) (key t)))
              (delete_until_below key bound xs (delete (λ t. key t == key x) ts))
              (All-both (λ t. (key t == key x) ≡ false) (λ t. any (λ y. key y == key t) xs ≡ false)
                (delete_until_below key bound xs (delete (λ t. key t == key x) ts))
                (delete_until_below_keeps (All (λ t. (key t == key x) ≡ false))
                  (λ p ys. All-delete (λ t. (key t == key x) ≡ false) p ys) key bound xs
                  (delete (λ t. key t == key x) ts) (delete_passes (λ t. key t == key x) ts))
                through)))
    ]
  ]

  -- With fewer rows than the bound that are not over, the pruning gets below the bound.
  delete_until_below_makes_room :
      (bound : ℕ) (before : A → A → Bool) (over : A → Bool) (ts : List A)
      → length (select (λ t. not (over t)) ts) < bound
      → length (delete_until_below key bound (sort_by before (select over ts)) ts) < bound
  delete_until_below_makes_room bound before over ts few =
      let xs = sort_by before (select over ts) in
      let r = delete_until_below key bound xs ts in
      elim (delete_until_below_ends bound xs ts) [
        | inl below ↦ below
        | inr through ↦
            let listed =
              delete_until_below_keeps
                (All (λ t. over t ≡ true → any (λ y. key y == key t) (select over ts) ≡ true))
                (λ p ys.
                  All-delete
                    (λ t. over t ≡ true → any (λ y. key y == key t) (select over ts) ≡ true) p ys)
                key bound xs ts (All-any-select key over ts) in
            let live =
              All-map
                (λ t.
                  (any (λ x. key x == key t) xs ≡ false)
                  × (over t ≡ true → any (λ y. key y == key t) (select over ts) ≡ true))
                (λ t. not (over t) ≡ true)
                (λ t (h, k). elim (Bool-cases (over t)) [
                  | inl e ↦ absurd (
                      ground
                        (arith, h, k e, any-sort_by (λ y. key y == key t) before (select over ts)))
                  | inr e ↦ ground (arith, e)
                ])
                r
                (All-both (λ t. any (λ x. key x == key t) xs ≡ false)
                  (λ t. over t ≡ true → any (λ y. key y == key t) (select over ts) ≡ true) r through
                  listed) in
            let fewer =
              delete_until_below_keeps
                (λ ys.
                  length (select (λ t. not (over t)) ys) ≤ length (select (λ t. not (over t)) ts))
                (λ p ys h.
                  fewer_deleted (λ t. not (over t)) p ys (length (select (λ t. not (over t)) ts)) h)
                key bound xs ts (omega arith) in
            omega (arith, few, fewer, length-select-All (λ t. not (over t)) r live)
      ]

prune_makes_room :
    (l : Limits) (ts : List MutableRunnerTask)
    → active_count ts < l.max_retained
    → length (prune_terminal_tasks l ts) < l.max_retained
unfolding prune_terminal_tasks terminal_tasks active_count
prune_makes_room l ts few = elim (Bool-cases (ltb (length ts) l.max_retained)) [
  | inl e ↦ rw e (ltb→lt (length ts) l.max_retained e)
  | inr e ↦ rw e (
      delete_until_below_makes_room (λ t. t.task_id) l.max_retained created_before
        (λ t. not (is_running (MutableRunnerTask.state t))) ts
        (rw
          (select_congr (λ t. not (not (is_running (MutableRunnerTask.state t)))) is_active
            (λ t. ground arith) ts)
          few))
]

prune_coordination_makes_room :
    (l : Limits) (ts : List MutableCoordinationTask)
    → length (select (λ t. not (is_over t.state)) ts) < l.max_coordination
    → length (prune_terminal_coordination_tasks l ts) < l.max_coordination
unfolding prune_terminal_coordination_tasks terminal_coordination_tasks
prune_coordination_makes_room l ts few = elim (Bool-cases (ltb (length ts) l.max_coordination)) [
  | inl e ↦ rw e (ltb→lt (length ts) l.max_coordination e)
  | inr e ↦ rw e (
      delete_until_below_makes_room (λ t. t.task_id) l.max_coordination
        (settled_before l.locale_before) (λ t. is_over (MutableCoordinationTask.state t)) ts few)
]

limits_retain :
    (o : TaskRuntimeOptions) (l : Limits) → limits_of o ≡ ok l → l.max_active ≤ l.max_retained
unfolding limits_of
limits_retain o l h = ground arith

insert_runner-accepts :
    (l : Limits) (t : MutableRunnerTask) (s : TaskRuntime)
    → length s.runner_tasks < l.max_retained
    → active_count s.runner_tasks < l.max_active
    → active_client_count t.created_by_client_id s.runner_tasks < l.max_active_per_client
    → has_runner t.task_id s ≡ false
    → has_coordination t.task_id s ≡ false
    → insert_runner l t s ≡ ok (tt, record s { runner_tasks = s.runner_tasks ++ t ∷ [] })
unfolding insert_runner
insert_runner-accepts l t s retained active of_client new other = ground arith

prune_not_there :
    (l : Limits) (id : String) (s : TaskRuntime)
    → has_runner id s ≡ false
    → has_runner id (pruned_runners l s) ≡ false
unfolding has_runner delete
prune_not_there l id s new =
    prune_keeps (λ ts. any (λ t. MutableRunnerTask.task_id t == id) ts ≡ false)
      (λ p ts h. any-select (λ t. MutableRunnerTask.task_id t == id) (λ t. not (p t)) ts h) l
      s.runner_tasks new

-- Under limits that were accepted, a runtime that accepts work starts a task of a new identifier
-- whenever fewer tasks run than `maxActiveTasks` and fewer of the client than its limit,
-- however many tasks that have settled are retained; the new task is added to those it retains.
pub start-accepts :
    (o : TaskRuntimeOptions) (l : Limits) (actor : RunnerTaskActor) (policy : String)
    (command : Option String) (id : String) (now : ℕ) (s : TaskRuntime)
    → limits_of o ≡ ok l
    → s.accepting ≡ true
    → active_count s.runner_tasks < l.max_active
    → active_client_count actor.client_id s.runner_tasks < l.max_active_per_client
    → has_runner id s ≡ false
    → has_coordination id s ≡ false
    → start l actor policy command id now s ≡ (
      ok tt,
      record s {
        runner_tasks =
            prune_terminal_tasks l s.runner_tasks
            ++ new_runner_task actor policy command id now ∷ [];
      },
    )
unfolding start new_runner_task assert_accepting has_coordination
start-accepts o l actor policy command id now s valid on active of_client new other =
    let smaller = prune-IsSmaller l s in
    let t = new_runner_task actor policy command id now in
    let fits = limits_retain o l valid in
    let inserted =
      insert_runner-accepts l t (pruned_runners l s)
        (prune_makes_room l s.runner_tasks (omega (arith, active, fits)))
        (omega (arith, active, smaller.active))
        (omega (arith, of_client, smaller.of_client actor.client_id)) (prune_not_there l id s new)
        other in
    ground (arith, inserted)

insert_task-accepts :
    (l : Limits) (t : MutableCoordinationTask) (s : TaskRuntime)
    → length s.coordination_tasks < l.max_coordination
    → has_runner t.task_id s ≡ false
    → has_coordination t.task_id s ≡ false
    → insert_task l t s
      ≡ ok (
        coordination_snapshot t,
        record s { coordination_tasks = s.coordination_tasks ++ t ∷ [] },
      )
unfolding insert_task
insert_task-accepts l t s place new other = ground arith

prune_coordination_not_there :
    (l : Limits) (id : String) (s : TaskRuntime)
    → has_coordination id s ≡ false
    → has_coordination id (pruned_coordination l s) ≡ false
unfolding has_coordination delete
prune_coordination_not_there l id s new =
    prune_coordination_keeps (λ ts. any (λ t. MutableCoordinationTask.task_id t == id) ts ≡ false)
      (λ p ts h. any-select (λ t. MutableCoordinationTask.task_id t == id) (λ t. not (p t)) ts h) l
      s.coordination_tasks new

-- A runtime that accepts work creates a coordination task whose texts pass the checks under a new
-- identifier whenever fewer tasks are not over than `maxCoordinationTasks`, however many that are over
-- are retained.
pub create-accepts :
    (l : Limits) (actor : RunnerTaskActor) (title_text instructions_text id : String) (now : ℕ)
    (s : TaskRuntime)
    → s.accepting ≡ true
    → assert_coordination_text title_text title ≡ ok tt
    → assert_coordination_text instructions_text instructions ≡ ok tt
    → length (select (λ t. not (is_over t.state)) s.coordination_tasks) < l.max_coordination
    → has_runner id s ≡ false
    → has_coordination id s ≡ false
    → create l actor title_text instructions_text id now s ≡ (
      ok (coordination_snapshot (new_task actor title_text instructions_text id now)),
      record s {
        coordination_tasks =
            prune_terminal_coordination_tasks l s.coordination_tasks
            ++ new_task actor title_text instructions_text id now ∷ [];
      },
    )
unfolding create check_create assert_accepting new_task has_runner
create-accepts l actor title_text instructions_text id now s on valid_title valid_instructions few
      new other =
    let inserted =
      insert_task-accepts l (new_task actor title_text instructions_text id now)
        (pruned_coordination l s) (prune_coordination_makes_room l s.coordination_tasks few) new
        (prune_coordination_not_there l id s other) in
    ground (arith, inserted)
