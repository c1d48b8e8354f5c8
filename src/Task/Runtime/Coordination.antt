-- ===== src/Task/Runtime/Coordination.antt =====
-- src/task/runtime.ts: the operations on coordination tasks.
use slnc_tr_z_mcp.Prelude.{
  ℕ, String, Bool, false, not, ◌||◌, Option, none, some, List, [], ◌∷◌, ◌++◌, map, ◌==◌, Result, ok,
  err, ◌>>=◌, ◌>>◌, throw_if, leb, if◌then◌else◌, length, select, sort_by, update, ltb,
}
use slnc_tr_z_mcp.Task.Types.{
  CoordinationTaskState, available, claimed, MutableCoordinationTask, RunnerTaskActor, Thrown,
  task_error, task_id_collision, task_capacity, task_forbidden, task_invalid_state,
  task_already_claimed, is_available, is_claimed, is_over, CoordinationTaskSnapshot,
  coordination_snapshot,
}
use slnc_tr_z_mcp.Task.Runtime.{
  Limits, TaskRuntime, Called, from_state, assert_accepting, assert_coordination_text, title,
  instructions, result, failure, prune_terminal_coordination_tasks, has_runner, has_coordination,
  lookup_coordination,
}

unfoldable pub new_task : RunnerTaskActor → String → String → String → ℕ → MutableCoordinationTask
new_task actor title_text instructions_text id now = record {
  task_id = id;
  workspace_id = actor.workspace_id;
  created_by_client_id = actor.client_id;
  title = title_text;
  instructions = instructions_text;
  state = available;
  claimed_by = none;
  created_at = now;
  updated_at = now;
  result = none;
  failure = none;
}

-- The second half of `create`, after the pruning.
unfoldable pub insert_task :
    Limits
    → MutableCoordinationTask
    → TaskRuntime
    → Result Thrown (CoordinationTaskSnapshot × TaskRuntime)
insert_task l t s = do
  throw_if (leb l.max_coordination (length s.coordination_tasks)) (task_error task_capacity)
  throw_if (has_runner t.task_id s || has_coordination t.task_id s) task_id_collision
  ok (coordination_snapshot t, record s { coordination_tasks = s.coordination_tasks ++ t ∷ [] })

abbrev pub pruned_coordination : Limits → TaskRuntime → TaskRuntime
pruned_coordination l s = record s {
  coordination_tasks = prune_terminal_coordination_tasks l s.coordination_tasks;
}

unfoldable pub check_create : String → String → TaskRuntime → Result Thrown (Unit {0})
check_create title_text instructions_text s = do
  assert_accepting s
  assert_coordination_text title_text title
  assert_coordination_text instructions_text instructions
  ok tt

-- The identifier `id` and the time `now` are what `coordinationId()` and `now()` give.
unfoldable pub create :
    Limits
    → RunnerTaskActor
    → String
    → String
    → String
    → ℕ
    → TaskRuntime
    → Called CoordinationTaskSnapshot
unfolding new_task insert_task check_create
create l actor title_text instructions_text id now s =
    elim (check_create title_text instructions_text s) [
      | err e ↦ (err e, s)
      | ok _ ↦
          (let pruned = pruned_coordination l s in
            from_state pruned
              (insert_task l (new_task actor title_text instructions_text id now) pruned))
    ]

unfoldable pub list : RunnerTaskActor → TaskRuntime → List CoordinationTaskSnapshot
list actor s = map coordination_snapshot (
    sort_by (λ a b. ltb a.created_at b.created_at)
      (select (λ t. t.workspace_id == actor.workspace_id) s.coordination_tasks))

-- A write to the fields of the task object that a lookup has found.
abbrev pub write :
    String → (MutableCoordinationTask → MutableCoordinationTask) → TaskRuntime → TaskRuntime
write id f s = record s {
  coordination_tasks = update (λ t. t.task_id == id) f s.coordination_tasks;
}

abbrev pub claim_by : String → ℕ → MutableCoordinationTask → MutableCoordinationTask
claim_by client now t = record t { state = claimed; claimed_by = some client; updated_at = now }

abbrev pub is_client : Option String → String → Bool
is_client none client = false
is_client (some c) client = c == client

-- `claim` on the task that was found.
unfoldable pub claim_found :
    RunnerTaskActor
    → ℕ
    → MutableCoordinationTask
    → TaskRuntime
    → Result Thrown (CoordinationTaskSnapshot × TaskRuntime)
claim_found actor now t s =
    if is_claimed t.state
    then (if is_client t.claimed_by actor.client_id
        then ok (coordination_snapshot t, s)
        else err (task_error task_already_claimed))
    else throw_if (not (is_available t.state)) (task_error task_invalid_state)
      >> ok (
        coordination_snapshot (claim_by actor.client_id now t),
        write t.task_id (claim_by actor.client_id now) s,
      )

unfoldable pub claim :
    RunnerTaskActor
    → String
    → ℕ
    → TaskRuntime
    → Result Thrown (CoordinationTaskSnapshot × TaskRuntime)
unfolding claim_found
claim actor id now s = do
  assert_accepting s
  t ← lookup_coordination actor id s
  claim_found actor now t s

-- The checks that `release`, `complete` and `fail` share: the caller holds the claim.
unfoldable pub held_claim :
    RunnerTaskActor → String → TaskRuntime → Result Thrown MutableCoordinationTask
held_claim actor id s = do
  t ← lookup_coordination actor id s
  throw_if (not (is_claimed t.state)) (task_error task_invalid_state)
  throw_if (not (is_client t.claimed_by actor.client_id)) (task_error task_forbidden)
  ok t

abbrev pub unclaim : ℕ → MutableCoordinationTask → MutableCoordinationTask
unclaim now t = record t { state = available; claimed_by = none; updated_at = now }

unfoldable pub release :
    RunnerTaskActor
    → String
    → ℕ
    → TaskRuntime
    → Result Thrown (CoordinationTaskSnapshot × TaskRuntime)
unfolding held_claim
release actor id now s = do
  assert_accepting s
  t ← held_claim actor id s
  ok (coordination_snapshot (unclaim now t), write t.task_id (unclaim now) s)

abbrev pub complete_with : String → ℕ → MutableCoordinationTask → MutableCoordinationTask
complete_with text now t = record t {
  state = CoordinationTaskState.completed;
  result = some text;
  updated_at = now;
}

unfoldable pub complete :
    RunnerTaskActor
    → String
    → String
    → ℕ
    → TaskRuntime
    → Result Thrown (CoordinationTaskSnapshot × TaskRuntime)
unfolding held_claim
complete actor id text now s = do
  assert_accepting s
  assert_coordination_text text result
  t ← held_claim actor id s
  ok (coordination_snapshot (complete_with text now t), write t.task_id (complete_with text now) s)

abbrev pub fail_with : String → ℕ → MutableCoordinationTask → MutableCoordinationTask
fail_with text now t = record t {
  state = CoordinationTaskState.failed;
  failure = some text;
  updated_at = now;
}

unfoldable pub fail :
    RunnerTaskActor
    → String
    → String
    → ℕ
    → TaskRuntime
    → Result Thrown (CoordinationTaskSnapshot × TaskRuntime)
unfolding held_claim
fail actor id text now s = do
  assert_accepting s
  assert_coordination_text text failure
  t ← held_claim actor id s
  ok (coordination_snapshot (fail_with text now t), write t.task_id (fail_with text now) s)

abbrev pub withdraw : ℕ → MutableCoordinationTask → MutableCoordinationTask
withdraw now t = record t { state = CoordinationTaskState.cancelled; updated_at = now }

unfoldable pub withdraw_found :
    ℕ → MutableCoordinationTask → TaskRuntime → CoordinationTaskSnapshot × TaskRuntime
withdraw_found now t s =
    if is_over t.state
    then (coordination_snapshot t, s)
    else (coordination_snapshot (withdraw now t), write t.task_id (withdraw now) s)

-- The second half of `cancel`: the identifier is of no runner task.
unfoldable pub cancel_coordination :
    RunnerTaskActor
    → String
    → ℕ
    → TaskRuntime
    → Result Thrown (CoordinationTaskSnapshot × TaskRuntime)
unfolding withdraw_found
cancel_coordination actor id now s = do
  t ← lookup_coordination actor id s
  throw_if (not (t.created_by_client_id == actor.client_id)) (task_error task_forbidden)
  ok (withdraw_found now t s)
