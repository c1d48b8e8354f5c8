-- ===== src/Task/Capacity.antt =====
-- The limits of the task runtime (src/task/runtime.ts) over all histories.
use slnc_tr_z_mcp.Prelude.{
  ℕ, ◌≤◌, String, Bool, true, false, not, List, [], ◌∷◌, ◌++◌, ◌≡◌, refl, arith, ok, err, Result,
  length, select, delete, update, ◌==◌, eq_iff, length-append, length-select-le,
  length-select-select-le, length-update, length-select-update-le, length-select-append_one,
  Bool-cases, inl, inr,
}
use slnc_tr_z_mcp.Task.Types.{
  is_running, MutableRunnerTask, MutableCoordinationTask, Failure, ExecResult,
}
use slnc_tr_z_mcp.Task.Runtime.{
  Limits, TaskRuntime, new_runtime, active_count, active_client_count, is_active, is_active_of,
}
use slnc_tr_z_mcp.Task.Runtime.Runner.{
  pruned_runners, settle_with, settle_task, settle_found, request_runner_cancel, take_handle,
  request_cancel, new_runner_task, state_from_result, fail_runner, finish_runner, mark_emitted,
}
use slnc_tr_z_mcp.Task.Runtime.Coordination.{
  pruned_coordination, write, new_task, claim_by, unclaim, complete_with, fail_with, withdraw,
}
use slnc_tr_z_mcp.Task.History.{Event, step, run}
use slnc_tr_z_mcp.Task.Effects.{
  HasRoom, Effect, nothing, prunes_runners, inserts_runner, takes_handle, rejects_launch,
  settles_task, drops_runner, cancels_runner, shuts, prunes_coordination, inserts_task, claims_task,
  releases_task, completes_task, fails_task, withdraws_task,
}
use slnc_tr_z_mcp.Task.Effects.Runners.{step-Effect}
use slnc_tr_z_mcp.Task.Pruning.{prune_keeps, prune_coordination_keeps, cancel_all_keeps}

-- At most so many runner tasks, running ones, running ones of each client, and coordination tasks.
pub record IsBounded (l : Limits) (s : TaskRuntime) : Type 0 where
  pub retained : length s.runner_tasks ≤ l.max_retained
  pub active : active_count s.runner_tasks ≤ l.max_active
  pub of_client : (c : String) → active_client_count c s.runner_tasks ≤ l.max_active_per_client
  pub coordination : length s.coordination_tasks ≤ l.max_coordination

-- No more tasks, and no more running ones.
pub record IsSmaller (before after : List MutableRunnerTask) : Type 0 where
  pub size : length after ≤ length before
  pub active : active_count after ≤ active_count before
  pub of_client : (c : String) → active_client_count c after ≤ active_client_count c before

update-IsSmaller :
    (p : MutableRunnerTask → Bool) (f : MutableRunnerTask → MutableRunnerTask)
    → ((t : MutableRunnerTask) → is_running (f t).state ≡ true → is_running t.state ≡ true)
    → ((t : MutableRunnerTask) → (f t).created_by_client_id ≡ t.created_by_client_id)
    → (ts : List MutableRunnerTask) → IsSmaller ts (update p f ts)
unfolding active_count active_client_count
update-IsSmaller p f stops same ts = record {
  size = omega (arith, length-update p f ts);
  active = length-select-update-le is_active p f stops ts;
  of_client =
      λ c. length-select-update-le (is_active_of c) p f (λ t h. ground (arith, stops t, same t)) ts;
}

delete-IsSmaller :
    (p : MutableRunnerTask → Bool) (ts : List MutableRunnerTask) → IsSmaller ts (delete p ts)
unfolding active_count active_client_count delete
delete-IsSmaller p ts = record {
  size = length-select-le (λ t. not (p t)) ts;
  active = length-select-select-le is_active (λ t. not (p t)) ts;
  of_client = λ c. length-select-select-le (is_active_of c) (λ t. not (p t)) ts;
}

smaller-IsBounded :
    (l : Limits) (s after : TaskRuntime)
    → IsSmaller s.runner_tasks after.runner_tasks
    → after.coordination_tasks ≡ s.coordination_tasks
    → IsBounded l s
    → IsBounded l after
smaller-IsBounded l s after m same h = record {
  retained = omega (arith, m.size, h.retained);
  active = omega (arith, m.active, h.active);
  of_client = λ c. omega (arith, m.of_client c, h.of_client c);
  coordination = rw same h.coordination;
}

pub settle_task_stops :
    (outcome : Result Failure ExecResult) (now : ℕ) (t : MutableRunnerTask)
    → is_running (settle_task outcome now t).state ≡ false
unfolding settle_task settle_with fail_runner finish_runner mark_emitted state_from_result
settle_task_stops (err e) now t = ground arith
settle_task_stops (ok r) now t = ground arith

settle_task_client :
    (outcome : Result Failure ExecResult) (now : ℕ) (t : MutableRunnerTask)
    → (settle_task outcome now t).created_by_client_id ≡ t.created_by_client_id
unfolding settle_task settle_with fail_runner finish_runner mark_emitted
settle_task_client (err e) now t = ground arith
settle_task_client (ok r) now t = ground arith

settle_found-IsSmaller :
    (outcome : Result Failure ExecResult) (now : ℕ) (t : MutableRunnerTask) (s : TaskRuntime)
    → IsSmaller s.runner_tasks (settle_found outcome now t s).runner_tasks
unfolding settle_found
settle_found-IsSmaller outcome now t s =
    update-IsSmaller (λ x. x.task_id == t.task_id) (settle_task outcome now)
      (λ x h. ground (arith, settle_task_stops outcome now x))
      (λ x. settle_task_client outcome now x) s.runner_tasks

request-IsBounded :
    (l : Limits) (t : MutableRunnerTask) (s : TaskRuntime)
    → IsBounded l s
    → IsBounded l (request_runner_cancel t s)
unfolding request_runner_cancel
request-IsBounded l t s h =
    smaller-IsBounded l s (request_runner_cancel t s)
      (update-IsSmaller (λ x. x.task_id == t.task_id) request_cancel (λ x e. e) (λ x. refl)
        s.runner_tasks)
      refl h

pub prune-IsSmaller :
    (l : Limits) (s : TaskRuntime) → IsSmaller s.runner_tasks (pruned_runners l s).runner_tasks
prune-IsSmaller l s =
    prune_keeps (IsSmaller s.runner_tasks)
      (λ p ts m.
        let d = delete-IsSmaller p ts in
        record {
          size = omega (arith, m.size, d.size);
          active = omega (arith, m.active, d.active);
          of_client = λ c. omega (arith, m.of_client c, d.of_client c);
        })
      l s.runner_tasks
      (record { size = omega arith; active = omega arith; of_client = λ c. omega arith })

pruned-IsBounded : (l : Limits) (s : TaskRuntime) → IsBounded l s → IsBounded l (pruned_runners l s)
pruned-IsBounded l s h = smaller-IsBounded l s (pruned_runners l s) (prune-IsSmaller l s) refl h

insert-IsBounded :
    (l : Limits) (s : TaskRuntime) (t : MutableRunnerTask)
    → HasRoom l t.created_by_client_id t.task_id s
    → IsBounded l s
    → IsBounded l (record s { runner_tasks = s.runner_tasks ++ t ∷ [] })
unfolding active_count active_client_count
insert-IsBounded l s t room h = record {
  retained = omega (arith, room.retained, length-append s.runner_tasks (t ∷ []));
  active =
      let n = length-select-append_one is_active s.runner_tasks t in
      elim (Bool-cases (is_active t)) [
        | inl e ↦ omega (arith, room.active, n, rw e at n)
        | inr e ↦ omega (arith, h.active, n, rw e at n)
      ];
  of_client = λ c.
      let n = length-select-append_one (is_active_of c) s.runner_tasks t in
      elim (Bool-cases (is_active_of c t)) [
        | inl e ↦
            let same : t.created_by_client_id ≡ c =
              ground (arith, eq_iff t.created_by_client_id c) in
            omega (arith, rw e at n, rw same at room.of_client)
        | inr e ↦ omega (arith, h.of_client c, rw e at n)
      ];
  coordination = h.coordination;
}

coordination-IsBounded :
    (l : Limits) (s : TaskRuntime) (ts : List MutableCoordinationTask)
    → length ts ≤ l.max_coordination
    → IsBounded l s
    → IsBounded l (record s { coordination_tasks = ts })
coordination-IsBounded l s ts n h = record {
  retained = h.retained;
  active = h.active;
  of_client = h.of_client;
  coordination = n;
}

write-IsBounded :
    (l : Limits) (s : TaskRuntime) (id : String)
    (f : MutableCoordinationTask → MutableCoordinationTask)
    → IsBounded l s
    → IsBounded l (write id f s)
write-IsBounded l s id f h =
    coordination-IsBounded l s (update (λ t. t.task_id == id) f s.coordination_tasks)
      (omega (arith, h.coordination, length-update (λ t. t.task_id == id) f s.coordination_tasks)) h

prune_coordination-IsBounded :
    (l : Limits) (s : TaskRuntime) → IsBounded l s → IsBounded l (pruned_coordination l s)
unfolding delete
prune_coordination-IsBounded l s h =
    coordination-IsBounded l s (pruned_coordination l s).coordination_tasks
      (prune_coordination_keeps (λ ts. length ts ≤ l.max_coordination)
        (λ p ts n. omega (arith, n, length-select-le (λ t. not (p t)) ts)) l s.coordination_tasks
        h.coordination)
      h

Effect-IsBounded :
    (l : Limits) (s after : TaskRuntime) (e : Event)
    → Effect l s e after
    → IsBounded l s
    → IsBounded l after
unfolding new_runner_task settle_found
Effect-IsBounded l s _ _ (nothing e) h = h
Effect-IsBounded l s _ _ (prunes_runners actor policy command id now) h = pruned-IsBounded l s h
Effect-IsBounded l s _ _ (inserts_runner actor policy command id now on room) h =
    insert-IsBounded l (pruned_runners l s) (new_runner_task actor policy command id now) room
      (pruned-IsBounded l s h)
Effect-IsBounded l s after _ (takes_handle id x now t found on empty) h =
    smaller-IsBounded l s after
      (update-IsSmaller (λ r. r.task_id == t.task_id) (take_handle x) (λ r e. e) (λ r. refl)
        s.runner_tasks)
      refl h
Effect-IsBounded l s after _ (rejects_launch id x now t found on empty) h =
    smaller-IsBounded l s after (settle_found-IsSmaller (err x) now t s) refl h
Effect-IsBounded l s after _ (settles_task id outcome now t found on full) h =
    smaller-IsBounded l s after (settle_found-IsSmaller outcome now t s) refl h
Effect-IsBounded l s after _ (drops_runner id t found off empty) h =
    smaller-IsBounded l s after (delete-IsSmaller (λ x. x.task_id == id) s.runner_tasks) refl h
Effect-IsBounded l s _ _ (cancels_runner actor id now t found on workspace client) h =
    request-IsBounded l t s h
Effect-IsBounded l s _ _ (shuts timeout_ms first_time) h =
    cancel_all_keeps (IsBounded l) (request-IsBounded l)
      (select (λ t. is_running t.state) s.runner_tasks)
      (record s { accepting = false; shutdown_started = true })
      (record {
        retained = h.retained;
        active = h.active;
        of_client = h.of_client;
        coordination = h.coordination;
      })
Effect-IsBounded l s _ _ (prunes_coordination actor title instructions id now) h =
    prune_coordination-IsBounded l s h
Effect-IsBounded l s after _ (inserts_task actor title instructions id now on room) h =
    coordination-IsBounded l (pruned_coordination l s) after.coordination_tasks
      (omega (
        arith,
        room.place,
        length-append (pruned_coordination l s).coordination_tasks
            (new_task actor title instructions id now ∷ []),
      ))
      (prune_coordination-IsBounded l s h)
Effect-IsBounded l s _ _ (claims_task actor id now t on seen free) h =
    write-IsBounded l s t.task_id (claim_by actor.client_id now) h
Effect-IsBounded l s _ _ (releases_task actor id now t on held) h =
    write-IsBounded l s t.task_id (unclaim now) h
Effect-IsBounded l s _ _ (completes_task actor id text now t on held) h =
    write-IsBounded l s t.task_id (complete_with text now) h
Effect-IsBounded l s _ _ (fails_task actor id text now t on held) h =
    write-IsBounded l s t.task_id (fail_with text now) h
Effect-IsBounded l s _ _ (withdraws_task actor id now t seen creator live) h =
    write-IsBounded l s t.task_id (withdraw now) h

run_from-IsBounded :
    (l : Limits) (s : TaskRuntime) (es : List Event) → IsBounded l s → IsBounded l (run l s es)
unfolding run
run_from-IsBounded l s [] h = h
run_from-IsBounded l s (e ∷ es) h =
    run_from-IsBounded l (step l s e) es (Effect-IsBounded l s (step l s e) e (step-Effect l s e) h)

-- After any history there are at most as many runner tasks, running tasks, running tasks of each
-- client and coordination tasks as the limits allow.
pub run-IsBounded : (l : Limits) (es : List Event) → IsBounded l (run l new_runtime es)
unfolding active_count active_client_count select
run-IsBounded l es = run_from-IsBounded l new_runtime es (record {
  retained = omega arith;
  active = omega arith;
  of_client = λ c. omega arith;
  coordination = omega arith;
})
