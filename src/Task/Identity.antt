-- ===== src/Task/Identity.antt =====
-- The keys of the two `Map`s of the task runtime (src/task/runtime.ts).
use slnc_tr_z_mcp.Prelude.{
  String, Bool, true, false, not, List, [], ◌∷◌, ◌++◌, ◌≡◌, refl, arith, ok, err, Result, select,
  delete, update, any, ◌==◌, ◌∙◌, any-append, any-select, Distinct, Distinct-select,
  Distinct-update, Distinct-append_one, any-update, ℕ, Bool-cases, inl, inr, str_cases,
}
use slnc_tr_z_mcp.Task.Types.{
  is_running, MutableRunnerTask, MutableCoordinationTask, Failure, ExecResult,
}
use slnc_tr_z_mcp.Task.Runtime.{Limits, TaskRuntime, new_runtime, has_runner, has_coordination}
use slnc_tr_z_mcp.Task.Runtime.Runner.{
  pruned_runners, settle_with, settle_task, settle_found, request_runner_cancel, take_handle,
  request_cancel, new_runner_task, fail_runner, finish_runner, mark_emitted,
}
use slnc_tr_z_mcp.Task.Runtime.Coordination.{
  pruned_coordination, write, new_task, claim_by, unclaim, complete_with, fail_with, withdraw,
}
use slnc_tr_z_mcp.Task.History.{Event, step, run}
use slnc_tr_z_mcp.Task.Effects.{
  HasPlace, Effect, nothing, prunes_runners, inserts_runner, takes_handle, rejects_launch,
  settles_task, drops_runner, cancels_runner, shuts, prunes_coordination, inserts_task, claims_task,
  releases_task, completes_task, fails_task, withdraws_task,
}
use slnc_tr_z_mcp.Task.Effects.Runners.{step-Effect}
use slnc_tr_z_mcp.Task.Pruning.{prune_keeps, prune_coordination_keeps, cancel_all_keeps}

abbrev pub runner_key : MutableRunnerTask → String
runner_key t = t.task_id

abbrev pub coordination_key : MutableCoordinationTask → String
coordination_key t = t.task_id

-- Identifiers are distinct, also across the two maps.
pub record IsKeyed (s : TaskRuntime) : Type 0 where
  pub runners : Distinct runner_key s.runner_tasks
  pub coordination : Distinct coordination_key s.coordination_tasks
  pub apart : (id : String) → has_runner id s ≡ true → has_coordination id s ≡ false

-- Distinct keys, and no more of them.
pub record Thinned {ℓ} {A : Type ℓ} (key : A → String) (before after : List A) : Type ℓ where
  pub distinct : Distinct key after
  pub fewer :
      (id : String) → any (λ t. key t == id) before ≡ false → any (λ t. key t == id) after ≡ false

delete-Thinned {ℓ} :
    {A : Type ℓ} (key : A → String) (before : List A) (p : A → Bool) (ts : List A)
    → Thinned key before ts
    → Thinned key before (delete p ts)
unfolding delete
delete-Thinned key before p ts h = record {
  distinct = Distinct-select key (λ t. not (p t)) ts h.distinct;
  fewer =
      λ id none_before. any-select (λ t. key t == id) (λ t. not (p t)) ts (h.fewer id none_before);
}

update-Thinned {ℓ} :
    {A : Type ℓ} (key : A → String) (p : A → Bool) (f : A → A)
    → ((t : A) → key (f t) ≡ key t)
    → (ts : List A) → Distinct key ts
    → Thinned key ts (update p f ts)
update-Thinned key p f keeps ts h = record {
  distinct = Distinct-update key p f keeps ts h;
  fewer = λ id none_before. any-update key id p f keeps ts ∙ none_before;
}

same-Thinned {ℓ} :
    {A : Type ℓ} (key : A → String) (ts : List A) → Distinct key ts → Thinned key ts ts
same-Thinned key ts h = record { distinct = h; fewer = λ id e. e }

Thinned-IsKeyed :
    (s after : TaskRuntime)
    → Thinned runner_key s.runner_tasks after.runner_tasks
    → Thinned coordination_key s.coordination_tasks after.coordination_tasks
    → IsKeyed s
    → IsKeyed after
unfolding has_runner has_coordination
Thinned-IsKeyed s after r c h = record {
  runners = r.distinct;
  coordination = c.distinct;
  apart = λ id there. c.fewer id (
      h.apart id (elim (Bool-cases (has_runner id s)) [
        | inl e ↦ e
        | inr e ↦ absurd (ground (arith, r.fewer id e))
      ]));
}

pub settle_task_key :
    (outcome : Result Failure ExecResult) (now : ℕ) (t : MutableRunnerTask)
    → (settle_task outcome now t).task_id ≡ t.task_id
unfolding settle_task settle_with fail_runner finish_runner mark_emitted
settle_task_key (err e) now t = ground arith
settle_task_key (ok r) now t = ground arith

runner_update-IsKeyed :
    (s : TaskRuntime) (id : String) (f : MutableRunnerTask → MutableRunnerTask)
    → ((t : MutableRunnerTask) → (f t).task_id ≡ t.task_id)
    → IsKeyed s
    → (after : TaskRuntime) → after.runner_tasks ≡ update (λ t. t.task_id == id) f s.runner_tasks
    → after.coordination_tasks ≡ s.coordination_tasks
    → IsKeyed after
runner_update-IsKeyed s id f keeps h after r c =
    Thinned-IsKeyed s after
      (rw r (update-Thinned runner_key (λ t. t.task_id == id) f keeps s.runner_tasks h.runners))
      (rw c (same-Thinned coordination_key s.coordination_tasks h.coordination)) h

pruned-IsKeyed : (l : Limits) (s : TaskRuntime) → IsKeyed s → IsKeyed (pruned_runners l s)
pruned-IsKeyed l s h =
    Thinned-IsKeyed s (pruned_runners l s)
      (prune_keeps (Thinned runner_key s.runner_tasks) (delete-Thinned runner_key s.runner_tasks) l
        s.runner_tasks (same-Thinned runner_key s.runner_tasks h.runners))
      (same-Thinned coordination_key s.coordination_tasks h.coordination) h

pruned_coordination-IsKeyed :
    (l : Limits) (s : TaskRuntime) → IsKeyed s → IsKeyed (pruned_coordination l s)
pruned_coordination-IsKeyed l s h =
    Thinned-IsKeyed s (pruned_coordination l s) (same-Thinned runner_key s.runner_tasks h.runners)
      (prune_coordination_keeps (Thinned coordination_key s.coordination_tasks)
        (delete-Thinned coordination_key s.coordination_tasks) l s.coordination_tasks
        (same-Thinned coordination_key s.coordination_tasks h.coordination))
      h

insert-IsKeyed :
    (l : Limits) (s : TaskRuntime) (t : MutableRunnerTask)
    → has_runner t.task_id s ≡ false
    → has_coordination t.task_id s ≡ false
    → IsKeyed s
    → IsKeyed (record s { runner_tasks = s.runner_tasks ++ t ∷ [] })
unfolding has_runner has_coordination any
insert-IsKeyed l s t new other h = record {
  runners = Distinct-append_one runner_key s.runner_tasks t new h.runners;
  coordination = h.coordination;
  apart = λ id there. elim (str_cases t.task_id id) [
    | inl e ↦ rw (← e) other
    | inr e ↦ h.apart id (
        ground (arith, any-append (λ x. MutableRunnerTask.task_id x == id) s.runner_tasks (t ∷ [])))
  ];
}

insert_task-IsKeyed :
    (l : Limits) (s : TaskRuntime) (t : MutableCoordinationTask)
    → HasPlace l t.task_id s
    → IsKeyed s
    → IsKeyed (record s { coordination_tasks = s.coordination_tasks ++ t ∷ [] })
unfolding has_runner has_coordination any
insert_task-IsKeyed l s t room h = record {
  runners = h.runners;
  coordination =
      Distinct-append_one coordination_key s.coordination_tasks t room.fresh_coordination
        h.coordination;
  apart = λ id there. elim (str_cases t.task_id id) [
    | inl e ↦ absurd (ground (arith, e, room.fresh_runner))
    | inr e ↦ ground (
      arith,
      h.apart id there,
      any-append (λ x. MutableCoordinationTask.task_id x == id) s.coordination_tasks (t ∷ []),
    )
  ];
}

write-IsKeyed :
    (s : TaskRuntime) (id : String) (f : MutableCoordinationTask → MutableCoordinationTask)
    → ((t : MutableCoordinationTask) → (f t).task_id ≡ t.task_id)
    → IsKeyed s
    → IsKeyed (write id f s)
write-IsKeyed s id f keeps h =
    Thinned-IsKeyed s (write id f s) (same-Thinned runner_key s.runner_tasks h.runners)
      (update-Thinned coordination_key (λ t. t.task_id == id) f keeps s.coordination_tasks
        h.coordination)
      h

pub Effect-IsKeyed :
    (l : Limits) (s after : TaskRuntime) (e : Event)
    → Effect l s e after
    → IsKeyed s
    → IsKeyed after
unfolding new_runner_task settle_found request_runner_cancel new_task has_runner has_coordination
Effect-IsKeyed l s _ _ (nothing e) h = h
Effect-IsKeyed l s _ _ (prunes_runners actor policy command id now) h = pruned-IsKeyed l s h
Effect-IsKeyed l s _ _ (inserts_runner actor policy command id now on room) h =
    insert-IsKeyed l (pruned_runners l s) (new_runner_task actor policy command id now)
      room.fresh_runner room.fresh_coordination (pruned-IsKeyed l s h)
Effect-IsKeyed l s after _ (takes_handle id x now t found on empty) h =
    runner_update-IsKeyed s t.task_id (take_handle x) (λ r. refl) h after refl refl
Effect-IsKeyed l s after _ (rejects_launch id x now t found on empty) h =
    runner_update-IsKeyed s t.task_id (settle_task (err x) now) (settle_task_key (err x) now) h
      after refl refl
Effect-IsKeyed l s after _ (settles_task id outcome now t found on full) h =
    runner_update-IsKeyed s t.task_id (settle_task outcome now) (settle_task_key outcome now) h
      after refl refl
Effect-IsKeyed l s after _ (drops_runner id t found off empty) h =
    Thinned-IsKeyed s after
      (delete-Thinned runner_key s.runner_tasks (λ x. x.task_id == id) s.runner_tasks
        (same-Thinned runner_key s.runner_tasks h.runners))
      (same-Thinned coordination_key s.coordination_tasks h.coordination) h
Effect-IsKeyed l s after _ (cancels_runner actor id now t found on workspace client) h =
    runner_update-IsKeyed s t.task_id request_cancel (λ r. refl) h after refl refl
Effect-IsKeyed l s _ _ (shuts timeout_ms first_time) h =
    cancel_all_keeps IsKeyed
      (λ t x k.
        runner_update-IsKeyed x t.task_id request_cancel (λ r. refl) k (request_runner_cancel t x)
          refl refl)
      (select (λ t. is_running t.state) s.runner_tasks)
      (record s { accepting = false; shutdown_started = true })
      (record { runners = h.runners; coordination = h.coordination; apart = h.apart })
Effect-IsKeyed l s _ _ (prunes_coordination actor title instructions id now) h =
    pruned_coordination-IsKeyed l s h
Effect-IsKeyed l s after _ (inserts_task actor title instructions id now on room) h =
    insert_task-IsKeyed l (pruned_coordination l s) (new_task actor title instructions id now) room
      (pruned_coordination-IsKeyed l s h)
Effect-IsKeyed l s _ _ (claims_task actor id now t on seen free) h =
    write-IsKeyed s t.task_id (claim_by actor.client_id now) (λ x. refl) h
Effect-IsKeyed l s _ _ (releases_task actor id now t on held) h =
    write-IsKeyed s t.task_id (unclaim now) (λ x. refl) h
Effect-IsKeyed l s _ _ (completes_task actor id text now t on held) h =
    write-IsKeyed s t.task_id (complete_with text now) (λ x. refl) h
Effect-IsKeyed l s _ _ (fails_task actor id text now t on held) h =
    write-IsKeyed s t.task_id (fail_with text now) (λ x. refl) h
Effect-IsKeyed l s _ _ (withdraws_task actor id now t seen creator live) h =
    write-IsKeyed s t.task_id (withdraw now) (λ x. refl) h

run_from-IsKeyed :
    (l : Limits) (s : TaskRuntime) (es : List Event) → IsKeyed s → IsKeyed (run l s es)
unfolding run
run_from-IsKeyed l s [] h = h
run_from-IsKeyed l s (e ∷ es) h =
    run_from-IsKeyed l (step l s e) es (Effect-IsKeyed l s (step l s e) e (step-Effect l s e) h)

-- After any history an identifier names at most one task, of either kind.
pub run-IsKeyed : (l : Limits) (es : List Event) → IsKeyed (run l new_runtime es)
unfolding has_runner any
run-IsKeyed l es =
    run_from-IsKeyed l new_runtime es
      (record { runners = tt; coordination = tt; apart = λ id there. absurd (ground arith) })
