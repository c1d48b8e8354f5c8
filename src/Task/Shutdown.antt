-- ===== src/Task/Shutdown.antt =====
-- The shutdown of the task runtime (src/task/runtime.ts) over all histories.
use slnc_tr_z_mcp.Prelude.{
  String, true, false, some, List, [], ◌∷◌, ◌≡◌, refl, arith, All-first, any, ◌==◌, first-IsOnly,
  IsOnly, sym, ◌∙◌, err, ◌⊎◌, inl, inr,
}
use slnc_tr_z_mcp.Task.Types.{is_running, MutableRunnerTask}
use slnc_tr_z_mcp.Task.Runtime.{Limits, TaskRuntime, new_runtime, runner_at}
use slnc_tr_z_mcp.Task.Runtime.Runner.{pruned_runners, new_runner_task}
use slnc_tr_z_mcp.Task.History.{Event, step, run}
use slnc_tr_z_mcp.Task.Effects.{
  Effect, nothing, prunes_runners, inserts_runner, takes_handle, rejects_launch, settles_task,
  drops_runner, cancels_runner, shuts, prunes_coordination, inserts_task, claims_task,
  releases_task, completes_task, fails_task, withdraws_task,
}
use slnc_tr_z_mcp.Task.Effects.Runners.{step-Effect}
use slnc_tr_z_mcp.Task.Identity.{runner_key, IsKeyed, Effect-IsKeyed, run-IsKeyed}
use slnc_tr_z_mcp.Task.Handles.{
  IsSound, is_told, is_stopping, delete-IsSound, pruned-IsSound, insert-IsSound,
  settle_found-IsSound, take_handle-IsSound, request-IsSound, only-SharesHandle, shuts-IsSound,
}

IsOnly-found :
    (s : TaskRuntime) (id : String) (t : MutableRunnerTask)
    → IsKeyed s
    → runner_at id s.runner_tasks ≡ some t
    → IsOnly runner_key s.runner_tasks t
unfolding runner_at
IsOnly-found s id t k found = first-IsOnly runner_key id s.runner_tasks t k.runners found

-- Other fields do not matter.
same-IsSound :
    (s after : TaskRuntime)
    → after.runner_tasks ≡ s.runner_tasks
    → after.cancels ≡ s.cancels
    → after.accepting ≡ s.accepting
    → after.shutdown_started ≡ s.shutdown_started
    → IsSound s
    → IsSound after
same-IsSound s after r c a d h = record {
  told = rw r (rw c h.told);
  stopping = λ off. rw r (h.stopping (sym a ∙ off));
  open_until_shutdown = λ early. a ∙ h.open_until_shutdown (sym d ∙ early);
}

Effect-IsSound :
    (l : Limits) (s after : TaskRuntime) (e : Event)
    → Effect l s e after
    → IsKeyed s
    → IsSound s
    → IsSound after
unfolding new_runner_task
Effect-IsSound l s _ _ (nothing e) k h = h
Effect-IsSound l s _ _ (prunes_runners actor policy command id now) k h = pruned-IsSound l s h
Effect-IsSound l s _ _ (inserts_runner actor policy command id now on room) k h =
    insert-IsSound (pruned_runners l s) (new_runner_task actor policy command id now) on refl
      (pruned-IsSound l s h)
Effect-IsSound l s _ _ (takes_handle id x now t found on empty) k h =
    take_handle-IsSound s x t (IsOnly-found s id t k found) h
Effect-IsSound l s _ _ (rejects_launch id x now t found on empty) k h =
    settle_found-IsSound s (err x) now t h
Effect-IsSound l s _ _ (settles_task id outcome now t found on full) k h =
    settle_found-IsSound s outcome now t h
Effect-IsSound l s _ _ (drops_runner id t found off empty) k h =
    delete-IsSound s (λ x. x.task_id == id) h
Effect-IsSound l s _ _ (cancels_runner actor id now t found on workspace client) k h =
    request-IsSound s t (only-SharesHandle s.runner_tasks t (IsOnly-found s id t k found)) h
Effect-IsSound l s _ _ (shuts timeout_ms first_time) k h = shuts-IsSound s k h
Effect-IsSound l s after _ (prunes_coordination actor title instructions id now) k h =
    same-IsSound s after refl refl refl refl h
Effect-IsSound l s after _ (inserts_task actor title instructions id now on room) k h =
    same-IsSound s after refl refl refl refl h
Effect-IsSound l s after _ (claims_task actor id now t on seen free) k h =
    same-IsSound s after refl refl refl refl h
Effect-IsSound l s after _ (releases_task actor id now t on held) k h =
    same-IsSound s after refl refl refl refl h
Effect-IsSound l s after _ (completes_task actor id text now t on held) k h =
    same-IsSound s after refl refl refl refl h
Effect-IsSound l s after _ (fails_task actor id text now t on held) k h =
    same-IsSound s after refl refl refl refl h
Effect-IsSound l s after _ (withdraws_task actor id now t seen creator live) k h =
    same-IsSound s after refl refl refl refl h

run_from-IsSound :
    (l : Limits) (s : TaskRuntime) (es : List Event) → IsKeyed s → IsSound s → IsSound (run l s es)
unfolding run
run_from-IsSound l s [] k h = h
run_from-IsSound l s (e ∷ es) k h =
    run_from-IsSound l (step l s e) es (Effect-IsKeyed l s (step l s e) e (step-Effect l s e) k)
      (Effect-IsSound l s (step l s e) e (step-Effect l s e) k h)

run-IsSound : (l : Limits) (es : List Event) → IsSound (run l new_runtime es)
unfolding run
run-IsSound l es =
    run_from-IsSound l new_runtime es (run-IsKeyed l [])
      (record { told = tt; stopping = λ off. tt; open_until_shutdown = λ early. refl })

-- After any history, a runner task that is running with a handle has had the handle cancelled
-- if a cancellation of the task was asked for, and also if the runtime no longer accepts work.
pub run-is_cancelled :
    (l : Limits) (es : List Event) (id h : String) (t : MutableRunnerTask)
    → runner_at id (run l new_runtime es).runner_tasks ≡ some t
    → is_running t.state ≡ true
    → t.handle ≡ some h
    → (t.cancel_requested ≡ true) ⊎ ((run l new_runtime es).accepting ≡ false)
    → any (λ c. c == h) (run l new_runtime es).cancels ≡ true
unfolding runner_at
run-is_cancelled l es id h t found on handle asked =
    let s = run l new_runtime es in
    let sound = run-IsSound l es in
    let told =
      All-first (λ x. is_told s.cancels x ≡ true) (λ x. x.task_id == id) s.runner_tasks t sound.told
        found in
    elim asked [
      | inl requested ↦ ground (arith, told)
      | inr off ↦
          let stopping =
            All-first (λ x. is_stopping x ≡ true) (λ x. x.task_id == id) s.runner_tasks t
              (sound.stopping off) found in
          ground (arith, told, stopping)
    ]
