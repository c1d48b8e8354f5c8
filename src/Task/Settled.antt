-- ===== src/Task/Settled.antt =====
-- Runner tasks that have settled (src/task/runtime.ts).
use slnc_tr_z_mcp.Prelude.{
  String, Bool, true, false, none, some, List, [], ◌∷◌, ◌++◌, ◌≡◌, ◌⊎◌, refl, arith, inl, inr, err,
  length, select, ltb, ◌==◌, ◌∙◌, first-delete, first-append, first-write, first_key, Bool-cases,
  str_cases, first-any, any, update, first-Distinct-select,
}
use slnc_tr_z_mcp.Task.Types.{is_running, MutableRunnerTask}
use slnc_tr_z_mcp.Task.Runtime.{
  Limits, TaskRuntime, new_runtime, runner_at, terminal_tasks, prune_terminal_tasks,
}
use slnc_tr_z_mcp.Task.Runtime.Runner.{
  pruned_runners, settle_task, settle_found, request_runner_cancel, take_handle, request_cancel,
  new_runner_task, cancel_all,
}
use slnc_tr_z_mcp.Task.History.{Event, starts, step, run}
use slnc_tr_z_mcp.Task.Effects.{
  Effect, nothing, prunes_runners, inserts_runner, takes_handle, rejects_launch, settles_task,
  drops_runner, cancels_runner, shuts, prunes_coordination, inserts_task, claims_task,
  releases_task, completes_task, fails_task, withdraws_task,
}
use slnc_tr_z_mcp.Task.Effects.Runners.{step-Effect}
use slnc_tr_z_mcp.Task.Over.{delete_until_below-first}
use slnc_tr_z_mcp.Task.Identity.{runner_key, settle_task_key, IsKeyed, run-IsKeyed}

-- The task is as it was, or it is gone.
abbrev pub RunnerStaysOrGoes : String → MutableRunnerTask → List MutableRunnerTask → Type 0
RunnerStaysOrGoes id t ts = (runner_at id ts ≡ some t) ⊎ (runner_at id ts ≡ none)

prune-RunnerStaysOrGoes :
    (l : Limits) (id : String) (t : MutableRunnerTask) (ts : List MutableRunnerTask)
    → runner_at id ts ≡ some t
    → RunnerStaysOrGoes id t (prune_terminal_tasks l ts)
unfolding runner_at prune_terminal_tasks
prune-RunnerStaysOrGoes l id t ts found = elim (Bool-cases (ltb (length ts) l.max_retained)) [
  | inl e ↦ inl (rw e found)
  | inr e ↦ elim (delete_until_below-first runner_key l.max_retained id (terminal_tasks ts) ts) [
    | inl kept ↦ inl (rw e (kept ∙ found))
    | inr gone ↦ inr (rw e gone)
  ]
]

append-RunnerStaysOrGoes :
    (id : String) (t new : MutableRunnerTask) (ts : List MutableRunnerTask)
    → (new.task_id == id) ≡ false
    → RunnerStaysOrGoes id t ts
    → RunnerStaysOrGoes id t (ts ++ new ∷ [])
unfolding runner_at
append-RunnerStaysOrGoes id t new ts other (inl kept) =
    inl (first-append runner_key id ts new ∙ ground (arith, first-any runner_key id ts t kept))
append-RunnerStaysOrGoes id t new ts other (inr gone) =
    inr (first-append runner_key id ts new ∙ ground (arith, gone, other))

-- A write to a running task leaves one that has settled.
running_write_leaves :
    (ts : List MutableRunnerTask) (id i : String) (f : MutableRunnerTask → MutableRunnerTask)
    → ((x : MutableRunnerTask) → (f x).task_id ≡ x.task_id)
    → (t u : MutableRunnerTask) → runner_at id ts ≡ some t
    → is_running t.state ≡ false
    → runner_at i ts ≡ some u
    → is_running u.state ≡ true
    → runner_at id (update (λ x. x.task_id == u.task_id) f ts) ≡ some t
unfolding runner_at
running_write_leaves ts id i f keeps t u found off there on =
    let at_u = first_key runner_key i ts u there in
    let at_t = first_key runner_key id ts t found in
    let apart : (u.task_id == id) ≡ false = elim (str_cases i id) [
      | inr e ↦ rw at_u e
      | inl e ↦ absurd (ground (arith, e, found, there))
    ] in
    first-write runner_key id u.task_id f keeps ts ∙ ground (arith, found, apart)

-- A request to cancel a running task leaves one that has settled.
cancel_all_leaves :
    (ts : List MutableRunnerTask) (s : TaskRuntime) (id : String) (t : MutableRunnerTask)
    → any (λ x. x.task_id == id) ts ≡ false
    → runner_at id s.runner_tasks ≡ some t
    → runner_at id (cancel_all ts s).runner_tasks ≡ some t
unfolding cancel_all any request_runner_cancel runner_at
cancel_all_leaves [] s id t new found = found
cancel_all_leaves (u ∷ us) s id t new found =
    cancel_all_leaves us (request_runner_cancel u s) id t (ground arith) (
      first-write runner_key id u.task_id request_cancel (λ x. refl) s.runner_tasks
      ∙ ground (arith, found))

-- The event starts no new task of this identifier.
unfoldable pub starts_as : String → Event → Bool
starts_as id (starts actor policy command i now) = i == id
starts_as id _ = false

Effect-settled :
    (l : Limits) (s after : TaskRuntime) (e : Event) (id : String) (t : MutableRunnerTask)
    → Effect l s e after
    → IsKeyed s
    → runner_at id s.runner_tasks ≡ some t
    → is_running t.state ≡ false
    → starts_as id e ≡ false
    → RunnerStaysOrGoes id t after.runner_tasks
unfolding starts_as settle_found request_runner_cancel new_runner_task runner_at
Effect-settled l s _ _ id t (nothing e) k found off other = inl found
Effect-settled l s _ _ id t (prunes_runners actor policy command i now) k found off other =
    prune-RunnerStaysOrGoes l id t s.runner_tasks found
Effect-settled l s _ _ id t (inserts_runner actor policy command i now go room) k found off other =
    append-RunnerStaysOrGoes id t (new_runner_task actor policy command i now)
      (pruned_runners l s).runner_tasks other (prune-RunnerStaysOrGoes l id t s.runner_tasks found)
Effect-settled l s _ _ id t (takes_handle i h now u at on none_yet) k found off other =
    inl (running_write_leaves s.runner_tasks id i (take_handle h) (λ x. refl) t u found off at on)
Effect-settled l s _ _ id t (rejects_launch i e now u at on none_yet) k found off other = inl (
    running_write_leaves s.runner_tasks id i (settle_task (err e) now) (settle_task_key (err e) now)
      t u found off at on)
Effect-settled l s _ _ id t (settles_task i outcome now u at on full) k found off other = inl (
    running_write_leaves s.runner_tasks id i (settle_task outcome now) (settle_task_key outcome now)
      t u found off at on)
Effect-settled l s _ _ id t (drops_runner i u at over none_yet) k found off other =
    elim (Bool-cases (i == id)) [
      | inl e ↦ inr (first-delete runner_key id i s.runner_tasks ∙ ground (arith, e))
      | inr e ↦ inl (first-delete runner_key id i s.runner_tasks ∙ ground (arith, e, found))
    ]
Effect-settled l s _ _ id t (cancels_runner actor i now u at on w c) k found off other =
    inl (running_write_leaves s.runner_tasks id i request_cancel (λ x. refl) t u found off at on)
Effect-settled l s _ _ id t (shuts timeout_ms first_time) k found off other = inl (
    cancel_all_leaves (select (λ x. is_running x.state) s.runner_tasks)
      (record s { accepting = false; shutdown_started = true }) id t
      (first-Distinct-select runner_key id (λ x. is_running (MutableRunnerTask.state x))
        s.runner_tasks t k.runners found off)
      found)
Effect-settled l s _ _ id t (prunes_coordination actor title text i now) k found off other =
    inl found
Effect-settled l s _ _ id t (inserts_task actor title text i now go room) k found off other =
    inl found
Effect-settled l s _ _ id t (claims_task actor i now u go seen free) k found off other = inl found
Effect-settled l s _ _ id t (releases_task actor i now u go held) k found off other = inl found
Effect-settled l s _ _ id t (completes_task actor i text now u go held) k found off other =
    inl found
Effect-settled l s _ _ id t (fails_task actor i text now u go held) k found off other = inl found
Effect-settled l s _ _ id t (withdraws_task actor i now u seen creator live) k found off other =
    inl found

-- At any point of any history, a runner task that has settled is never changed again: an event
-- leaves it as it is, or drops it. (The event does not start a task of the same identifier.)
pub step-settled :
    (l : Limits) (es : List Event) (e : Event) (id : String) (t : MutableRunnerTask)
    → runner_at id (run l new_runtime es).runner_tasks ≡ some t
    → is_running t.state ≡ false
    → starts_as id e ≡ false
    → RunnerStaysOrGoes id t (step l (run l new_runtime es) e).runner_tasks
step-settled l es e id t found off other =
    Effect-settled l (run l new_runtime es) (step l (run l new_runtime es) e) e id t
      (step-Effect l (run l new_runtime es) e) (run-IsKeyed l es) found off other
