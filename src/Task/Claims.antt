-- ===== src/Task/Claims.antt =====
-- Claims on coordination tasks (src/task/runtime.ts).
use slnc_tr_z_mcp.Prelude.{
  ℕ, String, Bool, true, false, ◌&&◌, some, List, [], ◌∷◌, ◌++◌, ◌≡◌, refl, arith, inl, inr, length,
  first, select, delete, any, ltb, ◌==◌, ◌∙◌, eq_iff, if◌then◌else◌, any-sort_by, Distinct,
  first-Distinct-select, first-delete, first-append, first-any, first-write, first_key, Bool-cases,
  str_cases,
}
use slnc_tr_z_mcp.Task.Types.{
  is_running, is_claimed, is_over, MutableRunnerTask, MutableCoordinationTask,
}
use slnc_tr_z_mcp.Task.Runtime.{
  Limits, TaskRuntime, new_runtime, coordination_at, delete_until_below, settled_before,
  terminal_coordination_tasks, prune_terminal_coordination_tasks,
}
use slnc_tr_z_mcp.Task.Runtime.Runner.{settle_found, request_runner_cancel, cancel_all}
use slnc_tr_z_mcp.Task.Runtime.Coordination.{
  pruned_coordination, write, new_task, claim_by, unclaim, complete_with, fail_with, withdraw,
}
use slnc_tr_z_mcp.Task.History.{
  Event, starts, launches, finishes, start_rejects, creates, claims, releases, completes, fails,
  cancels, shuts_down, step, run,
}
use slnc_tr_z_mcp.Task.Effects.{
  Effect, nothing, prunes_runners, inserts_runner, takes_handle, rejects_launch, settles_task,
  drops_runner, cancels_runner, shuts, prunes_coordination, inserts_task, claims_task,
  releases_task, completes_task, fails_task, withdraws_task,
}
use slnc_tr_z_mcp.Task.Effects.Runners.{step-Effect}
use slnc_tr_z_mcp.Task.Pruning.{cancel_all_keeps}
use slnc_tr_z_mcp.Task.Identity.{coordination_key, IsKeyed, run-IsKeyed}

first-delete_until_below {ℓ} :
    {A : Type ℓ} (key : A → String) (bound : ℕ) (id : String) (xs ts : List A)
    → any (λ y. key y == id) xs ≡ false
    → first (λ y. key y == id) (delete_until_below key bound xs ts) ≡ first (λ y. key y == id) ts
unfolding delete_until_below any
first-delete_until_below key bound id [] ts none_there = refl
first-delete_until_below key bound id (x ∷ xs) ts none_there =
    elim (Bool-cases (ltb (length ts) bound)) [
      | inl e ↦ rw e refl
      | inr e ↦ rw e (
          first-delete_until_below key bound id xs (delete (λ t. key t == key x) ts) (ground arith)
          ∙ first-delete key id (key x) ts
          ∙ ground arith)
    ]

-- The pruning leaves a task that is not over.
prune_leaves :
    (l : Limits) (id : String) (t : MutableCoordinationTask) (ts : List MutableCoordinationTask)
    → Distinct coordination_key ts
    → coordination_at id ts ≡ some t
    → is_over t.state ≡ false
    → coordination_at id (prune_terminal_coordination_tasks l ts) ≡ some t
unfolding coordination_at prune_terminal_coordination_tasks terminal_coordination_tasks
prune_leaves l id t ts apart found live = elim (Bool-cases (ltb (length ts) l.max_coordination)) [
  | inl e ↦ rw e found
  | inr e ↦ rw e (
      first-delete_until_below coordination_key l.max_coordination id
        (terminal_coordination_tasks l ts) ts
        (any-sort_by (λ y. MutableCoordinationTask.task_id y == id) (settled_before l.locale_before)
            (select (λ y. is_over (MutableCoordinationTask.state y)) ts)
          ∙ first-Distinct-select coordination_key id
              (λ y. is_over (MutableCoordinationTask.state y)) ts t apart found live)
      ∙ found)
]

pub cancel_all_coordination :
    (ts : List MutableRunnerTask) (s : TaskRuntime)
    → (cancel_all ts s).coordination_tasks ≡ s.coordination_tasks
unfolding request_runner_cancel
cancel_all_coordination ts s =
    cancel_all_keeps (λ x. x.coordination_tasks ≡ s.coordination_tasks) (λ t x h. h) ts s refl

-- What a write to the task `i` makes of the task `id`.
at-write :
    (s : TaskRuntime) (id i : String) (f : MutableCoordinationTask → MutableCoordinationTask)
    → ((t : MutableCoordinationTask) → (f t).task_id ≡ t.task_id)
    → (t : MutableCoordinationTask) → coordination_at id s.coordination_tasks ≡ some t
    → coordination_at id (write i f s).coordination_tasks ≡ some (if i == id then f t else t)
unfolding coordination_at
at-write s id i f keeps t found =
    first-write coordination_key id i f keeps s.coordination_tasks ∙ ground (arith, found)

-- Only the holder, or the creator by a cancellation, ends a claim on the task `id`.
unfoldable pub may_end : String → String → String → Event → Bool
may_end holder creator id (starts actor policy command i now) = false
may_end holder creator id (launches i outcome now) = false
may_end holder creator id (finishes i outcome now) = false
may_end holder creator id (start_rejects i) = false
may_end holder creator id (creates actor title instructions i now) = false
may_end holder creator id (claims actor i now) = false
may_end holder creator id (releases actor i now) = i == id && actor.client_id == holder
may_end holder creator id (completes actor i text now) = i == id && actor.client_id == holder
may_end holder creator id (fails actor i text now) = i == id && actor.client_id == holder
may_end holder creator id (cancels actor i now) = i == id && actor.client_id == creator
may_end holder creator id (shuts_down timeout_ms) = false

-- A write to another task than the one that is found under `id`.
pub write_elsewhere :
    (s : TaskRuntime) (id i : String) (f : MutableCoordinationTask → MutableCoordinationTask)
    → ((x : MutableCoordinationTask) → (f x).task_id ≡ x.task_id)
    → (t u : MutableCoordinationTask) → coordination_at id s.coordination_tasks ≡ some t
    → coordination_at i s.coordination_tasks ≡ some u
    → (i ≡ id → u ≡ t → (i == id) ≡ false)
    → coordination_at id (write u.task_id f s).coordination_tasks ≡ some t
unfolding coordination_at
write_elsewhere s id i f keeps t u found there other =
    let at_u = first_key coordination_key i s.coordination_tasks u there in
    let apart : (i == id) ≡ false = elim (str_cases i id) [
      | inr e ↦ e
      | inl e ↦ other e (ground (arith, e, found, there))
    ] in
    rw at_u (at-write s id i f keeps t found ∙ ground (arith, apart))

pub append_leaves :
    (id : String) (t : MutableCoordinationTask) (ts : List MutableCoordinationTask)
    (new : MutableCoordinationTask)
    → coordination_at id ts ≡ some t
    → coordination_at id (ts ++ new ∷ []) ≡ some t
unfolding coordination_at
append_leaves id t ts new found =
    first-append coordination_key id ts new
    ∙ ground (arith, first-any coordination_key id ts t found)

Effect-claim :
    (l : Limits) (s after : TaskRuntime) (e : Event) (id holder : String)
    (t : MutableCoordinationTask)
    → Effect l s e after
    → IsKeyed s
    → coordination_at id s.coordination_tasks ≡ some t
    → is_claimed t.state ≡ true
    → t.claimed_by ≡ some holder
    → may_end holder t.created_by_client_id id e ≡ false
    → coordination_at id after.coordination_tasks ≡ some t
unfolding may_end settle_found request_runner_cancel
Effect-claim l s _ _ id holder t (nothing e) k found on by stays = found
Effect-claim l s _ _ id holder t (prunes_runners actor policy command i now) k found on by stays =
    found
Effect-claim l s _ _ id holder t (inserts_runner actor policy command i now go room) k found on by
      stays =
    found
Effect-claim l s _ _ id holder t (takes_handle i h now r at run none_yet) k found on by stays =
    found
Effect-claim l s _ _ id holder t (rejects_launch i e now r at run none_yet) k found on by stays =
    found
Effect-claim l s _ _ id holder t (settles_task i outcome now r at run full) k found on by stays =
    found
Effect-claim l s _ _ id holder t (drops_runner i r at off none_yet) k found on by stays = found
Effect-claim l s _ _ id holder t (cancels_runner actor i now r at run w c) k found on by stays =
    found
Effect-claim l s after _ id holder t (shuts timeout_ms first_time) k found on by stays =
    rw
      (cancel_all_coordination (select (λ x. is_running x.state) s.runner_tasks)
        (record s { accepting = false; shutdown_started = true }))
      found
Effect-claim l s _ _ id holder t (prunes_coordination actor title text i now) k found on by stays =
    prune_leaves l id t s.coordination_tasks k.coordination found (ground arith)
Effect-claim l s _ _ id holder t (inserts_task actor title text i now go room) k found on by stays =
    append_leaves id t (pruned_coordination l s).coordination_tasks
      (new_task actor title text i now)
      (prune_leaves l id t s.coordination_tasks k.coordination found (ground arith))
Effect-claim l s _ _ id holder t (claims_task actor i now u go seen free) k found on by stays =
    write_elsewhere s id i (claim_by actor.client_id now) (λ x. refl) t u found seen.found
      (λ e same. absurd (ground (arith, same)))
Effect-claim l s _ _ id holder t (releases_task actor i now u go held) k found on by stays =
    write_elsewhere s id i (unclaim now) (λ x. refl) t u found held.seen.found
      (λ e same. ground (arith, same, held.holder, eq_iff actor.client_id holder))
Effect-claim l s _ _ id holder t (completes_task actor i text now u go held) k found on by stays =
    write_elsewhere s id i (complete_with text now) (λ x. refl) t u found held.seen.found
      (λ e same. ground (arith, same, held.holder, eq_iff actor.client_id holder))
Effect-claim l s _ _ id holder t (fails_task actor i text now u go held) k found on by stays =
    write_elsewhere s id i (fail_with text now) (λ x. refl) t u found held.seen.found
      (λ e same. ground (arith, same, held.holder, eq_iff actor.client_id holder))
Effect-claim l s _ _ id holder t (withdraws_task actor i now u seen creator live) k found on by
      stays =
    write_elsewhere s id i (withdraw now) (λ x. refl) t u found seen.found
      (λ e same. ground (arith, same, creator, eq_iff actor.client_id t.created_by_client_id))

-- At any point of any history a claimed coordination task stays exactly as it is, whatever happens
-- next, unless its claimant releases, completes or fails it or its creator cancels it.
pub step-claim :
    (l : Limits) (es : List Event) (e : Event) (id holder : String) (t : MutableCoordinationTask)
    → coordination_at id (run l new_runtime es).coordination_tasks ≡ some t
    → is_claimed t.state ≡ true
    → t.claimed_by ≡ some holder
    → may_end holder t.created_by_client_id id e ≡ false
    → coordination_at id (step l (run l new_runtime es) e).coordination_tasks ≡ some t
step-claim l es e id holder t found on by stays =
    Effect-claim l (run l new_runtime es) (step l (run l new_runtime es) e) e id holder t
      (step-Effect l (run l new_runtime es) e) (run-IsKeyed l es) found on by stays
