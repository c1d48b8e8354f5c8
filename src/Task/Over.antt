-- ===== src/Task/Over.antt =====
-- Coordination tasks that are over (src/task/runtime.ts).
use slnc_tr_z_mcp.Prelude.{
  ℕ, String, Bool, true, false, none, some, List, [], ◌∷◌, ◌++◌, ◌≡◌, ◌⊎◌, refl, arith, inl, inr,
  length, first, select, delete, ltb, ◌==◌, ◌∙◌, first-delete, first-append, Bool-cases,
}
use slnc_tr_z_mcp.Task.Types.{is_running, is_over, MutableCoordinationTask}
use slnc_tr_z_mcp.Task.Runtime.{
  Limits, TaskRuntime, coordination_at, delete_until_below, terminal_coordination_tasks,
  prune_terminal_coordination_tasks,
}
use slnc_tr_z_mcp.Task.Runtime.Runner.{settle_found, request_runner_cancel}
use slnc_tr_z_mcp.Task.Runtime.Coordination.{
  pruned_coordination, new_task, claim_by, unclaim, complete_with, fail_with, withdraw,
}
use slnc_tr_z_mcp.Task.History.{Event, creates, step, run}
use slnc_tr_z_mcp.Task.Effects.{
  Effect, nothing, prunes_runners, inserts_runner, takes_handle, rejects_launch, settles_task,
  drops_runner, cancels_runner, shuts, prunes_coordination, inserts_task, claims_task,
  releases_task, completes_task, fails_task, withdraws_task,
}
use slnc_tr_z_mcp.Task.Effects.Runners.{step-Effect}
use slnc_tr_z_mcp.Task.Identity.{coordination_key}
use slnc_tr_z_mcp.Task.Claims.{cancel_all_coordination, write_elsewhere, append_leaves}

-- The loop of a pruning keeps the first task of an identifier, or leaves none.
pub delete_until_below-first {ℓ} :
    {A : Type ℓ} (key : A → String) (bound : ℕ) (id : String) (xs ts : List A)
    → (first (λ y. key y == id) (delete_until_below key bound xs ts) ≡ first (λ y. key y == id) ts)
      ⊎ (first (λ y. key y == id) (delete_until_below key bound xs ts) ≡ none)
unfolding delete_until_below
delete_until_below-first key bound id [] ts = inl refl
delete_until_below-first key bound id (x ∷ xs) ts = elim (Bool-cases (ltb (length ts) bound)) [
  | inl e ↦ inl (rw e refl)
  | inr e ↦ elim (Bool-cases (key x == id)) [
    | inl same ↦ elim (delete_until_below-first key bound id xs (delete (λ t. key t == key x) ts)) [
      | inl kept ↦ inr (rw e (kept ∙ first-delete key id (key x) ts ∙ ground (arith, same)))
      | inr gone ↦ inr (rw e gone)
    ]
    | inr other ↦
        elim (delete_until_below-first key bound id xs (delete (λ t. key t == key x) ts)) [
          | inl kept ↦ inl (rw e (kept ∙ first-delete key id (key x) ts ∙ ground (arith, other)))
          | inr gone ↦ inr (rw e gone)
        ]
  ]
]

-- The task is as it was, or it was pruned.
abbrev pub StaysOrGoes : String → MutableCoordinationTask → List MutableCoordinationTask → Type 0
StaysOrGoes id t ts = (coordination_at id ts ≡ some t) ⊎ (coordination_at id ts ≡ none)

prune-StaysOrGoes :
    (l : Limits) (id : String) (t : MutableCoordinationTask) (ts : List MutableCoordinationTask)
    → coordination_at id ts ≡ some t
    → StaysOrGoes id t (prune_terminal_coordination_tasks l ts)
unfolding coordination_at prune_terminal_coordination_tasks
prune-StaysOrGoes l id t ts found = elim (Bool-cases (ltb (length ts) l.max_coordination)) [
  | inl e ↦ inl (rw e found)
  | inr e ↦
      elim (delete_until_below-first coordination_key l.max_coordination id
        (terminal_coordination_tasks l ts) ts) [
          | inl kept ↦ inl (rw e (kept ∙ found))
          | inr gone ↦ inr (rw e gone)
        ]
]

append-StaysOrGoes :
    (id : String) (t new : MutableCoordinationTask) (ts : List MutableCoordinationTask)
    → (new.task_id == id) ≡ false
    → StaysOrGoes id t ts
    → StaysOrGoes id t (ts ++ new ∷ [])
unfolding coordination_at
append-StaysOrGoes id t new ts other (inl kept) = inl (append_leaves id t ts new kept)
append-StaysOrGoes id t new ts other (inr gone) =
    inr (first-append coordination_key id ts new ∙ ground (arith, gone, other))

-- The event makes no new task of this identifier.
unfoldable pub makes : String → Event → Bool
makes id (creates actor title instructions i now) = i == id
makes id _ = false

Effect-over :
    (l : Limits) (s after : TaskRuntime) (e : Event) (id : String) (t : MutableCoordinationTask)
    → Effect l s e after
    → coordination_at id s.coordination_tasks ≡ some t
    → is_over t.state ≡ true
    → makes id e ≡ false
    → StaysOrGoes id t after.coordination_tasks
unfolding makes settle_found request_runner_cancel new_task
Effect-over l s _ _ id t (nothing e) found over other = inl found
Effect-over l s _ _ id t (prunes_runners actor policy command i now) found over other = inl found
Effect-over l s _ _ id t (inserts_runner actor policy command i now go room) found over other =
    inl found
Effect-over l s _ _ id t (takes_handle i h now r at run none_yet) found over other = inl found
Effect-over l s _ _ id t (rejects_launch i e now r at run none_yet) found over other = inl found
Effect-over l s _ _ id t (settles_task i outcome now r at run full) found over other = inl found
Effect-over l s _ _ id t (drops_runner i r at off none_yet) found over other = inl found
Effect-over l s _ _ id t (cancels_runner actor i now r at run w c) found over other = inl found
Effect-over l s after _ id t (shuts timeout_ms first_time) found over other = inl (
    rw
      (cancel_all_coordination (select (λ x. is_running x.state) s.runner_tasks)
        (record s { accepting = false; shutdown_started = true }))
      found)
Effect-over l s _ _ id t (prunes_coordination actor title text i now) found over other =
    prune-StaysOrGoes l id t s.coordination_tasks found
Effect-over l s _ _ id t (inserts_task actor title text i now go room) found over other =
    append-StaysOrGoes id t (new_task actor title text i now)
      (pruned_coordination l s).coordination_tasks other
      (prune-StaysOrGoes l id t s.coordination_tasks found)
Effect-over l s _ _ id t (claims_task actor i now u go seen free) found over other = inl (
    write_elsewhere s id i (claim_by actor.client_id now) (λ x. refl) t u found seen.found
      (λ e same. absurd (ground (arith, same))))
Effect-over l s _ _ id t (releases_task actor i now u go held) found over other = inl (
    write_elsewhere s id i (unclaim now) (λ x. refl) t u found held.seen.found
      (λ e same. absurd (ground (arith, same, held.state))))
Effect-over l s _ _ id t (completes_task actor i text now u go held) found over other = inl (
    write_elsewhere s id i (complete_with text now) (λ x. refl) t u found held.seen.found
      (λ e same. absurd (ground (arith, same, held.state))))
Effect-over l s _ _ id t (fails_task actor i text now u go held) found over other = inl (
    write_elsewhere s id i (fail_with text now) (λ x. refl) t u found held.seen.found
      (λ e same. absurd (ground (arith, same, held.state))))
Effect-over l s _ _ id t (withdraws_task actor i now u seen creator live) found over other = inl (
    write_elsewhere s id i (withdraw now) (λ x. refl) t u found seen.found
      (λ e same. absurd (ground (arith, same))))

-- A coordination task that is completed, failed or cancelled is never changed again: an event
-- leaves it as it is or prunes it. (The event does not create a task of the same identifier.)
pub step-over :
    (l : Limits) (s : TaskRuntime) (e : Event) (id : String) (t : MutableCoordinationTask)
    → coordination_at id s.coordination_tasks ≡ some t
    → is_over t.state ≡ true
    → makes id e ≡ false
    → StaysOrGoes id t (step l s e).coordination_tasks
step-over l s e id t found over other =
    Effect-over l s (step l s e) e id t (step-Effect l s e) found over other
