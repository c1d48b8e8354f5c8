-- ===== src/Task/Pruning.antt =====
-- Lemmas on the loops of src/task/runtime.ts: the pruning of terminal tasks and the cancellation of
-- all running ones.
use slnc_tr_z_mcp.Prelude.{
  ℕ, String, Bool, List, [], ◌∷◌, inl, inr, length, delete, ltb, Bool-cases, ◌==◌,
}
use slnc_tr_z_mcp.Task.Types.{MutableRunnerTask, MutableCoordinationTask}
use slnc_tr_z_mcp.Task.Runtime.{
  Limits, TaskRuntime, delete_until_below, prune_terminal_tasks, prune_terminal_coordination_tasks,
  terminal_tasks, terminal_coordination_tasks,
}
use slnc_tr_z_mcp.Task.Runtime.Runner.{cancel_all, request_runner_cancel}

-- What deletions keep, the loop keeps.
pub delete_until_below_keeps {ℓ κ} :
    {A : Type ℓ} (Q : List A → Type κ)
    → ((p : A → Bool) (ts : List A) → Q ts → Q (delete p ts))
    → (key : A → String) (bound : ℕ) (xs ts : List A) → Q ts
    → Q (delete_until_below key bound xs ts)
unfolding delete_until_below
delete_until_below_keeps Q closed key bound [] ts h = h
delete_until_below_keeps Q closed key bound (x ∷ xs) ts h =
    elim (Bool-cases (ltb (length ts) bound)) [
      | inl e ↦ rw e h
      | inr e ↦ rw e (
          delete_until_below_keeps Q closed key bound xs (delete (λ t. key t == key x) ts)
            (closed (λ t. key t == key x) ts h))
    ]

pub prune_keeps {κ} :
    (Q : List MutableRunnerTask → Type κ)
    → ((p : MutableRunnerTask → Bool) (ts : List MutableRunnerTask) → Q ts → Q (delete p ts))
    → (l : Limits) (ts : List MutableRunnerTask) → Q ts
    → Q (prune_terminal_tasks l ts)
unfolding prune_terminal_tasks
prune_keeps Q closed l ts h = elim (Bool-cases (ltb (length ts) l.max_retained)) [
  | inl e ↦ rw e h
  | inr e ↦
      rw e
        (delete_until_below_keeps Q closed (λ t. t.task_id) l.max_retained (terminal_tasks ts) ts h)
]

pub prune_coordination_keeps {κ} :
    (Q : List MutableCoordinationTask → Type κ)
    → ((p : MutableCoordinationTask → Bool) (ts : List MutableCoordinationTask)
        → Q ts
        → Q (delete p ts))
    → (l : Limits) (ts : List MutableCoordinationTask) → Q ts
    → Q (prune_terminal_coordination_tasks l ts)
unfolding prune_terminal_coordination_tasks
prune_coordination_keeps Q closed l ts h = elim (Bool-cases (ltb (length ts) l.max_coordination)) [
  | inl e ↦ rw e h
  | inr e ↦ rw e (
      delete_until_below_keeps Q closed (λ t. t.task_id) l.max_coordination
        (terminal_coordination_tasks l ts) ts h)
]

-- What each cancellation keeps, the loop of `shutdown` keeps.
pub cancel_all_keeps {κ} :
    (Q : TaskRuntime → Type κ)
    → ((t : MutableRunnerTask) (s : TaskRuntime) → Q s → Q (request_runner_cancel t s))
    → (ts : List MutableRunnerTask) (s : TaskRuntime) → Q s
    → Q (cancel_all ts s)
unfolding cancel_all
cancel_all_keeps Q keeps [] s h = h
cancel_all_keeps Q keeps (t ∷ ts) s h =
    cancel_all_keeps Q keeps ts (request_runner_cancel t s) (keeps t s h)
