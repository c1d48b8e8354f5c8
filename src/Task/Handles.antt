-- ===== src/Task/Handles.antt =====
-- Cancellation and shutdown of runner tasks (src/task/runtime.ts): the invariant on the handles of
-- running tasks.
use slnc_tr_z_mcp.Prelude.{
  ℕ, String, Bool, true, false, not, ◌&&◌, ◌||◌, Option, none, some, List, [], ◌∷◌, ◌++◌, ◌≡◌, refl,
  arith, Result, select, delete, any, ◌==◌, if◌then◌else◌, All, All-select, All-append_one,
  All-update, All-map, All-update_to, any-append, IsOnly, All-IsOnly, All-any-select, All-both,
  Option-cases, Bool-cases, inl, inr, eq_iff, eq_refl,
}
use slnc_tr_z_mcp.Task.Types.{is_running, MutableRunnerTask, Failure, ExecResult}
use slnc_tr_z_mcp.Task.Runtime.{Limits, TaskRuntime}
use slnc_tr_z_mcp.Task.Runtime.Runner.{
  pruned_runners, settle_task, settle_found, request_runner_cancel, handles, take_handle,
  request_cancel, cancel_all, write_runner,
}
use slnc_tr_z_mcp.Task.Pruning.{prune_keeps, cancel_all_keeps}
use slnc_tr_z_mcp.Task.Capacity.{settle_task_stops}
use slnc_tr_z_mcp.Task.Identity.{runner_key, IsKeyed}

-- The handle, if there is one, is among those that were cancelled.
abbrev pub is_cancelled : List String → Option String → Bool
is_cancelled cs none = true
is_cancelled cs (some h) = any (λ c. c == h) cs

-- A running task that was asked to stop has its handle cancelled.
abbrev pub is_told : List String → MutableRunnerTask → Bool
is_told cs t = not (is_running t.state && t.cancel_requested) || is_cancelled cs t.handle

abbrev pub is_stopping : MutableRunnerTask → Bool
is_stopping t = not (is_running t.state) || t.cancel_requested

-- Every running task that was asked to stop is told so; and all are asked once the runtime stops.
pub record IsSound (s : TaskRuntime) : Type 0 where
  pub told : All (λ t. is_told s.cancels t ≡ true) s.runner_tasks
  pub stopping : s.accepting ≡ false → All (λ t. is_stopping t ≡ true) s.runner_tasks
  pub open_until_shutdown : s.shutdown_started ≡ false → s.accepting ≡ true

more_told :
    (cs new : List String) (t : MutableRunnerTask)
    → is_told cs t ≡ true
    → is_told (cs ++ new) t ≡ true
more_told cs new t h = elim (Option-cases t.handle) [
  | inl e ↦ ground (arith, e)
  | inr (x, e) ↦ ground (arith, e, any-append (λ c. c == x) cs new)
]

pub delete-IsSound :
    (s : TaskRuntime) (p : MutableRunnerTask → Bool)
    → IsSound s
    → IsSound (record s { runner_tasks = delete p s.runner_tasks })
unfolding delete
delete-IsSound s p h = record {
  told = All-select (λ t. is_told s.cancels t ≡ true) (λ t. not (p t)) s.runner_tasks h.told;
  stopping = λ off.
      All-select (λ t. is_stopping t ≡ true) (λ t. not (p t)) s.runner_tasks (h.stopping off);
  open_until_shutdown = h.open_until_shutdown;
}

pub pruned-IsSound : (l : Limits) (s : TaskRuntime) → IsSound s → IsSound (pruned_runners l s)
unfolding delete
pruned-IsSound l s h = record {
  told =
      prune_keeps (All (λ t. is_told s.cancels t ≡ true))
        (λ p ts. All-select (λ t. is_told s.cancels t ≡ true) (λ t. not (p t)) ts) l s.runner_tasks
        h.told;
  stopping = λ off.
      prune_keeps (All (λ t. is_stopping t ≡ true))
        (λ p ts. All-select (λ t. is_stopping t ≡ true) (λ t. not (p t)) ts) l s.runner_tasks
        (h.stopping off);
  open_until_shutdown = h.open_until_shutdown;
}

pub insert-IsSound :
    (s : TaskRuntime) (t : MutableRunnerTask)
    → s.accepting ≡ true
    → t.cancel_requested ≡ false
    → IsSound s
    → IsSound (record s { runner_tasks = s.runner_tasks ++ t ∷ [] })
insert-IsSound s t on new h = record {
  told =
      All-append_one (λ x. is_told s.cancels x ≡ true) s.runner_tasks t h.told
        (ground (arith, new));
  stopping = λ off. absurd (ground (arith, on, off));
  open_until_shutdown = h.open_until_shutdown;
}

pub settle_found-IsSound :
    (s : TaskRuntime) (outcome : Result Failure ExecResult) (now : ℕ) (t : MutableRunnerTask)
    → IsSound s
    → IsSound (settle_found outcome now t s)
unfolding settle_found
settle_found-IsSound s outcome now t h = record {
  told =
      All-update (λ x. is_told s.cancels x ≡ true) (λ x. x.task_id == t.task_id)
        (settle_task outcome now) (λ x _ _. ground (arith, settle_task_stops outcome now x))
        s.runner_tasks h.told;
  stopping = λ off.
      All-update (λ x. is_stopping x ≡ true) (λ x. x.task_id == t.task_id) (settle_task outcome now)
        (λ x _ _. ground (arith, settle_task_stops outcome now x)) s.runner_tasks (h.stopping off);
  open_until_shutdown = h.open_until_shutdown;
}

pub take_handle-IsSound :
    (s : TaskRuntime) (x : String) (t : MutableRunnerTask)
    → IsOnly runner_key s.runner_tasks t
    → IsSound s
    → IsSound (record (write_runner t.task_id (take_handle x) s) {
      cancels = s.cancels ++ (if t.cancel_requested then x ∷ [] else []);
    })
unfolding any
take_handle-IsSound s x t only h =
    let new = if t.cancel_requested then x ∷ [] else [] in
    record {
      told =
          All-update_to
            (λ r. ((r.task_id == t.task_id) ≡ true → r ≡ t) × (is_told s.cancels r ≡ true))
            (λ r. is_told (s.cancels ++ new) r ≡ true) (λ r. r.task_id == t.task_id) (take_handle x)
            (λ r e (one, p).
              ground (arith, one e, any-append (λ c. c == x) s.cancels new, eq_refl x))
            (λ r e (one, p). more_told s.cancels new r p) s.runner_tasks
            (All-both (λ r. (r.task_id == t.task_id) ≡ true → r ≡ t)
              (λ r. is_told s.cancels r ≡ true) s.runner_tasks only h.told);
      stopping = λ off.
          All-update (λ r. is_stopping r ≡ true) (λ r. r.task_id == t.task_id) (take_handle x)
            (λ r _ p. p) s.runner_tasks (h.stopping off);
      open_until_shutdown = h.open_until_shutdown;
    }

-- The tasks of `t`'s identifier have its handle.
abbrev pub SharesHandle : List MutableRunnerTask → MutableRunnerTask → Type 0
SharesHandle xs t = All (λ x. (x.task_id == t.task_id) ≡ true → x.handle ≡ t.handle) xs

pub only-SharesHandle :
    (xs : List MutableRunnerTask) (t : MutableRunnerTask)
    → IsOnly runner_key xs t
    → SharesHandle xs t
only-SharesHandle xs t only =
    All-map (λ x. (x.task_id == t.task_id) ≡ true → x ≡ t)
      (λ x. (x.task_id == t.task_id) ≡ true → x.handle ≡ t.handle) (λ x one e. rw (one e) refl) xs
      only

request-told :
    (s : TaskRuntime) (t : MutableRunnerTask)
    → SharesHandle s.runner_tasks t
    → All (λ x. is_told s.cancels x ≡ true) s.runner_tasks
    → All
        (λ x. is_told (request_runner_cancel t s).cancels x ≡ true)
        (request_runner_cancel t s).runner_tasks
unfolding request_runner_cancel any
request-told s t shares h =
    All-update_to
      (λ x. ((x.task_id == t.task_id) ≡ true → x.handle ≡ t.handle) × (is_told s.cancels x ≡ true))
      (λ x. is_told (s.cancels ++ handles t.handle) x ≡ true) (λ x. x.task_id == t.task_id)
      request_cancel
      (λ x e (same, p). elim (Option-cases t.handle) [
        | inl none_yet ↦ ground (arith, same e, none_yet)
        | inr (c, q) ↦
            ground (arith, same e, q, any-append (λ d. d == c) s.cancels (c ∷ []), eq_refl c)
      ])
      (λ x e (same, p). more_told s.cancels (handles t.handle) x p) s.runner_tasks
      (All-both (λ x. (x.task_id == t.task_id) ≡ true → x.handle ≡ t.handle)
        (λ x. is_told s.cancels x ≡ true) s.runner_tasks shares h)

request-stopping :
    (s : TaskRuntime) (t : MutableRunnerTask)
    → All (λ x. is_stopping x ≡ true) s.runner_tasks
    → All (λ x. is_stopping x ≡ true) (request_runner_cancel t s).runner_tasks
unfolding request_runner_cancel
request-stopping s t h =
    All-update (λ x. is_stopping x ≡ true) (λ x. x.task_id == t.task_id) request_cancel
      (λ x _ p. ground arith) s.runner_tasks h

pub request-IsSound :
    (s : TaskRuntime) (t : MutableRunnerTask)
    → SharesHandle s.runner_tasks t
    → IsSound s
    → IsSound (request_runner_cancel t s)
unfolding request_runner_cancel
request-IsSound s t shares h = record {
  told = request-told s t shares h.told;
  stopping = λ off. request-stopping s t (h.stopping off);
  open_until_shutdown = h.open_until_shutdown;
}

request_keeps-SharesHandle :
    (s : TaskRuntime) (t u : MutableRunnerTask)
    → SharesHandle s.runner_tasks u
    → SharesHandle (request_runner_cancel t s).runner_tasks u
unfolding request_runner_cancel
request_keeps-SharesHandle s t u h =
    All-update (λ x. (x.task_id == u.task_id) ≡ true → x.handle ≡ u.handle)
      (λ x. x.task_id == t.task_id) request_cancel (λ x _ p. p) s.runner_tasks h

cancel_all-told :
    (ts : List MutableRunnerTask) (s : TaskRuntime)
    → All (SharesHandle s.runner_tasks) ts
    → All (λ x. is_told s.cancels x ≡ true) s.runner_tasks
    → All (λ x. is_told (cancel_all ts s).cancels x ≡ true) (cancel_all ts s).runner_tasks
unfolding cancel_all
cancel_all-told [] s shares h = h
cancel_all-told (t ∷ ts) s (share, shares) h =
    let after = request_runner_cancel t s in
    cancel_all-told ts after
      (All-map (SharesHandle s.runner_tasks) (SharesHandle after.runner_tasks)
        (λ u. request_keeps-SharesHandle s t u) ts shares)
      (request-told s t share h)

-- A task that is stopping, or is still on the list.
cancel_all-stopping :
    (ts : List MutableRunnerTask) (s : TaskRuntime)
    → All (λ x. (is_stopping x || any (λ t. t.task_id == x.task_id) ts) ≡ true) s.runner_tasks
    → All (λ x. is_stopping x ≡ true) (cancel_all ts s).runner_tasks
unfolding cancel_all any request_runner_cancel
cancel_all-stopping [] s h =
    All-map (λ x. (is_stopping x || any (λ t. MutableRunnerTask.task_id t == x.task_id) []) ≡ true)
      (λ x. is_stopping x ≡ true) (λ x p. ground arith) s.runner_tasks h
cancel_all-stopping (t ∷ ts) s h = cancel_all-stopping ts (request_runner_cancel t s) (
    All-update_to
      (λ x. (is_stopping x || any (λ r. MutableRunnerTask.task_id r == x.task_id) (t ∷ ts)) ≡ true)
      (λ x. (is_stopping x || any (λ r. MutableRunnerTask.task_id r == x.task_id) ts) ≡ true)
      (λ x. x.task_id == t.task_id) request_cancel (λ x e p. ground arith)
      (λ x e p. ground (arith, eq_iff x.task_id t.task_id, eq_iff t.task_id x.task_id))
      s.runner_tasks h)

cancel_all_accepting :
    (ts : List MutableRunnerTask) (s : TaskRuntime)
    → ((cancel_all ts s).accepting ≡ s.accepting)
      × ((cancel_all ts s).shutdown_started ≡ s.shutdown_started)
unfolding request_runner_cancel
cancel_all_accepting ts s =
    cancel_all_keeps (λ x. (x.accepting ≡ s.accepting) × (x.shutdown_started ≡ s.shutdown_started))
      (λ t x h. h) ts s (refl, refl)

pub shuts-IsSound :
    (s : TaskRuntime)
    → IsKeyed s
    → IsSound s
    → IsSound (
        cancel_all
          (select (λ t. is_running t.state) s.runner_tasks)
          (record s { accepting = false; shutdown_started = true }))
shuts-IsSound s k h =
    let running_tasks = select (λ t. is_running t.state) s.runner_tasks in
    let closed = record s { accepting = false; shutdown_started = true } in
    record {
      told =
          cancel_all-told running_tasks closed
            (All-select (SharesHandle s.runner_tasks) (λ t. is_running t.state) s.runner_tasks
              (All-map (IsOnly runner_key s.runner_tasks) (SharesHandle s.runner_tasks)
                (only-SharesHandle s.runner_tasks) s.runner_tasks
                (All-IsOnly runner_key s.runner_tasks k.runners)))
            h.told;
      stopping = λ off. cancel_all-stopping running_tasks closed (
          All-map
            (λ x.
              is_running x.state ≡ true → any (λ y. y.task_id == x.task_id) running_tasks ≡ true)
            (λ x. (is_stopping x || any (λ y. y.task_id == x.task_id) running_tasks) ≡ true)
            (λ x p. elim (Bool-cases (is_running x.state)) [
              | inl e ↦ ground (arith, p e)
              | inr e ↦ ground arith
            ])
            s.runner_tasks (All-any-select runner_key (λ t. is_running t.state) s.runner_tasks));
      open_until_shutdown =
          λ early. absurd (ground (arith, (cancel_all_accepting running_tasks closed).1));
    }
