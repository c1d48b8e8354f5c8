-- ===== src/Task/Effects/Runners.antt =====
-- The operations on runner tasks, and the shutdown (src/task/runtime.ts), against their
-- specification.
use slnc_tr_z_mcp.Prelude.{
  ℕ, String, ◌&&◌, leb, Option, ◌≡◌, arith, Result, ok, err, inl, inr, Bool-cases, Option-cases,
  Result-cases, subst, eq_iff, ◌∙◌, ◌++◌, ◌∷◌, [],
}
use slnc_tr_z_mcp.Task.Types.{is_running, MutableRunnerTask, RunnerTaskActor, ExecResult, Failure}
use slnc_tr_z_mcp.Task.Runtime.{
  max_safe_integer, or_default, Limits, TaskRuntime, from_state, assert_accepting, runner_at,
  lookup_runner, has_runner,
}
use slnc_tr_z_mcp.Task.Runtime.Runner.{
  new_runner_task, pruned_runners, insert_runner, start, launched, launch_settles,
  completion_settles, start_fails, cancel_found, cancel_runner, cancel, shutdown,
}
use slnc_tr_z_mcp.Task.Runtime.Coordination.{cancel_coordination}
use slnc_tr_z_mcp.Task.Effects.{
  HasRoom, Effect, nothing, prunes_runners, inserts_runner, takes_handle, rejects_launch,
  settles_task, drops_runner, cancels_runner, shuts, is_launched, chain-Effect,
}
use slnc_tr_z_mcp.Task.Effects.Tasks.{
  assert_accepting-ok, create-Effect, claim-Effect, release-Effect, complete-Effect, fail-Effect,
  cancel_coordination-Effect,
}
use slnc_tr_z_mcp.Task.History.{
  Event, starts, launches, finishes, start_rejects, creates, claims, releases, completes, fails,
  cancels, shuts_down, step,
}

insert_runner-HasRoom :
    (l : Limits) (t : MutableRunnerTask) (s after : TaskRuntime) (u : Unit {0})
    → insert_runner l t s ≡ ok (u, after)
    → HasRoom l t.created_by_client_id t.task_id s
unfolding insert_runner
insert_runner-HasRoom l t s after u h = record {
  retained = ground arith;
  active = ground arith;
  of_client = ground arith;
  fresh_runner = ground arith;
  fresh_coordination = ground arith;
}

insert_runner-eq :
    (l : Limits) (t : MutableRunnerTask) (s after : TaskRuntime) (u : Unit {0})
    → insert_runner l t s ≡ ok (u, after)
    → record s { runner_tasks = s.runner_tasks ++ t ∷ [] } ≡ after
unfolding insert_runner
insert_runner-eq l t s after u h = ground arith

start-Effect :
    (l : Limits) (actor : RunnerTaskActor) (policy : String) (command : Option String) (id : String)
    (now : ℕ) (s : TaskRuntime)
    → Effect l s (starts actor policy command id now) (start l actor policy command id now s).1
unfolding start new_runner_task
start-Effect l actor policy command id now s =
    let e = starts actor policy command id now in
    let pruned = pruned_runners l s in
    let t = new_runner_task actor policy command id now in
    elim (Result-cases (assert_accepting s)) [
      | inr (x, p) ↦ subst (Effect l s e) {x = s} (ground arith) (nothing e)
      | inl (u, p) ↦ elim (Result-cases (insert_runner l t pruned)) [
        | inr (x, q) ↦
            subst (Effect l s e) {x = pruned} (ground arith)
              (prunes_runners actor policy command id now)
        | inl ((v, after), q) ↦
            subst (Effect l s e) (insert_runner-eq l t pruned after v q ∙ ground arith) (
              inserts_runner actor policy command id now (assert_accepting-ok s u p)
                (insert_runner-HasRoom l t pruned after v q))
      ]
    ]

launch-Effect :
    (l : Limits) (id : String) (outcome : Result Failure String) (now : ℕ) (s : TaskRuntime)
    → Effect l s (launches id outcome now) (launch_settles id outcome now s)
unfolding launch_settles launched
launch-Effect l id outcome now s =
    let e = launches id outcome now in
    elim (Option-cases (runner_at id s.runner_tasks)) [
      | inl p ↦ subst (Effect l s e) {x = s} (ground arith) (nothing e)
      | inr (t, p) ↦ elim (Bool-cases (is_running t.state)) [
        | inr f ↦ subst (Effect l s e) {x = s} (ground arith) (nothing e)
        | inl f ↦ elim (Option-cases t.handle) [
          | inr (h, q) ↦ subst (Effect l s e) {x = s} (ground arith) (nothing e)
          | inl q ↦ elim (Result-cases outcome) [
            | inl (h, r) ↦ rw r (
                subst (Effect l s (launches id (ok h) now)) (ground arith)
                  (takes_handle id h now t p f q))
            | inr (x, r) ↦ rw r (
                subst (Effect l s (launches id (err x) now)) (ground arith)
                  (rejects_launch id x now t p f q))
          ]
        ]
      ]
    ]

completion-Effect :
    (l : Limits) (id : String) (outcome : Result Failure ExecResult) (now : ℕ) (s : TaskRuntime)
    → Effect l s (finishes id outcome now) (completion_settles id outcome now s)
unfolding completion_settles
completion-Effect l id outcome now s =
    let e = finishes id outcome now in
    elim (Option-cases (runner_at id s.runner_tasks)) [
      | inl p ↦ subst (Effect l s e) {x = s} (ground arith) (nothing e)
      | inr (t, p) ↦ elim (Bool-cases (is_running t.state && is_launched t.handle)) [
        | inr f ↦ subst (Effect l s e) {x = s} (ground arith) (nothing e)
        | inl f ↦
            subst (Effect l s e) (ground arith)
              (settles_task id outcome now t p (ground arith) (ground arith))
      ]
    ]

start_fails-Effect :
    (l : Limits) (id : String) (s : TaskRuntime) → Effect l s (start_rejects id) (start_fails id s)
unfolding start_fails
start_fails-Effect l id s =
    let e = start_rejects id in
    elim (Option-cases (runner_at id s.runner_tasks)) [
      | inl p ↦ subst (Effect l s e) {x = s} (ground arith) (nothing e)
      | inr (t, p) ↦ elim (Bool-cases (is_running t.state)) [
        | inl f ↦ subst (Effect l s e) {x = s} (ground arith) (nothing e)
        | inr f ↦ elim (Option-cases t.handle) [
          | inr (h, q) ↦ subst (Effect l s e) {x = s} (ground arith) (nothing e)
          | inl q ↦ subst (Effect l s e) (ground arith) (drops_runner id t p f q)
        ]
      ]
    ]

cancel_runner-Effect :
    (l : Limits) (actor : RunnerTaskActor) (id : String) (now : ℕ) (s : TaskRuntime)
    → Effect l s (cancels actor id now) (from_state s (cancel_runner actor id s)).1
unfolding cancel_runner cancel_found lookup_runner
cancel_runner-Effect l actor id now s =
    let e = cancels actor id now in
    chain-Effect l s e (lookup_runner actor id s) _ (λ t q. elim (Bool-cases (is_running t.state)) [
      | inr f ↦ subst (Effect l s e) {x = s} (ground arith) (nothing e)
      | inl f ↦ subst (Effect l s e) (ground arith) (
          cancels_runner actor id now t (ground arith) f
            (ground (arith, eq_iff t.workspace_id actor.workspace_id))
            (ground (arith, eq_iff t.created_by_client_id actor.client_id)))
    ])

cancel-Effect :
    (l : Limits) (actor : RunnerTaskActor) (id : String) (now : ℕ) (s : TaskRuntime)
    → Effect l s (cancels actor id now) (from_state s (cancel actor id now s)).1
unfolding cancel
cancel-Effect l actor id now s =
    let e = cancels actor id now in
    elim (Bool-cases (has_runner id s)) [
      | inl p ↦ rw p (cancel_runner-Effect l actor id now s)
      | inr p ↦ rw p (
          subst (Effect l s e)
            (elim (Result-cases (cancel_coordination actor id now s)) [
              | inl ((snap, after), q) ↦ ground arith
              | inr (x, q) ↦ ground arith
            ])
            (cancel_coordination-Effect l actor id now s))
    ]

shutdown-Effect :
    (l : Limits) (timeout_ms : Option ℕ) (s : TaskRuntime)
    → Effect l s (shuts_down timeout_ms) (shutdown timeout_ms s).1
unfolding shutdown
shutdown-Effect l timeout_ms s =
    let e = shuts_down timeout_ms in
    let ms = or_default timeout_ms 5000 in
    elim (Bool-cases s.shutdown_started) [
      | inl p ↦ subst (Effect l s e) {x = s} (ground arith) (nothing e)
      | inr p ↦ elim (Bool-cases (leb 1 ms && leb ms max_safe_integer)) [
        | inl q ↦ subst (Effect l s e) (ground arith) (shuts timeout_ms p)
        | inr q ↦ subst (Effect l s e) {x = s} (ground arith) (nothing e)
      ]
    ]

-- Every event has an effect that its specification allows.
pub step-Effect : (l : Limits) (s : TaskRuntime) (e : Event) → Effect l s e (step l s e)
unfolding step
step-Effect l s (starts actor policy command id now) = start-Effect l actor policy command id now s
step-Effect l s (launches id outcome now) = launch-Effect l id outcome now s
step-Effect l s (finishes id outcome now) = completion-Effect l id outcome now s
step-Effect l s (start_rejects id) = start_fails-Effect l id s
step-Effect l s (creates actor title instructions id now) =
    create-Effect l actor title instructions id now s
step-Effect l s (claims actor id now) = claim-Effect l actor id now s
step-Effect l s (releases actor id now) = release-Effect l actor id now s
step-Effect l s (completes actor id text now) = complete-Effect l actor id text now s
step-Effect l s (fails actor id text now) = fail-Effect l actor id text now s
step-Effect l s (cancels actor id now) = cancel-Effect l actor id now s
step-Effect l s (shuts_down timeout_ms) = shutdown-Effect l timeout_ms s
