-- ===== src/Task/Effects/Tasks.antt =====
-- The operations on coordination tasks (src/task/runtime.ts) against their specification.
use slnc_tr_z_mcp.Prelude.{
  ℕ, String, true, ◌≡◌, arith, ok, inl, inr, Bool-cases, Option-cases, Result-cases, subst, eq_iff,
  throw_if, not, ◌==◌, ◌∙◌, ◌++◌, ◌∷◌, [],
}
use slnc_tr_z_mcp.Task.Types.{
  is_available, is_over, MutableCoordinationTask, RunnerTaskActor, task_error, task_forbidden,
}
use slnc_tr_z_mcp.Task.Runtime.{
  Limits, TaskRuntime, from_state, assert_accepting, assert_coordination_text, lookup_coordination,
  result, failure,
}
use slnc_tr_z_mcp.Task.Runtime.Coordination.{
  new_task, pruned_coordination, insert_task, check_create, create, claim_found, claim, held_claim,
  release, complete, fail, withdraw_found, cancel_coordination,
}
use slnc_tr_z_mcp.Task.Effects.{
  HasPlace, IsSeen, IsHeld, Effect, nothing, chain-Effect, check-Effect, prunes_coordination,
  inserts_task, claims_task, releases_task, completes_task, fails_task, withdraws_task,
}
use slnc_tr_z_mcp.Task.History.{creates, claims, releases, completes, fails, cancels}

pub assert_accepting-ok :
    (s : TaskRuntime) (u : Unit {0}) → assert_accepting s ≡ ok u → s.accepting ≡ true
unfolding assert_accepting
assert_accepting-ok s u h = ground arith

lookup_coordination-IsSeen :
    (actor : RunnerTaskActor) (id : String) (s : TaskRuntime) (t : MutableCoordinationTask)
    → lookup_coordination actor id s ≡ ok t
    → IsSeen actor id t s
unfolding lookup_coordination
lookup_coordination-IsSeen actor id s t h = record {
  found = ground arith;
  workspace = ground (arith, eq_iff t.workspace_id actor.workspace_id);
}

held_claim-IsHeld :
    (actor : RunnerTaskActor) (id : String) (s : TaskRuntime) (t : MutableCoordinationTask)
    → held_claim actor id s ≡ ok t
    → IsHeld actor id t s
unfolding held_claim
held_claim-IsHeld actor id s t h = elim (Result-cases (lookup_coordination actor id s)) [
  | inr (e, p) ↦ absurd (ground arith)
  | inl (x, p) ↦
      let same : x ≡ t = ground arith in
      record {
        seen = subst (λ y. IsSeen actor id y s) same (lookup_coordination-IsSeen actor id s x p);
        state = ground arith;
        holder = elim (Option-cases t.claimed_by) [
          | inl e ↦ absurd (ground arith)
          | inr (c, e) ↦ ground (arith, eq_iff c actor.client_id)
        ];
      }
]

insert_task-HasPlace :
    (l : Limits) (t : MutableCoordinationTask) (s after : TaskRuntime)
    → (snap : _) → insert_task l t s ≡ ok (snap, after)
    → HasPlace l t.task_id s
unfolding insert_task
insert_task-HasPlace l t s after snap h = record {
  place = ground arith;
  fresh_runner = ground arith;
  fresh_coordination = ground arith;
}

insert_task-eq :
    (l : Limits) (t : MutableCoordinationTask) (s after : TaskRuntime) (snap : _)
    → insert_task l t s ≡ ok (snap, after)
    → record s { coordination_tasks = s.coordination_tasks ++ t ∷ [] } ≡ after
unfolding insert_task
insert_task-eq l t s after snap h = ground arith

check_create-accepting :
    (title instructions : String) (s : TaskRuntime) (u : Unit {0})
    → check_create title instructions s ≡ ok u
    → s.accepting ≡ true
unfolding check_create assert_accepting
check_create-accepting title instructions s u h = ground arith

pub create-Effect :
    (l : Limits) (actor : RunnerTaskActor) (title instructions id : String) (now : ℕ)
    (s : TaskRuntime)
    → Effect l s
        (creates actor title instructions id now)
        (create l actor title instructions id now s).1
unfolding create
create-Effect l actor title instructions id now s =
    let e = creates actor title instructions id now in
    let pruned = pruned_coordination l s in
    let t = new_task actor title instructions id now in
    elim (Result-cases (check_create title instructions s)) [
      | inr (x, p) ↦ subst (Effect l s e) {x = s} (ground arith) (nothing e)
      | inl (u, p) ↦ elim (Result-cases (insert_task l t pruned)) [
        | inr (x, q) ↦
            subst (Effect l s e) {x = pruned} (ground arith)
              (prunes_coordination actor title instructions id now)
        | inl ((snap, after), q) ↦
            subst (Effect l s e) (insert_task-eq l t pruned after snap q ∙ ground arith) (
              inserts_task actor title instructions id now
                (check_create-accepting title instructions s u p)
                (subst (λ i. HasPlace l i pruned) {x = t.task_id} (ground arith)
                  (insert_task-HasPlace l t pruned after snap q)))
      ]
    ]

pub claim-Effect :
    (l : Limits) (actor : RunnerTaskActor) (id : String) (now : ℕ) (s : TaskRuntime)
    → Effect l s (claims actor id now) (from_state s (claim actor id now s)).1
unfolding claim claim_found
claim-Effect l actor id now s =
    let e = claims actor id now in
    check-Effect l s e (assert_accepting s) _ (λ u p.
      chain-Effect l s e (lookup_coordination actor id s) _ (λ t q.
        elim (Bool-cases (is_available t.state)) [
          | inr f ↦ subst (Effect l s e) {x = s} (ground arith) (nothing e)
          | inl f ↦ subst (Effect l s e) (ground arith) (
              claims_task actor id now t (assert_accepting-ok s u p)
                (lookup_coordination-IsSeen actor id s t q) f)
        ]))

pub release-Effect :
    (l : Limits) (actor : RunnerTaskActor) (id : String) (now : ℕ) (s : TaskRuntime)
    → Effect l s (releases actor id now) (from_state s (release actor id now s)).1
unfolding release
release-Effect l actor id now s =
    let e = releases actor id now in
    check-Effect l s e (assert_accepting s) _ (λ u p.
      chain-Effect l s e (held_claim actor id s) _ (λ t q.
        releases_task actor id now t (assert_accepting-ok s u p)
          (held_claim-IsHeld actor id s t q)))

pub complete-Effect :
    (l : Limits) (actor : RunnerTaskActor) (id text : String) (now : ℕ) (s : TaskRuntime)
    → Effect l s (completes actor id text now) (from_state s (complete actor id text now s)).1
unfolding complete
complete-Effect l actor id text now s =
    let e = completes actor id text now in
    check-Effect l s e (assert_accepting s) _ (λ u p.
      check-Effect l s e (assert_coordination_text text result) _ (λ _ _.
        chain-Effect l s e (held_claim actor id s) _ (λ t q.
          completes_task actor id text now t (assert_accepting-ok s u p)
            (held_claim-IsHeld actor id s t q))))

pub fail-Effect :
    (l : Limits) (actor : RunnerTaskActor) (id text : String) (now : ℕ) (s : TaskRuntime)
    → Effect l s (fails actor id text now) (from_state s (fail actor id text now s)).1
unfolding fail
fail-Effect l actor id text now s =
    let e = fails actor id text now in
    check-Effect l s e (assert_accepting s) _ (λ u p.
      check-Effect l s e (assert_coordination_text text failure) _ (λ _ _.
        chain-Effect l s e (held_claim actor id s) _ (λ t q.
          fails_task actor id text now t (assert_accepting-ok s u p)
            (held_claim-IsHeld actor id s t q))))

pub cancel_coordination-Effect :
    (l : Limits) (actor : RunnerTaskActor) (id : String) (now : ℕ) (s : TaskRuntime)
    → Effect l s (cancels actor id now) (from_state s (cancel_coordination actor id now s)).1
unfolding cancel_coordination withdraw_found
cancel_coordination-Effect l actor id now s =
    let e = cancels actor id now in
    chain-Effect l s e (lookup_coordination actor id s) _ (λ t q.
      check-Effect l s e
        (throw_if (not (t.created_by_client_id == actor.client_id)) (task_error task_forbidden)) _
        (λ u p. elim (Bool-cases (is_over t.state)) [
          | inl g ↦ subst (Effect l s e) {x = s} (ground arith) (nothing e)
          | inr g ↦ subst (Effect l s e) (ground arith) (
              withdraws_task actor id now t (lookup_coordination-IsSeen actor id s t q)
                (ground (arith, eq_iff t.created_by_client_id actor.client_id)) g)
        ]))
