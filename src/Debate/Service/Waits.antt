-- ===== src/Debate/Service/Waits.antt =====
-- The wait of the Debate service (src/debate/service.ts) ends, and what it answers.
use slnc_tr_z_mcp.Prelude.{
  ℕ, ◌+◌, ◌≤◌, String, Bool, true, false, not, Option, some, List, [], ◌∷◌, ◌≡◌, arith, refl,
  Result, ok, err, leb, if◌then◌else◌, Bool-cases, Result-cases, inl, inr, subst,
}
use slnc_tr_z_mcp.Debate.Types.{DebateMemberAuth, DebateSnapshot, Thrown}
use slnc_tr_z_mcp.Debate.Store.{MemberReadResult}
use slnc_tr_z_mcp.Debate.Service.{DebateService, read}
use slnc_tr_z_mcp.Debate.Service.Waiting.{
  DebateWaitResult, WaitRound, WaitEnd, notified, timed_out_sleep, aborted, wait_actionable, answer,
  awake, cancelled, registered, wait_loop, sleep_ms, DebateWaitInput, WaitRequest, wait_request,
  first_read, start_wait, wait,
}

abbrev pub is_timeout : WaitEnd → Bool
is_timeout timed_out_sleep = true
is_timeout _ = false

-- The sleeps that a timer ended.
abbrev pub timer_sleeps : List WaitRound → ℕ
timer_sleeps [] = 0
timer_sleeps (r ∷ rs) = (if is_timeout r.ending then 1 else 0) + timer_sleeps rs

module _ (sha256 : String → String) (auth : DebateMemberAuth) (after_sequence deadline : ℕ) where
  -- What the loop asks the timer for, after its first read.
  abbrev pub asked_ms : WaitRound → ℕ
  asked_ms r = elim (read sha256 auth (some after_sequence) r.before_ms r.before).0 [
    | err e ↦ 0
    | ok x ↦ sleep_ms deadline x.debate r.sleep_now_ms r.sleep_clock
  ]

  -- The clock does not go back, and a timer takes the milliseconds that it was asked for.
  abbrev pub IsClocked : ℕ → List WaitRound → Type 0
  IsClocked start [] = Unit
  IsClocked start (r ∷ rs) =
      (start ≤ r.sleep_clock)
      × (r.sleep_clock + (if is_timeout r.ending then asked_ms r else 0) ≤ r.end_clock)
      × IsClocked r.end_clock rs

  -- An answer says that the time is over when there is nothing to act on, and only then.
  abbrev pub IsTruthful : Result Thrown DebateWaitResult → Type 0
  IsTruthful (err e) = Unit
  IsTruthful (ok x) =
      x.timed_out ≡ not (wait_actionable x.debate auth.participant_id after_sequence)

  -- A turn of the loop answers, or goes on with what it has read, before the deadline.
  data Goes (r : WaitRound) (rest : DebateSnapshot → Option (Result Thrown DebateWaitResult))
      : Option (Result Thrown DebateWaitResult) → Type 0 where
    ends : (x : Result Thrown DebateWaitResult) → IsTruthful x → Goes r rest (some x)
    goes_on :
        (x : MemberReadResult) (y : DebateSnapshot)
        → (read sha256 auth (some after_sequence) r.before_ms r.before).0 ≡ ok x
        → wait_actionable y auth.participant_id after_sequence ≡ false
        → leb deadline r.end_clock ≡ false
        → Goes r rest (rest y)

  branch-Goes :
      (r : WaitRound) (rest : DebateSnapshot → Option (Result Thrown DebateWaitResult)) (b : Bool)
      (x : Result Thrown DebateWaitResult) (o : Option (Result Thrown DebateWaitResult))
      → (b ≡ true → IsTruthful x)
      → (b ≡ false → Goes r rest o)
      → Goes r rest (if b then some x else o)
  branch-Goes r rest true x o k h = ends x (k refl)
  branch-Goes r rest false x o k h = h refl

  awake-Goes :
      (r : WaitRound) (x : MemberReadResult) (m : Result Thrown MemberReadResult)
      (rest : DebateSnapshot → Option (Result Thrown DebateWaitResult))
      → (read sha256 auth (some after_sequence) r.before_ms r.before).0 ≡ ok x
      → Goes r rest (awake sha256 auth after_sequence deadline r m rest)
  unfolding awake
  awake-Goes r x (err e) rest is = ends (err e) tt
  awake-Goes r x (ok y) rest is =
      branch-Goes r rest (wait_actionable y.debate auth.participant_id after_sequence) _ _
        (λ on. ground (arith, on))
        (λ idle.
          branch-Goes r rest (leb deadline r.end_clock) _ _ (λ _. ground (arith, idle))
            (λ early. goes_on x y.debate is idle early))

  ending-Goes :
      (r : WaitRound) (ending : WaitEnd)
      (rest : DebateSnapshot → Option (Result Thrown DebateWaitResult))
      (o : Option (Result Thrown DebateWaitResult))
      → Goes r rest o
      → Goes r rest
          (elim ending [ aborted ↦ some (err cancelled) | notified ↦ o | timed_out_sleep ↦ o ])
  ending-Goes r aborted rest o h = ends (err cancelled) tt
  ending-Goes r notified rest o h = h
  ending-Goes r timed_out_sleep rest o h = h

  registered-Goes :
      (r : WaitRound) (m : Result Thrown MemberReadResult)
      (rest : DebateSnapshot → Option (Result Thrown DebateWaitResult))
      → (read sha256 auth (some after_sequence) r.before_ms r.before).0 ≡ m
      → Goes r rest (registered sha256 auth after_sequence deadline r m rest)
  unfolding registered
  registered-Goes r (err e) rest is = ends (err e) tt
  registered-Goes r (ok x) rest is =
      branch-Goes r rest (wait_actionable x.debate auth.participant_id after_sequence) _ _
        (λ on. ground (arith, on))
        (λ idle.
          ending-Goes r r.ending rest _
            (awake-Goes r x (read sha256 auth (some after_sequence) r.after_ms r.after).0 rest is))

  turn-Goes :
      (debate : DebateSnapshot) (r : WaitRound) (rs : List WaitRound)
      → wait_actionable debate auth.participant_id after_sequence ≡ false
      → Goes r
          (λ y. wait_loop sha256 auth after_sequence deadline y rs)
          (wait_loop sha256 auth after_sequence deadline debate (r ∷ rs))
  unfolding wait_loop
  turn-Goes debate r rs idle =
      branch-Goes r _ r.aborted_before _ _ (λ _. tt)
        (λ _.
          branch-Goes r _ (leb deadline r.clock) _ _ (λ _. ground (arith, idle))
            (λ _.
              registered-Goes r (read sha256 auth (some after_sequence) r.before_ms r.before).0 _
                refl))

  at_least_one :
      (debate : DebateSnapshot) (now_ms clock : ℕ) → 1 ≤ sleep_ms deadline debate now_ms clock
  unfolding sleep_ms
  at_least_one debate now_ms clock = omega arith

  turned :
      (start : ℕ) (r : WaitRound) (rs : List WaitRound)
      (o : Option (Result Thrown DebateWaitResult))
      → Goes r (λ y. wait_loop sha256 auth after_sequence deadline y rs) o
      → IsClocked start (r ∷ rs)
      → deadline ≤ start + timer_sleeps (r ∷ rs)
      → ((y : DebateSnapshot)
          → wait_actionable y auth.participant_id after_sequence ≡ false
          → leb deadline r.end_clock ≡ false
          → deadline ≤ r.end_clock + timer_sleeps rs
          → (x : Result Thrown DebateWaitResult) × (wait_loop sha256 auth after_sequence deadline y
                rs
              ≡ some x))
      → (x : Result Thrown DebateWaitResult) × (o ≡ some x)
  turned start r rs o (ends x true_x) clocked enough next = (x, refl)
  turned start r rs o (goes_on x y is idle early) (before, slept, clocked) enough next =
      next y idle early (ground (arith, is, at_least_one x.debate r.sleep_now_ms r.sleep_clock))

  -- The loop answers once as many sleeps were ended by their timer as milliseconds are left.
  loop_ends :
      (start : ℕ) (debate : DebateSnapshot) (r : WaitRound) (rs : List WaitRound)
      → wait_actionable debate auth.participant_id after_sequence ≡ false
      → IsClocked start (r ∷ rs)
      → deadline ≤ start + timer_sleeps (r ∷ rs)
      → (x : Result Thrown DebateWaitResult) × (wait_loop sha256 auth after_sequence deadline debate
            (r ∷ rs)
          ≡ some x)
  loop_ends start debate r [] idle clocked enough =
      turned start r [] _ (turn-Goes debate r [] idle) clocked enough
        (λ y _ early left. absurd (ground (arith, early, left)))
  loop_ends start debate r (q ∷ qs) idle clocked enough =
      turned start r (q ∷ qs) _ (turn-Goes debate r (q ∷ qs) idle) clocked enough
        (λ y still early left. loop_ends r.end_clock y q qs still clocked.2 left)

  turned_true :
      (r : WaitRound) (rs : List WaitRound) (o : Option (Result Thrown DebateWaitResult))
      (x : Result Thrown DebateWaitResult)
      → Goes r (λ y. wait_loop sha256 auth after_sequence deadline y rs) o
      → ((y : DebateSnapshot)
          → wait_actionable y auth.participant_id after_sequence ≡ false
          → wait_loop sha256 auth after_sequence deadline y rs ≡ some x
          → IsTruthful x)
      → o ≡ some x
      → IsTruthful x
  turned_true r rs o x (ends z true_z) next e =
      subst IsTruthful {x = z} {y = x} (ground arith) true_z
  turned_true r rs o x (goes_on w y is idle early) next e = next y idle e

  loop-IsTruthful :
      (debate : DebateSnapshot) (rs : List WaitRound) (x : Result Thrown DebateWaitResult)
      → wait_actionable debate auth.participant_id after_sequence ≡ false
      → wait_loop sha256 auth after_sequence deadline debate rs ≡ some x
      → IsTruthful x
  unfolding wait_loop
  loop-IsTruthful debate [] x idle e = absurd (ground arith)
  loop-IsTruthful debate (r ∷ rs) x idle e =
      turned_true r rs _ x (turn-Goes debate r rs idle)
        (λ y still later. loop-IsTruthful y rs x still later) e

-- A wait ends: on any reads, wake-ups and cancellations, it answers or throws at the latest in the
-- round in which as many sleeps were ended by their timer as milliseconds were asked for. (The clock
-- does not go back, and a timer takes the milliseconds that it was asked for.)
pub wait-answers :
    (sha256 : String → String) (input : DebateWaitInput) (request_wait_ms now_ms clock : ℕ)
    (s : DebateService) (q : WaitRequest) (r : WaitRound) (rs : List WaitRound)
    → wait_request input request_wait_ms s ≡ ok q
    → IsClocked sha256 q.auth q.after_sequence (clock + q.max_wait_ms) clock (r ∷ rs)
    → q.max_wait_ms ≤ timer_sleeps (r ∷ rs)
    → (x : Result Thrown DebateWaitResult) × (wait sha256 input request_wait_ms now_ms clock s
          (r ∷ rs)
        ≡ some x)
unfolding wait start_wait
wait-answers sha256 input request_wait_ms now_ms clock s q r rs is clocked enough =
    rw is (first_answers (read sha256 q.auth (some q.after_sequence) now_ms s).0)
  where
    first_answers :
        (m : Result Thrown MemberReadResult)
        → (x : Result Thrown DebateWaitResult) × (first_read sha256 q clock (r ∷ rs) m ≡ some x)
    first_answers (err e) = (err e, unfold first_read in refl)
    first_answers (ok x) =
        unfold first_read in
        elim (Bool-cases (wait_actionable x.debate q.auth.participant_id q.after_sequence)) [
          | inl on ↦ (answer x.debate false, rw on)
          | inr idle ↦ rw idle (
              loop_ends sha256 q.auth q.after_sequence (clock + q.max_wait_ms) clock x.debate r rs
                idle clocked (omega (arith, enough)))
        ]

-- What a wait answers is a debate that the caller can act on, unless it says that the time is over,
-- and then there is nothing to act on.
pub wait-IsTruthful :
    (sha256 : String → String) (input : DebateWaitInput) (request_wait_ms now_ms clock : ℕ)
    (s : DebateService) (q : WaitRequest) (rs : List WaitRound) (x : DebateWaitResult)
    → wait_request input request_wait_ms s ≡ ok q
    → wait sha256 input request_wait_ms now_ms clock s rs ≡ some (ok x)
    → x.timed_out ≡ not (wait_actionable x.debate q.auth.participant_id q.after_sequence)
unfolding wait start_wait first_read
wait-IsTruthful sha256 input request_wait_ms now_ms clock s q rs x is e =
    elim (Result-cases (read sha256 q.auth (some q.after_sequence) now_ms s).0) [
      | inr (thrown, bad) ↦ absurd (ground (arith, is, bad))
      | inl (m, got) ↦
          elim (Bool-cases (wait_actionable m.debate q.auth.participant_id q.after_sequence)) [
            | inl on ↦ ground (arith, is, got, on)
            | inr idle ↦
                loop-IsTruthful sha256 q.auth q.after_sequence (clock + q.max_wait_ms) m.debate rs
                  (ok x) idle (ground (arith, is, got, idle))
          ]
    ]
