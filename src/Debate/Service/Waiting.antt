-- ===== src/Debate/Service/Waiting.antt =====
-- src/debate/service.ts: `wait`. What happens while the loop sleeps is a list of rounds: for each turn
-- of the loop the service as the two reads find it, the clocks, and how the sleep ended.
use slnc_tr_z_mcp.Prelude.{
  ℕ, ◌+◌, ◌-◌, min, max, String, Bool, true, false, ◌||◌, Option, none, some, List, [], ◌∷◌, Result,
  ok, err, ◌>>=◌, ◌>>◌, ltb, leb, if◌then◌else◌, ◌==◌,
}
use slnc_tr_z_mcp.Debate.Types.{
  DebateMemberAuth, DebateSnapshot, DebateStatus, waiting, active, Thrown, debate_error,
  wait_cancelled,
}
use slnc_tr_z_mcp.Debate.Store.{MemberReadResult}
use slnc_tr_z_mcp.Debate.Service.{
  DebateService, max_safe_integer, safe_integer, ensure_open, validate_auth, read,
}

pub record DebateWaitResult : Type 0 where
  pub debate : DebateSnapshot
  pub timed_out : Bool

-- What the turn of a participant depends on.
abbrev pub is_turn_of : String → Option String → Bool
is_turn_of id none = false
is_turn_of id (some current) = current == id

abbrev pub needs_action : DebateStatus → Bool → Bool
needs_action waiting mine = false
needs_action active mine = mine
needs_action _ mine = true

unfoldable pub wait_actionable : DebateSnapshot → String → ℕ → Bool
wait_actionable debate participant_id after_sequence =
    ltb after_sequence debate.sequence
    || needs_action debate.status (is_turn_of participant_id debate.current_participant_id)

abbrev pub deadline_of : DebateSnapshot → Option ℕ
deadline_of debate = elim debate.turn_acknowledged_at [
  | none ↦ debate.pickup_deadline_at
  | some at ↦ debate.response_deadline_at
]

abbrev pub remaining_at : ℕ → Option ℕ → Option ℕ
remaining_at now_ms none = none
remaining_at now_ms (some deadline) = some (deadline - now_ms)

abbrev pub if_active : DebateStatus → Option ℕ → Option ℕ
if_active active remaining = remaining
if_active _ remaining = none

-- `Math.max(0, parsed - nowMs)` is the difference on natural numbers.
unfoldable pub durable_wait_remaining : DebateSnapshot → ℕ → Option ℕ
durable_wait_remaining debate now_ms =
    if_active debate.status (remaining_at now_ms (deadline_of debate))

abbrev pub plus_one : Option ℕ → ℕ
plus_one none = max_safe_integer
plus_one (some n) = n + 1

unfoldable pub sleep_ms : ℕ → DebateSnapshot → ℕ → ℕ → ℕ
unfolding durable_wait_remaining
sleep_ms deadline debate now_ms clock =
    max 1 (min (deadline - clock) (plus_one (durable_wait_remaining debate now_ms)))

-- How `awaitRegistration` ends.
pub data WaitEnd : Type 0 where
  notified timed_out_sleep aborted : WaitEnd

-- One turn of the loop, as the event loop lets it happen.
pub record WaitRound : Type 0 where
  pub aborted_before : Bool
  pub clock : ℕ
  pub before : DebateService
  pub before_ms : ℕ
  pub sleep_now_ms : ℕ
  pub sleep_clock : ℕ
  pub ending : WaitEnd
  pub after : DebateService
  pub after_ms : ℕ
  pub end_clock : ℕ

abbrev pub cancelled : Thrown
cancelled = debate_error wait_cancelled

abbrev pub answer : DebateSnapshot → Bool → Result Thrown DebateWaitResult
answer debate timed_out = ok (record { debate = debate; timed_out = timed_out })

module _ (sha256 : String → String) (auth : DebateMemberAuth) (after_sequence deadline : ℕ) where
  abbrev pub actionable : DebateSnapshot → Bool
  actionable debate = wait_actionable debate auth.participant_id after_sequence

  -- The second read, after the sleep: what the loop answers, or the debate that it goes on with.
  unfoldable pub awake :
      WaitRound
      → Result Thrown MemberReadResult
      → (DebateSnapshot → Option (Result Thrown DebateWaitResult))
      → Option (Result Thrown DebateWaitResult)
  awake r (err e) rest = some (err e)
  awake r (ok y) rest =
      if actionable y.debate
      then some (answer y.debate false)
      else if leb deadline r.end_clock
      then some (answer y.debate true)
      else rest y.debate

  -- The first read, after the registration, and the sleep.
  unfoldable pub registered :
      WaitRound
      → Result Thrown MemberReadResult
      → (DebateSnapshot → Option (Result Thrown DebateWaitResult))
      → Option (Result Thrown DebateWaitResult)
  unfolding awake
  registered r (err e) rest = some (err e)
  registered r (ok x) rest =
      if actionable x.debate then some (answer x.debate false) else elim r.ending [
        | aborted ↦ some (err cancelled)
        | notified ↦ awake r (read sha256 auth (some after_sequence) r.after_ms r.after).0 rest
        | timed_out_sleep ↦
            awake r (read sha256 auth (some after_sequence) r.after_ms r.after).0 rest
      ]

  -- The loop; without an answer it still sleeps after the rounds.
  unfoldable pub wait_loop :
      DebateSnapshot → List WaitRound → Option (Result Thrown DebateWaitResult)
  unfolding registered
  wait_loop debate [] = none
  wait_loop debate (r ∷ rs) =
      if r.aborted_before
      then some (err cancelled)
      else if leb deadline r.clock
      then some (answer debate true)
      else registered r (read sha256 auth (some after_sequence) r.before_ms r.before).0
          (λ y. wait_loop y rs)

pub record DebateWaitInput : Type 0 where
  pub auth : DebateMemberAuth
  pub after_sequence : ℕ
  pub max_wait_ms : Option ℕ

-- `requestWaitDuration`, with the configured `requestWaitMs`.
abbrev pub request_wait_duration : Option ℕ → ℕ → Result Thrown ℕ
request_wait_duration none configured = ok configured
request_wait_duration (some value) configured = safe_integer value 1 configured

pub record WaitRequest : Type 0 where
  pub auth : DebateMemberAuth
  pub after_sequence : ℕ
  pub max_wait_ms : ℕ

unfoldable pub wait_request : DebateWaitInput → ℕ → DebateService → Result Thrown WaitRequest
unfolding safe_integer
wait_request input request_wait_ms s = do
  ensure_open s
  auth ← validate_auth input.auth
  after_sequence ← safe_integer input.after_sequence 0 max_safe_integer
  max_wait_ms ← request_wait_duration input.max_wait_ms request_wait_ms
  ok (record { auth = auth; after_sequence = after_sequence; max_wait_ms = max_wait_ms })

-- The read before the loop, and the loop.
unfoldable pub first_read :
    (String → String)
    → WaitRequest
    → ℕ
    → List WaitRound
    → Result Thrown MemberReadResult
    → Option (Result Thrown DebateWaitResult)
unfolding wait_loop
first_read sha256 q clock rounds (err e) = some (err e)
first_read sha256 q clock rounds (ok x) =
    if wait_actionable x.debate q.auth.participant_id q.after_sequence
    then some (answer x.debate false)
    else wait_loop sha256 q.auth q.after_sequence (clock + q.max_wait_ms) x.debate rounds

unfoldable pub start_wait :
    (String → String)
    → Result Thrown WaitRequest
    → ℕ
    → ℕ
    → DebateService
    → List WaitRound
    → Option (Result Thrown DebateWaitResult)
unfolding first_read
start_wait sha256 (err e) now_ms clock s rounds = some (err e)
start_wait sha256 (ok q) now_ms clock s rounds =
    first_read sha256 q clock rounds (read sha256 q.auth (some q.after_sequence) now_ms s).0

unfoldable pub wait :
    (String → String)
    → DebateWaitInput
    → ℕ
    → ℕ
    → ℕ
    → DebateService
    → List WaitRound
    → Option (Result Thrown DebateWaitResult)
unfolding start_wait
wait sha256 input request_wait_ms now_ms clock s rounds =
    start_wait sha256 (wait_request input request_wait_ms s) now_ms clock s rounds
