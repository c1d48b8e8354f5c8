-- ===== src/Debate/Service/Tests.antt =====
-- Runs of the Debate service (src/debate/service.ts) at concrete inputs.
use slnc_tr_z_mcp.Prelude.{arith, sort_by, first, select, any, update, delete, some}
use slnc_tr_z_mcp.Debate.Types.{waiting, DebateMemberAuth}
use slnc_tr_z_mcp.Debate.Store
use slnc_tr_z_mcp.Debate.Store.{
  transaction, read_member, snapshot, snapshot_from_row, verify_membership, expire_if_due,
  pause_due,
}
use slnc_tr_z_mcp.Debate.Database.{
  debate_row, participants_of, messages_of, require_debate, participant_by_role, participant_by_id,
  insert_debate, insert_participant, participant_clashes, update_debate, safe_equal_hex,
  participant_before,
}
use slnc_tr_z_mcp.Debate.Service.{
  Thrown, not, true, Result, DebateSnapshot, read, read_record, optional_sequence, validate_auth,
}
use slnc_tr_z_mcp.Debate.Service.History.{serve}
use slnc_tr_z_mcp.Debate.Service.Waiting.{
  wait, wait_request, start_wait, first_read, wait_loop, registered, awake, wait_actionable,
  sleep_ms, durable_wait_remaining, WaitRound, WaitRequest, DebateWaitInput, DebateWaitResult,
  notified, timed_out_sleep,
}
use slnc_tr_z_mcp.Debate.Service.Waits.{wait-answers, wait-IsTruthful, IsClocked}
use slnc_tr_z_mcp.Prelude.{
  String, none, List, [], ◌∷◌, false, ◌≡◌, refl, ok, err, trim, trim_start, trim_end, utf16_length,
}
use slnc_tr_z_mcp.Debate.Types.{creator, debate_error, invalid_input}
use slnc_tr_z_mcp.Debate.Invariant.{Inv}
use slnc_tr_z_mcp.Debate.History.{empty_store}
use slnc_tr_z_mcp.Debate.Service.{
  DebateService, new_service, safe_integer, DebateCreateInput, Generated, create, create_record,
  ensure_open, bounded_trimmed, bounded_text,
}
use slnc_tr_z_mcp.Debate.Service.History.{
  ServiceCall, asks_create, asks_join, serve_all, serve_all-Inv,
}

-- A digest for the tests.
abbrev digest : String → String
digest text = text

abbrev service : DebateService
service = record {
  store = empty_store;
  closed = false;
  pickup_timeout_ms = 120000;
  response_timeout_ms = 900000;
  notified = [];
}

service_made : new_service empty_store none none none ≡ ok service
unfolding new_service safe_integer
service_made = refl

abbrev topic : DebateCreateInput
topic = record {
  topic = " Tabs or spaces ";
  nickname = "Ann";
  connection_id = "c1";
  max_turns = 3;
  finalizer_role = creator;
}

abbrev generated : Generated
generated = record { debate_id = "d1"; participant_id = "p1"; credential = "secret"; now_ms = 1000 }

-- Two turns are too few for the service.
too_short :
    (create digest (record topic { max_turns = 2 }) generated service).0
    ≡ err (debate_error invalid_input)
unfolding create create_record ensure_open bounded_trimmed bounded_text trim trim_start trim_end
    utf16_length safe_integer
too_short = refl

abbrev asked : List ServiceCall
asked =
    asks_create topic generated
    ∷ asks_join "d1" "Bob" "c2" (record generated { participant_id = "p2" })
    ∷ []

serve_all-Inv_example : Inv (serve_all digest service asked).store.database
serve_all-Inv_example = serve_all-Inv digest none none none service asked service_made

-- What a wait runs through.
wait_run : Unit {0}
unfolding create create_record ensure_open bounded_trimmed bounded_text trim trim_start trim_end
    utf16_length safe_integer serve serve_all empty_store transaction Store.create read read_record
    optional_sequence read_member snapshot snapshot_from_row verify_membership expire_if_due
    debate_row participants_of messages_of require_debate participant_by_role participant_by_id
    insert_debate insert_participant participant_clashes update_debate safe_equal_hex
    participant_before first select any update delete sort_by validate_auth wait wait_request
    start_wait first_read wait_loop registered awake wait_actionable sleep_ms durable_wait_remaining
    pause_due
wait_run = tt

abbrev same_digest : String → String
same_digest text = "0123456789abcdef0123456789abcdef0123456789abcdef0123456789abcdef"

-- Ann is alone in her debate.
abbrev alone : DebateService
alone = serve same_digest service (asks_create topic generated)

abbrev ann : DebateMemberAuth
ann = record {
  debate_id = "d1";
  participant_id = "p1";
  membership_credential = "secret";
  connection_id = "c1";
}

abbrev waits_input : DebateWaitInput
waits_input = record { auth = ann; after_sequence = 0; max_wait_ms = some 2 }

abbrev request : WaitRequest
request = record { auth = ann; after_sequence = 0; max_wait_ms = 2 }

request_made : wait_request waits_input 20000 alone ≡ ok request
unfolding wait_run
request_made = refl

-- A wake-up, and a sleep until the deadline; the second timer runs late.
abbrev woken : WaitRound
woken = record {
  aborted_before = false;
  clock = 5000;
  before = alone;
  before_ms = 5000;
  sleep_now_ms = 5000;
  sleep_clock = 5000;
  ending = notified;
  after = alone;
  after_ms = 5001;
  end_clock = 5001;
}

abbrev slept : WaitRound
slept = record woken {
  clock = 5001;
  sleep_clock = 5001;
  ending = timed_out_sleep;
  end_clock = 5003;
}

abbrev wait_rounds : List WaitRound
wait_rounds =
    woken ∷ slept ∷ record slept { clock = 5003; sleep_clock = 5003; end_clock = 5004 } ∷ []

abbrev alone_debate : DebateSnapshot
alone_debate = record {
  debate_id = "d1";
  topic = "Tabs or spaces";
  status = waiting;
  sequence = 0;
  max_turns = 3;
  completed_turns = 0;
  finalizer_role = creator;
  finalizer_participant_id = some "p1";
  current_participant_id = none;
  turn_assigned_at = none;
  pickup_deadline_at = none;
  turn_acknowledged_at = none;
  response_deadline_at = none;
  pause_reason = none;
  created_at = 1000;
  updated_at = 1000;
  completed_at = none;
  stopped_at = none;
  participants =
      record { participant_id = "p1"; nickname = "Ann"; role = creator; joined_at = 1000 } ∷ [];
  messages = [];
}

read-alone :
    (read same_digest ann (some 0) 5000 alone).0
    ≡ ok (record { debate = alone_debate; changed = false })
unfolding wait_run
read-alone = refl

is_clocked : IsClocked same_digest ann 0 5002 5000 wait_rounds
unfolding wait_run
is_clocked = (omega arith, omega arith, (omega arith, omega arith, (omega arith, omega arith, tt)))

wait-answers_example :
    (x : Result Thrown DebateWaitResult) × (wait same_digest waits_input 20000 5000 5000 alone
        wait_rounds
      ≡ some x)
wait-answers_example =
    wait-answers same_digest waits_input 20000 5000 5000 alone request woken
      (slept ∷ record slept { clock = 5003; sleep_clock = 5003; end_clock = 5004 } ∷ [])
      request_made is_clocked (omega arith)

waited :
    wait same_digest waits_input 20000 5000 5000 alone wait_rounds
    ≡ some (ok (record { debate = alone_debate; timed_out = true }))
unfolding wait_run
waited = refl

wait-IsTruthful_example : true ≡ not (wait_actionable alone_debate "p1" 0)
wait-IsTruthful_example =
    wait-IsTruthful same_digest waits_input 20000 5000 5000 alone request wait_rounds
      (record { debate = alone_debate; timed_out = true }) request_made waited
