-- ===== src/Debate/Tests.antt =====
-- A debate of two agents on concrete inputs, and the theorems at these inputs.
use slnc_tr_z_mcp.Prelude.{
  String, true, false, none, some, List, [], ◌∷◌, ◌≡◌, refl, arith, ok, err, eq_iff, first, select,
  any, update, delete, sort_by,
}
use slnc_tr_z_mcp.Debate.Types.{
  creator, stopped, DebateMemberAuth, DebateRow, DebateSendResult, debate_error, sequence_conflict,
}
use slnc_tr_z_mcp.Debate.Database.{
  Database, debate_row, participants_of, messages_of, require_debate, participant_by_role,
  participant_by_id, other_participant, message_by_client_id, message_at, insert_debate,
  insert_participant, insert_message, participant_clashes, message_clashes, update_debate,
  delete_debate, safe_equal_hex, participant_before,
}
use slnc_tr_z_mcp.Debate.Database.Views.{SameView}
use slnc_tr_z_mcp.Debate.Store.{
  create, join, read_member, transaction, snapshot, snapshot_from_row, verify_membership,
  expire_if_due, DebateStore, pause_due,
}
use slnc_tr_z_mcp.Debate.Store.Send.{SendRecord, send}
use slnc_tr_z_mcp.Debate.Store.Owner.{stop_member}
use slnc_tr_z_mcp.Debate.Invariant.{Inv}
use slnc_tr_z_mcp.Debate.History.{
  Call, creates, joins, reads, sends, stops, step, run, empty_store, run-Inv,
}
use slnc_tr_z_mcp.Debate.Isolation.{step-SameView}
use slnc_tr_z_mcp.Debate.Progress.{is_caller_error, send-is_caller_error}
use slnc_tr_z_mcp.Debate.Speaking.{Spoken}
use slnc_tr_z_mcp.Debate.Turns.{IsMember, send-IsSpoken, send-again, again}
use slnc_tr_z_mcp.Debate.Ended.{step-ended}

store : Unit {0}
unfolding step run empty_store transaction create join read_member send stop_member snapshot
    snapshot_from_row verify_membership expire_if_due debate_row participants_of messages_of
    require_debate participant_by_role participant_by_id other_participant message_by_client_id
    message_at insert_debate insert_participant insert_message participant_clashes message_clashes
    update_debate delete_debate safe_equal_hex participant_before first select any update delete
    sort_by
store = tt

abbrev hash : String
hash = "0123456789abcdef0123456789abcdef0123456789abcdef0123456789abcdef"

abbrev opened : Call
opened = creates (record {
  debate_id = "d1";
  participant_id = "p1";
  topic = "Tabs or spaces";
  nickname = "Ann";
  connection_id = "c1";
  membership_hash = hash;
  max_turns = 3;
  finalizer_role = creator;
  now = 1000;
})

abbrev joined : Call
joined = joins (record {
  debate_id = "d1";
  participant_id = "p2";
  nickname = "Bob";
  connection_id = "c2";
  membership_hash = hash;
  now = 2000;
  pickup_deadline_at = 5000;
})

abbrev ann : DebateMemberAuth
ann = record {
  debate_id = "d1";
  participant_id = "p1";
  membership_credential = "secret";
  connection_id = "c1";
}

abbrev picked_up : Call
picked_up = reads (record {
  auth = ann;
  membership_hash = hash;
  now_ms = 3000;
  now = 3000;
  response_deadline_at = 9000;
  after_sequence = none;
})

abbrev hello : SendRecord
hello = record {
  auth = ann;
  membership_hash = hash;
  expected_sequence = 0;
  expected_turn_participant_id = "p1";
  client_message_id = "m1";
  content = "Tabs.";
  content_hash = "h1";
  now_ms = 4000;
  now = 4000;
  next_pickup_deadline_at = 8000;
}

abbrev history : List Call
history = opened ∷ joined ∷ picked_up ∷ []

-- The tables after the history above, as they are computed.
abbrev ready : Database
ready = (run empty_store history).database

sent_hello :
    (x : DebateSendResult) × (after : Database) × (send hello ready ≡ ok (x, after))
    × (x.idempotent_replay ≡ false)
    × (x.message.sequence ≡ 1)
unfolding store
sent_hello = (_, _, refl, refl, refl)

too_early :
    (transaction (send (record hello { expected_sequence = 4 })) (run empty_store history)).0
    ≡ err (debate_error sequence_conflict)
unfolding store
too_early = refl

still_open : (run empty_store history).closed ≡ false
unfolding store
still_open = refl

run-Inv_example : Inv (run empty_store history).database
run-Inv_example = run-Inv history (omega arith, (tt, (tt, tt)))

-- A second debate does not see what is said in the first.
step-SameView_example : SameView "d2" ready (step (run empty_store history) (sends hello)).database
step-SameView_example =
    step-SameView (run empty_store history) (sends hello) "d1" "d2" tt refl
      (λ e. ground (arith, eq_iff "d2" "d1"))

send-is_caller_error_example : is_caller_error (debate_error sequence_conflict) ≡ true
send-is_caller_error_example =
    send-is_caller_error history (record hello { expected_sequence = 4 })
      (debate_error sequence_conflict) (omega arith, (tt, (tt, tt))) still_open too_early

send-IsSpoken_example :
    IsMember ann hash ready
    × ((d : DebateRow) × Spoken hello ready sent_hello.1 sent_hello.0 d × (pause_due d 4000 ≡ none))
send-IsSpoken_example =
    send-IsSpoken hello ready sent_hello.0 sent_hello.1 sent_hello.2 sent_hello.3

-- Sent again long after the deadlines.
send-again_example :
    (y : DebateSendResult) × (last : Database) × (send (again hello 99000 99000 100000) sent_hello.1
      ≡ ok (y, last))
    × (y.idempotent_replay ≡ true)
    × (y.message ≡ sent_hello.0.message)
    × (messages_of "d1" last ≡ messages_of "d1" sent_hello.1)
send-again_example =
    send-again hello ready sent_hello.0 sent_hello.1 sent_hello.2 sent_hello.3 99000 99000 100000

abbrev left : Call
left = stops (record { auth = ann; membership_hash = hash; now_ms = 4500; now = 4500 })

abbrev over : DebateStore
over = run empty_store (opened ∷ joined ∷ picked_up ∷ left ∷ [])

over_row : (d : DebateRow) × (debate_row "d1" over.database ≡ some d) × (d.status ≡ stopped)
unfolding store
over_row = (_, refl, refl)

step-ended_example : SameView "d1" over.database (step over (sends hello)).database
step-ended_example =
    step-ended over "d1" over_row.0 over_row.1 (rw over_row.2) (sends hello) tt (λ h. h)
