-- ===== src/Debate/Store/Send.antt =====
-- `DebateStore.send` of src/debate/store.ts: the replay of a message that was sent before, the turn
-- checks, and the commit of a new message with the hand-over of the turn.
use slnc_tr_z_mcp.Prelude.{
  ℕ, ◌+◌, String, Bool, true, false, not, ◌&&◌, ◌||◌, Option, none, some, ◌==◌, Result, ok, ◌>>=◌,
  ◌>>◌, throw_if, or_throw, eqb, if◌then◌else◌,
}
use slnc_tr_z_mcp.Debate.Types.{
  active, completed, DebateRow, ParticipantRow, MessageRow, DebateSendResult, DebateMemberAuth,
  DebateParticipantRole, is_active, Thrown, debate_error, debate_invariant_failed,
  debate_not_writable, sequence_conflict, turn_conflict, turn_not_acknowledged,
  idempotency_conflict,
}
use slnc_tr_z_mcp.Debate.Database.{
  Database, require_debate, participant_by_role, other_participant, message_by_client_id,
  message_at, insert_message, update_debate,
}
use slnc_tr_z_mcp.Debate.Store.{
  Body, snapshot, snapshot_from_row, as_message, verify_membership, expire_if_due, is_id, is_none,
}

pub record SendRecord : Type 0 where
  pub auth : DebateMemberAuth
  pub membership_hash : String
  pub expected_sequence : ℕ
  pub expected_turn_participant_id : String
  pub client_message_id : String
  pub content : String
  pub content_hash : String
  pub now_ms : ℕ
  pub now : ℕ
  pub next_pickup_deadline_at : ℕ

abbrev pub when_final {ℓ} : {A : Type ℓ} → Bool → A → Option A
when_final true a = some a
when_final false a = none

-- The row that `#snapshotForSendReplay` puts in place of the current one.
unfoldable pub replay_row : DebateRow → MessageRow → DebateRow
replay_row current m = record current {
  status = if m.is_final then completed else active;
  sequence = m.sequence;
  completed_turns = m.sequence;
  current_participant_id = m.result_current_participant_id;
  turn_assigned_at = when_final (not m.is_final) m.created_at;
  pickup_deadline_at = m.result_pickup_deadline_at;
  turn_acknowledged_at = none;
  response_deadline_at = none;
  pause_reason = none;
  updated_at = m.created_at;
  completed_at = when_final m.is_final m.created_at;
  stopped_at = none;
}

-- `record.expectedSequence === existing.sequence - 1` and the other two comparisons.
unfoldable pub same_payload : SendRecord → MessageRow → Bool
same_payload r m =
    m.content_hash == r.content_hash
    && eqb (r.expected_sequence + 1) m.sequence
    && r.expected_turn_participant_id == m.participant_id

unfoldable pub replay : SendRecord → MessageRow → Body DebateSendResult
unfolding same_payload replay_row
replay r m db = do
  throw_if (not (same_payload r m)) (debate_error idempotency_conflict)
  current ← require_debate r.auth.debate_id db
  ok (
    record {
      debate = snapshot_from_row (replay_row current m) none (some m.sequence) db;
      message = as_message m;
      idempotent_replay = true;
    },
    db,
  )

unfoldable pub next_participant :
    String → String → DebateParticipantRole → ℕ → ℕ → Database → Result Thrown ParticipantRow
next_participant id current finalizer_role next_completed max_turns db =
    if eqb (next_completed + 1) max_turns
    then or_throw (participant_by_role id finalizer_role db) (debate_error debate_invariant_failed)
    else or_throw (other_participant id current db) (debate_error debate_invariant_failed)

abbrev pub has_id : String → Option ParticipantRow → Bool
has_id pid none = false
has_id pid (some p) = p.participant_id == pid

-- The checks of a new message against the row of its debate.
unfoldable pub check_turn : SendRecord → DebateRow → Result Thrown (Unit {0})
check_turn r d = do
  throw_if (not (is_active d.status)) (debate_error debate_not_writable)
  throw_if (not (eqb d.sequence r.expected_sequence)) (debate_error sequence_conflict)
  throw_if
      (not (is_id d.current_participant_id r.expected_turn_participant_id)
        || not (is_id d.current_participant_id r.auth.participant_id))
      (debate_error turn_conflict)
  throw_if (is_none d.turn_acknowledged_at || is_none d.response_deadline_at)
      (debate_error turn_not_acknowledged)

-- The row of a new message; `next` is the participant whose turn follows, none for the last one.
unfoldable pub new_message : SendRecord → ParticipantRow → DebateRow → Option String → MessageRow
new_message r author d next = record {
  debate_id = r.auth.debate_id;
  sequence = d.sequence + 1;
  participant_id = r.auth.participant_id;
  author_nickname = author.nickname;
  client_message_id = r.client_message_id;
  content = r.content;
  content_hash = r.content_hash;
  is_final = is_none next;
  result_current_participant_id = next;
  result_pickup_deadline_at = when_final (not (is_none next)) r.next_pickup_deadline_at;
  created_at = r.now;
}

-- The update of a debate whose last message was sent: its two counters, and the close.
abbrev pub finish : SendRecord → ℕ → ℕ → DebateRow → DebateRow
finish r sequence turns d = record d {
  status = completed;
  sequence = sequence;
  completed_turns = turns;
  current_participant_id = none;
  turn_assigned_at = none;
  pickup_deadline_at = none;
  turn_acknowledged_at = none;
  response_deadline_at = none;
  pause_reason = none;
  completed_at = some r.now;
  updated_at = r.now;
}

abbrev pub pass_turn : SendRecord → String → ℕ → ℕ → DebateRow → DebateRow
pass_turn r next sequence turns d = record d {
  sequence = sequence;
  completed_turns = turns;
  current_participant_id = some next;
  turn_assigned_at = some r.now;
  pickup_deadline_at = some r.next_pickup_deadline_at;
  turn_acknowledged_at = none;
  response_deadline_at = none;
  pause_reason = none;
  updated_at = r.now;
}

-- Inserts the message, moves the debate on, and reads both back.
unfoldable pub commit : SendRecord → MessageRow → (DebateRow → DebateRow) → Body DebateSendResult
commit r m move db = do
  sent ← insert_message m db
  let moved = update_debate r.auth.debate_id (λ d. true) move sent
  message ←
      or_throw (message_at r.auth.debate_id m.sequence moved) (debate_error debate_invariant_failed)
  (debate, after) ← snapshot r.auth.debate_id none moved
  ok (record { debate = debate; message = as_message message; idempotent_replay = false }, after)

unfoldable pub send_final : SendRecord → ParticipantRow → DebateRow → Body DebateSendResult
unfolding new_message commit
send_final r author d db = do
  throw_if
      (not
        (has_id r.auth.participant_id (participant_by_role r.auth.debate_id d.finalizer_role db)))
      (debate_error debate_invariant_failed)
  commit r (new_message r author d none) (finish r (d.sequence + 1) (d.completed_turns + 1)) db

unfoldable pub send_turn : SendRecord → ParticipantRow → DebateRow → Body DebateSendResult
unfolding next_participant new_message commit
send_turn r author d db = do
  next ←
      next_participant r.auth.debate_id r.auth.participant_id d.finalizer_role
        (d.completed_turns + 1) d.max_turns db
  commit r (new_message r author d (some next.participant_id))
      (pass_turn r next.participant_id (d.sequence + 1) (d.completed_turns + 1)) db

unfoldable pub send_new : SendRecord → ParticipantRow → Body DebateSendResult
unfolding check_turn send_final send_turn
send_new r author db = do
  d ← require_debate r.auth.debate_id db
  check_turn r d
  if eqb (d.completed_turns + 1) d.max_turns
      then send_final r author d db
      else send_turn r author d db

unfoldable pub send : SendRecord → Body DebateSendResult
unfolding replay send_new
send r db = do
  author ← verify_membership r.auth r.membership_hash db
  (_, expired_db) ← expire_if_due r.auth.debate_id r.now_ms r.now db
  elim (message_by_client_id r.auth.debate_id r.auth.participant_id r.client_message_id
      expired_db) [
        | none ↦ send_new r author expired_db
        | some existing ↦ replay r existing expired_db
      ]
