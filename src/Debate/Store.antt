-- ===== src/Debate/Store.antt =====
-- src/debate/store.ts: the methods of `DebateStore`, each in its transaction.
pub mod Send
pub mod Owner
use slnc_tr_z_mcp.Prelude.{
  ℕ, String, Bool, true, false, ◌&&◌, ◌||◌, Option, none, some, List, [], ◌∷◌, map, ◌==◌, Result,
  ok, err, ◌>>=◌, ◌>>◌, throw_if, or_throw, ltb, leb, if◌then◌else◌, not, first, select, sort_by,
}
use slnc_tr_z_mcp.Debate.Types.{
  DebateStatus, waiting, active, paused_timeout, stopped, completed, DebateParticipantRole, creator,
  joiner, DebatePauseReason, pickup_timeout, response_timeout, role_eq, is_active, is_waiting,
  DebateRow, ParticipantRow, MessageRow, DebateParticipant, DebateMessage, DebateSnapshot,
  DebateMemberAuth, Thrown, debate_error, membership_invalid, debate_already_joined,
  debate_invariant_failed, same_connection_not_allowed, debate_not_writable, debate_store_closed,
}
use slnc_tr_z_mcp.Debate.Database.{
  Database, require_debate, participants_of, messages_of, participant_by_role, participant_by_id,
  insert_debate, insert_participant, update_debate, safe_equal_hex, participant_before,
}

-- What the body of a transaction does: a result and the new tables, or an error thrown.
abbrev pub Body : Type 0 → Type 0
Body A = Database → Result Thrown (A × Database)

pub record DebateStore : Type 0 where
  pub database : Database
  pub closed : Bool

-- `#transaction` and `#assertOpen`: an error rolls the tables back.
unfoldable pub transaction : {A : Type 0} → Body A → DebateStore → Result Thrown A × DebateStore
transaction body s =
    if s.closed then (err (debate_error debate_store_closed), s) else elim (body s.database) [
      | ok (a, db) ↦ (ok a, record s { database = db })
      | err e ↦ (err e, s)
    ]

unfoldable pub close : DebateStore → DebateStore
close s = if s.closed then s else record s { closed = true }

unfoldable pub as_participant : ParticipantRow → DebateParticipant
as_participant row = record {
  participant_id = row.participant_id;
  nickname = row.nickname;
  role = row.role;
  joined_at = row.joined_at;
}

unfoldable pub as_message : MessageRow → DebateMessage
as_message row = record {
  sequence = row.sequence;
  participant_id = row.participant_id;
  nickname = row.author_nickname;
  client_message_id = row.client_message_id;
  content = row.content;
  is_final = row.is_final;
  created_at = row.created_at;
}

abbrev pub option_or {ℓ} : {A : Type ℓ} → Option A → A → A
option_or none d = d
option_or (some a) d = a

abbrev pub participant_id_of : Option ParticipantRow → Option String
participant_id_of none = none
participant_id_of (some p) = some p.participant_id

abbrev pub sequence_before : MessageRow → MessageRow → Bool
sequence_before a b = ltb a.sequence b.sequence

abbrev pub at_most : Option ℕ → ℕ → Bool
at_most none n = true
at_most (some through) n = leb n through

-- The messages above `after_sequence`, and up to `through_sequence` where that is given.
unfoldable pub messages_between : String → Option ℕ → Option ℕ → Database → List MessageRow
messages_between id after_sequence through_sequence db = sort_by sequence_before (
    select (λ m. ltb (option_or after_sequence 0) m.sequence && at_most through_sequence m.sequence)
      (messages_of id db))

unfoldable pub snapshot_from_row : DebateRow → Option ℕ → Option ℕ → Database → DebateSnapshot
unfolding as_participant as_message messages_between
snapshot_from_row row after_sequence through_sequence db =
    let participants = sort_by participant_before (participants_of row.debate_id db) in
    let finalizer = first (λ p. role_eq p.role row.finalizer_role) participants in
    record {
      debate_id = row.debate_id;
      topic = row.topic;
      status = row.status;
      sequence = row.sequence;
      max_turns = row.max_turns;
      completed_turns = row.completed_turns;
      finalizer_role = row.finalizer_role;
      finalizer_participant_id = participant_id_of finalizer;
      current_participant_id = row.current_participant_id;
      turn_assigned_at = row.turn_assigned_at;
      pickup_deadline_at = row.pickup_deadline_at;
      turn_acknowledged_at = row.turn_acknowledged_at;
      response_deadline_at = row.response_deadline_at;
      pause_reason = row.pause_reason;
      created_at = row.created_at;
      updated_at = row.updated_at;
      completed_at = row.completed_at;
      stopped_at = row.stopped_at;
      participants = map as_participant participants;
      messages = map as_message (messages_between row.debate_id after_sequence through_sequence db);
    }

unfoldable pub snapshot : String → Option ℕ → Body DebateSnapshot
snapshot id after_sequence db = do
  row ← require_debate id db
  ok (snapshot_from_row row after_sequence none db, db)

unfoldable pub verify_membership :
    DebateMemberAuth → String → Database → Result Thrown ParticipantRow
verify_membership auth membership_hash db = do
  p ←
      or_throw (participant_by_id auth.debate_id auth.participant_id db)
        (debate_error membership_invalid)
  throw_if
      (not (p.connection_id == auth.connection_id)
        || not (safe_equal_hex p.membership_hash membership_hash))
      (debate_error membership_invalid)
  ok p

abbrev pub due : Option ℕ → ℕ → Bool
due none now_ms = false
due (some deadline) now_ms = leb deadline now_ms

-- Why a debate row is to be paused at `now_ms`, if it is.
unfoldable pub pause_due : DebateRow → ℕ → Option DebatePauseReason
pause_due d now_ms = if not (is_active d.status) then none else elim d.turn_acknowledged_at [
  | none ↦ if due d.pickup_deadline_at now_ms then some pickup_timeout else none
  | some _ ↦ if due d.response_deadline_at now_ms then some response_timeout else none
]

abbrev pub pause : DebatePauseReason → ℕ → DebateRow → DebateRow
pause reason now d = record d {
  status = paused_timeout;
  pause_reason = some reason;
  updated_at = now;
}

unfoldable pub expire_if_due : String → ℕ → ℕ → Body Bool
unfolding pause_due
expire_if_due id now_ms now db = do
  debate ← require_debate id db
  elim (pause_due debate now_ms) [
    | none ↦ ok (false, db)
    | some reason ↦ ok (true, update_debate id (λ d. is_active d.status) (pause reason now) db)
  ]

pub record CreateRecord : Type 0 where
  pub debate_id : String
  pub participant_id : String
  pub topic : String
  pub nickname : String
  pub connection_id : String
  pub membership_hash : String
  pub max_turns : ℕ
  pub finalizer_role : DebateParticipantRole
  pub now : ℕ

unfoldable pub new_debate : CreateRecord → DebateRow
new_debate r = record {
  debate_id = r.debate_id;
  topic = r.topic;
  status = waiting;
  sequence = 0;
  max_turns = r.max_turns;
  completed_turns = 0;
  finalizer_role = r.finalizer_role;
  current_participant_id = none;
  turn_assigned_at = none;
  pickup_deadline_at = none;
  turn_acknowledged_at = none;
  response_deadline_at = none;
  pause_reason = none;
  created_at = r.now;
  updated_at = r.now;
  completed_at = none;
  stopped_at = none;
}

unfoldable pub new_creator : CreateRecord → ParticipantRow
new_creator r = record {
  participant_id = r.participant_id;
  debate_id = r.debate_id;
  role = creator;
  nickname = r.nickname;
  connection_id = r.connection_id;
  membership_hash = r.membership_hash;
  joined_at = r.now;
}

unfoldable pub create : CreateRecord → Body DebateSnapshot
unfolding new_debate new_creator
create r db = do
  with_debate ← insert_debate (new_debate r) db
  with_creator ← insert_participant (new_creator r) with_debate
  snapshot r.debate_id none with_creator

pub record JoinRecord : Type 0 where
  pub debate_id : String
  pub participant_id : String
  pub nickname : String
  pub connection_id : String
  pub membership_hash : String
  pub now : ℕ
  pub pickup_deadline_at : ℕ

unfoldable pub new_joiner : JoinRecord → ParticipantRow
new_joiner r = record {
  participant_id = r.participant_id;
  debate_id = r.debate_id;
  role = joiner;
  nickname = r.nickname;
  connection_id = r.connection_id;
  membership_hash = r.membership_hash;
  joined_at = r.now;
}

abbrev pub begin_debate : JoinRecord → String → DebateRow → DebateRow
begin_debate r first_speaker d = record d {
  status = active;
  current_participant_id = some first_speaker;
  turn_assigned_at = some r.now;
  pickup_deadline_at = some r.pickup_deadline_at;
  turn_acknowledged_at = none;
  response_deadline_at = none;
  pause_reason = none;
  updated_at = r.now;
}

unfoldable pub join : JoinRecord → Body DebateSnapshot
unfolding new_joiner
join r db = do
  debate ← require_debate r.debate_id db
  throw_if (not (is_waiting debate.status)) (debate_error debate_already_joined)
  c ← or_throw (participant_by_role r.debate_id creator db) (debate_error debate_invariant_failed)
  throw_if (c.connection_id == r.connection_id) (debate_error same_connection_not_allowed)
  joined ← insert_participant (new_joiner r) db
  snapshot r.debate_id none
      (update_debate r.debate_id (λ d. true) (begin_debate r c.participant_id) joined)

pub record MemberReadRecord : Type 0 where
  pub auth : DebateMemberAuth
  pub membership_hash : String
  pub now_ms : ℕ
  pub now : ℕ
  pub response_deadline_at : ℕ
  pub after_sequence : Option ℕ

pub record MemberReadResult : Type 0 where
  pub debate : DebateSnapshot
  pub changed : Bool

abbrev pub is_none {ℓ} : {A : Type ℓ} → Option A → Bool
is_none none = true
is_none (some a) = false

-- `column = value`, false on NULL.
abbrev pub is_id : Option String → String → Bool
is_id none id = false
is_id (some s) id = s == id

-- The turn is the member's, and is not acknowledged yet.
abbrev pub awaits_pickup : String → DebateRow → Bool
awaits_pickup pid d =
    is_active d.status && is_id d.current_participant_id pid && is_none d.turn_acknowledged_at

abbrev pub acknowledge : MemberReadRecord → DebateRow → DebateRow
acknowledge r d = record d {
  turn_acknowledged_at = some r.now;
  response_deadline_at = some r.response_deadline_at;
  updated_at = r.now;
}

-- The second half of `readMember`, over the row as it is after the expiry.
unfoldable pub pick_up : MemberReadRecord → DebateRow → Bool → Body MemberReadResult
pick_up r debate expired db =
    if awaits_pickup r.auth.participant_id debate
    then (do
      let acked =
          update_debate r.auth.debate_id (awaits_pickup r.auth.participant_id) (acknowledge r) db
      fresh ← require_debate r.auth.debate_id acked
      ok (
        record { debate = snapshot_from_row fresh r.after_sequence none acked; changed = true },
        acked,
      ))
    else ok (
      record { debate = snapshot_from_row debate r.after_sequence none db; changed = expired },
      db,
    )

unfoldable pub read_member : MemberReadRecord → Body MemberReadResult
unfolding pick_up
read_member r db = do
  _ ← verify_membership r.auth r.membership_hash db
  (expired, expired_db) ← expire_if_due r.auth.debate_id r.now_ms r.now db
  debate ← require_debate r.auth.debate_id expired_db
  pick_up r debate expired expired_db
