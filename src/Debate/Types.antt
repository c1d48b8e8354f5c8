-- ===== src/Debate/Types.antt =====
-- src/debate/types.ts, src/debate/errors.ts and the row types of src/debate/store.ts.
-- An ISO time is the number of milliseconds that it stands for, so `Date.parse` reads it as it is.
use slnc_tr_z_mcp.Prelude.{ℕ, String, Bool, true, false, Option, List}

pub data DebateStatus : Type 0 where
  waiting active paused_timeout stopped completed : DebateStatus

pub data DebateParticipantRole : Type 0 where
  creator joiner : DebateParticipantRole

pub data DebatePauseReason : Type 0 where
  pickup_timeout response_timeout : DebatePauseReason

abbrev pub role_eq : DebateParticipantRole → DebateParticipantRole → Bool
role_eq creator creator = true
role_eq joiner joiner = true
role_eq _ _ = false

abbrev pub is_waiting : DebateStatus → Bool
is_waiting waiting = true
is_waiting _ = false

abbrev pub is_active : DebateStatus → Bool
is_active active = true
is_active _ = false

abbrev pub is_paused : DebateStatus → Bool
is_paused paused_timeout = true
is_paused _ = false

pub data DebateErrorCode : Type 0 where
  invalid_input debate_not_found membership_invalid same_connection_not_allowed : DebateErrorCode
  debate_already_joined debate_not_writable sequence_conflict turn_conflict : DebateErrorCode
  turn_not_acknowledged idempotency_conflict resume_not_allowed : DebateErrorCode
  delete_not_allowed wait_cancelled debate_store_closed : DebateErrorCode
  debate_schema_unsupported debate_invariant_failed : DebateErrorCode

-- What an operation throws: a `DebateError`, or the error of a violated table constraint.
pub data Thrown : Type 0 where
  debate_error : DebateErrorCode → Thrown
  constraint_failed : Thrown

pub record DebateRow : Type 0 where
  pub debate_id : String
  pub topic : String
  pub status : DebateStatus
  pub sequence : ℕ
  pub max_turns : ℕ
  pub completed_turns : ℕ
  pub finalizer_role : DebateParticipantRole
  pub current_participant_id : Option String
  pub turn_assigned_at : Option ℕ
  pub pickup_deadline_at : Option ℕ
  pub turn_acknowledged_at : Option ℕ
  pub response_deadline_at : Option ℕ
  pub pause_reason : Option DebatePauseReason
  pub created_at : ℕ
  pub updated_at : ℕ
  pub completed_at : Option ℕ
  pub stopped_at : Option ℕ

pub record ParticipantRow : Type 0 where
  pub participant_id : String
  pub debate_id : String
  pub role : DebateParticipantRole
  pub nickname : String
  pub connection_id : String
  pub membership_hash : String
  pub joined_at : ℕ

pub record MessageRow : Type 0 where
  pub debate_id : String
  pub sequence : ℕ
  pub participant_id : String
  pub author_nickname : String
  pub client_message_id : String
  pub content : String
  pub content_hash : String
  pub is_final : Bool
  pub result_current_participant_id : Option String
  pub result_pickup_deadline_at : Option ℕ
  pub created_at : ℕ

pub record DebateParticipant : Type 0 where
  pub participant_id : String
  pub nickname : String
  pub role : DebateParticipantRole
  pub joined_at : ℕ

pub record DebateMessage : Type 0 where
  pub sequence : ℕ
  pub participant_id : String
  pub nickname : String
  pub client_message_id : String
  pub content : String
  pub is_final : Bool
  pub created_at : ℕ

pub record DebateSnapshot : Type 0 where
  pub debate_id : String
  pub topic : String
  pub status : DebateStatus
  pub sequence : ℕ
  pub max_turns : ℕ
  pub completed_turns : ℕ
  pub finalizer_role : DebateParticipantRole
  pub finalizer_participant_id : Option String
  pub current_participant_id : Option String
  pub turn_assigned_at : Option ℕ
  pub pickup_deadline_at : Option ℕ
  pub turn_acknowledged_at : Option ℕ
  pub response_deadline_at : Option ℕ
  pub pause_reason : Option DebatePauseReason
  pub created_at : ℕ
  pub updated_at : ℕ
  pub completed_at : Option ℕ
  pub stopped_at : Option ℕ
  pub participants : List DebateParticipant
  pub messages : List DebateMessage

pub record DebateListItem : Type 0 where
  pub debate_id : String
  pub topic : String
  pub status : DebateStatus
  pub sequence : ℕ
  pub max_turns : ℕ
  pub completed_turns : ℕ
  pub finalizer_participant_id : Option String
  pub current_participant_id : Option String
  pub pickup_deadline_at : Option ℕ
  pub response_deadline_at : Option ℕ
  pub pause_reason : Option DebatePauseReason
  pub created_at : ℕ
  pub updated_at : ℕ
  pub completed_at : Option ℕ
  pub stopped_at : Option ℕ
  pub participants : List DebateParticipant

pub record DebateMemberAuth : Type 0 where
  pub debate_id : String
  pub participant_id : String
  pub membership_credential : String
  pub connection_id : String

pub record DebateSendResult : Type 0 where
  pub debate : DebateSnapshot
  pub message : DebateMessage
  pub idempotent_replay : Bool
