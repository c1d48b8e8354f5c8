-- ===== src/Debate/Service/Turn.antt =====
-- src/debate/service.ts: `send` and `stop` of a participant.
use slnc_tr_z_mcp.Prelude.{
  ℕ, ◌+◌, String, [], ◌∷◌, Result, ok, ◌>>=◌, ◌>>◌, throw_if, eqb, if◌then◌else◌, trim,
  utf16_length,
}
use slnc_tr_z_mcp.Debate.Types.{
  DebateMemberAuth, DebateSnapshot, DebateSendResult, Thrown, debate_error, invalid_input,
}
use slnc_tr_z_mcp.Debate.Store.{transaction}
use slnc_tr_z_mcp.Debate.Store.Send
use slnc_tr_z_mcp.Debate.Store.Send.{SendRecord}
use slnc_tr_z_mcp.Debate.Store.Owner.{StopRecord, stop_member}
use slnc_tr_z_mcp.Debate.Service.{
  DebateService, max_safe_integer, bounded_text, bounded_trimmed, safe_integer, ensure_open,
  validate_auth, checked, stored,
}

pub record DebateSendInput : Type 0 where
  pub auth : DebateMemberAuth
  pub expected_sequence : ℕ
  pub expected_turn_participant_id : String
  pub client_message_id : String
  pub content : String

module _ (sha256 : String → String) where
  unfoldable pub send_record : DebateSendInput → ℕ → DebateService → Result Thrown SendRecord
  send_record input now_ms s = do
    ensure_open s
    auth ← validate_auth input.auth
    expected_sequence ← safe_integer input.expected_sequence 0 max_safe_integer
    expected_turn_participant_id ← bounded_trimmed input.expected_turn_participant_id 256
    client_message_id ← bounded_trimmed input.client_message_id 128
    content ← bounded_text input.content 65536
    throw_if (eqb (utf16_length (trim content)) 0) (debate_error invalid_input)
    ok (record {
      auth = auth;
      membership_hash = sha256 auth.membership_credential;
      expected_sequence = expected_sequence;
      expected_turn_participant_id = expected_turn_participant_id;
      client_message_id = client_message_id;
      content = content;
      content_hash = sha256 content;
      now_ms = now_ms;
      now = now_ms;
      next_pickup_deadline_at = now_ms + s.pickup_timeout_ms;
    })

  -- A replay notifies nobody.
  unfoldable pub send :
      DebateSendInput → ℕ → DebateService → Result Thrown DebateSendResult × DebateService
  unfolding send_record
  send input now_ms s =
      checked (send_record input now_ms s)
        (λ r.
          stored (λ x. if x.idempotent_replay then [] else r.auth.debate_id ∷ []) s
            (transaction (Send.send r) s.store))
        s

  unfoldable pub stop_record : DebateMemberAuth → ℕ → DebateService → Result Thrown StopRecord
  stop_record member now_ms s = do
    ensure_open s
    auth ← validate_auth member
    ok (record {
      auth = auth;
      membership_hash = sha256 auth.membership_credential;
      now_ms = now_ms;
      now = now_ms;
    })

  unfoldable pub stop :
      DebateMemberAuth → ℕ → DebateService → Result Thrown DebateSnapshot × DebateService
  unfolding stop_record
  stop member now_ms s =
      checked (stop_record member now_ms s)
        (λ r. stored (λ _. r.auth.debate_id ∷ []) s (transaction (stop_member r) s.store)) s
