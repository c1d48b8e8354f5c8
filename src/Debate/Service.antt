-- ===== src/Debate/Service.antt =====
-- src/debate/service.ts: the service over `DebateStore`. The generated identifiers and credentials and
-- the clock are arguments, SHA-256 is a parameter. `notified` are the calls of `waiters.notify`.
pub mod Turn
pub mod Owner
pub mod History
pub mod Waiting
pub mod Waits
mod Tests
use slnc_tr_z_mcp.Prelude.{
  ℕ, ◌+◌, String, Bool, true, false, not, ◌&&◌, ◌||◌, Option, none, some, List, [], ◌∷◌, ◌++◌,
  Result, ok, err, ◌>>=◌, ◌>>◌, throw_if, ltb, leb, eqb, if◌then◌else◌, trim, utf16_length,
}
use slnc_tr_z_mcp.Debate.Types.{
  DebateParticipantRole, DebateMemberAuth, DebateSnapshot, DebateSendResult, DebateListItem, Thrown,
  debate_error, invalid_input, debate_store_closed,
}
use slnc_tr_z_mcp.Debate.Store
use slnc_tr_z_mcp.Debate.Store.{
  DebateStore, transaction, CreateRecord, JoinRecord, MemberReadRecord, MemberReadResult,
  read_member,
}
use slnc_tr_z_mcp.Debate.Store.Send
use slnc_tr_z_mcp.Debate.Store.Send.{SendRecord}
use slnc_tr_z_mcp.Debate.Store.Owner.{
  StopRecord, stop_member, owner_read, owner_list, owner_stop, owner_delete, owner_resume,
}

pub record DebateService : Type 0 where
  pub store : DebateStore
  pub closed : Bool
  pub pickup_timeout_ms : ℕ
  pub response_timeout_ms : ℕ
  pub notified : List String

abbrev pub max_safe_integer : ℕ
max_safe_integer = 9007199254740991

-- `boundedText`, on the text as it is or trimmed.
unfoldable pub bounded_text : String → ℕ → Result Thrown String
bounded_text text max_chars =
    if ltb (utf16_length text) 1 || ltb max_chars (utf16_length text)
    then err (debate_error invalid_input)
    else ok text

unfoldable pub bounded_trimmed : String → ℕ → Result Thrown String
unfolding bounded_text
bounded_trimmed text max_chars = bounded_text (trim text) max_chars

unfoldable pub safe_integer : ℕ → ℕ → ℕ → Result Thrown ℕ
safe_integer value least most =
    if leb value max_safe_integer && (leb least value && leb value most)
    then ok value
    else err (debate_error invalid_input)

unfoldable pub optional_sequence : Option ℕ → Result Thrown (Option ℕ)
unfolding safe_integer
optional_sequence none = ok none
optional_sequence (some n) = do value ← safe_integer n 0 max_safe_integer; ok (some value)

unfoldable pub ensure_open : DebateService → Result Thrown (Unit {0})
ensure_open s = throw_if s.closed (debate_error debate_store_closed)

unfoldable pub validate_auth : DebateMemberAuth → Result Thrown DebateMemberAuth
unfolding bounded_trimmed
validate_auth auth = do
  debate_id ← bounded_trimmed auth.debate_id 256
  participant_id ← bounded_trimmed auth.participant_id 256
  membership_credential ← bounded_trimmed auth.membership_credential 256
  connection_id ← bounded_trimmed auth.connection_id 256
  ok (record {
    debate_id = debate_id;
    participant_id = participant_id;
    membership_credential = membership_credential;
    connection_id = connection_id;
  })

abbrev pub given_or : Option ℕ → ℕ → ℕ
given_or none n = n
given_or (some a) n = a

-- `createDebateService`, over a store that was opened.
unfoldable pub new_service :
    DebateStore → Option ℕ → Option ℕ → Option ℕ → Result Thrown DebateService
new_service store pickup_timeout_ms response_timeout_ms request_wait_ms = do
  pickup ← safe_integer (given_or pickup_timeout_ms 120000) 1 86400000
  response ← safe_integer (given_or response_timeout_ms 900000) 1 86400000
  _ ← safe_integer (given_or request_wait_ms 20000) 1 20000
  ok (record {
    store = store;
    closed = false;
    pickup_timeout_ms = pickup;
    response_timeout_ms = response;
    notified = [];
  })

-- Checks that throw leave the service as it is.
abbrev pub checked :
    {A B : Type 0}
    → Result Thrown A
    → (A → Result Thrown B × DebateService)
    → DebateService
    → Result Thrown B × DebateService
checked (err e) k s = (err e, s)
checked (ok a) k s = k a

-- The answer of a method of the store, and whom it makes the service notify.
abbrev pub stored :
    {A : Type 0}
    → (A → List String)
    → DebateService
    → Result Thrown A × DebateStore
    → Result Thrown A × DebateService
stored notify s (err e, store) = (err e, record s { store = store })
stored notify s (ok a, store) =
    (ok a, record s { store = store; notified = s.notified ++ notify a })

abbrev pub nobody : {A : Type 0} → A → List String
nobody a = []

pub record DebateCreateInput : Type 0 where
  pub topic : String
  pub nickname : String
  pub connection_id : String
  pub max_turns : ℕ
  pub finalizer_role : DebateParticipantRole

-- What `id`, `membershipCredential` and `now` give.
pub record Generated : Type 0 where
  pub debate_id : String
  pub participant_id : String
  pub credential : String
  pub now_ms : ℕ

module _ (sha256 : String → String) where
  unfoldable pub create_record :
      DebateCreateInput → Generated → DebateService → Result Thrown CreateRecord
  unfolding bounded_trimmed
  create_record input g s = do
    ensure_open s
    topic ← bounded_trimmed input.topic 4096
    nickname ← bounded_trimmed input.nickname 80
    connection_id ← bounded_trimmed input.connection_id 256
    max_turns ← safe_integer input.max_turns 3 64
    debate_id ← bounded_trimmed g.debate_id 256
    participant_id ← bounded_trimmed g.participant_id 256
    ok (record {
      debate_id = debate_id;
      participant_id = participant_id;
      topic = topic;
      nickname = nickname;
      connection_id = connection_id;
      membership_hash = sha256 g.credential;
      max_turns = max_turns;
      finalizer_role = input.finalizer_role;
      now = g.now_ms;
    })

  unfoldable pub create :
      DebateCreateInput → Generated → DebateService → Result Thrown DebateSnapshot × DebateService
  unfolding create_record
  create input g s =
      checked (create_record input g s)
        (λ r. stored nobody s (transaction (Store.create r) s.store)) s

  unfoldable pub join_record :
      String → String → String → Generated → DebateService → Result Thrown JoinRecord
  join_record id nickname_text connection g s = do
    ensure_open s
    debate_id ← bounded_trimmed id 256
    nickname ← bounded_trimmed nickname_text 80
    connection_id ← bounded_trimmed connection 256
    participant_id ← bounded_trimmed g.participant_id 256
    ok (record {
      debate_id = debate_id;
      participant_id = participant_id;
      nickname = nickname;
      connection_id = connection_id;
      membership_hash = sha256 g.credential;
      now = g.now_ms;
      pickup_deadline_at = g.now_ms + s.pickup_timeout_ms;
    })

  unfoldable pub join :
      String
      → String
      → String
      → Generated
      → DebateService
      → Result Thrown DebateSnapshot × DebateService
  unfolding join_record
  join id nickname connection g s =
      checked (join_record id nickname connection g s)
        (λ r. stored (λ _. r.debate_id ∷ []) s (transaction (Store.join r) s.store)) s

  unfoldable pub read_record :
      DebateMemberAuth → Option ℕ → ℕ → DebateService → Result Thrown MemberReadRecord
  read_record member after now_ms s = do
    ensure_open s
    auth ← validate_auth member
    after_sequence ← optional_sequence after
    ok (record {
      auth = auth;
      membership_hash = sha256 auth.membership_credential;
      now_ms = now_ms;
      now = now_ms;
      response_deadline_at = now_ms + s.response_timeout_ms;
      after_sequence = after_sequence;
    })

  -- The snapshot of the result is what the caller gets.
  unfoldable pub read :
      DebateMemberAuth
      → Option ℕ
      → ℕ
      → DebateService
      → Result Thrown MemberReadResult × DebateService
  unfolding read_record
  read member after now_ms s =
      checked (read_record member after now_ms s)
        (λ r.
          stored (λ x. if x.changed then r.auth.debate_id ∷ [] else []) s
            (transaction (read_member r) s.store))
        s
