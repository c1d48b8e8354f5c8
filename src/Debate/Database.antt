-- ===== src/Debate/Database.antt =====
-- The tables of src/debate/store.ts with their constraints, and the queries that its methods send.
pub mod Views
use Prim.Native.Char.{code}
use Prim.Native.String
use Prim.Native.Nat.{Ordering}
use slnc_tr_z_mcp.Prelude.{
  ℕ, suc, String, Bool, true, false, not, ◌&&◌, ◌||◌, Option, List, [], ◌∷◌, ◌++◌, ◌==◌, Result, ok,
  err, or_throw, ltb, leb, eqb, if◌then◌else◌, first, select, any, delete, update,
}
use slnc_tr_z_mcp.Debate.Types.{
  DebateRow, ParticipantRow, MessageRow, DebateParticipantRole, creator, joiner, role_eq, is_active,
  Thrown, debate_error, constraint_failed, debate_not_found,
}

pub record Database : Type 0 where
  pub debates : List DebateRow
  pub participants : List ParticipantRow
  pub messages : List MessageRow

-- `SELECT * FROM debates WHERE debate_id=?`
unfoldable pub debate_row : String → Database → Option DebateRow
debate_row id db = first (λ d. d.debate_id == id) db.debates

-- The rows of one debate, in the order of their insertion.
unfoldable pub participants_of : String → Database → List ParticipantRow
participants_of id db = select (λ p. p.debate_id == id) db.participants

unfoldable pub messages_of : String → Database → List MessageRow
messages_of id db = select (λ m. m.debate_id == id) db.messages

unfoldable pub require_debate : String → Database → Result Thrown DebateRow
require_debate id db = or_throw (debate_row id db) (debate_error debate_not_found)

unfoldable pub participant_by_role :
    String → DebateParticipantRole → Database → Option ParticipantRow
participant_by_role id role db = first (λ p. role_eq p.role role) (participants_of id db)

-- `WHERE debate_id=? AND participant_id=?`
unfoldable pub participant_by_id : String → String → Database → Option ParticipantRow
participant_by_id id pid db = first (λ p. p.participant_id == pid) (participants_of id db)

-- `WHERE debate_id=? AND participant_id<>? LIMIT 1`
unfoldable pub other_participant : String → String → Database → Option ParticipantRow
other_participant id pid db = first (λ p. not (p.participant_id == pid)) (participants_of id db)

-- `WHERE debate_id=? AND participant_id=? AND client_message_id=?`
unfoldable pub message_by_client_id : String → String → String → Database → Option MessageRow
message_by_client_id id pid cid db =
    first (λ m. m.participant_id == pid && m.client_message_id == cid) (messages_of id db)

-- `WHERE debate_id=? AND sequence=?`
unfoldable pub message_at : String → ℕ → Database → Option MessageRow
message_at id n db = first (λ m. eqb m.sequence n) (messages_of id db)

-- `INSERT INTO debates`: the id is the primary key.
unfoldable pub insert_debate : DebateRow → Database → Result Thrown Database
insert_debate row db =
    if any (λ d. d.debate_id == row.debate_id) db.debates
    then err constraint_failed
    else ok (record db { debates = db.debates ++ row ∷ [] })

-- The constraints of a new participant: the primary key, the foreign key, `UNIQUE(debate_id, role)`
-- and `UNIQUE(debate_id, connection_id)`.
unfoldable pub participant_clashes : ParticipantRow → Database → Bool
participant_clashes row db =
    any (λ p. p.participant_id == row.participant_id) db.participants
    || not (any (λ d. d.debate_id == row.debate_id) db.debates)
    || any (λ p. role_eq p.role row.role) (participants_of row.debate_id db)
    || any (λ p. p.connection_id == row.connection_id) (participants_of row.debate_id db)

unfoldable pub insert_participant : ParticipantRow → Database → Result Thrown Database
insert_participant row db =
    if participant_clashes row db
    then err constraint_failed
    else ok (record db { participants = db.participants ++ row ∷ [] })

-- The constraints of a new message: the two foreign keys, `UNIQUE(debate_id, sequence)` and
-- `UNIQUE(debate_id, participant_id, client_message_id)`.
unfoldable pub message_clashes : MessageRow → Database → Bool
message_clashes row db =
    not (any (λ d. d.debate_id == row.debate_id) db.debates)
    || not (any (λ p. p.participant_id == row.participant_id) db.participants)
    || any (λ m. eqb m.sequence row.sequence) (messages_of row.debate_id db)
    || any
        (λ m.
          m.participant_id == row.participant_id && m.client_message_id == row.client_message_id)
        (messages_of row.debate_id db)

unfoldable pub insert_message : MessageRow → Database → Result Thrown Database
insert_message row db =
    if message_clashes row db
    then err constraint_failed
    else ok (record db { messages = db.messages ++ row ∷ [] })

-- `UPDATE debates SET f WHERE debate_id=? AND p`
unfoldable pub update_debate :
    String → (DebateRow → Bool) → (DebateRow → DebateRow) → Database → Database
update_debate id p f db = record db {
  debates = update (λ d. d.debate_id == id && p d) f db.debates;
}

-- `DELETE FROM debates WHERE debate_id=?`; participants and messages cascade.
unfoldable pub delete_debate : String → Database → Database
delete_debate id db = record {
  debates = delete (λ d. d.debate_id == id) db.debates;
  participants = delete (λ p. p.debate_id == id) db.participants;
  messages = delete (λ m. m.debate_id == id) db.messages;
}

-- `/^[a-f0-9]{64}$/u`
is_hex_digit : ℕ → Bool
is_hex_digit c = (leb b'a' c && leb c b'f') || (leb b'0' c && leb c b'9')

is_hex : String → ℕ → Bool
is_hex String.[] n = eqb n 64
is_hex (String.◌∷◌ c s) n = is_hex_digit (code c) && is_hex s (suc n)

unfoldable pub safe_equal_hex : String → String → Bool
unfolding is_hex is_hex_digit
safe_equal_hex left right =
    if not (is_hex left 0) || not (is_hex right 0) then false else left == right

text_before : String → String → Bool
text_before a b = elim (String.compare a b) [ Ordering.lt ↦ true | _ ↦ false ]

abbrev role_rank : DebateParticipantRole → ℕ
role_rank creator = 0
role_rank joiner = 1

-- `ORDER BY CASE role WHEN 'creator' THEN 0 ELSE 1 END, joined_at, participant_id`
unfoldable pub participant_before : ParticipantRow → ParticipantRow → Bool
unfolding text_before
participant_before p q =
    ltb (role_rank p.role) (role_rank q.role)
    || eqb (role_rank p.role) (role_rank q.role)
      && (ltb p.joined_at q.joined_at
          || eqb p.joined_at q.joined_at && text_before p.participant_id q.participant_id)

-- `ORDER BY updated_at DESC, debate_id DESC`
unfoldable pub debate_before : DebateRow → DebateRow → Bool
unfolding text_before
debate_before d e =
    ltb e.updated_at d.updated_at
    || eqb e.updated_at d.updated_at && text_before e.debate_id d.debate_id

-- `SELECT debate_id FROM debates WHERE status='active'`
unfoldable pub active_debates : Database → List DebateRow
active_debates db = select (λ d. is_active d.status) db.debates
