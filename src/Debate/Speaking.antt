-- ===== src/Debate/Speaking.antt =====
-- Who gets a message into a debate: what a `send` (src/debate/store.ts) that went through found and did.
use slnc_tr_z_mcp.Prelude.{
  ◌+◌, String, true, false, Option, none, some, [], ◌∷◌, ◌++◌, ◌≡◌, refl, inl, inr, arith, subst,
  ◌∙◌, ap, ok, Result-cases, Option-cases, Bool-cases, eqb, eq_iff, any,
}
use slnc_tr_z_mcp.Debate.Types.{is_active, DebateRow, ParticipantRow, MessageRow, DebateSendResult}
use slnc_tr_z_mcp.Debate.Database.{
  Database, debate_row, participants_of, messages_of, require_debate, message_by_client_id,
  insert_message, update_debate, message_at, message_clashes,
}
use slnc_tr_z_mcp.Debate.Database.Views.{
  log-insert_message, insert_message_keeps, row-update_debate,
}
use slnc_tr_z_mcp.Debate.Commit.{committed, read_back}
use slnc_tr_z_mcp.Debate.Store.{verify_membership, expire_if_due, is_id, is_none, as_message}
use slnc_tr_z_mcp.Debate.Store.Send.{
  SendRecord, replay, next_participant, check_turn, new_message, finish, pass_turn, commit,
  send_final, send_turn, send_new, send,
}
use slnc_tr_z_mcp.Debate.Invariant.Steps.{
  require_debate-eq-ok, snapshot_keeps, Expiry, expire_if_due_inv,
}

-- A new message was committed to the debate, in the tables `db`, whose row was `d`.
pub record Spoken (r : SendRecord) (db after : Database) (x : DebateSendResult) (d : DebateRow)
    : Type 0 where
  pub m : MessageRow
  pub found : debate_row r.auth.debate_id db ≡ some d
  pub active : is_active d.status ≡ true
  pub holder : d.current_participant_id ≡ some r.auth.participant_id
  pub addressed : r.expected_turn_participant_id ≡ r.auth.participant_id
  pub expected : d.sequence ≡ r.expected_sequence
  pub acknowledged : is_none d.turn_acknowledged_at ≡ false
  pub log : messages_of r.auth.debate_id after ≡ messages_of r.auth.debate_id db ++ m ∷ []
  pub told : x.message ≡ as_message m
  pub author : m.participant_id ≡ r.auth.participant_id
  pub number : m.sequence ≡ r.expected_sequence + 1
  pub client_id : m.client_message_id ≡ r.client_message_id
  pub content : m.content ≡ r.content
  pub hash : m.content_hash ≡ r.content_hash
  pub members : participants_of r.auth.debate_id after ≡ participants_of r.auth.debate_id db
  pub row_after :
      (e : DebateRow) × (debate_row r.auth.debate_id after ≡ some e) × (e.sequence ≡ d.sequence + 1)

-- A commit that went through: the log has one message more.
record Committed (r : SendRecord) (m : MessageRow) (move : DebateRow → DebateRow)
    (db after : Database) (d : DebateRow) (x : DebateSendResult) : Type 0 where
  told : x.message ≡ as_message m
  log : messages_of r.auth.debate_id after ≡ messages_of r.auth.debate_id db ++ m ∷ []
  members : participants_of r.auth.debate_id after ≡ participants_of r.auth.debate_id db
  row_after : debate_row r.auth.debate_id after ≡ some (move d)

sequence_free :
    (m : MessageRow) (db sent : Database)
    → insert_message m db ≡ ok sent
    → (sent ≡ record db { messages = db.messages ++ m ∷ [] })
      × (any (λ y. eqb y.sequence m.sequence) (messages_of m.debate_id db) ≡ false)
unfolding insert_message message_clashes
sequence_free m db sent h = (ground arith, ground arith)

-- The constraint on sequence numbers makes the message that is read back the one that was written.
commit_told :
    (r : SendRecord) (m : MessageRow) (move : DebateRow → DebateRow) (db : Database)
    (x : DebateSendResult) (after : Database)
    → m.debate_id ≡ r.auth.debate_id
    → commit r m move db ≡ ok (x, after)
    → x.message ≡ as_message m
unfolding commit committed
commit_told r m move db x after own h = elim (Result-cases (insert_message m db)) [
  | inr (t, e) ↦ absurd (ground arith)
  | inl (sent, e) ↦
      let (is_sent, free) = sequence_free m db sent e in
      let back : message_at r.auth.debate_id m.sequence
            (update_debate r.auth.debate_id (λ y. true) move sent)
          ≡ some m =
        rw (← own, is_sent) (read_back m move db free) in
      ground arith
]

commit_inv :
    (r : SendRecord) (m : MessageRow) (move : DebateRow → DebateRow) (db : Database) (d : DebateRow)
    (x : DebateSendResult) (after : Database)
    → ((e : DebateRow) → (move e).debate_id ≡ e.debate_id)
    → m.debate_id ≡ r.auth.debate_id
    → debate_row r.auth.debate_id db ≡ some d
    → commit r m move db ≡ ok (x, after)
    → Committed r m move db after d x
unfolding commit update_debate participants_of messages_of
commit_inv r m move db d x after keeps own found h = elim (Result-cases (insert_message m db)) [
  | inr (t, e) ↦ absurd (ground arith)
  | inl (sent, e) ↦
      let id = r.auth.debate_id in
      let moved = update_debate id (λ y. true) move sent in
      let same : after ≡ moved =
        ground (arith, snapshot_keeps id none moved {s = x.debate} {after = after}) in
      let kept = insert_message_keeps m db e id in
      rw same (record {
        told = commit_told r m move db x after own h;
        log =
            subst (λ i. messages_of i sent ≡ messages_of i db ++ m ∷ []) own
              (log-insert_message m db e);
        members = kept.1;
        row_after = row-update_debate id (λ y. true) move keeps sent d (kept.0 ∙ found);
      })
]

is_id-eq : (o : Option String) (s : String) → is_id o s ≡ true → o ≡ some s
is_id-eq none s h = cc
is_id-eq (some t) s h = ap some ((eq_iff t s).0 h)

holder_of :
    (r : SendRecord) (d : DebateRow)
    → check_turn r d ≡ ok tt
    → (is_active d.status ≡ true)
      × (d.current_participant_id ≡ some r.auth.participant_id)
      × (r.expected_turn_participant_id ≡ r.auth.participant_id)
      × (d.sequence ≡ r.expected_sequence)
      × (is_none d.turn_acknowledged_at ≡ false)
unfolding check_turn
holder_of r d h =
    let pid = r.auth.participant_id in
    let told = r.expected_turn_participant_id in
    (
      ground arith,
      ground (arith, is_id-eq d.current_participant_id pid),
      ground (arith, is_id-eq d.current_participant_id pid, is_id-eq d.current_participant_id told),
      ground arith,
      ground arith,
    )

final-Spoken :
    (r : SendRecord) (p : ParticipantRow) (d : DebateRow) (db : Database) (x : DebateSendResult)
    (after : Database)
    → debate_row r.auth.debate_id db ≡ some d
    → check_turn r d ≡ ok tt
    → send_final r p d db ≡ ok (x, after)
    → Spoken r db after x d
unfolding send_final new_message
final-Spoken r p d db x after found passed h =
    let (on, held, told, seq, acked) = holder_of r d passed in
    let m = new_message r p d none in
    let c =
      commit_inv r m (finish r (d.sequence + 1) (d.completed_turns + 1)) db d x after (λ e. refl)
        refl found (ground arith) in
    record {
      m = m;
      found = found;
      active = on;
      holder = held;
      addressed = told;
      expected = seq;
      acknowledged = acked;
      log = c.log;
      told = c.told;
      author = refl;
      number = ap (λ n. n + 1) seq;
      client_id = refl;
      content = refl;
      hash = refl;
      members = c.members;
      row_after = (_, c.row_after, refl);
    }

turn-Spoken :
    (r : SendRecord) (p : ParticipantRow) (d : DebateRow) (db : Database) (x : DebateSendResult)
    (after : Database)
    → debate_row r.auth.debate_id db ≡ some d
    → check_turn r d ≡ ok tt
    → send_turn r p d db ≡ ok (x, after)
    → Spoken r db after x d
unfolding send_turn new_message
turn-Spoken r p d db x after found passed h =
    elim (Result-cases (
      next_participant r.auth.debate_id r.auth.participant_id d.finalizer_role
        (d.completed_turns + 1) d.max_turns db)) [
          | inr (t, e) ↦ absurd (ground arith)
          | inl (q, e) ↦
              let (on, held, told, seq, acked) = holder_of r d passed in
              let m = new_message r p d (some q.participant_id) in
              let c =
                commit_inv r m
                  (pass_turn r q.participant_id (d.sequence + 1) (d.completed_turns + 1)) db d x
                  after (λ y. refl) refl found (ground arith) in
              record {
                m = m;
                found = found;
                active = on;
                holder = held;
                addressed = told;
                expected = seq;
                acknowledged = acked;
                log = c.log;
                told = c.told;
                author = refl;
                number = ap (λ n. n + 1) seq;
                client_id = refl;
                content = refl;
                hash = refl;
                members = c.members;
                row_after = (_, c.row_after, refl);
              }
        ]

send_new-Spoken :
    (r : SendRecord) (p : ParticipantRow) (db : Database) (x : DebateSendResult) (after : Database)
    → send_new r p db ≡ ok (x, after)
    → (d : DebateRow) × Spoken r db after x d
unfolding send_new
send_new-Spoken r p db x after h = elim (Result-cases (require_debate r.auth.debate_id db)) [
  | inr (t, e) ↦ absurd (ground arith)
  | inl (d, e) ↦ elim (Result-cases (check_turn r d)) [
    | inr (t, bad) ↦ absurd (ground arith)
    | inl (_, passed) ↦
        let found = require_debate-eq-ok r.auth.debate_id db e in
        elim (Bool-cases (eqb (d.completed_turns + 1) d.max_turns)) [
          | inl last ↦ (d, final-Spoken r p d db x after found passed (ground arith))
          | inr more ↦ (d, turn-Spoken r p d db x after found passed (ground arith))
        ]
  ]
]

replay-idempotent_replay :
    (r : SendRecord) (m : MessageRow) (db : Database) (x : DebateSendResult) (after : Database)
    → replay r m db ≡ ok (x, after)
    → x.idempotent_replay ≡ true
unfolding replay require_debate
replay-idempotent_replay r m db x after h = ground arith

-- The whole of a `send` that was no replay: the member, the tables after the expiry, the new message.
pub record Sent (r : SendRecord) (db after : Database) (x : DebateSendResult) : Type 0 where
  pub p : ParticipantRow
  pub mid : Database
  pub d : DebateRow
  pub member : verify_membership r.auth r.membership_hash db ≡ ok p
  pub expiry : Expiry r.auth.debate_id r.now_ms r.now db mid
  pub fresh :
      message_by_client_id r.auth.debate_id r.auth.participant_id r.client_message_id mid ≡ none
  pub spoken : Spoken r mid after x d

pub send-Sent :
    (r : SendRecord) (db : Database) (x : DebateSendResult) (after : Database)
    → send r db ≡ ok (x, after)
    → x.idempotent_replay ≡ false
    → Sent r db after x
unfolding send
send-Sent r db x after h new = elim (Result-cases (verify_membership r.auth r.membership_hash db)) [
  | inr (t, e) ↦ absurd (ground arith)
  | inl (p, v) ↦ elim (Result-cases (expire_if_due r.auth.debate_id r.now_ms r.now db)) [
    | inr (t, e) ↦ absurd (ground arith)
    | inl ((b, mid), e) ↦
        elim (Option-cases
          (message_by_client_id r.auth.debate_id r.auth.participant_id r.client_message_id mid)) [
            | inl fresh ↦
                let (d, s) = send_new-Spoken r p mid x after (ground arith) in
                record {
                  p = p;
                  mid = mid;
                  d = d;
                  member = v;
                  expiry = expire_if_due_inv r.auth.debate_id r.now_ms r.now db e;
                  fresh = fresh;
                  spoken = s;
                }
            | inr (m, old) ↦ absurd (ground (arith, replay-idempotent_replay r m mid x after))
          ]
  ]
]
