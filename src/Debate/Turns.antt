-- ===== src/Debate/Turns.antt =====
-- `send` (src/debate/store.ts) as the participants see it: the right to speak, and a message that is
-- sent again.
use slnc_tr_z_mcp.Prelude.{
  ℕ, ◌+◌, String, true, false, none, some, [], ◌∷◌, ◌++◌, ◌≡◌, refl, inl, inr, arith, subst, sym,
  ◌∙◌, ok, Result-cases, eq_iff, ◌==◌, ◌&&◌,
}
use slnc_tr_z_mcp.Debate.Types.{
  is_active, DebateRow, ParticipantRow, MessageRow, DebateSendResult, DebateMemberAuth,
}
use slnc_tr_z_mcp.Debate.Database.{
  Database, debate_row, participants_of, messages_of, require_debate, message_by_client_id,
  participant_by_id, safe_equal_hex,
}
use slnc_tr_z_mcp.Debate.Database.Views.{row-update_debate}
use slnc_tr_z_mcp.Debate.Commit.{first-append_none, first-none-any}
use slnc_tr_z_mcp.Debate.Store.{
  verify_membership, expire_if_due, pause_due, pause, as_message, snapshot_from_row,
}
use slnc_tr_z_mcp.Debate.Store.Send.{SendRecord, send, replay, replay_row}
use slnc_tr_z_mcp.Debate.Invariant.Steps.{Expiry, expire_if_due_inv}
use slnc_tr_z_mcp.Debate.Progress.{expire_goes, expire_keeps}
use slnc_tr_z_mcp.Debate.Speaking.{Spoken, send-Sent}

-- The participant that the caller claims to be, on the connection and with the credential on record.
pub record IsMember (auth : DebateMemberAuth) (hash : String) (db : Database) : Type 0 where
  pub p : ParticipantRow
  pub seated : participant_by_id auth.debate_id auth.participant_id db ≡ some p
  pub connection : p.connection_id ≡ auth.connection_id
  pub credential : p.membership_hash ≡ hash

verify_membership-IsMember :
    (auth : DebateMemberAuth) (hash : String) (db : Database) (p : ParticipantRow)
    → verify_membership auth hash db ≡ ok p
    → IsMember auth hash db
unfolding verify_membership safe_equal_hex
verify_membership-IsMember auth hash db p h = record {
  p = p;
  seated = ground arith;
  connection = ground (arith, eq_iff p.connection_id auth.connection_id);
  credential = ground (arith, eq_iff p.membership_hash hash);
}

-- A debate that is active after the expiry was not due.
not_due :
    (id : String) (now_ms now : ℕ) (db mid : Database) (d : DebateRow)
    → Expiry id now_ms now db mid
    → debate_row id mid ≡ some d
    → is_active d.status ≡ true
    → (mid ≡ db) × (pause_due d now_ms ≡ none)
not_due id now_ms now db mid d x found on = elim x.outcome [
  | inl (idle, same) ↦
      let e : x.d ≡ d = ground (arith, x.found, rw same at found) in (same, rw (← e) idle)
  | inr (reason, was_on, is_due, same) ↦
      let row =
        row-update_debate id (λ r. is_active r.status) (pause reason now) (λ r. refl) db x.d
          x.found in
      let paused : debate_row id mid ≡ some (pause reason now x.d) = rw same (rw was_on at row) in
      absurd (ground arith)
]

-- When a `send` goes through and is no replay, the caller is a participant of the debate on its own
-- connection and with its own credential, the debate is active, its turn is the caller's, was
-- acknowledged and is not past its deadline, and the caller expected the debate's sequence number.
-- Exactly one message is added, the caller's, under the next number; the participants stay.
pub send-IsSpoken :
    (r : SendRecord) (db : Database) (x : DebateSendResult) (after : Database)
    → send r db ≡ ok (x, after)
    → x.idempotent_replay ≡ false
    → IsMember r.auth r.membership_hash db
      × ((d : DebateRow) × Spoken r db after x d × (pause_due d r.now_ms ≡ none))
send-IsSpoken r db x after h new =
    let s = send-Sent r db x after h new in
    let (same, idle) =
      not_due r.auth.debate_id r.now_ms r.now db s.mid s.d s.expiry s.spoken.found
        s.spoken.active in
    (
      verify_membership-IsMember r.auth r.membership_hash db s.p s.member,
      (s.d, subst (λ q. Spoken r q after x s.d) same s.spoken, idle),
    )

-- The same message, sent again at another time.
abbrev pub again : SendRecord → ℕ → ℕ → ℕ → SendRecord
again r now_ms now deadline = record r {
  now_ms = now_ms;
  now = now;
  next_pickup_deadline_at = deadline;
}

Expiry-row :
    (id : String) (now_ms now : ℕ) (db after : Database)
    → Expiry id now_ms now db after
    → (e : DebateRow) × (debate_row id after ≡ some e)
Expiry-row id now_ms now db after x = elim x.outcome [
  | inl (_, same) ↦ (x.d, rw same x.found)
  | inr (reason, on, _, same) ↦ (
    pause reason now x.d,
    rw same (
        rw on at (
          row-update_debate id (λ r. is_active r.status) (pause reason now) (λ r. refl) db x.d
            x.found)),
  )
]

verify_membership-cong :
    (auth : DebateMemberAuth) (hash : String) (db after : Database)
    → participants_of auth.debate_id after ≡ participants_of auth.debate_id db
    → verify_membership auth hash after ≡ verify_membership auth hash db
unfolding verify_membership participant_by_id
verify_membership-cong auth hash db after e = rw e

-- The replay of a message that stands in the log with the same payload.
replay_goes :
    (r : SendRecord) (m : MessageRow) (db : Database) (d : DebateRow)
    → debate_row r.auth.debate_id db ≡ some d
    → m.content_hash ≡ r.content_hash
    → m.sequence ≡ r.expected_sequence + 1
    → r.expected_turn_participant_id ≡ m.participant_id
    → (y : DebateSendResult) × (replay r m db ≡ ok (y, db))
      × (y.idempotent_replay ≡ true)
      × (y.message ≡ as_message m)
unfolding replay require_debate
replay_goes r m db d found hash number told = (
  record {
    debate = snapshot_from_row (replay_row d m) none (some m.sequence) db;
    message = as_message m;
    idempotent_replay = true;
  },
  ground (
    arith,
    eq_iff m.content_hash r.content_hash,
    eq_iff r.expected_turn_participant_id m.participant_id,
  ),
  refl,
  refl,
)

found_again :
    (id pid cid : String) (db after : Database) (m : MessageRow)
    → messages_of id after ≡ messages_of id db ++ m ∷ []
    → message_by_client_id id pid cid db ≡ none
    → m.participant_id ≡ pid
    → m.client_message_id ≡ cid
    → message_by_client_id id pid cid after ≡ some m
unfolding message_by_client_id
found_again id pid cid db after m log fresh author named = rw log (
    first-append_none (λ y. y.participant_id == pid && y.client_message_id == cid)
      (messages_of id db) m (first-none-any _ (messages_of id db) fresh)
      (ground (arith, eq_iff m.participant_id pid, eq_iff m.client_message_id cid)))

messages_of-cong :
    (id : String) (db after : Database)
    → after.messages ≡ db.messages
    → messages_of id after ≡ messages_of id db
unfolding messages_of
messages_of-cong id db after e = rw e

-- A message that went through can be sent again at any later time, deadlines passed or not: the
-- second `send` goes through, says that it is a replay, returns the same message, and adds none.
pub send-again :
    (r : SendRecord) (db : Database) (x : DebateSendResult) (after : Database)
    → send r db ≡ ok (x, after)
    → x.idempotent_replay ≡ false
    → (t now deadline : ℕ)
    → (y : DebateSendResult) × (last : Database) × (send (again r t now deadline) after
        ≡ ok (y, last))
      × (y.idempotent_replay ≡ true)
      × (y.message ≡ x.message)
      × (messages_of r.auth.debate_id last ≡ messages_of r.auth.debate_id after)
unfolding send
send-again r db x after h new t now deadline =
    let s = send-Sent r db x after h new in
    let id = r.auth.debate_id in
    let pid = r.auth.participant_id in
    let (same, _) =
      not_due id r.now_ms r.now db s.mid s.d s.expiry s.spoken.found s.spoken.active in
    let member : verify_membership r.auth r.membership_hash after ≡ ok s.p =
      verify_membership-cong r.auth r.membership_hash s.mid after s.spoken.members
      ∙ rw same s.member in
    let (e, row, _) = s.spoken.row_after in
    elim (Result-cases (expire_if_due id t now after)) [
      | inr (w, bad) ↦ absurd (expire_goes id t now after e w row bad)
      | inl ((b, last), x2) ↦
          let (_, kept) = expire_keeps id t now after b last x2 in
          let log = messages_of-cong id after last kept in
          let stored =
            found_again id pid r.client_message_id s.mid last s.spoken.m (log ∙ s.spoken.log)
              s.fresh s.spoken.author s.spoken.client_id in
          let (f, row_last) =
            Expiry-row id t now after last (expire_if_due_inv id t now after x2) in
          let (y, goes, yes_replay, told) =
            replay_goes (again r t now deadline) s.spoken.m last f row_last s.spoken.hash
              s.spoken.number (s.spoken.addressed ∙ sym s.spoken.author) in
          (y, last, ground arith, yes_replay, told ∙ sym s.spoken.told, log)
    ]
