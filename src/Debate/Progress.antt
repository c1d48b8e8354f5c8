-- ===== src/Debate/Progress.antt =====
-- The errors of `send` (src/debate/store.ts) in a consistent database.
use slnc_tr_z_mcp.Prelude.{
  All, ℕ, ◌+◌, String, Bool, true, false, Option, none, some, List, ◌≡◌, ◌≢◌, refl, inl, inr, arith,
  ◌∙◌, ap, ok, err, Result-cases, Option-cases, Bool-cases, eqb, eq_iff, first,
}
use slnc_tr_z_mcp.Debate.Types.{
  is_active, DebateRow, ParticipantRow, DebateSendResult, DebateMemberAuth, Thrown, debate_error,
  membership_invalid, debate_not_writable, sequence_conflict, turn_conflict, turn_not_acknowledged,
  idempotency_conflict,
}
use slnc_tr_z_mcp.Debate.Database.{
  Database, debate_row, participants_of, messages_of, require_debate, message_by_client_id,
  participant_by_id, participant_by_role, update_debate,
}
use slnc_tr_z_mcp.Debate.Store.{
  transaction, verify_membership, expire_if_due, snapshot_from_row, as_message,
}
use slnc_tr_z_mcp.Debate.Store.Send.{
  SendRecord, replay, next_participant, check_turn, new_message, finish, pass_turn, commit,
  send_final, send_turn, send_new, send, has_id,
}
use slnc_tr_z_mcp.Debate.Invariant.Sending.{
  role_found, seat_row_id, next_participant_found, next_row,
}
use slnc_tr_z_mcp.Debate.History.{Call, IsAdmissible, run, empty_store, run-Inv}
use slnc_tr_z_mcp.Debate.Commit.{Numbered-fresh, message_fits, committed, commit_lem}
use slnc_tr_z_mcp.Debate.Invariant.{seat_id, Consistent, Inv, SoundAt-some, SoundAt}
use slnc_tr_z_mcp.Debate.Invariant.Steps.{SoundAt-none, active-Phase, expire_if_due-Kept}

-- The errors that a caller of `send` can bring about.
abbrev pub is_caller_error : Thrown → Bool
is_caller_error (debate_error membership_invalid) = true
is_caller_error (debate_error idempotency_conflict) = true
is_caller_error (debate_error debate_not_writable) = true
is_caller_error (debate_error sequence_conflict) = true
is_caller_error (debate_error turn_conflict) = true
is_caller_error (debate_error turn_not_acknowledged) = true
is_caller_error _ = false

-- The member who sends, in a consistent database, and a message that was not sent before.
record IsReady (r : SendRecord) (db : Database) (d : DebateRow) (author : ParticipantRow)
    : Type 0 where
  found : debate_row r.auth.debate_id db ≡ some d
  member : participant_by_id r.auth.debate_id r.auth.participant_id db ≡ some author
  fresh : message_by_client_id r.auth.debate_id r.auth.participant_id r.client_message_id db ≡ none
  consistent : Consistent d (participants_of r.auth.debate_id db) (messages_of r.auth.debate_id db)

module _ (r : SendRecord) (db : Database) (d : DebateRow) (author : ParticipantRow)
    (ready : IsReady r db d author) where
  commit_goes :
      (next : Option String) (move : DebateRow → DebateRow)
      → ((e : DebateRow) → (move e).debate_id ≡ e.debate_id)
      → let m = new_message r author d next in
        commit r m move db
        ≡ ok (
          record {
            debate = snapshot_from_row (move d) none none (committed m move db);
            message = as_message m;
            idempotent_replay = false;
          },
          committed m move db,
        )
  unfolding new_message
  commit_goes next move keeps =
      let m = new_message r author d next in
      let k = ready.consistent in
      let fits =
        message_fits m db d author ready.found ready.member ready.fresh k.numbered
          (omega (arith, k.counted)) in
      commit_lem r m move db d keeps refl ready.found fits (
        Numbered-fresh 1 (messages_of r.auth.debate_id db) m.sequence k.numbered
          (omega (arith, k.counted)))

  check_turn-is_active : check_turn r d ≡ ok tt → is_active d.status ≡ true
  unfolding check_turn
  check_turn-is_active passed = ground arith

  -- The last turn is the finalizer's.
  final_holder :
      check_turn r d ≡ ok tt
      → d.completed_turns + 1 ≡ d.max_turns
      → has_id r.auth.participant_id (participant_by_role r.auth.debate_id d.finalizer_role db)
        ≡ true
  unfolding check_turn
  final_holder passed last =
      let k = ready.consistent in
      let s =
        active-Phase d.status d (participants_of r.auth.debate_id db) (check_turn-is_active passed)
          k.phase in
      let holder = s.turn.last (omega (arith, k.turns)) in
      let row =
        role_found r.auth.debate_id db s.c s.j r.auth.participant_id d.finalizer_role 0 0 s.seats
          s.c_role s.j_role s.distinct in
      rw row (
        ground (
          arith,
          seat_row_id d.finalizer_role s.c s.j,
          eq_iff (seat_id d.finalizer_role s.c s.j) r.auth.participant_id,
        ))

  check_turn_error : (e : Thrown) → check_turn r d ≡ err e → is_caller_error e ≡ true
  unfolding check_turn
  check_turn_error e h = ground arith

  final_goes :
      check_turn r d ≡ ok tt
      → d.completed_turns + 1 ≡ d.max_turns
      → (x : DebateSendResult × Database) × (send_final r author d db ≡ ok x)
  unfolding send_final
  final_goes passed last =
      let holder = final_holder passed last in
      let move = finish r (d.sequence + 1) (d.completed_turns + 1) in
      let is_commit : send_final r author d db ≡ commit r (new_message r author d none) move db =
        rw holder in
      (_, is_commit ∙ commit_goes none move (λ e. refl))

  turn_goes :
      check_turn r d ≡ ok tt
      → d.completed_turns + 1 ≢ d.max_turns
      → (x : DebateSendResult × Database) × (send_turn r author d db ≡ ok x)
  unfolding send_turn
  turn_goes passed more =
      let k = ready.consistent in
      let id = r.auth.debate_id in
      let pid = r.auth.participant_id in
      let next = d.completed_turns + 1 in
      let s =
        active-Phase d.status d (participants_of id db) (check_turn-is_active passed) k.phase in
      let q = next_row s.c s.j pid d.finalizer_role next d.max_turns in
      let found : next_participant id pid d.finalizer_role next d.max_turns db ≡ ok q =
        next_participant_found id db s.c s.j pid d.finalizer_role next d.max_turns s.seats s.c_role
          s.j_role s.distinct in
      let move = pass_turn r q.participant_id (d.sequence + 1) (d.completed_turns + 1) in
      let is_commit : send_turn r author d db
          ≡ commit r (new_message r author d (some q.participant_id)) move db =
        rw found in
      (_, is_commit ∙ commit_goes (some q.participant_id) move (λ e. refl))

  send_new_error : (e : Thrown) → send_new r author db ≡ err e → is_caller_error e ≡ true
  unfolding send_new require_debate
  send_new_error e h = elim (Result-cases (check_turn r d)) [
    | inr (t, bad) ↦ check_turn_error e (ground (arith, ready.found))
    | inl (_, passed) ↦ elim (Bool-cases (eqb (d.completed_turns + 1) d.max_turns)) [
      | inl last ↦
          let (x, goes) = final_goes passed (ground arith) in absurd (ground (arith, ready.found))
      | inr more ↦
          let (x, goes) = turn_goes passed (ground arith) in absurd (ground (arith, ready.found))
    ]
  ]

-- What `verify_membership` found.
verified :
    (auth : DebateMemberAuth) (hash : String) (db : Database) (p : ParticipantRow)
    → verify_membership auth hash db ≡ ok p
    → participant_by_id auth.debate_id auth.participant_id db ≡ some p
unfolding verify_membership
verified auth hash db p h = ground arith

not_verified :
    (auth : DebateMemberAuth) (hash : String) (db : Database) (e : Thrown)
    → verify_membership auth hash db ≡ err e
    → is_caller_error e ≡ true
unfolding verify_membership
not_verified auth hash db e h = ground arith

-- A debate with a participant is there.
member_row :
    (id pid : String) (db : Database) (p : ParticipantRow)
    → SoundAt db id
    → participant_by_id id pid db ≡ some p
    → (d : DebateRow) × (debate_row id db ≡ some d)
unfolding participant_by_id first
member_row id pid db p sound h = elim (Option-cases (debate_row id db)) [
  | inl missing ↦ absurd (ground (arith, SoundAt-none id db missing sound))
  | inr found ↦ found
]

pub expire_goes :
    (id : String) (now_ms now : ℕ) (db : Database) (d : DebateRow) (e : Thrown)
    → debate_row id db ≡ some d
    → expire_if_due id now_ms now db ≢ err e
unfolding expire_if_due require_debate
expire_goes id now_ms now db d e found h = ground arith

pub expire_keeps :
    (id : String) (now_ms now : ℕ) (db : Database) (b : Bool) (after : Database)
    → expire_if_due id now_ms now db ≡ ok (b, after)
    → (after.participants ≡ db.participants) × (after.messages ≡ db.messages)
unfolding expire_if_due require_debate update_debate
expire_keeps id now_ms now db b after h = (ground arith, ground arith)

send_error :
    (r : SendRecord) (db : Database) (e : Thrown)
    → Inv db
    → send r db ≡ err e
    → is_caller_error e ≡ true
unfolding send participant_by_id message_by_client_id participants_of replay require_debate
send_error r db e inv h = elim (Result-cases (verify_membership r.auth r.membership_hash db)) [
  | inr (t, bad) ↦ not_verified r.auth r.membership_hash db e (ground arith)
  | inl (author, v) ↦
      let id = r.auth.debate_id in
      let member = verified r.auth r.membership_hash db author v in
      let (d0, found0) = member_row id r.auth.participant_id db author (inv id) member in
      elim (Result-cases (expire_if_due id r.now_ms r.now db)) [
        | inr (t, bad) ↦ absurd (expire_goes id r.now_ms r.now db d0 t found0 bad)
        | inl ((b, mid), x) ↦
            let inv_mid = (expire_if_due-Kept id r.now_ms r.now db x).inv inv in
            let kept = expire_keeps id r.now_ms r.now db b mid x in
            let member_mid : participant_by_id id r.auth.participant_id mid ≡ some author =
              rw kept.0 member in
            let (d, found) =
              member_row id r.auth.participant_id mid author (inv_mid id) member_mid in
            elim (Option-cases
              (message_by_client_id id r.auth.participant_id r.client_message_id mid)) [
                | inl fresh ↦
                    send_new_error r mid d author
                      (record {
                        found = found;
                        member = member_mid;
                        fresh = fresh;
                        consistent = SoundAt-some mid id d found (inv_mid id);
                      })
                      e (ground arith)
                | inr (m, sent) ↦ ground arith
              ]
      ]
]

-- After any history of calls on an empty store that leaves it open, a `send` that throws does so for
-- a reason that the caller has given: a membership that is not valid, a message id used for another
-- payload, a debate that is not active, a sequence number or a turn that has moved on, or a turn that
-- was not read. Never because the debate is missing, a table constraint fails, or the state machine
-- is broken. (Each create asks for two turns at least.)
pub send-is_caller_error :
    (cs : List Call) (r : SendRecord) (e : Thrown)
    → All IsAdmissible cs
    → (run empty_store cs).closed ≡ false
    → (transaction (send r) (run empty_store cs)).0 ≡ err e
    → is_caller_error e ≡ true
unfolding transaction
send-is_caller_error cs r e a on h = elim (Result-cases (send r (run empty_store cs).database)) [
  | inl ((sent, db), goes) ↦ absurd (ground arith)
  | inr (x, thrown) ↦
      let same : x ≡ e = ground arith in
      send_error r (run empty_store cs).database e (run-Inv cs a) (thrown ∙ ap err same)
]
