-- ===== src/Debate/Invariant/SendMethod.antt =====
-- The method `send` of src/debate/store.ts as a whole, and the invariant.
use slnc_tr_z_mcp.Prelude.{
  ◌+◌, true, none, some, ◌≡◌, ◌≢◌, refl, arith, subst, ok, Result-cases, Option-cases, Bool-cases,
  inl, inr, eqb,
}
use slnc_tr_z_mcp.Debate.Types.{is_active, DebateRow, ParticipantRow, MessageRow, DebateSendResult}
use slnc_tr_z_mcp.Debate.Database.{
  Database, debate_row, participants_of, require_debate, message_by_client_id,
}
use slnc_tr_z_mcp.Debate.Store.{verify_membership, expire_if_due}
use slnc_tr_z_mcp.Debate.Store.Send.{
  SendRecord, replay, next_participant, check_turn, new_message, finish, pass_turn, send_final,
  send_turn, send_new, send,
}
use slnc_tr_z_mcp.Debate.Invariant.Steps.{
  Kept, Kept-refl, Kept-trans, active-Phase, expire_if_due-Kept, require_debate-eq-ok,
}
use slnc_tr_z_mcp.Debate.Invariant.Sending.{
  Next, next_row, next_participant_found, next_row-Next, Moves, commit-Kept, finish-Consistent,
  pass_turn-Consistent,
}

send_final-Kept :
    (r : SendRecord) (author : ParticipantRow) (d : DebateRow) (db : Database)
    {x : DebateSendResult} {after : Database}
    → debate_row r.auth.debate_id db ≡ some d
    → d.completed_turns + 1 ≡ d.max_turns
    → send_final r author d db ≡ ok (x, after)
    → Kept r.auth.debate_id db after
unfolding send_final new_message
send_final-Kept r author d db {x} {after} found last h =
    commit-Kept r (new_message r author d none) (finish r (d.sequence + 1) (d.completed_turns + 1))
      db d {x = x} (λ e. refl) refl found (finish-Consistent r author d _ _ last) (ground arith)

turn-Moves :
    (r : SendRecord) (author p : ParticipantRow) (d : DebateRow) (db : Database)
    → is_active d.status ≡ true
    → d.completed_turns + 1 ≢ d.max_turns
    → next_participant r.auth.debate_id r.auth.participant_id d.finalizer_role
        (d.completed_turns + 1)
        d.max_turns
        db
      ≡ ok p
    → Moves r.auth.debate_id db
        (new_message r author d (some p.participant_id))
        (pass_turn r p.participant_id (d.sequence + 1) (d.completed_turns + 1))
        d
turn-Moves r author p d db is_on more chosen k =
    let id = r.auth.debate_id in
    let pid = r.auth.participant_id in
    let next = d.completed_turns + 1 in
    let s = active-Phase d.status d (participants_of id db) is_on k.phase in
    let q = next_row s.c s.j pid d.finalizer_role next d.max_turns in
    let found : next_participant id pid d.finalizer_role next d.max_turns db ≡ ok q =
      next_participant_found id db s.c s.j pid d.finalizer_role next d.max_turns s.seats s.c_role
        s.j_role s.distinct in
    let same : q ≡ p = cc in
    pass_turn-Consistent r author p d _ _ s is_on more
      (subst (λ x. Next s.c s.j x pid d.finalizer_role next d.max_turns) same
        (next_row-Next id db s.c s.j pid d.finalizer_role next d.max_turns s.seats s.c_role s.j_role
          s.distinct))
      k

send_turn-Kept :
    (r : SendRecord) (author : ParticipantRow) (d : DebateRow) (db : Database)
    {x : DebateSendResult} {after : Database}
    → debate_row r.auth.debate_id db ≡ some d
    → is_active d.status ≡ true
    → d.completed_turns + 1 ≢ d.max_turns
    → send_turn r author d db ≡ ok (x, after)
    → Kept r.auth.debate_id db after
unfolding send_turn new_message
send_turn-Kept r author d db {x} {after} found is_on more h =
    elim (Result-cases (
      next_participant r.auth.debate_id r.auth.participant_id d.finalizer_role
        (d.completed_turns + 1) d.max_turns db)) [
          | inr (t, e) ↦ absurd (ground arith)
          | inl (p, e) ↦
              commit-Kept r (new_message r author d (some p.participant_id))
                (pass_turn r p.participant_id (d.sequence + 1) (d.completed_turns + 1)) db d {x = x}
                (λ y. refl) refl found (turn-Moves r author p d db is_on more e) (ground arith)
        ]

send_new-Kept :
    (r : SendRecord) (author : ParticipantRow) (db : Database) {x : DebateSendResult}
    {after : Database}
    → send_new r author db ≡ ok (x, after)
    → Kept r.auth.debate_id db after
unfolding send_new check_turn
send_new-Kept r author db {x} {after} h = elim (Result-cases (require_debate r.auth.debate_id db)) [
  | inr (t, e) ↦ absurd (ground arith)
  | inl (d, e) ↦
      let found = require_debate-eq-ok r.auth.debate_id db e in
      elim (Bool-cases (eqb (d.completed_turns + 1) d.max_turns)) [
        | inl last ↦ send_final-Kept r author d db {x = x} found (ground arith) (ground arith)
        | inr more ↦
            send_turn-Kept r author d db {x = x} found (ground arith) (ground arith) (ground arith)
      ]
]

replay-Kept :
    (r : SendRecord) (m : MessageRow) (db : Database) {x : DebateSendResult} {after : Database}
    → replay r m db ≡ ok (x, after)
    → Kept r.auth.debate_id db after
unfolding replay require_debate
replay-Kept r m db {x} {after} h =
    subst (Kept r.auth.debate_id db) (ground arith) (Kept-refl r.auth.debate_id db)

pub send-Kept :
    (r : SendRecord) (db : Database) {x : DebateSendResult} {after : Database}
    → send r db ≡ ok (x, after)
    → Kept r.auth.debate_id db after
unfolding send
send-Kept r db {x} {after} h = elim (Result-cases (verify_membership r.auth r.membership_hash db)) [
  | inr (t, e) ↦ absurd (ground arith)
  | inl (author, v) ↦ elim (Result-cases (expire_if_due r.auth.debate_id r.now_ms r.now db)) [
    | inr (t, e) ↦ absurd (ground arith)
    | inl ((b, mid), e) ↦
        Kept-trans r.auth.debate_id db mid after
          (expire_if_due-Kept r.auth.debate_id r.now_ms r.now db e)
          (elim (Option-cases
            (message_by_client_id r.auth.debate_id r.auth.participant_id r.client_message_id mid)) [
              | inl fresh ↦ send_new-Kept r author mid {x = x} (ground arith)
              | inr (m, sent) ↦ replay-Kept r m mid {x = x} (ground arith)
            ])
  ]
]
