-- ===== src/Debate/Invariant/Sending.antt =====
-- The parts of `send` of src/debate/store.ts, the invariant, and other debates.
use slnc_tr_z_mcp.Prelude.{
  ℕ, ◌+◌, String, true, none, some, List, [], ◌∷◌, ◌++◌, ◌≡◌, ◌≢◌, refl, ◌⊎◌, inl, inr, arith,
  subst, ◌∙◌, ap, ok, Result-cases, first, eq_iff, ◌==◌, length, length-append, eqb, if◌then◌else◌,
}
use slnc_tr_z_mcp.Debate.Types.{
  DebateStatus, waiting, active, paused_timeout, stopped, completed, creator, joiner, is_active,
  DebateRow, ParticipantRow, MessageRow, DebateSendResult, DebateParticipantRole,
}
use slnc_tr_z_mcp.Debate.Database.{
  Database, debate_row, participants_of, messages_of, update_debate, insert_message,
  participant_by_role, other_participant,
}
use slnc_tr_z_mcp.Debate.Database.Views.{
  SameView-trans, row-update_debate, update_debate-SameView, log-insert_message,
  insert_message-SameView, insert_message_keeps,
}
use slnc_tr_z_mcp.Debate.Store.Send.{
  SendRecord, next_participant, new_message, finish, pass_turn, commit,
}
use slnc_tr_z_mcp.Debate.Invariant.{
  Numbered, seat_id, Seated, Turn, Phase, Consistent, SoundAt-some,
}
use slnc_tr_z_mcp.Debate.Invariant.Steps.{Kept, Kept-at, snapshot_keeps, SoundAt-of}

pub Numbered-append :
    (n : ℕ) (ms : List MessageRow) (m : MessageRow)
    → Numbered n ms
    → m.sequence ≡ n + length ms
    → Numbered n (ms ++ m ∷ [])
Numbered-append n [] m h e = (omega arith, tt)
Numbered-append n (x ∷ ms) m h e = (h.0, Numbered-append (n + 1) ms m h.1 (omega arith))

pub record Next (c j p : ParticipantRow) (current : String) (role : DebateParticipantRole)
    (next max_turns : ℕ) : Type 0 where
  pub one : (p.participant_id ≡ c.participant_id) ⊎ (p.participant_id ≡ j.participant_id)
  pub finalizer : next + 1 ≡ max_turns → p.participant_id ≡ seat_id role c j
  pub other : next + 1 ≢ max_turns → p.participant_id ≢ current

pub seat_row : DebateParticipantRole → ParticipantRow → ParticipantRow → ParticipantRow
seat_row creator c j = c
seat_row joiner c j = j

pub seat_row_id :
    (role : DebateParticipantRole) (c j : ParticipantRow)
    → (seat_row role c j).participant_id ≡ seat_id role c j
unfolding seat_row
seat_row_id creator c j = refl
seat_row_id joiner c j = refl

-- Who is next: the finalizer for the last turn, and the other one before.
pub next_row :
    ParticipantRow → ParticipantRow → String → DebateParticipantRole → ℕ → ℕ → ParticipantRow
unfolding seat_row
next_row c j current role next max_turns =
    if eqb (next + 1) max_turns
    then seat_row role c j
    else if c.participant_id == current
    then j
    else c

module _ (id : String) (db : Database) (c j : ParticipantRow) (current : String)
    (role : DebateParticipantRole) (next max_turns : ℕ) (seats : participants_of id db ≡ c ∷ j ∷ [])
    (c_role : c.role ≡ creator) (j_role : j.role ≡ joiner)
    (distinct : c.participant_id ≢ j.participant_id) where
  pub role_found : participant_by_role id role db ≡ some (seat_row role c j)
  unfolding participant_by_role first seat_row
  role_found = role_of role
    where
      role_of : (r : DebateParticipantRole) → participant_by_role id r db ≡ some (seat_row r c j)
      role_of creator = ground arith
      role_of joiner = ground arith

  other_found :
      other_participant id current db ≡ some (if c.participant_id == current then j else c)
  unfolding other_participant first
  other_found = ground (arith, eq_iff c.participant_id current, eq_iff j.participant_id current)

  -- With both seats taken there always is a next participant.
  pub next_participant_found :
      next_participant id current role next max_turns db
      ≡ ok (next_row c j current role next max_turns)
  unfolding next_participant next_row
  next_participant_found = ground (arith, role_found, other_found)

  pub next_row-Next :
      Next c j (next_row c j current role next max_turns) current role next max_turns
  unfolding next_row
  next_row-Next = next_of role
    where
      next_of :
          (r : DebateParticipantRole)
          → Next c j (next_row c j current r next max_turns) current r next max_turns
      next_of creator = ground (arith, eq_iff c.participant_id current)
      next_of joiner = ground (arith, eq_iff c.participant_id current)

-- A consistent row after `move`, with the message `m` at the end of the log.
abbrev pub Moves : String → Database → MessageRow → (DebateRow → DebateRow) → DebateRow → Type 0
Moves id db m move d =
    Consistent d (participants_of id db) (messages_of id db)
    → Consistent (move d) (participants_of id db) (messages_of id db ++ m ∷ [])

moved-Kept :
    (m : MessageRow) (move : DebateRow → DebateRow) (db sent : Database) (d : DebateRow)
    → ((e : DebateRow) → (move e).debate_id ≡ e.debate_id)
    → debate_row m.debate_id db ≡ some d
    → Moves m.debate_id db m move d
    → insert_message m db ≡ ok sent
    → Kept m.debate_id db (update_debate m.debate_id (λ y. true) move sent)
unfolding update_debate participants_of messages_of
moved-Kept m move db sent d keeps found step e =
    Kept-at m.debate_id db (update_debate m.debate_id (λ y. true) move sent)
      (λ j ne.
        SameView-trans j db sent _ (insert_message-SameView m db e j ne)
          (update_debate-SameView m.debate_id (λ y. true) move keeps sent j ne))
      λ h.
        let kept = insert_message_keeps m db e m.debate_id in
        SoundAt-of m.debate_id (update_debate m.debate_id (λ y. true) move sent) (move d)
          (participants_of m.debate_id db) (messages_of m.debate_id db ++ m ∷ [])
          (row-update_debate m.debate_id (λ y. true) move keeps sent d (kept.0 ∙ found)) kept.1
          (log-insert_message m db e) (step (SoundAt-some db m.debate_id d found (h m.debate_id)))

-- The commit of a message keeps the invariant where the moved row is consistent with it.
pub commit-Kept :
    (r : SendRecord) (m : MessageRow) (move : DebateRow → DebateRow) (db : Database) (d : DebateRow)
    {x : DebateSendResult} {after : Database}
    → ((e : DebateRow) → (move e).debate_id ≡ e.debate_id)
    → r.auth.debate_id ≡ m.debate_id
    → debate_row r.auth.debate_id db ≡ some d
    → Moves r.auth.debate_id db m move d
    → commit r m move db ≡ ok (x, after)
    → Kept r.auth.debate_id db after
unfolding commit
commit-Kept r m move db d {x} {after} keeps own found step h =
    elim (Result-cases (insert_message m db)) [
      | inr (t, e) ↦ absurd (ground arith)
      | inl (sent, e) ↦
          let moved = update_debate r.auth.debate_id (λ y. true) move sent in
          let kept : Kept r.auth.debate_id db moved = rw own (
            moved-Kept m move db sent d keeps (rw own at found)
              (subst (λ id. Moves id db m move d) own step) e) in
          subst (Kept r.auth.debate_id db)
            (ground
              (arith, snapshot_keeps r.auth.debate_id none moved {s = x.debate} {after = after}))
            kept
    ]

pub finish-Consistent :
    (r : SendRecord) (author : ParticipantRow) (d : DebateRow) (ps : List ParticipantRow)
    (ms : List MessageRow)
    → d.completed_turns + 1 ≡ d.max_turns
    → Consistent d ps ms
    → Consistent
        (finish r (d.sequence + 1) (d.completed_turns + 1) d)
        ps
        (ms ++ new_message r author d none ∷ [])
unfolding new_message
finish-Consistent r author d ps ms last k = record {
  turns = omega (arith, k.turns);
  numbered =
      Numbered-append 1 ms (new_message r author d none) k.numbered (omega (arith, k.counted));
  counted = omega (arith, k.counted, length-append ms (new_message r author d none ∷ []));
  phase = (refl, omega (arith, k.turns));
}

pub pass_turn-Consistent :
    (r : SendRecord) (author p : ParticipantRow) (d : DebateRow) (ps : List ParticipantRow)
    (ms : List MessageRow) (s : Seated d ps)
    → is_active d.status ≡ true
    → d.completed_turns + 1 ≢ d.max_turns
    → Next s.c s.j p r.auth.participant_id d.finalizer_role (d.completed_turns + 1) d.max_turns
    → Consistent d ps ms
    → Consistent
        (pass_turn r p.participant_id (d.sequence + 1) (d.completed_turns + 1) d)
        ps
        (ms ++ new_message r author d (some p.participant_id) ∷ [])
unfolding new_message
pass_turn-Consistent r author p d ps ms s is_on more n k = record {
  turns = omega (arith, k.turns);
  numbered =
      Numbered-append 1 ms (new_message r author d (some p.participant_id)) k.numbered
        (omega (arith, k.counted));
  counted =
      omega
        (arith, k.counted, length-append ms (new_message r author d (some p.participant_id) ∷ []));
  phase = still_active d.status is_on;
}
  where
    moved : DebateRow
    moved = pass_turn r p.participant_id (d.sequence + 1) (d.completed_turns + 1) d

    turn : Turn moved s.c s.j
    turn = record {
      holder = ground (arith, n.one);
      room = omega (arith, k.turns, s.turn.room);
      last = λ e. ap some (n.finalizer (omega (arith, k.turns)));
    }

    still_active : (st : DebateStatus) → is_active st ≡ true → Phase st moved ps
    still_active active h = record {
      c = s.c;
      j = s.j;
      seats = s.seats;
      c_role = s.c_role;
      j_role = s.j_role;
      distinct = s.distinct;
      turn = turn;
    }
    still_active waiting h = cc
    still_active paused_timeout h = cc
    still_active stopped h = cc
    still_active completed h = cc
