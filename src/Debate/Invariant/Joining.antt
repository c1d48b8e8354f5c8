-- ===== src/Debate/Invariant/Joining.antt =====
-- `create` and `join` of src/debate/store.ts, the invariant, and other debates.
use slnc_tr_z_mcp.Prelude.{
  ◌≤◌, String, true, none, some, List, [], ◌∷◌, ◌++◌, ◌≡◌, ◌≢◌, refl, inl, inr, arith, subst, ◌∙◌,
  ap, ok, Result-cases, Option-cases, first, any, any-select, eq_iff, ◌==◌,
}
use slnc_tr_z_mcp.Debate.Types.{
  DebateStatus, waiting, active, paused_timeout, stopped, completed, creator, is_waiting, DebateRow,
  ParticipantRow, MessageRow, DebateSnapshot,
}
use slnc_tr_z_mcp.Debate.Database.{
  Database, debate_row, participants_of, messages_of, update_debate, require_debate, insert_debate,
  insert_participant, participant_by_role, participant_clashes,
}
use slnc_tr_z_mcp.Debate.Database.Views.{
  SameView-trans, row-update_debate, update_debate-SameView, row-insert_debate, insert_debate_fresh,
  insert_debate-SameView, insert_debate_keeps, seats-insert_participant,
  insert_participant-SameView, insert_participant_keeps,
}
use slnc_tr_z_mcp.Debate.Store.{
  CreateRecord, create, new_debate, new_creator, JoinRecord, join, new_joiner, begin_debate,
}
use slnc_tr_z_mcp.Debate.Invariant.{Alone, Phase, Consistent, SoundAt-some}
use slnc_tr_z_mcp.Debate.Invariant.Steps.{
  Kept, Kept-at, require_debate-eq-ok, snapshot_keeps, SoundAt-of, SoundAt-none,
}

new-Consistent :
    (r : CreateRecord) → 2 ≤ r.max_turns → Consistent (new_debate r) (new_creator r ∷ []) []
unfolding new_debate new_creator
new-Consistent r enough = record {
  turns = refl;
  numbered = tt;
  counted = refl;
  phase = record {
    c = new_creator r;
    seats = refl;
    c_role = refl;
    unheard = refl;
    enough = enough;
  };
}

created-Kept :
    (r : CreateRecord) (db mid after : Database)
    → 2 ≤ r.max_turns
    → insert_debate (new_debate r) db ≡ ok mid
    → insert_participant (new_creator r) mid ≡ ok after
    → Kept r.debate_id db after
unfolding new_debate new_creator
created-Kept r db mid after enough e f =
    Kept-at r.debate_id db after
      (λ j ne.
        SameView-trans j db mid after (insert_debate-SameView (new_debate r) db e j ne)
          (insert_participant-SameView (new_creator r) mid f j ne))
      λ h.
        let empty =
          SoundAt-none r.debate_id db (insert_debate_fresh (new_debate r) db e) (h r.debate_id) in
        let kept = insert_debate_keeps (new_debate r) db e r.debate_id in
        let added = insert_participant_keeps (new_creator r) mid f r.debate_id in
        SoundAt-of r.debate_id after (new_debate r) (new_creator r ∷ []) []
          (added.0 ∙ row-insert_debate (new_debate r) db e)
          (seats-insert_participant (new_creator r) mid f
            ∙ ap (λ ps. ps ++ new_creator r ∷ []) (kept.0 ∙ empty.0))
          (added.1 ∙ kept.1 ∙ empty.1) (new-Consistent r enough)

pub create-Kept :
    (r : CreateRecord) (db : Database) {s : DebateSnapshot} {after : Database}
    → 2 ≤ r.max_turns
    → create r db ≡ ok (s, after)
    → Kept r.debate_id db after
unfolding create
create-Kept r db {s} {after} enough h = elim (Result-cases (insert_debate (new_debate r) db)) [
  | inr (t, e) ↦ absurd (ground arith)
  | inl (mid, e) ↦ elim (Result-cases (insert_participant (new_creator r) mid)) [
    | inr (t, f) ↦ absurd (ground arith)
    | inl (last, f) ↦
        subst (Kept r.debate_id db)
          (ground (arith, snapshot_keeps r.debate_id none last {s = s} {after = after}))
          (created-Kept r db mid last enough e f)
  ]
]

waiting-Phase :
    (st : DebateStatus) (d : DebateRow) (ps : List ParticipantRow)
    → is_waiting st ≡ true
    → Phase st d ps
    → Alone d ps
waiting-Phase waiting d ps h k = k
waiting-Phase active d ps h k = cc
waiting-Phase paused_timeout d ps h k = cc
waiting-Phase stopped d ps h k = cc
waiting-Phase completed d ps h k = cc

-- The primary key keeps the joiner apart from the creator.
joiner_distinct :
    (r : JoinRecord) (db after : Database) (c : ParticipantRow)
    → participants_of r.debate_id db ≡ c ∷ []
    → insert_participant (new_joiner r) db ≡ ok after
    → c.participant_id ≢ r.participant_id
unfolding insert_participant participant_clashes new_joiner participants_of any
joiner_distinct r db after c e h same = ground (
  arith,
  eq_iff c.participant_id r.participant_id,
  any-select (λ p. p.participant_id == r.participant_id) (λ p. p.debate_id == r.debate_id)
      db.participants,
)

joined-Consistent :
    (r : JoinRecord) (d : DebateRow) (c : ParticipantRow) (ms : List MessageRow)
    → is_waiting d.status ≡ true
    → Consistent d (c ∷ []) ms
    → c.participant_id ≢ r.participant_id
    → Consistent (begin_debate r c.participant_id d) (c ∷ new_joiner r ∷ []) ms
unfolding new_joiner
joined-Consistent r d c ms still k ne =
    let a = waiting-Phase d.status d (c ∷ []) still k.phase in
    record {
      turns = k.turns;
      numbered = k.numbered;
      counted = k.counted;
      phase = record {
        c = c;
        j = new_joiner r;
        seats = refl;
        c_role = ground (arith, a.seats, a.c_role);
        j_role = refl;
        distinct = ne;
        turn = record {
          holder = inl refl;
          room = omega (arith, a.unheard, a.enough);
          last = λ e. absurd (omega (arith, a.unheard, a.enough));
        };
      };
    }

only_creator :
    (id : String) (db : Database) (c first_found : ParticipantRow)
    → participants_of id db ≡ c ∷ []
    → participant_by_role id creator db ≡ some first_found
    → first_found ≡ c
unfolding participant_by_role first
only_creator id db c first_found e h = ground arith

joined-Kept :
    (r : JoinRecord) (db mid : Database) (d : DebateRow) (c : ParticipantRow)
    → debate_row r.debate_id db ≡ some d
    → is_waiting d.status ≡ true
    → participant_by_role r.debate_id creator db ≡ some c
    → insert_participant (new_joiner r) db ≡ ok mid
    → Kept r.debate_id db
        (update_debate r.debate_id (λ x. true) (begin_debate r c.participant_id) mid)
unfolding new_joiner update_debate participants_of messages_of
joined-Kept r db mid d c found still seated e =
    Kept-at r.debate_id db
      (update_debate r.debate_id (λ x. true) (begin_debate r c.participant_id) mid)
      (λ j ne. SameView-trans j db mid _ (insert_participant-SameView (new_joiner r) db e j ne) (
        update_debate-SameView r.debate_id (λ x. true) (begin_debate r c.participant_id) (λ x. refl)
          mid j ne))
      λ h.
        let k = SoundAt-some db r.debate_id d found (h r.debate_id) in
        let a = waiting-Phase d.status d (participants_of r.debate_id db) still k.phase in
        let same : c ≡ a.c = only_creator r.debate_id db a.c c a.seats seated in
        let seats : participants_of r.debate_id db ≡ c ∷ [] = rw same a.seats in
        let kept = insert_participant_keeps (new_joiner r) db e r.debate_id in
        SoundAt-of r.debate_id
          (update_debate r.debate_id (λ x. true) (begin_debate r c.participant_id) mid)
          (begin_debate r c.participant_id d) (c ∷ new_joiner r ∷ []) (messages_of r.debate_id db)
          (row-update_debate r.debate_id (λ x. true) (begin_debate r c.participant_id) (λ x. refl)
            mid d (kept.0 ∙ found))
          (seats-insert_participant (new_joiner r) db e ∙ ap (λ ps. ps ++ new_joiner r ∷ []) seats)
          kept.1
          (joined-Consistent r d c (messages_of r.debate_id db) still
            (subst (λ ps. Consistent d ps (messages_of r.debate_id db)) seats k)
            (joiner_distinct r db mid c seats e))

pub join-Kept :
    (r : JoinRecord) (db : Database) {s : DebateSnapshot} {after : Database}
    → join r db ≡ ok (s, after)
    → Kept r.debate_id db after
unfolding join
join-Kept r db {s} {after} h = elim (Result-cases (require_debate r.debate_id db)) [
  | inr (t, e) ↦ absurd (ground arith)
  | inl (d, e) ↦ elim (Option-cases (participant_by_role r.debate_id creator db)) [
    | inl f ↦ absurd (ground arith)
    | inr (c, f) ↦ elim (Result-cases (insert_participant (new_joiner r) db)) [
      | inr (t, g) ↦ absurd (ground arith)
      | inl (mid, g) ↦
          let last = update_debate r.debate_id (λ x. true) (begin_debate r c.participant_id) mid in
          subst (Kept r.debate_id db)
            (ground (arith, snapshot_keeps r.debate_id none last {s = s} {after = after}))
            (joined-Kept r db mid d c (require_debate-eq-ok r.debate_id db e) (ground arith) f g)
    ]
  ]
]
