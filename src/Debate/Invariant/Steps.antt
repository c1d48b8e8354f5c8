-- ===== src/Debate/Invariant/Steps.antt =====
-- The statements of src/debate/store.ts that update one debate, and the invariant.
use slnc_tr_z_mcp.Prelude.{
  ℕ, String, Bool, true, Option, none, some, List, [], ◌≡◌, ◌≢◌, refl, ◌⊎◌, inl, inr, arith, subst,
  sym, ok, or_throw-eq-ok, Option-cases,
}
use slnc_tr_z_mcp.Debate.Types.{
  DebateStatus, waiting, active, paused_timeout, stopped, completed, DebateRow, ParticipantRow,
  MessageRow, is_active, is_paused, DebateSnapshot, DebatePauseReason,
}
use slnc_tr_z_mcp.Debate.Database.{
  Database, debate_row, participants_of, messages_of, update_debate, require_debate,
}
use slnc_tr_z_mcp.Debate.Database.Views.{
  SameView, SameView-refl, SameView-trans, row-update_debate, update_debate-SameView,
}
use slnc_tr_z_mcp.Debate.Store.{expire_if_due, pause_due, pause, snapshot}
use slnc_tr_z_mcp.Debate.Invariant.{
  Seated, Phase, Consistent, Sound, SoundAt, Inv, SoundAt-some, Inv-at,
}

-- The invariant is kept, and no debate but `id` is touched.
pub record Kept (id : String) (db after : Database) : Type 0 where
  pub inv : Inv db → Inv after
  pub others : (j : String) → j ≢ id → SameView j db after

pub Kept-refl : (id : String) (db : Database) → Kept id db db
Kept-refl id db = record { inv = λ h. h; others = λ j _. SameView-refl j db }

pub Kept-trans : (id : String) (a b c : Database) → Kept id a b → Kept id b c → Kept id a c
Kept-trans id a b c p q = record {
  inv = λ h. q.inv (p.inv h);
  others = λ j ne. SameView-trans j a b c (p.others j ne) (q.others j ne);
}

-- A step to a database where the debate `id` is consistent.
pub Kept-at :
    (id : String) (db after : Database)
    → ((j : String) → j ≢ id → SameView j db after)
    → (Inv db → SoundAt after id)
    → Kept id db after
Kept-at id db after others here = record {
  inv = λ h. Inv-at id db after h others (here h);
  others = others;
}

pub update_debate-Kept :
    (id : String) (p : DebateRow → Bool) (f : DebateRow → DebateRow)
    → ((d : DebateRow) → (f d).debate_id ≡ d.debate_id)
    → (db : Database) (d : DebateRow) → debate_row id db ≡ some d
    → p d ≡ true
    → (Consistent d (participants_of id db) (messages_of id db)
        → Consistent (f d) (participants_of id db) (messages_of id db))
    → Kept id db (update_debate id p f db)
unfolding update_debate participants_of messages_of
update_debate-Kept id p f keeps db d found passes step =
    Kept-at id db (update_debate id p f db) (update_debate-SameView id p f keeps db) λ h.
      subst (λ o. Sound o (participants_of id db) (messages_of id db))
        (sym (row-update_debate id p f keeps db d found))
        (rw passes (step (SoundAt-some db id d found (h id))))

-- Only the fields that the invariant speaks of matter.
pub Seated-cong :
    (d e : DebateRow) (ps : List ParticipantRow)
    → e.current_participant_id ≡ d.current_participant_id
    → e.sequence ≡ d.sequence
    → e.max_turns ≡ d.max_turns
    → e.finalizer_role ≡ d.finalizer_role
    → Seated d ps
    → Seated e ps
Seated-cong d e ps h1 h2 h3 h4 s = record {
  c = s.c;
  j = s.j;
  seats = s.seats;
  c_role = s.c_role;
  j_role = s.j_role;
  distinct = s.distinct;
  turn = record { holder = ground arith; room = ground arith; last = ground arith };
}

pub active-Phase :
    (st : DebateStatus) (d : DebateRow) (ps : List ParticipantRow)
    → is_active st ≡ true
    → Phase st d ps
    → Seated d ps
active-Phase active d ps h k = k
active-Phase waiting d ps h k = cc
active-Phase paused_timeout d ps h k = cc
active-Phase stopped d ps h k = cc
active-Phase completed d ps h k = cc

pub paused-Phase :
    (st : DebateStatus) (d : DebateRow) (ps : List ParticipantRow)
    → is_paused st ≡ true
    → Phase st d ps
    → Seated d ps
paused-Phase paused_timeout d ps h k = k
paused-Phase waiting d ps h k = cc
paused-Phase active d ps h k = cc
paused-Phase stopped d ps h k = cc
paused-Phase completed d ps h k = cc

pub pause-Consistent :
    (reason : DebatePauseReason) (now : ℕ) (d : DebateRow) (ps : List ParticipantRow)
    (ms : List MessageRow)
    → is_active d.status ≡ true
    → Consistent d ps ms
    → Consistent (pause reason now d) ps ms
pause-Consistent reason now d ps ms is_on k = record {
  turns = k.turns;
  numbered = k.numbered;
  counted = k.counted;
  phase =
      Seated-cong d (pause reason now d) ps refl refl refl refl
        (active-Phase d.status d ps is_on k.phase);
}

-- What an expiry that went through did.
pub record Expiry (id : String) (now_ms now : ℕ) (db after : Database) : Type 0 where
  pub d : DebateRow
  pub found : debate_row id db ≡ some d
  pub outcome :
      ((pause_due d now_ms ≡ none) × (after ≡ db))
      ⊎ ((reason : DebatePauseReason) × (is_active d.status ≡ true)
          × (pause_due d now_ms ≡ some reason)
          × (after ≡ update_debate id (λ r. is_active r.status) (pause reason now) db))

pause_due-is_active :
    (d : DebateRow) (t : ℕ) (reason : DebatePauseReason)
    → pause_due d t ≡ some reason
    → is_active d.status ≡ true
unfolding pause_due
pause_due-is_active d t reason h = ground arith

pub expire_if_due_inv :
    (id : String) (now_ms now : ℕ) (db : Database) {b : Bool} {after : Database}
    → expire_if_due id now_ms now db ≡ ok (b, after)
    → Expiry id now_ms now db after
unfolding expire_if_due require_debate
expire_if_due_inv id now_ms now db {b} {after} h = elim (Option-cases (debate_row id db)) [
  | inl missing ↦ cc (rw (missing) at h)
  | inr (d, found) ↦ elim (Option-cases (pause_due d now_ms)) [
    | inl idle ↦ record { d = d; found = found; outcome = inl (idle, ground arith) }
    | inr (reason, is_due) ↦ record {
      d = d;
      found = found;
      outcome = inr (reason, pause_due-is_active d now_ms reason is_due, is_due, ground arith);
    }
  ]
]

pub expire_if_due-Kept :
    (id : String) (now_ms now : ℕ) (db : Database) {b : Bool} {after : Database}
    → expire_if_due id now_ms now db ≡ ok (b, after)
    → Kept id db after
expire_if_due-Kept id now_ms now db {b} {after} h =
    let x = expire_if_due_inv id now_ms now db {b = b} {after = after} h in
    elim x.outcome [
      | inl (_, same) ↦ rw same (Kept-refl id db)
      | inr (reason, is_on, _, same) ↦ rw same (
          update_debate-Kept id (λ r. is_active r.status) (pause reason now) (λ d. refl) db x.d
            x.found is_on (pause-Consistent reason now x.d _ _ is_on))
    ]

pub require_debate-eq-ok :
    (id : String) (db : Database) {d : DebateRow}
    → require_debate id db ≡ ok d
    → debate_row id db ≡ some d
unfolding require_debate
require_debate-eq-ok id db h = or_throw-eq-ok (debate_row id db) _ h

pub snapshot_keeps :
    (id : String) (n : Option ℕ) (db : Database) {s : DebateSnapshot} {after : Database}
    → snapshot id n db ≡ ok (s, after)
    → after ≡ db
unfolding snapshot require_debate
snapshot_keeps id n db {s} {after} h = ground arith

-- The view of a debate, put together from its three parts.
pub SoundAt-of :
    (id : String) (db : Database) (d : DebateRow) (ps : List ParticipantRow) (ms : List MessageRow)
    → debate_row id db ≡ some d
    → participants_of id db ≡ ps
    → messages_of id db ≡ ms
    → Consistent d ps ms
    → SoundAt db id
SoundAt-of id db d ps ms e1 e2 e3 h = rw (e1, e2, e3) h

pub SoundAt-none :
    (id : String) (db : Database)
    → debate_row id db ≡ none
    → SoundAt db id
    → (participants_of id db ≡ []) × (messages_of id db ≡ [])
SoundAt-none id db e h = subst (λ o. Sound o (participants_of id db) (messages_of id db)) e h
