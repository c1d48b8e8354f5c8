-- ===== src/Debate/Database/Views.antt =====
-- What one debate sees of the tables (its row, its participants, its messages) after each statement.
use slnc_tr_z_mcp.Prelude.{
  String, Bool, none, some, [], ◌∷◌, ◌++◌, ◌≡◌, ◌≢◌, refl, arith, eq_iff, eq_refl, if◌then◌else◌,
  first_key, first-update, first-delete, first-update_ne, select-delete, first-append,
  select-append_one, first-not_any, ok, ◌∙◌,
}
use slnc_tr_z_mcp.Debate.Types.{DebateRow, ParticipantRow, MessageRow}
use slnc_tr_z_mcp.Debate.Database.{
  Database, debate_row, participants_of, messages_of, insert_debate, insert_participant,
  insert_message, update_debate, delete_debate,
}

-- The debate `j` is as it was.
pub record SameView (j : String) (db after : Database) : Type 0 where
  pub row : debate_row j after ≡ debate_row j db
  pub seats : participants_of j after ≡ participants_of j db
  pub log : messages_of j after ≡ messages_of j db

pub SameView-refl : (j : String) (db : Database) → SameView j db db
SameView-refl j db = record { row = refl; seats = refl; log = refl }

pub SameView-trans :
    (j : String) (a b c : Database) → SameView j a b → SameView j b c → SameView j a c
SameView-trans j a b c p q = record {
  row = q.row ∙ p.row;
  seats = q.seats ∙ p.seats;
  log = q.log ∙ p.log;
}

pub debate_row_id :
    (id : String) (db : Database) (d : DebateRow) → debate_row id db ≡ some d → d.debate_id ≡ id
unfolding debate_row
debate_row_id id db d h = first_key (λ r. r.debate_id) id db.debates d h

module _ (id : String) (p : DebateRow → Bool) (f : DebateRow → DebateRow)
    (keeps : (d : DebateRow) → (f d).debate_id ≡ d.debate_id) (db : Database) where
  pub row-update_debate :
      (d : DebateRow)
      → debate_row id db ≡ some d
      → debate_row id (update_debate id p f db) ≡ some (if p d then f d else d)
  unfolding debate_row update_debate
  row-update_debate d h =
      rw (first-update (λ r. r.debate_id) id id p f keeps db.debates, h)
        (ground (arith, eq_iff d.debate_id id, debate_row_id id db d))

  pub update_debate-SameView : (j : String) → j ≢ id → SameView j db (update_debate id p f db)
  unfolding debate_row update_debate participants_of messages_of
  update_debate-SameView j ne = record {
    row = first-update_ne (λ r. r.debate_id) j id p f keeps ne db.debates;
    seats = refl;
    log = refl;
  }

module _ (m : MessageRow) (db : Database) {after : Database}
    (h : insert_message m db ≡ ok after) where
  pub log-insert_message : messages_of m.debate_id after ≡ messages_of m.debate_id db ++ m ∷ []
  unfolding insert_message messages_of
  log-insert_message =
      ground
        (arith, select-append_one (λ r. r.debate_id) m.debate_id db.messages m, eq_refl m.debate_id)

  pub insert_message-SameView : (j : String) → j ≢ m.debate_id → SameView j db after
  unfolding insert_message messages_of participants_of debate_row
  insert_message-SameView j ne = record {
    row = ground arith;
    seats = ground arith;
    log =
        ground (arith, select-append_one (λ r. r.debate_id) j db.messages m, eq_iff m.debate_id j);
  }

  pub insert_message_keeps :
      (id : String)
      → (debate_row id after ≡ debate_row id db)
        × (participants_of id after ≡ participants_of id db)
  unfolding insert_message participants_of debate_row
  insert_message_keeps id = (ground arith, ground arith)

module _ (p : ParticipantRow) (db : Database) {after : Database}
    (h : insert_participant p db ≡ ok after) where
  pub seats-insert_participant :
      participants_of p.debate_id after ≡ participants_of p.debate_id db ++ p ∷ []
  unfolding insert_participant participants_of
  seats-insert_participant = ground (
    arith,
    select-append_one (λ r. r.debate_id) p.debate_id db.participants p,
    eq_refl p.debate_id,
  )

  pub insert_participant-SameView : (j : String) → j ≢ p.debate_id → SameView j db after
  unfolding insert_participant messages_of participants_of debate_row
  insert_participant-SameView j ne = record {
    row = ground arith;
    seats =
        ground
          (arith, select-append_one (λ r. r.debate_id) j db.participants p, eq_iff p.debate_id j);
    log = ground arith;
  }

  pub insert_participant_keeps :
      (id : String)
      → (debate_row id after ≡ debate_row id db) × (messages_of id after ≡ messages_of id db)
  unfolding insert_participant messages_of debate_row
  insert_participant_keeps id = (ground arith, ground arith)

module _ (d : DebateRow) (db : Database) {after : Database}
    (h : insert_debate d db ≡ ok after) where
  pub row-insert_debate : debate_row d.debate_id after ≡ some d
  unfolding insert_debate debate_row
  row-insert_debate =
      ground (arith, first-append (λ r. r.debate_id) d.debate_id db.debates d, eq_refl d.debate_id)

  pub insert_debate_fresh : debate_row d.debate_id db ≡ none
  unfolding insert_debate debate_row
  insert_debate_fresh = ground (arith, first-not_any (λ r. r.debate_id) d.debate_id db.debates)

  pub insert_debate-SameView : (j : String) → j ≢ d.debate_id → SameView j db after
  unfolding insert_debate messages_of participants_of debate_row
  insert_debate-SameView j ne = record {
    row = ground (
      arith,
      first-append (λ r. r.debate_id) j db.debates d,
      eq_iff d.debate_id j,
      first-not_any (λ r. r.debate_id) j db.debates,
    );
    seats = ground arith;
    log = ground arith;
  }

  pub insert_debate_keeps :
      (id : String)
      → (participants_of id after ≡ participants_of id db)
        × (messages_of id after ≡ messages_of id db)
  unfolding insert_debate messages_of participants_of
  insert_debate_keeps id = (ground arith, ground arith)

module _ (id : String) (db : Database) where
  pub delete_debate-SameView : (j : String) → j ≢ id → SameView j db (delete_debate id db)
  unfolding delete_debate messages_of participants_of debate_row
  delete_debate-SameView j ne = record {
    row = ground (arith, first-delete (λ r. r.debate_id) j id db.debates, eq_iff id j);
    seats = ground (arith, select-delete (λ r. r.debate_id) j id db.participants, eq_iff id j);
    log = ground (arith, select-delete (λ r. r.debate_id) j id db.messages, eq_iff id j);
  }

  -- A deleted debate leaves nothing.
  pub delete_debate_self :
      (debate_row id (delete_debate id db) ≡ none)
      × (participants_of id (delete_debate id db) ≡ [])
      × (messages_of id (delete_debate id db) ≡ [])
  unfolding delete_debate messages_of participants_of debate_row
  delete_debate_self = (
    ground (arith, first-delete (λ r. r.debate_id) id id db.debates, eq_refl id),
    ground (arith, select-delete (λ r. r.debate_id) id id db.participants, eq_refl id),
    ground (arith, select-delete (λ r. r.debate_id) id id db.messages, eq_refl id),
  )
