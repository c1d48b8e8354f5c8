-- ===== src/Debate/Invariant.antt =====
-- The invariant of every debate of src/debate/store.ts between two transactions.
pub mod Steps
pub mod Methods
pub mod Joining
pub mod Sending
pub mod SendMethod
use slnc_tr_z_mcp.Prelude.{
  ℕ, suc, ◌+◌, ◌≤◌, ◌<◌, String, Option, none, some, List, [], ◌∷◌, ◌++◌, ◌≡◌, ◌≢◌, refl, ◌⊎◌, inl,
  inr, arith, length, subst, sym, str_dec,
}
use slnc_tr_z_mcp.Debate.Types.{
  DebateStatus, waiting, active, paused_timeout, stopped, completed, DebateParticipantRole, creator,
  joiner, DebateRow, ParticipantRow, MessageRow,
}
use slnc_tr_z_mcp.Debate.Database.{Database, debate_row, participants_of, messages_of}
use slnc_tr_z_mcp.Debate.Database.Views.{SameView}

-- The messages carry the sequence numbers from `n` on, without a gap.
abbrev pub Numbered : ℕ → List MessageRow → Type 0
Numbered n [] = Unit
Numbered n (m ∷ ms) = (m.sequence ≡ n) × Numbered (n + 1) ms

abbrev pub seat_id : DebateParticipantRole → ParticipantRow → ParticipantRow → String
seat_id creator c j = c.participant_id
seat_id joiner c j = j.participant_id

-- Whose turn it is: one of the two, and the finalizer where one turn is left.
pub record Turn (d : DebateRow) (c j : ParticipantRow) : Type 0 where
  pub holder :
      (d.current_participant_id ≡ some c.participant_id)
      ⊎ (d.current_participant_id ≡ some j.participant_id)
  pub room : d.sequence < d.max_turns
  pub last :
      d.sequence + 1 ≡ d.max_turns → d.current_participant_id ≡ some (seat_id d.finalizer_role c j)

-- The two participants are the creator and the joiner, who are distinct.
pub record Seated (d : DebateRow) (ps : List ParticipantRow) : Type 0 where
  pub c : ParticipantRow
  pub j : ParticipantRow
  pub seats : ps ≡ c ∷ j ∷ []
  pub c_role : c.role ≡ creator
  pub j_role : j.role ≡ joiner
  pub distinct : c.participant_id ≢ j.participant_id
  pub turn : Turn d c j

-- Only the creator has a seat, and nothing was said.
pub record Alone (d : DebateRow) (ps : List ParticipantRow) : Type 0 where
  pub c : ParticipantRow
  pub seats : ps ≡ c ∷ []
  pub c_role : c.role ≡ creator
  pub unheard : d.sequence ≡ 0
  pub enough : 2 ≤ d.max_turns

abbrev pub Phase : DebateStatus → DebateRow → List ParticipantRow → Type 0
Phase waiting d ps = Alone d ps
Phase active d ps = Seated d ps
Phase paused_timeout d ps = Seated d ps
Phase stopped d ps = d.current_participant_id ≡ none
Phase completed d ps = (d.current_participant_id ≡ none) × (d.sequence ≡ d.max_turns)

pub record Consistent (d : DebateRow) (ps : List ParticipantRow) (ms : List MessageRow)
    : Type 0 where
  pub turns : d.completed_turns ≡ d.sequence
  pub numbered : Numbered 1 ms
  pub counted : length ms ≡ d.sequence
  pub phase : Phase d.status d ps

-- A debate that is not there has left no participant and no message.
abbrev pub Sound : Option DebateRow → List ParticipantRow → List MessageRow → Type 0
Sound none ps ms = (ps ≡ []) × (ms ≡ [])
Sound (some d) ps ms = Consistent d ps ms

abbrev pub SoundAt : Database → String → Type 0
SoundAt db j = Sound (debate_row j db) (participants_of j db) (messages_of j db)

abbrev pub Inv : Database → Type 0
Inv db = (j : String) → SoundAt db j

pub SoundAt-some :
    (db : Database) (j : String) (d : DebateRow)
    → debate_row j db ≡ some d
    → SoundAt db j
    → Consistent d (participants_of j db) (messages_of j db)
SoundAt-some db j d e h = subst (λ o. Sound o (participants_of j db) (messages_of j db)) e h

pub SoundAt-SameView :
    (db after : Database) (j : String) → SameView j db after → SoundAt db j → SoundAt after j
SoundAt-SameView db after j v h = rw (v.row, v.seats, v.log) h

-- A step that leaves the other debates as they are keeps the invariant if it keeps it at its own.
pub Inv-at :
    (id : String) (db after : Database)
    → Inv db
    → ((j : String) → j ≢ id → SameView j db after)
    → SoundAt after id
    → Inv after
Inv-at id db after h others here j = elim (str_dec j id) [
  | inl e ↦ subst (SoundAt after) (sym e) here
  | inr ne ↦ SoundAt-SameView db after j (others j ne) (h j)
]
