-- ===== src/Debate/Commit.antt =====
-- The commit of a message in `send` (src/debate/store.ts): the table constraints, and the row that is
-- read back.
use slnc_tr_z_mcp.Prelude.{
  ℕ, ◌+◌, ◌≤◌, Bool, true, false, ◌&&◌, none, some, List, [], ◌∷◌, ◌++◌, ◌≡◌, refl, arith, ok, eqb,
  eq_refl, ◌==◌, first, any, select, length, first-any, select-append_one,
}
use slnc_tr_z_mcp.Debate.Types.{DebateRow, ParticipantRow, MessageRow}
use slnc_tr_z_mcp.Debate.Database.{
  Database, debate_row, participants_of, messages_of, require_debate, message_by_client_id,
  participant_by_id, insert_message, message_clashes, message_at, update_debate,
}
use slnc_tr_z_mcp.Debate.Database.Views.{row-update_debate}
use slnc_tr_z_mcp.Debate.Store.{snapshot, snapshot_from_row, as_message}
use slnc_tr_z_mcp.Debate.Store.Send.{SendRecord, commit}
use slnc_tr_z_mcp.Debate.Invariant.{Numbered}

-- A number above those of the messages is not taken.
pub Numbered-fresh :
    (n : ℕ) (ms : List MessageRow) (k : ℕ)
    → Numbered n ms
    → n + length ms ≤ k
    → any (λ m. eqb m.sequence k) ms ≡ false
unfolding any
Numbered-fresh n [] k h le = refl
Numbered-fresh n (m ∷ ms) k h le = ground (arith, Numbered-fresh (n + 1) ms k h.1)

pub first-none-any {ℓ} :
    {A : Type ℓ} (p : A → Bool) (xs : List A) → first p xs ≡ none → any p xs ≡ false
unfolding first any
first-none-any p [] h = refl
first-none-any p (x ∷ xs) h = ground (arith, first-none-any p xs)

pub first-some-any {ℓ} :
    {A : Type ℓ} (p q : A → Bool) (xs : List A) (x : A)
    → first p (select q xs) ≡ some x
    → any p xs ≡ true
unfolding first any select
first-some-any p q [] x h = ground arith
first-some-any p q (y ∷ ys) x h = ground (arith, first-some-any p q ys x)

-- A message that passed the checks of `send` violates no constraint.
pub message_fits :
    (m : MessageRow) (db : Database) (d : DebateRow) (p : ParticipantRow)
    → debate_row m.debate_id db ≡ some d
    → participant_by_id m.debate_id m.participant_id db ≡ some p
    → message_by_client_id m.debate_id m.participant_id m.client_message_id db ≡ none
    → Numbered 1 (messages_of m.debate_id db)
    → length (messages_of m.debate_id db) + 1 ≡ m.sequence
    → message_clashes m db ≡ false
unfolding message_clashes debate_row participant_by_id participants_of message_by_client_id
    messages_of
message_fits m db d p found author fresh numbered next = ground (
  arith,
  first-any (λ r. r.debate_id) m.debate_id db.debates d,
  first-some-any (λ r. r.participant_id == m.participant_id) (λ r. r.debate_id == m.debate_id)
      db.participants p,
  first-none-any
      (λ r. r.participant_id == m.participant_id && r.client_message_id == m.client_message_id)
      (select (λ r. r.debate_id == m.debate_id) db.messages),
  Numbered-fresh 1 (select (λ r. r.debate_id == m.debate_id) db.messages) m.sequence,
)

-- The tables after a commit.
unfoldable pub committed : MessageRow → (DebateRow → DebateRow) → Database → Database
committed m move db =
    update_debate m.debate_id (λ d. true) move (record db { messages = db.messages ++ m ∷ [] })

pub first-append_none {ℓ} :
    {A : Type ℓ} (p : A → Bool) (xs : List A) (y : A)
    → any p xs ≡ false
    → p y ≡ true
    → first p (xs ++ y ∷ []) ≡ some y
unfolding first any
first-append_none p [] y h e = ground arith
first-append_none p (x ∷ xs) y h e = ground (arith, first-append_none p xs y)

insert_message_fits :
    (m : MessageRow) (db : Database)
    → message_clashes m db ≡ false
    → insert_message m db ≡ ok (record db { messages = db.messages ++ m ∷ [] })
unfolding insert_message
insert_message_fits m db h = ground arith

pub read_back :
    (m : MessageRow) (move : DebateRow → DebateRow) (db : Database)
    → any (λ x. eqb x.sequence m.sequence) (messages_of m.debate_id db) ≡ false
    → message_at m.debate_id m.sequence (committed m move db) ≡ some m
unfolding committed update_debate message_at messages_of
read_back m move db fresh =
    rw (select-append_one (λ x. x.debate_id) m.debate_id db.messages m, eq_refl m.debate_id)
      (first-append_none (λ x. eqb x.sequence m.sequence) (messages_of m.debate_id db) m fresh
        (ground arith))

-- A commit that violates no constraint goes through, and reads back what it wrote.
pub commit_lem :
    (r : SendRecord) (m : MessageRow) (move : DebateRow → DebateRow) (db : Database) (d : DebateRow)
    → ((e : DebateRow) → (move e).debate_id ≡ e.debate_id)
    → r.auth.debate_id ≡ m.debate_id
    → debate_row m.debate_id db ≡ some d
    → message_clashes m db ≡ false
    → any (λ x. eqb x.sequence m.sequence) (messages_of m.debate_id db) ≡ false
    → commit r m move db
      ≡ ok (
        record {
          debate = snapshot_from_row (move d) none none (committed m move db);
          message = as_message m;
          idempotent_replay = false;
        },
        committed m move db,
      )
unfolding commit committed snapshot require_debate debate_row
commit_lem r m move db d keeps own found fits fresh =
    let sent = record db { messages = db.messages ++ m ∷ [] } in
    let inserted : insert_message m db ≡ ok sent = insert_message_fits m db fits in
    let row : debate_row m.debate_id (committed m move db) ≡ some (move d) =
      row-update_debate m.debate_id (λ x. true) move keeps sent d found in
    let back = read_back m move db fresh in rw (own, inserted) (ground arith)
