-- ===== src/Debate/Isolation.antt =====
-- What one debate sees of the calls on another (src/debate/store.ts).
use slnc_tr_z_mcp.Prelude.{String, ◌≡◌, ◌≢◌, ◌∙◌, ok}
use slnc_tr_z_mcp.Debate.Database.{Database}
use slnc_tr_z_mcp.Debate.Database.Views.{SameView, SameView-refl}
use slnc_tr_z_mcp.Debate.Store.{Body, DebateStore, transaction, create, join, read_member}
use slnc_tr_z_mcp.Debate.Store.Send.{send}
use slnc_tr_z_mcp.Debate.Store.Owner.{
  stop_member, owner_read, owner_stop, owner_delete, owner_resume,
}
use slnc_tr_z_mcp.Debate.Invariant.Steps.{Kept}
use slnc_tr_z_mcp.Debate.Invariant.Methods.{
  read_member-Kept, stop_member-Kept, owner_read-Kept, owner_stop-Kept, owner_delete-Kept,
  owner_resume-Kept,
}
use slnc_tr_z_mcp.Debate.Invariant.Joining.{create-Kept, join-Kept}
use slnc_tr_z_mcp.Debate.Invariant.SendMethod.{send-Kept}
use slnc_tr_z_mcp.Debate.History.{
  Call, creates, joins, reads, sends, stops, owner_reads, owner_lists, owner_stops, owner_deletes,
  owner_resumes, closes, step, IsAdmissible, transaction_keeps,
}

-- The debate that a call names; `ownerList` and `close` name none.
abbrev pub Names : Call → String → Type 0
Names (creates r) id = r.debate_id ≡ id
Names (joins r) id = r.debate_id ≡ id
Names (reads r) id = r.auth.debate_id ≡ id
Names (sends r) id = r.auth.debate_id ≡ id
Names (stops r) id = r.auth.debate_id ≡ id
Names (owner_reads i now_ms now n) id = i ≡ id
Names (owner_lists now_ms now limit) id = ⊥
Names (owner_stops i now_ms now) id = i ≡ id
Names (owner_deletes i now_ms now) id = i ≡ id
Names (owner_resumes i now_ms now deadline) id = i ≡ id
Names closes id = ⊥

module _ (j : String) (s : DebateStore) where
  apart :
      {A : Type 0} (body : Body A) {id named : String}
      → id ≡ named
      → j ≢ named
      → ((a : A) (after : Database) → body s.database ≡ ok (a, after) → Kept id s.database after)
      → SameView j s.database (transaction body s).1.database
  apart body e ne kept =
      transaction_keeps (SameView j s.database) body s
        (λ a after h. (kept a after h).others j (λ p. ne (p ∙ e))) (SameView-refl j s.database)

-- A call that names one debate leaves the row, the participants and the messages of every other
-- debate as they were, whether it goes through or throws.
pub step-SameView :
    (s : DebateStore) (c : Call) (id j : String)
    → IsAdmissible c
    → Names c id
    → j ≢ id
    → SameView j s.database (step s c).database
unfolding step
step-SameView s (creates r) id j a n ne =
    apart j s (create r) n ne λ x after e. create-Kept r s.database a e
step-SameView s (joins r) id j a n ne =
    apart j s (join r) n ne λ x after e. join-Kept r s.database e
step-SameView s (reads r) id j a n ne =
    apart j s (read_member r) n ne λ x after e. read_member-Kept r s.database e
step-SameView s (sends r) id j a n ne =
    apart j s (send r) n ne λ x after e. send-Kept r s.database e
step-SameView s (stops r) id j a n ne =
    apart j s (stop_member r) n ne λ x after e. stop_member-Kept r s.database e
step-SameView s (owner_reads i t now m) id j a n ne =
    apart j s (owner_read i t now m) n ne λ x after e. owner_read-Kept i t now m s.database e
step-SameView s (owner_stops i t now) id j a n ne =
    apart j s (owner_stop i t now) n ne λ x after e. owner_stop-Kept i t now s.database e
step-SameView s (owner_deletes i t now) id j a n ne =
    apart j s (owner_delete i t now) n ne λ x after e. owner_delete-Kept i t now s.database e
step-SameView s (owner_resumes i t now d) id j a n ne =
    apart j s (owner_resume i t now d) n ne λ x after e. owner_resume-Kept i t now d s.database e
step-SameView s (owner_lists t now limit) id j a n ne = absurd n
step-SameView s closes id j a n ne = absurd n
