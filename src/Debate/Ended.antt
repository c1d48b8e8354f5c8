-- ===== src/Debate/Ended.antt =====
-- Debates of src/debate/store.ts that are over, under all calls.
pub mod Methods
use slnc_tr_z_mcp.Prelude.{
  ℕ, String, Bool, true, Option, some, List, [], ◌∷◌, ◌≡◌, ◌≢◌, inl, inr, str_dec, arith, subst,
  sym, ◌∙◌, ok, err, Result-cases,
}
use slnc_tr_z_mcp.Debate.Types.{DebateRow, DebateListItem}
use slnc_tr_z_mcp.Debate.Database.{Database, debate_row, active_debates}
use slnc_tr_z_mcp.Debate.Database.Views.{SameView, SameView-refl, SameView-trans}
use slnc_tr_z_mcp.Debate.Store.{
  Body, DebateStore, transaction, close, create, join, read_member, expire_if_due,
}
use slnc_tr_z_mcp.Debate.Store.Send.{send}
use slnc_tr_z_mcp.Debate.Store.Owner.{
  stop_member, owner_read, owner_list, owner_stop, owner_delete, owner_resume, expire_all,
}
use slnc_tr_z_mcp.Debate.Invariant.Steps.{Kept, expire_if_due-Kept}
use slnc_tr_z_mcp.Debate.Invariant.Methods.{
  read_member-Kept, stop_member-Kept, owner_read-Kept, owner_stop-Kept, owner_delete-Kept,
  owner_resume-Kept,
}
use slnc_tr_z_mcp.Debate.Invariant.Joining.{create-Kept, join-Kept}
use slnc_tr_z_mcp.Debate.Invariant.SendMethod.{send-Kept}
use slnc_tr_z_mcp.Debate.History.{
  Call, creates, joins, reads, sends, stops, owner_reads, owner_lists, owner_stops, owner_deletes,
  owner_resumes, closes, step, IsAdmissible, transaction_keeps,
}
use slnc_tr_z_mcp.Debate.Ended.Methods.{
  is_ended, expire-ended, join-ended, read-ended, send-ended, stop_member-ended, owner_stop-ended,
  owner_read-ended, owner_resume-ended, create-ended,
}

expiry-ended :
    (named : String) (t now : ℕ) (id : String) (db : Database) (d : DebateRow)
    → debate_row id db ≡ some d
    → is_ended d.status ≡ true
    → (b : Bool) (after : Database) → expire_if_due named t now db ≡ ok (b, after)
    → SameView id db after
expiry-ended named t now id db d found over b after h = elim (str_dec named id) [
  | inl e ↦
      subst (SameView id db) (ground (arith, e, expire-ended id db d found over t now))
        (SameView-refl id db)
  | inr ne ↦ (expire_if_due-Kept named t now db h).others id (λ e. ne (sym e))
]

-- The list of all debates expires others, and not one that is over.
expire_all-ended :
    (ds : List DebateRow) (t now : ℕ) (id : String) (db : Database) (d : DebateRow)
    → debate_row id db ≡ some d
    → is_ended d.status ≡ true
    → (after : Database) → expire_all ds t now db ≡ ok (tt, after)
    → SameView id db after
unfolding expire_all
expire_all-ended [] t now id db d found over after h =
    subst (SameView id db) (ground arith) (SameView-refl id db)
expire_all-ended (x ∷ xs) t now id db d found over after h =
    elim (Result-cases (expire_if_due x.debate_id t now db)) [
      | inr (w, bad) ↦ absurd (ground arith)
      | inl ((b, mid), e) ↦
          let step = expiry-ended x.debate_id t now id db d found over b mid e in
          SameView-trans id db mid after step
            (expire_all-ended xs t now id mid d (step.row ∙ found) over after (ground arith))
    ]

owner_list-ended :
    (t now limit : ℕ) (id : String) (db : Database) (d : DebateRow)
    → debate_row id db ≡ some d
    → is_ended d.status ≡ true
    → (x : List DebateListItem) (after : Database) → owner_list t now limit db ≡ ok (x, after)
    → SameView id db after
unfolding owner_list
owner_list-ended t now limit id db d found over x after h =
    elim (Result-cases (expire_all (active_debates db) t now db)) [
      | inr (w, bad) ↦ absurd (ground arith)
      | inl ((_, mid), e) ↦
          expire_all-ended (active_debates db) t now id db d found over after (ground arith)
    ]

abbrev pub Deletes : Call → String → Type 0
Deletes (owner_deletes i now_ms now) id = i ≡ id
Deletes _ id = ⊥

module _ (s : DebateStore) (id : String) (d : DebateRow) (found : debate_row id s.database ≡ some d)
    (over : is_ended d.status ≡ true) where
  -- A body on the debate `named`, which does nothing where that is the debate `id`.
  idle :
      {A : Type 0} (body : Body A) (named : String)
      → ((a : A) (after : Database) → body s.database ≡ ok (a, after) → Kept named s.database after)
      → ((a : A) (after : Database)
          → named ≡ id
          → body s.database ≡ ok (a, after)
          → after ≡ s.database)
      → SameView id s.database (transaction body s).1.database
  idle body named kept same =
      transaction_keeps (SameView id s.database) body s
        (λ a after h. elim (str_dec named id) [
          | inl e ↦
              subst (SameView id s.database) (sym (same a after e h)) (SameView-refl id s.database)
          | inr ne ↦ (kept a after h).others id (λ e. ne (sym e))
        ])
        (SameView-refl id s.database)

  -- Once a debate is stopped or completed, no call changes its row, its participants or its
  -- messages, except its deletion by the owner. (A `create` asks for two turns at least.)
  pub step-ended :
      (c : Call) → IsAdmissible c → ¬ Deletes c id → SameView id s.database (step s c).database
  unfolding step close
  step-ended (creates r) a keep =
      idle (create r) (r.debate_id) (λ x after h. create-Kept r s.database a h)
        (λ x after e h. absurd (create-ended id s.database d found over r x after e h))
  step-ended (joins r) a keep =
      idle (join r) (r.debate_id) (λ x after h. join-Kept r s.database h)
        (λ x after e h. absurd (join-ended id s.database d found over r x after e h))
  step-ended (reads r) a keep =
      idle (read_member r) (r.auth.debate_id) (λ x after h. read_member-Kept r s.database h)
        (λ x after e h. read-ended id s.database d found over r x after e h)
  step-ended (sends r) a keep =
      idle (send r) (r.auth.debate_id) (λ x after h. send-Kept r s.database h)
        (λ x after e h. send-ended id s.database d found over r x after e h)
  step-ended (stops r) a keep =
      idle (stop_member r) (r.auth.debate_id) (λ x after h. stop_member-Kept r s.database h)
        (λ x after e h. stop_member-ended id s.database d found over r x after e h)
  step-ended (owner_reads i t now n) a keep =
      idle (owner_read i t now n) (i) (λ x after h. owner_read-Kept i t now n s.database h)
        (λ x after e h.
          owner_read-ended id s.database d found over t now n x after
            (subst (λ k. owner_read k t now n s.database ≡ ok (x, after)) e h))
  step-ended (owner_stops i t now) a keep =
      idle (owner_stop i t now) (i) (λ x after h. owner_stop-Kept i t now s.database h)
        (λ x after e h.
          owner_stop-ended id s.database d found over t now x after
            (subst (λ k. owner_stop k t now s.database ≡ ok (x, after)) e h))
  step-ended (owner_deletes i t now) a keep =
      idle (owner_delete i t now) (i) (λ x after h. owner_delete-Kept i t now s.database h)
        (λ x after e h. absurd (keep e))
  step-ended (owner_resumes i t now deadline) a keep =
      idle (owner_resume i t now deadline) (i)
        (λ x after h. owner_resume-Kept i t now deadline s.database h)
        (λ x after e h. absurd (
          owner_resume-ended id s.database d found over t now deadline x after
            (subst (λ k. owner_resume k t now deadline s.database ≡ ok (x, after)) e h)))
  step-ended (owner_lists t now limit) a keep =
      transaction_keeps (SameView id s.database) (owner_list t now limit) s
        (λ x after h. owner_list-ended t now limit id s.database d found over x after h)
        (SameView-refl id s.database)
  step-ended closes a keep =
      subst (λ q. SameView id s.database q) {x = s.database} (ground arith)
        (SameView-refl id s.database)
