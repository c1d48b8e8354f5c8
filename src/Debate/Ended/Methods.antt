-- ===== src/Debate/Ended/Methods.antt =====
-- The methods of src/debate/store.ts on a debate that was stopped or completed.
use slnc_tr_z_mcp.Prelude.{
  ℕ, String, Bool, true, false, Option, some, ◌≡◌, ◌≢◌, arith, ok, first-any,
}
use slnc_tr_z_mcp.Debate.Types.{
  DebateStatus, stopped, completed, DebateRow, DebateSnapshot, DebateSendResult,
}
use slnc_tr_z_mcp.Debate.Database.{Database, debate_row, require_debate, insert_debate}
use slnc_tr_z_mcp.Debate.Store.{
  CreateRecord, create, new_debate, JoinRecord, join, MemberReadRecord, MemberReadResult,
  read_member, pick_up, expire_if_due, snapshot,
}
use slnc_tr_z_mcp.Debate.Store.Send.{SendRecord, send, send_new, check_turn, replay}
use slnc_tr_z_mcp.Debate.Store.Owner.{
  StopRecord, stop_member, stop, stop_from, owner_read, owner_stop, owner_resume, resume_rest,
}

abbrev pub is_ended : DebateStatus → Bool
is_ended stopped = true
is_ended completed = true
is_ended _ = false

module _ (id : String) (db : Database) (d : DebateRow) (found : debate_row id db ≡ some d)
    (over : is_ended d.status ≡ true) where
  pub expire-ended : (t now : ℕ) → expire_if_due id t now db ≡ ok (false, db)
  unfolding expire_if_due require_debate
  expire-ended t now = ground arith

  pub join-ended :
      (r : JoinRecord) (x : DebateSnapshot) (after : Database)
      → r.debate_id ≡ id
      → join r db ≢ ok (x, after)
  unfolding join require_debate
  join-ended r x after e h = ground arith

  pub read-ended :
      (r : MemberReadRecord) (x : MemberReadResult) (after : Database)
      → r.auth.debate_id ≡ id
      → read_member r db ≡ ok (x, after)
      → after ≡ db
  unfolding read_member pick_up require_debate
  read-ended r x after e h = ground (arith, expire-ended r.now_ms r.now)

  pub send-ended :
      (r : SendRecord) (x : DebateSendResult) (after : Database)
      → r.auth.debate_id ≡ id
      → send r db ≡ ok (x, after)
      → after ≡ db
  unfolding send send_new check_turn replay require_debate
  send-ended r x after e h = ground (arith, expire-ended r.now_ms r.now)

  pub stop-ended :
      (now : ℕ) (x : DebateSnapshot) (after : Database)
      → stop id now db ≡ ok (x, after)
      → after ≡ db
  unfolding stop stop_from require_debate
  stop-ended now x after h = ground arith

  pub stop_member-ended :
      (r : StopRecord) (x : DebateSnapshot) (after : Database)
      → r.auth.debate_id ≡ id
      → stop_member r db ≡ ok (x, after)
      → after ≡ db
  unfolding stop_member
  stop_member-ended r x after e h =
      ground (arith, expire-ended r.now_ms r.now, stop-ended r.now x after)

  pub owner_stop-ended :
      (t now : ℕ) (x : DebateSnapshot) (after : Database)
      → owner_stop id t now db ≡ ok (x, after)
      → after ≡ db
  unfolding owner_stop
  owner_stop-ended t now x after h = ground (arith, expire-ended t now, stop-ended now x after)

  pub owner_read-ended :
      (t now : ℕ) (n : Option ℕ) (x : DebateSnapshot) (after : Database)
      → owner_read id t now n db ≡ ok (x, after)
      → after ≡ db
  unfolding owner_read snapshot require_debate
  owner_read-ended t now n x after h = ground (arith, expire-ended t now)

  pub owner_resume-ended :
      (t now deadline : ℕ) (x : DebateSnapshot) (after : Database)
      → owner_resume id t now deadline db ≢ ok (x, after)
  unfolding owner_resume resume_rest require_debate
  owner_resume-ended t now deadline x after h = ground (arith, expire-ended t now)

  pub create-ended :
      (r : CreateRecord) (x : DebateSnapshot) (after : Database)
      → r.debate_id ≡ id
      → create r db ≢ ok (x, after)
  unfolding create insert_debate new_debate debate_row
  create-ended r x after e h = ground (arith, first-any (λ y. y.debate_id) id db.debates d)
