-- ===== src/Debate/Store/Owner.antt =====
-- The remaining methods of `DebateStore` (src/debate/store.ts): stop, and those of the owner.
use slnc_tr_z_mcp.Prelude.{
  ℕ, zero, suc, String, Bool, true, not, ◌||◌, Option, none, some, List, [], ◌∷◌, map, ok, err,
  ◌>>=◌, ◌>>◌, throw_if, sort_by,
}
use slnc_tr_z_mcp.Debate.Types.{
  DebateStatus, active, stopped, completed, DebateRow, DebateSnapshot, DebateListItem,
  DebateMemberAuth, is_active, is_paused, debate_error, debate_not_writable, resume_not_allowed,
  delete_not_allowed,
}
use slnc_tr_z_mcp.Debate.Database.{
  Database, require_debate, update_debate, delete_debate, debate_before, active_debates,
}
use slnc_tr_z_mcp.Debate.Store.{
  Body, snapshot, snapshot_from_row, verify_membership, expire_if_due, is_none,
}

pub record StopRecord : Type 0 where
  pub auth : DebateMemberAuth
  pub membership_hash : String
  pub now_ms : ℕ
  pub now : ℕ

abbrev pub halt : ℕ → DebateRow → DebateRow
halt now d = record d {
  status = stopped;
  current_participant_id = none;
  turn_assigned_at = none;
  pickup_deadline_at = none;
  turn_acknowledged_at = none;
  response_deadline_at = none;
  pause_reason = none;
  stopped_at = some now;
  updated_at = now;
}

-- `#stop`, by the status of the row that it finds.
unfoldable pub stop_from : DebateRow → DebateStatus → ℕ → String → Body DebateSnapshot
stop_from d stopped now id db = ok (snapshot_from_row d none none db, db)
stop_from d completed now id db = err (debate_error debate_not_writable)
stop_from d _ now id db = snapshot id none (update_debate id (λ d. true) (halt now) db)

unfoldable pub stop : String → ℕ → Body DebateSnapshot
unfolding stop_from
stop id now db = do d ← require_debate id db; stop_from d d.status now id db

unfoldable pub stop_member : StopRecord → Body DebateSnapshot
unfolding stop
stop_member r db = do
  _ ← verify_membership r.auth r.membership_hash db
  (_, expired_db) ← expire_if_due r.auth.debate_id r.now_ms r.now db
  stop r.auth.debate_id r.now expired_db

unfoldable pub owner_read : String → ℕ → ℕ → Option ℕ → Body DebateSnapshot
owner_read id now_ms now after_sequence db = do
  _ ← require_debate id db
  (_, expired_db) ← expire_if_due id now_ms now db
  snapshot id after_sequence expired_db

unfoldable pub owner_stop : String → ℕ → ℕ → Body DebateSnapshot
unfolding stop
owner_stop id now_ms now db = do
  _ ← require_debate id db
  (_, expired_db) ← expire_if_due id now_ms now db
  stop id now expired_db

-- `ownerDelete` after the expiry.
unfoldable pub delete_rest : String → Bool → Body String
delete_rest id expired db = do
  d ← require_debate id db
  throw_if (is_active d.status) (debate_error delete_not_allowed)
  ok (id, delete_debate id db)

unfoldable pub owner_delete : String → ℕ → ℕ → Body String
unfolding delete_rest
owner_delete id now_ms now db = do
  _ ← require_debate id db
  (expired, expired_db) ← expire_if_due id now_ms now db
  delete_rest id expired expired_db

abbrev pub resume : ℕ → ℕ → DebateRow → DebateRow
resume now pickup_deadline_at d = record d {
  status = active;
  turn_assigned_at = some now;
  pickup_deadline_at = some pickup_deadline_at;
  turn_acknowledged_at = none;
  response_deadline_at = none;
  pause_reason = none;
  updated_at = now;
}

-- `ownerResume` after the expiry.
unfoldable pub resume_rest : String → ℕ → ℕ → Bool → Body DebateSnapshot
resume_rest id now pickup_deadline_at expired db = do
  d ← require_debate id db
  throw_if (not (is_paused d.status) || is_none d.current_participant_id)
      (debate_error resume_not_allowed)
  snapshot id none (update_debate id (λ d. true) (resume now pickup_deadline_at) db)

unfoldable pub owner_resume : String → ℕ → ℕ → ℕ → Body DebateSnapshot
unfolding resume_rest
owner_resume id now_ms now pickup_deadline_at db = do
  _ ← require_debate id db
  (expired, expired_db) ← expire_if_due id now_ms now db
  resume_rest id now pickup_deadline_at expired expired_db

-- The loop of `ownerList` over the active debates.
unfoldable pub expire_all : List DebateRow → ℕ → ℕ → Body (Unit {0})
expire_all [] now_ms now db = ok (tt, db)
expire_all (d ∷ ds) now_ms now db = do
  (_, expired_db) ← expire_if_due d.debate_id now_ms now db
  expire_all ds now_ms now expired_db

limit_to {ℓ} : {A : Type ℓ} → ℕ → List A → List A
limit_to zero xs = []
limit_to (suc n) [] = []
limit_to (suc n) (x ∷ xs) = x ∷ limit_to n xs

-- The items show no messages, so the snapshot that they are taken from may have any.
unfoldable pub list_item : Database → DebateRow → DebateListItem
list_item db row =
    let s = snapshot_from_row row none none db in
    record {
      debate_id = s.debate_id;
      topic = s.topic;
      status = s.status;
      sequence = s.sequence;
      max_turns = s.max_turns;
      completed_turns = s.completed_turns;
      finalizer_participant_id = s.finalizer_participant_id;
      current_participant_id = s.current_participant_id;
      pickup_deadline_at = s.pickup_deadline_at;
      response_deadline_at = s.response_deadline_at;
      pause_reason = s.pause_reason;
      created_at = s.created_at;
      updated_at = s.updated_at;
      completed_at = s.completed_at;
      stopped_at = s.stopped_at;
      participants = s.participants;
    }

unfoldable pub owner_list : ℕ → ℕ → ℕ → Body (List DebateListItem)
unfolding expire_all limit_to list_item
owner_list now_ms now limit db = do
  (_, expired_db) ← expire_all (active_debates db) now_ms now db
  ok (
    map (list_item expired_db) (limit_to limit (sort_by debate_before expired_db.debates)),
    expired_db,
  )
