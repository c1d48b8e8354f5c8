-- ===== src/Debate/Invariant/Methods.antt =====
-- Reading, stopping, pausing and resuming (src/debate/store.ts), the invariant, and other debates.
use slnc_tr_z_mcp.Prelude.{
  ℕ, String, Bool, true, Option, none, some, List, [], ◌∷◌, ◌≡◌, refl, inl, inr, arith, subst, sym,
  ok, Result-cases, ◌>>=◌, Bool-cases,
}
use slnc_tr_z_mcp.Debate.Types.{
  DebateStatus, waiting, active, paused_timeout, stopped, completed, DebateRow, ParticipantRow,
  MessageRow, is_paused, DebateSnapshot, DebateListItem,
}
use slnc_tr_z_mcp.Debate.Database.{
  Database, debate_row, update_debate, require_debate, delete_debate, active_debates,
}
use slnc_tr_z_mcp.Debate.Database.Views.{delete_debate-SameView, delete_debate_self}
use slnc_tr_z_mcp.Debate.Store.{
  Body, MemberReadRecord, MemberReadResult, read_member, pick_up, awaits_pickup, acknowledge,
  expire_if_due, snapshot,
}
use slnc_tr_z_mcp.Debate.Store.Owner.{
  StopRecord, stop, stop_from, stop_member, owner_read, owner_stop, owner_delete, owner_resume,
  owner_list, halt, resume, delete_rest, resume_rest, expire_all,
}
use slnc_tr_z_mcp.Debate.Invariant.{Phase, Consistent, Inv}
use slnc_tr_z_mcp.Debate.Invariant.Steps.{
  Kept, Kept-refl, Kept-trans, Kept-at, update_debate-Kept, Seated-cong, paused-Phase,
  expire_if_due-Kept, require_debate-eq-ok, snapshot_keeps,
}

acknowledge-Consistent :
    (r : MemberReadRecord) (d : DebateRow) (ps : List ParticipantRow) (ms : List MessageRow)
    → awaits_pickup r.auth.participant_id d ≡ true
    → Consistent d ps ms
    → Consistent (acknowledge r d) ps ms
acknowledge-Consistent r d ps ms h k = record {
  turns = k.turns;
  numbered = k.numbered;
  counted = k.counted;
  phase = acknowledge-Phase d.status k.phase;
}
  where
    acknowledge-Phase : (st : DebateStatus) → Phase st d ps → Phase st (acknowledge r d) ps
    acknowledge-Phase waiting p = record {
      c = p.c;
      seats = p.seats;
      c_role = p.c_role;
      unheard = p.unheard;
      enough = p.enough;
    }
    acknowledge-Phase active p = Seated-cong d (acknowledge r d) ps refl refl refl refl p
    acknowledge-Phase paused_timeout p = Seated-cong d (acknowledge r d) ps refl refl refl refl p
    acknowledge-Phase stopped p = p
    acknowledge-Phase completed p = p

pick_up-Kept :
    (r : MemberReadRecord) (d : DebateRow) (b : Bool) (db : Database) {x : MemberReadResult}
    {after : Database}
    → debate_row r.auth.debate_id db ≡ some d
    → pick_up r d b db ≡ ok (x, after)
    → Kept r.auth.debate_id db after
unfolding pick_up require_debate
pick_up-Kept r d b db {x} {after} found h =
    elim (Bool-cases (awaits_pickup r.auth.participant_id d)) [
      | inl mine ↦
          let acked =
            update_debate r.auth.debate_id (awaits_pickup r.auth.participant_id) (acknowledge r)
              db in
          let same : after ≡ acked = ground arith in
          rw same (
            update_debate-Kept r.auth.debate_id (awaits_pickup r.auth.participant_id)
              (acknowledge r) (λ d. refl) db d found mine (acknowledge-Consistent r d _ _ mine))
      | inr not_mine ↦
          subst (Kept r.auth.debate_id db) (ground arith) (Kept-refl r.auth.debate_id db)
    ]

pub read_member-Kept :
    (r : MemberReadRecord) (db : Database) {x : MemberReadResult} {after : Database}
    → read_member r db ≡ ok (x, after)
    → Kept r.auth.debate_id db after
unfolding read_member
read_member-Kept r db {x} {after} h =
    elim (Result-cases (expire_if_due r.auth.debate_id r.now_ms r.now db)) [
      | inr (t, e) ↦ absurd (ground arith)
      | inl ((b, mid), e) ↦ elim (Result-cases (require_debate r.auth.debate_id mid)) [
        | inr (t, f) ↦ absurd (ground arith)
        | inl (d, f) ↦
            Kept-trans r.auth.debate_id db mid after
              (expire_if_due-Kept r.auth.debate_id r.now_ms r.now db e)
              (pick_up-Kept r d b mid {x = x} (require_debate-eq-ok r.auth.debate_id mid f)
                (ground arith))
      ]
    ]

halt-Consistent :
    (now : ℕ) (d : DebateRow) (ps : List ParticipantRow) (ms : List MessageRow)
    → Consistent d ps ms
    → Consistent (halt now d) ps ms
halt-Consistent now d ps ms k = record {
  turns = k.turns;
  numbered = k.numbered;
  counted = k.counted;
  phase = refl;
}

stop_from-Kept :
    (d : DebateRow) (st : DebateStatus) (now : ℕ) (id : String) (db : Database) {s : DebateSnapshot}
    {after : Database}
    → debate_row id db ≡ some d
    → stop_from d st now id db ≡ ok (s, after)
    → Kept id db after
unfolding stop_from
stop_from-Kept d stopped now id db found h = subst (Kept id db) (ground arith) (Kept-refl id db)
stop_from-Kept d completed now id db found h = cc
stop_from-Kept d _ now id db found h = rw (snapshot_keeps id none _ h) (
    update_debate-Kept id (λ r. true) (halt now) (λ r. refl) db d found refl
      (halt-Consistent now d _ _))

pub stop-Kept :
    (id : String) (now : ℕ) (db : Database) {s : DebateSnapshot} {after : Database}
    → stop id now db ≡ ok (s, after)
    → Kept id db after
unfolding stop
stop-Kept id now db {s} {after} h = elim (Result-cases (require_debate id db)) [
  | inr (t, e) ↦ absurd (ground arith)
  | inl (d, e) ↦
      stop_from-Kept d d.status now id db {s = s} (require_debate-eq-ok id db e) (ground arith)
]

-- A method that expires the debate, and goes on with `rest`.
pub after_expiry-Kept :
    {A : Type 0} (id : String) (now_ms now : ℕ) (db : Database) (rest : Bool → Body A) (a : A)
    (after : Database)
    → ((b : Bool) (mid : Database) → rest b mid ≡ ok (a, after) → Kept id mid after)
    → (expire_if_due id now_ms now db >>= λ q. rest q.0 q.1) ≡ ok (a, after)
    → Kept id db after
after_expiry-Kept id now_ms now db rest a after step h =
    elim (Result-cases (expire_if_due id now_ms now db)) [
      | inr (t, e) ↦ absurd (ground arith)
      | inl ((b, mid), e) ↦
          Kept-trans id db mid after (expire_if_due-Kept id now_ms now db e)
            (step b mid (ground arith))
    ]

pub stop_member-Kept :
    (r : StopRecord) (db : Database) {s : DebateSnapshot} {after : Database}
    → stop_member r db ≡ ok (s, after)
    → Kept r.auth.debate_id db after
unfolding stop_member
stop_member-Kept r db {s} {after} h =
    after_expiry-Kept r.auth.debate_id r.now_ms r.now db (λ _. stop r.auth.debate_id r.now) s after
      (λ b mid. stop-Kept r.auth.debate_id r.now mid {s = s} {after = after}) (ground arith)

pub owner_stop-Kept :
    (id : String) (now_ms now : ℕ) (db : Database) {s : DebateSnapshot} {after : Database}
    → owner_stop id now_ms now db ≡ ok (s, after)
    → Kept id db after
unfolding owner_stop
owner_stop-Kept id now_ms now db {s} {after} h =
    after_expiry-Kept id now_ms now db (λ _. stop id now) s after
      (λ b mid. stop-Kept id now mid {s = s} {after = after}) (ground arith)

pub owner_read-Kept :
    (id : String) (now_ms now : ℕ) (n : Option ℕ) (db : Database) {s : DebateSnapshot}
    {after : Database}
    → owner_read id now_ms now n db ≡ ok (s, after)
    → Kept id db after
unfolding owner_read
owner_read-Kept id now_ms now n db {s} {after} h =
    after_expiry-Kept id now_ms now db (λ _. snapshot id n) s after
      (λ b mid k. subst (Kept id mid) (sym (snapshot_keeps id n mid k)) (Kept-refl id mid))
      (ground arith)

pub delete_debate-Kept : (id : String) (db : Database) → Kept id db (delete_debate id db)
delete_debate-Kept id db =
    let gone = delete_debate_self id db in
    Kept-at id db (delete_debate id db) (delete_debate-SameView id db)
      (λ h. rw (gone.0, gone.1, gone.2) (refl, refl))

pub owner_delete-Kept :
    (id : String) (now_ms now : ℕ) (db : Database) {s : String} {after : Database}
    → owner_delete id now_ms now db ≡ ok (s, after)
    → Kept id db after
unfolding owner_delete
owner_delete-Kept id now_ms now db {s} {after} h =
    after_expiry-Kept id now_ms now db (delete_rest id) s after
      (λ b mid k. subst (Kept id mid) (ground arith) (delete_debate-Kept id mid)) (ground arith)

pub resume-Consistent :
    (now deadline : ℕ) (d : DebateRow) (ps : List ParticipantRow) (ms : List MessageRow)
    → is_paused d.status ≡ true
    → Consistent d ps ms
    → Consistent (resume now deadline d) ps ms
resume-Consistent now deadline d ps ms is_off k = record {
  turns = k.turns;
  numbered = k.numbered;
  counted = k.counted;
  phase =
      Seated-cong d (resume now deadline d) ps refl refl refl refl
        (paused-Phase d.status d ps is_off k.phase);
}

resume_rest-Kept :
    (id : String) (now deadline : ℕ) (b : Bool) (db : Database) {s : DebateSnapshot}
    {after : Database}
    → resume_rest id now deadline b db ≡ ok (s, after)
    → Kept id db after
unfolding resume_rest
resume_rest-Kept id now deadline b db {s} {after} h = elim (Result-cases (require_debate id db)) [
  | inr (t, e) ↦ absurd (ground arith)
  | inl (d, e) ↦
      let after_is : after ≡ update_debate id (λ r. true) (resume now deadline) db = ground (
        arith,
        snapshot_keeps id none (update_debate id (λ r. true) (resume now deadline) db) {s = s}
            {after = after},
      ) in
      rw after_is (
        update_debate-Kept id (λ r. true) (resume now deadline) (λ r. refl) db d
          (require_debate-eq-ok id db e) refl (resume-Consistent now deadline d _ _ (ground arith)))
]

pub owner_resume-Kept :
    (id : String) (now_ms now deadline : ℕ) (db : Database) {s : DebateSnapshot} {after : Database}
    → owner_resume id now_ms now deadline db ≡ ok (s, after)
    → Kept id db after
unfolding owner_resume
owner_resume-Kept id now_ms now deadline db {s} {after} h =
    after_expiry-Kept id now_ms now db (resume_rest id now deadline) s after
      (λ b mid. resume_rest-Kept id now deadline b mid {s = s} {after = after}) (ground arith)

expire_all-Inv :
    (ds : List DebateRow) (now_ms now : ℕ) (db : Database) {after : Database}
    → expire_all ds now_ms now db ≡ ok (tt, after)
    → Inv db
    → Inv after
unfolding expire_all
expire_all-Inv [] now_ms now db h i = subst Inv (ground arith) i
expire_all-Inv (d ∷ ds) now_ms now db {after} h i =
    elim (Result-cases (expire_if_due d.debate_id now_ms now db)) [
      | inr (t, e) ↦ absurd (ground arith)
      | inl ((b, mid), e) ↦
          expire_all-Inv ds now_ms now mid {after = after} (ground arith)
            ((expire_if_due-Kept d.debate_id now_ms now db e).inv i)
    ]

pub owner_list-Inv :
    (now_ms now limit : ℕ) (db : Database) {s : List DebateListItem} {after : Database}
    → owner_list now_ms now limit db ≡ ok (s, after)
    → Inv db
    → Inv after
unfolding owner_list
owner_list-Inv now_ms now limit db {s} {after} h i =
    elim (Result-cases (expire_all (active_debates db) now_ms now db)) [
      | inr (t, e) ↦ absurd (ground arith)
      | inl ((_, mid), e) ↦
          expire_all-Inv (active_debates db) now_ms now db {after = after} (ground arith) i
    ]
