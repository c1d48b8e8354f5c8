-- ===== src/Debate/History.antt =====
-- Histories of calls on one `DebateStore` (src/debate/store.ts): each call is a transaction.
use slnc_tr_z_mcp.Prelude.{
  All, ℕ, ◌≤◌, String, false, Option, List, [], ◌∷◌, ◌≡◌, refl, subst, arith, ok, Result-cases,
  Bool-cases, first, select, inl, inr,
}
use slnc_tr_z_mcp.Debate.Database.{Database, debate_row, participants_of, messages_of}
use slnc_tr_z_mcp.Debate.Store.{
  Body, DebateStore, transaction, close, CreateRecord, create, JoinRecord, join, MemberReadRecord,
  read_member,
}
use slnc_tr_z_mcp.Debate.Store.Send.{SendRecord, send}
use slnc_tr_z_mcp.Debate.Store.Owner.{
  StopRecord, stop_member, owner_read, owner_list, owner_stop, owner_delete, owner_resume,
}
use slnc_tr_z_mcp.Debate.Invariant.{Inv}
use slnc_tr_z_mcp.Debate.Invariant.Methods.{
  read_member-Kept, stop_member-Kept, owner_read-Kept, owner_stop-Kept, owner_delete-Kept,
  owner_resume-Kept, owner_list-Inv,
}
use slnc_tr_z_mcp.Debate.Invariant.Joining.{create-Kept, join-Kept}
use slnc_tr_z_mcp.Debate.Invariant.SendMethod.{send-Kept}

pub data Call : Type 0 where
  creates : CreateRecord → Call
  joins : JoinRecord → Call
  reads : MemberReadRecord → Call
  sends : SendRecord → Call
  stops : StopRecord → Call
  owner_reads : String → ℕ → ℕ → Option ℕ → Call
  owner_lists : ℕ → ℕ → ℕ → Call
  owner_stops : String → ℕ → ℕ → Call
  owner_deletes : String → ℕ → ℕ → Call
  owner_resumes : String → ℕ → ℕ → ℕ → Call
  closes : Call

-- The store after a call; what the call returns or throws is dropped.
unfoldable pub step : DebateStore → Call → DebateStore
step s (creates r) = (transaction (create r) s).1
step s (joins r) = (transaction (join r) s).1
step s (reads r) = (transaction (read_member r) s).1
step s (sends r) = (transaction (send r) s).1
step s (stops r) = (transaction (stop_member r) s).1
step s (owner_reads id now_ms now n) = (transaction (owner_read id now_ms now n) s).1
step s (owner_lists now_ms now limit) = (transaction (owner_list now_ms now limit) s).1
step s (owner_stops id now_ms now) = (transaction (owner_stop id now_ms now) s).1
step s (owner_deletes id now_ms now) = (transaction (owner_delete id now_ms now) s).1
step s (owner_resumes id now_ms now deadline) =
    (transaction (owner_resume id now_ms now deadline) s).1
step s closes = close s

unfoldable pub run : DebateStore → List Call → DebateStore
run s [] = s
run s (c ∷ cs) = run (step s c) cs

-- The service asks for three turns at least; two are enough here.
abbrev pub IsAdmissible : Call → Type 0
IsAdmissible (creates r) = 2 ≤ r.max_turns
IsAdmissible _ = Unit

-- A property of the tables that the body keeps whenever it goes through survives the transaction.
pub transaction_keeps {κ} :
    {A : Type 0} (P : Database → Type κ) (body : Body A) (s : DebateStore)
    → ((a : A) (after : Database) → body s.database ≡ ok (a, after) → P after)
    → P s.database
    → P (transaction body s).1.database
unfolding transaction
transaction_keeps P body s keeps h = elim (Bool-cases s.closed) [
  | inl shut ↦ subst P {x = s.database} (ground arith) h
  | inr open_ ↦ elim (Result-cases (body s.database)) [
    | inl ((a, after), e) ↦ subst P {x = after} (ground arith) (keeps a after e)
    | inr (t, e) ↦ subst P {x = s.database} (ground arith) h
  ]
]

pub step-Inv :
    (s : DebateStore) (c : Call) → IsAdmissible c → Inv s.database → Inv (step s c).database
unfolding step close
step-Inv s (creates r) a h =
    transaction_keeps Inv (create r) s (λ x after e. (create-Kept r s.database a e).inv h) h
step-Inv s (joins r) a h =
    transaction_keeps Inv (join r) s (λ x after e. (join-Kept r s.database e).inv h) h
step-Inv s (reads r) a h =
    transaction_keeps Inv (read_member r) s (λ x after e. (read_member-Kept r s.database e).inv h) h
step-Inv s (sends r) a h =
    transaction_keeps Inv (send r) s (λ x after e. (send-Kept r s.database e).inv h) h
step-Inv s (stops r) a h =
    transaction_keeps Inv (stop_member r) s (λ x after e. (stop_member-Kept r s.database e).inv h) h
step-Inv s (owner_reads id now_ms now n) a h =
    transaction_keeps Inv (owner_read id now_ms now n) s
      (λ x after e. (owner_read-Kept id now_ms now n s.database e).inv h) h
step-Inv s (owner_lists now_ms now limit) a h =
    transaction_keeps Inv (owner_list now_ms now limit) s
      (λ x after e. owner_list-Inv now_ms now limit s.database e h) h
step-Inv s (owner_stops id now_ms now) a h =
    transaction_keeps Inv (owner_stop id now_ms now) s
      (λ x after e. (owner_stop-Kept id now_ms now s.database e).inv h) h
step-Inv s (owner_deletes id now_ms now) a h =
    transaction_keeps Inv (owner_delete id now_ms now) s
      (λ x after e. (owner_delete-Kept id now_ms now s.database e).inv h) h
step-Inv s (owner_resumes id now_ms now deadline) a h =
    transaction_keeps Inv (owner_resume id now_ms now deadline) s
      (λ x after e. (owner_resume-Kept id now_ms now deadline s.database e).inv h) h
step-Inv s closes a h = subst Inv {x = s.database} (ground arith) h

unfoldable pub empty_store : DebateStore
empty_store = record {
  database = record { debates = []; participants = []; messages = [] };
  closed = false;
}

pub empty-Inv : Inv empty_store.database
unfolding empty_store debate_row participants_of messages_of first select
empty-Inv j = (refl, refl)

run_from-Inv :
    (s : DebateStore) (cs : List Call)
    → All IsAdmissible cs
    → Inv s.database
    → Inv (run s cs).database
unfolding run
run_from-Inv s [] a h = h
run_from-Inv s (c ∷ cs) a h = run_from-Inv (step s c) cs a.1 (step-Inv s c a.0 h)

-- After any history of calls on an empty store, whatever they were given and whatever they threw,
-- every debate is consistent: its messages are numbered from 1 without a gap and are as many as its
-- sequence number and its completed turns; while it waits it has the creator only and no message;
-- while it is active or paused it has two distinct participants, one of whom holds the turn, it has
-- turns left, and its last turn is held by the finalizer; once stopped or completed nobody holds the
-- turn, and a completed one has used up its turns. A debate that is not there has left no
-- participant and no message. (Each `create` asks for two turns at least.)
pub run-Inv : (cs : List Call) → All IsAdmissible cs → Inv (run empty_store cs).database
run-Inv cs a = run_from-Inv empty_store cs a empty-Inv
