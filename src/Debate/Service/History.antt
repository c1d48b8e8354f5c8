-- ===== src/Debate/Service/History.antt =====
-- Histories of calls on the Debate service (src/debate/service.ts).
use slnc_tr_z_mcp.Prelude.{
  ℕ, ◌+◌, ◌≤◌, String, Option, List, [], ◌∷◌, ◌≡◌, refl, arith, inl, inr, Result, ok, err,
  Bool-cases, subst,
}
use slnc_tr_z_mcp.Debate.Types.{DebateMemberAuth, Thrown}
use slnc_tr_z_mcp.Debate.Store.{DebateStore, CreateRecord}
use slnc_tr_z_mcp.Debate.Invariant.{Inv}
use slnc_tr_z_mcp.Debate.History
use slnc_tr_z_mcp.Debate.History.{
  Call, IsAdmissible, step-Inv, empty_store, empty-Inv, creates, joins, reads, sends, stops,
  owner_reads, owner_lists, owner_stops, owner_deletes, owner_resumes, closes,
}
use slnc_tr_z_mcp.Debate.Service.{
  DebateService, new_service, DebateCreateInput, Generated, safe_integer, checked, stored,
  create_record, create, join_record, join, read_record, read,
}
use slnc_tr_z_mcp.Debate.Service.Turn.{DebateSendInput, send_record, send, stop_record, stop}
use slnc_tr_z_mcp.Debate.Service.Owner.{
  list_limit, list_for_owner, read_arguments, read_for_owner, named_debate, stop_as_owner,
  resume_as_owner, delete_as_owner, close,
}

pub data ServiceCall : Type 0 where
  asks_create : DebateCreateInput → Generated → ServiceCall
  asks_join : String → String → String → Generated → ServiceCall
  asks_read : DebateMemberAuth → Option ℕ → ℕ → ServiceCall
  asks_send : DebateSendInput → ℕ → ServiceCall
  asks_stop : DebateMemberAuth → ℕ → ServiceCall
  asks_list : Option ℕ → ℕ → ServiceCall
  asks_read_for_owner : String → Option ℕ → ℕ → ServiceCall
  asks_stop_as_owner : String → ℕ → ServiceCall
  asks_resume_as_owner : String → ℕ → ServiceCall
  asks_delete_as_owner : String → ℕ → ServiceCall
  asks_close : ServiceCall

-- The service after a call; what the call returns or throws is dropped.
unfoldable pub serve : (String → String) → DebateService → ServiceCall → DebateService
serve sha256 s (asks_create input g) = (create sha256 input g s).1
serve sha256 s (asks_join id nickname connection g) = (join sha256 id nickname connection g s).1
serve sha256 s (asks_read auth after now_ms) = (read sha256 auth after now_ms s).1
serve sha256 s (asks_send input now_ms) = (send sha256 input now_ms s).1
serve sha256 s (asks_stop auth now_ms) = (stop sha256 auth now_ms s).1
serve sha256 s (asks_list limit now_ms) = (list_for_owner limit now_ms s).1
serve sha256 s (asks_read_for_owner id after now_ms) = (read_for_owner id after now_ms s).1
serve sha256 s (asks_stop_as_owner id now_ms) = (stop_as_owner id now_ms s).1
serve sha256 s (asks_resume_as_owner id now_ms) = (resume_as_owner id now_ms s).1
serve sha256 s (asks_delete_as_owner id now_ms) = (delete_as_owner id now_ms s).1
serve sha256 s asks_close = close s

unfoldable pub serve_all : (String → String) → DebateService → List ServiceCall → DebateService
serve_all sha256 s [] = s
serve_all sha256 s (c ∷ cs) = serve_all sha256 (serve sha256 s c) cs

-- A consistent store stays so under checks that throw, and under a call of the store.
checked-Inv :
    {A B : Type 0} (m : Result Thrown A) (k : A → Result Thrown B × DebateService)
    (s : DebateService)
    → Inv s.store.database
    → ((a : A) → m ≡ ok a → Inv (k a).1.store.database)
    → Inv (checked m k s).1.store.database
checked-Inv (err e) k s h keeps = h
checked-Inv (ok a) k s h keeps = keeps a refl

stored-Inv :
    {A : Type 0} (notify : A → List String) (s : DebateService) (x : Result Thrown A × DebateStore)
    → Inv x.1.database
    → Inv (stored notify s x).1.store.database
stored-Inv notify s (err e, store) h = h
stored-Inv notify s (ok a, store) h = h

create_record-IsAdmissible :
    (sha256 : String → String) (input : DebateCreateInput) (g : Generated) (s : DebateService)
    (r : CreateRecord)
    → create_record sha256 input g s ≡ ok r
    → 2 ≤ r.max_turns
unfolding create_record safe_integer
create_record-IsAdmissible sha256 input g s r h = ground arith

serve-Inv :
    (sha256 : String → String) (s : DebateService) (c : ServiceCall)
    → Inv s.store.database
    → Inv (serve sha256 s c).store.database
unfolding serve create join read send stop list_for_owner read_for_owner stop_as_owner
    resume_as_owner delete_as_owner close History.step
serve-Inv sha256 s (asks_create input g) h =
    checked-Inv (create_record sha256 input g s) _ s h (λ r e.
      stored-Inv _ s _
        (step-Inv s.store (creates r) (create_record-IsAdmissible sha256 input g s r e) h))
serve-Inv sha256 s (asks_join id nickname connection g) h =
    checked-Inv (join_record sha256 id nickname connection g s) _ s h
      (λ r _. stored-Inv _ s _ (step-Inv s.store (joins r) tt h))
serve-Inv sha256 s (asks_read auth after now_ms) h =
    checked-Inv (read_record sha256 auth after now_ms s) _ s h
      (λ r _. stored-Inv _ s _ (step-Inv s.store (reads r) tt h))
serve-Inv sha256 s (asks_send input now_ms) h =
    checked-Inv (send_record sha256 input now_ms s) _ s h
      (λ r _. stored-Inv _ s _ (step-Inv s.store (sends r) tt h))
serve-Inv sha256 s (asks_stop auth now_ms) h =
    checked-Inv (stop_record sha256 auth now_ms s) _ s h
      (λ r _. stored-Inv _ s _ (step-Inv s.store (stops r) tt h))
serve-Inv sha256 s (asks_list limit now_ms) h =
    checked-Inv (list_limit limit s) _ s h
      (λ n _. stored-Inv _ s _ (step-Inv s.store (owner_lists now_ms now_ms n) tt h))
serve-Inv sha256 s (asks_read_for_owner id after now_ms) h =
    checked-Inv (read_arguments id after s) _ s h
      (λ a _. stored-Inv _ s _ (step-Inv s.store (owner_reads a.0 now_ms now_ms a.1) tt h))
serve-Inv sha256 s (asks_stop_as_owner id now_ms) h =
    checked-Inv (named_debate id s) _ s h
      (λ d _. stored-Inv _ s _ (step-Inv s.store (owner_stops d now_ms now_ms) tt h))
serve-Inv sha256 s (asks_resume_as_owner id now_ms) h =
    checked-Inv (named_debate id s) _ s h (λ d _.
      stored-Inv _ s _
        (step-Inv s.store (owner_resumes d now_ms now_ms (now_ms + s.pickup_timeout_ms)) tt h))
serve-Inv sha256 s (asks_delete_as_owner id now_ms) h =
    checked-Inv (named_debate id s) _ s h
      (λ d _. stored-Inv _ s _ (step-Inv s.store (owner_deletes d now_ms now_ms) tt h))
serve-Inv sha256 s asks_close h = elim (Bool-cases s.closed) [
  | inl e ↦ rw e h
  | inr e ↦ rw e (step-Inv s.store closes tt h)
]

serve_all_from-Inv :
    (sha256 : String → String) (s : DebateService) (cs : List ServiceCall)
    → Inv s.store.database
    → Inv (serve_all sha256 s cs).store.database
unfolding serve_all
serve_all_from-Inv sha256 s [] h = h
serve_all_from-Inv sha256 s (c ∷ cs) h =
    serve_all_from-Inv sha256 (serve sha256 s c) cs (serve-Inv sha256 s c h)

-- After any history of calls on a service over an empty store, whatever they were given, every debate
-- is consistent, as after histories of admissible calls on the store: the checks of the service let no
-- other call through.
pub serve_all-Inv :
    (sha256 : String → String) (pickup response wait : Option ℕ) (s : DebateService)
    (cs : List ServiceCall)
    → new_service empty_store pickup response wait ≡ ok s
    → Inv (serve_all sha256 s cs).store.database
unfolding new_service safe_integer
serve_all-Inv sha256 pickup response wait s cs h =
    let same : empty_store ≡ s.store = ground arith in
    serve_all_from-Inv sha256 s cs (subst (λ x. Inv x.database) same empty-Inv)
