-- ===== src/Debate/Service/Owner.antt =====
-- src/debate/service.ts: the owner's methods, and `close`.
use slnc_tr_z_mcp.Prelude.{
  ℕ, ◌+◌, String, true, Option, none, some, List, [], ◌∷◌, Result, ok, ◌>>=◌, ◌>>◌, if◌then◌else◌,
}
use slnc_tr_z_mcp.Debate.Types.{DebateSnapshot, DebateListItem, Thrown}
use slnc_tr_z_mcp.Debate.Store
use slnc_tr_z_mcp.Debate.Store.{transaction}
use slnc_tr_z_mcp.Debate.Store.Owner.{
  owner_read, owner_list, owner_stop, owner_delete, owner_resume,
}
use slnc_tr_z_mcp.Debate.Service.{
  DebateService, bounded_trimmed, safe_integer, optional_sequence, ensure_open, checked, stored,
  nobody,
}

unfoldable pub list_limit : Option ℕ → DebateService → Result Thrown ℕ
list_limit none s = ensure_open s >> safe_integer 100 1 200
list_limit (some limit) s = ensure_open s >> safe_integer limit 1 200

unfoldable pub list_for_owner :
    Option ℕ → ℕ → DebateService → Result Thrown (List DebateListItem) × DebateService
unfolding list_limit
list_for_owner limit now_ms s =
    checked (list_limit limit s)
      (λ n. stored nobody s (transaction (owner_list now_ms now_ms n) s.store)) s

unfoldable pub read_arguments :
    String → Option ℕ → DebateService → Result Thrown (String × Option ℕ)
read_arguments id after s = do
  ensure_open s
  debate_id ← bounded_trimmed id 256
  after_sequence ← optional_sequence after
  ok (debate_id, after_sequence)

unfoldable pub read_for_owner :
    String → Option ℕ → ℕ → DebateService → Result Thrown DebateSnapshot × DebateService
unfolding read_arguments
read_for_owner id after now_ms s =
    checked (read_arguments id after s)
      (λ a. stored nobody s (transaction (owner_read a.0 now_ms now_ms a.1) s.store)) s

unfoldable pub named_debate : String → DebateService → Result Thrown String
named_debate id s = ensure_open s >> bounded_trimmed id 256

unfoldable pub stop_as_owner :
    String → ℕ → DebateService → Result Thrown DebateSnapshot × DebateService
unfolding named_debate
stop_as_owner id now_ms s =
    checked (named_debate id s)
      (λ d. stored (λ _. d ∷ []) s (transaction (owner_stop d now_ms now_ms) s.store)) s

unfoldable pub resume_as_owner :
    String → ℕ → DebateService → Result Thrown DebateSnapshot × DebateService
unfolding named_debate
resume_as_owner id now_ms s =
    checked (named_debate id s)
      (λ d.
        stored (λ _. d ∷ []) s
          (transaction (owner_resume d now_ms now_ms (now_ms + s.pickup_timeout_ms)) s.store))
      s

unfoldable pub delete_as_owner : String → ℕ → DebateService → Result Thrown String × DebateService
unfolding named_debate
delete_as_owner id now_ms s =
    checked (named_debate id s)
      (λ d. stored (λ _. d ∷ []) s (transaction (owner_delete d now_ms now_ms) s.store)) s

-- All waits are woken by the closing of the registry, so no debate is named.
unfoldable pub close : DebateService → DebateService
close s = if s.closed then s else record s { closed = true; store = Store.close s.store }
