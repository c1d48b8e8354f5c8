-- ===== src/Auth/Tests.antt =====
-- The rate limiter and the host tokens (src/auth) at concrete inputs.
use Prim.Native.String.{◌++◌}
use slnc_tr_z_mcp.Prelude.{
  ◌+◌, ◌-◌, max, min, String, true, false, none, some, List, [], ◌∷◌, ◌≡◌, refl, arith, ◌==◌, ◌⊎◌,
  ok, leb, if◌then◌else◌, trim, trim_start, trim_end, utf16_length, is_host_token,
  url_safe_of_length, first, select, delete, update, any,
}
use slnc_tr_z_mcp.Auth.RateLimiter.{
  FixedWindowRateLimiter, new_limiter, check, consume, purge_expired, counter_of, open_window,
  set_counter, check-consume, IsValid,
}
use slnc_tr_z_mcp.Auth.RateLimiter.Window.{
  Use, grants, uses_of, use_all, window-grants, use_all-IsValid,
}
use slnc_tr_z_mcp.Auth.HostTokens.{
  HostTokenMetadata, HostTokenRow, HostTokenStore, new_store, transaction, audit, insert_token,
  use_row, lookup_token, delete_token, issue, authenticate, revoke, idle_seconds, is_idle,
}
use slnc_tr_z_mcp.Auth.HostTokens.History.{Call, issues, run, step, IsSafeStore, run-IsSafe}
use slnc_tr_z_mcp.Auth.ConnectionProfile.{
  AuthenticatedConnection, Tool, provider, gateway_builtins, is_tool_visible_for_profile,
  authenticate_host_token, connection_of, authenticate_host_token-gateway_only,
}
use slnc_tr_z_mcp.Auth.HostTokens.Lifetime.{
  row_of, issue-authenticate, revoke-authenticate, authenticate-idle,
}

-- What a run unfolds.
auth : Unit {0}
unfolding new_limiter check consume purge_expired counter_of open_window set_counter new_store
    transaction audit insert_token use_row lookup_token delete_token issue authenticate revoke run
    step row_of trim trim_start trim_end utf16_length is_host_token url_safe_of_length first select
    delete update any authenticate_host_token connection_of
auth = tt

abbrev limiter : FixedWindowRateLimiter
limiter = record { limit = 2; window_seconds = 60; counters = [] }

limiter_made : new_limiter 2 60 ≡ ok limiter
unfolding auth
limiter_made = refl

abbrev uses : List Use
uses =
    record { key = "a"; now = 10 }
    ∷ record { key = "b"; now = 11 }
    ∷ record { key = "a"; now = 12 }
    ∷ record { key = "a"; now = 13 }
    ∷ []

window_new : counter_of "a" (purge_expired 5 limiter) ≡ none
unfolding auth
window_new = refl

window-grants_example :
    grants "a" (record { key = "a"; now = 5 } ∷ uses) limiter ≡ min (1 + uses_of "a" uses) 2
unfolding use_all
window-grants_example =
    window-grants "a" 5 uses limiter (use_all-IsValid 2 60 limiter [] limiter_made) window_new
      (omega arith, (omega arith, (omega arith, (omega arith, tt))))

use_all-IsValid_example : IsValid (use_all uses limiter)
use_all-IsValid_example = use_all-IsValid 2 60 limiter uses limiter_made

check-consume_example :
    ((check "a" 5 limiter).0 ≡ (consume "a" 5 limiter).0)
    × ((consume "a" 5 (check "a" 5 limiter).1).0 ≡ (consume "a" 5 limiter).0)
check-consume_example = check-consume "a" 5 limiter

-- A digest for the tests: any function into texts of 64 characters.
abbrev digest : String → String
digest text = "0123456789abcdef0123456789abcdef0123456789abcdef0123456789abcdef"

abbrev token : String
token = "hst_AAAAAAAAAAAAAAAAAAAAAAAAAAAAAAAAAAAAAAAAAAA"

token_form : is_host_token token ≡ true
unfolding auth
token_form = refl

abbrev store : HostTokenStore
store = record {
  tables = record { host_tokens = []; host_token_audit = [] };
  max_audit_rows = 10;
  closed = false;
}

store_made : new_store 10 ≡ ok store
unfolding auth
store_made = refl

laptop : (m : HostTokenMetadata) × ((issue digest token "t1" " laptop " 100 store).0 ≡ ok m)
unfolding auth
laptop = (_, refl)

issue-authenticate_example :
    (authenticate digest token 5000 (issue digest token "t1" " laptop " 100 store).1).0
    ≡ ok (
        if leb idle_seconds (5000 - 100)
        then none
        else some (record laptop.0 { last_used_at = some (max 5000 100) }))
issue-authenticate_example =
    issue-authenticate digest token "t1" " laptop " 100 5000 store laptop.0 laptop.1 token_form
      (omega arith)

abbrev calls : List Call
calls = issues token "t1" "laptop" 100 ∷ []

laptop_row :
    (row : HostTokenRow) × (row_of digest token (run digest store calls) ≡ some row)
    × ((run digest store calls).closed ≡ false)
    × (is_idle 1296100 row ≡ true)
unfolding auth
laptop_row = (_, refl, refl, refl)

run-IsSafe_example : IsSafeStore (run digest store calls)
run-IsSafe_example = run-IsSafe digest 10 store calls store_made

revoke-authenticate_example :
    ((revoke laptop_row.0.token_id 200 (run digest store calls)).0 ≡ ok true)
    × ((authenticate digest token 300
          (revoke laptop_row.0.token_id 200 (run digest store calls)).1).0
        ≡ ok none)
revoke-authenticate_example =
    revoke-authenticate digest 10 store calls token 200 300 laptop_row.0 store_made laptop_row.2
      (omega arith) (omega arith) laptop_row.1

authenticate-idle_example :
    ((authenticate digest token 1296100 (run digest store calls)).0 ≡ ok none)
    × ((authenticate digest token 300
          (authenticate digest token 1296100 (run digest store calls)).1).0
        ≡ ok none)
authenticate-idle_example =
    authenticate-idle digest 10 store calls token 1296100 300 laptop_row.0 store_made laptop_row.2
      (omega arith) (omega arith) token_form laptop_row.1 laptop_row.3

connected :
    (c : AuthenticatedConnection) × ((authenticate_host_token digest
        (some (run digest store calls))
        token
        "https://h/mcp"
        200).0
      ≡ ok c)
unfolding auth
connected = (_, refl)

authenticate_host_token-gateway_only_example :
    ((tool : Tool)
      → is_tool_visible_for_profile connected.0.surface_profile tool ≡ true
      → (tool.source ≡ provider) ⊎ (any (λ n. n == tool.name) gateway_builtins ≡ true))
    × ((open_store : HostTokenStore) × (m : HostTokenMetadata) × (some (run digest store calls)
          ≡ some open_store)
        × ((authenticate digest token 200 open_store).0 ≡ ok (some m))
        × (connected.0.connection_id ≡ "host:" ++ m.token_id))
authenticate_host_token-gateway_only_example =
    authenticate_host_token-gateway_only digest (some (run digest store calls)) token
      "https://h/mcp" 200 connected.0 connected.1
