-- ===== src/Auth/Grants/Tests.antt =====
-- The grant store (src/auth/oauth-grant-store.ts) at concrete inputs.
mod Rotations
use slnc_tr_z_mcp.Prelude.{
  sym, subst, concat, ℕ, String, true, false, Option, none, some, List, [], ◌∷◌, ◌≡◌, ◌≢◌, refl, ok,
  Result,
}
use slnc_tr_z_mcp.Auth.ConnectionProfile.{
  SurfaceProfile, full, gateway_only, structured, ResultDelivery, AuthenticatedConnection,
  resolve_surface_profile,
}
use slnc_tr_z_mcp.Auth.Grants.{
  GrantRecord, has_grant, has_expired, RefreshRotationReceipt, TokenKind, GrantLimits, GrantStore,
  StoredToken, VerifiedGrantToken, NewGrant, GrantError, grant_transaction,
  validate_connection_label, delete_grants, pruned_rows, default_of, delivery_of, access, refresh,
}
use slnc_tr_z_mcp.Auth.Grants.Lookup.{
  record_of, grant_schema, grant_from_row, verified, find_live, retired_row, find_retired,
  insert_token_row, insert_each, insert_tokens,
}
use slnc_tr_z_mcp.Auth.Grants.Issue.{
  label_for, new_grant_store, agent_digits, agent_number, max_agent, profile_for, new_row,
  insert_grant, issue_rows, issue_grant,
}
use slnc_tr_z_mcp.Auth.Grants.Rotate.{
  RotationTokenFactory, retire_token, rotate_live, all_live, replay_with, replay, rotate_rows,
  rotate,
}
use slnc_tr_z_mcp.Auth.Grants.Manage.{
  restrict_found, find_token_rows, find_token, restrict_rows, restrict_by_access_token,
  profile_rows, set_grant_profile, revoke_grant, prune_grants,
}
use slnc_tr_z_mcp.Auth.Grants.Sound.{IsSound}
use slnc_tr_z_mcp.Auth.Grants.Preserved.{grant_run-IsSound}
use slnc_tr_z_mcp.Auth.Grants.Readable.{find_token-Returns}
use slnc_tr_z_mcp.Auth.Grants.Withdrawn.{revoke_grant-find_token, restrict-find_token}
use slnc_tr_z_mcp.Auth.Grants.Issued.{IsGrantOf, issue_grant-find_token}
use slnc_tr_z_mcp.Auth.Grants.Labels.{AreBelow, IsLabelled}
use slnc_tr_z_mcp.Auth.Grants.Retried.{IsRetry, rotate-again}
use slnc_tr_z_mcp.Auth.Grants.Family.{rotate-rotate}
use slnc_tr_z_mcp.Auth.Grants.Rotated.{has_hash}
use slnc_tr_z_mcp.Auth.Grants.History.{
  GrantCall, grant_run, grant_step, issues_grant, finds_token, restricts, sets_grant_profile,
  prunes_grants,
}
use slnc_tr_z_mcp.Prelude.{
  trim, trim_start, trim_end, utf16_length, hex_of_length, digits_from, to_double, spacing,
  large_text, shortest, first_power, significant, number_text, decimal, decimal_from, first, select,
  delete, update, any,
}

-- What a run unfolds.
store_run : Unit {0}
unfolding trim trim_start trim_end utf16_length hex_of_length digits_from decimal decimal_from
    to_double spacing number_text large_text shortest first_power significant first select delete
    update any resolve_surface_profile grant_transaction validate_connection_label delete_grants
    pruned_rows default_of delivery_of grant_schema grant_from_row verified find_live retired_row
    find_retired insert_token_row insert_each insert_tokens new_grant_store agent_digits
    agent_number max_agent label_for profile_for insert_grant issue_rows issue_grant retire_token
    rotate_live all_live replay_with replay rotate_rows rotate find_token_rows find_token
    restrict_found restrict_rows restrict_by_access_token profile_rows set_grant_profile
    revoke_grant grant_step grant_run prune_grants
store_run = tt

abbrev anything : String → Option String
anything url = some url

abbrev small : GrantLimits
small = record { max_tokens = 8; max_client_defaults = 2; max_refresh_history = 4 }

abbrev empty : GrantStore
empty = record {
  tables = record {
    client_defaults = [];
    grants = [];
    tokens = [];
    refresh_history = [];
    grant_result_delivery = [];
  };
  limits = small;
  closed = false;
}

empty_made : new_grant_store small ≡ ok empty
unfolding store_run
empty_made = refl

abbrev sixteen : String → String
sixteen s = concat s (concat s (concat s s))

-- 64 hexadecimal digits.
abbrev hash_of : String → String
hash_of s = sixteen (sixteen (sixteen s))

abbrev new_grant : String → NewGrant
new_grant id = record {
  grant_id = id;
  client_id = "client";
  resource = "https://host/mcp";
  scopes = "mcp:tools" ∷ [];
  requested_profile = none;
  profile_ceiling = none;
  label = none;
}

abbrev stored : String → TokenKind → ℕ → StoredToken
stored h kind at = record { token_hash = hash_of h; kind = kind; expires_at = some at }

abbrev pair : String → String → List StoredToken
pair a r = stored a access 200 ∷ stored r refresh 900 ∷ []

abbrev two_grants : List GrantCall
two_grants =
    issues_grant (new_grant "g1") (pair "a" "b") 100
    ∷ issues_grant (new_grant "g2") (pair "c" "d") 100
    ∷ []

abbrev issued : GrantStore
issued = grant_run anything empty two_grants

issued_limits : issued.limits ≡ small
unfolding store_run
issued_limits = refl

issued-IsSound : IsSound anything issued.limits issued.tables
issued-IsSound =
    subst (λ l. IsSound anything l issued.tables) (sym issued_limits)
      (grant_run-IsSound anything small empty two_grants empty_made)

grant_run-IsSound_example : IsSound anything small issued.tables
grant_run-IsSound_example = grant_run-IsSound anything small empty two_grants empty_made

issued_open : issued.closed ≡ false
unfolding store_run
issued_open = refl

find_token-Returns_example :
    (o : Option VerifiedGrantToken) × ((find_token anything (hash_of "a") access 150 issued).0
      ≡ ok o)
find_token-Returns_example =
    find_token-Returns anything small empty two_grants (hash_of "a") access 150 empty_made
      issued_open refl

abbrev record_for : String → SurfaceProfile → ℕ → ℕ → String → VerifiedGrantToken
record_for id profile seen at label = record {
  grant = record {
    connection = record {
      client_id = "client";
      grant_id = id;
      connection_id = id;
      scopes = "mcp:tools" ∷ [];
      resource = "https://host/mcp";
      surface_profile = profile;
      result_delivery = some structured;
    };
    profile_ceiling = full;
    label = label;
    created_at = 100;
    last_seen_at = seen;
  };
  expires_at = some at;
}

abbrev after_revocation : List GrantCall
after_revocation = prunes_grants 120 ∷ finds_token (hash_of "a") access 130 ∷ []

found_other :
    (find_token anything
      (hash_of "c")
      access
      140
      (grant_run anything (revoke_grant "g1" issued).1 after_revocation)).0
    ≡ ok (some (record_for "g2" full 100 200 "Agent 2"))
unfolding store_run
found_other = refl

not_found_revoked :
    (find_token anything
      (hash_of "a")
      access
      140
      (grant_run anything (revoke_grant "g1" issued).1 after_revocation)).0
    ≡ ok none
unfolding store_run
not_found_revoked = refl

revoke_grant-find_token_example : ◌≢◌ {A = String} "g2" "g1"
unfolding store_run
revoke_grant-find_token_example =
    revoke_grant-find_token anything issued "g1" after_revocation (hash_of "c") access 140
      (record_for "g2" full 100 200 "Agent 2") issued_open (tt, (tt, tt)) found_other

abbrev restricted : AuthenticatedConnection
restricted = record (record_for "g1" full 100 200 "Agent 1").grant.connection {
  surface_profile = gateway_only;
}

restriction :
    (restrict_by_access_token anything (hash_of "a") gateway_only 110 issued).0 ≡ ok restricted
unfolding store_run
restriction = refl

-- The connection tries to take it back, and the owner changes another grant.
abbrev after_restriction : List GrantCall
after_restriction = restricts (hash_of "a") full 120 ∷ sets_grant_profile "g2" full 130 ∷ []

found_restricted :
    (find_token anything (hash_of "b") refresh 140 (
      grant_run anything
        (restrict_by_access_token anything (hash_of "a") gateway_only 110 issued).1
        after_restriction)).0
    ≡ ok (some (record_for "g1" gateway_only 100 900 "Agent 1"))
unfolding store_run
found_restricted = refl

restrict-find_token_example : gateway_only ≡ gateway_only
restrict-find_token_example =
    restrict-find_token anything (hash_of "a") 110 issued restricted after_restriction (hash_of "b")
      refresh 140 (record_for "g1" gateway_only 100 900 "Agent 1") restriction (tt, (refl, tt))
      found_restricted refl

-- The tokens that a rotation makes.
abbrev third : Result GrantError (Unit {0}) × GrantStore
third =
    issue_grant anything (new_grant "g3") (stored "e" access 200 ∷ stored "f" refresh 900 ∷ []) 120
      issued

third_issued : third.0 ≡ ok tt
unfolding store_run
third_issued = refl

labels_below : AreBelow (pruned_rows 120 issued.tables).grants
unfolding store_run
labels_below = (refl, (refl, tt))

issue_grant-find_token_example :
    (label url : String) × (f : GrantRecord) × IsLabelled none
      (pruned_rows 120 issued.tables).grants
      label
    × (anything "https://host/mcp" ≡ some url)
    × IsGrantOf (new_grant "g3") label url 120 issued.tables.client_defaults f
    × ((find_token anything (hash_of "e") access 150 third.1).0
        ≡ ok (some (record { grant = f; expires_at = some 200 })))
issue_grant-find_token_example =
    issue_grant-find_token anything issued (new_grant "g3") (stored "e" access 200)
      (stored "f" refresh 900) 120 150 third_issued labels_below refl refl

-- The third grant is labelled "Agent 3".
third_found :
    (find_token anything (hash_of "e") access 150 third.1).0
    ≡ ok (
        some (record {
          grant = record {
            connection = record {
              client_id = "client";
              grant_id = "g3";
              connection_id = "g3";
              scopes = "mcp:tools" ∷ [];
              resource = "https://host/mcp";
              surface_profile = full;
              result_delivery = some structured;
            };
            profile_ceiling = full;
            label = "Agent 3";
            created_at = 120;
            last_seen_at = 120;
          };
          expires_at = some 200;
        }))
unfolding store_run
third_found = refl

-- Above 2 ^ 53 the numbers of the labels are doubles.
rounded_label :
    (number_text (to_double 9007199254740993) ≡ "9007199254740992")
    × (number_text (to_double 123456789012345678901) ≡ "123456789012345680000")
    × (number_text (to_double 10000000000000000000000) ≡ "1e+22")
    × (number_text (to_double 1234567890123456789012345) ≡ "1.2345678901234568e+24")
unfolding store_run
rounded_label = (refl, refl, refl, refl)
