-- ===== src/Auth/Grants/Issue.antt =====
-- src/auth/oauth-grant-store.ts: a new store, and issue.
use Prim.Native.String.{[], ◌∷◌}
use Prim.Native.Char.{code}
use slnc_tr_z_mcp.Prelude.{
  ℕ, ◌+◌, max, String, Bool, false, not, ◌&&◌, ◌||◌, Option, none, some, List, [], ◌∷◌, ◌++◌,
  Result, ok, err, ◌>>=◌, ◌>>◌, throw_if, leb, eqb, if◌then◌else◌, digits, concat, to_double,
  number_text,
}
use slnc_tr_z_mcp.Auth.ConnectionProfile.{
  SurfaceProfile, full, gateway_only, resolve_surface_profile, is_full,
}
use slnc_tr_z_mcp.Auth.Grants.{
  GrantRow, GrantTables, GrantLimits, GrantStore, StoredToken, NewGrant, GrantError, max_time,
  Action, grant_transaction, validate_connection_label, is_none, prune_rows, default_of, has_grant,
  invalid_capacity, invalid_grant, constraint_violated,
}
use slnc_tr_z_mcp.Auth.Grants.Lookup.{grant_schema, insert_tokens}

unfoldable pub new_grant_store : GrantLimits → Result GrantError GrantStore
new_grant_store lim =
    if (leb 1 lim.max_tokens && leb lim.max_tokens max_time)
      && ((leb 1 lim.max_client_defaults && leb lim.max_client_defaults max_time)
          && (leb 1 lim.max_refresh_history && leb lim.max_refresh_history max_time))
    then ok (record {
      tables = record {
        client_defaults = [];
        grants = [];
        tokens = [];
        refresh_history = [];
        grant_result_delivery = [];
      };
      limits = lim;
      closed = false;
    })
    else err invalid_capacity

-- `^Agent (\d+)$`, with the number that the digits write.
unfoldable pub agent_digits : String → Option ℕ
agent_digits (a ∷ g ∷ e ∷ n ∷ t ∷ s ∷ rest) =
    if (eqb (code a) 65 && (eqb (code g) 103 && eqb (code e) 101))
      && (eqb (code n) 110 && (eqb (code t) 116 && eqb (code s) 32))
    then digits rest
    else none
agent_digits _ = none

-- `Number(match[1])`, a double.
unfoldable pub agent_number : String → Option ℕ
unfolding agent_digits
agent_number label = elim (agent_digits label) [ none ↦ none | some n ↦ some (to_double n) ]

unfoldable pub max_agent : ℕ → List GrantRow → ℕ
unfolding agent_number
max_agent n [] = n
max_agent n (g ∷ gs) = max_agent (elim (agent_number g.label) [ none ↦ n | some k ↦ max n k ]) gs

unfoldable pub label_for : Option String → List GrantRow → Result GrantError String
unfolding max_agent validate_connection_label
label_for none grants = ok (concat "Agent " (number_text (to_double (max_agent 0 grants + 1))))
label_for (some label) grants = validate_connection_label label

abbrev pub is_reduced : Option SurfaceProfile → Bool
is_reduced none = false
is_reduced (some profile) = not (is_full profile)

abbrev pub ceiling_for : Option SurfaceProfile → SurfaceProfile
ceiling_for none = full
ceiling_for (some ceiling) = ceiling

-- The profile of a new grant: the least of the ceiling, the default of the client and the request.
unfoldable pub profile_for : NewGrant → Option SurfaceProfile → SurfaceProfile
unfolding resolve_surface_profile
profile_for grant client_default =
    if not (is_full (ceiling_for grant.profile_ceiling))
      || (not (is_full (resolve_surface_profile none client_default))
          || is_reduced grant.requested_profile)
    then gateway_only
    else full

abbrev pub new_row : NewGrant → SurfaceProfile → String → ℕ → GrantRow
new_row grant profile label now = record {
  grant_id = grant.grant_id;
  client_id = grant.client_id;
  resource = grant.resource;
  scopes = grant.scopes;
  surface_profile = profile;
  label = label;
  created_at = now;
  last_seen_at = now;
  profile_ceiling = ceiling_for grant.profile_ceiling;
}

module _ (parse_url : String → Option String) where
  unfoldable pub insert_grant : GrantRow → GrantTables → Result GrantError GrantTables
  insert_grant row t = do
    throw_if (is_none (grant_schema parse_url row)) invalid_grant
    throw_if (has_grant row.grant_id t) constraint_violated
    ok (record t { grants = t.grants ++ row ∷ [] })

  unfoldable pub issue_rows : NewGrant → List StoredToken → ℕ → Action (Unit {0})
  unfolding insert_grant profile_for
  issue_rows grant tokens now lim t = do
    t ← prune_rows now t
    label ← label_for grant.label t.grants
    t ← insert_grant (new_row grant (profile_for grant (default_of grant.client_id t)) label now) t
    t ← insert_tokens grant.grant_id tokens now lim t
    ok (tt, t)

  unfoldable pub issue_grant :
      NewGrant → List StoredToken → ℕ → GrantStore → Result GrantError (Unit {0}) × GrantStore
  unfolding issue_rows
  issue_grant grant tokens now s = grant_transaction (issue_rows grant tokens now) s
