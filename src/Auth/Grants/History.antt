-- ===== src/Auth/Grants/History.antt =====
-- Histories of calls on one grant store (src/auth/oauth-grant-store.ts).
use slnc_tr_z_mcp.Prelude.{
  ◌∙◌, ℕ, String, Bool, true, false, not, ◌&&◌, Option, List, [], ◌∷◌, ◌≡◌, arith, refl, Result, ok,
  err, ltb, ◌==◌, if◌then◌else◌, subst, All,
}
use slnc_tr_z_mcp.Auth.ConnectionProfile.{SurfaceProfile, ResultDelivery, is_full}
use slnc_tr_z_mcp.Auth.Grants.{
  delete_grants, commit_or_rollback, length_within, GrantTables, GrantError, GrantLimits,
  validate_connection_label, TokenKind, GrantTables, GrantStore, StoredToken, NewGrant, GrantError,
  Action, grant_transaction,
}
use slnc_tr_z_mcp.Auth.Grants.Issue.{issue_grant}
use slnc_tr_z_mcp.Auth.Grants.Rotate.{max_rotation_grace_seconds, RotationTokenFactory, rotate}
use slnc_tr_z_mcp.Auth.Grants.Manage.{
  label_rows, set_parsed_label, find_token, find_refresh_token_for_revocation,
  restrict_by_access_token, list_connections, set_client_default, set_grant_profile,
  set_result_delivery, set_connection_label, revoke_grant, revoke_client, revoke_all, prune_grants,
  close_grants,
}
use slnc_tr_z_mcp.Auth.Grants.Changes.{
  Change, Leads, led, thrown, changes_nothing, follows, removes_grants, drops_default,
  drops_defaults,
}
use slnc_tr_z_mcp.Auth.Grants.Steps.{issue_rows-Leads, rotate_rows-Leads}
use slnc_tr_z_mcp.Auth.Grants.Owner.{
  label_rows-Leads, delivery_rows-Leads, profile_rows-Leads, default_rows-Leads, list_rows-Leads,
  restrict_rows-Leads, find_refresh_rows-Leads, find_token_rows-Leads, pruned-Leads,
}

pub data GrantCall : Type 0 where
  issues_grant : NewGrant → List StoredToken → ℕ → GrantCall
  rotates : String → String → String → RotationTokenFactory → String → ℕ → ℕ → GrantCall
  finds_token : String → TokenKind → ℕ → GrantCall
  finds_refresh_token : String → ℕ → GrantCall
  restricts : String → SurfaceProfile → ℕ → GrantCall
  lists_connections : ℕ → GrantCall
  sets_client_default : String → SurfaceProfile → GrantCall
  sets_grant_profile : String → SurfaceProfile → ℕ → GrantCall
  sets_result_delivery : String → ResultDelivery → ℕ → GrantCall
  sets_connection_label : String → String → ℕ → GrantCall
  revokes_grant revokes_client : String → GrantCall
  revokes_all : GrantCall
  prunes_grants : ℕ → GrantCall
  closes_grants : GrantCall

module _ (parse_url : String → Option String) where
  -- The store after a call; what the call returns or throws is dropped.
  unfoldable pub grant_step : GrantStore → GrantCall → GrantStore
  grant_step s (issues_grant grant tokens now) = (issue_grant parse_url grant tokens now s).1
  grant_step s (rotates hash client_id resource create_tokens nonce now grace) =
      (rotate parse_url hash client_id resource create_tokens nonce now grace s).1
  grant_step s (finds_token hash kind now) = (find_token parse_url hash kind now s).1
  grant_step s (finds_refresh_token hash now) =
      (find_refresh_token_for_revocation parse_url hash now s).1
  grant_step s (restricts hash profile now) =
      (restrict_by_access_token parse_url hash profile now s).1
  grant_step s (lists_connections now) = (list_connections parse_url now s).1
  grant_step s (sets_client_default client_id profile) = (set_client_default client_id profile s).1
  grant_step s (sets_grant_profile id profile now) = (set_grant_profile id profile now s).1
  grant_step s (sets_result_delivery id delivery now) = (set_result_delivery id delivery now s).1
  grant_step s (sets_connection_label id label now) = (set_connection_label id label now s).1
  grant_step s (revokes_grant id) = (revoke_grant id s).1
  grant_step s (revokes_client client_id) = (revoke_client client_id s).1
  grant_step s revokes_all = (revoke_all s).1
  grant_step s (prunes_grants now) = (prune_grants now s).1
  grant_step s closes_grants = close_grants s

  unfoldable pub grant_run : GrantStore → List GrantCall → GrantStore
  unfolding grant_step
  grant_run s [] = s
  grant_run s (c ∷ cs) = grant_run (grant_step s c) cs

-- What a call may do: grant an identifier, or raise the profile of a grant.
abbrev pub Permitted : (String → Bool) → (String → Bool) → GrantCall → Type 0
Permitted may_grant may_raise (issues_grant grant tokens now) = may_grant grant.grant_id ≡ true
Permitted may_grant may_raise (sets_grant_profile id profile now) =
    (is_full profile && not (may_raise id)) ≡ false
Permitted may_grant may_raise _ = Unit

label_fits :
    (value label : String)
    → validate_connection_label value ≡ ok label
    → length_within 64 label ≡ true
unfolding validate_connection_label
label_fits value label e = ground arith

module _ (parse_url : String → Option String) (may_grant may_raise : String → Bool) where
  -- The limits stay, and the tables change.
  pub record Steps (s u : GrantStore) : Type 0 where
    pub limits : u.limits ≡ s.limits
    pub tables : Change parse_url s.limits may_grant may_raise s.tables u.tables

  unmoved : (s : GrantStore) → Steps s s
  unmoved s = record { limits = refl; tables = changes_nothing }

  result-Steps :
      {A : Type 0} (s : GrantStore) (r : Result GrantError (A × GrantTables))
      → Leads parse_url s.limits may_grant may_raise s.tables r
      → Steps s (commit_or_rollback s r).1
  result-Steps s (ok (a, after)) (led c) = record { limits = refl; tables = c }
  result-Steps s (err e) thrown = unmoved s

  pick-Steps :
      (s : GrantStore) (b : Bool) (x y : GrantStore)
      → Steps s x
      → Steps s y
      → Steps s (if b then x else y)
  pick-Steps s true x y h k = h
  pick-Steps s false x y h k = k

  branch-Steps :
      {A : Type 0} (s : GrantStore) (b : Bool) (x y : Result GrantError A × GrantStore)
      → Steps s x.1
      → Steps s y.1
      → Steps s (if b then x else y).1
  branch-Steps s true x y h k = h
  branch-Steps s false x y h k = k

  transaction-Steps :
      {A : Type 0} (action : Action A) (s : GrantStore)
      → Leads parse_url s.limits may_grant may_raise s.tables (action s.limits s.tables)
      → Steps s (grant_transaction action s).1
  unfolding grant_transaction
  transaction-Steps action s h =
      branch-Steps s s.closed _ _ (unmoved s) (result-Steps s (action s.limits s.tables) h)

  revoke_client-Steps :
      (client_id : String) (s : GrantStore) → Steps s (revoke_client client_id s).1
  unfolding revoke_client delete_grants
  revoke_client-Steps client_id s =
      transaction-Steps _ s
        (led (follows (removes_grants (λ g. g.client_id == client_id)) (drops_default _)))

  revoke_all-Steps : (s : GrantStore) → Steps s (revoke_all s).1
  unfolding revoke_all delete_grants
  revoke_all-Steps s =
      transaction-Steps _ s (led (follows (removes_grants (λ g. true)) drops_defaults))

  validated-Steps :
      (id : String) (now : ℕ) (s : GrantStore) (r : Result GrantError String)
      → ((label : String) → r ≡ ok label → length_within 64 label ≡ true)
      → Steps s (set_parsed_label id now s r).1
  validated-Steps id now s (err e) good = unmoved s
  validated-Steps id now s (ok label) good = transaction-Steps (label_rows id label now) s (
      label_rows-Leads parse_url s.limits may_grant may_raise id label now s.tables
        (good label refl))

  pub grant_step-Steps :
      (s : GrantStore) (c : GrantCall)
      → Permitted may_grant may_raise c
      → Steps s (grant_step parse_url s c)
  unfolding grant_step issue_grant rotate find_token find_refresh_token_for_revocation
      restrict_by_access_token list_connections set_client_default set_grant_profile
      set_result_delivery revoke_grant revoke_all prune_grants close_grants set_connection_label
  grant_step-Steps s (issues_grant grant tokens now) h =
      transaction-Steps _ s
        (issue_rows-Leads parse_url s.limits may_grant may_raise grant tokens now s.tables h)
  grant_step-Steps s (rotates hash client_id resource create_tokens nonce now grace) h =
      branch-Steps s (ltb max_rotation_grace_seconds grace) _ _ (unmoved s) (
        transaction-Steps _ s (
          rotate_rows-Leads parse_url s.limits may_grant may_raise hash client_id resource
            create_tokens nonce now grace s.tables))
  grant_step-Steps s (finds_token hash kind now) h =
      transaction-Steps _ s
        (find_token_rows-Leads parse_url s.limits may_grant may_raise hash kind now s.tables)
  grant_step-Steps s (finds_refresh_token hash now) h =
      transaction-Steps _ s
        (find_refresh_rows-Leads parse_url s.limits may_grant may_raise hash now s.tables)
  grant_step-Steps s (restricts hash profile now) h =
      transaction-Steps _ s
        (restrict_rows-Leads parse_url s.limits may_grant may_raise hash profile now s.tables)
  grant_step-Steps s (lists_connections now) h =
      transaction-Steps _ s (list_rows-Leads parse_url s.limits may_grant may_raise now s.tables)
  grant_step-Steps s (sets_client_default client_id profile) h =
      branch-Steps s (not (length_within 256 client_id)) _ _ (unmoved s) (
        transaction-Steps _ s
          (default_rows-Leads parse_url s.limits may_grant may_raise client_id profile s.tables))
  grant_step-Steps s (sets_grant_profile id profile now) h =
      transaction-Steps _ s
        (profile_rows-Leads parse_url s.limits may_grant may_raise id profile now s.tables h)
  grant_step-Steps s (sets_result_delivery id delivery now) h =
      transaction-Steps _ s
        (delivery_rows-Leads parse_url s.limits may_grant may_raise id delivery now s.tables)
  grant_step-Steps s (sets_connection_label id label now) h =
      validated-Steps id now s (validate_connection_label label) (λ l e. label_fits label l e)
  grant_step-Steps s (revokes_grant id) h =
      transaction-Steps _ s (led (removes_grants (λ g. g.grant_id == id)))
  grant_step-Steps s (revokes_client client_id) h = revoke_client-Steps client_id s
  grant_step-Steps s revokes_all h = revoke_all-Steps s
  grant_step-Steps s (prunes_grants now) h = transaction-Steps _ s (
      pruned-Leads parse_url s.limits may_grant may_raise now s.tables _
        (λ u _. led changes_nothing))
  grant_step-Steps s closes_grants h =
      pick-Steps s s.closed s (record s { closed = true }) (unmoved s)
        (record { limits = refl; tables = changes_nothing })

  -- A property of the tables that every change keeps holds after every history.
  pub grant_run-keeps :
      (lim : GrantLimits) (P : GrantTables → Type 0)
      → ((t u : GrantTables) → Change parse_url lim may_grant may_raise t u → P t → P u)
      → (s : GrantStore) (cs : List GrantCall) → s.limits ≡ lim
      → All (Permitted may_grant may_raise) cs
      → P s.tables
      → P (grant_run parse_url s cs).tables
  unfolding grant_run
  grant_run-keeps lim P keeps s [] same may h = h
  grant_run-keeps lim P keeps s (c ∷ cs) same (may, rest) h =
      let moved = grant_step-Steps s c may in
      grant_run-keeps lim P keeps (grant_step parse_url s c) cs (moved.limits ∙ same) rest (
        keeps s.tables (grant_step parse_url s c).tables
          (subst
            (λ l. Change parse_url l may_grant may_raise s.tables (grant_step parse_url s c).tables)
            same moved.tables)
          h)
