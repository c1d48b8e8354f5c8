-- ===== src/Auth/Grants/Manage.antt =====
-- src/auth/oauth-grant-store.ts: the lookups, the changes by the owner, and the revocations.
use Prim.Native.Nat.{Ordering}
use Prim.Native.String.{compare}
use slnc_tr_z_mcp.Prelude.{
  ℕ, String, Bool, true, false, not, ◌&&◌, ◌||◌, Option, none, some, List, [], ◌∷◌, ◌++◌, Result,
  ok, err, ◌>>=◌, ◌>>◌, throw_if, ltb, leb, eqb, length, if◌then◌else◌, ◌==◌, delete, update, any,
  sort_by,
}
use slnc_tr_z_mcp.Auth.ConnectionProfile.{
  SurfaceProfile, ResultDelivery, AuthenticatedConnection, is_full,
}
use slnc_tr_z_mcp.Auth.Grants.{
  TokenKind, GrantRow, TokenRow, DeliveryRow, DefaultRow, GrantTables, GrantStore, GrantRecord,
  VerifiedGrantToken, GrantError, Action, grant_transaction, length_within,
  validate_connection_label, valid_time, is_refresh, is_none, has_expired, delete_grants,
  prune_rows, default_of, delivery_of, set_last_seen, set_profile, set_label, has_grant, id_of,
  access, refresh, grant_capacity, invalid_access_token, self_promotion_forbidden, invalid_client,
  gateway_only_grant_cannot_be_promoted, oauth_grant_not_found, store_closed,
}
use slnc_tr_z_mcp.Auth.Grants.Lookup.{
  grant_from_row, find_live, find_retired, ceiling_of, may_expire,
}

unfoldable pub restrict_found :
    Option VerifiedGrantToken
    → SurfaceProfile
    → GrantTables
    → Result GrantError (AuthenticatedConnection × GrantTables)
restrict_found none profile t = err invalid_access_token
restrict_found (some f) profile t =
    if not (is_full f.grant.connection.surface_profile) && is_full profile
    then err self_promotion_forbidden
    else ok
        (record f.grant.connection { surface_profile = profile }, set_profile (id_of f) profile t)

abbrev pub row_before : GrantRow → GrantRow → Bool
row_before a b =
    ltb a.created_at b.created_at
    || (eqb a.created_at b.created_at
        && elim (compare a.grant_id b.grant_id) [ Ordering.lt ↦ true | _ ↦ false ])

module _ (parse_url : String → Option String) where
  unfoldable pub find_token_rows : String → TokenKind → ℕ → Action (Option VerifiedGrantToken)
  find_token_rows hash kind now lim t = do
    t ← prune_rows now t
    found ← find_live parse_url hash kind now t
    ok (found, elim found [ none ↦ t | some f ↦ set_last_seen (id_of f) now t ])

  unfoldable pub find_token :
      String
      → TokenKind
      → ℕ
      → GrantStore
      → Result GrantError (Option VerifiedGrantToken) × GrantStore
  unfolding find_token_rows
  find_token hash kind now s = grant_transaction (find_token_rows hash kind now) s

  unfoldable pub find_refresh_rows : String → ℕ → Action (Option VerifiedGrantToken)
  find_refresh_rows hash now lim t = do
    t ← prune_rows now t
    live ← find_live parse_url hash refresh now t
    elim live [
      | some f ↦ ok (some f, t)
      | none ↦ find_retired parse_url hash now t >>= λ history. elim history [
        | none ↦ ok (none, t)
        | some h ↦ ok (some h.grant, t)
      ]
    ]

  unfoldable pub find_refresh_token_for_revocation :
      String → ℕ → GrantStore → Result GrantError (Option VerifiedGrantToken) × GrantStore
  unfolding find_refresh_rows
  find_refresh_token_for_revocation hash now s = grant_transaction (find_refresh_rows hash now) s

  unfoldable pub restrict_rows : String → SurfaceProfile → ℕ → Action AuthenticatedConnection
  unfolding restrict_found
  restrict_rows hash profile now lim t = do
    t ← prune_rows now t
    found ← find_live parse_url hash access now t
    restrict_found found profile t

  unfoldable pub restrict_by_access_token :
      String
      → SurfaceProfile
      → ℕ
      → GrantStore
      → Result GrantError AuthenticatedConnection × GrantStore
  unfolding restrict_rows
  restrict_by_access_token hash profile now s = grant_transaction (restrict_rows hash profile now) s

  unfoldable pub records_of : List GrantRow → GrantTables → Result GrantError (List GrantRecord)
  records_of [] t = ok []
  records_of (g ∷ gs) t = do
    r ← grant_from_row parse_url g (delivery_of g.grant_id t)
    rs ← records_of gs t
    ok (r ∷ rs)

  unfoldable pub list_rows : ℕ → Action (List GrantRecord)
  unfolding records_of
  list_rows now lim t = do
    t ← prune_rows now t
    rs ← records_of (sort_by row_before t.grants) t
    ok (rs, t)

  unfoldable pub list_connections :
      ℕ → GrantStore → Result GrantError (List GrantRecord) × GrantStore
  unfolding list_rows
  list_connections now s = grant_transaction (list_rows now) s

unfoldable pub get_client_default : String → GrantStore → Result GrantError (Option SurfaceProfile)
get_client_default client_id s =
    if s.closed then err store_closed else ok (default_of client_id s.tables)

-- `INSERT ... ON CONFLICT DO UPDATE`
abbrev pub put_default : String → SurfaceProfile → List DefaultRow → List DefaultRow
put_default client_id profile rows =
    if any (λ d. d.client_id == client_id) rows
    then update (λ d. d.client_id == client_id) (λ d. record d { surface_profile = profile }) rows
    else rows ++ record { client_id = client_id; surface_profile = profile } ∷ []

unfoldable pub default_rows : String → SurfaceProfile → Action (Unit {0})
default_rows client_id profile lim t = do
  throw_if
      (is_none (default_of client_id t) && leb lim.max_client_defaults (length t.client_defaults))
      grant_capacity
  ok (tt, record t { client_defaults = put_default client_id profile t.client_defaults })

unfoldable pub set_client_default :
    String → SurfaceProfile → GrantStore → Result GrantError (Unit {0}) × GrantStore
unfolding default_rows
set_client_default client_id profile s =
    if not (length_within 256 client_id)
    then (err invalid_client, s)
    else grant_transaction (default_rows client_id profile) s

unfoldable pub profile_rows : String → SurfaceProfile → ℕ → Action (Unit {0})
profile_rows id profile now lim t = do
  t ← prune_rows now t
  throw_if (is_full profile && not (may_expire (ceiling_of id t)))
      gateway_only_grant_cannot_be_promoted
  throw_if (not (has_grant id t)) oauth_grant_not_found
  ok (tt, set_profile id profile t)

unfoldable pub set_grant_profile :
    String → SurfaceProfile → ℕ → GrantStore → Result GrantError (Unit {0}) × GrantStore
unfolding profile_rows
set_grant_profile id profile now s = grant_transaction (profile_rows id profile now) s

abbrev pub put_delivery : String → ResultDelivery → List DeliveryRow → List DeliveryRow
put_delivery id delivery rows =
    if any (λ d. d.grant_id == id) rows
    then update (λ d. d.grant_id == id) (λ d. record d { result_delivery = delivery }) rows
    else rows ++ record { grant_id = id; result_delivery = delivery } ∷ []

unfoldable pub delivery_rows : String → ResultDelivery → ℕ → Action (Unit {0})
delivery_rows id delivery now lim t = do
  t ← prune_rows now t
  throw_if (not (has_grant id t)) oauth_grant_not_found
  ok (tt, record t { grant_result_delivery = put_delivery id delivery t.grant_result_delivery })

unfoldable pub set_result_delivery :
    String → ResultDelivery → ℕ → GrantStore → Result GrantError (Unit {0}) × GrantStore
unfolding delivery_rows
set_result_delivery id delivery now s = grant_transaction (delivery_rows id delivery now) s

unfoldable pub label_rows : String → String → ℕ → Action (Unit {0})
label_rows id label now lim t = do
  t ← prune_rows now t
  throw_if (not (has_grant id t)) oauth_grant_not_found
  ok (tt, set_label id label t)

abbrev pub set_parsed_label :
    String → ℕ → GrantStore → Result GrantError String → Result GrantError (Unit {0}) × GrantStore
set_parsed_label id now s (err e) = (err e, s)
set_parsed_label id now s (ok parsed) = grant_transaction (label_rows id parsed now) s

unfoldable pub set_connection_label :
    String → String → ℕ → GrantStore → Result GrantError (Unit {0}) × GrantStore
unfolding label_rows validate_connection_label
set_connection_label id label now s = set_parsed_label id now s (validate_connection_label label)

unfoldable pub revoke_grant : String → GrantStore → Result GrantError Bool × GrantStore
revoke_grant id s =
    grant_transaction (λ lim t. ok (has_grant id t, delete_grants (λ g. g.grant_id == id) t)) s

unfoldable pub revoke_client : String → GrantStore → Result GrantError (Unit {0}) × GrantStore
revoke_client client_id s =
    grant_transaction
      (λ lim t. ok (
        tt,
        record (delete_grants (λ g. g.client_id == client_id) t) {
          client_defaults = delete (λ d. d.client_id == client_id) t.client_defaults;
        },
      ))
      s

unfoldable pub revoke_all : GrantStore → Result GrantError (Unit {0}) × GrantStore
revoke_all s =
    grant_transaction
      (λ lim t. ok (tt, record (delete_grants (λ g. true) t) { client_defaults = [] })) s

abbrev pub keeps_alive : String → ℕ → GrantTables → TokenRow → Bool
keeps_alive client_id now t r =
    any (λ g. g.grant_id == r.grant_id && g.client_id == client_id) t.grants
    && (not (has_expired now r.expires_at) && (not (is_none r.expires_at) || is_refresh r.kind))

unfoldable pub has_client : String → ℕ → GrantStore → Result GrantError Bool
has_client client_id now s = do
  valid_time now
  throw_if s.closed store_closed
  ok (any (keeps_alive client_id now s.tables) s.tables.tokens)

unfoldable pub prune_grants : ℕ → GrantStore → Result GrantError (Unit {0}) × GrantStore
prune_grants now s = grant_transaction (λ lim t. prune_rows now t >>= λ after. ok (tt, after)) s

unfoldable pub close_grants : GrantStore → GrantStore
close_grants s = if s.closed then s else record s { closed = true }
