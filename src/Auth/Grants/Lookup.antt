-- ===== src/Auth/Grants/Lookup.antt =====
-- src/auth/oauth-grant-store.ts: the lookups of live and of retired tokens, and the insertion of the
-- tokens of a grant.
use slnc_tr_z_mcp.Prelude.{
  ℕ, ◌+◌, String, Bool, true, false, not, ◌&&◌, ◌||◌, Option, none, some, List, [], ◌∷◌, ◌++◌,
  Result, ok, err, ◌>>=◌, ◌>>◌, throw_if, ltb, leb, length, if◌then◌else◌, ◌==◌, first, any,
  utf16_length, hex_of_length,
}
use slnc_tr_z_mcp.Auth.ConnectionProfile.{SurfaceProfile, ResultDelivery, is_full}
use slnc_tr_z_mcp.Auth.Grants.{
  TokenKind, GrantRow, TokenRow, HistoryRow, GrantTables, GrantLimits, GrantRecord, StoredToken,
  VerifiedGrantToken, RetiredToken, GrantError, max_time, length_within, valid_time, is_refresh,
  same_kind, is_none, has_expired, has_time, token_schema, delivery_of, invalid_record,
  invalid_tokens, grant_capacity, constraint_violated, zod_error,
}

abbrev pub is_live : String → TokenKind → ℕ → TokenRow → Bool
is_live hash kind now r =
    (r.token_hash == hash && same_kind r.kind kind)
    && (not (has_expired now r.expires_at) && (not (is_none r.expires_at) || is_refresh r.kind))

abbrev pub valid_nonce : Option String → Bool
valid_nonce none = true
valid_nonce (some nonce) = hex_of_length 64 nonce

abbrev pub is_retired : String → ℕ → HistoryRow → Bool
is_retired hash now h = h.token_hash == hash && not (has_expired now h.expires_at)

abbrev pub record_of : GrantRow → String → ResultDelivery → GrantRecord
record_of g url delivery = record {
  connection = record {
    client_id = g.client_id;
    grant_id = g.grant_id;
    connection_id = g.grant_id;
    scopes = g.scopes;
    resource = url;
    surface_profile = g.surface_profile;
    result_delivery = some delivery;
  };
  profile_ceiling = g.profile_ceiling;
  label = g.label;
  created_at = g.created_at;
  last_seen_at = g.last_seen_at;
}

module _ (parse_url : String → Option String) where
  -- `grantSchema`, with the resource that it parses.
  unfoldable pub grant_schema : GrantRow → Option String
  grant_schema g =
      if (length_within 256 g.grant_id && length_within 256 g.client_id)
        && ((leb 1 (length g.scopes) && leb (length g.scopes) 32)
            && (not (any (λ scope. not (length_within 256 scope)) g.scopes)
                && (length_within 64 g.label
                    && (leb g.created_at max_time && leb g.last_seen_at max_time))))
      then elim (parse_url g.resource) [
        | none ↦ none
        | some url ↦ if leb (utf16_length url) 2048 then some url else none
      ]
      else none

  -- `grantFromRow`
  unfoldable pub grant_from_row : GrantRow → ResultDelivery → Result GrantError GrantRecord
  grant_from_row g delivery = elim (grant_schema g) [
    | none ↦ err invalid_record
    | some url ↦
        if not (is_full g.profile_ceiling) && is_full g.surface_profile
        then err invalid_record
        else ok (record_of g url delivery)
  ]

  unfoldable pub verified :
      TokenKind → TokenRow → GrantRow → GrantTables → Result GrantError VerifiedGrantToken
  unfolding grant_from_row
  verified kind r g t = do
    throw_if (not (has_time r.expires_at)) invalid_record
    grant ← grant_from_row g (delivery_of g.grant_id t)
    throw_if (is_none r.expires_at && (not (is_refresh kind) || is_full grant.profile_ceiling))
        invalid_record
    ok (record { grant = grant; expires_at = r.expires_at })

  -- `find`
  unfoldable pub find_live :
      String → TokenKind → ℕ → GrantTables → Result GrantError (Option VerifiedGrantToken)
  find_live hash kind now t = do
    valid_time now
    elim (first (is_live hash kind now) t.tokens) [
      | none ↦ ok none
      | some r ↦ elim (first (λ g. g.grant_id == r.grant_id) t.grants) [
        | none ↦ ok none
        | some g ↦ verified kind r g t >>= λ found. ok (some found)
      ]
    ]

  unfoldable pub retired_row : HistoryRow → GrantRow → GrantTables → Result GrantError RetiredToken
  unfolding grant_from_row
  retired_row h g t = do
    grant ← grant_from_row g (delivery_of g.grant_id t)
    throw_if (not (has_time h.expires_at && (leb h.superseded_at max_time && valid_nonce h.nonce)))
        zod_error
    throw_if (is_none h.expires_at && is_full grant.profile_ceiling) invalid_record
    ok (record {
      grant = record { grant = grant; expires_at = h.expires_at };
      nonce = h.nonce;
      issued_at = h.superseded_at;
    })

  -- `retired`
  unfoldable pub find_retired : String → ℕ → GrantTables → Result GrantError (Option RetiredToken)
  find_retired hash now t = do
    valid_time now
    elim (first (is_retired hash now) t.refresh_history) [
      | none ↦ ok none
      | some h ↦ elim (first (λ g. g.grant_id == h.grant_id) t.grants) [
        | none ↦ ok none
        | some g ↦ retired_row h g t >>= λ found. ok (some found)
      ]
    ]

abbrev pub ceiling_of : String → GrantTables → Option SurfaceProfile
ceiling_of grant_id t = elim (first (λ g. g.grant_id == grant_id) t.grants) [
  | none ↦ none
  | some g ↦ some g.profile_ceiling
]

-- `ceiling !== "gateway-only"`
abbrev pub may_expire : Option SurfaceProfile → Bool
may_expire none = true
may_expire (some ceiling) = is_full ceiling

abbrev pub has_bad_expiry : Option SurfaceProfile → ℕ → StoredToken → Bool
has_bad_expiry ceiling now k = elim k.expires_at [
  | none ↦ may_expire ceiling
  | some at ↦ leb at now
]

abbrev pub token_row : String → StoredToken → TokenRow
token_row grant_id k = record {
  token_hash = k.token_hash;
  kind = k.kind;
  grant_id = grant_id;
  expires_at = k.expires_at;
}

-- `INSERT INTO tokens`: the hash is the primary key and the grant exists.
unfoldable pub insert_token_row :
    String → Option SurfaceProfile → ℕ → StoredToken → GrantTables → Result GrantError GrantTables
insert_token_row grant_id ceiling now k t = do
  throw_if (not (token_schema k) || has_bad_expiry ceiling now k) invalid_tokens
  throw_if
      (any (λ r. r.token_hash == k.token_hash) t.tokens
        || not (any (λ g. g.grant_id == grant_id) t.grants))
      constraint_violated
  ok (record t { tokens = t.tokens ++ token_row grant_id k ∷ [] })

-- `tokens.length === 2`, an access token and a refresh token.
abbrev pub is_pair : List StoredToken → Bool
is_pair (a ∷ r ∷ []) = not (is_refresh a.kind) && is_refresh r.kind
is_pair _ = false

unfoldable pub insert_each :
    String
    → Option SurfaceProfile
    → ℕ
    → List StoredToken
    → GrantTables
    → Result GrantError GrantTables
unfolding insert_token_row
insert_each grant_id ceiling now [] t = ok t
insert_each grant_id ceiling now (k ∷ ks) t =
    insert_token_row grant_id ceiling now k t >>= insert_each grant_id ceiling now ks

unfoldable pub insert_tokens :
    String → List StoredToken → ℕ → GrantLimits → GrantTables → Result GrantError GrantTables
unfolding insert_each
insert_tokens grant_id tokens now lim t = do
  throw_if (not (is_pair tokens)) invalid_tokens
  throw_if (ltb lim.max_tokens (length t.tokens + length tokens)) grant_capacity
  insert_each grant_id (ceiling_of grant_id t) now tokens t
