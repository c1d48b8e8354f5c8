-- ===== src/Auth/Grants.antt =====
-- src/auth/oauth-grant-store.ts: the tables of the OAuth grant store, its transactions and the steps
-- that its methods share. The times are in seconds, scopes stand as they are where the source keeps
-- them as JSON text, and `parse_url` is what `z.string().url()` makes of a text.
pub mod Lookup
pub mod Issue
pub mod Rotate
pub mod Manage
pub mod Found
pub mod Left
pub mod Successors
pub mod Labels
pub mod Pair
pub mod Retried
pub mod Issued
pub mod Changes
pub mod Effects
pub mod Steps
pub mod Owned
pub mod Sound
pub mod Preserved
pub mod Readable
pub mod Revoked
pub mod Withdrawn
pub mod Rotated
pub mod Replayed
pub mod Family
mod Tests
pub mod Owner
pub mod History
use Prim.Native.String.{count}
use slnc_tr_z_mcp.Prelude.{
  ℕ, zero, suc, ◌+◌, max, String, Bool, true, false, not, ◌&&◌, ◌||◌, Option, none, some, List, [],
  ◌∷◌, ◌++◌, ◌≡◌, Result, ok, err, ◌>>=◌, ◌>>◌, throw_if, ltb, leb, eqb, length, if◌then◌else◌,
  ◌==◌, first, select, delete, update, any, utf16_length, trim, hex_of_length,
}
use slnc_tr_z_mcp.Auth.ConnectionProfile.{
  SurfaceProfile, ResultDelivery, structured, AuthenticatedConnection, is_full,
}

pub data TokenKind : Type 0 where
  access refresh : TokenKind

pub record GrantRow : Type 0 where
  pub grant_id : String
  pub client_id : String
  pub resource : String
  pub scopes : List String
  pub surface_profile : SurfaceProfile
  pub label : String
  pub created_at : ℕ
  pub last_seen_at : ℕ
  pub profile_ceiling : SurfaceProfile

pub record TokenRow : Type 0 where
  pub token_hash : String
  pub kind : TokenKind
  pub grant_id : String
  pub expires_at : Option ℕ

pub record HistoryRow : Type 0 where
  pub token_hash : String
  pub grant_id : String
  pub expires_at : Option ℕ
  pub superseded_at : ℕ
  pub nonce : Option String

pub record DeliveryRow : Type 0 where
  pub grant_id : String
  pub result_delivery : ResultDelivery

pub record DefaultRow : Type 0 where
  pub client_id : String
  pub surface_profile : SurfaceProfile

pub record GrantTables : Type 0 where
  pub client_defaults : List DefaultRow
  pub grants : List GrantRow
  pub tokens : List TokenRow
  pub refresh_history : List HistoryRow
  pub grant_result_delivery : List DeliveryRow

pub record GrantLimits : Type 0 where
  pub max_tokens : ℕ
  pub max_client_defaults : ℕ
  pub max_refresh_history : ℕ

pub record GrantStore : Type 0 where
  pub tables : GrantTables
  pub limits : GrantLimits
  pub closed : Bool

pub record GrantRecord : Type 0 where
  pub connection : AuthenticatedConnection
  pub profile_ceiling : SurfaceProfile
  pub label : String
  pub created_at : ℕ
  pub last_seen_at : ℕ

pub record StoredToken : Type 0 where
  pub token_hash : String
  pub kind : TokenKind
  pub expires_at : Option ℕ

pub record VerifiedGrantToken : Type 0 where
  pub grant : GrantRecord
  pub expires_at : Option ℕ

pub record NewGrant : Type 0 where
  pub grant_id : String
  pub client_id : String
  pub resource : String
  pub scopes : List String
  pub requested_profile : Option SurfaceProfile
  pub profile_ceiling : Option SurfaceProfile
  pub label : Option String

pub record RefreshRotationReceipt : Type 0 where
  pub grant : VerifiedGrantToken
  pub nonce : String
  pub issued_at : ℕ
  pub replayed : Bool

-- What `retired` returns.
pub record RetiredToken : Type 0 where
  pub grant : VerifiedGrantToken
  pub nonce : Option String
  pub issued_at : ℕ

pub data GrantError : Type 0 where
  invalid_connection_label invalid_time invalid_record invalid_capacity invalid_tokens
        grant_capacity invalid_grant invalid_grace history_capacity invalid_access_token
        self_promotion_forbidden invalid_client gateway_only_grant_cannot_be_promoted
        oauth_grant_not_found constraint_violated zod_error store_closed :
      GrantError

abbrev pub max_time : ℕ
max_time = 9007199254740991

-- The type of an action in a transaction: the limits, and the tables before and after.
abbrev pub Action : Type 0 → Type 0
Action A = GrantLimits → GrantTables → Result GrantError (A × GrantTables)

-- `COMMIT`, or `ROLLBACK` on an error.
abbrev pub commit_or_rollback :
    {A : Type 0}
    → GrantStore
    → Result GrantError (A × GrantTables)
    → Result GrantError A × GrantStore
commit_or_rollback s (ok (a, after)) = (ok a, record s { tables = after })
commit_or_rollback s (err e) = (err e, s)

-- `transaction`
unfoldable pub grant_transaction :
    {A : Type 0} → Action A → GrantStore → Result GrantError A × GrantStore
grant_transaction action s =
    if s.closed then (err store_closed, s) else commit_or_rollback s (action s.limits s.tables)

abbrev pub length_within : ℕ → String → Bool
length_within n s = leb 1 (utf16_length s) && leb (utf16_length s) n

unfoldable pub validate_connection_label : String → Result GrantError String
validate_connection_label value =
    let label = trim value in
    if length_within 64 label then ok label else err invalid_connection_label

-- `validTime`
abbrev pub valid_time : ℕ → Result GrantError (Unit {0})
valid_time now = throw_if (not (leb now max_time)) invalid_time

abbrev pub is_refresh : TokenKind → Bool
is_refresh access = false
is_refresh refresh = true

abbrev pub same_kind : TokenKind → TokenKind → Bool
same_kind access k = not (is_refresh k)
same_kind refresh k = is_refresh k

abbrev pub is_none {ℓ} : {A : Type ℓ} → Option A → Bool
is_none none = true
is_none (some a) = false

-- `expiresAt <= now`, which is not so when it is NULL.
abbrev pub has_expired : ℕ → Option ℕ → Bool
has_expired now none = false
has_expired now (some at) = leb at now

abbrev pub has_time : Option ℕ → Bool
has_time none = true
has_time (some at) = leb at max_time

-- `tokenSchema`
abbrev pub token_schema : StoredToken → Bool
token_schema k =
    (hex_of_length 64 k.token_hash && has_time k.expires_at)
    && (is_refresh k.kind || not (is_none k.expires_at))

-- `DELETE FROM grants WHERE p`, with the rows that refer to the grants deleted.
abbrev pub of_deleted : (GrantRow → Bool) → GrantTables → String → Bool
of_deleted p t id = any (λ g. g.grant_id == id) (select p t.grants)

unfoldable pub delete_grants : (GrantRow → Bool) → GrantTables → GrantTables
delete_grants p t = record t {
  grants = delete p t.grants;
  tokens = delete (λ r. of_deleted p t r.grant_id) t.tokens;
  refresh_history = delete (λ r. of_deleted p t r.grant_id) t.refresh_history;
  grant_result_delivery = delete (λ r. of_deleted p t r.grant_id) t.grant_result_delivery;
}

abbrev pub without_expired : ℕ → GrantTables → GrantTables
without_expired now t = record t {
  tokens = delete (λ r. has_expired now r.expires_at) t.tokens;
  refresh_history = delete (λ r. has_expired now r.expires_at) t.refresh_history;
}

abbrev pub no_token : List TokenRow → GrantRow → Bool
no_token tokens g = not (any (λ r. r.grant_id == g.grant_id) tokens)

unfoldable pub pruned_rows : ℕ → GrantTables → GrantTables
unfolding delete_grants
pruned_rows now t = let kept = without_expired now t in delete_grants (no_token kept.tokens) kept

-- `prune`
abbrev pub prune_rows : ℕ → GrantTables → Result GrantError GrantTables
prune_rows now t = valid_time now >> ok (pruned_rows now t)

unfoldable pub default_of : String → GrantTables → Option SurfaceProfile
default_of client_id t = elim (first (λ d. d.client_id == client_id) t.client_defaults) [
  | none ↦ none
  | some d ↦ some d.surface_profile
]

-- `COALESCE(d.resultDelivery,'structured')`
unfoldable pub delivery_of : String → GrantTables → ResultDelivery
delivery_of grant_id t = elim (first (λ d. d.grant_id == grant_id) t.grant_result_delivery) [
  | none ↦ structured
  | some d ↦ d.result_delivery
]

abbrev pub set_last_seen : String → ℕ → GrantTables → GrantTables
set_last_seen id now t = record t {
  grants = update (λ g. g.grant_id == id) (λ g. record g { last_seen_at = now }) t.grants;
}

abbrev pub set_profile : String → SurfaceProfile → GrantTables → GrantTables
set_profile id profile t = record t {
  grants = update (λ g. g.grant_id == id) (λ g. record g { surface_profile = profile }) t.grants;
}

abbrev pub set_label : String → String → GrantTables → GrantTables
set_label id label t = record t {
  grants = update (λ g. g.grant_id == id) (λ g. record g { label = label }) t.grants;
}

abbrev pub has_grant : String → GrantTables → Bool
has_grant id t = any (λ g. g.grant_id == id) t.grants

abbrev pub id_of : VerifiedGrantToken → String
id_of found = found.grant.connection.grant_id
