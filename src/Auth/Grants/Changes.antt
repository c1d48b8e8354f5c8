-- ===== src/Auth/Grants/Changes.antt =====
-- src/auth/oauth-grant-store.ts: the changes that the methods of the grant store make to its tables,
-- one constructor for each kind of write.
use slnc_tr_z_mcp.Prelude.{
  ℕ, suc, ◌≤◌, String, Bool, true, false, not, ◌&&◌, ◌||◌, Option, none, some, List, [], ◌∷◌, ◌++◌,
  ◌≡◌, Result, ok, err, ◌>>=◌, ◌>>◌, leb, length, refl, if◌then◌else◌, ◌==◌, first, delete, any,
}
use slnc_tr_z_mcp.Auth.ConnectionProfile.{SurfaceProfile, ResultDelivery, is_full}
use slnc_tr_z_mcp.Auth.Grants.{
  GrantTables, GrantLimits, GrantRow, TokenRow, HistoryRow, DefaultRow, GrantError, max_time,
  is_none, has_time, is_refresh, length_within, without_expired, delete_grants, set_last_seen,
  set_profile, set_label, has_grant, default_of,
}
use slnc_tr_z_mcp.Auth.Grants.Lookup.{grant_schema, ceiling_of, may_expire}
use slnc_tr_z_mcp.Auth.Grants.Manage.{put_default, put_delivery}

abbrev pub ceiling_in : String → List GrantRow → Option SurfaceProfile
ceiling_in id gs = elim (first (λ g. g.grant_id == id) gs) [
  | none ↦ none
  | some g ↦ some g.profile_ceiling
]

-- The grant exists; a token that does not expire is a refresh token under a ceiling of gateway-only.
abbrev pub token_allowed : Option SurfaceProfile → TokenRow → Bool
token_allowed none r = false
token_allowed (some ceiling) r =
    has_time r.expires_at
    && (not (is_none r.expires_at) || (is_refresh r.kind && not (is_full ceiling)))

abbrev pub history_allowed : Option SurfaceProfile → HistoryRow → Bool
history_allowed none h = false
history_allowed (some ceiling) h =
    (has_time h.expires_at && leb h.superseded_at max_time)
    && (not (is_none h.expires_at) || not (is_full ceiling))

-- The profile is within the ceiling.
abbrev pub within_ceiling : GrantRow → Bool
within_ceiling g = is_full g.profile_ceiling || not (is_full g.surface_profile)

abbrev pub is_full_grant : String → GrantTables → Bool
is_full_grant id t = any (λ g. g.grant_id == id && is_full g.surface_profile) t.grants

module _ (parse_url : String → Option String) (lim : GrantLimits)
    (may_grant may_raise : String → Bool) where
  pub data Change : GrantTables → GrantTables → Type 0 where
    changes_nothing : {t : GrantTables} → Change t t
    expires_rows : {t : GrantTables} (now : ℕ) → Change t (without_expired now t)
    removes_grants : {t : GrantTables} (p : GrantRow → Bool) → Change t (delete_grants p t)
    marks_seen :
        {t : GrantTables} (id : String) (now : ℕ)
        → leb now max_time ≡ true
        → Change t (set_last_seen id now t)
    labels_grant :
        {t : GrantTables} (id label : String)
        → length_within 64 label ≡ true
        → Change t (set_label id label t)
    sets_surface :
        {t : GrantTables} (id : String) (profile : SurfaceProfile)
        → (is_full profile && not (may_expire (ceiling_of id t))) ≡ false
        → (is_full profile && not (may_raise id || is_full_grant id t)) ≡ false
        → Change t (set_profile id profile t)
    adds_grant :
        {t : GrantTables} (row : GrantRow)
        → is_none (grant_schema parse_url row) ≡ false
        → has_grant row.grant_id t ≡ false
        → within_ceiling row ≡ true
        → may_grant row.grant_id ≡ true
        → Change t (record t { grants = t.grants ++ row ∷ [] })
    adds_token :
        {t : GrantTables} (row : TokenRow)
        → token_allowed (ceiling_in row.grant_id t.grants) row ≡ true
        → any (λ r. r.token_hash == row.token_hash) t.tokens ≡ false
        → suc (length t.tokens) ≤ lim.max_tokens
        → Change t (record t { tokens = t.tokens ++ row ∷ [] })
    retires_token :
        {t : GrantTables} (row : HistoryRow)
        → history_allowed (ceiling_in row.grant_id t.grants) row ≡ true
        → any (λ r. r.token_hash == row.token_hash) t.refresh_history ≡ false
        → suc (length t.refresh_history) ≤ lim.max_refresh_history
        → Change t (record t {
          refresh_history = t.refresh_history ++ row ∷ [];
          tokens = delete (λ r. r.token_hash == row.token_hash) t.tokens;
        })
    sets_default :
        {t : GrantTables} (client_id : String) (profile : SurfaceProfile)
        → (is_none (default_of client_id t)
            && leb lim.max_client_defaults (length t.client_defaults))
          ≡ false
        → Change t (record t { client_defaults = put_default client_id profile t.client_defaults })
    drops_default :
        {t : GrantTables} (p : DefaultRow → Bool)
        → Change t (record t { client_defaults = delete p t.client_defaults })
    drops_defaults : {t : GrantTables} → Change t (record t { client_defaults = [] })
    sets_delivery :
        {t : GrantTables} (id : String) (delivery : ResultDelivery)
        → has_grant id t ≡ true
        → Change t
            (record t { grant_result_delivery = put_delivery id delivery t.grant_result_delivery })
    follows : {t u v : GrantTables} → Change t u → Change u v → Change t v

  -- A result that, if it is one, is reached by changes.
  pub data Reaches (t : GrantTables) : Result GrantError GrantTables → Type 0 where
    reached : {after : GrantTables} → Change t after → Reaches t (ok after)
    refused : {e : GrantError} → Reaches t (err e)

  pub data Leads {A : Type 0} (t : GrantTables) : Result GrantError (A × GrantTables) → Type 0 where
    led : {a : A} {after : GrantTables} → Change t after → Leads t (ok (a, after))
    thrown : {e : GrantError} → Leads t (err e)

  pub chain-Leads :
      {A B : Type 0} (t : GrantTables) (r : Result GrantError A)
      (k : A → Result GrantError (B × GrantTables))
      → ((a : A) → r ≡ ok a → Leads t (k a))
      → Leads t (r >>= k)
  chain-Leads t (ok a) k h = h a refl
  chain-Leads t (err e) k h = thrown

  pub chain-Reaches :
      {A : Type 0} (t : GrantTables) (r : Result GrantError A)
      (k : A → Result GrantError GrantTables)
      → ((a : A) → r ≡ ok a → Reaches t (k a))
      → Reaches t (r >>= k)
  chain-Reaches t (ok a) k h = h a refl
  chain-Reaches t (err e) k h = refused

  extend-Leads :
      {B : Type 0} (t u : GrantTables) (r : Result GrantError (B × GrantTables))
      → Change t u
      → Leads u r
      → Leads t r
  extend-Leads t u (ok (b, v)) c (led d) = led (follows c d)
  extend-Leads t u (err e) c thrown = thrown

  extend-Reaches :
      (t u : GrantTables) (r : Result GrantError GrantTables)
      → Change t u
      → Reaches u r
      → Reaches t r
  extend-Reaches t u (ok v) c (reached d) = reached (follows c d)
  extend-Reaches t u (err e) c refused = refused

  -- A step of the chain that itself makes changes.
  pub step-Leads :
      {B : Type 0} (t : GrantTables) (r : Result GrantError GrantTables)
      (k : GrantTables → Result GrantError (B × GrantTables))
      → Reaches t r
      → ((u : GrantTables) → r ≡ ok u → Leads u (k u))
      → Leads t (r >>= k)
  step-Leads t (ok u) k (reached c) h = extend-Leads t u (k u) c (h u refl)
  step-Leads t (err e) k refused h = thrown

  pub step-Reaches :
      (t : GrantTables) (r : Result GrantError GrantTables)
      (k : GrantTables → Result GrantError GrantTables)
      → Reaches t r
      → ((u : GrantTables) → r ≡ ok u → Reaches u (k u))
      → Reaches t (r >>= k)
  step-Reaches t (ok u) k (reached c) h = extend-Reaches t u (k u) c (h u refl)
  step-Reaches t (err e) k refused h = refused

  pub check-Leads :
      {B : Type 0} (t : GrantTables) (m : Result GrantError (Unit {0}))
      (r : Result GrantError (B × GrantTables))
      → ((u : Unit {0}) → m ≡ ok u → Leads t r)
      → Leads t (m >> r)
  check-Leads t (err e) r h = thrown
  check-Leads t (ok u) r h = h u refl

  pub check-Reaches :
      (t : GrantTables) (m : Result GrantError (Unit {0})) (r : Result GrantError GrantTables)
      → ((u : Unit {0}) → m ≡ ok u → Reaches t r)
      → Reaches t (m >> r)
  check-Reaches t (err e) r h = refused
  check-Reaches t (ok u) r h = h u refl

  -- A branch of the code.
  pub branch-Leads :
      {B : Type 0} (t : GrantTables) (b : Bool) (r q : Result GrantError (B × GrantTables))
      → (b ≡ true → Leads t r)
      → (b ≡ false → Leads t q)
      → Leads t (if b then r else q)
  branch-Leads t true r q h k = h refl
  branch-Leads t false r q h k = k refl

  -- What a lookup has found, or not.
  pub option-Leads :
      {A B : Type 0} (t : GrantTables) (o : Option A) (r : Result GrantError (B × GrantTables))
      (k : A → Result GrantError (B × GrantTables))
      → Leads t r
      → ((a : A) → o ≡ some a → Leads t (k a))
      → Leads t (elim o [ none ↦ r | some a ↦ k a ])
  option-Leads t none r k h j = h
  option-Leads t (some a) r k h j = j a refl
