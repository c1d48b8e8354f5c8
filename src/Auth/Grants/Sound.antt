-- ===== src/Auth/Grants/Sound.antt =====
-- The invariant of the grant store (src/auth/oauth-grant-store.ts).
use slnc_tr_z_mcp.Prelude.{
  ℕ, suc, ◌≤◌, String, Bool, true, false, not, ◌&&◌, Option, some, List, [], ◌∷◌, ◌++◌, ◌≡◌, arith,
  refl, ◌==◌, select, delete, update, any, All, All-both, All-delete, All-append_one, All-update,
  All-update_to, length, leb, length-select-le, length-append, Distinct, Distinct-select,
  Distinct-update, Distinct-append_one,
}
use slnc_tr_z_mcp.Auth.ConnectionProfile.{SurfaceProfile, is_full}
use slnc_tr_z_mcp.Auth.Grants.{
  GrantTables, GrantLimits, GrantRow, TokenRow, HistoryRow, DeliveryRow, DefaultRow, is_none,
  max_time, delete_grants, without_expired, has_expired, length_within, set_last_seen, set_label,
  set_profile, has_grant,
}
use slnc_tr_z_mcp.Auth.Grants.Lookup.{grant_schema, may_expire, ceiling_of}
use slnc_tr_z_mcp.Auth.Grants.Changes.{ceiling_in, token_allowed, history_allowed, within_ceiling}
use slnc_tr_z_mcp.Auth.Grants.Owned.{
  grant_key, Owned, Owned-update, Owned-append, Owned-delete, only_ceiling,
}

abbrev pub token_key : TokenRow → String
token_key r = r.token_hash

abbrev pub token_owner : TokenRow → String
token_owner r = r.grant_id

abbrev pub history_key : HistoryRow → String
history_key h = h.token_hash

abbrev pub history_owner : HistoryRow → String
history_owner h = h.grant_id

abbrev pub delivery_key : DeliveryRow → String
delivery_key d = d.grant_id

abbrev pub default_key : DefaultRow → String
default_key d = d.client_id

abbrev pub exists_for : Option SurfaceProfile → DeliveryRow → Bool
exists_for ceiling d = not (is_none ceiling)

pub Distinct-delete {ℓ} :
    {A : Type ℓ} (key : A → String) (p : A → Bool) (xs : List A)
    → Distinct key xs
    → Distinct key (delete p xs)
unfolding delete
Distinct-delete key p xs h = Distinct-select key _ xs h

pub length-delete-le {ℓ} :
    {A : Type ℓ} (p : A → Bool) (xs : List A) → length (delete p xs) ≤ length xs
unfolding delete
length-delete-le p xs = length-select-le _ xs

module _ (parse_url : String → Option String) where
  -- A row that reads back as a record.
  abbrev pub IsGrant : GrantRow → Type 0
  IsGrant g = (is_none (grant_schema parse_url g) ≡ false) × (within_ceiling g ≡ true)

  -- Keys are distinct, what refers to a grant refers to one that is there, and the bounds hold.
  pub record IsSound (lim : GrantLimits) (t : GrantTables) : Type 0 where
    pub ids : Distinct grant_key t.grants
    pub records : All IsGrant t.grants
    pub hashes : Distinct token_key t.tokens
    pub owned : Owned token_owner token_allowed t.grants t.tokens
    pub token_bound : length t.tokens ≤ lim.max_tokens
    pub retired : Distinct history_key t.refresh_history
    pub retired_owned : Owned history_owner history_allowed t.grants t.refresh_history
    pub history_bound : length t.refresh_history ≤ lim.max_refresh_history
    pub deliveries : Distinct delivery_key t.grant_result_delivery
    pub delivered : Owned delivery_key exists_for t.grants t.grant_result_delivery
    pub clients : Distinct default_key t.client_defaults
    pub default_bound : length t.client_defaults ≤ lim.max_client_defaults

  module _ (lim : GrantLimits) (t : GrantTables) (h : IsSound lim t) where
    pub expires-IsSound : (now : ℕ) → IsSound lim (without_expired now t)
    expires-IsSound now = record {
      ids = h.ids;
      records = h.records;
      hashes = Distinct-delete token_key _ t.tokens h.hashes;
      owned = All-delete _ _ t.tokens h.owned;
      token_bound = omega (
        arith,
        h.token_bound,
        length-delete-le (λ (r : TokenRow). has_expired now r.expires_at) t.tokens,
      );
      retired = Distinct-delete history_key _ t.refresh_history h.retired;
      retired_owned = All-delete _ _ t.refresh_history h.retired_owned;
      history_bound = omega (
        arith,
        h.history_bound,
        length-delete-le (λ (r : HistoryRow). has_expired now r.expires_at) t.refresh_history,
      );
      deliveries = h.deliveries;
      delivered = h.delivered;
      clients = h.clients;
      default_bound = h.default_bound;
    }

    pub removes-IsSound : (p : GrantRow → Bool) → IsSound lim (delete_grants p t)
    unfolding delete_grants
    removes-IsSound p = record {
      ids = Distinct-delete grant_key p t.grants h.ids;
      records = All-delete _ p t.grants h.records;
      hashes = Distinct-delete token_key _ t.tokens h.hashes;
      owned = Owned-delete token_owner token_allowed p t.grants t.tokens h.owned;
      token_bound = omega (
        arith,
        h.token_bound,
        length-delete-le (λ (r : TokenRow). any (λ g. g.grant_id == r.grant_id) (select p t.grants))
            t.tokens,
      );
      retired = Distinct-delete history_key _ t.refresh_history h.retired;
      retired_owned =
          Owned-delete history_owner history_allowed p t.grants t.refresh_history h.retired_owned;
      history_bound = omega (
        arith,
        h.history_bound,
        length-delete-le
            (λ (r : HistoryRow). any (λ g. g.grant_id == r.grant_id) (select p t.grants))
            t.refresh_history,
      );
      deliveries = Distinct-delete delivery_key _ t.grant_result_delivery h.deliveries;
      delivered =
          Owned-delete delivery_key exists_for p t.grants t.grant_result_delivery h.delivered;
      clients = h.clients;
      default_bound = h.default_bound;
    }

    -- A write on grants that keeps identifiers and ceilings.
    pub write-IsSound :
        (p : GrantRow → Bool) (f : GrantRow → GrantRow)
        → ((g : GrantRow) → (f g).grant_id ≡ g.grant_id)
        → ((g : GrantRow) → (f g).profile_ceiling ≡ g.profile_ceiling)
        → All IsGrant (update p f t.grants)
        → IsSound lim (record t { grants = update p f t.grants })
    write-IsSound p f same kept records = record {
      ids = Distinct-update grant_key p f same t.grants h.ids;
      records = records;
      hashes = h.hashes;
      owned = Owned-update token_owner token_allowed p f same kept t.grants t.tokens h.owned;
      token_bound = h.token_bound;
      retired = h.retired;
      retired_owned =
          Owned-update history_owner history_allowed p f same kept t.grants t.refresh_history
            h.retired_owned;
      history_bound = h.history_bound;
      deliveries = h.deliveries;
      delivered =
          Owned-update delivery_key exists_for p f same kept t.grants t.grant_result_delivery
            h.delivered;
      clients = h.clients;
      default_bound = h.default_bound;
    }

    pub sees-IsSound :
        (id : String) (now : ℕ) → leb now max_time ≡ true → IsSound lim (set_last_seen id now t)
    unfolding grant_schema
    sees-IsSound id now valid =
        write-IsSound _ _ (λ g. refl) (λ g. refl)
          (All-update IsGrant (λ g. g.grant_id == id) (λ g. record g { last_seen_at = now })
            (λ g on (good, within). (ground arith, within)) t.grants h.records)

    pub labels-IsSound :
        (id label : String) → length_within 64 label ≡ true → IsSound lim (set_label id label t)
    unfolding grant_schema
    labels-IsSound id label fits =
        write-IsSound _ _ (λ g. refl) (λ g. refl)
          (All-update IsGrant (λ g. g.grant_id == id) (λ g. record g { label = label })
            (λ g on (good, within). (ground arith, within)) t.grants h.records)

    pub surfaces-IsSound :
        (id : String) (profile : SurfaceProfile)
        → (is_full profile && not (may_expire (ceiling_of id t))) ≡ false
        → IsSound lim (set_profile id profile t)
    unfolding grant_schema
    surfaces-IsSound id profile within =
        write-IsSound _ _ (λ g. refl) (λ g. refl)
          (All-update_to _ IsGrant (λ g. g.grant_id == id)
            (λ g. record g { surface_profile = profile })
            (λ g on ((good, kept), its). (ground (arith, good), ground (arith, its on)))
            (λ g off (good, its). good) t.grants
            (All-both IsGrant
              (λ g. (g.grant_id == id) ≡ true → ceiling_in id t.grants ≡ some g.profile_ceiling)
              t.grants h.records (only_ceiling id t.grants h.ids)))

    pub adds_grant-IsSound :
        (row : GrantRow)
        → IsGrant row
        → has_grant row.grant_id t ≡ false
        → IsSound lim (record t { grants = t.grants ++ row ∷ [] })
    adds_grant-IsSound row good fresh = record {
      ids = Distinct-append_one grant_key t.grants row fresh h.ids;
      records = All-append_one IsGrant t.grants row h.records good;
      hashes = h.hashes;
      owned = Owned-append token_owner token_allowed (λ x. refl) t.grants row t.tokens h.owned;
      token_bound = h.token_bound;
      retired = h.retired;
      retired_owned =
          Owned-append history_owner history_allowed (λ x. refl) t.grants row t.refresh_history
            h.retired_owned;
      history_bound = h.history_bound;
      deliveries = h.deliveries;
      delivered =
          Owned-append delivery_key exists_for (λ x. refl) t.grants row t.grant_result_delivery
            h.delivered;
      clients = h.clients;
      default_bound = h.default_bound;
    }

    pub adds_token-IsSound :
        (row : TokenRow)
        → token_allowed (ceiling_in row.grant_id t.grants) row ≡ true
        → any (λ r. r.token_hash == row.token_hash) t.tokens ≡ false
        → suc (length t.tokens) ≤ lim.max_tokens
        → IsSound lim (record t { tokens = t.tokens ++ row ∷ [] })
    adds_token-IsSound row good fresh room = record {
      ids = h.ids;
      records = h.records;
      hashes = Distinct-append_one token_key t.tokens row fresh h.hashes;
      owned = All-append_one _ t.tokens row h.owned good;
      token_bound = omega (arith, room, length-append t.tokens (row ∷ []));
      retired = h.retired;
      retired_owned = h.retired_owned;
      history_bound = h.history_bound;
      deliveries = h.deliveries;
      delivered = h.delivered;
      clients = h.clients;
      default_bound = h.default_bound;
    }

    pub retires-IsSound :
        (row : HistoryRow) (p : TokenRow → Bool)
        → history_allowed (ceiling_in row.grant_id t.grants) row ≡ true
        → any (λ r. r.token_hash == row.token_hash) t.refresh_history ≡ false
        → suc (length t.refresh_history) ≤ lim.max_refresh_history
        → IsSound lim (record t {
          refresh_history = t.refresh_history ++ row ∷ [];
          tokens = delete p t.tokens;
        })
    retires-IsSound row p good fresh room = record {
      ids = h.ids;
      records = h.records;
      hashes = Distinct-delete token_key p t.tokens h.hashes;
      owned = All-delete _ p t.tokens h.owned;
      token_bound = omega (arith, h.token_bound, length-delete-le p t.tokens);
      retired = Distinct-append_one history_key t.refresh_history row fresh h.retired;
      retired_owned = All-append_one _ t.refresh_history row h.retired_owned good;
      history_bound = omega (arith, room, length-append t.refresh_history (row ∷ []));
      deliveries = h.deliveries;
      delivered = h.delivered;
      clients = h.clients;
      default_bound = h.default_bound;
    }

    pub defaults-IsSound :
        (rows : List DefaultRow)
        → Distinct default_key rows
        → length rows ≤ lim.max_client_defaults
        → IsSound lim (record t { client_defaults = rows })
    defaults-IsSound rows distinct room = record {
      ids = h.ids;
      records = h.records;
      hashes = h.hashes;
      owned = h.owned;
      token_bound = h.token_bound;
      retired = h.retired;
      retired_owned = h.retired_owned;
      history_bound = h.history_bound;
      deliveries = h.deliveries;
      delivered = h.delivered;
      clients = distinct;
      default_bound = room;
    }

    pub deliveries-IsSound :
        (rows : List DeliveryRow)
        → Distinct delivery_key rows
        → Owned delivery_key exists_for t.grants rows
        → IsSound lim (record t { grant_result_delivery = rows })
    deliveries-IsSound rows distinct delivered = record {
      ids = h.ids;
      records = h.records;
      hashes = h.hashes;
      owned = h.owned;
      token_bound = h.token_bound;
      retired = h.retired;
      retired_owned = h.retired_owned;
      history_bound = h.history_bound;
      deliveries = distinct;
      delivered = delivered;
      clients = h.clients;
      default_bound = h.default_bound;
    }
