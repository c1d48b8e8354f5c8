-- ===== src/Auth/Grants/Left.antt =====
-- What a rotation of the grant store (src/auth/oauth-grant-store.ts) leaves for the next presentation of
-- the same refresh token.
use slnc_tr_z_mcp.Prelude.{
  ℕ, String, true, false, Option, some, ◌≡◌, arith, refl, ◌∙◌, sym, ok, ap, leb, ◌==◌, first,
  first-append, eq_iff, first-write, eq_refl, hex_of_length, All-first,
}
use slnc_tr_z_mcp.Auth.Grants.{
  GrantLimits, GrantTables, GrantStore, GrantRow, HistoryRow, TokenKind, VerifiedGrantToken,
  RefreshRotationReceipt, refresh, id_of, grant_transaction, pruned_rows, has_grant, has_expired,
  max_time, delivery_of,
}
use slnc_tr_z_mcp.Auth.Grants.Lookup.{
  find_live, find_retired, grant_schema, grant_from_row, verified, record_of,
}
use slnc_tr_z_mcp.Auth.Grants.Rotate.{RotationTokenFactory, rotate}
use slnc_tr_z_mcp.Auth.Grants.Found.{own_row, IsFound}
use slnc_tr_z_mcp.Auth.Grants.Owned.{grant_key}
use slnc_tr_z_mcp.Auth.Grants.Sound.{IsSound, IsGrant, history_key}
use slnc_tr_z_mcp.Auth.Grants.Preserved.{Change-IsSound}
use slnc_tr_z_mcp.Auth.Grants.Readable.{pruned_rows-IsSound}
use slnc_tr_z_mcp.Auth.Grants.History.{grant_step, rotates, grant_step-Steps}
use slnc_tr_z_mcp.Auth.Grants.Rotated.{IsRotation, history_row, has_hash, is_token}
use slnc_tr_z_mcp.Auth.Grants.Replayed.{history_kept, grant_kept, find_retired-ok}

module _ (parse_url : String → Option String) where
  -- The resource of a record found is the one that its row gives.
  found-resource :
      (hash : String) (kind : TokenKind) (now : ℕ) (t : GrantTables) (f : VerifiedGrantToken)
      (found : IsFound hash kind now t f)
      → find_live parse_url hash kind now t ≡ ok (some f)
      → grant_schema parse_url found.owner.row ≡ some f.grant.connection.resource
  unfolding find_live verified grant_from_row
  found-resource hash kind now t f found e = ground (arith, found.found, found.owner.row_found)

  schema-seen :
      (g : GrantRow) (url : String) (now : ℕ)
      → leb now max_time ≡ true
      → grant_schema parse_url g ≡ some url
      → grant_schema parse_url (record g { last_seen_at = now }) ≡ some url
  unfolding grant_schema
  schema-seen g url now valid e = ground arith

  -- What the tables hold after a rotation.
  pub record IsLeft (hash client_id resource : String) (now : ℕ) (r : RefreshRotationReceipt)
      (t : GrantTables) : Type 0 where
    pub grant : GrantRow
    pub grant_found : first (λ g. g.grant_id == id_of r.grant) t.grants ≡ some grant
    pub client : grant.client_id ≡ client_id
    pub ceiling : grant.profile_ceiling ≡ r.grant.grant.profile_ceiling
    pub its_client : r.grant.grant.connection.client_id ≡ client_id
    pub its_resource : r.grant.grant.connection.resource ≡ resource
    pub url : grant_schema parse_url grant ≡ some resource
    pub history_found :
        first (λ h. h.token_hash == hash) t.refresh_history
        ≡ some (history_row hash r.grant r.nonce now)
    pub token : is_token hash t ≡ false

  pub IsRotation-IsLeft :
      (hash client_id resource : String) (create_tokens : RotationTokenFactory) (now : ℕ)
      (r : RefreshRotationReceipt) (u t : GrantTables)
      → IsRotation parse_url hash client_id resource create_tokens now r u t
      → has_hash hash (create_tokens r.grant r.nonce now) ≡ false
      → IsLeft hash client_id resource now r t
  IsRotation-IsLeft hash client_id resource create_tokens now r u t h other =
      let owner = h.found.owner in
      let own = own_row h.found.row.grant_id u r.grant owner in
      let schema = found-resource hash refresh now u r.grant h.found h.looked in
      let its : r.grant.grant.connection.resource ≡ resource =
        ground (arith, h.owner, eq_iff r.grant.grant.connection.resource resource) in
      record {
        grant = record owner.row { last_seen_at = now };
        grant_found =
            ap (first (λ (g : GrantRow). g.grant_id == id_of r.grant)) h.grants
            ∙ first-write grant_key (id_of r.grant) (id_of r.grant)
                (λ g. record g { last_seen_at = now }) (λ g. refl) u.grants
            ∙ ground (arith, own, eq_refl (id_of r.grant));
        client =
            ground
              (arith, h.owner, owner.client, eq_iff r.grant.grant.connection.client_id client_id);
        ceiling = sym owner.ceiling;
        its_client = ground (arith, h.owner, eq_iff r.grant.grant.connection.client_id client_id);
        its_resource = its;
        url = schema-seen owner.row resource now h.valid (schema ∙ ap some its);
        history_found =
            ap (first (λ (x : HistoryRow). x.token_hash == hash)) h.history
            ∙ first-append history_key hash u.refresh_history (history_row hash r.grant r.nonce now)
            ∙ ground (arith, h.fresh, eq_refl hash);
        token = h.tokens ∙ other;
      }

  -- The retired row of a rotation, as a lookup finds it while its grant is there.
  pub left-find_retired :
      (lim : GrantLimits) (hash client_id resource : String) (now later : ℕ)
      (r : RefreshRotationReceipt) (t : GrantTables)
      → IsSound parse_url lim t
      → (left : IsLeft hash client_id resource now r t) → hex_of_length 64 r.nonce ≡ true
      → has_expired later r.grant.expires_at ≡ false
      → leb later max_time ≡ true
      → has_grant (id_of r.grant) (pruned_rows later t) ≡ true
      → find_retired parse_url hash later (pruned_rows later t)
        ≡ ok (
            some (record {
              grant = record {
                grant =
                    record_of left.grant resource
                      (delivery_of left.grant.grant_id (pruned_rows later t));
                expires_at = r.grant.expires_at;
              };
              nonce = some r.nonce;
              issued_at = now;
            }))
  left-find_retired lim hash client_id resource now later r t sound left hex fresh valid there =
      let u = pruned_rows later t in
      let row = history_row hash r.grant r.nonce now in
      let kept =
        history_kept hash later t row sound.retired sound.ids left.history_found fresh there in
      let owner = grant_kept (id_of r.grant) later t left.grant sound.ids left.grant_found there in
      let after = pruned_rows-IsSound parse_url lim later t sound in
      let (_, within) =
        All-first (IsGrant parse_url) (λ g. g.grant_id == id_of r.grant) u.grants left.grant
          after.records owner in
      let allowed =
        All-first _ (λ h. h.token_hash == hash) u.refresh_history row after.retired_owned kept in
      find_retired-ok parse_url hash resource r.nonce later u row left.grant kept fresh owner valid
        left.url within (ground (arith, allowed, owner)) refl hex

  pub rotated-IsSound :
      (s : GrantStore) (hash client_id resource : String) (create_tokens : RotationTokenFactory)
      (nonce : String) (now grace : ℕ)
      → IsSound parse_url s.limits s.tables
      → IsSound parse_url s.limits
          (rotate parse_url hash client_id resource create_tokens nonce now grace s).1.tables
  unfolding grant_step
  rotated-IsSound s hash client_id resource create_tokens nonce now grace h =
      Change-IsSound parse_url s.limits (λ id. true) (λ id. true) s.tables _
        (grant_step-Steps parse_url (λ id. true) (λ id. true) s
          (rotates hash client_id resource create_tokens nonce now grace) tt).tables
        h

  pub rotated_store :
      (hash client_id resource : String) (create_tokens : RotationTokenFactory) (nonce : String)
      (now grace : ℕ) (s : GrantStore) (r : RefreshRotationReceipt)
      → (rotate parse_url hash client_id resource create_tokens nonce now grace s).0 ≡ ok (some r)
      → ((rotate parse_url hash client_id resource create_tokens nonce now grace s).1.closed
          ≡ false)
        × ((rotate parse_url hash client_id resource create_tokens nonce now grace s).1.limits
            ≡ s.limits)
  unfolding rotate grant_transaction
  rotated_store hash client_id resource create_tokens nonce now grace s r e = ground arith
