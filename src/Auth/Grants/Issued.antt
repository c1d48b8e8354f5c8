-- ===== src/Auth/Grants/Issued.antt =====
-- The tokens that the grant store (src/auth/oauth-grant-store.ts) issues, looked up.
use slnc_tr_z_mcp.Prelude.{
  none, List, Bool, ◌&&◌, ℕ, String, true, false, Option, some, [], ◌∷◌, ◌++◌, ◌≡◌, arith, refl, ok,
  leb, ◌==◌, first, first-append_row, eq_refl, Option-cases, Result-cases, inl, inr, ap, ◌∙◌, subst,
}
use slnc_tr_z_mcp.Auth.ConnectionProfile.{
  SurfaceProfile, is_full, resolve_surface_profile, ResultDelivery,
}
use slnc_tr_z_mcp.Auth.Grants.{
  DefaultRow, GrantRecord, delete_grants, TokenKind, GrantRow, TokenRow, GrantTables, GrantLimits,
  GrantStore, StoredToken, NewGrant, access, max_time, grant_transaction, pruned_rows, has_expired,
  default_of, delivery_of, has_grant,
}
use slnc_tr_z_mcp.Auth.Grants.Lookup.{is_live, record_of, token_row, insert_tokens, grant_schema}
use slnc_tr_z_mcp.Auth.Grants.Issue.{
  label_for, profile_for, new_row, insert_grant, issue_rows, issue_grant,
}
use slnc_tr_z_mcp.Auth.Grants.Manage.{find_token, find_token_rows}
use slnc_tr_z_mcp.Auth.Grants.Changes.{token_allowed, within_ceiling}
use slnc_tr_z_mcp.Auth.Grants.Steps.{profile_for-within_ceiling}
use slnc_tr_z_mcp.Auth.Grants.Labels.{AreBelow, IsLabelled, label_for-IsLabelled}
use slnc_tr_z_mcp.Auth.Grants.Pair.{
  IsPairInserted, insert_tokens-IsPairInserted, find_live-pruned_rows, first-access,
}

abbrev pub is_open : Option SurfaceProfile → Bool
is_open none = true
is_open (some profile) = is_full profile

abbrev pub default_is_open : String → List DefaultRow → Bool
default_is_open client_id defaults = elim (first (λ d. d.client_id == client_id) defaults) [
  | none ↦ true
  | some d ↦ is_full d.surface_profile
]

-- The record of a grant that was issued.
pub record IsGrantOf (grant : NewGrant) (label url : String) (now : ℕ) (defaults : List DefaultRow)
    (f : GrantRecord) : Type 0 where
  pub grant_id : f.connection.grant_id ≡ grant.grant_id
  pub connection_id : f.connection.connection_id ≡ grant.grant_id
  pub client_id : f.connection.client_id ≡ grant.client_id
  pub scopes : f.connection.scopes ≡ grant.scopes
  pub resource : f.connection.resource ≡ url
  pub profile : is_full f.connection.surface_profile ≡ (
      is_open grant.profile_ceiling
      && (default_is_open grant.client_id defaults && is_open grant.requested_profile))
  pub ceiling : is_full f.profile_ceiling ≡ is_open grant.profile_ceiling
  pub label_kept : f.label ≡ label
  pub created_at : f.created_at ≡ now
  pub last_seen_at : f.last_seen_at ≡ now

issued_record :
    (grant : NewGrant) (label url : String) (now : ℕ) (t : GrantTables) (delivery : ResultDelivery)
    → IsGrantOf grant label url now t.client_defaults (
        record_of
          (new_row grant
            (profile_for grant (default_of grant.client_id (pruned_rows now t)))
            label
            now)
          url
          delivery)
unfolding profile_for resolve_surface_profile default_of pruned_rows delete_grants
issued_record grant label url now t delivery = record {
  grant_id = refl;
  connection_id = refl;
  client_id = refl;
  scopes = refl;
  resource = refl;
  profile = ground arith;
  ceiling = ground arith;
  label_kept = refl;
  created_at = refl;
  last_seen_at = refl;
}

module _ (parse_url : String → Option String) where
  find_pruned :
      (hash : String) (kind : TokenKind) (later : ℕ) (s : GrantStore) (r : TokenRow) (g : GrantRow)
      (url : String)
      → s.closed ≡ false
      → leb later max_time ≡ true
      → first (is_live hash kind later) s.tables.tokens ≡ some r
      → first (λ x. x.grant_id == r.grant_id) s.tables.grants ≡ some g
      → grant_schema parse_url g ≡ some url
      → within_ceiling g ≡ true
      → token_allowed (some g.profile_ceiling) r ≡ true
      → (delivery : ResultDelivery) × ((find_token parse_url hash kind later s).0
          ≡ ok (some (record { grant = record_of g url delivery; expires_at = r.expires_at })))
  unfolding find_token find_token_rows grant_transaction
  find_pruned hash kind later s r g url on valid found owner schema within allowed =
      let there =
        find_live-pruned_rows parse_url hash kind later s.tables r g url valid found owner schema
          within allowed in
      (delivery_of g.grant_id (pruned_rows later s.tables), ground (arith, there))

  grant_schema-parses :
      (g : GrantRow) (url : String)
      → grant_schema parse_url g ≡ some url
      → parse_url g.resource ≡ some url
  unfolding grant_schema
  grant_schema-parses g url e = elim (Option-cases (parse_url g.resource)) [
    | inl bad ↦ absurd (ground arith)
    | inr (x, parsed) ↦ ground arith
  ]

  -- What `issue` leaves: the row of the grant, after the others, and its tokens.
  record IsIssued (grant : NewGrant) (a r : StoredToken) (now : ℕ) (u t : GrantTables)
      : Type 0 where
    pub label : String
    pub url : String
    pub before : GrantTables
    pub labelled : label_for grant.label u.grants ≡ ok label
    pub schema :
        grant_schema parse_url
          (new_row grant (profile_for grant (default_of grant.client_id u)) label now)
        ≡ some url
    pub new : has_grant grant.grant_id u ≡ false
    pub grants :
        t.grants
        ≡ u.grants
          ++ new_row grant (profile_for grant (default_of grant.client_id u)) label now ∷ []
    pub kept : before.tokens ≡ u.tokens
    pub pair : IsPairInserted grant.grant_id a r before t

  issue_rows-IsIssued :
      (grant : NewGrant) (a r : StoredToken) (now : ℕ) (lim : GrantLimits) (t u : GrantTables)
      → issue_rows parse_url grant (a ∷ r ∷ []) now lim t ≡ ok (tt, u)
      → IsIssued grant a r now (pruned_rows now t) u
  unfolding issue_rows insert_grant
  issue_rows-IsIssued grant a r now lim t u e =
      let p = pruned_rows now t in
      elim (Result-cases (label_for grant.label p.grants)) [
        | inr (x, bad) ↦ absurd (ground arith)
        | inl (label, labelled) ↦
            let row = new_row grant (profile_for grant (default_of grant.client_id p)) label now in
            elim (Option-cases (grant_schema parse_url row)) [
              | inl bad ↦ absurd (ground arith)
              | inr (url, schema) ↦
                  let v : GrantTables = record p { grants = p.grants ++ row ∷ [] } in
                  elim (Result-cases (insert_tokens grant.grant_id (a ∷ r ∷ []) now lim v)) [
                    | inr (x, bad) ↦ absurd (ground arith)
                    | inl (w, added) ↦
                        let same : w ≡ u = ground arith in
                        let pair =
                          insert_tokens-IsPairInserted grant.grant_id a r now lim v u
                            (added ∙ ap ok same) in
                        record {
                          label = label;
                          url = url;
                          before = v;
                          labelled = labelled;
                          schema = schema;
                          new = ground arith;
                          grants = pair.grants;
                          kept = refl;
                          pair = pair;
                        }
                  ]
            ]
      ]

  issue_grant-IsIssued :
      (grant : NewGrant) (a r : StoredToken) (now : ℕ) (s : GrantStore)
      → (issue_grant parse_url grant (a ∷ r ∷ []) now s).0 ≡ ok tt
      → (s.closed ≡ false)
        × ((issue_grant parse_url grant (a ∷ r ∷ []) now s).1.closed ≡ false)
        × IsIssued grant a r now
            (pruned_rows now s.tables)
            (issue_grant parse_url grant (a ∷ r ∷ []) now s).1.tables
  unfolding issue_grant grant_transaction
  issue_grant-IsIssued grant a r now s e =
      elim (Result-cases (issue_rows parse_url grant (a ∷ r ∷ []) now s.limits s.tables)) [
        | inr (x, bad) ↦ absurd (ground arith)
        | inl ((one, t), done) ↦ (
          ground arith,
          ground arith,
          subst (IsIssued grant a r now (pruned_rows now s.tables)) {x = t} (ground arith)
              (issue_rows-IsIssued grant a r now s.limits s.tables t done),
        )
      ]

  -- The access token of a grant that was issued is found as long as it has not expired, with what the
  -- grant was issued with: its identifier, client, scopes and ceiling, its resource as the URL check
  -- makes it, the times of the issue, the full profile exactly if neither the ceiling nor the default
  -- of the client nor the request is gateway-only, and the label given, trimmed, or the next
  -- "Agent N": no grant has it or a greater number, and N is 1 or N - 1 is in use. (The numbers in use,
  -- and the next ones, are below 2 ^ 53, and the time of the lookup is a safe integer.)
  pub issue_grant-find_token :
      (s : GrantStore) (grant : NewGrant) (a r : StoredToken) (now later : ℕ)
      → (issue_grant parse_url grant (a ∷ r ∷ []) now s).0 ≡ ok tt
      → AreBelow (pruned_rows now s.tables).grants
      → leb later max_time ≡ true
      → has_expired later a.expires_at ≡ false
      → (label url : String) × (f : GrantRecord) × IsLabelled grant.label
          (pruned_rows now s.tables).grants
          label
        × (parse_url grant.resource ≡ some url)
        × IsGrantOf grant label url now s.tables.client_defaults f
        × ((find_token parse_url a.token_hash access later
              (issue_grant parse_url grant (a ∷ r ∷ []) now s).1).0
            ≡ ok (some (record { grant = f; expires_at = a.expires_at })))
  issue_grant-find_token s grant a r now later done below valid live =
      let (_, still, issued) = issue_grant-IsIssued grant a r now s done in
      let u = pruned_rows now s.tables in
      let after = (issue_grant parse_url grant (a ∷ r ∷ []) now s).1 in
      let profile = profile_for grant (default_of grant.client_id u) in
      let row = new_row grant profile issued.label now in
      let token = token_row grant.grant_id a in
      let (delivery, found) =
        find_pruned a.token_hash access later after token row issued.url still valid
          (first-access grant.grant_id a r later issued.before after.tables issued.pair live)
          (rw issued.grants (
            first-append_row (λ x. x.grant_id == grant.grant_id) u.grants row [] issued.new
              (eq_refl grant.grant_id)))
          issued.schema
          (profile_for-within_ceiling grant (default_of grant.client_id u) issued.label now)
          (ground (arith, issued.pair.timed, issued.pair.expiring)) in
      (
        issued.label,
        issued.url,
        record_of row issued.url delivery,
        label_for-IsLabelled grant.label u.grants issued.label below issued.labelled,
        grant_schema-parses row issued.url issued.schema,
        issued_record grant issued.label issued.url now s.tables delivery,
        found,
      )
