-- ===== src/Auth/Grants/Found.antt =====
-- What a lookup of the grant store (src/auth/oauth-grant-store.ts) has found.
use slnc_tr_z_mcp.Prelude.{
  ℕ, String, true, false, not, ◌&&◌, Option, some, ◌≡◌, arith, ok, ◌==◌, first, Option-cases, inl,
  inr, first_key, sym, ◌∙◌, subst,
}
use slnc_tr_z_mcp.Auth.ConnectionProfile.{is_full}
use slnc_tr_z_mcp.Auth.Grants.{
  TokenKind, GrantRow, TokenRow, HistoryRow, GrantTables, VerifiedGrantToken, RetiredToken, is_none,
  has_time, id_of,
}
use slnc_tr_z_mcp.Auth.Grants.Lookup.{
  is_live, is_retired, grant_from_row, verified, find_live, retired_row, find_retired,
}

-- The grant of a record stands in the tables as it is in the record.
pub record IsOfGrant (grant_id : String) (t : GrantTables) (f : VerifiedGrantToken) : Type 0 where
  pub row : GrantRow
  pub row_found : first (λ g. g.grant_id == grant_id) t.grants ≡ some row
  pub id : id_of f ≡ row.grant_id
  pub client : f.grant.connection.client_id ≡ row.client_id
  pub profile : f.grant.connection.surface_profile ≡ row.surface_profile
  pub ceiling : f.grant.profile_ceiling ≡ row.profile_ceiling
  pub expiry : has_time f.expires_at ≡ true
  pub within : (not (is_full row.profile_ceiling) && is_full row.surface_profile) ≡ false
  pub lasting : (is_none f.expires_at && is_full row.profile_ceiling) ≡ false

pub own_row :
    (grant_id : String) (t : GrantTables) (f : VerifiedGrantToken) (o : IsOfGrant grant_id t f)
    → first (λ g. g.grant_id == id_of f) t.grants ≡ some o.row
own_row grant_id t f o =
    let same : grant_id ≡ id_of f =
      sym (first_key (λ (g : GrantRow). g.grant_id) grant_id t.grants o.row o.row_found)
      ∙ sym o.id in
    subst (λ i. first (λ (g : GrantRow). g.grant_id == i) t.grants ≡ some o.row) same o.row_found

pub record IsFound (hash : String) (kind : TokenKind) (now : ℕ) (t : GrantTables)
    (f : VerifiedGrantToken) : Type 0 where
  pub row : TokenRow
  pub found : first (is_live hash kind now) t.tokens ≡ some row
  pub expiry : f.expires_at ≡ row.expires_at
  pub owner : IsOfGrant row.grant_id t f

pub record WasRetired (hash : String) (now : ℕ) (t : GrantTables) (h : RetiredToken) : Type 0 where
  pub row : HistoryRow
  pub found : first (is_retired hash now) t.refresh_history ≡ some row
  pub issued : h.issued_at ≡ row.superseded_at
  pub owner : IsOfGrant row.grant_id t h.grant

module _ (parse_url : String → Option String) where
  verified-IsOfGrant :
      (kind : TokenKind) (r : TokenRow) (g : GrantRow) (t : GrantTables) (f : VerifiedGrantToken)
      → first (λ x. x.grant_id == r.grant_id) t.grants ≡ some g
      → verified parse_url kind r g t ≡ ok f
      → IsOfGrant r.grant_id t f
  unfolding verified grant_from_row
  verified-IsOfGrant kind r g t f found e = record {
    row = g;
    row_found = found;
    id = ground arith;
    client = ground arith;
    profile = ground arith;
    ceiling = ground arith;
    expiry = ground arith;
    within = ground arith;
    lasting = ground arith;
  }

  pub find_live-IsFound :
      (hash : String) (kind : TokenKind) (now : ℕ) (t : GrantTables) (f : VerifiedGrantToken)
      → find_live parse_url hash kind now t ≡ ok (some f)
      → IsFound hash kind now t f
  unfolding find_live
  find_live-IsFound hash kind now t f e =
      elim (Option-cases (first (is_live hash kind now) t.tokens)) [
        | inl missing ↦ absurd (ground arith)
        | inr (r, found) ↦ elim (Option-cases (first (λ g. g.grant_id == r.grant_id) t.grants)) [
          | inl missing ↦ absurd (ground arith)
          | inr (g, row_found) ↦
              let got : verified parse_url kind r g t ≡ ok f = ground arith in
              record {
                row = r;
                found = found;
                expiry = unfold verified in ground arith;
                owner = verified-IsOfGrant kind r g t f row_found got;
              }
        ]
      ]

  retired_row-IsOfGrant :
      (r : HistoryRow) (g : GrantRow) (t : GrantTables) (h : RetiredToken)
      → first (λ x. x.grant_id == r.grant_id) t.grants ≡ some g
      → retired_row parse_url r g t ≡ ok h
      → IsOfGrant r.grant_id t h.grant
  unfolding retired_row grant_from_row
  retired_row-IsOfGrant r g t h found e = record {
    row = g;
    row_found = found;
    id = ground arith;
    client = ground arith;
    profile = ground arith;
    ceiling = ground arith;
    expiry = ground arith;
    within = ground arith;
    lasting = ground arith;
  }

  pub find_retired-WasRetired :
      (hash : String) (now : ℕ) (t : GrantTables) (h : RetiredToken)
      → find_retired parse_url hash now t ≡ ok (some h)
      → WasRetired hash now t h
  unfolding find_retired
  find_retired-WasRetired hash now t h e =
      elim (Option-cases (first (is_retired hash now) t.refresh_history)) [
        | inl missing ↦ absurd (ground arith)
        | inr (r, found) ↦ elim (Option-cases (first (λ g. g.grant_id == r.grant_id) t.grants)) [
          | inl missing ↦ absurd (ground arith)
          | inr (g, row_found) ↦
              let got : retired_row parse_url r g t ≡ ok h = ground arith in
              record {
                row = r;
                found = found;
                issued = unfold retired_row in ground arith;
                owner = retired_row-IsOfGrant r g t h row_found got;
              }
        ]
      ]
