-- ===== src/Auth/Grants/Withdrawn.antt =====
-- What a lookup of the grant store (src/auth/oauth-grant-store.ts) answers after a revocation and after
-- a restriction.
use slnc_tr_z_mcp.Prelude.{
  ℕ, String, Bool, true, false, not, ◌&&◌, Option, none, some, List, [], ◌∷◌, ◌≡◌, ◌≢◌, arith, refl,
  ok, sym, ◌==◌, select, delete, update, any, Bool-cases, Result-cases, inl, inr, All, subst,
  any-select, any-first, eq_iff,
}
use slnc_tr_z_mcp.Auth.ConnectionProfile.{AuthenticatedConnection, gateway_only, is_full}
use slnc_tr_z_mcp.Auth.Grants.{
  GrantTables, GrantStore, GrantRow, TokenKind, VerifiedGrantToken, access, delete_grants,
  has_grant, id_of, grant_transaction, pruned_rows,
}
use slnc_tr_z_mcp.Auth.Grants.Lookup.{find_live}
use slnc_tr_z_mcp.Auth.Grants.Manage.{
  find_token, find_token_rows, revoke_grant, restrict_by_access_token, restrict_rows,
  restrict_found,
}
use slnc_tr_z_mcp.Auth.Grants.Changes.{is_full_grant}
use slnc_tr_z_mcp.Auth.Grants.Found.{find_live-IsFound, own_row, IsFound}
use slnc_tr_z_mcp.Auth.Grants.Owned.{grant_key}
use slnc_tr_z_mcp.Auth.Grants.History.{GrantCall, Permitted, grant_run, grant_run-keeps}
use slnc_tr_z_mcp.Auth.Grants.Revoked.{Change-gone, Change-reduced}
use slnc_tr_z_mcp.Auth.Grants.Owner.{first-any_both}

any-pruned_rows :
    (p : GrantRow → Bool) (now : ℕ) (t : GrantTables)
    → any p t.grants ≡ false
    → any p (pruned_rows now t).grants ≡ false
unfolding pruned_rows delete_grants delete
any-pruned_rows p now t h = any-select p _ t.grants h

pub deleted_gone :
    (id : String) (gs : List GrantRow)
    → any (λ g. g.grant_id == id) (delete (λ g. g.grant_id == id) gs) ≡ false
unfolding any delete select
deleted_gone id [] = refl
deleted_gone id (g ∷ gs) = ground (arith, deleted_gone id gs)

all_reduced :
    (id : String) (gs : List GrantRow)
    → any
        (λ g. g.grant_id == id && is_full g.surface_profile)
        (update (λ g. g.grant_id == id) (λ g. record g { surface_profile = gateway_only }) gs)
      ≡ false
unfolding any update
all_reduced id [] = refl
all_reduced id (g ∷ gs) = ground (arith, all_reduced id gs)

module _ (parse_url : String → Option String) where
  -- A lookup that finds a grant has found a row of it in the pruned tables.
  IsFound-pruned_rows :
      (hash : String) (kind : TokenKind) (now : ℕ) (s : GrantStore) (f : VerifiedGrantToken)
      → (find_token parse_url hash kind now s).0 ≡ ok (some f)
      → IsFound hash kind now (pruned_rows now s.tables) f
  unfolding find_token find_token_rows grant_transaction
  IsFound-pruned_rows hash kind now s f e =
      find_live-IsFound parse_url hash kind now (pruned_rows now s.tables) f
        (elim (Result-cases (find_live parse_url hash kind now (pruned_rows now s.tables))) [
          | inl (o, is) ↦ ground arith
          | inr (x, is) ↦ absurd (ground arith)
        ])

  found-has_grant :
      (hash : String) (kind : TokenKind) (now : ℕ) (s : GrantStore) (f : VerifiedGrantToken)
      → (find_token parse_url hash kind now s).0 ≡ ok (some f)
      → has_grant (id_of f) s.tables ≡ true
  found-has_grant hash kind now s f e =
      let found = IsFound-pruned_rows hash kind now s f e in
      let own = own_row found.row.grant_id (pruned_rows now s.tables) f found.owner in
      elim (Bool-cases (has_grant (id_of f) s.tables)) [
        | inl there ↦ there
        | inr gone ↦ absurd (
            ground (
              arith,
              own,
              any-first grant_key (id_of f) (pruned_rows now s.tables).grants,
              any-pruned_rows (λ g. g.grant_id == id_of f) now s.tables gone,
            ))
      ]

  found-is_full_grant :
      (hash : String) (kind : TokenKind) (now : ℕ) (s : GrantStore) (f : VerifiedGrantToken)
      → (find_token parse_url hash kind now s).0 ≡ ok (some f)
      → is_full_grant (id_of f) s.tables ≡ false
      → is_full f.grant.connection.surface_profile ≡ false
  found-is_full_grant hash kind now s f e low =
      let found = IsFound-pruned_rows hash kind now s f e in
      let own = own_row found.row.grant_id (pruned_rows now s.tables) f found.owner in
      elim (Bool-cases (is_full f.grant.connection.surface_profile)) [
        | inr off ↦ off
        | inl on ↦ absurd (
            ground (
              arith,
              first-any_both (λ g. g.grant_id == id_of f) (λ g. is_full g.surface_profile)
                  (pruned_rows now s.tables).grants found.owner.row own
                  (ground (arith, found.owner.profile, on)),
              any-pruned_rows (λ g. g.grant_id == id_of f && is_full g.surface_profile) now s.tables
                  low,
            ))
      ]

  revoked_gone :
      (id : String) (s : GrantStore)
      → s.closed ≡ false
      → has_grant id (revoke_grant id s).1.tables ≡ false
  unfolding revoke_grant grant_transaction delete_grants
  revoked_gone id s on = rw on (deleted_gone id s.tables.grants)

  -- A grant that the owner revoked is gone: after any history of calls in which no grant is issued
  -- under its identifier, no token is found of it, be it an access or a refresh token, at any time.
  -- (The store is open when the grant is revoked.)
  pub revoke_grant-find_token :
      (s : GrantStore) (id : String) (cs : List GrantCall) (hash : String) (kind : TokenKind)
      (now : ℕ) (f : VerifiedGrantToken)
      → s.closed ≡ false
      → All (Permitted (λ i. not (i == id)) (λ i. true)) cs
      → (find_token parse_url hash kind now (grant_run parse_url (revoke_grant id s).1 cs)).0
        ≡ ok (some f)
      → id_of f ≢ id
  revoke_grant-find_token s id cs hash kind now f on may e same =
      let after = (revoke_grant id s).1 in
      let gone : has_grant id (grant_run parse_url after cs).tables ≡ false =
        grant_run-keeps parse_url _ _ after.limits (λ t. has_grant id t ≡ false)
          (Change-gone parse_url after.limits (λ i. not (i == id)) (λ i. true) id
            (ground (arith, eq_iff id id)))
          after cs refl may (revoked_gone id s on) in
      absurd (
        ground
          (arith, gone, found-has_grant hash kind now (grant_run parse_url after cs) f e, same))

  restricted_reduced :
      (hash : String) (now : ℕ) (s : GrantStore) (c : AuthenticatedConnection)
      → (restrict_by_access_token parse_url hash gateway_only now s).0 ≡ ok c
      → is_full_grant c.grant_id
          (restrict_by_access_token parse_url hash gateway_only now s).1.tables
        ≡ false
  unfolding restrict_by_access_token restrict_rows restrict_found grant_transaction
  restricted_reduced hash now s c e =
      elim (Result-cases (find_live parse_url hash access now (pruned_rows now s.tables))) [
        | inr (x, is) ↦ absurd (ground arith)
        | inl (none, is) ↦ absurd (ground arith)
        | inl (some f, is) ↦
            ground (arith, is, all_reduced (id_of f) (pruned_rows now s.tables).grants)
      ]

  -- A connection that restricted itself to the gateway profile cannot take that back: after any
  -- history of calls in which the owner does not set the grant to the full profile, and issues no
  -- grant under its identifier, no token of it is found with the full profile.
  pub restrict-find_token :
      (hash : String) (now : ℕ) (s : GrantStore) (c : AuthenticatedConnection) (cs : List GrantCall)
      (hash' : String) (kind : TokenKind) (later : ℕ) (f : VerifiedGrantToken)
      → (restrict_by_access_token parse_url hash gateway_only now s).0 ≡ ok c
      → All (Permitted (λ i. not (i == c.grant_id)) (λ i. not (i == c.grant_id))) cs
      → (find_token parse_url hash' kind later
          (grant_run parse_url (restrict_by_access_token parse_url hash gateway_only now s).1 cs)).0
        ≡ ok (some f)
      → id_of f ≡ c.grant_id
      → f.grant.connection.surface_profile ≡ gateway_only
  restrict-find_token hash now s c cs hash' kind later f done may e same =
      let id = c.grant_id in
      let after = (restrict_by_access_token parse_url hash gateway_only now s).1 in
      let low : is_full_grant id (grant_run parse_url after cs).tables ≡ false =
        grant_run-keeps parse_url _ _ after.limits (λ t. is_full_grant id t ≡ false)
          (Change-reduced parse_url after.limits (λ i. not (i == id)) (λ i. not (i == id)) id
            (ground (arith, eq_iff id id)) (ground (arith, eq_iff id id)))
          after cs refl may (restricted_reduced hash now s c done) in
      let reduced = found-is_full_grant hash' kind later (grant_run parse_url after cs) f e (
        subst (λ i. is_full_grant i (grant_run parse_url after cs).tables ≡ false) (sym same)
          low) in
      ground (arith, reduced)
