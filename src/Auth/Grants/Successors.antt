-- ===== src/Auth/Grants/Successors.antt =====
-- The tokens that a rotation of the grant store (src/auth/oauth-grant-store.ts) made, in the tables that
-- it left.
use slnc_tr_z_mcp.Prelude.{
  ℕ, String, true, false, Option, some, List, [], ◌∷◌, ◌≡◌, arith, refl, ◌∙◌, ok, ap, sym, leb,
  ◌==◌, first, subst, eq_iff, All-first, first_key, any-first, any,
}
use slnc_tr_z_mcp.Auth.Grants.{
  GrantLimits, GrantTables, TokenKind, StoredToken, VerifiedGrantToken, RefreshRotationReceipt,
  refresh, access, id_of, pruned_rows, has_grant, has_expired, max_time, is_refresh,
}
use slnc_tr_z_mcp.Auth.Grants.Lookup.{is_live, find_live, insert_tokens, token_row}
use slnc_tr_z_mcp.Auth.Grants.Rotate.{all_live}
use slnc_tr_z_mcp.Auth.Grants.Owned.{grant_key}
use slnc_tr_z_mcp.Auth.Grants.Sound.{IsSound, IsGrant}
use slnc_tr_z_mcp.Auth.Grants.Left.{IsLeft}
use slnc_tr_z_mcp.Auth.Grants.Pair.{
  IsPairInserted, find_live-pruned_rows, first-access, first-refresh, first-pruned_rows,
}

-- The tokens that were inserted are an access token and a refresh token.
pub insert_tokens-pair :
    (id : String) (ks : List StoredToken) (now : ℕ) (lim : GrantLimits) (t u : GrantTables)
    → insert_tokens id ks now lim t ≡ ok u
    → (a r : StoredToken) × (ks ≡ a ∷ r ∷ [])
unfolding insert_tokens
insert_tokens-pair id [] now lim t u e = absurd (ground arith)
insert_tokens-pair id (a ∷ []) now lim t u e = absurd (ground arith)
insert_tokens-pair id (a ∷ r ∷ []) now lim t u e = (a, r, refl)
insert_tokens-pair id (a ∷ r ∷ x ∷ xs) now lim t u e = absurd (ground arith)

kind_access : (k : TokenKind) → is_refresh k ≡ false → k ≡ access
kind_access access e = refl
kind_access refresh e = absurd (ground arith)

kind_refresh : (k : TokenKind) → is_refresh k ≡ true → k ≡ refresh
kind_refresh access e = absurd (ground arith)
kind_refresh refresh e = refl

pub both_live :
    (later : ℕ) (ks : List StoredToken) (a b : StoredToken)
    → ks ≡ a ∷ b ∷ []
    → any (λ k. has_expired later k.expires_at) ks ≡ false
    → (has_expired later a.expires_at ≡ false) × (has_expired later b.expires_at ≡ false)
unfolding any
both_live later ks a b made live =
    let two = subst (λ l. any (λ k. has_expired later k.expires_at) l ≡ false) made live in
    (ground arith, ground arith)

module _ (parse_url : String → Option String) where
  all_live-pair :
      (id : String) (now : ℕ) (a b : StoredToken) (f g : VerifiedGrantToken) (t : GrantTables)
      → find_live parse_url a.token_hash a.kind now t ≡ ok (some f)
      → find_live parse_url b.token_hash b.kind now t ≡ ok (some g)
      → id_of f ≡ id
      → id_of g ≡ id
      → all_live parse_url id now (a ∷ b ∷ []) t ≡ ok true
  unfolding all_live
  all_live-pair id now a b f g t fa fb ida idb =
      ground (arith, fa, fb, ida, idb, eq_iff (id_of f) id, eq_iff (id_of g) id)

  -- A token of the grant that a rotation left is found in the pruned tables.
  left-find_live :
      (lim : GrantLimits) (hash client_id resource : String) (now later : ℕ)
      (r : RefreshRotationReceipt) (t : GrantTables) (kind : TokenKind) (k : StoredToken)
      → IsSound parse_url lim t
      → IsLeft parse_url hash client_id resource now r t
      → leb later max_time ≡ true
      → first (is_live k.token_hash kind later) t.tokens ≡ some (token_row (id_of r.grant) k)
      → (f : VerifiedGrantToken) × (find_live parse_url k.token_hash kind later
            (pruned_rows later t)
          ≡ ok (some f))
        × (id_of f ≡ id_of r.grant)
  left-find_live lim hash client_id resource now later r t kind k sound left valid found =
      let (_, within) =
        All-first (IsGrant parse_url) (λ g. g.grant_id == id_of r.grant) t.grants left.grant
          sound.records left.grant_found in
      let allowed =
        All-first _ (is_live k.token_hash kind later) t.tokens (token_row (id_of r.grant) k)
          sound.owned found in
      (
        _,
        find_live-pruned_rows parse_url k.token_hash kind later t (token_row (id_of r.grant) k)
            left.grant resource valid found left.grant_found left.url within
            (ground (arith, allowed, left.grant_found)),
        first_key grant_key (id_of r.grant) t.grants left.grant left.grant_found,
      )

  pub left-all_live :
      (lim : GrantLimits) (hash client_id resource : String) (now later : ℕ)
      (r : RefreshRotationReceipt) (a b : StoredToken) (t v w : GrantTables)
      → IsSound parse_url lim t
      → (left : IsLeft parse_url hash client_id resource now r t)
      → IsPairInserted (id_of r.grant) a b v w
      → t.tokens ≡ w.tokens
      → has_expired later a.expires_at ≡ false
      → has_expired later b.expires_at ≡ false
      → leb later max_time ≡ true
      → (has_grant (id_of r.grant) (pruned_rows later t) ≡ true)
        × (all_live parse_url left.grant.grant_id later (a ∷ b ∷ []) (pruned_rows later t)
            ≡ ok true)
  left-all_live lim hash client_id resource now later r a b t v w sound left pair same_tokens live_a
        live_b valid =
      let u = pruned_rows later t in
      let id = id_of r.grant in
      let first_a : first (is_live a.token_hash access later) t.tokens ≡ some (token_row id a) =
        ap (first (is_live a.token_hash access later)) same_tokens
        ∙ first-access id a b later v w pair live_a in
      let first_b : first (is_live b.token_hash refresh later) t.tokens ≡ some (token_row id b) =
        ap (first (is_live b.token_hash refresh later)) same_tokens
        ∙ first-refresh id a b later v w pair live_b in
      let (f, found_a, id_a) =
        left-find_live lim hash client_id resource now later r t access a sound left valid
          first_a in
      let (g, found_b, id_b) =
        left-find_live lim hash client_id resource now later r t refresh b sound left valid
          first_b in
      let owner =
        (first-pruned_rows (is_live a.token_hash access later) later t (token_row id a) left.grant
          first_a left.grant_found live_a).1 in
      let same : left.grant.grant_id ≡ id = first_key grant_key id u.grants left.grant owner in
      (
        ground (arith, owner, any-first grant_key id u.grants),
        all_live-pair left.grant.grant_id later a b f g u
            (subst (λ k. find_live parse_url a.token_hash k later u ≡ ok (some f))
              (sym (kind_access a.kind pair.kind)) found_a)
            (subst (λ k. find_live parse_url b.token_hash k later u ≡ ok (some g))
              (sym (kind_refresh b.kind pair.refresh_kind)) found_b)
            (id_a ∙ sym same) (id_b ∙ sym same),
      )
