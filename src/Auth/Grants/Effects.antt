-- ===== src/Auth/Grants/Effects.antt =====
-- The steps of the methods of the grant store (src/auth/oauth-grant-store.ts) as changes.
use slnc_tr_z_mcp.Prelude.{
  ℕ, suc, ◌+◌, ◌≤◌, String, Bool, not, ◌||◌, Option, List, [], ◌∷◌, ◌++◌, ◌≡◌, arith, refl, ok,
  throw_if, ltb, length, ◌==◌, any, sym, any-first, subst, ap, ◌∙◌, length-append,
}
use slnc_tr_z_mcp.Auth.ConnectionProfile.{SurfaceProfile}
use slnc_tr_z_mcp.Auth.Grants.{
  GrantRow, GrantTables, GrantLimits, StoredToken, invalid_tokens, constraint_violated,
  grant_capacity, token_schema, valid_time, pruned_rows, prune_rows,
}
use slnc_tr_z_mcp.Auth.Grants.Lookup.{
  ceiling_of, has_bad_expiry, is_pair, token_row, insert_token_row, insert_each, insert_tokens,
}
use slnc_tr_z_mcp.Auth.Grants.Changes.{
  reached, follows, expires_rows, removes_grants, adds_token, changes_nothing, Reaches,
  step-Reaches, check-Reaches,
}

inserted :
    (id : String) (ceiling : Option SurfaceProfile) (now : ℕ) (k : StoredToken) (t u : GrantTables)
    → insert_token_row id ceiling now k t ≡ ok u
    → (u.grants ≡ t.grants) × (length u.tokens ≡ suc (length t.tokens))
unfolding insert_token_row
inserted id ceiling now k t u e = (
  ground arith,
  ap (λ (x : GrantTables). length x.tokens) {x = u}
        {y = record t { tokens = t.tokens ++ token_row id k ∷ [] }} (ground arith)
      ∙ length-append t.tokens (token_row id k ∷ [])
      ∙ omega arith,
)

module _ (parse_url : String → Option String) (lim : GrantLimits)
    (may_grant may_raise : String → Bool) where
  pub prune_rows-Reaches :
      (now : ℕ) (t : GrantTables) → Reaches parse_url lim may_grant may_raise t (prune_rows now t)
  unfolding pruned_rows
  prune_rows-Reaches now t =
      check-Reaches parse_url lim may_grant may_raise t (valid_time now) _
        (λ u e. reached (follows (expires_rows now) (removes_grants _)))

  insert_token_row-Reaches :
      (id : String) (now : ℕ) (k : StoredToken) (t : GrantTables)
      → suc (length t.tokens) ≤ lim.max_tokens
      → Reaches parse_url lim may_grant may_raise t (insert_token_row id (ceiling_of id t) now k t)
  unfolding insert_token_row
  insert_token_row-Reaches id now k t room =
      check-Reaches parse_url lim may_grant may_raise t
        (throw_if (not (token_schema k) || has_bad_expiry (ceiling_of id t) now k) invalid_tokens) _
        (λ u good.
          check-Reaches parse_url lim may_grant may_raise t
            (throw_if
              (any (λ r. r.token_hash == k.token_hash) t.tokens
                || not (any (λ g. g.grant_id == id) t.grants))
              constraint_violated)
            _
            (λ v fresh. reached (
              adds_token (token_row id k)
                (ground (arith, any-first (λ (g : GrantRow). g.grant_id) id t.grants))
                (ground arith) room)))

  insert_each-Reaches :
      (id : String) (now : ℕ) (ks : List StoredToken) (t : GrantTables)
      (ceiling : Option SurfaceProfile)
      → ceiling ≡ ceiling_of id t
      → length t.tokens + length ks ≤ lim.max_tokens
      → Reaches parse_url lim may_grant may_raise t (insert_each id ceiling now ks t)
  unfolding insert_each
  insert_each-Reaches id now [] t ceiling same room = reached changes_nothing
  insert_each-Reaches id now (k ∷ ks) t ceiling same room =
      step-Reaches parse_url lim may_grant may_raise t (insert_token_row id ceiling now k t) _
        (subst (λ c. Reaches parse_url lim may_grant may_raise t (insert_token_row id c now k t))
          (sym same) (insert_token_row-Reaches id now k t (omega (arith, room))))
        (λ u e.
          let after = inserted id ceiling now k t u e in
          insert_each-Reaches id now ks u ceiling (ground (arith, after)) (ground (arith, after)))

  pub insert_tokens-Reaches :
      (id : String) (ks : List StoredToken) (now : ℕ) (t : GrantTables)
      → Reaches parse_url lim may_grant may_raise t (insert_tokens id ks now lim t)
  unfolding insert_tokens
  insert_tokens-Reaches id ks now t =
      check-Reaches parse_url lim may_grant may_raise t (throw_if (not (is_pair ks)) invalid_tokens)
        _
        (λ u pair.
          check-Reaches parse_url lim may_grant may_raise t
            (throw_if (ltb lim.max_tokens (length t.tokens + length ks)) grant_capacity) _
            (λ v room. insert_each-Reaches id now ks t _ refl (ground arith)))
