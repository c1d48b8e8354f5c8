-- ===== src/Auth/Grants/Pair.antt =====
-- The pair of tokens that the grant store (src/auth/oauth-grant-store.ts) inserts for a grant, and what
-- a lookup and a pruning make of them.
use slnc_tr_z_mcp.Prelude.{
  ℕ, String, Bool, true, false, Option, some, List, [], ◌∷◌, ◌++◌, ◌≡◌, arith, ok, leb, ◌==◌, first,
  first_passes, first-append_row, first-append_found, any-implied, eq_refl, first-delete_kept,
  any-first_found, any-select_none, any, Bool-cases, Result-cases, inl, inr, eq_iff,
}
use slnc_tr_z_mcp.Auth.Grants.{
  TokenKind, GrantRow, TokenRow, GrantTables, GrantLimits, StoredToken, access, refresh, max_time,
  is_refresh, has_time, is_none, pruned_rows, delete_grants, without_expired, no_token, has_expired,
  delivery_of,
}
use slnc_tr_z_mcp.Auth.Grants.Lookup.{
  is_live, record_of, token_row, ceiling_of, insert_token_row, insert_each, insert_tokens,
  grant_schema, find_live,
}
use slnc_tr_z_mcp.Auth.Grants.Changes.{token_allowed, within_ceiling}
use slnc_tr_z_mcp.Auth.Grants.Readable.{verified-ok}

-- A token that a lookup finds, and its grant, are found after a pruning at which it is live.
pub first-pruned_rows :
    (p : TokenRow → Bool) (now : ℕ) (t : GrantTables) (r : TokenRow) (g : GrantRow)
    → first p t.tokens ≡ some r
    → first (λ x. x.grant_id == r.grant_id) t.grants ≡ some g
    → has_expired now r.expires_at ≡ false
    → (first p (pruned_rows now t).tokens ≡ some r)
      × (first (λ x. x.grant_id == r.grant_id) (pruned_rows now t).grants ≡ some g)
unfolding pruned_rows delete_grants
first-pruned_rows p now t r g found owner live =
    let kept = without_expired now t in
    let there : first p kept.tokens ≡ some r =
      first-delete_kept p (λ x. has_expired now x.expires_at) t.tokens r found live in
    let used : (x : GrantRow)
        → (x.grant_id == r.grant_id) ≡ true
        → any (λ y. y.grant_id == x.grant_id) kept.tokens ≡ true =
      (λ x same.
        any-first_found p (λ y. y.grant_id == x.grant_id) kept.tokens r there
          (ground (arith, eq_iff x.grant_id r.grant_id, eq_iff r.grant_id x.grant_id, same))) in
    (
      first-delete_kept p _ kept.tokens r there (
          any-select_none (no_token kept.tokens) (λ x. x.grant_id == r.grant_id)
            (λ x lost. elim (Bool-cases (x.grant_id == r.grant_id)) [
              | inr e ↦ e
              | inl e ↦ absurd (ground (arith, lost, used x e))
            ])
            t.grants),
      first-delete_kept (λ x. x.grant_id == r.grant_id) (no_token kept.tokens) t.grants g owner
          (ground (arith, used g (first_passes (λ x. x.grant_id == r.grant_id) t.grants g owner))),
    )

module _ (parse_url : String → Option String) where
  -- A live token of a grant that reads back is found in the pruned tables.
  pub find_live-pruned_rows :
      (hash : String) (kind : TokenKind) (now : ℕ) (t : GrantTables) (r : TokenRow) (g : GrantRow)
      (url : String)
      → leb now max_time ≡ true
      → first (is_live hash kind now) t.tokens ≡ some r
      → first (λ x. x.grant_id == r.grant_id) t.grants ≡ some g
      → grant_schema parse_url g ≡ some url
      → within_ceiling g ≡ true
      → token_allowed (some g.profile_ceiling) r ≡ true
      → find_live parse_url hash kind now (pruned_rows now t)
        ≡ ok (
            some (record {
              grant = record_of g url (delivery_of g.grant_id (pruned_rows now t));
              expires_at = r.expires_at;
            }))
  unfolding find_live
  find_live-pruned_rows hash kind now t r g url valid found owner schema within allowed =
      let live = first_passes (is_live hash kind now) t.tokens r found in
      let (kept, kept_owner) =
        first-pruned_rows (is_live hash kind now) now t r g found owner (ground arith) in
      let got =
        verified-ok parse_url kind r g url (pruned_rows now t) schema within allowed
          (ground arith) in
      ground (arith, kept, kept_owner, got)

-- The tables after the pair of tokens of a grant is inserted.
pub record IsPairInserted (id : String) (a r : StoredToken) (t u : GrantTables) : Type 0 where
  pub grants : u.grants ≡ t.grants
  pub tokens : u.tokens ≡ (t.tokens ++ token_row id a ∷ []) ++ token_row id r ∷ []
  pub fresh : any (λ x. x.token_hash == a.token_hash) t.tokens ≡ false
  pub kind : is_refresh a.kind ≡ false
  pub timed : has_time a.expires_at ≡ true
  pub expiring : is_none a.expires_at ≡ false
  pub refresh_fresh :
      any (λ x. x.token_hash == r.token_hash) (t.tokens ++ token_row id a ∷ []) ≡ false
  pub refresh_kind : is_refresh r.kind ≡ true

pub insert_tokens-IsPairInserted :
    (id : String) (a r : StoredToken) (now : ℕ) (lim : GrantLimits) (t u : GrantTables)
    → insert_tokens id (a ∷ r ∷ []) now lim t ≡ ok u
    → IsPairInserted id a r t u
unfolding insert_tokens insert_each insert_token_row
insert_tokens-IsPairInserted id a r now lim t u e =
    elim (Result-cases (insert_token_row id (ceiling_of id t) now a t)) [
      | inr (x, bad) ↦ absurd (ground arith)
      | inl (v, one) ↦ elim (Result-cases (insert_token_row id (ceiling_of id t) now r v)) [
        | inr (x, bad) ↦ absurd (ground arith)
        | inl (w, two) ↦
            let same : w ≡ u = ground (arith, one, two) in
            record {
              grants = ground arith;
              tokens = ground arith;
              fresh = ground arith;
              kind = ground arith;
              timed = ground arith;
              expiring = ground arith;
              refresh_fresh = ground arith;
              refresh_kind = ground arith;
            }
      ]
    ]

-- A token that has just been inserted, and no other of its hash, is the one that a lookup finds.
first-inserted :
    (hash : String) (kind : TokenKind) (now : ℕ) (ts : List TokenRow) (row : TokenRow)
    (more : List TokenRow)
    → any (λ x. x.token_hash == hash) ts ≡ false
    → is_live hash kind now row ≡ true
    → first (is_live hash kind now) (ts ++ row ∷ more) ≡ some row
first-inserted hash kind now ts row more fresh live =
    first-append_row (is_live hash kind now) ts row more
      (any-implied (is_live hash kind now) (λ x. x.token_hash == hash) (λ x passes. ground arith) ts
        fresh)
      live

pub first-access :
    (id : String) (a r : StoredToken) (later : ℕ) (t u : GrantTables)
    → IsPairInserted id a r t u
    → has_expired later a.expires_at ≡ false
    → first (is_live a.token_hash access later) u.tokens ≡ some (token_row id a)
first-access id a r later t u pair live = rw pair.tokens (
    first-append_found (is_live a.token_hash access later) (t.tokens ++ token_row id a ∷ [])
      (token_row id a) (token_row id r ∷ [])
      (first-inserted a.token_hash access later t.tokens (token_row id a) [] pair.fresh
        (ground (arith, eq_refl a.token_hash))))

pub first-refresh :
    (id : String) (a r : StoredToken) (later : ℕ) (t u : GrantTables)
    → IsPairInserted id a r t u
    → has_expired later r.expires_at ≡ false
    → first (is_live r.token_hash refresh later) u.tokens ≡ some (token_row id r)
first-refresh id a r later t u pair live = rw pair.tokens (
    first-inserted r.token_hash refresh later (t.tokens ++ token_row id a ∷ []) (token_row id r) []
      pair.refresh_fresh (ground (arith, eq_refl r.token_hash)))
