-- ===== src/Auth/Grants/Rotated.antt =====
-- A rotation of the grant store (src/auth/oauth-grant-store.ts) that answers with new tokens: what it
-- found and what it leaves.
use slnc_tr_z_mcp.Prelude.{
  ℕ, String, Bool, true, false, ◌||◌, Option, none, some, List, [], ◌∷◌, ◌++◌, ◌≡◌, arith, refl,
  ◌∙◌, ok, ap, ◌==◌, select, delete, any, Result-cases, inl, inr, subst, any-append,
}
use slnc_tr_z_mcp.Auth.Grants.{
  max_time, leb, RetiredToken, GrantLimits, GrantTables, GrantStore, TokenRow, HistoryRow,
  StoredToken, VerifiedGrantToken, RefreshRotationReceipt, refresh, id_of, grant_transaction,
  pruned_rows, set_last_seen,
}
use slnc_tr_z_mcp.Auth.Grants.Lookup.{
  ceiling_of, find_live, find_retired, insert_token_row, insert_each, insert_tokens, token_row,
}
use slnc_tr_z_mcp.Auth.Grants.Rotate.{
  RotationTokenFactory, rotate, rotate_rows, rotate_live, retire_token, replay, replay_with, is_for,
  receipt_of,
}
use slnc_tr_z_mcp.Auth.Grants.Found.{find_live-IsFound, IsFound}
use slnc_tr_z_mcp.Auth.ConnectionProfile.{SurfaceProfile}

abbrev pub history_row : String → VerifiedGrantToken → String → ℕ → HistoryRow
history_row hash f nonce now = record {
  token_hash = hash;
  grant_id = id_of f;
  expires_at = f.expires_at;
  superseded_at = now;
  nonce = some nonce;
}

abbrev pub has_hash : String → List StoredToken → Bool
has_hash hash ks = any (λ k. k.token_hash == hash) ks

abbrev pub is_token : String → GrantTables → Bool
is_token hash t = any (λ r. r.token_hash == hash) t.tokens

-- What the insertion of tokens leaves.
record Inserts (t u : GrantTables) (ks : List StoredToken) (hash : String) : Type 0 where
  pub grants : u.grants ≡ t.grants
  pub history : u.refresh_history ≡ t.refresh_history
  pub tokens : is_token hash u ≡ (is_token hash t || has_hash hash ks)

insert_one :
    (id : String) (ceiling : Option SurfaceProfile) (now : ℕ) (k : StoredToken) (t u : GrantTables)
    (hash : String)
    → insert_token_row id ceiling now k t ≡ ok u
    → Inserts t u (k ∷ []) hash
unfolding insert_token_row any
insert_one id ceiling now k t u hash e = record {
  grants = ground arith;
  history = ground arith;
  tokens =
      ground
        (arith, any-append (λ (r : TokenRow). r.token_hash == hash) t.tokens (token_row id k ∷ []));
}

insert_each-Inserts :
    (id : String) (ceiling : Option SurfaceProfile) (now : ℕ) (ks : List StoredToken)
    (t u : GrantTables) (hash : String)
    → insert_each id ceiling now ks t ≡ ok u
    → Inserts t u ks hash
unfolding insert_each any
insert_each-Inserts id ceiling now [] t u hash e = record {
  grants = ground arith;
  history = ground arith;
  tokens = ground arith;
}
insert_each-Inserts id ceiling now (k ∷ ks) t u hash e =
    elim (Result-cases (insert_token_row id ceiling now k t)) [
      | inr (x, is) ↦ absurd (ground arith)
      | inl (v, is) ↦
          let rest = insert_each-Inserts id ceiling now ks v u hash (ground arith) in
          let one = insert_one id ceiling now k t v hash is in
          record {
            grants = rest.grants ∙ one.grants;
            history = rest.history ∙ one.history;
            tokens = ground (arith, rest.tokens, one.tokens);
          }
    ]

insert_tokens-Inserts :
    (id : String) (ks : List StoredToken) (now : ℕ) (lim : GrantLimits) (t u : GrantTables)
    (hash : String)
    → insert_tokens id ks now lim t ≡ ok u
    → Inserts t u ks hash
unfolding insert_tokens
insert_tokens-Inserts id ks now lim t u hash e =
    insert_each-Inserts id (ceiling_of id t) now ks t u hash (ground arith)

-- What a rotation with new tokens found in the pruned tables `u`, and what it leaves.
pub record IsRotation (parse_url : String → Option String) (hash client_id resource : String)
    (create_tokens : RotationTokenFactory) (now : ℕ) (r : RefreshRotationReceipt)
    (u t : GrantTables) : Type 0 where
  pub looked : find_live parse_url hash refresh now u ≡ ok (some r.grant)
  pub valid : leb now max_time ≡ true
  pub found : IsFound hash refresh now u r.grant
  pub owner : is_for client_id resource r.grant ≡ true
  pub fresh : any (λ h. h.token_hash == hash) u.refresh_history ≡ false
  pub grants : t.grants ≡ (set_last_seen (id_of r.grant) now u).grants
  pub history : t.refresh_history ≡ u.refresh_history ++ history_row hash r.grant r.nonce now ∷ []
  pub tokens : is_token hash t ≡ has_hash hash (create_tokens r.grant r.nonce now)
  pub inserted :
      (lim : GrantLimits) × (v w : GrantTables) × (insert_tokens
          (id_of r.grant)
          (create_tokens r.grant r.nonce now)
          now
          lim
          v
        ≡ ok w)
      × (t.tokens ≡ w.tokens)

not_deleted :
    (hash : String) (rs : List TokenRow)
    → any (λ r. r.token_hash == hash) (delete (λ r. r.token_hash == hash) rs) ≡ false
unfolding any delete select
not_deleted hash [] = refl
not_deleted hash (r ∷ rs) = ground (arith, not_deleted hash rs)

retired :
    (hash : String) (f : VerifiedGrantToken) (nonce : String) (now : ℕ) (u v : GrantTables)
    → retire_token hash f nonce now u ≡ ok v
    → (any (λ h. h.token_hash == hash) u.refresh_history ≡ false)
      × (v.grants ≡ u.grants)
      × (v.refresh_history ≡ u.refresh_history ++ history_row hash f nonce now ∷ [])
      × (is_token hash v ≡ false)
unfolding retire_token
retired hash f nonce now u v e =
    (ground arith, ground arith, ground arith, ground (arith, not_deleted hash u.tokens))

rotate_live-IsRotation :
    (parse_url : String → Option String) (hash client_id resource : String) (f : VerifiedGrantToken)
    (create_tokens : RotationTokenFactory) (nonce : String) (now : ℕ) (lim : GrantLimits)
    (u t : GrantTables) (r : RefreshRotationReceipt)
    → find_live parse_url hash refresh now u ≡ ok (some f)
    → leb now max_time ≡ true
    → is_for client_id resource f ≡ true
    → rotate_live hash f create_tokens nonce now lim u ≡ ok (some r, t)
    → IsRotation parse_url hash client_id resource create_tokens now r u t
unfolding rotate_live
rotate_live-IsRotation parse_url hash client_id resource f create_tokens nonce now lim u t r looked
      valid owner e =
    elim (Result-cases (retire_token hash f nonce now u)) [
      | inr (x, is) ↦ absurd (ground arith)
      | inl (v, is) ↦
          elim (Result-cases (insert_tokens (id_of f) (create_tokens f nonce now) now lim v)) [
            | inr (x, bad) ↦ absurd (ground arith)
            | inl (w, added) ↦
                let new =
                  insert_tokens-Inserts (id_of f) (create_tokens f nonce now) now lim v w hash
                    added in
                let old = retired hash f nonce now u v is in
                let same : receipt_of f nonce now false ≡ r = ground arith in
                subst (λ x. IsRotation parse_url hash client_id resource create_tokens now x u t)
                  same
                  (record {
                    looked = looked;
                    valid = valid;
                    found = find_live-IsFound parse_url hash refresh now u f looked;
                    owner = owner;
                    fresh = old.0;
                    grants = ground (arith, new.grants, old.1);
                    history = ground (arith, new.history, old.2);
                    tokens = ground (arith, new.tokens, old.3);
                    inserted = (lim, v, w, added, ground arith);
                  })
          ]
    ]

module _ (parse_url : String → Option String) where
  replay-replayed :
      (h : RetiredToken) (create_tokens : RotationTokenFactory) (now grace : ℕ) (u t : GrantTables)
      (r : RefreshRotationReceipt)
      → replay parse_url h create_tokens now grace u ≡ ok (some r, t)
      → r.replayed ≡ true
  unfolding replay replay_with
  replay-replayed h create_tokens now grace u t r e = ground arith

  rotate_rows-IsRotation :
      (hash client_id resource : String) (create_tokens : RotationTokenFactory) (nonce : String)
      (now grace : ℕ) (lim : GrantLimits) (u t : GrantTables) (r : RefreshRotationReceipt)
      → rotate_rows parse_url hash client_id resource create_tokens nonce now grace lim u
        ≡ ok (some r, t)
      → r.replayed ≡ false
      → IsRotation parse_url hash client_id resource create_tokens now r (pruned_rows now u) t
  unfolding rotate_rows
  rotate_rows-IsRotation hash client_id resource create_tokens nonce now grace lim u t r e new =
      let v = pruned_rows now u in
      elim (Result-cases (find_live parse_url hash refresh now v)) [
        | inr (x, is) ↦ absurd (ground arith)
        | inl (some f, is) ↦
            rotate_live-IsRotation parse_url hash client_id resource f create_tokens nonce now lim v
              t r is (ground arith) (ground arith) (ground arith)
        | inl (none, is) ↦ elim (Result-cases (find_retired parse_url hash now v)) [
          | inr (x, bad) ↦ absurd (ground arith)
          | inl (none, bad) ↦ absurd (ground arith)
          | inl (some h, old) ↦
              absurd (ground (arith, replay-replayed h create_tokens now grace v t r))
        ]
      ]

  pub rotate-IsRotation :
      (hash client_id resource : String) (create_tokens : RotationTokenFactory) (nonce : String)
      (now grace : ℕ) (s : GrantStore) (r : RefreshRotationReceipt)
      → (rotate parse_url hash client_id resource create_tokens nonce now grace s).0 ≡ ok (some r)
      → r.replayed ≡ false
      → IsRotation parse_url hash client_id resource create_tokens now r
          (pruned_rows now s.tables)
          (rotate parse_url hash client_id resource create_tokens nonce now grace s).1.tables
  unfolding rotate grant_transaction
  rotate-IsRotation hash client_id resource create_tokens nonce now grace s r e new =
      elim (Result-cases (
        rotate_rows parse_url hash client_id resource create_tokens nonce now grace s.limits
          s.tables)) [
            | inr (x, is) ↦ absurd (ground arith)
            | inl ((o, t), is) ↦
                let same : o ≡ some r = ground arith in
                subst
                  (IsRotation parse_url hash client_id resource create_tokens now r
                    (pruned_rows now s.tables))
                  {x = t} (ground arith)
                  (rotate_rows-IsRotation hash client_id resource create_tokens nonce now grace
                    s.limits s.tables t r (is ∙ ap (λ x. ok (x, t)) same) new)
          ]
