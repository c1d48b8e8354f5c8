-- ===== src/Auth/Grants/Retried.antt =====
-- A refresh token of the grant store (src/auth/oauth-grant-store.ts) that is presented again after its
-- rotation and within the grace.
use slnc_tr_z_mcp.Prelude.{
  ℕ, ◌+◌, String, true, false, ◌||◌, Option, some, [], ◌∷◌, ◌≡◌, arith, refl, ◌∙◌, ok, ap, sym, leb,
  ltb, eqb, subst, eq_iff, eq_refl, hex_of_length, first_key, any,
}
use slnc_tr_z_mcp.Auth.Grants.{
  GrantLimits, GrantTables, GrantStore, StoredToken, VerifiedGrantToken, RefreshRotationReceipt,
  RetiredToken, refresh, id_of, grant_transaction, pruned_rows, has_expired, max_time, is_refresh,
  set_last_seen, delivery_of,
}
use slnc_tr_z_mcp.Auth.Grants.Lookup.{insert_tokens, record_of}
use slnc_tr_z_mcp.Auth.Grants.Rotate.{
  RotationTokenFactory, rotate, rotate_rows, replay, replay_with, all_live, answer_replay,
  max_rotation_grace_seconds, receipt_of,
}
use slnc_tr_z_mcp.Auth.Grants.Owned.{grant_key}
use slnc_tr_z_mcp.Auth.Grants.Sound.{IsSound}
use slnc_tr_z_mcp.Auth.Grants.Rotated.{rotate-IsRotation, has_hash}
use slnc_tr_z_mcp.Auth.Grants.Replayed.{not_found}
use slnc_tr_z_mcp.Auth.Grants.Left.{
  left-find_retired, IsLeft, IsRotation-IsLeft, rotated-IsSound, rotated_store,
}
use slnc_tr_z_mcp.Auth.Grants.Pair.{IsPairInserted, insert_tokens-IsPairInserted}
use slnc_tr_z_mcp.Auth.Grants.Successors.{insert_tokens-pair, both_live, left-all_live}

-- Two records of one grant, which differ in what may have changed since: the profile, the result
-- delivery, the label and the time it was last seen.
abbrev pub IsOfSameGrant : VerifiedGrantToken → VerifiedGrantToken → Type 0
IsOfSameGrant f g =
    (id_of f ≡ id_of g)
    × (f.grant.connection.client_id ≡ g.grant.connection.client_id)
    × (f.grant.connection.resource ≡ g.grant.connection.resource)
    × (f.grant.profile_ceiling ≡ g.grant.profile_ceiling)

-- What the retired token is answered: the nonce and the time of the rotation, as a replay.
abbrev pub IsRetry : RefreshRotationReceipt → ℕ → RefreshRotationReceipt → Type 0
IsRetry r now again =
    (again.nonce ≡ r.nonce)
    × (again.issued_at ≡ now)
    × (again.replayed ≡ true)
    × IsOfSameGrant again.grant r.grant

module _ (parse_url : String → Option String) where
  -- A retired token whose successors are live is answered with them again.
  replay-within :
      (h : RetiredToken) (create_tokens : RotationTokenFactory) (nonce : String) (a b : StoredToken)
      (now grace : ℕ) (t : GrantTables)
      → (eqb grace 0 || leb (h.issued_at + grace) now) ≡ false
      → ltb now h.issued_at ≡ false
      → h.nonce ≡ some nonce
      → create_tokens h.grant nonce h.issued_at ≡ a ∷ b ∷ []
      → is_refresh a.kind ≡ false
      → is_refresh b.kind ≡ true
      → all_live parse_url (id_of h.grant) now (a ∷ b ∷ []) t ≡ ok true
      → replay parse_url h create_tokens now grace t ≡ ok (answer_replay h nonce now t true)
  unfolding replay replay_with
  replay-within h create_tokens nonce a b now grace t early past is made ka kb live =
      ground (arith, early, past, is, made, ka, kb, live)

  left-retried :
      (lim : GrantLimits) (hash client_id resource : String) (create_tokens : RotationTokenFactory)
      (nonce : String) (now later grace : ℕ) (r : RefreshRotationReceipt) (a b : StoredToken)
      (t v w : GrantTables)
      → IsSound parse_url lim t
      → IsLeft parse_url hash client_id resource now r t
      → IsPairInserted (id_of r.grant) a b v w
      → t.tokens ≡ w.tokens
      → ((f : VerifiedGrantToken)
          → IsOfSameGrant f r.grant
          → create_tokens f r.nonce now ≡ a ∷ b ∷ [])
      → hex_of_length 64 r.nonce ≡ true
      → has_expired later r.grant.expires_at ≡ false
      → has_expired later a.expires_at ≡ false
      → has_expired later b.expires_at ≡ false
      → leb later max_time ≡ true
      → ltb later now ≡ false
      → (eqb grace 0 || leb (now + grace) later) ≡ false
      → (again : RefreshRotationReceipt) × (u : GrantTables) × (rotate_rows parse_url hash client_id
            resource create_tokens nonce later grace lim t
          ≡ ok (some again, u))
        × IsRetry r now again
  unfolding rotate_rows
  left-retried lim hash client_id resource create_tokens nonce now later grace r a b t v w sound
        left pair same_tokens made hex fresh live_a live_b valid past early =
      let u = pruned_rows later t in
      let (there, live) =
        left-all_live parse_url lim hash client_id resource now later r a b t v w sound left pair
          same_tokens live_a live_b valid in
      let missing = not_found parse_url hash refresh later t left.token valid in
      let old =
        left-find_retired parse_url lim hash client_id resource now later r t sound left hex fresh
          valid there in
      let found : VerifiedGrantToken = record {
        grant = record_of left.grant resource (delivery_of left.grant.grant_id u);
        expires_at = r.grant.expires_at;
      } in
      let same : left.grant.grant_id ≡ id_of r.grant =
        first_key grant_key (id_of r.grant) t.grants left.grant left.grant_found in
      let its : IsOfSameGrant found r.grant =
        (same, left.client ∙ sym left.its_client, sym left.its_resource, left.ceiling) in
      let answer =
        replay-within (record { grant = found; nonce = some r.nonce; issued_at = now })
          create_tokens r.nonce a b later grace u early past refl (made found its) pair.kind
          pair.refresh_kind live in
      (
        receipt_of found r.nonce now true,
        set_last_seen left.grant.grant_id later u,
        ground (
          arith,
          missing,
          old,
          left.client,
          eq_iff left.grant.client_id client_id,
          eq_refl resource,
          answer,
        ),
        (refl, refl, refl, its),
      )

  retried :
      (hash client_id resource : String) (create_tokens : RotationTokenFactory) (nonce : String)
      (now grace : ℕ) (s : GrantStore) (u : GrantTables) (r : RefreshRotationReceipt)
      → s.closed ≡ false
      → leb grace max_rotation_grace_seconds ≡ true
      → rotate_rows parse_url hash client_id resource create_tokens nonce now grace s.limits
          s.tables
        ≡ ok (some r, u)
      → (rotate parse_url hash client_id resource create_tokens nonce now grace s).0 ≡ ok (some r)
  unfolding rotate grant_transaction
  retried hash client_id resource create_tokens nonce now grace s u r on small e =
      ground (arith, on, small, e)

  -- A rotation can be tried again: the same refresh token, presented again within the grace while the
  -- new tokens are live, is answered with the nonce and the time of the rotation, for which the factory
  -- makes the same tokens, and the answer is marked as a replay. (The tables satisfy the invariant of
  -- the store; the first rotation answered with new tokens, none of which has the hash of the token
  -- presented; the factory reads of the grant only its identifier, client, resource and ceiling; the
  -- nonce is 64 hexadecimal digits; neither the token nor its successors have expired, and the time is
  -- a safe integer and not before the rotation.)
  pub rotate-again :
      (s : GrantStore) (hash client_id resource : String) (create_tokens : RotationTokenFactory)
      (nonce nonce' : String) (now later grace grace' : ℕ) (r : RefreshRotationReceipt)
      → IsSound parse_url s.limits s.tables
      → (rotate parse_url hash client_id resource create_tokens nonce now grace s).0 ≡ ok (some r)
      → r.replayed ≡ false
      → ((f : VerifiedGrantToken) (n : String) (at : ℕ)
          → IsOfSameGrant f r.grant
          → create_tokens f n at ≡ create_tokens r.grant n at)
      → has_hash hash (create_tokens r.grant r.nonce now) ≡ false
      → hex_of_length 64 r.nonce ≡ true
      → has_expired later r.grant.expires_at ≡ false
      → any (λ k. has_expired later k.expires_at) (create_tokens r.grant r.nonce now) ≡ false
      → leb later max_time ≡ true
      → ltb later now ≡ false
      → leb grace' max_rotation_grace_seconds ≡ true
      → (eqb grace' 0 || leb (now + grace') later) ≡ false
      → (again : RefreshRotationReceipt) × ((rotate parse_url hash client_id resource create_tokens
            nonce' later grace'
            (rotate parse_url hash client_id resource create_tokens nonce now grace s).1).0
          ≡ ok (some again))
        × IsRetry r now again
        × (create_tokens again.grant again.nonce again.issued_at
            ≡ create_tokens r.grant r.nonce now)
  rotate-again s hash client_id resource create_tokens nonce nonce' now later grace grace' r sound e
        new same other hex fresh live valid past small early =
      let after = (rotate parse_url hash client_id resource create_tokens nonce now grace s).1 in
      let (on, limits) =
        rotated_store parse_url hash client_id resource create_tokens nonce now grace s r e in
      let rotation =
        rotate-IsRotation parse_url hash client_id resource create_tokens nonce now grace s r e
          new in
      let left =
        IsRotation-IsLeft parse_url hash client_id resource create_tokens now r
          (pruned_rows now s.tables) after.tables rotation other in
      let (lim, v, w, added, same_tokens) = rotation.inserted in
      let (a, b, made) =
        insert_tokens-pair (id_of r.grant) (create_tokens r.grant r.nonce now) now lim v w added in
      let (live_a, live_b) = both_live later (create_tokens r.grant r.nonce now) a b made live in
      let pair =
        insert_tokens-IsPairInserted (id_of r.grant) a b now lim v w
          (subst (λ ks. insert_tokens (id_of r.grant) ks now lim v ≡ ok w) made added) in
      let (again, u, answer, retry) =
        left-retried after.limits hash client_id resource create_tokens nonce' now later grace' r a
          b after.tables v w
          (subst (λ l. IsSound parse_url l after.tables) (sym limits)
            (rotated-IsSound parse_url s hash client_id resource create_tokens nonce now grace
              sound))
          left pair same_tokens (λ f its. same f r.nonce now its ∙ made) hex fresh live_a live_b
          valid past early in
      (
        again,
        retried hash client_id resource create_tokens nonce' later grace' after u again on small
            answer,
        retry,
        same again.grant again.nonce again.issued_at retry.3
            ∙ ap (λ n. create_tokens r.grant n again.issued_at) retry.0
            ∙ ap (create_tokens r.grant r.nonce) retry.1,
      )
