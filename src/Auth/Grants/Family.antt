-- ===== src/Auth/Grants/Family.antt =====
-- The grant of a refresh token (src/auth/oauth-grant-store.ts) that is presented after its rotation and
-- after the grace.
use slnc_tr_z_mcp.Prelude.{
  any, refl, first_key, ℕ, ◌+◌, String, true, false, ◌||◌, Option, none, some, ◌≡◌, arith, ◌∙◌, ok,
  ap, sym, leb, eqb, ◌==◌, Bool-cases, inl, inr, subst, eq_iff, any-first, eq_refl, hex_of_length,
  All-first,
}
use slnc_tr_z_mcp.Auth.Grants.{
  GrantLimits, GrantTables, GrantStore, RefreshRotationReceipt, RetiredToken, refresh, id_of,
  grant_transaction, pruned_rows, has_grant, has_expired, delete_grants, max_time,
}
use slnc_tr_z_mcp.Auth.Grants.Lookup.{find_retired}
use slnc_tr_z_mcp.Auth.Grants.Rotate.{
  RotationTokenFactory, rotate, rotate_rows, replay, max_rotation_grace_seconds,
}
use slnc_tr_z_mcp.Auth.Grants.Changes.{token_allowed, history_allowed}
use slnc_tr_z_mcp.Auth.Grants.Owned.{Owned-any, grant_key}
use slnc_tr_z_mcp.Auth.Grants.Sound.{token_owner, history_owner, delivery_key, exists_for, IsSound}
use slnc_tr_z_mcp.Auth.Grants.Readable.{pruned_rows-IsSound}
use slnc_tr_z_mcp.Auth.Grants.Rotated.{rotate-IsRotation, history_row, has_hash}
use slnc_tr_z_mcp.Auth.Grants.Replayed.{find_retired-none, pruned_history, grant_kept, not_found}
use slnc_tr_z_mcp.Auth.Grants.Withdrawn.{deleted_gone}
use slnc_tr_z_mcp.Auth.Grants.Left.{
  IsLeft, IsRotation-IsLeft, left-find_retired, rotated-IsSound, rotated_store,
}

-- Nothing is left of the grant.
pub record IsRevoked (id : String) (t : GrantTables) : Type 0 where
  pub grant : has_grant id t ≡ false
  pub tokens : any (λ r. r.grant_id == id) t.tokens ≡ false
  pub retired : any (λ h. h.grant_id == id) t.refresh_history ≡ false
  pub delivery : any (λ d. d.grant_id == id) t.grant_result_delivery ≡ false

family_gone :
    (id : String) (t : GrantTables) → has_grant id (delete_grants (λ g. g.grant_id == id) t) ≡ false
unfolding delete_grants
family_gone id t = deleted_gone id t.grants

module _ (parse_url : String → Option String) where
  replay_late :
      (h : RetiredToken) (create_tokens : RotationTokenFactory) (later grace : ℕ) (u : GrantTables)
      → (eqb grace 0 || leb (h.issued_at + grace) later) ≡ true
      → replay parse_url h create_tokens later grace u
        ≡ ok (none, delete_grants (λ g. g.grant_id == id_of h.grant) u)
  unfolding replay
  replay_late h create_tokens later grace u late = ground (arith, late)

  -- What the tables answer to a second presentation.
  left-again :
      (lim : GrantLimits) (hash client_id resource : String) (create_tokens : RotationTokenFactory)
      (nonce : String) (now later grace : ℕ) (r : RefreshRotationReceipt) (t : GrantTables)
      → IsSound parse_url lim t
      → IsLeft parse_url hash client_id resource now r t
      → hex_of_length 64 r.nonce ≡ true
      → has_expired later r.grant.expires_at ≡ false
      → leb later max_time ≡ true
      → (eqb grace 0 || leb (now + grace) later) ≡ true
      → (u : GrantTables) × (rotate_rows parse_url hash client_id resource create_tokens nonce later
            grace lim t
          ≡ ok (none, u))
        × (has_grant (id_of r.grant) u ≡ false)
  unfolding rotate_rows
  left-again lim hash client_id resource create_tokens nonce now later grace r t sound left hex
        fresh valid late =
      let u = pruned_rows later t in
      let row = history_row hash r.grant r.nonce now in
      let missing = not_found parse_url hash refresh later t left.token valid in
      let after = pruned_rows-IsSound parse_url lim later t sound in
      let gone_none : has_grant (id_of r.grant) u ≡ false
          → find_retired parse_url hash later u ≡ ok none =
        λ gone. elim (pruned_history hash later t row sound.retired left.history_found) [
          | inl missing ↦ find_retired-none parse_url hash later u missing valid
          | inr kept ↦
              let allowed =
                All-first _ (λ h. h.token_hash == hash) u.refresh_history row after.retired_owned
                  kept in
              absurd (ground (arith, allowed, gone, any-first grant_key (id_of r.grant) u.grants))
        ] in
      elim (Bool-cases (has_grant (id_of r.grant) u)) [
        | inr gone ↦ (u, ground (arith, missing, gone_none gone), gone)
        | inl there ↦
            let owner =
              grant_kept (id_of r.grant) later t left.grant sound.ids left.grant_found there in
            let old =
              left-find_retired parse_url lim hash client_id resource now later r t sound left hex
                fresh valid there in
            let same : left.grant.grant_id ≡ id_of r.grant =
              first_key grant_key (id_of r.grant) u.grants left.grant owner in
            (
              delete_grants (λ g. g.grant_id == left.grant.grant_id) u,
              ground (
                arith,
                missing,
                old,
                left.client,
                eq_iff left.grant.client_id client_id,
                eq_refl resource,
                replay_late _ create_tokens later grace u late,
              ),
              subst
                  (λ i.
                    has_grant i (delete_grants (λ g. g.grant_id == left.grant.grant_id) u) ≡ false)
                  same (family_gone left.grant.grant_id u),
            )
      ]

  rotate_again :
      (hash client_id resource : String) (create_tokens : RotationTokenFactory) (nonce : String)
      (now grace : ℕ) (s : GrantStore) (u : GrantTables)
      → s.closed ≡ false
      → leb grace max_rotation_grace_seconds ≡ true
      → rotate_rows parse_url hash client_id resource create_tokens nonce now grace s.limits
          s.tables
        ≡ ok (none, u)
      → rotate parse_url hash client_id resource create_tokens nonce now grace s
        ≡ (ok none, record s { tables = u })
  unfolding rotate grant_transaction
  rotate_again hash client_id resource create_tokens nonce now grace s u on small e =
      ground (arith, on, small, e)

  IsSound-IsRevoked :
      (lim : GrantLimits) (id : String) (t : GrantTables)
      → IsSound parse_url lim t
      → has_grant id t ≡ false
      → IsRevoked id t
  IsSound-IsRevoked lim id t sound gone = record {
    grant = gone;
    tokens = Owned-any token_owner token_allowed (λ r. refl) id t.grants t.tokens sound.owned gone;
    retired =
        Owned-any history_owner history_allowed (λ h. refl) id t.grants t.refresh_history
          sound.retired_owned gone;
    delivery =
        Owned-any delivery_key exists_for (λ d. refl) id t.grants t.grant_result_delivery
          sound.delivered gone;
  }

  -- A refresh token is good for one rotation: presented again after the grace, with whatever factory
  -- and nonce, it is refused, and the grant that it was of is revoked: neither the grant nor any token,
  -- retired token or delivery row of it is left. (The tables satisfy the invariant of the store; the
  -- first rotation answered with new tokens, none of which has the hash of the token presented; the
  -- nonce is 64 hexadecimal digits; the token would not have expired, the time is a safe integer, and
  -- the grace is none or has passed.)
  pub rotate-rotate :
      (s : GrantStore) (hash client_id resource : String)
      (create_tokens again : RotationTokenFactory) (nonce nonce' : String)
      (now later grace grace' : ℕ) (r : RefreshRotationReceipt)
      → IsSound parse_url s.limits s.tables
      → (rotate parse_url hash client_id resource create_tokens nonce now grace s).0 ≡ ok (some r)
      → r.replayed ≡ false
      → has_hash hash (create_tokens r.grant r.nonce now) ≡ false
      → hex_of_length 64 r.nonce ≡ true
      → has_expired later r.grant.expires_at ≡ false
      → leb later max_time ≡ true
      → leb grace' max_rotation_grace_seconds ≡ true
      → (eqb grace' 0 || leb (now + grace') later) ≡ true
      → let after = (rotate parse_url hash client_id resource create_tokens nonce now grace s).1 in
        let second = rotate parse_url hash client_id resource again nonce' later grace' after in
        (second.0 ≡ ok none) × IsRevoked (id_of r.grant) second.1.tables
  rotate-rotate s hash client_id resource create_tokens again nonce nonce' now later grace grace' r
        sound e new other hex fresh valid small late =
      let after = (rotate parse_url hash client_id resource create_tokens nonce now grace s).1 in
      let (on, limits) =
        rotated_store parse_url hash client_id resource create_tokens nonce now grace s r e in
      let after_sound =
        subst (λ l. IsSound parse_url l after.tables) (sym limits)
          (rotated-IsSound parse_url s hash client_id resource create_tokens nonce now grace
            sound) in
      let left =
        IsRotation-IsLeft parse_url hash client_id resource create_tokens now r
          (pruned_rows now s.tables) after.tables
          (rotate-IsRotation parse_url hash client_id resource create_tokens nonce now grace s r e
            new)
          other in
      let (u, answer, gone) =
        left-again after.limits hash client_id resource again nonce' now later grace' r after.tables
          (subst (λ l. IsSound parse_url l after.tables) (sym limits)
            (rotated-IsSound parse_url s hash client_id resource create_tokens nonce now grace
              sound))
          left hex fresh valid late in
      let done =
        rotate_again hash client_id resource again nonce' later grace' after u on small answer in
      let second = rotate parse_url hash client_id resource again nonce' later grace' after in
      (
        ap (λ x. x.0) done,
        IsSound-IsRevoked after.limits (id_of r.grant) second.1.tables
            (rotated-IsSound parse_url after hash client_id resource again nonce' later grace'
              after_sound)
            (ap (λ x. has_grant (id_of r.grant) x.1.tables) done ∙ gone),
      )
