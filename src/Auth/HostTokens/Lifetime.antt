-- ===== src/Auth/HostTokens/Lifetime.antt =====
-- The lifetime of a host token (src/auth/host-token-store.ts).
use slnc_tr_z_mcp.Prelude.{
  ℕ, ◌-◌, ◌≤◌, max, String, Bool, true, false, not, Option, none, some, List, [], ◌∷◌, ◌≡◌, refl,
  arith, ok, leb, ◌==◌, ◌∙◌, first, delete, any, first-select, first-append, Bool-cases, inl, inr,
  eq_refl, eq_iff, trim, is_host_token, first_key, first-delete, if◌then◌else◌,
}
use slnc_tr_z_mcp.Auth.HostTokens.{
  HostTokenRow, HostTokenMetadata, Tables, HostTokenStore, new_store, transaction, audit,
  insert_token, use_row, lookup_token, delete_token, issue, authenticate, revoke, is_idle, anchor,
  max_safe_integer, idle_seconds, metadata_of, new_store,
}
use slnc_tr_z_mcp.Auth.HostTokens.Safety.{IsSafe, hash_key, any_or}
use slnc_tr_z_mcp.Auth.HostTokens.History.{Call, run, run-IsSafe}

unfoldable pub row_of : (String → String) → String → HostTokenStore → Option HostTokenRow
row_of sha256 token s = first (λ r. r.token_hash == sha256 token) s.tables.host_tokens

-- What an `issue` that goes through leaves.
issued_row :
    (sha256 : String → String) (token token_id label : String) (now : ℕ) (s : HostTokenStore)
    (m : HostTokenMetadata)
    → (issue sha256 token token_id label now s).0 ≡ ok m
    → ((issue sha256 token token_id label now s).1.closed ≡ false)
      × ((row : HostTokenRow) × (row_of sha256 token (issue sha256 token token_id label now s).1
            ≡ some row)
          × (metadata_of row ≡ m)
          × (anchor row ≡ now)
          × (row.token_hash ≡ sha256 token))
unfolding issue transaction insert_token row_of audit
issued_row sha256 token token_id label now s m h =
    let row : HostTokenRow = record {
      token_hash = sha256 token;
      token_id = token_id;
      label = trim label;
      created_at = now;
      last_used_at = none;
    } in
    let rows = s.tables.host_tokens in
    (
      ground arith,
      (
        row,
        ground (
          arith,
          first-append hash_key (sha256 token) rows row,
          eq_refl (sha256 token),
          any_or (λ r. r.token_hash == sha256 token) (λ r. r.token_id == token_id) rows,
        ),
        ground arith,
        refl,
        refl,
      ),
    )

-- What `authenticate` answers on a row.
authenticate_found :
    (sha256 : String → String) (token : String) (now : ℕ) (s : HostTokenStore) (row : HostTokenRow)
    → s.closed ≡ false
    → is_host_token token ≡ true
    → now ≤ max_safe_integer
    → row_of sha256 token s ≡ some row
    → (authenticate sha256 token now s).0
      ≡ ok (
          if is_idle now row
          then none
          else some (record (metadata_of row) { last_used_at = some (max now (anchor row)) }))
unfolding authenticate transaction lookup_token use_row row_of
authenticate_found sha256 token now s row on good timely found =
    elim (Bool-cases (is_idle now row)) [
      | inl idle ↦ ground (arith, found, idle)
      | inr fresh ↦ ground (arith, found, fresh)
    ]

-- A token that was issued authenticates, with the metadata that were returned and the later time as
-- its last use, when less than 15 days have passed; after 15 days without a use it does not. (The
-- token has the form of a host token, and the time is a safe integer.)
pub issue-authenticate :
    (sha256 : String → String) (token token_id label : String) (now later : ℕ) (s : HostTokenStore)
    (m : HostTokenMetadata)
    → (issue sha256 token token_id label now s).0 ≡ ok m
    → is_host_token token ≡ true
    → later ≤ max_safe_integer
    → (authenticate sha256 token later (issue sha256 token token_id label now s).1).0
      ≡ ok (
          if leb idle_seconds (later - now)
          then none
          else some (record m { last_used_at = some (max later now) }))
issue-authenticate sha256 token token_id label now later s m h good timely =
    let (on, (row, found, same, at, _)) = issued_row sha256 token token_id label now s m h in
    authenticate_found sha256 token later (issue sha256 token token_id label now s).1 row on good
      timely found
    ∙ ground (arith, same, at)

first-any_of {ℓ} :
    {A : Type ℓ} (p q : A → Bool) (xs : List A) (x : A)
    → first p xs ≡ some x
    → q x ≡ true
    → any q xs ≡ true
unfolding first any
first-any_of p q [] x found h = absurd (ground arith)
first-any_of p q (y ∷ ys) x found h = ground (arith, first-any_of p q ys x)

-- The hash of a row that is deleted by its identifier is gone.
hash_gone :
    (max_rows : ℕ) (t : Tables) (hash : String) (row : HostTokenRow)
    → IsSafe max_rows t
    → first (λ r. r.token_hash == hash) t.host_tokens ≡ some row
    → first (λ r. r.token_hash == hash) (delete (λ r. r.token_id == row.token_id) t.host_tokens)
      ≡ none
unfolding delete
hash_gone max_rows t hash row h found =
    first-select hash_key hash (λ r. not (r.token_id == row.token_id)) t.host_tokens h.hashes
    ∙ ground (arith, found, eq_refl row.token_id)

authenticate_missing :
    (sha256 : String → String) (token : String) (now : ℕ) (s : HostTokenStore)
    → s.closed ≡ false
    → now ≤ max_safe_integer
    → row_of sha256 token s ≡ none
    → (authenticate sha256 token now s).0 ≡ ok none
unfolding authenticate transaction lookup_token row_of
authenticate_missing sha256 token now s on timely missing =
    elim (Bool-cases (is_host_token token)) [
      | inl good ↦ ground (arith, missing)
      | inr bad ↦ ground arith
    ]

revoked_row :
    (sha256 : String → String) (token : String) (now : ℕ) (s : HostTokenStore) (row : HostTokenRow)
    → IsSafe s.max_audit_rows s.tables
    → s.closed ≡ false
    → now ≤ max_safe_integer
    → row_of sha256 token s ≡ some row
    → ((revoke row.token_id now s).0 ≡ ok true)
      × ((revoke row.token_id now s).1.closed ≡ false)
      × (row_of sha256 token (revoke row.token_id now s).1 ≡ none)
unfolding revoke transaction delete_token row_of audit
revoked_row sha256 token now s row safe on timely found =
    let there =
      first-any_of (λ r. r.token_hash == sha256 token)
        (λ r. HostTokenRow.token_id r == row.token_id) s.tables.host_tokens row found
        (eq_refl row.token_id) in
    let gone = hash_gone s.max_audit_rows s.tables (sha256 token) row safe found in
    (ground (arith, there), ground (arith, there), ground (arith, there, gone))

-- At any point of any history of a store that is open, revoking a token that is on record succeeds,
-- and the token does not authenticate afterwards, at any time. (The times are safe integers.)
pub revoke-authenticate :
    (sha256 : String → String) (max_rows : ℕ) (fresh : HostTokenStore) (cs : List Call)
    (token : String) (now later : ℕ) (row : HostTokenRow)
    → new_store max_rows ≡ ok fresh
    → (run sha256 fresh cs).closed ≡ false
    → now ≤ max_safe_integer
    → later ≤ max_safe_integer
    → row_of sha256 token (run sha256 fresh cs) ≡ some row
    → ((revoke row.token_id now (run sha256 fresh cs)).0 ≡ ok true)
      × ((authenticate sha256 token later (revoke row.token_id now (run sha256 fresh cs)).1).0
          ≡ ok none)
revoke-authenticate sha256 max_rows fresh cs token now later row new on timely timely_later found =
    let s = run sha256 fresh cs in
    let (done, still, gone) =
      revoked_row sha256 token now s row (run-IsSafe sha256 max_rows fresh cs new) on timely
        found in
    (
      done,
      authenticate_missing sha256 token later (revoke row.token_id now s).1 still timely_later gone,
    )

idle_row :
    (sha256 : String → String) (token : String) (now : ℕ) (s : HostTokenStore) (row : HostTokenRow)
    → s.closed ≡ false
    → is_host_token token ≡ true
    → now ≤ max_safe_integer
    → row_of sha256 token s ≡ some row
    → is_idle now row ≡ true
    → ((authenticate sha256 token now s).1.closed ≡ false)
      × (row_of sha256 token (authenticate sha256 token now s).1 ≡ none)
unfolding authenticate transaction lookup_token use_row row_of audit
idle_row sha256 token now s row on good timely found idle =
    let at = first_key hash_key (sha256 token) s.tables.host_tokens row found in
    (
      ground (arith, found, idle),
      ground (
        arith,
        found,
        idle,
        at,
        eq_iff row.token_hash (sha256 token),
        eq_refl (sha256 token),
        first-delete hash_key (sha256 token) (sha256 token) s.tables.host_tokens,
      ),
    )

-- The token of a row that is idle is refused, and a second call refuses it at any time, also when the
-- clock is set back. (The store is open, the token has the form of a host token, and the times are
-- safe integers.)
pub authenticate-idle :
    (sha256 : String → String) (max_rows : ℕ) (fresh : HostTokenStore) (cs : List Call)
    (token : String) (now later : ℕ) (row : HostTokenRow)
    → new_store max_rows ≡ ok fresh
    → (run sha256 fresh cs).closed ≡ false
    → now ≤ max_safe_integer
    → later ≤ max_safe_integer
    → is_host_token token ≡ true
    → row_of sha256 token (run sha256 fresh cs) ≡ some row
    → is_idle now row ≡ true
    → ((authenticate sha256 token now (run sha256 fresh cs)).0 ≡ ok none)
      × ((authenticate sha256 token later (authenticate sha256 token now (run sha256 fresh cs)).1).0
          ≡ ok none)
authenticate-idle sha256 max_rows fresh cs token now later row new on timely timely_later good found
      idle =
    let s = run sha256 fresh cs in
    let (still, gone) = idle_row sha256 token now s row on good timely found idle in
    (
      authenticate_found sha256 token now s row on good timely found ∙ ground (arith, idle),
      authenticate_missing sha256 token later (authenticate sha256 token now s).1 still timely_later
          gone,
    )
