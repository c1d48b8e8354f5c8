-- ===== src/Auth/Grants/Rotate.antt =====
-- src/auth/oauth-grant-store.ts: rotate. The random nonce is an argument, and so is the function that
-- makes the new tokens.
use Prim.Native.String.{count}
use slnc_tr_z_mcp.Prelude.{
  ℕ, ◌+◌, String, Bool, true, false, not, ◌&&◌, ◌||◌, Option, none, some, List, [], ◌∷◌, ◌++◌,
  Result, ok, err, ◌>>=◌, ◌>>◌, throw_if, ltb, leb, eqb, length, if◌then◌else◌, ◌==◌, delete, any,
}
use slnc_tr_z_mcp.Auth.Grants.{
  HistoryRow, GrantTables, GrantStore, StoredToken, VerifiedGrantToken, RefreshRotationReceipt,
  RetiredToken, GrantError, Action, grant_transaction, delete_grants, prune_rows, set_last_seen,
  has_grant, id_of, refresh, invalid_grace, history_capacity, constraint_violated,
}
use slnc_tr_z_mcp.Auth.Grants.Lookup.{find_live, find_retired, is_pair, insert_tokens}

abbrev pub max_rotation_grace_seconds : ℕ
max_rotation_grace_seconds = 3600

-- `randomBytes`, `createTokens`: the nonce of a rotation, and the tokens that it makes.
abbrev pub RotationTokenFactory : Type 0
RotationTokenFactory = VerifiedGrantToken → String → ℕ → List StoredToken

abbrev pub receipt_of : VerifiedGrantToken → String → ℕ → Bool → RefreshRotationReceipt
receipt_of grant nonce issued_at replayed = record {
  grant = grant;
  nonce = nonce;
  issued_at = issued_at;
  replayed = replayed;
}

-- `INSERT INTO refresh_history`: the hash is the primary key.
unfoldable pub retire_token :
    String → VerifiedGrantToken → String → ℕ → GrantTables → Result GrantError GrantTables
retire_token hash grant nonce now t = do
  throw_if
      (any (λ h. h.token_hash == hash) t.refresh_history
        || not (has_grant (id_of grant) t && (eqb (count hash) 64 && eqb (count nonce) 64)))
      constraint_violated
  let row : HistoryRow = record {
    token_hash = hash;
    grant_id = id_of grant;
    expires_at = grant.expires_at;
    superseded_at = now;
    nonce = some nonce;
  }
  ok (record t {
    refresh_history = t.refresh_history ++ row ∷ [];
    tokens = delete (λ r. r.token_hash == hash) t.tokens;
  })

unfoldable pub rotate_live :
    String
    → VerifiedGrantToken
    → RotationTokenFactory
    → String
    → ℕ
    → Action (Option RefreshRotationReceipt)
unfolding retire_token
rotate_live hash grant create_tokens nonce now lim t = do
  throw_if (leb lim.max_refresh_history (length t.refresh_history)) history_capacity
  t ← retire_token hash grant nonce now t
  t ← insert_tokens (id_of grant) (create_tokens grant nonce now) now lim t
  ok (some (receipt_of grant nonce now false), set_last_seen (id_of grant) now t)

abbrev pub is_for : String → String → VerifiedGrantToken → Bool
is_for client_id resource found =
    found.grant.connection.client_id == client_id && found.grant.connection.resource == resource

abbrev pub answer_replay :
    RetiredToken → String → ℕ → GrantTables → Bool → Option RefreshRotationReceipt × GrantTables
answer_replay h nonce now t false = (none, t)
answer_replay h nonce now t true =
    (some (receipt_of h.grant nonce h.issued_at true), set_last_seen (id_of h.grant) now t)

module _ (parse_url : String → Option String) where
  -- The tokens made again are all live and of the grant.
  unfoldable pub all_live : String → ℕ → List StoredToken → GrantTables → Result GrantError Bool
  all_live id now [] t = ok true
  all_live id now (k ∷ ks) t =
      let rest = all_live id now ks t in
      do
        found ← find_live parse_url k.token_hash k.kind now t
        elim found [ none ↦ ok false | some f ↦ if id_of f == id then rest else ok false ]

  unfoldable pub replay_with :
      RetiredToken
      → String
      → List StoredToken
      → ℕ
      → GrantTables
      → Result GrantError (Option RefreshRotationReceipt × GrantTables)
  unfolding all_live
  replay_with h nonce tokens now t =
      if not (is_pair tokens)
      then ok (none, t)
      else all_live (id_of h.grant) now tokens t >>= λ live. ok (answer_replay h nonce now t live)

  unfoldable pub replay :
      RetiredToken
      → RotationTokenFactory
      → ℕ
      → ℕ
      → GrantTables
      → Result GrantError (Option RefreshRotationReceipt × GrantTables)
  unfolding replay_with
  replay h create_tokens now grace t =
      if eqb grace 0 || leb (h.issued_at + grace) now
      then ok (none, delete_grants (λ g. g.grant_id == id_of h.grant) t)
      else if ltb now h.issued_at
      then ok (none, t)
      else elim h.nonce [
        | none ↦ ok (none, t)
        | some nonce ↦ replay_with h nonce (create_tokens h.grant nonce h.issued_at) now t
      ]

  unfoldable pub rotate_rows :
      String
      → String
      → String
      → RotationTokenFactory
      → String
      → ℕ
      → ℕ
      → Action (Option RefreshRotationReceipt)
  unfolding rotate_live replay
  rotate_rows hash client_id resource create_tokens nonce now grace lim t = do
    t ← prune_rows now t
    live ← find_live parse_url hash refresh now t
    elim live [
      | some grant ↦
          if is_for client_id resource grant
          then rotate_live hash grant create_tokens nonce now lim t
          else ok (none, t)
      | none ↦ find_retired parse_url hash now t >>= λ history. elim history [
        | none ↦ ok (none, t)
        | some h ↦
            if is_for client_id resource h.grant
            then replay h create_tokens now grace t
            else ok (none, t)
      ]
    ]

  unfoldable pub rotate :
      String
      → String
      → String
      → RotationTokenFactory
      → String
      → ℕ
      → ℕ
      → GrantStore
      → Result GrantError (Option RefreshRotationReceipt) × GrantStore
  unfolding rotate_rows
  rotate hash client_id resource create_tokens nonce now grace s =
      if ltb max_rotation_grace_seconds grace
      then (err invalid_grace, s)
      else grant_transaction (rotate_rows hash client_id resource create_tokens nonce now grace) s
