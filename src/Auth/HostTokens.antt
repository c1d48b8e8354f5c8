-- ===== src/Auth/HostTokens.antt =====
-- src/auth/host-token-store.ts: the store of host tokens, its two tables and its methods. The times
-- are in seconds; the random token and identifier are arguments; `sha256` is a parameter, the digest
-- of a text in hexadecimal digits.
pub mod Safety
pub mod History
pub mod Lifetime
use Prim.Native.Nat.{Ordering}
use Prim.Native.String.{count, compare}
use slnc_tr_z_mcp.Prelude.{
  ℕ, zero, suc, ◌+◌, ◌-◌, ◌≤◌, ◌<◌, max, String, Bool, true, false, not, ◌&&◌, ◌||◌, Option, none,
  some, List, [], ◌∷◌, ◌++◌, map, ◌≡◌, refl, Result, ok, err, ◌>>=◌, ◌>>◌, throw_if, ltb, leb, eqb,
  length, if◌then◌else◌, ◌==◌, first, select, delete, update, any, sort_by, utf16_length, trim,
  is_host_token,
}

pub record HostTokenRow : Type 0 where
  pub token_hash : String
  pub token_id : String
  pub label : String
  pub created_at : ℕ
  pub last_used_at : Option ℕ

pub record HostTokenMetadata : Type 0 where
  pub token_id : String
  pub label : String
  pub created_at : ℕ
  pub last_used_at : Option ℕ

pub data AuditEvent : Type 0 where
  issued inactive_15d used revoked : AuditEvent

pub data AuditActor : Type 0 where
  owner system host : AuditActor

pub record AuditRow : Type 0 where
  pub event_id : ℕ
  pub token_id : String
  pub event : AuditEvent
  pub actor : AuditActor
  pub at : ℕ

-- The audit rows are listed from the newest to the oldest.
pub record Tables : Type 0 where
  pub host_tokens : List HostTokenRow
  pub host_token_audit : List AuditRow

pub record HostTokenStore : Type 0 where
  pub tables : Tables
  pub max_audit_rows : ℕ
  pub closed : Bool

pub data HostTokenError : Type 0 where
  invalid_host_token_audit_limit invalid_host_token_time invalid_host_token_label
        host_token_capacity constraint_failed database_closed :
      HostTokenError

abbrev pub max_safe_integer : ℕ
max_safe_integer = 9007199254740991

-- 15 days.
abbrev pub idle_seconds : ℕ
idle_seconds = 1296000

unfoldable pub new_store : ℕ → Result HostTokenError HostTokenStore
new_store max_audit_rows =
    if not (leb 1 max_audit_rows && leb max_audit_rows max_safe_integer)
    then err invalid_host_token_audit_limit
    else ok (record {
      tables = record { host_tokens = []; host_token_audit = [] };
      max_audit_rows = max_audit_rows;
      closed = false;
    })

-- `#transaction`: an error rolls the tables back.
unfoldable pub transaction :
    {A : Type 0}
    → (ℕ → Tables → Result HostTokenError (A × Tables))
    → HostTokenStore
    → Result HostTokenError A × HostTokenStore
transaction action s =
    if s.closed then (err database_closed, s) else elim (action s.max_audit_rows s.tables) [
      | ok (a, after) ↦ (ok a, record s { tables = after })
      | err e ↦ (err e, s)
    ]

-- The identifier that SQLite gives to the next audit row.
abbrev pub next_event_id : List AuditRow → ℕ
next_event_id [] = 1
next_event_id (row ∷ rows) = row.event_id + 1

abbrev pub event_id_at : ℕ → List AuditRow → ℕ
event_id_at n [] = 0
event_id_at zero (row ∷ rows) = row.event_id
event_id_at (suc n) (row ∷ rows) = event_id_at n rows

-- `#audit`: the row is inserted, and all but the newest rows are deleted.
unfoldable pub audit : ℕ → String → AuditEvent → AuditActor → ℕ → Tables → Tables
audit max_rows token_id event actor now t =
    let row : AuditRow = record {
      event_id = next_event_id t.host_token_audit;
      token_id = token_id;
      event = event;
      actor = actor;
      at = now;
    } in
    let rows = row ∷ t.host_token_audit in
    record t { host_token_audit = delete (λ r. leb r.event_id (event_id_at max_rows rows)) rows }

abbrev pub check_time : ℕ → Result HostTokenError (Unit {0})
check_time now = throw_if (not (leb now max_safe_integer)) invalid_host_token_time

abbrev pub metadata_of : HostTokenRow → HostTokenMetadata
metadata_of row = record {
  token_id = row.token_id;
  label = row.label;
  created_at = row.created_at;
  last_used_at = row.last_used_at;
}

abbrev pub anchor : HostTokenRow → ℕ
anchor row = elim row.last_used_at [ none ↦ row.created_at | some at ↦ at ]

-- The last use, or the creation, is 15 days ago.
abbrev pub is_idle : ℕ → HostTokenRow → Bool
is_idle now row = leb idle_seconds (now - anchor row)

abbrev pub touch : ℕ → HostTokenRow → HostTokenRow
touch at row = record row { last_used_at = some at }

-- The row of a token, on which its use is recorded, or which is deleted when it is idle.
unfoldable pub use_row :
    HostTokenRow → ℕ → ℕ → Tables → Result HostTokenError (Option HostTokenMetadata × Tables)
use_row row now max_rows t =
    if is_idle now row
    then ok (
      none,
      audit max_rows row.token_id inactive_15d system now
          (record t { host_tokens = delete (λ r. r.token_hash == row.token_hash) t.host_tokens }),
    )
    else ok (
      some (record (metadata_of row) { last_used_at = some (max now (anchor row)) }),
      audit max_rows row.token_id used host now (record t {
        host_tokens =
            update (λ r. r.token_hash == row.token_hash) (touch (max now (anchor row)))
              t.host_tokens;
      }),
    )

module _ (sha256 : String → String) where
  unfoldable pub insert_token :
      String → String → String → ℕ → ℕ → Tables → Result HostTokenError (HostTokenMetadata × Tables)
  insert_token token token_id label now max_rows t = do
    let row : HostTokenRow = record {
      token_hash = sha256 token;
      token_id = token_id;
      label = label;
      created_at = now;
      last_used_at = none;
    }
    throw_if (leb 64 (length t.host_tokens)) host_token_capacity
    throw_if
        (any (λ r. r.token_hash == row.token_hash || r.token_id == row.token_id) t.host_tokens
          || not (eqb (count row.token_hash) 64))
        constraint_failed
    ok (
      metadata_of row,
      audit max_rows token_id issued owner now
          (record t { host_tokens = t.host_tokens ++ row ∷ [] }),
    )

  unfoldable pub issue :
      String
      → String
      → String
      → ℕ
      → HostTokenStore
      → Result HostTokenError HostTokenMetadata × HostTokenStore
  unfolding insert_token transaction
  issue token token_id label now s =
      let clean = trim label in
      if not (leb now max_safe_integer)
      then (err invalid_host_token_time, s)
      else if ltb (utf16_length clean) 1 || ltb 64 (utf16_length clean)
      then (err invalid_host_token_label, s)
      else transaction (insert_token token token_id clean now) s

  unfoldable pub lookup_token :
      String → ℕ → ℕ → Tables → Result HostTokenError (Option HostTokenMetadata × Tables)
  unfolding use_row
  lookup_token token now max_rows t =
      elim (first (λ r. r.token_hash == sha256 token) t.host_tokens) [
        | none ↦ ok (none, t)
        | some row ↦ use_row row now max_rows t
      ]

  unfoldable pub authenticate :
      String
      → ℕ
      → HostTokenStore
      → Result HostTokenError (Option HostTokenMetadata) × HostTokenStore
  unfolding lookup_token transaction
  authenticate token now s =
      if not (leb now max_safe_integer)
      then (err invalid_host_token_time, s)
      else if not (is_host_token token)
      then (ok none, s)
      else transaction (lookup_token token now) s

unfoldable pub delete_token : String → ℕ → ℕ → Tables → Result HostTokenError (Bool × Tables)
delete_token token_id now max_rows t =
    if any (λ r. r.token_id == token_id) t.host_tokens
    then ok (
      true,
      audit max_rows token_id revoked owner now
          (record t { host_tokens = delete (λ r. r.token_id == token_id) t.host_tokens }),
    )
    else ok (false, t)

unfoldable pub revoke : String → ℕ → HostTokenStore → Result HostTokenError Bool × HostTokenStore
unfolding delete_token transaction
revoke token_id now s =
    if not (leb now max_safe_integer)
    then (err invalid_host_token_time, s)
    else transaction (delete_token token_id now) s

unfoldable pub delete_expired : List HostTokenRow → ℕ → ℕ → Tables → Tables
delete_expired [] now max_rows t = t
delete_expired (row ∷ rows) now max_rows t = delete_expired rows now max_rows (
    audit max_rows row.token_id inactive_15d system now
      (record t { host_tokens = delete (λ r. r.token_id == row.token_id) t.host_tokens }))

unfoldable pub prune_tables : ℕ → ℕ → Tables → Result HostTokenError (ℕ × Tables)
unfolding delete_expired
prune_tables now max_rows t =
    let expired = select (is_idle now) t.host_tokens in
    ok (length expired, delete_expired expired now max_rows t)

unfoldable pub prune : ℕ → HostTokenStore → Result HostTokenError ℕ × HostTokenStore
unfolding prune_tables transaction
prune now s =
    if not (leb now max_safe_integer)
    then (err invalid_host_token_time, s)
    else transaction (prune_tables now) s

-- SQLite compares texts by their bytes, which is the order of the code points.
abbrev pub text_before : String → String → Bool
text_before a b = elim (compare a b) [ Ordering.lt ↦ true | _ ↦ false ]

unfoldable pub list : HostTokenStore → List HostTokenMetadata
list s = map metadata_of (
    sort_by
      (λ a b.
        ltb a.created_at b.created_at
        || (eqb a.created_at b.created_at && text_before a.token_id b.token_id))
      s.tables.host_tokens)

unfoldable pub close : HostTokenStore → HostTokenStore
close s = if s.closed then s else record s { closed = true }
