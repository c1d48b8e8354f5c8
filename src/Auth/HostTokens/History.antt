-- ===== src/Auth/HostTokens/History.antt =====
-- Histories of calls on one host token store (src/auth/host-token-store.ts).
use slnc_tr_z_mcp.Prelude.{
  ℕ, String, Bool, true, false, Option, none, List, [], ◌∷◌, ◌++◌, ◌≡◌, arith, Result, ok, leb,
  ◌==◌, delete, update, any, Bool-cases, Result-cases, Option-cases, inl, inr, subst, trim,
  utf16_length, ltb, is_host_token, first, ◌||◌, select, max, not, if◌then◌else◌,
}
use slnc_tr_z_mcp.Auth.HostTokens.{
  HostTokenRow, HostTokenMetadata, Tables, HostTokenStore, HostTokenError, new_store, transaction,
  audit, insert_token, use_row, lookup_token, delete_token, delete_expired, prune_tables, issue,
  authenticate, revoke, prune, close, touch, issued, used, revoked, inactive_15d, owner, system,
  host, is_idle, anchor, max_safe_integer,
}
use slnc_tr_z_mcp.Auth.HostTokens.Safety.{
  IsSafe, audit-IsSafe, delete-IsSafe, touch-IsSafe, append-IsSafe,
}

pub data Call : Type 0 where
  issues : String → String → String → ℕ → Call
  authenticates : String → ℕ → Call
  revokes : String → ℕ → Call
  prunes : ℕ → Call
  closes : Call

-- The store after a call; what the call returns or throws is dropped.
unfoldable pub step : (String → String) → HostTokenStore → Call → HostTokenStore
step sha256 s (issues token token_id label now) = (issue sha256 token token_id label now s).1
step sha256 s (authenticates token now) = (authenticate sha256 token now s).1
step sha256 s (revokes token_id now) = (revoke token_id now s).1
step sha256 s (prunes now) = (prune now s).1
step sha256 s closes = close s

unfoldable pub run : (String → String) → HostTokenStore → List Call → HostTokenStore
run sha256 s [] = s
run sha256 s (c ∷ cs) = run sha256 (step sha256 s c) cs

abbrev pub IsSafeStore : HostTokenStore → Type 0
IsSafeStore s = IsSafe s.max_audit_rows s.tables

transaction-IsSafe :
    {A : Type 0} (action : ℕ → Tables → Result HostTokenError (A × Tables)) (s : HostTokenStore)
    → ((a : A) (after : Tables)
        → action s.max_audit_rows s.tables ≡ ok (a, after)
        → IsSafe s.max_audit_rows after)
    → IsSafeStore s
    → IsSafeStore (transaction action s).1
unfolding transaction
transaction-IsSafe action s keeps h = elim (Bool-cases s.closed) [
  | inl shut ↦ subst IsSafeStore {x = s} {y = (transaction action s).1} (ground arith) h
  | inr on ↦ elim (Result-cases (action s.max_audit_rows s.tables)) [
    | inl ((a, after), e) ↦
        subst IsSafeStore {x = record s { tables = after }} {y = (transaction action s).1}
          (ground arith) (keeps a after e)
    | inr (x, e) ↦ subst IsSafeStore {x = s} {y = (transaction action s).1} (ground arith) h
  ]
]

insert_token-IsSafe :
    (sha256 : String → String) (token token_id label : String) (now max_rows : ℕ) (t after : Tables)
    (m : HostTokenMetadata)
    → insert_token sha256 token token_id label now max_rows t ≡ ok (m, after)
    → IsSafe max_rows t
    → IsSafe max_rows after
unfolding insert_token
insert_token-IsSafe sha256 token token_id label now max_rows t after m e h =
    let row : HostTokenRow = record {
      token_hash = sha256 token;
      token_id = token_id;
      label = label;
      created_at = now;
      last_used_at = none;
    } in
    let added = record t { host_tokens = t.host_tokens ++ row ∷ [] } in
    subst (IsSafe max_rows) {x = audit max_rows token_id issued owner now added} (ground arith) (
      audit-IsSafe max_rows token_id issued owner now added
        (append-IsSafe max_rows row t (ground arith) (ground arith) h))

use_row-IsSafe :
    (row : HostTokenRow) (now max_rows : ℕ) (t after : Tables) (m : Option HostTokenMetadata)
    → use_row row now max_rows t ≡ ok (m, after)
    → IsSafe max_rows t
    → IsSafe max_rows after
unfolding use_row
use_row-IsSafe row now max_rows t after m e h =
    let p : HostTokenRow → Bool = λ r. r.token_hash == row.token_hash in
    let gone = record t { host_tokens = delete p t.host_tokens } in
    let kept = record t { host_tokens = update p (touch (max now (anchor row))) t.host_tokens } in
    elim (Bool-cases (is_idle now row)) [
      | inl idle ↦
          subst (IsSafe max_rows) {x = audit max_rows row.token_id inactive_15d system now gone}
            (ground arith)
            (audit-IsSafe max_rows row.token_id inactive_15d system now gone
              (delete-IsSafe max_rows p t h))
      | inr fresh ↦
          subst (IsSafe max_rows) {x = audit max_rows row.token_id used host now kept}
            (ground arith)
            (audit-IsSafe max_rows row.token_id used host now kept
              (touch-IsSafe max_rows p (max now (anchor row)) t h))
    ]

lookup_token-IsSafe :
    (sha256 : String → String) (token : String) (now max_rows : ℕ) (t after : Tables)
    (m : Option HostTokenMetadata)
    → lookup_token sha256 token now max_rows t ≡ ok (m, after)
    → IsSafe max_rows t
    → IsSafe max_rows after
unfolding lookup_token
lookup_token-IsSafe sha256 token now max_rows t after m e h =
    elim (Option-cases (first (λ r. r.token_hash == sha256 token) t.host_tokens)) [
      | inl missing ↦ subst (IsSafe max_rows) {x = t} (ground arith) h
      | inr (row, found) ↦ use_row-IsSafe row now max_rows t after m (ground arith) h
    ]

delete_token-IsSafe :
    (token_id : String) (now max_rows : ℕ) (t after : Tables) (b : Bool)
    → delete_token token_id now max_rows t ≡ ok (b, after)
    → IsSafe max_rows t
    → IsSafe max_rows after
unfolding delete_token
delete_token-IsSafe token_id now max_rows t after b e h =
    let p : HostTokenRow → Bool = λ r. r.token_id == token_id in
    let gone = record t { host_tokens = delete p t.host_tokens } in
    elim (Bool-cases (any p t.host_tokens)) [
      | inl there ↦
          subst (IsSafe max_rows) {x = audit max_rows token_id revoked owner now gone}
            (ground arith)
            (audit-IsSafe max_rows token_id revoked owner now gone (delete-IsSafe max_rows p t h))
      | inr missing ↦ subst (IsSafe max_rows) {x = t} (ground arith) h
    ]

delete_expired-IsSafe :
    (rows : List HostTokenRow) (now max_rows : ℕ) (t : Tables)
    → IsSafe max_rows t
    → IsSafe max_rows (delete_expired rows now max_rows t)
unfolding delete_expired
delete_expired-IsSafe [] now max_rows t h = h
delete_expired-IsSafe (row ∷ rows) now max_rows t h =
    let p : HostTokenRow → Bool = λ r. r.token_id == row.token_id in
    let gone = record t { host_tokens = delete p t.host_tokens } in
    delete_expired-IsSafe rows now max_rows
      (audit max_rows row.token_id inactive_15d system now gone)
      (audit-IsSafe max_rows row.token_id inactive_15d system now gone
        (delete-IsSafe max_rows p t h))

prune_tables-IsSafe :
    (now max_rows : ℕ) (t after : Tables) (n : ℕ)
    → prune_tables now max_rows t ≡ ok (n, after)
    → IsSafe max_rows t
    → IsSafe max_rows after
unfolding prune_tables
prune_tables-IsSafe now max_rows t after n e h =
    let rows = select (is_idle now) t.host_tokens in
    subst (IsSafe max_rows) {x = delete_expired rows now max_rows t} (ground arith)
      (delete_expired-IsSafe rows now max_rows t h)

-- A check before the transaction.
guard-IsSafe :
    {A : Type 0} (b : Bool) (x y : Result HostTokenError A × HostTokenStore)
    → IsSafeStore x.1
    → IsSafeStore y.1
    → IsSafeStore (if b then x else y).1
guard-IsSafe true x y h k = h
guard-IsSafe false x y h k = k

step-IsSafe :
    (sha256 : String → String) (s : HostTokenStore) (c : Call)
    → IsSafeStore s
    → IsSafeStore (step sha256 s c)
unfolding step issue authenticate revoke prune close
step-IsSafe sha256 s (issues token token_id label now) h =
    let clean = trim label in
    guard-IsSafe (not (leb now max_safe_integer)) _ _ h (
      guard-IsSafe (ltb (utf16_length clean) 1 || ltb 64 (utf16_length clean)) _ _ h (
        transaction-IsSafe (insert_token sha256 token token_id clean now) s
          (λ m after e.
            insert_token-IsSafe sha256 token token_id clean now s.max_audit_rows s.tables after m e
              h)
          h))
step-IsSafe sha256 s (authenticates token now) h =
    guard-IsSafe (not (leb now max_safe_integer)) _ _ h (
      guard-IsSafe (not (is_host_token token)) _ _ h (
        transaction-IsSafe (lookup_token sha256 token now) s
          (λ m after e. lookup_token-IsSafe sha256 token now s.max_audit_rows s.tables after m e h)
          h))
step-IsSafe sha256 s (revokes token_id now) h =
    guard-IsSafe (not (leb now max_safe_integer)) _ _ h (
      transaction-IsSafe (delete_token token_id now) s
        (λ b after e. delete_token-IsSafe token_id now s.max_audit_rows s.tables after b e h) h)
step-IsSafe sha256 s (prunes now) h = guard-IsSafe (not (leb now max_safe_integer)) _ _ h (
    transaction-IsSafe (prune_tables now) s
      (λ n after e. prune_tables-IsSafe now s.max_audit_rows s.tables after n e h) h)
step-IsSafe sha256 s closes h = elim (Bool-cases s.closed) [
  | inl shut ↦ subst IsSafeStore {x = s} {y = close s} (ground arith) h
  | inr on ↦ subst IsSafeStore {x = record s { closed = true }} {y = close s} (ground arith) h
]

run_from-IsSafe :
    (sha256 : String → String) (s : HostTokenStore) (cs : List Call)
    → IsSafeStore s
    → IsSafeStore (run sha256 s cs)
unfolding run
run_from-IsSafe sha256 s [] h = h
run_from-IsSafe sha256 s (c ∷ cs) h =
    run_from-IsSafe sha256 (step sha256 s c) cs (step-IsSafe sha256 s c h)

-- After any history of calls on a new store, whatever the digest, the hashes and the identifiers of
-- the tokens are distinct, there are at most 64 tokens, and the audit is in order and within its
-- bound.
pub run-IsSafe :
    (sha256 : String → String) (max_rows : ℕ) (s : HostTokenStore) (cs : List Call)
    → new_store max_rows ≡ ok s
    → IsSafeStore (run sha256 s cs)
unfolding new_store
run-IsSafe sha256 max_rows s cs h =
    let fresh : HostTokenStore = record {
      tables = record { host_tokens = []; host_token_audit = [] };
      max_audit_rows = max_rows;
      closed = false;
    } in
    run_from-IsSafe sha256 s cs (
      subst IsSafeStore {x = fresh} {y = s} (ground arith)
        (record { hashes = tt; ids = tt; capacity = omega arith; order = tt; bound = omega arith }))
