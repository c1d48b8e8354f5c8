-- ===== src/Auth/Grants/Replayed.antt =====
-- A refresh token of the grant store (src/auth/oauth-grant-store.ts) that is presented again after its
-- rotation.
use slnc_tr_z_mcp.Prelude.{
  ◌⊎◌, ℕ, String, Bool, true, false, not, ◌&&◌, Option, none, some, List, [], ◌∷◌, ◌≡◌, arith, refl,
  ok, leb, ◌==◌, first, select, delete, any, Bool-cases, inl, inr, any-select, first-select,
  Distinct, any-first, hex_of_length,
}
use slnc_tr_z_mcp.Auth.Grants.{
  delivery_of, GrantTables, GrantRow, TokenRow, HistoryRow, TokenKind, pruned_rows, has_grant,
  has_expired, delete_grants, without_expired, no_token, max_time,
}
use slnc_tr_z_mcp.Auth.Grants.Lookup.{
  record_of, find_live, find_retired, grant_schema, grant_from_row, retired_row, is_live,
  is_retired,
}
use slnc_tr_z_mcp.Auth.Grants.Changes.{within_ceiling, history_allowed}
use slnc_tr_z_mcp.Auth.Grants.Owned.{grant_key}
use slnc_tr_z_mcp.Auth.Grants.Sound.{Distinct-delete, history_key}
use slnc_tr_z_mcp.Auth.Grants.Rotated.{is_token}

-- A key that is among the rows kept is not among those deleted.
kept_apart :
    (id : String) (p : GrantRow → Bool) (gs : List GrantRow)
    → Distinct grant_key gs
    → any (λ g. g.grant_id == id) (delete p gs) ≡ true
    → any (λ g. g.grant_id == id) (select p gs) ≡ false
unfolding delete
kept_apart id p gs h kept = ground (
  arith,
  kept,
  first-select grant_key id p gs h,
  first-select grant_key id (λ g. not (p g)) gs h,
  any-first grant_key id (select p gs),
  any-first grant_key id (select (λ g. not (p g)) gs),
)

first_passing :
    (hash : String) (q : HistoryRow → Bool) (hs : List HistoryRow) (h : HistoryRow)
    → first (λ x. x.token_hash == hash) hs ≡ some h
    → q h ≡ true
    → first (λ x. x.token_hash == hash && q x) hs ≡ some h
unfolding first
first_passing hash q [] h e good = absurd (ground arith)
first_passing hash q (x ∷ xs) h e good = ground (arith, first_passing hash q xs h)

pub kept_first {ℓ} :
    {A : Type ℓ} (key : A → String) (id : String) (q : A → Bool) (xs : List A) (x : A)
    → Distinct key xs
    → first (λ y. key y == id) xs ≡ some x
    → q x ≡ false
    → first (λ y. key y == id) (delete q xs) ≡ some x
unfolding delete
kept_first key id q xs x h found kept = ground (arith, first-select key id (λ y. not (q y)) xs h)

-- A row that has not expired, and whose grant stays, stays in the history.
pub history_kept :
    (hash : String) (now : ℕ) (t : GrantTables) (row : HistoryRow)
    → Distinct history_key t.refresh_history
    → Distinct grant_key t.grants
    → first (λ h. h.token_hash == hash) t.refresh_history ≡ some row
    → has_expired now row.expires_at ≡ false
    → has_grant row.grant_id (pruned_rows now t) ≡ true
    → first (λ h. h.token_hash == hash) (pruned_rows now t).refresh_history ≡ some row
unfolding pruned_rows delete_grants
history_kept hash now t row distinct ids found fresh there =
    let q : HistoryRow → Bool = λ r. has_expired now r.expires_at in
    kept_first history_key hash _ (delete q t.refresh_history) row
      (Distinct-delete history_key q t.refresh_history distinct)
      (kept_first history_key hash q t.refresh_history row distinct found fresh)
      (kept_apart row.grant_id (no_token (without_expired now t).tokens) t.grants ids there)

-- A grant that stays is the one that was there.
pub grant_kept :
    (id : String) (now : ℕ) (t : GrantTables) (g : GrantRow)
    → Distinct grant_key t.grants
    → first (λ x. x.grant_id == id) t.grants ≡ some g
    → has_grant id (pruned_rows now t) ≡ true
    → first (λ x. x.grant_id == id) (pruned_rows now t).grants ≡ some g
unfolding pruned_rows delete_grants delete
grant_kept id now t g ids found there =
    let p = no_token (without_expired now t).tokens in
    ground (
      arith,
      there,
      first-select grant_key id (λ x. not (p x)) t.grants ids,
      any-first grant_key id (select (λ x. not (p x)) t.grants),
    )

first_left :
    (hash : String) (q : HistoryRow → Bool) (hs : List HistoryRow) (row : HistoryRow)
    → Distinct history_key hs
    → (first (λ h. h.token_hash == hash) hs ≡ none)
      ⊎ (first (λ h. h.token_hash == hash) hs ≡ some row)
    → (first (λ h. h.token_hash == hash) (delete q hs) ≡ none)
      ⊎ (first (λ h. h.token_hash == hash) (delete q hs) ≡ some row)
unfolding delete
first_left hash q hs row distinct h = elim (Bool-cases (q row)) [
  | inl e ↦ inl (ground (arith, h, e, first-select history_key hash (λ x. not (q x)) hs distinct))
  | inr e ↦ ground (arith, h, e, first-select history_key hash (λ x. not (q x)) hs distinct)
]

-- The pruned history has the row, or none of its hash.
pub pruned_history :
    (hash : String) (now : ℕ) (t : GrantTables) (row : HistoryRow)
    → Distinct history_key t.refresh_history
    → first (λ h. h.token_hash == hash) t.refresh_history ≡ some row
    → (first (λ h. h.token_hash == hash) (pruned_rows now t).refresh_history ≡ none)
      ⊎ (first (λ h. h.token_hash == hash) (pruned_rows now t).refresh_history ≡ some row)
unfolding pruned_rows delete_grants
pruned_history hash now t row distinct found =
    let q : HistoryRow → Bool = λ r. has_expired now r.expires_at in
    first_left hash _ (delete q t.refresh_history) row
      (Distinct-delete history_key q t.refresh_history distinct)
      (first_left hash q t.refresh_history row distinct (inr found))

none_retired :
    (hash : String) (now : ℕ) (hs : List HistoryRow)
    → first (λ h. h.token_hash == hash) hs ≡ none
    → first (is_retired hash now) hs ≡ none
unfolding first
none_retired hash now [] h = refl
none_retired hash now (x ∷ xs) h = ground (arith, none_retired hash now xs)

not_live :
    (hash : String) (kind : TokenKind) (now : ℕ) (rs : List TokenRow)
    → any (λ r. r.token_hash == hash) rs ≡ false
    → first (is_live hash kind now) rs ≡ none
unfolding any first
not_live hash kind now [] h = refl
not_live hash kind now (r ∷ rs) h = ground (arith, not_live hash kind now rs)

token_gone :
    (hash : String) (now : ℕ) (t : GrantTables)
    → is_token hash t ≡ false
    → is_token hash (pruned_rows now t) ≡ false
unfolding pruned_rows delete_grants delete
token_gone hash now t h =
    any-select (λ r. r.token_hash == hash) _ (without_expired now t).tokens
      (any-select (λ r. r.token_hash == hash) _ t.tokens h)

module _ (parse_url : String → Option String) where
  pub not_found :
      (hash : String) (kind : TokenKind) (now : ℕ) (t : GrantTables)
      → is_token hash t ≡ false
      → leb now max_time ≡ true
      → find_live parse_url hash kind now (pruned_rows now t) ≡ ok none
  unfolding find_live
  not_found hash kind now t gone valid =
      ground (arith, not_live hash kind now (pruned_rows now t).tokens (token_gone hash now t gone))

  retired_row-ok :
      (row : HistoryRow) (g : GrantRow) (url nonce : String) (t : GrantTables)
      → grant_schema parse_url g ≡ some url
      → within_ceiling g ≡ true
      → history_allowed (some g.profile_ceiling) row ≡ true
      → row.nonce ≡ some nonce
      → hex_of_length 64 nonce ≡ true
      → retired_row parse_url row g t
        ≡ ok (record {
          grant = record {
            grant = record_of g url (delivery_of g.grant_id t);
            expires_at = row.expires_at;
          };
          nonce = row.nonce;
          issued_at = row.superseded_at;
        })
  unfolding retired_row grant_from_row
  retired_row-ok row g url nonce t schema within allowed is hex = ground (arith, is, hex)

  pub find_retired-ok :
      (hash url nonce : String) (now : ℕ) (t : GrantTables) (row : HistoryRow) (g : GrantRow)
      → first (λ h. h.token_hash == hash) t.refresh_history ≡ some row
      → has_expired now row.expires_at ≡ false
      → first (λ x. x.grant_id == row.grant_id) t.grants ≡ some g
      → leb now max_time ≡ true
      → grant_schema parse_url g ≡ some url
      → within_ceiling g ≡ true
      → history_allowed (some g.profile_ceiling) row ≡ true
      → row.nonce ≡ some nonce
      → hex_of_length 64 nonce ≡ true
      → find_retired parse_url hash now t
        ≡ ok (
            some (record {
              grant = record {
                grant = record_of g url (delivery_of g.grant_id t);
                expires_at = row.expires_at;
              };
              nonce = row.nonce;
              issued_at = row.superseded_at;
            }))
  unfolding find_retired
  find_retired-ok hash url nonce now t row g found fresh owner valid schema within allowed is hex =
      ground (
        arith,
        first_passing hash (λ h. not (has_expired now h.expires_at)) t.refresh_history row found
            (ground (arith, fresh)),
        retired_row-ok row g url nonce t schema within allowed is hex,
      )

  pub find_retired-none :
      (hash : String) (now : ℕ) (t : GrantTables)
      → first (λ h. h.token_hash == hash) t.refresh_history ≡ none
      → leb now max_time ≡ true
      → find_retired parse_url hash now t ≡ ok none
  unfolding find_retired
  find_retired-none hash now t missing valid =
      ground (arith, none_retired hash now t.refresh_history missing)
