-- ===== src/Auth/HostTokens/Safety.antt =====
-- The invariant of the host token store (src/auth/host-token-store.ts).
use slnc_tr_z_mcp.Prelude.{
  ℕ, zero, suc, ◌+◌, ◌≤◌, String, Bool, false, not, ◌||◌, List, [], ◌∷◌, ◌++◌, ◌≡◌, refl, arith,
  leb, length, ◌==◌, select, delete, update, any, All, All-map, All-select, Distinct,
  Distinct-select, Distinct-update, Distinct-append_one, Bool-cases, inl, inr, length-select-le,
  length-update, length-append,
}
use slnc_tr_z_mcp.Auth.HostTokens.{
  HostTokenRow, AuditRow, AuditEvent, AuditActor, Tables, next_event_id, event_id_at, audit, touch,
}

abbrev pub hash_key : HostTokenRow → String
hash_key r = r.token_hash

abbrev pub id_key : HostTokenRow → String
id_key r = r.token_id

-- Newest first, each with a greater identifier than all after it.
abbrev pub Descending : List AuditRow → Type 0
Descending [] = Unit
Descending (r ∷ rs) = All (λ x. leb r.event_id x.event_id ≡ false) rs × Descending rs

-- Hashes and identifiers are distinct, there are at most 64 tokens, and the audit is in order and
-- within its bound.
pub record IsSafe (max_rows : ℕ) (t : Tables) : Type 0 where
  pub hashes : Distinct hash_key t.host_tokens
  pub ids : Distinct id_key t.host_tokens
  pub capacity : length t.host_tokens ≤ 64
  pub order : Descending t.host_token_audit
  pub bound : length t.host_token_audit ≤ max_rows

none_left :
    (bound : ℕ) (rs : List AuditRow)
    → All (λ x. leb bound x.event_id ≡ false) rs
    → length (delete (λ r. leb r.event_id bound) rs) ≡ 0
unfolding delete select
none_left bound [] h = refl
none_left bound (r ∷ rs) (h, hs) = ground (arith, h, none_left bound rs hs)

newest_kept :
    (n : ℕ) (rs : List AuditRow)
    → Descending rs
    → length (delete (λ r. leb r.event_id (event_id_at n rs)) rs) ≤ n
unfolding delete select
newest_kept n [] h = omega arith
newest_kept zero (r ∷ rs) (h, d) = ground (arith, none_left r.event_id rs h)
newest_kept (suc n) (r ∷ rs) (h, d) = ground (arith, newest_kept n rs d)

Descending-select :
    (q : AuditRow → Bool) (rs : List AuditRow) → Descending rs → Descending (select q rs)
unfolding select
Descending-select q [] h = tt
Descending-select q (r ∷ rs) (h, d) = elim (Bool-cases (q r)) [
  | inl e ↦
      rw e (All-select (λ x. leb r.event_id x.event_id ≡ false) q rs h, Descending-select q rs d)
  | inr e ↦ rw e (Descending-select q rs d)
]

next_Descending :
    (rs : List AuditRow) → Descending rs → All (λ x. leb (next_event_id rs) x.event_id ≡ false) rs
next_Descending [] h = tt
next_Descending (r ∷ rs) (h, d) = (
  ground arith,
  All-map (λ x. leb r.event_id x.event_id ≡ false) (λ x. leb (r.event_id + 1) x.event_id ≡ false)
      (λ x p. ground (arith, p)) rs h,
)

-- Writing the audit keeps the rest.
pub audit-IsSafe :
    (max_rows : ℕ) (id : String) (event : AuditEvent) (actor : AuditActor) (now : ℕ) (t : Tables)
    → IsSafe max_rows t
    → IsSafe max_rows (audit max_rows id event actor now t)
unfolding audit delete
audit-IsSafe max_rows id event actor now t h =
    let row : AuditRow = record {
      event_id = next_event_id t.host_token_audit;
      token_id = id;
      event = event;
      actor = actor;
      at = now;
    } in
    let rows = row ∷ t.host_token_audit in
    let down : Descending rows = (next_Descending t.host_token_audit h.order, h.order) in
    record {
      hashes = h.hashes;
      ids = h.ids;
      capacity = h.capacity;
      order = Descending-select (λ r. not (leb r.event_id (event_id_at max_rows rows))) rows down;
      bound = newest_kept max_rows rows down;
    }

pub delete-IsSafe :
    (max_rows : ℕ) (p : HostTokenRow → Bool) (t : Tables)
    → IsSafe max_rows t
    → IsSafe max_rows (record t { host_tokens = delete p t.host_tokens })
unfolding delete
delete-IsSafe max_rows p t h = record {
  hashes = Distinct-select hash_key (λ r. not (p r)) t.host_tokens h.hashes;
  ids = Distinct-select id_key (λ r. not (p r)) t.host_tokens h.ids;
  capacity = omega (arith, h.capacity, length-select-le (λ r. not (p r)) t.host_tokens);
  order = h.order;
  bound = h.bound;
}

pub touch-IsSafe :
    (max_rows : ℕ) (p : HostTokenRow → Bool) (at : ℕ) (t : Tables)
    → IsSafe max_rows t
    → IsSafe max_rows (record t { host_tokens = update p (touch at) t.host_tokens })
touch-IsSafe max_rows p at t h = record {
  hashes = Distinct-update hash_key p (touch at) (λ r. refl) t.host_tokens h.hashes;
  ids = Distinct-update id_key p (touch at) (λ r. refl) t.host_tokens h.ids;
  capacity = omega (arith, h.capacity, length-update p (touch at) t.host_tokens);
  order = h.order;
  bound = h.bound;
}

pub any_or :
    (p q : HostTokenRow → Bool) (rs : List HostTokenRow)
    → any (λ r. p r || q r) rs ≡ false
    → (any p rs ≡ false) × (any q rs ≡ false)
unfolding any
any_or p q [] h = (refl, refl)
any_or p q (r ∷ rs) h =
    let rest = any_or p q rs (ground arith) in (ground (arith, rest.0), ground (arith, rest.1))

pub append-IsSafe :
    (max_rows : ℕ) (row : HostTokenRow) (t : Tables)
    → leb 64 (length t.host_tokens) ≡ false
    → any (λ r. r.token_hash == row.token_hash || r.token_id == row.token_id) t.host_tokens ≡ false
    → IsSafe max_rows t
    → IsSafe max_rows (record t { host_tokens = t.host_tokens ++ row ∷ [] })
append-IsSafe max_rows row t room fresh h =
    let (new_hash, new_id) =
      any_or (λ r. r.token_hash == row.token_hash) (λ r. r.token_id == row.token_id) t.host_tokens
        fresh in
    record {
      hashes = Distinct-append_one hash_key t.host_tokens row new_hash h.hashes;
      ids = Distinct-append_one id_key t.host_tokens row new_id h.ids;
      capacity = ground (arith, room, length-append t.host_tokens (row ∷ []));
      order = h.order;
      bound = h.bound;
    }
