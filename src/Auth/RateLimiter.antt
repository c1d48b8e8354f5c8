-- ===== src/Auth/RateLimiter.antt =====
-- src/auth/fixed-window-rate-limiter.ts: the fixed-window rate limiter and its operations.
pub mod Window
use slnc_tr_z_mcp.Prelude.{
  ℕ, ◌+◌, ◌-◌, ◌≤◌, ◌<◌, max, String, Bool, true, false, not, ◌&&◌, ◌||◌, Option, none, some, List,
  [], ◌∷◌, ◌++◌, ◌≡◌, ◌≢◌, refl, arith, Result, ok, err, ◌>>=◌, ◌>>◌, throw_if, ltb, leb, length,
  if◌then◌else◌, ◌==◌, ◌∙◌, first, select, delete, update, any, eq_iff, eq_refl, Option-cases,
  Bool-cases, inl, inr, All, All-select, All-update, All-append_one, All-first, Distinct,
  Distinct-select, Distinct-update, Distinct-append_one, first-select, first-write, first-append,
  passing, any-select, str_cases, any-first, str_ne, first_key, first-IsOnly, All-both,
  All-update_to, subst, ap, select-select,
}

pub record Counter : Type 0 where
  pub key : String
  pub count : ℕ
  pub reset_at : ℕ

pub record RateLimitDecision : Type 0 where
  pub allowed : Bool
  pub retry_after_seconds : ℕ

-- `counters` is the `Map`, in the order of insertion.
pub record FixedWindowRateLimiter : Type 0 where
  pub limit : ℕ
  pub window_seconds : ℕ
  pub counters : List Counter

pub data RateLimiterError : Type 0 where
  range_error : RateLimiterError

abbrev pub is_positive_safe : ℕ → Bool
is_positive_safe n = leb 1 n && leb n 9007199254740991

unfoldable pub new_limiter : ℕ → ℕ → Result RateLimiterError FixedWindowRateLimiter
new_limiter limit window_seconds = do
  throw_if (not (is_positive_safe limit)) range_error
  throw_if (not (is_positive_safe window_seconds)) range_error
  ok (record { limit = limit; window_seconds = window_seconds; counters = [] })

unfoldable pub purge_expired : ℕ → FixedWindowRateLimiter → FixedWindowRateLimiter
purge_expired now r = record r { counters = delete (λ c. leb c.reset_at now) r.counters }

unfoldable pub counter_of : String → FixedWindowRateLimiter → Option Counter
counter_of key r = first (λ c. c.key == key) r.counters

abbrev pub allow : RateLimitDecision
allow = record { allowed = true; retry_after_seconds = 0 }

abbrev pub deny : ℕ → Counter → RateLimitDecision
deny now c = record { allowed = false; retry_after_seconds = max 1 (c.reset_at - now) }

unfoldable pub check :
    String → ℕ → FixedWindowRateLimiter → RateLimitDecision × FixedWindowRateLimiter
check key now r =
    let purged = purge_expired now r in
    elim (counter_of key purged) [
      | none ↦ (allow, purged)
      | some c ↦
          (if leb c.reset_at now || ltb c.count r.limit
            then (allow, purged)
            else (deny now c, purged))
    ]

abbrev pub replace : Counter → Counter → Counter
replace new c = record c { count = new.count; reset_at = new.reset_at }

-- `counters.set(key, ...)`: a key that is there keeps its place.
unfoldable pub set_counter : Counter → List Counter → List Counter
set_counter new cs =
    if any (λ c. c.key == new.key) cs
    then update (λ c. c.key == new.key) (replace new) cs
    else cs ++ new ∷ []

unfoldable pub open_window : String → ℕ → FixedWindowRateLimiter → FixedWindowRateLimiter
unfolding set_counter
open_window key now r = record r {
  counters =
      set_counter (record { key = key; count = 1; reset_at = now + r.window_seconds }) r.counters;
}

abbrev pub add_one : Counter → Counter
add_one c = record c { count = c.count + 1 }

unfoldable pub consume :
    String → ℕ → FixedWindowRateLimiter → RateLimitDecision × FixedWindowRateLimiter
unfolding open_window
consume key now r =
    let purged = purge_expired now r in
    elim (counter_of key purged) [
      | none ↦ (allow, open_window key now purged)
      | some c ↦
          (if leb c.reset_at now
            then (allow, open_window key now purged)
            else if leb r.limit c.count
            then (deny now c, purged)
            else (
              allow,
              record purged { counters = update (λ x. x.key == key) add_one purged.counters },
            ))
    ]

-- One entry for each key, and no count above the limit.
pub record IsValid (r : FixedWindowRateLimiter) : Type 0 where
  pub distinct : Distinct (λ c. Counter.key c) r.counters
  pub bounded : All (λ c. leb c.count r.limit ≡ true) r.counters
  pub positive : 1 ≤ r.limit

pub purge-IsValid :
    (now : ℕ) (r : FixedWindowRateLimiter) → IsValid r → IsValid (purge_expired now r)
unfolding purge_expired delete
purge-IsValid now r h = record {
  distinct =
      Distinct-select (λ c. Counter.key c) (λ c. not (leb c.reset_at now)) r.counters h.distinct;
  bounded =
      All-select (λ c. leb c.count r.limit ≡ true) (λ c. not (leb c.reset_at now)) r.counters
        h.bounded;
  positive = h.positive;
}

pub set-IsValid :
    (key : String) (now : ℕ) (r : FixedWindowRateLimiter)
    → IsValid r
    → IsValid (open_window key now r)
unfolding open_window set_counter
set-IsValid key now r h =
    let new : Counter = record { key = key; count = 1; reset_at = now + r.window_seconds } in
    let small : leb 1 r.limit ≡ true = ground (arith, h.positive) in
    elim (Bool-cases (any (λ c. c.key == key) r.counters)) [
      | inl e ↦ rw e (record {
        distinct =
            Distinct-update (λ c. Counter.key c) (λ c. c.key == key) (replace new) (λ c. refl)
              r.counters h.distinct;
        bounded =
            All-update (λ c. leb c.count r.limit ≡ true) (λ c. c.key == key) (replace new)
              (λ _ _ _. small) r.counters h.bounded;
        positive = h.positive;
      })
      | inr e ↦ rw e (record {
        distinct = Distinct-append_one (λ c. Counter.key c) r.counters new e h.distinct;
        bounded = All-append_one (λ c. leb c.count r.limit ≡ true) r.counters new h.bounded small;
        positive = h.positive;
      })
    ]

pub limit-purge : (now : ℕ) (r : FixedWindowRateLimiter) → (purge_expired now r).limit ≡ r.limit
unfolding purge_expired
limit-purge now r = refl

add-IsValid :
    (key : String) (r : FixedWindowRateLimiter) (c : Counter)
    → IsValid r
    → counter_of key r ≡ some c
    → leb r.limit c.count ≡ false
    → IsValid (record r { counters = update (λ x. x.key == key) add_one r.counters })
unfolding counter_of
add-IsValid key r c h found room =
    let only = first-IsOnly (λ x. Counter.key x) key r.counters c h.distinct found in
    let at_c = first_key (λ x. Counter.key x) key r.counters c found in
    record {
      distinct =
          Distinct-update (λ x. Counter.key x) (λ x. x.key == key) add_one (λ x. refl) r.counters
            h.distinct;
      bounded =
          All-update_to (λ x. ((x.key == c.key) ≡ true → x ≡ c) × (leb x.count r.limit ≡ true))
            (λ x. leb x.count r.limit ≡ true) (λ x. x.key == key) add_one
            (λ x e (one, _). ground (arith, one (rw at_c e), room)) (λ x e (_, small). small)
            r.counters
            (All-both (λ x. (x.key == c.key) ≡ true → x ≡ c) (λ x. leb x.count r.limit ≡ true)
              r.counters only h.bounded);
      positive = h.positive;
    }

pub consume-IsValid :
    (key : String) (now : ℕ) (r : FixedWindowRateLimiter)
    → IsValid r
    → IsValid (consume key now r).1
unfolding consume purge_expired
consume-IsValid key now r h =
    let purged = purge_expired now r in
    let valid = purge-IsValid now r h in
    elim (Option-cases (counter_of key purged)) [
      | inl e ↦
          subst IsValid {x = open_window key now purged} (ground arith)
            (set-IsValid key now purged valid)
      | inr (c, e) ↦ elim (Bool-cases (leb c.reset_at now)) [
        | inl late ↦
            subst IsValid {x = open_window key now purged} (ground arith)
              (set-IsValid key now purged valid)
        | inr early ↦ elim (Bool-cases (leb r.limit c.count)) [
          | inl full ↦ subst IsValid {x = purged} (ground arith) valid
          | inr room ↦ subst IsValid (ground arith) (add-IsValid key purged c valid e room)
        ]
      ]
    ]

check_purges :
    (key : String) (now : ℕ) (r : FixedWindowRateLimiter)
    → (check key now r).1 ≡ purge_expired now r
unfolding check
check_purges key now r = elim (Option-cases (counter_of key (purge_expired now r))) [
  | inl e ↦ ground arith
  | inr (c, e) ↦ ground arith
]

purge-purge :
    (now : ℕ) (r : FixedWindowRateLimiter)
    → purge_expired now (purge_expired now r) ≡ purge_expired now r
unfolding purge_expired delete
purge-purge now r =
    ap (λ cs. record r { counters = cs }) (select-select (λ c. not (leb c.reset_at now)) r.counters)

-- `check` gives the decision that `consume` would give, and takes nothing: the decision of a
-- `consume` after it is the same.
pub check-consume :
    (key : String) (now : ℕ) (r : FixedWindowRateLimiter)
    → ((check key now r).0 ≡ (consume key now r).0)
      × ((consume key now (check key now r).1).0 ≡ (consume key now r).0)
unfolding check consume
check-consume key now r = elim (Option-cases (counter_of key (purge_expired now r))) [
  | inl e ↦ (
    ground (arith, limit-purge now r),
    ground (arith, check_purges key now r, purge-purge now r, limit-purge now r),
  )
  | inr (c, e) ↦ (
    ground (arith, limit-purge now r),
    ground (arith, check_purges key now r, purge-purge now r, limit-purge now r),
  )
]
