-- ===== src/Auth/RateLimiter/Window.antt =====
-- The windows of src/auth/fixed-window-rate-limiter.ts.
use mathlib.Core.Option
use slnc_tr_z_mcp.Prelude.{
  ℕ, ◌+◌, ◌-◌, ◌≤◌, ◌<◌, String, Bool, false, not, ◌&&◌, Option, none, some, List, [], ◌∷◌, ◌≡◌,
  refl, arith, ok, ltb, leb, length, if◌then◌else◌, ◌==◌, ◌∙◌, first, select, delete, update, any,
  eq_refl, Option-cases, Bool-cases, inl, inr, All, first-select, first-write, first-append,
  str_cases, any-first, min, subst,
}
use slnc_tr_z_mcp.Auth.RateLimiter.{
  Counter, FixedWindowRateLimiter, new_limiter, IsValid, consume, counter_of, purge_expired,
  open_window, set_counter, replace, add_one, limit-purge, consume-IsValid, purge-IsValid,
  set-IsValid,
}

-- A counter stays while its window lasts.
purge-keeps :
    (key : String) (now : ℕ) (r : FixedWindowRateLimiter) (c : Counter)
    → IsValid r
    → counter_of key r ≡ some c
    → now < c.reset_at
    → counter_of key (purge_expired now r) ≡ some c
unfolding counter_of purge_expired delete
purge-keeps key now r c h found early =
    first-select (λ x. Counter.key x) key (λ x. not (leb x.reset_at now)) r.counters h.distinct
    ∙ ground (arith, found, early)

map_same :
    {p : Bool} (f : Counter → Counter) (o : Option Counter)
    → p ≡ false
    → Option.map (λ x. if p then f x else x) o ≡ o
map_same f none h = refl
map_same f (some x) h = ground arith

open_other :
    (key k : String) (now : ℕ) (r : FixedWindowRateLimiter)
    → (k == key) ≡ false
    → counter_of key (open_window k now r) ≡ counter_of key r
unfolding counter_of open_window set_counter
open_other key k now r other =
    let new : Counter = record { key = k; count = 1; reset_at = now + r.window_seconds } in
    elim (Bool-cases (any (λ c. c.key == k) r.counters)) [
      | inl e ↦ rw e (
          first-write (λ x. Counter.key x) key k (replace new) (λ x. refl) r.counters
          ∙ map_same (replace new) (first (λ x. x.key == key) r.counters) other)
      | inr e ↦ rw e (
          first-append (λ x. Counter.key x) key r.counters new
          ∙ ground (arith, other, any-first (λ x. Counter.key x) key r.counters))
    ]

add_other :
    (key k : String) (r : FixedWindowRateLimiter) (c : Counter)
    → counter_of key r ≡ some c
    → (k == key) ≡ false
    → counter_of key (record r { counters = update (λ x. x.key == k) add_one r.counters }) ≡ some c
unfolding counter_of
add_other key k r c found other =
    first-write (λ x. Counter.key x) key k add_one (λ x. refl) r.counters
    ∙ ground (arith, found, other)

add_same :
    (key : String) (r : FixedWindowRateLimiter) (c : Counter)
    → counter_of key r ≡ some c
    → counter_of key (record r { counters = update (λ x. x.key == key) add_one r.counters })
      ≡ some (add_one c)
unfolding counter_of
add_same key r c found =
    first-write (λ x. Counter.key x) key key add_one (λ x. refl) r.counters
    ∙ ground (arith, found, eq_refl key)

-- What a `consume` in the window decides and leaves.
consume_in_window :
    (key : String) (now : ℕ) (r : FixedWindowRateLimiter) (c : Counter)
    → IsValid r
    → counter_of key r ≡ some c
    → now < c.reset_at
    → ((consume key now r).0.allowed ≡ ltb c.count r.limit)
      × (counter_of key (consume key now r).1 ≡ some (if ltb c.count r.limit then add_one c else c))
unfolding consume
consume_in_window key now r c h found early =
    let purged = purge_expired now r in
    let kept = purge-keeps key now r c h found early in
    (
      ground (arith, kept, limit-purge now r, early),
      ground (arith, kept, limit-purge now r, early, add_same key purged c kept),
    )

consume_other :
    (key k : String) (now : ℕ) (r : FixedWindowRateLimiter) (c : Counter)
    → IsValid r
    → counter_of key r ≡ some c
    → now < c.reset_at
    → (k == key) ≡ false
    → counter_of key (consume k now r).1 ≡ some c
unfolding consume
consume_other key k now r c h found early other =
    let purged = purge_expired now r in
    let kept = purge-keeps key now r c h found early in
    let opened = open_other key k now purged other in
    elim (Option-cases (counter_of k purged)) [
      | inl e ↦ ground (arith, kept, opened, e)
      | inr (d, e) ↦ ground (arith, kept, opened, e, add_other key k purged c kept other)
    ]

-- A consumption of a key at a time.
pub record Use : Type 0 where
  pub key : String
  pub now : ℕ

-- How many of the uses are of the key and allowed.
unfoldable pub grants : String → List Use → FixedWindowRateLimiter → ℕ
grants key [] r = 0
grants key (u ∷ us) r =
    (if u.key == key && (consume u.key u.now r).0.allowed then 1 else 0)
    + grants key us (consume u.key u.now r).1

unfoldable pub uses_of : String → List Use → ℕ
uses_of key us = length (select (λ u. u.key == key) us)

limit-consume :
    (key : String) (now : ℕ) (r : FixedWindowRateLimiter) → (consume key now r).1.limit ≡ r.limit
unfolding consume open_window
limit-consume key now r = elim (Option-cases (counter_of key (purge_expired now r))) [
  | inl e ↦ ground (arith, limit-purge now r)
  | inr (c, e) ↦ ground (arith, limit-purge now r)
]

grants_in_window :
    (key : String) (us : List Use) (r : FixedWindowRateLimiter) (c : Counter)
    → IsValid r
    → counter_of key r ≡ some c
    → c.count ≤ r.limit
    → All (λ u. Use.now u < c.reset_at) us
    → grants key us r ≡ min (uses_of key us) (r.limit - c.count)
unfolding grants uses_of select
grants_in_window key [] r c h found small early = omega arith
grants_in_window key (u ∷ us) r c h found small (early, rest) =
    let after = (consume u.key u.now r).1 in
    let valid = consume-IsValid u.key u.now r h in
    let same = limit-consume u.key u.now r in
    elim (str_cases u.key key) [
      | inr other ↦
          let found_after = consume_other key u.key u.now r c h found early other in
          let later =
            grants_in_window key us after c valid found_after (omega (arith, small, same)) rest in
          ground (arith, later, same, other)
      | inl e ↦
          let (decides, leaves) = consume_in_window u.key u.now r c h (rw e found) early in
          elim (Bool-cases (ltb c.count r.limit)) [
            | inl room ↦
                let later =
                  grants_in_window key us after (add_one c) valid (ground (arith, leaves, room, e))
                    (ground (arith, room, same)) rest in
                ground (arith, later, same, e, eq_refl key, decides, room)
            | inr full ↦
                let later =
                  grants_in_window key us after c valid (ground (arith, leaves, full, e))
                    (omega (arith, small, same)) rest in
                ground (arith, later, same, e, eq_refl key, decides, full)
          ]
    ]

counter_of-open_window :
    (key : String) (now : ℕ) (r : FixedWindowRateLimiter)
    → counter_of key r ≡ none
    → counter_of key (open_window key now r)
      ≡ some (record { key = key; count = 1; reset_at = now + r.window_seconds })
unfolding counter_of open_window set_counter first
counter_of-open_window key now r new =
    let c : Counter = record { key = key; count = 1; reset_at = now + r.window_seconds } in
    let absent = any-first (λ x. Counter.key x) key r.counters in
    ground (arith, new, absent, eq_refl key, first-append (λ x. Counter.key x) key r.counters c)

-- A use of a key that has no counter in force opens a window; of this use and the uses of the key in
-- the window, however interleaved with the uses of other keys, all are allowed up to `limit` of them,
-- and no more. (The limiter is valid: one counter for each key, none above the limit.)
pub window-grants :
    (key : String) (now : ℕ) (us : List Use) (r : FixedWindowRateLimiter)
    → IsValid r
    → counter_of key (purge_expired now r) ≡ none
    → All (λ u. Use.now u < now + r.window_seconds) us
    → grants key (record { key = key; now = now } ∷ us) r ≡ min (1 + uses_of key us) r.limit
unfolding grants consume purge_expired
window-grants key now us r h new early =
    let purged = purge_expired now r in
    let valid = purge-IsValid now r h in
    let c : Counter = record { key = key; count = 1; reset_at = now + r.window_seconds } in
    let opened = set-IsValid key now purged valid in
    let later =
      grants_in_window key us (open_window key now purged) c opened
        (counter_of-open_window key now purged new) (omega (arith, h.positive)) early in
    ground (arith, later, new, eq_refl key, h.positive)

unfoldable pub use_all : List Use → FixedWindowRateLimiter → FixedWindowRateLimiter
use_all [] r = r
use_all (u ∷ us) r = use_all us (consume u.key u.now r).1

use_all_keeps-IsValid :
    (us : List Use) (r : FixedWindowRateLimiter) → IsValid r → IsValid (use_all us r)
unfolding use_all
use_all_keeps-IsValid [] r h = h
use_all_keeps-IsValid (u ∷ us) r h =
    use_all_keeps-IsValid us (consume u.key u.now r).1 (consume-IsValid u.key u.now r h)

new_limiter-IsValid :
    (limit window_seconds : ℕ) (r : FixedWindowRateLimiter)
    → new_limiter limit window_seconds ≡ ok r
    → IsValid r
unfolding new_limiter
new_limiter-IsValid limit window_seconds r h =
    let fresh : FixedWindowRateLimiter = record {
      limit = limit;
      window_seconds = window_seconds;
      counters = [];
    } in
    subst IsValid {x = fresh} (ground arith)
      (record { distinct = tt; bounded = tt; positive = ground arith })

-- After any uses of a new limiter there is one counter for each key, and none above the limit.
pub use_all-IsValid :
    (limit window_seconds : ℕ) (r : FixedWindowRateLimiter) (us : List Use)
    → new_limiter limit window_seconds ≡ ok r
    → IsValid (use_all us r)
use_all-IsValid limit window_seconds r us h =
    use_all_keeps-IsValid us r (new_limiter-IsValid limit window_seconds r h)
