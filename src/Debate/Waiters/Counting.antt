-- ===== src/Debate/Waiters/Counting.antt =====
-- The registrations that a signal of the registry (src/debate/waiters.ts) counts.
use slnc_tr_z_mcp.Prelude.{
  ℕ, zero, suc, ◌+◌, Bool, true, false, ◌&&◌, some, List, [], ◌∷◌, ◌≡◌, arith, refl, length, ltb,
  eqb, if◌then◌else◌, ◌==◌, select, All, subst,
}
use slnc_tr_z_mcp.Debate.Waiters.{DebateSignal, WaitRegistration, registration_at, deactivate}

-- The registration is active and has the signal.
abbrev pub waits_on : DebateSignal → WaitRegistration → Bool
waits_on s r = r.active && (r.debate_id == s.debate_id && eqb r.serial s.serial)

abbrev pub count : DebateSignal → List WaitRegistration → ℕ
count s rs = length (select (waits_on s) rs)

pub count-deactivate :
    (s : DebateSignal) (n : ℕ) (rs : List WaitRegistration) (r : WaitRegistration)
    → registration_at n rs ≡ some r
    → (if waits_on s r then 1 else 0) + count s (deactivate n rs) ≡ count s rs
unfolding registration_at deactivate select
count-deactivate s n [] r e = absurd (ground arith)
count-deactivate s zero (x ∷ xs) r e = ground arith
count-deactivate s (suc n) (x ∷ xs) r e = ground (arith, count-deactivate s n xs r)

pub count-none :
    (s : DebateSignal) (rs : List WaitRegistration)
    → All (λ r. ltb r.serial s.serial ≡ true) rs
    → count s rs ≡ 0
unfolding select
count-none s [] h = refl
count-none s (r ∷ rs) (low, h) = ground (arith, low, count-none s rs h)

pub count-zero-All :
    (s : DebateSignal) (rs : List WaitRegistration)
    → count s rs ≡ 0
    → All (λ r. waits_on s r ≡ false) rs
unfolding select
count-zero-All s [] e = tt
count-zero-All s (r ∷ rs) e = (ground arith, count-zero-All s rs (ground arith))

module _ {κ} (P : WaitRegistration → Type κ) where
  pub All-deactivate :
      ((r : WaitRegistration) → P r → P (record r { active = false }))
      → (n : ℕ) (rs : List WaitRegistration) → All P rs
      → All P (deactivate n rs)
  unfolding deactivate
  All-deactivate f n [] h = tt
  All-deactivate f zero (r ∷ rs) (p, h) = (f r p, h)
  All-deactivate f (suc n) (r ∷ rs) (p, h) = (p, All-deactivate f n rs h)

  pub All-registration_at :
      (n : ℕ) (rs : List WaitRegistration) (r : WaitRegistration)
      → All P rs
      → registration_at n rs ≡ some r
      → P r
  unfolding registration_at
  All-registration_at n [] r h e = absurd (ground arith)
  All-registration_at zero (x ∷ xs) r (p, h) e = subst P {x = x} {y = r} (ground arith) p
  All-registration_at (suc n) (x ∷ xs) r (p, h) e = All-registration_at n xs r h e
