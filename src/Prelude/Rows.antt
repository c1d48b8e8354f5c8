-- ===== src/Prelude/Rows.antt =====
-- The first row of a table that passes a test, after an insertion and a deletion.
use mathlib.Core.Path.{◌≡◌, refl}
use mathlib.Core.Logic.{inl, inr}
use mathlib.Core.Bool.{Bool, true, false}
use mathlib.Core.Option.{some}
use mathlib.Core.List.{List, [], ◌∷◌, ◌++◌}
use native.Mathlib.Omega.{arith}
use slnc_tr_z_mcp.Prelude.Tests.{Bool-cases}
use slnc_tr_z_mcp.Prelude.Lists.{first, select, delete, any}

module _ {ℓ} {A : Type ℓ} where
  pub first-append_row :
      (p : A → Bool) (xs : List A) (x : A) (ys : List A)
      → any p xs ≡ false
      → p x ≡ true
      → first p (xs ++ x ∷ ys) ≡ some x
  unfolding any first
  first-append_row p [] x ys h px = ground arith
  first-append_row p (z ∷ zs) x ys h px = ground (arith, first-append_row p zs x ys)

  -- The first row that passes is still the first one when it is not deleted.
  pub first-delete_kept :
      (p q : A → Bool) (xs : List A) (x : A)
      → first p xs ≡ some x
      → q x ≡ false
      → first p (delete q xs) ≡ some x
  unfolding first delete select
  first-delete_kept p q [] x found kept = absurd (ground arith)
  first-delete_kept p q (y ∷ ys) x found kept = elim (Bool-cases (p y)) [
    | inl e ↦ ground (arith, e)
    | inr e ↦ ground (arith, e, first-delete_kept p q ys x)
  ]

  pub first_passes : (p : A → Bool) (xs : List A) (x : A) → first p xs ≡ some x → p x ≡ true
  unfolding first
  first_passes p [] x e = absurd (ground arith)
  first_passes p (y ∷ ys) x e = ground (arith, first_passes p ys x)

  pub any-first_found :
      (p q : A → Bool) (xs : List A) (x : A) → first p xs ≡ some x → q x ≡ true → any q xs ≡ true
  unfolding first any
  any-first_found p q [] x found passes = absurd (ground arith)
  any-first_found p q (y ∷ ys) x found passes = elim (Bool-cases (p y)) [
    | inl e ↦ ground (arith, e)
    | inr e ↦ ground (arith, e, any-first_found p q ys x)
  ]

  pub any-select_none :
      (p q : A → Bool)
      → ((x : A) → p x ≡ true → q x ≡ false)
      → (xs : List A) → any q (select p xs) ≡ false
  unfolding any select
  any-select_none p q apart [] = refl
  any-select_none p q apart (x ∷ xs) = ground (arith, apart x, any-select_none p q apart xs)

  pub first-append_found :
      (p : A → Bool) (xs : List A) (x : A) (ys : List A)
      → first p xs ≡ some x
      → first p (xs ++ ys) ≡ some x
  unfolding first
  first-append_found p [] x ys found = absurd (ground arith)
  first-append_found p (z ∷ zs) x ys found = ground (arith, first-append_found p zs x ys)

  pub any-implied :
      (p q : A → Bool)
      → ((x : A) → p x ≡ true → q x ≡ true)
      → (xs : List A) → any q xs ≡ false
      → any p xs ≡ false
  unfolding any
  any-implied p q implies [] h = refl
  any-implied p q implies (x ∷ xs) h = ground (arith, implies x, any-implied p q implies xs)
