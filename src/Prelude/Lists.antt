-- ===== src/Prelude/Lists.antt =====
-- Rows of a table, as a list: selection, deletion and update by a test.
use Prim.Native.Nat.{ℕ, suc, ◌+◌, ◌≤◌}
use mathlib.Core.Path.{◌≡◌, refl, ap, subst}
use mathlib.Core.Logic.{inl, inr}
use mathlib.Core.Bool.{Bool, true, false, not, ◌||◌}
use mathlib.Core.Option.{Option, none, some}
use mathlib.Core.List.{List, [], ◌∷◌, ◌++◌}
use native.Mathlib.Omega.{arith}
use slnc_tr_z_mcp.Prelude.Tests.{if◌then◌else◌, Bool-cases}

module _ {ℓ} {A : Type ℓ} where
  abbrev pub length : List A → ℕ
  length [] = 0
  length (x ∷ xs) = suc (length xs)

  pub length-append : (xs ys : List A) → length (xs ++ ys) ≡ length xs + length ys
  length-append [] ys = omega arith
  length-append (x ∷ xs) ys = omega (arith, length-append xs ys)

module _ {ℓ κ} {A : Type ℓ} (P : A → Type κ) where
  abbrev pub All : List A → Type κ
  All [] = Unit
  All (row ∷ rows) = P row × All rows

module _ {ℓ} {A : Type ℓ} where
  -- The first row that passes the test.
  unfoldable pub first : (A → Bool) → List A → Option A
  first p [] = none
  first p (x ∷ xs) = if p x then some x else first p xs

  -- The rows that pass the test, in their order.
  unfoldable pub select : (A → Bool) → List A → List A
  select p [] = []
  select p (x ∷ xs) = let rest = select p xs in if p x then x ∷ rest else rest

  unfoldable pub any : (A → Bool) → List A → Bool
  any p [] = false
  any p (x ∷ xs) = if p x then true else any p xs

  -- `DELETE ... WHERE p`.
  unfoldable pub delete : (A → Bool) → List A → List A
  unfolding select
  delete p xs = select (λ x. not (p x)) xs

  -- `UPDATE ... SET f WHERE p`.
  unfoldable pub update : (A → Bool) → (A → A) → List A → List A
  update p f [] = []
  update p f (x ∷ xs) = (if p x then f x else x) ∷ update p f xs

  unfoldable pub insert_by : (A → A → Bool) → A → List A → List A
  insert_by before x [] = x ∷ []
  insert_by before x (y ∷ ys) = if before y x then y ∷ insert_by before x ys else x ∷ y ∷ ys

  -- A stable sort: `before a b` says that `a` must stand before `b`.
  unfoldable pub sort_by : (A → A → Bool) → List A → List A
  unfolding insert_by
  sort_by before [] = []
  sort_by before (x ∷ xs) = insert_by before x (sort_by before xs)

  pub select-append :
      (p : A → Bool) (xs ys : List A) → select p (xs ++ ys) ≡ select p xs ++ select p ys
  unfolding select
  select-append p [] ys = refl
  select-append p (x ∷ xs) ys = ground (arith, select-append p xs ys)

  pub any-select : (p q : A → Bool) (xs : List A) → any p xs ≡ false → any p (select q xs) ≡ false
  unfolding any select
  any-select p q [] h = refl
  any-select p q (x ∷ xs) h = ground (arith, any-select p q xs)

  pub length-select-le : (p : A → Bool) (xs : List A) → length (select p xs) ≤ length xs
  unfolding select
  length-select-le p [] = omega arith
  length-select-le p (x ∷ xs) = ground (arith, length-select-le p xs)

  pub length-update : (p : A → Bool) (f : A → A) (xs : List A) → length (update p f xs) ≡ length xs
  unfolding update
  length-update p f [] = refl
  length-update p f (x ∷ xs) = ap suc (length-update p f xs)

  pub length-select-select-le :
      (p q : A → Bool) (xs : List A) → length (select p (select q xs)) ≤ length (select p xs)
  unfolding select
  length-select-select-le p q [] = omega arith
  length-select-select-le p q (x ∷ xs) = ground (arith, length-select-select-le p q xs)

  -- An update that makes no row pass the test does not let more rows pass.
  pub length-select-update-le :
      (p q : A → Bool) (f : A → A)
      → ((x : A) → p (f x) ≡ true → p x ≡ true)
      → (xs : List A) → length (select p (update q f xs)) ≤ length (select p xs)
  unfolding select update
  length-select-update-le p q f h [] = omega arith
  length-select-update-le p q f h (x ∷ xs) = ground (arith, h x, length-select-update-le p q f h xs)

  pub any-append : (p : A → Bool) (xs ys : List A) → any p (xs ++ ys) ≡ (any p xs || any p ys)
  unfolding any
  any-append p [] ys = refl
  any-append p (x ∷ xs) ys = ground (arith, any-append p xs ys)

  pub length-select-append_one :
      (p : A → Bool) (xs : List A) (x : A)
      → length (select p (xs ++ x ∷ [])) ≡ (if p x then 1 else 0) + length (select p xs)
  unfolding select
  length-select-append_one p [] x = ground arith
  length-select-append_one p (y ∷ ys) x = ground (arith, length-select-append_one p ys x)

module _ {ℓ κ} {A : Type ℓ} (P : A → Type κ) where
  pub All-select : (q : A → Bool) (xs : List A) → All P xs → All P (select q xs)
  unfolding select
  All-select q [] h = tt
  All-select q (x ∷ xs) (px, h) = elim (Bool-cases (q x)) [
    | inl e ↦ rw e (px, All-select q xs h)
    | inr e ↦ rw e (All-select q xs h)
  ]

  pub All-append_one : (xs : List A) (y : A) → All P xs → P y → All P (xs ++ y ∷ [])
  All-append_one [] y h py = (py, tt)
  All-append_one (x ∷ xs) y (px, h) py = (px, All-append_one xs y h py)

  pub All-update :
      (q : A → Bool) (f : A → A)
      → ((x : A) → q x ≡ true → P x → P (f x))
      → (xs : List A) → All P xs
      → All P (update q f xs)
  unfolding update
  All-update q f keeps [] h = tt
  All-update q f keeps (x ∷ xs) (px, h) = elim (Bool-cases (q x)) [
    | inl e ↦ rw e (keeps x e px, All-update q f keeps xs h)
    | inr e ↦ rw e (px, All-update q f keeps xs h)
  ]

  pub All-first : (q : A → Bool) (xs : List A) (x : A) → All P xs → first q xs ≡ some x → P x
  unfolding first
  All-first q [] x h e = absurd (ground arith)
  All-first q (y ∷ ys) x (py, h) e = elim (Bool-cases (q y)) [
    | inl t ↦ subst P {x = y} (ground arith) py
    | inr f ↦ All-first q ys x h (ground arith)
  ]

module _ {ℓ κ μ} {A : Type ℓ} (P : A → Type κ) (R : A → Type μ) where
  pub All-map : ((x : A) → P x → R x) → (xs : List A) → All P xs → All R xs
  All-map f [] h = tt
  All-map f (x ∷ xs) (px, h) = (f x px, All-map f xs h)

  -- An update that turns the one property into the other, on the rows it writes and on the others.
  pub All-update_to :
      (q : A → Bool) (f : A → A)
      → ((x : A) → q x ≡ true → P x → R (f x))
      → ((x : A) → q x ≡ false → P x → R x)
      → (xs : List A) → All P xs
      → All R (update q f xs)
  unfolding update
  All-update_to q f on off [] h = tt
  All-update_to q f on off (x ∷ xs) (px, h) = elim (Bool-cases (q x)) [
    | inl e ↦ rw e (on x e px, All-update_to q f on off xs h)
    | inr e ↦ rw e (off x e px, All-update_to q f on off xs h)
  ]

  pub All-both : (xs : List A) → All P xs → All R xs → All (λ x. P x × R x) xs
  All-both [] h k = tt
  All-both (x ∷ xs) (px, h) (rx, k) = ((px, rx), All-both xs h k)

module _ {ℓ} {A : Type ℓ} where
  pub every : (xs : List A) → All (λ x. false ≡ false) xs
  every [] = tt
  every (x ∷ xs) = (refl, every xs)

  pub delete_passes : (p : A → Bool) (xs : List A) → All (λ x. p x ≡ false) (delete p xs)
  unfolding delete select
  delete_passes p [] = tt
  delete_passes p (x ∷ xs) = elim (Bool-cases (p x)) [
    | inl e ↦ rw e (delete_passes p xs)
    | inr e ↦ rw e (e, delete_passes p xs)
  ]

  pub length-select-All :
      (p : A → Bool) (xs : List A) → All (λ x. p x ≡ true) xs → length (select p xs) ≡ length xs
  unfolding select
  length-select-All p [] h = refl
  length-select-All p (x ∷ xs) (px, h) = ground (arith, px, length-select-All p xs h)

  pub fewer_deleted :
      (p q : A → Bool) (xs : List A) (n : ℕ)
      → length (select p xs) ≤ n
      → length (select p (delete q xs)) ≤ n
  unfolding delete
  fewer_deleted p q xs n h = omega (arith, h, length-select-select-le p (λ x. not (q x)) xs)

module _ {ℓ κ} {A : Type ℓ} (P : A → Type κ) where
  pub All-delete : (p : A → Bool) (xs : List A) → All P xs → All P (delete p xs)
  unfolding delete
  All-delete p xs h = All-select P (λ x. not (p x)) xs h

module _ {ℓ} {A : Type ℓ} where
  pub select_congr :
      (p q : A → Bool) → ((x : A) → p x ≡ q x) → (xs : List A) → select p xs ≡ select q xs
  unfolding select
  select_congr p q same [] = refl
  select_congr p q same (x ∷ xs) = ground (arith, same x, select_congr p q same xs)

  pub select-select : (p : A → Bool) (xs : List A) → select p (select p xs) ≡ select p xs
  unfolding select
  select-select p [] = refl
  select-select p (x ∷ xs) = ground (arith, select-select p xs)
