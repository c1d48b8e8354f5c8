-- ===== src/Prelude/Tables.antt =====
-- Tables with a text key: what a lookup or a selection finds after an insert, an update, a delete.
use Prim.Native.String.{String}
use mathlib.Core.Path.{◌≡◌, refl}
use mathlib.Core.Logic.{◌≢◌, inl, inr}
use mathlib.Core.Bool.{Bool, true, false, ◌&&◌}
use mathlib.Core.Option
use mathlib.Core.Option.{Option, none, some}
use mathlib.Core.List.{List, [], ◌∷◌, ◌++◌}
use native.Mathlib.Omega.{arith}
use text.Mathlib.Text.{◌==◌}
use text.Mathlib.TextEquality.{eq_iff}
use slnc_tr_z_mcp.Prelude.Tests.{if◌then◌else◌, str_cases}
use slnc_tr_z_mcp.Prelude.Lists.{first, select, delete, update, any}

pub str_ne : (s t : String) → s ≢ t → (s == t) ≡ false
str_ne s t h = elim (str_cases s t) [ inl e ↦ absurd (h e) | inr e ↦ e ]

module _ {ℓ} {A : Type ℓ} (key : A → String) where
  pub first_key :
      (j : String) (xs : List A) (x : A) → first (λ a. key a == j) xs ≡ some x → key x ≡ j
  unfolding first
  first_key j [] x h = ground arith
  first_key j (y ∷ ys) x h = ground (arith, eq_iff (key y) j, first_key j ys x)

  pub first-update :
      (j id : String) (p : A → Bool) (f : A → A)
      → ((x : A) → key (f x) ≡ key x)
      → (xs : List A)
      → first (λ a. key a == j) (update (λ a. key a == id && p a) f xs)
        ≡ Option.map (λ x. if key x == id && p x then f x else x) (first (λ a. key a == j) xs)
  unfolding first update
  first-update j id p f keeps [] = refl
  first-update j id p f keeps (x ∷ xs) = ground (arith, keeps x, first-update j id p f keeps xs)

  pub first-delete :
      (j id : String) (xs : List A)
      → first (λ a. key a == j) (delete (λ a. key a == id) xs)
        ≡ (if id == j then none else first (λ a. key a == j) xs)
  unfolding first delete
  first-delete j id [] = ground arith
  first-delete j id (x ∷ xs) =
      ground (arith, eq_iff (key x) id, eq_iff (key x) j, eq_iff id j, first-delete j id xs)

  pub select-delete :
      (j id : String) (xs : List A)
      → select (λ a. key a == j) (delete (λ a. key a == id) xs)
        ≡ (if id == j then [] else select (λ a. key a == j) xs)
  unfolding delete
  select-delete j id [] = ground arith
  select-delete j id (x ∷ xs) =
      ground (arith, eq_iff (key x) id, eq_iff (key x) j, eq_iff id j, select-delete j id xs)

  -- Appending a row of another key changes neither.
  pub first-append :
      (j : String) (xs : List A) (y : A)
      → first (λ a. key a == j) (xs ++ y ∷ []) ≡ (
          if any (λ a. key a == j) xs
          then first (λ a. key a == j) xs
          else if key y == j
          then some y
          else none)
  unfolding first any
  first-append j [] y = refl
  first-append j (x ∷ xs) y = ground (arith, first-append j xs y)

  pub select-append_one :
      (j : String) (xs : List A) (y : A)
      → select (λ a. key a == j) (xs ++ y ∷ []) ≡ (
          if key y == j then select (λ a. key a == j) xs ++ y ∷ [] else select (λ a. key a == j) xs)
  unfolding select
  select-append_one j [] y = ground arith
  select-append_one j (x ∷ xs) y = ground (arith, select-append_one j xs y)

  pub first-any :
      (j : String) (xs : List A) (x : A)
      → first (λ a. key a == j) xs ≡ some x
      → any (λ a. key a == j) xs ≡ true
  unfolding first any
  first-any j [] x h = ground arith
  first-any j (y ∷ ys) x h = ground (arith, first-any j ys x)

  pub first-not_any :
      (j : String) (xs : List A)
      → any (λ a. key a == j) xs ≡ false
      → first (λ a. key a == j) xs ≡ none
  unfolding first any
  first-not_any j [] h = refl
  first-not_any j (y ∷ ys) h = ground (arith, first-not_any j ys)

  pub first-update_ne :
      (j id : String) (p : A → Bool) (f : A → A)
      → ((x : A) → key (f x) ≡ key x)
      → j ≢ id
      → (xs : List A)
      → first (λ a. key a == j) (update (λ a. key a == id && p a) f xs) ≡ first (λ a. key a == j) xs
  unfolding first update
  first-update_ne j id p f keeps ne [] = refl
  first-update_ne j id p f keeps ne (x ∷ xs) =
      ground
        (arith, keeps x, eq_iff (key x) j, eq_iff (key x) id, first-update_ne j id p f keeps ne xs)
