-- ===== src/Prelude/Keys.antt =====
-- Tables whose text keys are distinct, as those of a `Map` are.
use Prim.Native.String.{String}
use mathlib.Core.Path.{◌≡◌, refl, ◌∙◌}
use mathlib.Core.Logic.{inl, inr}
use mathlib.Core.Bool.{Bool, true, false, ◌||◌}
use mathlib.Core.Option
use mathlib.Core.Option.{Option, none, some}
use mathlib.Core.List.{List, [], ◌∷◌, ◌++◌}
use native.Mathlib.Omega.{arith}
use text.Mathlib.Text.{◌==◌}
use text.Mathlib.TextEquality.{eq_iff}
use slnc_tr_z_mcp.Prelude.Tests.{if◌then◌else◌, Bool-cases}
use slnc_tr_z_mcp.Prelude.Tables.{first_key, first-not_any}
use text.Mathlib.TextPositions.{eq_refl}
use slnc_tr_z_mcp.Prelude.Lists.{
  first, select, update, any, insert_by, sort_by, any-select, any-append, All, All-map,
}

module _ {ℓ} {A : Type ℓ} where
  any-insert_by :
      (p : A → Bool) (before : A → A → Bool) (x : A) (xs : List A)
      → any p (insert_by before x xs) ≡ (p x || any p xs)
  unfolding any insert_by
  any-insert_by p before x [] = ground arith
  any-insert_by p before x (y ∷ ys) = ground (arith, any-insert_by p before x ys)

  pub any-sort_by :
      (p : A → Bool) (before : A → A → Bool) (xs : List A) → any p (sort_by before xs) ≡ any p xs
  unfolding any sort_by
  any-sort_by p before [] = refl
  any-sort_by p before (x ∷ xs) =
      ground (arith, any-insert_by p before x (sort_by before xs), any-sort_by p before xs)

module _ {ℓ} {A : Type ℓ} (key : A → String) where
  abbrev pub Distinct : List A → Type 0
  Distinct [] = Unit
  Distinct (x ∷ xs) = (any (λ y. key y == key x) xs ≡ false) × Distinct xs

  pub any-update :
      (k : String) (p : A → Bool) (f : A → A)
      → ((x : A) → key (f x) ≡ key x)
      → (xs : List A) → any (λ y. key y == k) (update p f xs) ≡ any (λ y. key y == k) xs
  unfolding any update
  any-update k p f keeps [] = refl
  any-update k p f keeps (x ∷ xs) = ground (arith, keeps x, any-update k p f keeps xs)

  pub Distinct-select : (q : A → Bool) (xs : List A) → Distinct xs → Distinct (select q xs)
  unfolding select
  Distinct-select q [] h = tt
  Distinct-select q (x ∷ xs) (new, h) = elim (Bool-cases (q x)) [
    | inl e ↦ rw e (any-select (λ y. key y == key x) q xs new, Distinct-select q xs h)
    | inr e ↦ rw e (Distinct-select q xs h)
  ]

  pub Distinct-update :
      (p : A → Bool) (f : A → A)
      → ((x : A) → key (f x) ≡ key x)
      → (xs : List A) → Distinct xs
      → Distinct (update p f xs)
  unfolding update
  Distinct-update p f keeps [] h = tt
  Distinct-update p f keeps (x ∷ xs) (new, h) =
      let same : key (if p x then f x else x) ≡ key x = ground (arith, keeps x) in
      (rw same (any-update (key x) p f keeps xs ∙ new), Distinct-update p f keeps xs h)

  pub Distinct-append_one :
      (xs : List A) (y : A)
      → any (λ x. key x == key y) xs ≡ false
      → Distinct xs
      → Distinct (xs ++ y ∷ [])
  unfolding any
  Distinct-append_one [] y new h = (refl, tt)
  Distinct-append_one (x ∷ xs) y new (apart, h) = (
    any-append (λ z. key z == key x) xs (y ∷ [])
        ∙ ground (arith, eq_iff (key x) (key y), eq_iff (key y) (key x)),
    Distinct-append_one xs y (ground arith) h,
  )

  -- No other row has the key of the first one found: what it fails, no row of the key passes.
  pub first-Distinct-select :
      (id : String) (q : A → Bool) (xs : List A) (x : A)
      → Distinct xs
      → first (λ y. key y == id) xs ≡ some x
      → q x ≡ false
      → any (λ y. key y == id) (select q xs) ≡ false
  unfolding first select any
  first-Distinct-select id q [] x h found off = refl
  first-Distinct-select id q (y ∷ ys) x (new, h) found off = elim (Bool-cases (key y == id)) [
    | inl e ↦
        let same : key y ≡ id = ground (arith, eq_iff (key y) id) in
        ground (arith, any-select (λ z. key z == id) q ys (rw same at new))
    | inr e ↦ ground (arith, first-Distinct-select id q ys x h (ground arith) off)
  ]

  pub first-write :
      (j id : String) (f : A → A)
      → ((x : A) → key (f x) ≡ key x)
      → (xs : List A)
      → first (λ y. key y == j) (update (λ y. key y == id) f xs)
        ≡ Option.map (λ x. if id == j then f x else x) (first (λ y. key y == j) xs)
  unfolding first update
  first-write j id f keeps [] = refl
  first-write j id f keeps (x ∷ xs) = ground (
    arith,
    keeps x,
    eq_iff (key x) j,
    eq_iff (key x) id,
    eq_iff id j,
    first-write j id f keeps xs,
  )

  -- Rows of one key are one row.
  abbrev pub IsOnly : List A → A → Type ℓ
  IsOnly xs t = All (λ x. (key x == key t) ≡ true → x ≡ t) xs

  none_IsOnly : (t : A) (xs : List A) → any (λ x. key x == key t) xs ≡ false → IsOnly xs t
  unfolding any
  none_IsOnly t [] h = tt
  none_IsOnly t (x ∷ xs) h = (λ e. absurd (ground arith), none_IsOnly t xs (ground arith))

  pub first-IsOnly :
      (id : String) (xs : List A) (t : A)
      → Distinct xs
      → first (λ x. key x == id) xs ≡ some t
      → IsOnly xs t
  unfolding first
  first-IsOnly id [] t h found = absurd (ground arith)
  first-IsOnly id (x ∷ xs) t (new, h) found = elim (Bool-cases (key x == id)) [
    | inl e ↦ let same : x ≡ t = ground arith in (λ _. same, none_IsOnly t xs (rw same at new))
    | inr e ↦
        let rest : first (λ y. key y == id) xs ≡ some t = ground arith in
        (
          λ p. absurd (
              ground (
                arith,
                first_key key id xs t rest,
                eq_iff (key t) id,
                eq_iff (key x) (key t),
                eq_iff (key x) id,
              )),
          first-IsOnly id xs t h rest,
        )
  ]

  cons_IsOnly :
      (x : A) (ys xs : List A)
      → any (λ y. key y == key x) xs ≡ false
      → All (IsOnly ys) xs
      → All (IsOnly (x ∷ ys)) xs
  unfolding any
  cons_IsOnly x ys [] new h = tt
  cons_IsOnly x ys (z ∷ zs) new (only, h) = (
    (λ e. absurd (ground (arith, eq_iff (key x) (key z), eq_iff (key z) (key x))), only),
    cons_IsOnly x ys zs (ground arith) h,
  )

  -- Every row is the only one of its key.
  pub All-IsOnly : (xs : List A) → Distinct xs → All (IsOnly xs) xs
  All-IsOnly [] h = tt
  All-IsOnly (x ∷ xs) (new, h) =
      ((λ _. refl, none_IsOnly x xs new), cons_IsOnly x xs xs new (All-IsOnly xs h))

  -- Every row that passes the test has its key among those that pass.
  pub All-any-select :
      (q : A → Bool) (xs : List A)
      → All (λ x. q x ≡ true → any (λ y. key y == key x) (select q xs) ≡ true) xs
  unfolding select any
  All-any-select q [] = tt
  All-any-select q (x ∷ xs) = (
    λ e. ground (arith, e, eq_refl (key x)),
    All-map (λ z. q z ≡ true → any (λ y. key y == key z) (select q xs) ≡ true)
        (λ z. q z ≡ true → any (λ y. key y == key z) (select q (x ∷ xs)) ≡ true)
        (λ z h e. ground (arith, h e)) xs (All-any-select q xs),
  )

  abbrev pub passing : (A → Bool) → Option A → Option A
  passing q none = none
  passing q (some t) = if q t then some t else none

  pub first-select :
      (id : String) (q : A → Bool) (xs : List A)
      → Distinct xs
      → first (λ y. key y == id) (select q xs) ≡ passing q (first (λ y. key y == id) xs)
  unfolding first select
  first-select id q [] h = refl
  first-select id q (x ∷ xs) (new, h) = elim (Bool-cases (key x == id)) [
    | inr e ↦ ground (arith, e, first-select id q xs h)
    | inl e ↦
        let same : key x ≡ id = ground (arith, eq_iff (key x) id) in
        ground (
          arith,
          e,
          first-not_any key id (select q xs) (any-select (λ z. key z == id) q xs (rw same at new)),
        )
  ]

  pub any-first :
      (id : String) (xs : List A)
      → any (λ y. key y == id) xs
        ≡ elim (first (λ y. key y == id) xs) [ none ↦ false | some t ↦ true ]
  unfolding any first
  any-first id [] = refl
  any-first id (x ∷ xs) = ground (arith, any-first id xs)
