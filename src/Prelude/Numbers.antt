-- ===== src/Prelude/Numbers.antt =====
-- JavaScript numbers that are whole and not negative: the rounding to a double, which keeps 53 bits,
-- and the text of a number.
use Prim.Native.Nat.{ℕ, zero, suc, ◌+◌, ◌-◌, ◌*◌, ◌/◌, ◌%◌, ◌<◌}
use Prim.Native.String.{String, [], ◌∷◌}
use Prim.Native.Char.{code}
use mathlib.Core.Path.{◌≡◌, refl}
use mathlib.Core.Bool.{true, not, ◌&&◌, ◌||◌}
use native.Mathlib.Omega.{arith}
use slnc_tr_z_mcp.Prelude.Tests.{ltb, leb, eqb, if◌then◌else◌}
use slnc_tr_z_mcp.Prelude.Texts.{utf16_length, decimal, is_empty, concat}

-- Below it every whole number is a double.
abbrev pub exact_bound : ℕ
exact_bound = 9007199254740992

-- The distance between the doubles around a number; a finite double has an exponent below 1024.
unfoldable pub spacing : ℕ → ℕ → ℕ
spacing zero n = 1
spacing (suc fuel) n = let rest = spacing fuel (n / 2) in if ltb n exact_bound then 1 else 2 * rest

-- The nearest double, or the even one of two that are as near.
abbrev round_half : ℕ → ℕ → ℕ → ℕ
round_half u q r =
    if ltb (2 * r) u then q * u else if ltb u (2 * r) then (q + 1) * u else (q + q % 2) * u

unfoldable pub to_double : ℕ → ℕ
unfolding spacing
to_double n =
    if ltb n exact_bound
    then n
    else (let u = spacing 1024 n in round_half u (n / u) (n - n / u * u))

abbrev distance : ℕ → ℕ → ℕ
distance m n = (m - n) + (n - m)

-- Of two decimals around a double, the nearer one of those that round to it.
abbrev nearer : ℕ → ℕ → ℕ → ℕ → ℕ
nearer v lo hi rest =
    if eqb (to_double lo) v && (leb (distance v lo) (distance v hi) || not (eqb (to_double hi) v))
    then lo
    else if eqb (to_double hi) v
    then hi
    else rest

-- The shortest decimal that rounds to a double, the digits behind the `power` being zeros.
unfoldable pub shortest : ℕ → ℕ → ℕ → ℕ
unfolding to_double
shortest zero power v = v
shortest (suc fuel) power v =
    let rest = shortest fuel (power / 10) v in
    if ltb power 2 then v else nearer v (v / power * power) ((v / power + 1) * power) rest

-- The power of ten of the first digit.
unfoldable pub first_power : ℕ → ℕ → ℕ
first_power zero n = 1
first_power (suc fuel) n = let rest = first_power fuel (n / 10) in if ltb n 10 then 1 else 10 * rest

-- The digits without the zeros at the end.
unfoldable pub significant : String → String
significant [] = []
significant (c ∷ s) =
    let rest = significant s in if eqb (code c) 48 && is_empty rest then [] else c ∷ rest

abbrev fraction : String → String
fraction [] = ""
fraction (c ∷ s) = concat "." (c ∷ s)

abbrev with_exponent : String → ℕ → String
with_exponent [] e = ""
with_exponent (c ∷ s) e = concat (c ∷ fraction s) (concat "e+" (decimal e))

-- The text of a double that is not below the bound.
unfoldable pub large_text : ℕ → String
unfolding shortest first_power significant
large_text v =
    let digits = decimal (shortest 400 (first_power 400 v) v) in
    if ltb v 1000000000000000000000
    then digits
    else with_exponent (significant digits) (utf16_length digits - 1)

-- `Number.prototype.toString`, of a double.
unfoldable pub number_text : ℕ → String
number_text v = if ltb v exact_bound then decimal v else large_text v

is_exact : (n m : ℕ) → n < m → ltb n m ≡ true
is_exact n m h = ground arith

pub to_double-exact : (n : ℕ) → n < exact_bound → to_double n ≡ n
unfolding to_double
to_double-exact n h = rw (is_exact n exact_bound h) refl

pub number_text-exact : (n : ℕ) → n < exact_bound → number_text n ≡ decimal n
unfolding number_text
number_text-exact n h = rw (is_exact n exact_bound h) refl
