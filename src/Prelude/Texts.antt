-- ===== src/Prelude/Texts.antt =====
-- JavaScript strings: the length in UTF-16 code units, trimming, and a test by regular expression.
use Prim.Native.Nat.{ℕ, zero, suc, ◌+◌, ◌-◌, ◌*◌, ◌/◌, ◌%◌}
use mathlib.Core.Option.{Option, none, some}
use mathlib.Core.Bool.{Bool, true, false, ◌&&◌, ◌||◌}
use Prim.Native.String.{String, [], ◌∷◌}
use Prim.Native.Char.{code}
use slnc_tr_z_mcp.Prelude.Tests.{ltb, leb, eqb, if◌then◌else◌}

unfoldable pub utf16_length : String → ℕ
utf16_length [] = 0
utf16_length (c ∷ s) = (if ltb (code c) 65536 then 1 else 2) + utf16_length s

-- The white space and line ends that `trim` removes.
abbrev pub is_space : ℕ → Bool
is_space c =
    (leb 9 c && leb c 13)
    || (eqb c 32
        || (eqb c 160
            || (eqb c 5760
                || ((leb 8192 c && leb c 8202)
                    || (eqb c 8232
                        || (eqb c 8233
                            || (eqb c 8239 || (eqb c 8287 || (eqb c 12288 || eqb c 65279)))))))))

unfoldable pub trim_start : String → String
trim_start [] = []
trim_start (c ∷ s) = let rest = trim_start s in if is_space (code c) then rest else c ∷ s

abbrev pub is_empty : String → Bool
is_empty [] = true
is_empty (c ∷ s) = false

unfoldable pub trim_end : String → String
trim_end [] = []
trim_end (c ∷ s) =
    let rest = trim_end s in if is_space (code c) && is_empty rest then [] else c ∷ rest

unfoldable pub trim : String → String
unfolding trim_start trim_end
trim s = trim_end (trim_start s)

abbrev pub is_url_safe : ℕ → Bool
is_url_safe c =
    (leb 65 c && leb c 90)
    || ((leb 97 c && leb c 122) || ((leb 48 c && leb c 57) || (eqb c 95 || eqb c 45)))

-- `^[A-Za-z0-9_-]{n}$`
unfoldable pub url_safe_of_length : ℕ → String → Bool
url_safe_of_length zero [] = true
url_safe_of_length (suc n) [] = false
url_safe_of_length zero (c ∷ s) = false
url_safe_of_length (suc n) (c ∷ s) =
    let rest = url_safe_of_length n s in is_url_safe (code c) && rest

-- `^hst_[A-Za-z0-9_-]{43}$`
unfoldable pub is_host_token : String → Bool
unfolding url_safe_of_length
is_host_token (a ∷ b ∷ c ∷ d ∷ s) =
    (eqb (code a) 104 && (eqb (code b) 115 && (eqb (code c) 116 && eqb (code d) 95)))
    && url_safe_of_length 43 s
is_host_token _ = false

abbrev pub is_hex : ℕ → Bool
is_hex c = (leb 97 c && leb c 102) || (leb 48 c && leb c 57)

-- `^[a-f0-9]{n}$`
unfoldable pub hex_of_length : ℕ → String → Bool
hex_of_length zero [] = true
hex_of_length (suc n) [] = false
hex_of_length zero (c ∷ s) = false
hex_of_length (suc n) (c ∷ s) = let rest = hex_of_length n s in is_hex (code c) && rest

-- The number that decimal digits write, after `n`.
unfoldable pub digits_from : ℕ → String → Option ℕ
digits_from n [] = some n
digits_from n (c ∷ s) =
    let rest = digits_from (n * 10 + (code c - 48)) s in
    if leb 48 (code c) && leb (code c) 57 then rest else none

abbrev pub digits : String → Option ℕ
digits [] = none
digits (c ∷ s) = digits_from 0 (c ∷ s)

abbrev pub concat : String → String → String
concat [] t = t
concat (c ∷ s) t = c ∷ concat s t

-- The character at a place, as a text.
abbrev pub char_at : ℕ → String → String
char_at n [] = []
char_at zero (c ∷ s) = c ∷ []
char_at (suc n) (c ∷ s) = char_at n s

abbrev pub digit : ℕ → String
digit n = char_at n "0123456789"

-- The decimal digits of a number, in front of a text; the fuel is above the number of digits.
unfoldable pub decimal_from : ℕ → ℕ → String → String
decimal_from zero n s = s
decimal_from (suc fuel) n s =
    let s' = concat (digit (n % 10)) s in
    let rest = decimal_from fuel (n / 10) s' in if ltb n 10 then s' else rest

unfoldable pub decimal : ℕ → String
unfolding decimal_from
decimal n = decimal_from (n + 1) n ""
