-- ===== src/Common/Numbers.antt =====
-- The JavaScript numbers that page indices and page sizes become: integers, `NaN`, and what a
-- division by zero gives. Rounding above 2 ^ 53 is left out.
use Prim.Native.Nat.{ℕ, zero, suc, ◌+◌, ◌-◌, ◌*◌, ◌/◌}
use Prim.Native.Char.{code}
use Prim.Native.String.{String}
use mathlib.Core.Path.{◌≡◌, refl}
use mathlib.Core.Bool.{Bool, true, false, ◌&&◌}
use mathlib.Core.Option.{Option, none, some}
use account_lookup_bc.Common.Tests.{if◌then◌else◌}
use account_lookup_bc.Common.Order.{leb}
use account_lookup_bc.Common.Texts.{is_space}

-- `negsuc n` is -(n + 1).
pub data ℤ : Type 0 where
  pos : ℕ → ℤ
  negsuc : ℕ → ℤ

pub data Number : Type 0 where
  int : ℤ → Number
  infinity minus_infinity nan : Number

abbrev pub of_count : ℕ → Number
of_count n = int (pos n)

-- `Math.min(x, cap)` for a cap that is not negative
abbrev pub math_min : Number → ℕ → Number
math_min (int (pos n)) cap = if leb n cap then int (pos n) else int (pos cap)
math_min (int (negsuc n)) cap = int (negsuc n)
math_min infinity cap = int (pos cap)
math_min minus_infinity cap = minus_infinity
math_min nan cap = nan

-- `Math.max(x, floor)` for a floor that is not negative
abbrev pub math_max : Number → ℕ → Number
math_max (int (pos n)) floor = if leb floor n then int (pos n) else int (pos floor)
math_max (int (negsuc n)) floor = int (pos floor)
math_max infinity floor = infinity
math_max minus_infinity floor = int (pos floor)
math_max nan floor = nan

-- -n, where 0 and -0 are one
abbrev pub minus : ℕ → ℤ
minus zero = pos 0
minus (suc n) = negsuc n

-- `x * y` where `x` is not negative
abbrev pub times : Number → Number → Number
times (int (pos m)) (int (pos n)) = int (pos (m * n))
times (int (pos m)) (int (negsuc n)) = int (minus (m * (n + 1)))
times (int (pos zero)) _ = nan
times (int (pos (suc m))) infinity = infinity
times (int (pos (suc m))) minus_infinity = minus_infinity
times infinity (int (pos (suc n))) = infinity
times infinity (int (negsuc n)) = minus_infinity
times infinity infinity = infinity
times infinity minus_infinity = minus_infinity
times _ _ = nan

-- `Math.ceil(n / x)` for a count
abbrev pub ceil_divide : ℕ → Number → Number
ceil_divide zero (int (pos zero)) = nan
ceil_divide (suc n) (int (pos zero)) = infinity
ceil_divide n (int (pos (suc d))) = int (pos ((n + d) / suc d))
ceil_divide n (int (negsuc d)) = int (minus (n / suc d))
ceil_divide n nan = nan
ceil_divide n _ = int (pos 0)

-- The value of a character as a digit to the base, by its code point.
digit_below : ℕ → ℕ → Option ℕ
digit_below base value = if leb (value + 1) base then some value else none

digit : ℕ → ℕ → Option ℕ
unfolding digit_below
digit base c =
    if leb 48 c && leb c 57
    then digit_below base (c - 48)
    else if leb 97 c && leb c 122
    then digit_below base (c - 87)
    else if leb 65 c && leb c 90
    then digit_below base (c - 55)
    else none

-- The longest run of digits, after those that were read; `none` where there is none at all.
digits : ℕ → Option ℕ → String → Option ℕ
digits base read String.[] = read
digits base read (String.◌∷◌ c s) = elim (digit base (code c)) [
  | none ↦ read
  | some d ↦ digits base (some (elim read [ none ↦ d | some n ↦ n * base + d ])) s
]

signed : Bool → Option ℕ → Number
signed negative none = nan
signed false (some n) = int (pos n)
signed true (some n) = int (minus n)

magnitude : String → Option ℕ
unfolding digits digit
magnitude (String.◌∷◌ c (String.◌∷◌ d s)) =
    if leb (code c) 48 && (leb 48 (code c) && (leb 120 (code d) && leb (code d) 120))
    then digits 16 none s
    else digits 10 none (String.◌∷◌ c (String.◌∷◌ d s))
magnitude s = digits 10 none s

-- `parseInt(s)`: white space, a sign, `0x` and digits, or digits; what follows is left.
unfoldable pub parse_int : String → Number
unfolding digits digit magnitude signed
parse_int String.[] = nan
parse_int (String.◌∷◌ c s) =
    if is_space c
    then parse_int s
    else if leb 45 (code c) && leb (code c) 45
    then signed true (magnitude s)
    else if leb 43 (code c) && leb (code c) 43
    then signed false (magnitude s)
    else signed false (magnitude (String.◌∷◌ c s))

parse_int_runs : parse_int " -12px" ≡ int (negsuc 11)
unfolding parse_int
parse_int_runs = refl

parse_int_hex : parse_int "0x1F" ≡ int (pos 31)
unfolding parse_int
parse_int_hex = refl

parse_int_nan : parse_int "page" ≡ nan
unfolding parse_int
parse_int_nan = refl
