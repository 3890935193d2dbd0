-- ===== src/Domain/Double.antt =====
-- Python's `float`: a finite double as a whole number of 2^-1074, of which every finite double is
-- one. The results of operations are correctly rounded; what has no finite result is an overflow.
pub mod Bounds
use loan_credit.Prelude.{ℕ, zero, suc, ◌+◌, ◌*◌, ◌^◌, Bool, ltb, leb, if◌then◌else◌}
use loan_credit.Domain.Money.{round_half_even}
use loan_credit.Prelude.Int.{ℤ, pos, negsuc, pos_part, neg_part, ◌-ℤ◌, leb_ℤ, ltb_ℤ}

abbrev pub Double : Type 0
Double = ℤ

-- 1.0
abbrev pub unit : ℕ
unit = 2 ^ 1074

abbrev pub one : Double
one = pos unit

-- A significand has 53 bits.
abbrev pub significands : ℕ
significands = 2 ^ 53

-- The distance of the doubles around n / d: the first power of two that leaves a significand. A double
-- below 2^1024 needs at most 2045 doublings.
unfoldable pub spacing : (fuel : ℕ) → (n d spread : ℕ) → ℕ
spacing zero n d spread = spread
spacing (suc fuel) n d spread =
    let rest = spacing fuel n d (2 * spread) in
    if ltb n (significands * (d * spread)) then spread else rest

abbrev pub spacing_fuel : ℕ
spacing_fuel = 2046

-- The double nearest to n / d, for a positive d.
unfoldable pub nearest : (n d : ℕ) → ℕ
nearest n d = let spread = spacing spacing_fuel n d 1 in spread * round_half_even n (d * spread)

-- Beyond the largest finite double.
abbrev pub too_large : ℕ → Bool
too_large n = leb (2 ^ 2098) n

abbrev pub signed : (negative : Bool) → ℕ → ℤ
signed negative zero = pos 0
signed negative (suc n) = if negative then negsuc n else pos (suc n)

abbrev pub magnitude : ℤ → ℕ
magnitude z = pos_part z + neg_part z

abbrev pub is_below_zero : ℤ → Bool
is_below_zero z = ltb_ℤ z (pos 0)

-- `round(x)`: the nearest whole number.
unfoldable pub round : Double → ℤ
round x = signed (is_below_zero x) (round_half_even (magnitude x) unit)

abbrev pub min : Double → Double → Double
min a b = if ltb_ℤ b a then b else a

abbrev pub max : Double → Double → Double
max a b = if ltb_ℤ a b then b else a

-- a - b, rounded.
unfoldable pub minus : Double → Double → Double
minus a b = signed (is_below_zero (a -ℤ b)) (nearest (magnitude (a -ℤ b)) 1)
