-- ===== src/Domain/Money.antt =====
-- finassist/domain/shared/money.py: amounts of money, rounded to the minor unit when they are made.
-- A `Decimal` is coefficient · 10 ^ -places; both supported currencies have two decimal places, so
-- an amount is a whole number of cents. `decimal`'s default context carries 28 digits.
pub mod Rounding
pub mod Sums
use loan_credit.Prelude.{
  ℕ, zero, suc, ◌+◌, ◌-◌, ◌*◌, ◌/◌, ◌%◌, ◌^◌, Bool, true, false, ◌||◌, not, String, ltb, leb, ◌==◌,
  str_eq, if◌then◌else◌,
}
use loan_credit.Prelude.Int.{ℤ, pos, negsuc, pos_part, neg_part, ◌+ℤ◌, ◌-ℤ◌, ltb_ℤ, leb_ℤ}
use loan_credit.Domain.Error.{
  Result, ok, err, unsupported_currency, currency_mismatch, invalid_operation, ◌>>=◌, ◌>>◌,
  raise_if,
}

pub record Decimal : Type 0 where
  pub coefficient : ℤ
  pub places : ℕ

pub record Money : Type 0 where
  pub amount : ℤ
  pub currency : String

abbrev pub supported_currency : String → Bool
supported_currency c = str_eq c "USD" || str_eq c "EUR"

-- The minor unit exponent of both currencies.
abbrev pub minor_unit_exponent : ℕ
minor_unit_exponent = 2

-- n / d to the nearest whole number, ties to the even one.
unfoldable pub round_half_even : ℕ → ℕ → ℕ
round_half_even n d =
    let q = n / d in
    let r = n % d in
    if ltb (2 * r) d then q else if ltb d (2 * r) then q + 1 else if q % 2 == 0 then q else q + 1

-- The magnitude of a number with `places` decimal places, in cents.
unfoldable pub quantize_magnitude : ℕ → ℕ → ℕ
quantize_magnitude n places =
    if leb places minor_unit_exponent
    then n * 10 ^ (minor_unit_exponent - places)
    else round_half_even n (10 ^ (places - minor_unit_exponent))

abbrev pub negate : ℕ → ℤ
negate zero = pos 0
negate (suc n) = negsuc n

-- `amount.quantize(Decimal(1).scaleb(-exponent), rounding=ROUND_HALF_EVEN)`, before its limit.
unfoldable pub quantize : Decimal → ℤ
unfolding quantize_magnitude
quantize d = elim d.coefficient [
  | pos n ↦ pos (quantize_magnitude n d.places)
  | negsuc n ↦ negate (quantize_magnitude (suc n) d.places)
]

-- A coefficient of more than 28 digits is an invalid operation.
abbrev pub digit_limit : ℕ
digit_limit = 10 ^ 28

abbrev pub fits_context : ℤ → Bool
fits_context z = ltb (pos_part z + neg_part z) digit_limit

-- `Money(amount, currency)`: `__post_init__`
unfoldable pub money : Decimal → String → Result Money
money amount currency = do
  raise_if (not (supported_currency currency)) (unsupported_currency currency)
  raise_if (not (fits_context (quantize amount))) invalid_operation
  ok (record { amount = quantize amount; currency = currency })

abbrev pub require_same_currency : Money → Money → Result (Unit {0})
require_same_currency a b =
    raise_if (not (str_eq a.currency b.currency)) (currency_mismatch a.currency b.currency)

-- The amount of a `Money` as a `Decimal` again.
abbrev pub cents : ℤ → Decimal
cents z = record { coefficient = z; places = 2 }

unfoldable pub add : Money → Money → Result Money
add a b = do require_same_currency a b; money (cents (a.amount +ℤ b.amount)) a.currency

unfoldable pub sub : Money → Money → Result Money
sub a b = do require_same_currency a b; money (cents (a.amount -ℤ b.amount)) a.currency

unfoldable pub lt : Money → Money → Result Bool
lt a b = do require_same_currency a b; ok (ltb_ℤ a.amount b.amount)

unfoldable pub le : Money → Money → Result Bool
le a b = do require_same_currency a b; ok (leb_ℤ a.amount b.amount)

unfoldable pub gt : Money → Money → Result Bool
gt a b = do require_same_currency a b; ok (ltb_ℤ b.amount a.amount)

unfoldable pub ge : Money → Money → Result Bool
ge a b = do require_same_currency a b; ok (leb_ℤ b.amount a.amount)

unfoldable pub is_negative : Money → Bool
is_negative m = ltb_ℤ m.amount (pos 0)

unfoldable pub is_zero : Money → Bool
is_zero m = pos_part m.amount + neg_part m.amount == 0
