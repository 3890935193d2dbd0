-- ===== src/Domain/Product.antt =====
-- finassist/domain/applications/product.py: the catalog bounds of a lending product.
pub mod Bounds
use loan_credit.Prelude.{Bool, false, not, ◌||◌, ◌&&◌, String, str_eq, if◌then◌else◌}
use loan_credit.Prelude.Int.{ℤ, pos, ltb_ℤ, leb_ℤ}
use loan_credit.Domain.Error.{Result, ok, value_error, ◌>>=◌, ◌>>◌, raise_if}
use loan_credit.Domain.Money
use loan_credit.Domain.Money.{Money}

pub record Product : Type 0 where
  pub product_id : String
  pub code : String
  pub name : String
  pub currency : String
  pub min_amount : Money
  pub max_amount : Money
  pub min_term_months : ℤ
  pub max_term_months : ℤ
  pub is_active : Bool

-- `__post_init__`: the fields are kept as given, or the construction raises.
unfoldable pub validate : Product → Result Product
unfolding Money.gt
validate p = do
  raise_if
      (not (str_eq p.min_amount.currency p.currency)
        || not (str_eq p.max_amount.currency p.currency))
      (value_error "product amount bounds must be denominated in the product's currency")
  inverted ← Money.gt p.min_amount p.max_amount
  raise_if inverted (value_error "product min_amount must not exceed max_amount")
  raise_if (ltb_ℤ p.min_term_months (pos 1))
      (value_error "product min_term_months must be at least 1")
  raise_if (ltb_ℤ p.max_term_months p.min_term_months)
      (value_error "product min_term_months must not exceed max_term_months")
  ok p

-- `a and b` where both sides may raise
abbrev pub and_then : Result Bool → Result Bool → Result Bool
and_then m n = m >>= λ b. if b then n else ok false

unfoldable pub accepts : Product → Money → ℤ → Result Bool
unfolding Money.le
accepts p amount term_months =
    if not p.is_active
    then ok false
    else if not (str_eq amount.currency p.currency)
    then ok false
    else and_then (Money.le p.min_amount amount) (
        and_then (Money.le amount p.max_amount)
          (ok (leb_ℤ p.min_term_months term_months && leb_ℤ term_months p.max_term_months)))
