-- ===== src/Domain/Product/Bounds.antt =====
-- The intake check of a product that has been constructed.
use loan_credit.Prelude.{◌≡◌, true, ◌&&◌, arith, str_eq, eq_iff}
use loan_credit.Prelude.Int.{ℤ, pos, leb_ℤ}
use loan_credit.Domain.Error.{ok}
use loan_credit.Domain.Money.{Money}
use loan_credit.Domain.Product.{Product, validate, accepts}

-- The bounds are in order and in the product's currency.
pub record HasBounds (p : Product) : Type 0 where
  pub min_currency : p.min_amount.currency ≡ p.currency
  pub max_currency : p.max_amount.currency ≡ p.currency
  pub amounts : leb_ℤ p.min_amount.amount p.max_amount.amount ≡ true
  pub first_month : leb_ℤ (pos 1) p.min_term_months ≡ true
  pub terms : leb_ℤ p.min_term_months p.max_term_months ≡ true

-- A product whose construction did not raise has both amounts in its own currency, the minimum not
-- above the maximum, and terms that start at one month or later and are in order.
pub validate-HasBounds : (p q : Product) → validate p ≡ ok q → HasBounds q
unfolding validate
validate-HasBounds p q h =
    ground (arith, eq_iff p.min_amount.currency p.currency, eq_iff p.max_amount.currency p.currency)

-- Of a product that has been constructed the intake check never raises, and it passes exactly for
-- an active product and an amount in its currency with amount and term within the bounds.
pub accepts_iff :
    (p : Product) (m : Money) (term : ℤ)
    → HasBounds p
    → accepts p m term
      ≡ ok (
          p.is_active
          && (str_eq m.currency p.currency
              && (leb_ℤ p.min_amount.amount m.amount
                  && (leb_ℤ m.amount p.max_amount.amount
                      && (leb_ℤ p.min_term_months term && leb_ℤ term p.max_term_months)))))
unfolding accepts
accepts_iff p m term b = ground (
  arith,
  eq_iff m.currency p.currency,
  eq_iff p.min_amount.currency m.currency,
  eq_iff m.currency p.max_amount.currency,
)
