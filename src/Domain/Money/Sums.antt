-- ===== src/Domain/Money/Sums.antt =====
-- Sums, differences and comparisons of amounts.
use loan_credit.Prelude.{◌≡◌, String, arith, eq_iff, ap, ◌∙◌}
use loan_credit.Prelude.Int.{◌+ℤ◌, ◌-ℤ◌, +ℤ_cancel}
use loan_credit.Domain.Error.{ok}
use loan_credit.Domain.Money.{Money, Decimal, money, cents, add, sub}
use loan_credit.Domain.Money.Rounding.{quantize-cents, money-eq-ok, money_idempotent}

add-eq-ok :
    (a b c : Money)
    → add a b ≡ ok c
    → (a.currency ≡ b.currency) × (money (cents (a.amount +ℤ b.amount)) a.currency ≡ ok c)
unfolding add
add-eq-ok a b c h = ground (arith, eq_iff a.currency b.currency)

sub_same :
    (a b : Money)
    → a.currency ≡ b.currency
    → sub a b ≡ money (cents (a.amount -ℤ b.amount)) a.currency
unfolding sub
sub_same a b e = ground (arith, eq_iff a.currency b.currency)

-- If the sum of an amount that has been made and another one is returned, then the two are in one
-- currency, which is the sum's, the sum is exact, and taking the second amount away again gives back
-- the first.
pub add-sub :
    (d : Decimal) (currency : String) (a b c : Money)
    → money d currency ≡ ok a
    → add a b ≡ ok c
    → (a.currency ≡ b.currency)
      × (c.amount ≡ a.amount +ℤ b.amount)
      × (c.currency ≡ a.currency)
      × (sub c b ≡ ok a)
add-sub d currency a b c made h =
    let (same, sum) = add-eq-ok a b c h in
    let facts = money-eq-ok (cents (a.amount +ℤ b.amount)) a.currency sum in
    let amount : c.amount ≡ a.amount +ℤ b.amount =
      ap (λ m. m.amount) facts.2 ∙ quantize-cents (a.amount +ℤ b.amount) in
    let in_currency : c.currency ≡ a.currency = ap (λ m. m.currency) facts.2 in
    let back : c.amount -ℤ b.amount ≡ a.amount = rw amount (+ℤ_cancel a.amount b.amount) in
    (
      same,
      amount,
      in_currency,
      rw (sub_same c b (in_currency ∙ same))
          (rw (back, in_currency) (money_idempotent d currency made)),
    )
