-- ===== src/Domain/Money/Rounding.antt =====
-- Rounding to cents.
use loan_credit.Prelude.{
  ℕ, zero, suc, ◌^◌, ◌+◌, ◌*◌, ◌/◌, ◌%◌, ◌≤◌, ◌<◌, ◌≡◌, ◌≢◌, ◌⊎◌, refl, Bool, true, not, String,
  arith, eq_iff, inl, inr, Bool-cases, ltb, ◌==◌, ltb→lt, ltb-false→le, ==→eq, ==-false→ne,
}
use native.Mathlib.Nat.{div-add-mod, mod-lt}
use loan_credit.Prelude.Int.{pos_part, neg_part, ℤ, pos, negsuc}
use loan_credit.Domain.Error.{ok, unsupported_currency, invalid_operation, ◌>>◌, raise_if}
use loan_credit.Domain.Money.{
  negate, Money, Decimal, money, cents, quantize, quantize_magnitude, round_half_even,
  supported_currency, fits_context,
}

-- `q` is a nearest whole number to n / d, and is even if another is as near.
abbrev pub IsNearest : (n d q : ℕ) → Type 0
IsNearest n d q =
    (2 * n ≤ 2 * (d * q) + d)
    × (2 * (d * q) ≤ 2 * n + d)
    × ((2 * n ≡ 2 * (d * q) + d) ⊎ (2 * (d * q) ≡ 2 * n + d) → q % 2 ≡ 0)

module _ (n d : ℕ) (pos_d : 0 < d) where
  down : 2 * (n % d) < d → IsNearest n d (n / d)
  down h = omega (arith, div-add-mod n d)

  up : d < 2 * (n % d) → IsNearest n d (n / d + 1)
  up h = omega (arith, div-add-mod n d, mod-lt n pos_d)

  half_down : 2 * (n % d) ≡ d → n / d % 2 ≡ 0 → IsNearest n d (n / d)
  half_down h e = (omega (arith, div-add-mod n d), omega (arith, div-add-mod n d), λ _. e)

  half_up : 2 * (n % d) ≡ d → n / d % 2 ≢ 0 → IsNearest n d (n / d + 1)
  half_up h e = (omega (arith, div-add-mod n d), omega (arith, div-add-mod n d), λ _. omega arith)

  -- `round_half_even n d` is a nearest whole number to n / d, the even one of two.
  pub round_half_even-IsNearest : IsNearest n d (round_half_even n d)
  unfolding round_half_even
  round_half_even-IsNearest = elim (Bool-cases (ltb (2 * (n % d)) d)) [
    | inl low ↦ rw low (down (ltb→lt _ _ low))
    | inr not_low ↦ rw not_low (elim (Bool-cases (ltb d (2 * (n % d)))) [
      | inl high ↦ rw high (up (ltb→lt _ _ high))
      | inr not_high ↦ rw not_high (
          let tie : 2 * (n % d) ≡ d =
            omega (arith, ltb-false→le _ _ not_low, ltb-false→le _ _ not_high) in
          elim (Bool-cases (n / d % 2 == 0)) [
            | inl even ↦ rw even (half_down tie (==→eq _ _ even))
            | inr odd ↦ rw odd (half_up tie (==-false→ne _ _ odd))
          ])
    ])
  ]

-- The distance does not change when both are taken a hundred times.
scaled : (n d q : ℕ) → IsNearest n d q → IsNearest (n * 100) (d * 100) q
scaled n d q (low, high, tie) = (
  omega arith,
  omega arith,
  λ h.
      tie (elim h [
        | inl below ↦ inl (omega (arith, below))
        | inr above ↦ inr (omega (arith, above))
      ]),
)

exact : (n d q : ℕ) → 0 < d → d * q ≡ n → IsNearest n d q
exact n d q pos_d e = (
  omega (arith, e),
  omega (arith, e),
  λ h. elim h [
    | inl below ↦ absurd (omega (arith, e, below, pos_d))
    | inr above ↦ absurd (omega (arith, e, above, pos_d))
  ],
)

pow_pos : (k : ℕ) → 0 < 10 ^ k
pow_pos zero = omega arith
pow_pos (suc k) = omega (arith, pow_pos k)

pow_hundred : (k : ℕ) → 10 ^ suc (suc (suc k)) ≡ 10 ^ suc k * 100
pow_hundred k = omega arith

round_places : (n k : ℕ) → quantize_magnitude n (suc (suc (suc k))) ≡ round_half_even n (10 ^ suc k)
unfolding quantize_magnitude
round_places n k = ground arith

quantize_magnitude-IsNearest :
    (n places : ℕ) → IsNearest (n * 100) (10 ^ places) (quantize_magnitude n places)
unfolding quantize_magnitude
quantize_magnitude-IsNearest n zero = exact _ _ _ (omega arith) (omega arith)
quantize_magnitude-IsNearest n (suc zero) = exact _ _ _ (omega arith) (omega arith)
quantize_magnitude-IsNearest n (suc (suc zero)) = exact _ _ _ (omega arith) (omega arith)
quantize_magnitude-IsNearest n (suc (suc (suc k))) = rw (round_places n k) (
    rw (pow_hundred k)
      (scaled n (10 ^ suc k) _ (round_half_even-IsNearest n (10 ^ suc k) (pow_pos (suc k)))))

pub quantize-cents : (z : ℤ) → quantize (cents z) ≡ z
unfolding quantize
quantize-cents (pos n) = ground arith
quantize-cents (negsuc n) = ground arith

-- What a successful construction says, for a coefficient that is known already.
made_facts :
    (currency : String) (limit_ok : Bool) (z : ℤ) {m : Money}
    → (do
      raise_if (not (supported_currency currency)) (unsupported_currency currency)
      raise_if (not limit_ok) invalid_operation
      ok (record { amount = z; currency = currency }))
      ≡ ok m
    → (supported_currency currency ≡ true)
      × (limit_ok ≡ true)
      × (m ≡ record { amount = z; currency = currency })
made_facts currency limit_ok z h = ground arith

pub money-eq-ok :
    (d : Decimal) (currency : String) {m : Money}
    → money d currency ≡ ok m
    → (supported_currency currency ≡ true)
      × (fits_context (quantize d) ≡ true)
      × (m ≡ record { amount = quantize d; currency = currency })
unfolding money
money-eq-ok d currency h = made_facts currency (fits_context (quantize d)) (quantize d) h

-- A supported currency and a coefficient within the limit are enough.
pub money_of_cents :
    (z : ℤ) (currency : String)
    → supported_currency currency ≡ true
    → fits_context z ≡ true
    → money (cents z) currency ≡ ok (record { amount = z; currency = currency })
unfolding money
money_of_cents z currency s f = rw (quantize-cents z) (rw s (rw f refl))

abbrev pub magnitude : ℤ → ℕ
magnitude (pos n) = n
magnitude (negsuc n) = suc n

magnitude_parts : (z : ℤ) → magnitude z ≡ pos_part z + neg_part z
magnitude_parts (pos n) = omega arith
magnitude_parts (negsuc n) = omega arith

-- The amount is a whole number of cents nearest to the decimal, the even one of two; it has the
-- decimal's sign or is zero, and fits `decimal`'s context.
pub record IsRounded (d : Decimal) (currency : String) (m : Money) : Type 0 where
  pub nearest : IsNearest (magnitude d.coefficient * 100) (10 ^ d.places) (magnitude m.amount)
  pub not_negative : neg_part d.coefficient ≡ 0 → neg_part m.amount ≡ 0
  pub not_positive : pos_part d.coefficient ≡ 0 → pos_part m.amount ≡ 0
  pub digits : magnitude m.amount < 10 ^ 28
  pub same_currency : m.currency ≡ currency
  pub is_supported : (currency ≡ "USD") ⊎ (currency ≡ "EUR")

negate_parts : (n : ℕ) → (pos_part (negate n) ≡ 0) × (magnitude (negate n) ≡ n)
negate_parts zero = (refl, refl)
negate_parts (suc n) = (refl, refl)

below_half : (d q : ℕ) → 0 < d → 2 * (d * q) ≤ d → q ≡ 0
below_half d zero pos_d h = refl
below_half d (suc q) pos_d h = absurd (omega (arith, h, pos_d))

quantize_zero : (places : ℕ) → quantize_magnitude 0 places ≡ 0
quantize_zero places =
    below_half (10 ^ places) _ (pow_pos places)
      (omega (arith, (quantize_magnitude-IsNearest 0 places).1))

quantize-IsNearest :
    (z : ℤ) (places : ℕ)
    → let q = quantize (record { coefficient = z; places = places }) in
      IsNearest (magnitude z * 100) (10 ^ places) (magnitude q)
      × (neg_part z ≡ 0 → neg_part q ≡ 0)
      × (pos_part z ≡ 0 → pos_part q ≡ 0)
unfolding quantize
quantize-IsNearest (pos n) places =
    (quantize_magnitude-IsNearest n places, λ _. refl, λ h. rw h (quantize_zero places))
quantize-IsNearest (negsuc n) places =
    let (p, q) = negate_parts (quantize_magnitude (suc n) places) in
    (rw q (quantize_magnitude-IsNearest (suc n) places), λ h. absurd (omega (arith, h)), λ _. p)

-- An amount of money that is made is a whole number of cents nearest to the decimal it is made of,
-- the even one of two that are as near; it has the decimal's sign or is zero, has at most 28 digits,
-- and is in the currency that is given, which is USD or EUR.
pub money-IsRounded :
    (d : Decimal) (currency : String) (m : Money) → money d currency ≡ ok m → IsRounded d currency m
money-IsRounded d currency m h =
    let (s, f, e) = money-eq-ok d currency h in
    let (near, nonneg, nonpos) = quantize-IsNearest d.coefficient d.places in
    rw e (record {
      nearest = near;
      not_negative = nonneg;
      not_positive = nonpos;
      digits = omega (arith, magnitude_parts (quantize d), ltb→lt _ _ f);
      same_currency = refl;
      is_supported = ground (arith, eq_iff currency "USD", eq_iff currency "EUR");
    })

-- An amount that has been made is not rounded again.
pub money_idempotent :
    (d : Decimal) (currency : String) {m : Money}
    → money d currency ≡ ok m
    → money (cents m.amount) m.currency ≡ ok m
money_idempotent d currency {m} h =
    let (s, f, e) = money-eq-ok d currency h in rw e (money_of_cents (quantize d) currency s f)
