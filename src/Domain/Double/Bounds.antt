-- ===== src/Domain/Double/Bounds.antt =====
-- Rounding keeps a double between 0.0 and 1.0.
use loan_credit.Prelude.{
  ℕ, zero, suc, ◌-◌, ◌*◌, ◌^◌, ◌≤◌, ◌<◌, ◌≡◌, refl, ◌∙◌, ap, ◌&&◌, true, false, Bool-cases, inl,
  inr, ltb, ltb→lt, ltb-false→le, arith,
}
use native.Mathlib.Nat.{mul-le-mul_left, two-pow-succ}
use loan_credit.Domain.Money.{round_half_even}
use loan_credit.Domain.Money.Rounding.{round_half_even-IsNearest}
use loan_credit.Prelude.Int.{ℤ, pos, ◌-ℤ◌, leb_ℤ}
use loan_credit.Domain.Facts.{is_confidence}
use loan_credit.Domain.Double.{
  spacing, spacing_fuel, nearest, unit, one, signed, is_below_zero, magnitude, minus, min, max,
  significands,
}

doubled : (s m : ℕ) → 2 * s * 2 ^ m ≡ s * 2 ^ suc m
doubled s m = rw (two-pow-succ m) (grind arith)

fits_last : (n s : ℕ) → 0 < s → n ≤ s → ltb n (significands * (1 * s)) ≡ true
fits_last n s pos_s small = ground (arith, pos_s, small)

-- A spacing that is reached from one that divides 1.0 divides 1.0.
spacing-divides :
    (u fuel m n s : ℕ)
    → n ≤ u
    → 0 < s
    → s * 2 ^ m ≡ u
    → (k : ℕ) × (spacing fuel n 1 s * k ≡ u) × (0 < spacing fuel n 1 s)
unfolding spacing
spacing-divides u zero m n s small pos_s is = (2 ^ m, is, pos_s)
spacing-divides u (suc fuel) zero n s small pos_s is =
    rw (fits_last n s pos_s (omega (arith, small, is))) (1, is, pos_s)
spacing-divides u (suc fuel) (suc m) n s small pos_s is =
    elim (Bool-cases (ltb n (significands * (1 * s)))) [
      | inl fits ↦ rw fits (2 ^ suc m, is, pos_s)
      | inr wide ↦
          rw wide
            (spacing-divides u fuel m n (2 * s) small (omega (arith, pos_s)) (doubled s m ∙ is))
    ]

half_even-le : (n s k : ℕ) → 0 < s → n ≤ s * k → round_half_even n s ≤ k
half_even-le n s k pos_s small =
    let near = (round_half_even-IsNearest n s pos_s).1 in
    elim (Bool-cases (ltb k (round_half_even n s))) [
      | inl more ↦
          let product =
            mul-le-mul_left {m = suc k} {n = round_half_even n s} s
              (omega (arith, ltb→lt _ _ more)) in
          absurd (omega (arith, near, product, pos_s, small))
      | inr less ↦ ltb-false→le _ _ less
    ]

-- Rounding a value of at most 1.0 gives at most 1.0.
pub nearest-le : (n : ℕ) → n ≤ unit → nearest n 1 ≤ unit
unfolding nearest
nearest-le n small =
    let (k, is, pos_s) =
      spacing-divides unit spacing_fuel 1074 n 1 small (omega arith) (omega arith) in
    let s = spacing spacing_fuel n 1 1 in
    let h = half_even-le n (1 * s) k (omega (arith, pos_s)) (omega (arith, is, small)) in
    omega (arith, mul-le-mul_left {m = round_half_even n (1 * s)} {n = k} s h, is)

pos_sub : (u x : ℕ) → x ≤ u → pos u -ℤ pos x ≡ pos (u - x)
unfolding ◌-ℤ◌
pos_sub u x small = ground arith

signed_pos : (n m : ℕ) → signed (is_below_zero (pos n)) m ≡ pos m
signed_pos n zero = refl
signed_pos n (suc m) = ground arith

magnitude_pos : (n : ℕ) → magnitude (pos n) ≡ n
magnitude_pos n = omega arith

minus_by : (a b : ℤ) (n : ℕ) → a -ℤ b ≡ pos n → minus a b ≡ pos (nearest n 1)
unfolding minus
minus_by a b n is = rw is (
    ap (λ m. signed (is_below_zero (pos n)) (nearest m 1)) (magnitude_pos n)
    ∙ signed_pos n (nearest n 1))

min_large : (u x : ℕ) → ltb u x ≡ true → min (pos x) (pos u) ≡ pos u
min_large u x large = ground arith

min_small : (u x : ℕ) → ltb u x ≡ false → min (pos x) (pos u) ≡ pos x
min_small u x small = ground arith

max_pos : (y : ℕ) → max (pos 0) (pos y) ≡ pos y
max_pos y = ground arith

between : (u y : ℕ) → y ≤ u → (leb_ℤ (pos 0) (pos y) && leb_ℤ (pos y) (pos u)) ≡ true
between u y small = ground arith

sub-le : (u x : ℕ) → u - x ≤ u
sub-le u x = omega arith

kept_below : (x : ℕ) → x ≤ unit → is_confidence (max (pos 0) (minus one (pos x))) ≡ true
unfolding is_confidence
kept_below x small =
    rw (minus_by one (pos x) (unit - x) (pos_sub unit x small), max_pos (nearest (unit - x) 1))
      (between unit (nearest (unit - x) 1) (nearest-le (unit - x) (sub-le unit x)))

-- `max(0.0, 1.0 - min(x, 1.0))` lies in [0.0, 1.0] if x is not negative.
pub complement-Bounds : (x : ℕ) → is_confidence (max (pos 0) (minus one (min (pos x) one))) ≡ true
complement-Bounds x = elim (Bool-cases (ltb unit x)) [
  | inl large ↦ rw (min_large unit x large) (kept_below unit (omega arith))
  | inr small ↦ rw (min_small unit x small) (kept_below x (ltb-false→le unit x small))
]
