-- ===== src/Prelude/Lists.antt =====
-- Lists measured by native numbers, searched and filtered by Boolean tests.
use Prim.Native.Nat.{ℕ, suc, ◌+◌}
use mathlib.Core.Path.{◌≡◌, refl}
use mathlib.Core.Bool.{Bool, false, ◌||◌, ◌&&◌, true}
use mathlib.Core.List.{List, [], ◌∷◌, ◌++◌, map}
use mathlib.Core.Option.{Option, none, some}
use native.Mathlib.Omega.{arith}
use loan_credit.Prelude.Tests.{if◌then◌else◌}

module _ {ℓ} {A : Type ℓ} where
  abbrev pub length : List A → ℕ
  length [] = 0
  length (x ∷ xs) = suc (length xs)

  -- The first element that passes the test.
  abbrev pub find : (A → Bool) → List A → Option A
  find p [] = none
  find p (x ∷ xs) = if p x then some x else find p xs

  abbrev pub any : (A → Bool) → List A → Bool
  any p [] = false
  any p (x ∷ xs) = p x || any p xs

  abbrev pub filter : (A → Bool) → List A → List A
  filter p [] = []
  filter p (x ∷ xs) = let rest = filter p xs in if p x then x ∷ rest else rest

  pub length-append : (xs ys : List A) → length (xs ++ ys) ≡ length xs + length ys
  length-append [] ys = omega arith
  length-append (x ∷ xs) ys = omega (arith, length-append xs ys)

  -- What is found passes the test.
  pub find-eq-some : (p : A → Bool) (xs : List A) (x : A) → find p xs ≡ some x → p x ≡ true
  find-eq-some p [] x h = cc
  find-eq-some p (y ∷ ys) x h = ground (arith, find-eq-some p ys x)

  pub any-append : (p : A → Bool) (xs ys : List A) → any p (xs ++ ys) ≡ (any p xs || any p ys)
  any-append p [] ys = refl
  any-append p (x ∷ xs) ys = ground (arith, any-append p xs ys)

  pub find-append :
      (p : A → Bool) (xs : List A) (y : A)
      → find p xs ≡ none
      → find p (xs ++ y ∷ []) ≡ (if p y then some y else none)
  find-append p [] y h = refl
  find-append p (x ∷ xs) y h = ground (arith, find-append p xs y)

  pub find-append-some :
      (p : A → Bool) (xs ys : List A) (x : A) → find p xs ≡ some x → find p (xs ++ ys) ≡ some x
  find-append-some p [] ys x h = cc
  find-append-some p (y ∷ xs) ys x h = ground (arith, find-append-some p xs ys x)

  pub find-append-other :
      (p : A → Bool) (xs : List A) (y : A) → p y ≡ false → find p (xs ++ y ∷ []) ≡ find p xs
  find-append-other p [] y h = rw h refl
  find-append-other p (x ∷ xs) y h = ground (arith, find-append-other p xs y)

  -- The first element with both properties, if the first with one of them has the other.
  pub find-and :
      (p q : A → Bool) (xs : List A) (x : A)
      → find p xs ≡ some x
      → q x ≡ true
      → find (λ y. p y && q y) xs ≡ some x
  find-and p q [] x h k = cc
  find-and p q (y ∷ xs) x h k = ground (arith, find-and p q xs x)

  pub find-and-none :
      (p q : A → Bool) (xs : List A) → find p xs ≡ none → find (λ y. p y && q y) xs ≡ none
  find-and-none p q [] h = refl
  find-and-none p q (y ∷ xs) h = ground (arith, find-and-none p q xs)

  -- A change that the test does not see.
  pub find-map-some :
      (p : A → Bool) (f : A → A) (xs : List A) (x : A)
      → ((y : A) → p (f y) ≡ p y)
      → find p xs ≡ some x
      → find p (map f xs) ≡ some (f x)
  find-map-some p f [] x same h = cc
  find-map-some p f (y ∷ xs) x same h = ground (arith, find-map-some p f xs x same, same y)

  pub find-map-none :
      (p : A → Bool) (f : A → A) (xs : List A)
      → ((y : A) → p (f y) ≡ p y)
      → find p xs ≡ none
      → find p (map f xs) ≡ none
  find-map-none p f [] same h = refl
  find-map-none p f (y ∷ xs) same h = ground (arith, find-map-none p f xs same, same y)

  pub find-none-any : (p : A → Bool) (xs : List A) → find p xs ≡ none → any p xs ≡ false
  find-none-any p [] h = refl
  find-none-any p (x ∷ xs) h = ground (arith, find-none-any p xs)

  -- A change of elements that the test refuses.
  pub find-map-other :
      (p : A → Bool) (f : A → A) (xs : List A)
      → ((y : A) → p (f y) ≡ p y)
      → ((y : A) → p y ≡ true → f y ≡ y)
      → find p (map f xs) ≡ find p xs
  find-map-other p f [] same fixed = refl
  find-map-other p f (y ∷ xs) same fixed =
      ground (arith, find-map-other p f xs same fixed, same y, fixed y)
