-- ===== src/Store/Session/Never.antt =====
-- Steps that cannot return from a state where `P` holds.
use loan_credit.Prelude.{◌≡◌, refl}
use loan_credit.Domain.Error.{Error, Result, ok, err}
use loan_credit.Store.Session.{World, Action, continue, ◌>>=◌}
use loan_credit.Store.Session.Keeps.{Keeps}

pub record Never {A : Type 0} (P : World → Type 0) (m : Action A) : Type 0 where
  pub at : (w : World) → P w → (a : A) → (m w).0 ≡ ok a → ⊥

pub result_is_error :
    {A : Type 0} (r : Result A) → ((a : A) → r ≡ ok a → ⊥) → (e : Error) × (r ≡ err e)
result_is_error (ok a) never = absurd (never a refl)
result_is_error (err e) never = (e, refl)

continue-Never :
    {A B : Type 0} (P : World → Type 0) (r : Result A) (f : A → Action B) (w : World)
    → ((a : A) → r ≡ ok a → Never P (f a))
    → P w
    → (b : B) → (continue r f w).0 ≡ ok b
    → ⊥
continue-Never P (ok a) f w nf h b e = (nf a refl).at w h b e
continue-Never P (err e') f w nf h b e = cc

continue-Never-first :
    {A B : Type 0} (r : Result A) (f : A → Action B) (w : World)
    → ((a : A) → r ≡ ok a → ⊥)
    → (b : B) → (continue r f w).0 ≡ ok b
    → ⊥
continue-Never-first (ok a) f w n b e = n a refl
continue-Never-first (err e') f w n b e = cc

module _ {P : World → Type 0} {A B : Type 0} where
  pub Never-first : (m : Action A) (f : A → Action B) → Never P m → Never P (m >>= f)
  unfolding ◌>>=◌
  Never-first m f n = record { at = λ w h. continue-Never-first (m w).0 f (m w).1 (n.at w h) }

  pub Never-bind :
      (m : Action A) (f : A → Action B) → Keeps P m → ((a : A) → Never P (f a)) → Never P (m >>= f)
  unfolding ◌>>=◌
  Never-bind m f k nf = record {
    at = λ w h. continue-Never P (m w).0 f (m w).1 (λ a _. nf a) (k.at w h);
  }

  pub Never-bind-fact :
      (F : A → Type 0) (m : Action A) (f : A → Action B)
      → Keeps P m
      → ((w : World) (a : A) → (m w).0 ≡ ok a → F a)
      → ((a : A) → F a → Never P (f a))
      → Never P (m >>= f)
  unfolding ◌>>=◌
  Never-bind-fact F m f k fact nf = record {
    at = λ w h. continue-Never P (m w).0 f (m w).1 (λ a e. nf a (fact w a e)) (k.at w h);
  }
