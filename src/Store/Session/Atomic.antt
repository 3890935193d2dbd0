-- ===== src/Store/Session/Atomic.antt =====
-- Atomicity: steps that leave alone what is committed, and computations that commit nothing if they
-- raise.
use loan_credit.Prelude.{
  ◌≡◌, refl, ◌∙◌, Bool, true, false, Option, none, some, String, str_eq, Bool-cases, inl, inr,
  if◌then◌else◌,
}
use loan_credit.Domain.Error.{Error, Result, ok, err}
use loan_credit.Store.Rows.{Db}
use loan_credit.Store.Session.{
  Env, World, Action, continue, pure, lift, read, or_raise, raise_if, ◌>>=◌, caught, now, new_id,
  insert_row, commit, transaction,
}

-- The step leaves alone what is committed.
pub record Leaves {A : Type 0} (m : Action A) : Type 0 where
  pub durable : (w : World) → (m w).1.durable ≡ w.durable

-- The step returns, whatever the state.
pub record Returns {A : Type 0} (m : Action A) : Type 0 where
  pub result : (w : World) (e : Error) → (m w).0 ≡ err e → ⊥

-- If the step raises, what is committed is as before.
pub record IsAtomic {A : Type 0} (m : Action A) : Type 0 where
  pub at : (w : World) (e : Error) → (m w).0 ≡ err e → (m w).1.durable ≡ w.durable

module _ {A : Type 0} where
  pub Leaves-pure : (a : A) → Leaves (pure a)
  unfolding pure
  Leaves-pure a = record { durable = λ w. refl }

  pub Leaves-lift : (r : Result A) → Leaves (lift r)
  unfolding lift
  Leaves-lift r = record { durable = λ w. refl }

  pub Leaves-read : (f : World → Result A) → Leaves (read f)
  unfolding read
  Leaves-read f = record { durable = λ w. refl }

  pub Leaves-or_raise : (o : Option A) (e : Error) → Leaves (or_raise o e)
  unfolding or_raise
  Leaves-or_raise none e = record { durable = λ w. refl }
  Leaves-or_raise (some a) e = record { durable = λ w. refl }

  pub Leaves-if : (b : Bool) (m n : Action A) → Leaves m → Leaves n → Leaves (if b then m else n)
  Leaves-if true m n lm ln = lm
  Leaves-if false m n lm ln = ln

  pub IsAtomic-Leaves : (m : Action A) → Leaves m → IsAtomic m
  IsAtomic-Leaves m l = record { at = λ w e h. l.durable w }

  pub IsAtomic-transaction :
      (tenant : String) (m : Action A) → IsAtomic m → IsAtomic (transaction tenant m)
  unfolding transaction
  IsAtomic-transaction tenant m a = record {
    at = λ w e h. a.at (record w { view = w.durable; tenant = tenant }) e h;
  }

  pub IsAtomic-commit : (a : A) → IsAtomic (commit >>= λ _. pure a)
  unfolding commit ◌>>=◌
  IsAtomic-commit a = record { at = λ w e h. cc }

  pub Returns-pure : (a : A) → Returns (pure a)
  unfolding pure
  Returns-pure a = record { result = λ w e h. cc }

pub Leaves-raise_if : (b : Bool) (e : Error) → Leaves (raise_if b e)
unfolding raise_if
Leaves-raise_if true e = record { durable = λ w. refl }
Leaves-raise_if false e = record { durable = λ w. refl }

pub Leaves-now : (env : Env) → Leaves (now env)
unfolding now
Leaves-now env = record { durable = λ w. refl }

pub Leaves-new_id : (env : Env) → Leaves (new_id env)
unfolding new_id
Leaves-new_id env = record { durable = λ w. refl }

pub Leaves-insert_row :
    (table row_tenant : String) (clash : Db → Bool) (insert : Db → Db)
    → Leaves (insert_row table row_tenant clash insert)
unfolding insert_row
Leaves-insert_row table row_tenant clash insert = record {
  durable = λ w. elim (Bool-cases (str_eq row_tenant w.tenant)) [
    | inl own ↦ elim (Bool-cases (clash w.view)) [
      | inl taken ↦ rw own (rw taken refl)
      | inr free ↦ rw own (rw free refl)
    ]
    | inr foreign ↦ rw foreign refl
  ];
}

module _ {A B : Type 0} where
  continue-durable :
      (r : Result A) (f : A → Action B) (w : World)
      → ((a : A) → Leaves (f a))
      → (continue r f w).1.durable ≡ w.durable
  continue-durable (ok a) f w lf = (lf a).durable w
  continue-durable (err e) f w lf = refl

  pub Leaves-bind :
      (m : Action A) (f : A → Action B) → Leaves m → ((a : A) → Leaves (f a)) → Leaves (m >>= f)
  unfolding ◌>>=◌
  Leaves-bind m f lm lf = record {
    durable = λ w. continue-durable (m w).0 f (m w).1 lf ∙ lm.durable w;
  }

  pub Leaves-caught :
      (handler : Result A → Result B) (m : Action A) → Leaves m → Leaves (caught handler m)
  unfolding caught
  Leaves-caught handler m l = record { durable = l.durable }

  continue-atomic :
      (r : Result A) (f : A → Action B) (w : World) (e : Error)
      → ((a : A) → IsAtomic (f a))
      → (continue r f w).0 ≡ err e
      → (continue r f w).1.durable ≡ w.durable
  continue-atomic (ok a) f w e af h = (af a).at w e h
  continue-atomic (err e') f w e af h = refl

  pub IsAtomic-bind :
      (m : Action A) (f : A → Action B) → Leaves m → ((a : A) → IsAtomic (f a)) → IsAtomic (m >>= f)
  unfolding ◌>>=◌
  IsAtomic-bind m f lm af = record {
    at = λ w e h. continue-atomic (m w).0 f (m w).1 e af h ∙ lm.durable w;
  }

  continue-after :
      (r : Result A) (f : A → Action B) (w : World) (db : Db) (e : Error)
      → ((a : A) → Returns (f a))
      → ((e' : Error) → r ≡ err e' → w.durable ≡ db)
      → (continue r f w).0 ≡ err e
      → (continue r f w).1.durable ≡ db
  continue-after (ok a) f w db e rf am h = absurd ((rf a).result w e h)
  continue-after (err e') f w db e rf am h = am e' refl

  -- What follows the transaction must not raise.
  pub IsAtomic-then :
      (m : Action A) (f : A → Action B)
      → IsAtomic m
      → ((a : A) → Returns (f a))
      → IsAtomic (m >>= f)
  unfolding ◌>>=◌
  IsAtomic-then m f am rf = record {
    at = λ w e h. continue-after (m w).0 f (m w).1 w.durable e rf (am.at w) h;
  }

  continue-Returns :
      (r : Result A) (f : A → Action B) (w : World) (e : Error)
      → ((e' : Error) → r ≡ err e' → ⊥)
      → ((a : A) → Returns (f a))
      → (continue r f w).0 ≡ err e
      → ⊥
  continue-Returns (ok a) f w e rm rf h = (rf a).result w e h
  continue-Returns (err e') f w e rm rf h = rm e' refl

  pub Returns-bind :
      (m : Action A) (f : A → Action B) → Returns m → ((a : A) → Returns (f a)) → Returns (m >>= f)
  unfolding ◌>>=◌
  Returns-bind m f rm rf = record {
    result = λ w e h. continue-Returns (m w).0 f (m w).1 e (rm.result w) rf h;
  }

pub ruleset leaves_rules = (
  Leaves-pure, Leaves-lift, Leaves-read, Leaves-or_raise, Leaves-raise_if, Leaves-if, Leaves-now,
  Leaves-new_id, Leaves-insert_row, Leaves-bind, Leaves-caught,
)
