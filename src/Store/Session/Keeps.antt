-- ===== src/Store/Session/Keeps.antt =====
-- Invariants of actions: one rule for each way to build an action. `Good I` is an invariant of the
-- database that holds of what is committed and of the transaction's view.
use loan_credit.Prelude.{
  ◌≡◌, refl, Bool, true, false, Option, none, some, String, str_eq, Bool-cases, inl, inr,
  if◌then◌else◌,
}
use loan_credit.Domain.Error.{Error, Result, ok, err}
use loan_credit.Store.Rows.{Db}
use loan_credit.Store.Session.{
  Env, World, Action, continue, pure, raise, lift, read, or_raise, raise_if, ◌>>=◌, caught, now,
  new_id, insert_row, commit, transaction,
}

-- `m` keeps `P`, whether it returns or raises.
pub record Keeps {A : Type 0} (P : World → Type 0) (m : Action A) : Type 0 where
  pub at : (w : World) → P w → P (m w).1

pub record Good (I : Db → Type 0) (w : World) : Type 0 where
  pub committed : I w.durable
  pub current : I w.view

module _ {P : World → Type 0} {A : Type 0} where
  pub Keeps-pure : (a : A) → Keeps P (pure a)
  unfolding pure
  Keeps-pure a = record { at = λ w h. h }

  pub Keeps-raise : (e : Error) → Keeps P (raise {A = A} e)
  unfolding raise
  Keeps-raise e = record { at = λ w h. h }

  pub Keeps-lift : (r : Result A) → Keeps P (lift r)
  unfolding lift
  Keeps-lift r = record { at = λ w h. h }

  pub Keeps-read : (f : World → Result A) → Keeps P (read f)
  unfolding read
  Keeps-read f = record { at = λ w h. h }

  pub Keeps-or_raise : (o : Option A) (e : Error) → Keeps P (or_raise o e)
  unfolding or_raise
  Keeps-or_raise none e = record { at = λ w h. h }
  Keeps-or_raise (some a) e = record { at = λ w h. h }

  pub Keeps-if : (b : Bool) (m n : Action A) → Keeps P m → Keeps P n → Keeps P (if b then m else n)
  Keeps-if true m n km kn = km
  Keeps-if false m n km kn = kn

module _ {P : World → Type 0} where
  pub Keeps-raise_if : (b : Bool) (e : Error) → Keeps P (raise_if b e)
  unfolding raise_if
  Keeps-raise_if true e = record { at = λ w h. h }
  Keeps-raise_if false e = record { at = λ w h. h }

module _ {P : World → Type 0} {A B : Type 0} where
  continue-keeps :
      (r : Result A) (f : A → Action B) (w : World)
      → ((a : A) → r ≡ ok a → Keeps P (f a))
      → P w
      → P (continue r f w).1
  continue-keeps (ok a) f w kf h = (kf a refl).at w h
  continue-keeps (err e) f w kf h = h

  pub Keeps-bind :
      (m : Action A) (f : A → Action B) → Keeps P m → ((a : A) → Keeps P (f a)) → Keeps P (m >>= f)
  unfolding ◌>>=◌
  Keeps-bind m f km kf = record {
    at = λ w h. continue-keeps (m w).0 f (m w).1 (λ a _. kf a) (km.at w h);
  }

  -- What follows a step may use a fact `F` about the value that the step returns.
  pub Keeps-bind-fact :
      (F : A → Type 0) (m : Action A) (f : A → Action B)
      → Keeps P m
      → ((w : World) (a : A) → (m w).0 ≡ ok a → F a)
      → ((a : A) → F a → Keeps P (f a))
      → Keeps P (m >>= f)
  unfolding ◌>>=◌
  Keeps-bind-fact F m f km fact kf = record {
    at = λ w h. continue-keeps (m w).0 f (m w).1 (λ a e. kf a (fact w a e)) (km.at w h);
  }

  pub Keeps-caught :
      (handler : Result A → Result B) (m : Action A) → Keeps P m → Keeps P (caught handler m)
  unfolding caught
  Keeps-caught handler m km = record { at = km.at }

module _ {I : Db → Type 0} where
  pub Good-now : (env : Env) → Keeps (Good I) (now env)
  unfolding now
  Good-now env = record { at = λ w h. record { committed = h.committed; current = h.current } }

  pub Good-new_id : (env : Env) → Keeps (Good I) (new_id env)
  unfolding new_id
  Good-new_id env = record { at = λ w h. record { committed = h.committed; current = h.current } }

  pub Good-commit : Keeps (Good I) commit
  unfolding commit
  Good-commit = record { at = λ w h. record { committed = h.current; current = h.current } }

  -- An INSERT into one state.
  pub insert_row-at :
      (table row_tenant : String) (clash : Db → Bool) (insert : Db → Db) (w : World)
      → (clash w.view ≡ false → I w.view → I (insert w.view))
      → Good I w
      → Good I (insert_row table row_tenant clash insert w).1
  unfolding insert_row
  insert_row-at table row_tenant clash insert w kept h =
      elim (Bool-cases (str_eq row_tenant w.tenant)) [
        | inl own ↦ elim (Bool-cases (clash w.view)) [
          | inl taken ↦ rw own (rw taken h)
          | inr free ↦
              rw own (rw free (record { committed = h.committed; current = kept free h.current }))
        ]
        | inr foreign ↦ rw foreign h
      ]

  -- An INSERT keeps an invariant that the new row keeps.
  pub Good-insert_row :
      (table row_tenant : String) (clash : Db → Bool) (insert : Db → Db)
      → ((db : Db) → clash db ≡ false → I db → I (insert db))
      → Keeps (Good I) (insert_row table row_tenant clash insert)
  Good-insert_row table row_tenant clash insert kept = record {
    at = λ w h. insert_row-at table row_tenant clash insert w (kept w.view) h;
  }

  -- In a transaction it is enough that what is committed is good at the end.
  pub Good-transaction :
      {A : Type 0} (tenant : String) (body : Action A)
      → ((w : World) → Good I w → I (body w).1.durable)
      → Keeps (Good I) (transaction tenant body)
  unfolding transaction
  Good-transaction tenant body settles = record {
    at = λ w h.
        let after =
          settles (record w { view = w.durable; tenant = tenant })
            (record { committed = h.committed; current = h.committed }) in
        record { committed = after; current = after };
  }

  pub Good-transaction-Keeps :
      {A : Type 0} (tenant : String) (body : Action A)
      → Keeps (Good I) body
      → Keeps (Good I) (transaction tenant body)
  Good-transaction-Keeps tenant body k = Good-transaction tenant body (λ w h. (k.at w h).committed)

pub ruleset keeps_rules = (
  Keeps-pure, Keeps-raise, Keeps-lift, Keeps-read, Keeps-or_raise, Keeps-raise_if, Keeps-if,
  Keeps-bind, Keeps-caught, Good-now, Good-new_id, Good-commit, Good-transaction-Keeps,
)
