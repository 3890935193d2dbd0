-- ===== src/Store/Session/Runs.antt =====
-- Steps with a condition before and another after: where an invariant is broken for a while inside
-- a transaction, only what is committed has to be good if the transaction stops there.
use loan_credit.Prelude.{◌≡◌, refl, String}
use loan_credit.Domain.Error.{Result, ok, err}
use loan_credit.Store.Rows.{Db}
use loan_credit.Store.Session.{World, Action, continue, ◌>>=◌, read, transaction}
use loan_credit.Store.Session.Keeps.{Keeps, Good, Good-transaction}

abbrev pub Ends : {A : Type 0} (I : Db → Type 0) (Post : World → Type 0) → Result A → World → Type 0
Ends I Post (ok a) w = Post w
Ends I Post (err e) w = I w.durable

-- From `Pre`, a return is in `Post`; what is committed when the step raises satisfies `I`.
pub record Runs {A : Type 0} (I : Db → Type 0) (Pre Post : World → Type 0) (m : Action A)
    : Type 0 where
  pub at : (w : World) → Pre w → Ends I Post (m w).0 (m w).1

Ends-committed :
    {A : Type 0} (I : Db → Type 0) (r : Result A) (w : World) → Ends I (Good I) r w → I w.durable
Ends-committed I (ok a) w h = h.committed
Ends-committed I (err e) w h = h

module _ {I : Db → Type 0} {A : Type 0} where
  Good-Ends : (r : Result A) (w : World) → Good I w → Ends I (Good I) r w
  Good-Ends (ok a) w h = h
  Good-Ends (err e) w h = h.committed

  pub Runs-Keeps : (m : Action A) → Keeps (Good I) m → Runs I (Good I) (Good I) m
  Runs-Keeps m k = record { at = λ w h. Good-Ends (m w).0 (m w).1 (k.at w h) }

  pub Runs-transaction :
      (tenant : String) (m : Action A)
      → Runs I (Good I) (Good I) m
      → Keeps (Good I) (transaction tenant m)
  Runs-transaction tenant m r =
      Good-transaction tenant m (λ w h. Ends-committed I (m w).0 (m w).1 (r.at w h))

continue-Runs :
    {A B : Type 0} (I : Db → Type 0) (Mid Post : World → Type 0) (r : Result A) (f : A → Action B)
    (w : World)
    → ((a : A) → r ≡ ok a → Runs I Mid Post (f a))
    → Ends I Mid r w
    → Ends I Post (continue r f w).0 (continue r f w).1
continue-Runs I Mid Post (ok a) f w rf h = (rf a refl).at w h
continue-Runs I Mid Post (err e) f w rf h = h

Ends-same :
    {A : Type 0} (I : Db → Type 0) (Pre : World → Type 0) (r : Result A) (w : World)
    → (Pre w → I w.durable)
    → Pre w
    → Ends I Pre r w
Ends-same I Pre (ok a) w safe h = h
Ends-same I Pre (err e) w safe h = safe h

pub Runs-read :
    {I : Db → Type 0} {Pre : World → Type 0} {A : Type 0} (f : World → Result A)
    → ((w : World) → Pre w → I w.durable)
    → Runs I Pre Pre (read f)
unfolding read
Runs-read {I = I} {Pre = Pre} f safe = record { at = λ w h. Ends-same I Pre (f w) w (safe w) h }

module _ {I : Db → Type 0} {Pre Mid Post : World → Type 0} {A B : Type 0} where
  pub Runs-bind :
      (m : Action A) (f : A → Action B)
      → Runs I Pre Mid m
      → ((a : A) → Runs I Mid Post (f a))
      → Runs I Pre Post (m >>= f)
  unfolding ◌>>=◌
  Runs-bind m f rm rf = record {
    at = λ w h. continue-Runs I Mid Post (m w).0 f (m w).1 (λ a _. rf a) (rm.at w h);
  }

  pub Runs-bind-fact :
      (F : A → Type 0) (m : Action A) (f : A → Action B)
      → Runs I Pre Mid m
      → ((w : World) (a : A) → (m w).0 ≡ ok a → F a)
      → ((a : A) → F a → Runs I Mid Post (f a))
      → Runs I Pre Post (m >>= f)
  unfolding ◌>>=◌
  Runs-bind-fact F m f rm fact rf = record {
    at = λ w h. continue-Runs I Mid Post (m w).0 f (m w).1 (λ a e. rf a (fact w a e)) (rm.at w h);
  }
