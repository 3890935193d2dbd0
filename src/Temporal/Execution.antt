-- ===== src/Temporal/Execution.antt =====
-- What it means that Temporal executes an activity at least once, and the steps of the activities
-- that no handler takes.
use loan_credit.Prelude.{◌≡◌, sym, arith, Bool-cases, inl, inr, String}
use loan_credit.Domain.Status.{ApplicationStatus, value, of_value}
use loan_credit.Domain.Status.Paths.{of_value_iff}
use loan_credit.Domain.Error.{Error, Result, ok, err}
use loan_credit.Store.Rows.{Db}
use loan_credit.Store.Session.{lift, World, Action, continue, ◌>>=◌, pure}
use loan_credit.Store.Session.Keeps.{Keeps, Good, keeps_rules}
use loan_credit.Store.Documents.{list_for_application}
use loan_credit.Store.Repository.{get_application, status_of}
use loan_credit.Store.Verification.{get_checks_for_application}
use loan_credit.Commands.Common.{load}
use loan_credit.Queries.GetApplicationStatus.{get_application_status}
use loan_credit.Temporal.Activities.{is_duplicate, rescue, on_duplicate, current_status}
use loan_credit.Temporal.Workflow.{Execute}

-- What executions of an activity lead to: it runs at least once, any attempt may be followed by
-- another, whatever it returned, and Temporal may give up after an attempt with an error of its own.
pub data Executes {A : Type 0} (m : Action A) : World → Result A → World → Type 0 where
  completes : (w : World) → Executes m w (m w).0 (m w).1
  gives_up : (w : World) (e : Error) → Executes m w (err e) (m w).1
  retries : (w : World) {r : Result A} {v : World} → Executes m (m w).1 r v → Executes m w r v

-- Temporal's promise: an activity is executed, at least once.
abbrev pub IsAtLeastOnce : Execute → Type 1
IsAtLeastOnce execute =
    (A : Type 0) (activity : String) (m : Action A) (w : World)
    → Executes m w (execute A activity m w).0 (execute A activity m w).1

module _ {P : World → Type 0} {A : Type 0} where
  pub executed :
      (m : Action A) {w v : World} {r : Result A} → Keeps P m → Executes m w r v → P w → P v
  executed m k (completes w) h = k.at w h
  executed m k (gives_up w e) h = k.at w h
  executed m k (retries w more) h = executed m k more (k.at w h)

  rescue-Keeps :
      (fallback : Action A) (r : Result A) → Keeps P fallback → Keeps P (rescue fallback r)
  rescue-Keeps fallback (ok a) k = record { at = λ w h. h }
  rescue-Keeps fallback (err e) k = record {
    at = λ w h. elim (Bool-cases (is_duplicate e)) [
      | inl again ↦ rw again (k.at w h)
      | inr other ↦ rw other h
    ];
  }

  pub Keeps-on_duplicate :
      (m fallback : Action A) → Keeps P m → Keeps P fallback → Keeps P (on_duplicate m fallback)
  unfolding on_duplicate
  Keeps-on_duplicate m fallback km kf = record {
    at = λ w h. (rescue-Keeps fallback (m w).0 kf).at (m w).1 (km.at w h);
  }

continue_unit :
    {A : Type 0} (P : World → Type 0) (r : Result A) (w : World)
    → P (continue r (λ _. pure (tt {0})) w).1
    → P w
unfolding pure
continue_unit P (ok a) w h = h
continue_unit P (err e) w h = h

-- The handler behind a request keeps what the request keeps.
pub Keeps-handler :
    {A : Type 0} {P : World → Type 0} (m : Action A)
    → Keeps P (m >>= λ _. pure (tt {0}))
    → Keeps P m
unfolding ◌>>=◌
Keeps-handler {P = P} m k = record { at = λ w h. continue_unit P (m w).0 (m w).1 (k.at w h) }

pub decision_read :
    (text : String) (s : ApplicationStatus) (w : World)
    → (lift (status_of (of_value text)) w).0 ≡ ok s
    → value s ≡ text
unfolding lift
decision_read text s w h = sym ((of_value_iff text s).0 (ground (arith, h)))

module _ {I : Db → Type 0} where
  pub load-Keeps : (tenant id : String) → Keeps (Good I) (load tenant id)
  unfolding load get_application
  load-Keeps tenant id = search keeps_rules

  pub current_status-Keeps : (tenant id : String) → Keeps (Good I) (current_status tenant id)
  unfolding current_status get_application_status
  current_status-Keeps tenant id = search (keeps_rules, load-Keeps)

  pub list-Keeps : (tenant id : String) → Keeps (Good I) (list_for_application tenant id)
  unfolding list_for_application
  list-Keeps tenant id = search keeps_rules

  pub checks-Keeps : (tenant id : String) → Keeps (Good I) (get_checks_for_application tenant id)
  unfolding get_checks_for_application
  checks-Keeps tenant id = search keeps_rules
