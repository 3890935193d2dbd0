-- ===== src/Temporal/Retried.antt =====
-- An activity that is attempted again after an attempt that has committed.
use loan_credit.Prelude.{◌≡◌, Bool, true, false, refl, ◌∙◌, ap, String}
use loan_credit.Domain.Error.{Error, Result, ok, err, duplicate_request}
use loan_credit.Store.Session.{Env, World, Action, continue, ◌>>=◌, pure, transaction}
use loan_credit.Store.Session.Atomic.{Leaves, leaves_rules}
use loan_credit.Commands.Common.{Runner}
use loan_credit.Queries.GetApplicationStatus.{get_application_status}
use loan_credit.Commands.Atomicity.{load-Leaves}
use loan_credit.Commands.Handlers.{Request, advance_intake, advance_documents, enter_review, handle}
use loan_credit.Commands.Idempotency.{HasKey, key_of, duplicate_is_rejected}
use loan_credit.Temporal.Activities.{
  ActivityContext, ActivityInfo, ActivityStatusResult, EnterHumanReviewActivityInput, activity_key,
  is_duplicate, rescue, on_duplicate, current_status, validate_intake_activity,
  check_required_documents_activity, enter_human_review_activity,
}

abbrev is_duplicate_result : {A : Type 0} → Result A → Bool
is_duplicate_result (ok a) = false
is_duplicate_result (err e) = is_duplicate e

-- The activities that move a case on without a person.
pub data Attempt : Type 0 where
  intake : ActivityContext → Attempt
  documents : ActivityContext → Attempt
  review : EnterHumanReviewActivityInput → Attempt

abbrev pub perform : Env → ActivityInfo → Attempt → Action ActivityStatusResult
perform env info (intake ctx) = validate_intake_activity env info ctx
perform env info (documents ctx) = check_required_documents_activity env info ctx
perform env info (review input) = enter_human_review_activity env info input

-- The request that the activity sends.
abbrev pub request_of : ActivityInfo → Attempt → Request
request_of info (intake ctx) = advance_intake (record {
  tenant_id = ctx.tenant_id;
  application_id = ctx.application_id;
  idempotency_key = activity_key info;
})
request_of info (documents ctx) = advance_documents (record {
  tenant_id = ctx.tenant_id;
  application_id = ctx.application_id;
  idempotency_key = activity_key info;
})
request_of info (review input) = enter_review (record {
  tenant_id = input.tenant_id;
  application_id = input.application_id;
  idempotency_key = activity_key info;
  reason = input.reason;
})

abbrev pub tenant_of : Attempt → String
tenant_of (intake ctx) = ctx.tenant_id
tenant_of (documents ctx) = ctx.tenant_id
tenant_of (review input) = input.tenant_id

abbrev pub case_of : Attempt → String
case_of (intake ctx) = ctx.application_id
case_of (documents ctx) = ctx.application_id
case_of (review input) = input.application_id

-- The activity answers what the status query answers, of a state with the same database, and
-- commits nothing.
pub record IsAnswered (env : Env) (info : ActivityInfo) (a : Attempt) (w : World) : Type 0 where
  pub seen : World
  pub same_database : seen.durable ≡ w.durable
  pub answers : perform env info a w ≡ current_status (tenant_of a) (case_of a) seen
  pub nothing_committed : (perform env info a w).1.durable ≡ w.durable

duplicate :
    {A : Type 0} {operation key : String} (e : Error)
    → ◌≡◌ {A = Result A} (err e) (err (duplicate_request operation key))
    → is_duplicate e ≡ true
duplicate e h = ap is_duplicate_result h

module _ {A B : Type 0} (m : Action A) (f : A → B) (w : World) (operation key : String) where
  continue_duplicate :
      (fallback : Action B) (r : Result A) (v : World)
      → (continue r (λ _. pure (tt {0})) v).0 ≡ err (duplicate_request operation key)
      → (let (s, u) = continue r (λ a. pure (f a)) v in rescue fallback s u)
        ≡ fallback (continue r (λ _. pure (tt {0})) v).1
  unfolding pure
  continue_duplicate fallback (ok a) v h = cc
  continue_duplicate fallback (err e) v h = rw (duplicate e h) refl

  rescued :
      (fallback : Action B)
      → ((m >>= λ _. pure (tt {0})) w).0 ≡ err (duplicate_request operation key)
      → on_duplicate (m >>= λ a. pure (f a)) fallback w ≡ fallback ((m >>= λ _. pure (tt {0})) w).1
  unfolding on_duplicate ◌>>=◌
  rescued fallback h = continue_duplicate fallback (m w).0 (m w).1 h

opened-Leaves :
    {A : Type 0} (tenant : String) (m : Action A) → Leaves m → Leaves (transaction tenant m)
unfolding transaction
opened-Leaves tenant m l = record {
  durable = λ w. l.durable (record w { view = w.durable; tenant = tenant });
}

current_status-Leaves : (tenant id : String) → Leaves (current_status tenant id)
unfolding current_status get_application_status
current_status-Leaves tenant id = search (leaves_rules, load-Leaves, opened-Leaves)

answered :
    {env : Env} {info : ActivityInfo} (a : Attempt) {w : World} (seen : World)
    → seen.durable ≡ w.durable
    → perform env info a w ≡ current_status (tenant_of a) (case_of a) seen
    → IsAnswered env info a w
answered a seen same answers = record {
  seen = seen;
  same_database = same;
  answers = answers;
  nothing_committed =
      ap (λ (r : Result ActivityStatusResult × World). r.1.durable) answers
      ∙ ((current_status-Leaves _ _).durable seen ∙ same);
}

-- The intake activity, the document check and the entry into human review: if the database has a
-- committed reservation of the activity's key for the operation of its handler, then the activity
-- answers what the status query answers of a state with the same committed database, and it commits
-- nothing.
pub retried-IsAnswered :
    (env : Env) (runner : Runner) (info : ActivityInfo) (a : Attempt) (w : World)
    → HasKey (key_of (request_of info a)) w.durable
    → IsAnswered env info a w
unfolding validate_intake_activity check_required_documents_activity enter_human_review_activity
    handle
retried-IsAnswered env runner info (intake ctx) w taken =
    let (raised, same) =
      duplicate_is_rejected env runner (request_of info (intake ctx)) w refl taken in
    answered _ _ same (rescued _ _ w _ _ _ raised)
retried-IsAnswered env runner info (documents ctx) w taken =
    let (raised, same) =
      duplicate_is_rejected env runner (request_of info (documents ctx)) w refl taken in
    answered _ _ same (rescued _ _ w _ _ _ raised)
retried-IsAnswered env runner info (review input) w taken =
    let (raised, same) =
      duplicate_is_rejected env runner (request_of info (review input)) w refl taken in
    answered _ _ same (rescued _ _ w _ _ _ raised)
