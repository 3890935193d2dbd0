-- ===== src/Domain/Application/History.antt =====
-- The pending events of an aggregate as its history, read in order.
use loan_credit.Prelude.{
  ℕ, ◌+◌, ◌≡◌, refl, true, ◌&&◌, Option, none, some, List, [], ◌∷◌, ◌++◌, String, arith, subst, sym,
  length-append, ◌==◌, ==-refl, if◌then◌else◌, length,
}
use loan_credit.Prelude.Int.{ℤ}
use loan_credit.Domain.Status.{ApplicationStatus, draft, rank, same_status, is_legal_transition}
use loan_credit.Domain.Error.{ok, err, illegal_state_transition}
use loan_credit.Domain.Money.{Money}
use loan_credit.Domain.Product.{Product}
use loan_credit.Domain.Event.{
  EventBody, DomainEvent, application_created, application_state_changed,
}
use loan_credit.Domain.Application.{
  Application, create, moved_to, transition_to, attach_workflow, detach_workflow,
}

-- One event after a status and a version: a creation opens the history, a change must start where
-- the history stands, be legal and carry the next version.
abbrev pub replay_event :
    Option (ApplicationStatus × ℕ) → EventBody → Option (ApplicationStatus × ℕ)
replay_event none (application_created product_id) = some (draft, 1)
replay_event (some (s, v)) (application_state_changed previous new reason version) =
    if same_status s previous && (is_legal_transition s new && version == v + 1)
    then some (new, version)
    else none
replay_event _ _ = none

abbrev pub replay :
    Option (ApplicationStatus × ℕ) → List DomainEvent → Option (ApplicationStatus × ℕ)
replay state [] = state
replay state (e ∷ es) = replay (replay_event state e.body) es

pub record IsHistory (a : Application) : Type 0 where
  pub replays : replay none a.pending_events ≡ some (a.status, a.version)
  pub counted : length a.pending_events ≡ a.version

-- What a caller does with an aggregate between its creation and its being saved.
pub data Step : Application → Application → Type 0 where
  transition :
      {a b : Application} (status : ApplicationStatus) (reason : String) (now : ℕ)
      → transition_to a status reason now ≡ ok b
      → Step a b
  attach : {a : Application} (workflow_id : String) → Step a (attach_workflow a workflow_id)
  detach : {a : Application} → Step a (detach_workflow a)

pub data Steps (a : Application) : Application → Type 0 where
  here : Steps a a
  next : {b c : Application} → Steps a b → Step b c → Steps a c

replay-append :
    (state : Option (ApplicationStatus × ℕ)) (es : List DomainEvent) (e : DomainEvent)
    → replay state (es ++ e ∷ []) ≡ replay_event (replay state es) e.body
replay-append state [] e = refl
replay-append state (x ∷ es) e = replay-append (replay_event state x.body) es e

same_status_refl : (s : ApplicationStatus) → same_status s s ≡ true
same_status_refl s = ==-refl (rank s)

-- `transition_to` raises exactly for an illegal transition; otherwise the version grows by one and
-- one event is appended, which records the old status, the new one and the new version.
pub transition_to_cases :
    (a : Application) (status : ApplicationStatus) (reason : String) (now : ℕ)
    → transition_to a status reason now ≡ (
        if is_legal_transition a.status status
        then ok (moved_to a status reason now)
        else err (illegal_state_transition a.status status))
unfolding transition_to
transition_to_cases a status reason now = ground arith

pub transition_to-eq-ok :
    (a : Application) (status : ApplicationStatus) (reason : String) (now : ℕ) (b : Application)
    → transition_to a status reason now ≡ ok b
    → (is_legal_transition a.status status ≡ true) × (b ≡ moved_to a status reason now)
unfolding transition_to
transition_to-eq-ok a status reason now b h = ground arith

moved_to-IsHistory :
    (a : Application) (status : ApplicationStatus) (reason : String) (now : ℕ)
    → is_legal_transition a.status status ≡ true
    → IsHistory a
    → IsHistory (moved_to a status reason now)
unfolding moved_to
moved_to-IsHistory a status reason now legal i = record {
  replays = rw (replay-append none a.pending_events) (
      rw i.replays (rw (same_status_refl a.status) (rw legal (rw (==-refl (a.version + 1)) refl))));
  counted = rw (length-append a.pending_events) (omega (arith, i.counted));
}

transition_to-IsHistory :
    (a b : Application) (status : ApplicationStatus) (reason : String) (now : ℕ)
    → transition_to a status reason now ≡ ok b
    → IsHistory a
    → IsHistory b
transition_to-IsHistory a b status reason now h i =
    let (legal, e) = transition_to-eq-ok a status reason now b h in
    subst IsHistory (sym e) (moved_to-IsHistory a status reason now legal i)

create-IsHistory :
    (application_id tenant_id applicant_id : String) (p : Product) (amount : Money) (term : ℤ)
    (now : ℕ) (a : Application)
    → create application_id tenant_id applicant_id p amount term now ≡ ok a
    → IsHistory a
unfolding create
create-IsHistory application_id tenant_id applicant_id p amount term now a h = ground arith

Step-IsHistory : {a b : Application} → Step a b → IsHistory a → IsHistory b
unfolding attach_workflow detach_workflow
Step-IsHistory (transition {a} {b} status reason now h) i =
    transition_to-IsHistory a b status reason now h i
Step-IsHistory (attach workflow_id) i = record { replays = i.replays; counted = i.counted }
Step-IsHistory detach i = record { replays = i.replays; counted = i.counted }

-- From its creation on, whatever transitions are asked for and whatever workflows are attached, the
-- pending events of an aggregate replay, each change legal and starting where the one before ended,
-- to its current status and version; and there are as many events as the version says.
pub Steps-IsHistory :
    (application_id tenant_id applicant_id : String) (p : Product) (amount : Money) (term : ℤ)
    (now : ℕ) {a b : Application}
    → create application_id tenant_id applicant_id p amount term now ≡ ok a
    → Steps a b
    → IsHistory b
Steps-IsHistory application_id tenant_id applicant_id p amount term now created here =
    create-IsHistory application_id tenant_id applicant_id p amount term now _ created
Steps-IsHistory application_id tenant_id applicant_id p amount term now created (next rest step) =
    Step-IsHistory step
      (Steps-IsHistory application_id tenant_id applicant_id p amount term now created rest)
