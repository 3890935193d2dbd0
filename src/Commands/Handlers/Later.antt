-- ===== src/Commands/Handlers/Later.antt =====
-- What stays once it holds: entries of the review queue and reservations of idempotency keys.
use loan_credit.Prelude.{◌≡◌, sym, subst}
use loan_credit.Domain.Error.{Error, err}
use loan_credit.Store.Rows.{Db}
use loan_credit.Store.Session.{Env, World}
use loan_credit.Store.Session.Keeps.{Good}
use loan_credit.Commands.Common.{Runner}
use loan_credit.Commands.Closed.{IsClosed, handle-Closed}
use loan_credit.Commands.Handlers.{Request, handle}
use loan_credit.Commands.EnterHumanReview.{EnterHumanReviewCommand, handle_enter_human_review}
use loan_credit.Commands.ReviewOnce.{HasEntry, HasEntry-IsClosed, second_review_fails}

-- The states after any further requests, the failed ones included.
pub data Later (env : Env) (runner : Runner) (w : World) : World → Type 0 where
  here : Later env runner w w
  serve :
      {v : World} (r : Request)
      → Later env runner w v
      → Later env runner w (handle env runner r v).1

Later-Good :
    {I : Db → Type 0} {env : Env} {runner : Runner} {w v : World}
    → IsClosed env I
    → Good I w
    → Later env runner w v
    → Good I v
Later-Good closed h here = h
Later-Good closed h (serve r p) = (handle-Closed closed _ r).at _ (Later-Good closed h p)

-- Once the committed review queue has an entry for an application, EnterHumanReview raises for that
-- application, and commits nothing, in every later state, whichever requests come in between: a
-- case that is resubmitted cannot be queued for a second review. (Between requests a session's view
-- is what is committed.)
pub reviewed_only_once :
    {env : Env} {runner : Runner} {w v : World} (c : EnterHumanReviewCommand)
    → w.view ≡ w.durable
    → HasEntry c.application_id w.durable
    → Later env runner w v
    → (e : Error) × ((handle_enter_human_review env c v).0 ≡ err e)
      × ((handle_enter_human_review env c v).1.durable ≡ v.durable)
reviewed_only_once {v = v} c fresh entry later =
    second_review_fails _ c v
      (Later-Good (HasEntry-IsClosed _ c.application_id)
        (record {
          committed = entry;
          current = subst (HasEntry c.application_id) (sym fresh) entry;
        })
        later).committed
