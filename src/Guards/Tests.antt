-- ===== src/Guards/Tests.antt =====
-- The theorems on the guards at a concrete application.
use south_connect.Prelude.{◌≡◌, ◌⊎◌, refl, true, none, some}
use south_connect.Action.{ok, err, forbidden, not_found, bad_request}
use south_connect.Database.Rows.{rows}
use south_connect.Schema.{UserRole, Application, submitted, owner_review}
use south_connect.Samples.{stored_rows, offer_of, sent_at, with_application}
use south_connect.Applications.Review.{ReviewDto, review_check}
use south_connect.Applications.Review.Outcome.{MayReview}
use south_connect.Guards.{Caller, application_review_owner_guard}
use south_connect.Guards.Agreement.{review_guard-agrees}

-- User 2, who owns the opportunity.
abbrev owner : Caller
owner = record { id = 2; role = UserRole.user; is_email_verified = true }

abbrev accept : ReviewDto
accept = record { stage = owner_review; review_feedback = none; feedback_title = none }

review_allowed :
    MayReview stored_rows 0 2 accept
      (with_application (sent_at submitted))
      (sent_at submitted)
      (offer_of 2)
unfolding rows
review_allowed = record { found = refl; live = refl; joined = refl; mine = refl; allowed = refl }

review_guard-agrees_example :
    let s = with_application (sent_at submitted) in
    let guard = (application_review_owner_guard stored_rows (some owner) 0 s).0 in
    let checked = (review_check stored_rows 0 2 accept s).0 in
    ((guard ≡ ok true) × ((checked ≡ err bad_request) ⊎ (a : Application) × (checked ≡ ok a)))
    ⊎ (((guard ≡ err not_found) × (checked ≡ err not_found))
        ⊎ ((guard ≡ err forbidden) × ((checked ≡ err forbidden) ⊎ (checked ≡ err not_found))))
review_guard-agrees_example =
    review_guard-agrees stored_rows owner 0 (with_application (sent_at submitted)) accept
