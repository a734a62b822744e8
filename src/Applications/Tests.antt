-- ===== src/Applications/Tests.antt =====
-- The theorems on applications at concrete requests.
use south_connect.Prelude.{◌≡◌, refl, ◌↔◌, arith, true, none, some, [], ◌∷◌}
use south_connect.Database.Rows.{rows}
use south_connect.Schema.{
  Application, submitted, owner_review, success, archived, Opportunity, Store,
}
use south_connect.Samples.{stored_rows, offer_of, a_draft, sent_at, with_application}
use south_connect.Applications.Stages.{Env}
use south_connect.Applications.Submit.{submit, submit_check, submit_commit, mark_submitted}
use south_connect.Applications.Submit.Outcome.{MaySubmit}
use south_connect.Applications.Submit.Effect.{submit-ok_iff, submit_effect}
use south_connect.Applications.Review.{ReviewDto, review, review_check, reviewed}
use south_connect.Applications.Review.Outcome.{MayReview}
use south_connect.Applications.Review.Effect.{review-ok_iff, review_effect}
use south_connect.Applications.Withdraw.{withdraw}
use south_connect.Applications.Withdraw.Outcome.{MayWithdraw}
use south_connect.Applications.Withdraw.Effect.{withdraw-ok_iff}
use south_connect.Applications.Lifecycle.{run, handle, submits, reviews, withdraws}
use south_connect.Applications.Lifecycle.WellFormed.{IsWellFormed, run-IsWellFormed, run_final}
use south_connect.Applications.Counter.{Kept, handle-Kept}
use south_connect.Applications.Race.{double_submit}
use south_connect.Action.{ok, err, bad_request}

abbrev env : Env
env = record { now = 7; counters_ok = true; mail_ok = true }

abbrev accept : ReviewDto
accept = record { stage = owner_review; review_feedback = some (some 3); feedback_title = none }

abbrev refusal : ReviewDto
refusal = record { stage = archived; review_feedback = none; feedback_title = none }

may_submit : MaySubmit stored_rows 7 0 1 (with_application a_draft) a_draft (offer_of 2)
unfolding rows
may_submit = record {
  found = refl;
  joined = refl;
  mine = refl;
  unsent = refl;
  kept = refl;
  published = refl;
  in_time = refl;
  code = tt;
}

abbrev drafts : Store
drafts = with_application a_draft

abbrev sent : Store
sent = with_application (sent_at submitted)

abbrev withdrawn_draft : Application
withdrawn_draft = record a_draft { deleted_at = some 3 }

may_review : MayReview stored_rows 0 2 accept sent (sent_at submitted) (offer_of 2)
unfolding rows
may_review = record { found = refl; live = refl; joined = refl; mine = refl; allowed = refl }

MaySubmit-withdrawn :
    MaySubmit stored_rows 7 0 1 (with_application withdrawn_draft) withdrawn_draft (offer_of 2)
unfolding rows
MaySubmit-withdrawn = record {
  found = refl;
  joined = refl;
  mine = refl;
  unsent = refl;
  kept = refl;
  published = refl;
  in_time = refl;
  code = tt;
}

draft_row :
    (a : Application)
    → stored_rows.application.find_unique 0 drafts.applications ≡ some a
    → a ≡ a_draft
unfolding rows
draft_row a found = ground (arith, found)

draft-IsWellFormed : IsWellFormed a_draft
draft-IsWellFormed = record {
  draft_flag = refl;
  unsent = refl;
  closed_flag = refl;
  reachable = λ e. ground (arith, e);
}

run-IsWellFormed_example : IsWellFormed (mark_submitted 7 a_draft)
unfolding run handle
run-IsWellFormed_example =
    run-IsWellFormed stored_rows 0 ((env, submits 0 1) ∷ []) drafts
      (λ a found. rw (draft_row a found) draft-IsWellFormed) (mark_submitted 7 a_draft)
      ((submit_effect stored_rows env 0 1 drafts a_draft (offer_of 2) may_submit).0 0)

final_row :
    stored_rows.application.find_unique 0 (with_application (sent_at success)).applications
    ≡ some (sent_at success)
unfolding rows
final_row = refl

run_final_example :
    stored_rows.application.find_unique 0
      (run stored_rows
        ((env, withdraws 0 1) ∷ (env, reviews 0 2 refusal) ∷ [])
        (with_application (sent_at success))).applications
    ≡ some (sent_at success)
run_final_example =
    run_final stored_rows 0 ((env, withdraws 0 1) ∷ (env, reviews 0 2 refusal) ∷ [])
      (with_application (sent_at success)) (sent_at success) final_row refl refl

offer_found : stored_rows.opportunity.find_unique 0 drafts.opportunities ≡ some (offer_of 2)
unfolding rows
offer_found = refl

handle-Kept_example : Kept stored_rows 0 drafts (handle stored_rows env (submits 0 1) drafts)
handle-Kept_example =
    handle-Kept stored_rows 0 env (submits 0 1) drafts (offer_of 2) refl
      (λ a found. rw (draft_row a found) refl) offer_found

submit-ok_iff_example :
    ((submit stored_rows env 0 1 drafts).0 ≡ ok 0)
    ↔ ((a : Application) × (o : Opportunity) × MaySubmit stored_rows 7 0 1 drafts a o)
submit-ok_iff_example = submit-ok_iff stored_rows env 0 1 drafts

submit_effect_example :
    stored_rows.application.find_unique 0 (submit stored_rows env 0 1 drafts).1.applications
    ≡ some (mark_submitted 7 a_draft)
submit_effect_example =
    (submit_effect stored_rows env 0 1 drafts a_draft (offer_of 2) may_submit).0 0

submit_refused : (submit stored_rows env 0 1 sent).0 ≡ err bad_request
unfolding rows submit submit_check
submit_refused = refl

review-ok_iff_example :
    ((review stored_rows env 0 2 accept sent).0 ≡ ok 0)
    ↔ ((a : Application) × (o : Opportunity) × MayReview stored_rows 0 2 accept sent a o)
review-ok_iff_example = review-ok_iff stored_rows env 0 2 accept sent

review_effect_example :
    stored_rows.application.find_unique 0 (review stored_rows env 0 2 accept sent).1.applications
    ≡ some (reviewed 7 accept (sent_at submitted))
review_effect_example =
    (review_effect stored_rows env 0 2 accept sent (sent_at submitted) (offer_of 2) may_review).0 0

review_refused : (review stored_rows env 0 2 accept drafts).0 ≡ err bad_request
unfolding rows review review_check
review_refused = refl

withdraw-ok_iff_example :
    ((withdraw stored_rows env 0 1 sent).0 ≡ ok tt)
    ↔ ((a : Application) × MayWithdraw stored_rows 0 1 sent a)
withdraw-ok_iff_example = withdraw-ok_iff stored_rows env 0 1 sent

double_submit_example :
    let (r, t) = submit_commit stored_rows 7 0 1 drafts in
    let (r', t') = submit_commit stored_rows 8 0 1 t in
    (r ≡ ok tt)
    × (r' ≡ err bad_request)
    × (stored_rows.application.find_unique 0 t'.applications ≡ some (mark_submitted 7 a_draft))
double_submit_example = double_submit stored_rows 0 1 drafts a_draft (offer_of 2) 7 8 may_submit
