-- ===== src/Applications/Review.antt =====
-- `review`: the opportunity's owner moves an application along the table of transitions. The
-- reads and the transaction are two steps.
pub mod Outcome
pub mod Effect
use south_connect.Prelude.{
  ℕ, Bool, true, false, not, ◌&&◌, ◌||◌, Option, none, some, List, [], ◌∷◌, or_default, ◌==◌,
  if◌then◌else◌,
}
use south_connect.Action.{
  Action, not_found, forbidden, bad_request, ◌>>=◌, ◌>>◌, pure, gets, modify, throw_if, or_throw,
  transaction,
}
use south_connect.Database.Keyed.{at}
use south_connect.Database.{Where}
use south_connect.Schema.{
  Text, UserKey, Application, ApplicationStage, draft, submitted, owner_review, ready_to_submit,
  success, archived, ReferralCode, ReferralStatus, Store, Prisma, email, in_app,
  application_reviewed, application_accepted, NotificationType,
}
use south_connect.Applications.Stages.{Env, includes, same_stage, is_live}

pub record ReviewDto : Type 0 where
  pub stage : ApplicationStage
  -- Missing, or null, or a value.
  pub review_feedback : Option (Option Text)
  pub feedback_title : Option (Option Text)

-- `VALID_TRANSITIONS[stage]`; a stage with no entry allows none.
abbrev pub valid_transitions : ApplicationStage → List ApplicationStage
valid_transitions draft = []
valid_transitions submitted = owner_review ∷ archived ∷ []
valid_transitions owner_review = success ∷ archived ∷ []
valid_transitions ready_to_submit = success ∷ archived ∷ []
valid_transitions success = []
valid_transitions archived = []

abbrev pub is_final : ApplicationStage → Bool
is_final stage = same_stage stage success || same_stage stage archived

unfoldable pub reviewed : ℕ → ReviewDto → Application → Application
reviewed now dto a = record a {
  stage = dto.stage;
  review_date = some now;
  review_feedback = or_default dto.review_feedback a.review_feedback;
  feedback_title = or_default dto.feedback_title a.feedback_title;
  is_closed = is_final dto.stage;
}

abbrev is_completed : ReferralStatus → Bool
is_completed ReferralStatus.completed = true
is_completed _ = false

-- `{ code, status: { not: COMPLETED } }`
abbrev pub open_code : Text → Where ReferralCode
open_code code k r = r.code == code && not (is_completed r.status)

abbrev complete : ReferralCode → ReferralCode
complete r = record r { status = ReferralStatus.completed }

abbrev pub outcome : ApplicationStage → NotificationType
outcome success = application_accepted
outcome _ = application_reviewed

module _ (prisma : Prisma) where
  unfoldable pub review_check : ℕ → UserKey → ReviewDto → Action Store Application
  review_check id owner dto = do
    found ← gets λ s. prisma.application.find_first (at id is_live) s.applications
    application ← or_throw found not_found
    joined ← gets λ s. prisma.opportunity.find_unique (application.1).opportunity_id s.opportunities
    opportunity ← or_throw joined not_found
    throw_if (not (opportunity.owner_id == owner)) forbidden
    throw_if (not (includes (valid_transitions (application.1).stage) dto.stage)) bad_request
    pure application.1

  unfoldable pub complete_code : ApplicationStage → Option Text → Store → Store
  complete_code stage none s = s
  complete_code stage (some code) s =
      if same_stage stage success && not (code == 0)
      then record s {
        referral_codes =
            prisma.referral_code.update_many (open_code code) complete s.referral_codes;
      }
      else s

  -- The transaction: the write, whose `where` clause asks for a live row, and the referral code.
  unfoldable pub review_commit : ℕ → ℕ → ReviewDto → Application → Action Store (Unit {0})
  unfolding reviewed complete_code
  review_commit now id dto application = transaction do
    matched ← gets λ s. prisma.application.count (at id is_live) s.applications
    modify λ s. record s {
      applications =
          prisma.application.update_many (at id is_live) (reviewed now dto) s.applications;
    }
    throw_if (matched == 0) not_found
    modify (complete_code dto.stage application.referral_code_used)

  abbrev pub review_notify : Env → ApplicationStage → Application → Store → Store
  review_notify env stage application s = record s {
    calls =
        if env.mail_ok
        then in_app application.candidate_id (outcome stage)
          ∷ email application.candidate_id (outcome stage)
          ∷ s.calls
        else email application.candidate_id (outcome stage) ∷ s.calls;
  }

  unfoldable pub review : Env → ℕ → UserKey → ReviewDto → Action Store ℕ
  review env id owner dto = do
    application ← review_check id owner dto
    review_commit env.now id dto application
    modify (review_notify env dto.stage application)
    pure id
