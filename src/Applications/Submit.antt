-- ===== src/Applications/Submit.antt =====
-- `submit`: a draft becomes submitted. The reads and the write are two steps, since another
-- request may come between them.
pub mod Outcome
pub mod Effect
use south_connect.Prelude.{
  ℕ, Bool, true, false, not, ◌&&◌, Option, none, some, ◌∷◌, ltb, ◌==◌, is_key, if◌then◌else◌,
}
use south_connect.Prelude.Int.{pos, ◌+ℤ◌}
use south_connect.Action.{
  Action, not_found, forbidden, bad_request, gone, internal_error, ◌>>=◌, ◌>>◌, pure, gets, modify,
  throw_if, or_throw,
}
use south_connect.Database.Keyed.{at, always}
use south_connect.Database.{Where}
use south_connect.Schema.{
  Text, UserKey, Application, submitted, Opportunity, ReferralCode, ReferralStatus, Store, Prisma,
  is_null, truthy, email, in_app, application_received,
}
use south_connect.Applications.Stages.{Env, is_draft_stage, is_active, count_one_more}

-- `{ code }`
abbrev pub of_code : Text → Where ReferralCode
of_code code k r = r.code == code

abbrev is_active_code : ReferralStatus → Bool
is_active_code ReferralStatus.active = true
is_active_code _ = false

-- `opp.expirationDate && opp.expirationDate < new Date()`
abbrev pub is_past : ℕ → Option ℕ → Bool
is_past now none = false
is_past now (some date) = ltb date now

-- `{ id, candidateId, stage: DRAFT }`
abbrev pub submittable : UserKey → Application → Bool
submittable candidate a = a.candidate_id == candidate && is_draft_stage a

unfoldable pub mark_submitted : ℕ → Application → Application
mark_submitted now a = record a { stage = submitted; is_draft = false; submission_date = some now }

abbrev used_once_more : ReferralCode → ReferralCode
used_once_more r = record r { uses_count = r.uses_count +ℤ pos 1 }

module _ (prisma : Prisma) where
  check_code : UserKey → ℕ → Text → Action Store (Unit {0})
  check_code candidate opportunity code = do
    found ← gets λ s. prisma.referral_code.find_first (of_code code) s.referral_codes
    referral ← or_throw found bad_request
    throw_if (not (is_active_code (referral.1).status)) bad_request
    throw_if ((referral.1).owner_id == candidate) bad_request
    throw_if
        (truthy (referral.1).opportunity_id && not (is_key (referral.1).opportunity_id opportunity))
        bad_request

  unfoldable pub check_referral : UserKey → ℕ → Option Text → Action Store (Unit {0})
  unfolding check_code
  check_referral candidate opportunity none = pure tt
  check_referral candidate opportunity (some code) =
      if code == 0 then pure tt else check_code candidate opportunity code

  -- Everything up to the write.
  unfoldable pub submit_check : ℕ → ℕ → UserKey → Action Store (Application × Opportunity)
  submit_check now id candidate = do
    found ← gets λ s. prisma.application.find_unique id s.applications
    application ← or_throw found not_found
    throw_if (not (application.candidate_id == candidate)) forbidden
    throw_if (not (is_draft_stage application)) bad_request
    joined ← gets λ s. prisma.opportunity.find_unique application.opportunity_id s.opportunities
    opportunity ← or_throw joined internal_error
    throw_if (not (is_null opportunity.deleted_at)) gone
    throw_if (not (is_active opportunity.status)) bad_request
    throw_if (is_past now opportunity.expiration_date) bad_request
    check_referral candidate application.opportunity_id application.referral_code_used
    pure (application, opportunity)

  -- The atomic write, whose `where` clause asks for a draft again.
  unfoldable pub submit_commit : ℕ → ℕ → UserKey → Action Store (Unit {0})
  unfolding mark_submitted
  submit_commit now id candidate = do
    matched ← gets λ s. prisma.application.count (at id (submittable candidate)) s.applications
    modify λ s. record s {
      applications =
          prisma.application.update_many (at id (submittable candidate)) (mark_submitted now)
            s.applications;
    }
    throw_if (matched == 0) bad_request

  count_code_use : Option Text → Store → Store
  count_code_use none s = s
  count_code_use (some code) s = if code == 0 then s else record s {
    referral_codes =
        prisma.referral_code.update_many (of_code code) used_once_more s.referral_codes;
  }

  -- The counters' transaction, which is not awaited and may fail as a whole.
  unfoldable pub submit_counters : Env → Application → Store → Store
  unfolding count_code_use
  submit_counters env application s =
      if env.counters_ok
      then count_code_use application.referral_code_used (record s {
        opportunities =
            prisma.opportunity.update_many (at application.opportunity_id always) count_one_more
              s.opportunities;
      })
      else s

  -- The owner's email, and the in-app notification unless the email's call throws.
  abbrev pub submit_notify : Env → Opportunity → Store → Store
  submit_notify env opportunity s = record s {
    calls =
        if env.mail_ok
        then in_app opportunity.owner_id application_received
          ∷ email opportunity.owner_id application_received
          ∷ s.calls
        else email opportunity.owner_id application_received ∷ s.calls;
  }

  unfoldable pub submit : Env → ℕ → UserKey → Action Store ℕ
  submit env id candidate = do
    (application, opportunity) ← submit_check env.now id candidate
    submit_commit env.now id candidate
    modify (submit_counters env application)
    modify (submit_notify env opportunity)
    pure id
