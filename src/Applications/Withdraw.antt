-- ===== src/Applications/Withdraw.antt =====
-- `withdraw`: the applicant takes an application back, by a soft delete. The reads and the write
-- are two steps.
pub mod Outcome
pub mod Effect
use south_connect.Prelude.{ℕ, Bool, not, ◌&&◌, some, List, [], ◌∷◌, ◌==◌, if◌then◌else◌}
use south_connect.Action.{
  Action, not_found, forbidden, bad_request, conflict, ◌>>=◌, ◌>>◌, pure, throw, gets, modify,
  throw_if, or_throw,
}
use south_connect.Database.Keyed.{at, always}
use south_connect.Schema.{
  UserKey, Application, ApplicationStage, owner_review, success, archived, Store, Prisma,
}
use south_connect.Applications.Stages.{Env, includes, is_draft_stage, is_live, count_one_less}

abbrev pub non_withdrawable_stages : List ApplicationStage
non_withdrawable_stages = owner_review ∷ success ∷ archived ∷ []

-- `{ id, candidateId, deletedAt: null }`
abbrev pub withdrawable : UserKey → Application → Bool
withdrawable candidate a = a.candidate_id == candidate && is_live a

unfoldable pub mark_withdrawn : ℕ → Application → Application
mark_withdrawn now a = record a { deleted_at = some now }

module _ (prisma : Prisma) where
  unfoldable pub withdraw_check : ℕ → UserKey → Action Store Application
  withdraw_check id candidate = do
    found ← gets λ s. prisma.application.find_first (at id is_live) s.applications
    application ← or_throw found not_found
    throw_if (not ((application.1).candidate_id == candidate)) forbidden
    throw_if (includes non_withdrawable_stages (application.1).stage) bad_request
    pure application.1

  -- Why the write matched no row.
  explain : ℕ → UserKey → Action Store (Unit {0})
  explain id candidate = do
    found ← gets λ s. prisma.application.find_first (at id always) s.applications
    existing ← or_throw found not_found
    throw_if (not ((existing.1).candidate_id == candidate)) forbidden
    throw conflict

  unfoldable pub withdraw_commit : ℕ → ℕ → UserKey → Action Store (Unit {0})
  unfolding mark_withdrawn explain
  withdraw_commit now id candidate = do
    matched ← gets λ s. prisma.application.count (at id (withdrawable candidate)) s.applications
    modify λ s. record s {
      applications =
          prisma.application.update_many (at id (withdrawable candidate)) (mark_withdrawn now)
            s.applications;
    }
    λ s. if matched == 0 then explain id candidate s else pure tt s

  -- The counter's decrement is not awaited and may fail.
  unfoldable pub withdraw_counter : Env → Application → Store → Store
  withdraw_counter env application s =
      if not (is_draft_stage application) && env.counters_ok
      then record s {
        opportunities =
            prisma.opportunity.update_many (at application.opportunity_id always) count_one_less
              s.opportunities;
      }
      else s

  unfoldable pub withdraw : Env → ℕ → UserKey → Action Store (Unit {0})
  withdraw env id candidate = do
    application ← withdraw_check id candidate
    withdraw_commit env.now id candidate
    modify (withdraw_counter env application)
