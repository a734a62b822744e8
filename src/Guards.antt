-- ===== src/Guards.antt =====
-- common/guards, common/authorization.ts and modules/auth/guards/jwt-auth.guard.ts: who may call a
-- route. The request's user is what passport resolved, or none.
pub mod Agreement
mod Tests
use south_connect.Prelude.{
  ℕ, Bool, true, false, not, ◌&&◌, Option, none, some, List, [], ◌∷◌, any, ◌==◌, is_some,
  if◌then◌else◌,
}
use south_connect.Action.{
  Action, forbidden, not_found, internal_error, ◌>>=◌, ◌>>◌, pure, throw, gets, throw_if, or_throw,
}
use south_connect.Database.Keyed.{at}
use south_connect.Schema.{UserKey, User, UserRole, Application, Opportunity, Store, Prisma}
use south_connect.Applications.Stages.{is_live}

-- The user of a request: its key and what the guards read of it.
pub record Caller : Type 0 where
  pub id : UserKey
  pub role : UserRole
  pub is_email_verified : Bool

abbrev pub same_role : UserRole → UserRole → Bool
same_role UserRole.user UserRole.user = true
same_role UserRole.admin UserRole.admin = true
same_role _ _ = false

-- `assertSameUser`
abbrev pub assert_same_user : {S : Type 0} → UserKey → UserKey → Action S (Unit {0})
assert_same_user expected actual = throw_if (not (expected == actual)) forbidden

-- `RolesGuard`: what `@Roles` names, if anything.
abbrev pub roles_guard : Option (List UserRole) → Option Caller → Bool
roles_guard none caller = true
roles_guard (some []) caller = true
roles_guard (some (r ∷ rs)) none = false
roles_guard (some (r ∷ rs)) (some c) = any (same_role c.role) (r ∷ rs)

-- `JwtAuthGuard.handleRequest`, after passport has resolved the user. `enforced` is the environment's
-- setting, and `skip` says whether the route has @SkipEmailVerification().
abbrev pub jwt_auth_guard : {S : Type 0} → Bool → Bool → Caller → Action S Caller
jwt_auth_guard enforced skip c = do
  throw_if (enforced && (not skip && not c.is_email_verified)) forbidden
  pure c

-- The throttler's bucket of a request: its user's, or its address's.
pub data Tracker : Type 0 where
  by_user by_ip : ℕ → Tracker

-- `getTracker`: what the verified cookie says, if there is one that verifies.
abbrev pub get_tracker : Option UserKey → ℕ → Tracker
get_tracker none ip = by_ip ip
get_tracker (some user) ip = by_user user

-- `application.opportunity?.ownerId === user.id`
abbrev pub owned_by : UserKey → Option Opportunity → Bool
owned_by user none = false
owned_by user (some o) = o.owner_id == user

module _ (prisma : Prisma) where
  abbrev pub opportunity_of : Application → Store → Option Opportunity
  opportunity_of a s = prisma.opportunity.find_unique a.opportunity_id s.opportunities

  -- `ApplicationOwnerGuard`: the candidate, or the owner of the opportunity.
  unfoldable pub application_owner_guard : Option Caller → ℕ → Action Store Bool
  application_owner_guard caller id = do
    c ← or_throw caller forbidden
    found ← gets λ s. prisma.application.find_unique id s.applications
    a ← or_throw found not_found
    opportunity ← gets (opportunity_of a)
    throw_if (not (a.candidate_id == c.id) && not (owned_by c.id opportunity)) forbidden
    pure true

  -- `ApplicationReviewOwnerGuard`: the owner of the opportunity of an application not withdrawn.
  unfoldable pub application_review_owner_guard : Option Caller → ℕ → Action Store Bool
  application_review_owner_guard caller id = do
    c ← or_throw caller forbidden
    found ← gets λ s. prisma.application.find_first (at id is_live) s.applications
    a ← or_throw found not_found
    opportunity ← gets (opportunity_of a.1)
    throw_if (not (owned_by c.id opportunity)) forbidden
    pure true
