-- ===== src/Applications/Listing.antt =====
-- `findByOpportunityForOwner` and `findForUser`. What `findMany` finds, in its order, is a parameter.
pub mod Visible
use south_connect.Prelude.{ℕ, Bool, true, false, not, ◌&&◌, Option, none, some, List, ◌==◌}
use south_connect.Prelude.Int.{ℤ}
use south_connect.Action.{Action, forbidden, ◌>>=◌, ◌>>◌, pure, gets, throw_if}
use south_connect.Database.{Where, Table}
use south_connect.Schema.{UserKey, Application, Opportunity, Store, Prisma, is_null}
use south_connect.Pages.{page}
use south_connect.Applications.Stages.{is_live}

-- `{ opportunityId, deletedAt: null }`
abbrev pub of_opportunity : ℕ → Where Application
of_opportunity opportunity k a = a.opportunity_id == opportunity && is_live a

-- `!opportunity || opportunity.ownerId !== ownerId`
abbrev pub is_foreign : UserKey → Option Opportunity → Bool
is_foreign owner none = true
is_foreign owner (some o) = not (o.owner_id == owner)

-- `opportunity: { deletedAt: null }`
abbrev pub is_open : Option Opportunity → Bool
is_open none = false
is_open (some o) = is_null o.deleted_at

module _ (prisma : Prisma)
    (find_many : Where Application → Table Application → List (ℕ × Application)) where
  unfoldable pub find_by_opportunity_for_owner :
      ℕ → UserKey → ℤ → ℤ → Action Store (List (ℕ × Application))
  find_by_opportunity_for_owner opportunity owner take skip = do
    found ← gets λ s. prisma.opportunity.find_unique opportunity s.opportunities
    throw_if (is_foreign owner found) forbidden
    gets λ s. page 100 take skip (find_many (of_opportunity opportunity) s.applications)

  -- `{ candidateId, deletedAt: null, opportunity: { deletedAt: null } }`
  abbrev pub of_candidate : UserKey → Store → Where Application
  of_candidate user s k a =
      (a.candidate_id == user && is_live a)
      && is_open (prisma.opportunity.find_unique a.opportunity_id s.opportunities)

  unfoldable pub find_for_user : UserKey → ℤ → ℤ → Store → List (ℕ × Application)
  find_for_user user take skip s =
      page 100 take skip (find_many (of_candidate user s) s.applications)
