-- ===== src/Opportunities.antt =====
-- modules/opportunities/opportunities.service.ts: the life cycle of an opportunity, with the
-- counters on its owner's profiles, and what each reader is shown.
pub mod Create
pub mod Edit
pub mod Moderate
pub mod Remove
pub mod Views
pub mod Show
pub mod Feed
pub mod Counters
mod Tests
pub mod InStep
pub mod Active
pub mod Race
pub mod Privileges
use south_connect.Prelude.{
  ℕ, Bool, true, false, ◌&&◌, Option, none, some, ◌∷◌, leb, ◌==◌, if◌then◌else◌,
}
use south_connect.Prelude.Int.{ℤ, pos, ◌+ℤ◌}
use south_connect.Schema.{
  UserKey, UserRole, OpportunityStatus, Opportunity, BtoCProfile, BtoBProfile, Store, Prisma,
  is_null, invalidate_caches,
}
use south_connect.Social.{btoc_of, btob_of}

-- `role === 'ADMIN'`, where the role may be missing.
abbrev pub is_admin : Option UserRole → Bool
is_admin none = false
is_admin (some UserRole.user) = false
is_admin (some UserRole.admin) = true

-- `startDate && endDate && startDate >= endDate`
abbrev pub ends_early : Option ℕ → Option ℕ → Bool
ends_early (some start) (some end) = leb end start
ends_early _ _ = false

-- `deletedAt: null`
abbrev pub is_listed : Opportunity → Bool
is_listed o = is_null o.deleted_at

abbrev pub is_active : OpportunityStatus → Bool
is_active OpportunityStatus.active = true
is_active _ = false

abbrev pub is_draft : OpportunityStatus → Bool
is_draft OpportunityStatus.draft = true
is_draft _ = false

abbrev pub more_opportunities : ℤ → BtoCProfile → BtoCProfile
more_opportunities by p = record p { opportunities_count = p.opportunities_count +ℤ by }

abbrev pub more_offers : ℤ → BtoBProfile → BtoBProfile
more_offers by p = record p { opportunities_count = p.opportunities_count +ℤ by }

abbrev pub more_active : ℤ → BtoCProfile → BtoCProfile
more_active by p = record p { active_opportunities_count = p.active_opportunities_count +ℤ by }

-- `invalidateCaches`, a call that later reads of the feed depend on.
abbrev pub invalidate : Store → Store
invalidate s = record s { calls = invalidate_caches ∷ s.calls }

module _ (prisma : Prisma) where
  -- `activeOpportunitiesCount`, on the profile of a person.
  abbrev pub move_active : UserKey → ℤ → Store → Store
  move_active user by s = record s {
    btoc_profiles = prisma.btoc_profile.update_many (btoc_of user) (more_active by) s.btoc_profiles;
  }
