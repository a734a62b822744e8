-- ===== src/Cron/Expiry.antt =====
-- The jobs that let things expire. `updatedAt` and `createdAt` are the database's: parameters, by
-- the key of the row.
pub mod Kept
use south_connect.Prelude.{
  ℕ, ◌*◌, ◌-◌, ◌≡◌, Bool, true, false, ◌&&◌, Option, none, some, ltb, is_some, if◌then◌else◌,
}
use south_connect.Database.{Where}
use south_connect.Schema.{
  User, Opportunity, OpportunityStatus, ReferralCode, ReferralStatus, Store, Prisma, is_null,
}
use south_connect.Opportunities.{is_draft}
use south_connect.Opportunities.Remove.{mark_deleted}

-- `{ lt: now }` on a column that may be null
abbrev pub is_before : ℕ → Option ℕ → Bool
is_before now none = false
is_before now (some time) = ltb time now

-- `{ in: [ACTIVE, PENDING] }`
abbrev pub may_archive : OpportunityStatus → Bool
may_archive OpportunityStatus.active = true
may_archive OpportunityStatus.pending = true
may_archive _ = false

abbrev pub is_expired : ℕ → Where Opportunity
is_expired now k o = is_before now o.expiration_date && may_archive o.status

abbrev pub archived_by_job : Opportunity → Opportunity
archived_by_job o = record o { status = OpportunityStatus.archived }

abbrev pub boost_over : ℕ → Where Opportunity
boost_over now k o = o.boosted && is_before now o.boosted_until

abbrev pub unboosted : Opportunity → Opportunity
unboosted o = record o { boosted = false }

abbrev pub is_active_code : ReferralStatus → Bool
is_active_code ReferralStatus.active = true
is_active_code _ = false

-- The day is cut off before its first 90 days: times are in milliseconds.
abbrev pub is_old_code : (ℕ → ℕ) → ℕ → Where ReferralCode
is_old_code created_at now k c = is_active_code c.status && ltb (created_at k) (now - 90 * 86400000)

abbrev pub expired_code : ReferralCode → ReferralCode
expired_code c = record c { status = ReferralStatus.expired }

abbrev pub has_stale_verification : ℕ → Where User
has_stale_verification now k u =
    is_before now u.email_verification_token_expiry && is_some u.email_verification_token

abbrev pub without_verification : User → User
without_verification u = record u {
  email_verification_token = none;
  email_verification_token_expiry = none;
}

abbrev pub has_stale_reset : ℕ → Where User
has_stale_reset now k u = is_before now u.password_reset_expiry && is_some u.password_reset_token

abbrev pub without_reset : User → User
without_reset u = record u { password_reset_token = none; password_reset_expiry = none }

abbrev pub is_orphan : (ℕ → ℕ) → ℕ → Where Opportunity
is_orphan updated_at now k o =
    is_draft o.status && (ltb (updated_at k) (now - 7 * 86400000) && is_null o.deleted_at)

module _ (prisma : Prisma) where
  unfoldable pub archive_expired_opportunities : ℕ → Store → Store
  archive_expired_opportunities now s = record s {
    opportunities = prisma.opportunity.update_many (is_expired now) archived_by_job s.opportunities;
  }

  unfoldable pub expire_boosts : ℕ → Store → Store
  expire_boosts now s = record s {
    opportunities = prisma.opportunity.update_many (boost_over now) unboosted s.opportunities;
  }

  unfoldable pub expire_referral_codes : (ℕ → ℕ) → ℕ → Store → Store
  expire_referral_codes created_at now s = record s {
    referral_codes =
        prisma.referral_code.update_many (is_old_code created_at now) expired_code s.referral_codes;
  }

  unfoldable pub cleanup_expired_tokens : ℕ → Store → Store
  cleanup_expired_tokens now s = record s {
    users =
        prisma.user.update_many (has_stale_reset now) without_reset
          (prisma.user.update_many (has_stale_verification now) without_verification s.users);
  }

  unfoldable pub cleanup_orphan_drafts : (ℕ → ℕ) → ℕ → Store → Store
  cleanup_orphan_drafts updated_at now s = record s {
    opportunities =
        prisma.opportunity.update_many (is_orphan updated_at now) (mark_deleted now)
          s.opportunities;
  }
