-- ===== src/Referral.antt =====
-- modules/referral/referral.service.ts: a user's referral codes. Money amounts are left out.
pub mod Issue
mod Tests
use south_connect.Prelude.{
  ℕ, Bool, true, false, not, ◌&&◌, Option, none, some, ◌==◌, leb, or_default, is_key, if◌then◌else◌,
}
use south_connect.Prelude.Int.{pos}
use south_connect.Action.{
  Action, bad_request, forbidden, not_found, internal_error, ◌>>=◌, ◌>>◌, pure, throw, gets,
  throw_if, or_throw,
}
use south_connect.Database.{Where}
use south_connect.Schema.{
  Text, UserKey, Opportunity, ReferralCode, ReferralType, new_user, ReferralStatus, Store, Prisma,
}
use south_connect.Applications.Submit.{of_code}

-- `{ ownerId }`
abbrev pub codes_of : UserKey → Where ReferralCode
codes_of owner k r = r.owner_id == owner

abbrev pub new_code : Text → UserKey → Option ℕ → Option ReferralType → ReferralCode
new_code code owner opportunity kind = record {
  code = code;
  owner_id = owner;
  opportunity_id = opportunity;
  kind = or_default kind new_user;
  status = ReferralStatus.active;
  uses_count = pos 0;
}

-- `!opportunity || opportunity.ownerId !== userId`
abbrev pub is_foreign : UserKey → Option Opportunity → Bool
is_foreign user none = true
is_foreign user (some o) = not (o.owner_id == user)

module _ (prisma : Prisma) where
  -- `if (opportunityId)`, where a key is never empty.
  unfoldable pub check_opportunity : UserKey → Option ℕ → Action Store (Unit {0})
  check_opportunity user none = pure tt
  check_opportunity user (some id) = do
    found ← gets λ s. prisma.opportunity.find_unique id s.opportunities
    throw_if (is_foreign user found) forbidden

  -- A clash of the random code with a stored one is not caught.
  unfoldable pub insert_code : ℕ → Text → UserKey → Option ℕ → Option ReferralType → Action Store ℕ
  insert_code new_id code user opportunity kind s =
      elim (prisma.referral_code.create (of_code code) new_id (new_code code user opportunity kind)
        s.referral_codes) [
          | none ↦ throw internal_error s
          | some t ↦ pure new_id (record s { referral_codes = t })
        ]

  -- `code` is what `generateCode` draws.
  unfoldable pub create : ℕ → Text → UserKey → Option ℕ → Option ReferralType → Action Store ℕ
  create new_id code user opportunity kind = do
    count ← gets λ s. prisma.referral_code.count (codes_of user) s.referral_codes
    throw_if (leb 50 count) bad_request
    check_opportunity user opportunity
    insert_code new_id code user opportunity kind

  unfoldable pub find_by_code : Text → Action Store (ℕ × ReferralCode)
  find_by_code code = do
    found ← gets λ s. prisma.referral_code.find_first (of_code code) s.referral_codes
    or_throw found not_found
