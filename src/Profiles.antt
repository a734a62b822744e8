-- ===== src/Profiles.antt =====
-- modules/profiles/profiles.service.ts: who sees which profile. What `findMany` finds is a parameter;
-- the updates of the two kinds of profile, which only write columns that nothing else here reads,
-- are left out.
pub mod Visible
mod Tests
use south_connect.Prelude.{
  ℕ, Bool, true, false, not, ◌&&◌, ◌||◌, Option, none, some, List, take, drop, length, leb, ◌==◌,
  is_key, if◌then◌else◌,
}
use south_connect.Action.{Action, not_found, ◌>>=◌, ◌>>◌, pure, gets, throw_if}
use south_connect.Database.{Where, Table}
use south_connect.Database.Keyed.{at}
use south_connect.Schema.{
  Text, UserKey, UserRole, User, BtoCProfile, BtoBProfile, Store, Prisma, is_null,
}
use south_connect.Social.{is_present, btoc_of, btob_of}
use south_connect.Opportunities.{is_admin}

-- What is shown of a user; the address and the telephone are left out for the public.
pub record Shown : Type 0 where
  pub id : UserKey
  pub email : Option Text
  pub phone : Option Text
  pub name : Option Text
  pub first_name : Option Text
  pub last_name : Option Text
  pub bio : Option Text
  pub profile_pic : Option Text
  pub city : Option Text
  pub country : Option Text
  pub linkedin_url : Option Text
  pub website : Option Text
  pub visibility : Bool
  pub role : UserRole
  pub btoc_profile : Option (ℕ × BtoCProfile)
  pub btob_profile : Option (ℕ × BtoBProfile)

module _ (prisma : Prisma) where
  abbrev pub whole_profile : UserKey → User → Store → Shown
  whole_profile id u s = record {
    id = id;
    email = some u.email;
    phone = u.phone;
    name = u.name;
    first_name = u.first_name;
    last_name = u.last_name;
    bio = u.bio;
    profile_pic = u.profile_pic;
    city = u.city;
    country = u.country;
    linkedin_url = u.linkedin_url;
    website = u.website;
    visibility = u.visibility;
    role = u.role;
    btoc_profile = prisma.btoc_profile.find_first (btoc_of id) s.btoc_profiles;
    btob_profile = prisma.btob_profile.find_first (btob_of id) s.btob_profiles;
  }

  abbrev pub public_profile : Shown → Shown
  public_profile p = record p { email = none; phone = none }

  -- Neither the user nor an admin.
  abbrev pub is_outsider : UserKey → Option UserKey → Option UserRole → Bool
  is_outsider id requester role = not (is_key requester id) && not (is_admin role)

  abbrev pub show :
      UserKey → Option UserKey → Option UserRole → Option (ℕ × User) → Action Store (Option Shown)
  show id requester role none = pure none
  show id requester role (some (k, u)) = do
    throw_if (not u.visibility && is_outsider id requester role) not_found
    profile ← gets (whole_profile id u)
    pure (some (if is_outsider id requester role then public_profile profile else profile))

  unfoldable pub find_by_user_id :
      UserKey → Option UserKey → Option UserRole → Action Store (Option Shown)
  find_by_user_id id requester role = do
    found ← gets λ s. prisma.user.find_first (at id is_present) s.users
    show id requester role found

  -- `{ user: { deletedAt: null } }`
  abbrev pub is_kept : Option User → Bool
  is_kept none = false
  is_kept (some u) = is_present u

  abbrev pub is_talent : Store → Where BtoCProfile
  is_talent s k p = is_kept (prisma.user.find_unique p.user_id s.users)

  abbrev pub is_company : Store → Where BtoBProfile
  is_company s k p = is_kept (prisma.user.find_unique p.user_id s.users)

  unfoldable pub list_talents :
      (Where BtoCProfile → Table BtoCProfile → List (ℕ × BtoCProfile))
      → ℕ
      → ℕ
      → Store
      → List (ℕ × BtoCProfile)
  list_talents find_many number skipped s =
      take number (drop skipped (find_many (is_talent s) s.btoc_profiles))

  unfoldable pub list_companies :
      (Where BtoBProfile → Table BtoBProfile → List (ℕ × BtoBProfile))
      → ℕ
      → ℕ
      → Store
      → List (ℕ × BtoBProfile)
  list_companies find_many number skipped s =
      take number (drop skipped (find_many (is_company s) s.btob_profiles))
