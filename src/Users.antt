-- ===== src/Users.antt =====
-- modules/users/users.service.ts. The texts that a template makes up are a parameter: the full name
-- of two parts, trimmed, and the address of a deleted account. The export of a user's data is left
-- out.
pub mod Erased
mod Tests
use south_connect.Prelude.{
  ℕ, zero, suc, Bool, true, false, not, ◌&&◌, ◌||◌, Option, none, some, ◌==◌, is_some, or_else,
  or_default, if◌then◌else◌,
}
use south_connect.Action.{
  Action, not_found, internal_error, ◌>>=◌, ◌>>◌, pure, gets, modify, or_throw,
}
use south_connect.Database.Keyed.{at, always}
use south_connect.Schema.{Text, UserKey, UserRole, User, Store, Prisma, is_null}

pub record Texts : Type 0 where
  -- `${first} ${last}`.trim()
  pub full_name : Text → Text → Text
  -- `deleted_${userId}@deleted.invalid`, and the name of a deleted account
  pub deleted_email : UserKey → Text
  pub deleted_name : Text

-- `UpdateUserDto`; a field is missing, or null, or has a value.
pub record UpdateDto : Type 0 where
  pub first_name : Option (Option Text)
  pub last_name : Option (Option Text)
  pub name : Option (Option Text)
  pub bio : Option (Option Text)
  pub phone : Option (Option Text)
  pub city : Option (Option Text)
  pub country : Option (Option Text)
  pub linkedin_url : Option (Option Text)
  pub website : Option (Option Text)
  pub visibility : Option Bool

-- `|| undefined`
abbrev pub unless_empty : Text → Option Text
unless_empty zero = none
unless_empty (suc t) = some (suc t)

abbrev pub first_of : Option User → Option Text
first_of none = none
first_of (some u) = u.first_name

abbrev pub last_of : Option User → Option Text
last_of none = none
last_of (some u) = u.last_name

-- A missing field is not written, and a computed name goes before the request's.
abbrev pub updated : UpdateDto → Option Text → User → User
updated dto computed u = record u {
  first_name = or_default dto.first_name u.first_name;
  last_name = or_default dto.last_name u.last_name;
  name = or_else computed (or_default dto.name u.name);
  bio = or_default dto.bio u.bio;
  phone = or_default dto.phone u.phone;
  city = or_default dto.city u.city;
  country = or_default dto.country u.country;
  linkedin_url = or_default dto.linkedin_url u.linkedin_url;
  website = or_default dto.website u.website;
  visibility = or_default dto.visibility u.visibility;
}

module _ (texts : Texts) where
  -- The name is made up again when a part of it changes.
  abbrev pub computed_name : UpdateDto → Option User → Option Text
  computed_name dto current =
      if is_some dto.first_name || is_some dto.last_name
      then unless_empty (
          texts.full_name
            (or_default (or_else (or_default dto.first_name none) (first_of current)) 0)
            (or_default (or_else (or_default dto.last_name none) (last_of current)) 0))
      else none

  -- The personal data are overwritten, and the account is marked as deleted.
  abbrev pub anonymized : (now : ℕ) → UserKey → User → User
  anonymized now id u = record u {
    email = texts.deleted_email id;
    name = some texts.deleted_name;
    first_name = some 0;
    last_name = some 0;
    bio = none;
    phone = none;
    profile_pic = none;
    city = none;
    country = none;
    linkedin_url = none;
    website = none;
    google_id = none;
    password = none;
    deleted_at = some now;
  }

module _ (prisma : Prisma) (texts : Texts) where
  unfoldable pub find_one : UserKey → Store → Option (ℕ × User)
  find_one id s = prisma.user.find_first (at id (λ u. is_null u.deleted_at)) s.users

  -- `update({ where: { id } })`, which throws P2025 where there is no such row.
  abbrev pub change_user : UserKey → (User → User) → Action Store User
  change_user id f = do
    found ← gets λ s. prisma.user.find_unique id s.users
    user ← or_throw found internal_error
    modify λ s. record s { users = prisma.user.update_many (at id always) f s.users }
    pure (f user)

  unfoldable pub update_me : UserKey → UpdateDto → Action Store User
  update_me id dto = do
    current ← gets λ s. prisma.user.find_unique id s.users
    change_user id (updated dto (computed_name texts dto current))

  unfoldable pub update_profile_pic : UserKey → Text → Action Store User
  update_profile_pic id url = change_user id (λ u. record u { profile_pic = some url })

  unfoldable pub admin_update_role : UserKey → UserRole → Action Store User
  admin_update_role id role = do
    found ← gets λ s. prisma.user.find_unique id s.users
    or_throw found not_found
    change_user id (λ u. record u { role = role })

  unfoldable pub admin_set_ban : UserKey → Bool → Action Store User
  admin_set_ban id banned = do
    found ← gets λ s. prisma.user.find_unique id s.users
    or_throw found not_found
    change_user id (λ u. record u { is_banned = banned })

  -- `anonymizeUser`, which `deleteMe` and `adminDelete` call.
  unfoldable pub anonymize_user : (now : ℕ) → UserKey → Action Store (Unit {0})
  anonymize_user now id = do
    found ← gets λ s. prisma.user.find_unique id s.users
    or_throw found not_found
    change_user id (anonymized texts now id)
    pure tt
