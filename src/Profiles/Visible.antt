-- ===== src/Profiles/Visible.antt =====
-- Who is shown what of a profile.
use south_connect.Prelude.{
  ℕ, ◌≡◌, ◌≢◌, refl, ap, inl, inr, true, false, Option, none, some, arith, is_key, ==_iff,
  Bool-cases,
}
use south_connect.Action.{Result, ok, err, not_found}
use south_connect.Database.Keyed.{find_first-at}
use south_connect.Schema.{UserKey, UserRole, User, BtoCProfile, Store, Prisma}
use south_connect.Social.{is_present, btoc_of, btob_of}
use south_connect.Opportunities.{is_admin}
use south_connect.Profiles.{Shown, whole_profile, public_profile, find_by_user_id, is_talent}

module _ (prisma : Prisma) where
  -- What everybody sees who sees the profile at all.
  pub record Common (id : UserKey) (u : User) (s : Store) (p : Shown) : Type 0 where
    pub key : p.id ≡ id
    pub names : (p.name ≡ u.name) × (p.first_name ≡ u.first_name) × (p.last_name ≡ u.last_name)
    pub looks : (p.bio ≡ u.bio) × (p.profile_pic ≡ u.profile_pic)
    pub place : (p.city ≡ u.city) × (p.country ≡ u.country)
    pub links : (p.linkedin_url ≡ u.linkedin_url) × (p.website ≡ u.website)
    pub flags : (p.visibility ≡ u.visibility) × (p.role ≡ u.role)
    pub person : p.btoc_profile ≡ prisma.btoc_profile.find_first (btoc_of id) s.btoc_profiles
    pub company : p.btob_profile ≡ prisma.btob_profile.find_first (btob_of id) s.btob_profiles

  -- What each visitor is to be answered, by the stored account.
  pub data Answers (id : UserKey) (u : User) (s : Store) (requester : Option UserKey)
      (role : Option UserRole) : Result (Option Shown) → Type 0 where
    nothing : is_present u ≡ false → Answers id u s requester role (ok none)
    to_user :
        (p : Shown)
        → requester ≡ some id
        → Common id u s p
        → p.email ≡ some u.email
        → p.phone ≡ u.phone
        → Answers id u s requester role (ok (some p))
    to_admin :
        (p : Shown)
        → role ≡ some UserRole.admin
        → Common id u s p
        → p.email ≡ some u.email
        → p.phone ≡ u.phone
        → Answers id u s requester role (ok (some p))
    to_public :
        (p : Shown)
        → requester ≢ some id
        → role ≢ some UserRole.admin
        → u.visibility ≡ true
        → Common id u s p
        → p.email ≡ none
        → p.phone ≡ none
        → Answers id u s requester role (ok (some p))
    hidden :
        requester ≢ some id
        → role ≢ some UserRole.admin
        → u.visibility ≡ false
        → Answers id u s requester role (err not_found)

  whole-Common : (id : UserKey) (u : User) (s : Store) → Common id u s (whole_profile prisma id u s)
  whole-Common id u s = record {
    key = refl;
    names = (refl, refl, refl);
    looks = (refl, refl);
    place = (refl, refl);
    links = (refl, refl);
    flags = (refl, refl);
    person = refl;
    company = refl;
  }

  public-Common :
      (id : UserKey) (u : User) (s : Store)
      → Common id u s (public_profile prisma (whole_profile prisma id u s))
  public-Common id u s = record {
    key = refl;
    names = (refl, refl, refl);
    looks = (refl, refl);
    place = (refl, refl);
    links = (refl, refl);
    flags = (refl, refl);
    person = refl;
    company = refl;
  }

  same_user :
      (id : UserKey) (requester : Option UserKey) → is_key requester id ≡ true → requester ≡ some id
  same_user id none h = ground (arith, h)
  same_user id (some r) h = ap some ((==_iff r id).0 h)

  other_user :
      (id : UserKey) (requester : Option UserKey)
      → is_key requester id ≡ false
      → requester ≢ some id
  other_user id requester h e = ground (arith, h, e)

  admin_role : (role : Option UserRole) → is_admin role ≡ true → role ≡ some UserRole.admin
  admin_role none h = ground (arith, h)
  admin_role (some UserRole.user) h = ground (arith, h)
  admin_role (some UserRole.admin) h = refl

  no_admin : (role : Option UserRole) → is_admin role ≡ false → role ≢ some UserRole.admin
  no_admin role h e = ground (arith, h, e)

  -- The profile page changes nothing, and answers, by the account that is stored: nothing for one
  -- that is deleted; everything, address and telephone included, to the user and to admins; to others
  -- the same without address and telephone, or not found where the user keeps the profile private.
  pub find_by_user_id-Answers :
      (id : UserKey) (requester : Option UserKey) (role : Option UserRole) (s : Store) (u : User)
      → prisma.user.find_unique id s.users ≡ some u
      → (r : Result (Option Shown)) × (find_by_user_id prisma id requester role s ≡ (r, s))
        × Answers id u s requester role r
  unfolding find_by_user_id
  find_by_user_id-Answers id requester role s u present =
      let found = find_first-at prisma.user id is_present s.users in
      let p = whole_profile prisma id u s in
      elim (Bool-cases (is_present u)) [
        | inr deleted ↦ (ok none, ground (arith, found, present, deleted), nothing deleted)
        | inl kept ↦ elim (Bool-cases (is_key requester id)) [
          | inl mine ↦ (
            ok (some p),
            ground (arith, found, present, kept, mine),
            to_user p (same_user id requester mine) (whole-Common id u s) refl refl,
          )
          | inr foreign ↦ elim (Bool-cases (is_admin role)) [
            | inl admin ↦ (
              ok (some p),
              ground (arith, found, present, kept, foreign, admin),
              to_admin p (admin_role role admin) (whole-Common id u s) refl refl,
            )
            | inr plain ↦ elim (Bool-cases u.visibility) [
              | inl open_to_all ↦ (
                ok (some (public_profile prisma p)),
                ground (arith, found, present, kept, foreign, plain, open_to_all),
                to_public (public_profile prisma p) (other_user id requester foreign)
                    (no_admin role plain) open_to_all (public-Common id u s) refl refl,
              )
              | inr private_one ↦ (
                err not_found,
                ground (arith, found, present, kept, foreign, plain, private_one),
                hidden (other_user id requester foreign) (no_admin role plain) private_one,
              )
            ]
          ]
        ]
      ]

  -- A user who keeps the profile private is not found by a visitor, and the visitor's list of talents
  -- asks for the user's profile all the same.
  pub is_talent-private :
      (s : Store) (k : ℕ) (p : BtoCProfile) (u : User)
      → prisma.user.find_unique p.user_id s.users ≡ some u
      → is_present u ≡ true
      → u.visibility ≡ false
      → (find_by_user_id prisma p.user_id none none s ≡ (err not_found, s))
        × (is_talent prisma s k p ≡ true)
  unfolding find_by_user_id
  is_talent-private s k p u present kept private_one = (
    ground
        (arith, find_first-at prisma.user p.user_id is_present s.users, present, kept, private_one),
    ground (arith, present, kept),
  )
