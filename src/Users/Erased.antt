-- ===== src/Users/Erased.antt =====
-- What the erasure of an account leaves of it.
use south_connect.Prelude.{ℕ, ◌≡◌, ◌∙◌, Option, none, some, arith}
use south_connect.Action.{ok, err, unauthorized}
use south_connect.Database.Keyed.{at, always}
use south_connect.Schema.{Text, UserKey, User, Store, Prisma}
use south_connect.Auth.State.{AuthState, Env, Packages, Claims, refresh_secret}
use south_connect.Auth.Tokens.{validate_user, renew, seconds}
use south_connect.Users.{Texts, anonymized, anonymize_user}

-- The row of an erased account beside the one before: what is overwritten, and what stays.
pub record IsErased (texts : Texts) (now : ℕ) (id : UserKey) (u v : User) : Type 0 where
  pub address : v.email ≡ texts.deleted_email id
  pub full_name : v.name ≡ some texts.deleted_name
  pub names : (v.first_name ≡ some 0) × (v.last_name ≡ some 0)
  pub contact : (v.phone ≡ none) × (v.linkedin_url ≡ none) × (v.website ≡ none)
  pub place : (v.city ≡ none) × (v.country ≡ none)
  pub looks : (v.bio ≡ none) × (v.profile_pic ≡ none)
  pub keys : (v.password ≡ none) × (v.google_id ≡ none)
  pub deleted : v.deleted_at ≡ some now
  pub kept_image : v.header_image ≡ u.header_image
  pub kept_tokens :
      (v.password_reset_token ≡ u.password_reset_token)
      × (v.email_verification_token ≡ u.email_verification_token)
      × (v.email_unsubscribe_token ≡ u.email_unsubscribe_token)
  pub kept_flags :
      (v.role ≡ u.role)
      × (v.visibility ≡ u.visibility)
      × (v.is_banned ≡ u.is_banned)
      × (v.is_email_verified ≡ u.is_email_verified)
      × (v.email_opt_out ≡ u.email_opt_out)
      × (v.password_changed_at ≡ u.password_changed_at)

module _ (prisma : Prisma) (texts : Texts) where
  anonymize_after :
      (now : ℕ) (id : UserKey) (s : Store) (u : User)
      → prisma.user.find_unique id s.users ≡ some u
      → anonymize_user prisma texts now id s ≡ (
        ok tt,
        record s {
          users = prisma.user.update_many (at id always) (anonymized texts now id) s.users;
        },
      )
  unfolding anonymize_user
  anonymize_after now id s u present = ground (arith, present)

  -- Once an account is erased, no access token and no refresh token of it is taken any more.
  pub anonymize_user-locked_out :
      (pk : Packages) (env : Env) (now : ℕ) (id : UserKey) (s : Store) (a : AuthState) (u : User)
      (issued : Option ℕ) (token : Text) (claims : Claims)
      → pk.user ≡ prisma.user
      → prisma.user.find_unique id s.users ≡ some u
      → a.users ≡ (anonymize_user prisma texts now id s).1.users
      → pk.verify (seconds env.now) refresh_secret token ≡ some claims
      → claims.user_id ≡ id
      → (validate_user pk id issued a ≡ (err unauthorized, a))
        × (renew pk env token a ≡ (err unauthorized, a))
  unfolding validate_user renew
  anonymize_user-locked_out pk env now id s a u issued token claims same present after good mine =
      let v = anonymized texts now id u in
      let found : pk.user.find_unique id a.users ≡ some v =
        rw (same, after, anonymize_after now id s u present)
          (prisma.user.find_unique-update_many id (at id always) (anonymized texts now id) s.users
            ∙ ground (arith, present)) in
      (ground (arith, found), ground (arith, found, good, mine))
