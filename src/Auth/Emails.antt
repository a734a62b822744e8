-- ===== src/Auth/Emails.antt =====
-- The sign-up and the email links: `register`, `verifyEmail`, `resendVerification`, `unsubscribeEmail`
-- and `resubscribeEmail`. Random tokens are arguments, since `crypto` makes them up.
use south_connect.Prelude.{
  ℕ, ◌+◌, Bool, true, false, ◌&&◌, Option, none, some, ◌∷◌, ltb, ◌==◌, if◌then◌else◌, is_key,
  is_some, or_default,
}
use south_connect.Action.{
  Action, bad_request, conflict, internal_error, ◌>>=◌, ◌>>◌, pure, throw, gets, modify, throw_if,
  or_throw,
}
use south_connect.Database.{Where}
use south_connect.Database.Keyed.{at, always}
use south_connect.Schema.{Text, UserKey, User, UserRole, truthy}
use south_connect.Auth.State.{AuthState, Env, Packages, verification}
use south_connect.Auth.Login.{of_email}

pub record RegisterDto : Type 0 where
  pub email : Text
  pub password : Text
  pub first_name : Option Text
  pub last_name : Option Text
  pub name : Option Text
  pub role : Option UserRole

-- `{ gt: now }` on a nullable date
abbrev pub is_after : ℕ → Option ℕ → Bool
is_after now none = false
is_after now (some date) = ltb now date

-- `{ emailVerificationToken, emailVerificationTokenExpiry: { gt: now } }`
abbrev pub of_verification : ℕ → Text → Where User
of_verification now token k u =
    is_key u.email_verification_token token && is_after now u.email_verification_token_expiry

abbrev pub of_unsubscribe : Text → Where User
of_unsubscribe token k u = is_key u.email_unsubscribe_token token

-- 24 hours
abbrev pub verification_ttl : ℕ
verification_ttl = 86400000

unfoldable pub mark_verified : User → User
mark_verified u = record u {
  is_email_verified = true;
  email_verification_token = none;
  email_verification_token_expiry = none;
}

abbrev link_sent : ℕ → Text → User → User
link_sent now digest u = record u {
  email_verification_token = some digest;
  email_verification_token_expiry = some (now + verification_ttl);
}

module _ (pk : Packages) where
  abbrev registered : Env → RegisterDto → ℕ → Text → Text → User
  registered env dto salt raw_verification raw_unsubscribe = record {
    email = dto.email;
    first_name = dto.first_name;
    last_name = dto.last_name;
    name = if truthy dto.name then dto.name else some (pk.full_name dto.first_name dto.last_name);
    password = some (pk.bcrypt_hash dto.password salt);
    role = or_default dto.role UserRole.user;
    bio = none;
    profile_pic = none;
    header_image = none;
    phone = none;
    city = none;
    country = none;
    linkedin_url = none;
    website = none;
    visibility = true;
    google_id = none;
    password_reset_expiry = none;
    password_reset_token = none;
    email_verification_token = some (pk.sha256 raw_verification);
    email_verification_token_expiry = some (env.now + verification_ttl);
    is_email_verified = false;
    is_banned = false;
    email_opt_out = false;
    email_unsubscribe_token = some (pk.sha256 raw_unsubscribe);
    password_changed_at = none;
    deleted_at = none;
  }

  -- The insertion of the user, with its two rows beside it; P2002 is not caught here.
  insert_user : UserKey → User → Action AuthState (Unit {0})
  insert_user new_id u s = elim (pk.user.create (of_email u.email) new_id u s.users) [
    | none ↦ throw internal_error s
    | some t ↦ pure tt (record s { users = t; sub_rows = new_id ∷ s.sub_rows })
  ]

  unfoldable pub register : Env → RegisterDto → UserKey → ℕ → Text → Text → Action AuthState UserKey
  unfolding insert_user
  register env dto new_id salt raw_verification raw_unsubscribe = do
    exists ← gets λ s. pk.user.find_first (of_email dto.email) s.users
    throw_if (is_some exists) conflict
    insert_user new_id (registered env dto salt raw_verification raw_unsubscribe)
    modify λ s. record s { mails = verification new_id raw_verification ∷ s.mails }
    pure new_id

  -- By the token's digest first, and then by the token itself.
  unfoldable pub find_by_token : (Text → Where User) → Text → AuthState → Option (ℕ × User)
  find_by_token clause token s = elim (pk.user.find_first (clause (pk.sha256 token)) s.users) [
    | some found ↦ some found
    | none ↦ pk.user.find_first (clause token) s.users
  ]

  unfoldable pub verify_email : Env → Text → Action AuthState (Unit {0})
  unfolding find_by_token
  verify_email env token = do
    throw_if (token == 0) bad_request
    found ← gets (find_by_token (of_verification env.now) token)
    user ← or_throw found bad_request
    modify λ s. record s { users = pk.user.update_many (at user.0 always) mark_verified s.users }

  send_link : Env → UserKey → Text → Action AuthState (Unit {0})
  send_link env id raw = do
    modify λ s. record s {
      users = pk.user.update_many (at id always) (link_sent env.now (pk.sha256 raw)) s.users;
    }
    modify λ s. record s { mails = verification id raw ∷ s.mails }

  unfoldable pub resend_verification : Env → UserKey → Text → Action AuthState (Unit {0})
  unfolding send_link
  resend_verification env id raw = do
    found ← gets λ s. pk.user.find_unique id s.users
    user ← or_throw found bad_request
    if user.is_email_verified then pure tt else send_link env id raw

  unfoldable pub unsubscribe_email : Text → Action AuthState (Unit {0})
  unsubscribe_email token = do
    throw_if (token == 0) bad_request
    found ← gets λ s. pk.user.find_first (of_unsubscribe token) s.users
    user ← or_throw found bad_request
    modify λ s. record s {
      users =
          pk.user.update_many (at user.0 always) (λ u. record u { email_opt_out = true }) s.users;
    }

  -- An update of a missing user throws P2025, which nothing catches.
  unfoldable pub resubscribe_email : UserKey → Action AuthState (Unit {0})
  resubscribe_email id = do
    found ← gets λ s. pk.user.find_unique id s.users
    or_throw found internal_error
    modify λ s. record s {
      users = pk.user.update_many (at id always) (λ u. record u { email_opt_out = false }) s.users;
    }
