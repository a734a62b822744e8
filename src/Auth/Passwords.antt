-- ===== src/Auth/Passwords.antt =====
-- `forgotPassword`, `resetPassword` and `changePassword`. The salt of `bcrypt.hash` and the random
-- token are arguments.
pub mod Rotation
pub mod Reset
use south_connect.Prelude.{
  ℕ, zero, suc, ◌+◌, Bool, true, false, not, ◌&&◌, Option, none, some, ◌∷◌, ◌==◌, is_key,
  if◌then◌else◌,
}
use south_connect.Action.{
  Action, bad_request, unauthorized, ◌>>=◌, ◌>>◌, pure, throw, gets, modify, throw_if, or_throw,
}
use south_connect.Database.{Where}
use south_connect.Database.Keyed.{at, always}
use south_connect.Schema.{Text, UserKey, User, is_null, truthy}
use south_connect.Auth.State.{AuthState, Env, Packages, reset, password_changed}
use south_connect.Auth.Emails.{find_by_token, is_after}

-- `{ email, deletedAt: null }`
abbrev pub of_live_email : Text → Where User
of_live_email email k u = u.email == email && is_null u.deleted_at

-- `{ passwordResetToken, passwordResetExpiry: { gt: now } }`
abbrev pub of_reset : ℕ → Text → Where User
of_reset now token k u = is_key u.password_reset_token token && is_after now u.password_reset_expiry

abbrev pub is_kept : User → Bool
is_kept u = is_null u.deleted_at

unfoldable pub reset_asked : ℕ → Text → User → User
reset_asked now digest u = record u {
  password_reset_token = some digest;
  password_reset_expiry = some (now + 3600000);
}

unfoldable pub password_reset : ℕ → Text → User → User
password_reset now hashed u = record u {
  password = some hashed;
  password_reset_token = none;
  password_reset_expiry = none;
  password_changed_at = some now;
}

unfoldable pub password_set : ℕ → Text → User → User
password_set now hashed u = record u { password = some hashed; password_changed_at = some now }

abbrev pub usable : Option Text → Option Text
usable none = none
usable (some zero) = none
usable (some (suc p)) = some (suc p)

module _ (pk : Packages) where
  ask_reset : Env → UserKey → Text → Action AuthState (Unit {0})
  ask_reset env id raw = do
    modify λ s. record s {
      users = pk.user.update_many (at id always) (reset_asked env.now (pk.sha256 raw)) s.users;
    }
    modify λ s. record s { mails = reset id raw ∷ s.mails }

  with_user : Env → Text → Option (ℕ × User) → Action AuthState (Unit {0})
  unfolding ask_reset
  with_user env raw none = pure tt
  with_user env raw (some (id, user)) =
      if not (truthy user.password) && truthy user.google_id then pure tt else ask_reset env id raw

  -- The answer is the same whether or not there is such an account.
  unfoldable pub forgot_password : Env → Text → Text → Action AuthState (Unit {0})
  unfolding with_user
  forgot_password env email raw = do
    found ← gets λ s. pk.user.find_first (of_live_email email) s.users
    with_user env raw found

  unfoldable pub reset_password : Env → Text → Text → ℕ → Action AuthState (Unit {0})
  unfolding find_by_token
  reset_password env token new_password salt = do
    found ← gets (find_by_token pk (of_reset env.now) token)
    user ← or_throw found bad_request
    modify λ s. record s {
      users =
          pk.user.update_many (at user.0 always)
            (password_reset env.now (pk.bcrypt_hash new_password salt)) s.users;
      mails = password_changed user.0 ∷ s.mails;
    }

  unfoldable pub change_password : Env → UserKey → Text → Text → ℕ → Action AuthState (Unit {0})
  change_password env id current_password new_password salt = do
    found ← gets λ s. pk.user.find_first (at id is_kept) s.users
    user ← or_throw found bad_request
    stored ← or_throw (usable (user.1).password) bad_request
    throw_if (not (pk.bcrypt_compare current_password stored)) unauthorized
    modify λ s. record s {
      users =
          pk.user.update_many (at id always)
            (password_set env.now (pk.bcrypt_hash new_password salt)) s.users;
    }
