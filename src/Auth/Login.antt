-- ===== src/Auth/Login.antt =====
-- `login`.
pub mod Locked
use south_connect.Prelude.{
  ℕ, zero, suc, Bool, true, false, not, Option, none, some, ◌==◌, if◌then◌else◌,
}
use south_connect.Action.{Action, unauthorized, ◌>>=◌, ◌>>◌, pure, throw, gets, throw_if, or_throw}
use south_connect.Database.{Where}
use south_connect.Schema.{Text, UserKey, User, is_null, truthy}
use south_connect.Auth.State.{AuthState, Env, Packages}
use south_connect.Auth.Lock.{check_lock, check_and_increment_login_attempts, reset_login_attempts}

-- `{ email }`, which is a unique key
abbrev pub of_email : Text → Where User
of_email email k u = u.email == email

abbrev password_of : Option (ℕ × User) → Option Text
password_of none = none
password_of (some (k, u)) = u.password

module _ (pk : Packages) where
  -- A mismatch is counted, and then reported in one way.
  unfoldable pub refuse : {A : Type 0} → Env → Text → Action AuthState A
  refuse env email = check_and_increment_login_attempts pk env email >> throw unauthorized

  abbrev settle : Bool → Env → Text → UserKey → Action AuthState UserKey
  settle true env email id = do reset_login_attempts pk env email; pure id
  settle false env email id = refuse env email

  -- From the account on: a deleted or banned one is refused before the password is compared.
  unfoldable pub authenticate : Env → Text → Text → UserKey → User → Text → Action AuthState UserKey
  authenticate env email password id raw stored = do
    throw_if (not (is_null raw.deleted_at)) unauthorized
    throw_if raw.is_banned unauthorized
    settle (pk.bcrypt_compare password stored) env email id

  abbrev with_password : Env → Text → Text → UserKey → User → Option Text → Action AuthState UserKey
  with_password env email password id raw none = refuse env email
  with_password env email password id raw (some zero) = refuse env email
  with_password env email password id raw (some (suc n)) =
      authenticate env email password id raw (suc n)

  abbrev pub with_account : Env → Text → Text → Option (ℕ × User) → Action AuthState UserKey
  with_account env email password none = refuse env email
  with_account env email password (some (id, raw)) =
      with_password env email password id raw raw.password

  -- The user's key is returned for the user and the pair of tokens.
  unfoldable pub login : Env → Text → Text → Action AuthState UserKey
  login env email password = do
    check_lock pk env email
    raw ← gets λ s. pk.user.find_first (of_email email) s.users
    with_account env email password raw
