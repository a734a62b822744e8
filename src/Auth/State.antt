-- ===== src/Auth/State.antt =====
-- The state of the service: the users, Redis, and the two maps that stand in for Redis; and what it is
-- given: the time, the deployment, and the packages bcryptjs, crypto and @nestjs/jwt.
use south_connect.Prelude.{ℕ, ◌≡◌, ◌<◌, Bool, true, Option, none, some, List, ◌==◌, if◌then◌else◌}
use south_connect.Database.{Table, Client}
use south_connect.Redis.{Redis, Entries}
use south_connect.Schema.{Text, UserKey, User}

-- An email that the service asks for, with the token in its link.
pub data Mail : Type 0 where
  verification reset : UserKey → Text → Mail
  password_changed : UserKey → Mail

-- A `Map` of the process.
abbrev pub Dict : Type 0 → Type 0
Dict V = Text → Option V

module _ {V : Type 0} where
  abbrev pub put : Text → V → Dict V → Dict V
  put k v d j = if j == k then some v else d j

  abbrev pub remove : Text → Dict V → Dict V
  remove k d j = if j == k then none else d j

pub record Attempt : Type 0 where
  pub count : ℕ
  pub expires_at : ℕ

pub record StoredToken : Type 0 where
  pub token : Text
  pub expires_at : ℕ

pub record AuthState : Type 0 where
  pub users : Table User
  pub redis : Entries
  pub login_attempts : Dict Attempt
  pub oauth_codes : Dict StoredToken
  pub mails : List Mail
  -- The users for whom a sign-up has stored a BtoC profile and notification preferences.
  pub sub_rows : List UserKey

-- One request's view of the outside. `redis_ok` says whether Redis answers.
pub record Env : Type 0 where
  pub now : ℕ
  pub has_redis : Bool
  pub redis_ok : Bool
  pub production : Bool

-- What a token says: its user, when it was issued and when it expires, in seconds.
pub record Claims : Type 0 where
  pub user_id : UserKey
  pub issued_at : ℕ
  pub expires : ℕ

pub data Secret : Type 0 where
  access_secret refresh_secret : Secret

-- `verify` is given the time in seconds; `decode` reads a token without a check of its signature.
pub record Packages : Type 0 where
  pub user : Client User
  pub redis : Redis
  pub lower : Text → Text
  -- `${first} ${last}`, where either may be undefined
  pub full_name : Option Text → Option Text → Text
  pub sha256 : Text → Text
  pub bcrypt_hash : Text → ℕ → Text
  pub bcrypt_compare : Text → Text → Bool
  pub sign : Secret → Claims → Text
  pub verify : ℕ → Secret → Text → Option Claims
  pub decode : Text → Option Claims
  pub compare-hash :
      (password : Text) (salt : ℕ) → bcrypt_compare password (bcrypt_hash password salt) ≡ true
  pub decode-sign : (k : Secret) (c : Claims) → decode (sign k c) ≡ some c
  pub verify-sign :
      (now : ℕ) (k : Secret) (c : Claims) → now < c.expires → verify now k (sign k c) ≡ some c
