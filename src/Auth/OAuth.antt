-- ===== src/Auth/OAuth.antt =====
-- The one-time codes of the OAuth callback: `generateOAuthCode` and `exchangeOAuthCode`.
pub mod SingleUse
use south_connect.Prelude.{
  ℕ, zero, suc, ◌+◌, Bool, true, false, not, Option, none, some, ltb, ◌==◌, if◌then◌else◌,
}
use south_connect.Action.{
  Action, Result, unauthorized, internal_error, ◌>>=◌, ◌>>◌, pure, throw, gets, modify, throw_if,
}
use south_connect.Redis.{Key, oauth}
use south_connect.Schema.{Text}
use south_connect.Auth.State.{AuthState, Env, Packages, StoredToken, put, remove}

abbrev pub oauth_key : Text → Key
oauth_key code = record { prefix = oauth; part = code; rest = 0 }

module _ (pk : Packages) where
  abbrev reach_redis : Env → Action AuthState (Unit {0})
  reach_redis env = throw_if (not env.redis_ok) internal_error

  store_code : Bool → Env → Text → Text → Action AuthState (Unit {0})
  store_code true env code token = do
    reach_redis env
    modify λ s. record s { redis = pk.redis.set env.now (oauth_key code) token 60 s.redis }
  store_code false env code token = do
    throw_if env.production internal_error
    modify λ s. record s {
      oauth_codes = put code (record { token = token; expires_at = env.now + 60000 }) s.oauth_codes;
    }

  -- `code` is the random text that `crypto.randomBytes` returns.
  unfoldable pub generate_oauth_code : Env → Text → Text → Action AuthState Text
  unfolding store_code
  generate_oauth_code env code token = do store_code env.has_redis env code token; pure code

  -- What GETDEL returned: a missing or an empty token is refused.
  abbrev pub present : Option Text → Action AuthState Text
  present none = throw unauthorized
  present (some zero) = throw unauthorized
  present (some (suc t)) = pure (suc t)

  -- What the map held: a missing or an expired entry is refused.
  abbrev pub unexpired : ℕ → Option StoredToken → Action AuthState Text
  unexpired now none s = (Result.err unauthorized, s)
  unexpired now (some entry) s =
      if ltb entry.expires_at now then (Result.err unauthorized, s) else (Result.ok entry.token, s)

  take_code : Bool → Env → Text → Action AuthState Text
  take_code true env code = do
    reach_redis env
    token ← gets λ s. pk.redis.get env.now (oauth_key code) s.redis
    modify λ s. record s { redis = pk.redis.del (oauth_key code) s.redis }
    present token
  take_code false env code = do
    throw_if env.production internal_error
    entry ← gets λ s. s.oauth_codes code
    modify λ s. record s { oauth_codes = remove code s.oauth_codes }
    unexpired env.now entry

  unfoldable pub exchange_oauth_code : Env → Text → Action AuthState Text
  unfolding take_code
  exchange_oauth_code env code = take_code env.has_redis env code
