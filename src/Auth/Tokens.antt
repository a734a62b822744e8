-- ===== src/Auth/Tokens.antt =====
-- The tokens: `validateUser`, `generateTokens`, `refreshTokens`, `consumeRefreshTokenAtomically` and
-- `invalidateRefreshToken`.
pub mod SingleUse
use south_connect.Prelude.{
  ℕ, zero, suc, ◌+◌, ◌-◌, ◌/◌, Bool, true, false, not, ◌&&◌, Option, none, some, ltb, leb, ◌==◌,
  if◌then◌else◌,
}
use south_connect.Action.{
  Action, Result, unauthorized, service_unavailable, ◌>>=◌, ◌>>◌, pure, throw, gets, modify,
  throw_if, or_throw,
}
use south_connect.Redis.{Key, blocklist, set_nx}
use south_connect.Schema.{Text, UserKey, User, is_null}
use south_connect.Auth.State.{AuthState, Env, Packages, Claims, access_secret, refresh_secret}

-- `Math.floor(ms / 1000)`
abbrev pub seconds : ℕ → ℕ
seconds ms = ms / 1000

-- `passwordChangedAt` lies after the token's time of issue.
abbrev pub changed_since : ℕ → Option ℕ → Bool
changed_since issued none = false
changed_since issued (some at) = ltb issued (seconds at)

-- The same, where no time of issue means no test.
abbrev pub expired_session : Option ℕ → Option ℕ → Bool
expired_session none changed = false
expired_session (some zero) changed = false
expired_session (some (suc n)) changed = changed_since (suc n) changed

-- The life that a token has left: seconds to its expiry, or seven days where it names none.
abbrev pub ttl_of : ℕ → Option ℕ → ℕ
ttl_of now none = 604800
ttl_of now (some zero) = 604800
ttl_of now (some (suc e)) = suc e - seconds now

abbrev pub exp_of : Option Claims → Option ℕ
exp_of none = none
exp_of (some c) = some c.expires

module _ (pk : Packages) where
  unfoldable pub validate_user : UserKey → Option ℕ → Action AuthState UserKey
  validate_user id issued = do
    found ← gets λ s. pk.user.find_unique id s.users
    user ← or_throw found unauthorized
    throw_if (not (is_null user.deleted_at)) unauthorized
    throw_if user.is_banned unauthorized
    throw_if (expired_session issued user.password_changed_at) unauthorized
    pure id

  -- 15 minutes for the access token, 7 days for the refresh token.
  unfoldable pub generate_tokens : ℕ → UserKey → Text × Text
  generate_tokens now id = (
    pk.sign access_secret
        (record { user_id = id; issued_at = seconds now; expires = seconds now + 900 }),
    pk.sign refresh_secret
        (record { user_id = id; issued_at = seconds now; expires = seconds now + 604800 }),
  )

  abbrev pub token_key : Text → Key
  token_key token = record { prefix = blocklist; part = pk.sha256 token; rest = 0 }

  -- Without Redis, or where it fails: closed in production, open elsewhere.
  abbrev without_redis : Bool → Action AuthState Bool
  without_redis true = throw service_unavailable
  without_redis false = pure true

  mark_used : ℕ → Text → ℕ → Action AuthState Bool
  mark_used now token ttl s =
      let (free, redis) = set_nx pk.redis now (token_key token) 1 ttl s.redis in
      (Result.ok free, record s { redis = redis })

  abbrev use_redis : Bool → Env → Text → ℕ → Action AuthState Bool
  use_redis true env token zero = pure false
  use_redis true env token (suc ttl) =
      let marked = mark_used env.now token (suc ttl) in
      let failed = without_redis env.production in if env.redis_ok then marked else failed
  use_redis false env token ttl = without_redis env.production

  unfoldable pub consume_refresh_token : Env → Text → Option ℕ → Action AuthState Bool
  unfolding mark_used
  consume_refresh_token env token exp = use_redis env.has_redis env token (ttl_of env.now exp)

  -- The body of the `try`, whose every failure is Unauthorized.
  unfoldable pub renew : Env → Text → Action AuthState (Text × Text)
  renew env token = do
    payload ← or_throw (pk.verify (seconds env.now) refresh_secret token) unauthorized
    found ← gets λ s. pk.user.find_unique payload.user_id s.users
    user ← or_throw found unauthorized
    throw_if (not (is_null user.deleted_at)) unauthorized
    throw_if user.is_banned unauthorized
    throw_if (changed_since payload.issued_at user.password_changed_at) unauthorized
    pure (generate_tokens env.now payload.user_id)

  unfoldable pub refresh_tokens : Env → Text → Action AuthState (Text × Text)
  refresh_tokens env token = do
    throw_if (token == 0) unauthorized
    consumed ← consume_refresh_token env token (exp_of (pk.decode token))
    throw_if (not consumed) unauthorized
    renew env token

  block : ℕ → Text → Option ℕ → AuthState → AuthState
  block now token none s = s
  block now token (some zero) s = s
  block now token (some (suc e)) s =
      if leb (suc e) (seconds now)
      then s
      else record s { redis = pk.redis.set now (token_key token) 1 (suc e - seconds now) s.redis }

  -- `expClaim`, or the claim in the token where that is missing.
  abbrev exp_or_decoded : Option ℕ → Option ℕ → Option ℕ
  exp_or_decoded none decoded = decoded
  exp_or_decoded (some zero) decoded = decoded
  exp_or_decoded (some (suc e)) decoded = some (suc e)

  unfoldable pub invalidate_refresh_token : Env → Text → Option ℕ → Action AuthState (Unit {0})
  unfolding block
  invalidate_refresh_token env token exp = modify λ s.
      if env.has_redis && (not (token == 0) && env.redis_ok)
      then block env.now token (exp_or_decoded exp (exp_of (pk.decode token))) s
      else s
