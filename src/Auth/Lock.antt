-- ===== src/Auth/Lock.antt =====
-- The brute-force lock: `loginAttemptKey`, `checkAndIncrementLoginAttempts`, `resetLoginAttempts`, and
-- the test with which `login` begins.
use south_connect.Prelude.{
  ℕ, ◌+◌, ◌*◌, Bool, true, false, not, Option, none, some, ltb, leb, ◌==◌, if◌then◌else◌,
  or_default,
}
use south_connect.Action.{
  Action, unauthorized, internal_error, ◌>>=◌, ◌>>◌, pure, gets, modify, throw_if,
}
use south_connect.Redis.{Key, attempts}
use south_connect.Schema.{Text}
use south_connect.Auth.State.{AuthState, Env, Packages, Attempt, put, remove}

abbrev pub max_login_attempts : ℕ
max_login_attempts = 5

-- 15 minutes
abbrev pub lock_ttl_seconds : ℕ
lock_ttl_seconds = 900

-- How many failures a map entry stands for, which is none once it has expired.
abbrev pub live_count : ℕ → Option Attempt → ℕ
live_count now none = 0
live_count now (some entry) = if ltb now entry.expires_at then entry.count else 0

module _ (pk : Packages) where
  abbrev pub attempt_key : Text → Key
  attempt_key email = record { prefix = attempts; part = pk.lower email; rest = 0 }

  -- A call of Redis that is not caught throws where Redis does not answer.
  abbrev pub reach_redis : Env → Action AuthState (Unit {0})
  reach_redis env = throw_if (not env.redis_ok) internal_error

  unfoldable pub count_in_redis : Env → Text → Action AuthState (Unit {0})
  count_in_redis env email = do
    reach_redis env
    modify λ s. record s { redis = pk.redis.incr env.now (attempt_key email) s.redis }
    count ← gets λ s. or_default (pk.redis.get env.now (attempt_key email) s.redis) 0
    modify λ s.
        if count == 1
        then record s {
          redis = pk.redis.expire env.now (attempt_key email) lock_ttl_seconds s.redis;
        }
        else s
    throw_if (ltb max_login_attempts count) unauthorized

  unfoldable pub count_in_map : Env → Text → Action AuthState (Unit {0})
  count_in_map env email = do
    entry ← gets λ s. s.login_attempts (pk.lower email)
    modify λ s. record s {
      login_attempts =
          put (pk.lower email)
            (record {
              count = live_count env.now entry + 1;
              expires_at = env.now + lock_ttl_seconds * 1000;
            })
            s.login_attempts;
    }
    throw_if (ltb max_login_attempts (live_count env.now entry + 1)) unauthorized

  abbrev count_by : Bool → Env → Text → Action AuthState (Unit {0})
  count_by true = count_in_redis
  count_by false = count_in_map

  unfoldable pub check_and_increment_login_attempts : Env → Text → Action AuthState (Unit {0})
  check_and_increment_login_attempts env email = count_by env.has_redis env email

  abbrev reset_by : Bool → Env → Text → Action AuthState (Unit {0})
  reset_by true env email = do
    reach_redis env
    modify λ s. record s { redis = pk.redis.del (attempt_key email) s.redis }
  reset_by false env email =
      modify λ s. record s { login_attempts = remove (pk.lower email) s.login_attempts }

  unfoldable pub reset_login_attempts : Env → Text → Action AuthState (Unit {0})
  reset_login_attempts env email = reset_by env.has_redis env email

  -- The failures that count against an account now.
  abbrev failures_by : Bool → Env → Text → AuthState → ℕ
  failures_by true env email s = or_default (pk.redis.get env.now (attempt_key email) s.redis) 0
  failures_by false env email s = live_count env.now (s.login_attempts (pk.lower email))

  abbrev pub failures : Env → Text → AuthState → ℕ
  failures env email s = failures_by env.has_redis env email s

  abbrev reach_by : Bool → Env → Action AuthState (Unit {0})
  reach_by true env = reach_redis env
  reach_by false env = pure tt

  unfoldable pub check_lock : Env → Text → Action AuthState (Unit {0})
  check_lock env email = do
    reach_by env.has_redis env
    count ← gets (failures env email)
    throw_if (leb max_login_attempts count) unauthorized
