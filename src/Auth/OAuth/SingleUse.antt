-- ===== src/Auth/OAuth/SingleUse.antt =====
-- An OAuth code is good for one exchange, within a minute.
use south_connect.Prelude.{
  ℕ, ◌+◌, ◌<◌, ◌≡◌, ◌≢◌, refl, ◌⊎◌, true, false, none, some, arith, ltb, if◌then◌else◌,
}
use south_connect.Action.{ok, err, unauthorized}
use south_connect.Redis.{same_key_refl, Entries}
use south_connect.Schema.{Text}
use south_connect.Auth.State.{AuthState, Env, Packages}
use south_connect.Auth.OAuth.{oauth_key, generate_oauth_code, exchange_oauth_code}

module _ (pk : Packages) where
  del_own :
      (t : ℕ) (code : Text) (e : Entries)
      → pk.redis.get t (oauth_key code) (pk.redis.del (oauth_key code) e) ≡ none
  del_own t code e =
      rw (pk.redis.get-del t (oauth_key code) (oauth_key code) e, same_key_refl (oauth_key code))
        refl

  set_own :
      (now t : ℕ) (code token : Text) (e : Entries)
      → pk.redis.get t (oauth_key code) (pk.redis.set now (oauth_key code) token 60 e)
        ≡ (if ltb t (now + 60000) then some token else none)
  set_own now t code token e =
      rw
        (
          pk.redis.get-set now t (oauth_key code) (oauth_key code) token 60 e,
          same_key_refl (oauth_key code),
        )
        refl

  -- The service's store is at hand: Redis answers, or there is none outside production.
  abbrev pub IsServed : Env → Type 0
  IsServed env =
      ((env.has_redis ≡ true) × (env.redis_ok ≡ true))
      ⊎ ((env.has_redis ≡ false) × (env.production ≡ false))

  -- However an exchange ended, a second one of the same code, in the same deployment, is refused, at
  -- any time.
  pub exchange_once :
      (env later : Env) (code : Text) (s : AuthState)
      → IsServed env
      → IsServed later
      → later.has_redis ≡ env.has_redis
      → let t = (exchange_oauth_code pk env code s).1 in
        (exchange_oauth_code pk later code t).0 ≡ err unauthorized
  unfolding exchange_oauth_code
  exchange_once env later code s up up' mode = ground (arith, del_own later.now code s.redis)

  -- A code that was stored for a token gives the token back within a minute.
  pub generate-exchange :
      (env later : Env) (code token : Text) (s : AuthState)
      → IsServed env
      → IsServed later
      → later.has_redis ≡ env.has_redis
      → token ≢ 0
      → later.now < env.now + 60000
      → let t = (generate_oauth_code pk env code token s).1 in
        (exchange_oauth_code pk later code t).0 ≡ ok token
  unfolding generate_oauth_code exchange_oauth_code
  generate-exchange env later code token s up up' mode given soon =
      ground (arith, set_own env.now later.now code token s.redis)

  -- After the minute the code is refused.
  pub generate_expired :
      (env later : Env) (code token : Text) (s : AuthState)
      → IsServed env
      → IsServed later
      → later.has_redis ≡ env.has_redis
      → env.now + 60000 < later.now
      → let t = (generate_oauth_code pk env code token s).1 in
        (exchange_oauth_code pk later code t).0 ≡ err unauthorized
  unfolding generate_oauth_code exchange_oauth_code
  generate_expired env later code token s up up' mode late =
      ground (arith, set_own env.now later.now code token s.redis)
