-- ===== src/Auth/Tokens/SingleUse.antt =====
-- A refresh token is good for one use, and for none after a logout.
use south_connect.Prelude.{
  ℕ, ◌+◌, ◌*◌, ◌-◌, ◌≤◌, ◌<◌, ◌≡◌, ◌≢◌, refl, ◌⊎◌, inl, inr, true, false, Option, none, some, arith,
  ltb, if◌then◌else◌, Option-cases, ap, sym, ◌∙◌,
}
use south_connect.Action.{ok, err, unauthorized}
use south_connect.Redis.{same_key_refl, Entries}
use south_connect.Schema.{Text, User}
use south_connect.Auth.State.{AuthState, Env, Packages, Claims, refresh_secret}
use south_connect.Auth.Tokens.{
  seconds, exp_of, changed_since, token_key, consume_refresh_token, renew, refresh_tokens,
  invalidate_refresh_token, generate_tokens,
}

module _ (pk : Packages) where
  -- The token is blocked at every time before its expiry.
  abbrev pub Blocked : Text → Claims → AuthState → Type 0
  Blocked token c s =
      (t : ℕ) → seconds t < c.expires → pk.redis.get t (token_key pk token) s.redis ≡ some 1

  set_own :
      (now t : ℕ) (token : Text) (ttl : ℕ) (e : Entries)
      → pk.redis.get t (token_key pk token) (pk.redis.set now (token_key pk token) 1 ttl e)
        ≡ (if ltb t (now + ttl * 1000) then some 1 else none)
  set_own now t token ttl e =
      rw
        (
          pk.redis.get-set now t (token_key pk token) (token_key pk token) 1 ttl e,
          same_key_refl (token_key pk token),
        )
        refl

  -- A blocked token is refused at every time: by the blocklist, or as expired.
  pub Blocked-refused :
      (env : Env) (token : Text) (c : Claims) (s : AuthState)
      → env.has_redis ≡ true
      → env.redis_ok ≡ true
      → pk.decode token ≡ some c
      → 0 < c.expires
      → Blocked token c s
      → refresh_tokens pk env token s ≡ (err unauthorized, s)
  unfolding refresh_tokens consume_refresh_token
  Blocked-refused env token c s mode up decoded life blocked =
      ground (arith, decoded, blocked env.now)

  consume_blocks :
      (env : Env) (token : Text) (c : Claims) (s : AuthState)
      → env.has_redis ≡ true
      → env.redis_ok ≡ true
      → 0 < c.expires
      → (consume_refresh_token pk env token (some c.expires) s).0 ≡ ok true
      → Blocked token c (consume_refresh_token pk env token (some c.expires) s).1
  unfolding consume_refresh_token
  consume_blocks env token c s mode up life h t before =
      ground (arith, mode, up, set_own env.now t token (c.expires - seconds env.now) s.redis)

  renew-state : (env : Env) (token : Text) (s : AuthState) → (renew pk env token s).1 ≡ s
  unfolding renew
  renew-state env token s = ground arith

  used :
      (env : Env) (token : Text) (c : Claims) (s : AuthState) (pair : Text × Text)
      → pk.decode token ≡ some c
      → (refresh_tokens pk env token s).0 ≡ ok pair
      → ((consume_refresh_token pk env token (some c.expires) s).0 ≡ ok true)
        × ((refresh_tokens pk env token s).1
            ≡ (consume_refresh_token pk env token (some c.expires) s).1)
  unfolding refresh_tokens
  used env token c s pair decoded served = ground (
    arith,
    decoded,
    renew-state env token (consume_refresh_token pk env token (some c.expires) s).1,
  )

  -- A refresh token that was exchanged for a pair is refused from then on, at any time, where Redis
  -- answers.
  pub refresh_once :
      (env later : Env) (token : Text) (c : Claims) (s : AuthState) (pair : Text × Text)
      → env.has_redis ≡ true
      → env.redis_ok ≡ true
      → later.has_redis ≡ true
      → later.redis_ok ≡ true
      → pk.decode token ≡ some c
      → 0 < c.expires
      → (refresh_tokens pk env token s).0 ≡ ok pair
      → let t = (refresh_tokens pk env token s).1 in
        refresh_tokens pk later token t ≡ (err unauthorized, t)
  refresh_once env later token c s pair mode up mode' up' decoded life served =
      let (consumed, after) = used env token c s pair decoded served in
      rw after (
        Blocked-refused later token c _ mode' up' decoded life
          (consume_blocks env token c s mode up life consumed))

  -- After a logout the token is refused at every later time, where Redis answers.
  pub logout_refused :
      (env later : Env) (token : Text) (c : Claims) (s : AuthState)
      → env.has_redis ≡ true
      → env.redis_ok ≡ true
      → later.has_redis ≡ true
      → later.redis_ok ≡ true
      → env.now ≤ later.now
      → token ≢ 0
      → pk.decode token ≡ some c
      → 0 < c.expires
      → let t = (invalidate_refresh_token pk env token none s).1 in
        refresh_tokens pk later token t ≡ (err unauthorized, t)
  unfolding refresh_tokens consume_refresh_token invalidate_refresh_token
  logout_refused env later token c s mode up mode' up' order some_token decoded life = ground (
    arith,
    mode,
    up,
    decoded,
    set_own env.now later.now token (c.expires - seconds env.now) s.redis,
  )

  abbrev Sound : Env → Text → AuthState → Text × Text → Type 0
  Sound env token s pair =
      (c : Claims) × (u : User) × (pk.verify (seconds env.now) refresh_secret token ≡ some c)
      × (pk.user.find_unique c.user_id s.users ≡ some u)
      × (u.deleted_at ≡ none)
      × (u.is_banned ≡ false)
      × (changed_since c.issued_at u.password_changed_at ≡ false)
      × (pair ≡ generate_tokens pk env.now c.user_id)

  renew-Sound :
      (env : Env) (token : Text) (s : AuthState) (pair : Text × Text)
      → (renew pk env token s).0 ≡ ok pair
      → Sound env token s pair
  unfolding renew
  renew-Sound env token s pair h =
      elim (Option-cases (pk.verify (seconds env.now) refresh_secret token)) [
        | inl invalid ↦ absurd (ground arith)
        | inr (c, valid) ↦ elim (Option-cases (pk.user.find_unique c.user_id s.users)) [
          | inl missing ↦ absurd (ground arith)
          | inr (u, found) ↦
              (c, u, valid, found, ground arith, ground arith, ground arith, ground arith)
        ]
      ]

  consume-users :
      (env : Env) (token : Text) (exp : Option ℕ) (s : AuthState)
      → (consume_refresh_token pk env token exp s).1.users ≡ s.users
  unfolding consume_refresh_token
  consume-users env token exp s = ground arith

  renewed :
      (env : Env) (token : Text) (s : AuthState) (pair : Text × Text)
      → (refresh_tokens pk env token s).0 ≡ ok pair
      → (renew pk env token (consume_refresh_token pk env token (exp_of (pk.decode token)) s).1).0
        ≡ ok pair
  unfolding refresh_tokens
  renewed env token s pair served = ground arith

  -- A pair is issued only for a token that verifies, of an account that exists, is neither deleted
  -- nor banned, and has not changed its password since the token was issued; and it is issued for
  -- that account.
  pub refresh_sound :
      (env : Env) (token : Text) (s : AuthState) (pair : Text × Text)
      → (refresh_tokens pk env token s).0 ≡ ok pair
      → (c : Claims) × (u : User) × (pk.verify (seconds env.now) refresh_secret token ≡ some c)
        × (pk.user.find_unique c.user_id s.users ≡ some u)
        × (u.deleted_at ≡ none)
        × (u.is_banned ≡ false)
        × (changed_since c.issued_at u.password_changed_at ≡ false)
        × (pair ≡ generate_tokens pk env.now c.user_id)
  refresh_sound env token s pair served =
      let (c, u, valid, found, kept, free, same, issued) =
        renew-Sound env token _ pair (renewed env token s pair served) in
      (
        c,
        u,
        valid,
        ap (pk.user.find_unique c.user_id)
              (sym (consume-users env token (exp_of (pk.decode token)) s))
            ∙ found,
        kept,
        free,
        same,
        issued,
      )

  -- In production nobody is given a new pair while Redis is missing or does not answer.
  pub refresh_fails_closed :
      (env : Env) (token : Text) (s : AuthState)
      → env.production ≡ true
      → (env.has_redis ≡ false) ⊎ (env.redis_ok ≡ false)
      → (pair : Text × Text) → (refresh_tokens pk env token s).0 ≢ ok pair
  unfolding refresh_tokens consume_refresh_token
  refresh_fails_closed env token s live (inl missing) pair h = ground arith
  refresh_fails_closed env token s live (inr down) pair h = ground arith
