-- ===== src/Auth/Login/Locked.antt =====
-- Five wrong passwords within a quarter of an hour lock an account.
use south_connect.Prelude.{
  ℕ, suc, ◌+◌, ◌≤◌, ◌<◌, ◌≡◌, refl, ◌⊎◌, inl, inr, Bool, true, false, not, ◌&&◌, ◌||◌, Option, none,
  some, List, [], ◌∷◌, arith, length, ltb, ◌==◌, if◌then◌else◌, Bool-cases,
}
use native.Mathlib.Decide.{dec_lt}
use south_connect.Action.{err, unauthorized}
use south_connect.Redis.{same_key_refl, Entries, bumped}
use south_connect.Schema.{Text, User, UserKey, is_null}
use south_connect.Auth.State.{AuthState, Env, Packages}
use south_connect.Auth.Lock.{
  check_lock, check_and_increment_login_attempts, count_in_redis, count_in_map, failures,
  attempt_key,
}
use south_connect.Auth.Login.{login, refuse, of_email, authenticate}

-- A password that the account does not take, at an account that is neither deleted nor banned; or no
-- account, or one with no password.
abbrev pub rejects : Packages → Text → Option (ℕ × User) → Bool
rejects pk password none = true
rejects pk password (some (k, u)) = elim u.password [
  | none ↦ true
  | some stored ↦
      stored == 0
      || (is_null u.deleted_at && (not u.is_banned && not (pk.bcrypt_compare password stored)))
]

module _ (pk : Packages) (email : Text) where
  -- An account with five failures is refused whatever the password, and nothing changes.
  pub login_locked :
      (env : Env) (password : Text) (s : AuthState)
      → env.redis_ok ≡ true
      → 5 ≤ failures pk env email s
      → login pk env email password s ≡ (err unauthorized, s)
  unfolding login check_lock
  login_locked env password s up locked = ground arith

  -- A wrong password, while the account is not locked, comes to the counting of a failure.
  login_wrong :
      (env : Env) (password : Text) (s : AuthState)
      → env.redis_ok ≡ true
      → failures pk env email s < 5
      → rejects pk password (pk.user.find_first (of_email email) s.users) ≡ true
      → login pk env email password s ≡ refuse pk env email s
  unfolding login check_lock authenticate
  login_wrong env password s up free wrong = ground arith

  refuse-users :
      (env : Env) (s : AuthState) → (refuse pk {A = UserKey} env email s).1.users ≡ s.users
  unfolding refuse check_and_increment_login_attempts count_in_redis count_in_map
  refuse-users env s = ground arith

  -- The same deployment at another time.
  abbrev pub timed : Env → ℕ → Env
  timed env t = record env { now = t }

  -- Until `limit`, exactly `n` failures count.
  abbrev Counts : Env → ℕ → ℕ → AuthState → Type 0
  Counts env n limit s = (t : ℕ) → t < limit → failures pk (timed env t) email s ≡ n

  -- Nothing is remembered of the account, at any time.
  pub record IsClean (s : AuthState) : Type 0 where
    pub no_key : (t : ℕ) → pk.redis.get t (attempt_key pk email) s.redis ≡ none
    pub no_entry : s.login_attempts (pk.lower email) ≡ none

  map_step :
      (env : Env) (n limit now : ℕ) (s : AuthState)
      → env.has_redis ≡ false
      → now < limit
      → limit ≤ now + 900000
      → Counts env n limit s
      → Counts env (suc n) limit (count_in_map pk (timed env now) email s).1
  unfolding count_in_map
  map_step env n limit now s mode before soon counts t later =
      ground (arith, mode, counts now before)

  incr_own :
      (now t : ℕ) (e : Entries)
      → pk.redis.get t (attempt_key pk email) (pk.redis.incr now (attempt_key pk email) e)
        ≡ bumped
            (pk.redis.get now (attempt_key pk email) e)
            (pk.redis.get t (attempt_key pk email) e)
  incr_own now t e =
      rw
        (
          pk.redis.get-incr now t (attempt_key pk email) (attempt_key pk email) e,
          same_key_refl (attempt_key pk email),
        )
        refl

  expire_own :
      (now t : ℕ) (e : Entries)
      → pk.redis.get t (attempt_key pk email) (pk.redis.expire now (attempt_key pk email) 900 e)
        ≡ (if ltb t (now + 900000) then pk.redis.get now (attempt_key pk email) e else none)
  expire_own now t e =
      rw
        (
          pk.redis.get-expire now t (attempt_key pk email) (attempt_key pk email) 900 e,
          same_key_refl (attempt_key pk email),
        )
        refl

  redis_first :
      (env : Env) (limit now : ℕ) (s : AuthState)
      → env.has_redis ≡ true
      → env.redis_ok ≡ true
      → limit ≤ now + 900000
      → pk.redis.get now (attempt_key pk email) s.redis ≡ none
      → Counts env 1 limit (count_in_redis pk (timed env now) email s).1
  unfolding count_in_redis
  redis_first env limit now s mode up soon clean t later =
      let bumped_once = pk.redis.incr now (attempt_key pk email) s.redis in
      ground (arith, mode, up, clean, incr_own now now s.redis, expire_own now t bumped_once)

  redis_step :
      (env : Env) (n limit now : ℕ) (s : AuthState)
      → env.has_redis ≡ true
      → env.redis_ok ≡ true
      → now < limit
      → limit ≤ now + 900000
      → 1 ≤ n
      → Counts env n limit s
      → Counts env (suc n) limit (count_in_redis pk (timed env now) email s).1
  unfolding count_in_redis
  redis_step env n limit now s mode up before soon some_yet counts t later = ground (
    arith,
    mode,
    up,
    counts now before,
    counts t later,
    incr_own now now s.redis,
    incr_own now t s.redis,
  )

  -- The start, or `n` failures that all count until `limit`.
  abbrev Progress : Env → ℕ → ℕ → AuthState → Type 0
  Progress env n limit s = ((n ≡ 0) × IsClean s) ⊎ ((1 ≤ n) × (n ≤ 5) × Counts env n limit s)

  counted :
      (env : Env) (n limit now : ℕ) (s : AuthState)
      → env.redis_ok ≡ true
      → now < limit
      → limit ≤ now + 900000
      → Progress env n limit s
      → Counts env (suc n) limit (refuse pk {A = UserKey} (timed env now) email s).1
  unfolding refuse check_and_increment_login_attempts
  counted env n limit now s up before soon (inl (zero_yet, clean)) =
      elim (Bool-cases env.has_redis) [
        | inl mode ↦ λ t later. ground (
          arith,
          mode,
          zero_yet,
          redis_first env limit now s mode up soon (clean.no_key now) t later,
        )
        | inr mode ↦ λ t later. ground (
          arith,
          mode,
          zero_yet,
          map_step env 0 limit now s mode before soon (λ u h. ground (arith, mode, clean.no_entry))
              t later,
        )
      ]
  counted env n limit now s up before soon (inr (some_yet, few, counts)) =
      elim (Bool-cases env.has_redis) [
        | inl mode ↦ λ t later.
            ground (
              arith,
              mode,
              redis_step env n limit now s mode up before soon some_yet counts t later,
            )
        | inr mode ↦ λ t later.
            ground (arith, mode, map_step env n limit now s mode before soon counts t later)
      ]

  -- Wrong logins one after the other, each with its time and password.
  pub wrong_run : Env → List (ℕ × Text) → AuthState → AuthState
  wrong_run env [] s = s
  wrong_run env ((now, password) ∷ ws) s =
      wrong_run env ws (login pk (timed env now) email password s).1

  -- Each lies before `limit` and at most a quarter of an hour before it, and its password is wrong.
  abbrev pub AllWrong : ℕ → Option (ℕ × User) → List (ℕ × Text) → Type 0
  AllWrong limit account [] = Unit
  AllWrong limit account ((now, password) ∷ ws) =
      (now < limit)
      × (limit ≤ now + 900000)
      × (rejects pk password account ≡ true)
      × AllWrong limit account ws

  now_failures :
      (env : Env) (n limit now : ℕ) (s : AuthState)
      → now < limit
      → Progress env n limit s
      → failures pk (timed env now) email s ≡ n
  now_failures env n limit now s before (inl (zero_yet, clean)) = elim (Bool-cases env.has_redis) [
    | inl mode ↦ ground (arith, mode, clean.no_key now)
    | inr mode ↦ ground (arith, mode, clean.no_entry)
  ]
  now_failures env n limit now s before (inr (some_yet, few, counts)) = counts now before

  run-Progress :
      (env : Env) (n limit : ℕ) (ws : List (ℕ × Text)) (s : AuthState) (account : Option (ℕ × User))
      → env.redis_ok ≡ true
      → pk.user.find_first (of_email email) s.users ≡ account
      → AllWrong limit account ws
      → n ≤ 5
      → 5 ≤ n + length ws
      → Progress env n limit s
      → Progress env 5 limit (wrong_run env ws s)
  unfolding wrong_run
  run-Progress env n limit [] s account up found wrong few enough (inl (zero_yet, clean)) =
      absurd (omega arith)
  run-Progress env n limit [] s account up found wrong few enough (inr (some_yet, f, counts)) =
      inr (omega arith, omega arith, λ t later. omega (arith, counts t later))
  run-Progress env n limit ((now, password) ∷ ws) s account up found (before, soon, bad, wrong) few
        enough p =
      elim (dec_lt n 5) [
        | no locked ↦
            rw
              (login_locked (timed env now) password s up
                (omega (arith, now_failures env n limit now s before p)))
              (run-Progress env n limit ws s account up found wrong few (omega arith) p)
        | yes open_yet ↦
            rw
              (login_wrong (timed env now) password s up
                (omega (arith, now_failures env n limit now s before p)) (rw found bad))
              (run-Progress env (suc n) limit ws (refuse pk (timed env now) email s).1 account up
                (rw (refuse-users (timed env now) s) found) wrong (omega arith) (omega arith)
                (inr (omega arith, omega arith, counted env n limit now s up before soon p)))
      ]

  -- An account of which nothing is remembered, and that is then given five wrong passwords or more
  -- within a quarter of an hour, refuses every password, the right one too, until a quarter of an
  -- hour after the first of them, in Redis as in the process's map.
  pub five_wrong_lock :
      (env : Env) (limit : ℕ) (ws : List (ℕ × Text)) (s : AuthState)
      → env.redis_ok ≡ true
      → IsClean s
      → AllWrong limit (pk.user.find_first (of_email email) s.users) ws
      → 5 ≤ length ws
      → (t : ℕ) (password : Text) → t < limit
      → login pk (timed env t) email password (wrong_run env ws s)
        ≡ (err unauthorized, wrong_run env ws s)
  five_wrong_lock env limit ws s up clean wrong enough t password before =
      let p =
        run-Progress env 0 limit ws s (pk.user.find_first (of_email email) s.users) up refl wrong
          (omega arith) (omega arith) (inl (refl, clean)) in
      login_locked (timed env t) password (wrong_run env ws s) up
        (omega (arith, now_failures env 5 limit t (wrong_run env ws s) before p))
