-- ===== src/Auth/Passwords/Reset.antt =====
-- A password reset token is good for one reset.
use south_connect.Prelude.{
  ℕ, ◌≡◌, inl, inr, Bool, true, false, ◌||◌, none, some, arith, ◌==◌, is_key, Bool-cases,
  Option-cases,
}
use south_connect.Action.{ok, err, bad_request}
use south_connect.Database.Keyed.{at, always}
use south_connect.Schema.{Text, UserKey, User}
use south_connect.Auth.State.{AuthState, Env, Packages}
use south_connect.Auth.Emails.{find_by_token}
use south_connect.Auth.Passwords.{reset_password, password_reset, of_reset}

module _ (pk : Packages) (token : Text) where
  -- The user has the token, as its digest or as it is.
  abbrev pub has_token : User → Bool
  has_token u =
      is_key u.password_reset_token (pk.sha256 token) || is_key u.password_reset_token token

  -- No two users have the token.
  abbrev pub OneHolder : AuthState → Type 0
  OneHolder s =
      (j k : UserKey) (u v : User)
      → pk.user.find_unique j s.users ≡ some u
      → pk.user.find_unique k s.users ≡ some v
      → has_token u ≡ true
      → has_token v ≡ true
      → j ≡ k

  holder :
      (now : ℕ) (s : AuthState) (k : UserKey) (u : User)
      → find_by_token pk (of_reset now) token s ≡ some (k, u)
      → (pk.user.find_unique k s.users ≡ some u) × (has_token u ≡ true)
  unfolding find_by_token
  holder now s k u h =
      elim (Option-cases (pk.user.find_first (of_reset now (pk.sha256 token)) s.users)) [
        | inl plain ↦
            let sound =
              pk.user.find_first-sound (of_reset now token) s.users k u
                (ground (arith, plain, h)) in
            (sound.0, ground (arith, sound.1))
        | inr ((j, v), hashed) ↦
            let sound =
              pk.user.find_first-sound (of_reset now (pk.sha256 token)) s.users k u
                (ground (arith, hashed, h)) in
            (sound.0, ground (arith, sound.1))
      ]

  missed :
      (env : Env) (new_password : Text) (salt : ℕ) (s : AuthState)
      → find_by_token pk (of_reset env.now) token s ≡ none
      → reset_password pk env token new_password salt s ≡ (err bad_request, s)
  unfolding reset_password
  missed env new_password salt s h = ground (arith, h)

  -- The users after a reset of the user `id`.
  after_reset :
      (env : Env) (new_password : Text) (salt : ℕ) (s : AuthState) (id : UserKey) (u : User)
      → find_by_token pk (of_reset env.now) token s ≡ some (id, u)
      → (reset_password pk env token new_password salt s).1.users
        ≡ pk.user.update_many
            (at id always)
            (password_reset env.now (pk.bcrypt_hash new_password salt))
            s.users
  unfolding reset_password
  after_reset env new_password salt s id u h = ground (arith, h)

  nobody :
      (env later : Env) (new_password : Text) (salt : ℕ) (s : AuthState) (id k : UserKey)
      (u v : User)
      → OneHolder s
      → find_by_token pk (of_reset env.now) token s ≡ some (id, u)
      → pk.user.find_unique k (reset_password pk env token new_password salt s).1.users ≡ some v
      → has_token v ≡ false
  unfolding password_reset
  nobody env later new_password salt s id k u v one h found =
      let f = password_reset env.now (pk.bcrypt_hash new_password salt) in
      let law = pk.user.find_unique-update_many k (at id always) f s.users in
      let users = after_reset env new_password salt s id u h in
      let (own, holds) = holder env.now s id u h in
      elim (Option-cases (pk.user.find_unique k s.users)) [
        | inl absent ↦ ground (arith, found, users, law, absent)
        | inr (w, present) ↦ elim (Bool-cases (k == id)) [
          | inl same ↦ ground (arith, found, users, law, present, same)
          | inr other ↦ elim (Bool-cases (has_token w)) [
            | inl both ↦ ground (arith, other, one k id w u present own both holds)
            | inr lacks ↦ ground (arith, found, users, law, present, other, lacks)
          ]
        ]
      ]

  -- If no two users have the token, a reset that succeeds uses the token up: another reset with it
  -- is refused at any time and changes nothing.
  pub reset_once :
      (env later : Env) (first second : Text) (salt salt' : ℕ) (s : AuthState)
      → OneHolder s
      → (reset_password pk env token first salt s).0 ≡ ok tt
      → let t = (reset_password pk env token first salt s).1 in
        reset_password pk later token second salt' t ≡ (err bad_request, t)
  reset_once env later first second salt salt' s one served =
      let t = (reset_password pk env token first salt s).1 in
      elim (Option-cases (find_by_token pk (of_reset env.now) token s)) [
        | inl absent ↦ ground (arith, served, missed env first salt s absent)
        | inr ((id, u), h) ↦ elim (Option-cases (find_by_token pk (of_reset later.now) token t)) [
          | inl absent ↦ missed later second salt' t absent
          | inr ((k, v), again) ↦
              let (found, holds) = holder later.now t k v again in
              ground (arith, holds, nobody env later first salt s id k u v one h found)
        ]
      ]
