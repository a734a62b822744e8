-- ===== src/Auth/Passwords/Rotation.antt =====
-- A new password replaces the old one and ends the sessions that began before it.
use south_connect.Prelude.{
  ℕ, zero, suc, ◌<◌, ◌≡◌, ◌≢◌, refl, true, Option, none, some, arith, Option-cases, inl, inr,
}
use south_connect.Action.{ok, err, unauthorized}
use south_connect.Database.Keyed.{at, always, find_first-at}
use south_connect.Schema.{Text, UserKey, User}
use south_connect.Auth.State.{AuthState, Env, Packages}
use south_connect.Auth.Tokens.{seconds, validate_user}
use south_connect.Auth.Passwords.{change_password, usable, password_set, is_kept}

-- What a password change leaves of the user with key `id`: the new password is the one that
-- compares, and the sessions issued in an earlier second end.
pub record IsRotated (pk : Packages) (now : ℕ) (id : UserKey) (new_password : Text) (t : AuthState)
    : Type 0 where
  pub user : User
  pub digest : Text
  pub found : pk.user.find_unique id t.users ≡ some user
  pub stored : user.password ≡ some digest
  pub compares : pk.bcrypt_compare new_password digest ≡ true
  pub dated : user.password_changed_at ≡ some now

module _ (pk : Packages) where
  rotated_sessions :
      (now : ℕ) (id : UserKey) (new_password : Text) (t : AuthState) (issued : ℕ)
      → IsRotated pk now id new_password t
      → issued ≢ 0
      → issued < seconds now
      → validate_user pk id (some issued) t ≡ (err unauthorized, t)
  unfolding validate_user
  rotated_sessions now id new_password t issued r some_time before =
      ground (arith, r.found, r.dated)

  -- The change took the path that stores: the user, the old digest, and the users afterwards.
  pub record Accepted (now : ℕ) (id : UserKey) (current new_password : Text) (salt : ℕ)
      (s t : AuthState) : Type 0 where
    pub user : User
    pub old : Text
    pub found : pk.user.find_unique id s.users ≡ some user
    pub stored : user.password ≡ some old
    pub compares : pk.bcrypt_compare current old ≡ true
    pub users :
        t.users
        ≡ pk.user.update_many
            (at id always)
            (password_set now (pk.bcrypt_hash new_password salt))
            s.users

  usable-some : (stored : Option Text) (p : Text) → usable stored ≡ some p → stored ≡ some p
  usable-some none p h = ground (arith, h)
  usable-some (some zero) p h = ground (arith, h)
  usable-some (some (suc q)) p h = h

  change_password-Accepted :
      (env : Env) (id : UserKey) (current new_password : Text) (salt : ℕ) (s : AuthState)
      → (change_password pk env id current new_password salt s).0 ≡ ok tt
      → Accepted env.now id current new_password salt s
          (change_password pk env id current new_password salt s).1
  unfolding change_password
  change_password-Accepted env id current new_password salt s h =
      elim (Option-cases (pk.user.find_unique id s.users)) [
        | inl absent ↦ ground (arith, h, absent, find_first-at pk.user id is_kept s.users)
        | inr (u, present) ↦ elim (Option-cases (usable u.password)) [
          | inl unusable ↦
              ground (arith, h, present, unusable, find_first-at pk.user id is_kept s.users)
          | inr (old, used) ↦ record {
            user = u;
            old = old;
            found = present;
            stored = usable-some u.password old used;
            compares = ground (arith, h, present, used, find_first-at pk.user id is_kept s.users);
            users = ground (arith, h, present, used, find_first-at pk.user id is_kept s.users);
          }
        ]
      ]

  Accepted-IsRotated :
      (now : ℕ) (id : UserKey) (current new_password : Text) (salt : ℕ) (s t : AuthState)
      → Accepted now id current new_password salt s t
      → IsRotated pk now id new_password t
  unfolding password_set
  Accepted-IsRotated now id current new_password salt s t a = record {
    user = record a.user {
      password = some (pk.bcrypt_hash new_password salt);
      password_changed_at = some now;
    };
    digest = pk.bcrypt_hash new_password salt;
    found = ground (
      arith,
      a.users,
      a.found,
      pk.user.find_unique-update_many id (at id always)
          (password_set now (pk.bcrypt_hash new_password salt)) s.users,
    );
    stored = refl;
    compares = pk.compare-hash new_password salt;
    dated = refl;
  }

  Accepted-others :
      (now : ℕ) (id : UserKey) (current new_password : Text) (salt : ℕ) (s t : AuthState)
      → Accepted now id current new_password salt s t
      → (j : UserKey) → j ≢ id
      → pk.user.find_unique j t.users ≡ pk.user.find_unique j s.users
  Accepted-others now id current new_password salt s t a j other =
      elim (Option-cases (pk.user.find_unique j s.users)) [
        | inl absent ↦ ground (
          arith,
          a.users,
          absent,
          pk.user.find_unique-update_many j (at id always)
              (password_set now (pk.bcrypt_hash new_password salt)) s.users,
        )
        | inr (u, present) ↦ ground (
          arith,
          a.users,
          present,
          other,
          pk.user.find_unique-update_many j (at id always)
              (password_set now (pk.bcrypt_hash new_password salt)) s.users,
        )
      ]

  -- A change of password that succeeds was made with the current one; it stores the new one for
  -- that user and leaves any other, and a token issued to the user in an earlier second is then
  -- refused.
  pub change_password_rotates :
      (env : Env) (id other : UserKey) (current new_password : Text) (salt issued : ℕ)
      (s : AuthState)
      → (change_password pk env id current new_password salt s).0 ≡ ok tt
      → other ≢ id
      → issued ≢ 0
      → issued < seconds env.now
      → let t = (change_password pk env id current new_password salt s).1 in
        Accepted env.now id current new_password salt s t
        × IsRotated pk env.now id new_password t
        × (pk.user.find_unique other t.users ≡ pk.user.find_unique other s.users)
        × (validate_user pk id (some issued) t ≡ (err unauthorized, t))
  change_password_rotates env id other current new_password salt issued s h apart some_time before =
      let a = change_password-Accepted env id current new_password salt s h in
      let t = (change_password pk env id current new_password salt s).1 in
      let r = Accepted-IsRotated env.now id current new_password salt s t a in
      (
        a,
        r,
        Accepted-others env.now id current new_password salt s t a other apart,
        rotated_sessions env.now id new_password t issued r some_time before,
      )
