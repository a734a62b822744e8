-- ===== src/Auth/Tests.antt =====
-- The theorems on authentication at concrete requests.
use south_connect.Prelude.{ℕ, zero, suc, ◌≡◌, refl, false, none, some, List, [], ◌∷◌, arith}
use south_connect.Action.{ok, err, unauthorized, bad_request}
use south_connect.Database.Rows.{rows}
use south_connect.Redis.{memory}
use south_connect.Schema.{Text, User}
use south_connect.Samples.{member_with}
use south_connect.Auth.State.{AuthState, Claims, refresh_secret}
use south_connect.Auth.Samples.{sign, decode, verify, packages, state, live_at}
use south_connect.Auth.Login.{login, of_email}
use south_connect.Auth.Login.Locked.{timed, wrong_run, IsClean, AllWrong, five_wrong_lock}
use south_connect.Auth.Tokens.{
  changed_since, generate_tokens, consume_refresh_token, renew, refresh_tokens, validate_user,
}
use south_connect.Auth.Tokens.SingleUse.{refresh_once, refresh_sound}
use south_connect.Auth.Passwords.{change_password, reset_password}
use south_connect.Auth.Passwords.Reset.{OneHolder, reset_once}
use south_connect.Auth.Emails.{find_by_token}
use south_connect.Auth.Passwords.Rotation.{Accepted, IsRotated, change_password_rotates}
use south_connect.Prelude.Pairing.{pair, unpair}

-- The refresh token of user 0, issued at second 1 for two seconds.
abbrev claims : Claims
claims = record { user_id = 0; issued_at = 1; expires = 3 }

abbrev token : Text
token = packages.sign refresh_secret claims

served :
    (refresh_tokens packages (live_at 2000) token state).0 ≡ ok (generate_tokens packages 2000 0)
unfolding packages rows memory sign decode verify pair unpair refresh_tokens consume_refresh_token
    renew
served = refl

token_decodes : packages.decode token ≡ some claims
token_decodes = packages.decode-sign refresh_secret claims

refresh_once_example :
    let t = (refresh_tokens packages (live_at 2000) token state).1 in
    refresh_tokens packages (live_at 2500) token t ≡ (err unauthorized, t)
refresh_once_example =
    refresh_once packages (live_at 2000) (live_at 2500) token claims state
      (generate_tokens packages 2000 0) refl refl refl refl token_decodes (omega arith) served

refresh_sound_example :
    (c : Claims) × (u : User) × (packages.verify 2 refresh_secret token ≡ some c)
    × (packages.user.find_unique c.user_id state.users ≡ some u)
    × (u.deleted_at ≡ none)
    × (u.is_banned ≡ false)
    × (changed_since c.issued_at u.password_changed_at ≡ false)
    × (generate_tokens packages 2000 0 ≡ generate_tokens packages 2000 c.user_id)
refresh_sound_example =
    refresh_sound packages (live_at 2000) token state (generate_tokens packages 2000 0) served

-- Five tries within a second, all with a password that is not the account's.
abbrev tries : List (ℕ × Text)
tries = (1, 9) ∷ (2, 9) ∷ (3, 8) ∷ (4, 7) ∷ (5, 9) ∷ []

state-IsClean : IsClean packages 1 state
unfolding packages memory
state-IsClean = record { no_key = λ t. refl; no_entry = refl }

tries_wrong : AllWrong packages 1 900001 (packages.user.find_first (of_email 1) state.users) tries
unfolding packages rows
tries_wrong = (
  omega arith,
  omega arith,
  refl,
  (
    omega arith,
    omega arith,
    refl,
    (
      omega arith,
      omega arith,
      refl,
      (omega arith, omega arith, refl, (omega arith, omega arith, refl, tt)),
    ),
  ),
)

five_wrong_lock_example :
    login packages
      (timed packages 1 (live_at 0) 800000)
      1
      4
      (wrong_run packages 1 (live_at 0) tries state)
    ≡ (err unauthorized, wrong_run packages 1 (live_at 0) tries state)
five_wrong_lock_example =
    five_wrong_lock packages 1 (live_at 0) 900001 tries state refl state-IsClean tries_wrong
      (omega arith) 800000 4 (omega arith)

changed : (change_password packages (live_at 9000) 0 4 6 0 state).0 ≡ ok tt
unfolding packages rows change_password
changed = refl

change_password_rotates_example :
    let t = (change_password packages (live_at 9000) 0 4 6 0 state).1 in
    Accepted packages 9000 0 4 6 0 state t
    × IsRotated packages 9000 0 6 t
    × (packages.user.find_unique 1 t.users ≡ packages.user.find_unique 1 state.users)
    × (validate_user packages 0 (some 3) t ≡ (err unauthorized, t))
change_password_rotates_example =
    change_password_rotates packages (live_at 9000) 0 1 4 6 0 3 state changed
      (λ e. ground (arith, e)) (λ e. ground (arith, e)) (omega arith)

-- User 0 has asked for a reset, with the token 7.
abbrev asked : AuthState
asked = record state {
  users =
      some (record (member_with 1 (some 5)) {
        password_reset_token = some 7;
        password_reset_expiry = some 9000;
      })
      ∷ [];
}

asked-OneHolder : OneHolder packages 7 asked
unfolding packages rows
asked-OneHolder zero zero u v mine yours holds holds' = refl
asked-OneHolder zero (suc k) u v mine yours holds holds' = ground (arith, yours)
asked-OneHolder (suc j) k u v mine yours holds holds' = ground (arith, mine)

was_reset : (reset_password packages (live_at 100) 7 6 0 asked).0 ≡ ok tt
unfolding packages rows reset_password find_by_token
was_reset = refl

reset_once_example :
    let t = (reset_password packages (live_at 100) 7 6 0 asked).1 in
    reset_password packages (live_at 200) 7 8 0 t ≡ (err bad_request, t)
reset_once_example =
    reset_once packages 7 (live_at 100) (live_at 200) 6 8 0 0 asked asked-OneHolder was_reset
