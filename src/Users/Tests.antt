-- ===== src/Users/Tests.antt =====
-- The theorems on accounts at a concrete erasure.
use south_connect.Prelude.{◌+◌, ◌≡◌, refl, none, some, [], ◌∷◌, arith}
use south_connect.Action.{err, unauthorized}
use south_connect.Database.Rows.{rows}
use south_connect.Schema.{User, Store}
use south_connect.Samples.{stored_rows, empty_store, member_with}
use south_connect.Auth.State.{AuthState, Claims, refresh_secret}
use south_connect.Auth.Samples.{packages, state, live_at}
use south_connect.Auth.Tokens.{validate_user, renew, seconds}
use south_connect.Users.{Texts, anonymize_user}
use south_connect.Users.Erased.{anonymize_user-locked_out}

abbrev texts : Texts
texts = record { full_name = λ first last. 9; deleted_email = λ id. 1000 + id; deleted_name = 8 }

-- User 0 has an address, a password and a telephone.
abbrev person : User
person = record (member_with 1 (some 5)) { phone = some 33 }

abbrev world : Store
world = record empty_store { users = some person ∷ some (member_with 2 none) ∷ [] }

is_there : stored_rows.user.find_unique 0 world.users ≡ some person
unfolding rows
is_there = refl

-- The state of the authentication after the erasure, with a refresh token of user 0.
abbrev claims : Claims
claims = record { user_id = 0; issued_at = 0; expires = 604800 }

abbrev after : AuthState
after = record state { users = (anonymize_user stored_rows texts 50 0 world).1.users }

still_verifies :
    packages.verify (seconds 100) refresh_secret (packages.sign refresh_secret claims) ≡ some claims
still_verifies = packages.verify-sign (seconds 100) refresh_secret claims (omega arith)

same_client : packages.user ≡ stored_rows.user
unfolding packages
same_client = refl

anonymize_user-locked_out_example :
    (validate_user packages 0 none after ≡ (err unauthorized, after))
    × (renew packages (live_at 100) (packages.sign refresh_secret claims) after
        ≡ (err unauthorized, after))
anonymize_user-locked_out_example =
    anonymize_user-locked_out stored_rows texts packages (live_at 100) 50 0 world after person none
      (packages.sign refresh_secret claims) claims same_client is_there refl still_verifies refl
