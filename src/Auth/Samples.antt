-- ===== src/Auth/Samples.antt =====
-- Concrete packages that meet every law, and a small state: a token is the number of its claims, and a
-- digest is one more than its password.
use south_connect.Prelude.{
  ℕ, ◌+◌, ◌≡◌, ◌<◌, refl, true, ◌&&◌, Option, none, some, [], ◌∷◌, ltb, ◌==◌, ==_refl, arith,
  if◌then◌else◌,
}
use south_connect.Prelude.Pairing.{pair, unpair, unpair-pair}
use south_connect.Database.Rows.{rows}
use south_connect.Redis.{memory}
use south_connect.Schema.{Text}
use south_connect.Samples.{member_with}
use south_connect.Auth.State.{
  AuthState, Env, Packages, Claims, Secret, access_secret, refresh_secret,
}

abbrev rank : Secret → ℕ
rank access_secret = 0
rank refresh_secret = 1

unfoldable pub sign : Secret → Claims → Text
sign k c = pair (rank k) (pair c.user_id (pair c.issued_at c.expires))

abbrev claims_of : ℕ × ℕ → Claims
claims_of (user, rest) = record {
  user_id = user;
  issued_at = (unpair rest).0;
  expires = (unpair rest).1;
}

unfoldable pub decode : Text → Option Claims
decode token = some (claims_of (unpair (unpair token).1))

unfoldable pub verify : ℕ → Secret → Text → Option Claims
verify now k token =
    let c = claims_of (unpair (unpair token).1) in
    if (unpair token).0 == rank k && ltb now c.expires then some c else none

claims_of-pair : (k : Secret) (c : Claims) → claims_of (unpair (unpair (sign k c)).1) ≡ c
unfolding sign
claims_of-pair k c =
    rw
      (
        unpair-pair (rank k) (pair c.user_id (pair c.issued_at c.expires)),
        unpair-pair c.user_id (pair c.issued_at c.expires),
        unpair-pair c.issued_at c.expires,
      )
      refl

rank_of : (k : Secret) (c : Claims) → (unpair (sign k c)).0 ≡ rank k
unfolding sign
rank_of k c = rw (unpair-pair (rank k) (pair c.user_id (pair c.issued_at c.expires))) refl

pub decode_sign : (k : Secret) (c : Claims) → decode (sign k c) ≡ some c
unfolding decode
decode_sign k c = rw (claims_of-pair k c) refl

pub verify_sign :
    (now : ℕ) (k : Secret) (c : Claims) → now < c.expires → verify now k (sign k c) ≡ some c
unfolding verify
verify_sign now k c early = ground (arith, claims_of-pair k c, early, rank_of k c)

unfoldable pub packages : Packages
packages = record {
  user = rows;
  redis = memory;
  lower = λ t. t;
  full_name = λ first last. 9;
  sha256 = λ t. t;
  bcrypt_hash = λ password salt. password + 1;
  bcrypt_compare = λ password digest. digest == password + 1;
  sign = sign;
  verify = verify;
  decode = decode;
  compare-hash = λ password salt. ==_refl (password + 1);
  decode-sign = decode_sign;
  verify-sign = verify_sign;
}

-- User 0, with the email 1 and the password 4.
abbrev pub state : AuthState
state = record {
  users = some (member_with 1 (some 5)) ∷ [];
  redis = λ k. none;
  login_attempts = λ k. none;
  oauth_codes = λ k. none;
  mails = [];
  sub_rows = [];
}

-- A deployment with Redis, at a time in milliseconds.
abbrev pub live_at : ℕ → Env
live_at now = record { now = now; has_redis = true; redis_ok = true; production = true }
