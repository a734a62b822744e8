-- ===== src/Cron/Expiry/Kept.antt =====
-- What the expirations leave alone.
use south_connect.Prelude.{
  ℕ, ◌≤◌, ◌≡◌, refl, sym, ap, ◌∙◌, inl, inr, Bool, true, false, ◌&&◌, Option, none, some, arith,
  is_key, is_some, if◌then◌else◌, Bool-cases,
}
use south_connect.Database.{patch}
use south_connect.Schema.{Text, User, Store, Prisma}
use south_connect.Auth.Emails.{of_verification, is_after}
use south_connect.Auth.Passwords.{of_reset}
use south_connect.Cron.Expiry.{
  is_before, has_stale_verification, without_verification, has_stale_reset, without_reset,
  cleanup_expired_tokens,
}

-- A user after the clean-up.
abbrev tidied : ℕ → ℕ → User → User
tidied now k u =
    let v = if has_stale_verification now k u then without_verification u else u in
    if has_stale_reset now k v then without_reset v else v

-- A link that has expired is not found by its token any more.
link_over :
    (now later : ℕ) (held : Option Text) (expiry : Option ℕ) (token : Text)
    → now ≤ later
    → (is_before now expiry && is_some held) ≡ true
    → (is_key held token && is_after later expiry) ≡ false
link_over now later none expiry token order stale = refl
link_over now later (some t) none token order stale = ground (arith, stale)
link_over now later (some t) (some date) token order stale = ground (arith, order, stale)

module _ (now later k : ℕ) (token : Text) (order : now ≤ later) where
  same_verification :
      (u : User)
      → of_verification later token k
          (if has_stale_verification now k u then without_verification u else u)
        ≡ of_verification later token k u
  same_verification u = elim (Bool-cases (has_stale_verification now k u)) [
    | inl stale ↦ rw stale (
        sym (
          link_over now later u.email_verification_token u.email_verification_token_expiry token
            order stale))
    | inr live ↦ rw live refl
  ]

  same_reset :
      (u : User)
      → of_reset later token k (if has_stale_reset now k u then without_reset u else u)
        ≡ of_reset later token k u
  same_reset u = elim (Bool-cases (has_stale_reset now k u)) [
    | inl stale ↦
        rw stale (
          sym
            (link_over now later u.password_reset_token u.password_reset_expiry token order stale))
    | inr live ↦ rw live refl
  ]

-- Each half of the clean-up leaves the other token alone.
other_token :
    (b : Bool) (later : ℕ) (token : Text) (k : ℕ) (u : User)
    → (of_reset later token k (if b then without_verification u else u) ≡ of_reset later token k u)
      × (of_verification later token k (if b then without_reset u else u)
          ≡ of_verification later token k u)
other_token true later token k u = (refl, refl)
other_token false later token k u = (refl, refl)

-- Nothing is stale in what has been tidied.
no_stale :
    (now k : ℕ) (u : User)
    → (has_stale_verification now k (tidied now k u) ≡ false)
      × (has_stale_reset now k (tidied now k u) ≡ false)
no_stale now k u = elim (Bool-cases (has_stale_verification now k u)) [
  | inl stale ↦ elim (Bool-cases (has_stale_reset now k u)) [
    | inl stale' ↦ rw (stale, stale') (refl, refl)
    | inr live' ↦ rw (stale, live') (refl, live')
  ]
  | inr live ↦ elim (Bool-cases (has_stale_reset now k u)) [
    | inl stale' ↦ rw (live, stale') (live, refl)
    | inr live' ↦ rw (live, live') (live, live')
  ]
]

module _ (prisma : Prisma) where
  -- What the nightly clean-up leaves of a user.
  pub record Tidied (now k : ℕ) (u v : User) : Type 0 where
    pub clean : (has_stale_verification now k v ≡ false) × (has_stale_reset now k v ≡ false)
    pub verifies :
        (later : ℕ) (token : Text)
        → now ≤ later
        → of_verification later token k v ≡ of_verification later token k u
    pub resets :
        (later : ℕ) (token : Text)
        → now ≤ later
        → of_reset later token k v ≡ of_reset later token k u

  -- After the nightly clean-up no user has an expired token, and each link that is opened from then
  -- on, to verify an address or to reset a password, finds the same users as without it.
  pub cleanup_expired_tokens-Tidied :
      (now k : ℕ) (s : Store) (u : User)
      → prisma.user.find_unique k s.users ≡ some u
      → (v : User) × (prisma.user.find_unique k (cleanup_expired_tokens prisma now s).users
          ≡ some v)
        × Tidied now k u v
  unfolding cleanup_expired_tokens
  cleanup_expired_tokens-Tidied now k s u present =
      let once =
        prisma.user.update_many (has_stale_verification now) without_verification s.users in
      (
        tidied now k u,
        prisma.user.find_unique-update_many k (has_stale_reset now) without_reset once
            ∙ ap (patch (has_stale_reset now) without_reset k) (
                prisma.user.find_unique-update_many k (has_stale_verification now)
                  without_verification s.users
                ∙ ap (patch (has_stale_verification now) without_verification k) present),
        record {
          clean = no_stale now k u;
          verifies = λ later token order.
              (other_token _ later token k _).1 ∙ same_verification now later k token order u;
          resets = λ later token order.
              same_reset now later k token order _
              ∙ (other_token (has_stale_verification now k u) later token k u).0;
        },
      )
