-- ===== src/Opportunities/Counters.antt =====
-- Counters kept on the profiles of users, each equal to the number of the user's rows in another
-- table: what an update of the profiles has to do when the rows change.
use south_connect.Prelude.{
  ℕ, ◌+◌, ◌≡◌, ◌≢◌, inl, inr, Bool, true, some, arith, bit, ◌==◌, Bool-cases, Option-cases,
}
use south_connect.Prelude.Int.{ℤ, pos, ◌+ℤ◌}
use south_connect.Database.{Where, Table, Client}
use south_connect.Database.Keyed.{at}
use south_connect.Schema.{UserKey}

-- `of user` are the rows of a user, `user_of` the user of a profile, `counter` what it holds.
module _ {Row Profile : Type 0} (rows : Client Row) (profiles : Client Profile)
    (of : UserKey → Where Row) (user_of : Profile → UserKey) (counter : Profile → ℤ) where
  abbrev pub Exact : Table Row → Table Profile → Type 0
  Exact t ps =
      (k : ℕ) (p : Profile)
      → profiles.find_unique k ps ≡ some p
      → counter p ≡ pos (rows.count (of (user_of p)) t)

  abbrev of_user : UserKey → Where Profile
  of_user user k p = user_of p == user

  -- The rows change, but for every user they are as many as before.
  pub kept-Exact :
      (t t' : Table Row) (ps : Table Profile)
      → ((u : UserKey) → rows.count (of u) t' ≡ rows.count (of u) t)
      → Exact t ps
      → Exact t' ps
  kept-Exact t t' ps same exact k p found = ground (arith, same (user_of p), exact k p found)

  -- The number of one user's rows moves, and the counter of the user's profiles with it.
  pub moved-Exact :
      (user : UserKey) (by : ℤ) (f : Profile → Profile) (t t' : Table Row) (ps : Table Profile)
      → ((p : Profile) → user_of (f p) ≡ user_of p)
      → ((p : Profile) → counter (f p) ≡ counter p +ℤ by)
      → pos (rows.count (of user) t') ≡ pos (rows.count (of user) t) +ℤ by
      → ((u : UserKey) → u ≢ user → rows.count (of u) t' ≡ rows.count (of u) t)
      → Exact t ps
      → Exact t' (profiles.update_many (of_user user) f ps)
  moved-Exact user by f t t' ps fixed moved here elsewhere exact k p found =
      let read = profiles.find_unique-update_many k (of_user user) f ps in
      elim (Option-cases (profiles.find_unique k ps)) [
        | inl absent ↦ ground (arith, found, absent, read)
        | inr (q, present) ↦ elim (Bool-cases (user_of q == user)) [
          | inl mine ↦
              ground (arith, found, present, mine, read, fixed q, moved q, here, exact k q present)
          | inr other ↦ ground (
            arith,
            found,
            present,
            other,
            read,
            elsewhere (user_of q) (λ e. ground (arith, e, other)),
            exact k q present,
          )
        ]
      ]

  -- An update of the profiles that leaves user and counter as they are.
  pub untouched-Exact :
      (p : Where Profile) (f : Profile → Profile) (t : Table Row) (ps : Table Profile)
      → ((q : Profile) → user_of (f q) ≡ user_of q)
      → ((q : Profile) → counter (f q) ≡ counter q)
      → Exact t ps
      → Exact t (profiles.update_many p f ps)
  untouched-Exact p f t ps fixed same exact k q found =
      let read = profiles.find_unique-update_many k p f ps in
      elim (Option-cases (profiles.find_unique k ps)) [
        | inl absent ↦ ground (arith, found, absent, read)
        | inr (r, present) ↦
            ground (arith, found, present, read, fixed r, same r, exact k r present)
      ]

module _ {Row : Type 0} (c : Client Row) where
  -- An update of one row leaves each count that sees no difference.
  pub count-same :
      (id : ℕ) (g : Row → Bool) (f : Row → Row) (t : Table Row) (q : Where Row) (r : Row)
      → c.find_unique id t ≡ some r
      → g r ≡ true
      → q id (f r) ≡ q id r
      → c.count q (c.update_many (at id g) f t) ≡ c.count q t
  count-same id g f t q r present pass same = ground (
    arith,
    c.count-update_many (at id g) f t q id r (λ j s h. ground (arith, h)) present
        (ground (arith, pass)),
    same,
  )

  -- The general case, for a guarded update by key.
  pub count-moved :
      (id : ℕ) (g : Row → Bool) (f : Row → Row) (t : Table Row) (q : Where Row) (r : Row)
      → c.find_unique id t ≡ some r
      → g r ≡ true
      → c.count q (c.update_many (at id g) f t) + bit (q id r) ≡ c.count q t + bit (q id (f r))
  count-moved id g f t q r present pass =
      c.count-update_many (at id g) f t q id r (λ j s h. ground (arith, h)) present
        (ground (arith, pass))
