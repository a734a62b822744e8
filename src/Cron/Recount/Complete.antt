-- ===== src/Cron/Recount/Complete.antt =====
-- What the recounts rely on: the lists of rows are complete, and each profile has its user.
use south_connect.Prelude.{
  ℕ, ◌≡◌, refl, inl, inr, true, not, some, List, [], ◌∷◌, arith, ◌==◌, ==_refl, Option-cases,
}
use south_connect.Database.{Where, Table}
use south_connect.Schema.{
  UserKey, User, BtoCProfile, BtoBProfile, Application, Mark, PublicDiscussion, Store, Prisma,
}
use south_connect.Social.{btoc_of, btob_of}
use south_connect.Social.Exact.{on_opportunity}
use south_connect.Cron.Batches.{apply_all}
use south_connect.Cron.Recount.{Lists, is_submitted, submitted_to, has_profile, profile_users}
use south_connect.Cron.Recount.Sweep.{among, Sweeps, sweep, read-sweep}

-- The user of a profile.
abbrev pub btoc_key : ℕ → BtoCProfile → ℕ
btoc_key k p = p.user_id

abbrev pub btob_key : ℕ → BtoBProfile → ℕ
btob_key k p = p.user_id

pub still : {T : Type 0} (items : List UserKey) (x : T) → apply_all (λ a y. y) items x ≡ x
still [] x = refl
still (a ∷ rest) x = still rest x

module _ (prisma : Prisma) (lists : Lists) where
  -- The lists hold each row that matches, and each value that a row has.
  pub record Complete : Type 0 where
    pub users :
        (p : Where User) (t : Table User) (k : ℕ) (u : User)
        → prisma.user.find_unique k t ≡ some u
        → p k u ≡ true
        → among k (lists.user_keys p t) ≡ true
    pub discussions :
        (t : Table PublicDiscussion) (k : ℕ) (d : PublicDiscussion)
        → prisma.public_discussion.find_unique k t ≡ some d
        → among k (lists.discussion_keys t) ≡ true
    pub likes :
        (t : Table Mark) (k : ℕ)
        → among k (lists.marked t) ≡ not (prisma.like.count (on_opportunity k) t == 0)
    pub saves :
        (t : Table Mark) (k : ℕ)
        → among k (lists.marked t) ≡ not (prisma.save.count (on_opportunity k) t == 0)
    pub applications :
        (t : Table Application) (k : ℕ)
        → among k (lists.applied is_submitted t)
          ≡ not (prisma.application.count (submitted_to k) t == 0)

  -- The foreign keys of the profiles: the user of a profile is stored.
  pub record Owned (s : Store) : Type 0 where
    pub person :
        (k : ℕ) (p : BtoCProfile)
        → prisma.btoc_profile.find_unique k s.btoc_profiles ≡ some p
        → (u : User) × (prisma.user.find_unique p.user_id s.users ≡ some u)
    pub company :
        (k : ℕ) (p : BtoBProfile)
        → prisma.btob_profile.find_unique k s.btob_profiles ≡ some p
        → (u : User) × (prisma.user.find_unique p.user_id s.users ≡ some u)

  person_listed :
      (s : Store) (k : ℕ) (p : BtoCProfile)
      → Complete
      → Owned s
      → prisma.btoc_profile.find_unique k s.btoc_profiles ≡ some p
      → among p.user_id (profile_users prisma lists s) ≡ true
  person_listed s k p complete owned present =
      let (u, there) = owned.person k p present in
      complete.users (has_profile prisma lists s) s.users p.user_id u there (
        ground (
          arith,
          prisma.btoc_profile.count-pos (btoc_of p.user_id) s.btoc_profiles k p present
              (==_refl p.user_id),
        ))

  company_listed :
      (s : Store) (k : ℕ) (p : BtoBProfile)
      → Complete
      → Owned s
      → prisma.btob_profile.find_unique k s.btob_profiles ≡ some p
      → among p.user_id (profile_users prisma lists s) ≡ true
  company_listed s k p complete owned present =
      let (u, there) = owned.company k p present in
      complete.users (has_profile prisma lists s) s.users p.user_id u there (
        ground (
          arith,
          prisma.btob_profile.count-pos (btob_of p.user_id) s.btob_profiles k p present
              (==_refl p.user_id),
        ))

  -- A profile after a sweep of the profiles of all users that have one.
  pub person_after :
      (put : ℕ → BtoCProfile → BtoCProfile) (s : Store) (k : ℕ) (q : BtoCProfile)
      → Complete
      → Owned s
      → Sweeps prisma.btoc_profile btoc_of btoc_key put
      → prisma.btoc_profile.find_unique k (
          apply_all
            (sweep prisma.btoc_profile btoc_of btoc_key put)
            (profile_users prisma lists s)
            s.btoc_profiles)
        ≡ some q
      → (p : BtoCProfile) × (q ≡ put p.user_id p)
  person_after put s k q complete owned fits found =
      let read =
        read-sweep prisma.btoc_profile btoc_of btoc_key put fits (profile_users prisma lists s)
          s.btoc_profiles k in
      elim (Option-cases (prisma.btoc_profile.find_unique k s.btoc_profiles)) [
        | inl absent ↦ ground (arith, found, read, absent)
        | inr (p, present) ↦
            (p, ground (arith, found, read, present, person_listed s k p complete owned present))
      ]

  pub company_after :
      (put : ℕ → BtoBProfile → BtoBProfile) (s : Store) (k : ℕ) (q : BtoBProfile)
      → Complete
      → Owned s
      → Sweeps prisma.btob_profile btob_of btob_key put
      → prisma.btob_profile.find_unique k (
          apply_all
            (sweep prisma.btob_profile btob_of btob_key put)
            (profile_users prisma lists s)
            s.btob_profiles)
        ≡ some q
      → (p : BtoBProfile) × (q ≡ put p.user_id p)
  company_after put s k q complete owned fits found =
      let read =
        read-sweep prisma.btob_profile btob_of btob_key put fits (profile_users prisma lists s)
          s.btob_profiles k in
      elim (Option-cases (prisma.btob_profile.find_unique k s.btob_profiles)) [
        | inl absent ↦ ground (arith, found, read, absent)
        | inr (p, present) ↦
            (p, ground (arith, found, read, present, company_listed s k p complete owned present))
      ]
