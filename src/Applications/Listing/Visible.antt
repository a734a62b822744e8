-- ===== src/Applications/Listing/Visible.antt =====
-- Who sees which applications.
use south_connect.Prelude.{ℕ, ◌+◌, ◌≡◌, inl, inr, true, false, some, List, arith, Bool-cases}
use south_connect.Prelude.Int.{ℤ}
use south_connect.Action.{ok}
use south_connect.Database.{Where, Table}
use south_connect.Schema.{UserKey, Application, Store, Prisma}
use south_connect.Pages.{page, capped_skip, get_elem?, within_page}
use south_connect.Applications.Stages.{is_live}
use south_connect.Applications.Listing.{
  of_opportunity, is_foreign, is_open, of_candidate, find_by_opportunity_for_owner, find_for_user,
}

-- Each row that `findMany` returns is stored and matches.
abbrev pub FindsMatching :
    Prisma → (Where Application → Table Application → List (ℕ × Application)) → Type 0
FindsMatching prisma find_many =
    (p : Where Application) (t : Table Application) (n k : ℕ) (a : Application)
    → get_elem? (find_many p t) n ≡ some (k, a)
    → (prisma.application.find_unique k t ≡ some a) × (p k a ≡ true)

module _ (prisma : Prisma)
    (find_many : Where Application → Table Application → List (ℕ × Application))
    (matching : FindsMatching prisma find_many) where
  -- Where `findMany` returns stored rows that match, only the owner of an opportunity is given its
  -- applications, and each of them is stored, not withdrawn and to that opportunity.
  pub listed_visible :
      (opportunity : ℕ) (owner : UserKey) (number skipped : ℤ) (s : Store)
      (xs : List (ℕ × Application)) (n k : ℕ) (a : Application)
      → (find_by_opportunity_for_owner prisma find_many opportunity owner number skipped s).0
        ≡ ok xs
      → get_elem? xs n ≡ some (k, a)
      → (is_foreign owner (prisma.opportunity.find_unique opportunity s.opportunities) ≡ false)
        × (prisma.application.find_unique k s.applications ≡ some a)
        × (is_live a ≡ true)
        × (a.opportunity_id ≡ opportunity)
  unfolding find_by_opportunity_for_owner
  listed_visible opportunity owner number skipped s xs n k a served at_n =
      elim (Bool-cases
        (is_foreign owner (prisma.opportunity.find_unique opportunity s.opportunities))) [
          | inl foreign ↦ ground (arith, served, foreign)
          | inr own ↦
              let found = find_many (of_opportunity opportunity) s.applications in
              let listed : page 100 number skipped found ≡ xs = ground (arith, served, own) in
              let (stored, hit) =
                matching (of_opportunity opportunity) s.applications (capped_skip skipped + n) k a
                  (within_page 100 number skipped n found (k, a) (rw listed at_n)) in
              (own, stored, ground (arith, hit), ground (arith, hit))
        ]

  -- Where `findMany` returns stored rows that match, each application that a user is given is
  -- stored, not withdrawn, the user's own, and to an opportunity that is not deleted.
  pub own_listed :
      (user : UserKey) (number skipped : ℤ) (s : Store) (n k : ℕ) (a : Application)
      → get_elem? (find_for_user prisma find_many user number skipped s) n ≡ some (k, a)
      → (prisma.application.find_unique k s.applications ≡ some a)
        × (is_live a ≡ true)
        × (a.candidate_id ≡ user)
        × (is_open (prisma.opportunity.find_unique a.opportunity_id s.opportunities) ≡ true)
  unfolding find_for_user
  own_listed user number skipped s n k a at_n =
      let clause = of_candidate prisma find_many user s in
      let (stored, hit) =
        matching clause s.applications (capped_skip skipped + n) k a
          (within_page 100 number skipped n (find_many clause s.applications) (k, a) at_n) in
      (stored, ground (arith, hit), ground (arith, hit), ground (arith, hit))
