-- ===== src/Cron/Recount/Repair.antt =====
-- What the recounts leave in the counters of the profiles, whatever stood there before.
use south_connect.Prelude.{ℕ, ◌≤◌, ◌≡◌, refl, ◌∙◌, some}
use south_connect.Prelude.Int.{pos}
use south_connect.Schema.{UserKey, BtoCProfile, BtoBProfile, Store, Prisma}
use south_connect.Social.{btoc_of, btob_of, of_follow}
use south_connect.Social.Follows.{followed, FollowersExact}
use south_connect.Cron.Batches.{apply_all, batches-apply_all}
use south_connect.Cron.Recount.{
  Lists, owned_by, owned_active, with_opportunities, with_offers, with_followers,
  with_company_followers, profile_users, recount_profile, recount_profile_counters,
  recount_follower, recount_follower_counts,
}
use south_connect.Cron.Recount.Sweep.{sweep, part-apply_all}
use south_connect.Cron.Recount.Complete.{
  Complete, Owned, btoc_key, btob_key, person_after, company_after, still,
}

module _ (prisma : Prisma) (lists : Lists) where
  -- Where the queries list every row that they ask for, each profile's user is stored and no pair has
  -- two follows, the nightly recount ends, whatever the follower counters hold, and then every profile
  -- has the number of its followers.
  pub recount_follower_counts-FollowersExact :
      (s : Store)
      → Complete prisma lists
      → Owned prisma lists s
      → ((a b : UserKey) → prisma.follow.count (of_follow a b) s.follows ≤ 1)
      → (t : Store) × (recount_follower_counts prisma lists s ≡ some t) × FollowersExact prisma t
  unfolding recount_follower_counts
  recount_follower_counts-FollowersExact s complete owned unique =
      let users = profile_users prisma lists s in
      let f = recount_follower prisma lists s in
      let t = apply_all f users s in
      let number = λ (u : UserKey). prisma.follow.count (followed u) s.follows in
      let same : t.follows ≡ s.follows =
        part-apply_all (λ (x : Store). x.follows) f (λ a y. y) users s (λ a x. refl)
        ∙ still users s.follows in
      let persons : t.btoc_profiles
          ≡ apply_all
              (sweep prisma.btoc_profile btoc_of btoc_key (λ u p. with_followers (number u) p))
              users s.btoc_profiles =
        part-apply_all (λ (x : Store). x.btoc_profiles) f _ users s (λ a x. refl) in
      let companies : t.btob_profiles
          ≡ apply_all
              (sweep prisma.btob_profile btob_of btob_key
                (λ u p. with_company_followers (number u) p))
              users s.btob_profiles =
        part-apply_all (λ (x : Store). x.btob_profiles) f _ users s (λ a x. refl) in
      (
        t,
        batches-apply_all f users s,
        record {
          unique = λ a b. rw same (unique a b);
          btoc = λ k q found.
              let (p, is_p) =
                person_after prisma lists (λ u p. with_followers (number u) p) s k q complete owned
                  (record { by_key = λ u k p. refl; same_key = λ u k p. refl; again = λ u p. refl })
                  (rw persons at found) in
              rw (same, is_p) refl;
          btob = λ k q found.
              let (p, is_p) =
                company_after prisma lists (λ u p. with_company_followers (number u) p) s k q
                  complete owned
                  (record { by_key = λ u k p. refl; same_key = λ u k p. refl; again = λ u p. refl })
                  (rw companies at found) in
              rw (same, is_p) refl;
        },
      )

  -- A profile's counters as the recount writes them: all opportunities of the user, deleted ones
  -- too, and for a person all that are active.
  pub record ProfilesCounted (s t : Store) : Type 0 where
    pub person :
        (k : ℕ) (p : BtoCProfile)
        → prisma.btoc_profile.find_unique k t.btoc_profiles ≡ some p
        → (p.opportunities_count
            ≡ pos (prisma.opportunity.count (owned_by p.user_id) s.opportunities))
          × (p.active_opportunities_count
              ≡ pos (prisma.opportunity.count (owned_active p.user_id) s.opportunities))
    pub company :
        (k : ℕ) (p : BtoBProfile)
        → prisma.btob_profile.find_unique k t.btob_profiles ≡ some p
        → p.opportunities_count
          ≡ pos (prisma.opportunity.count (owned_by p.user_id) s.opportunities)

  -- Where the queries list every row that they ask for and each profile's user is stored, after the
  -- nightly recount every profile counts all opportunities of the user, and a person's the active
  -- ones, whether or not they are deleted; no opportunity changes.
  pub recount_profile_counters-ProfilesCounted :
      (s : Store)
      → Complete prisma lists
      → Owned prisma lists s
      → let t = recount_profile_counters prisma lists s in
        (t.opportunities ≡ s.opportunities) × ProfilesCounted s t
  unfolding recount_profile_counters
  recount_profile_counters-ProfilesCounted s complete owned =
      let users = profile_users prisma lists s in
      let f = recount_profile prisma lists s in
      let total = λ (u : UserKey). prisma.opportunity.count (owned_by u) s.opportunities in
      let active = λ (u : UserKey). prisma.opportunity.count (owned_active u) s.opportunities in
      let persons : (apply_all f users s).btoc_profiles
          ≡ apply_all
              (sweep prisma.btoc_profile btoc_of btoc_key
                (λ u p. with_opportunities (total u) (active u) p))
              users s.btoc_profiles =
        part-apply_all (λ (x : Store). x.btoc_profiles) f _ users s (λ a x. refl) in
      let companies : (apply_all f users s).btob_profiles
          ≡ apply_all (sweep prisma.btob_profile btob_of btob_key (λ u p. with_offers (total u) p))
              users s.btob_profiles =
        part-apply_all (λ (x : Store). x.btob_profiles) f _ users s (λ a x. refl) in
      (
        part-apply_all (λ (x : Store). x.opportunities) f (λ a y. y) users s (λ a x. refl)
            ∙ still users s.opportunities,
        record {
          person = λ k q found.
              let (p, is_p) =
                person_after prisma lists (λ u p. with_opportunities (total u) (active u) p) s k q
                  complete owned
                  (record { by_key = λ u k p. refl; same_key = λ u k p. refl; again = λ u p. refl })
                  (rw persons at found) in
              rw is_p (refl, refl);
          company = λ k q found.
              let (p, is_p) =
                company_after prisma lists (λ u p. with_offers (total u) p) s k q complete owned
                  (record { by_key = λ u k p. refl; same_key = λ u k p. refl; again = λ u p. refl })
                  (rw companies at found) in
              rw is_p refl;
        },
      )
