-- ===== src/Cron/Recount/Tallied.antt =====
-- What the recounts leave in the counters of opportunities and discussions.
use south_connect.Prelude.{
  ℕ, ◌≡◌, refl, ap, ◌∙◌, Bool, true, false, not, ◌&&◌, ◌||◌, some, ◌++◌, length, arith, ◌==◌,
  if◌then◌else◌,
}
use south_connect.Database.Keyed.{at, always}
use south_connect.Schema.{Opportunity, PublicDiscussion, Store, Prisma}
use south_connect.Social.Exact.{on_opportunity, on_discussion}
use south_connect.Messages.Public.Counted.{in_public}
use south_connect.Cron.Batches.{apply_all, batches-apply_all}
use south_connect.Cron.Recount.{
  Lists, is_submitted, submitted_to, with_tallies, with_members, counted_opportunities,
  recount_opportunity, recount_opportunity_counters, recount_discussion,
  recount_discussion_members_count,
}
use south_connect.Cron.Recount.Sweep.{
  among, sweep, swept, read-sweep, part-apply_all, among-append, among-each_once,
}
use south_connect.Cron.Recount.Complete.{Complete}

module _ (prisma : Prisma) (lists : Lists) where
  chosen :
      {T : Type 0} (listed a b c : Bool) (x y : T)
      → listed ≡ (not a || (not b || not c))
      → (if listed then x else y) ≡ (if a && (b && c) then y else x)
  chosen listed false b c x y h = rw h refl
  chosen listed true false c x y h = rw h refl
  chosen listed true true false x y h = rw h refl
  chosen listed true true true x y h = rw h refl

  -- An opportunity after the recount of its counters.
  abbrev pub tallied : Store → ℕ → Opportunity → Opportunity
  tallied s k o =
      let likes = prisma.like.count (on_opportunity k) s.likes in
      let saves = prisma.save.count (on_opportunity k) s.saves in
      let applications = prisma.application.count (submitted_to k) s.applications in
      if likes == 0 && (saves == 0 && applications == 0)
      then o
      else with_tallies likes saves applications o

  -- Where the queries list every row that they ask for, the recount of the opportunities ends. One
  -- with a like, a bookmark or a submitted application then has the exact numbers of the three, and
  -- one with none of these is as it was.
  pub recount_opportunity_counters-tallied :
      (s : Store) (k : ℕ) (o : Opportunity)
      → Complete prisma lists
      → prisma.opportunity.find_unique k s.opportunities ≡ some o
      → (t : Store) × (recount_opportunity_counters prisma lists s ≡ some t)
        × (prisma.opportunity.find_unique k t.opportunities ≡ some (tallied s k o))
  unfolding recount_opportunity_counters
  recount_opportunity_counters-tallied s k o complete present =
      let keys = counted_opportunities prisma lists s in
      let f = recount_opportunity prisma lists s in
      let put : ℕ → Opportunity → Opportunity = λ id o.
        with_tallies (prisma.like.count (on_opportunity id) s.likes)
          (prisma.save.count (on_opportunity id) s.saves)
          (prisma.application.count (submitted_to id) s.applications) o in
      let rows : (apply_all f keys s).opportunities
          ≡ apply_all (sweep prisma.opportunity (λ u. at u always) (λ k o. k) put) keys
              s.opportunities =
        part-apply_all (λ (x : Store). x.opportunities) f _ keys s (λ a x. refl) in
      let listed : among k keys ≡ (
          not (prisma.like.count (on_opportunity k) s.likes == 0)
          || (not (prisma.save.count (on_opportunity k) s.saves == 0)
              || not (prisma.application.count (submitted_to k) s.applications == 0))) =
        ground (
          arith,
          among-each_once k (
              lists.marked s.likes
              ++ (lists.marked s.saves ++ lists.applied is_submitted s.applications)),
          among-append k (lists.marked s.likes)
              (lists.marked s.saves ++ lists.applied is_submitted s.applications),
          among-append k (lists.marked s.saves) (lists.applied is_submitted s.applications),
          complete.likes s.likes k,
          complete.saves s.saves k,
          complete.applications s.applications k,
        ) in
      (
        apply_all f keys s,
        batches-apply_all f keys s,
        ap (prisma.opportunity.find_unique k) rows
            ∙ read-sweep prisma.opportunity (λ u. at u always) (λ k o. k) put
                (record {
                  by_key = λ u k o. ground arith;
                  same_key = λ u k o. refl;
                  again = λ u o. refl;
                })
                keys s.opportunities k
            ∙ ap (swept prisma.opportunity (λ u. at u always) (λ k o. k) put keys k) present
            ∙ ap some (
                chosen (among k keys) (prisma.like.count (on_opportunity k) s.likes == 0)
                  (prisma.save.count (on_opportunity k) s.saves == 0)
                  (prisma.application.count (submitted_to k) s.applications == 0) (put k o) o
                  listed),
      )

  -- The recount of the public discussions ends, and every one then has the number of its likes, and
  -- as members the different senders of its messages.
  pub recount_discussion_members_count-exact :
      (s : Store) (k : ℕ) (d : PublicDiscussion)
      → Complete prisma lists
      → prisma.public_discussion.find_unique k s.public_discussions ≡ some d
      → (t : Store) × (recount_discussion_members_count prisma lists s ≡ some t)
        × (prisma.public_discussion.find_unique k t.public_discussions
            ≡ some (
                with_members
                  (length (lists.senders (in_public k) s.messages))
                  (prisma.rating.count (on_discussion k) s.ratings)
                  d))
  unfolding recount_discussion_members_count
  recount_discussion_members_count-exact s k d complete present =
      let keys = lists.discussion_keys s.public_discussions in
      let f = recount_discussion prisma lists s in
      let put : ℕ → PublicDiscussion → PublicDiscussion = λ id d.
        with_members (length (lists.senders (in_public id) s.messages))
          (prisma.rating.count (on_discussion id) s.ratings) d in
      let rows : (apply_all f keys s).public_discussions
          ≡ apply_all (sweep prisma.public_discussion (λ u. at u always) (λ k d. k) put) keys
              s.public_discussions =
        part-apply_all (λ (x : Store). x.public_discussions) f _ keys s (λ a x. refl) in
      (
        apply_all f keys s,
        batches-apply_all f keys s,
        ap (prisma.public_discussion.find_unique k) rows
            ∙ read-sweep prisma.public_discussion (λ u. at u always) (λ k d. k) put
                (record {
                  by_key = λ u k d. ground arith;
                  same_key = λ u k d. refl;
                  again = λ u d. refl;
                })
                keys s.public_discussions k
            ∙ ap (swept prisma.public_discussion (λ u. at u always) (λ k d. k) put keys k) present
            ∙ rw (complete.discussions s.public_discussions k d present) refl,
      )
