-- ===== src/Social/Exact.antt =====
-- Every social counter against the rows behind it, and what follows and unfollows leave of that.
use south_connect.Prelude.{
  ℕ, ◌≡◌, ◌≢◌, refl, sym, subst, inl, inr, true, false, arith, ◌==◌, Bool-cases,
}
use south_connect.Prelude.Int.{ℤ}
use south_connect.Database.{Where, Table}
use south_connect.Schema.{
  UserKey, Mark, Rating, Item, of_key, of_discussion, same_item, Opportunity, PublicDiscussion,
  Store, Prisma,
}
use south_connect.Social.{
  of_follow, notify_follow, of_mark, of_rating, follow, unfollow, liked_more, liked_less,
  saved_more, saved_less, discussion_more, discussion_less,
}
use south_connect.Social.Follows.{
  FollowersExact, follow_cases, follow-FollowersExact, unfollow-FollowersExact,
}
use south_connect.Social.Marks.{CountExact, Fits}

-- The marks of an opportunity.
abbrev pub on_opportunity : ℕ → Where Mark
on_opportunity opportunity k m = m.opportunity_id == opportunity

-- The ratings that stand for likes of a discussion.
abbrev pub on_discussion : ℕ → Where Rating
on_discussion discussion k r = same_item r.item_id (of_discussion discussion)

abbrev pub discussion_pair : UserKey → ℕ → Where Rating
discussion_pair user discussion = of_rating (of_discussion discussion) user

abbrev pub likes_of : Opportunity → ℤ
likes_of o = o.likes_count

abbrev pub saves_of : Opportunity → ℤ
saves_of o = o.saved_count

abbrev pub discussion_likes_of : PublicDiscussion → ℤ
discussion_likes_of d = d.likes_count

same_item_apart :
    (item : Item) (i j : ℕ)
    → i ≢ j
    → same_item item (of_discussion i) ≡ true
    → same_item item (of_discussion j) ≡ false
same_item_apart (of_key k) i j other h = ground (arith, h)
same_item_apart (of_discussion k) i j other h = ground (arith, h, other)

module _ (prisma : Prisma) where
  abbrev pub LikesExact : Table Mark → Table Opportunity → Type 0
  LikesExact = CountExact prisma.like prisma.opportunity of_mark on_opportunity likes_of

  abbrev pub SavesExact : Table Mark → Table Opportunity → Type 0
  SavesExact = CountExact prisma.save prisma.opportunity of_mark on_opportunity saves_of

  abbrev pub DiscussionLikesExact : Table Rating → Table PublicDiscussion → Type 0
  DiscussionLikesExact =
      CountExact prisma.rating prisma.public_discussion discussion_pair on_discussion
        discussion_likes_of

  -- Every counter is the number of rows behind it, and no pair has two rows.
  pub record SocialExact (s : Store) : Type 0 where
    pub followers : FollowersExact prisma s
    pub liked : LikesExact s.likes s.opportunities
    pub saved : SavesExact s.saves s.opportunities
    pub discussed : DiscussionLikesExact s.ratings s.public_discussions

  pub likes_fit :
      Fits prisma.like prisma.opportunity of_mark on_opportunity likes_of liked_more liked_less
  likes_fit = record {
    within = λ u i k r h. ground (arith, h);
    apart = λ u i j k r other h. ground (arith, h, other);
    up = λ o. refl;
    down = λ o. refl;
  }

  pub saves_fit :
      Fits prisma.save prisma.opportunity of_mark on_opportunity saves_of saved_more saved_less
  saves_fit = record {
    within = λ u i k r h. ground (arith, h);
    apart = λ u i j k r other h. ground (arith, h, other);
    up = λ o. refl;
    down = λ o. refl;
  }

  pub discussions_fit :
      Fits prisma.rating prisma.public_discussion discussion_pair on_discussion discussion_likes_of
        discussion_more discussion_less
  discussions_fit = record {
    within = λ u i k r h. ground (arith, h);
    apart =
        λ u i j k r other h. same_item_apart r.item_id i j (λ e. other (sym e)) (ground (arith, h));
    up = λ o. refl;
    down = λ o. refl;
  }

  -- The tables of follows and profiles are as before.
  pub same_followers :
      (s t : Store)
      → t.follows ≡ s.follows
      → t.btoc_profiles ≡ s.btoc_profiles
      → t.btob_profiles ≡ s.btob_profiles
      → FollowersExact prisma s
      → FollowersExact prisma t
  same_followers s t same btoc btob c = record {
    unique = λ a b. rw same (c.unique a b);
    btoc = λ k p found. rw same (c.btoc k p (rw btoc at found));
    btob = λ k p found. rw same (c.btob k p (rw btob at found));
  }

  pub follow-SocialExact :
      (new_id : ℕ) (user target : UserKey) (s : Store)
      → SocialExact s
      → SocialExact (follow prisma new_id user target s).1
  unfolding notify_follow
  follow-SocialExact new_id user target s c = elim (follow_cases prisma new_id user target s) [
    | inl same ↦ subst SocialExact (sym same) c
    | inr st ↦
        let followers = follow-FollowersExact prisma new_id user target s c.followers in
        subst SocialExact (sym st.served) (record {
          followers = subst (FollowersExact prisma) st.served followers;
          liked = c.liked;
          saved = c.saved;
          discussed = c.discussed;
        })
  ]

  pub unfollow-SocialExact :
      (user target : UserKey) (s : Store)
      → SocialExact s
      → SocialExact (unfollow prisma user target s)
  unfolding unfollow
  unfollow-SocialExact user target s c =
      let followers = unfollow-FollowersExact prisma user target s c.followers in
      elim (Bool-cases (prisma.follow.count (of_follow user target) s.follows == 0)) [
        | inl absent ↦ rw absent c
        | inr there ↦ rw there (record {
          followers = rw there at followers;
          liked = c.liked;
          saved = c.saved;
          discussed = c.discussed;
        })
      ]
