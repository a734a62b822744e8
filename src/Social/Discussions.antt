-- ===== src/Social/Discussions.antt =====
-- Likes of discussions keep every counter exact.
use south_connect.Prelude.{
  ℕ, ◌≡◌, refl, sym, subst, ◌⊎◌, inl, inr, some, arith, ◌==◌, Bool-cases, Option-cases,
}
use south_connect.Database.{Table}
use south_connect.Database.Keyed.{at, always}
use south_connect.Schema.{UserKey, Rating, Store, Prisma}
use south_connect.Social.{
  like_row, like_discussion, unlike_discussion, discussion_more, discussion_less,
}
use south_connect.Social.Marks.{mark-CountExact, unmark-CountExact}
use south_connect.Social.Exact.{
  on_discussion, discussion_pair, discussion_likes_of, SocialExact, discussions_fit, same_followers,
}

module _ (prisma : Prisma) where
  discussion_cases :
      (new_id : ℕ) (user : UserKey) (target : ℕ) (s : Store)
      → let t = (like_discussion prisma new_id user target s).1 in
        (t ≡ s)
        ⊎ (table : Table Rating) × (prisma.rating.create
              (discussion_pair user target)
              new_id
              (like_row user target)
              s.ratings
            ≡ some table)
          × (t ≡ record s {
            ratings = table;
            public_discussions =
                prisma.public_discussion.update_many
                  (at target always)
                  discussion_more
                  s.public_discussions;
          })
  unfolding like_discussion
  discussion_cases new_id user target s =
      let row = like_row user target in
      elim (Option-cases (prisma.public_discussion.find_unique target s.public_discussions)) [
        | inl absent ↦ inl (ground (arith, absent))
        | inr (o, present) ↦
            elim (Option-cases
              (prisma.rating.create (discussion_pair user target) new_id row s.ratings)) [
                | inl clash ↦ inl (ground (arith, present, clash))
                | inr (table, made) ↦ inr (table, made, ground (arith, present, made))
              ]
      ]

  pub like_discussion-SocialExact :
      (new_id : ℕ) (user : UserKey) (target : ℕ) (s : Store)
      → SocialExact prisma s
      → SocialExact prisma (like_discussion prisma new_id user target s).1
  like_discussion-SocialExact new_id user target s c =
      elim (discussion_cases new_id user target s) [
        | inl same ↦ subst (SocialExact prisma) (sym same) c
        | inr (table, made, served) ↦ subst (SocialExact prisma) (sym served) (record {
          followers = same_followers prisma s _ refl refl refl c.followers;
          liked = c.liked;
          saved = c.saved;
          discussed =
              mark-CountExact prisma.rating prisma.public_discussion discussion_pair on_discussion
                discussion_likes_of discussion_more discussion_less (discussions_fit prisma) new_id
                user target (like_row user target) s.ratings table s.public_discussions
                (ground arith) (λ u i h. (ground (arith, h), ground (arith, h))) made c.discussed;
        })
      ]

  pub unlike_discussion-SocialExact :
      (user : UserKey) (target : ℕ) (s : Store)
      → SocialExact prisma s
      → SocialExact prisma (unlike_discussion prisma user target s)
  unfolding unlike_discussion
  unlike_discussion-SocialExact user target s c =
      elim (Bool-cases (prisma.rating.count (discussion_pair user target) s.ratings == 0)) [
        | inl absent ↦ rw absent c
        | inr there ↦ rw there (record {
          followers = same_followers prisma s _ refl refl refl c.followers;
          liked = c.liked;
          saved = c.saved;
          discussed =
              unmark-CountExact prisma.rating prisma.public_discussion discussion_pair on_discussion
                discussion_likes_of discussion_more discussion_less (discussions_fit prisma) user
                target s.ratings s.public_discussions (λ e. ground (arith, e, there)) c.discussed;
        })
      ]
