-- ===== src/Social/InStep.antt =====
-- Any sequence of social requests leaves every counter equal to the number of rows behind it.
use south_connect.Prelude.{ℕ, List, [], ◌∷◌}
use south_connect.Schema.{UserKey, Store, Prisma}
use south_connect.Social.{
  follow, unfollow, like_opportunity, unlike_opportunity, save_opportunity, unsave_opportunity,
  like_discussion, unlike_discussion,
}
use south_connect.Social.Exact.{SocialExact}
use south_connect.Social.Exact.{follow-SocialExact, unfollow-SocialExact}
use south_connect.Social.Opportunities.{
  like-SocialExact, unlike-SocialExact, save-SocialExact, unsave-SocialExact,
}
use south_connect.Social.Discussions.{like_discussion-SocialExact, unlike_discussion-SocialExact}

-- The requests; the first argument of one that inserts is the key that the database makes up.
pub data Act : Type 0 where
  follows likes saves likes_discussion : (new_id : ℕ) → (user : UserKey) → (target : ℕ) → Act
  unfollows unlikes unsaves unlikes_discussion : (user : UserKey) → (target : ℕ) → Act

module _ (prisma : Prisma) where
  unfoldable pub perform : Act → Store → Store
  perform (follows new_id user target) s = (follow prisma new_id user target s).1
  perform (unfollows user target) s = unfollow prisma user target s
  perform (likes new_id user target) s = (like_opportunity prisma new_id user target s).1
  perform (unlikes user target) s = unlike_opportunity prisma user target s
  perform (saves new_id user target) s = (save_opportunity prisma new_id user target s).1
  perform (unsaves user target) s = unsave_opportunity prisma user target s
  perform (likes_discussion new_id user target) s = (like_discussion prisma new_id user target s).1
  perform (unlikes_discussion user target) s = unlike_discussion prisma user target s

  unfoldable pub perform_all : List Act → Store → Store
  perform_all [] s = s
  perform_all (a ∷ rest) s = perform_all rest (perform a s)

  perform-SocialExact :
      (a : Act) (s : Store) → SocialExact prisma s → SocialExact prisma (perform a s)
  unfolding perform
  perform-SocialExact (follows new_id user target) s c =
      follow-SocialExact prisma new_id user target s c
  perform-SocialExact (unfollows user target) s c = unfollow-SocialExact prisma user target s c
  perform-SocialExact (likes new_id user target) s c =
      like-SocialExact prisma new_id user target s c
  perform-SocialExact (unlikes user target) s c = unlike-SocialExact prisma user target s c
  perform-SocialExact (saves new_id user target) s c =
      save-SocialExact prisma new_id user target s c
  perform-SocialExact (unsaves user target) s c = unsave-SocialExact prisma user target s c
  perform-SocialExact (likes_discussion new_id user target) s c =
      like_discussion-SocialExact prisma new_id user target s c
  perform-SocialExact (unlikes_discussion user target) s c =
      unlike_discussion-SocialExact prisma user target s c

  -- After any sequence of social requests, failed ones included, that begins where every counter is
  -- exact, each follower counter of a profile, like and save counter of an opportunity and like
  -- counter of a discussion is the number of rows behind it, and no pair has two rows.
  pub perform_all-SocialExact :
      (requests : List Act) (s : Store)
      → SocialExact prisma s
      → SocialExact prisma (perform_all requests s)
  unfolding perform_all
  perform_all-SocialExact [] s c = c
  perform_all-SocialExact (a ∷ rest) s c =
      perform_all-SocialExact rest (perform a s) (perform-SocialExact a s c)
