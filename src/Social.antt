-- ===== src/Social.antt =====
-- modules/social/social.service.ts: follows, and the likes and bookmarks of opportunities and
-- discussions, each with the counter that is kept beside its rows. The lists of followers and of
-- bookmarks are left out.
pub mod Tally
pub mod Follows
pub mod Marks
pub mod Exact
pub mod Opportunities
pub mod Discussions
pub mod InStep
mod Tests
use south_connect.Prelude.{
  ℕ, Bool, true, false, not, ◌&&◌, Option, none, some, ◌∷◌, ltb, ◌==◌, is_some, if◌then◌else◌,
}
use south_connect.Prelude.Int.{ℤ, pos, negsuc, ◌+ℤ◌, ◌-ℤ◌}
use south_connect.Action.{
  Action, bad_request, not_found, conflict, ◌>>=◌, ◌>>◌, pure, throw, gets, modify, throw_if,
  or_throw, transaction,
}
use south_connect.Database.{Where, Table, Client}
use south_connect.Database.Keyed.{at, always}
use south_connect.Schema.{
  UserKey, User, Follow, Mark, Rating, Item, of_discussion, BtoCProfile, BtoBProfile, Opportunity,
  PublicDiscussion, Store, Prisma, is_null, email, in_app, invalidate_caches, new_follower,
  same_item,
}

-- `{ followerId, followingId }`, a unique key
abbrev pub of_follow : UserKey → UserKey → Where Follow
of_follow follower following k f = f.follower_id == follower && f.following_id == following

-- `{ userId, opportunityId }`, a unique key
abbrev pub of_mark : UserKey → ℕ → Where Mark
of_mark user opportunity k m = m.user_id == user && m.opportunity_id == opportunity

-- `{ itemId, userId }`, a unique key
abbrev pub of_rating : Item → UserKey → Where Rating
of_rating item user k r = same_item r.item_id item && r.user_id == user

abbrev pub follow_row : UserKey → UserKey → Follow
follow_row follower following = record { follower_id = follower; following_id = following }

abbrev pub mark_row : UserKey → ℕ → Mark
mark_row user opportunity = record { user_id = user; opportunity_id = opportunity }

abbrev pub like_row : UserKey → ℕ → Rating
like_row user discussion = record { item_id = of_discussion discussion; user_id = user; rating = 1 }

abbrev pub is_present : User → Bool
is_present u = is_null u.deleted_at

abbrev pub btoc_of : UserKey → Where BtoCProfile
btoc_of user k p = p.user_id == user

abbrev pub btob_of : UserKey → Where BtoBProfile
btob_of user k p = p.user_id == user

abbrev pub btoc_moved : ℤ → BtoCProfile → BtoCProfile
btoc_moved by p = record p { followers_count = p.followers_count +ℤ by }

abbrev pub btob_moved : ℤ → BtoBProfile → BtoBProfile
btob_moved by p = record p { followers_count = p.followers_count +ℤ by }

-- `{ gt: 0 }`
abbrev pub is_positive : ℤ → Bool
is_positive (pos n) = ltb 0 n
is_positive (negsuc n) = false

abbrev pub liked_more : Opportunity → Opportunity
liked_more o = record o { likes_count = o.likes_count +ℤ pos 1 }

abbrev pub liked_less : Opportunity → Opportunity
liked_less o = record o { likes_count = o.likes_count -ℤ pos 1 }

abbrev pub has_likes : Opportunity → Bool
has_likes o = is_positive o.likes_count

abbrev pub saved_more : Opportunity → Opportunity
saved_more o = record o { saved_count = o.saved_count +ℤ pos 1 }

abbrev pub saved_less : Opportunity → Opportunity
saved_less o = record o { saved_count = o.saved_count -ℤ pos 1 }

abbrev pub has_saves : Opportunity → Bool
has_saves o = is_positive o.saved_count

abbrev pub discussion_more : PublicDiscussion → PublicDiscussion
discussion_more d = record d { likes_count = d.likes_count +ℤ pos 1 }

abbrev pub discussion_less : PublicDiscussion → PublicDiscussion
discussion_less d = record d { likes_count = d.likes_count -ℤ pos 1 }

abbrev pub discussion_has_likes : PublicDiscussion → Bool
discussion_has_likes d = is_positive d.likes_count

module _ (prisma : Prisma) where
  abbrev pub is_following : UserKey → UserKey → Store → Bool
  is_following follower following s =
      is_some (prisma.follow.find_first (of_follow follower following) s.follows)

  abbrev pub is_discussion_liked : UserKey → ℕ → Store → Bool
  is_discussion_liked user discussion s =
      is_some (prisma.rating.find_first (of_rating (of_discussion discussion) user) s.ratings)

  -- Both profiles of a user, of which there may be neither.
  abbrev pub move_followers : UserKey → ℤ → Store → Store
  move_followers user by s = record s {
    btoc_profiles = prisma.btoc_profile.update_many (btoc_of user) (btoc_moved by) s.btoc_profiles;
    btob_profiles = prisma.btob_profile.update_many (btob_of user) (btob_moved by) s.btob_profiles;
  }

  -- The error P2002 becomes a conflict.
  insert_follow : ℕ → UserKey → UserKey → Action Store (Unit {0})
  insert_follow new_id follower following s =
      elim (prisma.follow.create (of_follow follower following) new_id
        (follow_row follower following) s.follows) [
          | none ↦ throw conflict s
          | some t ↦ pure tt (move_followers following (pos 1) (record s { follows = t }))
        ]

  -- The transaction: the relation is looked up again, and stored with the counters.
  store_follow : ℕ → UserKey → UserKey → Action Store (Unit {0})
  unfolding insert_follow
  store_follow new_id follower following = transaction (do
    existing ← gets λ s. prisma.follow.find_first (of_follow follower following) s.follows
    throw_if (is_some existing) conflict
    insert_follow new_id follower following)

  unfoldable pub notify_follow : UserKey → UserKey → Store → Store
  notify_follow follower following s = record s {
    calls =
        if is_some (prisma.user.find_unique follower s.users)
        then email following new_follower ∷ in_app following new_follower ∷ s.calls
        else in_app following new_follower ∷ s.calls;
  }

  unfoldable pub follow : ℕ → UserKey → UserKey → Action Store (Unit {0})
  unfolding store_follow
  follow new_id follower following = do
    throw_if (follower == following) bad_request
    found ← gets λ s. prisma.user.find_first (at following is_present) s.users
    target ← or_throw found not_found
    store_follow new_id follower following
    modify (notify_follow follower following)

  unfoldable pub unfollow : UserKey → UserKey → Store → Store
  unfollow follower following s =
      if prisma.follow.count (of_follow follower following) s.follows == 0
      then s
      else move_followers following (negsuc 0) (record s {
        follows = prisma.follow.delete_many (of_follow follower following) s.follows;
      })

  -- `opportunities.invalidateCaches()`
  abbrev pub invalidate : Store → Store
  invalidate s = record s { calls = invalidate_caches ∷ s.calls }

  insert_like : ℕ → UserKey → ℕ → Action Store (Unit {0})
  insert_like new_id user opportunity s =
      elim (prisma.like.create (of_mark user opportunity) new_id (mark_row user opportunity)
        s.likes) [
          | none ↦ throw conflict s
          | some t ↦ pure tt (record s {
            likes = t;
            opportunities =
                prisma.opportunity.update_many (at opportunity always) liked_more s.opportunities;
          })
        ]

  unfoldable pub like_opportunity : ℕ → UserKey → ℕ → Action Store (Unit {0})
  unfolding insert_like
  like_opportunity new_id user opportunity = do
    found ← gets λ s. prisma.opportunity.find_unique opportunity s.opportunities
    target ← or_throw found not_found
    insert_like new_id user opportunity
    modify invalidate

  unfoldable pub unlike_opportunity : UserKey → ℕ → Store → Store
  unlike_opportunity user opportunity s = invalidate (
      if prisma.like.count (of_mark user opportunity) s.likes == 0 then s else record s {
        likes = prisma.like.delete_many (of_mark user opportunity) s.likes;
        opportunities =
            prisma.opportunity.update_many (at opportunity has_likes) liked_less s.opportunities;
      })

  insert_save : ℕ → UserKey → ℕ → Action Store (Unit {0})
  insert_save new_id user opportunity s =
      elim (prisma.save.create (of_mark user opportunity) new_id (mark_row user opportunity)
        s.saves) [
          | none ↦ throw conflict s
          | some t ↦ pure tt (record s {
            saves = t;
            opportunities =
                prisma.opportunity.update_many (at opportunity always) saved_more s.opportunities;
          })
        ]

  unfoldable pub save_opportunity : ℕ → UserKey → ℕ → Action Store (Unit {0})
  unfolding insert_save
  save_opportunity new_id user opportunity = do
    found ← gets λ s. prisma.opportunity.find_unique opportunity s.opportunities
    target ← or_throw found not_found
    insert_save new_id user opportunity
    modify invalidate

  unfoldable pub unsave_opportunity : UserKey → ℕ → Store → Store
  unsave_opportunity user opportunity s = invalidate (
      if prisma.save.count (of_mark user opportunity) s.saves == 0 then s else record s {
        saves = prisma.save.delete_many (of_mark user opportunity) s.saves;
        opportunities =
            prisma.opportunity.update_many (at opportunity has_saves) saved_less s.opportunities;
      })

  insert_discussion_like : ℕ → UserKey → ℕ → Action Store (Unit {0})
  insert_discussion_like new_id user discussion s =
      elim (prisma.rating.create (of_rating (of_discussion discussion) user) new_id
        (like_row user discussion) s.ratings) [
          | none ↦ throw conflict s
          | some t ↦ pure tt (record s {
            ratings = t;
            public_discussions =
                prisma.public_discussion.update_many (at discussion always) discussion_more
                  s.public_discussions;
          })
        ]

  unfoldable pub like_discussion : ℕ → UserKey → ℕ → Action Store (Unit {0})
  unfolding insert_discussion_like
  like_discussion new_id user discussion = do
    found ← gets λ s. prisma.public_discussion.find_unique discussion s.public_discussions
    target ← or_throw found not_found
    insert_discussion_like new_id user discussion

  unfoldable pub unlike_discussion : UserKey → ℕ → Store → Store
  unlike_discussion user discussion s =
      if prisma.rating.count (of_rating (of_discussion discussion) user) s.ratings == 0
      then s
      else record s {
        ratings = prisma.rating.delete_many (of_rating (of_discussion discussion) user) s.ratings;
        public_discussions =
            prisma.public_discussion.update_many (at discussion discussion_has_likes)
              discussion_less s.public_discussions;
      }
