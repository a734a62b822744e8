-- ===== src/Ratings.antt =====
-- modules/ratings/ratings.service.ts: a user's rating of an item, and the average that is kept on a
-- rated user's profile. Prisma's `_avg` is a parameter: the sum that it divides by the count. An
-- average is that pair, so it is exact.
pub mod Average
mod Tests
use south_connect.Prelude.{
  ℕ, ◌+◌, ◌*◌, ◌/◌, Bool, true, false, not, ◌&&◌, ◌||◌, Option, none, some, ◌==◌, is_some,
  or_default, if◌then◌else◌,
}
use south_connect.Action.{
  Action, bad_request, not_found, ◌>>=◌, ◌>>◌, pure, throw, gets, modify, throw_if, or_throw,
}
use south_connect.Database.{Where, Table}
use south_connect.Database.Keyed.{at, always}
use south_connect.Schema.{
  UserKey, User, Rating, Item, of_key, of_discussion, same_item, BtoCProfile, Store, Prisma,
}
use south_connect.Social.{of_rating, btoc_of, is_present}

pub record RatingDto : Type 0 where
  pub item_id : Item
  pub rating : ℕ

pub record Stats : Type 0 where
  pub avg_rating : ℕ × ℕ
  pub rounded_rating : ℕ
  pub total_ratings : ℕ

-- `{ itemId }`
abbrev pub of_item : Item → Where Rating
of_item item k r = same_item r.item_id item

-- The fraction's nearest integer, halves up, as `Math.round` has it.
abbrev pub round_fraction : ℕ × ℕ → ℕ
round_fraction (sum, count) = (2 * sum + count) / (2 * count)

-- `avg ? Math.round(avg) : null`
abbrev pub rounded : Option (ℕ × ℕ) → Option ℕ
rounded none = none
rounded (some (sum, count)) = if sum == 0 then none else some (round_fraction (sum, count))

abbrev pub rated : ℕ → Rating → Rating
rated value r = record r { rating = value }

abbrev pub averaged : Option (ℕ × ℕ) → BtoCProfile → BtoCProfile
averaged avg p = record p { avg_rating = avg; rounded_rating = rounded avg }

module _ (prisma : Prisma) (sum_ratings : Where Rating → Table Rating → ℕ) where
  -- `_avg.rating`
  abbrev pub average : Item → Table Rating → Option (ℕ × ℕ)
  average item t =
      let n = prisma.rating.count (of_item item) t in
      if n == 0 then none else some (sum_ratings (of_item item) t, n)

  abbrev pub get_stats : Item → Store → Stats
  get_stats item s = record {
    avg_rating = or_default (average item s.ratings) (0, 1);
    rounded_rating = or_default (rounded (average item s.ratings)) 0;
    total_ratings = prisma.rating.count (of_item item) s.ratings;
  }

  -- The profile of the rated user, if the item is a user that has one.
  unfoldable pub recompute_profile_rating : Item → Store → Store
  recompute_profile_rating (of_discussion d) s = s
  recompute_profile_rating (of_key user) s = record s {
    btoc_profiles =
        prisma.btoc_profile.update_many (btoc_of user) (averaged (average (of_key user) s.ratings))
          s.btoc_profiles;
  }

  -- Whether the item is a present user or an opportunity.
  abbrev pub exists_item : Item → Store → Bool
  exists_item (of_discussion d) s = false
  exists_item (of_key k) s =
      is_some (prisma.user.find_first (at k is_present) s.users)
      || is_some (prisma.opportunity.find_unique k s.opportunities)

  -- The upsert on the unique key.
  unfoldable pub put_rating : ℕ → UserKey → RatingDto → Store → Store
  put_rating new_id user dto s =
      if is_some (prisma.rating.find_first (of_rating dto.item_id user) s.ratings)
      then record s {
        ratings =
            prisma.rating.update_many (of_rating dto.item_id user) (rated dto.rating) s.ratings;
      }
      else record s {
        ratings =
            or_default
              (prisma.rating.create (of_rating dto.item_id user) new_id
                (record { item_id = dto.item_id; user_id = user; rating = dto.rating }) s.ratings)
              s.ratings;
      }

  unfoldable pub upsert : ℕ → UserKey → RatingDto → Action Store Stats
  upsert new_id user dto = do
    throw_if (same_item dto.item_id (of_key user)) bad_request
    exists ← gets (exists_item dto.item_id)
    throw_if (not exists) not_found
    modify (put_rating new_id user dto)
    modify (recompute_profile_rating dto.item_id)
    gets (get_stats dto.item_id)

  abbrev pub get_my_rating : Item → UserKey → Store → Option ℕ
  get_my_rating item user s = elim (prisma.rating.find_first (of_rating item user) s.ratings) [
    | none ↦ none
    | some (k, r) ↦ some r.rating
  ]

  unfoldable pub remove : Item → UserKey → Action Store (Unit {0})
  remove item user = do
    existing ← gets λ s. prisma.rating.find_first (of_rating item user) s.ratings
    found ← or_throw existing not_found
    modify λ s. record s { ratings = prisma.rating.delete_many (of_rating item user) s.ratings }
    modify (recompute_profile_rating item)
