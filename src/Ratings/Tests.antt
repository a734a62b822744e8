-- ===== src/Ratings/Tests.antt =====
-- The theorems on ratings at concrete requests.
use south_connect.Prelude.{
  ℕ, zero, suc, ◌+◌, ◌≡◌, ◌⊎◌, Option, none, some, [], ◌∷◌, arith, if◌then◌else◌,
}
use south_connect.Prelude.Int.{pos}
use south_connect.Action.{ok, err, HttpError}
use south_connect.Database.{Where, Table}
use south_connect.Database.Rows.{rows}
use south_connect.Schema.{Rating, of_key, PublicDiscussion, open_forum, Store}
use south_connect.Samples.{stored_rows, empty_store, member_with}
use south_connect.Social.{like_row}
use south_connect.Social.Exact.{on_discussion}
use south_connect.Ratings.{upsert, remove, get_stats}
use south_connect.Ratings.Average.{rating_dto, AverageShown, OthersKept, rating-AverageShown}

-- The sum of the ratings that match.
abbrev pick_rating : Where Rating → ℕ → Option Rating → ℕ
pick_rating p k none = 0
pick_rating p k (some r) = if p k r then r.rating else 0

abbrev sum_from : ℕ → Where Rating → Table Rating → ℕ
sum_from k p [] = 0
sum_from k p (x ∷ t) = pick_rating p k x + sum_from (suc k) p t

abbrev sum_ratings : Where Rating → Table Rating → ℕ
sum_ratings = sum_from 0

abbrev pair_of_users : Store
pair_of_users = record empty_store {
  users = some (member_with 0 none) ∷ some (member_with 1 none) ∷ [];
  btoc_profiles =
      some (record {
        user_id = 1;
        followers_count = pos 0;
        opportunities_count = pos 0;
        active_opportunities_count = pos 0;
        avg_rating = none;
        rounded_rating = none;
      })
      ∷ [];
}

rating-AverageShown_example :
    let put = upsert stored_rows sum_ratings 0 0 (rating_dto 1 4) pair_of_users in
    let removed = remove stored_rows sum_ratings (of_key 1) 0 pair_of_users in
    (((e : HttpError) × (put ≡ (err e, pair_of_users)))
      ⊎ (put.0 ≡ ok (get_stats stored_rows sum_ratings (of_key 1) put.1))
        × (AverageShown stored_rows sum_ratings 1 put.1
            × OthersKept stored_rows sum_ratings 1 pair_of_users put.1))
    × (((e : HttpError) × (removed ≡ (err e, pair_of_users)))
        ⊎ (removed.0 ≡ ok tt)
          × (AverageShown stored_rows sum_ratings 1 removed.1
              × OthersKept stored_rows sum_ratings 1 pair_of_users removed.1))
rating-AverageShown_example = rating-AverageShown stored_rows sum_ratings 0 0 1 4 pair_of_users

abbrev liked_once : PublicDiscussion
liked_once = record {
  title = 1;
  kind = open_forum;
  owner_id = 0;
  opportunity_id = none;
  messages_count = pos 0;
  likes_count = pos 1;
  members_count = pos 0;
  last_message_at = none;
}

-- User 3 likes discussion 0.
abbrev liked_store : Store
liked_store = record empty_store {
  ratings = some (like_row 3 0) ∷ [];
  public_discussions = some liked_once ∷ [];
}

exact_rows :
    (item : ℕ) (o : PublicDiscussion)
    → stored_rows.public_discussion.find_unique item liked_store.public_discussions ≡ some o
    → o.likes_count ≡ pos (stored_rows.rating.count (on_discussion item) liked_store.ratings)
unfolding rows
exact_rows zero o found = ground (arith, found)
exact_rows (suc item) o found = ground (arith, found)
