-- ===== src/Opportunities/Show.antt =====
-- `findOne` and `attachSocialState`: an opportunity as a reader is shown it.
use south_connect.Prelude.{
  ℕ, Bool, false, not, ◌&&◌, Option, none, some, List, map, is_some, is_key,
}
use south_connect.Action.{Action, not_found, ◌>>=◌, ◌>>◌, pure, gets, modify, throw_if, or_throw}
use south_connect.Database.Keyed.{at}
use south_connect.Redis.{Redis}
use south_connect.Schema.{UserKey, Opportunity, Store, Prisma}
use south_connect.Social.{of_mark}
use south_connect.Opportunities.{is_listed, is_draft}
use south_connect.Opportunities.Views.{Cached, Link, increment_views_if_new}

-- An opportunity with the requester's own like and bookmark.
pub record Card : Type 0 where
  pub id : ℕ
  pub opportunity : Opportunity
  pub is_liked : Bool
  pub is_saved : Bool

module _ (prisma : Prisma) where
  abbrev pub has_liked : UserKey → ℕ → Store → Bool
  has_liked user id s = is_some (prisma.like.find_first (of_mark user id) s.likes)

  abbrev pub has_saved : UserKey → ℕ → Store → Bool
  has_saved user id s = is_some (prisma.save.find_first (of_mark user id) s.saves)

  -- One bulk query for each kind of mark: an item is marked where its key is among those found.
  unfoldable pub attach_social_state : List (ℕ × Opportunity) → UserKey → Store → List Card
  attach_social_state items user s =
      map
        (λ i. record {
          id = i.0;
          opportunity = i.1;
          is_liked = has_liked user i.0 s;
          is_saved = has_saved user i.0 s;
        })
        items

  -- The flags of a requester, who may be nobody.
  abbrev pub card_of : ℕ → Opportunity → Option UserKey → Store → Card
  card_of id o none s = record { id = id; opportunity = o; is_liked = false; is_saved = false }
  card_of id o (some user) s = record {
    id = id;
    opportunity = o;
    is_liked = has_liked user id s;
    is_saved = has_saved user id s;
  }

  module _ (redis : Redis) where
    abbrev pub track_view : Link → ℕ → ℕ → Option ℕ → Cached → Cached
    track_view link now id none c = c
    track_view link now id (some viewer) c =
        increment_views_if_new prisma redis link now id viewer c

    -- A draft is not found by anyone but its owner.
    unfoldable pub find_one : Link → ℕ → ℕ → Option UserKey → Option ℕ → Action Cached Card
    find_one link now id requester viewer = do
      found ← gets λ c. prisma.opportunity.find_first (at id is_listed) c.store.opportunities
      o ← or_throw found not_found
      throw_if (is_draft o.1.status && not (is_key requester o.1.owner_id)) not_found
      card ← gets λ c. card_of id o.1 requester c.store
      modify (track_view link now id viewer)
      pure card
