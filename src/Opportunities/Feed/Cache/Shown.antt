-- ===== src/Opportunities/Feed/Cache/Shown.antt =====
-- Which rows the public feed shows, from the database or from a copy.
use south_connect.Prelude.{ℕ, ◌+◌, ◌<◌, ◌≤◌, true, Bool}
use south_connect.Schema.{Opportunity, Store, Prisma}
use south_connect.Opportunities.Feed.{ListDto}
use south_connect.Opportunities.Feed.Hidden.{ShownInFeed}
use south_connect.Opportunities.Feed.Cache.{lifetime}

-- The row was stored, not deleted and no draft when the database was read for the answer.
pub record ShownLately (prisma : Prisma) (history : ℕ → Store) (now k : ℕ) (o : Opportunity)
    : Type 0 where
  pub read_at : ℕ
  pub stored_at : ℕ
  pub read_first : read_at ≤ stored_at
  pub in_time : stored_at ≤ now
  pub is_fresh : now < stored_at + lifetime
  pub shown : ShownInFeed prisma (history read_at) k o

abbrev any_request : ListDto → Bool
any_request dto = true
