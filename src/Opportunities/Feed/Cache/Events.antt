-- ===== src/Opportunities/Feed/Cache/Events.antt =====
-- The requests, arrivals and deletions that the cached feed sees, in any order.
use south_connect.Prelude.{
  ℕ, true, Bool, not, ◌&&◌, ◌||◌, leb, Option, none, List, [], ◌∷◌, if◌then◌else◌,
}
use south_connect.Schema.{UserKey, Store, Prisma}
use south_connect.Opportunities.Views.{Link}
use south_connect.Opportunities.Feed.{ListDto, Texts, FindMany}
use south_connect.Opportunities.Feed.Cache.{Cached, is_cacheable, arrive, find_all}

-- What happens to the cache: a request, the arrival of a SETEX call, and the deletion of copies,
-- which `invalidateCaches` asks for and which may miss some.
pub data Event : Type 0 where
  asks : Link → (now : ℕ) → ListDto → Option UserKey → Event
  arrives : (n at : ℕ) → Event
  drops : (now : ℕ) → (List ℕ → Bool) → Event

abbrev pub time_of : Event → ℕ
time_of (asks link now dto requester) = now
time_of (arrives n at) = at
time_of (drops now gone) = now

-- The events follow each other in time.
abbrev pub in_order : (from : ℕ) → List Event → (until : ℕ) → Bool
in_order from [] until = leb from until
in_order from (x ∷ rest) until = leb from (time_of x) && in_order (time_of x) rest until

-- `history` is the database at each time, whoever has written to it.
module _ (prisma : Prisma) (texts : Texts) (find_many : FindMany) (history : ℕ → Store) where
  abbrev pub step : Event → Cached → Cached
  step (asks link now dto requester) c =
      (find_all prisma texts find_many link now dto requester (record c { store = history now })).1
  step (arrives n at) c = arrive prisma texts find_many n at c
  step (drops now gone) c = record c { copies = λ k. if gone k then none else c.copies k }

  unfoldable pub run : List Event → Cached → Cached
  run [] c = c
  run (x ∷ rest) c = run rest (step x c)

  -- Nothing cached, and nothing on its way.
  abbrev pub empty : Cached
  empty = record { store = history 0; copies = λ k. none; writes = [] }

  -- The cache after the events, beside the database at `now`.
  abbrev pub state_at : List Event → (now : ℕ) → Cached
  state_at events now = record (run events empty) { store = history now }

  module _ (good : ListDto → Bool) where
    -- The requests that can be cached are good ones.
    abbrev pub is_good : Event → Bool
    is_good (asks link now dto requester) =
        not (is_cacheable prisma texts find_many link dto) || good dto
    is_good (arrives n at) = true
    is_good (drops now gone) = true

    abbrev pub all_good : List Event → Bool
    all_good [] = true
    all_good (x ∷ rest) = is_good x && all_good rest
