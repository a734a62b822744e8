-- ===== src/Cron/Tests.antt =====
-- The theorems on the jobs at concrete data.
use south_connect.Prelude.{
  ℕ, zero, suc, ◌+◌, ◌*◌, ◌≤◌, ◌≡◌, refl, true, not, none, some, List, [], ◌∷◌, arith, ltb, ◌==◌,
  if◌then◌else◌,
}
use south_connect.Prelude.Int.{pos}
use south_connect.Database.{Table}
use south_connect.Database.Rows.{rows}
use south_connect.Redis.{Entries, memory}
use south_connect.Schema.{UserKey, User, BtoCProfile, Opportunity, Application, Mark, Store}
use south_connect.Samples.{stored_rows, empty_store, member_with, offer_of}
use south_connect.Social.{of_follow}
use south_connect.Social.Follows.{FollowersExact}
use south_connect.Social.Exact.{on_opportunity}
use south_connect.Opportunities.Views.{working}
use south_connect.Cron.Lock.{
  Step, asks, releases, acts, acquire_lock, release_lock, acquire_lock-exclusive,
}
use south_connect.Cron.Recount.{
  Lists, is_submitted, submitted_to, recount_follower_counts, recount_opportunity_counters,
}
use south_connect.Cron.Recount.Sweep.{among}
use south_connect.Cron.Recount.Complete.{Complete, Owned}
use south_connect.Cron.Recount.Repair.{recount_follower_counts-FollowersExact}
use south_connect.Cron.Recount.Tallied.{tallied, recount_opportunity_counters-tallied}

-- The lists over stored rows: every key, and the opportunity of each row.
abbrev keys_from : {Row : Type 0} → ℕ → Table Row → List ℕ
keys_from n [] = []
keys_from n (none ∷ t) = keys_from (suc n) t
keys_from n (some r ∷ t) = n ∷ keys_from (suc n) t

abbrev marked_by : Table Mark → List ℕ
marked_by [] = []
marked_by (none ∷ t) = marked_by t
marked_by (some m ∷ t) = m.opportunity_id ∷ marked_by t

abbrev applied_by : Table Application → List ℕ
applied_by [] = []
applied_by (none ∷ t) = applied_by t
applied_by (some a ∷ t) =
    let rest = applied_by t in if is_submitted 0 a then a.opportunity_id ∷ rest else rest

abbrev lists : Lists
lists = record {
  user_keys = λ p t. keys_from 0 t;
  discussion_keys = keys_from 0;
  participant_rows = λ t. [];
  marked = marked_by;
  applied = λ p t. applied_by t;
  senders = λ p t. [];
}

keys_complete :
    {Row : Type 0} (n k : ℕ) (t : Table Row) (r : Row)
    → rows.find_unique k t ≡ some r
    → among (n + k) (keys_from n t) ≡ true
unfolding rows
keys_complete n k [] r h = ground (arith, h)
keys_complete n zero (none ∷ t) r h = ground (arith, h)
keys_complete n zero (some q ∷ t) r h = ground (arith, h)
keys_complete n (suc k) (none ∷ t) r h = ground (arith, keys_complete (suc n) k t r h)
keys_complete n (suc k) (some q ∷ t) r h = ground (arith, keys_complete (suc n) k t r h)

marked_complete :
    (t : Table Mark) (k : ℕ) → among k (marked_by t) ≡ not (rows.count (on_opportunity k) t == 0)
unfolding rows
marked_complete [] k = refl
marked_complete (none ∷ t) k = ground (arith, marked_complete t k)
marked_complete (some m ∷ t) k = ground (arith, marked_complete t k)

applied_complete :
    (t : Table Application) (k : ℕ)
    → among k (applied_by t) ≡ not (rows.count (submitted_to k) t == 0)
unfolding rows
applied_complete [] k = refl
applied_complete (none ∷ t) k = ground (arith, applied_complete t k)
applied_complete (some a ∷ t) k = ground (arith, applied_complete t k)

lists-Complete : Complete stored_rows lists
lists-Complete = record {
  users = λ p t k u found hit. ground (arith, keys_complete 0 k t u found);
  discussions = λ t k d found. ground (arith, keys_complete 0 k t d found);
  likes = marked_complete;
  saves = marked_complete;
  applications = applied_complete;
}

-- User 2 has a profile with wrong counters, one follower and a deleted opportunity.
abbrev drifted : BtoCProfile
drifted = record {
  user_id = 2;
  followers_count = pos 40;
  opportunities_count = pos 40;
  active_opportunities_count = pos 0;
  avg_rating = none;
  rounded_rating = none;
}

abbrev gone : Opportunity
gone = record (offer_of 2) { deleted_at = some 5 }

abbrev world : Store
world = record empty_store {
  users = none ∷ some (member_with 1 none) ∷ some (member_with 2 none) ∷ [];
  btoc_profiles = some drifted ∷ [];
  opportunities = some gone ∷ [];
  follows = some (record { follower_id = 1; following_id = 2 }) ∷ [];
  likes = some (record { user_id = 1; opportunity_id = 0 }) ∷ [];
}

world-Owned : Owned stored_rows lists world
unfolding rows
world-Owned = record { person = person; company = λ k p found. ground (arith, found) }
  where
    person :
        (k : ℕ) (p : BtoCProfile)
        → stored_rows.btoc_profile.find_unique k world.btoc_profiles ≡ some p
        → (u : User) × (stored_rows.user.find_unique p.user_id world.users ≡ some u)
    person zero p found = (member_with 2 none, ground (arith, found))
    person (suc k) p found = ground (arith, found)

one_follow : (a b : UserKey) → stored_rows.follow.count (of_follow a b) world.follows ≤ 1
unfolding rows
one_follow a b = ground arith

recount_follower_counts-FollowersExact_example :
    (t : Store) × (recount_follower_counts stored_rows lists world ≡ some t)
    × FollowersExact stored_rows t
recount_follower_counts-FollowersExact_example =
    recount_follower_counts-FollowersExact stored_rows lists world lists-Complete world-Owned
      one_follow

is_there : stored_rows.opportunity.find_unique 0 world.opportunities ≡ some gone
unfolding rows
is_there = refl

recount_opportunity_counters-tallied_example :
    (t : Store) × (recount_opportunity_counters stored_rows lists world ≡ some t)
    × (stored_rows.opportunity.find_unique 0 t.opportunities
        ≡ some (tallied stored_rows lists world 0 gone))
recount_opportunity_counters-tallied_example =
    recount_opportunity_counters-tallied stored_rows lists world 0 gone lists-Complete is_there

abbrev no_entries : Entries
no_entries k = none

wins : (acquire_lock memory working 10 3 300 no_entries).0 ≡ true
unfolding memory acquire_lock
wins = refl

-- Another instance asks for the lock, and one that has the lock of job 4 releases it.
abbrev steps : List Step
steps = asks 15 3 300 ∷ releases 4 ∷ []

acquire_lock-exclusive_example :
    let held = acts memory steps (acquire_lock memory working 10 3 300 no_entries).1 in
    ((acquire_lock memory working 20 3 300 held).0 ≡ not (ltb 20 (10 + 300 * 1000)))
    × ((acquire_lock memory working 20 3 300 (release_lock memory working 3 held)).0 ≡ true)
acquire_lock-exclusive_example =
    acquire_lock-exclusive memory 10 20 3 300 300 steps no_entries wins refl
