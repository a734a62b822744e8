-- ===== src/Profiles/Tests.antt =====
-- The theorem on profiles at a concrete visit.
use south_connect.Prelude.{◌≡◌, refl, false, Option, none, some, [], ◌∷◌}
use south_connect.Action.{Result}
use south_connect.Database.Rows.{rows}
use south_connect.Schema.{User, Store}
use south_connect.Samples.{stored_rows, empty_store, member_with}
use south_connect.Profiles.{Shown, find_by_user_id}
use south_connect.Profiles.Visible.{Answers, find_by_user_id-Answers}

abbrev recluse : User
recluse = record (member_with 1 none) { visibility = false }

abbrev world : Store
world = record empty_store { users = some recluse ∷ [] }

is_there : stored_rows.user.find_unique 0 world.users ≡ some recluse
unfolding rows
is_there = refl

find_by_user_id-Answers_example :
    (r : Result (Option Shown)) × (find_by_user_id stored_rows 0 none none world ≡ (r, world))
    × Answers stored_rows 0 recluse world none none r
find_by_user_id-Answers_example =
    find_by_user_id-Answers stored_rows 0 none none world recluse is_there
