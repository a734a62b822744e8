-- ===== src/Notifications/Tests.antt =====
-- The theorems on notifications at concrete requests.
use south_connect.Prelude.{ℕ, ◌≡◌, ◌↔◌, refl, true, false, none, some, List, [], ◌∷◌, any, arith}
use south_connect.Database.Rows.{rows}
use south_connect.Redis.{Entries, memory}
use south_connect.Samples.{member_with}
use south_connect.Opportunities.Views.{working}
use south_connect.Email.{Mailer}
use south_connect.Notifications.{Bell, Services, new_follower}
use south_connect.Notifications.InApp.{dedup_key, create_in_app, create_in_app-again}
use south_connect.Notifications.Escape.{esc, escape_attr, breaks_out, esc_lem}

abbrev mailer : Mailer
mailer = record {
  user = rows;
  has_email_client = true;
  testing = false;
  has_queue = false;
  queue_ok = false;
  is_test_address = λ t. false;
}

abbrev services : Services
services = record { notification = rows; preference = rows; redis = memory; mailer = mailer }

abbrev nothing_remembered : Entries
nothing_remembered k = none

abbrev bell : Bell
bell = record {
  notifications = [];
  preferences = [];
  entries = nothing_remembered;
  pushes = [];
  outbox = record { users = some (member_with 1 none) ∷ []; queue = []; sent = []; given_up = [] };
}

key_free : services.redis.get 10 (dedup_key 0 new_follower none) bell.entries ≡ none
unfolding memory
key_free = refl

create_in_app-again_example :
    let c = create_in_app services working 10 0 0 new_follower 5 none none bell in
    create_in_app services working 20 1 0 new_follower 6 none none c ≡ c
create_in_app-again_example =
    create_in_app-again services 10 20 0 1 0 new_follower 5 6 none none none bell key_free
      (omega arith)

-- <b>
abbrev tag : List ℕ
tag = 60 ∷ 98 ∷ 62 ∷ []

esc_lem_example :
    (esc tag ≡ escape_attr tag)
    × (any breaks_out (esc tag) ≡ false)
    × ((esc tag ≡ esc []) ↔ (tag ≡ []))
esc_lem_example = esc_lem tag []
