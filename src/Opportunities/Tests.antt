-- ===== src/Opportunities/Tests.antt =====
-- The theorems on opportunities at concrete requests.
use south_connect.Prelude.{
  ℕ, zero, suc, ◌≡◌, refl, inl, inr, true, false, not, ◌&&◌, none, some, List, [], ◌∷◌, arith,
  is_key, Option-cases,
}
use south_connect.Prelude.Int.{pos}
use south_connect.Database.Rows.{rows}
use south_connect.Redis.{Entries, memory}
use south_connect.Schema.{UserKey, OpportunityStatus, Opportunity, BtoCProfile, Store}
use south_connect.Samples.{stored_rows, empty_store, member_with, offer_of}
use south_connect.Pages.{get_elem?}
use south_connect.Opportunities.{is_listed, is_draft}
use south_connect.Opportunities.Create.{CreateDto, DetailsDto}
use south_connect.Opportunities.Edit
use south_connect.Opportunities.Edit.{UpdateDto, update}
use south_connect.Opportunities.Moderate.{admin_update_status}
use south_connect.Opportunities.InStep.{
  Request, creates, updates, moderates, removes, listed, ListedExact, perform, perform_all,
  perform_all-ListedExact,
}
use south_connect.Opportunities.Privileges.{Origin, perform_all-Origin}
use south_connect.Opportunities.Active.{ActiveExact, moderate-ActiveExact}
use south_connect.Opportunities.Race.{
  both_done, Undercounted, double_remove, double_remove-undercount,
}
use south_connect.Opportunities.Views.{
  Cached, working, share_key, share_all, SharedMore, share_all-SharedMore,
}
use south_connect.Opportunities.Feed.{ListDto, Texts, FindMany, find_by_owner, owner_where}
use south_connect.Opportunities.Feed.Hidden.{FindsMatching, find_by_owner-Shown}
use south_connect.Opportunities.Feed.Cache
use south_connect.Opportunities.Feed.Cache.{find_all, with_flags, arrive}
use south_connect.Opportunities.Feed.Cache.Events.{Event, asks, arrives}
use south_connect.Opportunities.Feed.Cache.Fresh.{find_all-ignores_skip}

-- The profile of user 2, who has one opportunity, which is active.
abbrev talent : BtoCProfile
talent = record {
  user_id = 2;
  followers_count = pos 0;
  opportunities_count = pos 1;
  active_opportunities_count = pos 1;
  avg_rating = none;
  rounded_rating = none;
}

abbrev world : Store
world = record empty_store {
  users = none ∷ some (member_with 1 none) ∷ some (member_with 2 none) ∷ [];
  btoc_profiles = some talent ∷ [];
  opportunities = some (offer_of 2) ∷ [];
}

abbrev nothing_else : DetailsDto
nothing_else = record {
  feature_id = none;
  city = none;
  region = none;
  application_process_id = none;
  need_to_check_applicant = none;
  image = none;
  background_image = none;
  file = none;
  url = none;
  industries = none;
  markets = none;
  price = none;
  currency = none;
  pricing_unit = none;
  pricing_details = none;
  ai_generated = none;
  ai_prompt = none;
  ai_output = none;
  referral_available = none;
  referral_amount = none;
}

abbrev nothing_new : Edit.DetailsDto
nothing_new = record {
  feature_id = none;
  city = none;
  region = none;
  application_process_id = none;
  need_to_check_applicant = none;
  image = none;
  background_image = none;
  file = none;
  url = none;
  industries = none;
  markets = none;
  price = none;
  currency = none;
  pricing_unit = none;
  pricing_details = none;
  ai_generated = none;
  ai_prompt = none;
  ai_output = none;
  referral_available = none;
  referral_amount = none;
}

abbrev new_offer : CreateDto
new_offer = record {
  name = 5;
  punchline = none;
  description = none;
  kind = 0;
  status = none;
  country = none;
  remote = none;
  tags = none;
  start_date = some 1;
  end_date = some 2;
  expiration_date = none;
  boosted = some true;
  boosted_until = none;
  qualified = some true;
  details = nothing_else;
}

-- A new name, and a boost that is not the owner's to give.
abbrev renaming : UpdateDto
renaming = record {
  name = some 7;
  punchline = none;
  description = none;
  kind = none;
  status = none;
  country = none;
  remote = none;
  tags = none;
  start_date = none;
  end_date = none;
  expiration_date = none;
  boosted = some true;
  boosted_until = none;
  qualified = none;
  details = nothing_new;
}

abbrev requests : List Request
requests =
    creates 9 1 2 new_offer none
    ∷ moderates true 0 OpportunityStatus.archived
    ∷ removes both_done 9 0 2
    ∷ removes both_done 9 0 2
    ∷ []

world-ListedExact : ListedExact stored_rows world
unfolding rows
world-ListedExact = record { of_person = person; of_company = λ k p found. ground (arith, found) }
  where
    person :
        (k : ℕ) (p : BtoCProfile)
        → stored_rows.btoc_profile.find_unique k world.btoc_profiles ≡ some p
        → p.opportunities_count
          ≡ pos (stored_rows.opportunity.count (listed p.user_id) world.opportunities)
    person zero p found = ground (arith, found)
    person (suc k) p found = ground (arith, found)

perform_all-ListedExact_example : ListedExact stored_rows (perform_all stored_rows requests world)
perform_all-ListedExact_example =
    perform_all-ListedExact stored_rows requests world refl world-ListedExact

abbrev renamed : Opportunity
renamed = record (offer_of 2) { name = 7 }

was_renamed :
    stored_rows.opportunity.find_unique 0
      (perform_all stored_rows (updates 0 2 renaming none ∷ []) world).opportunities
    ≡ some renamed
unfolding rows perform_all perform update
was_renamed = refl

perform_all-Origin_example : Origin stored_rows world 0 renamed
perform_all-Origin_example =
    perform_all-Origin stored_rows (updates 0 2 renaming none ∷ []) world 0 renamed refl was_renamed

world-ActiveExact : ActiveExact stored_rows world
unfolding rows
world-ActiveExact zero p found = ground (arith, found)
world-ActiveExact (suc k) p found = ground (arith, found)

moderate-ActiveExact_example :
    ActiveExact stored_rows
      (admin_update_status stored_rows true 0 OpportunityStatus.closed world).1
moderate-ActiveExact_example =
    moderate-ActiveExact stored_rows 0 OpportunityStatus.closed world world-ActiveExact

owned : stored_rows.opportunity.find_unique 0 world.opportunities ≡ some (offer_of 2)
unfolding rows
owned = refl

has_profile : stored_rows.btoc_profile.find_unique 0 world.btoc_profiles ≡ some talent
unfolding rows
has_profile = refl

double_remove-undercount_example :
    Undercounted stored_rows 0 2 (double_remove stored_rows 9 0 2 world).1
double_remove-undercount_example =
    double_remove-undercount stored_rows 9 0 2 world (offer_of 2) 0 talent owned refl refl
      has_profile refl world-ListedExact

-- Shares by users 1, 2 and again 1 on the first day.
abbrev nothing_cached : Entries
nothing_cached k = none

abbrev unshared : Cached
unshared = record { store = world; entries = nothing_cached }

abbrev three_shares : List (ℕ × UserKey)
three_shares = (10, 1) ∷ (20, 2) ∷ (30, 1) ∷ []

none_remembered :
    (now : ℕ) (user : UserKey) → memory.get now (share_key 0 user 0) nothing_cached ≡ none
unfolding memory
none_remembered now user = refl

share_all-SharedMore_example :
    SharedMore stored_rows memory 0
      (offer_of 2)
      2
      (share_all stored_rows memory 0 three_shares unshared)
share_all-SharedMore_example =
    share_all-SharedMore stored_rows memory three_shares 0 0 unshared (offer_of 2) refl
      none_remembered owned

-- Texts as numbers, of which none contains another; and a `findMany` that stops at the first row.
abbrev plain_texts : Texts
plain_texts = record {
  contains = λ t u. false;
  same_letters = λ t u. false;
  type_list = λ t. [];
  date_of = λ t. t;
}

abbrev first_found : FindMany
first_found order cursor p t = elim (stored_rows.opportunity.find_first p t) [
  | none ↦ []
  | some hit ↦ hit ∷ []
]

first_found-FindsMatching : FindsMatching stored_rows first_found
unfolding get_elem?
first_found-FindsMatching order cursor p t zero k o h =
    elim (Option-cases (stored_rows.opportunity.find_first p t)) [
      | inl absent ↦ ground (arith, h, absent)
      | inr ((j, b), hit) ↦
          stored_rows.opportunity.find_first-sound p t k o (ground (arith, h, hit))
    ]
first_found-FindsMatching order cursor p t (suc n) k o h =
    elim (Option-cases (stored_rows.opportunity.find_first p t)) [
      | inl absent ↦ ground (arith, h, absent)
      | inr ((j, b), hit) ↦ ground (arith, h, hit)
    ]

abbrev any_page : ListDto
any_page = record {
  take = none;
  skip = none;
  status = none;
  kind = none;
  kinds = none;
  owner_id = none;
  search = none;
  sort = none;
  cursor = none;
  country = none;
  remote = none;
  created_after = none;
}

-- The database does not change. A first request at 10, whose SETEX call arrives at 20.
abbrev unchanged : ℕ → Store
unchanged now = world

abbrev one_request : List Event
one_request = asks working 10 any_page none ∷ arrives 0 20 ∷ []

-- An owner who looks at a draft.
abbrev unfinished : Opportunity
unfinished = record (offer_of 2) { status = OpportunityStatus.draft }

abbrev with_draft : Store
with_draft = record world { opportunities = some unfinished ∷ [] }

in_own_list :
    get_elem?
      (find_by_owner stored_rows plain_texts first_found 2 any_page (some 2) with_draft).data_rows
      0
    ≡ some (0, unfinished)
unfolding rows get_elem? find_by_owner owner_where
in_own_list = refl

find_by_owner-Shown_example :
    (stored_rows.opportunity.find_unique 0 with_draft.opportunities ≡ some unfinished)
    × (unfinished.owner_id ≡ 2)
    × (is_listed unfinished ≡ true)
    × ((is_draft unfinished.status && not (is_key (some 2) 2)) ≡ false)
find_by_owner-Shown_example =
    find_by_owner-Shown stored_rows plain_texts first_found first_found-FindsMatching 2 any_page
      (some 2) with_draft 0 0 unfinished in_own_list

abbrev empty_cache : Cache.Cached
empty_cache = record { store = world; copies = λ k. none; writes = [] }

find_all-ignores_skip_example :
    let first = find_all stored_rows plain_texts first_found working 10 any_page none empty_cache in
    (find_all stored_rows plain_texts first_found working 30
      (record any_page { skip = some (pos 20) })
      none
      (arrive stored_rows plain_texts first_found 0 20 first.1)).0
    ≡ first.0
find_all-ignores_skip_example =
    find_all-ignores_skip stored_rows plain_texts first_found 10 20 30 any_page (some (pos 20)) none
      empty_cache refl refl (omega arith)
