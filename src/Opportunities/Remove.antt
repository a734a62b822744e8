-- ===== src/Opportunities/Remove.antt =====
-- `remove`: the owner of an opportunity deletes it, which keeps the row.
use south_connect.Prelude.{
  ℕ, ◌≡◌, ◌⊎◌, inl, inr, Bool, true, false, some, arith, ◌==◌, if◌then◌else◌, Bool-cases,
  Option-cases,
}
use south_connect.Prelude.Int.{negsuc}
use south_connect.Action.{
  Action, HttpError, err, forbidden, not_found, ◌>>=◌, ◌>>◌, pure, gets, modify, or_throw,
}
use south_connect.Database.Keyed.{at, find_first-at}
use south_connect.Schema.{UserKey, Opportunity, BtoCProfile, Store, Prisma}
use south_connect.Social.{btoc_of, btob_of}
use south_connect.Guards.{assert_same_user}
use south_connect.Opportunities.{
  is_listed, is_active, more_opportunities, more_active, more_offers, invalidate,
}

abbrev pub mark_deleted : ℕ → Opportunity → Opportunity
mark_deleted now o = record o { deleted_at = some now }

-- Which of the updates of the counters succeed.
pub record CounterUpdates : Type 0 where
  pub of_person : Bool
  pub of_company : Bool

-- The decrements of a person's profile, by whether the opportunity was active.
abbrev pub fewer : Bool → BtoCProfile → BtoCProfile
fewer true p = more_active (negsuc 0) (more_opportunities (negsuc 0) p)
fewer false p = more_opportunities (negsuc 0) p

module _ (prisma : Prisma) where
  -- What `remove` reads before it writes: the opportunity, if the requester owns it.
  abbrev pub removable : ℕ → UserKey → Action Store Opportunity
  removable id owner = do
    found ← gets λ s. prisma.opportunity.find_first (at id is_listed) s.opportunities
    o ← or_throw found not_found
    assert_same_user o.1.owner_id owner
    pure o.1

  -- What `remove` writes, whatever another request has written since. Nobody waits for the updates
  -- of the two counters, and a failure of either is only logged.
  abbrev pub without_opportunity : CounterUpdates → ℕ → ℕ → UserKey → Bool → Store → Store
  without_opportunity done now id owner was_active s = record s {
    opportunities =
        prisma.opportunity.update_many (at id is_listed) (mark_deleted now) s.opportunities;
    btoc_profiles =
        if done.of_person
        then prisma.btoc_profile.update_many (btoc_of owner) (fewer was_active) s.btoc_profiles
        else s.btoc_profiles;
    btob_profiles =
        if done.of_company
        then prisma.btob_profile.update_many (btob_of owner) (more_offers (negsuc 0))
            s.btob_profiles
        else s.btob_profiles;
  }

  unfoldable pub remove : CounterUpdates → (now : ℕ) → ℕ → UserKey → Action Store ℕ
  remove done now id owner = do
    o ← removable id owner
    modify (without_opportunity done now id owner (is_active o.status))
    modify invalidate
    pure id

  pub record Removes (done : CounterUpdates) (now id : ℕ) (owner : UserKey) (s t : Store)
      : Type 0 where
    pub row : Opportunity
    pub present : prisma.opportunity.find_unique id s.opportunities ≡ some row
    pub listed : is_listed row ≡ true
    pub owned : row.owner_id ≡ owner
    pub served : t ≡ invalidate (without_opportunity done now id owner (is_active row.status) s)

  pub remove_cases :
      (done : CounterUpdates) (now id : ℕ) (owner : UserKey) (s : Store)
      → ((e : HttpError) × (remove done now id owner s ≡ (err e, s)))
        ⊎ Removes done now id owner s (remove done now id owner s).1
  unfolding remove
  remove_cases done now id owner s =
      let found = find_first-at prisma.opportunity id is_listed s.opportunities in
      elim (Option-cases (prisma.opportunity.find_unique id s.opportunities)) [
        | inl absent ↦ inl (not_found, ground (arith, found, absent))
        | inr (o, present) ↦ elim (Bool-cases (is_listed o)) [
          | inr deleted ↦ inl (not_found, ground (arith, found, present, deleted))
          | inl listed ↦ elim (Bool-cases (o.owner_id == owner)) [
            | inr other ↦ inl (forbidden, ground (arith, found, present, listed, other))
            | inl mine ↦ inr (record {
              row = o;
              present = present;
              listed = listed;
              owned = ground (arith, mine);
              served = ground (arith, found, present, listed, mine);
            })
          ]
        ]
      ]
