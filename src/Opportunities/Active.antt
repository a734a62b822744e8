-- ===== src/Opportunities/Active.antt =====
-- `activeOpportunitiesCount`: moderation and deletion keep it, creation and editing do not.
use south_connect.Prelude.{
  ℕ, ◌+◌, ◌≡◌, ◌≢◌, refl, sym, ap, ◌∙◌, subst, inl, inr, Bool, true, false, ◌&&◌, Option, some,
  arith, bit, ◌==◌, Bool-cases,
}
use south_connect.Prelude.Int.{ℤ, pos, negsuc, ◌+ℤ◌, pos_one_more, pos_less_one}
use south_connect.Action.{ok}
use south_connect.Database.{Where, Table}
use south_connect.Database.Keyed.{at, always}
use south_connect.Schema.{
  UserKey, UserRole, OpportunityStatus, Opportunity, BtoCProfile, Store, Prisma,
}
use south_connect.Social.{btoc_of}
use south_connect.Opportunities.{
  is_listed, is_active, is_admin, more_active, more_opportunities, invalidate,
}
use south_connect.Opportunities.Create.{
  CreateDto, initial_status, new_opportunity, no_clash, create, create_cases,
}
use south_connect.Opportunities.Moderate.{
  with_status, count_active, notify_status, put_status, admin_update_status, moderate_cases,
}
use south_connect.Opportunities.Remove.{CounterUpdates, mark_deleted, fewer, remove, remove_cases}
use south_connect.Opportunities.Counters.{
  Exact, kept-Exact, moved-Exact, untouched-Exact, count-moved,
}
use south_connect.Opportunities.InStep.{btoc_user}

-- The active opportunities of a user that are not deleted.
abbrev pub active_of : UserKey → Where Opportunity
active_of user k o = o.owner_id == user && (is_listed o && is_active o.status)

abbrev pub active_counter : BtoCProfile → ℤ
active_counter p = p.active_opportunities_count

module _ (prisma : Prisma) where
  -- The profile of every person counts the active opportunities that are not deleted.
  abbrev pub ActiveExact : Store → Type 0
  ActiveExact s =
      Exact prisma.opportunity prisma.btoc_profile active_of btoc_user active_counter
        s.opportunities s.btoc_profiles

  notify-ActiveExact :
      (status : OpportunityStatus) (owner : UserKey) (s : Store)
      → ActiveExact s
      → ActiveExact (invalidate (notify_status prisma status owner s))
  unfolding notify_status
  notify-ActiveExact OpportunityStatus.draft owner s exact = exact
  notify-ActiveExact OpportunityStatus.pending owner s exact = exact
  notify-ActiveExact OpportunityStatus.active owner s exact = exact
  notify-ActiveExact OpportunityStatus.archived owner s exact = exact
  notify-ActiveExact OpportunityStatus.closed owner s exact = exact

  -- The counter moves with the number of active ones, by what the status was and becomes.
  count_active-ActiveExact :
      (was becomes : Bool) (owner : UserKey) (s t : Store)
      → t.btoc_profiles ≡ s.btoc_profiles
      → prisma.opportunity.count (active_of owner) t.opportunities + bit was
        ≡ prisma.opportunity.count (active_of owner) s.opportunities + bit becomes
      → ((u : UserKey)
          → u ≢ owner
          → prisma.opportunity.count (active_of u) t.opportunities
            ≡ prisma.opportunity.count (active_of u) s.opportunities)
      → ActiveExact s
      → ActiveExact (count_active prisma true was becomes owner t)
  count_active-ActiveExact true true owner s t same here elsewhere exact k p found = ground (
    arith,
    exact k p (ap (λ ps. prisma.btoc_profile.find_unique k ps) (sym same) ∙ found),
    here,
    elsewhere p.user_id,
    Bool-cases (p.user_id == owner),
  )
  count_active-ActiveExact false false owner s t same here elsewhere exact k p found = ground (
    arith,
    exact k p (ap (λ ps. prisma.btoc_profile.find_unique k ps) (sym same) ∙ found),
    here,
    elsewhere p.user_id,
    Bool-cases (p.user_id == owner),
  )
  count_active-ActiveExact false true owner s t same here elsewhere exact k p found =
      moved-Exact prisma.opportunity prisma.btoc_profile active_of btoc_user active_counter owner
        (pos 1) (more_active (pos 1)) s.opportunities t.opportunities t.btoc_profiles (λ p. refl)
        (λ p. refl)
        (ground
          (arith, here, pos_one_more (prisma.opportunity.count (active_of owner) s.opportunities)))
        elsewhere (λ j q h. exact j q (rw same at h)) k p found
  count_active-ActiveExact true false owner s t same here elsewhere exact k p found =
      moved-Exact prisma.opportunity prisma.btoc_profile active_of btoc_user active_counter owner
        (negsuc 0) (more_active (negsuc 0)) s.opportunities t.opportunities t.btoc_profiles
        (λ p. refl) (λ p. refl) (pos_less_one _ _ (ground (arith, here))) elsewhere
        (λ j q h. exact j q (rw same at h)) k p found

  -- Where each person's counter of active opportunities is exact, moderation whose update of the
  -- counter succeeds keeps it so, whatever the statuses are.
  pub moderate-ActiveExact :
      (id : ℕ) (status : OpportunityStatus) (s : Store)
      → ActiveExact s
      → ActiveExact (admin_update_status prisma true id status s).1
  moderate-ActiveExact id status s exact = elim (moderate_cases prisma true id status s) [
    | inl refused ↦ subst ActiveExact (sym (ap (λ r. r.1) refused)) exact
    | inr m ↦
        let moved = λ (u : UserKey).
          count-moved prisma.opportunity id always (with_status status) s.opportunities
            (active_of u) m.row m.present refl in
        subst ActiveExact (sym m.served) (
          notify-ActiveExact status m.row.owner_id _ (
            count_active-ActiveExact (is_active m.row.status) (is_active status) m.row.owner_id s
              (put_status prisma id status s) refl (ground (arith, moved m.row.owner_id, m.listed))
              (λ u other. ground (arith, other, moved u)) exact))
  ]

  -- Deletion keeps the counter of active opportunities exact, if its update succeeds.
  pub remove-ActiveExact :
      (done : CounterUpdates) (now id : ℕ) (owner : UserKey) (s : Store)
      → done.of_person ≡ true
      → ActiveExact s
      → ActiveExact (remove prisma done now id owner s).1
  remove-ActiveExact done now id owner s counted exact =
      elim (remove_cases prisma done now id owner s) [
        | inl (e, refused) ↦ subst ActiveExact (sym (ap (λ r. r.1) refused)) exact
        | inr r ↦
            let t =
              prisma.opportunity.update_many (at id is_listed) (mark_deleted now) s.opportunities in
            let moved = λ (u : UserKey).
              count-moved prisma.opportunity id is_listed (mark_deleted now) s.opportunities
                (active_of u) r.row r.present r.listed in
            subst ActiveExact (sym r.served) (
              rw counted (
                removed (is_active r.row.status) owner t s
                  (ground (arith, moved owner, r.owned, r.listed))
                  (λ u other. ground (arith, other, moved u, r.owned)) exact))
      ]
    where
      removed :
          (was : Bool) (owner : UserKey) (t : Table Opportunity) (s : Store)
          → prisma.opportunity.count (active_of owner) t + bit was
            ≡ prisma.opportunity.count (active_of owner) s.opportunities
          → ((u : UserKey)
              → u ≢ owner
              → prisma.opportunity.count (active_of u) t
                ≡ prisma.opportunity.count (active_of u) s.opportunities)
          → ActiveExact s
          → Exact prisma.opportunity prisma.btoc_profile active_of btoc_user active_counter t
              (prisma.btoc_profile.update_many (btoc_of owner) (fewer was) s.btoc_profiles)
      removed true owner t s here elsewhere exact =
          moved-Exact prisma.opportunity prisma.btoc_profile active_of btoc_user active_counter
            owner (negsuc 0) (fewer true) s.opportunities t s.btoc_profiles (λ p. refl) (λ p. refl)
            (pos_less_one _ _ (ground (arith, here))) elsewhere exact
      removed false owner t s here elsewhere exact =
          untouched-Exact prisma.opportunity prisma.btoc_profile active_of btoc_user active_counter
            (btoc_of owner) (fewer false) t s.btoc_profiles (λ p. refl) (λ p. refl)
            (kept-Exact prisma.opportunity prisma.btoc_profile active_of btoc_user active_counter
              s.opportunities t s.btoc_profiles
              (λ u. elim (Bool-cases (u == owner)) [
                | inl mine ↦ ground (arith, mine, here)
                | inr other ↦ elsewhere u (λ e. ground (arith, e, other))
              ])
              exact)

  -- When an opportunity is created as active, its owner has one active opportunity more, and the
  -- counter on the owner's profile stays where it was.
  pub create-active_undercount :
      (now new_id : ℕ) (owner : UserKey) (dto : CreateDto) (role : Option UserRole) (s : Store)
      (made : ℕ × Opportunity) (k : ℕ) (p : BtoCProfile)
      → (create prisma now new_id owner dto role s).0 ≡ ok made
      → initial_status (is_admin role) dto.status ≡ OpportunityStatus.active
      → prisma.btoc_profile.find_unique k s.btoc_profiles ≡ some p
      → p.user_id ≡ owner
      → ActiveExact s
      → let t = (create prisma now new_id owner dto role s).1 in
        (q : BtoCProfile) × (prisma.btoc_profile.find_unique k t.btoc_profiles ≡ some q)
        × (active_counter q +ℤ pos 1
            ≡ pos (prisma.opportunity.count (active_of owner) t.opportunities))
  create-active_undercount now new_id owner dto role s made k p served active present mine exact =
      elim (create_cases prisma now new_id owner dto role s) [
        | inl (e, refused) ↦ ground (arith, served, ap (λ r. r.0) refused)
        | inr c ↦
            let row = new_opportunity now owner (is_admin role) dto in
            subst
              (λ (t : Store).
                (q : BtoCProfile) × (prisma.btoc_profile.find_unique k t.btoc_profiles ≡ some q)
                × (active_counter q +ℤ pos 1
                    ≡ pos (prisma.opportunity.count (active_of owner) t.opportunities)))
              (sym c.served)
              (
                more_opportunities (pos 1) p,
                ground (
                  arith,
                  present,
                  mine,
                  prisma.btoc_profile.find_unique-update_many k (btoc_of owner)
                      (more_opportunities (pos 1)) s.btoc_profiles,
                ),
                ground (
                  arith,
                  mine,
                  active,
                  exact k p present,
                  pos_one_more (prisma.opportunity.count (active_of owner) s.opportunities),
                  prisma.opportunity.count-create no_clash new_id row s.opportunities c.table
                      (active_of owner) c.made,
                ),
              )
      ]
