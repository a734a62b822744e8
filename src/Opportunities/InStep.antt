-- ===== src/Opportunities/InStep.antt =====
-- Whatever is requested of the opportunities, `opportunitiesCount` stays the number of listed ones.
use south_connect.Prelude.{
  ℕ, ◌≡◌, ◌≢◌, refl, sym, subst, ap, inl, inr, Bool, true, false, ◌&&◌, Option, some, List, [], ◌∷◌,
  all, arith, ◌==◌,
}
use south_connect.Prelude.Int.{ℤ, pos, negsuc, ◌+ℤ◌, pos_one_more, pos_less_one}
use south_connect.Database.{Where, Table}
use south_connect.Database.Keyed.{at, always}
use south_connect.Schema.{
  UserKey, UserRole, OpportunityStatus, Opportunity, BtoCProfile, BtoBProfile, Store, Prisma,
}
use south_connect.Opportunities.{
  is_listed, is_active, is_admin, more_opportunities, more_offers, invalidate,
}
use south_connect.Opportunities.Create.{CreateDto, new_opportunity, no_clash, create, create_cases}
use south_connect.Opportunities.Edit.{UpdateDto, edited, without_privileges, update, update_cases}
use south_connect.Opportunities.Moderate.{
  with_status, count_active, notify_status, admin_update_status, moderate_cases,
}
use south_connect.Opportunities.Remove.{CounterUpdates, mark_deleted, fewer, remove, remove_cases}
use south_connect.Opportunities.Counters.{
  Exact, kept-Exact, moved-Exact, untouched-Exact, count-same, count-moved,
}

pub data Request : Type 0 where
  creates : (now new_id : ℕ) → UserKey → CreateDto → Option UserRole → Request
  updates : ℕ → UserKey → UpdateDto → Option UserRole → Request
  moderates : (done : Bool) → ℕ → OpportunityStatus → Request
  removes : CounterUpdates → (now : ℕ) → ℕ → UserKey → Request

-- The opportunities of a user that are not deleted.
abbrev pub listed : UserKey → Where Opportunity
listed user k o = o.owner_id == user && is_listed o

abbrev pub btoc_user : BtoCProfile → UserKey
btoc_user p = p.user_id

abbrev pub btob_user : BtoBProfile → UserKey
btob_user p = p.user_id

abbrev pub btoc_counter : BtoCProfile → ℤ
btoc_counter p = p.opportunities_count

abbrev pub btob_counter : BtoBProfile → ℤ
btob_counter p = p.opportunities_count

module _ (prisma : Prisma) where
  abbrev pub BtoCExact : Table Opportunity → Table BtoCProfile → Type 0
  BtoCExact = Exact prisma.opportunity prisma.btoc_profile listed btoc_user btoc_counter

  abbrev pub BtoBExact : Table Opportunity → Table BtoBProfile → Type 0
  BtoBExact = Exact prisma.opportunity prisma.btob_profile listed btob_user btob_counter

  -- Every profile counts the opportunities of its user that are not deleted.
  pub record ListedExact (s : Store) : Type 0 where
    pub of_person : BtoCExact s.opportunities s.btoc_profiles
    pub of_company : BtoBExact s.opportunities s.btob_profiles

  unfoldable pub perform : Request → Store → Store
  perform (creates now new_id owner dto role) s = (create prisma now new_id owner dto role s).1
  perform (updates id owner dto role) s = (update prisma id owner dto role s).1
  perform (moderates done id status) s = (admin_update_status prisma done id status s).1
  perform (removes done now id owner) s = (remove prisma done now id owner s).1

  unfoldable pub perform_all : List Request → Store → Store
  perform_all [] s = s
  perform_all (r ∷ rest) s = perform_all rest (perform r s)

  create-ListedExact :
      (now new_id : ℕ) (owner : UserKey) (dto : CreateDto) (role : Option UserRole) (s : Store)
      → ListedExact s
      → ListedExact (create prisma now new_id owner dto role s).1
  create-ListedExact now new_id owner dto role s exact =
      elim (create_cases prisma now new_id owner dto role s) [
        | inl (e, refused) ↦ subst ListedExact (sym (ap (λ r. r.1) refused)) exact
        | inr c ↦
            let row = new_opportunity now owner (is_admin role) dto in
            let grown = λ (u : UserKey).
              prisma.opportunity.count-create no_clash new_id row s.opportunities c.table (listed u)
                c.made in
            let here : pos (prisma.opportunity.count (listed owner) c.table)
                ≡ pos (prisma.opportunity.count (listed owner) s.opportunities) +ℤ pos 1 =
              ground (
                arith,
                grown owner,
                pos_one_more (prisma.opportunity.count (listed owner) s.opportunities),
              ) in
            let elsewhere : (u : UserKey)
                → u ≢ owner
                → prisma.opportunity.count (listed u) c.table
                  ≡ prisma.opportunity.count (listed u) s.opportunities =
              λ u other. ground (arith, other, grown u) in
            subst ListedExact (sym c.served) (record {
              of_person =
                  moved-Exact prisma.opportunity prisma.btoc_profile listed btoc_user btoc_counter
                    owner (pos 1) (more_opportunities (pos 1)) s.opportunities c.table
                    s.btoc_profiles (λ p. refl) (λ p. refl) here elsewhere exact.of_person;
              of_company =
                  moved-Exact prisma.opportunity prisma.btob_profile listed btob_user btob_counter
                    owner (pos 1) (more_offers (pos 1)) s.opportunities c.table s.btob_profiles
                    (λ p. refl) (λ p. refl) here elsewhere exact.of_company;
            })
      ]

  -- An update of one row that keeps its owner, and whether it is deleted.
  kept-ListedExact :
      (id : ℕ) (f : Opportunity → Opportunity) (s : Store) (o : Opportunity)
      → prisma.opportunity.find_unique id s.opportunities ≡ some o
      → ((q : Opportunity) → (f q).owner_id ≡ q.owner_id)
      → ((q : Opportunity) → (f q).deleted_at ≡ q.deleted_at)
      → ListedExact s
      → ListedExact (record s {
        opportunities = prisma.opportunity.update_many (at id always) f s.opportunities;
      })
  kept-ListedExact id f s o present owner deleted exact =
      let same : (u : UserKey)
          → prisma.opportunity.count (listed u)
              (prisma.opportunity.update_many (at id always) f s.opportunities)
            ≡ prisma.opportunity.count (listed u) s.opportunities =
        λ u.
          count-same prisma.opportunity id always f s.opportunities (listed u) o present refl
            (rw (owner o, deleted o) refl) in
      record {
        of_person =
            kept-Exact prisma.opportunity prisma.btoc_profile listed btoc_user btoc_counter
              s.opportunities _ s.btoc_profiles same exact.of_person;
        of_company =
            kept-Exact prisma.opportunity prisma.btob_profile listed btob_user btob_counter
              s.opportunities _ s.btob_profiles same exact.of_company;
      }

  update-ListedExact :
      (id : ℕ) (owner : UserKey) (dto : UpdateDto) (role : Option UserRole) (s : Store)
      → ListedExact s
      → ListedExact (update prisma id owner dto role s).1
  update-ListedExact id owner dto role s exact = elim (update_cases prisma id owner dto role s) [
    | inl (e, refused) ↦ subst ListedExact (sym (ap (λ r. r.1) refused)) exact
    | inr u ↦
        let k =
          kept-ListedExact id (edited (without_privileges (is_admin role) dto)) s u.row u.present
            (λ q. refl) (λ q. refl) exact in
        subst ListedExact (sym u.served)
          (record { of_person = k.of_person; of_company = k.of_company })
  ]

  -- `activeOpportunitiesCount` and the calls have no part in it.
  count_active-ListedExact :
      (done was becomes : Bool) (owner : UserKey) (s : Store)
      → ListedExact s
      → ListedExact (count_active prisma done was becomes owner s)
  count_active-ListedExact false was becomes owner s exact = exact
  count_active-ListedExact true true true owner s exact = exact
  count_active-ListedExact true false false owner s exact = exact
  count_active-ListedExact true true false owner s exact = record {
    of_person =
        untouched-Exact prisma.opportunity prisma.btoc_profile listed btoc_user btoc_counter _ _ _ _
          (λ q. refl) (λ q. refl) exact.of_person;
    of_company = exact.of_company;
  }
  count_active-ListedExact true false true owner s exact = record {
    of_person =
        untouched-Exact prisma.opportunity prisma.btoc_profile listed btoc_user btoc_counter _ _ _ _
          (λ q. refl) (λ q. refl) exact.of_person;
    of_company = exact.of_company;
  }

  notify-ListedExact :
      (status : OpportunityStatus) (owner : UserKey) (s : Store)
      → ListedExact s
      → ListedExact (invalidate (notify_status prisma status owner s))
  unfolding notify_status
  notify-ListedExact OpportunityStatus.draft owner s exact = record {
    of_person = exact.of_person;
    of_company = exact.of_company;
  }
  notify-ListedExact OpportunityStatus.pending owner s exact = record {
    of_person = exact.of_person;
    of_company = exact.of_company;
  }
  notify-ListedExact OpportunityStatus.active owner s exact = record {
    of_person = exact.of_person;
    of_company = exact.of_company;
  }
  notify-ListedExact OpportunityStatus.archived owner s exact = record {
    of_person = exact.of_person;
    of_company = exact.of_company;
  }
  notify-ListedExact OpportunityStatus.closed owner s exact = record {
    of_person = exact.of_person;
    of_company = exact.of_company;
  }

  moderate-ListedExact :
      (done : Bool) (id : ℕ) (status : OpportunityStatus) (s : Store)
      → ListedExact s
      → ListedExact (admin_update_status prisma done id status s).1
  moderate-ListedExact done id status s exact = elim (moderate_cases prisma done id status s) [
    | inl refused ↦ subst ListedExact (sym (ap (λ r. r.1) refused)) exact
    | inr m ↦ subst ListedExact (sym m.served) (
        notify-ListedExact status m.row.owner_id _ (
          count_active-ListedExact done (is_active m.row.status) (is_active status) m.row.owner_id _
            (kept-ListedExact id (with_status status) s m.row m.present (λ q. refl) (λ q. refl)
              exact)))
  ]

  remove-ListedExact :
      (done : CounterUpdates) (now id : ℕ) (owner : UserKey) (s : Store)
      → (done.of_person && done.of_company) ≡ true
      → ListedExact s
      → ListedExact (remove prisma done now id owner s).1
  remove-ListedExact done now id owner s both exact =
      elim (remove_cases prisma done now id owner s) [
        | inl (e, refused) ↦ subst ListedExact (sym (ap (λ r. r.1) refused)) exact
        | inr r ↦
            let moved = λ (u : UserKey).
              count-moved prisma.opportunity id is_listed (mark_deleted now) s.opportunities
                (listed u) r.row r.present r.listed in
            let here : pos (
                  prisma.opportunity.count (listed owner) (
                    prisma.opportunity.update_many (at id is_listed) (mark_deleted now)
                      s.opportunities))
                ≡ pos (prisma.opportunity.count (listed owner) s.opportunities) +ℤ negsuc 0 =
              pos_less_one _ _ (ground (arith, moved owner, r.owned, r.listed)) in
            let elsewhere : (u : UserKey)
                → u ≢ owner
                → prisma.opportunity.count (listed u) (
                    prisma.opportunity.update_many (at id is_listed) (mark_deleted now)
                      s.opportunities)
                  ≡ prisma.opportunity.count (listed u) s.opportunities =
              λ u other. ground (arith, other, moved u, r.owned) in
            let person : done.of_person ≡ true = ground (arith, both) in
            let company : done.of_company ≡ true = ground (arith, both) in
            subst ListedExact (sym r.served) (record {
              of_person = rw person (
                  moved-Exact prisma.opportunity prisma.btoc_profile listed btoc_user btoc_counter
                    owner (negsuc 0) (fewer (is_active r.row.status)) s.opportunities _
                    s.btoc_profiles (λ p. fewer_user (is_active r.row.status) p)
                    (λ p. fewer_counter (is_active r.row.status) p) here elsewhere exact.of_person);
              of_company = rw company (
                  moved-Exact prisma.opportunity prisma.btob_profile listed btob_user btob_counter
                    owner (negsuc 0) (more_offers (negsuc 0)) s.opportunities _ s.btob_profiles
                    (λ p. refl) (λ p. refl) here elsewhere exact.of_company);
            })
      ]
    where
      fewer_user : (was : Bool) (p : BtoCProfile) → (fewer was p).user_id ≡ p.user_id
      fewer_user true p = refl
      fewer_user false p = refl

      fewer_counter :
          (was : Bool) (p : BtoCProfile)
          → (fewer was p).opportunities_count ≡ p.opportunities_count +ℤ negsuc 0
      fewer_counter true p = refl
      fewer_counter false p = refl

  -- Both counters are updated wherever an opportunity is deleted.
  abbrev pub is_counted : Request → Bool
  is_counted (removes done now id owner) = done.of_person && done.of_company
  is_counted _ = true

  perform-ListedExact :
      (r : Request) (s : Store) → is_counted r ≡ true → ListedExact s → ListedExact (perform r s)
  unfolding perform
  perform-ListedExact (creates now new_id owner dto role) s counted c =
      create-ListedExact now new_id owner dto role s c
  perform-ListedExact (updates id owner dto role) s counted c =
      update-ListedExact id owner dto role s c
  perform-ListedExact (moderates done id status) s counted c =
      moderate-ListedExact done id status s c
  perform-ListedExact (removes done now id owner) s counted c =
      remove-ListedExact done now id owner s counted c

  -- After any sequence of requests to create, change, moderate or delete opportunities, refused ones
  -- included, that begins where they do, the profiles of every user count the opportunities of the
  -- user that are not deleted, if the deletions' updates of both kinds of profile succeed.
  pub perform_all-ListedExact :
      (requests : List Request) (s : Store)
      → all is_counted requests ≡ true
      → ListedExact s
      → ListedExact (perform_all requests s)
  unfolding perform_all
  perform_all-ListedExact [] s counted c = c
  perform_all-ListedExact (r ∷ rest) s counted c =
      perform_all-ListedExact rest (perform r s) (ground (arith, counted))
        (perform-ListedExact r s (ground (arith, counted)) c)
