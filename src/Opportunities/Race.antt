-- ===== src/Opportunities/Race.antt =====
-- Two deletions of one opportunity at the same time: both read before either writes.
use south_connect.Prelude.{
  ℕ, ◌+◌, ◌≡◌, refl, sym, subst, ◌∙◌, inl, inr, Bool, true, false, some, arith, if◌then◌else◌,
  Bool-cases, Option-cases,
}
use south_connect.Prelude.Int.{ℤ, pos, negsuc, ◌+ℤ◌, int_laws}
use south_connect.Action.{Action, ◌>>=◌, ◌>>◌, modify}
use south_connect.Database.{Where, Table}
use south_connect.Database.Keyed.{at, find_first-at}
use south_connect.Schema.{UserKey, Opportunity, BtoCProfile, Store, Prisma}
use south_connect.Social.{btoc_of}
use south_connect.Opportunities.{is_listed, is_active}
use south_connect.Opportunities.Remove.{
  CounterUpdates, mark_deleted, fewer, removable, without_opportunity,
}
use south_connect.Opportunities.Counters.{count-moved}
use south_connect.Opportunities.InStep.{listed, ListedExact}

abbrev pub both_done : CounterUpdates
both_done = record { of_person = true; of_company = true }

module _ (prisma : Prisma) where
  -- The reads and writes of two requests of one owner, in this order; their counters' updates
  -- succeed.
  unfoldable pub double_remove : (now : ℕ) → ℕ → UserKey → Action Store (Unit {0})
  double_remove now id owner = do
    first ← removable prisma id owner
    second ← removable prisma id owner
    modify (without_opportunity prisma both_done now id owner (is_active first.status))
    modify (without_opportunity prisma both_done now id owner (is_active second.status))

  fewer_twice :
      (was : Bool) (p : BtoCProfile)
      → (fewer was (fewer was p)).opportunities_count
        ≡ p.opportunities_count +ℤ negsuc 0 +ℤ negsuc 0
  fewer_twice true p = refl
  fewer_twice false p = refl

  -- A second deletion of the same row finds nothing to mark.
  removed_once :
      (now id : ℕ) (t : Table Opportunity) (q : Where Opportunity)
      → prisma.opportunity.count q (
          prisma.opportunity.update_many
            (at id is_listed)
            (mark_deleted now)
            (prisma.opportunity.update_many (at id is_listed) (mark_deleted now) t))
        ≡ prisma.opportunity.count q
            (prisma.opportunity.update_many (at id is_listed) (mark_deleted now) t)
  removed_once now id t q =
      let c = prisma.opportunity in
      let marked = c.update_many (at id is_listed) (mark_deleted now) t in
      c.count-mapped (at id is_listed) (mark_deleted now) marked q
      ∙ c.count-agree (λ k r. q k (if at id is_listed k r then mark_deleted now r else r)) q marked
          (λ k r found. elim (Bool-cases (at id is_listed k r)) [
            | inr miss ↦ rw miss refl
            | inl hit ↦ elim (Option-cases (c.find_unique k t)) [
              | inl absent ↦ ground (
                arith,
                found,
                absent,
                c.find_unique-update_many k (at id is_listed) (mark_deleted now) t,
              )
              | inr (o, present) ↦ ground (
                arith,
                hit,
                found,
                present,
                c.find_unique-update_many k (at id is_listed) (mark_deleted now) t,
              )
            ]
          ])

  fewer_user : (was : Bool) (p : BtoCProfile) → (fewer was p).user_id ≡ p.user_id
  fewer_user true p = refl
  fewer_user false p = refl

  -- A profile of the owner counts one opportunity less than there are.
  abbrev pub Undercounted : ℕ → UserKey → Store → Type 0
  Undercounted k owner t =
      (q : BtoCProfile) × (prisma.btoc_profile.find_unique k t.btoc_profiles ≡ some q)
      × (q.opportunities_count +ℤ pos 1
          ≡ pos (prisma.opportunity.count (listed owner) t.opportunities))

  -- When two deletions of a listed opportunity overlap and their updates of the counters succeed, the
  -- profile of its owner, if it was exact, ends one below the number of opportunities that the owner has left.
  pub double_remove-undercount :
      (now id : ℕ) (owner : UserKey) (s : Store) (o : Opportunity) (k : ℕ) (p : BtoCProfile)
      → prisma.opportunity.find_unique id s.opportunities ≡ some o
      → is_listed o ≡ true
      → o.owner_id ≡ owner
      → prisma.btoc_profile.find_unique k s.btoc_profiles ≡ some p
      → p.user_id ≡ owner
      → ListedExact prisma s
      → Undercounted k owner (double_remove now id owner s).1
  unfolding double_remove
  double_remove-undercount now id owner s o k p present is_there owned profile mine exact =
      let was = is_active o.status in
      let gone = mark_deleted now in
      let t = prisma.opportunity.update_many (at id is_listed) gone s.opportunities in
      let once = prisma.btoc_profile.update_many (btoc_of owner) (fewer was) s.btoc_profiles in
      let found = find_first-at prisma.opportunity id is_listed s.opportunities in
      let first = without_opportunity prisma both_done now id owner was s in
      let served : (double_remove now id owner s).1
          ≡ without_opportunity prisma both_done now id owner was first =
        ground (arith, found, present, is_there, owned) in
      subst (Undercounted k owner) (sym served) (
        fewer was (fewer was p),
        ground (
          arith,
          profile,
          mine,
          fewer_user was p,
          prisma.btoc_profile.find_unique-update_many k (btoc_of owner) (fewer was) s.btoc_profiles,
          prisma.btoc_profile.find_unique-update_many k (btoc_of owner) (fewer was) once,
        ),
        ground (
          arith,
          fewer_twice was p,
          exact.of_person k p profile,
          mine,
          twice (p.opportunities_count) (prisma.opportunity.count (listed owner) t),
          count-moved prisma.opportunity id is_listed gone s.opportunities (listed owner) o present
              is_there,
          removed_once now id s.opportunities (listed owner),
        ),
      )
    where
      twice : (c : ℤ) (n : ℕ) → c ≡ pos (n + 1) → c +ℤ negsuc 0 +ℤ negsuc 0 +ℤ pos 1 ≡ pos n
      twice c n e = rw e (omega int_laws)
