-- ===== src/Opportunities/Moderate.antt =====
-- `adminUpdateStatus`: an admin sets the status of an opportunity, and its owner is told.
use south_connect.Prelude.{
  ℕ, ◌≡◌, ◌⊎◌, inl, inr, arith, Bool-cases, Option-cases, Bool, true, false, not, Option, none,
  some, ◌∷◌, ◌==◌, if◌then◌else◌,
}
use south_connect.Prelude.Int.{pos, negsuc}
use south_connect.Action.{Action, err, not_found, ◌>>=◌, ◌>>◌, pure, gets, modify, or_throw}
use south_connect.Database.Keyed.{at, always, find_first-at}
use south_connect.Schema.{
  UserKey, User, OpportunityStatus, Opportunity, NotificationType, opportunity_approved,
  opportunity_rejected, Store, Prisma, email, in_app,
}
use south_connect.Opportunities.{is_listed, is_active, move_active, invalidate}

abbrev pub with_status : OpportunityStatus → Opportunity → Opportunity
with_status status o = record o { status = status }

-- `opportunity.owner?.email`
abbrev pub has_email : Option User → Bool
has_email none = false
has_email (some u) = not (u.email == 0)

abbrev pub tell : UserKey → Bool → NotificationType → Store → Store
tell owner by_email what s = record s {
  calls =
      if by_email
      then email owner what ∷ in_app owner what ∷ s.calls
      else in_app owner what ∷ s.calls;
}

module _ (prisma : Prisma) where
  -- By whether the update succeeds, for which nobody waits and whose failure is only logged; whether
  -- the opportunity was active, and whether it becomes so.
  abbrev pub count_active : (done : Bool) → Bool → Bool → UserKey → Store → Store
  count_active true false true owner s = move_active prisma owner (pos 1) s
  count_active true true false owner s = move_active prisma owner (negsuc 0) s
  count_active _ _ _ owner s = s

  unfoldable pub notify_status : OpportunityStatus → UserKey → Store → Store
  notify_status OpportunityStatus.active owner s =
      tell owner (has_email (prisma.user.find_unique owner s.users)) opportunity_approved s
  notify_status OpportunityStatus.archived owner s =
      tell owner (has_email (prisma.user.find_unique owner s.users)) opportunity_rejected s
  notify_status OpportunityStatus.closed owner s =
      tell owner (has_email (prisma.user.find_unique owner s.users)) opportunity_rejected s
  notify_status _ owner s = s

  abbrev pub put_status : ℕ → OpportunityStatus → Store → Store
  put_status id status s = record s {
    opportunities =
        prisma.opportunity.update_many (at id always) (with_status status) s.opportunities;
  }

  unfoldable pub admin_update_status :
      (done : Bool) → ℕ → OpportunityStatus → Action Store (Option Opportunity)
  admin_update_status done id status = do
    found ← gets λ s. prisma.opportunity.find_first (at id is_listed) s.opportunities
    o ← or_throw found not_found
    modify (put_status id status)
    updated ← gets λ s. prisma.opportunity.find_unique id s.opportunities
    modify (count_active done (is_active o.1.status) (is_active status) o.1.owner_id)
    modify (notify_status status o.1.owner_id)
    modify invalidate
    pure updated

  pub record Moderates (done : Bool) (id : ℕ) (status : OpportunityStatus) (s t : Store)
      : Type 0 where
    pub row : Opportunity
    pub present : prisma.opportunity.find_unique id s.opportunities ≡ some row
    pub listed : is_listed row ≡ true
    pub served :
        t
        ≡ invalidate (
            notify_status status row.owner_id (
              count_active done
                (is_active row.status)
                (is_active status)
                row.owner_id
                (put_status id status s)))

  pub moderate_cases :
      (done : Bool) (id : ℕ) (status : OpportunityStatus) (s : Store)
      → (admin_update_status done id status s ≡ (err not_found, s))
        ⊎ Moderates done id status s (admin_update_status done id status s).1
  unfolding admin_update_status
  moderate_cases done id status s =
      let found = find_first-at prisma.opportunity id is_listed s.opportunities in
      elim (Option-cases (prisma.opportunity.find_unique id s.opportunities)) [
        | inl absent ↦ inl (ground (arith, found, absent))
        | inr (o, present) ↦ elim (Bool-cases (is_listed o)) [
          | inr deleted ↦ inl (ground (arith, found, present, deleted))
          | inl listed ↦ inr (record {
            row = o;
            present = present;
            listed = listed;
            served = ground (arith, found, present, listed);
          })
        ]
      ]
