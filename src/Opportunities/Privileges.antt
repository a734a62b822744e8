-- ===== src/Opportunities/Privileges.antt =====
-- What only an admin may set: a boost, the mark of quality, and the statuses PENDING and CLOSED.
use south_connect.Prelude.{
  ℕ, ◌≡◌, refl, sym, ap, ◌∙◌, subst, ◌⊎◌, inl, inr, Bool, true, false, not, ◌&&◌, Option, none,
  some, List, [], ◌∷◌, arith, ◌==◌, Bool-cases, Option-cases, or_default,
}
use south_connect.Database.{Where}
use south_connect.Database.Keyed.{at, always}
use south_connect.Schema.{UserKey, OpportunityStatus, Opportunity, Store, Prisma}
use south_connect.Opportunities.{is_admin, is_listed}
use south_connect.Opportunities.Create.{
  CreateDto, initial_status, new_opportunity, no_clash, create_cases,
}
use south_connect.Opportunities.Edit.{
  UpdateDto, edited, without_privileges, admin_only, asks_admin_only, update_cases,
}
use south_connect.Opportunities.Remove.{mark_deleted, remove_cases}
use south_connect.Opportunities.InStep.{
  Request, creates, updates, moderates, removes, perform, perform_all,
}

-- A request that someone who is no admin can make: moderation stands behind the roles guard.
abbrev pub by_member : Request → Bool
by_member (creates now new_id owner dto role) = not (is_admin role)
by_member (updates id owner dto role) = not (is_admin role)
by_member (moderates done id status) = false
by_member (removes done now id owner) = true

abbrev pub all_by_member : List Request → Bool
all_by_member [] = true
all_by_member (r ∷ rest) = by_member r && all_by_member rest

-- Nothing that only an admin may set is set.
pub record Modest (o : Opportunity) : Type 0 where
  pub unboosted : o.boosted ≡ false
  pub no_boost_date : o.boosted_until ≡ none
  pub unqualified : o.qualified ≡ false
  pub ordinary : admin_only o.status ≡ false

-- What only an admin may set is as it was, or, for a status, given up.
pub record Inherits (before after : Opportunity) : Type 0 where
  pub boosted : after.boosted ≡ before.boosted
  pub boosted_until : after.boosted_until ≡ before.boosted_until
  pub qualified : after.qualified ≡ before.qualified
  pub status : admin_only after.status ≡ true → after.status ≡ before.status

Inherits-all : (o : Opportunity) → Inherits o o
Inherits-all o = record {
  boosted = refl;
  boosted_until = refl;
  qualified = refl;
  status = λ h. refl;
}

Inherits-chain : (a b c : Opportunity) → Inherits a b → Inherits b c → Inherits a c
Inherits-chain a b c first then_ = record {
  boosted = then_.boosted ∙ first.boosted;
  boosted_until = then_.boosted_until ∙ first.boosted_until;
  qualified = then_.qualified ∙ first.qualified;
  status = λ h. then_.status h ∙ first.status (ap admin_only (sym (then_.status h)) ∙ h);
}

stays-Modest : (a b : Opportunity) → Modest a → Inherits a b → Modest b
stays-Modest a b m i = record {
  unboosted = i.boosted ∙ m.unboosted;
  no_boost_date = i.boosted_until ∙ m.no_boost_date;
  unqualified = i.qualified ∙ m.unqualified;
  ordinary = elim (Bool-cases (admin_only b.status)) [
    | inr ordinary ↦ ordinary
    | inl special ↦ ap admin_only (i.status special) ∙ m.ordinary
  ];
}

new-Modest :
    (now : ℕ) (owner : UserKey) (dto : CreateDto) → Modest (new_opportunity now owner false dto)
new-Modest now owner dto = record {
  unboosted = refl;
  no_boost_date = refl;
  unqualified = refl;
  ordinary = ordinary dto.status;
}
  where
    ordinary : (asked : Option OpportunityStatus) → admin_only (initial_status false asked) ≡ false
    ordinary none = refl
    ordinary (some OpportunityStatus.draft) = refl
    ordinary (some OpportunityStatus.pending) = refl
    ordinary (some OpportunityStatus.active) = refl
    ordinary (some OpportunityStatus.archived) = refl
    ordinary (some OpportunityStatus.closed) = refl

edited-Inherits :
    (dto : UpdateDto) (o : Opportunity)
    → asks_admin_only dto.status ≡ false
    → Inherits o (edited (without_privileges false dto) o)
edited-Inherits dto o allowed = record {
  boosted = refl;
  boosted_until = refl;
  qualified = refl;
  status = status dto.status allowed;
}
  where
    status :
        (asked : Option OpportunityStatus)
        → asks_admin_only asked ≡ false
        → admin_only (or_default asked o.status) ≡ true
        → or_default asked o.status ≡ o.status
    status none allowed h = refl
    status (some wanted) allowed h = ground (arith, allowed, h)

module _ (prisma : Prisma) where
  -- Where an opportunity has what only an admin may set: it had it before, or it has nothing of it.
  abbrev pub Origin : Store → ℕ → Opportunity → Type 0
  Origin s id o =
      Modest o
      ⊎ ((p : Opportunity) × (prisma.opportunity.find_unique id s.opportunities ≡ some p)
          × Inherits p o)

  unchanged :
      (s t : Store) (id : ℕ) (o : Opportunity)
      → t ≡ s
      → prisma.opportunity.find_unique id t.opportunities ≡ some o
      → Origin s id o
  unchanged s t id o same found = inr (
    o,
    ap (λ u. prisma.opportunity.find_unique id u.opportunities) (sym same) ∙ found,
    Inherits-all o,
  )

  patched :
      (p : Where Opportunity) (f : Opportunity → Opportunity) (s : Store) (id : ℕ) (o : Opportunity)
      → ((q : Opportunity) → Inherits q (f q))
      → prisma.opportunity.find_unique id (prisma.opportunity.update_many p f s.opportunities)
        ≡ some o
      → Origin s id o
  patched p f s id o fits found =
      let read = prisma.opportunity.find_unique-update_many id p f s.opportunities in
      elim (Option-cases (prisma.opportunity.find_unique id s.opportunities)) [
        | inl absent ↦ ground (arith, absent, read, found)
        | inr (q, present) ↦ elim (Bool-cases (p id q)) [
          | inl hit ↦
              inr (
                q,
                present,
                subst (Inherits q) (ground (arith, present, read, found, hit)) (fits q),
              )
          | inr miss ↦ inr (
            q,
            present,
            subst (Inherits q) (ground (arith, present, read, found, miss)) (Inherits-all q),
          )
        ]
      ]

  perform-Origin :
      (r : Request) (s : Store) (id : ℕ) (o : Opportunity)
      → by_member r ≡ true
      → prisma.opportunity.find_unique id (perform prisma r s).opportunities ≡ some o
      → Origin s id o
  unfolding perform
  perform-Origin (creates now new_id owner dto role) s id o member found =
      elim (create_cases prisma now new_id owner dto role s) [
        | inl (e, refused) ↦ unchanged s _ id o (ap (λ r. r.1) refused) found
        | inr c ↦
            let plain : is_admin role ≡ false = ground (arith, member) in
            let read =
              prisma.opportunity.find_unique-create no_clash new_id
                (new_opportunity now owner (is_admin role) dto) s.opportunities c.table id c.made in
            let found' : prisma.opportunity.find_unique id c.table ≡ some o =
              ap (λ u. prisma.opportunity.find_unique id u.opportunities) (sym c.served) ∙ found in
            elim (Bool-cases (id == new_id)) [
              | inl new ↦ inl (
                  subst Modest
                    (ap (λ b. new_opportunity now owner b dto) (sym plain)
                      ∙ ground (arith, new, read, found'))
                    (new-Modest now owner dto))
              | inr old ↦ inr (o, ground (arith, old, read, found'), Inherits-all o)
            ]
      ]
  perform-Origin (updates id' owner dto role) s id o member found =
      elim (update_cases prisma id' owner dto role s) [
        | inl (e, refused) ↦ unchanged s _ id o (ap (λ r. r.1) refused) found
        | inr u ↦
            let plain : is_admin role ≡ false = ground (arith, member) in
            patched (at id' always) (edited (without_privileges (is_admin role) dto)) s id o
              (λ q.
                subst (λ b. Inherits q (edited (without_privileges b dto) q)) (sym plain)
                  (edited-Inherits dto q (ground (arith, plain, u.allowed))))
              (ap (λ v. prisma.opportunity.find_unique id v.opportunities) (sym u.served) ∙ found)
      ]
  perform-Origin (moderates done id' status) s id o member found = ground (arith, member)
  perform-Origin (removes done now id' owner) s id o member found =
      elim (remove_cases prisma done now id' owner s) [
        | inl (e, refused) ↦ unchanged s _ id o (ap (λ r. r.1) refused) found
        | inr r ↦
            patched (at id' is_listed) (mark_deleted now) s id o (λ q. deleted q)
              (ap (λ v. prisma.opportunity.find_unique id v.opportunities) (sym r.served) ∙ found)
      ]
    where
      deleted : (q : Opportunity) → Inherits q (mark_deleted now q)
      deleted q = record {
        boosted = refl;
        boosted_until = refl;
        qualified = refl;
        status = λ h. refl;
      }

  -- After any sequence of requests of users who are no admins, refused ones included, an opportunity
  -- has nothing that only an admin may set (no boost, no date of one, no mark of quality, neither of
  -- the statuses PENDING and CLOSED), or it was stored before the first of them with the same boost,
  -- date and mark, and with the same status if that is PENDING or CLOSED.
  pub perform_all-Origin :
      (requests : List Request) (s : Store) (id : ℕ) (o : Opportunity)
      → all_by_member requests ≡ true
      → prisma.opportunity.find_unique id (perform_all prisma requests s).opportunities ≡ some o
      → Origin s id o
  unfolding perform_all
  perform_all-Origin [] s id o member found = inr (o, found, Inherits-all o)
  perform_all-Origin (r ∷ rest) s id o member found =
      elim (perform_all-Origin rest (perform prisma r s) id o (ground (arith, member)) found) [
        | inl modest ↦ inl modest
        | inr (p, present, i) ↦ elim (perform-Origin r s id p (ground (arith, member)) present) [
          | inl modest ↦ inl (stays-Modest p o modest i)
          | inr (q, there, j) ↦ inr (q, there, Inherits-chain q p o j i)
        ]
      ]
