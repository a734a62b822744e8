-- ===== src/Applications/Create/Outcome.antt =====
-- What `create` does on each branch.
use south_connect.Prelude.{
  ℕ, ◌≡◌, ◌⊎◌, inl, inr, false, none, some, arith, ◌==◌, if◌then◌else◌, Option-cases, Bool-cases,
}
use south_connect.Action.{ok, err, HttpError, conflict}
use south_connect.Database.{Table}
use south_connect.Database.Keyed.{at, always}
use south_connect.Schema.{UserKey, Application, Opportunity, Store, Prisma, is_null}
use south_connect.Applications.Stages.{is_live}
use south_connect.Applications.Create.{CreateDto, create, restored, drafted, of_pair}

module _ (prisma : Prisma) (new_id : ℕ) (candidate : UserKey) (dto : CreateDto) (s : Store) where
  -- The opportunity can be applied to.
  pub record IsOpen : Type 0 where
    pub opportunity : Opportunity
    pub joined :
        prisma.opportunity.find_unique dto.opportunity_id s.opportunities ≡ some opportunity
    pub kept : opportunity.deleted_at ≡ none

  -- A withdrawn application of the pair is restored.
  pub record Restores : Type 0 where
    pub id : ℕ
    pub old : Application
    pub found :
        prisma.application.find_first (of_pair dto.opportunity_id candidate) s.applications
        ≡ some (id, old)
    pub withdrawn : is_live old ≡ false
    pub result : create prisma new_id candidate dto s ≡ (
      ok id,
      record s {
        applications = prisma.application.update_many (at id always) (restored dto) s.applications;
      },
    )

  -- There is none of the pair, and a new draft is stored.
  pub record Inserts : Type 0 where
    pub table : Table Application
    pub free :
        prisma.application.find_first (of_pair dto.opportunity_id candidate) s.applications ≡ none
    pub stored :
        prisma.application.create
          (of_pair dto.opportunity_id candidate)
          new_id
          (drafted candidate dto)
          s.applications
        ≡ some table
    pub result :
        create prisma new_id candidate dto s ≡ (ok new_id, record s { applications = table })

  pub create_cases :
      ((e : HttpError) × (create prisma new_id candidate dto s ≡ (err e, s)))
      ⊎ (IsOpen × (Restores ⊎ Inserts))
  unfolding create
  create_cases =
      elim (Option-cases (prisma.opportunity.find_unique dto.opportunity_id s.opportunities)) [
        | inl missing ↦ inl (HttpError.not_found, ground arith)
        | inr (o, joined) ↦ elim (Bool-cases (is_null o.deleted_at)) [
          | inr deleted ↦ inl (HttpError.gone, ground arith)
          | inl kept ↦
              elim (Option-cases (
                prisma.application.find_first (of_pair dto.opportunity_id candidate)
                  s.applications)) [
                    | inr ((id, old), found) ↦ elim (Bool-cases (is_live old)) [
                      | inl live ↦ inl (conflict, ground arith)
                      | inr withdrawn ↦ inr (
                        record { opportunity = o; joined = joined; kept = ground arith },
                        inl (record {
                          id = id;
                          old = old;
                          found = found;
                          withdrawn = withdrawn;
                          result = ground arith;
                        }),
                      )
                    ]
                    | inl free ↦
                        elim (Option-cases (
                          prisma.application.create (of_pair dto.opportunity_id candidate) new_id
                            (drafted candidate dto) s.applications)) [
                              | inl clash ↦ inl (conflict, ground arith)
                              | inr (table, stored) ↦ inr (
                                record { opportunity = o; joined = joined; kept = ground arith },
                                inr (record {
                                  table = table;
                                  free = free;
                                  stored = stored;
                                  result = ground arith;
                                }),
                              )
                            ]
                  ]
        ]
      ]

  pub restore_row :
      (r : Restores) (j : ℕ)
      → prisma.application.find_unique j
          (prisma.application.update_many (at r.id always) (restored dto) s.applications)
        ≡ (if j == r.id
            then some (restored dto r.old)
            else prisma.application.find_unique j s.applications)
  restore_row r j = ground (
    arith,
    prisma.application.find_first-sound (of_pair dto.opportunity_id candidate) s.applications r.id
        r.old r.found,
    prisma.application.find_unique-update_many j (at r.id always) (restored dto) s.applications,
  )
