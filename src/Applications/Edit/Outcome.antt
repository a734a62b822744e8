-- ===== src/Applications/Edit/Outcome.antt =====
-- What `update` asks for and does.
use south_connect.Prelude.{
  ℕ, ◌≡◌, ◌⊎◌, inl, inr, some, arith, ◌==◌, if◌then◌else◌, Option-cases, Bool-cases,
}
use south_connect.Action.{ok, err, HttpError}
use south_connect.Database.Keyed.{at, always}
use south_connect.Schema.{UserKey, Application, Store, Prisma, draft}
use south_connect.Applications.Stages.{is_draft_stage}
use south_connect.Applications.Edit.{UpdateDto, update, edited}

pub record MayEdit (prisma : Prisma) (id : ℕ) (candidate : UserKey) (s : Store) (a : Application)
    : Type 0 where
  pub found : prisma.application.find_unique id s.applications ≡ some a
  pub mine : a.candidate_id ≡ candidate
  pub unsent : a.stage ≡ draft

module _ (prisma : Prisma) (id : ℕ) (candidate : UserKey) (dto : UpdateDto) (s : Store) where
  unfoldable pub update_done : Store
  update_done = record s {
    applications = prisma.application.update_many (at id always) (edited dto) s.applications;
  }

  -- An edit either throws and changes nothing, or finds a draft of the caller and edits it.
  pub update_cases :
      ((e : HttpError) × (update prisma id candidate dto s ≡ (err e, s)))
      ⊎ ((a : Application) × MayEdit prisma id candidate s a
          × (update prisma id candidate dto s ≡ (ok id, update_done)))
  unfolding update update_done
  update_cases = elim (Option-cases (prisma.application.find_unique id s.applications)) [
    | inl missing ↦ inl (HttpError.not_found, ground arith)
    | inr (a, found) ↦ elim (Bool-cases (a.candidate_id == candidate)) [
      | inr other ↦ inl (HttpError.forbidden, ground arith)
      | inl mine ↦ elim (Bool-cases (is_draft_stage a)) [
        | inr sent ↦ inl (HttpError.bad_request, ground arith)
        | inl unsent ↦ inr (a, ground arith, ground arith)
      ]
    ]
  ]

  pub update_row :
      (a : Application) (j : ℕ)
      → MayEdit prisma id candidate s a
      → prisma.application.find_unique j update_done.applications
        ≡ (if j == id then some (edited dto a) else prisma.application.find_unique j s.applications)
  unfolding update_done
  update_row a j m = ground (
    arith,
    prisma.application.find_unique-update_many j (at id always) (edited dto) s.applications,
  )
