-- ===== src/Applications/Lifecycle/Rows.antt =====
-- What one request does to one row: nothing, one step, or the insertion of a new draft.
use south_connect.Prelude.{
  ℕ, ◌≡◌, refl, ◌⊎◌, inl, inr, Option, none, some, arith, ◌==◌, if◌then◌else◌, Bool-cases,
}
use south_connect.Schema.{UserKey, Application, Store, Prisma}
use south_connect.Applications.Stages.{Env}
use south_connect.Applications.Create.{create, CreateDto, drafted, of_pair}
use south_connect.Applications.Create.Outcome.{create_cases, restore_row}
use south_connect.Applications.Edit.{update, UpdateDto}
use south_connect.Applications.Edit.Outcome.{update_cases, update_row}
use south_connect.Applications.Submit.{submit}
use south_connect.Applications.Withdraw.{withdraw}
use south_connect.Applications.Submit.Outcome.{submit_cases}
use south_connect.Applications.Submit.Effect.{submit_effect}
use south_connect.Applications.Review.{review, ReviewDto}
use south_connect.Applications.Review.Outcome.{review_cases}
use south_connect.Applications.Review.Effect.{review_effect}
use south_connect.Applications.Withdraw.Outcome.{withdraw_cases}
use south_connect.Applications.Withdraw.Effect.{withdraw_effect}
use south_connect.Applications.Lifecycle.{
  Request, creates, updates, submits, reviews, withdraws, handle, Step,
}

-- How a row stands before and after a request.
abbrev pub Moved : Option Application → Option Application → Type 0
Moved none none = Unit
Moved none (some b) = (candidate : UserKey) × (dto : CreateDto) × (b ≡ drafted candidate dto)
Moved (some a) none = ⊥
Moved (some a) (some b) = (a ≡ b) ⊎ Step a b

Moved-refl : (x : Option Application) → Moved x x
Moved-refl none = tt
Moved-refl (some a) = inl refl

-- A row with the key of the step moves by it, and the other rows stay.
Moved-at :
    (j id : ℕ) (x : Option Application) (a b : Application)
    → (j ≡ id → x ≡ some a)
    → Step a b
    → Moved x (if j == id then some b else x)
Moved-at j id x a b here st = elim (Bool-cases (j == id)) [
  | inl same ↦ rw (same, here (ground arith)) (inr st)
  | inr other ↦ rw other (Moved-refl x)
]

Moved-new :
    (j id : ℕ) (x : Option Application) (candidate : UserKey) (dto : CreateDto)
    → (j ≡ id → x ≡ none)
    → Moved x (if j == id then some (drafted candidate dto) else x)
Moved-new j id x candidate dto free = elim (Bool-cases (j == id)) [
  | inl same ↦ rw (same, free (ground arith)) (candidate, dto, refl)
  | inr other ↦ rw other (Moved-refl x)
]

module _ (prisma : Prisma) (env : Env) (s : Store) (j : ℕ) where
  abbrev row : Store → Option Application
  row t = prisma.application.find_unique j t.applications

  create-Moved :
      (new_id : ℕ) (candidate : UserKey) (dto : CreateDto)
      → Moved (row s) (row (create prisma new_id candidate dto s).1)
  create-Moved new_id candidate dto = elim (create_cases prisma new_id candidate dto s) [
    | inl (e, failed) ↦ rw failed (Moved-refl (row s))
    | inr (target, inl r) ↦ rw r.result (
        rw (restore_row prisma new_id candidate dto s r j) (
          Moved-at j r.id (row s) r.old _
            (λ e.
              rw e
                (prisma.application.find_first-sound (of_pair dto.opportunity_id candidate)
                  s.applications r.id r.old r.found).0)
            (Step.restores dto r.withdrawn refl)))
    | inr (target, inr i) ↦ rw i.result (
        rw
          (prisma.application.find_unique-create (of_pair dto.opportunity_id candidate) new_id
            (drafted candidate dto) s.applications i.table j i.stored)
          (Moved-new j new_id (row s) candidate dto λ e. rw e (
            prisma.application.create-fresh (of_pair dto.opportunity_id candidate) new_id
              (drafted candidate dto) s.applications i.table i.stored)))
  ]

  update-Moved :
      (id : ℕ) (candidate : UserKey) (dto : UpdateDto)
      → Moved (row s) (row (update prisma id candidate dto s).1)
  update-Moved id candidate dto = elim (update_cases prisma id candidate dto s) [
    | inl (e, failed) ↦ rw failed (Moved-refl (row s))
    | inr (a, m, served) ↦ rw served (
        rw (update_row prisma id candidate dto s a j m)
          (Moved-at j id (row s) a _ (λ e. rw e m.found) (Step.edits dto m.unsent refl)))
  ]

  submit-Moved :
      (id : ℕ) (candidate : UserKey) → Moved (row s) (row (submit prisma env id candidate s).1)
  submit-Moved id candidate = elim (submit_cases prisma env id candidate s) [
    | inl (e, failed) ↦ rw failed (Moved-refl (row s))
    | inr (a, o, m) ↦
        rw ((submit_effect prisma env id candidate s a o m).0 j)
          (Moved-at j id (row s) a _ (λ e. rw e m.found) (Step.submits env.now m.unsent refl))
  ]

  review-Moved :
      (id : ℕ) (owner : UserKey) (dto : ReviewDto)
      → Moved (row s) (row (review prisma env id owner dto s).1)
  review-Moved id owner dto = elim (review_cases prisma env id owner dto s) [
    | inl (e, failed) ↦ rw failed (Moved-refl (row s))
    | inr (a, o, m) ↦ rw ((review_effect prisma env id owner dto s a o m).0 j) (
        Moved-at j id (row s) a _ (λ e. rw e m.found)
          (Step.reviews env.now dto m.live m.allowed refl))
  ]

  withdraw-Moved :
      (id : ℕ) (candidate : UserKey) → Moved (row s) (row (withdraw prisma env id candidate s).1)
  withdraw-Moved id candidate = elim (withdraw_cases prisma env id candidate s) [
    | inl (e, failed) ↦ rw failed (Moved-refl (row s))
    | inr (a, m) ↦
        rw ((withdraw_effect prisma env id candidate s a m).0 j) (
          Moved-at j id (row s) a _ (λ e. rw e m.found)
            (Step.withdraws env.now m.live m.early refl))
  ]

  -- A request leaves each row of the applications alone, moves it by one step of the life cycle, or
  -- inserts it as a new draft; it never removes one.
  pub handle-Moved : (r : Request) → Moved (row s) (row (handle prisma env r s))
  unfolding handle
  handle-Moved (creates new_id candidate dto) = create-Moved new_id candidate dto
  handle-Moved (updates id candidate dto) = update-Moved id candidate dto
  handle-Moved (submits id candidate) = submit-Moved id candidate
  handle-Moved (reviews id owner dto) = review-Moved id owner dto
  handle-Moved (withdraws id candidate) = withdraw-Moved id candidate
