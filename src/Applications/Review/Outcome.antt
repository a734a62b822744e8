-- ===== src/Applications/Review/Outcome.antt =====
-- What `review` asks for, and what it does on success and on failure.
use south_connect.Prelude.{ℕ, ◌≡◌, refl, ◌⊎◌, inl, inr, true, false, some, arith, ap, Option-cases}
use south_connect.Action.{ok, err, Result, not_found, HttpError}
use south_connect.Database.Keyed.{at, holds, count-at, find_first-at}
use south_connect.Schema.{UserKey, Application, Opportunity, Store, Prisma}
use south_connect.Applications.Stages.{Env, is_live, includes}
use south_connect.Applications.Review.{
  ReviewDto, review_check, review_commit, review_notify, review, reviewed, valid_transitions,
  complete_code,
}

-- What `review` asks for.
pub record MayReview (prisma : Prisma) (id : ℕ) (owner : UserKey) (dto : ReviewDto) (s : Store)
    (a : Application) (o : Opportunity) : Type 0 where
  pub found : prisma.application.find_unique id s.applications ≡ some a
  pub live : is_live a ≡ true
  pub joined : prisma.opportunity.find_unique a.opportunity_id s.opportunities ≡ some o
  pub mine : o.owner_id ≡ owner
  pub allowed : includes (valid_transitions a.stage) dto.stage ≡ true

module _ (prisma : Prisma) where
  pub review_check-state :
      (id : ℕ) (owner : UserKey) (dto : ReviewDto) (s : Store)
      → (review_check prisma id owner dto s).1 ≡ s
  unfolding review_check
  review_check-state id owner dto s = ground arith

  review_check_sound :
      (id : ℕ) (owner : UserKey) (dto : ReviewDto) (s : Store) (a : Application)
      → (review_check prisma id owner dto s).0 ≡ ok a
      → (o : Opportunity) × MayReview prisma id owner dto s a o
  unfolding review_check
  review_check_sound id owner dto s a h =
      elim (Option-cases (prisma.opportunity.find_unique a.opportunity_id s.opportunities)) [
        | inl missing ↦
            absurd
              (ground (arith, missing, find_first-at prisma.application id is_live s.applications))
        | inr (o, joined) ↦
            (o, ground (arith, joined, find_first-at prisma.application id is_live s.applications))
      ]

  review_check_complete :
      (id : ℕ) (owner : UserKey) (dto : ReviewDto) (s : Store) (a : Application) (o : Opportunity)
      → MayReview prisma id owner dto s a o
      → review_check prisma id owner dto s ≡ (ok a, s)
  unfolding review_check
  review_check_complete id owner dto s a o m =
      ground (arith, find_first-at prisma.application id is_live s.applications)

  unfoldable pub rewritten : ℕ → ℕ → ReviewDto → Store → Store
  rewritten now id dto s = record s {
    applications = prisma.application.update_many (at id is_live) (reviewed now dto) s.applications;
  }

  pub review_commit_ok :
      (now id : ℕ) (dto : ReviewDto) (a : Application) (s : Store)
      → holds is_live (prisma.application.find_unique id s.applications) ≡ true
      → review_commit prisma now id dto a s
        ≡ (ok tt, complete_code prisma dto.stage a.referral_code_used (rewritten now id dto s))
  unfolding review_commit rewritten
  review_commit_ok now id dto a s h =
      ground (arith, count-at prisma.application id is_live s.applications)

  -- A review that finds the application withdrawn meanwhile is rolled back.
  pub review_commit_err :
      (now id : ℕ) (dto : ReviewDto) (a : Application) (s : Store)
      → holds is_live (prisma.application.find_unique id s.applications) ≡ false
      → review_commit prisma now id dto a s ≡ (err not_found, s)
  unfolding review_commit
  review_commit_err now id dto a s h =
      ground (arith, count-at prisma.application id is_live s.applications)

  unfoldable pub review_done : Env → ℕ → ReviewDto → Application → Store → Store
  review_done env id dto a s =
      review_notify prisma env dto.stage a
        (complete_code prisma dto.stage a.referral_code_used (rewritten env.now id dto s))

  pub review_complete :
      (env : Env) (id : ℕ) (owner : UserKey) (dto : ReviewDto) (s : Store) (a : Application)
      (o : Opportunity)
      → MayReview prisma id owner dto s a o
      → review prisma env id owner dto s ≡ (ok id, review_done env id dto a s)
  unfolding review review_done
  review_complete env id owner dto s a o m =
      ground
        (arith, review_check_complete id owner dto s a o m, review_commit_ok env.now id dto a s)

  pub review_cases :
      (env : Env) (id : ℕ) (owner : UserKey) (dto : ReviewDto) (s : Store)
      → ((e : HttpError) × (review prisma env id owner dto s ≡ (err e, s)))
        ⊎ ((a : Application) × (o : Opportunity) × MayReview prisma id owner dto s a o)
  unfolding review
  review_cases env id owner dto s = go (review_check prisma id owner dto s) refl
    where
      go :
          (r : Result Application × Store)
          → review_check prisma id owner dto s ≡ r
          → ((e : HttpError) × (review prisma env id owner dto s ≡ (err e, s)))
            ⊎ ((a : Application) × (o : Opportunity) × MayReview prisma id owner dto s a o)
      go (err e, t) h = inl (e, ground (arith, review_check-state id owner dto s))
      go (ok a, t) h =
          let (o, m) = review_check_sound id owner dto s a (ap (λ x. x.0) h) in inr (a, o, m)
