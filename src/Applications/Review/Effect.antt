-- ===== src/Applications/Review/Effect.antt =====
-- The store after a review, read through the clients.
use south_connect.Prelude.{
  ℕ, ◌≡◌, ◌↔◌, inl, inr, not, ◌&&◌, Option, none, some, arith, ◌==◌, if◌then◌else◌, ap,
}
use south_connect.Action.{ok, err, HttpError}
use south_connect.Schema.{
  UserKey, Application, ApplicationStage, Opportunity, ReferralCode, ReferralStatus, Store, Prisma,
  success,
}
use south_connect.Database.Keyed.{at}
use south_connect.Applications.Stages.{Env, is_live, same_stage}
use south_connect.Applications.Review.{
  ReviewDto, review, reviewed, complete_code, open_code, complete,
}
use south_connect.Applications.Review.Outcome.{
  MayReview, review_cases, review_complete, review_done, rewritten,
}

-- The referral code of an accepted application is completed; every other code is left alone.
abbrev pub code_after : ApplicationStage → Option ℕ → ReferralCode → ReferralCode
code_after stage none r = r
code_after stage (some code) r =
    if (same_stage stage success && not (code == 0)) && (r.code == code)
    then record r { status = ReferralStatus.completed }
    else r

abbrev pub after_code : ApplicationStage → Option ℕ → Option ReferralCode → Option ReferralCode
after_code stage code none = none
after_code stage code (some r) = some (code_after stage code r)

module _ (prisma : Prisma) where
  pub complete_code-others :
      (stage : ApplicationStage) (code : Option ℕ) (t : Store)
      → ((complete_code prisma stage code t).applications ≡ t.applications)
        × ((complete_code prisma stage code t).opportunities ≡ t.opportunities)
  unfolding complete_code
  complete_code-others stage none t = ground arith
  complete_code-others stage (some code) t = ground arith

  complete_code-codes :
      (stage : ApplicationStage) (code : Option ℕ) (t : Store) (j : ℕ)
      → prisma.referral_code.find_unique j (complete_code prisma stage code t).referral_codes
        ≡ after_code stage code (prisma.referral_code.find_unique j t.referral_codes)
  unfolding complete_code
  complete_code-codes stage none t j = ground arith
  complete_code-codes stage (some code) t j = ground (
    arith,
    prisma.referral_code.find_unique-update_many j (open_code code) complete t.referral_codes,
  )

module _ (prisma : Prisma) (env : Env) (id : ℕ) (owner : UserKey) (dto : ReviewDto)
    (s : Store) where
  -- A review succeeds exactly where its conditions hold: the application is not withdrawn, the
  -- caller owns its opportunity, and the table of transitions leads from its stage to the new one.
  pub review-ok_iff :
      ((review prisma env id owner dto s).0 ≡ ok id)
      ↔ ((a : Application) × (o : Opportunity) × MayReview prisma id owner dto s a o)
  review-ok_iff =
      (sound, λ (a, o, m). ap (λ r. r.0) (review_complete prisma env id owner dto s a o m))
    where
      sound :
          (review prisma env id owner dto s).0 ≡ ok id
          → (a : Application) × (o : Opportunity) × MayReview prisma id owner dto s a o
      sound h = elim (review_cases prisma env id owner dto s) [
        | inl (e, failed) ↦ cc (ap (λ r. r.0) failed)
        | inr m ↦ m
      ]

  -- A refused review leaves the database and the calls as they were.
  pub review_atomic :
      (e : HttpError)
      → (review prisma env id owner dto s).0 ≡ err e
      → (review prisma env id owner dto s).1 ≡ s
  review_atomic e h = elim (review_cases prisma env id owner dto s) [
    | inl (e', failed) ↦ ap (λ r. r.1) failed
    | inr (a, o, m) ↦ cc (ap (λ r. r.0) (review_complete prisma env id owner dto s a o m))
  ]

  -- A successful review gives the application the requested stage and the owner's feedback, and
  -- touches no other application and no opportunity; if it accepts an application that names a
  -- referral code, that code is completed, and no other code changes.
  pub review_effect :
      (a : Application) (o : Opportunity)
      → MayReview prisma id owner dto s a o
      → let t = (review prisma env id owner dto s).1 in
        ((j : ℕ)
          → prisma.application.find_unique j t.applications ≡ (
              if j == id
              then some (reviewed env.now dto a)
              else prisma.application.find_unique j s.applications))
        × (t.opportunities ≡ s.opportunities)
        × ((j : ℕ)
            → prisma.referral_code.find_unique j t.referral_codes
              ≡ after_code dto.stage a.referral_code_used
                  (prisma.referral_code.find_unique j s.referral_codes))
  unfolding review_done rewritten
  review_effect a o m = rw (review_complete prisma env id owner dto s a o m) (
      rw ((complete_code-others prisma dto.stage a.referral_code_used _).0) (
        λ j. ground (
          arith,
          m.found,
          prisma.application.find_unique-update_many j (at id is_live) (reviewed env.now dto)
              s.applications,
        ),
        (complete_code-others prisma dto.stage a.referral_code_used _).1,
        λ j. complete_code-codes prisma dto.stage a.referral_code_used _ j,
      ))
