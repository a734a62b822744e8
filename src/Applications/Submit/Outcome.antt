-- ===== src/Applications/Submit/Outcome.antt =====
-- What `submit` asks for, and what it does on success and on failure.
use south_connect.Prelude.{
  ℕ, ◌≡◌, refl, ◌≢◌, ◌⊎◌, inl, inr, true, false, Option, none, some, arith, ◌==◌, Option-cases,
  Bool-cases, ap,
}
use south_connect.Action.{ok, err, Result, bad_request, HttpError}
use south_connect.Database.Keyed.{at, holds, count-at}
use south_connect.Schema.{
  UserKey, Application, draft, Opportunity, ReferralCode, ReferralStatus, OpportunityStatus, Store,
  Prisma, Text, truthy,
}
use south_connect.Applications.Stages.{Env}
use south_connect.Applications.Submit.{
  submit_check, submit_commit, submit_notify, submit_counters, submit, mark_submitted, submittable,
  of_code, is_past, check_referral,
}

-- What a referral code must satisfy where one is used: it exists, is active, is another user's, and
-- is not bound to another opportunity.
abbrev pub CodeFits : Prisma → UserKey → ℕ → Option Text → Store → Type 0
CodeFits prisma candidate opportunity none s = Unit
CodeFits prisma candidate opportunity (some code) s =
    (code ≡ 0)
    ⊎ ((k : ℕ) × (r : ReferralCode) × (prisma.referral_code.find_first (of_code code)
            s.referral_codes
          ≡ some (k, r))
        × (r.status ≡ ReferralStatus.active)
        × (r.owner_id ≢ candidate)
        × ((truthy r.opportunity_id ≡ false) ⊎ (r.opportunity_id ≡ some opportunity)))

-- What `submit` asks for.
pub record MaySubmit (prisma : Prisma) (now id : ℕ) (candidate : UserKey) (s : Store)
    (a : Application) (o : Opportunity) : Type 0 where
  pub found : prisma.application.find_unique id s.applications ≡ some a
  pub joined : prisma.opportunity.find_unique a.opportunity_id s.opportunities ≡ some o
  pub mine : a.candidate_id ≡ candidate
  pub unsent : a.stage ≡ draft
  pub kept : o.deleted_at ≡ none
  pub published : o.status ≡ OpportunityStatus.active
  pub in_time : is_past now o.expiration_date ≡ false
  pub code : CodeFits prisma candidate a.opportunity_id a.referral_code_used s

module _ (prisma : Prisma) where
  check_referral-state :
      (candidate : UserKey) (opportunity : ℕ) (code : Option ℕ) (s : Store)
      → (check_referral prisma candidate opportunity code s).1 ≡ s
  unfolding check_referral
  check_referral-state candidate opportunity none s = refl
  check_referral-state candidate opportunity (some code) s = ground arith

  check_referral_sound :
      (candidate : UserKey) (opportunity : ℕ) (code : Option ℕ) (s : Store)
      → (check_referral prisma candidate opportunity code s).0 ≡ ok tt
      → CodeFits prisma candidate opportunity code s
  unfolding check_referral
  check_referral_sound candidate opportunity none s h = tt
  check_referral_sound candidate opportunity (some code) s h = elim (Bool-cases (code == 0)) [
    | inl empty ↦ inl (ground arith)
    | inr given ↦
        elim (Option-cases (prisma.referral_code.find_first (of_code code) s.referral_codes)) [
          | inl missing ↦ absurd (ground arith)
          | inr ((k, r), found) ↦ inr (k, r, found, ground arith, ground arith, ground arith)
        ]
  ]

  check_referral_complete :
      (candidate : UserKey) (opportunity : ℕ) (code : Option ℕ) (s : Store)
      → CodeFits prisma candidate opportunity code s
      → (check_referral prisma candidate opportunity code s).0 ≡ ok tt
  unfolding check_referral
  check_referral_complete candidate opportunity none s h = refl
  check_referral_complete candidate opportunity (some code) s h = ground arith

  -- The checks only read.
  pub submit_check-state :
      (now id : ℕ) (candidate : UserKey) (s : Store)
      → (submit_check prisma now id candidate s).1 ≡ s
  unfolding submit_check
  submit_check-state now id candidate s = grind (arith, check_referral-state)

  pub submit_check_sound :
      (now id : ℕ) (candidate : UserKey) (s : Store) (a : Application) (o : Opportunity)
      → (submit_check prisma now id candidate s).0 ≡ ok (a, o)
      → MaySubmit prisma now id candidate s a o
  unfolding submit_check
  submit_check_sound now id candidate s a o h =
      ground (arith, check_referral_sound candidate a.opportunity_id a.referral_code_used s)

  pub submit_check_complete :
      (now id : ℕ) (candidate : UserKey) (s : Store) (a : Application) (o : Opportunity)
      → MaySubmit prisma now id candidate s a o
      → submit_check prisma now id candidate s ≡ (ok (a, o), s)
  unfolding submit_check
  submit_check_complete now id candidate s a o m = ground (
    arith,
    check_referral_complete candidate a.opportunity_id a.referral_code_used s,
    check_referral-state candidate a.opportunity_id a.referral_code_used s,
  )

  abbrev pub committed : ℕ → ℕ → UserKey → Store → Store
  committed now id candidate s = record s {
    applications =
        prisma.application.update_many (at id (submittable candidate)) (mark_submitted now)
          s.applications;
  }

  -- The write succeeds exactly where the row is still the candidate's draft.
  pub submit_commit_ok :
      (now id : ℕ) (candidate : UserKey) (s : Store)
      → holds (submittable candidate) (prisma.application.find_unique id s.applications) ≡ true
      → submit_commit prisma now id candidate s ≡ (ok tt, committed now id candidate s)
  unfolding submit_commit
  submit_commit_ok now id candidate s h =
      ground (arith, h, count-at prisma.application id (submittable candidate) s.applications)

  pub submit_commit_err :
      (now id : ℕ) (candidate : UserKey) (s : Store)
      → holds (submittable candidate) (prisma.application.find_unique id s.applications) ≡ false
      → submit_commit prisma now id candidate s ≡ (err bad_request, committed now id candidate s)
  unfolding submit_commit
  submit_commit_err now id candidate s h =
      ground (arith, h, count-at prisma.application id (submittable candidate) s.applications)

  -- What a successful call leaves, all fields at once.
  unfoldable pub submit_done : Env → ℕ → UserKey → Application → Opportunity → Store → Store
  submit_done env id candidate a o s =
      submit_notify prisma env o (submit_counters prisma env a (committed env.now id candidate s))

  pub submit_complete :
      (env : Env) (id : ℕ) (candidate : UserKey) (s : Store) (a : Application) (o : Opportunity)
      → MaySubmit prisma env.now id candidate s a o
      → submit prisma env id candidate s ≡ (ok id, submit_done env id candidate a o s)
  unfolding submit submit_done
  submit_complete env id candidate s a o m = ground (
    arith,
    submit_check_complete env.now id candidate s a o m,
    submit_commit_ok env.now id candidate s,
  )

  submit_check-err :
      (now id : ℕ) (candidate : UserKey) (s : Store)
      → ((e : HttpError) × (submit_check prisma now id candidate s ≡ (err e, s)))
        ⊎ ((a : Application) × (o : Opportunity) × MaySubmit prisma now id candidate s a o)
  submit_check-err now id candidate s = go (submit_check prisma now id candidate s) refl
    where
      go :
          (r : Result (Application × Opportunity) × Store)
          → submit_check prisma now id candidate s ≡ r
          → ((e : HttpError) × (submit_check prisma now id candidate s ≡ (err e, s)))
            ⊎ ((a : Application) × (o : Opportunity) × MaySubmit prisma now id candidate s a o)
      go (err e, t) h = inl (e, ground (arith, submit_check-state now id candidate s))
      go (ok (a, o), t) h = inr (a, o, submit_check_sound now id candidate s a o (ap (λ x. x.0) h))

  pub submit_cases :
      (env : Env) (id : ℕ) (candidate : UserKey) (s : Store)
      → ((e : HttpError) × (submit prisma env id candidate s ≡ (err e, s)))
        ⊎ ((a : Application) × (o : Opportunity) × MaySubmit prisma env.now id candidate s a o)
  unfolding submit
  submit_cases env id candidate s = elim (submit_check-err env.now id candidate s) [
    | inl (e, h) ↦ inl (e, ground (arith, h))
    | inr m ↦ inr m
  ]
