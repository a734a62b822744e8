-- ===== src/Applications/Submit/Effect.antt =====
-- The store after a submission, read through the clients.
use south_connect.Prelude.{
  ℕ, ◌≡◌, refl, ◌↔◌, inl, inr, Option, none, some, arith, ◌==◌, if◌then◌else◌, ap, Bool-cases,
}
use south_connect.Action.{ok, err, HttpError}
use south_connect.Schema.{UserKey, Application, Opportunity, Store, Prisma}
use south_connect.Database.Keyed.{at, always}
use south_connect.Applications.Stages.{Env, count_one_more}
use south_connect.Applications.Submit.{
  submit, submit_counters, mark_submitted, submittable, count_code_use,
}
use south_connect.Applications.Submit.Outcome.{
  MaySubmit, submit_cases, submit_complete, submit_done, committed,
}

module _ (prisma : Prisma) (env : Env) (id : ℕ) (candidate : UserKey) (s : Store) where
  -- A submission succeeds exactly where its conditions hold: the application exists, is a draft of
  -- the caller, its opportunity is not deleted, is active and not past its deadline, and a
  -- referral code that it names exists, is active, is another user's and fits the opportunity.
  pub submit-ok_iff :
      ((submit prisma env id candidate s).0 ≡ ok id)
      ↔ ((a : Application) × (o : Opportunity) × MaySubmit prisma env.now id candidate s a o)
  submit-ok_iff = (sound, complete)
    where
      sound :
          (submit prisma env id candidate s).0 ≡ ok id
          → (a : Application) × (o : Opportunity) × MaySubmit prisma env.now id candidate s a o
      sound h = elim (submit_cases prisma env id candidate s) [
        | inl (e, failed) ↦ cc (ap (λ r. r.0) failed)
        | inr m ↦ m
      ]

      complete :
          ((a : Application) × (o : Opportunity) × MaySubmit prisma env.now id candidate s a o)
          → (submit prisma env id candidate s).0 ≡ ok id
      complete (a, o, m) = ap (λ r. r.0) (submit_complete prisma env id candidate s a o m)

  -- A refused submission leaves the database and the calls as they were.
  pub submit_atomic :
      (e : HttpError)
      → (submit prisma env id candidate s).0 ≡ err e
      → (submit prisma env id candidate s).1 ≡ s
  submit_atomic e h = elim (submit_cases prisma env id candidate s) [
    | inl (e', failed) ↦ ap (λ r. r.1) failed
    | inr (a, o, m) ↦ cc (ap (λ r. r.0) (submit_complete prisma env id candidate s a o m))
  ]

  count_code_use-applications :
      (code : Option ℕ) (t : Store)
      → ((count_code_use prisma code t).applications ≡ t.applications)
        × ((count_code_use prisma code t).opportunities ≡ t.opportunities)
  unfolding count_code_use
  count_code_use-applications none t = ground arith
  count_code_use-applications (some code) t = ground arith

  pub done-applications :
      (a : Application) (o : Opportunity)
      → (submit_done prisma env id candidate a o s).applications
        ≡ (committed prisma env.now id candidate s).applications
  unfolding submit_done submit_counters
  done-applications a o = elim (Bool-cases env.counters_ok) [
    | inl counted ↦
        rw (counted, submit_counters) (count_code_use-applications a.referral_code_used _).0
    | inr lost ↦ rw (lost, submit_counters) refl
  ]

  done-opportunities :
      (a : Application) (o : Opportunity)
      → (submit_done prisma env id candidate a o s).opportunities ≡ (
          if env.counters_ok
          then prisma.opportunity.update_many
              (at a.opportunity_id always)
              count_one_more
              s.opportunities
          else s.opportunities)
  unfolding submit_done submit_counters
  done-opportunities a o = elim (Bool-cases env.counters_ok) [
    | inl counted ↦
        rw (counted, submit_counters) (count_code_use-applications a.referral_code_used _).1
    | inr lost ↦ rw (lost, submit_counters) refl
  ]

  -- A successful submission turns the caller's draft into a submitted application, dated now,
  -- touches no other application, and adds one to the counter of its opportunity alone if the
  -- counters' transaction commits.
  pub submit_effect :
      (a : Application) (o : Opportunity)
      → MaySubmit prisma env.now id candidate s a o
      → let t = (submit prisma env id candidate s).1 in
        ((j : ℕ)
          → prisma.application.find_unique j t.applications ≡ (
              if j == id
              then some (mark_submitted env.now a)
              else prisma.application.find_unique j s.applications))
        × ((j : ℕ)
            → prisma.opportunity.find_unique j t.opportunities ≡ (
                if j == a.opportunity_id
                then some (if env.counters_ok then count_one_more o else o)
                else prisma.opportunity.find_unique j s.opportunities))
  submit_effect a o m = rw (submit_complete prisma env id candidate s a o m) (
      rw (done-applications a o) (
        rw (done-opportunities a o) (
          λ j. ground (
            arith,
            m.found,
            prisma.application.find_unique-update_many j (at id (submittable candidate))
                (mark_submitted env.now) s.applications,
          ),
          λ j. ground (
            arith,
            m.joined,
            prisma.opportunity.find_unique-update_many j (at a.opportunity_id always) count_one_more
                s.opportunities,
          ),
        )))
