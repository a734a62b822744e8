-- ===== src/Applications/Withdraw/Effect.antt =====
-- The store after a withdrawal, read through the clients.
use south_connect.Prelude.{ℕ, ◌≡◌, ◌↔◌, inl, inr, not, ◌&&◌, some, arith, ◌==◌, if◌then◌else◌, ap}
use south_connect.Action.{ok, err, HttpError}
use south_connect.Schema.{UserKey, Application, Store, Prisma}
use south_connect.Database.Keyed.{at, always}
use south_connect.Applications.Stages.{Env, is_draft_stage, count_one_less}
use south_connect.Applications.Withdraw.{withdraw, withdraw_counter, mark_withdrawn, withdrawable}
use south_connect.Applications.Withdraw.Outcome.{
  MayWithdraw, withdraw_cases, withdraw_complete, withdraw_done, taken_back,
}

module _ (prisma : Prisma) (env : Env) (id : ℕ) (candidate : UserKey) (s : Store) where
  -- A withdrawal succeeds exactly where the application is the caller's, is not withdrawn, and has
  -- not come under the owner's review.
  pub withdraw-ok_iff :
      ((withdraw prisma env id candidate s).0 ≡ ok tt)
      ↔ ((a : Application) × MayWithdraw prisma id candidate s a)
  withdraw-ok_iff =
      (sound, λ (a, m). ap (λ r. r.0) (withdraw_complete prisma env id candidate s a m))
    where
      sound :
          (withdraw prisma env id candidate s).0 ≡ ok tt
          → (a : Application) × MayWithdraw prisma id candidate s a
      sound h = elim (withdraw_cases prisma env id candidate s) [
        | inl (e, failed) ↦ cc (ap (λ r. r.0) failed)
        | inr m ↦ m
      ]

  -- A refused withdrawal leaves the database and the calls as they were.
  pub withdraw_atomic :
      (e : HttpError)
      → (withdraw prisma env id candidate s).0 ≡ err e
      → (withdraw prisma env id candidate s).1 ≡ s
  withdraw_atomic e h = elim (withdraw_cases prisma env id candidate s) [
    | inl (e', failed) ↦ ap (λ r. r.1) failed
    | inr (a, m) ↦ cc (ap (λ r. r.0) (withdraw_complete prisma env id candidate s a m))
  ]

  -- A withdrawal dates the application's soft delete, touches no other application, and takes one
  -- from the counter of its opportunity alone if the application was past the draft and the
  -- counter's update commits.
  pub withdraw_effect :
      (a : Application)
      → MayWithdraw prisma id candidate s a
      → let t = (withdraw prisma env id candidate s).1 in
        ((j : ℕ)
          → prisma.application.find_unique j t.applications ≡ (
              if j == id
              then some (mark_withdrawn env.now a)
              else prisma.application.find_unique j s.applications))
        × (t.opportunities ≡ (
            if not (is_draft_stage a) && env.counters_ok
            then prisma.opportunity.update_many
                (at a.opportunity_id always)
                count_one_less
                s.opportunities
            else s.opportunities))
  unfolding withdraw_done taken_back withdraw_counter
  withdraw_effect a m = rw (withdraw_complete prisma env id candidate s a m) (
    λ j. ground (
      arith,
      m.found,
      prisma.application.find_unique-update_many j (at id (withdrawable candidate))
          (mark_withdrawn env.now) s.applications,
    ),
    ground arith,
  )
