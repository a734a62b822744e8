-- ===== src/Applications/Withdraw/Outcome.antt =====
-- What `withdraw` asks for, and what it does on success and on failure.
use south_connect.Prelude.{ℕ, ◌≡◌, refl, ◌⊎◌, inl, inr, true, false, some, arith, ap}
use south_connect.Action.{ok, err, Result, conflict, HttpError}
use south_connect.Database.Keyed.{at, always, holds, count-at, find_first-at}
use south_connect.Schema.{UserKey, Application, Store, Prisma}
use south_connect.Applications.Stages.{Env, is_live, includes}
use south_connect.Applications.Withdraw.{
  withdraw_check, withdraw_commit, withdraw_counter, withdraw, mark_withdrawn, withdrawable,
  non_withdrawable_stages,
}

-- What `withdraw` asks for.
pub record MayWithdraw (prisma : Prisma) (id : ℕ) (candidate : UserKey) (s : Store)
    (a : Application) : Type 0 where
  pub found : prisma.application.find_unique id s.applications ≡ some a
  pub live : is_live a ≡ true
  pub mine : a.candidate_id ≡ candidate
  pub early : includes non_withdrawable_stages a.stage ≡ false

module _ (prisma : Prisma) where
  withdraw_check-state :
      (id : ℕ) (candidate : UserKey) (s : Store) → (withdraw_check prisma id candidate s).1 ≡ s
  unfolding withdraw_check
  withdraw_check-state id candidate s = ground arith

  withdraw_check_sound :
      (id : ℕ) (candidate : UserKey) (s : Store) (a : Application)
      → (withdraw_check prisma id candidate s).0 ≡ ok a
      → MayWithdraw prisma id candidate s a
  unfolding withdraw_check
  withdraw_check_sound id candidate s a h =
      ground (arith, find_first-at prisma.application id is_live s.applications)

  withdraw_check_complete :
      (id : ℕ) (candidate : UserKey) (s : Store) (a : Application)
      → MayWithdraw prisma id candidate s a
      → withdraw_check prisma id candidate s ≡ (ok a, s)
  unfolding withdraw_check
  withdraw_check_complete id candidate s a m =
      ground (arith, find_first-at prisma.application id is_live s.applications)

  unfoldable pub taken_back : ℕ → ℕ → UserKey → Store → Store
  taken_back now id candidate s = record s {
    applications =
        prisma.application.update_many (at id (withdrawable candidate)) (mark_withdrawn now)
          s.applications;
  }

  pub withdraw_commit_ok :
      (now id : ℕ) (candidate : UserKey) (s : Store)
      → holds (withdrawable candidate) (prisma.application.find_unique id s.applications) ≡ true
      → withdraw_commit prisma now id candidate s ≡ (ok tt, taken_back now id candidate s)
  unfolding withdraw_commit taken_back
  withdraw_commit_ok now id candidate s h =
      ground (arith, count-at prisma.application id (withdrawable candidate) s.applications)

  -- A second withdrawal of the caller's own application is a conflict.
  pub withdraw_commit_conflict :
      (now id : ℕ) (candidate : UserKey) (s : Store) (a : Application)
      → prisma.application.find_unique id s.applications ≡ some a
      → a.candidate_id ≡ candidate
      → is_live a ≡ false
      → withdraw_commit prisma now id candidate s ≡ (err conflict, taken_back now id candidate s)
  unfolding withdraw_commit taken_back
  withdraw_commit_conflict now id candidate s a found mine dead = ground (
    arith,
    count-at prisma.application id (withdrawable candidate) s.applications,
    find_first-at prisma.application id always (taken_back now id candidate s).applications,
    prisma.application.find_unique-update_many id (at id (withdrawable candidate))
        (mark_withdrawn now) s.applications,
  )

  unfoldable pub withdraw_done : Env → ℕ → UserKey → Application → Store → Store
  withdraw_done env id candidate a s =
      withdraw_counter prisma env a (taken_back env.now id candidate s)

  pub withdraw_complete :
      (env : Env) (id : ℕ) (candidate : UserKey) (s : Store) (a : Application)
      → MayWithdraw prisma id candidate s a
      → withdraw prisma env id candidate s ≡ (ok tt, withdraw_done env id candidate a s)
  unfolding withdraw withdraw_done
  withdraw_complete env id candidate s a m =
      ground (
        arith,
        withdraw_check_complete id candidate s a m,
        withdraw_commit_ok env.now id candidate s,
      )

  pub withdraw_cases :
      (env : Env) (id : ℕ) (candidate : UserKey) (s : Store)
      → ((e : HttpError) × (withdraw prisma env id candidate s ≡ (err e, s)))
        ⊎ ((a : Application) × MayWithdraw prisma id candidate s a)
  unfolding withdraw
  withdraw_cases env id candidate s = go (withdraw_check prisma id candidate s) refl
    where
      go :
          (r : Result Application × Store)
          → withdraw_check prisma id candidate s ≡ r
          → ((e : HttpError) × (withdraw prisma env id candidate s ≡ (err e, s)))
            ⊎ ((a : Application) × MayWithdraw prisma id candidate s a)
      go (err e, t) h = inl (e, ground (arith, withdraw_check-state id candidate s))
      go (ok a, t) h = inr (a, withdraw_check_sound id candidate s a (ap (λ x. x.0) h))
