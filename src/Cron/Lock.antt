-- ===== src/Cron/Lock.antt =====
-- `acquireLock`, `releaseLock` and `withLock`, as several instances of the server run them.
use south_connect.Prelude.{
  ℕ, ◌+◌, ◌*◌, ◌≤◌, ◌<◌, ◌≡◌, inl, inr, Bool, true, false, not, none, some, List, [], ◌∷◌, all,
  arith, ltb, ◌==◌, ◌||◌, if◌then◌else◌, Bool-cases, Option-cases,
}
use south_connect.Redis.{Redis, Entries, Key, cron_lock, set_nx}
use south_connect.Opportunities.Views.{Link, working}

-- A job by its number.
abbrev pub lock_key : ℕ → Key
lock_key job = record { prefix = cron_lock; part = job; rest = 0 }

pub data Step : Type 0 where
  asks : (now job ttl : ℕ) → Step
  releases : (job : ℕ) → Step

-- No release of this job's lock, and no request for it that comes after it has expired.
abbrev pub spares : (job until : ℕ) → Step → Bool
spares job until (asks now other ttl) = not (job == other) || ltb now until
spares job until (releases other) = not (job == other)

module _ (redis : Redis) where
  -- Without Redis, or where it fails, the job runs.
  unfoldable pub acquire_lock : Link → (now : ℕ) → ℕ → (ttl : ℕ) → Entries → Bool × Entries
  acquire_lock working now job ttl e = set_nx redis now (lock_key job) 1 ttl e
  acquire_lock _ now job ttl e = (true, e)

  -- The key is deleted, whoever has set it.
  unfoldable pub release_lock : Link → ℕ → Entries → Entries
  release_lock working job e = redis.del (lock_key job) e
  release_lock _ job e = e

  -- `withLock`, for a job that runs from `now` and ends before anything else happens.
  unfoldable pub with_lock :
      {S : Type 0} → Link → (now : ℕ) → ℕ → (ttl : ℕ) → (S → S) → Entries × S → Entries × S
  with_lock link now job ttl fn (e, s) =
      let (acquired, held) = acquire_lock link now job ttl e in
      if acquired then (release_lock link job held, fn s) else (held, s)

  -- What several instances do to the locks, in any order.
  abbrev pub act : Step → Entries → Entries
  act (asks now job ttl) e = (acquire_lock working now job ttl e).1
  act (releases job) e = release_lock working job e

  abbrev pub acts : List Step → Entries → Entries
  acts [] e = e
  acts (x ∷ rest) e = acts rest (act x e)

  abbrev Held : (job until : ℕ) → Entries → Type 0
  Held job until e = (t : ℕ) → redis.get t (lock_key job) e ≡ (if ltb t until then some 1 else none)

  act-Held :
      (x : Step) (job until : ℕ) (e : Entries)
      → spares job until x ≡ true
      → Held job until e
      → Held job until (act x e)
  unfolding acquire_lock release_lock
  act-Held (asks now other ttl) job until e spared held t =
      elim (Option-cases (redis.get now (lock_key other) e)) [
        | inr (v, taken) ↦ ground (arith, taken, held t)
        | inl free ↦ ground (
          arith,
          free,
          spared,
          held t,
          held now,
          redis.get-set now t (lock_key other) (lock_key job) 1 ttl e,
        )
      ]
  act-Held (releases other) job until e spared held t =
      ground (arith, spared, held t, redis.get-del t (lock_key other) (lock_key job) e)

  acts-Held :
      (steps : List Step) (job until : ℕ) (e : Entries)
      → all (spares job until) steps ≡ true
      → Held job until e
      → Held job until (acts steps e)
  acts-Held [] job until e spared held = held
  acts-Held (x ∷ rest) job until e spared held =
      acts-Held rest job until (act x e) (ground (arith, spared))
        (act-Held x job until e (ground (arith, spared)) held)

  won-Held :
      (now job ttl : ℕ) (e : Entries)
      → (acquire_lock working now job ttl e).0 ≡ true
      → Held job (now + ttl * 1000) (acquire_lock working now job ttl e).1
  unfolding acquire_lock
  won-Held now job ttl e won t =
      let k = lock_key job in
      elim (Option-cases (redis.get now k e)) [
        | inr (v, taken) ↦ ground (arith, won, taken)
        | inl free ↦ ground (arith, free, redis.get-set now t k k 1 ttl e)
      ]

  next_asks :
      (later job again until : ℕ) (e : Entries)
      → Held job until e
      → ((acquire_lock working later job again e).0 ≡ not (ltb later until))
        × ((acquire_lock working later job again (release_lock working job e)).0 ≡ true)
  unfolding acquire_lock release_lock
  next_asks later job again until e held =
      let k = lock_key job in
      (
        elim (Bool-cases (ltb later until)) [
          | inl early ↦ ground (arith, early, held later)
          | inr late ↦ ground (arith, late, held later)
        ],
        ground (arith, redis.get-del later k k e),
      )

  -- Where Redis works: an instance wins a lock, and then any instances ask for locks and release them,
  -- but for releases of this one, and requests for this one after it has expired. Whoever asks for it
  -- next wins it exactly if it has expired, and wins it in any case once it is released.
  pub acquire_lock-exclusive :
      (now later job ttl again : ℕ) (steps : List Step) (e : Entries)
      → (acquire_lock working now job ttl e).0 ≡ true
      → all (spares job (now + ttl * 1000)) steps ≡ true
      → let held = acts steps (acquire_lock working now job ttl e).1 in
        ((acquire_lock working later job again held).0 ≡ not (ltb later (now + ttl * 1000)))
        × ((acquire_lock working later job again (release_lock working job held)).0 ≡ true)
  acquire_lock-exclusive now later job ttl again steps e won spared =
      let first = (acquire_lock working now job ttl e).1 in
      let held = acts-Held steps job (now + ttl * 1000) first spared (won-Held now job ttl e won) in
      next_asks later job again (now + ttl * 1000) (acts steps first) held

  -- When a job outlives its lock, so that a second instance has won it in the meantime, the release
  -- at the end of the first job lets a third instance in, though the second one's lock has not
  -- expired.
  pub release_lock-late :
      (now second third job ttl : ℕ) (e : Entries)
      → (acquire_lock working now job ttl e).0 ≡ true
      → now + ttl * 1000 ≤ second
      → third < second + ttl * 1000
      → let first_held = (acquire_lock working now job ttl e).1 in
        let second_held = acquire_lock working second job ttl first_held in
        (second_held.0 ≡ true)
        × ((acquire_lock working third job ttl second_held.1).0 ≡ false)
        × ((acquire_lock working third job ttl (release_lock working job second_held.1)).0 ≡ true)
  unfolding acquire_lock release_lock
  release_lock-late now second third job ttl e won late early =
      let k = lock_key job in
      elim (Option-cases (redis.get now k e)) [
        | inr (v, taken) ↦ ground (arith, won, taken)
        | inl free ↦
            let expired : redis.get second k (redis.set now k 1 ttl e) ≡ none =
              ground (arith, late, redis.get-set now second k k 1 ttl e) in
            let again = redis.set second k 1 ttl (redis.set now k 1 ttl e) in
            let held : redis.get third k again ≡ some 1 =
              ground
                (arith, early, redis.get-set second third k k 1 ttl (redis.set now k 1 ttl e)) in
            (
              ground (arith, free, expired),
              ground (arith, free, expired, held),
              ground (arith, free, expired, held, redis.get-del third k k again),
            )
      ]
