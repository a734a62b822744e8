-- ===== src/Opportunities/Feed/Cache/Traced.antt =====
-- Where the copies of the cached feed come from, and how old an answer can be.
use south_connect.Prelude.{
  same_list, same_list_sound, ◌≡◌, ◌⊎◌, ◌≤◌, ◌<◌, ◌+◌, ℕ, zero, suc, refl, sym, ap, ◌∙◌, subst, inl,
  inr, true, Bool, ltb, Option, none, some, List, [], ◌∷◌, arith, some_injective, Bool-cases,
  Option-cases,
}
use south_connect.Pages.{get_elem?}
use south_connect.Schema.{UserKey, Store, Prisma}
use south_connect.Opportunities.Views.{Link, missing, failing, working}
use south_connect.Opportunities.Feed.{ListDto, Texts, FindMany, Envelope, from_database}
use south_connect.Opportunities.Feed.Cache.{
  Cached, lifetime, read_copy, feed_key, is_cacheable, store_copy, arrive, envelope_of, find_all,
}
use south_connect.Opportunities.Feed.Cache.Events.{
  Event, asks, arrives, drops, time_of, in_order, step, run, empty, state_at, is_good, all_good,
}

-- A copy that is read has not expired.
read_held :
    (link : Link) (now : ℕ) (held : Option (ℕ × Envelope)) (e : Envelope)
    → read_copy link now held ≡ some e
    → (until : ℕ) × (held ≡ some (until, e)) × (now < until)
read_held missing now held e h = ground (arith, h)
read_held failing now held e h = ground (arith, h)
read_held working now none e h = ground (arith, h)
read_held working now (some (until, f)) e h = elim (Bool-cases (ltb now until)) [
  | inr expired ↦ ground (arith, h, expired)
  | inl valid ↦ (
    until,
    ap (λ (x : Envelope). some (until, x)) (some_injective (sym (rw valid refl) ∙ h)),
    ground (arith, valid),
  )
]

module _ (prisma : Prisma) (texts : Texts) (find_many : FindMany) (history : ℕ → Store) where
  module _ (good : ListDto → Bool) where
    -- What the database answered to a good request with this key, at a time up to the limit.
    record Issued (limit : ℕ) (key : List ℕ) (e : Envelope) : Type 0 where
      pub dto : ListDto
      pub read_at : ℕ
      pub was_good : good dto ≡ true
      pub same_key : feed_key prisma texts find_many dto ≡ key
      pub in_time : read_at ≤ limit
      pub answer : e ≡ from_database prisma texts find_many dto (history read_at)

    record Copy (limit : ℕ) (key : List ℕ) (until : ℕ) (e : Envelope) : Type 0 where
      pub stored_at : ℕ
      pub issued : Issued stored_at key e
      pub in_time : stored_at ≤ limit
      pub expires : until ≡ stored_at + lifetime

    record Traced (limit : ℕ) (c : Cached) : Type 0 where
      pub copied :
          (key : List ℕ) (until : ℕ) (e : Envelope)
          → c.copies key ≡ some (until, e)
          → Copy limit key until e
      pub written :
          (n : ℕ) (key : List ℕ) (e : Envelope)
          → get_elem? c.writes n ≡ some (key, e)
          → Issued limit key e

    later-Issued :
        (limit more : ℕ) (key : List ℕ) (e : Envelope)
        → limit ≤ more
        → Issued limit key e
        → Issued more key e
    later-Issued limit more key e more_time i = record {
      dto = i.dto;
      read_at = i.read_at;
      was_good = i.was_good;
      same_key = i.same_key;
      in_time = omega (arith, i.in_time, more_time);
      answer = i.answer;
    }

    later-Traced : (limit more : ℕ) (c : Cached) → limit ≤ more → Traced limit c → Traced more c
    later-Traced limit more c more_time traced = record {
      copied = λ key until e held.
          let copy = traced.copied key until e held in
          record {
            stored_at = copy.stored_at;
            issued = copy.issued;
            in_time = omega (arith, copy.in_time, more_time);
            expires = copy.expires;
          };
      written =
          λ n key e sent. later-Issued limit more key e more_time (traced.written n key e sent);
    }

    first-Issued :
        (limit : ℕ) (key' : List ℕ) (e' : Envelope) (sent : List (List ℕ × Envelope))
        → Issued limit key' e'
        → ((n : ℕ) (key : List ℕ) (e : Envelope)
            → get_elem? sent n ≡ some (key, e)
            → Issued limit key e)
        → (n : ℕ) (key : List ℕ) (e : Envelope) → get_elem? ((key', e') ∷ sent) n ≡ some (key, e)
        → Issued limit key e
    unfolding get_elem?
    first-Issued limit key' e' sent i rest zero key e h =
        subst (λ (x : List ℕ × Envelope). Issued limit x.0 x.1) (some_injective h) i
    first-Issued limit key' e' sent i rest (suc n) key e h = rest n key e h

    asks-Traced :
        (link : Link) (now : ℕ) (dto : ListDto) (requester : Option UserKey) (c : Cached)
        → is_good prisma texts find_many history good (asks link now dto requester) ≡ true
        → Traced now c
        → Traced now (step prisma texts find_many history (asks link now dto requester) c)
    unfolding find_all
    asks-Traced link now dto requester c fine traced =
        let k = feed_key prisma texts find_many dto in
        let s = record c { store = history now } in
        let e = from_database prisma texts find_many dto (history now) in
        let asked =
          λ (x : Envelope × Cached) (is_x : envelope_of prisma texts find_many link now dto s ≡ x)
              (good_x : Traced now x.1).
            subst (λ (x : Envelope × Cached). Traced now x.1) (sym is_x) good_x in
        elim (Bool-cases (is_cacheable prisma texts find_many link dto)) [
          | inr never ↦
              asked (e, s) (rw never refl)
                (record { copied = traced.copied; written = traced.written })
          | inl cached ↦ elim (Option-cases (read_copy link now (c.copies k))) [
            | inr (f, held) ↦
                asked (f, s) (rw (cached, held) refl)
                  (record { copied = traced.copied; written = traced.written })
            | inl absent ↦
                asked (e, record s { writes = (k, e) ∷ c.writes }) (rw (cached, absent) refl)
                  (record {
                    copied = traced.copied;
                    written =
                        first-Issued now k e c.writes
                          (record {
                            dto = dto;
                            read_at = now;
                            was_good = ground (arith, fine, cached);
                            same_key = refl;
                            in_time = omega arith;
                            answer = refl;
                          })
                          traced.written;
                  })
          ]
        ]

    store-Traced :
        (at : ℕ) (key' : List ℕ) (e' : Envelope) (c : Cached)
        → Issued at key' e'
        → Traced at c
        → Traced at (store_copy prisma texts find_many at (some (key', e')) c)
    store-Traced at key' e' c i traced = record {
      copied = λ key until e held. elim (Bool-cases (same_list key key')) [
        | inr other ↦ traced.copied key until e (ground (arith, held, other))
        | inl same ↦
            let both : ◌≡◌ {A = ℕ × Envelope} (at + lifetime, e') (until, e) =
              some_injective (ground (arith, held, same)) in
            record {
              stored_at = at;
              issued = rw (sym (ap (λ x. x.1) both), same_list_sound key key' same) i;
              in_time = omega arith;
              expires = sym (ap (λ x. x.0) both);
            }
      ];
      written = traced.written;
    }

    arrive-Traced :
        (n at : ℕ) (c : Cached)
        → Traced at c
        → Traced at (step prisma texts find_many history (arrives n at) c)
    unfolding arrive
    arrive-Traced n at c traced = elim (Option-cases (get_elem? c.writes n)) [
      | inl absent ↦
          subst (λ x. Traced at (store_copy prisma texts find_many at x c)) (sym absent) traced
      | inr ((key, e), sent) ↦
          subst (λ x. Traced at (store_copy prisma texts find_many at x c)) (sym sent)
            (store-Traced at key e c (traced.written n key e sent) traced)
    ]

    drops-Traced :
        (now : ℕ) (gone : List ℕ → Bool) (c : Cached)
        → Traced now c
        → Traced now (step prisma texts find_many history (drops now gone) c)
    drops-Traced now gone c traced = record {
      copied = λ key until e held. elim (Bool-cases (gone key)) [
        | inl dropped ↦ ground (arith, held, dropped)
        | inr kept ↦ traced.copied key until e (ground (arith, held, kept))
      ];
      written = traced.written;
    }

    step-Traced :
        (x : Event) (c : Cached)
        → is_good prisma texts find_many history good x ≡ true
        → Traced (time_of x) c
        → Traced (time_of x) (step prisma texts find_many history x c)
    step-Traced (asks link now dto requester) c fine traced =
        asks-Traced link now dto requester c fine traced
    step-Traced (arrives n at) c fine traced = arrive-Traced n at c traced
    step-Traced (drops now gone) c fine traced = drops-Traced now gone c traced

    run-Traced :
        (events : List Event) (from until : ℕ) (c : Cached)
        → in_order from events until ≡ true
        → all_good prisma texts find_many history good events ≡ true
        → Traced from c
        → Traced until (run prisma texts find_many history events c)
    unfolding run
    run-Traced [] from until c order fine traced =
        later-Traced from until c (ground (arith, order)) traced
    run-Traced (x ∷ rest) from until c order fine traced =
        run-Traced rest (time_of x) until (step prisma texts find_many history x c)
          (ground (arith, order)) (ground (arith, fine))
          (step-Traced x c (ground (arith, fine))
            (later-Traced from (time_of x) c (ground (arith, order)) traced))

    -- What the database answered to a request with the same key, at a time before the one at which
    -- the copy was stored, which is less than 45 seconds ago.
    pub record Answered (now : ℕ) (asked : ListDto) (e : Envelope) : Type 0 where
      pub dto : ListDto
      pub read_at : ℕ
      pub stored_at : ℕ
      pub was_good :
          (dto ≡ asked)
          ⊎ ((good dto ≡ true)
              × (feed_key prisma texts find_many dto ≡ feed_key prisma texts find_many asked))
      pub read_first : read_at ≤ stored_at
      pub in_time : stored_at ≤ now
      pub is_fresh : now < stored_at + lifetime
      pub answer : e ≡ from_database prisma texts find_many dto (history read_at)

    empty-Traced : Traced 0 (empty prisma texts find_many history)
    unfolding get_elem?
    empty-Traced = record {
      copied = λ key until e held. ground (arith, held);
      written = λ n key e sent. ground (arith, sent);
    }

    pub envelope_of-Answered :
        (events : List Event) (link : Link) (now : ℕ) (dto : ListDto)
        → in_order 0 events now ≡ true
        → all_good prisma texts find_many history good events ≡ true
        → Answered now dto
            (envelope_of prisma texts find_many link now dto
              (state_at prisma texts find_many history events now)).0
    envelope_of-Answered events link now dto order fine =
        let traced =
          run-Traced events 0 now (empty prisma texts find_many history) order fine empty-Traced in
        let c = run prisma texts find_many history events (empty prisma texts find_many history) in
        let k = feed_key prisma texts find_many dto in
        let s = record c { store = history now } in
        let e = from_database prisma texts find_many dto (history now) in
        let at_once : Answered now dto e = record {
          dto = dto;
          read_at = now;
          stored_at = now;
          was_good = inl refl;
          read_first = omega arith;
          in_time = omega arith;
          is_fresh = omega arith;
          answer = refl;
        } in
        let asked =
          λ (x : Envelope × Cached) (is_x : envelope_of prisma texts find_many link now dto s ≡ x)
              (good_x : Answered now dto x.0).
            subst (λ (x : Envelope × Cached). Answered now dto x.0) (sym is_x) good_x in
        elim (Bool-cases (is_cacheable prisma texts find_many link dto)) [
          | inr never ↦ asked (e, s) (rw never refl) at_once
          | inl cached ↦ elim (Option-cases (read_copy link now (c.copies k))) [
            | inl absent ↦
                asked (e, record s { writes = (k, e) ∷ c.writes }) (rw (cached, absent) refl)
                  at_once
            | inr (f, got) ↦
                let (until, held, valid) = read_held link now (c.copies k) f got in
                let copy = traced.copied k until f held in
                asked (f, s) (rw (cached, got) refl)
                  (record {
                    dto = copy.issued.dto;
                    read_at = copy.issued.read_at;
                    stored_at = copy.stored_at;
                    was_good = inr (copy.issued.was_good, copy.issued.same_key);
                    read_first = copy.issued.in_time;
                    in_time = copy.in_time;
                    is_fresh = ground (arith, valid, copy.expires);
                    answer = copy.issued.answer;
                  })
          ]
        ]
