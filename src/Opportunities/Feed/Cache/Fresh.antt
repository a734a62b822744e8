-- ===== src/Opportunities/Feed/Cache/Fresh.antt =====
-- How old a first page from the cached feed can be, and what `skip` does there.
use south_connect.Prelude.{
  ℕ, ◌+◌, ◌<◌, ◌≤◌, ◌≡◌, ◌∙◌, refl, ap, inl, inr, true, Option, none, some, ◌∷◌, arith,
  same_list_refl, ltb, Bool-cases, Option-cases,
}
use south_connect.Prelude.Int.{ℤ}
use south_connect.Pages.{get_elem?}
use south_connect.Schema.{UserKey, Store, Prisma}
use south_connect.Opportunities.Views.{Link, working}
use south_connect.Opportunities.Feed.{ListDto, Texts, FindMany, Envelope, from_database}
use south_connect.Opportunities.Feed.Cache.{
  Cached, Answer, lifetime, live, read_copy, feed_key, is_cacheable, with_flags, without_flags,
  arrive, envelope_of, find_all,
}

module _ (prisma : Prisma) (texts : Texts) (find_many : FindMany) where
  -- The database is the same before and after a request.
  flags_beside :
      (link : Link) (now : ℕ) (dto : ListDto) (requester : Option UserKey) (c : Cached)
      → (find_all prisma texts find_many link now dto requester c).0
        ≡ with_flags prisma texts find_many
            (envelope_of prisma texts find_many link now dto c).0
            requester
            c.store
  unfolding find_all
  flags_beside link now dto requester c =
      elim (Bool-cases (is_cacheable prisma texts find_many link dto)) [
        | inr never ↦ rw never refl
        | inl cached ↦
            elim (Option-cases
              (read_copy link now (c.copies (feed_key prisma texts find_many dto)))) [
                | inl absent ↦ rw (cached, absent) refl
                | inr (e, held) ↦ rw (cached, held) refl
              ]
      ]

  without_with :
      (e : Envelope) (requester : Option UserKey) (s : Store)
      → without_flags (with_flags prisma texts find_many e requester s) ≡ e
  without_with e none s = refl
  without_with e (some user) s = refl

  pub find_all-envelope :
      (link : Link) (now : ℕ) (dto : ListDto) (requester : Option UserKey) (c : Cached)
      → without_flags (find_all prisma texts find_many link now dto requester c).0
        ≡ (envelope_of prisma texts find_many link now dto c).0
  find_all-envelope link now dto requester c =
      ap without_flags (flags_beside link now dto requester c)
      ∙ without_with (envelope_of prisma texts find_many link now dto c).0 requester c.store

  -- The first page as the database had it at a time before its copy, if it is one, reached Redis less
  -- than 45 seconds ago.
  pub record Recent (history : ℕ → Store) (now : ℕ) (dto : ListDto) (requester : Option UserKey)
      (answer : Answer) : Type 0 where
    pub read_at : ℕ
    pub stored_at : ℕ
    pub read_first : read_at ≤ stored_at
    pub in_time : stored_at ≤ now
    pub is_fresh : now < stored_at + lifetime
    pub is_answer :
        answer
        ≡ with_flags prisma texts find_many
            (from_database prisma texts find_many dto (history read_at))
            requester
            (history now)

  -- Redis works and holds no copy for a request of the public feed. Once the answer's SETEX call has
  -- arrived, and for 45 seconds, a request for another page by offset is answered with the rows of the
  -- page that was asked for first.
  pub find_all-ignores_skip :
      (now at later : ℕ) (dto : ListDto) (other : Option ℤ) (requester : Option UserKey)
      (c : Cached)
      → is_cacheable prisma texts find_many working dto ≡ true
      → live now (c.copies (feed_key prisma texts find_many dto)) ≡ none
      → later < at + lifetime
      → let first = find_all prisma texts find_many working now dto requester c in
        (find_all prisma texts find_many working later
          (record dto { skip = other })
          requester
          (arrive prisma texts find_many 0 at first.1)).0
        ≡ first.0
  unfolding find_all arrive get_elem?
  find_all-ignores_skip now at later dto other requester c asks absent early =
      let e = from_database prisma texts find_many dto c.store in
      let key = feed_key prisma texts find_many dto in
      let answered : envelope_of prisma texts find_many working now dto c
          ≡ (e, record c { writes = (key, e) ∷ c.writes }) =
        rw (asks, absent) refl in
      let valid : ltb later (at + lifetime) ≡ true = ground (arith, early) in
      rw (answered, asks, same_list_refl key, valid) refl
