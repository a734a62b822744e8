-- ===== src/Opportunities/Feed/Cache.antt =====
-- `findAll` with the cache of the public feed.
pub mod Key
pub mod Events
pub mod Traced
pub mod Fresh
pub mod Shown
use south_connect.Prelude.{
  ℕ, ◌+◌, ◌*◌, ◌≡◌, refl, sym, ap, ◌∙◌, subst, fun_ext, inl, inr, Bool, true, false, not, ◌&&◌,
  Option, none, some, List, same_list, [], ◌∷◌, length, take, arith, ltb, ◌==◌, some_injective,
  or_default, if◌then◌else◌, Bool-cases, Option-cases,
}
use south_connect.Prelude.Int.{ℤ}
use south_connect.Database.{Where}
use south_connect.Pages.{get_elem?}
use south_connect.Schema.{
  Text, UserKey, OpportunityStatus, Opportunity, Store, Prisma, truthy, is_null,
}
use south_connect.Opportunities.Views.{Link, missing, failing, working}
use south_connect.Opportunities.Show.{Card, attach_social_state}
use south_connect.Opportunities.{is_listed}
use south_connect.Opportunities.Feed.{
  ListDto, Sort, newest, trending, Texts, FindMany, Envelope, feed_status, order_of, same_status,
  of_kind, of_country, of_remote, created_since, in_feed_search, feed_where, page_of, cursor_of,
  take_of, skip_of, from_offset, from_database,
}

-- The database beside Redis: the copies that are there, each with the time at which it expires, and
-- the SETEX calls that were made, newest first. Nobody waits for these, and each may come late or
-- fail.
pub record Cached : Type 0 where
  pub store : Store
  pub copies : List ℕ → Option (ℕ × Envelope)
  pub writes : List (List ℕ × Envelope)

-- `FEED_CACHE_TTL_SECONDS`, in milliseconds.
abbrev pub lifetime : ℕ
lifetime = 45 * 1000

-- GET: a copy that has expired is not there.
abbrev pub live : ℕ → Option (ℕ × Envelope) → Option Envelope
live now none = none
live now (some (until, e)) = if ltb now until then some e else none

-- A read that fails is taken for a miss.
abbrev pub read_copy : Link → ℕ → Option (ℕ × Envelope) → Option Envelope
read_copy working now held = live now held
read_copy _ now held = none

abbrev pub text_code : Option Text → ℕ
text_code t = or_default t 0

abbrev pub status_code : Option OpportunityStatus → ℕ
status_code none = 0
status_code (some OpportunityStatus.draft) = 1
status_code (some OpportunityStatus.pending) = 2
status_code (some OpportunityStatus.active) = 3
status_code (some OpportunityStatus.archived) = 4
status_code (some OpportunityStatus.closed) = 5

abbrev pub sort_code : Option Sort → ℕ
sort_code none = 0
sort_code (some newest) = 1
sort_code (some trending) = 2

abbrev pub flag_code : Option Bool → ℕ
flag_code none = 0
flag_code (some false) = 1
flag_code (some true) = 2

-- With the flags of a requester, or without.
pub data Answer : Type 0 where
  plain : Envelope → Answer
  flagged : List Card → Envelope → Answer

-- The envelope, whatever flags stand beside it.
abbrev pub without_flags : Answer → Envelope
without_flags (plain e) = e
without_flags (flagged cards e) = e

module _ (prisma : Prisma) (texts : Texts) (find_many : FindMany) where
  -- The text of `JSON.stringify`, a number for each member. It has no member for `skip`.
  abbrev pub feed_key : ListDto → List ℕ
  feed_key dto =
      take_of prisma texts find_many dto
      ∷ status_code dto.status
      ∷ text_code dto.kind
      ∷ text_code dto.kinds
      ∷ text_code dto.search
      ∷ sort_code dto.sort
      ∷ text_code dto.country
      ∷ flag_code dto.remote
      ∷ text_code dto.created_after
      ∷ []

  abbrev pub is_cacheable : Link → ListDto → Bool
  is_cacheable missing dto = false
  is_cacheable _ dto = is_null dto.cursor && is_null dto.owner_id

  abbrev pub with_flags : Envelope → Option UserKey → Store → Answer
  with_flags e none s = plain e
  with_flags e (some user) s = flagged (attach_social_state prisma e.data_rows user s) e

  -- A SETEX call reaches Redis.
  abbrev pub store_copy : (at : ℕ) → Option (List ℕ × Envelope) → Cached → Cached
  store_copy at none c = c
  store_copy at (some (key, e)) c = record c {
    copies = λ k. if same_list k key then some (at + lifetime, e) else c.copies k;
  }

  unfoldable pub arrive : (n at : ℕ) → Cached → Cached
  arrive n at c = store_copy at (get_elem? c.writes n) c

  -- `findAll`: the cached answer, or the database's, which is then sent to the cache.
  abbrev pub answer_from : Option Envelope → ListDto → Cached → Envelope × Cached
  answer_from (some e) dto c = (e, c)
  answer_from none dto c =
      let e = from_database prisma texts find_many dto c.store in
      (e, record c { writes = (feed_key dto, e) ∷ c.writes })

  abbrev pub envelope_of : Link → (now : ℕ) → ListDto → Cached → Envelope × Cached
  envelope_of link now dto c =
      if is_cacheable link dto
      then answer_from (read_copy link now (c.copies (feed_key dto))) dto c
      else (from_database prisma texts find_many dto c.store, c)

  unfoldable pub find_all : Link → (now : ℕ) → ListDto → Option UserKey → Cached → Answer × Cached
  find_all link now dto requester c =
      let (e, after) = envelope_of link now dto c in (with_flags e requester after.store, after)
