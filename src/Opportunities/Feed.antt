-- ===== src/Opportunities/Feed.antt =====
-- `findAll`, `findByOwner` and `adminFindAll`: the lists of opportunities. What `findMany` finds, in
-- its order and from its cursor on, is a parameter, as are the tests on texts that it makes.
pub mod Hidden
pub mod Cache
use south_connect.Prelude.{
  ℕ, ◌+◌, ◌≡◌, Bool, true, false, not, ◌&&◌, ◌||◌, Option, none, some, List, [], ◌∷◌, length, take,
  drop, any, ltb, leb, ◌==◌, is_some, is_key, or_default, if◌then◌else◌,
}
use south_connect.Prelude.Int.{ℤ, pos, ltb_ℤ}
use south_connect.Database.{Where, Table}
use south_connect.Schema.{
  Text, UserKey, User, OpportunityStatus, Opportunity, Store, Prisma, truthy,
}
use south_connect.Pages.{capped_take, capped_skip, page}
use south_connect.Opportunities.{is_listed}

pub data Sort : Type 0 where
  newest trending : Sort

-- `ListOpportunitiesDto`
pub record ListDto : Type 0 where
  pub take : Option ℤ
  pub skip : Option ℤ
  pub status : Option OpportunityStatus
  pub kind : Option Text
  pub kinds : Option Text
  pub owner_id : Option UserKey
  pub search : Option Text
  pub sort : Option Sort
  pub cursor : Option ℕ
  pub country : Option Text
  pub remote : Option Bool
  pub created_after : Option Text

abbrev pub same_status : OpportunityStatus → OpportunityStatus → Bool
same_status OpportunityStatus.draft OpportunityStatus.draft = true
same_status OpportunityStatus.pending OpportunityStatus.pending = true
same_status OpportunityStatus.active OpportunityStatus.active = true
same_status OpportunityStatus.archived OpportunityStatus.archived = true
same_status OpportunityStatus.closed OpportunityStatus.closed = true
same_status _ _ = false

-- The status that the public feed filters by: a draft is never asked for.
abbrev pub feed_status : Option OpportunityStatus → OpportunityStatus
feed_status none = OpportunityStatus.active
feed_status (some OpportunityStatus.draft) = OpportunityStatus.active
feed_status (some status) = status

abbrev pub order_of : Option Sort → Sort
order_of (some trending) = trending
order_of _ = newest

-- What a text means where the database or JavaScript reads it.
pub record Texts : Type 0 where
  -- `contains` and `equals`, in any case
  pub contains : Text → Text → Bool
  pub same_letters : Text → Text → Bool
  -- `types.split(',')`, trimmed, less the empty ones
  pub type_list : Text → List Text
  -- `new Date(text)`
  pub date_of : Text → ℕ

-- One key or another row's text, where the column may be null.
abbrev pub reads : (Text → Bool) → Option Text → Bool
reads p none = false
reads p (some t) = p t

module _ (texts : Texts) where
  abbrev pub in_types : List Text → Opportunity → Bool
  in_types [] o = true
  in_types (t ∷ ts) o = any (λ u. u == o.kind) (t ∷ ts)

  -- `types` goes before `type`.
  abbrev pub of_kind : Option Text → Option Text → Opportunity → Bool
  of_kind kinds kind o =
      if truthy kinds
      then in_types (texts.type_list (or_default kinds 0)) o
      else not (truthy kind) || o.kind == or_default kind 0

  abbrev pub of_country : Option Text → Opportunity → Bool
  of_country country o =
      not (truthy country) || reads (texts.same_letters (or_default country 0)) o.country

  abbrev pub same_flag : Bool → Option Bool → Bool
  same_flag b none = false
  same_flag true (some c) = c
  same_flag false (some c) = not c

  abbrev pub of_remote : Option Bool → Opportunity → Bool
  of_remote none o = true
  of_remote (some b) o = same_flag b o.remote

  abbrev pub created_since : Option Text → Opportunity → Bool
  created_since after o =
      not (truthy after) || leb (texts.date_of (or_default after 0)) o.created_at

  -- Name, punchline and description, and the tags letter by letter.
  abbrev pub in_feed_search : Option Text → Opportunity → Bool
  in_feed_search search o =
      let words = or_default search 0 in
      not (truthy search)
      || (texts.contains o.name words
          || (reads (λ t. texts.contains t words) o.punchline
              || (reads (λ t. texts.contains t words) o.description
                  || any (λ t. t == words) o.tags)))

  abbrev pub in_owner_search : Option Text → Opportunity → Bool
  in_owner_search search o =
      let words = or_default search 0 in
      not (truthy search)
      || (texts.contains o.name words || reads (λ t. texts.contains t words) o.punchline)

  abbrev pub of_owner : Option UserKey → Opportunity → Bool
  of_owner none o = true
  of_owner (some owner) o = o.owner_id == owner

  -- The `where` of `findAll`.
  unfoldable pub feed_where : ListDto → Where Opportunity
  feed_where dto k o =
      is_listed o
      && (same_status (feed_status dto.status) o.status
          && (of_kind dto.kinds dto.kind o
              && (of_owner dto.owner_id o
                  && (of_country dto.country o
                      && (of_remote dto.remote o
                          && (created_since dto.created_after o && in_feed_search dto.search o))))))

  abbrev pub wanted : Option OpportunityStatus → Opportunity → Bool
  wanted none o = true
  wanted (some status) o = same_status status o.status

  -- Others never see drafts: an explicit status is followed, unless it asks for drafts.
  abbrev pub shown_to_others : Option OpportunityStatus → Opportunity → Bool
  shown_to_others none o = not (same_status OpportunityStatus.draft o.status)
  shown_to_others (some OpportunityStatus.draft) o =
      not (same_status OpportunityStatus.draft o.status)
  shown_to_others (some status) o = same_status status o.status

  -- The `where` of `findByOwner`.
  unfoldable pub owner_where : UserKey → ListDto → Option UserKey → Where Opportunity
  owner_where owner dto requester k o =
      (o.owner_id == owner && is_listed o)
      && ((if is_key requester owner then wanted dto.status o else shown_to_others dto.status o)
          && ((not (truthy dto.kind) || o.kind == or_default dto.kind 0)
              && in_owner_search dto.search o))

-- The answer with its page of rows.
pub record Envelope : Type 0 where
  pub data_rows : List (ℕ × Opportunity)
  pub total : Option ℕ
  pub has_more : Option Bool
  pub next_cursor : Option ℕ

-- The key of the last row.
abbrev pub last_key : List (ℕ × Opportunity) → Option ℕ
last_key [] = none
last_key ((k, o) ∷ []) = some k
last_key (r ∷ (q ∷ rest)) = last_key (q ∷ rest)

-- `findMany`, less `take` and `skip`: by order, cursor and `where`. With a cursor, its row is the
-- one before the first.
abbrev pub FindMany : Type 0
FindMany = Sort → Option ℕ → Where Opportunity → Table Opportunity → List (ℕ × Opportunity)

-- A page cut by the row after it: `take + 1` rows are asked for.
abbrev pub page_of : ℕ → List (ℕ × Opportunity) → List (ℕ × Opportunity)
page_of n found =
    if ltb n (length (take (n + 1) found)) then take n (take (n + 1) found) else take (n + 1) found

abbrev pub cursor_of : ℕ → List (ℕ × Opportunity) → Option ℕ
cursor_of n found = if ltb n (length (take (n + 1) found)) then last_key (page_of n found) else none

module _ (prisma : Prisma) (texts : Texts) (find_many : FindMany) where
  abbrev pub take_of : ListDto → ℕ
  take_of dto = capped_take 100 (or_default dto.take (pos 20))

  abbrev pub skip_of : ListDto → ℕ
  skip_of dto = capped_skip (or_default dto.skip (pos 0))

  -- Past the rows that are skipped.
  abbrev pub rows_of : ListDto → Store → List (ℕ × Opportunity)
  rows_of dto s =
      drop (skip_of dto) (find_many (order_of dto.sort) none (feed_where texts dto) s.opportunities)

  -- `findAll` from the database, by cursor or by offset.
  unfoldable pub from_cursor : ℕ → ListDto → Store → Envelope
  from_cursor id dto s =
      let raw = find_many (order_of dto.sort) (some id) (feed_where texts dto) s.opportunities in
      record {
        data_rows = page_of (take_of dto) raw;
        total = none;
        has_more = none;
        next_cursor = cursor_of (take_of dto) raw;
      }

  unfoldable pub from_offset : ListDto → Store → Envelope
  from_offset dto s =
      let total = prisma.opportunity.count (feed_where texts dto) s.opportunities in
      record {
        data_rows = page_of (take_of dto) (rows_of dto s);
        total = if is_some dto.owner_id then some total else none;
        has_more = some (
            if is_some dto.owner_id
            then ltb (skip_of dto + take_of dto) total
            else ltb (take_of dto) (length (take (take_of dto + 1) (rows_of dto s))));
        next_cursor = cursor_of (take_of dto) (rows_of dto s);
      }

  abbrev pub by_cursor : Option ℕ → ListDto → Store → Envelope
  by_cursor none dto s = from_offset dto s
  by_cursor (some id) dto s = from_cursor id dto s

  -- `findAll` where nothing is cached.
  unfoldable pub from_database : ListDto → Store → Envelope
  from_database dto s = by_cursor dto.cursor dto s

  unfoldable pub find_by_owner : UserKey → ListDto → Option UserKey → Store → Envelope
  find_by_owner owner dto requester s =
      let w = owner_where texts owner dto requester in
      let total = prisma.opportunity.count w s.opportunities in
      record {
        data_rows =
            page 100 (or_default dto.take (pos 20)) (or_default dto.skip (pos 0))
              (find_many newest none w s.opportunities);
        total = some total;
        has_more = some (ltb (skip_of dto + take_of dto) total);
        next_cursor = none;
      }

  abbrev pub owner_email : Option User → Text → Bool
  owner_email none words = false
  owner_email (some u) words = texts.contains u.email words

  -- An admin is given every status; a search reads the name and the owner's address.
  abbrev pub in_admin_search : Option Text → Opportunity → Store → Bool
  in_admin_search search o s =
      not (truthy search)
      || (texts.contains o.name (or_default search 0)
          || owner_email (prisma.user.find_unique o.owner_id s.users) (or_default search 0))

  unfoldable pub admin_find_all : ListDto → Store → List (ℕ × Opportunity)
  admin_find_all dto s = page 100 (or_default dto.take (pos 50)) (or_default dto.skip (pos 0)) (
      find_many newest none
        (λ k o. is_listed o && (wanted texts dto.status o && in_admin_search dto.search o s))
        s.opportunities)
