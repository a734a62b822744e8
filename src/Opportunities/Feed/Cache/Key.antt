-- ===== src/Opportunities/Feed/Cache/Key.antt =====
-- The key of a cached answer says all that the query of a first page reads of its request.
use south_connect.Prelude.{
  ℕ, ◌+◌, ◌≡◌, refl, sym, ap, ◌∙◌, fun_ext, Bool, true, false, not, ◌&&◌, Option, none, some,
  length, take, arith, ltb, ◌==◌, if◌then◌else◌,
}
use south_connect.Database.{Where}
use south_connect.Schema.{Text, OpportunityStatus, Opportunity, Store, Prisma, truthy, is_null}
use south_connect.Opportunities.{is_listed}
use south_connect.Opportunities.Feed.{
  ListDto, Sort, newest, trending, Texts, FindMany, Envelope, feed_status, order_of, same_status,
  of_kind, of_country, of_remote, created_since, in_feed_search, feed_where, page_of, cursor_of,
  take_of, skip_of, from_offset, from_database,
}
use south_connect.Opportunities.Feed.Cache.{text_code, status_code, sort_code, flag_code, feed_key}

-- Each code says all that the query reads of what it stands for.
coded_status : ℕ → OpportunityStatus
coded_status n =
    if n == 2
    then OpportunityStatus.pending
    else if n == 4
    then OpportunityStatus.archived
    else if n == 5
    then OpportunityStatus.closed
    else OpportunityStatus.active

status_coded : (a : Option OpportunityStatus) → coded_status (status_code a) ≡ feed_status a
unfolding coded_status
status_coded none = refl
status_coded (some OpportunityStatus.draft) = refl
status_coded (some OpportunityStatus.pending) = refl
status_coded (some OpportunityStatus.active) = refl
status_coded (some OpportunityStatus.archived) = refl
status_coded (some OpportunityStatus.closed) = refl

coded_order : ℕ → Sort
coded_order n = if n == 2 then trending else newest

order_coded : (a : Option Sort) → coded_order (sort_code a) ≡ order_of a
unfolding coded_order
order_coded none = refl
order_coded (some newest) = refl
order_coded (some trending) = refl

coded_flag : ℕ → Option Bool
coded_flag n = if n == 1 then some false else if n == 2 then some true else none

flag_coded : (a : Option Bool) → coded_flag (flag_code a) ≡ a
unfolding coded_flag
flag_coded none = refl
flag_coded (some false) = refl
flag_coded (some true) = refl

text_truthy : (a : Option Text) → truthy a ≡ not (text_code a == 0)
text_truthy none = refl
text_truthy (some t) = refl

module _ (prisma : Prisma) (texts : Texts) (find_many : FindMany) where
  -- A request for the first page.
  abbrev pub is_first_page : ListDto → Bool
  is_first_page dto =
      is_null dto.cursor && (is_null dto.owner_id && skip_of prisma texts find_many dto == 0)

  -- The first page, by what the key holds of the request.
  page_answer : ℕ → Sort → Where Opportunity → Store → Envelope
  page_answer n order w s =
      let rows = find_many order none w s.opportunities in
      record {
        data_rows = page_of n rows;
        total = none;
        has_more = some (ltb n (length (take (n + 1) rows)));
        next_cursor = cursor_of n rows;
      }

  first_answer :
      (dto : ListDto) (s : Store)
      → is_first_page dto ≡ true
      → from_database prisma texts find_many dto s
        ≡ page_answer
            (take_of prisma texts find_many dto)
            (order_of dto.sort)
            (feed_where texts dto)
            s
  unfolding from_database page_answer from_offset
  first_answer dto s first =
      let none_asked : dto.cursor ≡ none = ground (arith, first) in
      let any_owner : dto.owner_id ≡ none = ground (arith, first) in
      let no_skip : skip_of prisma texts find_many dto ≡ 0 = ground (arith, first) in
      rw (none_asked, any_owner, no_skip) refl

  -- The `where` of a first page, by the codes.
  coded_where : (status kind kinds search country remote after : ℕ) → Where Opportunity
  coded_where status kind kinds search country remote after k o =
      is_listed o
      && (same_status (coded_status status) o.status
          && (of_kind texts (some kinds) (some kind) o
              && (true
                  && (of_country texts (some country) o
                      && (of_remote texts (coded_flag remote) o
                          && (created_since texts (some after) o
                              && in_feed_search texts (some search) o))))))

  where_coded :
      (dto : ListDto)
      → dto.owner_id ≡ none
      → feed_where texts dto
        ≡ coded_where
            (status_code dto.status)
            (text_code dto.kind)
            (text_code dto.kinds)
            (text_code dto.search)
            (text_code dto.country)
            (flag_code dto.remote)
            (text_code dto.created_after)
  unfolding feed_where coded_where
  where_coded dto any_owner = fun_ext λ k. fun_ext λ o.
      rw
        (
          any_owner,
          status_coded dto.status,
          flag_coded dto.remote,
          text_truthy dto.kind,
          text_truthy dto.kinds,
          text_truthy dto.search,
          text_truthy dto.country,
          text_truthy dto.created_after,
        )
        refl

  pub same_answer :
      (d e : ListDto) (s : Store)
      → is_first_page d ≡ true
      → is_first_page e ≡ true
      → feed_key prisma texts find_many d ≡ feed_key prisma texts find_many e
      → from_database prisma texts find_many d s ≡ from_database prisma texts find_many e s
  same_answer d e s first first' h =
      let takes : take_of prisma texts find_many d ≡ take_of prisma texts find_many e =
        ground (arith, h) in
      let status : status_code d.status ≡ status_code e.status = ground (arith, h) in
      let kind : text_code d.kind ≡ text_code e.kind = ground (arith, h) in
      let kinds : text_code d.kinds ≡ text_code e.kinds = ground (arith, h) in
      let search : text_code d.search ≡ text_code e.search = ground (arith, h) in
      let sort : sort_code d.sort ≡ sort_code e.sort = ground (arith, h) in
      let country : text_code d.country ≡ text_code e.country = ground (arith, h) in
      let remote : flag_code d.remote ≡ flag_code e.remote = ground (arith, h) in
      let after : text_code d.created_after ≡ text_code e.created_after = ground (arith, h) in
      let order : order_of d.sort ≡ order_of e.sort =
        sym (order_coded d.sort) ∙ ap coded_order sort ∙ order_coded e.sort in
      let wheres : feed_where texts d ≡ feed_where texts e =
        where_coded d (ground (arith, first))
        ∙ rw (status, kind, kinds, search, country, remote, after) refl
        ∙ sym (where_coded e (ground (arith, first'))) in
      first_answer d s first ∙ rw (takes, order, wheres) refl ∙ sym (first_answer e s first')
