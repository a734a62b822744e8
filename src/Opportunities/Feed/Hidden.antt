-- ===== src/Opportunities/Feed/Hidden.antt =====
-- Who is shown a draft: its owner, and nobody else.
use south_connect.Prelude.{
  ℕ, ◌+◌, ◌≡◌, refl, sym, ap, ◌∙◌, subst, inl, inr, true, false, not, ◌&&◌, Option, none, some,
  List, length, take, arith, ltb, is_key, or_default, Bool-cases, Option-cases,
}
use south_connect.Prelude.Int.{pos}
use south_connect.Action.{ok}
use south_connect.Database.{Where, Table}
use south_connect.Database.Keyed.{find_first-at}
use south_connect.Redis.{Redis}
use south_connect.Schema.{UserKey, OpportunityStatus, Opportunity, Store, Prisma}
use south_connect.Pages.{get_elem?, within_page, within_take, within_drop}
use south_connect.Opportunities.{is_listed, is_draft}
use south_connect.Opportunities.Views.{Cached, Link}
use south_connect.Opportunities.Show.{Card, card_of, find_one}
use south_connect.Opportunities.Feed.{
  ListDto, Sort, newest, Texts, FindMany, same_status, feed_status, feed_where, shown_to_others,
  owner_where, page_of, skip_of, take_of, from_cursor, from_offset, from_database, by_cursor,
  find_by_owner, order_of,
}

-- Each row that `findMany` returns is stored and matches.
abbrev pub FindsMatching : Prisma → FindMany → Type 0
FindsMatching prisma find_many =
    (order : Sort) (cursor : Option ℕ) (p : Where Opportunity) (t : Table Opportunity) (n k : ℕ)
    (o : Opportunity)
    → get_elem? (find_many order cursor p t) n ≡ some (k, o)
    → (prisma.opportunity.find_unique k t ≡ some o) × (p k o ≡ true)

within_cut :
    (n : ℕ) (xs : List (ℕ × Opportunity)) (m : ℕ) (x : ℕ × Opportunity)
    → get_elem? (page_of n xs) m ≡ some x
    → get_elem? xs m ≡ some x
within_cut n xs m x h = elim (Bool-cases (ltb n (length (take (n + 1) xs)))) [
  | inl more ↦
      within_take (n + 1) m xs x (within_take n m (take (n + 1) xs) x (ground (arith, more, h)))
  | inr all_of_it ↦ within_take (n + 1) m xs x (ground (arith, all_of_it, h))
]

feed_no_draft :
    (asked : Option OpportunityStatus) (status : OpportunityStatus)
    → same_status (feed_status asked) status ≡ true
    → is_draft status ≡ false
feed_no_draft none status h = ground (arith, h)
feed_no_draft (some OpportunityStatus.draft) status h = ground (arith, h)
feed_no_draft (some OpportunityStatus.pending) status h = ground (arith, h)
feed_no_draft (some OpportunityStatus.active) status h = ground (arith, h)
feed_no_draft (some OpportunityStatus.archived) status h = ground (arith, h)
feed_no_draft (some OpportunityStatus.closed) status h = ground (arith, h)

others_no_draft :
    (texts : Texts) (asked : Option OpportunityStatus) (o : Opportunity)
    → shown_to_others texts asked o ≡ true
    → is_draft o.status ≡ false
others_no_draft texts none o h = ground (arith, h)
others_no_draft texts (some OpportunityStatus.draft) o h = ground (arith, h)
others_no_draft texts (some OpportunityStatus.pending) o h = ground (arith, h)
others_no_draft texts (some OpportunityStatus.active) o h = ground (arith, h)
others_no_draft texts (some OpportunityStatus.archived) o h = ground (arith, h)
others_no_draft texts (some OpportunityStatus.closed) o h = ground (arith, h)

-- What a list of opportunities may show of a row.
pub record ShownInFeed (prisma : Prisma) (s : Store) (k : ℕ) (o : Opportunity) : Type 0 where
  pub stored : prisma.opportunity.find_unique k s.opportunities ≡ some o
  pub listed : is_listed o ≡ true
  pub no_draft : is_draft o.status ≡ false

module _ (prisma : Prisma) (texts : Texts) (find_many : FindMany)
    (matching : FindsMatching prisma find_many) where
  feed_row :
      (dto : ListDto) (cursor : Option ℕ) (s : Store) (n k : ℕ) (o : Opportunity)
      → get_elem? (find_many (order_of dto.sort) cursor (feed_where texts dto) s.opportunities) n
        ≡ some (k, o)
      → ShownInFeed prisma s k o
  unfolding feed_where
  feed_row dto cursor s n k o h =
      let (stored, hit) =
        matching (order_of dto.sort) cursor (feed_where texts dto) s.opportunities n k o h in
      record {
        stored = stored;
        listed = ground (arith, hit);
        no_draft = feed_no_draft dto.status o.status (ground (arith, hit));
      }

  offset_row :
      (dto : ListDto) (s : Store) (n k : ℕ) (o : Opportunity)
      → get_elem? (from_offset prisma texts find_many dto s).data_rows n ≡ some (k, o)
      → ShownInFeed prisma s k o
  unfolding from_offset
  offset_row dto s n k o h = feed_row dto none s _ k o (
      within_drop (skip_of prisma texts find_many dto) n _ (k, o)
        (within_cut (take_of prisma texts find_many dto) _ n (k, o) h))

  cursor_row :
      (id : ℕ) (dto : ListDto) (s : Store) (n k : ℕ) (o : Opportunity)
      → get_elem? (from_cursor prisma texts find_many id dto s).data_rows n ≡ some (k, o)
      → ShownInFeed prisma s k o
  unfolding from_cursor
  cursor_row id dto s n k o h =
      feed_row dto (some id) s n k o (within_cut (take_of prisma texts find_many dto) _ n (k, o) h)

  either_row :
      (cursor : Option ℕ) (dto : ListDto) (s : Store) (n k : ℕ) (o : Opportunity)
      → get_elem? (by_cursor prisma texts find_many cursor dto s).data_rows n ≡ some (k, o)
      → ShownInFeed prisma s k o
  either_row none dto s n k o h = offset_row dto s n k o h
  either_row (some id) dto s n k o h = cursor_row id dto s n k o h

  -- Where `findMany` returns stored rows that match, whatever is asked of the public feed, by cursor
  -- or by offset, each row of the database's answer is stored, not deleted, and no draft.
  pub from_database-Shown :
      (dto : ListDto) (s : Store) (n k : ℕ) (o : Opportunity)
      → get_elem? (from_database prisma texts find_many dto s).data_rows n ≡ some (k, o)
      → ShownInFeed prisma s k o
  unfolding from_database
  from_database-Shown dto s n k o h = either_row dto.cursor dto s n k o h

  -- Where `findMany` returns stored rows that match, each row of an owner's list, whoever asks and
  -- for whatever, is stored, the owner's and not deleted; and it is a draft only for the owner.
  pub find_by_owner-Shown :
      (owner : UserKey) (dto : ListDto) (requester : Option UserKey) (s : Store) (n k : ℕ)
      (o : Opportunity)
      → get_elem? (find_by_owner prisma texts find_many owner dto requester s).data_rows n
        ≡ some (k, o)
      → (prisma.opportunity.find_unique k s.opportunities ≡ some o)
        × (o.owner_id ≡ owner)
        × (is_listed o ≡ true)
        × ((is_draft o.status && not (is_key requester owner)) ≡ false)
  unfolding find_by_owner owner_where
  find_by_owner-Shown owner dto requester s n k o h =
      let w = owner_where texts owner dto requester in
      let (stored, hit) = matching newest none w s.opportunities _ k o (
        within_page 100 (or_default dto.take (pos 20)) (or_default dto.skip (pos 0)) n _ (k, o)
          h) in
      (
        stored,
        ground (arith, hit),
        ground (arith, hit),
        elim (Bool-cases (is_key requester owner)) [
          | inl own ↦ rw own (ground arith)
          | inr foreign ↦
              rw (others_no_draft texts dto.status o (ground (arith, foreign, hit))) refl
        ],
      )

module _ (prisma : Prisma) (redis : Redis) where
  -- A reader who is shown an opportunity is shown one that is stored and not deleted, and a draft
  -- only if the reader owns it.
  pub find_one-Shown :
      (link : Link) (now id : ℕ) (requester : Option UserKey) (viewer : Option ℕ) (c : Cached)
      (card : Card)
      → (find_one prisma redis link now id requester viewer c).0 ≡ ok card
      → (prisma.opportunity.find_unique id c.store.opportunities ≡ some card.opportunity)
        × (is_listed card.opportunity ≡ true)
        × ((is_draft card.opportunity.status && not (is_key requester card.opportunity.owner_id))
            ≡ false)
  unfolding find_one
  find_one-Shown link now id requester viewer c card served =
      let found = find_first-at prisma.opportunity id is_listed c.store.opportunities in
      elim (Option-cases (prisma.opportunity.find_unique id c.store.opportunities)) [
        | inl absent ↦ ground (arith, served, found, absent)
        | inr (o, present) ↦ elim (Bool-cases (is_listed o)) [
          | inr deleted ↦ ground (arith, served, found, present, deleted)
          | inl listed ↦
              elim (Bool-cases (is_draft o.status && not (is_key requester o.owner_id))) [
                | inl hidden ↦ ground (arith, served, found, present, listed, hidden)
                | inr shown ↦
                    let made : card_of prisma id o requester c.store ≡ card =
                      ground (arith, served, found, present, listed, shown) in
                    let same : o ≡ card.opportunity =
                      sym (card_row requester o c.store) ∙ ap (λ d. d.opportunity) made in
                    subst
                      (λ (q : Opportunity).
                        (prisma.opportunity.find_unique id c.store.opportunities ≡ some q)
                        × (is_listed q ≡ true)
                        × ((is_draft q.status && not (is_key requester q.owner_id)) ≡ false))
                      same (present, listed, shown)
              ]
        ]
      ]
    where
      card_row :
          (r : Option UserKey) (o : Opportunity) (s : Store)
          → (card_of prisma id o r s).opportunity ≡ o
      card_row none o s = refl
      card_row (some u) o s = refl
