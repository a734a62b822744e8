-- ===== src/Cron/Recount.antt =====
-- `recountAllCounters`: counters are computed again from the rows that they stand for. What
-- `findMany` and `groupBy` list is a parameter: the keys of rows, or the values of a column, each
-- once. The number of rows in a group is a count, 0 where there is no group. The times at which the
-- database creates messages are a parameter too.
pub mod Sweep
pub mod Complete
pub mod Repair
pub mod Tallied
use south_connect.Prelude.{
  ℕ, zero, suc, ◌+◌, ◌≡◌, Bool, true, false, not, ◌&&◌, ◌||◌, Option, none, some, List, [], ◌∷◌,
  ◌++◌, length, any, arith, ltb, ◌==◌, is_key, is_some, if◌then◌else◌,
}
use south_connect.Prelude.Int.{ℤ, pos}
use south_connect.Database.{Where, Table}
use south_connect.Database.Keyed.{at, always}
use south_connect.Schema.{
  UserKey, User, BtoCProfile, BtoBProfile, Opportunity, OpportunityStatus, Application, Follow,
  Mark, Message, Participant, PublicDiscussion, Rating, Store, Prisma, is_null,
}
use south_connect.Social.{btoc_of, btob_of}
use south_connect.Social.Follows.{followed}
use south_connect.Social.Exact.{on_opportunity, on_discussion}
use south_connect.Messages.Public.Counted.{in_public}
use south_connect.Opportunities.{is_active}
use south_connect.Cron.Batches.{apply_all, batches}

pub record Lists : Type 0 where
  -- `findMany` with `select: { id: true }`
  pub user_keys : Where User → Table User → List UserKey
  pub discussion_keys : Table PublicDiscussion → List ℕ
  pub participant_rows : Table Participant → List (ℕ × Participant)
  -- `groupBy` by the opportunity
  pub marked : Table Mark → List ℕ
  pub applied : Where Application → Table Application → List ℕ
  -- `findMany` with `distinct: ['senderId']`
  pub senders : Where Message → Table Message → List UserKey

abbrev pub without : ℕ → List ℕ → List ℕ
without j [] = []
without j (k ∷ rest) = let others = without j rest in if k == j then others else k ∷ others

-- `[...new Set(keys)]`, in the order in which the keys come first.
abbrev pub each_once : List ℕ → List ℕ
each_once [] = []
each_once (k ∷ rest) = k ∷ without k (each_once rest)

abbrev pub owned_by : UserKey → Where Opportunity
owned_by user k o = o.owner_id == user

abbrev pub owned_active : UserKey → Where Opportunity
owned_active user k o = o.owner_id == user && is_active o.status

-- `{ isDraft: false, deletedAt: null }`
abbrev pub is_submitted : Where Application
is_submitted k a = not a.is_draft && is_null a.deleted_at

abbrev pub submitted_to : ℕ → Where Application
submitted_to opportunity k a = is_submitted k a && a.opportunity_id == opportunity

abbrev pub with_opportunities : ℕ → ℕ → BtoCProfile → BtoCProfile
with_opportunities total active p = record p {
  opportunities_count = pos total;
  active_opportunities_count = pos active;
}

abbrev pub with_offers : ℕ → BtoBProfile → BtoBProfile
with_offers total p = record p { opportunities_count = pos total }

abbrev pub with_followers : ℕ → BtoCProfile → BtoCProfile
with_followers n p = record p { followers_count = pos n }

abbrev pub with_company_followers : ℕ → BtoBProfile → BtoBProfile
with_company_followers n p = record p { followers_count = pos n }

abbrev pub with_tallies : ℕ → ℕ → ℕ → Opportunity → Opportunity
with_tallies likes saves applications o = record o {
  likes_count = pos likes;
  saved_count = pos saves;
  applications_count = pos applications;
}

abbrev pub with_members : ℕ → ℕ → PublicDiscussion → PublicDiscussion
with_members members likes d = record d { members_count = pos members; likes_count = pos likes }

abbrev pub with_unread : ℕ → Participant → Participant
with_unread n q = record q { unread_count = pos n }

module _ (prisma : Prisma) (lists : Lists) where
  -- `OR: [{ btoCProfile: { isNot: null } }, { btoBProfile: { isNot: null } }]`
  abbrev pub has_profile : Store → Where User
  has_profile s k u =
      not (prisma.btoc_profile.count (btoc_of k) s.btoc_profiles == 0)
      || not (prisma.btob_profile.count (btob_of k) s.btob_profiles == 0)

  abbrev pub profile_users : Store → List UserKey
  profile_users s = lists.user_keys (has_profile s) s.users

  -- Both profiles of a user, by what stood in `before`.
  abbrev pub recount_profile : Store → UserKey → Store → Store
  recount_profile before user s =
      let total = prisma.opportunity.count (owned_by user) before.opportunities in
      let active = prisma.opportunity.count (owned_active user) before.opportunities in
      record s {
        btoc_profiles =
            prisma.btoc_profile.update_many (btoc_of user) (with_opportunities total active)
              s.btoc_profiles;
        btob_profiles =
            prisma.btob_profile.update_many (btob_of user) (with_offers total) s.btob_profiles;
      }

  unfoldable pub recount_profile_counters : Store → Store
  recount_profile_counters s = apply_all (recount_profile s) (profile_users s) s

  abbrev pub recount_follower : Store → UserKey → Store → Store
  recount_follower before user s =
      let n = prisma.follow.count (followed user) before.follows in
      record s {
        btoc_profiles =
            prisma.btoc_profile.update_many (btoc_of user) (with_followers n) s.btoc_profiles;
        btob_profiles =
            prisma.btob_profile.update_many (btob_of user) (with_company_followers n)
              s.btob_profiles;
      }

  unfoldable pub recount_follower_counts : Store → Option Store
  recount_follower_counts s =
      batches (recount_follower s) (length (profile_users s) + 1) (profile_users s) 0 s

  -- The opportunities that have a like, a bookmark or a submitted application.
  abbrev pub counted_opportunities : Store → List ℕ
  counted_opportunities s =
      each_once (
        lists.marked s.likes ++ (lists.marked s.saves ++ lists.applied is_submitted s.applications))

  abbrev pub recount_opportunity : Store → ℕ → Store → Store
  recount_opportunity before id s = record s {
    opportunities =
        prisma.opportunity.update_many (at id always)
          (with_tallies (prisma.like.count (on_opportunity id) before.likes)
            (prisma.save.count (on_opportunity id) before.saves)
            (prisma.application.count (submitted_to id) before.applications))
          s.opportunities;
  }

  unfoldable pub recount_opportunity_counters : Store → Option Store
  recount_opportunity_counters s =
      batches (recount_opportunity s) (length (counted_opportunities s) + 1)
        (counted_opportunities s) 0 s

  abbrev pub recount_discussion : Store → ℕ → Store → Store
  recount_discussion before id s = record s {
    public_discussions =
        prisma.public_discussion.update_many (at id always)
          (with_members (length (lists.senders (in_public id) before.messages))
            (prisma.rating.count (on_discussion id) before.ratings))
          s.public_discussions;
  }

  unfoldable pub recount_discussion_members_count : Store → Option Store
  recount_discussion_members_count s =
      let keys = lists.discussion_keys s.public_discussions in
      batches (recount_discussion s) (length keys + 1) keys 0 s

  -- `createdAt > lastReadAt`, if anything was read.
  abbrev pub is_unread : (ℕ → ℕ) → Participant → Where Message
  is_unread created_at q k m =
      is_key m.private_discussion_id q.discussion_id
      && (not (m.sender_id == q.user_id)
          && elim q.last_read_at [ none ↦ true | some read ↦ ltb read (created_at k) ])

  abbrev pub recount_unread : (ℕ → ℕ) → Store → ℕ × Participant → Store → Store
  recount_unread created_at before (id, q) s = record s {
    participants =
        prisma.participant.update_many (at id always)
          (with_unread (prisma.message.count (is_unread created_at q) before.messages))
          s.participants;
  }

  unfoldable pub recount_unread_counts : (ℕ → ℕ) → Store → Option Store
  recount_unread_counts created_at s =
      let rows = lists.participant_rows s.participants in
      batches (recount_unread created_at s) (length rows + 1) rows 0 s
