-- ===== src/Messages/Private.antt =====
-- `startPrivateDiscussion`, `createPrivateMessage` and `markPrivateDiscussionAsRead`.
pub mod Outcome
pub mod Retry
pub mod Unread
use south_connect.Prelude.{
  ℕ, Bool, true, false, not, ◌&&◌, Option, none, some, ◌∷◌, ◌==◌, is_some, if◌then◌else◌,
}
use south_connect.Prelude.Int.{ℤ, pos, ◌+ℤ◌}
use south_connect.Action.{
  Action, Result, ok, err, bad_request, forbidden, not_found, internal_error, ◌>>=◌, ◌>>◌, pure,
  throw, gets, modify, throw_if, or_throw, transaction,
}
use south_connect.Database.{Where, Table}
use south_connect.Database.Keyed.{at, always}
use south_connect.Redis.{Redis, Entries, Key, private_dedup}
use south_connect.Schema.{
  Text, UserKey, User, Message, Participant, PrivateDiscussion, Store, Prisma, is_null, truthy,
  email, in_app, broadcast, badge_update, clear_link, new_message,
}
use south_connect.Messages.{
  Env, Chat, is_member, is_other, same_client_id, cached, remember, check_sender, check_member,
}

-- What a message is made of.
pub record Draft : Type 0 where
  pub new_id : ℕ
  pub discussion : ℕ
  pub sender : UserKey
  pub content : Text
  pub client_id : Option Text

abbrev pub user_of : Option (ℕ × Participant) → Option UserKey
user_of none = none
user_of (some (k, p)) = some p.user_id

abbrev pub private_message : Draft → Option UserKey → Message
private_message d receiver = record {
  client_message_id = d.client_id;
  content = d.content;
  sender_id = d.sender;
  receiver_id = receiver;
  private_discussion_id = some d.discussion;
  public_discussion_id = none;
}

abbrev pub touched : ℕ → PrivateDiscussion → PrivateDiscussion
touched now d = record d { last_message_at = some now }

abbrev pub one_unread : Participant → Participant
one_unread p = record p { unread_count = p.unread_count +ℤ pos 1 }

abbrev pub all_read : ℕ → Participant → Participant
all_read now p = record p { unread_count = pos 0; last_read_at = some now }

module _ (prisma : Prisma) where
  -- `find`: a discussion with both users among its participants.
  abbrev pub has_both : UserKey → UserKey → Store → Where PrivateDiscussion
  has_both a b s k d =
      is_some (prisma.participant.find_first (is_member a k) s.participants)
      && is_some (prisma.participant.find_first (is_member b k) s.participants)

  -- The two keys are those that the database makes up for the participants' rows; there is no
  -- clash on the pair of user and discussion, since the discussion is new.
  abbrev join : ℕ → UserKey → ℕ → Store → Store
  join new_id user discussion s =
      elim (prisma.participant.create (is_member user discussion) new_id
        (record {
          user_id = user;
          discussion_id = discussion;
          unread_count = pos 0;
          last_read_at = none;
        })
        s.participants) [ none ↦ s | some t ↦ record s { participants = t } ]

  open_discussion : ℕ → ℕ → ℕ → ℕ → UserKey → UserKey → Action Store ℕ
  open_discussion now new_id first second current target s =
      elim (prisma.private_discussion.create (λ k d. false) new_id
        (record { last_message_at = some now }) s.private_discussions) [
          | none ↦ throw internal_error s
          | some t ↦ pure new_id (
              join second target new_id
                (join first current new_id (record s { private_discussions = t })))
        ]

  reuse_or_open :
      ℕ → ℕ → ℕ → ℕ → UserKey → UserKey → Option (ℕ × PrivateDiscussion) → Action Store ℕ
  unfolding open_discussion
  reuse_or_open now new_id first second current target (some (id, d)) = pure id
  reuse_or_open now new_id first second current target none =
      open_discussion now new_id first second current target

  unfoldable pub start_private_discussion : ℕ → ℕ → ℕ → ℕ → UserKey → UserKey → Action Store ℕ
  unfolding reuse_or_open
  start_private_discussion now new_id first second current target = do
    throw_if (current == target) forbidden
    found ← gets λ s. prisma.user.find_unique target s.users
    user ← or_throw found not_found
    throw_if user.is_banned bad_request
    existing ←
        gets λ s.
          prisma.private_discussion.find_first (has_both current target s) s.private_discussions
    reuse_or_open now new_id first second current target existing

  unfoldable pub unread_for : Option UserKey → ℕ → Store → Store
  unread_for none discussion s = s
  unread_for (some user) discussion s = record s {
    participants =
        prisma.participant.update_many (is_member user discussion) one_unread s.participants;
  }

  -- The transaction. A second message with one client id fails with P2002, which nobody catches.
  unfoldable pub insert_private : ℕ → Draft → Option UserKey → Action Store (Unit {0})
  insert_private now d receiver s =
      elim (prisma.message.create (same_client_id d.client_id) d.new_id (private_message d receiver)
        s.messages) [
          | none ↦ throw internal_error s
          | some t ↦ pure tt (
              unread_for receiver d.discussion (record s {
                messages = t;
                private_discussions =
                    prisma.private_discussion.update_many (at d.discussion always) (touched now)
                      s.private_discussions;
              }))
        ]

  -- The recipient's badge, in-app notification, and email if the account is there.
  unfoldable pub notify_recipient : Option UserKey → ℕ → Store → Store
  notify_recipient none discussion s = s
  notify_recipient (some user) discussion s = record s {
    calls =
        if is_some (prisma.user.find_unique user s.users)
        then email user new_message
          ∷ in_app user new_message
          ∷ badge_update user discussion
          ∷ s.calls
        else in_app user new_message ∷ badge_update user discussion ∷ s.calls;
  }

  -- Everything behind the look into Redis.
  unfoldable pub post_private : ℕ → Draft → Action Store ℕ
  post_private now d = do
    check_member prisma d.sender d.discussion
    check_sender prisma d.sender
    other ← gets λ s. prisma.participant.find_first (is_other d.sender d.discussion) s.participants
    insert_private now d (user_of other)
    modify λ s. record s { calls = broadcast d.discussion d.new_id ∷ s.calls }
    modify (notify_recipient (user_of other) d.discussion)
    pure d.new_id

  unfoldable pub mark_private_discussion_as_read : ℕ → ℕ → UserKey → Action Store (Unit {0})
  mark_private_discussion_as_read now discussion user = do
    check_member prisma user discussion
    modify λ s. record s {
      participants =
          prisma.participant.update_many (is_member user discussion) (all_read now) s.participants;
      calls = clear_link user discussion ∷ s.calls;
    }

module _ (prisma : Prisma) (redis : Redis) where
  unfoldable pub finish : Env → Draft → Result ℕ × Store → Chat → Result ℕ × Chat
  finish env d (ok id, t) c =
      (ok id, remember redis env private_dedup d.sender d.client_id id (record c { store = t }))
  finish env d (err e, t) c = (err e, record c { store = t })

  unfoldable pub reply : Env → Draft → Option ℕ → Action Chat ℕ
  reply env d (some id) c = (ok id, c)
  reply env d none c = finish env d (post_private prisma env.now d c.store) c

  unfoldable pub create_private_message : Env → Draft → Action Chat ℕ
  create_private_message env d c =
      reply env d (cached redis env private_dedup d.sender d.client_id c) c
