-- ===== src/Messages.antt =====
-- modules/messages/messages.service.ts: private and public discussions, their messages, and the
-- record in Redis that makes a retry return the message of the first try. The lists of discussions
-- and messages are left out.
pub mod Private
pub mod Public
mod Tests
use south_connect.Prelude.{
  ℕ, Bool, true, false, not, ◌&&◌, ◌||◌, Option, none, some, ◌==◌, is_some, if◌then◌else◌,
}
use south_connect.Prelude.Int.{ℤ, pos, ◌+ℤ◌}
use south_connect.Action.{
  Action, Result, ok, err, bad_request, forbidden, not_found, conflict, internal_error, ◌>>=◌, ◌>>◌,
  pure, throw, gets, modify, throw_if, or_throw,
}
use south_connect.Database.{Where, Table}
use south_connect.Redis.{Redis, Entries, Key, Prefix}
use south_connect.Schema.{Text, UserKey, User, Message, Participant, Store, Prisma, is_null, truthy}

-- One request's view of the outside; `redis_ok` says whether Redis answers.
pub record Env : Type 0 where
  pub now : ℕ
  pub has_redis : Bool
  pub redis_ok : Bool

pub record Chat : Type 0 where
  pub store : Store
  pub redis : Entries

-- `{ userId, discussionId }`
abbrev pub is_member : UserKey → ℕ → Where Participant
is_member user discussion k p = p.user_id == user && p.discussion_id == discussion

-- A participant of the discussion other than the sender.
abbrev pub is_other : UserKey → ℕ → Where Participant
is_other sender discussion k p = p.discussion_id == discussion && not (p.user_id == sender)

-- `message.clientMessageId`, a unique key where it is not null
abbrev pub same_client_id : Option Text → Where Message
same_client_id none k m = false
same_client_id (some id) k m = elim m.client_message_id [ none ↦ false | some c ↦ c == id ]

-- Times to live are in seconds.
abbrev dedup_ttl : ℕ
dedup_ttl = 60

module _ (redis : Redis) where
  -- An absent client, and one that fails, answer nothing.
  abbrev pub dedup_get : Env → Key → Entries → Option ℕ
  dedup_get env key e =
      if env.has_redis then (if env.redis_ok then redis.get env.now key e else none) else none

  abbrev pub dedup_set : Env → Key → ℕ → Entries → Entries
  dedup_set env key message e =
      if env.has_redis
      then (if env.redis_ok then redis.set env.now key message dedup_ttl e else e)
      else e

  abbrev pub dedup_key : Prefix → UserKey → Text → Key
  dedup_key prefix sender id = record { prefix = prefix; part = sender; rest = id }

  -- `if (clientMessageId) { cached = ...; if (cached) return cached }`
  abbrev pub cached : Env → Prefix → UserKey → Option Text → Chat → Option ℕ
  cached env prefix sender id c = elim id [
    | none ↦ none
    | some i ↦ if i == 0 then none else dedup_get env (dedup_key prefix sender i) c.redis
  ]

  abbrev pub remember : Env → Prefix → UserKey → Option Text → ℕ → Chat → Chat
  remember env prefix sender id message c = elim id [
    | none ↦ c
    | some i ↦
        if i == 0
        then c
        else record c { redis = dedup_set env (dedup_key prefix sender i) message c.redis }
  ]

module _ (prisma : Prisma) where
  -- The sender must be there, and neither deleted nor banned.
  unfoldable pub check_sender : UserKey → Action Store (Unit {0})
  check_sender sender = do
    found ← gets λ s. prisma.user.find_unique sender s.users
    user ← or_throw found forbidden
    throw_if (not (is_null user.deleted_at)) forbidden
    throw_if user.is_banned forbidden

  -- `isParticipant`: a public discussion is open to every user.
  abbrev pub is_participant : UserKey → ℕ → Store → Bool
  is_participant user discussion s =
      is_some (prisma.participant.find_first (is_member user discussion) s.participants)
      || is_some (prisma.public_discussion.find_unique discussion s.public_discussions)

  -- A private discussion that the user takes part in.
  unfoldable pub check_member : UserKey → ℕ → Action Store (Unit {0})
  check_member user discussion = do
    found ← gets λ s. prisma.private_discussion.find_unique discussion s.private_discussions
    d ← or_throw found not_found
    member ← gets λ s. prisma.participant.find_first (is_member user discussion) s.participants
    throw_if (not (is_some member)) forbidden
