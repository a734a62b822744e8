-- ===== src/Messages/Public.antt =====
-- `createPublicDiscussion` and `createPublicMessage`.
pub mod Counted
use south_connect.Prelude.{
  ℕ, ◌≡◌, ◌⊎◌, inl, inr, refl, Bool, true, false, not, Option, none, some, ◌∷◌, ◌==◌, is_some,
  arith, if◌then◌else◌, Bool-cases, Option-cases, bit, ◌+◌,
}
use south_connect.Prelude.Int.{ℤ, pos, ◌+ℤ◌}
use south_connect.Action.{
  Action, Result, ok, err, HttpError, not_found, internal_error, ◌>>=◌, ◌>>◌, pure, throw, gets,
  modify, or_throw,
}
use south_connect.Database.{Where, Table}
use south_connect.Database.Keyed.{at, always}
use south_connect.Redis.{Redis, public_dedup}
use south_connect.Schema.{
  Text, UserKey, User, Message, Opportunity, PublicDiscussion, open_forum, Store, Prisma, truthy,
  is_null, broadcast,
}
use south_connect.Messages.{Env, Chat, same_client_id, cached, remember, check_sender}
use south_connect.Messages.Private.{Draft}

abbrev pub public_message : Draft → Message
public_message d = record {
  client_message_id = d.client_id;
  content = d.content;
  sender_id = d.sender;
  receiver_id = none;
  private_discussion_id = none;
  public_discussion_id = some d.discussion;
}

abbrev pub one_message : ℕ → PublicDiscussion → PublicDiscussion
one_message now p = record p {
  last_message_at = some now;
  messages_count = p.messages_count +ℤ pos 1;
}

abbrev pub opportunity_message : Opportunity → Opportunity
opportunity_message o = record o { messages_count = o.messages_count +ℤ pos 1 }

module _ (prisma : Prisma) where
  unfoldable pub create_public_discussion : ℕ → ℕ → UserKey → Text → Action Store ℕ
  create_public_discussion now new_id owner title s =
      elim (prisma.public_discussion.create (λ k p. false) new_id
        (record {
          title = title;
          kind = open_forum;
          owner_id = owner;
          opportunity_id = none;
          messages_count = pos 0;
          members_count = pos 0;
          likes_count = pos 0;
          last_message_at = some now;
        })
        s.public_discussions) [
          | none ↦ throw internal_error s
          | some t ↦ pure new_id (record s { public_discussions = t })
        ]

  -- The transaction; P2002 is not caught.
  insert_public : ℕ → Draft → Action Store (Unit {0})
  insert_public now d s =
      elim (prisma.message.create (same_client_id d.client_id) d.new_id (public_message d)
        s.messages) [
          | none ↦ throw internal_error s
          | some t ↦ pure tt (record s {
            messages = t;
            public_discussions =
                prisma.public_discussion.update_many (at d.discussion always) (one_message now)
                  s.public_discussions;
          })
        ]

  -- The counter of the opportunity, which is not awaited and may fail.
  abbrev pub count_on : Bool → Option ℕ → Store → Store
  count_on counters_ok opportunity s = record s {
    opportunities = elim opportunity [
      | none ↦ s.opportunities
      | some o ↦
          if counters_ok
          then prisma.opportunity.update_many (at o always) opportunity_message s.opportunities
          else s.opportunities
    ];
  }

  unfoldable pub post_public : Bool → ℕ → Draft → Action Store ℕ
  unfolding insert_public
  post_public counters_ok now d = do
    check_sender prisma d.sender
    found ← gets λ s. prisma.public_discussion.find_unique d.discussion s.public_discussions
    discussion ← or_throw found not_found
    insert_public now d
    modify (count_on counters_ok discussion.opportunity_id)
    modify λ s. record s { calls = broadcast d.discussion d.new_id ∷ s.calls }
    pure d.new_id

module _ (prisma : Prisma) (redis : Redis) where
  finish : Env → Draft → Result ℕ × Store → Chat → Result ℕ × Chat
  finish env d (ok id, t) c =
      (ok id, remember redis env public_dedup d.sender d.client_id id (record c { store = t }))
  finish env d (err e, t) c = (err e, record c { store = t })

  reply : Bool → Env → Draft → Option ℕ → Action Chat ℕ
  unfolding finish
  reply counters_ok env d (some id) c = (ok id, c)
  reply counters_ok env d none c = finish env d (post_public prisma counters_ok env.now d c.store) c

  unfoldable pub create_public_message : Bool → Env → Draft → Action Chat ℕ
  unfolding reply
  create_public_message counters_ok env d c =
      reply counters_ok env d (cached redis env public_dedup d.sender d.client_id c) c
