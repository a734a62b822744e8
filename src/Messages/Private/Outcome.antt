-- ===== src/Messages/Private/Outcome.antt =====
-- What `createPrivateMessage` comes to behind the look into Redis: an error that changes nothing, or
-- a stored message.
use south_connect.Prelude.{
  ℕ, ◌≡◌, refl, ◌⊎◌, inl, inr, true, false, Option, some, arith, ◌∷◌, is_some, Bool-cases,
  Option-cases,
}
use south_connect.Action.{ok, err, HttpError, forbidden, not_found, internal_error}
use south_connect.Database.{Table}
use south_connect.Database.Keyed.{at, always}
use south_connect.Schema.{
  UserKey, User, Message, PrivateDiscussion, Store, Prisma, is_null, broadcast,
}
use south_connect.Messages.{is_member, is_other, same_client_id, check_sender, check_member}
use south_connect.Messages.Private.{
  Draft, user_of, private_message, touched, unread_for, notify_recipient, insert_private,
  post_private,
}

module _ (prisma : Prisma) where
  -- The sender takes part in the discussion, and is neither deleted nor banned.
  pub record MayPost (user : UserKey) (discussion : ℕ) (s : Store) : Type 0 where
    pub room : PrivateDiscussion
    pub account : User
    pub opened : prisma.private_discussion.find_unique discussion s.private_discussions ≡ some room
    pub member :
        is_some (prisma.participant.find_first (is_member user discussion) s.participants) ≡ true
    pub found : prisma.user.find_unique user s.users ≡ some account
    pub present : is_null account.deleted_at ≡ true
    pub allowed : account.is_banned ≡ false

  abbrev pub receiver_of : Draft → Store → Option UserKey
  receiver_of d s =
      user_of (prisma.participant.find_first (is_other d.sender d.discussion) s.participants)

  -- The store after the message is in the table `t`.
  unfoldable pub posted : ℕ → Draft → Table Message → Store → Store
  posted now d t s =
      let w = unread_for prisma (receiver_of d s) d.discussion (record s {
        messages = t;
        private_discussions =
            prisma.private_discussion.update_many (at d.discussion always) (touched now)
              s.private_discussions;
      }) in
      notify_recipient prisma (receiver_of d s) d.discussion
        (record w { calls = broadcast d.discussion d.new_id ∷ w.calls })

  pub record Posts (now : ℕ) (d : Draft) (s : Store) : Type 0 where
    pub may : MayPost d.sender d.discussion s
    pub table : Table Message
    pub made :
        prisma.message.create
          (same_client_id d.client_id)
          d.new_id
          (private_message d (receiver_of d s))
          s.messages
        ≡ some table
    pub result : post_private prisma now d s ≡ (ok d.new_id, posted now d table s)

  pub member_cases :
      (user : UserKey) (discussion : ℕ) (s : Store)
      → ((e : HttpError) × (check_member prisma user discussion s ≡ (err e, s)))
        ⊎ (room : PrivateDiscussion) × (prisma.private_discussion.find_unique discussion
              s.private_discussions
            ≡ some room)
          × (is_some (prisma.participant.find_first (is_member user discussion) s.participants)
              ≡ true)
          × (check_member prisma user discussion s ≡ (ok tt, s))
  unfolding check_member
  member_cases user discussion s =
      elim (Option-cases (prisma.private_discussion.find_unique discussion s.private_discussions)) [
        | inl absent ↦ inl (not_found, ground (arith, absent))
        | inr (room, opened) ↦
            elim (Bool-cases (
              is_some (prisma.participant.find_first (is_member user discussion) s.participants))) [
                | inr stranger ↦ inl (forbidden, ground (arith, opened, stranger))
                | inl member ↦ inr (room, opened, member, ground (arith, opened, member))
              ]
      ]

  pub sender_cases :
      (sender : UserKey) (s : Store)
      → ((e : HttpError) × (check_sender prisma sender s ≡ (err e, s)))
        ⊎ (account : User) × (prisma.user.find_unique sender s.users ≡ some account)
          × (is_null account.deleted_at ≡ true)
          × (account.is_banned ≡ false)
          × (check_sender prisma sender s ≡ (ok tt, s))
  unfolding check_sender
  sender_cases sender s = elim (Option-cases (prisma.user.find_unique sender s.users)) [
    | inl absent ↦ inl (forbidden, ground (arith, absent))
    | inr (account, found) ↦ elim (Bool-cases (is_null account.deleted_at)) [
      | inr deleted ↦ inl (forbidden, ground (arith, found, deleted))
      | inl present ↦ elim (Bool-cases account.is_banned) [
        | inl banned ↦ inl (forbidden, ground (arith, found, present, banned))
        | inr allowed ↦
            inr (account, found, present, allowed, ground (arith, found, present, allowed))
      ]
    ]
  ]

  pub post_cases :
      (now : ℕ) (d : Draft) (s : Store)
      → ((e : HttpError) × (post_private prisma now d s ≡ (err e, s))) ⊎ Posts now d s
  unfolding post_private insert_private posted
  post_cases now d s = elim (member_cases d.sender d.discussion s) [
    | inl (e, failed) ↦ inl (e, ground (arith, failed))
    | inr (room, opened, member, passed) ↦ elim (sender_cases d.sender s) [
      | inl (e, failed) ↦ inl (e, ground (arith, passed, failed))
      | inr (account, found, present, allowed, passed') ↦
          elim (Option-cases (
            prisma.message.create (same_client_id d.client_id) d.new_id
              (private_message d (receiver_of d s)) s.messages)) [
                | inl clash ↦ inl (internal_error, ground (arith, passed, passed', clash))
                | inr (table, made) ↦ inr (record {
                  may = record {
                    room = room;
                    account = account;
                    opened = opened;
                    member = member;
                    found = found;
                    present = present;
                    allowed = allowed;
                  };
                  table = table;
                  made = made;
                  result = ground (arith, passed, passed', made);
                })
              ]
    ]
  ]

  pub posted-messages :
      (now : ℕ) (d : Draft) (t : Table Message) (s : Store) → (posted now d t s).messages ≡ t
  unfolding posted unread_for notify_recipient
  posted-messages now d t s = elim (Option-cases (receiver_of d s)) [
    | inl nobody ↦ rw nobody refl
    | inr (user, somebody) ↦ rw somebody refl
  ]

  pub posted-public_discussions :
      (now : ℕ) (d : Draft) (t : Table Message) (s : Store)
      → (posted now d t s).public_discussions ≡ s.public_discussions
  unfolding posted unread_for notify_recipient
  posted-public_discussions now d t s = elim (Option-cases (receiver_of d s)) [
    | inl nobody ↦ rw nobody refl
    | inr (user, somebody) ↦ rw somebody refl
  ]
