-- ===== src/Messages/Private/Unread.antt =====
-- The unread counters of the participants.
use south_connect.Prelude.{
  ℕ, ◌≡◌, refl, ◌⊎◌, inl, inr, true, ◌&&◌, Option, none, some, arith, ◌==◌, is_some, is_key,
  if◌then◌else◌,
}
use south_connect.Action.{ok, err, HttpError}
use south_connect.Schema.{UserKey, Participant, Store, Prisma}
use south_connect.Messages.{is_member}
use south_connect.Messages.Private.{
  Draft, one_unread, all_read, unread_for, notify_recipient, post_private,
  mark_private_discussion_as_read,
}
use south_connect.Messages.Private.Outcome.{MayPost, post_cases, posted, receiver_of, member_cases}

module _ (prisma : Prisma) where
  abbrev seat : ℕ → Store → Option Participant
  seat k s = prisma.participant.find_unique k s.participants

  unread_for-seat :
      (receiver : Option UserKey) (discussion : ℕ) (s : Store) (k : ℕ) (q : Participant)
      → seat k s ≡ some q
      → seat k (unread_for prisma receiver discussion s)
        ≡ some
            (if q.discussion_id == discussion && is_key receiver q.user_id then one_unread q else q)
  unfolding unread_for
  unread_for-seat none discussion s k q found = ground (arith, found)
  unread_for-seat (some user) discussion s k q found = ground (
    arith,
    found,
    prisma.participant.find_unique-update_many k (is_member user discussion) one_unread
        s.participants,
  )

  notify-seat :
      (receiver : Option UserKey) (discussion : ℕ) (s : Store) (k : ℕ)
      → seat k (notify_recipient prisma receiver discussion s) ≡ seat k s
  unfolding notify_recipient
  notify-seat none discussion s k = refl
  notify-seat (some user) discussion s k = refl

  -- A message that is posted raises by one the unread counter of the other participant in that
  -- discussion, and leaves every other counter, the sender's among them; one that fails changes
  -- nothing.
  pub post-unread :
      (now : ℕ) (d : Draft) (s : Store) (k : ℕ) (q : Participant)
      → seat k s ≡ some q
      → ((e : HttpError) × (post_private prisma now d s ≡ (err e, s)))
        ⊎ MayPost prisma d.sender d.discussion s
          × ((post_private prisma now d s).0 ≡ ok d.new_id)
          × (seat k (post_private prisma now d s).1
              ≡ some (
                  if q.discussion_id == d.discussion && is_key (receiver_of prisma d s) q.user_id
                  then one_unread q
                  else q))
  unfolding posted
  post-unread now d s k q found = elim (post_cases prisma now d s) [
    | inl failed ↦ inl failed
    | inr p ↦ inr (
      p.may,
      rw p.result refl,
      rw (p.result, notify-seat (receiver_of prisma d s) d.discussion _ k)
          (unread_for-seat (receiver_of prisma d s) d.discussion _ k q found),
    )
  ]

  -- A participant, and nobody else, can mark a private discussion as read: the participant's own
  -- counter there becomes zero, and every other counter stays.
  pub read-unread :
      (now discussion : ℕ) (user : UserKey) (s : Store) (k : ℕ) (q : Participant)
      → seat k s ≡ some q
      → let done = mark_private_discussion_as_read prisma now discussion user s in
        ((e : HttpError) × (done ≡ (err e, s)))
        ⊎ (is_some (prisma.participant.find_first (is_member user discussion) s.participants)
            ≡ true)
          × (done.0 ≡ ok tt)
          × (seat k done.1
              ≡ some (
                  if q.user_id == user && q.discussion_id == discussion then all_read now q else q))
  unfolding mark_private_discussion_as_read
  read-unread now discussion user s k q found = elim (member_cases prisma user discussion s) [
    | inl (e, failed) ↦ inl (e, ground (arith, failed))
    | inr (room, opened, member, passed) ↦ inr (
      member,
      ground (arith, passed),
      ground (
        arith,
        passed,
        found,
        prisma.participant.find_unique-update_many k (is_member user discussion) (all_read now)
            s.participants,
      ),
    )
  ]
