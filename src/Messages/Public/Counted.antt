-- ===== src/Messages/Public/Counted.antt =====
-- `messagesCount` of a public discussion is the number of its messages.
use south_connect.Prelude.{
  ℕ, ◌≡◌, sym, subst, ◌⊎◌, inl, inr, Bool, some, arith, is_key, Option-cases, List, [], ◌∷◌,
}
use south_connect.Prelude.Int.{pos, pos_one_more}
use south_connect.Database.{Where, Table}
use south_connect.Database.Keyed.{at, always}
use south_connect.Schema.{Message, PublicDiscussion, Store, Prisma}
use south_connect.Messages.{same_client_id}
use south_connect.Messages.Private.{Draft, private_message, post_private}
use south_connect.Messages.Private.Outcome.{
  post_cases, posted-messages, posted-public_discussions, receiver_of, sender_cases,
}
use south_connect.Messages.Public.{public_message, one_message, post_public}

-- The messages of a public discussion.
abbrev pub in_public : ℕ → Where Message
in_public discussion k m = is_key m.public_discussion_id discussion

pub record MessagesExact (prisma : Prisma) (s : Store) : Type 0 where
  pub exact :
      (k : ℕ) (p : PublicDiscussion)
      → prisma.public_discussion.find_unique k s.public_discussions ≡ some p
      → p.messages_count ≡ pos (prisma.message.count (in_public k) s.messages)

-- A message to a public discussion, or to a private one.
pub data Post : Type 0 where
  to_public to_private : (counters_ok : Bool) → (now : ℕ) → Draft → Post

module _ (prisma : Prisma) where
  unfoldable pub post : Post → Store → Store
  post (to_public counters_ok now d) s = (post_public prisma counters_ok now d s).1
  post (to_private counters_ok now d) s = (post_private prisma now d s).1

  unfoldable pub post_all : List Post → Store → Store
  post_all [] s = s
  post_all (p ∷ rest) s = post_all rest (post p s)

  public_cases :
      (counters_ok : Bool) (now : ℕ) (d : Draft) (s : Store)
      → let t = (post_public prisma counters_ok now d s).1 in
        (t ≡ s)
        ⊎ (table : Table Message) × (prisma.message.create
              (same_client_id d.client_id)
              d.new_id
              (public_message d)
              s.messages
            ≡ some table)
          × (t.messages ≡ table)
          × (t.public_discussions
              ≡ prisma.public_discussion.update_many
                  (at d.discussion always)
                  (one_message now)
                  s.public_discussions)
  unfolding post_public
  public_cases counters_ok now d s = elim (sender_cases prisma d.sender s) [
    | inl (e, failed) ↦ inl (ground (arith, failed))
    | inr (account, found, present, allowed, passed) ↦
        elim (Option-cases
          (prisma.public_discussion.find_unique d.discussion s.public_discussions)) [
            | inl absent ↦ inl (ground (arith, passed, absent))
            | inr (p, there) ↦
                elim (Option-cases (
                  prisma.message.create (same_client_id d.client_id) d.new_id (public_message d)
                    s.messages)) [
                      | inl clash ↦ inl (ground (arith, passed, there, clash))
                      | inr (table, made) ↦ inr (
                        table,
                        made,
                        ground (arith, passed, there, made),
                        ground (arith, passed, there, made),
                      )
                    ]
          ]
  ]

  public-MessagesExact :
      (counters_ok : Bool) (now : ℕ) (d : Draft) (s : Store)
      → MessagesExact prisma s
      → MessagesExact prisma (post_public prisma counters_ok now d s).1
  public-MessagesExact counters_ok now d s c = elim (public_cases counters_ok now d s) [
    | inl same ↦ subst (MessagesExact prisma) (sym same) c
    | inr (table, made, stored, moved) ↦ record {
      exact = λ k p found.
          let law =
            prisma.public_discussion.find_unique-update_many k (at d.discussion always)
              (one_message now) s.public_discussions in
          let grown =
            prisma.message.count-create (same_client_id d.client_id) d.new_id (public_message d)
              s.messages table (in_public k) made in
          elim (Option-cases (prisma.public_discussion.find_unique k s.public_discussions)) [
            | inl absent ↦ ground (arith, found, moved, absent, law)
            | inr (q, present) ↦ ground (
              arith,
              found,
              moved,
              stored,
              present,
              law,
              grown,
              c.exact k q present,
              pos_one_more (prisma.message.count (in_public k) s.messages),
            )
          ];
    }
  ]

  private-MessagesExact :
      (now : ℕ) (d : Draft) (s : Store)
      → MessagesExact prisma s
      → MessagesExact prisma (post_private prisma now d s).1
  private-MessagesExact now d s c = elim (post_cases prisma now d s) [
    | inl (e, failed) ↦ rw failed c
    | inr p ↦ rw p.result (record {
      exact = λ k q found.
          let grown =
            prisma.message.count-create (same_client_id d.client_id) d.new_id
              (private_message d (receiver_of prisma d s)) s.messages p.table (in_public k)
              p.made in
          ground (
            arith,
            grown,
            posted-messages prisma now d p.table s,
            c.exact k q (rw (posted-public_discussions prisma now d p.table s) at found),
          );
    })
  ]

  post-MessagesExact :
      (p : Post) (s : Store) → MessagesExact prisma s → MessagesExact prisma (post p s)
  unfolding post
  post-MessagesExact (to_public counters_ok now d) s c = public-MessagesExact counters_ok now d s c
  post-MessagesExact (to_private counters_ok now d) s c = private-MessagesExact now d s c

  -- After any sequence of messages, to public and to private discussions, posted or refused, that
  -- begins where the counters are exact, every public discussion's `messagesCount` is the number of
  -- its messages.
  pub post_all-MessagesExact :
      (posts : List Post) (s : Store)
      → MessagesExact prisma s
      → MessagesExact prisma (post_all posts s)
  unfolding post_all
  post_all-MessagesExact [] s c = c
  post_all-MessagesExact (p ∷ rest) s c =
      post_all-MessagesExact rest (post p s) (post-MessagesExact p s c)
