-- ===== src/Messages/Tests.antt =====
-- The theorems on messages in a concrete discussion.
use south_connect.Prelude.{ℕ, zero, suc, ◌≡◌, refl, true, none, some, [], ◌∷◌, arith}
use south_connect.Prelude.Int.{pos}
use south_connect.Action.{ok}
use south_connect.Database.Rows.{rows}
use south_connect.Redis.{memory, private_dedup}
use south_connect.Schema.{Participant, PublicDiscussion, open_forum, Store}
use south_connect.Samples.{stored_rows, empty_store, member_with}
use south_connect.Messages.{Env, Chat, cached, check_member, check_sender}
use south_connect.Messages.Private.{
  Draft, reply, finish, insert_private, post_private, create_private_message,
}
use south_connect.Messages.Private.Retry.{retry_cached}
use south_connect.Messages.Public.Counted.{
  MessagesExact, to_public, to_private, post_all, post_all-MessagesExact,
}

abbrev seat_of : ℕ → Participant
seat_of user = record {
  user_id = user;
  discussion_id = 0;
  unread_count = pos 0;
  last_read_at = none;
}

abbrev forum : PublicDiscussion
forum = record {
  title = 1;
  kind = open_forum;
  owner_id = 0;
  opportunity_id = none;
  messages_count = pos 0;
  likes_count = pos 0;
  members_count = pos 0;
  last_message_at = none;
}

-- Users 0 and 1, their private discussion, and a public one.
abbrev room : Store
room = record empty_store {
  users = some (member_with 0 none) ∷ some (member_with 1 none) ∷ [];
  private_discussions = some (record { last_message_at = none }) ∷ [];
  participants = some (seat_of 0) ∷ some (seat_of 1) ∷ [];
  public_discussions = some forum ∷ [];
}

abbrev chat : Chat
chat = record { store = room; redis = λ k. none }

abbrev hello : Draft
hello = record { new_id = 0; discussion = 0; sender = 0; content = 4; client_id = some 9 }

-- The retry asks for another key.
abbrev hello_again : Draft
hello_again = record hello { new_id = 1 }

abbrev env_at : ℕ → Env
env_at now = record { now = now; has_redis = true; redis_ok = true }

unseen : cached memory (env_at 1) private_dedup 0 (some 9) chat ≡ none
unfolding memory
unseen = refl

sent : (create_private_message stored_rows memory (env_at 1) hello chat).0 ≡ ok 0
unfolding rows memory create_private_message reply finish post_private insert_private check_member
    check_sender
sent = refl

retry_cached_example :
    let t = (create_private_message stored_rows memory (env_at 1) hello chat).1 in
    create_private_message stored_rows memory (env_at 2000) hello_again t ≡ (ok 0, t)
retry_cached_example =
    retry_cached stored_rows memory (env_at 1) (env_at 2000) hello hello_again chat 9 unseen sent
      refl (λ e. ground (arith, e)) refl refl refl refl (omega arith)

forum_row :
    (k : ℕ) (p : PublicDiscussion)
    → stored_rows.public_discussion.find_unique k room.public_discussions ≡ some p
    → p.messages_count ≡ pos 0
unfolding rows
forum_row zero p found = ground (arith, found)
forum_row (suc k) p found = ground (arith, found)

room-MessagesExact : MessagesExact stored_rows room
unfolding rows
room-MessagesExact = record { exact = forum_row }

post_all-MessagesExact_example :
    MessagesExact stored_rows
      (post_all stored_rows (to_public true 1 hello ∷ to_private true 2 hello_again ∷ []) room)
post_all-MessagesExact_example =
    post_all-MessagesExact stored_rows (to_public true 1 hello ∷ to_private true 2 hello_again ∷ [])
      room room-MessagesExact
