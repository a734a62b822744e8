-- ===== src/Messages/Private/Retry.antt =====
-- Retries of a private message.
use south_connect.Prelude.{
  ℕ, ◌+◌, ◌≡◌, ◌≢◌, ◌<◌, refl, sym, subst, ◌⊎◌, inl, inr, true, false, ◌&&◌, Option, none, some,
  arith, ◌==◌, Bool-cases,
}
use south_connect.Action.{Result, ok, err, HttpError}
use south_connect.Redis.{Redis, private_dedup}
use south_connect.Schema.{Text, UserKey, Store, Prisma}
use south_connect.Messages.{Env, Chat, dedup_key, same_client_id, cached, remember}
use south_connect.Messages.Private.{Draft, private_message, reply, finish, create_private_message}
use south_connect.Messages.Private.Outcome.{Posts, post_cases, posted, posted-messages, receiver_of}

module _ (prisma : Prisma) (redis : Redis) where
  -- A message that nobody remembers is posted.
  first_cases :
      (env : Env) (d : Draft) (c : Chat)
      → cached redis env private_dedup d.sender d.client_id c ≡ none
      → ((e : HttpError) × (create_private_message prisma redis env d c ≡ (err e, c)))
        ⊎ (p : Posts prisma env.now d c.store) × (create_private_message prisma redis env d c ≡ (
          ok d.new_id,
          remember redis env private_dedup d.sender d.client_id d.new_id
              (record c { store = posted prisma env.now d p.table c.store }),
        ))
  unfolding create_private_message reply finish
  first_cases env d c unseen = elim (post_cases prisma env.now d c.store) [
    | inl (e, failed) ↦ inl (e, rw (unseen, failed) refl)
    | inr p ↦ inr (p, rw (unseen, p.result) refl)
  ]

  remembered :
      (env later : Env) (sender : UserKey) (client message : ℕ) (c : Chat)
      → client ≢ 0
      → env.has_redis && env.redis_ok ≡ true
      → later.has_redis && later.redis_ok ≡ true
      → later.now < env.now + 60000
      → cached redis later private_dedup sender
          (some client)
          (remember redis env private_dedup sender (some client) message c)
        ≡ some message
  remembered env later sender client message c some_id up up' soon =
      let key = dedup_key redis private_dedup sender client in
      ground (arith, redis.get-set env.now later.now key key message 60 c.redis)

  forgotten :
      (later : Env) (sender : UserKey) (id : Option Text) (c : Chat)
      → later.has_redis && later.redis_ok ≡ false
      → cached redis later private_dedup sender id c ≡ none
  forgotten later sender none c away = refl
  forgotten later sender (some id) c away = ground (arith, away)

  answered :
      (later : Env) (again : Draft) (t : Chat) (message : ℕ)
      → cached redis later private_dedup again.sender again.client_id t ≡ some message
      → create_private_message prisma redis later again t ≡ (ok message, t)
  unfolding create_private_message reply
  answered later again t message hit = rw hit refl

  -- A client id that a stored message has cannot be posted again.
  not_again :
      (now later : ℕ) (d again : Draft) (s u : Store) (client : Text)
      → d.client_id ≡ some client
      → again.client_id ≡ some client
      → (p : Posts prisma now d s) → u.messages ≡ p.table
      → Posts prisma later again u
      → ⊥
  not_again now later d again s u client id same p kept q =
      let row = private_message d (receiver_of prisma d s) in
      let stored =
        prisma.message.find_unique-create (same_client_id d.client_id) d.new_id row s.messages
          p.table d.new_id p.made in
      ground (
        arith,
        id,
        same,
        kept,
        stored,
        prisma.message.create-unique (same_client_id again.client_id) again.new_id
            (private_message again (receiver_of prisma again u)) u.messages q.table d.new_id row
            q.made,
      )

  remember-store :
      (env : Env) (sender : UserKey) (id : Option Text) (message : ℕ) (c : Chat)
      → (remember redis env private_dedup sender id message c).store ≡ c.store
  remember-store env sender none message c = refl
  remember-store env sender (some id) message c = elim (Bool-cases (id == 0)) [
    | inl empty ↦ rw empty refl
    | inr full ↦ rw full refl
  ]

  -- Within a minute, and while Redis answers, a retry by the same sender with the same client id
  -- returns the message of the first try, whatever its content, and changes nothing.
  pub retry_cached :
      (env later : Env) (d again : Draft) (c : Chat) (client : Text)
      → cached redis env private_dedup d.sender d.client_id c ≡ none
      → (create_private_message prisma redis env d c).0 ≡ ok d.new_id
      → d.client_id ≡ some client
      → client ≢ 0
      → again.client_id ≡ some client
      → again.sender ≡ d.sender
      → env.has_redis && env.redis_ok ≡ true
      → later.has_redis && later.redis_ok ≡ true
      → later.now < env.now + 60000
      → let t = (create_private_message prisma redis env d c).1 in
        create_private_message prisma redis later again t ≡ (ok d.new_id, t)
  retry_cached env later d again c client unseen sent id some_id same mine up up' soon =
      elim (first_cases env d c unseen) [
        | inl (e, failed) ↦ ground (arith, sent, failed)
        | inr (p, done) ↦
            let Answers : Result ℕ × Chat → Type 0 =
              λ out. create_private_message prisma redis later again out.1 ≡ (ok d.new_id, out.1) in
            subst Answers (sym done) (
              answered later again _ d.new_id (
                rw (id, same, mine)
                  (remembered env later d.sender client d.new_id _ some_id up up' soon)))
      ]

  -- With Redis away, the unique key of the client id still keeps a retry from storing a second
  -- message: the retry fails, and changes nothing.
  pub retry_unique :
      (env later : Env) (d again : Draft) (c : Chat) (client : Text)
      → cached redis env private_dedup d.sender d.client_id c ≡ none
      → (create_private_message prisma redis env d c).0 ≡ ok d.new_id
      → d.client_id ≡ some client
      → again.client_id ≡ some client
      → later.has_redis && later.redis_ok ≡ false
      → let t = (create_private_message prisma redis env d c).1 in
        (e : HttpError) × (create_private_message prisma redis later again t ≡ (err e, t))
  retry_unique env later d again c client unseen sent id same away =
      elim (first_cases env d c unseen) [
        | inl (e, failed) ↦ ground (arith, sent, failed)
        | inr (p, done) ↦
            let Fails : Result ℕ × Chat → Type 0 = λ out.
              (e : HttpError) × (create_private_message prisma redis later again out.1
                ≡ (err e, out.1)) in
            let w = record c { store = posted prisma env.now d p.table c.store } in
            let t = remember redis env private_dedup d.sender d.client_id d.new_id w in
            subst Fails (sym done)
              (elim (first_cases later again t
                (forgotten later again.sender again.client_id t away)) [
                  | inl failed ↦ failed
                  | inr (q, _) ↦
                      elim (not_again env.now later.now d again c.store t.store client id same p
                        (rw (remember-store env d.sender d.client_id d.new_id w)
                          (posted-messages prisma env.now d p.table c.store))
                        q) [ ]
                ])
      ]
