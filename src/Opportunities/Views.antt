-- ===== src/Opportunities/Views.antt =====
-- `incrementViewsIfNew` and `incrementShares`: counters that Redis keeps from counting twice.
use south_connect.Prelude.{
  ℕ, ◌*◌, ◌+◌, ◌/◌, ◌<◌, ◌≡◌, refl, sym, ap, subst, ◌∙◌, inl, inr, Bool, true, false, ◌&&◌, none,
  some, List, [], ◌∷◌, any, bit, not, arith, ◌==◌, ==_refl, is_some, if◌then◌else◌, Bool-cases,
  Option-cases,
}
use south_connect.Prelude.Int.{ℤ, pos, ◌+ℤ◌, int_laws}
use south_connect.Prelude.Pairing.{pair}
use south_connect.Database.Keyed.{at, always}
use south_connect.Redis.{Redis, Entries, Key, shares, views, set_nx}
use south_connect.Schema.{UserKey, Opportunity, Store, Prisma}

-- The database beside Redis.
pub record Cached : Type 0 where
  pub store : Store
  pub entries : Entries

-- `this.redis` may be missing, and a command may fail.
pub data Link : Type 0 where
  missing failing working : Link

abbrev pub viewed_more : Opportunity → Opportunity
viewed_more o = record o { views_count = o.views_count +ℤ pos 1 }

abbrev pub shared_more : Opportunity → Opportunity
shared_more o = record o { shared_count = o.shared_count +ℤ pos 1 }

-- A viewer is a user or an address, as a number.
abbrev pub view_key : ℕ → ℕ → Key
view_key id viewer = record { prefix = views; part = id; rest = viewer }

-- `toISOString().slice(0, 10)`, of a time in milliseconds.
abbrev pub day_of : ℕ → ℕ
day_of now = now / 86400000

abbrev pub share_key : ℕ → UserKey → ℕ → Key
share_key id user day = record { prefix = shares; part = user; rest = pair id day }

module _ (prisma : Prisma) (redis : Redis) where
  abbrev pub count_view : ℕ → Store → Store
  count_view id s = record s {
    opportunities = prisma.opportunity.update_many (at id always) viewed_more s.opportunities;
  }

  abbrev pub count_share : ℕ → Store → Store
  count_share id s = record s {
    opportunities = prisma.opportunity.update_many (at id always) shared_more s.opportunities;
  }

  -- After `SET key 1 EX 86400 NX`: what is written if the key was free.
  abbrev pub once_a_day : ℕ → Key → (Store → Store) → Cached → Cached
  once_a_day now k write c =
      let (is_new, e) = set_nx redis now k 1 86400 c.entries in
      record { store = if is_new then write c.store else c.store; entries = e }

  -- A command that fails counts the view.
  unfoldable pub increment_views_if_new : Link → (now : ℕ) → ℕ → (viewer : ℕ) → Cached → Cached
  increment_views_if_new working now id viewer c =
      once_a_day now (view_key id viewer) (count_view id) c
  increment_views_if_new _ now id viewer c = record c { store = count_view id c.store }

  -- A command that fails does not count the share.
  unfoldable pub increment_shares : Link → (now : ℕ) → ℕ → UserKey → Cached → Cached
  increment_shares missing now id user c = record c { store = count_share id c.store }
  increment_shares failing now id user c = c
  increment_shares working now id user c =
      once_a_day now (share_key id user (day_of now)) (count_share id) c

  -- Shares of one opportunity, one after the other.
  unfoldable pub share_all : ℕ → List (ℕ × UserKey) → Cached → Cached
  share_all id [] c = c
  share_all id ((now, user) ∷ rest) c = share_all id rest (increment_shares working now id user c)

  -- The users that are not yet among those seen, each once.
  abbrev pub newcomers : List UserKey → List (ℕ × UserKey) → ℕ
  newcomers seen [] = 0
  newcomers seen ((now, user) ∷ rest) =
      bit (not (any (λ u. u == user) seen)) + newcomers (user ∷ seen) rest

  abbrev pub on_day : ℕ → List (ℕ × UserKey) → Bool
  on_day day [] = true
  on_day day ((now, user) ∷ rest) = day_of now == day && on_day day rest

  abbrev Seen : ℕ → ℕ → List UserKey → Entries → Type 0
  Seen id day seen e =
      (now : ℕ) (user : UserKey)
      → day_of now ≡ day
      → is_some (redis.get now (share_key id user day) e) ≡ any (λ u. u == user) seen

  same_day : (a b day : ℕ) → day_of a ≡ day → day_of b ≡ day → b < a + 86400 * 1000
  same_day a b day on_a on_b = omega (arith, on_a, on_b)

  Seen-more :
      (id day now : ℕ) (user : UserKey) (seen : List UserKey) (e : Entries)
      → day_of now ≡ day
      → Seen id day seen e
      → Seen id day (user ∷ seen) (redis.set now (share_key id user day) 1 86400 e)
  Seen-more id day now user seen e today known later u on = ground (
    arith,
    redis.get-set now later (share_key id user day) (share_key id u day) 1 86400 e,
    same_day now later day today on,
    known later u on,
    ==_refl (pair id day),
  )

  Seen-again :
      (id day : ℕ) (user : UserKey) (seen : List UserKey) (e : Entries)
      → any (λ u. u == user) seen ≡ true
      → Seen id day seen e
      → Seen id day (user ∷ seen) e
  Seen-again id day user seen e old known later u on = elim (Bool-cases (user == u)) [
    | inl mine ↦ ground (arith, mine, old, known later user on)
    | inr other ↦ ground (arith, other, known later u on)
  ]

  -- The opportunity has been shared so many times more.
  abbrev pub SharedMore : ℕ → Opportunity → ℕ → Cached → Type 0
  SharedMore id o n c =
      (q : Opportunity) × (prisma.opportunity.find_unique id c.store.opportunities ≡ some q)
      × (q.shared_count ≡ o.shared_count +ℤ pos n)

  share_again :
      (now id : ℕ) (user : UserKey) (c : Cached) (day : ℕ)
      → day_of now ≡ day
      → is_some (redis.get now (share_key id user day) c.entries) ≡ true
      → increment_shares working now id user c ≡ c
  unfolding increment_shares
  share_again now id user c day today held =
      elim (Option-cases (redis.get now (share_key id user day) c.entries)) [
        | inl free ↦ ground (arith, free, held)
        | inr (v, there) ↦ ground (arith, there, today)
      ]

  share_first :
      (now id : ℕ) (user : UserKey) (c : Cached) (day : ℕ)
      → day_of now ≡ day
      → is_some (redis.get now (share_key id user day) c.entries) ≡ false
      → increment_shares working now id user c ≡ record {
        store = count_share id c.store;
        entries = redis.set now (share_key id user day) 1 86400 c.entries;
      }
  unfolding increment_shares
  share_first now id user c day today free_key =
      elim (Option-cases (redis.get now (share_key id user day) c.entries)) [
        | inl free ↦ ground (arith, free, today)
        | inr (v, there) ↦ ground (arith, there, free_key)
      ]

  shares-Seen :
      (requests : List (ℕ × UserKey)) (id day : ℕ) (seen : List UserKey) (c : Cached)
      (o : Opportunity)
      → on_day day requests ≡ true
      → Seen id day seen c.entries
      → prisma.opportunity.find_unique id c.store.opportunities ≡ some o
      → SharedMore id o (newcomers seen requests) (share_all id requests c)
  unfolding share_all increment_shares
  shares-Seen [] id day seen c o on known present = (o, present, omega int_laws)
  shares-Seen ((now, user) ∷ rest) id day seen c o on known present =
      let today : day_of now ≡ day = ground (arith, on) in
      let later : on_day day rest ≡ true = ground (arith, on) in
      let before = known now user today in
      elim (Bool-cases (any (λ u. u == user) seen)) [
        | inl old ↦
            subst (SharedMore id o (newcomers seen ((now, user) ∷ rest)))
              (ap (share_all id rest) (sym (share_again now id user c day today (before ∙ old))))
              (subst (λ n. SharedMore id o n (share_all id rest c)) (ground (arith, old))
                (shares-Seen rest id day (user ∷ seen) c o later
                  (Seen-again id day user seen c.entries old known) present))
        | inr new ↦
            let (q, there, more) =
              shares-Seen rest id day (user ∷ seen)
                (record {
                  store = count_share id c.store;
                  entries = redis.set now (share_key id user day) 1 86400 c.entries;
                })
                (shared_more o) later (Seen-more id day now user seen c.entries today known)
                (ground (
                  arith,
                  present,
                  prisma.opportunity.find_unique-update_many id (at id always) shared_more
                      c.store.opportunities,
                )) in
            subst (SharedMore id o (newcomers seen ((now, user) ∷ rest)))
              (ap (share_all id rest) (sym (share_first now id user c day today (before ∙ new))))
              (
                q,
                there,
                more
                    ∙ one_more o.shared_count (newcomers (user ∷ seen) rest)
                    ∙ ap (λ b. o.shared_count +ℤ pos (bit (not b) + newcomers (user ∷ seen) rest))
                        (sym new),
              )
      ]
    where
      one_more : (a : ℤ) (n : ℕ) → a +ℤ pos 1 +ℤ pos n ≡ a +ℤ pos (1 + n)
      one_more a n = omega int_laws

  -- When a day begins with no share of an opportunity remembered, any sequence of shares of it on
  -- that day, while Redis works, raises its counter by the number of different users among them.
  pub share_all-SharedMore :
      (requests : List (ℕ × UserKey)) (id day : ℕ) (c : Cached) (o : Opportunity)
      → on_day day requests ≡ true
      → ((now : ℕ) (user : UserKey) → redis.get now (share_key id user day) c.entries ≡ none)
      → prisma.opportunity.find_unique id c.store.opportunities ≡ some o
      → SharedMore id o (newcomers [] requests) (share_all id requests c)
  share_all-SharedMore requests id day c o on fresh present =
      shares-Seen requests id day [] c o on (λ now user today. rw (fresh now user) refl) present
