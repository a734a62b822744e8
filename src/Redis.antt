-- ===== src/Redis.antt =====
-- Redis as the services use it: the client (ioredis) is a parameter with the documented laws of the
-- commands, and `memory` meets them. Times are in milliseconds, and a time to live in seconds.
use south_connect.Prelude.{
  ℕ, ◌+◌, ◌*◌, ◌≡◌, refl, Bool, true, false, ◌&&◌, Option, none, some, arith, ltb, ◌==◌,
  if◌then◌else◌, Bool-cases, inl, inr,
}

-- The prefixes of the keys, `login:attempts:`, `blocklist:rt:`, `oauth:`, `msgdedup:`, `views:`,
-- `share:`, `cron:lock:` and `notifdedup:`.
pub data Prefix : Type 0 where
  attempts blocklist oauth public_dedup private_dedup views shares cron_lock notif_dedup : Prefix

abbrev rank : Prefix → ℕ
rank attempts = 0
rank blocklist = 1
rank oauth = 2
rank public_dedup = 3
rank private_dedup = 4
rank views = 5
rank shares = 6
rank cron_lock = 7
rank notif_dedup = 8

-- A prefix, and the one or two parts behind it.
pub record Key : Type 0 where
  pub prefix : Prefix
  pub part : ℕ
  pub rest : ℕ

abbrev pub same_key : Key → Key → Bool
same_key j k = rank j.prefix == rank k.prefix && (j.part == k.part && j.rest == k.rest)

pub same_key_refl : (k : Key) → same_key k k ≡ true
same_key_refl k = ground arith

-- What is stored: a value, and when it expires, if ever.
abbrev pub Entries : Type 0
Entries = Key → Option (ℕ × Option ℕ)

-- A counter after INCR: a missing one begins at 1 and stays; any other keeps its time to live.
abbrev pub bumped : Option ℕ → Option ℕ → Option ℕ
bumped none seen = some 1
bumped (some n) none = none
bumped (some n) (some m) = some (m + 1)

pub record Redis : Type 0 where
  -- GET at a time
  pub get : ℕ → Key → Entries → Option ℕ
  -- SET key value EX seconds, at a time
  pub set : ℕ → Key → ℕ → ℕ → Entries → Entries
  -- INCR, which keeps the time to live, and EXPIRE
  pub incr : ℕ → Key → Entries → Entries
  pub expire : ℕ → Key → ℕ → Entries → Entries
  pub del : Key → Entries → Entries
  pub get-set :
      (now later : ℕ) (k j : Key) (v ttl : ℕ) (e : Entries)
      → get later j (set now k v ttl e) ≡ (
          if same_key j k
          then (if ltb later (now + ttl * 1000) then some v else none)
          else get later j e)
  pub get-del :
      (now : ℕ) (k j : Key) (e : Entries)
      → get now j (del k e) ≡ (if same_key j k then none else get now j e)
  pub get-incr :
      (now later : ℕ) (k j : Key) (e : Entries)
      → get later j (incr now k e)
        ≡ (if same_key j k then bumped (get now k e) (get later k e) else get later j e)
  pub get-expire :
      (now later : ℕ) (k j : Key) (ttl : ℕ) (e : Entries)
      → get later j (expire now k ttl e) ≡ (
          if same_key j k
          then (if ltb later (now + ttl * 1000) then get now k e else none)
          else get later j e)

-- SET key value EX seconds NX: whether the key was free, and the entries after it.
abbrev pub set_nx : Redis → ℕ → Key → ℕ → ℕ → Entries → Bool × Entries
set_nx redis now k v ttl e = elim (redis.get now k e) [
  | none ↦ (true, redis.set now k v ttl e)
  | some w ↦ (false, e)
]

-- GETDEL
abbrev pub getdel : Redis → ℕ → Key → Entries → Option ℕ × Entries
getdel redis now k e = (redis.get now k e, redis.del k e)

abbrev fresh : ℕ → Option (ℕ × Option ℕ) → Option ℕ
fresh now none = none
fresh now (some (v, none)) = some v
fresh now (some (v, some expiry)) = if ltb now expiry then some v else none

abbrev expiry_of : ℕ → Option (ℕ × Option ℕ) → Option ℕ
expiry_of now none = none
expiry_of now (some (v, none)) = none
expiry_of now (some (v, some expiry)) = if ltb now expiry then some expiry else none

abbrev one_more : Option ℕ → ℕ
one_more none = 1
one_more (some n) = n + 1

abbrev until : ℕ → Option ℕ → Option (ℕ × Option ℕ)
until expiry none = none
until expiry (some v) = some (v, some expiry)

abbrev get : ℕ → Key → Entries → Option ℕ
get now k e = fresh now (e k)

abbrev set : ℕ → Key → ℕ → ℕ → Entries → Entries
set now k v ttl e j = if same_key j k then some (v, some (now + ttl * 1000)) else e j

abbrev incr : ℕ → Key → Entries → Entries
incr now k e j =
    if same_key j k then some (one_more (fresh now (e k)), expiry_of now (e k)) else e j

abbrev expire : ℕ → Key → ℕ → Entries → Entries
expire now k ttl e j = if same_key j k then until (now + ttl * 1000) (fresh now (e k)) else e j

abbrev del : Key → Entries → Entries
del k e j = if same_key j k then none else e j

get_set :
    (now later : ℕ) (k j : Key) (v ttl : ℕ) (e : Entries)
    → get later j (set now k v ttl e) ≡ (
        if same_key j k
        then (if ltb later (now + ttl * 1000) then some v else none)
        else get later j e)
get_set now later k j v ttl e = ground arith

get_del :
    (now : ℕ) (k j : Key) (e : Entries)
    → get now j (del k e) ≡ (if same_key j k then none else get now j e)
get_del now k j e = ground arith

get_incr :
    (now later : ℕ) (k j : Key) (e : Entries)
    → get later j (incr now k e)
      ≡ (if same_key j k then bumped (get now k e) (get later k e) else get later j e)
get_incr now later k j e = elim (Bool-cases (same_key j k)) [
  | inl same ↦ rw same (ground arith)
  | inr other ↦ rw other refl
]

get_expire :
    (now later : ℕ) (k j : Key) (ttl : ℕ) (e : Entries)
    → get later j (expire now k ttl e) ≡ (
        if same_key j k
        then (if ltb later (now + ttl * 1000) then get now k e else none)
        else get later j e)
get_expire now later k j ttl e = elim (Bool-cases (same_key j k)) [
  | inl same ↦ rw same (ground arith)
  | inr other ↦ rw other refl
]

unfoldable pub memory : Redis
unfolding get_set get_del get_incr get_expire
memory = record {
  get = get;
  set = set;
  incr = incr;
  expire = expire;
  del = del;
  get-set = get_set;
  get-del = get_del;
  get-incr = get_incr;
  get-expire = get_expire;
}
