-- ===== src/Notifications/InApp.antt =====
-- `createInApp`: unless the user has turned it off, or the same was created within 30 seconds.
use south_connect.Prelude.{
  ℕ, ◌+◌, ◌*◌, ◌<◌, ◌≡◌, refl, ap, ◌⊎◌, inl, inr, Bool, true, false, not, ◌&&◌, Option, none, some,
  ◌∷◌, arith, ◌==◌, or_default, if◌then◌else◌, Bool-cases, Option-cases, bit,
}
use south_connect.Prelude.Pairing.{pair}
use south_connect.Database.{Where, Table}
use south_connect.Redis.{Key, notif_dedup, set_nx, same_key_refl}
use south_connect.Schema.{Text, UserKey}
use south_connect.Opportunities.Views.{Link, missing, failing, working}
use south_connect.Notifications.{
  Kind, Notification, Choices, Bell, Services, load_prefs, application_submitted,
  application_received, application_reviewed, application_accepted, opportunity_approved,
  opportunity_rejected, new_message, new_follower, other_kind,
}

-- `IN_APP_PREF`: what the user has chosen for a type, where there is such a choice.
abbrev pub in_app_pref : Kind → Choices → Bool
in_app_pref application_submitted c = c.in_app_application_submitted
in_app_pref application_received c = c.in_app_application_submitted
in_app_pref application_reviewed c = c.in_app_application_reviewed
in_app_pref application_accepted c = c.in_app_application_accepted
in_app_pref opportunity_approved c = c.in_app_opportunity_approved
in_app_pref opportunity_rejected c = c.in_app_opportunity_rejected
in_app_pref new_message c = c.in_app_new_message
in_app_pref new_follower c = c.in_app_new_follower
in_app_pref (other_kind n) c = true

abbrev pub is_off : Kind → Option Choices → Bool
is_off kind none = false
is_off kind (some c) = not (in_app_pref kind c)

abbrev kind_code : Kind → ℕ
kind_code application_submitted = 0
kind_code application_received = 1
kind_code application_reviewed = 2
kind_code application_accepted = 3
kind_code opportunity_approved = 4
kind_code opportunity_rejected = 5
kind_code new_message = 6
kind_code new_follower = 7
kind_code (other_kind n) = 8 + n

-- By user, type, and link or the empty text.
abbrev pub dedup_key : UserKey → Kind → Option Text → Key
dedup_key user kind link = record {
  prefix = notif_dedup;
  part = user;
  rest = pair (kind_code kind) (or_default link 0);
}

abbrev pub notification_of : UserKey → Kind → Text → Option Text → Option Text → Notification
notification_of user kind title body link = record {
  user_id = user;
  kind = kind;
  title = title;
  body = body;
  link = link;
  is_read = false;
}

module _ (sv : Services) where
  -- The row, and a push to the user's sockets; an error of the database is logged.
  abbrev pub persist : ℕ → Notification → Bell → Bell
  persist new_id n b = elim (sv.notification.create (λ k m. false) new_id n b.notifications) [
    | none ↦ b
    | some t ↦ record b { notifications = t; pushes = (n.user_id, new_id) ∷ b.pushes }
  ]

  -- A reply `null` says that the key was there. A command that fails lets the notification through.
  abbrev pub deduplicated : Link → (now : ℕ) → Key → Bell → Bool × Bell
  deduplicated working now k b =
      let (is_new, e) = set_nx sv.redis now k 1 30 b.entries in (is_new, record b { entries = e })
  deduplicated _ now k b = (true, b)

  unfoldable pub create_in_app :
      Link → (now new_id : ℕ) → UserKey → Kind → Text → Option Text → Option Text → Bell → Bell
  create_in_app link now new_id user kind title body url b =
      if is_off kind (load_prefs sv user b)
      then b
      else (let (is_new, c) = deduplicated link now (dedup_key user kind url) b in
          if is_new then persist new_id (notification_of user kind title body url) c else c)

  -- The unread notifications of a user.
  abbrev pub unread : UserKey → Where Notification
  unread user k n = n.user_id == user && not n.is_read

  -- The claim of the key writes no rows.
  dedup_rows :
      (link : Link) (now : ℕ) (k : Key) (b : Bell)
      → ((deduplicated link now k b).1.notifications ≡ b.notifications)
        × ((deduplicated link now k b).1.preferences ≡ b.preferences)
  dedup_rows missing now k b = (refl, refl)
  dedup_rows failing now k b = (refl, refl)
  dedup_rows working now k b = (refl, refl)

  pub record Creates (new_id : ℕ) (n : Notification) (b c : Bell) : Type 0 where
    pub table : Table Notification
    pub made : sv.notification.create (λ k m. false) new_id n b.notifications ≡ some table
    pub stored : c.notifications ≡ table

  persist_cases :
      (new_id : ℕ) (n : Notification) (b : Bell)
      → ((persist new_id n b).notifications ≡ b.notifications)
        ⊎ Creates new_id n b (persist new_id n b)
  persist_cases new_id n b =
      elim (Option-cases (sv.notification.create (λ k m. false) new_id n b.notifications)) [
        | inl clash ↦ inl (ground (arith, clash))
        | inr (t, made) ↦ inr (record { table = t; made = made; stored = ground (arith, made) })
      ]

  pub create_cases :
      (link : Link) (now new_id : ℕ) (user : UserKey) (kind : Kind) (title : Text)
      (body url : Option Text) (b : Bell)
      → let c = create_in_app link now new_id user kind title body url b in
        (c.notifications ≡ b.notifications)
        ⊎ ((is_off kind (load_prefs sv user b) ≡ false)
            × Creates new_id (notification_of user kind title body url) b c)
  unfolding create_in_app
  create_cases link now new_id user kind title body url b =
      let k = dedup_key user kind url in
      let n = notification_of user kind title body url in
      let c = (deduplicated link now k b).1 in
      let (same, _) = dedup_rows link now k b in
      elim (Bool-cases (is_off kind (load_prefs sv user b))) [
        | inl off ↦ inl (ground (arith, off))
        | inr wanted ↦ elim (Bool-cases (deduplicated link now k b).0) [
          | inr old ↦ inl (ground (arith, wanted, old, same))
          | inl new ↦ elim (persist_cases new_id n c) [
            | inl failed ↦ inl (ground (arith, wanted, new, same, failed))
            | inr p ↦ inr (
              wanted,
              record {
                table = p.table;
                made = ground (arith, same, p.made);
                stored = ground (arith, wanted, new, p.stored);
              },
            )
          ]
        ]
      ]

  -- A user's notification raises the user's unread count by one and no one else's, or leaves
  -- every count: where the user has turned its type off, where the same was created less than
  -- thirty seconds ago, or where its row was not written.
  pub create_in_app-unread :
      (link : Link) (now new_id : ℕ) (user : UserKey) (kind : Kind) (title : Text)
      (body url : Option Text) (b : Bell) (reader : UserKey)
      → let c = create_in_app link now new_id user kind title body url b in
        (sv.notification.count (unread reader) c.notifications
          ≡ sv.notification.count (unread reader) b.notifications)
        ⊎ ((is_off kind (load_prefs sv user b) ≡ false)
            × (sv.notification.count (unread reader) c.notifications
                ≡ sv.notification.count (unread reader) b.notifications + bit (user == reader)))
  create_in_app-unread link now new_id user kind title body url b reader =
      elim (create_cases link now new_id user kind title body url b) [
        | inl same ↦ inl (ap (sv.notification.count (unread reader)) same)
        | inr (wanted, p) ↦ inr (
          wanted,
          ground (
            arith,
            p.stored,
            sv.notification.count-create (λ k m. false) new_id
                (notification_of user kind title body url) b.notifications p.table (unread reader)
                p.made,
          ),
        )
      ]

  -- While Redis works and a notification is not remembered, then once it is made, the same type with
  -- the same link changes nothing for the user within thirty seconds, also where the row of the first was not written.
  pub create_in_app-again :
      (now later new_id next_id : ℕ) (user : UserKey) (kind : Kind) (title next_title : Text)
      (body next_body url : Option Text) (b : Bell)
      → sv.redis.get now (dedup_key user kind url) b.entries ≡ none
      → later < now + 30 * 1000
      → let c = create_in_app working now new_id user kind title body url b in
        create_in_app working later next_id user kind next_title next_body url c ≡ c
  unfolding create_in_app
  create_in_app-again now later new_id next_id user kind title next_title body next_body url b free
        early =
      let k = dedup_key user kind url in
      let n = notification_of user kind title body url in
      elim (Bool-cases (is_off kind (load_prefs sv user b))) [
        | inl off ↦ ground (arith, off)
        | inr wanted ↦
            let held : sv.redis.get later k (sv.redis.set now k 1 30 b.entries) ≡ some 1 =
              ground
                (arith, early, same_key_refl k, sv.redis.get-set now later k k 1 30 b.entries) in
            elim (Option-cases (sv.notification.create (λ k m. false) new_id n b.notifications)) [
              | inl clash ↦ ground (arith, wanted, free, held, clash)
              | inr (t, made) ↦ ground (arith, wanted, free, held, made)
            ]
      ]
