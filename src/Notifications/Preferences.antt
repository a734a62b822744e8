-- ===== src/Notifications/Preferences.antt =====
-- `getPreferences` and `updatePreferences`: the row is made when it is first asked for.
use south_connect.Prelude.{
  ℕ, ◌≡◌, refl, sym, ap, ◌∙◌, ◌⊎◌, inl, inr, Bool, true, not, Option, none, some, arith, ◌==◌,
  ==_refl, or_default, Bool-cases, Option-cases,
}
use south_connect.Action.{Action, HttpError, Result, ok, err, internal_error, ◌>>◌, gets}
use south_connect.Database.{Table}
use south_connect.Database.Keyed.{at, always}
use south_connect.Schema.{UserKey}
use south_connect.Notifications.{Kind, Choices, Bell, Services, of_choices, load_prefs, row_of}
use south_connect.Notifications.InApp.{is_off, in_app_pref}

-- The fields that a request provides.
pub record Changes : Type 0 where
  pub email_application_submitted : Option Bool
  pub email_application_reviewed : Option Bool
  pub email_application_accepted : Option Bool
  pub email_opportunity_approved : Option Bool
  pub email_opportunity_rejected : Option Bool
  pub email_new_message : Option Bool
  pub email_new_follower : Option Bool
  pub in_app_application_submitted : Option Bool
  pub in_app_application_reviewed : Option Bool
  pub in_app_application_accepted : Option Bool
  pub in_app_opportunity_approved : Option Bool
  pub in_app_opportunity_rejected : Option Bool
  pub in_app_new_message : Option Bool
  pub in_app_new_follower : Option Bool

-- Everything on, as the schema's defaults are.
abbrev pub all_on : UserKey → Choices
all_on user = record {
  user_id = user;
  email_application_submitted = true;
  email_application_reviewed = true;
  email_application_accepted = true;
  email_opportunity_approved = true;
  email_opportunity_rejected = true;
  email_new_message = true;
  email_new_follower = true;
  in_app_application_submitted = true;
  in_app_application_reviewed = true;
  in_app_application_accepted = true;
  in_app_opportunity_approved = true;
  in_app_opportunity_rejected = true;
  in_app_new_message = true;
  in_app_new_follower = true;
}

-- Only what is provided is changed.
unfoldable pub changed : Changes → Choices → Choices
changed d c = record c {
  email_application_submitted =
      or_default d.email_application_submitted c.email_application_submitted;
  email_application_reviewed = or_default d.email_application_reviewed c.email_application_reviewed;
  email_application_accepted = or_default d.email_application_accepted c.email_application_accepted;
  email_opportunity_approved = or_default d.email_opportunity_approved c.email_opportunity_approved;
  email_opportunity_rejected = or_default d.email_opportunity_rejected c.email_opportunity_rejected;
  email_new_message = or_default d.email_new_message c.email_new_message;
  email_new_follower = or_default d.email_new_follower c.email_new_follower;
  in_app_application_submitted =
      or_default d.in_app_application_submitted c.in_app_application_submitted;
  in_app_application_reviewed =
      or_default d.in_app_application_reviewed c.in_app_application_reviewed;
  in_app_application_accepted =
      or_default d.in_app_application_accepted c.in_app_application_accepted;
  in_app_opportunity_approved =
      or_default d.in_app_opportunity_approved c.in_app_opportunity_approved;
  in_app_opportunity_rejected =
      or_default d.in_app_opportunity_rejected c.in_app_opportunity_rejected;
  in_app_new_message = or_default d.in_app_new_message c.in_app_new_message;
  in_app_new_follower = or_default d.in_app_new_follower c.in_app_new_follower;
}

-- A request that provides nothing.
abbrev pub no_changes : Changes
no_changes = record {
  email_application_submitted = none;
  email_application_reviewed = none;
  email_application_accepted = none;
  email_opportunity_approved = none;
  email_opportunity_rejected = none;
  email_new_message = none;
  email_new_follower = none;
  in_app_application_submitted = none;
  in_app_application_reviewed = none;
  in_app_application_accepted = none;
  in_app_opportunity_approved = none;
  in_app_opportunity_rejected = none;
  in_app_new_message = none;
  in_app_new_follower = none;
}

Result-cases : (r : Result (Unit {0})) → (r ≡ ok tt) ⊎ ((e : HttpError) × (r ≡ err e))
Result-cases (ok tt) = inl refl
Result-cases (err e) = inr (e, refl)

module _ (sv : Services) where
  -- `upsert`, with the same fields for an old and a new row.
  abbrev pub upsert_at : Option (ℕ × Choices) → ℕ → UserKey → Changes → Action Bell (Unit {0})
  upsert_at (some (k, c)) new_id user d b = (
    ok tt,
    record b { preferences = sv.preference.update_many (at k always) (changed d) b.preferences },
  )
  upsert_at none new_id user d b =
      elim (sv.preference.create (of_choices user) new_id (changed d (all_on user)) b.preferences) [
        | none ↦ (err internal_error, b)
        | some t ↦ (ok tt, record b { preferences = t })
      ]

  unfoldable pub update_preferences : (new_id : ℕ) → UserKey → Changes → Action Bell (Unit {0})
  update_preferences new_id user d b =
      upsert_at (sv.preference.find_first (of_choices user) b.preferences) new_id user d b

  -- `update: {}` and `create: { userId }`
  unfoldable pub get_preferences : (new_id : ℕ) → UserKey → Action Bell (Option Choices)
  unfolding update_preferences
  get_preferences new_id user = do
    update_preferences new_id user no_changes
    gets (load_prefs sv user)

  -- The unique key of the table: no user has two rows.
  abbrev pub OneRow : Table Choices → Type 0
  OneRow t =
      (j k : ℕ) (c d : Choices)
      → sv.preference.find_unique j t ≡ some c
      → sv.preference.find_unique k t ≡ some d
      → c.user_id ≡ d.user_id
      → j ≡ k

  -- The only row that a table can have for a user is the one that is found.
  only_row :
      (user k : ℕ) (c : Choices) (t : Table Choices)
      → sv.preference.find_unique k t ≡ some c
      → c.user_id ≡ user
      → ((j : ℕ) (d : Choices) → sv.preference.find_unique j t ≡ some d → d.user_id ≡ user → j ≡ k)
      → row_of (sv.preference.find_first (of_choices user) t) ≡ some c
  only_row user k c t present own only =
      elim (Option-cases (sv.preference.find_first (of_choices user) t)) [
        | inl absent ↦
            ground
              (arith, own, sv.preference.find_first-complete (of_choices user) t k c absent present)
        | inr ((j, d), found) ↦
            let (there, hit) = sv.preference.find_first-sound (of_choices user) t j d found in
            let same : j ≡ k = only j d there (ground (arith, hit)) in
            ground (arith, found, there, same, present)
      ]

  changed_user : (d : Changes) (c : Choices) → (changed d c).user_id ≡ c.user_id
  unfolding changed
  changed_user d c = refl

  nothing_changed : (x : Choices) → changed no_changes x ≡ x
  unfolding changed
  nothing_changed x = refl

  -- A user whose preferences are updated has what was provided, and for the rest what was there
  -- before or, without a row, everything on.
  pub update_preferences-changed :
      (new_id : ℕ) (user : UserKey) (d : Changes) (b : Bell)
      → OneRow b.preferences
      → (update_preferences new_id user d b).0 ≡ ok tt
      → load_prefs sv user (update_preferences new_id user d b).1
        ≡ some (changed d (or_default (load_prefs sv user b) (all_on user)))
  unfolding update_preferences
  update_preferences-changed new_id user d b one done =
      let t = b.preferences in
      elim (Option-cases (sv.preference.find_first (of_choices user) t)) [
        | inr ((k, c), found) ↦
            let (present, hit) = sv.preference.find_first-sound (of_choices user) t k c found in
            let own : c.user_id ≡ user = ground (arith, hit) in
            let read =
              λ (j : ℕ). sv.preference.find_unique-update_many j (at k always) (changed d) t in
            rw found (
              only_row user k (changed d c) (sv.preference.update_many (at k always) (changed d) t)
                (ground (arith, present, read k)) (changed_user d c ∙ own)
                (λ j e there mine. elim (Option-cases (sv.preference.find_unique j t)) [
                  | inl absent ↦ ground (arith, absent, there, read j)
                  | inr (f, was) ↦ elim (Bool-cases (j == k)) [
                    | inl same ↦ ground (arith, same)
                    | inr other ↦
                        one j k f c was present
                          (ground (arith, was, there, other, read j, mine, own))
                  ]
                ]))
        | inl absent ↦
            let row = changed d (all_on user) in
            elim (Option-cases (sv.preference.create (of_choices user) new_id row t)) [
              | inl clash ↦ ground (arith, done, absent, clash)
              | inr (t', made) ↦
                  let read = λ (j : ℕ).
                    sv.preference.find_unique-create (of_choices user) new_id row t t' j made in
                  let stored : (update_preferences new_id user d b).1.preferences ≡ t' =
                    ground (arith, absent, made) in
                  ap (λ x. row_of (sv.preference.find_first (of_choices user) x)) stored
                  ∙ (only_row user new_id row t' (ground (arith, read new_id, ==_refl new_id))
                      (changed_user d (all_on user))
                      (λ j e there mine. elim (Bool-cases (j == new_id)) [
                        | inl same ↦ ground (arith, same)
                        | inr other ↦ ground (
                          arith,
                          mine,
                          sv.preference.create-unique (of_choices user) new_id row t t' j e made
                              (ground (arith, other, there, read j)),
                        )
                      ]))
                  ∙ ap (λ o. some (changed d (or_default (row_of o) (all_on user)))) (sym absent)
            ]
      ]

  -- To look at the preferences turns nothing on or off: every type of notification is delivered to
  -- the user afterwards as before.
  pub get_preferences-same :
      (new_id : ℕ) (user : UserKey) (kind : Kind) (b : Bell) (c : Option Choices)
      → OneRow b.preferences
      → (get_preferences new_id user b).0 ≡ ok c
      → is_off kind (load_prefs sv user (get_preferences new_id user b).1)
        ≡ is_off kind (load_prefs sv user b)
  unfolding get_preferences
  get_preferences-same new_id user kind b c one done =
      let stored : (update_preferences new_id user no_changes b).0 ≡ ok tt =
        elim (Result-cases (update_preferences new_id user no_changes b).0) [
          | inl fine ↦ fine
          | inr (e, failed) ↦ ground (arith, done, failed)
        ] in
      let after : (get_preferences new_id user b).1
          ≡ (update_preferences new_id user no_changes b).1 =
        ground (arith, stored) in
      ap (λ x. is_off kind (load_prefs sv user x)) after
      ∙ ap (is_off kind) (update_preferences-changed new_id user no_changes b one stored)
      ∙ as_before (load_prefs sv user b)
    where
      on : (k : Kind) → in_app_pref k (all_on user) ≡ true
      on Kind.application_submitted = refl
      on Kind.application_received = refl
      on Kind.application_reviewed = refl
      on Kind.application_accepted = refl
      on Kind.opportunity_approved = refl
      on Kind.opportunity_rejected = refl
      on Kind.new_message = refl
      on Kind.new_follower = refl
      on (Kind.other_kind n) = refl

      as_before :
          (o : Option Choices)
          → is_off kind (some (changed no_changes (or_default o (all_on user)))) ≡ is_off kind o
      as_before none =
          ap (λ x. is_off kind (some x)) (nothing_changed (all_on user)) ∙ ap not (on kind)
      as_before (some x) = ap (λ y. is_off kind (some y)) (nothing_changed x)
