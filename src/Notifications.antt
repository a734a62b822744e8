-- ===== src/Notifications.antt =====
-- modules/notifications/notifications.service.ts: in-app notifications, the preferences, and which
-- emails are sent. The texts of the emails are a parameter.
pub mod InApp
pub mod Read
pub mod Preferences
pub mod Emails
pub mod Escape
mod Tests
use south_connect.Prelude.{ℕ, Bool, true, false, Option, none, some, List, ◌==◌}
use south_connect.Database.{Table, Where, Client}
use south_connect.Redis.{Redis, Entries}
use south_connect.Schema.{Text, UserKey}
use south_connect.Email.{Outbox, Mailer}

-- The types of notifications that a preference goes with, and any other.
pub data Kind : Type 0 where
  application_submitted application_received application_reviewed application_accepted : Kind
  opportunity_approved opportunity_rejected new_message new_follower : Kind
  other_kind : ℕ → Kind

pub record Notification : Type 0 where
  pub user_id : UserKey
  pub kind : Kind
  pub title : Text
  pub body : Option Text
  pub link : Option Text
  pub is_read : Bool

-- `NotificationPreferences`
pub record Choices : Type 0 where
  pub user_id : UserKey
  pub email_application_submitted : Bool
  pub email_application_reviewed : Bool
  pub email_application_accepted : Bool
  pub email_opportunity_approved : Bool
  pub email_opportunity_rejected : Bool
  pub email_new_message : Bool
  pub email_new_follower : Bool
  pub in_app_application_submitted : Bool
  pub in_app_application_reviewed : Bool
  pub in_app_application_accepted : Bool
  pub in_app_opportunity_approved : Bool
  pub in_app_opportunity_rejected : Bool
  pub in_app_new_message : Bool
  pub in_app_new_follower : Bool

pub record Bell : Type 0 where
  pub notifications : Table Notification
  pub preferences : Table Choices
  pub entries : Entries
  -- The notifications pushed to the sockets of a user, newest first.
  pub pushes : List (UserKey × ℕ)
  pub outbox : Outbox

pub record Services : Type 0 where
  pub notification : Client Notification
  pub preference : Client Choices
  pub redis : Redis
  pub mailer : Mailer

-- `{ userId }`, a unique key
abbrev pub of_choices : UserKey → Where Choices
of_choices user k c = c.user_id == user

abbrev pub row_of : Option (ℕ × Choices) → Option Choices
row_of none = none
row_of (some (k, c)) = some c

-- `loadPrefs`
abbrev pub load_prefs : Services → UserKey → Bell → Option Choices
load_prefs sv user b = row_of (sv.preference.find_first (of_choices user) b.preferences)
