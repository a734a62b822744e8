-- ===== src/Notifications/Emails.antt =====
-- The emails that the other services ask for. Each goes out only where mail is configured, and those
-- that a preference goes with only where it is on. The text of a letter is a parameter.
use south_connect.Prelude.{
  ℕ, ◌≡◌, Bool, true, false, not, ◌&&◌, ◌||◌, Option, none, some, arith, if◌then◌else◌, ◌∷◌,
}
use south_connect.Action.{Action, Result}
use south_connect.Schema.{Text, UserKey}
use south_connect.Auth.Login.{of_email}
use south_connect.Email.{Mail, Reply, accepted, send_email, send_email_async, opted_out}
use south_connect.Email.Delivery.{send_email_async-settled, send_outcome}
use south_connect.Notifications.{Choices, Bell, Services, load_prefs}

-- A recipient: its key and address.
pub record Recipient : Type 0 where
  pub id : UserKey
  pub email : Text

-- What is written, with what it is about.
pub data Letter : Type 0 where
  verification password_reset : (link : Text) → Letter
  welcome password_changed : Letter
  application_submitted application_accepted : (opportunity : ℕ) → Letter
  application_reviewed : (application : ℕ) → (opportunity : ℕ) → Letter
  opportunity_approved opportunity_rejected : (opportunity : ℕ) → Letter
  new_message : (sender_name preview : Text) → (discussion : ℕ) → Letter
  new_follower : UserKey → Letter

pub record Texts : Type 0 where
  pub subject : Letter → Recipient → Text
  pub html : Letter → Recipient → Text

abbrev pub chosen : (Choices → Bool) → Option Choices → Bool
chosen pref none = true
chosen pref (some c) = pref c

module _ (sv : Services) (texts : Texts) where
  abbrev pub mail_of : Letter → Recipient → Bool → Mail
  mail_of letter to critical = record {
    to = to.email;
    subject = texts.subject letter to;
    html = texts.html letter to;
    skip_unsubscribe_footer = critical;
  }

  -- `isEmailPrefEnabled`: without a row, the email is sent.
  abbrev pub is_email_pref_enabled : (Choices → Bool) → UserKey → Bell → Bool
  is_email_pref_enabled pref user b = chosen pref (load_prefs sv user b)

  -- Awaited, and sent to those who have opted out too; an error is the caller's.
  abbrev pub send_critical : Reply → Letter → Recipient → Action Bell (Unit {0})
  send_critical reply letter to b =
      if sv.mailer.has_email_client
      then (let (r, o) = send_email sv.mailer reply (mail_of letter to true) b.outbox in
          (r, record b { outbox = o }))
      else (Result.ok tt, b)

  abbrev pub send_wanted : (ℕ → Reply) → Letter → Recipient → Bell → Bell
  send_wanted replies letter to b = record b {
    outbox = send_email_async sv.mailer replies (mail_of letter to false) b.outbox;
  }

  abbrev pub send_preferred : (Choices → Bool) → (ℕ → Reply) → Letter → Recipient → Bell → Bell
  send_preferred pref replies letter to b =
      if sv.mailer.has_email_client && is_email_pref_enabled pref to.id b
      then send_wanted replies letter to b
      else b

  unfoldable pub send_email_verification : Reply → Recipient → Text → Action Bell (Unit {0})
  send_email_verification reply to link = send_critical reply (verification link) to

  unfoldable pub send_welcome_email : (ℕ → Reply) → Recipient → Bell → Bell
  send_welcome_email replies to b =
      if sv.mailer.has_email_client then send_wanted replies welcome to b else b

  unfoldable pub send_application_submitted_email : (ℕ → Reply) → Recipient → ℕ → Bell → Bell
  send_application_submitted_email replies owner opportunity =
      send_preferred (λ c. c.email_application_submitted) replies
        (application_submitted opportunity) owner

  unfoldable pub send_application_reviewed_email : (ℕ → Reply) → Recipient → ℕ → ℕ → Bell → Bell
  send_application_reviewed_email replies candidate application opportunity =
      send_preferred (λ c. c.email_application_reviewed) replies
        (application_reviewed application opportunity) candidate

  unfoldable pub send_application_accepted_email : (ℕ → Reply) → Recipient → ℕ → Bell → Bell
  send_application_accepted_email replies candidate opportunity =
      send_preferred (λ c. c.email_application_accepted) replies (application_accepted opportunity)
        candidate

  unfoldable pub send_opportunity_approved_email : (ℕ → Reply) → Recipient → ℕ → Bell → Bell
  send_opportunity_approved_email replies owner opportunity =
      send_preferred (λ c. c.email_opportunity_approved) replies (opportunity_approved opportunity)
        owner

  unfoldable pub send_opportunity_rejected_email : (ℕ → Reply) → Recipient → ℕ → Bell → Bell
  send_opportunity_rejected_email replies owner opportunity =
      send_preferred (λ c. c.email_opportunity_rejected) replies (opportunity_rejected opportunity)
        owner

  unfoldable pub send_new_message_email : (ℕ → Reply) → Recipient → Text → Text → ℕ → Bell → Bell
  send_new_message_email replies to sender_name preview discussion =
      send_preferred (λ c. c.email_new_message) replies (new_message sender_name preview discussion)
        to

  unfoldable pub send_new_follower_email : (ℕ → Reply) → UserKey → Recipient → Bell → Bell
  send_new_follower_email replies follower followee =
      send_preferred (λ c. c.email_new_follower) replies (new_follower follower) followee

  unfoldable pub send_password_changed_email : Reply → Recipient → Action Bell (Unit {0})
  send_password_changed_email reply to = send_critical reply password_changed to

  unfoldable pub send_password_reset_email : Reply → Recipient → Text → Action Bell (Unit {0})
  send_password_reset_email reply to link = send_critical reply (password_reset link) to

  -- In the process, outside of tests, an email that goes with a preference changes nothing where the
  -- recipient has turned it off or has opted out of emails, whatever comes of the calls of Resend.
  pub send_preferred-refused :
      (pref : Choices → Bool) (replies : ℕ → Reply) (letter : Letter) (to : Recipient) (b : Bell)
      → sv.mailer.testing ≡ false
      → (sv.mailer.has_queue && sv.mailer.queue_ok) ≡ false
      → (not (is_email_pref_enabled pref to.id b)
          || opted_out (sv.mailer.user.find_first (of_email to.email) b.outbox.users))
        ≡ true
      → send_preferred pref replies letter to b ≡ b
  send_preferred-refused pref replies letter to b live no_queue refused = ground (
    arith,
    refused,
    send_email_async-settled sv.mailer replies (mail_of letter to false) b.outbox live no_queue,
  )

  -- Where mail is configured and Resend takes it in time, a link to reset a password is sent to a user who
  -- has opted out of emails too, without a footer.
  pub send_password_reset_email-sent :
      (to : Recipient) (link : Text) (b : Bell)
      → sv.mailer.has_email_client ≡ true
      → sv.mailer.is_test_address to.email ≡ false
      → send_password_reset_email accepted to link b ≡ (
        Result.ok tt,
        record b {
          outbox = record b.outbox {
            sent =
                record { mail = mail_of (password_reset link) to true; footer = none }
                ∷ b.outbox.sent;
          };
        },
      )
  unfolding send_password_reset_email
  send_password_reset_email-sent to link b configured real = ground (
    arith,
    configured,
    real,
    send_outcome sv.mailer accepted (mail_of (password_reset link) to true) b.outbox,
  )
