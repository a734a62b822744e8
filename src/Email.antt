-- ===== src/Email.antt =====
-- modules/email: `EmailService` and the processor of its queue. The client of Resend is a parameter:
-- what comes of an attempt. What waits between attempts is left out, and so is what
-- BullMQ does with a job that fails.
pub mod Delivery
mod Tests
use south_connect.Prelude.{
  ℕ, zero, suc, ◌+◌, Bool, true, false, not, ◌&&◌, ◌||◌, Option, none, some, List, [], ◌∷◌,
  if◌then◌else◌,
}
use south_connect.Action.{
  Action, Result, ok, err, internal_error, ◌>>=◌, ◌>>◌, pure, gets, modify, throw_if,
}
use south_connect.Database.{Table, Client}
use south_connect.Schema.{Text, User, truthy}
use south_connect.Auth.Login.{of_email}

-- `EmailJobData`; `skip_unsubscribe_footer` is set for mails that must arrive.
pub record Mail : Type 0 where
  pub to : Text
  pub subject : Text
  pub html : Text
  pub skip_unsubscribe_footer : Bool

-- What Resend has taken: the mail, with the token of the link in its footer.
pub record Sent : Type 0 where
  pub mail : Mail
  pub footer : Option Text

pub record Outbox : Type 0 where
  pub users : Table User
  pub queue : List Mail
  pub sent : List Sent
  -- The mails that were given up and reported.
  pub given_up : List Mail

-- What comes of a call of Resend within 10 seconds: an answer, that the mail is taken or that it is
-- not, or none, and then Resend may have taken it, or take it later, all the same.
pub data Reply : Type 0 where
  accepted refused : Reply
  late : (taken : Bool) → Reply

-- The deployment: whether Resend and the sender's address are configured, whether this is a test,
-- whether there is a queue and it takes jobs; and which addresses are those of tests.
pub record Mailer : Type 0 where
  pub user : Client User
  pub has_email_client : Bool
  pub testing : Bool
  pub has_queue : Bool
  pub queue_ok : Bool
  pub is_test_address : Text → Bool

abbrev pub opted_out : Option (ℕ × User) → Bool
opted_out none = false
opted_out (some (k, u)) = u.email_opt_out

-- The footer is left out where the user has no token.
abbrev pub footer_of : Option (ℕ × User) → Option Text
footer_of none = none
footer_of (some (k, u)) =
    if truthy u.email_unsubscribe_token then u.email_unsubscribe_token else none

module _ (mailer : Mailer) where
  abbrev pub with_sent : Mail → Option Text → Outbox → Outbox
  with_sent mail footer s = record s { sent = record { mail = mail; footer = footer } ∷ s.sent }

  -- One attempt: the race of the call with the timeout. Both an error and the timeout are thrown.
  abbrev pub deliver : Reply → Mail → Option Text → Action Outbox (Unit {0})
  deliver accepted mail footer s = (ok tt, with_sent mail footer s)
  deliver refused mail footer s = (err internal_error, s)
  deliver (late true) mail footer s = (err internal_error, with_sent mail footer s)
  deliver (late false) mail footer s = (err internal_error, s)

  abbrev pub deliver_unless : Bool → Reply → Mail → Option Text → Action Outbox (Unit {0})
  deliver_unless true reply mail footer s = (ok tt, s)
  deliver_unless false reply mail footer s = deliver reply mail footer s

  -- With the recipient's preference, unless the mail must arrive.
  abbrev pub deliver_wanted : Bool → Reply → Mail → Action Outbox (Unit {0})
  deliver_wanted true reply mail s = deliver reply mail none s
  deliver_wanted false reply mail s =
      let recipient = mailer.user.find_first (of_email mail.to) s.users in
      deliver_unless (opted_out recipient) reply mail (footer_of recipient) s

  -- `sendEmail`, and `sendEmailDirect`, which the processor of the queue calls.
  unfoldable pub send_email : Reply → Mail → Action Outbox (Unit {0})
  send_email reply mail s =
      if mailer.is_test_address mail.to || not mailer.has_email_client
      then (ok tt, s)
      else deliver_wanted mail.skip_unsubscribe_footer reply mail s

  abbrev pub give_up : Mail → Outbox → Outbox
  give_up mail s = record s { given_up = mail ∷ s.given_up }

  -- `attempt(remaining)`: `replies n` says what comes of the call when n attempts remain.
  unfoldable pub attempt : (remaining : ℕ) → (ℕ → Reply) → Mail → Outbox → Outbox
  attempt zero replies mail s =
      let (r, t) = send_email (replies 0) mail s in elim r [ ok u ↦ t | err e ↦ give_up mail t ]
  attempt (suc remaining) replies mail s =
      let (r, t) = send_email (replies (suc remaining)) mail s in
      elim r [ ok u ↦ t | err e ↦ attempt remaining replies mail t ]

  -- `sendEmailFallback`, with MAX_RETRIES = 2.
  abbrev pub send_email_fallback : (ℕ → Reply) → Mail → Outbox → Outbox
  send_email_fallback replies mail s = attempt 2 replies mail s

  -- `sendEmailAsync`: to the queue, or in the process where there is none or it takes no job.
  unfoldable pub send_email_async : (ℕ → Reply) → Mail → Outbox → Outbox
  send_email_async replies mail s =
      if mailer.testing
      then s
      else if mailer.has_queue && mailer.queue_ok
      then record s { queue = mail ∷ s.queue }
      else send_email_fallback replies mail s
