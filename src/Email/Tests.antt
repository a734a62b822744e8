-- ===== src/Email/Tests.antt =====
-- The theorem on deliveries at a concrete mail, which Resend takes twice.
use south_connect.Prelude.{ℕ, ◌≡◌, ◌≤◌, if◌then◌else◌, refl, true, false, none, some, [], ◌∷◌, ◌==◌}
use south_connect.Database.Rows.{rows}
use south_connect.Samples.{member_with}
use south_connect.Email.{Mail, Reply, accepted, late, Outbox, Mailer, send_email_async}
use south_connect.Email.Delivery.{copies, with_copies, settled, send_email_async-settled}

abbrev mailer : Mailer
mailer = record {
  user = rows;
  has_email_client = true;
  testing = false;
  has_queue = true;
  queue_ok = false;
  is_test_address = λ t. t == 9;
}

abbrev outbox : Outbox
outbox = record { users = some (member_with 1 none) ∷ []; queue = []; sent = []; given_up = [] }

abbrev hello : Mail
hello = record { to = 1; subject = 2; html = 3; skip_unsubscribe_footer = false }

-- The first call is too late, though Resend takes the mail, and the second is answered.
abbrev replies : ℕ → Reply
replies remaining = if remaining == 1 then accepted else late true

send_email_async-settled_example :
    (send_email_async mailer replies hello outbox ≡ settled mailer 2 replies hello outbox)
    × (copies mailer 2 replies ≤ 3)
send_email_async-settled_example = send_email_async-settled mailer replies hello outbox refl refl

sent_twice : settled mailer 2 replies hello outbox ≡ with_copies mailer 2 hello none outbox
unfolding rows
sent_twice = refl
