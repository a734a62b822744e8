-- ===== src/Email/Delivery.antt =====
-- What becomes of a mail.
use south_connect.Prelude.{
  ℕ, zero, suc, ◌≡◌, ◌⊎◌, ◌≤◌, refl, inl, inr, Bool, true, false, not, ◌&&◌, ◌||◌, Option, none,
  arith, if◌then◌else◌, Bool-cases,
}
use south_connect.Action.{ok}
use south_connect.Schema.{Text}
use south_connect.Auth.Login.{of_email}
use south_connect.Email.{
  Mail, Outbox, Reply, accepted, refused, late, Mailer, with_sent, deliver, opted_out, footer_of,
  send_email, give_up, attempt, send_email_fallback, send_email_async,
}

Reply-cases : (r : Reply) → (r ≡ accepted) ⊎ ((r ≡ refused) ⊎ ((r ≡ late true) ⊎ (r ≡ late false)))
Reply-cases accepted = inl refl
Reply-cases refused = inr (inl refl)
Reply-cases (late true) = inr (inr (inl refl))
Reply-cases (late false) = inr (inr (inr refl))

module _ (mailer : Mailer) where
  -- The mail is one that a recipient is to get: the address is no test's, mail is configured, and
  -- the recipient has not opted out, unless the mail must arrive.
  abbrev pub is_due : Mail → Outbox → Bool
  is_due mail s =
      not (mailer.is_test_address mail.to)
      && (mailer.has_email_client
          && (mail.skip_unsubscribe_footer
              || not (opted_out (mailer.user.find_first (of_email mail.to) s.users))))

  abbrev pub footer_in : Mail → Outbox → Option Text
  footer_in mail s =
      if mail.skip_unsubscribe_footer
      then none
      else footer_of (mailer.user.find_first (of_email mail.to) s.users)

  -- One attempt, in every case.
  pub send_outcome :
      (reply : Reply) (mail : Mail) (s : Outbox)
      → send_email mailer reply mail s
        ≡ (if is_due mail s then deliver mailer reply mail (footer_in mail s) s else (ok tt, s))
  unfolding send_email
  send_outcome reply mail s = ground arith

  abbrev pub is_accepted : Reply → Bool
  is_accepted accepted = true
  is_accepted _ = false

  abbrev pub is_taken : Reply → Bool
  is_taken accepted = true
  is_taken refused = false
  is_taken (late taken) = taken

  -- How many times Resend has taken the mail, in the attempts up to the first that it answers so.
  abbrev pub copies : ℕ → (ℕ → Reply) → ℕ
  copies zero replies = if is_taken (replies 0) then 1 else 0
  copies (suc n) replies =
      let rest = copies n replies in
      if is_accepted (replies (suc n))
      then 1
      else if is_taken (replies (suc n))
      then suc rest
      else rest

  abbrev pub some_accepted : ℕ → (ℕ → Reply) → Bool
  some_accepted zero replies = is_accepted (replies 0)
  some_accepted (suc n) replies = is_accepted (replies (suc n)) || some_accepted n replies

  abbrev pub with_copies : ℕ → Mail → Option Text → Outbox → Outbox
  with_copies zero mail footer s = s
  with_copies (suc n) mail footer s = with_copies n mail footer (with_sent mailer mail footer s)

  abbrev pub settled : ℕ → (ℕ → Reply) → Mail → Outbox → Outbox
  settled n replies mail s =
      let t = with_copies (copies n replies) mail (footer_in mail s) s in
      if is_due mail s then (if some_accepted n replies then t else give_up mailer mail t) else s

  attempt-settled :
      (remaining : ℕ) (replies : ℕ → Reply) (mail : Mail) (s : Outbox)
      → attempt mailer remaining replies mail s ≡ settled remaining replies mail s
  unfolding attempt
  attempt-settled zero replies mail s =
      let once = send_outcome (replies 0) mail s in
      elim (Bool-cases (is_due mail s)) [
        | inr idle ↦ ground (arith, idle, once)
        | inl due ↦ elim (Reply-cases (replies 0)) [
          | inl e ↦ ground (arith, due, e, once)
          | inr (inl e) ↦ ground (arith, due, e, once)
          | inr (inr (inl e)) ↦ ground (arith, due, e, once)
          | inr (inr (inr e)) ↦ ground (arith, due, e, once)
        ]
      ]
  attempt-settled (suc n) replies mail s =
      let once = send_outcome (replies (suc n)) mail s in
      let next = attempt-settled n replies mail s in
      let next_sent = attempt-settled n replies mail (with_sent mailer mail (footer_in mail s) s) in
      elim (Bool-cases (is_due mail s)) [
        | inr idle ↦ ground (arith, idle, once)
        | inl due ↦ elim (Reply-cases (replies (suc n))) [
          | inl e ↦ ground (arith, due, e, once)
          | inr (inl e) ↦ ground (arith, due, e, once, next)
          | inr (inr (inl e)) ↦ ground (arith, due, e, once, next_sent)
          | inr (inr (inr e)) ↦ ground (arith, due, e, once, next)
        ]
      ]

  copies-le : (n : ℕ) (replies : ℕ → Reply) → copies n replies ≤ suc n
  copies-le zero replies = ground arith
  copies-le (suc n) replies = ground (arith, copies-le n replies)

  -- Outside of tests and without a queue that takes it, a mail that is due is tried until Resend
  -- answers within 10 seconds that it has taken it, three times at most, and is given up and reported
  -- if it never does; each attempt that Resend takes, also after the timeout, sends one copy, with the
  -- recipient's footer unless the mail must arrive, so that there are three at most. A mail that is not
  -- due changes nothing.
  pub send_email_async-settled :
      (replies : ℕ → Reply) (mail : Mail) (s : Outbox)
      → mailer.testing ≡ false
      → (mailer.has_queue && mailer.queue_ok) ≡ false
      → (send_email_async mailer replies mail s ≡ settled 2 replies mail s) × (copies 2 replies ≤ 3)
  unfolding send_email_async
  send_email_async-settled replies mail s live no_queue =
      (ground (arith, live, no_queue, attempt-settled 2 replies mail s), copies-le 2 replies)

  -- A recipient who has opted out is sent only what must arrive, whatever comes of the calls of Resend
  -- and whether the mail comes from the queue or from the process.
  pub opted_out-unsent :
      (reply : Reply) (replies : ℕ → Reply) (mail : Mail) (s : Outbox)
      → mail.skip_unsubscribe_footer ≡ false
      → opted_out (mailer.user.find_first (of_email mail.to) s.users) ≡ true
      → (send_email mailer reply mail s ≡ (ok tt, s))
        × (send_email_fallback mailer replies mail s ≡ s)
  opted_out-unsent reply replies mail s wanted out = (
    ground (arith, wanted, out, send_outcome reply mail s),
    ground (arith, wanted, out, attempt-settled 2 replies mail s),
  )
