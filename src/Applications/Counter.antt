-- ===== src/Applications/Counter.antt =====
-- `applicationsCount` of an opportunity against the applications that it stands for.
use south_connect.Prelude.{
  ℕ, ◌+◌, ◌≡◌, refl, inl, inr, Bool, true, false, not, ◌&&◌, Option, some, arith, ◌==◌,
  if◌then◌else◌, bit, Bool-cases,
}
use south_connect.Prelude.Int.{pos, ◌+ℤ◌, int_laws}
use south_connect.Database.{Where}
use south_connect.Database.Keyed.{at, always}
use south_connect.Schema.{UserKey, Application, Opportunity, Store, Prisma}
use south_connect.Applications.Stages.{
  Env, is_live, is_draft_stage, is_counted, count_one_more, count_one_less,
}
use south_connect.Applications.Create.{create, CreateDto, restored, drafted, of_pair}
use south_connect.Applications.Create.Outcome.{create_cases}
use south_connect.Applications.Edit.{update, UpdateDto, edited}
use south_connect.Applications.Edit.Outcome.{update_cases, update_done}
use south_connect.Applications.Submit.{submit, mark_submitted, submittable}
use south_connect.Applications.Submit.Outcome.{MaySubmit, submit_cases, submit_complete}
use south_connect.Applications.Submit.Effect.{submit_effect, done-applications}
use south_connect.Applications.Review.{review, ReviewDto, reviewed}
use south_connect.Applications.Review.Outcome.{
  review_cases, review_complete, review_done, rewritten,
}
use south_connect.Applications.Review.Effect.{complete_code-others}
use south_connect.Applications.Withdraw.{withdraw, withdraw_counter, mark_withdrawn, withdrawable}
use south_connect.Applications.Withdraw.Outcome.{
  MayWithdraw, withdraw_cases, withdraw_complete, withdraw_done, taken_back,
}
use south_connect.Applications.Withdraw.Effect.{withdraw_effect}
use south_connect.Applications.Lifecycle.{
  Request, creates, updates, submits, reviews, withdraws, handle,
}

-- The applications that an opportunity's counter stands for.
abbrev pub counted_for : ℕ → Where Application
counted_for opportunity k a = a.opportunity_id == opportunity && is_counted a

-- The request does not submit a withdrawn application.
abbrev pub SubmitsLive : Prisma → Store → Request → Type 0
SubmitsLive prisma s (submits id candidate) =
    (a : Application) → prisma.application.find_unique id s.applications ≡ some a → is_live a ≡ true
SubmitsLive prisma s _ = Unit

module _ (prisma : Prisma) (j : ℕ) where
  abbrev counted : Store → ℕ
  counted s = prisma.application.count (counted_for j) s.applications

  abbrev counter : Store → Option Opportunity
  counter s = prisma.opportunity.find_unique j s.opportunities

  -- The counter has moved as the number of counted applications has.
  pub record Kept (s t : Store) : Type 0 where
    pub before : Opportunity
    pub after : Opportunity
    pub found_before : counter s ≡ some before
    pub found_after : counter t ≡ some after
    pub moved :
        after.applications_count +ℤ pos (counted s) ≡ before.applications_count +ℤ pos (counted t)

  count-at_row :
      (id : ℕ) (g : Application → Bool) (f : Application → Application) (s : Store)
      (a : Application)
      → prisma.application.find_unique id s.applications ≡ some a
      → g a ≡ true
      → prisma.application.count
            (counted_for j)
            (prisma.application.update_many (at id g) f s.applications)
          + bit (counted_for j id a)
        ≡ counted s + bit (counted_for j id (f a))
  count-at_row id g f s a found hit =
      prisma.application.count-update_many (at id g) f s.applications (counted_for j) id a
        (λ k r h. ground arith) found (ground arith)

  Kept-same :
      (s t : Store) (o : Opportunity)
      → counter s ≡ some o
      → t.opportunities ≡ s.opportunities
      → counted t ≡ counted s
      → Kept s t
  Kept-same s t o found same count = record {
    before = o;
    after = o;
    found_before = found;
    found_after = rw same found;
    moved = rw count refl;
  }

  create-Kept :
      (new_id : ℕ) (candidate : UserKey) (dto : CreateDto) (s : Store) (o : Opportunity)
      → counter s ≡ some o
      → Kept s (create prisma new_id candidate dto s).1
  unfolding restored drafted
  create-Kept new_id candidate dto s o found = elim (create_cases prisma new_id candidate dto s) [
    | inl (e, failed) ↦ rw failed (Kept-same s s o found refl refl)
    | inr (target, inl r) ↦ rw r.result (
        Kept-same s _ o found refl (
          ground (
            arith,
            r.withdrawn,
            count-at_row r.id always (restored dto) s r.old
                (prisma.application.find_first-sound (of_pair dto.opportunity_id candidate)
                  s.applications r.id r.old r.found).0
                refl,
          )))
    | inr (target, inr i) ↦ rw i.result (
        Kept-same s _ o found refl (
          ground (
            arith,
            prisma.application.count-create (of_pair dto.opportunity_id candidate) new_id
                (drafted candidate dto) s.applications i.table (counted_for j) i.stored,
          )))
  ]

  update-Kept :
      (id : ℕ) (candidate : UserKey) (dto : UpdateDto) (s : Store) (o : Opportunity)
      → counter s ≡ some o
      → Kept s (update prisma id candidate dto s).1
  unfolding edited update_done
  update-Kept id candidate dto s o found = elim (update_cases prisma id candidate dto s) [
    | inl (e, failed) ↦ rw failed (Kept-same s s o found refl refl)
    | inr (a, m, served) ↦ rw served (
        Kept-same s (update_done prisma id candidate dto s) o found refl
          (ground (arith, m.unsent, count-at_row id always (edited dto) s a m.found refl)))
  ]

  review-Kept :
      (env : Env) (id : ℕ) (owner : UserKey) (dto : ReviewDto) (s : Store) (o : Opportunity)
      → counter s ≡ some o
      → Kept s (review prisma env id owner dto s).1
  unfolding reviewed review_done rewritten
  review-Kept env id owner dto s o found = elim (review_cases prisma env id owner dto s) [
    | inl (e, failed) ↦ rw failed (Kept-same s s o found refl refl)
    | inr (a, o', m) ↦ rw (review_complete prisma env id owner dto s a o' m) (
        Kept-same s (review_done prisma env id dto a s) o found
          (complete_code-others prisma dto.stage a.referral_code_used _).1
          (rw
            (complete_code-others prisma dto.stage a.referral_code_used
              (rewritten prisma env.now id dto s)).0
            (ground (
              arith,
              m.live,
              m.allowed,
              count-at_row id is_live (reviewed env.now dto) s a m.found m.live,
            ))))
  ]

  -- The count and the counter both move by what the row and the opportunity contribute.
  counted-submit :
      (env : Env) (id : ℕ) (candidate : UserKey) (s : Store) (a : Application) (o : Opportunity)
      → MaySubmit prisma env.now id candidate s a o
      → is_live a ≡ true
      → counted (submit prisma env id candidate s).1 ≡ counted s + bit (a.opportunity_id == j)
  unfolding mark_submitted
  counted-submit env id candidate s a o m live =
      rw (submit_complete prisma env id candidate s a o m) (
        rw (done-applications prisma env id candidate s a o) (
          ground (
            arith,
            m.unsent,
            live,
            count-at_row id (submittable candidate) (mark_submitted env.now) s a m.found
                (ground (arith, m.unsent, m.mine)),
          )))

  submit-Kept :
      (env : Env) (id : ℕ) (candidate : UserKey) (s : Store) (o : Opportunity)
      → env.counters_ok ≡ true
      → SubmitsLive prisma s (submits id candidate)
      → counter s ≡ some o
      → Kept s (submit prisma env id candidate s).1
  submit-Kept env id candidate s o synced live found =
      elim (submit_cases prisma env id candidate s) [
        | inl (e, failed) ↦ rw failed (Kept-same s s o found refl refl)
        | inr (a, o', m) ↦ record {
          before = o;
          after = if a.opportunity_id == j then count_one_more o else o;
          found_before = found;
          found_after = ground (
            arith,
            m.joined,
            found,
            synced,
            (submit_effect prisma env id candidate s a o' m).1 j,
          );
          moved =
              rw (counted-submit env id candidate s a o' m (live a m.found))
                (elim (Bool-cases (a.opportunity_id == j)) [
                  | inl here ↦ rw here (omega int_laws)
                  | inr elsewhere ↦ rw elsewhere (omega int_laws)
                ]);
        }
      ]

  counted-withdraw :
      (env : Env) (id : ℕ) (candidate : UserKey) (s : Store) (a : Application)
      → MayWithdraw prisma id candidate s a
      → counted (withdraw prisma env id candidate s).1
          + bit (a.opportunity_id == j && not (is_draft_stage a))
        ≡ counted s
  unfolding mark_withdrawn withdraw_done withdraw_counter taken_back
  counted-withdraw env id candidate s a m = rw (withdraw_complete prisma env id candidate s a m) (
      ground (
        arith,
        m.live,
        count-at_row id (withdrawable candidate) (mark_withdrawn env.now) s a m.found
            (ground (arith, m.live, m.mine)),
      ))

  withdraw-Kept :
      (env : Env) (id : ℕ) (candidate : UserKey) (s : Store) (o : Opportunity)
      → env.counters_ok ≡ true
      → counter s ≡ some o
      → Kept s (withdraw prisma env id candidate s).1
  withdraw-Kept env id candidate s o synced found =
      elim (withdraw_cases prisma env id candidate s) [
        | inl (e, failed) ↦ rw failed (Kept-same s s o found refl refl)
        | inr (a, m) ↦ record {
          before = o;
          after = if a.opportunity_id == j && not (is_draft_stage a) then count_one_less o else o;
          found_before = found;
          found_after = ground (
            arith,
            found,
            synced,
            (withdraw_effect prisma env id candidate s a m).1,
            prisma.opportunity.find_unique-update_many j (at a.opportunity_id always) count_one_less
                s.opportunities,
          );
          moved = elim (Bool-cases (a.opportunity_id == j && not (is_draft_stage a))) [
            | inl here ↦
                rw here (omega (int_laws, rw here at (counted-withdraw env id candidate s a m)))
            | inr elsewhere ↦
                rw elsewhere
                  (omega (int_laws, rw elsewhere at (counted-withdraw env id candidate s a m)))
          ];
        }
      ]

  -- A request moves an opportunity's counter exactly as it moves the number of applications that
  -- are submitted and not withdrawn, if the counters' updates commit and the request does not
  -- submit a withdrawn application.
  pub handle-Kept :
      (env : Env) (r : Request) (s : Store) (o : Opportunity)
      → env.counters_ok ≡ true
      → SubmitsLive prisma s r
      → counter s ≡ some o
      → Kept s (handle prisma env r s)
  unfolding handle
  handle-Kept env (creates new_id candidate dto) s o synced live found =
      create-Kept new_id candidate dto s o found
  handle-Kept env (updates id candidate dto) s o synced live found =
      update-Kept id candidate dto s o found
  handle-Kept env (submits id candidate) s o synced live found =
      submit-Kept env id candidate s o synced live found
  handle-Kept env (reviews id owner dto) s o synced live found =
      review-Kept env id owner dto s o found
  handle-Kept env (withdraws id candidate) s o synced live found =
      withdraw-Kept env id candidate s o synced found

  -- The exception: the checks of `submit` do not ask whether the application was withdrawn, so a
  -- withdrawn draft can be submitted; the counter of its opportunity grows by one, and the number
  -- of applications that it stands for stays.
  pub submit_withdrawn :
      (env : Env) (id : ℕ) (candidate : UserKey) (s : Store) (a : Application) (o : Opportunity)
      → MaySubmit prisma env.now id candidate s a o
      → is_live a ≡ false
      → env.counters_ok ≡ true
      → a.opportunity_id ≡ j
      → let t = (submit prisma env id candidate s).1 in
        (counter t ≡ some (count_one_more o)) × (counted t ≡ counted s)
  unfolding mark_submitted
  submit_withdrawn env id candidate s a o m dead synced here = (
    ground (arith, m.joined, synced, (submit_effect prisma env id candidate s a o m).1 j),
    rw (submit_complete prisma env id candidate s a o m) (
        rw (done-applications prisma env id candidate s a o) (
          ground (
            arith,
            dead,
            count-at_row id (submittable candidate) (mark_submitted env.now) s a m.found
                (ground (arith, m.unsent, m.mine)),
          ))),
  )
