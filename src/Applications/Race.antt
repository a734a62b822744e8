-- ===== src/Applications/Race.antt =====
-- Two requests on one application, whose reads and writes interleave.
use south_connect.Prelude.{ℕ, ◌≡◌, refl, Bool, true, Option, some, arith, if◌then◌else◌}
use south_connect.Action.{ok, err, bad_request, not_found, conflict}
use south_connect.Database.Keyed.{at}
use south_connect.Schema.{UserKey, Application, Opportunity, Store, Prisma}
use south_connect.Applications.Stages.{Env, is_live}
use south_connect.Applications.Submit.{submit, submit_commit, mark_submitted, submittable}
use south_connect.Applications.Submit.Outcome.{
  MaySubmit, committed, submit_commit_ok, submit_commit_err,
}
use south_connect.Applications.Submit.Effect.{submit_effect}
use south_connect.Applications.Review.{ReviewDto, review_commit, reviewed, complete_code}
use south_connect.Applications.Review.Outcome.{
  MayReview, review_commit_ok, review_commit_err, rewritten,
}
use south_connect.Applications.Review.Effect.{complete_code-others}
use south_connect.Applications.Withdraw.{
  withdraw_commit, withdraw_counter, mark_withdrawn, withdrawable,
}
use south_connect.Applications.Withdraw.Outcome.{
  MayWithdraw, taken_back, withdraw_commit_ok, withdraw_commit_conflict,
}

update_at :
    (prisma : Prisma) (id : ℕ) (g : Application → Bool) (f : Application → Application) (s : Store)
    (a : Application)
    → prisma.application.find_unique id s.applications ≡ some a
    → prisma.application.find_unique id (prisma.application.update_many (at id g) f s.applications)
      ≡ some (if g a then f a else a)
update_at prisma id g f s a found =
    ground (arith, prisma.application.find_unique-update_many id (at id g) f s.applications)

-- A review leaves the soft delete alone.
reviewed-live :
    (now : ℕ) (dto : ReviewDto) (a : Application) → is_live (reviewed now dto a) ≡ is_live a
unfolding reviewed
reviewed-live now dto a = refl

module _ (prisma : Prisma) (id : ℕ) (candidate : UserKey) (s : Store) where
  abbrev row : Store → Option Application
  row t = prisma.application.find_unique id t.applications

  -- Of two submissions that both read the caller's draft, the first write succeeds, the second is
  -- refused, and the row keeps the first one's date.
  pub double_submit :
      (a : Application) (o : Opportunity) (now later : ℕ)
      → MaySubmit prisma now id candidate s a o
      → let (r, t) = submit_commit prisma now id candidate s in
        let (r', t') = submit_commit prisma later id candidate t in
        (r ≡ ok tt) × (r' ≡ err bad_request) × (row t' ≡ some (mark_submitted now a))
  unfolding mark_submitted
  double_submit a o now later m =
      let t = committed prisma now id candidate s in
      let stored : row t ≡ some (mark_submitted now a) =
        ground
          (arith, update_at prisma id (submittable candidate) (mark_submitted now) s a m.found) in
      rw (submit_commit_ok prisma now id candidate s (ground (arith, m.found))) (
        rw (submit_commit_err prisma later id candidate t (ground (arith, stored))) (
          refl,
          refl,
          ground (
            arith,
            stored,
            update_at prisma id (submittable candidate) (mark_submitted later) t _ stored,
          ),
        ))

  -- A withdrawal that is written while a review is under way makes the review fail, and nothing of
  -- the review is stored.
  pub review_after_withdraw :
      (a : Application) (dto : ReviewDto) (now later : ℕ)
      → MayWithdraw prisma id candidate s a
      → let t = (withdraw_commit prisma now id candidate s).1 in
        review_commit prisma later id dto a t ≡ (err not_found, t)
  unfolding mark_withdrawn taken_back
  review_after_withdraw a dto now later m =
      rw (withdraw_commit_ok prisma now id candidate s (ground (arith, m.found))) (
        review_commit_err prisma later id dto a (taken_back prisma now id candidate s) (
          ground
            (arith, update_at prisma id (withdrawable candidate) (mark_withdrawn now) s a m.found)))

  -- Of two withdrawals that both read the live application, the second is refused.
  pub double_withdraw :
      (a : Application) (now later : ℕ)
      → MayWithdraw prisma id candidate s a
      → let (r, t) = withdraw_commit prisma now id candidate s in
        let (r', t') = withdraw_commit prisma later id candidate t in
        (r ≡ ok tt) × (r' ≡ err conflict) × (row t' ≡ some (mark_withdrawn now a))
  unfolding mark_withdrawn taken_back
  double_withdraw a now later m =
      let t = taken_back prisma now id candidate s in
      let stored : row t ≡ some (mark_withdrawn now a) =
        ground
          (arith, update_at prisma id (withdrawable candidate) (mark_withdrawn now) s a m.found) in
      rw (withdraw_commit_ok prisma now id candidate s (ground (arith, m.found))) (
        rw
          (withdraw_commit_conflict prisma later id candidate t (mark_withdrawn now a) stored m.mine
            refl)
          (
            refl,
            refl,
            ground (
              arith,
              stored,
              update_at prisma id (withdrawable candidate) (mark_withdrawn later) t _ stored,
            ),
          ))

  -- Two reviews that both read the application before either is written are both served: the later
  -- write wins, whatever stage the earlier one has stored, a final stage included.
  pub review_race :
      (a : Application) (owner : UserKey) (o o' : Opportunity) (first second : ReviewDto)
      (now later : ℕ)
      → MayReview prisma id owner first s a o
      → MayReview prisma id owner second s a o'
      → let (r, t) = review_commit prisma now id first a s in
        let (r', t') = review_commit prisma later id second a t in
        (r ≡ ok tt) × (r' ≡ ok tt) × (row t' ≡ some (reviewed later second (reviewed now first a)))
  unfolding rewritten
  review_race a owner o o' first second now later m m' =
      let t =
        complete_code prisma first.stage a.referral_code_used (rewritten prisma now id first s) in
      let stored : row t ≡ some (reviewed now first a) =
        rw
          (complete_code-others prisma first.stage a.referral_code_used
            (rewritten prisma now id first s)).0
          (ground (arith, update_at prisma id is_live (reviewed now first) s a m.found)) in
      rw (review_commit_ok prisma now id first a s (ground (arith, m.found))) (
        rw
          (review_commit_ok prisma later id second a t
            (ground (arith, stored, reviewed-live now first a)))
          (
            refl,
            refl,
            rw
                (complete_code-others prisma second.stage a.referral_code_used
                  (rewritten prisma later id second t)).0
                (ground (
                  arith,
                  stored,
                  reviewed-live now first a,
                  update_at prisma id is_live (reviewed later second) t _ stored,
                )),
          ))

  -- A withdrawal that has read the draft, and writes after a submission of it was served, is served
  -- as well; it remembers a draft, so it does not take back the one that the submission counted.
  pub withdraw_stale :
      (env : Env) (a : Application) (o : Opportunity) (later : ℕ)
      → MaySubmit prisma env.now id candidate s a o
      → is_live a ≡ true
      → let t = (submit prisma env id candidate s).1 in
        let (r, u) = withdraw_commit prisma later id candidate t in
        (r ≡ ok tt)
        × (row u ≡ some (mark_withdrawn later (mark_submitted env.now a)))
        × ((withdraw_counter prisma env a u).opportunities ≡ t.opportunities)
  unfolding mark_submitted taken_back withdraw_counter
  withdraw_stale env a o later m live =
      let t = (submit prisma env id candidate s).1 in
      let stored : row t ≡ some (mark_submitted env.now a) =
        ground (arith, (submit_effect prisma env id candidate s a o m).0 id) in
      rw (withdraw_commit_ok prisma later id candidate t (ground (arith, stored, m.mine, live))) (
        refl,
        ground (
          arith,
          stored,
          m.mine,
          live,
          update_at prisma id (withdrawable candidate) (mark_withdrawn later) t _ stored,
        ),
        ground (arith, m.unsent),
      )
