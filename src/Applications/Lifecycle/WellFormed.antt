-- ===== src/Applications/Lifecycle/WellFormed.antt =====
-- The flags of an application agree with its stage, over every history of requests.
use south_connect.Prelude.{
  ℕ, ◌≡◌, ◌≢◌, inl, inr, true, Option, none, some, List, [], ◌∷◌, arith, Option-cases,
}
use south_connect.Schema.{Application, ready_to_submit, Store, Prisma, is_null}
use south_connect.Applications.Stages.{Env, is_draft_stage, is_live}
use south_connect.Applications.Create.{restored, drafted}
use south_connect.Applications.Edit.{edited}
use south_connect.Applications.Submit.{mark_submitted}
use south_connect.Applications.Review.{reviewed, is_final}
use south_connect.Applications.Withdraw.{mark_withdrawn}
use south_connect.Applications.Lifecycle.{
  Request, handle, run, Step, edits, submits, reviews, withdraws, restores,
}
use south_connect.Applications.Lifecycle.Rows.{Moved, handle-Moved}

-- `isDraft` and a missing submission date mean the draft stage, `isClosed` means a final stage, and
-- the stage READY_TO_SUBMIT does not occur.
pub record IsWellFormed (a : Application) : Type 0 where
  pub draft_flag : a.is_draft ≡ is_draft_stage a
  pub unsent : is_null a.submission_date ≡ is_draft_stage a
  pub closed_flag : a.is_closed ≡ is_final a.stage
  pub reachable : a.stage ≢ ready_to_submit

Step-IsWellFormed : (a b : Application) → Step a b → IsWellFormed a → IsWellFormed b
unfolding edited mark_submitted reviewed mark_withdrawn restored
Step-IsWellFormed a b (edits dto unsent e) w = ground arith
Step-IsWellFormed a b (submits now unsent e) w = ground arith
Step-IsWellFormed a b (reviews now dto live allowed e) w = ground arith
Step-IsWellFormed a b (withdraws now live early e) w = ground arith
Step-IsWellFormed a b (restores dto dead e) w = ground arith

abbrev Fits : Option Application → Type 0
Fits none = Unit
Fits (some a) = IsWellFormed a

Moved-Fits : (x y : Option Application) → Moved x y → Fits x → Fits y
unfolding drafted
Moved-Fits none none m w = tt
Moved-Fits none (some b) (candidate, dto, e) w = ground arith
Moved-Fits (some a) none m w = absurd m
Moved-Fits (some a) (some b) (inl e) w = ground arith
Moved-Fits (some a) (some b) (inr st) w = Step-IsWellFormed a b st w

-- A live application in a final stage is left alone by every step.
Moved-final :
    (a : Application) (y : Option Application)
    → is_live a ≡ true
    → is_final a.stage ≡ true
    → Moved (some a) y
    → y ≡ some a
Moved-final a none live final m = absurd m
Moved-final a (some b) live final (inl e) = ground arith
Moved-final a (some b) live final (inr (edits dto unsent e)) = ground arith
Moved-final a (some b) live final (inr (submits now unsent e)) = ground arith
Moved-final a (some b) live final (inr (reviews now dto l allowed e)) = ground arith
Moved-final a (some b) live final (inr (withdraws now l early e)) = ground arith
Moved-final a (some b) live final (inr (restores dto dead e)) = ground arith

module _ (prisma : Prisma) (j : ℕ) where
  run-Fits :
      (rs : List (Env × Request)) (s : Store)
      → Fits (prisma.application.find_unique j s.applications)
      → Fits (prisma.application.find_unique j (run prisma rs s).applications)
  unfolding run
  run-Fits [] s w = w
  run-Fits ((env, r) ∷ rs) s w =
      run-Fits rs (handle prisma env r s) (Moved-Fits _ _ (handle-Moved prisma env s j r) w)

  -- Over any list of requests, served or refused, an application that is absent or well formed at
  -- the start is well formed whenever it is found at the end.
  pub run-IsWellFormed :
      (rs : List (Env × Request)) (s : Store)
      → ((a : Application)
          → prisma.application.find_unique j s.applications ≡ some a
          → IsWellFormed a)
      → (b : Application) → prisma.application.find_unique j (run prisma rs s).applications ≡ some b
      → IsWellFormed b
  run-IsWellFormed rs s start b found =
      let fits : Fits (prisma.application.find_unique j (run prisma rs s).applications) =
        run-Fits rs s (elim (Option-cases (prisma.application.find_unique j s.applications)) [
          | inl absent ↦ rw absent tt
          | inr (a, present) ↦ rw present (start a present)
        ]) in
      rw found at fits

  -- A live application that was accepted or archived stays as it is, over any list of requests.
  pub run_final :
      (rs : List (Env × Request)) (s : Store) (a : Application)
      → prisma.application.find_unique j s.applications ≡ some a
      → is_live a ≡ true
      → is_final a.stage ≡ true
      → prisma.application.find_unique j (run prisma rs s).applications ≡ some a
  unfolding run
  run_final [] s a found live final = found
  run_final ((env, r) ∷ rs) s a found live final =
      run_final rs (handle prisma env r s) a
        (Moved-final a _ live final (rw found at (handle-Moved prisma env s j r))) live final
