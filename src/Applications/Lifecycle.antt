-- ===== src/Applications/Lifecycle.antt =====
-- The five methods that write applications, as requests one after the other, and the steps that an
-- application's row can take.
pub mod Rows
pub mod WellFormed
use south_connect.Prelude.{ℕ, ◌≡◌, true, false, List, [], ◌∷◌}
use south_connect.Action.{Action, ◌>>=◌, ◌>>◌, pure, Result}
use south_connect.Schema.{UserKey, Application, draft, Store, Prisma}
use south_connect.Applications.Stages.{Env, is_live, includes}
use south_connect.Applications.Create.{CreateDto, create, restored}
use south_connect.Applications.Edit.{UpdateDto, update, edited}
use south_connect.Applications.Submit.{submit, mark_submitted}
use south_connect.Applications.Review.{ReviewDto, review, reviewed, valid_transitions}
use south_connect.Applications.Withdraw.{withdraw, mark_withdrawn, non_withdrawable_stages}

pub data Request : Type 0 where
  creates : (new_id : ℕ) → UserKey → CreateDto → Request
  updates : ℕ → UserKey → UpdateDto → Request
  submits : ℕ → UserKey → Request
  reviews : ℕ → UserKey → ReviewDto → Request
  withdraws : ℕ → UserKey → Request

-- The store after a request, whether it was served or refused.
unfoldable pub handle : Prisma → Env → Request → Store → Store
handle prisma env (creates new_id candidate dto) s = (create prisma new_id candidate dto s).1
handle prisma env (updates id candidate dto) s = (update prisma id candidate dto s).1
handle prisma env (submits id candidate) s = (submit prisma env id candidate s).1
handle prisma env (reviews id owner dto) s = (review prisma env id owner dto s).1
handle prisma env (withdraws id candidate) s = (withdraw prisma env id candidate s).1

unfoldable pub run : Prisma → List (Env × Request) → Store → Store
run prisma [] s = s
run prisma ((env, r) ∷ rs) s = run prisma rs (handle prisma env r s)

-- One move of a row.
pub data Step (a b : Application) : Type 0 where
  edits : (dto : UpdateDto) → a.stage ≡ draft → b ≡ edited dto a → Step a b
  submits : (now : ℕ) → a.stage ≡ draft → b ≡ mark_submitted now a → Step a b
  reviews :
      (now : ℕ) (dto : ReviewDto)
      → is_live a ≡ true
      → includes (valid_transitions a.stage) dto.stage ≡ true
      → b ≡ reviewed now dto a
      → Step a b
  withdraws :
      (now : ℕ)
      → is_live a ≡ true
      → includes non_withdrawable_stages a.stage ≡ false
      → b ≡ mark_withdrawn now a
      → Step a b
  restores : (dto : CreateDto) → is_live a ≡ false → b ≡ restored dto a → Step a b
