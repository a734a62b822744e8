-- ===== src/Applications/Stages.antt =====
-- The stages of an application, the environment of a request, and the clauses that pick one row.
use south_connect.Prelude.{ℕ, ◌≡◌, ◌↔◌, Bool, true, false, not, ◌&&◌, List, arith, any, ◌==◌}
use south_connect.Schema.{
  Application, ApplicationStage, draft, submitted, owner_review, ready_to_submit, success, archived,
  is_null, Opportunity, OpportunityStatus, active,
}
use south_connect.Prelude.Int.{pos, ◌+ℤ◌, ◌-ℤ◌}

-- What a request finds outside the database: the time, whether the counters' fire-and-forget
-- transaction commits, and whether the email's call returns without a throw.
pub record Env : Type 0 where
  pub now : ℕ
  pub counters_ok : Bool
  pub mail_ok : Bool

abbrev pub rank : ApplicationStage → ℕ
rank draft = 0
rank submitted = 1
rank owner_review = 2
rank ready_to_submit = 3
rank success = 4
rank archived = 5

-- `===` on stages
abbrev pub same_stage : ApplicationStage → ApplicationStage → Bool
same_stage a b = rank a == rank b

abbrev pub includes : List ApplicationStage → ApplicationStage → Bool
includes stages a = any (same_stage a) stages

pub same_stage_iff : (a b : ApplicationStage) → (same_stage a b ≡ true) ↔ (a ≡ b)
same_stage_iff a b = ground arith

abbrev pub is_draft_stage : Application → Bool
is_draft_stage a = same_stage a.stage draft

-- `deletedAt: null`
abbrev pub is_live : Application → Bool
is_live a = is_null a.deleted_at

abbrev pub is_active : OpportunityStatus → Bool
is_active active = true
is_active _ = false

-- `applicationsCount: { increment: 1 }` and `{ decrement: 1 }`
abbrev pub count_one_more : Opportunity → Opportunity
count_one_more o = record o { applications_count = o.applications_count +ℤ pos 1 }

abbrev pub count_one_less : Opportunity → Opportunity
count_one_less o = record o { applications_count = o.applications_count -ℤ pos 1 }

-- An application that an opportunity's counter counts: not withdrawn, and past the draft.
abbrev pub is_counted : Application → Bool
is_counted a = is_live a && not (is_draft_stage a)
