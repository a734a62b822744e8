-- ===== src/Applications/Create.antt =====
-- `create`: a new draft, or the restoration of a withdrawn application of the same candidate.
pub mod Outcome
use south_connect.Prelude.{ℕ, true, false, not, ◌&&◌, Option, none, some, or_else, ◌==◌}
use south_connect.Action.{
  Action, not_found, conflict, gone, ◌>>=◌, ◌>>◌, pure, throw, gets, modify, throw_if, or_throw,
}
use south_connect.Database.{Where}
use south_connect.Database.Keyed.{at, always}
use south_connect.Schema.{Text, UserKey, Application, draft, Store, Prisma, is_null}
use south_connect.Applications.Stages.{is_live}

pub record CreateDto : Type 0 where
  pub opportunity_id : ℕ
  pub title : Option Text
  pub goal_letter : Option Text
  pub referral_code_used : Option Text

-- `{ opportunityId, candidateId }`, which is also the schema's unique key
abbrev pub of_pair : ℕ → UserKey → Where Application
of_pair opportunity candidate k a = a.opportunity_id == opportunity && a.candidate_id == candidate

unfoldable pub restored : CreateDto → Application → Application
restored dto old = record old {
  deleted_at = none;
  stage = draft;
  is_draft = true;
  is_closed = false;
  submission_date = none;
  review_date = none;
  review_feedback = none;
  feedback_title = none;
  title = or_else dto.title old.title;
  goal_letter = or_else dto.goal_letter old.goal_letter;
  referral_code_used = dto.referral_code_used;
}

unfoldable pub drafted : UserKey → CreateDto → Application
drafted candidate dto = record {
  opportunity_id = dto.opportunity_id;
  candidate_id = candidate;
  title = dto.title;
  goal_letter = dto.goal_letter;
  submission_date = none;
  stage = draft;
  is_closed = false;
  is_draft = true;
  review_date = none;
  review_feedback = none;
  feedback_title = none;
  referral_code_used = dto.referral_code_used;
  external_link = none;
  external_link2 = none;
  attachment_url = none;
  deleted_at = none;
}

module _ (prisma : Prisma) where
  restore : CreateDto → ℕ × Application → Action Store ℕ
  unfolding restored
  restore dto (id, old) = do
    throw_if (is_live old) conflict
    modify λ s. record s {
      applications = prisma.application.update_many (at id always) (restored dto) s.applications;
    }
    pure id

  -- The insertion; the error P2002 becomes a conflict.
  insert : ℕ → UserKey → CreateDto → Action Store ℕ
  unfolding drafted
  insert new_id candidate dto s =
      elim (prisma.application.create (of_pair dto.opportunity_id candidate) new_id
        (drafted candidate dto) s.applications) [
          | none ↦ throw conflict s
          | some t ↦ pure new_id (record s { applications = t })
        ]

  -- `new_id` is the key that the database makes up for a new row. The key is returned for the row.
  unfoldable pub create : ℕ → UserKey → CreateDto → Action Store ℕ
  unfolding restore insert
  create new_id candidate dto = do
    opportunity ← gets λ s. prisma.opportunity.find_unique dto.opportunity_id s.opportunities
    opportunity ← or_throw opportunity not_found
    throw_if (not (is_null opportunity.deleted_at)) gone
    existing ←
        gets
          λ s. prisma.application.find_first (of_pair dto.opportunity_id candidate) s.applications
    λ s. elim existing [ some old ↦ restore dto old s | none ↦ insert new_id candidate dto s ]
