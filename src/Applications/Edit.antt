-- ===== src/Applications/Edit.antt =====
-- `update`: the applicant edits the texts of a draft.
pub mod Outcome
use south_connect.Prelude.{ℕ, not, Option, or_default, ◌==◌}
use south_connect.Action.{
  Action, not_found, forbidden, bad_request, ◌>>=◌, ◌>>◌, pure, gets, modify, throw_if, or_throw,
}
use south_connect.Database.Keyed.{at, always}
use south_connect.Schema.{Text, UserKey, Application, Store, Prisma}
use south_connect.Applications.Stages.{is_draft_stage}

-- Each field is missing, which leaves the column as it is, or null, or has a value.
pub record UpdateDto : Type 0 where
  pub title : Option (Option Text)
  pub goal_letter : Option (Option Text)
  pub external_link : Option (Option Text)
  pub external_link2 : Option (Option Text)
  pub referral_code_used : Option (Option Text)
  pub attachment_url : Option (Option Text)

unfoldable pub edited : UpdateDto → Application → Application
edited dto a = record a {
  title = or_default dto.title a.title;
  goal_letter = or_default dto.goal_letter a.goal_letter;
  external_link = or_default dto.external_link a.external_link;
  external_link2 = or_default dto.external_link2 a.external_link2;
  referral_code_used = or_default dto.referral_code_used a.referral_code_used;
  attachment_url = or_default dto.attachment_url a.attachment_url;
}

module _ (prisma : Prisma) where
  unfoldable pub update : ℕ → UserKey → UpdateDto → Action Store ℕ
  unfolding edited
  update id candidate dto = do
    found ← gets λ s. prisma.application.find_unique id s.applications
    application ← or_throw found not_found
    throw_if (not (application.candidate_id == candidate)) forbidden
    throw_if (not (is_draft_stage application)) bad_request
    modify λ s. record s {
      applications = prisma.application.update_many (at id always) (edited dto) s.applications;
    }
    pure id
