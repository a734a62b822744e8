-- ===== src/Samples.antt =====
-- Small concrete data for the examples: a client of stored rows for each table, and an empty store.
use south_connect.Prelude.{ℕ, true, false, Option, none, some, [], ◌∷◌}
use south_connect.Prelude.Int.{pos}
use south_connect.Database.Rows.{rows}
use south_connect.Schema.{
  UserKey, UserRole, User, OpportunityStatus, Opportunity, OpportunityDetails, Application,
  ApplicationStage, draft, Store, Prisma,
}

abbrev pub stored_rows : Prisma
stored_rows = record {
  user = rows;
  btoc_profile = rows;
  btob_profile = rows;
  opportunity = rows;
  application = rows;
  referral_code = rows;
  follow = rows;
  like = rows;
  save = rows;
  rating = rows;
  task = rows;
  message = rows;
  private_discussion = rows;
  participant = rows;
  public_discussion = rows;
}

abbrev pub empty_store : Store
empty_store = record {
  users = [];
  btoc_profiles = [];
  btob_profiles = [];
  opportunities = [];
  applications = [];
  referral_codes = [];
  follows = [];
  likes = [];
  saves = [];
  ratings = [];
  tasks = [];
  messages = [];
  private_discussions = [];
  participants = [];
  public_discussions = [];
  calls = [];
}

-- A user whose password is `password`.
abbrev pub member_with : ℕ → Option ℕ → User
member_with email password = record {
  email = email;
  first_name = none;
  last_name = none;
  name = none;
  password = password;
  role = UserRole.user;
  bio = none;
  profile_pic = none;
  header_image = none;
  phone = none;
  city = none;
  country = none;
  linkedin_url = none;
  website = none;
  visibility = true;
  google_id = none;
  password_reset_expiry = none;
  password_reset_token = none;
  email_verification_token = none;
  email_verification_token_expiry = none;
  is_email_verified = true;
  is_banned = false;
  email_opt_out = false;
  email_unsubscribe_token = none;
  password_changed_at = none;
  deleted_at = none;
}

abbrev no_details : OpportunityDetails
no_details = record {
  feature_id = none;
  city = none;
  region = none;
  application_process_id = none;
  need_to_check_applicant = false;
  image = none;
  background_image = none;
  file = none;
  url = none;
  industries = [];
  markets = [];
  price = none;
  currency = none;
  pricing_unit = none;
  pricing_details = none;
  ai_generated = false;
  ai_prompt = none;
  ai_output = none;
  referral_available = false;
  referral_amount = none;
}

-- An active opportunity of a user.
abbrev pub offer_of : UserKey → Opportunity
offer_of owner = record {
  name = 1;
  punchline = none;
  description = none;
  kind = 0;
  country = none;
  remote = none;
  tags = [];
  status = OpportunityStatus.active;
  owner_id = owner;
  start_date = none;
  end_date = none;
  expiration_date = none;
  applications_count = pos 0;
  likes_count = pos 0;
  messages_count = pos 0;
  saved_count = pos 0;
  shared_count = pos 0;
  views_count = pos 0;
  boosted = false;
  boosted_until = none;
  qualified = false;
  details = no_details;
  created_at = 0;
  deleted_at = none;
}

-- The draft of user 1 for opportunity 0.
abbrev pub a_draft : Application
a_draft = record {
  opportunity_id = 0;
  candidate_id = 1;
  title = none;
  goal_letter = none;
  submission_date = none;
  stage = draft;
  is_closed = false;
  is_draft = true;
  review_date = none;
  review_feedback = none;
  feedback_title = none;
  referral_code_used = none;
  external_link = none;
  external_link2 = none;
  attachment_url = none;
  deleted_at = none;
}

-- The same application at a later stage.
abbrev pub sent_at : ApplicationStage → Application
sent_at stage = record a_draft { stage = stage; is_draft = false; submission_date = some 1 }

-- User 2 owns opportunity 0, to which the application is.
abbrev pub with_application : Application → Store
with_application a = record empty_store {
  users = none ∷ some (member_with 1 none) ∷ some (member_with 2 none) ∷ [];
  opportunities = some (offer_of 2) ∷ [];
  applications = some a ∷ [];
}
