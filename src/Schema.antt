-- ===== src/Schema.antt =====
-- prisma/schema.prisma: the models and enums that the services read and write. A primary key is
-- kept beside its row. A text is a number, since it is only compared and tested: 0 is the empty
-- text, which JavaScript takes for false. Counters are SQL integers, which may fall below zero.
use south_connect.Prelude.{ℕ, Bool, true, false, not, Option, none, some, List, ◌==◌}
use south_connect.Prelude.Int.{ℤ}
use south_connect.Database.{Table, Client}

abbrev pub Text : Type 0
Text = ℕ

abbrev pub UserKey : Type 0
UserKey = ℕ

-- `if (text)` where the text may be null.
abbrev pub truthy : Option Text → Bool
truthy none = false
truthy (some t) = not (t == 0)

abbrev pub is_null {ℓ} : {A : Type ℓ} → Option A → Bool
is_null none = true
is_null (some a) = false

pub data UserRole : Type 0 where
  user admin : UserRole

pub data OpportunityStatus : Type 0 where
  draft pending active archived closed : OpportunityStatus

pub data ApplicationStage : Type 0 where
  draft submitted owner_review ready_to_submit success archived : ApplicationStage

pub data ReferralStatus : Type 0 where
  pending active completed expired : ReferralStatus

pub data ReferralType : Type 0 where
  new_user talent_hunt opportunity_related : ReferralType

pub data DiscussionType : Type 0 where
  open_forum opportunity_related : DiscussionType

pub data TaskStatus : Type 0 where
  todo working_on_it idea done : TaskStatus

pub record User : Type 0 where
  pub email : Text
  pub first_name : Option Text
  pub last_name : Option Text
  pub name : Option Text
  pub password : Option Text
  pub role : UserRole
  pub bio : Option Text
  pub profile_pic : Option Text
  pub header_image : Option Text
  pub phone : Option Text
  pub city : Option Text
  pub country : Option Text
  pub linkedin_url : Option Text
  pub website : Option Text
  pub visibility : Bool
  pub google_id : Option Text
  pub password_reset_expiry : Option ℕ
  pub password_reset_token : Option Text
  pub email_verification_token : Option Text
  pub email_verification_token_expiry : Option ℕ
  pub is_email_verified : Bool
  pub is_banned : Bool
  pub email_opt_out : Bool
  pub email_unsubscribe_token : Option Text
  pub password_changed_at : Option ℕ
  pub deleted_at : Option ℕ

pub record BtoCProfile : Type 0 where
  pub user_id : UserKey
  pub followers_count : ℤ
  pub opportunities_count : ℤ
  pub active_opportunities_count : ℤ
  pub avg_rating : Option (ℕ × ℕ)
  pub rounded_rating : Option ℕ

pub record BtoBProfile : Type 0 where
  pub user_id : UserKey
  pub followers_count : ℤ
  pub opportunities_count : ℤ

-- The columns that are only stored. A price is a number of cents.
pub record OpportunityDetails : Type 0 where
  pub feature_id : Option Text
  pub city : Option Text
  pub region : Option Text
  pub application_process_id : Option Text
  pub need_to_check_applicant : Bool
  pub image : Option Text
  pub background_image : Option Text
  pub file : Option Text
  pub url : Option Text
  pub industries : List Text
  pub markets : List Text
  pub price : Option ℕ
  pub currency : Option Text
  pub pricing_unit : Option Text
  pub pricing_details : Option Text
  pub ai_generated : Bool
  pub ai_prompt : Option Text
  pub ai_output : Option Text
  pub referral_available : Bool
  pub referral_amount : Option ℕ

pub record Opportunity : Type 0 where
  pub name : Text
  pub punchline : Option Text
  pub description : Option Text
  pub kind : Text
  pub country : Option Text
  pub remote : Option Bool
  pub tags : List Text
  pub status : OpportunityStatus
  pub owner_id : UserKey
  pub start_date : Option ℕ
  pub end_date : Option ℕ
  pub expiration_date : Option ℕ
  pub applications_count : ℤ
  pub likes_count : ℤ
  pub messages_count : ℤ
  pub saved_count : ℤ
  pub shared_count : ℤ
  pub views_count : ℤ
  pub boosted : Bool
  pub boosted_until : Option ℕ
  pub qualified : Bool
  pub details : OpportunityDetails
  pub created_at : ℕ
  pub deleted_at : Option ℕ

pub record Application : Type 0 where
  pub opportunity_id : ℕ
  pub candidate_id : UserKey
  pub title : Option Text
  pub goal_letter : Option Text
  pub submission_date : Option ℕ
  pub stage : ApplicationStage
  pub is_closed : Bool
  pub is_draft : Bool
  pub review_date : Option ℕ
  pub review_feedback : Option Text
  pub feedback_title : Option Text
  pub referral_code_used : Option Text
  pub external_link : Option Text
  pub external_link2 : Option Text
  pub attachment_url : Option Text
  pub deleted_at : Option ℕ

pub record ReferralCode : Type 0 where
  pub code : Text
  pub owner_id : UserKey
  pub opportunity_id : Option ℕ
  pub kind : ReferralType
  pub status : ReferralStatus
  pub uses_count : ℤ

pub record Follow : Type 0 where
  pub follower_id : UserKey
  pub following_id : UserKey

-- `LikedOpportunity` and `SavedOpportunity`
pub record Mark : Type 0 where
  pub user_id : UserKey
  pub opportunity_id : ℕ

-- What a rating is about: a user or an opportunity by its key, or `discussion:<key>`.
pub data Item : Type 0 where
  of_key of_discussion : ℕ → Item

abbrev pub same_item : Item → Item → Bool
same_item (of_key i) (of_key j) = i == j
same_item (of_discussion i) (of_discussion j) = i == j
same_item _ _ = false

pub record Rating : Type 0 where
  pub item_id : Item
  pub user_id : UserKey
  pub rating : ℕ

pub record Task : Type 0 where
  pub user_id : UserKey
  pub name : Text
  pub description : Option Text
  pub status : TaskStatus
  pub due_date : Option ℕ
  pub url : Option Text
  pub related_item_id : Option Text
  pub related_item_type : Option Text

pub record Message : Type 0 where
  pub client_message_id : Option Text
  pub content : Text
  pub sender_id : UserKey
  pub receiver_id : Option UserKey
  pub private_discussion_id : Option ℕ
  pub public_discussion_id : Option ℕ

pub record PrivateDiscussion : Type 0 where
  pub last_message_at : Option ℕ

pub record Participant : Type 0 where
  pub user_id : UserKey
  pub discussion_id : ℕ
  pub unread_count : ℤ
  pub last_read_at : Option ℕ

pub record PublicDiscussion : Type 0 where
  pub title : Text
  pub kind : DiscussionType
  pub owner_id : UserKey
  pub opportunity_id : Option ℕ
  pub messages_count : ℤ
  pub members_count : ℤ
  pub likes_count : ℤ
  pub last_message_at : Option ℕ

-- Notification types, as `createInApp` is given them.
pub data NotificationType : Type 0 where
  application_received application_reviewed application_accepted : NotificationType
  opportunity_approved opportunity_rejected new_message new_follower : NotificationType

-- A call of another service that a method makes: an email to a user, an in-app notification for
-- a user, a broadcast to a discussion's room, or an event to a user's socket.
pub data Call : Type 0 where
  email in_app : UserKey → NotificationType → Call
  broadcast : (discussion : ℕ) → (message : ℕ) → Call
  badge_update : UserKey → (discussion : ℕ) → Call
  clear_link : UserKey → (discussion : ℕ) → Call
  invalidate_caches : Call

-- The database, and the calls made so far, newest first.
pub record Store : Type 0 where
  pub users : Table User
  pub btoc_profiles : Table BtoCProfile
  pub btob_profiles : Table BtoBProfile
  pub opportunities : Table Opportunity
  pub applications : Table Application
  pub referral_codes : Table ReferralCode
  pub follows : Table Follow
  pub likes : Table Mark
  pub saves : Table Mark
  pub ratings : Table Rating
  pub tasks : Table Task
  pub messages : Table Message
  pub private_discussions : Table PrivateDiscussion
  pub participants : Table Participant
  pub public_discussions : Table PublicDiscussion
  pub calls : List Call

-- `PrismaService`: a client for each table.
pub record Prisma : Type 0 where
  pub user : Client User
  pub btoc_profile : Client BtoCProfile
  pub btob_profile : Client BtoBProfile
  pub opportunity : Client Opportunity
  pub application : Client Application
  pub referral_code : Client ReferralCode
  pub follow : Client Follow
  pub like : Client Mark
  pub save : Client Mark
  pub rating : Client Rating
  pub task : Client Task
  pub message : Client Message
  pub private_discussion : Client PrivateDiscussion
  pub participant : Client Participant
  pub public_discussion : Client PublicDiscussion
