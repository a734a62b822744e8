-- ===== src/Opportunities/Create.antt =====
-- `create`: an opportunity that is published at once, unless its owner asks for a draft.
use south_connect.Prelude.{
  ℕ, ◌≡◌, ◌⊎◌, inl, inr, Bool, true, false, Option, none, some, List, [], arith, or_default,
  Bool-cases, Option-cases,
}
use south_connect.Prelude.Int.{pos}
use south_connect.Action.{
  Action, HttpError, err, bad_request, internal_error, ◌>>=◌, ◌>>◌, pure, throw, modify, throw_if,
  transaction,
}
use south_connect.Database.{Where, Table}
use south_connect.Schema.{
  Text, UserKey, UserRole, OpportunityStatus, Opportunity, OpportunityDetails, Store, Prisma,
}
use south_connect.Social.{btoc_of, btob_of}
use south_connect.Opportunities.{is_admin, ends_early, more_opportunities, more_offers, invalidate}

-- The fields of the request that are only stored.
pub record DetailsDto : Type 0 where
  pub feature_id : Option Text
  pub city : Option Text
  pub region : Option Text
  pub application_process_id : Option Text
  pub need_to_check_applicant : Option Bool
  pub image : Option Text
  pub background_image : Option Text
  pub file : Option Text
  pub url : Option Text
  pub industries : Option (List Text)
  pub markets : Option (List Text)
  pub price : Option ℕ
  pub currency : Option Text
  pub pricing_unit : Option Text
  pub pricing_details : Option Text
  pub ai_generated : Option Bool
  pub ai_prompt : Option Text
  pub ai_output : Option Text
  pub referral_available : Option Bool
  pub referral_amount : Option ℕ

-- `CreateOpportunityDto`
pub record CreateDto : Type 0 where
  pub name : Text
  pub punchline : Option Text
  pub description : Option Text
  pub kind : Text
  pub status : Option OpportunityStatus
  pub country : Option Text
  pub remote : Option Bool
  pub tags : Option (List Text)
  pub start_date : Option ℕ
  pub end_date : Option ℕ
  pub expiration_date : Option ℕ
  pub boosted : Option Bool
  pub boosted_until : Option ℕ
  pub qualified : Option Bool
  pub details : DetailsDto

-- What only an admin may set is reset for others.
abbrev pub restricted : Bool → CreateDto → CreateDto
restricted true dto = dto
restricted false dto = record dto {
  boosted = some false;
  boosted_until = none;
  qualified = some false;
}

-- `allowedStatuses`: anyone may begin with a draft or publish at once.
abbrev pub initial_status : Bool → Option OpportunityStatus → OpportunityStatus
initial_status true asked = or_default asked OpportunityStatus.active
initial_status false (some OpportunityStatus.draft) = OpportunityStatus.draft
initial_status false _ = OpportunityStatus.active

-- Where the request has no value, false and the empty list are stored, or null.
abbrev pub details_of : DetailsDto → OpportunityDetails
details_of dto = record {
  feature_id = dto.feature_id;
  city = dto.city;
  region = dto.region;
  application_process_id = dto.application_process_id;
  need_to_check_applicant = or_default dto.need_to_check_applicant false;
  image = dto.image;
  background_image = dto.background_image;
  file = dto.file;
  url = dto.url;
  industries = or_default dto.industries [];
  markets = or_default dto.markets [];
  price = dto.price;
  currency = dto.currency;
  pricing_unit = dto.pricing_unit;
  pricing_details = dto.pricing_details;
  ai_generated = or_default dto.ai_generated false;
  ai_prompt = dto.ai_prompt;
  ai_output = dto.ai_output;
  referral_available = or_default dto.referral_available false;
  referral_amount = dto.referral_amount;
}

-- The columns of the new row; the counters begin at their defaults.
abbrev pub new_opportunity : ℕ → UserKey → Bool → CreateDto → Opportunity
new_opportunity now owner admin dto = record {
  name = dto.name;
  punchline = dto.punchline;
  description = dto.description;
  kind = dto.kind;
  country = dto.country;
  remote = dto.remote;
  tags = or_default dto.tags [];
  status = initial_status admin dto.status;
  owner_id = owner;
  start_date = dto.start_date;
  end_date = dto.end_date;
  expiration_date = dto.expiration_date;
  applications_count = pos 0;
  likes_count = pos 0;
  messages_count = pos 0;
  saved_count = pos 0;
  shared_count = pos 0;
  views_count = pos 0;
  boosted = or_default (restricted admin dto).boosted false;
  boosted_until = (restricted admin dto).boosted_until;
  qualified = or_default (restricted admin dto).qualified false;
  details = details_of dto.details;
  created_at = now;
  deleted_at = none;
}

abbrev pub no_clash : Where Opportunity
no_clash k o = false

module _ (prisma : Prisma) where
  -- A new row with both counters, of which at most one matches a profile.
  abbrev pub with_opportunity : UserKey → Table Opportunity → Store → Store
  with_opportunity owner t s = record s {
    opportunities = t;
    btoc_profiles =
        prisma.btoc_profile.update_many (btoc_of owner) (more_opportunities (pos 1))
          s.btoc_profiles;
    btob_profiles =
        prisma.btob_profile.update_many (btob_of owner) (more_offers (pos 1)) s.btob_profiles;
  }

  insert_opportunity : ℕ → Opportunity → Action Store (ℕ × Opportunity)
  insert_opportunity new_id o s =
      elim (prisma.opportunity.create no_clash new_id o s.opportunities) [
        | none ↦ throw internal_error s
        | some t ↦ pure (new_id, o) (with_opportunity o.owner_id t s)
      ]

  unfoldable pub create :
      (now new_id : ℕ) → UserKey → CreateDto → Option UserRole → Action Store (ℕ × Opportunity)
  unfolding insert_opportunity
  create now new_id owner dto role = do
    throw_if (ends_early dto.start_date dto.end_date) bad_request
    result ← transaction (insert_opportunity new_id (new_opportunity now owner (is_admin role) dto))
    modify invalidate
    pure result

  pub record Creates (now new_id : ℕ) (owner : UserKey) (dto : CreateDto) (role : Option UserRole)
      (s t : Store) : Type 0 where
    pub table : Table Opportunity
    pub made :
        prisma.opportunity.create no_clash new_id
          (new_opportunity now owner (is_admin role) dto)
          s.opportunities
        ≡ some table
    pub in_order : ends_early dto.start_date dto.end_date ≡ false
    pub served : t ≡ invalidate (with_opportunity owner table s)

  pub create_cases :
      (now new_id : ℕ) (owner : UserKey) (dto : CreateDto) (role : Option UserRole) (s : Store)
      → ((e : HttpError) × (create now new_id owner dto role s ≡ (err e, s)))
        ⊎ Creates now new_id owner dto role s (create now new_id owner dto role s).1
  unfolding create insert_opportunity
  create_cases now new_id owner dto role s =
      let row = new_opportunity now owner (is_admin role) dto in
      elim (Bool-cases (ends_early dto.start_date dto.end_date)) [
        | inl early ↦ inl (bad_request, ground (arith, early))
        | inr fine ↦
            elim (Option-cases (prisma.opportunity.create no_clash new_id row s.opportunities)) [
              | inl taken ↦ inl (internal_error, ground (arith, fine, taken))
              | inr (table, made) ↦ inr (record {
                table = table;
                made = made;
                in_order = fine;
                served = ground (arith, fine, made);
              })
            ]
      ]
