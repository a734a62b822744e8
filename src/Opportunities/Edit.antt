-- ===== src/Opportunities/Edit.antt =====
-- `update`: the owner of an opportunity changes it.
use south_connect.Prelude.{
  ℕ, ◌≡◌, ◌⊎◌, inl, inr, Bool, true, false, not, ◌&&◌, Option, none, some, List, arith, ◌==◌,
  or_else, or_default, Bool-cases, Option-cases,
}
use south_connect.Action.{
  Action, HttpError, err, bad_request, forbidden, not_found, ◌>>=◌, ◌>>◌, pure, gets, modify,
  throw_if, or_throw,
}
use south_connect.Database.Keyed.{at, always, find_first-at}
use south_connect.Schema.{
  Text, UserKey, UserRole, OpportunityStatus, Opportunity, OpportunityDetails, Store, Prisma,
}
use south_connect.Guards.{assert_same_user}
use south_connect.Opportunities.{is_admin, ends_early, is_listed, invalidate}

-- The fields of the request that are only stored. A field that may be null is missing, or null, or has
-- a value.
pub record DetailsDto : Type 0 where
  pub feature_id : Option (Option Text)
  pub city : Option (Option Text)
  pub region : Option (Option Text)
  pub application_process_id : Option (Option Text)
  pub need_to_check_applicant : Option Bool
  pub image : Option (Option Text)
  pub background_image : Option (Option Text)
  pub file : Option (Option Text)
  pub url : Option (Option Text)
  pub industries : Option (List Text)
  pub markets : Option (List Text)
  pub price : Option (Option ℕ)
  pub currency : Option (Option Text)
  pub pricing_unit : Option (Option Text)
  pub pricing_details : Option (Option Text)
  pub ai_generated : Option Bool
  pub ai_prompt : Option (Option Text)
  pub ai_output : Option (Option Text)
  pub referral_available : Option Bool
  pub referral_amount : Option (Option ℕ)

-- `UpdateOpportunityDto`. A missing field is not written.
pub record UpdateDto : Type 0 where
  pub name : Option Text
  pub punchline : Option (Option Text)
  pub description : Option (Option Text)
  pub kind : Option Text
  pub status : Option OpportunityStatus
  pub country : Option (Option Text)
  pub remote : Option (Option Bool)
  pub tags : Option (List Text)
  pub start_date : Option ℕ
  pub end_date : Option ℕ
  pub expiration_date : Option ℕ
  pub boosted : Option Bool
  pub boosted_until : Option ℕ
  pub qualified : Option Bool
  pub details : DetailsDto

-- `delete dto.boosted` and so on, unless the requester is an admin.
abbrev pub without_privileges : Bool → UpdateDto → UpdateDto
without_privileges true dto = dto
without_privileges false dto = record dto { boosted = none; boosted_until = none; qualified = none }

-- `adminOnlyStatuses`
abbrev pub admin_only : OpportunityStatus → Bool
admin_only OpportunityStatus.pending = true
admin_only OpportunityStatus.closed = true
admin_only _ = false

abbrev pub asks_admin_only : Option OpportunityStatus → Bool
asks_admin_only none = false
asks_admin_only (some status) = admin_only status

-- A field that is missing in the request stays.
abbrev pub merged : DetailsDto → OpportunityDetails → OpportunityDetails
merged dto d = record {
  feature_id = or_default dto.feature_id d.feature_id;
  city = or_default dto.city d.city;
  region = or_default dto.region d.region;
  application_process_id = or_default dto.application_process_id d.application_process_id;
  need_to_check_applicant = or_default dto.need_to_check_applicant d.need_to_check_applicant;
  image = or_default dto.image d.image;
  background_image = or_default dto.background_image d.background_image;
  file = or_default dto.file d.file;
  url = or_default dto.url d.url;
  industries = or_default dto.industries d.industries;
  markets = or_default dto.markets d.markets;
  price = or_default dto.price d.price;
  currency = or_default dto.currency d.currency;
  pricing_unit = or_default dto.pricing_unit d.pricing_unit;
  pricing_details = or_default dto.pricing_details d.pricing_details;
  ai_generated = or_default dto.ai_generated d.ai_generated;
  ai_prompt = or_default dto.ai_prompt d.ai_prompt;
  ai_output = or_default dto.ai_output d.ai_output;
  referral_available = or_default dto.referral_available d.referral_available;
  referral_amount = or_default dto.referral_amount d.referral_amount;
}

abbrev pub edited : UpdateDto → Opportunity → Opportunity
edited dto o = record o {
  name = or_default dto.name o.name;
  punchline = or_default dto.punchline o.punchline;
  description = or_default dto.description o.description;
  kind = or_default dto.kind o.kind;
  country = or_default dto.country o.country;
  remote = or_default dto.remote o.remote;
  tags = or_default dto.tags o.tags;
  status = or_default dto.status o.status;
  start_date = or_else dto.start_date o.start_date;
  end_date = or_else dto.end_date o.end_date;
  expiration_date = or_else dto.expiration_date o.expiration_date;
  boosted = or_default dto.boosted o.boosted;
  boosted_until = or_else dto.boosted_until o.boosted_until;
  qualified = or_default dto.qualified o.qualified;
  details = merged dto.details o.details;
}

module _ (prisma : Prisma) where
  abbrev pub with_edit : ℕ → UpdateDto → Store → Store
  with_edit id dto s = record s {
    opportunities = prisma.opportunity.update_many (at id always) (edited dto) s.opportunities;
  }

  unfoldable pub update :
      ℕ → UserKey → UpdateDto → Option UserRole → Action Store (Option Opportunity)
  update id owner dto role = do
    found ← gets λ s. prisma.opportunity.find_first (at id is_listed) s.opportunities
    o ← or_throw found not_found
    assert_same_user o.1.owner_id owner
    throw_if (not (is_admin role) && asks_admin_only dto.status) forbidden
    throw_if (ends_early dto.start_date dto.end_date) bad_request
    modify (with_edit id (without_privileges (is_admin role) dto))
    result ← gets λ s. prisma.opportunity.find_unique id s.opportunities
    modify invalidate
    pure result

  pub record Updates (id : ℕ) (owner : UserKey) (dto : UpdateDto) (role : Option UserRole)
      (s t : Store) : Type 0 where
    pub row : Opportunity
    pub present : prisma.opportunity.find_unique id s.opportunities ≡ some row
    pub listed : is_listed row ≡ true
    pub owned : row.owner_id ≡ owner
    pub allowed : (not (is_admin role) && asks_admin_only dto.status) ≡ false
    pub served : t ≡ invalidate (with_edit id (without_privileges (is_admin role) dto) s)

  pub update_cases :
      (id : ℕ) (owner : UserKey) (dto : UpdateDto) (role : Option UserRole) (s : Store)
      → ((e : HttpError) × (update id owner dto role s ≡ (err e, s)))
        ⊎ Updates id owner dto role s (update id owner dto role s).1
  unfolding update
  update_cases id owner dto role s =
      let found = find_first-at prisma.opportunity id is_listed s.opportunities in
      elim (Option-cases (prisma.opportunity.find_unique id s.opportunities)) [
        | inl absent ↦ inl (not_found, ground (arith, found, absent))
        | inr (o, present) ↦ elim (Bool-cases (is_listed o)) [
          | inr deleted ↦ inl (not_found, ground (arith, found, present, deleted))
          | inl listed ↦ elim (Bool-cases (o.owner_id == owner)) [
            | inr other ↦ inl (forbidden, ground (arith, found, present, listed, other))
            | inl mine ↦ elim (Bool-cases (not (is_admin role) && asks_admin_only dto.status)) [
              | inl asks ↦ inl (forbidden, ground (arith, found, present, listed, mine, asks))
              | inr allowed ↦ elim (Bool-cases (ends_early dto.start_date dto.end_date)) [
                | inl early ↦
                    inl (bad_request, ground (arith, found, present, listed, mine, allowed, early))
                | inr fine ↦ inr (record {
                  row = o;
                  present = present;
                  listed = listed;
                  owned = ground (arith, mine);
                  allowed = allowed;
                  served = ground (arith, found, present, listed, mine, allowed, fine);
                })
              ]
            ]
          ]
        ]
      ]
