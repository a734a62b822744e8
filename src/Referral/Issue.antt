-- ===== src/Referral/Issue.antt =====
-- Referral codes: at most fifty for a user, one row for a code, and only for the user's opportunities.
use south_connect.Prelude.{
  ℕ, ◌≤◌, ◌≡◌, refl, sym, ap, ◌∙◌, subst, ◌⊎◌, inl, inr, false, Option, none, some, List, [], ◌∷◌,
  arith, ◌==◌, leb, Bool-cases, Option-cases, some_injective,
}
use south_connect.Action.{ok, err, forbidden}
use south_connect.Database.{Table}
use south_connect.Schema.{Text, UserKey, Opportunity, ReferralCode, ReferralType, Store, Prisma}
use south_connect.Applications.Submit.{of_code}
use south_connect.Social.Tally.{count-free}
use south_connect.Referral.{codes_of, new_code, is_foreign, check_opportunity, insert_code, create}

-- A call of `create` with what it is given.
pub record Issue : Type 0 where
  pub new_id : ℕ
  pub code : Text
  pub user : UserKey
  pub opportunity : Option ℕ
  pub kind : Option ReferralType

module _ (prisma : Prisma) where
  pub record CodesBounded (s : Store) : Type 0 where
    pub unique : (code : Text) → prisma.referral_code.count (of_code code) s.referral_codes ≤ 1
    pub bounded : (u : UserKey) → prisma.referral_code.count (codes_of u) s.referral_codes ≤ 50
    -- A code for an opportunity is the opportunity's owner's.
    pub own :
        (k o : ℕ) (r : ReferralCode) (p : Opportunity)
        → prisma.referral_code.find_unique k s.referral_codes ≡ some r
        → r.opportunity_id ≡ some o
        → prisma.opportunity.find_unique o s.opportunities ≡ some p
        → p.owner_id ≡ r.owner_id

  unfoldable pub issue : Issue → Store → Store
  issue i s = (create prisma i.new_id i.code i.user i.opportunity i.kind s).1

  unfoldable pub issue_all : List Issue → Store → Store
  issue_all [] s = s
  issue_all (i ∷ rest) s = issue_all rest (issue i s)

  check_cases :
      (user : UserKey) (opportunity : Option ℕ) (s : Store)
      → (check_opportunity prisma user opportunity s ≡ (err forbidden, s))
        ⊎ (check_opportunity prisma user opportunity s ≡ (ok tt, s))
          × ((o : ℕ) (p : Opportunity)
              → opportunity ≡ some o
              → prisma.opportunity.find_unique o s.opportunities ≡ some p
              → p.owner_id ≡ user)
  unfolding check_opportunity
  check_cases user none s = inr (refl, λ o p h found. ground (arith, h))
  check_cases user (some id) s =
      elim (Bool-cases (is_foreign user (prisma.opportunity.find_unique id s.opportunities))) [
        | inl foreign ↦ inl (ground (arith, foreign))
        | inr own ↦ inr (ground (arith, own), λ o p h found. ground (arith, own, h, found))
      ]

  create_cases :
      (i : Issue) (s : Store)
      → (issue i s ≡ s)
        ⊎ (table : Table ReferralCode) × (prisma.referral_code.create
              (of_code i.code)
              i.new_id
              (new_code i.code i.user i.opportunity i.kind)
              s.referral_codes
            ≡ some table)
          × (leb 50 (prisma.referral_code.count (codes_of i.user) s.referral_codes) ≡ false)
          × ((o : ℕ) (p : Opportunity)
              → i.opportunity ≡ some o
              → prisma.opportunity.find_unique o s.opportunities ≡ some p
              → p.owner_id ≡ i.user)
          × (issue i s ≡ record s { referral_codes = table })
  unfolding issue create insert_code
  create_cases i s =
      elim (Bool-cases (leb 50 (prisma.referral_code.count (codes_of i.user) s.referral_codes))) [
        | inl full ↦ inl (ground (arith, full))
        | inr room ↦ elim (check_cases i.user i.opportunity s) [
          | inl refused ↦ inl (ground (arith, room, refused))
          | inr (passed, own) ↦
              elim (Option-cases (
                prisma.referral_code.create (of_code i.code) i.new_id
                  (new_code i.code i.user i.opportunity i.kind) s.referral_codes)) [
                    | inl clash ↦ inl (ground (arith, room, passed, clash))
                    | inr (table, made) ↦
                        inr (table, made, room, own, ground (arith, room, passed, made))
                  ]
        ]
      ]

  issue-CodesBounded : (i : Issue) (s : Store) → CodesBounded s → CodesBounded (issue i s)
  issue-CodesBounded i s c = elim (create_cases i s) [
    | inl same ↦ subst CodesBounded (sym same) c
    | inr (table, made, room, own, served) ↦
        let row = new_code i.code i.user i.opportunity i.kind in
        subst CodesBounded (sym served) (record {
          unique = λ code. ground (
            arith,
            c.unique code,
            count-free prisma.referral_code (of_code i.code) i.new_id row s.referral_codes table
                made,
            prisma.referral_code.count-create (of_code i.code) i.new_id row s.referral_codes table
                (of_code code) made,
          );
          bounded = λ u. ground (
            arith,
            c.bounded u,
            room,
            prisma.referral_code.count-create (of_code i.code) i.new_id row s.referral_codes table
                (codes_of u) made,
          );
          own = λ k o r p found linked there. elim (Bool-cases (k == i.new_id)) [
            | inl new ↦
                let is_row = some_injective {a = r} {b = row} (
                  sym found
                  ∙ prisma.referral_code.find_unique-create (of_code i.code) i.new_id row
                      s.referral_codes table k made
                  ∙ rw new refl) in
                own o p (ap (λ (q : ReferralCode). q.opportunity_id) (sym is_row) ∙ linked) there
                ∙ ap (λ (q : ReferralCode). q.owner_id) (sym is_row)
            | inr old ↦
                c.own k o r p
                  (ground (
                    arith,
                    old,
                    found,
                    prisma.referral_code.find_unique-create (of_code i.code) i.new_id row
                        s.referral_codes table k made,
                  ))
                  linked there
          ];
        })
  ]

  -- After any sequence of calls of `create`, refused ones included, that begins where it holds: no
  -- code has two rows, no user has more than fifty codes, and a code for an opportunity belongs to
  -- the opportunity's owner.
  pub issue_all-CodesBounded :
      (calls : List Issue) (s : Store) → CodesBounded s → CodesBounded (issue_all calls s)
  unfolding issue_all
  issue_all-CodesBounded [] s c = c
  issue_all-CodesBounded (i ∷ rest) s c =
      issue_all-CodesBounded rest (issue i s) (issue-CodesBounded i s c)
