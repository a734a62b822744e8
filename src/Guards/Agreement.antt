-- ===== src/Guards/Agreement.antt =====
-- The guards of the application routes against the services behind them.
use south_connect.Prelude.{ℕ, ◌≡◌, ◌⊎◌, inl, inr, true, some, arith, ◌==◌, Bool-cases, Option-cases}
use south_connect.Action.{ok, err, forbidden, not_found, bad_request}
use south_connect.Database.Keyed.{find_first-at}
use south_connect.Schema.{Application, Opportunity, Store, Prisma}
use south_connect.Applications.Stages.{is_live, includes}
use south_connect.Applications.Review.{ReviewDto, valid_transitions, review_check}
use south_connect.Applications.Submit.Outcome.{MaySubmit}
use south_connect.Applications.Review.Outcome.{MayReview}
use south_connect.Guards.{Caller, application_owner_guard, application_review_owner_guard}

module _ (prisma : Prisma) (c : Caller) (id : ℕ) (s : Store) where
  -- The guard of the review route answers what the checks of `review` answer, up to the stage: where
  -- the guard refuses, `review` refuses with the same error or a missing opportunity, and where it
  -- lets the caller pass, `review` can only refuse the stage.
  pub review_guard-agrees :
      (dto : ReviewDto)
      → let guard = (application_review_owner_guard prisma (some c) id s).0 in
        let checked = (review_check prisma id c.id dto s).0 in
        ((guard ≡ ok true) × ((checked ≡ err bad_request) ⊎ (a : Application) × (checked ≡ ok a)))
        ⊎ (((guard ≡ err not_found) × (checked ≡ err not_found))
            ⊎ ((guard ≡ err forbidden) × ((checked ≡ err forbidden) ⊎ (checked ≡ err not_found))))
  unfolding application_review_owner_guard review_check
  review_guard-agrees dto = elim (Option-cases (prisma.application.find_unique id s.applications)) [
    | inl absent ↦
        let law = find_first-at prisma.application id is_live s.applications in
        inr (inl (ground (arith, absent, law), ground (arith, absent, law)))
    | inr (a, found) ↦
        let law = find_first-at prisma.application id is_live s.applications in
        elim (Bool-cases (is_live a)) [
          | inr dead ↦
              inr (inl (ground (arith, found, dead, law), ground (arith, found, dead, law)))
          | inl live ↦
              elim (Option-cases
                (prisma.opportunity.find_unique a.opportunity_id s.opportunities)) [
                  | inl gone ↦ inr (
                      inr (
                        ground (arith, found, live, gone, law),
                        inr (ground (arith, found, live, gone, law)),
                      ))
                  | inr (o, joined) ↦ elim (Bool-cases (o.owner_id == c.id)) [
                    | inr other ↦ inr (
                        inr (
                          ground (arith, found, live, joined, other, law),
                          inl (ground (arith, found, live, joined, other, law)),
                        ))
                    | inl mine ↦ inl (
                      ground (arith, found, live, joined, mine, law),
                      elim (Bool-cases (includes (valid_transitions a.stage) dto.stage)) [
                        | inl allowed ↦
                            inr (a, ground (arith, found, live, joined, mine, allowed, law))
                        | inr refused ↦
                            inl (ground (arith, found, live, joined, mine, refused, law))
                      ],
                    )
                  ]
                ]
        ]
  ]

  -- Whoever `submit` or `review` would serve, the guard of the owner's routes lets pass.
  pub owner_guard-passes :
      (now : ℕ) (dto : ReviewDto) (a : Application) (o : Opportunity)
      → (MaySubmit prisma now id c.id s a o) ⊎ (MayReview prisma id c.id dto s a o)
      → application_owner_guard prisma (some c) id s ≡ (ok true, s)
  unfolding application_owner_guard
  owner_guard-passes now dto a o (inl m) = ground (arith, m.found, m.mine)
  owner_guard-passes now dto a o (inr m) = ground (arith, m.found, m.joined, m.mine)
