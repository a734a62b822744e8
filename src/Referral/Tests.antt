-- ===== src/Referral/Tests.antt =====
-- The theorem on referral codes at concrete calls.
use south_connect.Prelude.{none, some, [], ◌∷◌, arith}
use south_connect.Database.Rows.{rows}
use south_connect.Schema.{Store}
use south_connect.Samples.{stored_rows, empty_store, offer_of}
use south_connect.Referral.Issue.{Issue, CodesBounded, issue_all, issue_all-CodesBounded}

abbrev one_offer : Store
one_offer = record empty_store { opportunities = some (offer_of 2) ∷ [] }

-- User 2 asks for a code for opportunity 0, and user 1 tries the same.
abbrev owner_call : Issue
owner_call = record { new_id = 0; code = 7; user = 2; opportunity = some 0; kind = none }

abbrev other_call : Issue
other_call = record { new_id = 1; code = 8; user = 1; opportunity = some 0; kind = none }

one_offer-CodesBounded : CodesBounded stored_rows one_offer
unfolding rows
one_offer-CodesBounded = record {
  unique = λ code. ground arith;
  bounded = λ u. ground arith;
  own = λ k o r p found linked there. ground (arith, found);
}

issue_all-CodesBounded_example :
    CodesBounded stored_rows (issue_all stored_rows (owner_call ∷ other_call ∷ []) one_offer)
issue_all-CodesBounded_example =
    issue_all-CodesBounded stored_rows (owner_call ∷ other_call ∷ []) one_offer
      one_offer-CodesBounded
