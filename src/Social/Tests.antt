-- ===== src/Social/Tests.antt =====
-- The theorem on the social counters at a concrete run.
use south_connect.Prelude.{ℕ, zero, suc, ◌≡◌, none, some, [], ◌∷◌, arith}
use south_connect.Prelude.Int.{pos}
use south_connect.Database.Rows.{rows}
use south_connect.Schema.{Opportunity, Store}
use south_connect.Samples.{stored_rows, empty_store, member_with, offer_of}
use south_connect.Social.Exact.{SocialExact}
use south_connect.Social.InStep.{
  follows, unfollows, likes, unlikes, saves, perform_all, perform_all-SocialExact,
}

-- Three users, and an opportunity of the last one.
abbrev world : Store
world = record empty_store {
  users = some (member_with 0 none) ∷ some (member_with 1 none) ∷ some (member_with 2 none) ∷ [];
  opportunities = some (offer_of 2) ∷ [];
}

uncounted :
    (item : ℕ) (o : Opportunity)
    → stored_rows.opportunity.find_unique item world.opportunities ≡ some o
    → (o.likes_count ≡ pos 0) × (o.saved_count ≡ pos 0)
unfolding rows
uncounted zero o found = (ground (arith, found), ground (arith, found))
uncounted (suc item) o found = (ground (arith, found), ground (arith, found))

world-SocialExact : SocialExact stored_rows world
unfolding rows
world-SocialExact = record {
  followers = record {
    unique = λ a b. ground arith;
    btoc = λ k p found. ground (arith, found);
    btob = λ k p found. ground (arith, found);
  };
  liked = record { unique = λ u i. ground arith; exact = λ i o found. (uncounted i o found).0 };
  saved = record { unique = λ u i. ground arith; exact = λ i o found. (uncounted i o found).1 };
  discussed = record { unique = λ u i. ground arith; exact = λ i o found. ground (arith, found) };
}

perform_all-SocialExact_example : SocialExact stored_rows (
    perform_all stored_rows
      (follows 0 0 2 ∷ likes 0 1 0 ∷ likes 1 1 0 ∷ saves 0 0 0 ∷ unlikes 1 0 ∷ unfollows 0 2 ∷ [])
      world)
perform_all-SocialExact_example =
    perform_all-SocialExact stored_rows
      (follows 0 0 2 ∷ likes 0 1 0 ∷ likes 1 1 0 ∷ saves 0 0 0 ∷ unlikes 1 0 ∷ unfollows 0 2 ∷ [])
      world world-SocialExact
