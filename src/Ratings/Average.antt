-- ===== src/Ratings/Average.antt =====
-- The averages on the profiles, and a like that `DELETE /ratings/:itemId` removes.
use south_connect.Prelude.{
  ℕ, ◌+◌, ◌≡◌, ◌≢◌, refl, sym, ◌∙◌, subst, ◌⊎◌, inl, inr, true, some, arith, ◌==◌, Bool-cases,
  Option-cases, is_some, some_injective,
}
use south_connect.Prelude.Int.{pos}
use south_connect.Action.{ok, err, HttpError, bad_request, not_found}
use south_connect.Database.{Where, Table}
use south_connect.Schema.{
  UserKey, Rating, of_key, of_discussion, same_item, BtoCProfile, PublicDiscussion, Store, Prisma,
}
use south_connect.Social.{of_rating, btoc_of}
use south_connect.Social.Exact.{on_discussion, discussion_pair, DiscussionLikesExact}
use south_connect.Social.Tally.{count-removed}
use south_connect.Ratings.{
  RatingDto, get_stats, exists_item, upsert, remove, recompute_profile_rating, put_rating, average,
  averaged, rounded,
}

abbrev pub rating_dto : UserKey → ℕ → RatingDto
rating_dto user value = record { item_id = of_key user; rating = value }

module _ (prisma : Prisma) (sum_ratings : Where Rating → Table Rating → ℕ) where
  -- The profiles of one user show the average of the stored ratings.
  pub record AverageShown (user : UserKey) (s : Store) : Type 0 where
    pub shown :
        (k : ℕ) (p : BtoCProfile)
        → prisma.btoc_profile.find_unique k s.btoc_profiles ≡ some p
        → p.user_id ≡ user
        → (p.avg_rating ≡ average prisma sum_ratings (of_key user) s.ratings)
          × (p.rounded_rating ≡ rounded p.avg_rating)

  -- The profiles of every other user are those of before.
  pub record OthersKept (user : UserKey) (s t : Store) : Type 0 where
    pub kept :
        (k : ℕ) (p : BtoCProfile)
        → prisma.btoc_profile.find_unique k s.btoc_profiles ≡ some p
        → p.user_id ≢ user
        → prisma.btoc_profile.find_unique k t.btoc_profiles ≡ some p

  recompute-AverageShown :
      (user : UserKey) (s : Store)
      → AverageShown user (recompute_profile_rating prisma sum_ratings (of_key user) s)
  unfolding recompute_profile_rating
  recompute-AverageShown user s = record {
    shown = λ k p found own.
        let f = averaged (average prisma sum_ratings (of_key user) s.ratings) in
        let law = prisma.btoc_profile.find_unique-update_many k (btoc_of user) f s.btoc_profiles in
        elim (Option-cases (prisma.btoc_profile.find_unique k s.btoc_profiles)) [
          | inl absent ↦ ground (arith, found, absent, law)
          | inr (q, present) ↦ elim (Bool-cases (q.user_id == user)) [
            | inl mine ↦
                let is_f =
                  some_injective {a = p} {b = f q} (sym found ∙ law ∙ rw (present, mine) refl) in
                (ground (arith, is_f), ground (arith, is_f))
            | inr not_mine ↦ ground (arith, found, own, not_mine, present, law)
          ]
        ];
  }

  recompute-OthersKept :
      (user : UserKey) (s : Store)
      → OthersKept user s (recompute_profile_rating prisma sum_ratings (of_key user) s)
  unfolding recompute_profile_rating
  recompute-OthersKept user s = record {
    kept = λ k p found other.
        let f = averaged (average prisma sum_ratings (of_key user) s.ratings) in
        ground (
          arith,
          found,
          other,
          prisma.btoc_profile.find_unique-update_many k (btoc_of user) f s.btoc_profiles,
        );
  }

  -- What a write of the ratings and the recomputation leave.
  written :
      (user : UserKey) (t : Table Rating) (s u : Store)
      → u ≡ recompute_profile_rating prisma sum_ratings (of_key user) (record s { ratings = t })
      → AverageShown user u × OthersKept user s u
  written user t s u e =
      let w = record s { ratings = t } in
      let both : (v : Store) → Type 0 = λ v. AverageShown user v × OthersKept user s v in
      subst both (sym e)
        (recompute-AverageShown user w, record { kept = (recompute-OthersKept user w).kept })

  upsert_cases :
      (new_id : ℕ) (rater user : UserKey) (value : ℕ) (s : Store)
      → let done = upsert prisma sum_ratings new_id rater (rating_dto user value) s in
        ((e : HttpError) × (done ≡ (err e, s)))
        ⊎ (done.0 ≡ ok (get_stats prisma sum_ratings (of_key user) done.1))
          × (done.1
              ≡ recompute_profile_rating prisma sum_ratings (of_key user) (record s {
                ratings =
                    (put_rating prisma sum_ratings new_id rater (rating_dto user value) s).ratings;
              }))
  unfolding upsert put_rating
  upsert_cases new_id rater user value s =
      let dto = rating_dto user value in
      elim (Bool-cases (same_item dto.item_id (of_key rater))) [
        | inl self ↦ inl (bad_request, ground (arith, self))
        | inr other ↦ elim (Bool-cases (exists_item prisma sum_ratings dto.item_id s)) [
          | inr missing ↦ inl (not_found, ground (arith, other, missing))
          | inl there ↦ inr (ground (arith, other, there), ground (arith, other, there))
        ]
      ]

  remove_cases :
      (rater user : UserKey) (s : Store)
      → let done = remove prisma sum_ratings (of_key user) rater s in
        ((e : HttpError) × (done ≡ (err e, s)))
        ⊎ (done.0 ≡ ok tt)
          × (done.1
              ≡ recompute_profile_rating prisma sum_ratings (of_key user) (record s {
                ratings = prisma.rating.delete_many (of_rating (of_key user) rater) s.ratings;
              }))
  unfolding remove
  remove_cases rater user s =
      elim (Option-cases (prisma.rating.find_first (of_rating (of_key user) rater) s.ratings)) [
        | inl absent ↦ inl (not_found, ground (arith, absent))
        | inr (hit, there) ↦ inr (ground (arith, there), ground (arith, there))
      ]

  -- A rating that is accepted, and one that is removed, leave the rated user's profile with the
  -- average of the ratings then stored and its rounding, and every other profile as it was; a
  -- request that fails leaves everything as it was.
  pub rating-AverageShown :
      (new_id : ℕ) (rater user : UserKey) (value : ℕ) (s : Store)
      → let put = upsert prisma sum_ratings new_id rater (rating_dto user value) s in
        let removed = remove prisma sum_ratings (of_key user) rater s in
        (((e : HttpError) × (put ≡ (err e, s)))
          ⊎ (put.0 ≡ ok (get_stats prisma sum_ratings (of_key user) put.1))
            × (AverageShown user put.1 × OthersKept user s put.1))
        × (((e : HttpError) × (removed ≡ (err e, s)))
            ⊎ (removed.0 ≡ ok tt) × (AverageShown user removed.1 × OthersKept user s removed.1))
  rating-AverageShown new_id rater user value s = (
    elim (upsert_cases new_id rater user value s) [
      | inl failed ↦ inl failed
      | inr (value_is, e) ↦ inr (value_is, written user _ s _ e)
    ],
    elim (remove_cases rater user s) [
      | inl failed ↦ inl failed
      | inr (value_is, e) ↦ inr (value_is, written user _ s _ e)
    ],
  )

  -- A like of a discussion is a rating, and nothing in `remove` asks what the rating is about: the
  -- removal by its item id takes the like away, and leaves the discussion's counter above it.
  pub remove_like :
      (user : UserKey) (discussion : ℕ) (s : Store) (d : PublicDiscussion)
      → DiscussionLikesExact prisma s.ratings s.public_discussions
      → prisma.public_discussion.find_unique discussion s.public_discussions ≡ some d
      → is_some (prisma.rating.find_first (discussion_pair user discussion) s.ratings) ≡ true
      → let t = (remove prisma sum_ratings (of_discussion discussion) user s).1 in
        (prisma.public_discussion.find_unique discussion t.public_discussions ≡ some d)
        × (d.likes_count ≡ pos (prisma.rating.count (on_discussion discussion) t.ratings + 1))
  unfolding remove recompute_profile_rating
  remove_like user discussion s d c found there =
      let pair = discussion_pair user discussion in
      let on = on_discussion discussion in
      elim (Option-cases (prisma.rating.find_first pair s.ratings)) [
        | inl absent ↦ ground (arith, there, absent)
        | inr ((k, r), hit) ↦
            let (stored, match) = prisma.rating.find_first-sound pair s.ratings k r hit in
            let gone = count-removed prisma.rating pair on s.ratings (λ j q h. ground (arith, h)) in
            (
              ground (arith, hit, found),
              ground (
                arith,
                hit,
                gone,
                c.exact discussion d found,
                c.unique user discussion,
                prisma.rating.count-pos pair s.ratings k r stored match,
              ),
            )
      ]
