-- ===== src/Social/Opportunities.antt =====
-- Likes and bookmarks of opportunities keep every counter exact.
use south_connect.Prelude.{
  ℕ, ◌≡◌, refl, sym, subst, ◌⊎◌, inl, inr, some, arith, ◌==◌, Bool-cases, Option-cases,
}
use south_connect.Database.{Table}
use south_connect.Database.Keyed.{at, always}
use south_connect.Schema.{UserKey, Mark, Store, Prisma}
use south_connect.Social.{
  invalidate, has_likes, has_saves, of_mark, mark_row, like_opportunity, unlike_opportunity,
  save_opportunity, unsave_opportunity, liked_more, liked_less, saved_more, saved_less,
}
use south_connect.Social.Marks.{untouched-CountExact, mark-CountExact, unmark-CountExact}
use south_connect.Social.Exact.{
  on_opportunity, likes_of, saves_of, SocialExact, likes_fit, saves_fit, same_followers,
}

module _ (prisma : Prisma) where
  like_cases :
      (new_id : ℕ) (user : UserKey) (target : ℕ) (s : Store)
      → let t = (like_opportunity prisma new_id user target s).1 in
        (t ≡ s)
        ⊎ (table : Table Mark) × (prisma.like.create
              (of_mark user target)
              new_id
              (mark_row user target)
              s.likes
            ≡ some table)
          × (t
              ≡ invalidate prisma (record s {
                likes = table;
                opportunities =
                    prisma.opportunity.update_many (at target always) liked_more s.opportunities;
              }))
  unfolding like_opportunity
  like_cases new_id user target s =
      let row = mark_row user target in
      elim (Option-cases (prisma.opportunity.find_unique target s.opportunities)) [
        | inl absent ↦ inl (ground (arith, absent))
        | inr (o, present) ↦
            elim (Option-cases (prisma.like.create (of_mark user target) new_id row s.likes)) [
              | inl clash ↦ inl (ground (arith, present, clash))
              | inr (table, made) ↦ inr (table, made, ground (arith, present, made))
            ]
      ]

  pub like-SocialExact :
      (new_id : ℕ) (user : UserKey) (target : ℕ) (s : Store)
      → SocialExact prisma s
      → SocialExact prisma (like_opportunity prisma new_id user target s).1
  like-SocialExact new_id user target s c = elim (like_cases new_id user target s) [
    | inl same ↦ subst (SocialExact prisma) (sym same) c
    | inr (table, made, served) ↦ subst (SocialExact prisma) (sym served) (record {
      followers = same_followers prisma s _ refl refl refl c.followers;
      liked =
          mark-CountExact prisma.like prisma.opportunity of_mark on_opportunity likes_of liked_more
            liked_less (likes_fit prisma) new_id user target (mark_row user target) s.likes table
            s.opportunities (ground arith) (λ u i h. (ground (arith, h), ground (arith, h))) made
            c.liked;
      saved =
          untouched-CountExact prisma.save prisma.opportunity of_mark on_opportunity saves_of
            s.saves s.opportunities (at target always) liked_more (λ o. refl) c.saved;
      discussed = c.discussed;
    })
  ]

  pub unlike-SocialExact :
      (user : UserKey) (target : ℕ) (s : Store)
      → SocialExact prisma s
      → SocialExact prisma (unlike_opportunity prisma user target s)
  unfolding unlike_opportunity
  unlike-SocialExact user target s c =
      elim (Bool-cases (prisma.like.count (of_mark user target) s.likes == 0)) [
        | inl absent ↦ rw absent (record {
          followers = same_followers prisma s _ refl refl refl c.followers;
          liked = c.liked;
          saved = c.saved;
          discussed = c.discussed;
        })
        | inr there ↦ rw there (record {
          followers = same_followers prisma s _ refl refl refl c.followers;
          liked =
              unmark-CountExact prisma.like prisma.opportunity of_mark on_opportunity likes_of
                liked_more liked_less (likes_fit prisma) user target s.likes s.opportunities
                (λ e. ground (arith, e, there)) c.liked;
          saved =
              untouched-CountExact prisma.save prisma.opportunity of_mark on_opportunity saves_of
                s.saves s.opportunities (at target has_likes) liked_less (λ o. refl) c.saved;
          discussed = c.discussed;
        })
      ]

  save_cases :
      (new_id : ℕ) (user : UserKey) (target : ℕ) (s : Store)
      → let t = (save_opportunity prisma new_id user target s).1 in
        (t ≡ s)
        ⊎ (table : Table Mark) × (prisma.save.create
              (of_mark user target)
              new_id
              (mark_row user target)
              s.saves
            ≡ some table)
          × (t
              ≡ invalidate prisma (record s {
                saves = table;
                opportunities =
                    prisma.opportunity.update_many (at target always) saved_more s.opportunities;
              }))
  unfolding save_opportunity
  save_cases new_id user target s =
      let row = mark_row user target in
      elim (Option-cases (prisma.opportunity.find_unique target s.opportunities)) [
        | inl absent ↦ inl (ground (arith, absent))
        | inr (o, present) ↦
            elim (Option-cases (prisma.save.create (of_mark user target) new_id row s.saves)) [
              | inl clash ↦ inl (ground (arith, present, clash))
              | inr (table, made) ↦ inr (table, made, ground (arith, present, made))
            ]
      ]

  pub save-SocialExact :
      (new_id : ℕ) (user : UserKey) (target : ℕ) (s : Store)
      → SocialExact prisma s
      → SocialExact prisma (save_opportunity prisma new_id user target s).1
  save-SocialExact new_id user target s c = elim (save_cases new_id user target s) [
    | inl same ↦ subst (SocialExact prisma) (sym same) c
    | inr (table, made, served) ↦ subst (SocialExact prisma) (sym served) (record {
      followers = same_followers prisma s _ refl refl refl c.followers;
      saved =
          mark-CountExact prisma.save prisma.opportunity of_mark on_opportunity saves_of saved_more
            saved_less (saves_fit prisma) new_id user target (mark_row user target) s.saves table
            s.opportunities (ground arith) (λ u i h. (ground (arith, h), ground (arith, h))) made
            c.saved;
      liked =
          untouched-CountExact prisma.like prisma.opportunity of_mark on_opportunity likes_of
            s.likes s.opportunities (at target always) saved_more (λ o. refl) c.liked;
      discussed = c.discussed;
    })
  ]

  pub unsave-SocialExact :
      (user : UserKey) (target : ℕ) (s : Store)
      → SocialExact prisma s
      → SocialExact prisma (unsave_opportunity prisma user target s)
  unfolding unsave_opportunity
  unsave-SocialExact user target s c =
      elim (Bool-cases (prisma.save.count (of_mark user target) s.saves == 0)) [
        | inl absent ↦ rw absent (record {
          followers = same_followers prisma s _ refl refl refl c.followers;
          liked = c.liked;
          saved = c.saved;
          discussed = c.discussed;
        })
        | inr there ↦ rw there (record {
          followers = same_followers prisma s _ refl refl refl c.followers;
          saved =
              unmark-CountExact prisma.save prisma.opportunity of_mark on_opportunity saves_of
                saved_more saved_less (saves_fit prisma) user target s.saves s.opportunities
                (λ e. ground (arith, e, there)) c.saved;
          liked =
              untouched-CountExact prisma.like prisma.opportunity of_mark on_opportunity likes_of
                s.likes s.opportunities (at target has_saves) saved_less (λ o. refl) c.liked;
          discussed = c.discussed;
        })
      ]
