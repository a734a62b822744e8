-- ===== src/Cron/Batches.antt =====
-- The loops of the recounts: `for (let i = 0; i < items.length; i += 20)`, which handles the slice
-- from i to i + 20 at once. The updates of one slice are of different rows, and stand in its order.
use south_connect.Prelude.{
  ℕ, zero, suc, ◌+◌, ◌*◌, ◌≤◌, ◌≡◌, refl, sym, ap, ◌∙◌, inl, inr, Option, none, some, List, [], ◌∷◌,
  ◌++◌, length, take, drop, arith, ltb, if◌then◌else◌, Bool-cases,
}
use south_connect.Pages.{drop-drop}

module _ {S : Type 0} {A : Type 0} (f : A → S → S) where
  -- One item after the other.
  abbrev pub apply_all : List A → S → S
  apply_all [] s = s
  apply_all (a ∷ rest) s = apply_all rest (f a s)

  -- `items.slice(i, i + 20)`
  abbrev pub slice : ℕ → List A → List A
  slice i items = take 20 (drop i items)

  -- The loop from i on, if it ends before the fuel does.
  unfoldable pub batches : ℕ → List A → ℕ → S → Option S
  batches zero items i s = none
  batches (suc fuel) items i s =
      let rest = batches fuel items (i + 20) (apply_all (slice i items) s) in
      if ltb i (length items) then rest else some s

  apply_all-append :
      (xs ys : List A) (s : S) → apply_all (xs ++ ys) s ≡ apply_all ys (apply_all xs s)
  apply_all-append [] ys s = refl
  apply_all-append (x ∷ xs) ys s = apply_all-append xs ys (f x s)

  take_and_drop : (n : ℕ) (xs : List A) → take n xs ++ drop n xs ≡ xs
  take_and_drop zero xs = refl
  take_and_drop (suc n) [] = refl
  take_and_drop (suc n) (x ∷ xs) = ap (λ ys. x ∷ ys) (take_and_drop n xs)

  drop_all : (n : ℕ) (xs : List A) → length xs ≤ n → drop n xs ≡ []
  drop_all zero [] h = refl
  drop_all zero (x ∷ xs) h = ground (arith, h)
  drop_all (suc n) [] h = refl
  drop_all (suc n) (x ∷ xs) h = drop_all n xs (omega (arith, h))

  one_slice :
      (items : List A) (i : ℕ) (s : S)
      → apply_all (drop (i + 20) items) (apply_all (slice i items) s) ≡ apply_all (drop i items) s
  one_slice items i s =
      ap (λ ys. apply_all ys (apply_all (slice i items) s)) (sym (drop-drop i 20 items))
      ∙ sym (apply_all-append (slice i items) (drop 20 (drop i items)) s)
      ∙ ap (λ ys. apply_all ys s) (take_and_drop 20 (drop i items))

  from_here :
      (fuel : ℕ) (items : List A) (i : ℕ) (s : S)
      → length items ≤ i + fuel * 20
      → batches (suc fuel) items i s ≡ some (apply_all (drop i items) s)
  unfolding batches
  from_here zero items i s enough = elim (Bool-cases (ltb i (length items))) [
    | inr done ↦ rw (done, drop_all i items (ground (arith, done))) refl
    | inl more ↦ ground (arith, more, enough)
  ]
  from_here (suc fuel) items i s enough = elim (Bool-cases (ltb i (length items))) [
    | inr done ↦ rw (done, drop_all i items (ground (arith, done))) refl
    | inl more ↦ rw more (
        from_here fuel items (i + 20) (apply_all (slice i items) s) (omega (arith, enough))
        ∙ ap some (one_slice items i s))
  ]

  -- With one unit of fuel more than there are items, the loop ends, and it has handled every item
  -- once, in order.
  pub batches-apply_all :
      (items : List A) (s : S) → batches (length items + 1) items 0 s ≡ some (apply_all items s)
  batches-apply_all items s =
      ap (λ n. batches n items 0 s) one_up ∙ from_here (length items) items 0 s (omega arith)
    where
      one_up : length items + 1 ≡ suc (length items)
      one_up = omega arith
