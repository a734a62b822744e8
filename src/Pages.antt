-- ===== src/Pages.antt =====
-- The page of a list query, as every service cuts it: `take` is kept between 1 and a cap, and `skip`
-- at 0 or more. Both come from the request and may be negative.
use south_connect.Prelude.{
  ℕ, zero, suc, ◌+◌, ◌≤◌, ◌≡◌, refl, List, [], ◌∷◌, ◌++◌, length, take, drop, min, max, arith,
  Option, none, some, ap, sym, ◌∙◌, length-take-le,
}
use native.Mathlib.Numerals.{unary_clauses}
use south_connect.Prelude.Int.{ℤ, pos, negsuc}

-- `Math.min(Math.max(take, 1), cap)`
abbrev pub capped_take : ℕ → ℤ → ℕ
capped_take cap (pos n) = min (max n 1) cap
capped_take cap (negsuc n) = min 1 cap

-- `Math.max(skip, 0)`
abbrev pub capped_skip : ℤ → ℕ
capped_skip (pos n) = n
capped_skip (negsuc n) = 0

abbrev pub page {ℓ} : {A : Type ℓ} → ℕ → ℤ → ℤ → List A → List A
page cap number skipped found = take (capped_take cap number) (drop (capped_skip skipped) found)

-- The element at an index, if any.
unfoldable pub get_elem? {ℓ} : {A : Type ℓ} → List A → ℕ → Option A
get_elem? [] n = none
get_elem? (x ∷ xs) zero = some x
get_elem? (x ∷ xs) (suc n) = get_elem? xs n

zero_left : (n : ℕ) → n ≡ 0 + n
zero_left n = omega arith

suc_left : (m n : ℕ) → suc (m + n) ≡ suc m + n
suc_left m n = omega arith

module _ {ℓ} {A : Type ℓ} where
  take-append : (t u : ℕ) (xs : List A) → take t xs ++ take u (drop t xs) ≡ take (t + u) xs
  take-append zero u xs = ap (λ n. take n xs) (zero_left u)
  take-append (suc t) zero [] = simp unary_clauses refl
  take-append (suc t) (suc u) [] = simp unary_clauses refl
  take-append (suc t) u (x ∷ xs) =
      ap (λ ys. x ∷ ys) (take-append t u xs) ∙ ap (λ n. take n (x ∷ xs)) (suc_left t u)

  pub drop-drop : (s t : ℕ) (xs : List A) → drop t (drop s xs) ≡ drop (s + t) xs
  drop-drop zero t xs = ap (λ n. drop n xs) (zero_left t)
  drop-drop (suc s) zero [] = simp unary_clauses refl
  drop-drop (suc s) (suc t) [] = simp unary_clauses refl
  drop-drop (suc s) t (x ∷ xs) = drop-drop s t xs ∙ ap (λ n. drop n (x ∷ xs)) (suc_left s t)

  -- What a prefix holds stands at the same place.
  pub within_take :
      (n k : ℕ) (xs : List A) (x : A) → get_elem? (take n xs) k ≡ some x → get_elem? xs k ≡ some x
  unfolding get_elem?
  within_take zero k xs x h = ground (arith, h)
  within_take (suc n) k [] x h = h
  within_take (suc n) zero (y ∷ xs) x h = h
  within_take (suc n) (suc k) (y ∷ xs) x h = within_take n k xs x h

  pub within_drop :
      (n k : ℕ) (xs : List A) (x : A)
      → get_elem? (drop n xs) k ≡ some x
      → get_elem? xs (n + k) ≡ some x
  unfolding get_elem?
  within_drop zero k xs x h = ap (λ n. get_elem? xs n) (sym (zero_left k)) ∙ h
  within_drop (suc n) k [] x h = ground (arith, h)
  within_drop (suc n) k (y ∷ xs) x h =
      ap (λ m. get_elem? (y ∷ xs) m) (sym (suc_left n k)) ∙ within_drop n k xs x h

  -- What a page holds stands in what was found, the skipped rows further on.
  pub within_page :
      (cap : ℕ) (number skipped : ℤ) (k : ℕ) (xs : List A) (x : A)
      → get_elem? (page cap number skipped xs) k ≡ some x
      → get_elem? xs (capped_skip skipped + k) ≡ some x
  within_page cap number skipped k xs x h =
      within_drop (capped_skip skipped) k xs x
        (within_take (capped_take cap number) k (drop (capped_skip skipped) xs) x h)

  -- A page followed by the page that begins where it ends is one longer page, with no row left out
  -- or repeated, for numbers of rows from 1 to the cap; and whatever a request asks for, a page has
  -- no more rows than the cap.
  pub page_tiles :
      (cap : ℕ) (xs : List A) (t u s : ℕ)
      → 1 ≤ t
      → t ≤ cap
      → 1 ≤ u
      → u ≤ cap
      → (page cap (pos t) (pos s) xs ++ page cap (pos u) (pos (s + t)) xs
          ≡ take (t + u) (drop s xs))
        × ((number skipped : ℤ) → length (page cap number skipped xs) ≤ cap)
  page_tiles cap xs t u s one fits one' fits' = (
    rw (uncapped t one fits, uncapped u one' fits', sym (drop-drop s t xs))
        (take-append t u (drop s xs)),
    λ number skipped. omega (
      arith,
      within_cap number,
      length-take-le (capped_take cap number) (drop (capped_skip skipped) xs),
    ),
  )
    where
      within_cap : (number : ℤ) → capped_take cap number ≤ cap
      within_cap (pos n) = omega arith
      within_cap (negsuc n) = omega arith

      uncapped : (n : ℕ) → 1 ≤ n → n ≤ cap → min (max n 1) cap ≡ n
      uncapped n one fits = omega (arith, one, fits)
