-- ===== src/Database/Rows.antt =====
-- A client over the stored rows themselves, in the order of their keys: it meets every law.
use south_connect.Prelude.{
  ℕ, zero, suc, ◌+◌, ◌≤◌, ◌≡◌, refl, ◌≢◌, inl, inr, Bool, true, false, ◌&&◌, Option, none, some, [],
  ◌∷◌, arith, bit, ◌==◌, if◌then◌else◌, Bool-cases, Option-cases,
}
use south_connect.Database.{Table, Where, patch, keep, Client}

abbrev later : {Row : Type 0} → Where Row → Where Row
later p k r = p (suc k) r

abbrev matches : {Row : Type 0} → Where Row → ℕ → Option Row → Bool
matches p k none = false
matches p k (some r) = p k r

abbrev shift : {Row : Type 0} → Option (ℕ × Row) → Option (ℕ × Row)
shift none = none
shift (some (k, r)) = some (suc k, r)

module _ {Row : Type 0} where
  abbrev find_unique : ℕ → Table Row → Option Row
  find_unique k [] = none
  find_unique zero (x ∷ t) = x
  find_unique (suc k) (x ∷ t) = find_unique k t

  abbrev first_of_pair : Where Row → Option Row → Option (ℕ × Row) → Option (ℕ × Row)
  first_of_pair p none rest = shift rest
  first_of_pair p (some r) rest = if p 0 r then some (0, r) else shift rest

  find_first : Where Row → Table Row → Option (ℕ × Row)
  find_first p [] = none
  find_first p (x ∷ t) = first_of_pair p x (find_first (later p) t)

  count : Where Row → Table Row → ℕ
  count p [] = 0
  count p (x ∷ t) = bit (matches p 0 x) + count (later p) t

  update_many : Where Row → (Row → Row) → Table Row → Table Row
  update_many p f [] = []
  update_many p f (x ∷ t) = patch p f 0 x ∷ update_many (later p) f t

  delete_many : Where Row → Table Row → Table Row
  delete_many p [] = []
  delete_many p (x ∷ t) = keep p 0 x ∷ delete_many (later p) t

  put : ℕ → Row → Table Row → Table Row
  put zero r [] = some r ∷ []
  put zero r (x ∷ t) = some r ∷ t
  put (suc k) r [] = none ∷ put k r []
  put (suc k) r (x ∷ t) = x ∷ put k r t

  create : Where Row → ℕ → Row → Table Row → Option (Table Row)
  create clash k r t = elim (find_unique k t) [
    | some s ↦ none
    | none ↦ elim (find_first clash t) [ some s ↦ none | none ↦ some (put k r t) ]
  ]

  find_first_sound :
      (p : Where Row) (t : Table Row) (k : ℕ) (r : Row)
      → find_first p t ≡ some (k, r)
      → (find_unique k t ≡ some r) × (p k r ≡ true)
  unfolding find_first
  find_first_sound p [] k r h = cc
  find_first_sound p (none ∷ t) zero r h = ground arith
  find_first_sound p (none ∷ t) (suc k) r h = ground (arith, find_first_sound (later p) t k r)
  find_first_sound p (some s ∷ t) zero r h = ground arith
  find_first_sound p (some s ∷ t) (suc k) r h = ground (arith, find_first_sound (later p) t k r)

  find_first_complete :
      (p : Where Row) (t : Table Row) (k : ℕ) (r : Row)
      → find_first p t ≡ none
      → find_unique k t ≡ some r
      → p k r ≡ false
  unfolding find_first
  find_first_complete p [] k r h e = cc
  find_first_complete p (x ∷ t) zero r h e = ground arith
  find_first_complete p (x ∷ t) (suc k) r h e = ground (arith, find_first_complete (later p) t k r)

  count_pos :
      (p : Where Row) (t : Table Row) (k : ℕ) (r : Row)
      → find_unique k t ≡ some r
      → p k r ≡ true
      → 1 ≤ count p t
  unfolding count
  count_pos p [] k r h e = cc
  count_pos p (x ∷ t) zero r h e = ground arith
  count_pos p (x ∷ t) (suc k) r h e = ground (arith, count_pos (later p) t k r)

  find_unique_update :
      (k : ℕ) (p : Where Row) (f : Row → Row) (t : Table Row)
      → find_unique k (update_many p f t) ≡ patch p f k (find_unique k t)
  unfolding update_many
  find_unique_update k p f [] = refl
  find_unique_update zero p f (x ∷ t) = refl
  find_unique_update (suc k) p f (none ∷ t) = find_unique_update k (later p) f t
  find_unique_update (suc k) p f (some x ∷ t) = find_unique_update k (later p) f t

  find_unique_delete :
      (k : ℕ) (p : Where Row) (t : Table Row)
      → find_unique k (delete_many p t) ≡ keep p k (find_unique k t)
  unfolding delete_many
  find_unique_delete k p [] = refl
  find_unique_delete zero p (x ∷ t) = refl
  find_unique_delete (suc k) p (x ∷ t) = find_unique_delete k (later p) t

  find_unique_put :
      (k : ℕ) (r : Row) (t : Table Row) (j : ℕ)
      → find_unique j (put k r t) ≡ (if j == k then some r else find_unique j t)
  unfolding put
  find_unique_put zero r [] zero = refl
  find_unique_put zero r [] (suc j) = ground arith
  find_unique_put zero r (x ∷ t) zero = refl
  find_unique_put zero r (x ∷ t) (suc j) = ground arith
  find_unique_put (suc k) r [] zero = ground arith
  find_unique_put (suc k) r [] (suc j) = ground (arith, find_unique_put k r [] j)
  find_unique_put (suc k) r (x ∷ t) zero = ground arith
  find_unique_put (suc k) r (x ∷ t) (suc j) = ground (arith, find_unique_put k r t j)

  count_put :
      (k : ℕ) (r : Row) (t : Table Row) (q : Where Row)
      → find_unique k t ≡ none
      → count q (put k r t) ≡ count q t + bit (q k r)
  unfolding put count
  count_put zero r [] q h = ground arith
  count_put zero r (none ∷ t) q h = ground arith
  count_put zero r (some x ∷ t) q h = cc
  count_put (suc k) r [] q h = ground (arith, count_put k r [] (later q))
  count_put (suc k) r (x ∷ t) q h = ground (arith, count_put k r t (later q))

  count_delete :
      (p : Where Row) (t : Table Row) (q : Where Row)
      → count q (delete_many p t) + count (λ k r. p k r && q k r) t ≡ count q t
  unfolding count delete_many
  count_delete p [] q = refl
  count_delete p (none ∷ t) q = ground (arith, count_delete (later p) t (later q))
  count_delete p (some x ∷ t) q = ground (arith, count_delete (later p) t (later q))

  create_none :
      (clash : Where Row) (k : ℕ) (r : Row) (t : Table Row)
      → create clash k r t ≡ none
      → find_unique k t ≡ none
      → (j : ℕ) × (s : Row) × (find_unique j t ≡ some s) × (clash j s ≡ true)
  unfolding create
  create_none clash k r t h e = elim (Option-cases (find_first clash t)) [
    | inl free ↦ absurd (ground arith)
    | inr ((j, s), found) ↦
        let (here, hit) = find_first_sound clash t j s found in (j, s, here, hit)
  ]

  create_some :
      (clash : Where Row) (k : ℕ) (r : Row) (t t' : Table Row)
      → create clash k r t ≡ some t'
      → (find_unique k t ≡ none) × (find_first clash t ≡ none) × (t' ≡ put k r t)
  unfolding create
  create_some clash k r t t' h = (ground arith, ground arith, ground arith)

  create_fresh :
      (clash : Where Row) (k : ℕ) (r : Row) (t t' : Table Row)
      → create clash k r t ≡ some t'
      → find_unique k t ≡ none
  create_fresh clash k r t t' h = (create_some clash k r t t' h).0

  create_unique :
      (clash : Where Row) (k : ℕ) (r : Row) (t t' : Table Row) (j : ℕ) (s : Row)
      → create clash k r t ≡ some t'
      → find_unique j t ≡ some s
      → clash j s ≡ false
  create_unique clash k r t t' j s h e =
      find_first_complete clash t j s (create_some clash k r t t' h).1 e

  find_unique_create :
      (clash : Where Row) (k : ℕ) (r : Row) (t t' : Table Row) (j : ℕ)
      → create clash k r t ≡ some t'
      → find_unique j t' ≡ (if j == k then some r else find_unique j t)
  find_unique_create clash k r t t' j h =
      rw (create_some clash k r t t' h).2 (find_unique_put k r t j)

  count_create :
      (clash : Where Row) (k : ℕ) (r : Row) (t t' : Table Row) (q : Where Row)
      → create clash k r t ≡ some t'
      → count q t' ≡ count q t + bit (q k r)
  count_create clash k r t t' q h =
      let (free, _, same) = create_some clash k r t t' h in rw same (count_put k r t q free)

  count_witness :
      (p : Where Row) (t : Table Row)
      → count p t ≢ 0
      → (k : ℕ) × (r : Row) × (find_unique k t ≡ some r) × (p k r ≡ true)
  unfolding count
  count_witness p [] h = absurd (h refl)
  count_witness p (none ∷ t) h =
      let (k, r, found, hit) = count_witness (later p) t (ground arith) in (suc k, r, found, hit)
  count_witness p (some r ∷ t) h = elim (Bool-cases (p 0 r)) [
    | inl hit ↦ (0, r, refl, hit)
    | inr miss ↦
        let (k, s, found, hit) = count_witness (later p) t (ground arith) in (suc k, s, found, hit)
  ]

  -- Where no key matches, an update changes no count.
  count_update_none :
      (p : Where Row) (f : Row → Row) (t : Table Row) (q : Where Row)
      → ((j : ℕ) (s : Row) → p j s ≢ true)
      → count q (update_many p f t) ≡ count q t
  unfolding count update_many
  count_update_none p f [] q h = refl
  count_update_none p f (none ∷ t) q h =
      ground (arith, count_update_none (later p) f t (later q) (λ j. h (suc j)))
  count_update_none p f (some x ∷ t) q h =
      ground (arith, h 0 x, count_update_none (later p) f t (later q) (λ j. h (suc j)))

  count_update :
      (p : Where Row) (f : Row → Row) (t : Table Row) (q : Where Row) (k : ℕ) (r : Row)
      → ((j : ℕ) (s : Row) → p j s ≡ true → j ≡ k)
      → find_unique k t ≡ some r
      → p k r ≡ true
      → count q (update_many p f t) + bit (q k r) ≡ count q t + bit (q k (f r))
  unfolding count update_many
  count_update p f [] q k r only e h = cc
  count_update p f (none ∷ t) q zero r only e h = cc
  count_update p f (some x ∷ t) q zero r only e h = ground (
    arith,
    count_update_none (later p) f t (later q) (λ j s m. absurd (omega (arith, only (suc j) s m))),
  )
  count_update p f (none ∷ t) q (suc k) r only e h = ground (
    arith,
    count_update (later p) f t (later q) k r (λ j s m. omega (arith, only (suc j) s m)) e h,
  )
  count_update p f (some x ∷ t) q (suc k) r only e h = ground (
    arith,
    only 0 x,
    count_update (later p) f t (later q) k r (λ j s m. omega (arith, only (suc j) s m)) e h,
  )

  count_mapped :
      (p : Where Row) (f : Row → Row) (t : Table Row) (q : Where Row)
      → count q (update_many p f t) ≡ count (λ k r. q k (if p k r then f r else r)) t
  unfolding count update_many
  count_mapped p f [] q = refl
  count_mapped p f (none ∷ t) q = ground (arith, count_mapped (later p) f t (later q))
  count_mapped p f (some x ∷ t) q = ground (arith, count_mapped (later p) f t (later q))

  count_agree :
      (p q : Where Row) (t : Table Row)
      → ((k : ℕ) (r : Row) → find_unique k t ≡ some r → p k r ≡ q k r)
      → count p t ≡ count q t
  unfolding count
  count_agree p q [] same = refl
  count_agree p q (none ∷ t) same =
      ground (arith, count_agree (later p) (later q) t (λ k. same (suc k)))
  count_agree p q (some x ∷ t) same =
      ground (arith, same 0 x refl, count_agree (later p) (later q) t (λ k. same (suc k)))

  -- The client itself.
  unfoldable pub rows : Client Row
  unfolding find_first count update_many delete_many put create find_first_sound find_first_complete
      count_pos count_witness find_unique_update find_unique_delete create_none create_unique
      find_unique_create count_create count_update count_delete create_some create_fresh
      find_unique_put count_put count_update_none count_mapped count_agree
  rows = record {
    find_unique = find_unique;
    find_first = find_first;
    count = count;
    update_many = update_many;
    delete_many = delete_many;
    create = create;
    find_first-sound = find_first_sound;
    find_first-complete = find_first_complete;
    count-pos = count_pos;
    count-witness = count_witness;
    find_unique-update_many = find_unique_update;
    find_unique-delete_many = find_unique_delete;
    create-none = create_none;
    create-fresh = create_fresh;
    create-unique = create_unique;
    find_unique-create = find_unique_create;
    count-create = count_create;
    count-update_many = count_update;
    count-delete_many = count_delete;
    count-mapped = count_mapped;
    count-agree = count_agree;
  }
