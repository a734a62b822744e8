-- ===== src/Database/Keyed.antt =====
-- `where` clauses that fix the primary key: each client call follows from what `find_unique` reads.
use south_connect.Prelude.{
  ℕ, ◌≡◌, refl, inl, inr, Bool, true, false, not, ◌&&◌, Option, none, some, arith, ◌==◌,
  if◌then◌else◌, Bool-cases, Option-cases,
}
use south_connect.Database.{Table, Client}

-- `{ id, ...guard }`
abbrev pub at {ℓ} : {Row : Type ℓ} → ℕ → (Row → Bool) → ℕ → Row → Bool
at id g k r = k == id && g r

abbrev pub always {ℓ} : {Row : Type ℓ} → Row → Bool
always r = true

abbrev pub holds {ℓ} : {Row : Type ℓ} → (Row → Bool) → Option Row → Bool
holds g none = false
holds g (some r) = g r

abbrev pub pick {ℓ} : {Row : Type ℓ} → (Row → Bool) → Option Row → Option Row
pick g none = none
pick g (some r) = if g r then some r else none

abbrev pub keyed {ℓ} : {Row : Type ℓ} → ℕ → Option Row → Option (ℕ × Row)
keyed k none = none
keyed k (some r) = some (k, r)

module _ {Row : Type 0} (c : Client Row) where
  -- A guarded search by key finds the row with that key, if it passes the guard.
  pub find_first-at :
      (id : ℕ) (g : Row → Bool) (t : Table Row)
      → c.find_first (at id g) t ≡ keyed id (pick g (c.find_unique id t))
  find_first-at id g t = elim (Option-cases (c.find_first (at id g) t)) [
    | inl missed ↦ elim (Option-cases (c.find_unique id t)) [
      | inl absent ↦ rw (missed, absent) refl
      | inr (r, present) ↦
          ground (arith, missed, present, c.find_first-complete (at id g) t id r missed present)
    ]
    | inr ((k, r), found) ↦ ground (arith, found, c.find_first-sound (at id g) t k r found)
  ]

  -- `count === 0` exactly where no row has the key and passes the guard.
  pub count-at :
      (id : ℕ) (g : Row → Bool) (t : Table Row)
      → (c.count (at id g) t == 0) ≡ not (holds g (c.find_unique id t))
  count-at id g t = elim (Bool-cases (holds g (c.find_unique id t))) [
    | inl yes_it_does ↦ elim (Option-cases (c.find_unique id t)) [
      | inl absent ↦ ground (arith, absent)
      | inr (r, present) ↦ ground (arith, c.count-pos (at id g) t id r present)
    ]
    | inr it_does_not ↦ elim (Bool-cases (c.count (at id g) t == 0)) [
      | inl zero_rows ↦ rw (zero_rows, it_does_not) refl
      | inr some_rows ↦
          let (k, r, present, match) = c.count-witness (at id g) t (λ e. ground (arith, e)) in
          ground (arith, present, match)
    ]
  ]
