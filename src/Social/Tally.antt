-- ===== src/Social/Tally.antt =====
-- Rows that stand for a pair, with a unique key, and the number of those with a given right part.
-- A client call on one pair moves that number by at most one.
use south_connect.Prelude.{
  ℕ, ◌+◌, ◌≤◌, ◌≡◌, refl, ap, inl, inr, true, false, ◌&&◌, some, arith, ◌==◌, Bool-cases, fun_ext,
}
use south_connect.Database.{Where, Table, Client}

module _ {Row : Type 0} (c : Client Row) where
  count-and :
      (p q : Where Row) (t : Table Row)
      → ((k : ℕ) (r : Row) → p k r ≡ true → q k r ≡ true)
      → c.count (λ k r. p k r && q k r) t ≡ c.count p t
  count-and p q t within =
      ap (λ w. c.count w t)
        (fun_ext λ k. fun_ext λ r. elim (Bool-cases (p k r)) [
          | inl hit ↦ rw (hit, within k r hit) refl
          | inr miss ↦ rw miss refl
        ])

  -- Where no stored row passes, none is counted.
  pub count-none :
      (p : Where Row) (t : Table Row)
      → ((k : ℕ) (r : Row) → c.find_unique k t ≡ some r → p k r ≡ false)
      → c.count p t ≡ 0
  count-none p t never = elim (Bool-cases (c.count p t == 0)) [
    | inl zero_rows ↦ ground (arith, zero_rows)
    | inr some_rows ↦
        let (k, r, present, match) = c.count-witness p t (λ e. ground (arith, e)) in
        ground (arith, present, match, never k r present)
  ]

  -- A new row with a free key: its key is then taken once, and the tallies grow by what it adds.
  pub count-free :
      (clash : Where Row) (k : ℕ) (r : Row) (t t' : Table Row)
      → c.create clash k r t ≡ some t'
      → c.count clash t ≡ 0
  count-free clash k r t t' made =
      count-none clash t (λ j s present. c.create-unique clash k r t t' j s made present)

  -- A tally within the removed rows loses what the removal reports.
  pub count-removed :
      (p q : Where Row) (t : Table Row)
      → ((k : ℕ) (r : Row) → p k r ≡ true → q k r ≡ true)
      → c.count q (c.delete_many p t) + c.count p t ≡ c.count q t
  count-removed p q t within = ground (arith, c.count-delete_many p t q, count-and p q t within)

  -- A tally apart from the removed rows stays.
  pub count-apart :
      (p q : Where Row) (t : Table Row)
      → ((k : ℕ) (r : Row) → p k r ≡ true → q k r ≡ false)
      → c.count q (c.delete_many p t) ≡ c.count q t
  count-apart p q t apart = ground (
    arith,
    c.count-delete_many p t q,
    count-none (λ k r. p k r && q k r) t
        (λ k r _. elim (Bool-cases (p k r)) [
          | inl hit ↦ rw (hit, apart k r hit) refl
          | inr miss ↦ rw miss refl
        ]),
  )

  -- A removal never makes a tally grow.
  pub count-shrinks :
      (p q : Where Row) (t : Table Row) → c.count q (c.delete_many p t) ≤ c.count q t
  count-shrinks p q t = ground (arith, c.count-delete_many p t q)
