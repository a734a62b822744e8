-- ===== src/Social/Marks.antt =====
-- Likes and bookmarks: the counter beside the rows is the number of rows.
use south_connect.Prelude.{
  ℕ, ◌≤◌, ◌≡◌, ◌≢◌, inl, inr, Bool, true, false, some, arith, ◌==◌, Bool-cases, Option-cases,
}
use south_connect.Prelude.Int.{ℤ, pos, ◌+ℤ◌, ◌-ℤ◌, pos_one_more, pos_one_less}
use south_connect.Database.{Where, Table, Client}
use south_connect.Database.Keyed.{at, always}
use south_connect.Social.{is_positive}
use south_connect.Social.Tally.{count-free, count-removed, count-apart, count-shrinks}

-- Items of a table `Owner`, each with a counter, and the rows `Row` that the counter stands for:
-- `pair user item` is the unique key, and `of item` the rows of an item.
module _ {Row Owner : Type 0} (rows : Client Row) (owners : Client Owner) (pair : ℕ → ℕ → Where Row)
    (of : ℕ → Where Row) (counter : Owner → ℤ) where
  pub record CountExact (t : Table Row) (owned : Table Owner) : Type 0 where
    pub unique : (user item : ℕ) → rows.count (pair user item) t ≤ 1
    pub exact :
        (item : ℕ) (o : Owner)
        → owners.find_unique item owned ≡ some o
        → counter o ≡ pos (rows.count (of item) t)

  -- An update that leaves the counter as it is.
  pub untouched-CountExact :
      (t : Table Row) (owned : Table Owner) (p : Where Owner) (f : Owner → Owner)
      → ((o : Owner) → counter (f o) ≡ counter o)
      → CountExact t owned
      → CountExact t (owners.update_many p f owned)
  untouched-CountExact t owned p f same c = record {
    unique = c.unique;
    exact = λ j o found. elim (Option-cases (owners.find_unique j owned)) [
      | inl absent ↦ ground (arith, found, absent, owners.find_unique-update_many j p f owned)
      | inr (q, present) ↦ ground (
        arith,
        found,
        present,
        same q,
        c.exact j q present,
        owners.find_unique-update_many j p f owned,
      )
    ];
  }

  -- What the keys and the updates of the counter have to do with each other.
  pub record Fits (more less : Owner → Owner) : Type 0 where
    pub within : (user item k : ℕ) (r : Row) → pair user item k r ≡ true → of item k r ≡ true
    pub apart :
        (user item other k : ℕ) (r : Row)
        → other ≢ item
        → pair user item k r ≡ true
        → of other k r ≡ false
    pub up : (o : Owner) → counter (more o) ≡ counter o +ℤ pos 1
    pub down : (o : Owner) → counter (less o) ≡ counter o -ℤ pos 1

  abbrev stocked : Owner → Bool
  stocked o = is_positive (counter o)

  module _ (more less : Owner → Owner) (fits : Fits more less) where
    pub mark-CountExact :
        (new_id user item : ℕ) (r : Row) (t t' : Table Row) (owned : Table Owner)
        → pair user item new_id r ≡ true
        → ((u i : ℕ) → pair u i new_id r ≡ true → (u ≡ user) × (i ≡ item))
        → rows.create (pair user item) new_id r t ≡ some t'
        → CountExact t owned
        → CountExact t' (owners.update_many (at item always) more owned)
    mark-CountExact new_id user item r t t' owned own only made c = record {
      unique = λ u i. elim (Bool-cases (pair u i new_id r)) [
        | inl same ↦
            let (eu, ei) = only u i same in
            rw (eu, ei)
              (ground (
                arith,
                own,
                rows.count-create (pair user item) new_id r t t' (pair user item) made,
                count-free rows (pair user item) new_id r t t' made,
              ))
        | inr other ↦ ground (
          arith,
          other,
          c.unique u i,
          rows.count-create (pair user item) new_id r t t' (pair u i) made,
        )
      ];
      exact = λ j o found. elim (Option-cases (owners.find_unique j owned)) [
        | inl absent ↦
            ground
              (arith, found, absent, owners.find_unique-update_many j (at item always) more owned)
        | inr (q, present) ↦ elim (Bool-cases (j == item)) [
          | inl here ↦ ground (
            arith,
            found,
            present,
            here,
            fits.up q,
            c.exact j q present,
            pos_one_more (rows.count (of item) t),
            fits.within user item new_id r own,
            rows.count-create (pair user item) new_id r t t' (of item) made,
            owners.find_unique-update_many j (at item always) more owned,
          )
          | inr elsewhere ↦ ground (
            arith,
            found,
            present,
            elsewhere,
            c.exact j q present,
            fits.apart user item j new_id r (λ e. ground (arith, e, elsewhere)) own,
            rows.count-create (pair user item) new_id r t t' (of j) made,
            owners.find_unique-update_many j (at item always) more owned,
          )
        ]
      ];
    }

    pub unmark-CountExact :
        (user item : ℕ) (t : Table Row) (owned : Table Owner)
        → rows.count (pair user item) t ≢ 0
        → CountExact t owned
        → CountExact
            (rows.delete_many (pair user item) t)
            (owners.update_many (at item stocked) less owned)
    unmark-CountExact user item t owned there c = record {
      unique =
          λ u i. ground (arith, c.unique u i, count-shrinks rows (pair user item) (pair u i) t);
      exact = λ j o found. elim (Option-cases (owners.find_unique j owned)) [
        | inl absent ↦
            ground
              (arith, found, absent, owners.find_unique-update_many j (at item stocked) less owned)
        | inr (q, present) ↦ elim (Bool-cases (j == item)) [
          | inl here ↦
              let removed =
                count-removed rows (pair user item) (of item) t (fits.within user item) in
              ground (
                arith,
                found,
                present,
                here,
                there,
                fits.down q,
                c.exact j q present,
                c.unique user item,
                removed,
                pos_one_less (rows.count (of item) (rows.delete_many (pair user item) t))
                    (rows.count (of item) t) (ground (arith, there, c.unique user item, removed)),
                owners.find_unique-update_many j (at item stocked) less owned,
              )
          | inr elsewhere ↦ ground (
            arith,
            found,
            present,
            elsewhere,
            c.exact j q present,
            count-apart rows (pair user item) (of j) t
                (λ k r h. fits.apart user item j k r (λ e. ground (arith, e, elsewhere)) h),
            owners.find_unique-update_many j (at item stocked) less owned,
          )
        ]
      ];
    }
