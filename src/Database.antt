-- ===== src/Database.antt =====
-- The tables of prisma/schema.prisma, and the calls of the Prisma client that the services make.
-- The client is a parameter: a record of operations with the laws that Prisma documents, and
-- `Rows` shows that they can be met. A row's primary key is kept beside the row. Keys are only
-- compared, so they are numbers, and times are numbers. A database that cannot be reached is left out.
pub mod Rows
pub mod Keyed
use south_connect.Prelude.{
  ℕ, suc, ◌+◌, ◌≤◌, ◌≡◌, ◌≢◌, Bool, true, false, ◌&&◌, Option, none, some, List, bit, ◌==◌,
  if◌then◌else◌,
}

-- What is stored: for each primary key the row that has it, or none.
abbrev pub Table : Type 0 → Type 0
Table Row = List (Option Row)

-- A `where` clause over a row and its primary key.
abbrev pub Where : Type 0 → Type 0
Where Row = ℕ → Row → Bool

abbrev pub patch : {Row : Type 0} → Where Row → (Row → Row) → ℕ → Option Row → Option Row
patch p f k none = none
patch p f k (some r) = some (if p k r then f r else r)

abbrev pub keep : {Row : Type 0} → Where Row → ℕ → Option Row → Option Row
keep p k none = none
keep p k (some r) = if p k r then none else some r

pub record Client (Row : Type 0) : Type 0 where
  pub find_unique : ℕ → Table Row → Option Row
  pub find_first : Where Row → Table Row → Option (ℕ × Row)
  -- The number of rows that match: `count`, and what `updateMany` and `deleteMany` report.
  pub count : Where Row → Table Row → ℕ
  pub update_many : Where Row → (Row → Row) → Table Row → Table Row
  pub delete_many : Where Row → Table Row → Table Row
  -- `none` is the error P2002: a stored row clashes with the new one on a unique key.
  pub create : Where Row → ℕ → Row → Table Row → Option (Table Row)
  pub find_first-sound :
      (p : Where Row) (t : Table Row) (k : ℕ) (r : Row)
      → find_first p t ≡ some (k, r)
      → (find_unique k t ≡ some r) × (p k r ≡ true)
  pub find_first-complete :
      (p : Where Row) (t : Table Row) (k : ℕ) (r : Row)
      → find_first p t ≡ none
      → find_unique k t ≡ some r
      → p k r ≡ false
  pub count-pos :
      (p : Where Row) (t : Table Row) (k : ℕ) (r : Row)
      → find_unique k t ≡ some r
      → p k r ≡ true
      → 1 ≤ count p t
  pub count-witness :
      (p : Where Row) (t : Table Row)
      → count p t ≢ 0
      → (k : ℕ) × (r : Row) × (find_unique k t ≡ some r) × (p k r ≡ true)
  pub find_unique-update_many :
      (k : ℕ) (p : Where Row) (f : Row → Row) (t : Table Row)
      → find_unique k (update_many p f t) ≡ patch p f k (find_unique k t)
  pub find_unique-delete_many :
      (k : ℕ) (p : Where Row) (t : Table Row)
      → find_unique k (delete_many p t) ≡ keep p k (find_unique k t)
  pub create-none :
      (clash : Where Row) (k : ℕ) (r : Row) (t : Table Row)
      → create clash k r t ≡ none
      → find_unique k t ≡ none
      → (j : ℕ) × (s : Row) × (find_unique j t ≡ some s) × (clash j s ≡ true)
  pub create-fresh :
      (clash : Where Row) (k : ℕ) (r : Row) (t t' : Table Row)
      → create clash k r t ≡ some t'
      → find_unique k t ≡ none
  pub create-unique :
      (clash : Where Row) (k : ℕ) (r : Row) (t t' : Table Row) (j : ℕ) (s : Row)
      → create clash k r t ≡ some t'
      → find_unique j t ≡ some s
      → clash j s ≡ false
  pub find_unique-create :
      (clash : Where Row) (k : ℕ) (r : Row) (t t' : Table Row) (j : ℕ)
      → create clash k r t ≡ some t'
      → find_unique j t' ≡ (if j == k then some r else find_unique j t)
  pub count-create :
      (clash : Where Row) (k : ℕ) (r : Row) (t t' : Table Row) (q : Where Row)
      → create clash k r t ≡ some t'
      → count q t' ≡ count q t + bit (q k r)
  -- An update of one row moves a count by what it does to that row.
  pub count-update_many :
      (p : Where Row) (f : Row → Row) (t : Table Row) (q : Where Row) (k : ℕ) (r : Row)
      → ((j : ℕ) (s : Row) → p j s ≡ true → j ≡ k)
      → find_unique k t ≡ some r
      → p k r ≡ true
      → count q (update_many p f t) + bit (q k r) ≡ count q t + bit (q k (f r))
  pub count-delete_many :
      (p : Where Row) (t : Table Row) (q : Where Row)
      → count q (delete_many p t) + count (λ k r. p k r && q k r) t ≡ count q t
  -- An update of many rows: each row counts as what it has become.
  pub count-mapped :
      (p : Where Row) (f : Row → Row) (t : Table Row) (q : Where Row)
      → count q (update_many p f t) ≡ count (λ k r. q k (if p k r then f r else r)) t
  -- Tests that agree on the stored rows count the same.
  pub count-agree :
      (p q : Where Row) (t : Table Row)
      → ((k : ℕ) (r : Row) → find_unique k t ≡ some r → p k r ≡ q k r)
      → count p t ≡ count q t
