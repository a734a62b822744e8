-- ===== src/Cron/Recount/Sweep.antt =====
-- A table after one update for each key of a list: each row is written at most once in effect.
use south_connect.Prelude.{
  ℕ, ◌≡◌, refl, ap, ◌∙◌, inl, inr, Bool, not, ◌&&◌, ◌||◌, Option, none, some, List, [], ◌∷◌, ◌++◌,
  any, arith, ◌==◌, if◌then◌else◌, Bool-cases, Option-cases,
}
use south_connect.Database.{Where, Table, Client, patch}
use south_connect.Cron.Batches.{apply_all}
use south_connect.Cron.Recount.{each_once, without}

abbrev pub among : ℕ → List ℕ → Bool
among k keys = any (λ j. j == k) keys

-- `hit u` are the rows that an update for `u` writes, `key_of` says for which key a row is written,
-- and `put` what is written.
module _ {Row : Type 0} (c : Client Row) (hit : ℕ → Where Row) (key_of : ℕ → Row → ℕ)
    (put : ℕ → Row → Row) where
  pub record Sweeps : Type 0 where
    pub by_key : (u k : ℕ) (r : Row) → hit u k r ≡ (key_of k r == u)
    pub same_key : (u k : ℕ) (r : Row) → key_of k (put u r) ≡ key_of k r
    pub again : (u : ℕ) (r : Row) → put u (put u r) ≡ put u r

  abbrev pub sweep : ℕ → Table Row → Table Row
  sweep u t = c.update_many (hit u) (put u) t

  abbrev pub swept : List ℕ → ℕ → Option Row → Option Row
  swept keys k none = none
  swept keys k (some r) = some (if among (key_of k r) keys then put (key_of k r) r else r)

  swept_first :
      (fits : Sweeps) (u : ℕ) (rest : List ℕ) (k : ℕ) (found : Option Row)
      → swept rest k (patch (hit u) (put u) k found) ≡ swept (u ∷ rest) k found
  swept_first fits u rest k none = refl
  swept_first fits u rest k (some r) = elim (Bool-cases (key_of k r == u)) [
    | inr other ↦ ground (arith, other, fits.by_key u k r)
    | inl mine ↦ ground (
      arith,
      mine,
      fits.by_key u k r,
      fits.same_key u k r,
      fits.again u r,
      Bool-cases (among u rest),
    )
  ]

  -- What stands at a key after the updates.
  pub read-sweep :
      (fits : Sweeps) (keys : List ℕ) (t : Table Row) (k : ℕ)
      → c.find_unique k (apply_all sweep keys t) ≡ swept keys k (c.find_unique k t)
  read-sweep fits [] t k = elim (Option-cases (c.find_unique k t)) [
    | inl absent ↦ rw absent refl
    | inr (r, present) ↦ rw present refl
  ]
  read-sweep fits (u ∷ rest) t k =
      read-sweep fits rest (sweep u t) k
      ∙ ap (swept rest k) (c.find_unique-update_many k (hit u) (put u) t)
      ∙ swept_first fits u rest k (c.find_unique k t)

-- A part of the state on which the updates act by themselves.
pub part-apply_all :
    {S T A : Type 0} (part : S → T) (f : A → S → S) (g : A → T → T) (items : List A) (s : S)
    → ((a : A) (t : S) → part (f a t) ≡ g a (part t))
    → part (apply_all f items s) ≡ apply_all g items (part s)
part-apply_all part f g [] s acts = refl
part-apply_all part f g (a ∷ rest) s acts =
    part-apply_all part f g rest (f a s) acts ∙ ap (apply_all g rest) (acts a s)

pub among-append : (k : ℕ) (xs ys : List ℕ) → among k (xs ++ ys) ≡ (among k xs || among k ys)
among-append k [] ys = refl
among-append k (x ∷ xs) ys = ground (arith, among-append k xs ys)

among-without :
    (k j : ℕ) (keys : List ℕ) → among k (without j keys) ≡ (among k keys && not (k == j))
among-without k j [] = refl
among-without k j (i ∷ rest) = ground (arith, among-without k j rest)

-- Listing each key once loses none and adds none.
pub among-each_once : (k : ℕ) (keys : List ℕ) → among k (each_once keys) ≡ among k keys
among-each_once k [] = refl
among-each_once k (j ∷ rest) =
    ground (arith, among-without k j (each_once rest), among-each_once k rest)
