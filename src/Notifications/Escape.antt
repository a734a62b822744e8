-- ===== src/Notifications/Escape.antt =====
-- `esc` and `escapeAttr`, which make a text safe within HTML. A text is the list of its characters'
-- codes.
use south_connect.Prelude.{
  ℕ, ◌≡◌, refl, sym, ap, ◌∙◌, ◌↔◌, inl, inr, Bool, false, ◌||◌, List, [], ◌∷◌, ◌++◌, any, arith,
  ◌==◌, if◌then◌else◌, Bool-cases,
}

-- & < > "
abbrev pub ampersand : ℕ
ampersand = 38

abbrev pub less_than : ℕ
less_than = 60

abbrev pub greater_than : ℕ
greater_than = 62

abbrev pub quote : ℕ
quote = 34

-- &amp; &lt; &gt; &quot;
abbrev pub amp_entity : List ℕ
amp_entity = 38 ∷ 97 ∷ 109 ∷ 112 ∷ 59 ∷ []

abbrev pub lt_entity : List ℕ
lt_entity = 38 ∷ 108 ∷ 116 ∷ 59 ∷ []

abbrev pub gt_entity : List ℕ
gt_entity = 38 ∷ 103 ∷ 116 ∷ 59 ∷ []

abbrev pub quot_entity : List ℕ
quot_entity = 38 ∷ 113 ∷ 117 ∷ 111 ∷ 116 ∷ 59 ∷ []

-- `text.replace(/c/g, by)`
unfoldable pub replace_all : ℕ → List ℕ → List ℕ → List ℕ
replace_all c by [] = []
replace_all c by (x ∷ xs) =
    let rest = replace_all c by xs in if x == c then by ++ rest else x ∷ rest

unfoldable pub esc : List ℕ → List ℕ
esc s = replace_all quote quot_entity (
    replace_all greater_than gt_entity
      (replace_all less_than lt_entity (replace_all ampersand amp_entity s)))

unfoldable pub escape_attr : List ℕ → List ℕ
escape_attr s = replace_all greater_than gt_entity (
    replace_all less_than lt_entity
      (replace_all quote quot_entity (replace_all ampersand amp_entity s)))

-- What one pass over the characters makes of each.
abbrev pub entity_of : ℕ → List ℕ
entity_of c =
    if c == ampersand
    then amp_entity
    else if c == less_than
    then lt_entity
    else if c == greater_than
    then gt_entity
    else if c == quote
    then quot_entity
    else c ∷ []

abbrev pub escaped : List ℕ → List ℕ
escaped [] = []
escaped (c ∷ s) = entity_of c ++ escaped s

append_assoc : (xs ys zs : List ℕ) → (xs ++ ys) ++ zs ≡ xs ++ (ys ++ zs)
append_assoc [] ys zs = refl
append_assoc (x ∷ xs) ys zs = ap (λ l. x ∷ l) (append_assoc xs ys zs)

replace_append :
    (c : ℕ) (by xs ys : List ℕ)
    → replace_all c by (xs ++ ys) ≡ replace_all c by xs ++ replace_all c by ys
unfolding replace_all
replace_append c by [] ys = refl
replace_append c by (x ∷ xs) ys = elim (Bool-cases (x == c)) [
  | inl hit ↦ rw hit (
      ap (λ l. by ++ l) (replace_append c by xs ys)
      ∙ sym (append_assoc by (replace_all c by xs) (replace_all c by ys)))
  | inr miss ↦ rw miss (ap (λ l. x ∷ l) (replace_append c by xs ys))
]

-- The first replacement splits a text at its first character.
first_apart :
    (c : ℕ) (s : List ℕ)
    → replace_all ampersand amp_entity (c ∷ s)
      ≡ (if c == ampersand then amp_entity else c ∷ []) ++ replace_all ampersand amp_entity s
unfolding replace_all
first_apart c s = elim (Bool-cases (c == ampersand)) [
  | inl hit ↦ rw hit refl
  | inr miss ↦ rw miss refl
]

after_first : List ℕ → List ℕ
after_first s =
    replace_all quote quot_entity
      (replace_all greater_than gt_entity (replace_all less_than lt_entity s))

after_first_attr : List ℕ → List ℕ
after_first_attr s =
    replace_all greater_than gt_entity
      (replace_all less_than lt_entity (replace_all quote quot_entity s))

after_append :
    (xs ys : List ℕ)
    → (after_first (xs ++ ys) ≡ after_first xs ++ after_first ys)
      × (after_first_attr (xs ++ ys) ≡ after_first_attr xs ++ after_first_attr ys)
unfolding after_first after_first_attr
after_append xs ys = (
  rw (replace_append less_than lt_entity xs ys) (
      rw
        (replace_append greater_than gt_entity (replace_all less_than lt_entity xs)
          (replace_all less_than lt_entity ys))
        (replace_append quote quot_entity _ _)),
  rw (replace_append quote quot_entity xs ys) (
      rw
        (replace_append less_than lt_entity (replace_all quote quot_entity xs)
          (replace_all quote quot_entity ys))
        (replace_append greater_than gt_entity _ _)),
)

-- The other three leave what the first has made of an ampersand, and replace their own.
one_character :
    (c : ℕ)
    → (after_first (if c == ampersand then amp_entity else c ∷ []) ≡ entity_of c)
      × (after_first_attr (if c == ampersand then amp_entity else c ∷ []) ≡ entity_of c)
unfolding after_first after_first_attr replace_all
one_character c = (ground arith, ground arith)

one_pass : (s : List ℕ) → (esc s ≡ escaped s) × (escape_attr s ≡ escaped s)
unfolding esc escape_attr after_first after_first_attr replace_all
one_pass [] = (refl, refl)
one_pass (c ∷ s) =
    let first = if c == ampersand then amp_entity else c ∷ [] in
    let rest = replace_all ampersand amp_entity s in
    let (ih, ih_attr) = one_pass s in
    let (split, split_attr) = after_append first rest in
    let (one, one_attr) = one_character c in
    (
      ap after_first (first_apart c s)
          ∙ split
          ∙ ap (λ l. l ++ after_first rest) one
          ∙ ap (λ l. entity_of c ++ l) ih,
      ap after_first_attr (first_apart c s)
          ∙ split_attr
          ∙ ap (λ l. l ++ after_first_attr rest) one_attr
          ∙ ap (λ l. entity_of c ++ l) ih_attr,
    )

-- A character that could open or close a tag or an attribute.
abbrev pub breaks_out : ℕ → Bool
breaks_out c = c == less_than || (c == greater_than || c == quote)

any-append : (xs ys : List ℕ) → any breaks_out (xs ++ ys) ≡ (any breaks_out xs || any breaks_out ys)
any-append [] ys = refl
any-append (x ∷ xs) ys = ground (arith, any-append xs ys)

escaped_safe : (s : List ℕ) → any breaks_out (escaped s) ≡ false
escaped_safe [] = refl
escaped_safe (c ∷ s) = any-append (entity_of c) (escaped s) ∙ ground (arith, escaped_safe s)

escaped_injective : (s t : List ℕ) → escaped s ≡ escaped t → s ≡ t
escaped_injective [] [] e = refl
escaped_injective [] (d ∷ t) e = ground (arith, e)
escaped_injective (c ∷ s) [] e = ground (arith, e)
escaped_injective (c ∷ s) (d ∷ t) e = ground (arith, e, escaped_injective s t)

-- However a text is escaped, for the body of an email or for an attribute, the result is the same;
-- it has no character that could open or close a tag or an attribute, and no two different texts
-- are escaped to the same one.
pub esc_lem :
    (s t : List ℕ)
    → (esc s ≡ escape_attr s) × (any breaks_out (esc s) ≡ false) × ((esc s ≡ esc t) ↔ (s ≡ t))
esc_lem s t =
    let (body, attr) = one_pass s in
    (
      body ∙ sym attr,
      ap (any breaks_out) body ∙ escaped_safe s,
      (λ e. escaped_injective s t (sym body ∙ e ∙ (one_pass t).0), ap esc),
    )
