-- ===== src/Storage/Paths.antt =====
-- The paths that `generateFilePath` makes up, as the deletion reads them.
use south_connect.Prelude.{
  ℕ, ◌≡◌, refl, ap, ◌∙◌, inl, inr, Bool, true, false, ◌&&◌, some, [], ◌∷◌, ◌++◌, all, arith, ◌==◌,
  ==_iff, Bool-cases,
}
use south_connect.Storage.{
  Chars, Mime, File, extension, is_word, sanitized, generate_file_path, is_path_char, starts,
  includes_double, before_slash, after_slash, is_bad_path, is_empty,
}

slash_no_word : is_word 47 ≡ false
unfolding is_word
slash_no_word = refl

dot_no_word : is_word 46 ≡ false
unfolding is_word
dot_no_word = refl

extension_words : (m : Mime) (l : Bool) → all is_word (extension m l) ≡ true
unfolding is_word
extension_words Mime.jpeg false = refl
extension_words Mime.jpg false = refl
extension_words Mime.png false = refl
extension_words Mime.webp false = refl
extension_words Mime.gif false = refl
extension_words Mime.pdf false = refl
extension_words Mime.doc false = refl
extension_words Mime.docx false = refl
extension_words Mime.other_type false = refl
extension_words Mime.jpeg true = refl
extension_words Mime.jpg true = refl
extension_words Mime.png true = refl
extension_words Mime.webp true = refl
extension_words Mime.gif true = refl
extension_words Mime.pdf true = refl
extension_words Mime.doc true = refl
extension_words Mime.docx true = refl
extension_words Mime.other_type true = refl

other_char : (x c : ℕ) → is_word x ≡ true → is_word c ≡ false → (x == c) ≡ false
other_char x c word none_such = elim (Bool-cases (x == c)) [
  | inr differ ↦ differ
  | inl same ↦ ground (arith, word, none_such, ap is_word ((==_iff x c).0 same))
]

pub sanitized_words : (s : Chars) → all is_word s ≡ true → sanitized s ≡ s
sanitized_words [] h = refl
sanitized_words (x ∷ s) h = ground (arith, h, sanitized_words s)

before_words : (s t : Chars) → all is_word s ≡ true → before_slash (s ++ 47 ∷ t) ≡ s
before_words [] t h = refl
before_words (x ∷ s) t h =
    let word : is_word x ≡ true = ground (arith, h) in
    let words : all is_word s ≡ true = ground (arith, h) in
    rw (other_char x 47 word slash_no_word, before_words s t words) refl

after_words : (s t : Chars) → all is_word s ≡ true → after_slash (s ++ 47 ∷ t) ≡ some t
after_words [] t h = refl
after_words (x ∷ s) t h =
    let word : is_word x ≡ true = ground (arith, h) in
    let words : all is_word s ≡ true = ground (arith, h) in
    rw (other_char x 47 word slash_no_word, after_words s t words) refl

skip_words :
    (c : ℕ) (s t : Chars)
    → is_word c ≡ false
    → all is_word s ≡ true
    → includes_double c (s ++ t) ≡ includes_double c t
skip_words c [] t none_such h = refl
skip_words c (x ∷ s) t none_such h =
    let word : is_word x ≡ true = ground (arith, h) in
    let words : all is_word s ≡ true = ground (arith, h) in
    rw (other_char x c word none_such) (skip_words c s t none_such words)

-- A text of words, then another character, does not start with a third.
starts_words :
    (c d : ℕ) (s t : Chars)
    → is_word c ≡ false
    → all is_word s ≡ true
    → (d == c) ≡ false
    → starts c (s ++ d ∷ t) ≡ false
starts_words c d [] t none_such h differ = differ
starts_words c d (x ∷ s) t none_such h differ = other_char x c (ground (arith, h)) none_such

starts_id : (s t : Chars) → all is_word s ≡ true → is_empty s ≡ false → starts 47 (s ++ t) ≡ false
starts_id [] t h e = ground (arith, e)
starts_id (x ∷ s) t h e = other_char x 47 (ground (arith, h)) slash_no_word

starts_ext : (m : Mime) (l : Bool) → starts 46 (extension m l) ≡ false
starts_ext Mime.jpeg false = refl
starts_ext Mime.jpeg true = refl
starts_ext Mime.jpg false = refl
starts_ext Mime.jpg true = refl
starts_ext Mime.png false = refl
starts_ext Mime.png true = refl
starts_ext Mime.webp false = refl
starts_ext Mime.webp true = refl
starts_ext Mime.gif false = refl
starts_ext Mime.gif true = refl
starts_ext Mime.pdf false = refl
starts_ext Mime.pdf true = refl
starts_ext Mime.doc false = refl
starts_ext Mime.doc true = refl
starts_ext Mime.docx false = refl
starts_ext Mime.docx true = refl
starts_ext Mime.other_type false = refl
starts_ext Mime.other_type true = refl

words_end :
    (c : ℕ) (s : Chars) → is_word c ≡ false → all is_word s ≡ true → includes_double c s ≡ false
words_end c [] none_such h = refl
words_end c (x ∷ s) none_such h =
    let word : is_word x ≡ true = ground (arith, h) in
    let words : all is_word s ≡ true = ground (arith, h) in
    rw (other_char x c word none_such) (words_end c s none_such words)

path_chars : (s t : Chars) → all is_word s ≡ true → all is_path_char (s ++ t) ≡ all is_path_char t
path_chars [] t h = refl
path_chars (x ∷ s) t h = ground (arith, h, path_chars s t)

words_path : (s : Chars) → all is_word s ≡ true → all is_path_char s ≡ true
words_path [] h = refl
words_path (x ∷ s) h = ground (arith, h, words_path s)

is_empty-append : (s t : Chars) (c : ℕ) → is_empty (s ++ c ∷ t) ≡ false
is_empty-append [] t c = refl
is_empty-append (x ∷ s) t c = refl

-- What the random part of a name, the time, the prefix and the key of the resource are made of.
module _ (stamp random prefix id : Chars) (file : File) (stamp_words : all is_word stamp ≡ true)
    (random_words : all is_word random ≡ true) (prefix_words : all is_word prefix ≡ true)
    (id_words : all is_word id ≡ true) where
  abbrev pub name_of : Chars
  name_of = stamp ++ 45 ∷ (random ++ 46 ∷ extension file.mime file.is_lower_case)

  pub path_is : generate_file_path stamp random prefix id file ≡ prefix ++ 47 ∷ (id ++ 47 ∷ name_of)
  unfolding generate_file_path
  path_is = rw (sanitized_words prefix prefix_words, sanitized_words id id_words) refl

  abbrev path : Chars
  path = prefix ++ 47 ∷ (id ++ 47 ∷ name_of)

  pub path_parts :
      (is_empty path ≡ false)
      × (before_slash path ≡ prefix)
      × (after_slash path ≡ some (id ++ 47 ∷ name_of))
      × (before_slash (id ++ 47 ∷ name_of) ≡ id)
  path_parts = (
    is_empty-append prefix (id ++ 47 ∷ name_of) 47,
    before_words prefix (id ++ 47 ∷ name_of) prefix_words,
    after_words prefix (id ++ 47 ∷ name_of) prefix_words,
    before_words id name_of id_words,
  )

  abbrev ext : Chars
  ext = extension file.mime file.is_lower_case

  no_double :
      (c : ℕ)
      → is_word c ≡ false
      → (45 == c) ≡ false
      → (46 == c && starts c ext) ≡ false
      → includes_double c name_of ≡ false
  no_double c none_such dash dot =
      let after_stamp : includes_double c name_of ≡ includes_double c (45 ∷ (random ++ 46 ∷ ext)) =
        skip_words c stamp (45 ∷ (random ++ 46 ∷ ext)) none_such stamp_words in
      let after_random : includes_double c (random ++ 46 ∷ ext) ≡ includes_double c (46 ∷ ext) =
        skip_words c random (46 ∷ ext) none_such random_words in
      let at_end : includes_double c ext ≡ false =
        words_end c ext none_such (extension_words file.mime file.is_lower_case) in
      after_stamp ∙ rw dash (after_random ∙ rw dot at_end)

  no_dots : includes_double 46 path ≡ false
  no_dots =
      skip_words 46 prefix (47 ∷ (id ++ 47 ∷ name_of)) dot_no_word prefix_words
      ∙ skip_words 46 id (47 ∷ name_of) dot_no_word id_words
      ∙ no_double 46 dot_no_word refl (starts_ext file.mime file.is_lower_case)

  no_slashes : is_empty id ≡ false → includes_double 47 path ≡ false
  no_slashes named =
      skip_words 47 prefix (47 ∷ (id ++ 47 ∷ name_of)) slash_no_word prefix_words
      ∙ rw
          (
            starts_id id (47 ∷ name_of) id_words named,
            skip_words 47 id (47 ∷ name_of) slash_no_word id_words,
            starts_words 47 45 stamp (random ++ 46 ∷ ext) slash_no_word stamp_words refl,
          )
          (no_double 47 slash_no_word refl refl)

  allowed_chars : all is_path_char path ≡ true
  unfolding is_word
  allowed_chars =
      path_chars prefix (47 ∷ (id ++ 47 ∷ name_of)) prefix_words
      ∙ path_chars id (47 ∷ name_of) id_words
      ∙ path_chars stamp (45 ∷ (random ++ 46 ∷ ext)) stamp_words
      ∙ path_chars random (46 ∷ ext) random_words
      ∙ words_path ext (extension_words file.mime file.is_lower_case)

  -- The deletion takes such a path for a good one.
  pub path_good : is_empty id ≡ false → is_bad_path path ≡ false
  path_good named = rw (no_dots, no_slashes named, allowed_chars) refl
