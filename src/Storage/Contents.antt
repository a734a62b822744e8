-- ===== src/Storage/Contents.antt =====
-- What the first bytes of a file say.
use south_connect.Prelude.{
  ℕ, ◌≡◌, refl, sym, ap, ◌∙◌, true, List, [], ◌∷◌, same_list, arith, if◌then◌else◌,
}
use south_connect.Storage.{Chars, Mime, ascii, has_signature, is_mime_consistent, extension}

-- The first two bytes of each type, less their eighth bits.
abbrev mark_of : Mime → Chars
mark_of Mime.jpeg = 127 ∷ 88 ∷ []
mark_of Mime.jpg = 127 ∷ 88 ∷ []
mark_of Mime.png = 9 ∷ 80 ∷ []
mark_of Mime.webp = 82 ∷ 73 ∷ []
mark_of Mime.gif = 71 ∷ 73 ∷ []
mark_of Mime.pdf = 37 ∷ 80 ∷ []
mark_of Mime.doc = 80 ∷ 79 ∷ []
mark_of Mime.docx = 80 ∷ 75 ∷ []
mark_of Mime.other_type = []

abbrev extension_at : Chars → Chars
extension_at mark =
    if same_list mark (mark_of Mime.jpeg)
    then extension Mime.jpeg true
    else if same_list mark (mark_of Mime.png)
    then extension Mime.png true
    else if same_list mark (mark_of Mime.webp)
    then extension Mime.webp true
    else if same_list mark (mark_of Mime.gif)
    then extension Mime.gif true
    else if same_list mark (mark_of Mime.pdf)
    then extension Mime.pdf true
    else if same_list mark (mark_of Mime.doc)
    then extension Mime.doc true
    else if same_list mark (mark_of Mime.docx)
    then extension Mime.docx true
    else extension Mime.other_type true

extension_marked : (m : Mime) → extension_at (mark_of m) ≡ extension m true
extension_marked Mime.jpeg = refl
extension_marked Mime.jpg = refl
extension_marked Mime.png = refl
extension_marked Mime.webp = refl
extension_marked Mime.gif = refl
extension_marked Mime.pdf = refl
extension_marked Mime.doc = refl
extension_marked Mime.docx = refl
extension_marked Mime.other_type = refl

-- A file of at least four bytes with a type's signature has its mark.
marked :
    (a b c d : ℕ) (rest : List ℕ) (m : Mime)
    → has_signature m (a ∷ b ∷ c ∷ d ∷ rest) ≡ true
    → ascii 0 2 (a ∷ b ∷ c ∷ d ∷ rest) ≡ mark_of m
marked a b c d rest Mime.jpeg h = ground (arith, h)
marked a b c d rest Mime.jpg h = ground (arith, h)
marked a b c d rest Mime.png h = ground (arith, h)
marked a b c d rest Mime.webp h = ground (arith, h)
marked a b c d rest Mime.gif h = ground (arith, h)
marked a b c d rest Mime.pdf h = ground (arith, h)
marked a b c d rest Mime.doc h = ground (arith, h)
marked a b c d rest Mime.docx h = ground (arith, h)
marked a b c d rest Mime.other_type h = ground (arith, h)

consistent-marked :
    (b : List ℕ) (m : Mime) → is_mime_consistent b m ≡ true → ascii 0 2 b ≡ mark_of m
unfolding is_mime_consistent
consistent-marked [] m h = ground (arith, h)
consistent-marked (a ∷ []) m h = ground (arith, h)
consistent-marked (a ∷ b ∷ []) m h = ground (arith, h)
consistent-marked (a ∷ b ∷ c ∷ []) m h = ground (arith, h)
consistent-marked (a ∷ b ∷ c ∷ d ∷ rest) m h = marked a b c d rest m (ground (arith, h))

-- Whatever types a file is declared to have, written in lower case, if its content is accepted for
-- each of two then both give its path the same extension.
pub is_mime_consistent-extension :
    (b : List ℕ) (m n : Mime)
    → is_mime_consistent b m ≡ true
    → is_mime_consistent b n ≡ true
    → extension m true ≡ extension n true
is_mime_consistent-extension b m n h h' =
    sym (extension_marked m)
    ∙ ap extension_at (sym (consistent-marked b m h) ∙ consistent-marked b n h')
    ∙ extension_marked n
