-- ===== src/Storage.antt =====
-- modules/storage: `StorageService` and the two routes of `StorageController`. A text or a buffer is
-- the list of its codes or bytes. The client of Supabase is a parameter: whether it is configured,
-- and whether it takes a file or removes one ("not found" counts as removed). The signed URL of a
-- file is left out.
pub mod Paths
pub mod Namespace
pub mod Contents
mod Tests
use south_connect.Prelude.{
  ℕ, ◌+◌, ◌*◌, ◌%◌, Bool, true, false, not, ◌&&◌, ◌||◌, Option, none, some, List, [], ◌∷◌, ◌++◌,
  map, length, take, drop, any, all, same_list, ltb, leb, ◌==◌, if◌then◌else◌,
}
use south_connect.Action.{
  Action, ok, err, pure, throw, modify, throw_if, or_throw, ◌>>=◌, ◌>>◌, bad_request, forbidden,
  internal_error,
}

abbrev pub Chars : Type 0
Chars = List ℕ

-- What `toLowerCase` makes of a MIME type, as far as the code tells them apart.
pub data Mime : Type 0 where
  jpeg jpg png webp gif pdf doc docx other_type : Mime

pub data Bucket : Type 0 where
  images avatars covers attachments other_bucket : Bucket

pub record File : Type 0 where
  pub mime : Mime
  -- The declared type is written in lower case already.
  pub is_lower_case : Bool
  pub buffer : List ℕ
  pub size : ℕ

-- A text that is missing is the empty one.
pub record UploadDto : Type 0 where
  pub bucket : Option Bucket
  pub prefix : Chars
  pub resource_id : Chars

-- The calls made of Supabase, newest first.
pub data Call : Type 0 where
  uploaded removed : Bucket → Chars → Call

pub record ObjectStore : Type 0 where
  pub is_configured : Bool
  pub takes : Bucket → Chars → Bool
  pub removes : Bucket → Chars → Bool

abbrev pub is_valid_image_type : Mime → Bool
is_valid_image_type Mime.jpeg = true
is_valid_image_type Mime.jpg = true
is_valid_image_type Mime.png = true
is_valid_image_type Mime.webp = true
is_valid_image_type Mime.gif = true
is_valid_image_type _ = false

abbrev pub is_valid_attachment_type : Mime → Bool
is_valid_attachment_type Mime.gif = false
is_valid_attachment_type Mime.other_type = false
is_valid_attachment_type _ = true

-- `buffer.toString('ascii', from, from + n)`, which drops the eighth bit of a byte.
abbrev pub ascii : ℕ → ℕ → List ℕ → Chars
ascii from n buffer = map (λ byte. byte % 128) (take n (drop from buffer))

-- The first bytes that a type asks for: RIFF and WEBP, GIF87a or GIF89a, %PDF, and so on.
abbrev pub has_signature : Mime → List ℕ → Bool
has_signature Mime.jpeg b = same_list (take 3 b) (255 ∷ 216 ∷ 255 ∷ [])
has_signature Mime.jpg b = same_list (take 3 b) (255 ∷ 216 ∷ 255 ∷ [])
has_signature Mime.png b = same_list (take 4 b) (137 ∷ 80 ∷ 78 ∷ 71 ∷ [])
has_signature Mime.webp b =
    leb 12 (length b)
    && (same_list (ascii 0 4 b) (82 ∷ 73 ∷ 70 ∷ 70 ∷ [])
        && same_list (ascii 8 4 b) (87 ∷ 69 ∷ 66 ∷ 80 ∷ []))
has_signature Mime.gif b =
    same_list (ascii 0 6 b) (71 ∷ 73 ∷ 70 ∷ 56 ∷ 55 ∷ 97 ∷ [])
    || same_list (ascii 0 6 b) (71 ∷ 73 ∷ 70 ∷ 56 ∷ 57 ∷ 97 ∷ [])
has_signature Mime.pdf b = same_list (ascii 0 4 b) (37 ∷ 80 ∷ 68 ∷ 70 ∷ [])
has_signature Mime.doc b = same_list (take 4 b) (208 ∷ 207 ∷ 17 ∷ 224 ∷ [])
has_signature Mime.docx b = same_list (take 4 b) (80 ∷ 75 ∷ 3 ∷ 4 ∷ [])
has_signature Mime.other_type b = false

unfoldable pub is_mime_consistent : List ℕ → Mime → Bool
is_mime_consistent b mime = not (ltb (length b) 4) && has_signature mime b

-- `mimeExtMap[mimetype] || 'bin'`
abbrev pub extension : Mime → Bool → Chars
extension Mime.jpeg true = 106 ∷ 112 ∷ 103 ∷ []
extension Mime.jpg true = 106 ∷ 112 ∷ 103 ∷ []
extension Mime.png true = 112 ∷ 110 ∷ 103 ∷ []
extension Mime.webp true = 119 ∷ 101 ∷ 98 ∷ 112 ∷ []
extension Mime.gif true = 103 ∷ 105 ∷ 102 ∷ []
extension Mime.pdf true = 112 ∷ 100 ∷ 102 ∷ []
extension Mime.doc true = 100 ∷ 111 ∷ 99 ∷ []
extension Mime.docx true = 100 ∷ 111 ∷ 99 ∷ 120 ∷ []
extension _ _ = 98 ∷ 105 ∷ 110 ∷ []

-- [a-zA-Z0-9_-]
unfoldable pub is_word : ℕ → Bool
is_word c =
    (leb 97 c && leb c 122)
    || ((leb 65 c && leb c 90) || ((leb 48 c && leb c 57) || (c == 95 || c == 45)))

-- `replace(/[^a-zA-Z0-9_-]/g, '')`
abbrev pub sanitized : Chars → Chars
sanitized [] = []
sanitized (c ∷ s) = let rest = sanitized s in if is_word c then c ∷ rest else rest

-- `Date.now()` and the random part are arguments.
unfoldable pub generate_file_path : (stamp random : Chars) → (prefix id : Chars) → File → Chars
generate_file_path stamp random prefix id file =
    sanitized prefix
    ++ 47
      ∷ (sanitized id
          ++ 47 ∷ (stamp ++ 45 ∷ (random ++ 46 ∷ extension file.mime file.is_lower_case)))

abbrev pub opportunities_prefix : Chars
opportunities_prefix =
    111 ∷ 112 ∷ 112 ∷ 111 ∷ 114 ∷ 116 ∷ 117 ∷ 110 ∷ 105 ∷ 116 ∷ 105 ∷ 101 ∷ 115 ∷ []

-- avatars, covers, profile, applications, companies, attachments
abbrev pub user_owned_prefixes : List Chars
user_owned_prefixes =
    (97 ∷ 118 ∷ 97 ∷ 116 ∷ 97 ∷ 114 ∷ 115 ∷ [])
    ∷ (99 ∷ 111 ∷ 118 ∷ 101 ∷ 114 ∷ 115 ∷ [])
    ∷ (112 ∷ 114 ∷ 111 ∷ 102 ∷ 105 ∷ 108 ∷ 101 ∷ [])
    ∷ (97 ∷ 112 ∷ 112 ∷ 108 ∷ 105 ∷ 99 ∷ 97 ∷ 116 ∷ 105 ∷ 111 ∷ 110 ∷ 115 ∷ [])
    ∷ (99 ∷ 111 ∷ 109 ∷ 112 ∷ 97 ∷ 110 ∷ 105 ∷ 101 ∷ 115 ∷ [])
    ∷ (97 ∷ 116 ∷ 116 ∷ 97 ∷ 99 ∷ 104 ∷ 109 ∷ 101 ∷ 110 ∷ 116 ∷ 115 ∷ [])
    ∷ []

-- `ALLOWED_BUCKETS.includes(bucket ?? '') ? bucket : 'images'`
abbrev pub target_bucket : Option Bucket → Bucket
target_bucket none = images
target_bucket (some other_bucket) = images
target_bucket (some bucket) = bucket

abbrev pub is_allowed_bucket : Bucket → Bool
is_allowed_bucket other_bucket = false
is_allowed_bucket _ = true

abbrev pub is_valid_type : Bucket → Mime → Bool
is_valid_type attachments mime = is_valid_attachment_type mime
is_valid_type _ mime = is_valid_image_type mime

abbrev pub is_empty : Chars → Bool
is_empty [] = true
is_empty (c ∷ s) = false

-- [a-zA-Z0-9/_.\-]
abbrev pub is_path_char : ℕ → Bool
is_path_char c = is_word c || (c == 47 || c == 46)

abbrev pub starts : ℕ → Chars → Bool
starts c [] = false
starts c (d ∷ s) = d == c

-- `path.includes('..')`, with 46 for the dot, and the same with 47 for the slash.
abbrev pub includes_double : ℕ → Chars → Bool
includes_double c [] = false
includes_double c (d ∷ s) = (d == c && starts c s) || includes_double c s

-- `path.split('/')[0]`, and what follows the first slash, if there is one.
abbrev pub before_slash : Chars → Chars
before_slash [] = []
before_slash (c ∷ s) = let rest = before_slash s in if c == 47 then [] else c ∷ rest

abbrev pub after_slash : Chars → Option Chars
after_slash [] = none
after_slash (c ∷ s) = let rest = after_slash s in if c == 47 then some s else rest

abbrev pub is_bad_path : Chars → Bool
is_bad_path path =
    includes_double 46 path || (includes_double 47 path || not (all is_path_char path))

-- `owner_of` is `opportunity.findUnique`, with the owner selected.
module _ (store : ObjectStore) (owner_of : Chars → Option Chars) where
  abbrev pub assert_owner : Chars → Chars → Action (List Call) (Unit {0})
  assert_owner user id = do
    owner ← or_throw (owner_of id) forbidden
    throw_if (not (same_list owner user)) forbidden

  unfoldable pub check_namespace : Chars → Chars → Chars → Action (List Call) (Unit {0})
  check_namespace user prefix id =
      if any (same_list prefix) user_owned_prefixes
      then throw_if (not (same_list id user)) forbidden
      else if same_list prefix opportunities_prefix
      then assert_owner user id
      else throw forbidden

  unfoldable pub put_file : Bucket → Chars → Action (List Call) (Unit {0})
  put_file bucket path = do
    throw_if (not store.is_configured) internal_error
    modify (λ calls. uploaded bucket path ∷ calls)
    throw_if (not (store.takes bucket path)) internal_error

  unfoldable pub remove_file : Bucket → Chars → Action (List Call) (Unit {0})
  remove_file bucket path = do
    throw_if (not store.is_configured) internal_error
    modify (λ calls. removed bucket path ∷ calls)
    throw_if (not (store.removes bucket path)) internal_error

  -- What the route asks of a file.
  unfoldable pub check_file : Bucket → File → Action (List Call) (Unit {0})
  check_file bucket file = do
    throw_if (not (is_valid_type bucket file.mime)) bad_request
    throw_if (not (is_mime_consistent file.buffer file.mime)) bad_request
    throw_if (ltb (5 * 1024 * 1024) file.size) bad_request

  -- `POST /storage/upload`
  unfoldable pub upload_file :
      (stamp random : Chars) → Chars → Option File → UploadDto → Action (List Call) (Bucket × Chars)
  upload_file stamp random user given dto = do
    file ← or_throw given bad_request
    check_file (target_bucket dto.bucket) file
    throw_if (is_empty dto.prefix || is_empty dto.resource_id) bad_request
    check_namespace user dto.prefix dto.resource_id
    put_file (target_bucket dto.bucket)
        (generate_file_path stamp random dto.prefix dto.resource_id file)
    pure (target_bucket dto.bucket, generate_file_path stamp random dto.prefix dto.resource_id file)

  unfoldable pub check_path : Chars → Chars → Option Chars → Action (List Call) (Unit {0})
  check_path user first none = throw bad_request
  check_path user first (some rest) =
      if same_list first opportunities_prefix
      then assert_owner user (before_slash rest)
      else throw_if (not (same_list (before_slash rest) user)) forbidden

  -- `DELETE /storage/file`
  unfoldable pub delete_file : Chars → Bucket → Chars → Action (List Call) (Unit {0})
  delete_file user bucket path = do
    throw_if (is_empty path) bad_request
    throw_if (not (is_allowed_bucket bucket)) bad_request
    throw_if (is_bad_path path) bad_request
    check_path user (before_slash path) (after_slash path)
    remove_file bucket path
