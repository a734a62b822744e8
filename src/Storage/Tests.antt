-- ===== src/Storage/Tests.antt =====
-- The theorems on files at a concrete upload.
use south_connect.Prelude.{◌≡◌, refl, true, Option, none, some, [], ◌∷◌, same_list, if◌then◌else◌}
use south_connect.Action.{ok, err, forbidden}
use south_connect.Storage.{
  Chars, Mime, images, File, UploadDto, ObjectStore, is_word, is_mime_consistent, extension,
  generate_file_path, check_file, check_namespace, put_file, upload_file, remove_file, delete_file,
}
use south_connect.Storage.Namespace.{upload_file-delete_file}
use south_connect.Storage.Contents.{is_mime_consistent-extension}

abbrev object_store : ObjectStore
object_store = record {
  is_configured = true;
  takes = λ bucket path. true;
  removes = λ bucket path. true;
}

abbrev no_owner : Chars → Option Chars
no_owner id = none

-- u1 and u2
abbrev uploader : Chars
uploader = 117 ∷ 49 ∷ []

abbrev stranger : Chars
stranger = 117 ∷ 50 ∷ []

abbrev photo : File
photo = record {
  mime = Mime.jpeg;
  is_lower_case = true;
  buffer = 255 ∷ 216 ∷ 255 ∷ 224 ∷ [];
  size = 4;
}

-- The prefix is avatars.
abbrev avatar : UploadDto
avatar = record {
  bucket = none;
  prefix = 97 ∷ 118 ∷ 97 ∷ 116 ∷ 97 ∷ 114 ∷ 115 ∷ [];
  resource_id = uploader;
}

abbrev stamp : Chars
stamp = 49 ∷ 55 ∷ []

abbrev photo_path : Chars
photo_path =
    97 ∷ 118 ∷ 97 ∷ 116 ∷ 97 ∷ 114 ∷ 115 ∷ 47 ∷ 117 ∷ 49 ∷ 47 ∷ 49 ∷ 55 ∷ 45 ∷ 97 ∷ 46 ∷ 106 ∷ 112
    ∷ 103 ∷ []

are_words : (is_word 49 ≡ true) × (is_word 55 ≡ true) × (is_word 97 ≡ true) × (is_word 117 ≡ true)
unfolding is_word
are_words = (refl, refl, refl, refl)

photo_uploaded :
    (upload_file object_store no_owner stamp (97 ∷ []) uploader (some photo) avatar []).0
    ≡ ok (images, photo_path)
unfolding upload_file check_file check_namespace put_file generate_file_path is_word
    is_mime_consistent
photo_uploaded = refl

upload_file-delete_file_example :
    delete_file object_store no_owner stranger images photo_path [] ≡ (
      if same_list uploader stranger
      then remove_file object_store no_owner images photo_path []
      else (err forbidden, []))
upload_file-delete_file_example =
    let (one, seven, a, u) = are_words in
    upload_file-delete_file object_store no_owner stamp (97 ∷ []) uploader stranger (some photo)
      avatar [] [] images photo_path (rw (one, seven) refl) (rw a refl) (rw (u, one) refl)
      photo_uploaded

photo_consistent : is_mime_consistent photo.buffer Mime.jpeg ≡ true
unfolding is_mime_consistent
photo_consistent = refl

photo_consistent_too : is_mime_consistent photo.buffer Mime.jpg ≡ true
unfolding is_mime_consistent
photo_consistent_too = refl

is_mime_consistent-extension_example : extension Mime.jpeg true ≡ extension Mime.jpg true
is_mime_consistent-extension_example =
    is_mime_consistent-extension photo.buffer Mime.jpeg Mime.jpg photo_consistent
      photo_consistent_too
