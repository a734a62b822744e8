-- ===== src/Storage/Namespace.antt =====
-- Who may delete a file that was uploaded.
use south_connect.Prelude.{
  ◌≡◌, refl, ap, ◌∙◌, inl, inr, Bool, true, false, not, ◌&&◌, ◌||◌, Option, none, some, List, [],
  ◌∷◌, any, all, same_list, same_list_sound, arith, Bool-cases, Option-cases, if◌then◌else◌,
}
use south_connect.Action.{Result, ok, err, forbidden, Result-either}
use south_connect.Storage.{
  Chars, Bucket, images, other_bucket, File, UploadDto, Call, ObjectStore, opportunities_prefix,
  user_owned_prefixes, target_bucket, is_allowed_bucket, is_empty, is_word, before_slash,
  after_slash, is_bad_path, generate_file_path, check_namespace, check_file, put_file, upload_file,
  check_path, remove_file, delete_file,
}
use south_connect.Storage.Paths.{path_is, path_parts, path_good}

any_among :
    (p : Chars → Bool) (x : Chars) (words : List Chars)
    → all p words ≡ true
    → any (same_list x) words ≡ true
    → p x ≡ true
any_among p x [] every found = ground (arith, found)
any_among p x (w ∷ words) every found = elim (Bool-cases (same_list x w)) [
  | inl same ↦ ap p (same_list_sound x w same) ∙ ground (arith, every)
  | inr differ ↦ any_among p x words (ground (arith, every)) (ground (arith, found, differ))
]

abbrev is_users_own : Chars → Bool
is_users_own p = all is_word p && not (same_list p opportunities_prefix)

own_prefix : (p : Chars) → any (same_list p) user_owned_prefixes ≡ true → is_users_own p ≡ true
unfolding is_word
own_prefix p found = any_among is_users_own p user_owned_prefixes refl found

opportunities_words : all is_word opportunities_prefix ≡ true
unfolding is_word
opportunities_words = refl

target_allowed : (b : Option Bucket) → is_allowed_bucket (target_bucket b) ≡ true
target_allowed none = refl
target_allowed (some images) = refl
target_allowed (some Bucket.avatars) = refl
target_allowed (some Bucket.covers) = refl
target_allowed (some Bucket.attachments) = refl
target_allowed (some other_bucket) = refl

module _ (store : ObjectStore) (owner_of : Chars → Option Chars) where
  -- What `upload` asks of the user.
  pub data Owns (user prefix id : Chars) : Type 0 where
    own :
        any (same_list prefix) user_owned_prefixes ≡ true
        → same_list id user ≡ true
        → Owns user prefix id
    owned :
        (owner : Chars)
        → same_list prefix opportunities_prefix ≡ true
        → owner_of id ≡ some owner
        → same_list owner user ≡ true
        → Owns user prefix id

  namespace_owned :
      (user prefix id : Chars) (s : List Call)
      → (check_namespace store owner_of user prefix id s).0 ≡ ok tt
      → Owns user prefix id
  unfolding check_namespace
  namespace_owned user prefix id s h =
      elim (Bool-cases (any (same_list prefix) user_owned_prefixes)) [
        | inl users ↦ own users (ground (arith, h, users))
        | inr not_users ↦ elim (Bool-cases (same_list prefix opportunities_prefix)) [
          | inr unknown ↦ ground (arith, h, not_users, unknown)
          | inl offers ↦ elim (Option-cases (owner_of id)) [
            | inl absent ↦ ground (arith, h, not_users, offers, absent)
            | inr (owner, present) ↦
                owned owner offers present (ground (arith, h, not_users, offers, present))
          ]
        ]
      ]

  pub record Uploaded (stamp random user : Chars) (dto : UploadDto) (bucket : Bucket) (path : Chars)
      : Type 0 where
    pub file : File
    pub named : is_empty dto.resource_id ≡ false
    pub owns : Owns user dto.prefix dto.resource_id
    pub in_bucket : bucket ≡ target_bucket dto.bucket
    pub at_path : path ≡ generate_file_path stamp random dto.prefix dto.resource_id file

  upload_ok :
      (stamp random user : Chars) (given : Option File) (dto : UploadDto) (s : List Call)
      (bucket : Bucket) (path : Chars)
      → (upload_file store owner_of stamp random user given dto s).0 ≡ ok (bucket, path)
      → Uploaded stamp random user dto bucket path
  unfolding upload_file
  upload_ok stamp random user given dto s bucket path h =
      let b = target_bucket dto.bucket in
      elim (Option-cases given) [
        | inl absent ↦ ground (arith, h, absent)
        | inr (file, there) ↦
            let checked = check_file store owner_of b file s in
            let p = generate_file_path stamp random dto.prefix dto.resource_id file in
            elim (Result-either checked.0) [
              | inr (e, bad) ↦ ground (arith, h, there, bad)
              | inl (u, fine) ↦
                  elim (Bool-cases (is_empty dto.prefix || is_empty dto.resource_id)) [
                    | inl unnamed ↦ ground (arith, h, there, fine, unnamed)
                    | inr named ↦
                        let asked =
                          check_namespace store owner_of user dto.prefix dto.resource_id
                            checked.1 in
                        elim (Result-either asked.0) [
                          | inr (e, refused) ↦ ground (arith, h, there, fine, named, refused)
                          | inl (v, granted) ↦
                              elim (Result-either (put_file store owner_of b p asked.1).0) [
                                | inr (e, failed) ↦
                                    ground (arith, h, there, fine, named, granted, failed)
                                | inl (w, put) ↦ record {
                                  file = file;
                                  named = ground (arith, named);
                                  owns =
                                      namespace_owned user dto.prefix dto.resource_id checked.1
                                        granted;
                                  in_bucket = ground (arith, h, there, fine, named, granted, put);
                                  at_path = ground (arith, h, there, fine, named, granted, put);
                                }
                              ]
                        ]
                  ]
            ]
      ]

  same_owner :
      (user other id : Chars) → same_list id user ≡ true → same_list id other ≡ same_list user other
  same_owner user other id h = ap (λ x. same_list x other) (same_list_sound id user h)

  -- Who asks is let through to the file exactly if the upload was theirs.
  asked :
      (user other prefix id rest : Chars) (s : List Call)
      → Owns user prefix id
      → before_slash rest ≡ id
      → check_path store owner_of other prefix (some rest) s
        ≡ (if same_list user other then (ok tt, s) else (err forbidden, s))
  unfolding check_path
  asked user other prefix id rest s (own users mine) named =
      ground (arith, own_prefix prefix users, named, same_owner user other id mine)
  asked user other prefix id rest s (owned owner offers present mine) named =
      ground (arith, offers, named, present, same_owner user other owner mine)

  prefix_words : (user prefix id : Chars) → Owns user prefix id → all is_word prefix ≡ true
  prefix_words user prefix id (own users mine) = ground (arith, own_prefix prefix users)
  prefix_words user prefix id (owned owner offers present mine) =
      rw (same_list_sound prefix opportunities_prefix offers) opportunities_words

  -- What `deleteFile` does after the check.
  abbrev go_on : Chars → Bucket → Result (Unit {0}) × List Call → Result (Unit {0}) × List Call
  go_on path bucket x = elim x.0 [
    | ok v ↦ remove_file store owner_of bucket path x.1
    | err e ↦ (err e, x.1)
  ]

  deletes :
      (other first rest path : Chars) (bucket : Bucket) (may : Bool) (s : List Call)
      → is_empty path ≡ false
      → is_allowed_bucket bucket ≡ true
      → is_bad_path path ≡ false
      → before_slash path ≡ first
      → after_slash path ≡ some rest
      → check_path store owner_of other first (some rest) s
        ≡ (if may then (ok tt, s) else (err forbidden, s))
      → delete_file store owner_of other bucket path s
        ≡ (if may then remove_file store owner_of bucket path s else (err forbidden, s))
  unfolding delete_file
  deletes other first rest path bucket true s full allowed good is_first is_rest check =
      rw (full, allowed, good, is_first, is_rest) (ap (go_on path bucket) check)
  deletes other first rest path bucket false s full allowed good is_first is_rest check =
      rw (full, allowed, good, is_first, is_rest) (ap (go_on path bucket) check)

  -- Where the key of the resource, the time and the random part are made of letters, digits, - and _,
  -- a file whose upload succeeded can be deleted, later and in any state, by the user that uploaded
  -- it, unless the store fails, and a request of anybody else is refused and touches nothing.
  pub upload_file-delete_file :
      (stamp random user other : Chars) (given : Option File) (dto : UploadDto)
      (s later : List Call) (bucket : Bucket) (path : Chars)
      → all is_word stamp ≡ true
      → all is_word random ≡ true
      → all is_word dto.resource_id ≡ true
      → (upload_file store owner_of stamp random user given dto s).0 ≡ ok (bucket, path)
      → delete_file store owner_of other bucket path later ≡ (
          if same_list user other
          then remove_file store owner_of bucket path later
          else (err forbidden, later))
  upload_file-delete_file stamp random user other given dto s later bucket path stamp_words
        random_words id_words done =
      let u = upload_ok stamp random user given dto s bucket path done in
      let id = dto.resource_id in
      let words = prefix_words user dto.prefix id u.owns in
      let is_path =
        u.at_path
        ∙ path_is stamp random dto.prefix id u.file stamp_words random_words words id_words in
      let (full, first, rest, second) =
        path_parts stamp random dto.prefix id u.file stamp_words random_words words id_words in
      let good =
        path_good stamp random dto.prefix id u.file stamp_words random_words words id_words
          u.named in
      deletes other dto.prefix _ path bucket (same_list user other) later
        (ap is_empty is_path ∙ full) (ap is_allowed_bucket u.in_bucket ∙ target_allowed dto.bucket)
        (ap is_bad_path is_path ∙ good) (ap before_slash is_path ∙ first)
        (ap after_slash is_path ∙ rest) (asked user other dto.prefix id _ later u.owns second)
