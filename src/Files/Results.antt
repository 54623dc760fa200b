-- ===== src/Files/Results.antt =====
-- What an upload reports of the files, and when a deletion is done (services/files.service.ts and the client
-- in modules/files under src).
use text.Mathlib.Text.{◌==◌}
use trust_post.Common.{
  ◌≡◌, refl, sym, ◌∙◌, ℕ, ◌+◌, String, true, false, List, [], ◌∷◌, any, count, length, nat_eq,
  nat_eq_iff, arith, ◌≤◌, subst, Bool-cases, inl, inr, if◌then◌else◌,
}
use trust_post.Errors.{bad_request, Result, ok, err, Result-cases}
use trust_post.Actions.{proceed, guard}
use trust_post.Files.{
  Cloud, IncomingFile, FileUploadRequest, FileUploadResponse, FileUploadResult,
  ResolvedFileStorageInfo, is_blank_key, resolve_storage_by_path, cloudinary_keys, client_delete,
  delete, upload_single, upload_each, client_upload, upload, answer_upload, add_result,
  UploadApiResponse, resolve_file_storage_info,
}

all_cloudinary :
    (keys : List String) → any is_blank_key keys ≡ false → cloudinary_keys keys ≡ ok keys
unfolding cloudinary_keys resolve_storage_by_path
all_cloudinary [] h = refl
all_cloudinary (key ∷ keys) h =
    let first : is_blank_key key ≡ false = ground (arith, h) in
    let rest : any is_blank_key keys ≡ false = ground (arith, h) in
    rw (first, all_cloudinary keys rest)

some_blank :
    (keys : List String)
    → any is_blank_key keys ≡ true
    → cloudinary_keys keys ≡ err (bad_request "Invalid storage key")
unfolding cloudinary_keys resolve_storage_by_path
some_blank [] h = cc
some_blank (key ∷ keys) h = elim (Bool-cases (is_blank_key key)) [
  | inl blank ↦ rw blank
  | inr fine ↦ rw (fine, some_blank keys (rw fine at h))
]

-- Of the results and the failures together as many have a name as of the files, and as many there are.
abbrev IsCounted : String → List IncomingFile → FileUploadResponse → Type 0
IsCounted name files r =
    (count (λ u. u.original_name == name) r.uploaded + count (λ n. n == name) r.failed
      ≡ count (λ file. file.original_name == name) files)
    × (length r.uploaded + length r.failed ≡ length files)

add_result-IsCounted :
    (name : String) (file : IncomingFile) (result : Result UploadApiResponse)
    (r : FileUploadResponse) (files : List IncomingFile)
    → IsCounted name files r
    → IsCounted name (file ∷ files) (add_result file result r)
add_result-IsCounted name file (ok res) r files (named, all) =
    (omega (arith, named), omega (arith, all))
add_result-IsCounted name file (err e) r files (named, all) =
    (omega (arith, named), omega (arith, all))

count-all : (names : List String) → length names ≡ count (λ n. true) names
count-all [] = refl
count-all (n ∷ names) = omega (arith, count-all names)

module _ {F : Type 0} (cloud : Cloud F) (service_name : String) where
  deleted :
      (n : ℕ) (x : Result (Unit {0}) × F)
      → proceed x (λ _. guard (nat_eq n n) (bad_request "Unsupported storage")) ≡ x
  deleted n (ok tt, f) = rw ((nat_eq_iff n n).1 refl)
  deleted n (err e, f) = refl

  -- The service deletes all the given keys by one call of the client, and answers as the client does;
  -- if any key is blank it answers 'Invalid storage key' and deletes nothing. Without keys it answers
  -- at once. So its answer 'Unsupported storage' is never given.
  pub delete_lem :
      (key : String) (keys : List String) (f : F)
      → (delete cloud service_name [] f ≡ (ok tt, f))
        × (delete cloud service_name (key ∷ keys) f ≡ (
            if any is_blank_key (key ∷ keys)
            then (err (bad_request "Invalid storage key"), f)
            else client_delete cloud service_name (key ∷ keys) f))
  unfolding delete
  delete_lem key keys f = (
    refl,
    elim (Bool-cases (any is_blank_key (key ∷ keys))) [
      | inl blank ↦ rw (blank, some_blank (key ∷ keys) blank)
      | inr fine ↦
          rw (fine, all_cloudinary (key ∷ keys) fine)
            (deleted (length (key ∷ keys)) (client_delete cloud service_name (key ∷ keys) f))
    ],
  )

  counted :
      (name : String) (files : List IncomingFile) (info : ResolvedFileStorageInfo) (f : F)
      → IsCounted name files (upload_each cloud service_name files info f).0
  unfolding upload_each
  counted name [] info f = (refl, refl)
  counted name (file ∷ files) info f =
      let g = (upload_single cloud service_name file info f).1 in
      add_result-IsCounted name file (upload_single cloud service_name file info f).0
        (upload_each cloud service_name files info g).0 files (counted name files info g)

  ended :
      (name : String) (files : List IncomingFile) (r : FileUploadResponse)
      → IsCounted name files r
      → IsCounted name files (record r { failed = cloud.in_order_of_end r.failed })
  ended name files r (named, all) = (
    rw (cloud.count-in_order_of_end (λ n. n == name) r.failed) named,
    rw (same_length r.failed) all,
  )
    where
      same_length : (names : List String) → length (cloud.in_order_of_end names) ≡ length names
      same_length names =
          count-all (cloud.in_order_of_end names)
          ∙ cloud.count-in_order_of_end (λ n. true) names
          ∙ sym (count-all names)

  answered :
      (uploaded : List FileUploadResult) (r response : FileUploadResponse) (h g : F)
      → answer_upload uploaded r h ≡ (ok response, g)
      → (r ≡ response) × (1 ≤ length uploaded)
  answered [] r response h g e = absurd (ground (arith, e))
  answered (file ∷ rest) r response h g e = (ground (arith, e), omega arith)

  -- An upload that ends well reports the files by their names: for every name, the uploaded files and the failures of that name are
  -- together as many as the files of that name. In all they are as many as the files, and at least one is uploaded.
  pub upload-counted :
      (name : String) (files : List IncomingFile) (request : FileUploadRequest) (f g : F)
      (response : FileUploadResponse)
      → upload cloud service_name files request f ≡ (ok response, g)
      → (count (λ u. u.original_name == name) response.uploaded
            + count (λ n. n == name) response.failed
          ≡ count (λ file. file.original_name == name) files)
        × (length response.uploaded + length response.failed ≡ length files)
        × (1 ≤ length response.uploaded)
  unfolding upload client_upload
  upload-counted name [] request f g response e = absurd (ground (arith, e))
  upload-counted name (file ∷ files) request f g response e =
      elim (Result-cases (resolve_file_storage_info request)) [
        | inr (failure, refused) ↦ absurd (ground (arith, rw refused at e))
        | inl (info, found) ↦
            let (r, h) = upload_each cloud service_name (file ∷ files) info f in
            let (same, some_uploaded) =
              answered r.uploaded (record r { failed = cloud.in_order_of_end r.failed }) response h
                g (rw found at e) in
            let (named, all) =
              subst (IsCounted name (file ∷ files)) same
                (ended name (file ∷ files) r (counted name (file ∷ files) info f)) in
            (
              named,
              all,
              subst (λ (x : FileUploadResponse). 1 ≤ length x.uploaded) same some_uploaded,
            )
      ]
