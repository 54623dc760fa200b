-- ===== src/Files/Tests.antt =====
-- The theorems of the files at a concrete storage.
use text.Mathlib.Text.{◌==◌}
use trust_post.Common.{
  ◌+◌, ◌≤◌, ◌≡◌, refl, String, List, [], ◌∷◌, ◌++◌, count, length, some, any, if◌then◌else◌,
}
use trust_post.Errors.{external, bad_request, ok, err}
use trust_post.Files.{
  Cloud, FileUploadTarget, IncomingFile, FileUploadRequest, FileUploadResponse, FileUploadResult,
  upload, delete, client_delete, is_blank_key, resolve_file_storage_info,
  resolve_file_upload_config, upload_each, upload_single, client_upload, construct_file_path,
  resolve_resource_type,
}
use trust_post.Files.Results.{delete_lem, upload-counted}

-- A storage that refuses files by the name "bad.png", and lists the folders and keys it was called with.
abbrev listing : Cloud (List String)
listing = record {
  upload_stream = λ file folder kind f.
      if file.original_name == "bad.png" then (err (external "refused"), f) else (
        ok (record { secure_url = folder; public_id = file.original_name; bytes = 9 }),
        folder ∷ f,
      );
  delete_resources = λ kind keys f. (ok tt, keys ++ f);
  in_order_of_end = λ names. names;
  count-in_order_of_end = λ p names. refl;
}

abbrev two_files : List IncomingFile
two_files =
    record { original_name = "bad.png"; mime_type = "image/png" }
    ∷ record { original_name = "plan.pdf"; mime_type = "application/pdf" }
    ∷ []

abbrev request : FileUploadRequest
request = record { resource_id = some "books"; user_id = "ann"; target = FileUploadTarget.chat }

abbrev plan_only : FileUploadResponse
plan_only = record {
  uploaded =
      record {
        url = "trust-post/ann/chat/books";
        storage_key = "plan.pdf";
        size = 9;
        original_name = "plan.pdf";
        mime_type = "application/pdf";
      }
      ∷ [];
  failed = "bad.png" ∷ [];
}

uploaded_one :
    upload listing "trust-post" two_files request []
    ≡ (ok plan_only, "trust-post/ann/chat/books" ∷ [])
unfolding upload resolve_file_storage_info resolve_file_upload_config client_upload upload_each
    upload_single construct_file_path resolve_resource_type
uploaded_one = refl

upload-counted_example :
    (count (λ (u : FileUploadResult). u.original_name == "bad.png") plan_only.uploaded
        + count (λ n. n == "bad.png") plan_only.failed
      ≡ count (λ (file : IncomingFile). file.original_name == "bad.png") two_files)
    × (length plan_only.uploaded + length plan_only.failed ≡ length two_files)
    × (1 ≤ length plan_only.uploaded)
upload-counted_example =
    upload-counted listing "trust-post" "bad.png" two_files request []
      ("trust-post/ann/chat/books" ∷ []) plan_only uploaded_one

delete_lem_example :
    (delete listing "trust-post" [] [] ≡ (ok tt, []))
    × (delete listing "trust-post" ("a" ∷ " " ∷ []) [] ≡ (
        if any is_blank_key ("a" ∷ " " ∷ [])
        then (err (bad_request "Invalid storage key"), [])
        else client_delete listing "trust-post" ("a" ∷ " " ∷ []) []))
delete_lem_example = delete_lem listing "trust-post" "a" (" " ∷ []) []
