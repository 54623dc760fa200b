-- ===== src/Files.antt =====
-- modules/files under src: helpers/storage-config.helper.ts, services/files.service.ts and
-- services/clients/cloudinary-client.service.ts. The cloudinary package and the network are the record
-- `Cloud`; the retries around its calls are the part Retry. The pause between requests, the log and the
-- configuration of the package are left out. The lanes of `upload` take the files in turn; here the
-- files go one by one in their order, which is the order of the uploaded ones in the source too. The failed ones are
-- listed in the order in which their calls end.
pub mod Results
mod Tests
use text.Mathlib.Text.{◌==◌}
use trust_post.Common.{
  ◌≡◌, ℕ, String, Bool, true, false, not, ◌&&◌, ◌||◌, Option, none, some, List, [], ◌∷◌, ◌++◌, map,
  filter, count, length, nat_eq, if◌then◌else◌,
}
use trust_post.Common.Text.{◌<>◌, codes, trim}
use trust_post.Errors.{bad_request, internal, Failure, Result, ok, err, and_then}
use trust_post.Actions.{Action, pure, throw, guard, lift, ◌>>=◌, ◌>>◌, proceed, catch}
use trust_post.Guards.{starts_with}

pub data FileUploadTarget : Type 0 where
  profile post chat : FileUploadTarget

pub data FileProvider : Type 0 where
  cloudinary : FileProvider

pub record FileUploadConfig : Type 0 where
  pub storage : FileProvider
  pub path_segment : String
  pub requires_resource_id : Bool

pub record FileUploadRequest : Type 0 where
  pub resource_id : Option String
  pub user_id : String
  pub target : FileUploadTarget

pub record ResolvedFileStorageInfo : Type 0 where
  pub resource_id : Option String
  pub user_id : String
  pub storage : FileProvider
  pub path_segment : String
  pub requires_resource_id : Bool

-- A file of the request: its name and type (the content is not looked at).
pub record IncomingFile : Type 0 where
  pub original_name : String
  pub mime_type : String

pub record FileUploadResult : Type 0 where
  pub url : String
  pub storage_key : String
  pub size : ℕ
  pub original_name : String
  pub mime_type : String

pub record FileUploadResponse : Type 0 where
  pub uploaded : List FileUploadResult
  pub failed : List String

pub data ResourceType : Type 0 where
  image raw video : ResourceType

-- What Cloudinary answers on an upload: the address, the public id and the size.
pub record UploadApiResponse : Type 0 where
  pub secure_url : String
  pub public_id : String
  pub bytes : ℕ

-- The package, with its retries: each call answers or fails, and changes what the remote store holds. The
-- calls of the lanes end in an order of their own: `in_order_of_end` puts what belongs to failed calls in it.
pub record Cloud (F : Type 0) : Type 0 where
  pub upload_stream : IncomingFile → String → ResourceType → F → Result UploadApiResponse × F
  pub delete_resources : ResourceType → List String → F → Result (Unit {0}) × F
  pub in_order_of_end : List String → List String
  pub count-in_order_of_end :
      (p : String → Bool) (names : List String) → count p (in_order_of_end names) ≡ count p names

-- `STORAGE_BY_TARGET`
unfoldable pub resolve_file_upload_config : FileUploadTarget → FileUploadConfig
resolve_file_upload_config FileUploadTarget.post = record {
  storage = cloudinary;
  path_segment = "posts";
  requires_resource_id = false;
}
resolve_file_upload_config FileUploadTarget.chat = record {
  storage = cloudinary;
  path_segment = "chat";
  requires_resource_id = true;
}
resolve_file_upload_config FileUploadTarget.profile = record {
  storage = cloudinary;
  path_segment = "profile";
  requires_resource_id = false;
}

-- `!normalizedResourceId`
abbrev is_missing : Option String → Bool
is_missing none = true
is_missing (some id) = id == ""

abbrev target_name : FileUploadTarget → String
target_name FileUploadTarget.profile = "profile"
target_name FileUploadTarget.post = "post"
target_name FileUploadTarget.chat = "chat"

unfoldable pub resolve_file_storage_info : FileUploadRequest → Result ResolvedFileStorageInfo
unfolding resolve_file_upload_config
resolve_file_storage_info request =
    let config = resolve_file_upload_config request.target in
    if config.requires_resource_id && is_missing request.resource_id
    then err
        (bad_request ("resourceId is required for " <> target_name request.target <> " uploads"))
    else ok (record {
      resource_id = request.resource_id;
      user_id = request.user_id;
      storage = config.storage;
      path_segment = config.path_segment;
      requires_resource_id = config.requires_resource_id;
    })

-- `serviceName` is the configured name, 'trust-post' if there is none.
unfoldable pub construct_file_path : String → String → String → Option String → String
construct_file_path service_name path_segment user_id resource_id =
    let base = service_name <> "/" <> user_id <> "/" <> path_segment in
    elim resource_id [ none ↦ base | some id ↦ if id == "" then base else base <> "/" <> id ]

unfoldable pub resolve_resource_type : String → ResourceType
unfolding starts_with
resolve_resource_type mime_type =
    if starts_with (codes "image/") (codes mime_type)
    then image
    else if starts_with (codes "video/") (codes mime_type)
    then video
    else raw

-- `storageKey.replace(/\\/g, '/').trim()`, tested for the empty text.
unfoldable pub is_blank_key : String → Bool
is_blank_key key = elim (trim (map (λ c. if nat_eq c 92 then 47 else c) (codes key))) [
  | [] ↦ true
  | c ∷ rest ↦ false
]

unfoldable pub resolve_storage_by_path : String → Result FileProvider
unfolding is_blank_key
resolve_storage_by_path key =
    if is_blank_key key then err (bad_request "Invalid storage key") else ok cloudinary

-- `key` kept if its provider is Cloudinary.
abbrev kept_key : String → FileProvider → List String → List String
kept_key key cloudinary keys = key ∷ keys

-- The `filter` of `delete`: a key that is no path throws.
unfoldable pub cloudinary_keys : List String → Result (List String)
unfolding resolve_storage_by_path
cloudinary_keys [] = ok []
cloudinary_keys (key ∷ keys) =
    let others = cloudinary_keys keys in
    and_then (resolve_storage_by_path key)
      (λ provider. and_then others (λ rest. ok (kept_key key provider rest)))

abbrev pub with_response : IncomingFile → UploadApiResponse → FileUploadResult
with_response file res = record {
  url = res.secure_url;
  storage_key = res.public_id;
  size = res.bytes;
  original_name = file.original_name;
  mime_type = file.mime_type;
}

-- The response with one more file in front, uploaded or failed.
abbrev pub add_result :
    IncomingFile → Result UploadApiResponse → FileUploadResponse → FileUploadResponse
add_result file (ok res) r = record r { uploaded = with_response file res ∷ r.uploaded }
add_result file (err e) r = record r { failed = file.original_name ∷ r.failed }

-- The answer to an upload, by the files that were uploaded.
abbrev pub answer_upload :
    {F : Type 0} → List FileUploadResult → FileUploadResponse → Action F FileUploadResponse
answer_upload [] response g = (err (bad_request "All file uploads failed"), g)
answer_upload (file ∷ rest) response g = (ok response, g)

module _ {F : Type 0} (cloud : Cloud F) (service_name : String) where
  unfoldable pub upload_single :
      IncomingFile → ResolvedFileStorageInfo → F → Result UploadApiResponse × F
  unfolding construct_file_path resolve_resource_type
  upload_single file info f =
      cloud.upload_stream file
        (construct_file_path service_name info.path_segment info.user_id info.resource_id)
        (resolve_resource_type file.mime_type) f

  -- `runNext` over all files, the failed ones in the order of the files.
  unfoldable pub upload_each :
      List IncomingFile → ResolvedFileStorageInfo → F → FileUploadResponse × F
  unfolding upload_single
  upload_each [] info f = (record { uploaded = []; failed = [] }, f)
  upload_each (file ∷ files) info f =
      let (result, g) = upload_single file info f in
      let (rest, h) = upload_each files info g in (add_result file result rest, h)

  -- `upload` of the client.
  unfoldable pub client_upload :
      List IncomingFile → ResolvedFileStorageInfo → Action F FileUploadResponse
  unfolding upload_each
  client_upload files info f =
      let (response, g) = upload_each files info f in
      answer_upload response.uploaded
        (record response { failed = cloud.in_order_of_end response.failed }) g

  -- `delete` of the client: the three kinds in turn, until one fails.
  unfoldable pub client_delete : List String → Action F (Unit {0})
  client_delete keys =
      catch
        (do
          cloud.delete_resources image keys
          cloud.delete_resources raw keys
          cloud.delete_resources video keys)
        (λ e. throw (internal "Failed to delete files from storage"))

  -- `upload` of the service. Cloudinary is the one provider.
  unfoldable pub upload : List IncomingFile → FileUploadRequest → Action F FileUploadResponse
  unfolding resolve_file_storage_info client_upload
  upload [] request f = (err (bad_request "No files provided"), f)
  upload (file ∷ files) request f =
      (do info ← lift (resolve_file_storage_info request); client_upload (file ∷ files) info) f

  -- The call of the client, unless there is nothing to delete.
  abbrev delete_some : List String → Action F (Unit {0})
  delete_some [] f = (ok tt, f)
  delete_some (key ∷ keys) f = client_delete (key ∷ keys) f

  -- `delete` of the service.
  unfoldable pub delete : List String → Action F (Unit {0})
  unfolding cloudinary_keys client_delete
  delete [] f = (ok tt, f)
  delete (key ∷ keys) f =
      (do
        chosen ← lift (cloudinary_keys (key ∷ keys))
        delete_some chosen
        guard (nat_eq (length chosen) (length (key ∷ keys))) (bad_request "Unsupported storage"))
        f
