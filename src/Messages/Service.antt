-- ===== src/Messages/Service.antt =====
-- modules/message/services/message.service.ts under src. Log lines are left out. The cached pages are deleted
-- after the answer in the source; here they are deleted at the end of the operation.
use package.text.Mathlib.Text.{◌==◌}
use trust_post.Common.{
  ℕ, String, Bool, true, false, not, ◌&&◌, ◌||◌, Option, none, some, List, [], ◌∷◌, ◌++◌, map,
  filter, min, max, if◌then◌else◌, is_some,
}
use trust_post.Common.Int.{ℤ, pos, negsuc}
use trust_post.Common.Text.{codes, trim}
use trust_post.Common.Trimming.{is_nonempty}
use trust_post.Errors.{bad_request, forbidden, not_found, Result, ok, err}
use trust_post.Actions.{Action, pure, throw, modify, guard, require, lift, catch, ◌>>=◌, ◌>>◌}
use trust_post.Roles.{UserRoles}
use trust_post.Guards.{starts_with}
use trust_post.Files.{
  Cloud, IncomingFile, FileUploadResult, FileUploadTarget, upload, delete,
  resolve_file_upload_config,
}
use trust_post.Messages.{
  MessageType, MessageStatus, ChatFileType, Message, Attachment, ChatFile, MessageView, MessagePage,
  Event, message_new, message_edited, message_deleted, MessageStore, MessageDatabase, Dates,
  NewMessage, find_chat_member, create_message, find_messages, find_message_by_id,
  find_message_with_files, update_message_content, update_message_type, soft_delete_message,
  find_file_by_id, delete_file_row, delete_files_by_message_id, is_null,
}

pub record SendMessageInput : Type 0 where
  pub chat_id : String
  pub sender_id : String
  pub content : Option (List ℕ)
  pub files : List IncomingFile
  pub status : Option MessageStatus
  pub type : Option MessageType

pub record EditMessageInput : Type 0 where
  pub message_id : String
  pub user_id : String
  pub role : UserRoles
  pub new_content : List ℕ

pub record MessageListResult : Type 0 where
  pub page : MessagePage
  pub limit : ℕ

-- The pages in Redis, by chat, user, cursor and limit; a call that fails is caught, and
-- reads nothing or changes nothing.
pub record MessageCache (C : Type 0) : Type 0 where
  pub read_page : String → String → Option String → ℕ → C → Option MessageListResult
  pub write_page : String → String → Option String → ℕ → MessageListResult → C → C
  pub drop_chat : String → C → C

abbrev pub is_admin : UserRoles → Bool
is_admin UserRoles.admin = true
is_admin _ = false

-- `message.senderId !== userId && !this.isAdmin(role)` turned round.
abbrev pub may_change : Message → String → UserRoles → Bool
may_change m user_id role = m.sender_id == user_id || is_admin role

unfoldable pub resolve_file_type : String → ChatFileType
unfolding starts_with
resolve_file_type mime_type =
    if starts_with (codes "image/") (codes mime_type)
    then ChatFileType.image
    else if starts_with (codes "video/") (codes mime_type)
    then ChatFileType.video
    else ChatFileType.doc

-- `forcedType === MessageType.SYSTEM`
abbrev pub is_system : Option MessageType → Bool
is_system (some MessageType.system) = true
is_system _ = false

abbrev pub is_file_type : MessageType → Bool
is_file_type MessageType.file = true
is_file_type _ = false

abbrev pub same_type : MessageType → MessageType → Bool
same_type MessageType.text MessageType.text = true
same_type MessageType.file MessageType.file = true
same_type MessageType.mixed MessageType.mixed = true
same_type MessageType.system MessageType.system = true
same_type _ _ = false

unfoldable pub resolve_message_type : Bool → Bool → Option MessageType → MessageType
resolve_message_type has_text has_files forced_type =
    if is_system forced_type
    then MessageType.system
    else if has_text && has_files
    then MessageType.mixed
    else if has_files
    then MessageType.file
    else MessageType.text

-- `content?.trim() ?? ''`
abbrev pub trimmed : Option (List ℕ) → List ℕ
trimmed none = []
trimmed (some content) = trim content

-- `status ?? MessageStatus.SENT`
abbrev status_or_sent : Option MessageStatus → MessageStatus
status_or_sent none = MessageStatus.sent
status_or_sent (some status) = status

-- An uploaded file as it is stored with the message.
unfoldable pub attachment_of : FileUploadResult → Attachment
unfolding resolve_file_type resolve_file_upload_config
attachment_of file = record {
  file_type = resolve_file_type file.mime_type;
  url = file.url;
  storage_key = file.storage_key;
  provider = (resolve_file_upload_config FileUploadTarget.chat).storage;
  mime_type = file.mime_type;
  size = file.size;
  original_name = file.original_name;
}

-- `Number.isFinite(limit) ? Math.min(Math.max(limit, 1), 50) : 20`; `none` stands for NaN.
abbrev pub safe_limit : Option ℤ → ℕ
safe_limit none = 20
safe_limit (some (pos n)) = min (max n 1) 50
safe_limit (some (negsuc n)) = 1

-- `cursor ? new Date(cursor) : null`, which throws on a text that is no date.
unfoldable pub cursor_date : Dates → Option String → Result (Option ℕ)
cursor_date dates none = ok none
cursor_date dates (some cursor) = if cursor == "" then ok none else elim (dates.parse_date cursor) [
  | none ↦ err (bad_request "Invalid cursor")
  | some t ↦ ok (some t)
]

abbrev pub storage_keys : List ChatFile → List String
storage_keys files =
    filter (λ key. not (key == "")) (map (λ (f : ChatFile). f.attachment.storage_key) files)

module _ {F C : Type 0} (db : MessageDatabase F C) (cloud : Cloud F) (service_name : String)
    (cache : MessageCache C) where
  -- A call of the storage of files, within the state.
  unfoldable pub with_storage : {A : Type 0} → Action F A → Action (MessageStore F C) A
  with_storage m s = let (result, f) = m s.storage in (result, record s { storage = f })

  unfoldable pub emit : Event → MessageStore F C → MessageStore F C
  emit event s = record s { sent = s.sent ++ event ∷ [] }

  unfoldable pub invalidate_message_cache : String → MessageStore F C → MessageStore F C
  invalidate_message_cache chat_id s = record s { cache = cache.drop_chat chat_id s.cache }

  -- The upload of `sendMessage`; every failure of it is answered with one message.
  unfoldable pub upload_files : SendMessageInput → Action (MessageStore F C) (List Attachment)
  unfolding with_storage upload attachment_of
  upload_files input =
      if is_nonempty input.files
      then catch
          (do
            response ← with_storage (
                upload cloud service_name input.files (record {
                  resource_id = some input.chat_id;
                  user_id = input.sender_id;
                  target = FileUploadTarget.chat;
                }))
            pure (map attachment_of response.uploaded))
          (λ e. throw (bad_request "Failed to upload files"))
      else pure []

  -- The deletion of the uploaded files after the row could not be made; its own failure is only logged.
  unfoldable pub cleanup : List Attachment → Action (MessageStore F C) (Unit {0})
  unfolding with_storage delete
  cleanup attachments =
      if is_nonempty attachments
      then catch
          (with_storage
            (delete cloud service_name (map (λ (a : Attachment). a.storage_key) attachments)))
          (λ e. pure tt)
      else pure tt

  unfoldable pub new_message_of : SendMessageInput → List Attachment → NewMessage
  unfolding resolve_message_type
  new_message_of input attachments =
      let has_text = is_nonempty (trimmed input.content) in
      record {
        chat_id = input.chat_id;
        sender_id = input.sender_id;
        content = if has_text then some (trimmed input.content) else none;
        type = resolve_message_type has_text (is_nonempty input.files) input.type;
        status = status_or_sent input.status;
        files = attachments;
      }

  unfoldable pub send_message :
      (Attachment → String) → String → ℕ → SendMessageInput → Action (MessageStore F C) MessageView
  unfolding upload_files create_message cleanup emit invalidate_message_cache new_message_of
      find_chat_member
  send_message new_id id now input s =
      (do
        guard (is_nonempty (trimmed input.content) || is_nonempty input.files)
            (bad_request "Message must contain text or attachments")
        guard (is_some (find_chat_member db input.chat_id input.sender_id s))
            (forbidden "You are not a member of this chat")
        attachments ← upload_files input
        catch
            (do
              message ← create_message db new_id id now (new_message_of input attachments)
              modify (emit (message_new input.chat_id message))
              modify (invalidate_message_cache input.chat_id)
              pure message)
            (λ e. do cleanup attachments; throw e))
        s

  unfoldable pub get_messages :
      Dates
      → String
      → String
      → Option String
      → Option ℤ
      → Action (MessageStore F C) MessageListResult
  unfolding cursor_date find_messages find_chat_member
  get_messages dates chat_id user_id cursor limit s =
      elim (cache.read_page chat_id user_id cursor (safe_limit limit) s.cache) [
        | some cached ↦ (ok cached, s)
        | none ↦
            (do
              guard (is_some (find_chat_member db chat_id user_id s))
                  (forbidden "You are not a member of this chat")
              date ← lift (cursor_date dates cursor)
              page ← lift (find_messages db dates.to_iso_string chat_id date (safe_limit limit) s)
              let response : MessageListResult = record { page = page; limit = safe_limit limit }
              modify (λ t. record t {
                cache = cache.write_page chat_id user_id cursor (safe_limit limit) response t.cache;
              })
              pure response)
              s
      ]

  -- The change of type of an edited message: files and text make it mixed.
  unfoldable pub retype_edited : MessageView → Action (MessageStore F C) MessageView
  unfolding update_message_type
  retype_edited view =
      if is_nonempty view.attachments && is_file_type view.message.type
      then update_message_type db view.message.id MessageType.mixed
      else pure view

  unfoldable pub edit_message : ℕ → EditMessageInput → Action (MessageStore F C) MessageView
  unfolding update_message_content retype_edited emit invalidate_message_cache find_message_by_id
  edit_message now input s =
      (do
        guard (is_nonempty (trim input.new_content)) (bad_request "Message content cannot be empty")
        message ← require (find_message_by_id db input.message_id s) (not_found "Message not found")
        guard (may_change message input.user_id input.role)
            (forbidden "You can only edit your own messages")
        guard (is_null message.deleted_at) (bad_request "Cannot edit deleted message")
        changed ← update_message_content db now input.message_id (trim input.new_content)
        updated ← retype_edited changed
        modify (emit (message_edited updated.message.chat_id updated))
        modify (invalidate_message_cache updated.message.chat_id)
        pure updated)
        s

  -- The removal of a message's files from the storage, then from the table.
  unfoldable pub remove_files : String → MessageView → Action (MessageStore F C) (Unit {0})
  unfolding with_storage delete delete_files_by_message_id
  remove_files message_id view =
      if is_nonempty (storage_keys view.attachments)
      then with_storage (delete cloud service_name (storage_keys view.attachments))
        >> modify (delete_files_by_message_id db message_id)
      else pure tt

  -- The rest of the deletion of a message that is there.
  unfoldable pub retire : ℕ → String → MessageView → Action (MessageStore F C) (Unit {0})
  unfolding remove_files soft_delete_message emit invalidate_message_cache
  retire now message_id view = do
    remove_files message_id view
    soft_delete_message db now message_id
    modify (emit (message_deleted message_id view.message.chat_id now))
    modify (invalidate_message_cache view.message.chat_id)

  unfoldable pub delete_message : ℕ → String → String → UserRoles → Action (MessageStore F C) String
  unfolding retire find_message_with_files
  delete_message now message_id user_id role s =
      (do
        view ← require (find_message_with_files db message_id s) (not_found "Message not found")
        guard (may_change view.message user_id role)
            (forbidden "You can only delete your own messages")
        if is_null view.message.deleted_at then retire now message_id view else pure tt
        pure "Message deleted successfully")
        s

  -- The message with another type, unless it has it.
  abbrev retype : MessageView → MessageType → Action (MessageStore F C) MessageView
  retype view next_type =
      if same_type view.message.type next_type
      then pure view
      else update_message_type db view.message.id next_type

  -- What `deleteFile` does with the message when the file is gone.
  unfoldable pub settle_message : ℕ → MessageView → Action (MessageStore F C) (Unit {0})
  unfolding resolve_message_type soft_delete_message update_message_type emit
  settle_message now view =
      let has_text = is_nonempty (trimmed view.message.content) in
      let has_files = is_nonempty view.attachments in
      let next_type = resolve_message_type has_text has_files none in
      if not has_text && not has_files
      then soft_delete_message db now view.message.id
        >> modify (emit (message_deleted view.message.id view.message.chat_id now))
      else retype view next_type >>= λ normalized.
          modify (emit (message_edited view.message.chat_id normalized))

  -- The message as it is now, if it is there.
  unfoldable pub settle_found : ℕ → String → Action (MessageStore F C) (Unit {0})
  unfolding settle_message find_message_with_files
  settle_found now id s = elim (find_message_with_files db id s) [
    | none ↦ (ok tt, s)
    | some view ↦ settle_message now view s
  ]

  unfoldable pub delete_file : ℕ → String → String → UserRoles → Action (MessageStore F C) String
  unfolding with_storage delete delete_file_row settle_found invalidate_message_cache
      find_file_by_id
  delete_file now file_id user_id role s =
      (do
        found ← require (find_file_by_id db file_id s) (not_found "File not found")
        guard (may_change found.1 user_id role)
            (forbidden "You can only delete files from your own messages")
        guard (is_null found.1.deleted_at) (bad_request "Cannot modify files of a deleted message")
        with_storage (delete cloud service_name (found.0.attachment.storage_key ∷ []))
        delete_file_row db file_id
        settle_found now found.0.message_id
        modify (invalidate_message_cache found.1.chat_id)
        pure "File deleted successfully")
        s

  unfoldable pub mark_as_read : String → String → Action (MessageStore F C) String
  unfolding find_chat_member
  mark_as_read chat_id user_id s =
      (do
        guard (is_some (find_chat_member db chat_id user_id s))
            (forbidden "You are not a member of this chat")
        pure "Messages marked as read")
        s
