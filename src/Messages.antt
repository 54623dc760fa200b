-- ===== src/Messages.antt =====
-- modules/message under src: the messages of the chats and their files. Here are the rows and the
-- queries of repos/message.repo.ts; the children model services/message.service.ts and prove
-- what it keeps. Texts are lists of code units. The ids of new rows and the clock are arguments. The
-- sender's name and picture are left out, and so is the time at which a chat was last changed.
pub mod Service
pub mod Lookup
pub mod Steps
pub mod Settling
pub mod Staying
pub mod Invariant
pub mod Typing
pub mod Retyping
pub mod Pages
pub mod Rights
pub mod Sending
mod Tests
use package.text.Mathlib.Text.{◌==◌}
use trust_post.Common.{
  ◌≡◌, ℕ, suc, ◌+◌, String, Bool, true, false, not, ◌&&◌, Option, none, some, List, [], ◌∷◌, ◌++◌,
  map, take, length, ltb, leb, if◌then◌else◌,
}
use trust_post.Common.Int.{ℤ}
use trust_post.Errors.{prisma, external, Failure, Result, ok, err, and_then}
use trust_post.Actions.{Action, pure, require, throw, modify, ◌>>=◌, ◌>>◌, proceed}
use trust_post.Prisma.{Table, Transaction}
use trust_post.Prisma.Slices.{last}
use trust_post.Files.{FileProvider}
use trust_post.Chat.{ChatRow, ChatMember, is_chat, is_member_row}

pub data MessageType : Type 0 where
  text file mixed system : MessageType

pub data MessageStatus : Type 0 where
  sending sent failed : MessageStatus

pub data ChatFileType : Type 0 where
  image video doc : ChatFileType

pub record Message : Type 0 where
  pub id : String
  pub chat_id : String
  pub sender_id : String
  pub content : Option (List ℕ)
  pub type : MessageType
  pub status : MessageStatus
  pub is_delete : Bool
  pub created_at : ℕ
  pub edited_at : Option ℕ
  pub deleted_at : Option ℕ

-- A file of a message; `Attachment` is its part that an upload gives.
pub record Attachment : Type 0 where
  pub file_type : ChatFileType
  pub url : String
  pub storage_key : String
  pub provider : FileProvider
  pub mime_type : String
  pub size : ℕ
  pub original_name : String

pub record ChatFile : Type 0 where
  pub id : String
  pub message_id : String
  pub attachment : Attachment

-- A message with its files.
pub record MessageView : Type 0 where
  pub message : Message
  pub attachments : List ChatFile

pub record MessagePage : Type 0 where
  pub entries : List MessageView
  pub next_cursor : Option String
  pub has_more : Bool

-- What is sent to the room of a chat.
pub data Event : Type 0 where
  message_new message_edited : String → MessageView → Event
  message_deleted : String → String → ℕ → Event

-- The tables, the remote store of files, the cache and what was sent.
pub record MessageStore (F C : Type 0) : Type 0 where
  pub chats : List ChatRow
  pub members : List ChatMember
  pub messages : List Message
  pub files : List ChatFile
  pub storage : F
  pub cache : C
  pub sent : List Event

pub record MessageDatabase (F C : Type 0) : Type 0 where
  pub chat : Table ChatRow
  pub chat_member : Table ChatMember
  pub message : Table Message
  pub chat_file : Table ChatFile
  pub transaction : Transaction (MessageStore F C) MessageView

-- JavaScript's dates: their texts, which are read back.
pub record Dates : Type 0 where
  pub parse_date : String → Option ℕ
  pub to_iso_string : ℕ → String
  pub parse_date-to_iso_string : (t : ℕ) → parse_date (to_iso_string t) ≡ some t
  pub to_iso_string_nonempty : (t : ℕ) → (to_iso_string t == "") ≡ false

pub record NewMessage : Type 0 where
  pub chat_id : String
  pub sender_id : String
  pub content : Option (List ℕ)
  pub type : MessageType
  pub status : MessageStatus
  pub files : List Attachment

-- `where: { id }`
unfoldable pub is_message : String → Message → Bool
is_message id m = m.id == id

unfoldable pub is_file : String → ChatFile → Bool
is_file id f = f.id == id

unfoldable pub is_file_of : String → ChatFile → Bool
is_file_of message_id f = f.message_id == message_id

-- `deletedAt: null`
abbrev pub is_null : Option ℕ → Bool
is_null none = true
is_null (some t) = false

-- `...(cursor ? { createdAt: { lt: cursor } } : {})`
abbrev pub is_before : Option ℕ → ℕ → Bool
is_before none t = true
is_before (some cursor) t = ltb t cursor

-- The condition of the list of messages.
unfoldable pub is_listed : String → Option ℕ → Message → Bool
is_listed chat_id cursor m =
    m.chat_id == chat_id && not m.is_delete && is_null m.deleted_at && is_before cursor m.created_at

-- The row of a new message, with the defaults of the schema.
unfoldable pub message_row : String → ℕ → NewMessage → Message
message_row id now input = record {
  id = id;
  chat_id = input.chat_id;
  sender_id = input.sender_id;
  content = input.content;
  type = input.type;
  status = input.status;
  is_delete = false;
  created_at = now;
  edited_at = none;
  deleted_at = none;
}

-- The rows of the files of a new message; `new_id` gives each the id that the database would.
unfoldable pub file_rows : (Attachment → String) → String → List Attachment → List ChatFile
file_rows new_id message_id [] = []
file_rows new_id message_id (a ∷ rest) =
    record { id = new_id a; message_id = message_id; attachment = a }
    ∷ file_rows new_id message_id rest

-- `data` of the updates.
unfoldable pub with_content : ℕ → List ℕ → Message → Message
with_content now content m = record m { content = some content; edited_at = some now }

unfoldable pub with_type : MessageType → Message → Message
with_type type m = record m { type = type }

unfoldable pub deleted : ℕ → Message → Message
deleted now m = record m { is_delete = true; deleted_at = some now }

-- The page's end: the time of its last message, as a text. An empty page has none, and to read it throws.
abbrev pub cursor_of : (ℕ → String) → Option Message → Result (Option String)
cursor_of to_iso_string none = err (external "TypeError")
cursor_of to_iso_string (some m) = ok (some (to_iso_string m.created_at))

abbrev pub cursor_after : (ℕ → String) → Bool → List Message → Result (Option String)
cursor_after to_iso_string false slice = ok none
cursor_after to_iso_string true slice = cursor_of to_iso_string (last slice)

module _ {F C : Type 0} (db : MessageDatabase F C) where
  -- `include: { attachments: true }`
  unfoldable pub with_files : MessageStore F C → Message → MessageView
  unfolding is_file_of
  with_files s m = record {
    message = m;
    attachments = db.chat_file.find_many (is_file_of m.id) s.files;
  }

  -- Without a test of `isDelete`.
  unfoldable pub find_chat_member : String → String → MessageStore F C → Option ChatMember
  find_chat_member chat_id user_id s =
      db.chat_member.find_first (is_member_row chat_id user_id) s.members

  -- The body of the transaction of `createMessage`: the rows, and the time of the chat.
  unfoldable pub insert_message :
      (Attachment → String) → String → ℕ → NewMessage → Action (MessageStore F C) MessageView
  unfolding message_row file_rows with_files
  insert_message new_id id now input s =
      let row = message_row id now input in
      let attachments = file_rows new_id id input.files in
      let t : MessageStore F C = record s {
        messages = db.message.create row s.messages;
        files = s.files ++ attachments;
      } in
      (do
        chats ← require (db.chat.update (is_chat input.chat_id) (λ c. c) t.chats) (prisma "P2025")
        modify (λ u. record u { chats = chats })
        pure (record { message = row; attachments = attachments }))
        t

  unfoldable pub create_message :
      (Attachment → String) → String → ℕ → NewMessage → Action (MessageStore F C) MessageView
  unfolding insert_message
  create_message new_id id now input = db.transaction.run (insert_message new_id id now input)

  unfoldable pub page_rows : String → Option ℕ → ℕ → MessageStore F C → List Message
  page_rows chat_id cursor limit s =
      take (limit + 1)
        (db.message.find_sorted (λ m. m.created_at) (is_listed chat_id cursor) s.messages)

  unfoldable pub find_message_by_id : String → MessageStore F C → Option Message
  unfolding is_message
  find_message_by_id id s = db.message.find_first (is_message id) s.messages

  unfoldable pub find_message_with_files : String → MessageStore F C → Option MessageView
  unfolding is_message with_files
  find_message_with_files id s = elim (db.message.find_first (is_message id) s.messages) [
    | none ↦ none
    | some m ↦ some (with_files s m)
  ]

  -- `update` of the message by its id, and the message after it.
  unfoldable pub update_message :
      (Message → Message) → String → Action (MessageStore F C) (Unit {0})
  unfolding is_message
  update_message change id s = elim (db.message.update (is_message id) change s.messages) [
    | none ↦ (err (prisma "P2025"), s)
    | some rows ↦ (ok tt, record s { messages = rows })
  ]

  unfoldable pub update_message_content :
      ℕ → String → List ℕ → Action (MessageStore F C) MessageView
  unfolding update_message with_content find_message_with_files
  update_message_content now id content = do
    update_message (with_content now content) id
    λ s. require (find_message_with_files id s) (prisma "P2025") s

  unfoldable pub update_message_type : String → MessageType → Action (MessageStore F C) MessageView
  unfolding update_message with_type find_message_with_files
  update_message_type id type = do
    update_message (with_type type) id
    λ s. require (find_message_with_files id s) (prisma "P2025") s

  unfoldable pub soft_delete_message : ℕ → String → Action (MessageStore F C) (Unit {0})
  unfolding update_message deleted
  soft_delete_message now id = update_message (deleted now) id

  -- `include: { message: true }`; the foreign key has it that the message is there.
  unfoldable pub find_file_by_id : String → MessageStore F C → Option (ChatFile × Message)
  unfolding is_file find_message_by_id
  find_file_by_id id s = elim (db.chat_file.find_first (is_file id) s.files) [
    | none ↦ none
    | some f ↦ elim (find_message_by_id f.message_id s) [ none ↦ none | some m ↦ some (f, m) ]
  ]

  unfoldable pub delete_file_row : String → Action (MessageStore F C) (Unit {0})
  unfolding is_file
  delete_file_row id s = elim (db.chat_file.delete (is_file id) s.files) [
    | none ↦ (err (prisma "P2025"), s)
    | some files ↦ (ok tt, record s { files = files })
  ]

  unfoldable pub delete_files_by_message_id : String → MessageStore F C → MessageStore F C
  unfolding is_file_of
  delete_files_by_message_id id s = record s {
    files = (db.chat_file.delete_many (is_file_of id) s.files).1;
  }

  -- One more row than the page holds tells whether there are more.
  unfoldable pub find_messages :
      (ℕ → String) → String → Option ℕ → ℕ → MessageStore F C → Result MessagePage
  unfolding page_rows with_files
  find_messages to_iso_string chat_id cursor limit s =
      let rows = page_rows chat_id cursor limit s in
      let has_more = ltb limit (length rows) in
      let slice = if has_more then take limit rows else rows in
      and_then (cursor_after to_iso_string has_more slice) (λ next.
        ok (record { entries = map (with_files s) slice; next_cursor = next; has_more = has_more }))
