-- ===== src/Messages/Tests.antt =====
-- The theorems of the messages at a concrete store.
use package.text.Mathlib.Text.{◌==◌}
use trust_post.Common.{
  ℕ, zero, suc, ◌-◌, ap, ◌≤◌, ◌≡◌, refl, String, true, false, Option, none, some, List, [], ◌∷◌,
  length, Memᴰ, Bool-cases, inl, inr, is_some, if◌then◌else◌, arith, eq_iff,
}
use trust_post.Common.Int.{pos}
use trust_post.Common.Text.{codes}
use trust_post.Errors.{prisma, err, ok}
use trust_post.Roles.{UserRoles}
use trust_post.Prisma.Keys.{IsKeyed}
use trust_post.Prisma.Slices.{last}
use trust_post.Prisma.ListTable.{list_table, list_transaction}
use trust_post.Guards.{starts_with}
use trust_post.Files.{
  Cloud, cloudinary, upload, resolve_file_storage_info, resolve_file_upload_config, client_upload,
  upload_each, upload_single, construct_file_path, resolve_resource_type, delete, cloudinary_keys,
  resolve_storage_by_path, is_blank_key, client_delete,
}
use trust_post.Messages.Sending.{send_message-err}
use trust_post.Chat.{ChatType, is_member_row, is_chat}
use trust_post.Messages.{
  create_message, insert_message, message_row, file_rows, Message, MessageType, MessageStatus,
  ChatFile, ChatFileType, MessageView, MessagePage, MessageStore, MessageDatabase, Dates,
  find_chat_member, find_messages, page_rows, is_listed, with_files, is_file_of,
}
use trust_post.Messages.Service.{
  SendMessageInput, send_message, upload_files, with_storage, attachment_of, resolve_file_type,
  new_message_of, cleanup, MessageCache, EditMessageInput, get_messages, edit_message,
  delete_message, delete_file, cursor_date, resolve_message_type,
}
use trust_post.Messages.Pages.{IsPage, get_messages-IsPage, next_cursor-cursor_date}
use trust_post.Messages.Rights.{others_stay}
use trust_post.Messages.Typing.{IsTyped}
use trust_post.Messages.Invariant.{operations-IsTyped}

abbrev quiet : Cloud (Unit {0})
quiet = record {
  upload_stream = λ file folder kind f.
      (ok (record { secure_url = folder; public_id = file.original_name; bytes = 9 }), f);
  delete_resources = λ kind keys f. (ok tt, f);
  in_order_of_end = λ names. names;
  count-in_order_of_end = λ p names. refl;
}

abbrev no_cache : MessageCache (Unit {0})
no_cache = record {
  read_page = λ chat user cursor limit c. none;
  write_page = λ chat user cursor limit page c. c;
  drop_chat = λ chat c. c;
}

abbrev database : MessageDatabase (Unit {0}) (Unit {0})
database = record {
  chat = list_table;
  chat_member = list_table;
  message = list_table;
  chat_file = list_table;
  transaction = list_transaction;
}

abbrev message_of : String → String → ℕ → MessageType → Option (List ℕ) → Message
message_of id sender created_at type content = record {
  id = id;
  chat_id = "books";
  sender_id = sender;
  content = content;
  type = type;
  status = MessageStatus.sent;
  is_delete = false;
  created_at = created_at;
  edited_at = none;
  deleted_at = none;
}

abbrev hello : Message
hello = message_of "m1" "ann" 10 MessageType.text (some (codes "hello"))

abbrev plan : Message
plan = message_of "m2" "bob" 20 MessageType.file none

abbrev plan_file : ChatFile
plan_file = record {
  id = "f1";
  message_id = "m2";
  attachment = record {
    file_type = ChatFileType.doc;
    url = "u";
    storage_key = "k";
    provider = cloudinary;
    mime_type = "application/pdf";
    size = 9;
    original_name = "plan.pdf";
  };
}

abbrev store : MessageStore (Unit {0}) (Unit {0})
store = record {
  chats = record { id = "books"; type = ChatType.group; title = some "Books"; post_id = none } ∷ [];
  members =
      record { chat_id = "books"; user_id = "ann"; is_delete = false; deleted_at = none } ∷ [];
  messages = hello ∷ plan ∷ [];
  files = plan_file ∷ [];
  storage = tt;
  cache = tt;
  sent = [];
}

-- Dates in strokes, one for each millisecond.
push : String → String → String
push String.[] t = t
push (String.◌∷◌ c s) t = String.◌∷◌ c t

strokes : ℕ → String
unfolding push
strokes zero = "."
strokes (suc n) = push "|" (strokes n)

-- The number of characters.
size : String → ℕ
size String.[] = 0
size (String.◌∷◌ c s) = suc (size s)

size-strokes : (n : ℕ) → size (strokes n) ≡ suc n
unfolding size strokes push
size-strokes zero = refl
size-strokes (suc n) = ap suc (size-strokes n)

stroke_date : String → Option ℕ
unfolding size
stroke_date s = if s == "" then none else some (size s - 1)

strokes_nonempty : (n : ℕ) → (strokes n == "") ≡ false
unfolding size
strokes_nonempty n = elim (Bool-cases (strokes n == "")) [
  | inr differ ↦ differ
  | inl same ↦
      let none_left : size (strokes n) ≡ 0 = ap size ((eq_iff (strokes n) "").0 same) in
      absurd (omega (arith, none_left, size-strokes n))
]

stroke_date-strokes : (n : ℕ) → stroke_date (strokes n) ≡ some n
unfolding stroke_date
stroke_date-strokes n = rw (strokes_nonempty n, size-strokes n) (ap some (omega arith))

abbrev stroke_dates : Dates
stroke_dates = record {
  parse_date = stroke_date;
  to_iso_string = strokes;
  parse_date-to_iso_string = stroke_date-strokes;
  to_iso_string_nonempty = strokes_nonempty;
}

ann_is_member : is_some (find_chat_member database "books" "ann" store) ≡ true
unfolding find_chat_member is_member_row
ann_is_member = refl

no_cursor : cursor_date stroke_dates none ≡ ok none
unfolding cursor_date
no_cursor = refl

abbrev edit_plan : EditMessageInput
edit_plan = record {
  message_id = "m2";
  user_id = "bob";
  role = UserRoles.user;
  new_content = codes "see";
}

keyed : IsKeyed (λ (x : Message). x.id) store.messages
keyed = ((refl, tt), (tt, tt))

files-IsKeyed : IsKeyed (λ (x : ChatFile). x.id) store.files
files-IsKeyed = (tt, tt)

all-IsTyped : IsTyped store.files store.messages
unfolding is_file_of resolve_message_type
all-IsTyped = (refl, (refl, tt))

operations-IsTyped_example :
    IsTyped
      (edit_message database quiet "tp" no_cache 30 edit_plan store).1.files
      (edit_message database quiet "tp" no_cache 30 edit_plan store).1.messages
    × IsTyped
        (delete_message database quiet "tp" no_cache 30 "m1" "ann" UserRoles.user store).1.files
        (delete_message database quiet "tp" no_cache 30 "m1" "ann" UserRoles.user store).1.messages
    × IsTyped
        (delete_file database quiet "tp" no_cache 30 "f1" "ann" UserRoles.user store).1.files
        (delete_file database quiet "tp" no_cache 30 "f1" "ann" UserRoles.user store).1.messages
operations-IsTyped_example =
    operations-IsTyped database quiet "tp" no_cache 30 edit_plan "m1" "f1" "ann" UserRoles.user
      store keyed files-IsKeyed all-IsTyped

others_stay_example :
    Memᴰ hello
      (edit_message database quiet "tp" no_cache 30
        (record {
          message_id = "m1";
          user_id = "bob";
          role = UserRoles.user;
          new_content = codes "x";
        })
        store).1.messages
    × Memᴰ hello
        (delete_message database quiet "tp" no_cache 30 "m1" "bob" UserRoles.user store).1.messages
    × Memᴰ hello
        (delete_file database quiet "tp" no_cache 30 "f1" "bob" UserRoles.user store).1.messages
others_stay_example =
    others_stay database hello quiet "tp" no_cache "bob" UserRoles.user refl 30 "m1" "f1"
      (codes "x") store keyed (Memᴰ.head refl)

get_messages-IsPage_example :
    (page : MessagePage) × ((get_messages database quiet "tp" no_cache stroke_dates "books" "ann"
        none
        (some (pos 1))
        store).0
      ≡ ok (record { page = page; limit = 1 }))
    × (length page.entries ≤ 50)
    × IsPage database store "books" none 1 page
get_messages-IsPage_example =
    get_messages-IsPage database stroke_dates store quiet "tp" no_cache "books" "ann" none
      (some (pos 1)) none refl ann_is_member no_cursor

abbrev first_page : MessagePage
first_page = record {
  entries = record { message = plan; attachments = plan_file ∷ [] } ∷ [];
  next_cursor = some (strokes 20);
  has_more = true;
}

found_first_page : find_messages database strokes "books" none 1 store ≡ ok first_page
unfolding find_messages page_rows is_listed with_files is_file_of
found_first_page = refl

next_cursor-cursor_date_example :
    (v : MessageView) × (last first_page.entries ≡ some v)
    × (cursor_date stroke_dates first_page.next_cursor ≡ ok (some v.message.created_at))
next_cursor-cursor_date_example =
    next_cursor-cursor_date database stroke_dates store "books" none 1 first_page (omega arith)
      found_first_page refl

-- A chat that is gone, whose members are still there.
abbrev orphaned : MessageStore (Unit {0}) (Unit {0})
orphaned = record store { chats = [] }

abbrev plan_again : SendMessageInput
plan_again = record {
  chat_id = "books";
  sender_id = "ann";
  content = none;
  files = record { original_name = "plan.pdf"; mime_type = "application/pdf" } ∷ [];
  status = none;
  type = none;
}

send_run :
    send_message database quiet "tp" no_cache (λ a. "f2") "m3" 40 plan_again orphaned
    ≡ (err (prisma "P2025"), orphaned)
unfolding send_message find_chat_member is_member_row upload_files with_storage upload
    resolve_file_storage_info resolve_file_upload_config client_upload upload_each upload_single
    construct_file_path resolve_resource_type starts_with attachment_of resolve_file_type
    new_message_of resolve_message_type create_message insert_message message_row file_rows is_chat
    cleanup delete cloudinary_keys resolve_storage_by_path is_blank_key client_delete
send_run = refl

send_message-err_example :
    (orphaned.messages ≡ orphaned.messages)
    × (orphaned.files ≡ orphaned.files)
    × (orphaned.sent ≡ orphaned.sent)
send_message-err_example =
    send_message-err database quiet "tp" no_cache orphaned (λ a. "f2") "m3" 40 plan_again
      (prisma "P2025") orphaned send_run
