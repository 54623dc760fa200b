-- ===== src/Chat/Tests.antt =====
-- The theorems of the chats at a concrete store and cache.
use text.Mathlib.Text.{◌==◌}
use text.Mathlib.TextPositions.{eq_refl}
use trust_post.Common.{
  ◌≡◌, refl, ℕ, ltb, String, false, not, ◌&&◌, Option, none, some, List, [], ◌∷◌, filter,
  if◌then◌else◌,
}
use trust_post.Common.Sets.{is_among}
use trust_post.Errors.{ok}
use trust_post.Prisma.ListTable.{list_table}
use trust_post.Chat.{
  ChatType, ChatRow, ChatMember, PrivateChat, ChatView, ChatCache, ChatStore, ChatDatabase,
  is_between, is_chat, find_chat_with_members, IsUp,
}
use trust_post.Chat.Service.{get_chat, open_private_chat}
use trust_post.Chat.Members.{is_member}
use trust_post.Chat.Refinement.{
  join, leave, hide, perform, perform_all, perform_all_refines, shows, replay, is_joinable,
}
use trust_post.Chat.Privates.{IsApart, open_private_chat-IsApart}
use trust_post.Chat.Staleness.{left_still_reads}

abbrev database : ChatDatabase
database = record {
  chat = list_table;
  chat_member = list_table;
  private_chat = list_table;
  user = list_table;
  post = list_table;
}

-- The entries of single chats with the times they end, and the users whose list is cached.
record Entries : Type 0 where
  views : List (String × String × ℕ × ChatView)
  lists : List String

abbrev find_view : String → String → ℕ → List (String × String × ℕ × ChatView) → Option ChatView
find_view chat user now [] = none
find_view chat user now ((c, u, end, view) ∷ rest) =
    let later = find_view chat user now rest in
    if c == chat && u == user then (if ltb now end then some view else none) else later

abbrev entries_cache : ChatCache Entries
entries_cache = record {
  read_chat = λ chat user now c. find_view chat user now c.views;
  write_chat = λ chat user end view c. record c { views = (chat, user, end, view) ∷ c.views };
  drop_lists = λ ids c. record c { lists = filter (λ id. not (is_among id ids)) c.lists };
  read_chat-drop_lists = λ chat user now ids c. refl;
}

entries_cache-IsUp : IsUp entries_cache
entries_cache-IsUp = record {
  read_chat-write_chat = λ chat user now end view c. rw (eq_refl chat, eq_refl user);
}

abbrev books : ChatRow
books = record { id = "books"; type = ChatType.group; title = some "Books"; post_id = none }

abbrev ann_in_books : ChatMember
ann_in_books = record { chat_id = "books"; user_id = "ann"; is_delete = false; deleted_at = none }

abbrev view_of_books : ChatView
view_of_books = record { chat = books; members = ann_in_books ∷ []; private_chat = none }

abbrev ann_and_bob : PrivateChat
ann_and_bob = record { chat_id = "ab"; user1_id = "ann"; user2_id = "bob" }

abbrev store : ChatStore Entries
store = record {
  chats = books ∷ [];
  members = ann_in_books ∷ [];
  privates = ann_and_bob ∷ [];
  users = [];
  posts = [];
  cache = record { views = []; lists = "ann" ∷ [] };
  sent = [];
}

store-IsApart : IsApart store.privates
unfolding is_between
store-IsApart = (refl, tt, tt)

open_private_chat-IsApart_example :
    IsApart
      (open_private_chat database entries_cache 1000 "new"
        (record { user_id = "cid"; other_user_id = "ann" })
        store).1.privates
open_private_chat-IsApart_example =
    open_private_chat-IsApart database entries_cache 1000 "new"
      (record { user_id = "cid"; other_user_id = "ann" }) store store-IsApart

perform_all_refines_example :
    shows database entries_cache (
      perform_all database entries_cache
        (join "books" "bob" ∷ leave "books" "ann" ∷ hide 7 "books" "bob" ∷ [])
        store)
    ≡ replay
        (is_joinable database entries_cache store.chats)
        (join "books" "bob" ∷ leave "books" "ann" ∷ hide 7 "books" "bob" ∷ [])
        (shows database entries_cache store)
perform_all_refines_example =
    perform_all_refines database entries_cache
      (join "books" "bob" ∷ leave "books" "ann" ∷ hide 7 "books" "bob" ∷ []) store

-- The store after the user has read the chat at the time 1000.
abbrev read_store : ChatStore Entries
read_store = record store {
  cache = record { views = ("books", "ann", 31000, view_of_books) ∷ []; lists = "ann" ∷ [] };
}

books_read :
    get_chat database entries_cache 1000 "books" "ann" store ≡ (ok view_of_books, read_store)
unfolding get_chat find_chat_with_members is_chat
books_read = refl

left_still_reads_example :
    (is_member
        (perform database entries_cache
          (leave "books" "ann")
          (perform_all database entries_cache (join "books" "bob" ∷ []) read_store)).members
        "books"
        "ann"
      ≡ false)
    × (get_chat database entries_cache 20000 "books" "ann" (
          perform database entries_cache
            (leave "books" "ann")
            (perform_all database entries_cache (join "books" "bob" ∷ []) read_store))
        ≡ (
          ok view_of_books,
          perform database entries_cache
              (leave "books" "ann")
              (perform_all database entries_cache (join "books" "bob" ∷ []) read_store),
        ))
left_still_reads_example =
    left_still_reads database entries_cache "books" "ann" 1000 20000 (join "books" "bob" ∷ []) store
      read_store view_of_books entries_cache-IsUp refl books_read
