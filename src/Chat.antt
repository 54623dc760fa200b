-- ===== src/Chat.antt =====
-- modules/chat under src: chats, their members and the cache of chats. Here are the rows and the
-- queries of repos/chat.repo.ts; the children model services/chat.service.ts and prove what it
-- keeps. The id of a new row and the clock are arguments. The columns that only the list of chats shows
-- (times, pictures) are left out, and so are foreign keys: a user id is one that exists.
pub mod Service
pub mod Members
pub mod Refinement
pub mod Privates
pub mod Staleness
mod Tests
use text.Mathlib.Text.{◌==◌}
use trust_post.Common.{
  ◌≡◌, ℕ, String, Bool, true, false, not, ◌&&◌, ◌||◌, Option, none, some, List, [], ◌∷◌, ◌++◌, map,
  filter, any, ltb, nat_eq, if◌then◌else◌,
}
use trust_post.Common.Text.{◌<>◌, codes, codes_eq, codes_less, show_nat}
use trust_post.Common.Sets.{unique}
use trust_post.Errors.{prisma, Result, ok, err}
use trust_post.Actions.{Action}
use trust_post.Prisma.{Table}

pub data ChatType : Type 0 where
  private group post : ChatType

pub record ChatRow : Type 0 where
  pub id : String
  pub type : ChatType
  pub title : Option String
  pub post_id : Option ℕ

pub record ChatMember : Type 0 where
  pub chat_id : String
  pub user_id : String
  pub is_delete : Bool
  pub deleted_at : Option ℕ

pub record PrivateChat : Type 0 where
  pub chat_id : String
  pub user1_id : String
  pub user2_id : String

-- The columns of a user and of a post that the chats read.
pub record ChatUser : Type 0 where
  pub id : String
  pub email : String
  pub is_email_verified : Bool
  pub is_active : Bool

pub record ChatPost : Type 0 where
  pub id : ℕ
  pub author_id : String

-- A chat with its members that are not deleted, and its row of a private chat.
pub record ChatView : Type 0 where
  pub chat : ChatRow
  pub members : List ChatMember
  pub private_chat : Option PrivateChat

-- The cache in Redis, reached by the ioredis package, as the service uses it: the entries of single chats, by
-- chat and user, and the deletion of the entries of the users' lists of chats. A read has the time of the
-- clock in milliseconds, and a write the time at which its entry ends. A call that fails is caught: it reads nothing or changes nothing.
pub record ChatCache (C : Type 0) : Type 0 where
  pub read_chat : String → String → ℕ → C → Option ChatView
  pub write_chat : String → String → ℕ → ChatView → C → C
  pub drop_lists : List String → C → C
  -- The pattern `cache:chat:user-chats:*` fits no key `cache:chat:chat-by-id:…`.
  pub read_chat-drop_lists :
      (chat user : String) (now : ℕ) (users : List String) (c : C)
      → read_chat chat user now (drop_lists users c) ≡ read_chat chat user now c

-- A cache that no call fails on: what was written for a key is read until its entry ends (`SET … EX`).
pub record IsUp {C : Type 0} (cache : ChatCache C) : Type 0 where
  pub read_chat-write_chat :
      (chat user : String) (now end : ℕ) (view : ChatView) (c : C)
      → cache.read_chat chat user now (cache.write_chat chat user end view c)
        ≡ (if ltb now end then some view else none)

-- The tables, the cache, and what was sent to the sockets of users.
pub record ChatStore (C : Type 0) : Type 0 where
  pub chats : List ChatRow
  pub members : List ChatMember
  pub privates : List PrivateChat
  pub users : List ChatUser
  pub posts : List ChatPost
  pub cache : C
  pub sent : List (String × ChatView)

pub record ChatDatabase : Type 0 where
  pub chat : Table ChatRow
  pub chat_member : Table ChatMember
  pub private_chat : Table PrivateChat
  pub user : Table ChatUser
  pub post : Table ChatPost

pub record CreatePrivateChatInput : Type 0 where
  pub user_id : String
  pub other_user_id : String

pub record CreateGroupChatInput : Type 0 where
  pub title : String
  pub creator_id : String
  pub participant_ids : Option (List String)

-- `userId < otherUserId` on strings, which compares them from the left.
unfoldable pub normalize_private_pair : String → String → String × String
normalize_private_pair user_id other_user_id =
    if codes_less (codes user_id) (codes other_user_id)
    then (user_id, other_user_id)
    else (other_user_id, user_id)

unfoldable pub is_chat : String → ChatRow → Bool
is_chat id c = c.id == id

-- `where: { chatId_userId: { chatId, userId } }`
unfoldable pub is_member_row : String → String → ChatMember → Bool
is_member_row chat_id user_id m = m.chat_id == chat_id && m.user_id == user_id

-- `where: { chatId, userId, isDelete: false }`
unfoldable pub is_active_member : String → String → ChatMember → Bool
unfolding is_member_row
is_active_member chat_id user_id m = is_member_row chat_id user_id m && not m.is_delete

-- The pair in either order.
unfoldable pub is_between : String → String → PrivateChat → Bool
is_between a b p = (p.user1_id == a && p.user2_id == b) || (p.user1_id == b && p.user2_id == a)

-- A row that `createMany` makes for a new chat.
unfoldable pub new_member : String → String → ChatMember
new_member chat_id user_id = record {
  chat_id = chat_id;
  user_id = user_id;
  is_delete = false;
  deleted_at = none;
}

unfoldable pub new_members : String → List String → List ChatMember
unfolding new_member
new_members chat_id [] = []
new_members chat_id (u ∷ us) = new_member chat_id u ∷ new_members chat_id us

-- `data` of the upsert's update and of the soft deletion.
unfoldable pub restored : ChatMember → ChatMember
restored m = record m { is_delete = false; deleted_at = none }

unfoldable pub hidden : ℕ → ChatMember → ChatMember
hidden now m = record m { is_delete = true; deleted_at = some now }

-- `Array.from(new Set([creatorId, ...(participantIds ?? [])]))`
abbrev pub all_participants : CreateGroupChatInput → List String
all_participants input = elim input.participant_ids [
  | none ↦ unique (input.creator_id ∷ [])
  | some ids ↦ unique (input.creator_id ∷ ids)
]

-- `where: { postId }`; a null equals no id.
abbrev pub is_chat_of : ℕ → ChatRow → Bool
is_chat_of post_id c = elim c.post_id [ none ↦ false | some id ↦ nat_eq id post_id ]

module _ {C : Type 0} (db : ChatDatabase) where
  unfoldable pub find_private_chat_between_users :
      String → String → ChatStore C → Option PrivateChat
  unfolding is_between
  find_private_chat_between_users user_id other s =
      db.private_chat.find_first (is_between user_id other) s.privates

  -- `chat.create` with the row of a private chat: a second row with the pair violates its unique constraint.
  unfoldable pub create_private_chat :
      String → CreatePrivateChatInput → Action (ChatStore C) ChatRow
  unfolding normalize_private_pair new_members
  create_private_chat id input s =
      let pair = normalize_private_pair input.user_id input.other_user_id in
      let chat : ChatRow = record {
        id = id;
        type = ChatType.private;
        title = none;
        post_id = none;
      } in
      if any (λ (p : PrivateChat). p.user1_id == pair.0 && p.user2_id == pair.1) s.privates
      then (err (prisma "P2002"), s)
      else (
        ok chat,
        record s {
          chats = db.chat.create chat s.chats;
          privates =
              db.private_chat.create (record { chat_id = id; user1_id = pair.0; user2_id = pair.1 })
                s.privates;
          members = s.members ++ new_members id (input.user_id ∷ input.other_user_id ∷ []);
        },
      )

  unfoldable pub create_group_chat : String → CreateGroupChatInput → Action (ChatStore C) ChatRow
  unfolding new_members
  create_group_chat id input s =
      let chat : ChatRow = record {
        id = id;
        type = ChatType.group;
        title = some input.title;
        post_id = none;
      } in
      (
        ok chat,
        record s {
          chats = db.chat.create chat s.chats;
          members = s.members ++ new_members id (all_participants input);
        },
      )

  unfoldable pub find_post_by_id : ℕ → ChatStore C → Option ChatPost
  find_post_by_id id s = db.post.find_first (λ p. nat_eq p.id id) s.posts

  unfoldable pub find_chat_by_post_id : ℕ → ChatStore C → Option ChatRow
  find_chat_by_post_id post_id s = db.chat.find_first (is_chat_of post_id) s.chats

  -- A second chat of the post violates `@@unique([postId])`.
  unfoldable pub create_post_chat : String → ℕ → String → Action (ChatStore C) ChatRow
  unfolding new_members
  create_post_chat id post_id author_id s =
      let chat : ChatRow = record {
        id = id;
        type = ChatType.post;
        title = some ("Post #" <> show_nat post_id <> " Chat");
        post_id = some post_id;
      } in
      if any (is_chat_of post_id) s.chats then (err (prisma "P2002"), s) else (
        ok chat,
        record s {
          chats = db.chat.create chat s.chats;
          members = s.members ++ new_members id (author_id ∷ []);
        },
      )

  unfoldable pub find_chat_by_id : String → ChatStore C → Option ChatRow
  unfolding is_chat
  find_chat_by_id id s = db.chat.find_first (is_chat id) s.chats

  unfoldable pub find_user_by_email : List ℕ → ChatStore C → Option ChatUser
  find_user_by_email email s = db.user.find_first (λ u. codes_eq (codes u.email) email) s.users

  unfoldable pub find_chat_member : String → String → ChatStore C → Option ChatMember
  unfolding is_active_member
  find_chat_member chat_id user_id s =
      db.chat_member.find_first (is_active_member chat_id user_id) s.members

  unfoldable pub add_chat_member : String → String → ChatStore C → ChatStore C
  unfolding is_member_row restored new_member
  add_chat_member chat_id user_id s = record s {
    members =
        db.chat_member.upsert (is_member_row chat_id user_id) restored (new_member chat_id user_id)
          s.members;
  }

  unfoldable pub remove_chat_member : String → String → Action (ChatStore C) (Unit {0})
  unfolding is_member_row
  remove_chat_member chat_id user_id s =
      elim (db.chat_member.delete (is_member_row chat_id user_id) s.members) [
        | none ↦ (err (prisma "P2025"), s)
        | some members ↦ (ok tt, record s { members = members })
      ]

  unfoldable pub soft_delete_chat_member : ℕ → String → String → Action (ChatStore C) (Unit {0})
  unfolding is_member_row hidden
  soft_delete_chat_member now chat_id user_id s =
      elim (db.chat_member.update (is_member_row chat_id user_id) (hidden now) s.members) [
        | none ↦ (err (prisma "P2025"), s)
        | some members ↦ (ok tt, record s { members = members })
      ]

  -- The members of the chat that are not deleted.
  unfoldable pub find_chat_with_members : String → ChatStore C → Option ChatView
  unfolding is_chat
  find_chat_with_members chat_id s = elim (db.chat.find_first (is_chat chat_id) s.chats) [
    | none ↦ none
    | some chat ↦ some (record {
      chat = chat;
      members = db.chat_member.find_many (λ m. m.chat_id == chat_id && not m.is_delete) s.members;
      private_chat = db.private_chat.find_first (λ p. p.chat_id == chat_id) s.privates;
    })
  ]
