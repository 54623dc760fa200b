-- ===== src/Chat/Service.antt =====
-- modules/chat/services/chat.service.ts under src. Log lines are left out. The list of a user's
-- chats only reads. An operation that ends in `getChat` reads the clock there: the number `now`, in milliseconds.
use text.Mathlib.Text.{◌==◌}
use trust_post.Common.{
  ℕ, String, Bool, true, false, not, ◌&&◌, none, some, List, [], ◌∷◌, ◌++◌, ◌+◌, ◌*◌, map, filter,
  any, if◌then◌else◌, is_some,
}
use trust_post.Common.Text.{codes, trim, to_lower_case}
use trust_post.Common.Sets.{unique}
use trust_post.Errors.{bad_request, forbidden, not_found, ok}
use trust_post.Actions.{Action, pure, modify, guard, require, ◌>>=◌, ◌>>◌}
use trust_post.Chat.{
  ChatType, ChatMember, ChatView, ChatCache, ChatStore, ChatDatabase, CreatePrivateChatInput,
  CreateGroupChatInput, find_private_chat_between_users, create_private_chat, create_group_chat,
  all_participants, find_post_by_id, find_chat_by_post_id, create_post_chat, find_chat_by_id,
  find_user_by_email, find_chat_member, add_chat_member, remove_chat_member,
  soft_delete_chat_member, find_chat_with_members,
}

-- `text.trim().length === 0`
abbrev is_blank : List ℕ → Bool
is_blank text = elim text [ [] ↦ true | c ∷ rest ↦ false ]

abbrev pub is_private : ChatType → Bool
is_private ChatType.private = true
is_private _ = false

-- The user ids of rows of members.
abbrev pub user_ids : List ChatMember → List String
user_ids members = map (λ (m : ChatMember). m.user_id) members

-- `CHAT_CACHE_TTL_SECONDS`, in milliseconds.
abbrev pub chat_cache_ttl : ℕ
chat_cache_ttl = 30 * 1000

module _ {C : Type 0} (db : ChatDatabase) (cache : ChatCache C) where
  -- The truthy ids, once each.
  unfoldable pub invalidate_user_chats_cache : List String → ChatStore C → ChatStore C
  invalidate_user_chats_cache ids s = record s {
    cache = cache.drop_lists (unique (filter (λ id. not (id == "")) ids)) s.cache;
  }

  unfoldable pub emit_chat_upserted : ChatView → ChatStore C → ChatStore C
  emit_chat_upserted chat s = record s {
    sent = s.sent ++ map (λ id. (id, chat)) (unique (user_ids chat.members));
  }

  unfoldable pub get_chat : ℕ → String → String → Action (ChatStore C) ChatView
  get_chat now chat_id user_id s = elim (cache.read_chat chat_id user_id now s.cache) [
    | some cached ↦ (ok cached, s)
    | none ↦
        (do
          chat ← require (find_chat_with_members db chat_id s) (not_found "Chat not found")
          guard (any (λ (m : ChatMember). m.user_id == user_id) chat.members)
              (forbidden "You are not a member of this chat")
          modify (λ t. record t {
            cache = cache.write_chat chat_id user_id (now + chat_cache_ttl) chat t.cache;
          })
          pure chat)
          s
  ]

  -- The end of every operation that answers with a chat.
  unfoldable pub announce : ℕ → List String → String → String → Action (ChatStore C) ChatView
  unfolding invalidate_user_chats_cache get_chat emit_chat_upserted
  announce now ids chat_id user_id = do
    modify (invalidate_user_chats_cache ids)
    full_chat ← get_chat now chat_id user_id
    modify (emit_chat_upserted full_chat)
    pure full_chat

  -- `createPrivateChat` of the service; the existing chat gets both memberships back.
  unfoldable pub open_private_chat :
      ℕ → String → CreatePrivateChatInput → Action (ChatStore C) ChatView
  unfolding announce
  open_private_chat now new_id input s =
      (do
        guard (not (input.user_id == input.other_user_id))
            (bad_request "Cannot create private chat with yourself")
        elim (find_private_chat_between_users db input.user_id input.other_user_id s) [
          | some existing ↦ do
            modify (add_chat_member db existing.chat_id input.user_id)
            modify (add_chat_member db existing.chat_id input.other_user_id)
            announce now (input.user_id ∷ input.other_user_id ∷ []) existing.chat_id input.user_id
          | none ↦ do
            chat ← create_private_chat db new_id input
            announce now (input.user_id ∷ input.other_user_id ∷ []) chat.id input.user_id
        ])
        s

  -- `createGroupChat` of the service.
  unfoldable pub open_group_chat : ℕ → String → CreateGroupChatInput → Action (ChatStore C) ChatView
  unfolding announce
  open_group_chat now new_id input = do
    guard (not (is_blank (trim (codes input.title)))) (bad_request "Group chat title is required")
    chat ← create_group_chat db new_id input
    announce now (all_participants input) chat.id input.creator_id

  unfoldable pub add_member_by_email : ℕ → String → String → String → Action (ChatStore C) ChatView
  unfolding announce
  add_member_by_email now chat_id requester_id email s =
      (do
        let normalized_email = to_lower_case (trim (codes email))
        guard (not (is_blank normalized_email)) (bad_request "Email is required")
        chat ← require (find_chat_by_id db chat_id s) (not_found "Chat not found")
        guard (not (is_private chat.type)) (bad_request "Cannot add members to private chat")
        guard (is_some (find_chat_member db chat_id requester_id s))
            (forbidden "You are not a member of this chat")
        user ←
            require (find_user_by_email db normalized_email s)
              (bad_request "User with verified email not found")
        guard (user.is_email_verified && user.is_active)
            (bad_request "User with verified email not found")
        guard (not (is_some (find_chat_member db chat_id user.id s)))
            (bad_request "User is already a member of this chat")
        modify (add_chat_member db chat_id user.id)
        announce now (requester_id ∷ user.id ∷ []) chat_id requester_id)
        s

  -- `if (!isMember) addChatMember`
  abbrev add_if_missing : String → String → ChatStore C → ChatStore C
  add_if_missing chat_id user_id s =
      if is_some (find_chat_member db chat_id user_id s)
      then s
      else add_chat_member db chat_id user_id s

  -- `createPostChat` of the service; the chat's own members, deleted ones too, lose their cached lists.
  unfoldable pub open_post_chat : ℕ → String → ℕ → String → Action (ChatStore C) ChatView
  unfolding announce
  open_post_chat now new_id post_id creator_id s =
      (do
        post ← require (find_post_by_id db post_id s) (not_found "Post not found")
        elim (find_chat_by_post_id db post_id s) [
          | some existing ↦ do
            modify (add_if_missing existing.id creator_id)
            announce now
                (creator_id
                  ∷ user_ids (db.chat_member.find_many (λ m. m.chat_id == existing.id) s.members))
                existing.id creator_id
          | none ↦ do
            chat ← create_post_chat db new_id post_id post.author_id
            modify (λ t.
                if creator_id == post.author_id then t else add_chat_member db chat.id creator_id t)
            announce now (creator_id ∷ post.author_id ∷ []) chat.id creator_id
        ])
        s

  unfoldable pub join_chat : String → String → Action (ChatStore C) String
  unfolding invalidate_user_chats_cache
  join_chat chat_id user_id s =
      (do
        chat ← require (find_chat_by_id db chat_id s) (not_found "Chat not found")
        guard (not (is_private chat.type)) (bad_request "Cannot join private chat")
        guard (not (is_some (find_chat_member db chat_id user_id s)))
            (bad_request "Already a member of this chat")
        modify (add_chat_member db chat_id user_id)
        modify (invalidate_user_chats_cache (user_id ∷ []))
        pure "Successfully joined the chat")
        s

  unfoldable pub leave_chat : String → String → Action (ChatStore C) String
  unfolding invalidate_user_chats_cache
  leave_chat chat_id user_id s =
      (do
        guard (is_some (find_chat_member db chat_id user_id s))
            (not_found "You are not a member of this chat")
        remove_chat_member db chat_id user_id
        modify (invalidate_user_chats_cache (user_id ∷ []))
        pure "Successfully left the chat")
        s

  unfoldable pub delete_chat_for_user : ℕ → String → String → Action (ChatStore C) String
  unfolding invalidate_user_chats_cache
  delete_chat_for_user now chat_id user_id s =
      (do
        guard (is_some (find_chat_member db chat_id user_id s))
            (not_found "You are not a member of this chat")
        soft_delete_chat_member db now chat_id user_id
        modify (invalidate_user_chats_cache (user_id ∷ []))
        pure "Chat deleted successfully")
        s

  unfoldable pub mark_chat_as_read : String → String → Action (ChatStore C) String
  mark_chat_as_read chat_id user_id s =
      (do
        guard (is_some (find_chat_member db chat_id user_id s))
            (not_found "You are not a member of this chat")
        pure "Chat marked as read")
        s
