-- ===== src/Chat/Privates.antt =====
-- Opening private chats: `createPrivateChat` of modules/chat/services/chat.service.ts under src, and which
-- users the private chats join.
use text.Mathlib.Text.{◌==◌}
use trust_post.Common.{
  ◌≡◌, sym, subst, ℕ, String, Bool, false, ◌&&◌, List, [], ◌∷◌, ◌++◌, Bool-cases, Option-cases, inl,
  inr, arith, eq_iff, All, any,
}
use trust_post.Common.Text.{codes, codes_less}
use trust_post.Actions.{reply-cases}
use trust_post.Chat.{
  PrivateChat, ChatMember, ChatCache, ChatStore, ChatDatabase, CreatePrivateChatInput, is_between,
  normalize_private_pair, find_private_chat_between_users, create_private_chat, add_chat_member,
  find_chat_with_members,
}
use trust_post.Chat.Service.{
  get_chat, announce, open_private_chat, invalidate_user_chats_cache, emit_chat_upserted,
}

-- No chat is with oneself, and no two are between the same users.
abbrev pub IsApart : List PrivateChat → Type 0
IsApart [] = Unit
IsApart (p ∷ rows) =
    ((p.user1_id == p.user2_id) ≡ false)
    × All (λ q. is_between p.user1_id p.user2_id q ≡ false) rows
    × IsApart rows

-- The row of a new private chat.
abbrev new_row : String → String → String → PrivateChat
new_row id a b =
    let pair = normalize_private_pair a b in
    record { chat_id = id; user1_id = pair.0; user2_id = pair.1 }

module _ (id a b : String) where
  between_new :
      (p : PrivateChat)
      → is_between a b p ≡ false
      → is_between p.user1_id p.user2_id (new_row id a b) ≡ false
  unfolding is_between normalize_private_pair
  between_new p h = elim (Bool-cases (codes_less (codes a) (codes b))) [
    | inl less ↦ rw less (
        ground (
          arith,
          h,
          eq_iff p.user1_id a,
          eq_iff p.user2_id b,
          eq_iff p.user1_id b,
          eq_iff p.user2_id a,
          eq_iff a p.user1_id,
          eq_iff b p.user2_id,
          eq_iff b p.user1_id,
          eq_iff a p.user2_id,
        ))
    | inr more ↦ rw more (
        ground (
          arith,
          h,
          eq_iff p.user1_id a,
          eq_iff p.user2_id b,
          eq_iff p.user1_id b,
          eq_iff p.user2_id a,
          eq_iff a p.user1_id,
          eq_iff b p.user2_id,
          eq_iff b p.user1_id,
          eq_iff a p.user2_id,
        ))
  ]

  new_not_self : (a == b) ≡ false → ((new_row id a b).user1_id == (new_row id a b).user2_id) ≡ false
  unfolding normalize_private_pair
  new_not_self h = elim (Bool-cases (codes_less (codes a) (codes b))) [
    | inl less ↦ rw less h
    | inr more ↦ rw more (ground (arith, h, eq_iff a b, eq_iff b a))
  ]

  append-All :
      (P : PrivateChat → Type 0) (rows : List PrivateChat) (p : PrivateChat)
      → All P rows
      → P p
      → All P (rows ++ p ∷ [])
  append-All P [] p h x = (x, tt)
  append-All P (q ∷ rows) p (y, h) x = (y, append-All P rows p h x)

  append-IsApart :
      (rows : List PrivateChat)
      → (a == b) ≡ false
      → All (λ p. is_between a b p ≡ false) rows
      → IsApart rows
      → IsApart (rows ++ new_row id a b ∷ [])
  append-IsApart [] other free h = (new_not_self other, tt, tt)
  append-IsApart (p ∷ rows) other (free_p, free) (self, others, h) = (
    self,
    append-All (λ q. is_between p.user1_id p.user2_id q ≡ false) rows (new_row id a b) others
        (between_new p free_p),
    append-IsApart rows other free h,
  )

module _ {C : Type 0} (db : ChatDatabase) (cache : ChatCache C) where
  get_chat-privates :
      (now : ℕ) (chat user : String) (s : ChatStore C)
      → (get_chat db cache now chat user s).1.privates ≡ s.privates
  unfolding get_chat
  get_chat-privates now chat user s = elim (Option-cases (cache.read_chat chat user now s.cache)) [
    | inr (view, hit) ↦ rw (get_chat, hit)
    | inl miss ↦ elim (Option-cases (find_chat_with_members db chat s)) [
      | inl missing ↦ rw (get_chat, miss, missing)
      | inr (view, found) ↦
          elim (Bool-cases (any (λ (m : ChatMember). m.user_id == user) view.members)) [
            | inl inside ↦ rw (get_chat, miss, found, inside)
            | inr outside ↦ rw (get_chat, miss, found, outside)
          ]
    ]
  ]

  announce-privates :
      (now : ℕ) (ids : List String) (chat user : String) (s : ChatStore C)
      → (announce db cache now ids chat user s).1.privates ≡ s.privates
  unfolding announce invalidate_user_chats_cache emit_chat_upserted
  announce-privates now ids chat user s =
      let t = invalidate_user_chats_cache db cache ids s in
      let same = get_chat-privates now chat user t in
      elim (reply-cases (get_chat db cache now chat user t)) [
        | inl (view, u, e) ↦ rw e (rw e at same)
        | inr (f, u, e) ↦ rw e (rw e at same)
      ]

  -- Where the chat is new, the answer's failure still leaves its row in the table.
  create-IsApart :
      (id : String) (input : CreatePrivateChatInput) (s : ChatStore C)
      → (input.user_id == input.other_user_id) ≡ false
      → All (λ p. is_between input.user_id input.other_user_id p ≡ false) s.privates
      → IsApart s.privates
      → IsApart (create_private_chat db id input s).1.privates
  unfolding create_private_chat
  create-IsApart id input s other free h = elim (Bool-cases taken) [
    | inl yes_taken ↦ rw (create_private_chat, yes_taken) h
    | inr not_taken ↦
        rw
          (
            create_private_chat,
            not_taken,
            db.private_chat.create_lem (new_row id input.user_id input.other_user_id) s.privates,
          )
          (append-IsApart id input.user_id input.other_user_id s.privates other free h)
  ]
    where
      taken : Bool
      taken =
          any
            (λ (p : PrivateChat).
              p.user1_id == (new_row id input.user_id input.other_user_id).user1_id
              && p.user2_id == (new_row id input.user_id input.other_user_id).user2_id)
            s.privates

  -- createPrivateChat, whatever it answers, keeps apart the private chats: no private chat is with
  -- oneself, and between two users, in whichever order, there is at most one.
  pub open_private_chat-IsApart :
      (now : ℕ) (id : String) (input : CreatePrivateChatInput) (s : ChatStore C)
      → IsApart s.privates
      → IsApart (open_private_chat db cache now id input s).1.privates
  unfolding open_private_chat find_private_chat_between_users add_chat_member
  open_private_chat-IsApart now id input s h =
      elim (Bool-cases (input.user_id == input.other_user_id)) [
        | inl self ↦ rw self h
        | inr other ↦
            elim (Option-cases
              (find_private_chat_between_users db input.user_id input.other_user_id s)) [
                | inr (row, found) ↦
                    rw (other, found)
                      (subst IsApart
                        (sym (
                          announce-privates now (input.user_id ∷ input.other_user_id ∷ [])
                            row.chat_id input.user_id _))
                        h)
                | inl missing ↦
                    let kept =
                      create-IsApart id input s other
                        (db.private_chat.find_first-none _ s.privates missing) h in
                    elim (reply-cases (create_private_chat db id input s)) [
                      | inr (f, t, e) ↦ rw (other, missing, e) (rw e at kept)
                      | inl (row, t, e) ↦
                          rw (other, missing, e)
                            (subst IsApart
                              (sym (
                                announce-privates now (input.user_id ∷ input.other_user_id ∷ [])
                                  row.id input.user_id t))
                              (rw e at kept))
                    ]
              ]
      ]
