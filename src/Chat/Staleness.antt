-- ===== src/Chat/Staleness.antt =====
-- What the cache of single chats (`getChat` of modules/chat/services/chat.service.ts under src) shows after
-- a membership has ended.
use text.Mathlib.Text.{◌==◌}
use text.Mathlib.TextPositions.{eq_refl}
use trust_post.Common.{
  ◌≡◌, refl, arith, ◌+◌, ap, not, ◌&&◌, any, filter, none, ltb, if◌then◌else◌, sym, ◌∙◌, String,
  false, Option, some, List, [], ◌∷◌, is_some, Bool-cases, Option-cases, inl, inr, ℕ,
}
use trust_post.Errors.{Failure, forbidden, Result, ok, err, ok-injective}
use trust_post.Chat.{
  ChatRow, ChatMember, ChatView, ChatCache, ChatStore, IsUp, is_active_member,
  find_chat_with_members, ChatDatabase, is_chat, is_member_row, hidden, find_chat_by_id,
  find_chat_member, add_chat_member, remove_chat_member, soft_delete_chat_member,
}
use trust_post.Chat.Service.{
  is_private, chat_cache_ttl, get_chat, join_chat, leave_chat, delete_chat_for_user,
  invalidate_user_chats_cache,
}
use trust_post.Chat.Members.{is_member}
use trust_post.Chat.Refinement.{
  Command, join, leave, hide, perform, perform_all, perform_chats, perform_refines,
}

module _ {C : Type 0} (db : ChatDatabase) (cache : ChatCache C) (now : ℕ) (c u : String) where
  -- The cached view of a chat for a user at a time.
  cached : ChatStore C → Option ChatView
  cached s = cache.read_chat c u now s.cache

  invalidate-cached :
      (ids : List String) (s : ChatStore C)
      → cached (invalidate_user_chats_cache db cache ids s) ≡ cached s
  unfolding cached invalidate_user_chats_cache
  invalidate-cached ids s = cache.read_chat-drop_lists c u now _ s.cache

  add-cached :
      (chat user : String) (s : ChatStore C) → cached (add_chat_member db chat user s) ≡ cached s
  unfolding cached add_chat_member
  add-cached chat user s = refl

  join-cached :
      (chat user : String) (s : ChatStore C) → cached (join_chat db cache chat user s).1 ≡ cached s
  unfolding join_chat find_chat_by_id
  join-cached chat user s = elim (Option-cases (db.chat.find_first (is_chat chat) s.chats)) [
    | inl missing ↦ rw missing
    | inr (row, found) ↦ elim (Bool-cases (is_private row.type)) [
      | inl closed ↦ rw (found, closed)
      | inr open_to_all ↦ elim (Bool-cases (is_some (find_chat_member db chat user s))) [
        | inl old ↦ rw (found, open_to_all, old)
        | inr new ↦
            rw (found, open_to_all, new)
              (invalidate-cached (user ∷ []) (add_chat_member db chat user s)
                ∙ add-cached chat user s)
      ]
    ]
  ]

  leave-cached :
      (chat user : String) (s : ChatStore C) → cached (leave_chat db cache chat user s).1 ≡ cached s
  unfolding leave_chat remove_chat_member
  leave-cached chat user s = elim (Bool-cases (is_some (find_chat_member db chat user s))) [
    | inr missing ↦ rw missing
    | inl there ↦ elim (Option-cases (db.chat_member.delete (is_member_row chat user) s.members)) [
      | inl gone ↦ rw (there, remove_chat_member, gone)
      | inr (rows, found) ↦
          rw (there, remove_chat_member, found)
            (invalidate-cached (user ∷ []) (record s { members = rows }) ∙ same_cache rows)
    ]
  ]
    where
      same_cache : (rows : List ChatMember) → cached (record s { members = rows }) ≡ cached s
      same_cache rows = unfold cached in refl

  hide-cached :
      (at : ℕ) (chat user : String) (s : ChatStore C)
      → cached (delete_chat_for_user db cache at chat user s).1 ≡ cached s
  unfolding delete_chat_for_user soft_delete_chat_member
  hide-cached at chat user s = elim (Bool-cases (is_some (find_chat_member db chat user s))) [
    | inr missing ↦ rw missing
    | inl there ↦
        elim (Option-cases
          (db.chat_member.update (is_member_row chat user) (hidden at) s.members)) [
            | inl gone ↦ rw (there, soft_delete_chat_member, gone)
            | inr (rows, found) ↦
                rw (there, soft_delete_chat_member, found)
                  (invalidate-cached (user ∷ []) (record s { members = rows }) ∙ same_cache rows)
          ]
  ]
    where
      same_cache : (rows : List ChatMember) → cached (record s { members = rows }) ≡ cached s
      same_cache rows = unfold cached in refl

  perform-cached : (k : Command) (s : ChatStore C) → cached (perform db cache k s) ≡ cached s
  unfolding perform
  perform-cached (join chat user) s = join-cached chat user s
  perform-cached (leave chat user) s = leave-cached chat user s
  perform-cached (hide at chat user) s = hide-cached at chat user s

  perform_all-cached :
      (ks : List Command) (s : ChatStore C) → cached (perform_all db cache ks s) ≡ cached s
  unfolding perform_all
  perform_all-cached [] s = refl
  perform_all-cached (k ∷ ks) s = perform_all-cached ks (perform db cache k s) ∙ perform-cached k s

  perform_all-chats :
      (ks : List Command) (s : ChatStore C) → (perform_all db cache ks s).chats ≡ s.chats
  unfolding perform_all
  perform_all-chats [] s = refl
  perform_all-chats (k ∷ ks) s =
      perform_all-chats ks (perform db cache k s) ∙ perform_chats db cache k s

  no_longer_member :
      (s : ChatStore C) → is_member (perform db cache (leave c u) s).members c u ≡ false
  no_longer_member s = perform_refines db cache (leave c u) s c u ∙ rw (eq_refl c, eq_refl u)

  listed-eq-is_member :
      (rows : List ChatMember)
      → any
          (λ (m : ChatMember). m.user_id == u)
          (filter (λ (m : ChatMember). m.chat_id == c && not m.is_delete) rows)
        ≡ is_member rows c u
  unfolding is_active_member is_member_row
  listed-eq-is_member [] = refl
  listed-eq-is_member (m ∷ rows) = elim (Bool-cases (m.chat_id == c && not m.is_delete)) [
    | inl listed ↦ rw listed (ground (arith, listed, listed-eq-is_member rows))
    | inr other ↦ rw other (ground (arith, other, listed-eq-is_member rows))
  ]

  hit :
      (s : ChatStore C) (view : ChatView)
      → cached s ≡ some view
      → get_chat db cache now c u s ≡ (ok view, s)
  unfolding get_chat cached
  hit s view e = rw (get_chat, e)

  refused :
      (s : ChatStore C) (chat : ChatRow)
      → cached s ≡ none
      → db.chat.find_first (is_chat c) s.chats ≡ some chat
      → is_member s.members c u ≡ false
      → get_chat db cache now c u s ≡ (err (forbidden "You are not a member of this chat"), s)
  unfolding get_chat cached find_chat_with_members
  refused s chat miss found out =
      let outside = listed-eq-is_member s.members ∙ out in
      rw (get_chat, miss, find_chat_with_members, found)
        (rw (db.chat_member.find_many_lem _ s.members) (rw outside))

module _ {C : Type 0} (db : ChatDatabase) (cache : ChatCache C) (c u : String) where
  -- A miss that ends well has written the view, for a chat that is there.
  written :
      (at : ℕ) (s t : ChatStore C) (view : ChatView)
      → cache.read_chat c u at s.cache ≡ none
      → get_chat db cache at c u s ≡ (ok view, t)
      → ((chat : ChatRow) × (db.chat.find_first (is_chat c) s.chats ≡ some chat))
        × (t ≡ record s { cache = cache.write_chat c u (at + chat_cache_ttl) view s.cache })
  unfolding get_chat find_chat_with_members
  written at s t view miss e = elim (Option-cases (db.chat.find_first (is_chat c) s.chats)) [
    | inl missing ↦ absurd (no (rw (miss, missing, get_chat, find_chat_with_members) at e))
    | inr (chat, found) ↦
        elim (Bool-cases (
          any (λ (m : ChatMember). m.user_id == u)
            (db.chat_member.find_many (λ m. m.chat_id == c && not m.is_delete) s.members))) [
              | inr outside ↦
                  absurd (no (rw (miss, found, outside, get_chat, find_chat_with_members) at e))
              | inl inside ↦ (
                (chat, found),
                wrote (rw (miss, found, inside, get_chat, find_chat_with_members) at e),
              )
            ]
  ]
    where
      no :
          {f : Failure} {w : ChatStore C}
          → ◌≡◌ {A = Result ChatView × ChatStore C} (err f, w) (ok view, t)
          → ⊥
      no e = cc

      wrote :
          {read : ChatView}
          → ◌≡◌ {A = Result ChatView × ChatStore C}
              (
                ok read,
                record s { cache = cache.write_chat c u (at + chat_cache_ttl) read s.cache },
              )
              (ok view, t)
          → t ≡ record s { cache = cache.write_chat c u (at + chat_cache_ttl) view s.cache }
      wrote {read} e =
          sym (ap (λ (x : Result ChatView × ChatStore C). x.1) e)
          ∙ ap (λ v. record s { cache = cache.write_chat c u (at + chat_cache_ttl) v s.cache })
              (ok-injective (ap (λ (x : Result ChatView × ChatStore C). x.0) e))

  -- If no call of the cache fails, and `getChat` found no entry at the time `at` and answered a view for a user, and after any
  -- joins, leaves and hides the user leaves the chat, then the user is no member, and `getChat` at the time `now` still
  -- answers with that view, made before all those calls, if `now` is less than 30 seconds after `at`, and refuses the user otherwise.
  pub left_still_reads :
      (at now : ℕ) (ks : List Command) (s t : ChatStore C) (view : ChatView)
      → IsUp cache
      → cache.read_chat c u at s.cache ≡ none
      → get_chat db cache at c u s ≡ (ok view, t)
      → (is_member (perform db cache (leave c u) (perform_all db cache ks t)).members c u ≡ false)
        × (get_chat db cache now c u (perform db cache (leave c u) (perform_all db cache ks t)) ≡ (
          if ltb now (at + 30000)
              then ok view
              else err (forbidden "You are not a member of this chat"),
          perform db cache (leave c u) (perform_all db cache ks t),
        ))
  left_still_reads at now ks s t view up miss e =
      let ((chat, found), same) = written at s t view miss e in
      let after = perform db cache (leave c u) (perform_all db cache ks t) in
      let out = no_longer_member db cache now c u (perform_all db cache ks t) in
      let entry : cached db cache now c u after
          ≡ (if ltb now (at + 30000) then some view else none) =
        perform-cached db cache now c u (leave c u) (perform_all db cache ks t)
        ∙ perform_all-cached db cache now c u ks t
        ∙ unfold cached in
          (ap (λ (w : ChatStore C). cache.read_chat c u now w.cache) same
            ∙ up.read_chat-write_chat c u now (at + 30000) view s.cache) in
      let there : db.chat.find_first (is_chat c) after.chats ≡ some chat =
        ap (db.chat.find_first (is_chat c)) (
          perform_chats db cache (leave c u) (perform_all db cache ks t)
          ∙ perform_all-chats db cache now c u ks t
          ∙ ap (λ (w : ChatStore C). w.chats) same)
        ∙ found in
      (
        out,
        elim (Bool-cases (ltb now (at + 30000))) [
          | inl fresh ↦ rw fresh (hit db cache now c u after view (rw fresh at entry))
          | inr ended ↦ rw ended (refused db cache now c u after chat (rw ended at entry) there out)
        ],
      )
