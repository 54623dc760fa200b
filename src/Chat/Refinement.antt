-- ===== src/Chat/Refinement.antt =====
-- The abstract view of the memberships is a relation between chats and users; joining, leaving and hiding
-- are its updates.
use mathlib.Core.Path.{fun_ext}
use trust_post.Common.{
  ℕ, ◌≡◌, refl, sym, ap, subst, ◌∙◌, String, Bool, true, false, not, ◌&&◌, ◌||◌, Option, none, some,
  List, [], ◌∷◌, filter, if◌then◌else◌, is_some, Bool-cases, Option-cases, inl, inr,
}
use trust_post.Prisma.{update_where}
use trust_post.Prisma.Lists.{is_some-find_first}
use trust_post.Chat.{
  ChatRow, ChatMember, ChatCache, ChatStore, ChatDatabase, is_chat, is_member_row, is_active_member,
  new_member, restored, hidden, find_chat_by_id, find_chat_member, add_chat_member,
  remove_chat_member, soft_delete_chat_member,
}
use trust_post.Chat.Service.{
  is_private, join_chat, leave_chat, delete_chat_for_user, invalidate_user_chats_cache,
}
use trust_post.Chat.Members.{
  is_member, same_key, same_key-eq, is_member-upsert, is_member-removed, is_member-hidden,
  is_member-row,
}

-- A user's call, with the clock where the call reads it.
pub data Command : Type 0 where
  join leave : String → String → Command
  hide : ℕ → String → String → Command

-- The abstract state: who is a member of which chat.
abbrev pub Membership : Type 0
Membership = String → String → Bool

-- The abstract effect of a call; `joinable` says which chats are open to all.
abbrev pub effect : (String → Bool) → Command → Membership → Membership
effect joinable (join chat user) f c u = (joinable chat && same_key chat user c u) || f c u
effect joinable (leave chat user) f c u = not (same_key chat user c u) && f c u
effect joinable (hide now chat user) f c u = not (same_key chat user c u) && f c u

abbrev pub replay : (String → Bool) → List Command → Membership → Membership
replay joinable [] f = f
replay joinable (k ∷ ks) f = replay joinable ks (effect joinable k f)

abbrev is_open : Option ChatRow → Bool
is_open none = false
is_open (some chat) = not (is_private chat.type)

module _ {C : Type 0} (db : ChatDatabase) (cache : ChatCache C) where
  abbrev pub shows : ChatStore C → Membership
  shows s = is_member s.members

  -- The chats that exist and are not private.
  abbrev pub is_joinable : List ChatRow → String → Bool
  is_joinable chats id = is_open (db.chat.find_first (is_chat id) chats)

  -- A user's call on the service, whatever it answers.
  unfoldable pub perform : Command → ChatStore C → ChatStore C
  perform (join chat user) s = (join_chat db cache chat user s).1
  perform (leave chat user) s = (leave_chat db cache chat user s).1
  perform (hide now chat user) s = (delete_chat_for_user db cache now chat user s).1

  unfoldable pub perform_all : List Command → ChatStore C → ChatStore C
  unfolding perform
  perform_all [] s = s
  perform_all (k ∷ ks) s = perform_all ks (perform k s)

  module _ (s : ChatStore C) where
    found_member :
        (chat user : String)
        → is_some (find_chat_member db chat user s) ≡ is_member s.members chat user
    unfolding find_chat_member
    found_member chat user =
        is_some-find_first db.chat_member (is_active_member chat user) s.members

    add_shows :
        (chat user c u : String)
        → shows (add_chat_member db chat user s) c u ≡ (same_key chat user c u || shows s c u)
    unfolding add_chat_member
    add_shows chat user c u =
        subst
          (λ (rows : List ChatMember). is_member rows c u ≡ (same_key chat user c u || shows s c u))
          (sym (
            db.chat_member.upsert_lem (is_member_row chat user) restored (new_member chat user)
              s.members))
          (is_member-upsert chat user s.members c u)

    -- A user's own key: what is so already stays, and what is not so already does too.
    already :
        (chat user c u : String)
        → is_member s.members chat user ≡ true
        → (same_key chat user c u || shows s c u) ≡ shows s c u
    already chat user c u h = elim (Bool-cases (same_key chat user c u)) [
      | inl own ↦
          let (same_chat, same_user) = same_key-eq chat user c u own in
          rw own (rw (← same_chat, ← same_user) (sym h))
      | inr other ↦ rw other
    ]

    absent :
        (chat user c u : String)
        → is_member s.members chat user ≡ false
        → (not (same_key chat user c u) && shows s c u) ≡ shows s c u
    absent chat user c u h = elim (Bool-cases (same_key chat user c u)) [
      | inl own ↦
          let (same_chat, same_user) = same_key-eq chat user c u own in
          rw own (rw (← same_chat, ← same_user) (sym h))
      | inr other ↦ rw other
    ]

    module _ (chat user : String) where
      join_members : (join_chat db cache chat user s).1.members ≡ (
          if is_joinable s.chats chat && not (is_some (find_chat_member db chat user s))
          then (add_chat_member db chat user s).members
          else s.members)
      unfolding join_chat find_chat_by_id invalidate_user_chats_cache
      join_members = elim (Option-cases (db.chat.find_first (is_chat chat) s.chats)) [
        | inl missing ↦ rw missing
        | inr (row, found) ↦ elim (Bool-cases (is_private row.type)) [
          | inl closed ↦ rw (found, closed)
          | inr open_to_all ↦ elim (Bool-cases (is_some (find_chat_member db chat user s))) [
            | inl old ↦ rw (found, open_to_all, old)
            | inr new ↦ rw (found, open_to_all, new)
          ]
        ]
      ]

      join_refines :
          (c u : String)
          → is_member (join_chat db cache chat user s).1.members c u
            ≡ effect (is_joinable s.chats) (join chat user) (shows s) c u
      join_refines c u =
          subst
            (λ (rows : List ChatMember).
              is_member rows c u ≡ effect (is_joinable s.chats) (join chat user) (shows s) c u)
            (sym join_members)
            (elim (Bool-cases (is_joinable s.chats chat)) [
              | inr closed ↦ rw (closed)
              | inl opens ↦ elim (Bool-cases (is_some (find_chat_member db chat user s))) [
                | inl old ↦
                    rw (opens, old)
                      (sym (already chat user c u (sym (found_member chat user) ∙ old)))
                | inr new ↦ rw (opens, new) (add_shows chat user c u)
              ]
            ])

      removed_members :
          is_some (find_chat_member db chat user s) ≡ true
          → (leave_chat db cache chat user s).1.members
            ≡ filter (λ r. not (is_member_row chat user r)) s.members
      unfolding leave_chat remove_chat_member invalidate_user_chats_cache
      removed_members there =
          let has_row = is_member-row chat user s.members (sym (found_member chat user) ∙ there) in
          rw (
            there,
            remove_chat_member,
            db.chat_member.delete_lem (is_member_row chat user) s.members,
            has_row,
          )

      hidden_members :
          (now : ℕ)
          → is_some (find_chat_member db chat user s) ≡ true
          → (delete_chat_for_user db cache now chat user s).1.members
            ≡ update_where (is_member_row chat user) (hidden now) s.members
      unfolding delete_chat_for_user soft_delete_chat_member invalidate_user_chats_cache
      hidden_members now there =
          let has_row = is_member-row chat user s.members (sym (found_member chat user) ∙ there) in
          rw (
            there,
            soft_delete_chat_member,
            db.chat_member.update_lem (is_member_row chat user) (hidden now) s.members,
            has_row,
          )

      leave_members_absent :
          is_some (find_chat_member db chat user s) ≡ false
          → (leave_chat db cache chat user s).1.members ≡ s.members
      unfolding leave_chat
      leave_members_absent missing = rw missing

      hide_members_absent :
          (now : ℕ)
          → is_some (find_chat_member db chat user s) ≡ false
          → (delete_chat_for_user db cache now chat user s).1.members ≡ s.members
      unfolding delete_chat_for_user
      hide_members_absent now missing = rw missing

      leave_refines :
          (c u : String)
          → is_member (leave_chat db cache chat user s).1.members c u
            ≡ (not (same_key chat user c u) && shows s c u)
      leave_refines c u = elim (Bool-cases (is_some (find_chat_member db chat user s))) [
        | inl there ↦
            ap (λ (rows : List ChatMember). is_member rows c u) (removed_members there)
            ∙ is_member-removed chat user s.members c u
        | inr missing ↦
            ap (λ (rows : List ChatMember). is_member rows c u) (leave_members_absent missing)
            ∙ sym (absent chat user c u (sym (found_member chat user) ∙ missing))
      ]

      hide_refines :
          (now : ℕ) (c u : String)
          → is_member (delete_chat_for_user db cache now chat user s).1.members c u
            ≡ (not (same_key chat user c u) && shows s c u)
      hide_refines now c u = elim (Bool-cases (is_some (find_chat_member db chat user s))) [
        | inl there ↦
            ap (λ (rows : List ChatMember). is_member rows c u) (hidden_members now there)
            ∙ is_member-hidden chat user now s.members c u
        | inr missing ↦
            ap (λ (rows : List ChatMember). is_member rows c u) (hide_members_absent now missing)
            ∙ sym (absent chat user c u (sym (found_member chat user) ∙ missing))
      ]

      -- No call changes the chats themselves.
      join_chats : (join_chat db cache chat user s).1.chats ≡ s.chats
      unfolding join_chat find_chat_by_id add_chat_member invalidate_user_chats_cache
      join_chats = elim (Option-cases (db.chat.find_first (is_chat chat) s.chats)) [
        | inl missing ↦ rw missing
        | inr (row, found) ↦ elim (Bool-cases (is_private row.type)) [
          | inl closed ↦ rw (found, closed)
          | inr open_to_all ↦ elim (Bool-cases (is_some (find_chat_member db chat user s))) [
            | inl old ↦ rw (found, open_to_all, old)
            | inr new ↦ rw (found, open_to_all, new)
          ]
        ]
      ]

      leave_chats : (leave_chat db cache chat user s).1.chats ≡ s.chats
      unfolding leave_chat remove_chat_member invalidate_user_chats_cache
      leave_chats = elim (Bool-cases (is_some (find_chat_member db chat user s))) [
        | inr missing ↦ rw missing
        | inl there ↦
            elim (Option-cases (db.chat_member.delete (is_member_row chat user) s.members)) [
              | inl gone ↦ rw (there, remove_chat_member, gone)
              | inr (rows, found) ↦ rw (there, remove_chat_member, found)
            ]
      ]

      hide_chats : (now : ℕ) → (delete_chat_for_user db cache now chat user s).1.chats ≡ s.chats
      unfolding delete_chat_for_user soft_delete_chat_member invalidate_user_chats_cache
      hide_chats now = elim (Bool-cases (is_some (find_chat_member db chat user s))) [
        | inr missing ↦ rw missing
        | inl there ↦
            elim (Option-cases
              (db.chat_member.update (is_member_row chat user) (hidden now) s.members)) [
                | inl gone ↦ rw (there, soft_delete_chat_member, gone)
                | inr (rows, found) ↦ rw (there, soft_delete_chat_member, found)
              ]
      ]

  pub perform_chats : (k : Command) (s : ChatStore C) → (perform k s).chats ≡ s.chats
  unfolding perform
  perform_chats (join chat user) s = join_chats s chat user
  perform_chats (leave chat user) s = leave_chats s chat user
  perform_chats (hide now chat user) s = hide_chats s chat user now

  -- A call on the service, whatever it answers, changes who is shown as a member of which chat as the
  -- abstract call does: a join makes its user a member if the chat exists and is not private, a
  -- leave or a hide ends the membership of its user, and no other membership changes.
  pub perform_refines :
      (k : Command) (s : ChatStore C) (c u : String)
      → shows (perform k s) c u ≡ effect (is_joinable s.chats) k (shows s) c u
  unfolding perform
  perform_refines (join chat user) s c u = join_refines s chat user c u
  perform_refines (leave chat user) s c u = leave_refines s chat user c u
  perform_refines (hide now chat user) s c u = hide_refines s chat user now c u

  -- A run of joins, leaves and hides of any users, in any order and whatever each answers, shows the
  -- memberships that the replay of the abstract calls on the first memberships gives.
  pub perform_all_refines :
      (ks : List Command) (s : ChatStore C)
      → shows (perform_all ks s) ≡ replay (is_joinable s.chats) ks (shows s)
  unfolding perform_all
  perform_all_refines [] s = refl
  perform_all_refines (k ∷ ks) s =
      perform_all_refines ks (perform k s)
      ∙ rw (perform_chats k s)
          (ap (replay (is_joinable s.chats) ks) (fun_ext (λ c. fun_ext (perform_refines k s c))))
