-- ===== src/Messages/Settling.antt =====
-- What deleteFile does with the message of the file, and the types of the messages
-- (modules/message/services/message.service.ts under src).
use trust_post.Common.{
  ◌≡◌, refl, sym, ap, subst, ℕ, String, true, not, ◌&&◌, Option, none, some, any, filter, Memᴰ, inl,
  inr, Bool-cases, Option-cases, arith, eq_iff,
}
use trust_post.Common.Trimming.{is_nonempty}
use trust_post.Errors.{ok}
use trust_post.Actions.{proceed-keeps}
use trust_post.Prisma.Lists.{mem-any}
use trust_post.Prisma.Slices.{all_mem}
use trust_post.Prisma.Keys.{IsKeyed, keyed-one}
use trust_post.Files.{Cloud}
use trust_post.Messages.{
  Message, ChatFile, MessageStore, MessageDatabase, message_edited, message_deleted, is_message,
  is_file, is_file_of, with_files, with_type, deleted, find_message_by_id, update_message,
  update_message_type, soft_delete_message, find_file_by_id, delete_file_row,
}
use trust_post.Messages.Service.{
  MessageCache, settle_message, settle_found, trimmed, same_type, resolve_message_type,
}
use trust_post.Messages.Typing.{is_typed, IsTypedBut, whole}
use trust_post.Messages.Retyping.{same_type_refl, AllTyped, type-typed, delete-typed, find_lem}
use trust_post.Messages.Steps.{attached, but_files, emit-typed}

module _ {F C : Type 0} (db : MessageDatabase F C) (cloud : Cloud F) (service_name : String)
    (cache : MessageCache C) where
  -- A message of the type that its text and files give is typed.
  pub typed_by :
      (v : Message) (s : MessageStore F C)
      → same_type v.type (
          resolve_message_type
            (is_nonempty (trimmed v.content))
            (is_nonempty (with_files db s v).attachments)
            none)
        ≡ true
      → is_typed s.files v ≡ true
  typed_by v s same =
      let same' =
        subst
          (λ b.
            same_type v.type (resolve_message_type (is_nonempty (trimmed v.content)) b none) ≡ true)
          (attached db cloud service_name cache v s) same in
      ground (arith, same')

  pub retyped :
      (v : Message) (s : MessageStore F C)
      → is_typed s.files (
          with_type
            (resolve_message_type
              (is_nonempty (trimmed v.content))
              (is_nonempty (with_files db s v).attachments)
              none)
            v)
        ≡ true
  unfolding with_type
  retyped v s = rw (attached db cloud service_name cache v s) (
      let own = same_type_refl (
        resolve_message_type (is_nonempty (trimmed v.content)) (any (is_file_of v.id) s.files)
          none) in
      ground (arith, own))

  pub settle-typed :
      (now : ℕ) (v : Message) (s : MessageStore F C)
      → IsTypedBut v.id v s
      → AllTyped db cloud service_name cache
          (settle_message db cloud service_name cache now (with_files db s v) s).1
  unfolding settle_message soft_delete_message with_files
  settle-typed now v s h =
      let P = AllTyped db cloud service_name cache in
      let has_text = is_nonempty (trimmed v.content) in
      let has_files = is_nonempty (with_files db s v).attachments in
      let next_type = resolve_message_type has_text has_files none in
      elim (Bool-cases (not has_text && not has_files)) [
        | inl empty ↦ rw empty (
            proceed-keeps P {B = Unit {0}} (update_message db (deleted now) v.id s) _
              (delete-typed db cloud service_name cache now v.id v s h)
              (λ b u e held.
                emit-typed db cloud service_name cache (message_deleted v.id v.chat_id now) u held))
        | inr something ↦ rw something (elim (Bool-cases (same_type v.type next_type)) [
          | inl same ↦ rw same (
              emit-typed db cloud service_name cache (message_edited v.chat_id (with_files db s v))
                s (whole db v.id v s h (typed_by v s same)))
          | inr differ ↦ rw differ (
              proceed-keeps P {B = Unit {0}} (update_message_type db v.id next_type s) _
                (type-typed db cloud service_name cache v.id next_type v s h (retyped v s))
                (λ b u e held.
                  emit-typed db cloud service_name cache (message_edited v.chat_id b) u held))
        ])
      ]

  pub found-typed :
      (now : ℕ) (id : String) (v : Message) (s : MessageStore F C)
      → IsTypedBut id v s
      → AllTyped db cloud service_name cache (settle_found db cloud service_name cache now id s).1
  unfolding settle_found is_message
  found-typed now id v s h =
      let same : v.id ≡ id = (eq_iff v.id id).0 h.own in
      rw (settle_found, find_lem db cloud service_name cache id v s h)
        (settle-typed now v s (subst (λ (k : String). IsTypedBut k v s) (sym same) h))

  -- The state without the file.
  pub without_file : String → MessageStore F C → MessageStore F C
  without_file file_id s = record s { files = filter (λ g. not (is_file file_id g)) s.files }

  pub file_row_ok :
      (file_id : String) (f : ChatFile) (s : MessageStore F C)
      → Memᴰ f s.files
      → is_file file_id f ≡ true
      → delete_file_row db file_id s ≡ (ok tt, without_file file_id s)
  unfolding delete_file_row without_file
  file_row_ok file_id f s there own =
      rw
        (
          delete_file_row,
          db.chat_file.delete_lem (is_file file_id) s.files,
          mem-any (is_file file_id) s.files there own,
        )
        refl

  pub but_without :
      (file_id : String) (f : ChatFile) (v : Message) (s : MessageStore F C)
      → IsKeyed (λ (x : ChatFile). x.id) s.files
      → Memᴰ f s.files
      → is_file file_id f ≡ true
      → IsTypedBut f.message_id v s
      → IsTypedBut f.message_id v (without_file file_id s)
  unfolding without_file is_file is_file_of
  but_without file_id f v s keyed there own h =
      but_files db cloud service_name cache (λ g. not (is_file file_id g)) f.message_id v s
        (all_mem _ s.files (λ g m dropped.
          let own_g : is_file file_id g ≡ true = ground (arith, dropped) in
          let same : f ≡ g =
            keyed-one (λ (x : ChatFile). x.id) s.files file_id keyed there m own own_g in
          (eq_iff g.message_id f.message_id).1 (ap (λ (x : ChatFile). x.message_id) (sym same))))
        h

  -- The file and its message, after the storage has deleted the file.
  pub file-found :
      (file_id : String) (f : ChatFile) (v : Message) (s : MessageStore F C)
      → find_file_by_id db file_id s ≡ some (f, v)
      → Memᴰ f s.files × (is_file file_id f ≡ true)
  unfolding find_file_by_id
  file-found file_id f v s e =
      elim (Option-cases (db.chat_file.find_first (is_file file_id) s.files)) [
        | inl missing ↦ absurd (ground (arith, rw (find_file_by_id, missing) at e))
        | inr (g, found) ↦ elim (Option-cases (find_message_by_id db g.message_id s)) [
          | inl missing ↦ absurd (ground (arith, rw (find_file_by_id, found, missing) at e))
          | inr (q, there) ↦
              let same : ◌≡◌ {A = Option (ChatFile × Message)} (some (g, q)) (some (f, v)) =
                rw (find_file_by_id, found, there) at e in
              let same_file : g ≡ f = cc in
              subst (λ (x : ChatFile). Memᴰ x s.files × (is_file file_id x ≡ true)) same_file
                (db.chat_file.find_first-some (is_file file_id) s.files found)
        ]
      ]
