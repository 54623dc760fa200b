-- ===== src/Messages/Rights.antt =====
-- Who may change a message, through editing, deleting and the deletion of a file
-- (modules/message/services/message.service.ts under src).
use trust_post.Common.{
  ◌≡◌, ap, ℕ, String, true, false, not, ◌&&◌, none, List, [], ◌∷◌, Memᴰ, inl, inr, Bool-cases,
  Option-cases, arith,
}
use trust_post.Common.Text.{trim}
use trust_post.Actions.{proceed-keeps, guard-keeps, require-keeps}
use trust_post.Roles.{UserRoles}
use trust_post.Common.Trimming.{is_nonempty}
use trust_post.Prisma.Keys.{IsKeyed, keyed-one}
use trust_post.Files.{Cloud, delete}
use trust_post.Messages.{
  Message, MessageView, MessageStore, MessageDatabase, is_message, is_null, deleted,
  find_message_by_id, find_message_with_files, update_message, update_message_content,
  update_message_type, soft_delete_message, find_file_by_id, is_file, delete_file_row,
}
use trust_post.Messages.Lookup.{found_id, found_row, content-id, file_message, is_own}
use trust_post.Messages.Service.{
  MessageCache, may_change, storage_keys, retype_edited, edit_message, with_storage, remove_files,
  retire, delete_message, settle_message, settle_found, delete_file, trimmed, same_type,
  resolve_message_type,
}
use trust_post.Messages.Staying.{
  Stays, update-Stays, content-Stays, type-Stays, storage-Stays, emit-Stays, cache-Stays,
  announced-Stays, rows-Stays, retype-Stays,
}

module _ {F C : Type 0} (db : MessageDatabase F C) (m : Message) (cloud : Cloud F)
    (service_name : String) (cache : MessageCache C) (user : String) (role : UserRoles)
    (refused : may_change m user role ≡ false) where
  -- A row that the user may change is another than the message.
  other_id :
      (id : String) (r : Message) (s : MessageStore F C)
      → IsKeyed (λ (x : Message). x.id) s.messages
      → (Stays db m) s
      → (is_message id r ≡ true) × Memᴰ r s.messages
      → may_change r user role ≡ true
      → is_message id m ≡ false
  unfolding Stays is_message
  other_id id r s keyed h (fits, there) allowed = elim (Bool-cases (is_message id m)) [
    | inr other ↦ other
    | inl own ↦
        let same : r ≡ m = keyed-one (λ (x : Message). x.id) s.messages id keyed there h fits own in
        absurd (ground (arith, ap (λ (x : Message). may_change x user role) same, allowed, refused))
  ]

  edit-Stays :
      (now : ℕ) (message_id : String) (new_content : List ℕ) (s : MessageStore F C)
      → IsKeyed (λ (x : Message). x.id) s.messages
      → (Stays db m) s
      → (Stays db m)
          (edit_message db cloud service_name cache now
            (record {
              message_id = message_id;
              user_id = user;
              role = role;
              new_content = new_content;
            })
            s).1
  unfolding edit_message
  edit-Stays now message_id new_content s keyed h =
      guard-keeps (Stays db m) (is_nonempty (trim new_content)) _ _ s h (λ nonempty.
        require-keeps (Stays db m) (find_message_by_id db message_id s) _ _ s h (λ r found.
          guard-keeps (Stays db m) (may_change r user role) _ _ s h (λ allowed.
            guard-keeps (Stays db m) (is_null r.deleted_at) _ _ s h (λ fresh.
              let other =
                other_id message_id r s keyed h (found_row db message_id s r found) allowed in
              proceed-keeps (Stays db m) (update_message_content db now message_id _ s) _
                ((content-Stays db m) now message_id _ s other h)
                (λ v t e kept.
                  let other_v : is_message v.message.id m ≡ false =
                    rw (content-id db now message_id _ s t v e) other in
                  proceed-keeps (Stays db m) (retype_edited db cloud service_name cache v t) _
                    (retype-Stays db m cloud service_name cache v t other_v kept)
                    (λ w u e' held. announced-Stays db m cloud service_name cache _ _ u held))))))

  remove-Stays :
      (id : String) (v : MessageView) (s : MessageStore F C)
      → (Stays db m) s
      → (Stays db m) (remove_files db cloud service_name cache id v s).1
  unfolding remove_files
  remove-Stays id v s h = elim (Bool-cases (is_nonempty (storage_keys v.attachments))) [
    | inr no_files ↦ rw no_files h
    | inl files ↦ rw files (
        proceed-keeps (Stays db m)
          (with_storage db cloud service_name cache
            (delete cloud service_name (storage_keys v.attachments)) s)
          _
          (storage-Stays db m cloud service_name cache
            (delete cloud service_name (storage_keys v.attachments)) s h)
          (λ a t e kept. rows-Stays db m cloud service_name cache id t kept))
  ]

  retire-Stays :
      (now : ℕ) (id : String) (v : MessageView) (s : MessageStore F C)
      → is_message id m ≡ false
      → (Stays db m) s
      → (Stays db m) (retire db cloud service_name cache now id v s).1
  unfolding retire soft_delete_message
  retire-Stays now id v s other h =
      proceed-keeps (Stays db m) (remove_files db cloud service_name cache id v s) _
        (remove-Stays id v s h)
        (λ a t e kept.
          proceed-keeps (Stays db m) (update_message db (deleted now) id t) _
            ((update-Stays db m) (deleted now) id t other kept)
            (λ b u e' held. announced-Stays db m cloud service_name cache _ _ u held))

  delete-Stays :
      (now : ℕ) (message_id : String) (s : MessageStore F C)
      → IsKeyed (λ (x : Message). x.id) s.messages
      → (Stays db m) s
      → (Stays db m) (delete_message db cloud service_name cache now message_id user role s).1
  unfolding delete_message
  delete-Stays now message_id s keyed h =
      require-keeps (Stays db m) (find_message_with_files db message_id s) _ _ s h (λ v found.
        guard-keeps (Stays db m) (may_change v.message user role) _ _ s h (λ allowed.
          let (own, there) = found_id db message_id s v found in
          let other =
            other_id message_id v.message s keyed h (is_own db message_id v.message own, there)
              allowed in
          elim (Bool-cases (is_null v.message.deleted_at)) [
            | inr gone ↦ rw gone h
            | inl present ↦ rw present (
                proceed-keeps (Stays db m) (retire db cloud service_name cache now message_id v s) _
                  (retire-Stays now message_id v s other h) (λ a t e kept. kept))
          ]))

  settle-Stays :
      (now : ℕ) (v : MessageView) (s : MessageStore F C)
      → is_message v.message.id m ≡ false
      → (Stays db m) s
      → (Stays db m) (settle_message db cloud service_name cache now v s).1
  unfolding settle_message soft_delete_message
  settle-Stays now v s other h =
      elim (Bool-cases
        (not (is_nonempty (trimmed v.message.content)) && not (is_nonempty v.attachments))) [
          | inl empty ↦ rw empty (
              proceed-keeps (Stays db m) (update_message db (deleted now) v.message.id s) _
                ((update-Stays db m) (deleted now) v.message.id s other h)
                (λ b u e held. emit-Stays db m cloud service_name cache _ u held))
          | inr something ↦
              rw something
                (elim (Bool-cases (
                  same_type v.message.type (
                    resolve_message_type (is_nonempty (trimmed v.message.content))
                      (is_nonempty v.attachments) none))) [
                        | inl same ↦ rw same (emit-Stays db m cloud service_name cache _ s h)
                        | inr differ ↦ rw differ (
                            proceed-keeps (Stays db m) (update_message_type db v.message.id _ s) _
                              ((type-Stays db m) v.message.id _ s other h)
                              (λ b u e held. emit-Stays db m cloud service_name cache _ u held))
                      ])
        ]

  found-Stays :
      (now : ℕ) (id : String) (s : MessageStore F C)
      → is_message id m ≡ false
      → (Stays db m) s
      → (Stays db m) (settle_found db cloud service_name cache now id s).1
  unfolding settle_found
  found-Stays now id s other h = elim (Option-cases (find_message_with_files db id s)) [
    | inl missing ↦ rw (settle_found, missing) h
    | inr (v, found) ↦
        let (own, there) = found_id db id s v found in
        rw (settle_found, found) (settle-Stays now v s (rw own other) h)
  ]

  file_row-Stays :
      (id : String) (s : MessageStore F C)
      → (Stays db m) s
      → (Stays db m) (delete_file_row db id s).1
  unfolding delete_file_row Stays
  file_row-Stays id s h = elim (Option-cases (db.chat_file.delete (is_file id) s.files)) [
    | inl missing ↦ rw (delete_file_row, missing) h
    | inr (rows, found) ↦ rw (delete_file_row, found) h
  ]

  file-Stays :
      (now : ℕ) (file_id : String) (s : MessageStore F C)
      → IsKeyed (λ (x : Message). x.id) s.messages
      → (Stays db m) s
      → (Stays db m) (delete_file db cloud service_name cache now file_id user role s).1
  unfolding delete_file
  file-Stays now file_id s keyed h =
      require-keeps (Stays db m) (find_file_by_id db file_id s) _ _ s h (λ (f, r) found.
        guard-keeps (Stays db m) (may_change r user role) _ _ s h (λ allowed.
          guard-keeps (Stays db m) (is_null r.deleted_at) _ _ s h (λ present.
            let row = found_row db f.message_id s r (file_message db file_id s f r found) in
            let other = other_id f.message_id r s keyed h row allowed in
            proceed-keeps (Stays db m)
              (with_storage db cloud service_name cache
                (delete cloud service_name (f.attachment.storage_key ∷ [])) s)
              _
              (storage-Stays db m cloud service_name cache
                (delete cloud service_name (f.attachment.storage_key ∷ [])) s h)
              (λ a t e kept.
                proceed-keeps (Stays db m) (delete_file_row db file_id t) _
                  (file_row-Stays file_id t kept)
                  (λ b u e' held.
                    proceed-keeps (Stays db m)
                      (settle_found db cloud service_name cache now f.message_id u) _
                      (found-Stays now f.message_id u other held)
                      (λ c w e'' last. cache-Stays db m cloud service_name cache _ w last))))))

  -- A message whose sender is another user stays as it is when a user who is no administrator calls
  -- editMessage, deleteMessage or deleteFile, whatever the arguments and the answer. The ids of the
  -- messages differ, as their primary key demands.
  pub others_stay :
      (now : ℕ) (message_id file_id : String) (new_content : List ℕ) (s : MessageStore F C)
      → IsKeyed (λ (x : Message). x.id) s.messages
      → Memᴰ m s.messages
      → Memᴰ m
          (edit_message db cloud service_name cache now
            (record {
              message_id = message_id;
              user_id = user;
              role = role;
              new_content = new_content;
            })
            s).1.messages
        × Memᴰ m (delete_message db cloud service_name cache now message_id user role s).1.messages
        × Memᴰ m (delete_file db cloud service_name cache now file_id user role s).1.messages
  unfolding Stays
  others_stay now message_id file_id new_content s keyed h = (
    edit-Stays now message_id new_content s keyed h,
    delete-Stays now message_id s keyed h,
    file-Stays now file_id s keyed h,
  )
