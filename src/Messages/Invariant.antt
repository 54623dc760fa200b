-- ===== src/Messages/Invariant.antt =====
-- The operations on a message, and the types of the messages
-- (modules/message/services/message.service.ts under src).
use trust_post.Common.{
  ◌≡◌, sym, ap, ◌∙◌, subst, ℕ, String, List, [], ◌∷◌, Memᴰ, All-mem, inl, inr, Bool-cases,
}
use trust_post.Common.Text.{trim}
use trust_post.Common.Trimming.{is_nonempty}
use trust_post.Errors.{Result}
use trust_post.Actions.{proceed-keeps, guard-keeps, require-keeps}
use trust_post.Roles.{UserRoles}
use trust_post.Prisma.Keys.{IsKeyed}
use trust_post.Files.{Cloud, delete}
use trust_post.Messages.{
  Message, ChatFile, MessageView, MessageStore, MessageDatabase, message_edited, is_null,
  with_files, with_content, find_message_by_id, find_message_with_files, update_message,
  find_file_by_id,
}
use trust_post.Messages.Service.{
  MessageCache, EditMessageInput, may_change, retype_edited, edit_message, with_storage, retire,
  delete_message, settle_found, delete_file,
}
use trust_post.Messages.Typing.{IsTyped, IsTypedBut, typed_but}
use trust_post.Messages.Lookup.{found_id, found_row, file_message, is_own}
use trust_post.Messages.Retyping.{announced-typed, AllTyped, update-files, content_ok, row-edited}
use trust_post.Messages.Steps.{
  retype-typed, edited_but, but_storage, storage-typed, retire-typed, storage-files, cache-typed,
}
use trust_post.Messages.Settling.{found-typed, without_file, file_row_ok, but_without, file-found}

module _ {F C : Type 0} (db : MessageDatabase F C) (cloud : Cloud F) (service_name : String)
    (cache : MessageCache C) where
  edit-typed :
      (now : ℕ) (input : EditMessageInput) (s : MessageStore F C)
      → IsKeyed (λ (x : Message). x.id) s.messages
      → IsTyped s.files s.messages
      → AllTyped db cloud service_name cache
          (edit_message db cloud service_name cache now input s).1
  unfolding edit_message
  edit-typed now input s keyed typed =
      let P = AllTyped db cloud service_name cache in
      guard-keeps P (is_nonempty (trim input.new_content)) _ _ s typed (λ full.
        require-keeps P (find_message_by_id db input.message_id s) _ _ s typed (λ v found.
          guard-keeps P (may_change v input.user_id input.role) _ _ s typed (λ allowed.
            guard-keeps P (is_null v.deleted_at) _ _ s typed (λ present.
              let (own, there) = found_row db input.message_id s v found in
              let h = typed_but db input.message_id v s keyed typed there own in
              let content = trim input.new_content in
              let id = input.message_id in
              let t : MessageStore F C = (update_message db (with_content now content) id s).1 in
              let w = with_content now content v in
              let after =
                row-edited db cloud service_name cache now input.new_content s.files v full present
                  (All-mem _ s.messages typed there) in
              let files =
                update-files db cloud service_name cache (with_content now content) id s in
              rw (content_ok db cloud service_name cache now id content v s h) (
                proceed-keeps P {B = MessageView}
                  (retype_edited db cloud service_name cache (with_files db t w) t) _
                  (retype-typed db cloud service_name cache w t
                    (edited_but db cloud service_name cache now id content v s h) (rw files after))
                  (λ x u e held.
                    announced-typed db cloud service_name cache (message_edited x.message.chat_id x)
                      x.message.chat_id u held))))))

  delete-message-typed :
      (now : ℕ) (message_id user : String) (role : UserRoles) (s : MessageStore F C)
      → IsKeyed (λ (x : Message). x.id) s.messages
      → IsTyped s.files s.messages
      → AllTyped db cloud service_name cache
          (delete_message db cloud service_name cache now message_id user role s).1
  unfolding delete_message
  delete-message-typed now id user role s keyed typed =
      let P = AllTyped db cloud service_name cache in
      require-keeps P (find_message_with_files db id s) _ _ s typed (λ view found.
        guard-keeps P (may_change view.message user role) _ _ s typed (λ allowed.
          let (own, there) = found_id db id s view found in
          let h =
            typed_but db id view.message s keyed typed there (is_own db id view.message own) in
          elim (Bool-cases (is_null view.message.deleted_at)) [
            | inr gone ↦ rw gone typed
            | inl present ↦ rw present (
                proceed-keeps P {B = String} (retire db cloud service_name cache now id view s) _
                  (retire-typed db cloud service_name cache now id view view.message s h typed)
                  (λ a t e kept. kept))
          ]))

  file-typed :
      (now : ℕ) (file_id user : String) (role : UserRoles) (s : MessageStore F C)
      → IsKeyed (λ (x : Message). x.id) s.messages
      → IsKeyed (λ (x : ChatFile). x.id) s.files
      → IsTyped s.files s.messages
      → AllTyped db cloud service_name cache
          (delete_file db cloud service_name cache now file_id user role s).1
  unfolding delete_file
  file-typed now file_id user role s keyed files_keyed typed =
      let P = AllTyped db cloud service_name cache in
      require-keeps P (find_file_by_id db file_id s) _ _ s typed (λ (f, v) found.
        guard-keeps P (may_change v user role) _ _ s typed (λ allowed.
          guard-keeps P (is_null v.deleted_at) _ _ s typed (λ present.
            let (own, there) =
              found_row db f.message_id s v (file_message db file_id s f v found) in
            let (file_there, file_own) =
              file-found db cloud service_name cache file_id f v s found in
            let act = delete cloud service_name (f.attachment.storage_key ∷ []) in
            let h =
              but_storage db cloud service_name cache act f.message_id v s
                (typed_but db f.message_id v s keyed typed there own) in
            let fine = storage-typed db cloud service_name cache act s typed in
            let same = storage-files db cloud service_name cache act s in
            proceed-keeps P {B = String} (with_storage db cloud service_name cache act s) _ fine
              (λ a t e kept.
                let files : t.files ≡ s.files =
                  sym (ap (λ (x : Result (Unit {0}) × MessageStore F C). x.1.files) e) ∙ same in
                let held =
                  subst
                    (λ (x : Result (Unit {0}) × MessageStore F C). IsTypedBut f.message_id v x.1) e
                    h in
                let keyed_t =
                  subst (λ (l : List ChatFile). IsKeyed (λ (x : ChatFile). x.id) l) (sym files)
                    files_keyed in
                let there_t = subst (λ (l : List ChatFile). Memᴰ f l) (sym files) file_there in
                let u = without_file db cloud service_name cache file_id t in
                rw (file_row_ok db cloud service_name cache file_id f t there_t file_own) (
                  proceed-keeps P {B = String}
                    (settle_found db cloud service_name cache now f.message_id u) _
                    (found-typed db cloud service_name cache now f.message_id v u (
                      but_without db cloud service_name cache file_id f v t keyed_t there_t file_own
                        held))
                    (λ b w e' last. cache-typed db cloud service_name cache v.chat_id w last))))))

  -- Where the ids of messages and of files differ, as primary keys do, editMessage, deleteMessage and deleteFile,
  -- whatever their arguments and answers, keep the types of all messages right: a message that is
  -- neither deleted nor a system message is mixed if it has text and files, a file if it has only
  -- files, and else a text.
  pub operations-IsTyped :
      (now : ℕ) (input : EditMessageInput) (message_id file_id user : String) (role : UserRoles)
      (s : MessageStore F C)
      → IsKeyed (λ (x : Message). x.id) s.messages
      → IsKeyed (λ (x : ChatFile). x.id) s.files
      → IsTyped s.files s.messages
      → AllTyped db cloud service_name cache
          (edit_message db cloud service_name cache now input s).1
        × AllTyped db cloud service_name cache
            (delete_message db cloud service_name cache now message_id user role s).1
        × AllTyped db cloud service_name cache
            (delete_file db cloud service_name cache now file_id user role s).1
  operations-IsTyped now input message_id file_id user role s keyed files_keyed typed = (
    edit-typed now input s keyed typed,
    delete-message-typed now message_id user role s keyed typed,
    file-typed now file_id user role s keyed files_keyed typed,
  )
