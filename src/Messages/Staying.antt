-- ===== src/Messages/Staying.antt =====
-- The steps of editing, deleting and the deletion of a file, seen by a message that they are not about
-- (modules/message/services/message.service.ts under src).
use trust_post.Common.{◌≡◌, ℕ, String, false, ◌&&◌, List, any, Memᴰ, inl, inr, Bool-cases}
use trust_post.Actions.{Action, proceed-keeps, require-last}
use trust_post.Common.Trimming.{is_nonempty}
use trust_post.Prisma.Lists.{update_where-mem}
use trust_post.Files.{Cloud}
use trust_post.Messages.{
  Message, MessageView, MessageStore, MessageDatabase, MessageType, Event, is_message, with_content,
  with_type, find_message_with_files, update_message, update_message_content, update_message_type,
  delete_files_by_message_id,
}
use trust_post.Messages.Service.{
  MessageCache, is_file_type, retype_edited, with_storage, emit, invalidate_message_cache,
}

module _ {F C : Type 0} (db : MessageDatabase F C) (m : Message) where
  -- The message is in the table, as it is.
  unfoldable pub Stays : MessageStore F C → Type 0
  Stays s = Memᴰ m s.messages

  pub update-Stays :
      (change : Message → Message) (id : String) (s : MessageStore F C)
      → is_message id m ≡ false
      → Stays s
      → Stays (update_message db change id s).1
  unfolding update_message Stays
  update-Stays change id s other h = elim (Bool-cases (any (is_message id) s.messages)) [
    | inl there ↦
        rw (update_message, db.message.update_lem (is_message id) change s.messages, there)
          (update_where-mem (is_message id) change s.messages other h)
    | inr missing ↦
        rw (update_message, db.message.update_lem (is_message id) change s.messages, missing) h
  ]

  pub content-Stays :
      (now : ℕ) (id : String) (content : List ℕ) (s : MessageStore F C)
      → is_message id m ≡ false
      → Stays s
      → Stays (update_message_content db now id content s).1
  unfolding update_message_content
  content-Stays now id content s other h =
      proceed-keeps Stays (update_message db (with_content now content) id s) _
        (update-Stays (with_content now content) id s other h)
        (λ a t e kept. require-last Stays (find_message_with_files db id t) _ t kept)

  pub type-Stays :
      (id : String) (type : MessageType) (s : MessageStore F C)
      → is_message id m ≡ false
      → Stays s
      → Stays (update_message_type db id type s).1
  unfolding update_message_type
  type-Stays id type s other h =
      proceed-keeps Stays (update_message db (with_type type) id s) _
        (update-Stays (with_type type) id s other h)
        (λ a t e kept. require-last Stays (find_message_with_files db id t) _ t kept)

  module _ (cloud : Cloud F) (service_name : String) (cache : MessageCache C) where
    -- Calls of the storage change no message.
    pub storage-Stays :
        {A : Type 0} (act : Action F A) (s : MessageStore F C)
        → Stays s
        → Stays (with_storage db cloud service_name cache act s).1
    unfolding with_storage Stays
    storage-Stays act s h = h

    pub emit-Stays :
        (event : Event) (s : MessageStore F C)
        → Stays s
        → Stays (emit db cloud service_name cache event s)
    unfolding emit Stays
    emit-Stays event s h = h

    pub cache-Stays :
        (chat : String) (s : MessageStore F C)
        → Stays s
        → Stays (invalidate_message_cache db cloud service_name cache chat s)
    unfolding invalidate_message_cache Stays
    cache-Stays chat s h = h

    pub announced-Stays :
        (event : Event) (chat : String) (s : MessageStore F C)
        → Stays s
        → Stays (
            invalidate_message_cache db cloud service_name cache chat
              (emit db cloud service_name cache event s))
    announced-Stays event chat s h = cache-Stays chat _ (emit-Stays event s h)

    pub rows-Stays :
        (id : String) (s : MessageStore F C) → Stays s → Stays (delete_files_by_message_id db id s)
    unfolding delete_files_by_message_id Stays
    rows-Stays id s h = h

    pub retype-Stays :
        (v : MessageView) (s : MessageStore F C)
        → is_message v.message.id m ≡ false
        → Stays s
        → Stays (retype_edited db cloud service_name cache v s).1
    unfolding retype_edited
    retype-Stays v s other h =
        elim (Bool-cases (is_nonempty v.attachments && is_file_type v.message.type)) [
          | inl both ↦ rw both (type-Stays v.message.id MessageType.mixed s other h)
          | inr not_both ↦ rw not_both h
        ]
