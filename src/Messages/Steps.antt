-- ===== src/Messages/Steps.antt =====
-- The steps of editMessage and deleteMessage, and the types of the messages
-- (modules/message/services/message.service.ts under src).
use trust_post.Common.{
  ◌≡◌, refl, sym, ap, ◌∙◌, subst, ℕ, String, Bool, true, false, not, ◌&&◌, List, any, filter, All,
  All-mem, All-weaken, inl, inr, Bool-cases, arith, eq_iff, if◌then◌else◌,
}
use trust_post.Common.Trimming.{is_nonempty}
use trust_post.Errors.{Result}
use trust_post.Actions.{Action, proceed-keeps, reply-cases}
use trust_post.Prisma.Slices.{all_mem}
use trust_post.Files.{Cloud, delete}
use trust_post.Messages.{
  Message, ChatFile, MessageView, MessageStore, MessageDatabase, MessageType, Event,
  message_deleted, is_message, is_file_of, with_files, with_content, with_type, deleted,
  update_message, soft_delete_message, delete_files_by_message_id,
}
use trust_post.Messages.Service.{
  MessageCache, is_file_type, storage_keys, retype_edited, with_storage, remove_files, retire, emit,
  invalidate_message_cache,
}
use trust_post.Messages.Typing.{is_typed, IsTyped, IsTypedBut, whole, update-IsTypedBut}
use trust_post.Messages.Retyping.{
  nonempty-filter, any-filter, announced-typed, AllTyped, type-typed, delete-typed,
}

module _ {F C : Type 0} (db : MessageDatabase F C) (cloud : Cloud F) (service_name : String)
    (cache : MessageCache C) where
  pub attached :
      (v : Message) (s : MessageStore F C)
      → is_nonempty (with_files db s v).attachments ≡ any (is_file_of v.id) s.files
  unfolding with_files
  attached v s =
      ap is_nonempty (db.chat_file.find_many_lem (is_file_of v.id) s.files)
      ∙ nonempty-filter (is_file_of v.id) s.files

  pub retype-typed :
      (v : Message) (s : MessageStore F C)
      → IsTypedBut v.id v s
      → is_typed s.files (
          if any (is_file_of v.id) s.files && is_file_type v.type
          then with_type MessageType.mixed v
          else v)
        ≡ true
      → AllTyped db cloud service_name cache
          (retype_edited db cloud service_name cache (with_files db s v) s).1
  unfolding retype_edited with_files
  retype-typed v s h typed =
      elim (Bool-cases (any (is_file_of v.id) s.files && is_file_type v.type)) [
        | inl both ↦
            let test = ap (λ b. b && is_file_type v.type) (attached v s) ∙ both in
            rw test (
              type-typed db cloud service_name cache v.id MessageType.mixed v s h
                (rw both at typed))
        | inr not_both ↦
            let test = ap (λ b. b && is_file_type v.type) (attached v s) ∙ not_both in
            rw test (whole db v.id v s h (rw not_both at typed))
      ]

  -- The row of an edited message under its own id.
  pub edited_but :
      (now : ℕ) (id : String) (content : List ℕ) (v : Message) (s : MessageStore F C)
      → IsTypedBut id v s
      → IsTypedBut
          (with_content now content v).id
          (with_content now content v)
          (update_message db (with_content now content) id s).1
  unfolding is_message
  edited_but now id content v s h =
      let next =
        update-IsTypedBut db id (with_content now content) (λ m. unfold with_content in refl) v s
          h in
      subst
        (λ (k : String).
          IsTypedBut k (with_content now content v)
            (update_message db (with_content now content) id s).1)
        (sym ((eq_iff (with_content now content v).id id).0 next.own)) next

  pub but_storage :
      {A : Type 0} (act : Action F A) (id : String) (v : Message) (s : MessageStore F C)
      → IsTypedBut id v s
      → IsTypedBut id v (with_storage db cloud service_name cache act s).1
  unfolding with_storage
  but_storage act id v s h = record {
    keyed = h.keyed;
    others = h.others;
    there = h.there;
    own = h.own;
  }

  pub storage-typed :
      {A : Type 0} (act : Action F A) (s : MessageStore F C)
      → IsTyped s.files s.messages
      → AllTyped db cloud service_name cache (with_storage db cloud service_name cache act s).1
  unfolding with_storage
  storage-typed act s h = h

  -- Files that are taken away matter to no message but that of the id.
  pub but_files :
      (keep : ChatFile → Bool) (id : String) (v : Message) (s : MessageStore F C)
      → All (λ f. keep f ≡ false → is_file_of id f ≡ true) s.files
      → IsTypedBut id v s
      → IsTypedBut id v (record s { files = filter keep s.files })
  unfolding is_message is_file_of
  but_files keep id v s gone h = record {
    keyed = h.keyed;
    others = all_mem _ s.messages (λ m there other.
        rw
          (any-filter (is_file_of m.id) keep s.files (
            All-weaken (λ (f : ChatFile). keep f ≡ false → is_file_of id f ≡ true)
              (λ (f : ChatFile). keep f ≡ false → is_file_of m.id f ≡ false)
              (λ (f : ChatFile) (out : keep f ≡ false → is_file_of id f ≡ true)
                  (dropped : keep f ≡ false).
                ground (
                  arith,
                  other,
                  out dropped,
                  eq_iff f.message_id id,
                  eq_iff f.message_id m.id,
                  eq_iff m.id id,
                ))
              s.files gone))
          (All-mem _ s.messages h.others there other));
    there = h.there;
    own = h.own;
  }

  pub but_rows :
      (id : String) (v : Message) (s : MessageStore F C)
      → IsTypedBut id v s
      → IsTypedBut id v (delete_files_by_message_id db id s)
  unfolding delete_files_by_message_id
  but_rows id v s h =
      subst (λ (x : ℕ × List ChatFile). IsTypedBut id v (record s { files = x.1 }))
        (sym (db.chat_file.delete_many_lem (is_file_of id) s.files))
        (but_files (λ f. not (is_file_of id f)) id v s
          (all_mem _ s.files (λ f there dropped. ground (arith, dropped))) h)

  pub emit-typed :
      (event : Event) (s : MessageStore F C)
      → IsTyped s.files s.messages
      → AllTyped db cloud service_name cache (emit db cloud service_name cache event s)
  unfolding emit
  emit-typed event s h = h

  pub retire-typed :
      (now : ℕ) (id : String) (view : MessageView) (v : Message) (s : MessageStore F C)
      → IsTypedBut id v s
      → IsTyped s.files s.messages
      → AllTyped db cloud service_name cache (retire db cloud service_name cache now id view s).1
  unfolding retire remove_files soft_delete_message
  retire-typed now id view v s h typed =
      elim (Bool-cases (is_nonempty (storage_keys view.attachments))) [
        | inr no_files ↦ rw no_files (
            proceed-keeps (AllTyped db cloud service_name cache) {B = Unit {0}}
              (update_message db (deleted now) id s) _
              (delete-typed db cloud service_name cache now id v s h)
              (λ a t e kept.
                announced-typed db cloud service_name cache
                  (message_deleted id view.message.chat_id now) view.message.chat_id t kept))
        | inl files ↦
            let act = delete cloud service_name (storage_keys view.attachments) in
            let held = but_storage act id v s h in
            let fine = storage-typed act s typed in
            rw files (elim (reply-cases (with_storage db cloud service_name cache act s)) [
              | inr (f, t, e) ↦ rw e (
                  subst
                    (λ (x : Result (Unit {0}) × MessageStore F C). IsTyped x.1.files x.1.messages) e
                    fine)
              | inl (a, t, e) ↦
                  let u = delete_files_by_message_id db id t in
                  rw e (
                    proceed-keeps (AllTyped db cloud service_name cache) {B = Unit {0}}
                      (update_message db (deleted now) id u) _
                      (delete-typed db cloud service_name cache now id v u (
                        but_rows id v t (
                          subst (λ (x : Result (Unit {0}) × MessageStore F C). IsTypedBut id v x.1)
                            e held)))
                      (λ b w e' kept.
                        announced-typed db cloud service_name cache
                          (message_deleted id view.message.chat_id now) view.message.chat_id w
                          kept))
            ])
      ]

  pub storage-files :
      {A : Type 0} (act : Action F A) (s : MessageStore F C)
      → (with_storage db cloud service_name cache act s).1.files ≡ s.files
  unfolding with_storage
  storage-files act s = refl

  pub cache-typed :
      (chat : String) (s : MessageStore F C)
      → IsTyped s.files s.messages
      → AllTyped db cloud service_name cache
          (invalidate_message_cache db cloud service_name cache chat s)
  unfolding invalidate_message_cache
  cache-typed chat s h = h
