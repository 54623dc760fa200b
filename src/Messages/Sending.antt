-- ===== src/Messages/Sending.antt =====
-- What a failure of `sendMessage` leaves (modules/message/services/message.service.ts under src).
use trust_post.Common.{
  ◌≡◌, refl, ap, subst, ℕ, String, ◌||◌, some, List, map, is_some, Bool-cases, inl, inr, arith,
}
use trust_post.Common.Trimming.{is_nonempty}
use trust_post.Errors.{Failure, Result, err}
use trust_post.Actions.{Action, proceed, throw, proceed-keeps, handled-keeps, reply-cases}
use trust_post.Prisma.{run-cases}
use trust_post.Files.{Cloud, FileUploadTarget, upload, delete}
use trust_post.Messages.{
  Message, Attachment, ChatFile, Event, MessageView, MessageStore, MessageDatabase, insert_message,
  create_message, find_chat_member,
}
use trust_post.Messages.Service.{
  MessageCache, SendMessageInput, trimmed, with_storage, upload_files, cleanup, new_message_of,
  send_message,
}

-- The messages, their files and what was sent to the rooms.
abbrev pub shown : {F C : Type 0} → MessageStore F C → List Message × List ChatFile × List Event
shown s = (s.messages, s.files, s.sent)

module _ {F C : Type 0} (db : MessageDatabase F C) (cloud : Cloud F) (service_name : String)
    (cache : MessageCache C) (s : MessageStore F C) where
  Same : MessageStore F C → Type 0
  Same t = shown t ≡ shown s

  storage-Same :
      {A : Type 0} (act : Action F A) (t : MessageStore F C)
      → Same t
      → Same (with_storage db cloud service_name cache act t).1
  unfolding with_storage Same
  storage-Same act t h = h

  upload-Same :
      (input : SendMessageInput) (t : MessageStore F C)
      → Same t
      → Same (upload_files db cloud service_name cache input t).1
  unfolding upload_files
  upload-Same input t h = elim (Bool-cases (is_nonempty input.files)) [
    | inr no_files ↦ rw no_files h
    | inl files ↦
        let act = upload cloud service_name input.files (record {
          resource_id = some input.chat_id;
          user_id = input.sender_id;
          target = FileUploadTarget.chat;
        }) in
        rw files (
          handled-keeps Same {A = List Attachment}
            (proceed (with_storage db cloud service_name cache act t) _) _
            (proceed-keeps Same {B = List Attachment}
              (with_storage db cloud service_name cache act t) _ (storage-Same act t h)
              (λ a u e kept. kept))
            (λ f u kept. kept))
  ]

  cleanup-Same :
      (attachments : List Attachment) (t : MessageStore F C)
      → Same t
      → Same (cleanup db cloud service_name cache attachments t).1
  unfolding cleanup
  cleanup-Same attachments t h = elim (Bool-cases (is_nonempty attachments)) [
    | inr no_files ↦ rw no_files h
    | inl files ↦
        let act = delete cloud service_name (map (λ (a : Attachment). a.storage_key) attachments) in
        rw files (
          handled-keeps Same {A = Unit {0}} (with_storage db cloud service_name cache act t) _
            (storage-Same act t h) (λ f u kept. kept))
  ]

  -- The state that an error is answered with.
  ended :
      {A : Type 0} {e : Failure} {t : MessageStore F C} (x : Result A × MessageStore F C)
      → Same x.1
      → x ≡ (err e, t)
      → Same t
  ended {A} x h same = subst (λ (y : Result A × MessageStore F C). Same y.1) same h

  failed-Same :
      (new_id : Attachment → String) (id : String) (now : ℕ) (input : SendMessageInput)
      (e : Failure) (t : MessageStore F C)
      → send_message db cloud service_name cache new_id id now input s ≡ (err e, t)
      → Same t
  unfolding send_message create_message
  failed-Same new_id id now input e t failed =
      let start : Same s = unfold Same in refl in
      elim (Bool-cases (is_nonempty (trimmed input.content) || is_nonempty input.files)) [
        | inr empty ↦ ended {A = MessageView} _ start (rw empty at failed)
        | inl full ↦
            elim (Bool-cases (is_some (find_chat_member db input.chat_id input.sender_id s))) [
              | inr stranger ↦ ended {A = MessageView} _ start (rw (full, stranger) at failed)
              | inl member ↦
                  let uploaded = upload-Same input s start in
                  elim (reply-cases (upload_files db cloud service_name cache input s)) [
                    | inr (f, u, eu) ↦
                        ended {A = MessageView} (err f, u)
                          (ended {A = List Attachment} _ uploaded eu)
                          (rw (full, member, eu) at failed)
                    | inl (attachments, u, eu) ↦
                        let held =
                          subst (λ (y : Result (List Attachment) × MessageStore F C). Same y.1) eu
                            uploaded in
                        let row = new_message_of db cloud service_name cache input attachments in
                        elim (run-cases db.transaction (insert_message db new_id id now row) u) [
                          | inl (a, w, m, run) ↦
                              absurd (ground (arith, rw (full, member, eu, run) at failed))
                          | inr (f, w, m, run) ↦
                              ended {A = MessageView}
                                (proceed (cleanup db cloud service_name cache attachments u)
                                  (λ z. throw f))
                                (proceed-keeps Same {B = MessageView}
                                  (cleanup db cloud service_name cache attachments u) _
                                  (cleanup-Same attachments u held) (λ z v ez kept. kept))
                                (rw (full, member, eu, run) at failed)
                        ]
                  ]
            ]
      ]

  -- A sendMessage that fails, at whichever step, leaves the messages and their files as they were, and has sent
  -- nothing to the rooms.
  pub send_message-err :
      (new_id : Attachment → String) (id : String) (now : ℕ) (input : SendMessageInput)
      (e : Failure) (t : MessageStore F C)
      → send_message db cloud service_name cache new_id id now input s ≡ (err e, t)
      → (t.messages ≡ s.messages) × (t.files ≡ s.files) × (t.sent ≡ s.sent)
  unfolding Same
  send_message-err new_id id now input e t failed =
      let same = failed-Same new_id id now input e t failed in
      (ap (λ x. x.0) same, ap (λ x. x.1) same, ap (λ x. x.2) same)
