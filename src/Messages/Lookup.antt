-- ===== src/Messages/Lookup.antt =====
-- What the queries of modules/message/repos/message.repo.ts under src find.
use trust_post.Common.{
  ◌≡◌, sym, ap, ◌∙◌, subst, ℕ, String, true, Option, none, some, List, Memᴰ, inl, inr, Option-cases,
  arith, eq_iff,
}
use trust_post.Errors.{ok}
use trust_post.Actions.{require-eq-ok, >>=-eq-ok}
use trust_post.Messages.{
  Message, ChatFile, MessageView, MessageStore, MessageDatabase, is_message, is_file, with_files,
  with_content, find_message_by_id, find_message_with_files, update_message, update_message_content,
  find_file_by_id,
}

module _ {F C : Type 0} (db : MessageDatabase F C) where
  -- The message that a query by id finds has the id.
  pub found_id :
      (id : String) (s : MessageStore F C) (v : MessageView)
      → find_message_with_files db id s ≡ some v
      → (v.message.id ≡ id) × Memᴰ v.message s.messages
  unfolding find_message_with_files is_message with_files
  found_id id s v e = elim (Option-cases (db.message.find_first (is_message id) s.messages)) [
    | inl missing ↦ absurd (ground (arith, rw (find_message_with_files, missing) at e))
    | inr (r, found) ↦
        let (there, fits) = db.message.find_first-some (is_message id) s.messages found in
        let same : r ≡ v.message =
          ap (λ (o : Option MessageView). (elim o [ none ↦ r | some w ↦ w.message ]))
            (rw (find_message_with_files, found) at e) in
        subst (λ (x : Message). (x.id ≡ id) × Memᴰ x s.messages) same
          ((eq_iff r.id id).0 (ground (arith, fits)), there)
  ]

  pub found_row :
      (id : String) (s : MessageStore F C) (r : Message)
      → find_message_by_id db id s ≡ some r
      → (is_message id r ≡ true) × Memᴰ r s.messages
  unfolding find_message_by_id
  found_row id s r e =
      let (there, fits) = db.message.find_first-some (is_message id) s.messages e in (fits, there)

  pub content-id :
      (now : ℕ) (id : String) (content : List ℕ) (s t : MessageStore F C) (v : MessageView)
      → update_message_content db now id content s ≡ (ok v, t)
      → v.message.id ≡ id
  unfolding update_message_content
  content-id now id content s t v e =
      let (a, u, changed, answer) =
        >>=-eq-ok (update_message db (with_content now content) id) _ s e in
      (found_id id u v (require-eq-ok (find_message_with_files db id u) _ u answer).0).0

  -- The message of a file that a query finds.
  pub file_message :
      (id : String) (s : MessageStore F C) (f : ChatFile) (r : Message)
      → find_file_by_id db id s ≡ some (f, r)
      → find_message_by_id db f.message_id s ≡ some r
  unfolding find_file_by_id is_file
  file_message id s f r e = elim (Option-cases (db.chat_file.find_first (is_file id) s.files)) [
    | inl missing ↦ absurd (ground (arith, rw (find_file_by_id, missing) at e))
    | inr (g, found) ↦ elim (Option-cases (find_message_by_id db g.message_id s)) [
      | inl missing ↦ absurd (ground (arith, rw (find_file_by_id, found, missing) at e))
      | inr (q, there) ↦
          let same : ◌≡◌ {A = Option (ChatFile × Message)} (some (g, q)) (some (f, r)) =
            rw (find_file_by_id, found, there) at e in
          let same_file : g ≡ f = cc in
          let same_message : q ≡ r = cc in
          ap (λ (x : ChatFile). find_message_by_id db x.message_id s) (sym same_file)
          ∙ there
          ∙ ap some same_message
    ]
  ]

  pub is_own : (id : String) (r : Message) → r.id ≡ id → is_message id r ≡ true
  unfolding is_message
  is_own id r e = (eq_iff r.id id).1 e
