-- ===== src/Messages/Retyping.antt =====
-- The updates of editing, deleting and the deletion of files, and the types of the messages
-- (modules/message/services/message.service.ts under src).
use trust_post.Common.{
  ◌≡◌, refl, sym, ap, ◌∙◌, ℕ, String, Bool, true, false, ◌&&◌, ◌||◌, none, some, List, [], ◌∷◌, any,
  filter, All, All-mem, inl, inr, Bool-cases, Option-cases, arith, if◌then◌else◌,
}
use trust_post.Common.Text.{trim}
use trust_post.Common.Trimming.{is_nonempty, nonempty-trim-trim}
use trust_post.Errors.{ok}
use trust_post.Actions.{proceed-keeps, require-last}
use trust_post.Prisma.Lists.{mem-any}
use trust_post.Files.{Cloud}
use trust_post.Messages.{
  Message, ChatFile, MessageStore, MessageDatabase, MessageType, Event, is_message, is_file_of,
  is_null, with_files, with_content, with_type, deleted, find_message_with_files, update_message,
  update_message_content, update_message_type,
}
use trust_post.Messages.Service.{
  MessageCache, is_file_type, trimmed, same_type, resolve_message_type, emit,
  invalidate_message_cache,
}
use trust_post.Messages.Typing.{is_typed, IsTyped, IsTypedBut, whole, typed_one, update-IsTypedBut}

-- The type after an edit: `had_text` is whether the message had a text before.
pub edited_type :
    (type : MessageType) (had_text has_files : Bool)
    → (same_type type MessageType.system
        || same_type type (resolve_message_type had_text has_files none))
      ≡ true
    → (same_type
          (if has_files && is_file_type type then MessageType.mixed else type)
          MessageType.system
        || same_type
            (if has_files && is_file_type type then MessageType.mixed else type)
            (resolve_message_type true has_files none))
      ≡ true
unfolding resolve_message_type
edited_type MessageType.text true true h = h
edited_type MessageType.text true false h = refl
edited_type MessageType.text false true h = h
edited_type MessageType.text false false h = refl
edited_type MessageType.file true true h = refl
edited_type MessageType.file true false h = h
edited_type MessageType.file false true h = refl
edited_type MessageType.file false false h = h
edited_type MessageType.mixed true true h = refl
edited_type MessageType.mixed true false h = h
edited_type MessageType.mixed false true h = refl
edited_type MessageType.mixed false false h = h
edited_type MessageType.system had_text has_files h = ground (arith, h)

pub same_type_refl : (type : MessageType) → same_type type type ≡ true
same_type_refl MessageType.text = refl
same_type_refl MessageType.file = refl
same_type_refl MessageType.mixed = refl
same_type_refl MessageType.system = refl

pub nonempty-filter :
    {A : Type 0} (p : A → Bool) (xs : List A) → is_nonempty (filter p xs) ≡ any p xs
nonempty-filter p [] = refl
nonempty-filter p (x ∷ xs) = elim (Bool-cases (p x)) [
  | inl fits ↦ rw fits (ground (arith, fits))
  | inr misses ↦ rw misses (nonempty-filter p xs)
]

-- Rows that are filtered away and that the test misses do not matter to it.
pub any-filter :
    {A : Type 0} (p q : A → Bool) (xs : List A)
    → All (λ x. q x ≡ false → p x ≡ false) xs
    → any p (filter q xs) ≡ any p xs
any-filter p q [] h = refl
any-filter p q (x ∷ xs) (out, h) = elim (Bool-cases (q x)) [
  | inl kept ↦ rw kept (ap (λ b. p x || b) (any-filter p q xs h))
  | inr gone ↦ rw (gone, out gone) (any-filter p q xs h)
]

module _ {F C : Type 0} (db : MessageDatabase F C) (cloud : Cloud F) (service_name : String)
    (cache : MessageCache C) where
  -- All messages of a state are typed.
  abbrev pub AllTyped : MessageStore F C → Type 0
  AllTyped s = IsTyped s.files s.messages

  pub announced-typed :
      (event : Event) (chat : String) (s : MessageStore F C)
      → AllTyped s
      → AllTyped (
          invalidate_message_cache db cloud service_name cache chat
            (emit db cloud service_name cache event s))
  unfolding emit invalidate_message_cache
  announced-typed event chat s h = h

  -- An update leaves the files.
  pub update-files :
      (f : Message → Message) (id : String) (s : MessageStore F C)
      → (update_message db f id s).1.files ≡ s.files
  unfolding update_message
  update-files f id s = elim (Option-cases (db.message.update (is_message id) f s.messages)) [
    | inl missing ↦ rw (update_message, missing) refl
    | inr (rows, found) ↦ rw (update_message, found) refl
  ]

  -- The message of the id is updated to one that is typed.
  update-typed :
      (f : Message → Message) (keeps : (m : Message) → (f m).id ≡ m.id) (id : String) (v : Message)
      (s : MessageStore F C)
      → IsTypedBut id v s
      → is_typed s.files (f v) ≡ true
      → AllTyped (update_message db f id s).1
  update-typed f keeps id v s h typed =
      whole db id (f v) (update_message db f id s).1 (update-IsTypedBut db id f keeps v s h)
        (rw (update-files f id s) typed)

  pub type-typed :
      (id : String) (type : MessageType) (v : Message) (s : MessageStore F C)
      → IsTypedBut id v s
      → is_typed s.files (with_type type v) ≡ true
      → AllTyped (update_message_type db id type s).1
  unfolding update_message_type
  type-typed id type v s h typed =
      proceed-keeps AllTyped (update_message db (with_type type) id s) _
        (update-typed (with_type type) (λ m. unfold with_type in refl) id v s h typed)
        (λ a t e kept. require-last AllTyped (find_message_with_files db id t) _ t kept)

  pub delete-typed :
      (now : ℕ) (id : String) (v : Message) (s : MessageStore F C)
      → IsTypedBut id v s
      → AllTyped (update_message db (deleted now) id s).1
  delete-typed now id v s h =
      update-typed (deleted now) (λ m. unfold deleted in refl) id v s h (unfold deleted in refl)

  -- The query by the id finds the message of the id, with its files.
  pub find_lem :
      (id : String) (v : Message) (s : MessageStore F C)
      → IsTypedBut id v s
      → find_message_with_files db id s ≡ some (with_files db s v)
  unfolding find_message_with_files
  find_lem id v s h = elim (Option-cases (db.message.find_first (is_message id) s.messages)) [
    | inl missing ↦
        let misses : is_message id v ≡ false =
          All-mem _ s.messages (db.message.find_first-none (is_message id) s.messages missing)
            h.there in
        absurd (ground (arith, misses, h.own))
    | inr (q, found) ↦
        let (there, fits) = db.message.find_first-some (is_message id) s.messages found in
        rw (find_message_with_files, found)
          (ap (λ (x : Message). some (with_files db s x))
            (sym (typed_one db id v q s h there fits)))
  ]

  pub update_ok :
      (f : Message → Message) (id : String) (v : Message) (s : MessageStore F C)
      → IsTypedBut id v s
      → update_message db f id s ≡ (ok tt, (update_message db f id s).1)
  unfolding update_message
  update_ok f id v s h =
      let there : any (is_message id) s.messages ≡ true =
        mem-any (is_message id) s.messages h.there h.own in
      rw (update_message, db.message.update_lem (is_message id) f s.messages, there) refl

  pub content_ok :
      (now : ℕ) (id : String) (content : List ℕ) (v : Message) (s : MessageStore F C)
      → IsTypedBut id v s
      → update_message_content db now id content s ≡ (
        ok (
            with_files db
              (update_message db (with_content now content) id s).1
              (with_content now content v)),
        (update_message db (with_content now content) id s).1,
      )
  unfolding update_message_content
  content_ok now id content v s h =
      let next =
        update-IsTypedBut db id (with_content now content) (λ m. unfold with_content in refl) v s
          h in
      rw (update_ok (with_content now content) id v s h) (
        rw
          (find_lem id (with_content now content v)
            (update_message db (with_content now content) id s).1 next)
          refl)

  pub row-edited :
      (now : ℕ) (content : List ℕ) (files : List ChatFile) (v : Message)
      → is_nonempty (trim content) ≡ true
      → is_null v.deleted_at ≡ true
      → is_typed files v ≡ true
      → is_typed files (
          if any (is_file_of (with_content now (trim content) v).id) files
            && is_file_type (with_content now (trim content) v).type
          then with_type MessageType.mixed (with_content now (trim content) v)
          else with_content now (trim content) v)
        ≡ true
  unfolding with_type with_content
  row-edited now content files v full present typed =
      let before : (same_type v.type MessageType.system
            || same_type v.type (
                resolve_message_type (is_nonempty (trimmed v.content)) (any (is_file_of v.id) files)
                  none))
          ≡ true =
        ground (arith, typed, present) in
      let after =
        edited_type v.type (is_nonempty (trimmed v.content)) (any (is_file_of v.id) files) before in
      let text : is_nonempty (trim (trim content)) ≡ true = nonempty-trim-trim content ∙ full in
      elim (Bool-cases (any (is_file_of v.id) files && is_file_type v.type)) [
        | inl both ↦
            rw both
              (rw text (let now_mixed = rw both at after in ground (arith, now_mixed, present)))
        | inr not_both ↦
            rw not_both
              (rw text (let as_before = rw not_both at after in ground (arith, as_before, present)))
      ]
