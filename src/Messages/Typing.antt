-- ===== src/Messages/Typing.antt =====
-- The type of a message, by its text and its files
-- (modules/message/services/message.service.ts under src): the rows, and the updates of one message.
use trust_post.Common.{
  ◌≡◌, ap, ◌∙◌, subst, String, Bool, true, false, not, ◌||◌, none, List, [], ◌∷◌, any, Memᴰ, All,
  All-mem, inl, inr, Bool-cases, arith, eq_iff,
}
use trust_post.Common.Trimming.{is_nonempty}
use trust_post.Prisma.{update_where}
use trust_post.Prisma.Lists.{mem-any}
use trust_post.Prisma.Slices.{all_mem}
use trust_post.Prisma.Keys.{IsKeyed, keyed-one, update_where-IsKeyed}
use trust_post.Messages.{
  Message, ChatFile, MessageStore, MessageDatabase, MessageType, is_message, is_file_of, is_null,
  update_message,
}
use trust_post.Messages.Service.{same_type, trimmed, resolve_message_type}

-- A message that is not deleted is a system message, or its type is the one that its text and files give.
abbrev pub is_typed : List ChatFile → Message → Bool
is_typed files m =
    not (is_null m.deleted_at)
    || same_type m.type MessageType.system
    || same_type m.type
        (resolve_message_type (is_nonempty (trimmed m.content)) (any (is_file_of m.id) files) none)

abbrev pub IsTyped : List ChatFile → List Message → Type 0
IsTyped files rows = All (λ m. is_typed files m ≡ true) rows

-- The messages have keys, and all but those of an id are typed; the message of that id is given.
pub record IsTypedBut {F C : Type 0} (id : String) (v : Message) (s : MessageStore F C)
    : Type 0 where
  pub keyed : IsKeyed (λ (x : Message). x.id) s.messages
  pub others : All (λ m. is_message id m ≡ false → is_typed s.files m ≡ true) s.messages
  pub there : Memᴰ v s.messages
  pub own : is_message id v ≡ true

mem-update :
    {R : Type 0} (p : R → Bool) (f : R → R) (rows : List R) {r : R}
    → Memᴰ r rows
    → p r ≡ true
    → Memᴰ (f r) (update_where p f rows)
mem-update p f [] m h = elim m [ ]
mem-update p f (q ∷ rows) (Memᴰ.head e) h =
    let fits : p q ≡ true = rw e at h in Memᴰ.head (rw fits (ap f e))
mem-update p f (q ∷ rows) (Memᴰ.tail m) h = Memᴰ.tail (mem-update p f rows m h)

module _ {F C : Type 0} (db : MessageDatabase F C) (id : String) where
  pub typed_but :
      (v : Message) (s : MessageStore F C)
      → IsKeyed (λ (x : Message). x.id) s.messages
      → IsTyped s.files s.messages
      → Memᴰ v s.messages
      → is_message id v ≡ true
      → IsTypedBut id v s
  typed_but v s keyed typed there own = record {
    keyed = keyed;
    others = all_mem _ s.messages (λ m h other. All-mem _ s.messages typed h);
    there = there;
    own = own;
  }

  -- With the message of the id typed too, all are.
  pub whole :
      (v : Message) (s : MessageStore F C)
      → IsTypedBut id v s
      → is_typed s.files v ≡ true
      → IsTyped s.files s.messages
  unfolding is_message
  whole v s h typed = all_mem _ s.messages (λ m there. elim (Bool-cases (is_message id m)) [
    | inr other ↦ All-mem _ s.messages h.others there other
    | inl own ↦
        let same : v ≡ m =
          keyed-one (λ (x : Message). x.id) s.messages id h.keyed h.there there h.own own in
        subst (λ (x : Message). is_typed s.files x ≡ true) same typed
  ])

  pub typed_one :
      (v w : Message) (s : MessageStore F C)
      → IsTypedBut id v s
      → Memᴰ w s.messages
      → is_message id w ≡ true
      → v ≡ w
  unfolding is_message
  typed_one v w s h there own =
      keyed-one (λ (x : Message). x.id) s.messages id h.keyed h.there there h.own own

  module _ (f : Message → Message) (keeps : (m : Message) → (f m).id ≡ m.id) where
    others-update :
        (files : List ChatFile) (rows : List Message)
        → All (λ m. is_message id m ≡ false → is_typed files m ≡ true) rows
        → All
            (λ m. is_message id m ≡ false → is_typed files m ≡ true)
            (update_where (is_message id) f rows)
    unfolding is_message
    others-update files [] h = tt
    others-update files (m ∷ rows) (x, h) = elim (Bool-cases (is_message id m)) [
      | inl own ↦ (
        rw own (λ other.
            absurd (ground (arith, own, other, keeps m, eq_iff (f m).id id, eq_iff m.id id))),
        others-update files rows h,
      )
      | inr other ↦ (rw other x, others-update files rows h)
    ]

    -- An update of the message of the id.
    pub update-IsTypedBut :
        (v : Message) (s : MessageStore F C)
        → IsTypedBut id v s
        → IsTypedBut id (f v) (update_message db f id s).1
    unfolding update_message is_message
    update-IsTypedBut v s h =
        let there : any (is_message id) s.messages ≡ true =
          mem-any (is_message id) s.messages h.there h.own in
        rw (update_message, db.message.update_lem (is_message id) f s.messages, there)
          (record {
            keyed =
                update_where-IsKeyed (λ (x : Message). x.id) (is_message id) f keeps s.messages
                  h.keyed;
            others = others-update s.files s.messages h.others;
            there = mem-update (is_message id) f s.messages h.there h.own;
            own = (eq_iff (f v).id id).1 (keeps v ∙ (eq_iff v.id id).0 h.own);
          })
