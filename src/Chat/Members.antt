-- ===== src/Chat/Members.antt =====
-- The membership that the rows of members show, after each query that changes them.
use text.Mathlib.Text.{◌==◌}
use text.Mathlib.TextPositions.{eq_refl}
use trust_post.Common.{
  ℕ, ◌⊎◌, ◌≡◌, refl, ap, String, Bool, true, false, not, ◌&&◌, ◌||◌, List, [], ◌∷◌, ◌++◌, any,
  filter, if◌then◌else◌, Bool-cases, inl, inr, arith, eq_iff,
}
use trust_post.Prisma.{update_where}
use trust_post.Chat.{ChatMember, is_member_row, is_active_member, new_member, restored, hidden}

-- Whether a user is a member of a chat who has not hidden it.
abbrev pub is_member : List ChatMember → String → String → Bool
is_member rows chat user = any (is_active_member chat user) rows

-- The test that two keys are one.
abbrev pub same_key : String → String → String → String → Bool
same_key chat user c u = chat == c && user == u

module _ (chat user : String) where
  own_row :
      (r : ChatMember) → is_active_member chat user r ≡ true → is_member_row chat user r ≡ true
  unfolding is_active_member
  own_row r h = ground (arith, h)

  own_inactive :
      (r : ChatMember) → is_member_row chat user r ≡ false → is_active_member chat user r ≡ false
  unfolding is_active_member
  own_inactive r h = rw h

  module _ (c u : String) (other : same_key chat user c u ≡ false) where
    other_row : (r : ChatMember) → is_member_row chat user r ≡ true → is_active_member c u r ≡ false
    unfolding is_active_member is_member_row
    other_row r h = ground (
      arith,
      h,
      other,
      eq_iff r.chat_id chat,
      eq_iff r.user_id user,
      eq_iff r.chat_id c,
      eq_iff r.user_id u,
      eq_iff chat c,
      eq_iff user u,
    )

    -- A change of the rows of a key that keeps the key.
    is_member-update :
        (f : ChatMember → ChatMember)
        → ((r : ChatMember)
            → is_member_row chat user r ≡ true
            → is_member_row chat user (f r) ≡ true)
        → (rows : List ChatMember)
        → is_member (update_where (is_member_row chat user) f rows) c u ≡ is_member rows c u
    is_member-update f keeps [] = refl
    is_member-update f keeps (r ∷ rows) = elim (Bool-cases (is_member_row chat user r)) [
      | inl own ↦
          rw (own, other_row r own, other_row (f r) (keeps r own)) (is_member-update f keeps rows)
      | inr apart ↦ rw apart (ap (λ b. is_active_member c u r || b) (is_member-update f keeps rows))
    ]

    is_member-remove :
        (rows : List ChatMember)
        → is_member (filter (λ r. not (is_member_row chat user r)) rows) c u ≡ is_member rows c u
    is_member-remove [] = refl
    is_member-remove (r ∷ rows) = elim (Bool-cases (is_member_row chat user r)) [
      | inl own ↦ rw (own, other_row r own) (is_member-remove rows)
      | inr apart ↦ rw apart (ap (λ b. is_active_member c u r || b) (is_member-remove rows))
    ]

  is_member-append :
      (c u : String) (rows : List ChatMember) (r : ChatMember)
      → is_member (rows ++ r ∷ []) c u ≡ (is_member rows c u || is_active_member c u r)
  is_member-append c u [] r = ground arith
  is_member-append c u (q ∷ rows) r = ground (arith, is_member-append c u rows r)

  -- The own key after each change.
  restored_own :
      (rows : List ChatMember)
      → any (is_member_row chat user) rows ≡ true
      → is_member (update_where (is_member_row chat user) restored rows) chat user ≡ true
  unfolding is_active_member restored is_member_row
  restored_own [] h = h
  restored_own (r ∷ rows) h = elim (Bool-cases (is_member_row chat user r)) [
    | inl own ↦ rw own (rw own (ground arith))
    | inr apart ↦ rw apart (rw apart (restored_own rows (rw apart at h)))
  ]

  hidden_own :
      (now : ℕ) (rows : List ChatMember)
      → is_member (update_where (is_member_row chat user) (hidden now) rows) chat user ≡ false
  unfolding is_active_member hidden is_member_row
  hidden_own now [] = refl
  hidden_own now (r ∷ rows) = elim (Bool-cases (is_member_row chat user r)) [
    | inl own ↦ rw own (rw own (hidden_own now rows))
    | inr apart ↦ rw apart (rw apart (hidden_own now rows))
  ]

  removed_own :
      (rows : List ChatMember)
      → is_member (filter (λ r. not (is_member_row chat user r)) rows) chat user ≡ false
  removed_own [] = refl
  removed_own (r ∷ rows) = elim (Bool-cases (is_member_row chat user r)) [
    | inl own ↦ rw own (removed_own rows)
    | inr apart ↦ rw (apart, own_inactive r apart) (removed_own rows)
  ]

  new_own : is_active_member chat user (new_member chat user) ≡ true
  unfolding is_active_member new_member is_member_row
  new_own = rw (eq_refl chat, eq_refl user)

  new_row : is_member_row chat user (new_member chat user) ≡ true
  unfolding new_member is_member_row
  new_row = rw (eq_refl chat, eq_refl user)

  keeps_restored :
      (r : ChatMember)
      → is_member_row chat user r ≡ true
      → is_member_row chat user (restored r) ≡ true
  unfolding is_member_row restored
  keeps_restored r h = h

  keeps_hidden :
      (now : ℕ) (r : ChatMember)
      → is_member_row chat user r ≡ true
      → is_member_row chat user (hidden now r) ≡ true
  unfolding is_member_row hidden
  keeps_hidden now r h = h

  pub same_key-eq : (c u : String) → same_key chat user c u ≡ true → (chat ≡ c) × (user ≡ u)
  same_key-eq c u h = (ground (arith, h, eq_iff chat c), ground (arith, h, eq_iff user u))

  -- After the upsert of a membership, the user is a member, and nothing else is changed.
  pub is_member-upsert :
      (rows : List ChatMember) (c u : String)
      → is_member
          (if any (is_member_row chat user) rows
            then update_where (is_member_row chat user) restored rows
            else rows ++ new_member chat user ∷ [])
          c
          u
        ≡ (same_key chat user c u || is_member rows c u)
  is_member-upsert rows c u = elim (Bool-cases (same_key chat user c u)) [
    | inl own ↦
        let (same_chat, same_user) = same_key-eq c u own in
        rw own (
          rw (← same_chat, ← same_user)
            (own_case (Bool-cases (any (is_member_row chat user) rows))))
    | inr other ↦ rw other (elim (Bool-cases (any (is_member_row chat user) rows)) [
      | inl there ↦ rw there (is_member-update c u other restored keeps_restored rows)
      | inr missing ↦ rw missing (
          rw
            (
              is_member-append c u rows (new_member chat user),
              other_row c u other (new_member chat user) new_row,
            )
            (ground arith))
    ])
  ]
    where
      own_case :
          (any (is_member_row chat user) rows ≡ true) ⊎ (any (is_member_row chat user) rows ≡ false)
          → is_member
              (if any (is_member_row chat user) rows
                then update_where (is_member_row chat user) restored rows
                else rows ++ new_member chat user ∷ [])
              chat
              user
            ≡ true
      own_case (inl there) = rw there (restored_own rows there)
      own_case (inr missing) =
          rw missing
            (rw (is_member-append chat user rows (new_member chat user), new_own) (ground arith))

  -- After a removal, and after a soft deletion, the user is no member, and nothing else is changed.
  pub is_member-removed :
      (rows : List ChatMember) (c u : String)
      → is_member (filter (λ r. not (is_member_row chat user r)) rows) c u
        ≡ (not (same_key chat user c u) && is_member rows c u)
  is_member-removed rows c u = elim (Bool-cases (same_key chat user c u)) [
    | inl own ↦
        let (same_chat, same_user) = same_key-eq c u own in
        rw own (rw (← same_chat, ← same_user) (removed_own rows))
    | inr other ↦ rw other (is_member-remove c u other rows)
  ]

  pub is_member-hidden :
      (now : ℕ) (rows : List ChatMember) (c u : String)
      → is_member (update_where (is_member_row chat user) (hidden now) rows) c u
        ≡ (not (same_key chat user c u) && is_member rows c u)
  is_member-hidden now rows c u = elim (Bool-cases (same_key chat user c u)) [
    | inl own ↦
        let (same_chat, same_user) = same_key-eq c u own in
        rw own (rw (← same_chat, ← same_user) (hidden_own now rows))
    | inr other ↦ rw other (is_member-update c u other (hidden now) (keeps_hidden now) rows)
  ]

-- A member has a row.
pub is_member-row :
    (chat user : String) (rows : List ChatMember)
    → is_member rows chat user ≡ true
    → any (is_member_row chat user) rows ≡ true
unfolding is_active_member
is_member-row chat user [] h = h
is_member-row chat user (r ∷ rows) h = ground (arith, h, is_member-row chat user rows)
