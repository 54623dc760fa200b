-- ===== src/Admin/Staff.antt =====
-- What a change of a role keeps: the staff, and the periods of every user.
use text.Mathlib.Text.{◌==◌}
use text.Mathlib.TextPositions.{eq_refl}
use trust_post.Common.{
  ℕ, ◌+◌, ◌≤◌, ◌≡◌, ◌≢◌, refl, sym, ap, subst, ◌∙◌, String, true, false, not, ◌&&◌, List, [], ◌∷◌,
  Memᴰ, All, All-mem, count, length-filter, Bool-cases, inl, inr, ◌⊎◌, arith, eq_iff,
}
use trust_post.Errors.{bad_request, Result, ok, err}
use trust_post.Prisma.{update_where}
use trust_post.Roles.{UserRoles, same_role, same_role-eq}
use trust_post.RolePeriods.{handle_role_change}
use trust_post.Admin.{
  User, AdminStore, AdminDatabase, is_user, has_role, with_role, get_count, lacks_staff,
  update_roles, track_change, change_body,
}

abbrev pub staff : UserRoles → List User → ℕ
staff r users = count (has_role r) users

-- The staff among the other users.
abbrev pub others : String → UserRoles → List User → ℕ
others id r users = count (λ u. not (is_user id u) && has_role r u) users

abbrev pub HasUniqueUsers : List User → Type 0
HasUniqueUsers [] = Unit
HasUniqueUsers (u ∷ us) = All (λ v. v.id ≢ u.id) us × HasUniqueUsers us

pub get_count_lem :
    (db : AdminDatabase) (id : String) (r : UserRoles) (s : AdminStore)
    → get_count db id r s ≡ others id r s.users
unfolding get_count
get_count_lem db id r s =
    rw (db.user.find_many_lem (λ u. not (is_user id u) && has_role r u) s.users)
      (length-filter (λ u. not (is_user id u) && has_role r u) s.users)

-- The rows of others are as they were.
pub others-le-staff :
    (id : String) (role r : UserRoles) (users : List User)
    → others id r users ≤ staff r (update_where (is_user id) (with_role role) users)
others-le-staff id role r [] = omega arith
others-le-staff id role r (u ∷ users) = elim (Bool-cases (is_user id u)) [
  | inl own ↦ rw own (omega (arith, others-le-staff id role r users))
  | inr other ↦ rw other (omega (arith, others-le-staff id role r users))
]

-- The user's own row counts for the new role.
pub staff_of_new :
    (id : String) (role : UserRoles) (users : List User) {u : User}
    → Memᴰ u users
    → is_user id u ≡ true
    → 1 + others id role users ≤ staff role (update_where (is_user id) (with_role role) users)
unfolding has_role with_role
staff_of_new id role [] m h = elim m [ ]
staff_of_new id role (q ∷ users) (Memᴰ.head e) h =
    let own : is_user id q ≡ true = rw e at h in
    let self : same_role role role ≡ true = ground arith in
    rw own (rw self (omega (arith, others-le-staff id role role users)))
staff_of_new id role (q ∷ users) (Memᴰ.tail m) h = elim (Bool-cases (is_user id q)) [
  | inl own ↦
      let self : same_role role role ≡ true = ground arith in
      rw own (rw self (omega (arith, others-le-staff id role role users)))
  | inr other ↦ rw other (omega (arith, staff_of_new id role users m h))
]

-- Each row is the user's or another user's.
abbrev pub IsSplit : User → List User → Type 0
IsSplit u users = All (λ v. (v ≡ u) ⊎ (v.id ≢ u.id)) users

pub unique-IsSplit :
    (users : List User) {u : User} → HasUniqueUsers users → Memᴰ u users → IsSplit u users
unique-IsSplit [] h m = tt
unique-IsSplit (q ∷ users) {u} (fresh, h) (Memᴰ.head e) =
    (inl (sym e), subst (λ k. IsSplit k users) (sym e) (rest users fresh))
  where
    rest : (vs : List User) → All (λ v. v.id ≢ q.id) vs → IsSplit q vs
    rest [] h = tt
    rest (v ∷ vs) (n, h) = (inr n, rest vs h)
unique-IsSplit (q ∷ users) {u} (fresh, h) (Memᴰ.tail m) =
    let apart : u.id ≢ q.id = All-mem (λ v. v.id ≢ q.id) users fresh m in
    (inr (λ e. apart (sym e)), unique-IsSplit users h m)

-- To give the user the role that the user has changes no count.
pub staff_same :
    (u : User) (role r : UserRoles) (users : List User)
    → u.role ≡ role
    → IsSplit u users
    → staff r (update_where (is_user u.id) (with_role role) users) ≡ staff r users
unfolding has_role with_role is_user
staff_same u role r [] same h = refl
staff_same u role r (v ∷ users) same (split, h) = elim split [
  | inl own ↦
      let rest = staff_same u role r users same h in
      let own_role : v.role ≡ role = rw own same in
      let own_id : v.id == u.id ≡ true = rw own (eq_refl u.id) in
      rw (own_id, own_role) (omega (arith, rest))
  | inr other ↦
      let rest = staff_same u role r users same h in
      let other_id : v.id == u.id ≡ false = ground (arith, eq_iff v.id u.id) in
      rw other_id (omega (arith, rest))
]

-- At least one administrator and one moderator.
pub record HasStaff (users : List User) : Type 0 where
  pub admins : 1 ≤ staff UserRoles.admin users
  pub moderators : 1 ≤ staff UserRoles.moderator users

module _ (db : AdminDatabase) (period_id closed_at started_at : ℕ) (changed_by_id : String)
    (role : UserRoles) (s : AdminStore) where
  -- The store after a change that is not refused.
  abbrev pub changed : User → AdminStore
  changed user = record {
    users = update_where (is_user user.id) (with_role role) s.users;
    periods =
        handle_role_change db.user_role_period period_id closed_at started_at
          (record {
            user_id = user.id;
            user_name = user.name;
            old_role = user.role;
            new_role = role;
            changed_by_id = changed_by_id;
          })
          s.periods;
  }

  module _ (user : User) where
    -- A change that is not refused, and why it was not.
    pub change_body-ok :
        (n : ℕ) (t : AdminStore)
        → change_body db period_id closed_at started_at user changed_by_id role s ≡ (ok n, t)
        → (t ≡ changed user)
          × ((user.role ≡ role) ⊎ (lacks_staff db user.id user.role role s ≡ false))
    unfolding change_body track_change update_roles
    change_body-ok n t e = elim (Bool-cases (same_role user.role role)) [
      | inl same ↦ (after (rw same at e), inl (same_role-eq user.role role same))
      | inr differ ↦ elim (Bool-cases (lacks_staff db user.id user.role role s)) [
        | inl lacks ↦ absurd (refused (rw (differ, lacks) at e))
        | inr has ↦ (after (rw (differ, has) at e), inr has)
      ]
    ]
      where
        refused :
            (◌≡◌ {A = Result ℕ × AdminStore}
              (err (bad_request "At least one admin and one moderator must remain assigned."), s)
              (ok n, t))
            → ⊥
        refused e = cc

        after :
            update_roles db user.id role (record s { periods = (changed user).periods }) ≡ (ok n, t)
            → t ≡ changed user
        after e =
            let counted = db.user.update_many_lem (is_user user.id) (with_role role) s.users in
            sym (ap (λ (x : Result ℕ × AdminStore). x.1) e)
            ∙ ap (λ (x : ℕ × List User). record { users = x.1; periods = (changed user).periods })
                counted
