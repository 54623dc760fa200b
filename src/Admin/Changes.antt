-- ===== src/Admin/Changes.antt =====
-- What `changeRoles` keeps: the staff, and the agreement of every user's periods with the role.
use text.Mathlib.Text.{◌==◌}
use trust_post.Common.{
  ℕ, ◌-◌, ◌≤◌, ◌≡◌, ◌≢◌, sym, ap, subst, ◌∙◌, String, true, false, not, List, [], ◌∷◌, Memᴰ, All,
  ltb, nat_eq, if◌then◌else◌, Bool-cases, Option-cases, inl, inr, ◌⊎◌, arith, eq_iff,
}
use trust_post.Errors.{not_found, ok}
use trust_post.Actions.{proceed, guard, pure}
use trust_post.Prisma.{update_where, run-cases}
use trust_post.Prisma.Lists.{update_where-All}
use trust_post.Roles.{UserRoles, same_role, same_role-eq}
use trust_post.RolePeriods.{UserRolePeriod, RoleChange, is_role_tracked}
use trust_post.RolePeriods.History.{
  active_roles, tracked, handle_role_change-tracked, handle_role_change_other,
}
use trust_post.Admin.{
  User, AdminStore, AdminDatabase, is_user, with_role, count_after, lacks_staff, change_body,
  change_roles,
}
use trust_post.Admin.Staff.{
  staff, others, HasUniqueUsers, get_count_lem, others-le-staff, staff_of_new, IsSplit,
  unique-IsSplit, staff_same, HasStaff, changed, change_body-ok,
}

-- Each user's active periods show the user's role.
abbrev pub IsTracked : AdminStore → Type 0
IsTracked s = All (λ (u : User). active_roles u.id s.periods ≡ tracked u.role) s.users

module _ (db : AdminDatabase) (period_id closed_at started_at : ℕ) (changed_by_id : String)
    (role : UserRoles) (s : AdminStore) where
  module _ (user : User) (listed : Memᴰ user s.users) where
    -- A count that passed the check is the count of a role that stays.
    role_stays :
        (r : UserRoles)
        → ltb (count_after db user.id user.role role r s) 1 ≡ false
        → 1 ≤ staff r (update_where (is_user user.id) (with_role role) s.users)
    unfolding count_after is_user
    role_stays r enough = elim (Bool-cases (same_role role r)) [
      | inl gains ↦
          let new_one : r ≡ role = sym (same_role-eq role r gains) in
          rw new_one (omega (arith, staff_of_new user.id role s.users listed (self user.id)))
      | inr stays ↦
          omega (
            arith,
            others-le-staff user.id role r s.users,
            get_count_lem db user.id r s,
            kept stays,
          )
    ]
      where
        self : (id : String) → id == id ≡ true
        self id = ground (arith, eq_iff id id)

        kept : same_role role r ≡ false → 1 ≤ others user.id r s.users
        kept stays = ground (arith, rw stays at enough, get_count_lem db user.id r s)

    changed-HasStaff :
        HasUniqueUsers s.users
        → HasStaff s.users
        → (user.role ≡ role) ⊎ (lacks_staff db user.id user.role role s ≡ false)
        → HasStaff (update_where (is_user user.id) (with_role role) s.users)
    unfolding lacks_staff
    changed-HasStaff unique had (inl same) =
        let split = unique-IsSplit s.users unique listed in
        record {
          admins = rw (staff_same user role UserRoles.admin s.users same split) had.admins;
          moderators =
              rw (staff_same user role UserRoles.moderator s.users same split) had.moderators;
        }
    changed-HasStaff unique had (inr has) = record {
      admins = role_stays UserRoles.admin (ground (arith, has));
      moderators = role_stays UserRoles.moderator (ground (arith, has));
    }

    change_of_user : RoleChange
    change_of_user = record {
      user_id = user.id;
      user_name = user.name;
      old_role = user.role;
      new_role = role;
      changed_by_id = changed_by_id;
    }

    changed-IsTracked :
        HasUniqueUsers s.users
        → IsTracked s
        → IsTracked (changed db period_id closed_at started_at changed_by_id role s user)
    unfolding is_user with_role
    changed-IsTracked unique h =
        update_where-All (is_user user.id) (with_role role)
          (λ v. ((v ≡ user) ⊎ (v.id ≢ user.id)) × (active_roles v.id s.periods ≡ tracked v.role))
          (λ v. active_roles v.id periods ≡ tracked v.role) row s.users
          (both s.users (unique-IsSplit s.users unique listed) h)
      where
        periods : List UserRolePeriod
        periods = (changed db period_id closed_at started_at changed_by_id role s user).periods

        both :
            (vs : List User)
            → IsSplit user vs
            → All (λ (v : User). active_roles v.id s.periods ≡ tracked v.role) vs
            → All
                (λ v.
                  ((v ≡ user) ⊎ (v.id ≢ user.id)) × (active_roles v.id s.periods ≡ tracked v.role))
                vs
        both [] split h = tt
        both (v ∷ vs) (split, splits) (h, hs) = ((split, h), both vs splits hs)

        row :
            (v : User)
            → ((v ≡ user) ⊎ (v.id ≢ user.id)) × (active_roles v.id s.periods ≡ tracked v.role)
            → active_roles (if is_user user.id v then with_role role v else v).id periods
              ≡ tracked (if is_user user.id v then with_role role v else v).role
        row v (inl own, h) =
            let own_id : v.id == user.id ≡ true =
              (eq_iff v.id user.id).1 (ap (λ (u : User). u.id) own) in
            rw own_id (
              subst (λ k. active_roles k periods ≡ tracked role) (sym (ap (λ (u : User). u.id) own))
                (handle_role_change-tracked db.user_role_period period_id closed_at started_at
                  (record {
                    user_id = user.id;
                    user_name = user.name;
                    old_role = user.role;
                    new_role = role;
                    changed_by_id = changed_by_id;
                  })
                  s.periods
                  (subst (λ (u : User). active_roles u.id s.periods ≡ tracked u.role) own h)))
        row v (inr other, h) =
            let other_id : v.id == user.id ≡ false = ground (arith, eq_iff v.id user.id) in
            rw other_id (
              handle_role_change_other db.user_role_period period_id closed_at started_at
                (record {
                  user_id = user.id;
                  user_name = user.name;
                  old_role = user.role;
                  new_role = role;
                  changed_by_id = changed_by_id;
                })
                v.id s.periods other
              ∙ h)

  -- What a change that is not refused has, the call has.
  change_keeps :
      (id : String) (P : AdminStore → Type 0)
      → P s
      → ((user : User) (n : ℕ) (t : AdminStore)
          → Memᴰ user s.users
          → change_body db period_id closed_at started_at user changed_by_id role s ≡ (ok n, t)
          → P t)
      → P (change_roles db period_id closed_at started_at id changed_by_id role s).1
  unfolding change_roles
  change_keeps id P h good = elim (Option-cases (db.user.find_first (is_user id) s.users)) [
    | inl missing ↦ rw missing h
    | inr (user, found) ↦
        elim (run-cases db.transaction
          (change_body db period_id closed_at started_at user changed_by_id role) s) [
            | inl (n, t, e, ends) ↦
                let kept = good user n t (db.user.find_first-some (is_user id) s.users found).0 e in
                rw (found, ends) (answered n t kept)
            | inr (f, t, e, ends) ↦ rw (found, ends) h
          ]
  ]
    where
      answered :
          (n : ℕ) (t : AdminStore)
          → P t
          → P
              (proceed {B = String}
                (guard (not (nat_eq n 0)) (not_found "User not found") t)
                (λ _. pure "User roles updated successfully")).1
      answered n t kept = elim (Bool-cases (nat_eq n 0)) [
        | inl gone ↦ rw gone kept
        | inr there ↦ rw there kept
      ]

  -- Where no two users have one id and there are an administrator and a moderator, so there are after every call of
  -- `changeRoles`, whatever it answers.
  pub change_roles-HasStaff :
      (id : String)
      → HasUniqueUsers s.users
      → HasStaff s.users
      → HasStaff (change_roles db period_id closed_at started_at id changed_by_id role s).1.users
  change_roles-HasStaff id unique had =
      change_keeps id (λ t. HasStaff t.users) had
        (λ user n t listed e.
          let (same, why) =
            change_body-ok db period_id closed_at started_at changed_by_id role s user n t e in
          rw same (changed-HasStaff user listed unique had why))

  -- Where no two users have one id and each user's active periods show the user's role, so they do after every call of
  -- `changeRoles`.
  pub change_roles-IsTracked :
      (id : String)
      → HasUniqueUsers s.users
      → IsTracked s
      → IsTracked (change_roles db period_id closed_at started_at id changed_by_id role s).1
  change_roles-IsTracked id unique h = change_keeps id IsTracked h (λ user n t listed e.
      let (same, why) =
        change_body-ok db period_id closed_at started_at changed_by_id role s user n t e in
      rw same (changed-IsTracked user listed unique h))

  count_of_old :
      (user : User) (r : UserRoles)
      → user.role ≡ r
      → role ≢ r
      → ltb (count_after db user.id user.role role r s) 1 ≡ false
      → 2 ≤ others user.id r s.users
  unfolding count_after
  count_of_old user r was differ enough =
      let old_same : same_role user.role r ≡ true = rw was (ground arith) in
      let new_other : same_role role r ≡ false = unlike in
      let counted : ltb (others user.id r s.users - 1) 1 ≡ false =
        rw (old_same, new_other, get_count_lem db user.id r s) at enough in
      ground arith
    where
      unlike : same_role role r ≡ false
      unlike = elim (Bool-cases (same_role role r)) [
        | inl same ↦ absurd (differ (same_role-eq role r same))
        | inr other ↦ other
      ]

  -- A change that takes from a user the role of an administrator or a moderator, and that is not refused, was made with at
  -- least two other users who have the role.
  pub demotion_needs_two :
      (user : User) (n : ℕ) (t : AdminStore) (r : UserRoles)
      → is_role_tracked r ≡ true
      → user.role ≡ r
      → role ≢ r
      → change_body db period_id closed_at started_at user changed_by_id role s ≡ (ok n, t)
      → 2 ≤ others user.id r s.users
  unfolding lacks_staff is_role_tracked
  demotion_needs_two user n t r staffed was differ e =
      elim (change_body-ok db period_id closed_at started_at changed_by_id role s user n t e).1 [
        | inl same ↦ absurd (differ (sym same ∙ was))
        | inr has ↦ count_of_old user r was differ (passed r staffed has)
      ]
    where
      passed :
          (r : UserRoles)
          → is_role_tracked r ≡ true
          → lacks_staff db user.id user.role role s ≡ false
          → ltb (count_after db user.id user.role role r s) 1 ≡ false
      passed UserRoles.user staffed has = cc
      passed UserRoles.admin staffed has = ground (arith, has)
      passed UserRoles.moderator staffed has = ground (arith, has)
