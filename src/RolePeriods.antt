-- ===== src/RolePeriods.antt =====
-- modules/user-role-periods/repo/user-role-period.repo.ts and services/user-role-period.service.ts
-- under src: the periods in which a user is a moderator or an administrator. The table is a
-- parameter; the id of a new row and the readings of the clock are arguments. Log lines are left
-- out.
pub mod History
mod Tests
use text.Mathlib.Text.{◌==◌}
use trust_post.Common.{
  ℕ, String, Bool, true, false, not, ◌&&◌, ◌||◌, Option, none, some, List, [], ◌∷◌, if◌then◌else◌,
  is_some,
}
use trust_post.Prisma.{Table}
use trust_post.Roles.{UserRoles, same_role}

pub record UserRolePeriod : Type 0 where
  pub id : ℕ
  pub name : String
  pub user_id : String
  pub role : UserRoles
  pub start_date : ℕ
  pub end_date : Option ℕ
  pub changed_by_id : String

-- The argument of `handleRoleChange`.
pub record RoleChange : Type 0 where
  pub user_id : String
  pub user_name : String
  pub old_role : UserRoles
  pub new_role : UserRoles
  pub changed_by_id : String

-- `where: { userId, endDate: null }`
unfoldable pub is_active : String → UserRolePeriod → Bool
is_active user_id p = p.user_id == user_id && not (is_some p.end_date)

unfoldable pub is_role_tracked : UserRoles → Bool
is_role_tracked role = same_role role UserRoles.moderator || same_role role UserRoles.admin

-- `data: { endDate: new Date() }`
pub end_at : ℕ → UserRolePeriod → UserRolePeriod
end_at now p = record p { end_date = some now }

-- The row that `createPeriod` makes.
pub period_of : ℕ → ℕ → RoleChange → UserRolePeriod
period_of id now change = record {
  id = id;
  name = change.user_name;
  user_id = change.user_id;
  role = change.new_role;
  start_date = now;
  end_date = none;
  changed_by_id = change.changed_by_id;
}

module _ (db : Table UserRolePeriod) where
  pub find_active_role_period : String → List UserRolePeriod → Option UserRolePeriod
  unfolding is_active
  find_active_role_period user_id rows = db.find_latest (λ p. p.start_date) (is_active user_id) rows

  pub close_active_period : ℕ → String → List UserRolePeriod → List UserRolePeriod
  unfolding is_active end_at
  close_active_period now user_id rows = (db.update_many (is_active user_id) (end_at now) rows).1

  pub create_period : ℕ → ℕ → RoleChange → List UserRolePeriod → List UserRolePeriod
  unfolding period_of
  create_period id now change rows = db.create (period_of id now change) rows

  pub handle_role_change :
      ℕ → (closed_at started_at : ℕ) → RoleChange → List UserRolePeriod → List UserRolePeriod
  unfolding is_role_tracked close_active_period create_period
  handle_role_change id closed_at started_at change rows =
      let is_old_role_tracked = is_role_tracked change.old_role in
      let is_new_role_tracked = is_role_tracked change.new_role in
      if same_role change.old_role change.new_role
      then rows
      else if not is_old_role_tracked && is_new_role_tracked
      then create_period id started_at change rows
      else if is_old_role_tracked && not is_new_role_tracked
      then close_active_period closed_at change.user_id rows
      else if is_old_role_tracked && is_new_role_tracked
      then create_period id started_at change (close_active_period closed_at change.user_id rows)
      else rows
