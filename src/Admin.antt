-- ===== src/Admin.antt =====
-- `changeRoles` of modules/admin/services/admin.service.ts under src, with the queries of
-- modules/users/repo/users-repo.ts that it runs. The queue's job after a demotion is the
-- reassignment of the moderator's posts, which changes neither table here. Log lines are left out.
pub mod Staff
pub mod Changes
mod Tests
use text.Mathlib.Text.{◌==◌}
use trust_post.Common.{
  ℕ, ◌+◌, ◌-◌, String, Bool, true, false, not, ◌&&◌, ◌||◌, Option, none, some, List, length, ltb,
  nat_eq, if◌then◌else◌,
}
use trust_post.Errors.{not_found, bad_request, Result, ok, err}
use trust_post.Actions.{Action, pure, guard, require, ◌>>=◌, ◌>>◌, proceed}
use trust_post.Prisma.{Table, Transaction}
use trust_post.Roles.{UserRoles, same_role}
use trust_post.RolePeriods.{UserRolePeriod, RoleChange, handle_role_change}

-- The columns of a user that the function reads.
pub record User : Type 0 where
  pub id : String
  pub name : String
  pub role : UserRoles

pub record AdminStore : Type 0 where
  pub users : List User
  pub periods : List UserRolePeriod

pub record AdminDatabase : Type 0 where
  pub user : Table User
  pub user_role_period : Table UserRolePeriod
  pub transaction : Transaction AdminStore ℕ

unfoldable pub is_user : String → User → Bool
is_user id u = u.id == id

unfoldable pub has_role : UserRoles → User → Bool
has_role role u = same_role u.role role

-- `data: { role }`
unfoldable pub with_role : UserRoles → User → User
with_role role u = record u { role = role }

-- `n -= 1` and `n += 1` of a count, if the test holds.
abbrev less_if : Bool → ℕ → ℕ
less_if b n = if b then n - 1 else n

abbrev more_if : Bool → ℕ → ℕ
more_if b n = if b then n + 1 else n

module _ (db : AdminDatabase) where
  -- `getCount(r)`: the size of the group of role `r` among the other users.
  unfoldable pub get_count : String → UserRoles → AdminStore → ℕ
  unfolding is_user has_role
  get_count id r s = length (db.user.find_many (λ u. not (is_user id u) && has_role r u) s.users)

  -- The count of a role after the change, as the code computes it. A count is taken from only if
  -- the user has the role, and added to only if the new role is this one, which are two roles; so the
  -- difference that the source would have negative, and that is 0 here, is below 1 in both.
  unfoldable pub count_after : String → UserRoles → UserRoles → UserRoles → AdminStore → ℕ
  unfolding get_count
  count_after id old role r s =
      more_if (same_role role r) (less_if (same_role old r) (get_count id r s))

  -- `admins < 1 || moderators < 1`
  unfoldable pub lacks_staff : String → UserRoles → UserRoles → AdminStore → Bool
  unfolding count_after
  lacks_staff id old role s =
      ltb (count_after id old role UserRoles.admin s) 1
      || ltb (count_after id old role UserRoles.moderator s) 1

  unfoldable pub update_roles : String → UserRoles → Action AdminStore ℕ
  unfolding is_user with_role
  update_roles id role s =
      let (count, users) = db.user.update_many (is_user id) (with_role role) s.users in
      (ok count, record s { users = users })

  -- `handleRoleChange`, as a call on the whole store.
  unfoldable pub track_change :
      ℕ → (closed_at started_at : ℕ) → RoleChange → Action AdminStore (Unit {0})
  track_change period_id closed_at started_at change s = (
    ok tt,
    record s {
      periods =
          handle_role_change db.user_role_period period_id closed_at started_at change s.periods;
    },
  )

  -- The function that runs in the transaction.
  unfoldable pub change_body :
      ℕ → (closed_at started_at : ℕ) → User → String → UserRoles → Action AdminStore ℕ
  unfolding lacks_staff track_change update_roles
  change_body period_id closed_at started_at user changed_by_id role s =
      (do
        guard (same_role user.role role || not (lacks_staff user.id user.role role s))
            (bad_request "At least one admin and one moderator must remain assigned.")
        track_change period_id closed_at started_at (record {
          user_id = user.id;
          user_name = user.name;
          old_role = user.role;
          new_role = role;
          changed_by_id = changed_by_id;
        })
        update_roles user.id role)
        s

  unfoldable pub change_roles :
      ℕ → (closed_at started_at : ℕ) → String → String → UserRoles → Action AdminStore String
  unfolding change_body
  change_roles period_id closed_at started_at id changed_by_id role s =
      (do
        user ← require (db.user.find_first (is_user id) s.users) (not_found "User not found")
        result ←
            db.transaction.run (change_body period_id closed_at started_at user changed_by_id role)
        guard (not (nat_eq result 0)) (not_found "User not found")
        pure "User roles updated successfully")
        s
