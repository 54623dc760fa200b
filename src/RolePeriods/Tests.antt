-- ===== src/RolePeriods/Tests.antt =====
-- The theorems of the role periods at a concrete history.
use trust_post.Common.{◌≡◌, refl, String, none, List, [], ◌∷◌}
use trust_post.Common.Text.{apart}
use trust_post.Prisma.ListTable.{list_table}
use trust_post.Roles.{UserRoles}
use trust_post.RolePeriods.{
  UserRolePeriod, RoleChange, is_active, is_role_tracked, handle_role_change,
}
use trust_post.RolePeriods.History.{
  active_roles, tracked, handle_role_change-tracked, handle_role_change_other,
}

abbrev period : String → UserRoles → UserRolePeriod
period user role = record {
  id = 1;
  name = "Ann";
  user_id = user;
  role = role;
  start_date = 100;
  end_date = none;
  changed_by_id = "root";
}

abbrev history : List UserRolePeriod
history = period "u1" UserRoles.moderator ∷ period "u2" UserRoles.admin ∷ []

abbrev promotion : RoleChange
promotion = record {
  user_id = "u1";
  user_name = "Ann";
  old_role = UserRoles.moderator;
  new_role = UserRoles.admin;
  changed_by_id = "root";
}

history-tracked : active_roles "u1" history ≡ tracked UserRoles.moderator
unfolding is_active is_role_tracked
history-tracked = refl

handle_role_change-tracked_example :
    active_roles "u1" (handle_role_change list_table 3 500 501 promotion history)
    ≡ tracked UserRoles.admin
handle_role_change-tracked_example =
    handle_role_change-tracked list_table 3 500 501 promotion history history-tracked

handle_role_change_other_example :
    active_roles "u2" (handle_role_change list_table 3 500 501 promotion history)
    ≡ active_roles "u2" history
handle_role_change_other_example =
    handle_role_change_other list_table 3 500 501 promotion "u2" history (apart refl)
