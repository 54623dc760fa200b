-- ===== src/Admin/Tests.antt =====
-- The theorems of `changeRoles` at a concrete staff.
use trust_post.Common.{◌≤◌, ◌≡◌, ◌≢◌, refl, String, none, [], ◌∷◌, arith}
use trust_post.Common.Text.{apart}
use trust_post.Errors.{ok}
use trust_post.Prisma.ListTable.{list_table, list_transaction}
use trust_post.Roles.{UserRoles}
use trust_post.RolePeriods.{UserRolePeriod, is_active, is_role_tracked}
use trust_post.Admin.{User, AdminStore, AdminDatabase, is_user, has_role, change_body, change_roles}
use trust_post.Admin.Staff.{HasUniqueUsers, HasStaff, others, changed}
use trust_post.Admin.Changes.{
  IsTracked, change_roles-HasStaff, change_roles-IsTracked, demotion_needs_two,
}

abbrev admin_database : AdminDatabase
admin_database = record {
  user = list_table;
  user_role_period = list_table;
  transaction = list_transaction;
}

abbrev member : String → UserRoles → User
member id role = record { id = id; name = "Ann"; role = role }

abbrev active_period : String → UserRoles → UserRolePeriod
active_period id role = record {
  id = 1;
  name = "Ann";
  user_id = id;
  role = role;
  start_date = 100;
  end_date = none;
  changed_by_id = "a";
}

abbrev people : AdminStore
people = record {
  users =
      member "a" UserRoles.admin
      ∷ member "b" UserRoles.admin
      ∷ member "c" UserRoles.admin
      ∷ member "m" UserRoles.moderator
      ∷ member "u" UserRoles.user
      ∷ [];
  periods =
      active_period "a" UserRoles.admin
      ∷ active_period "b" UserRoles.admin
      ∷ active_period "c" UserRoles.admin
      ∷ active_period "m" UserRoles.moderator
      ∷ [];
}

people-HasUniqueUsers : HasUniqueUsers people.users
people-HasUniqueUsers = (
  (apart refl, (apart refl, (apart refl, (apart refl, tt)))),
  (
    (apart refl, (apart refl, (apart refl, tt))),
    ((apart refl, (apart refl, tt)), ((apart refl, tt), (tt, tt))),
  ),
)

people-HasStaff : HasStaff people.users
unfolding has_role
people-HasStaff = record { admins = omega arith; moderators = omega arith }

people-IsTracked : IsTracked people
unfolding is_active is_role_tracked
people-IsTracked = (refl, (refl, (refl, (refl, (refl, tt)))))

change_roles-HasStaff_example :
    HasStaff (change_roles admin_database 9 500 501 "c" "a" UserRoles.user people).1.users
change_roles-HasStaff_example =
    change_roles-HasStaff admin_database 9 500 501 "a" UserRoles.user people "c"
      people-HasUniqueUsers people-HasStaff

change_roles-IsTracked_example :
    IsTracked (change_roles admin_database 9 500 501 "c" "a" UserRoles.user people).1
change_roles-IsTracked_example =
    change_roles-IsTracked admin_database 9 500 501 "a" UserRoles.user people "c"
      people-HasUniqueUsers people-IsTracked

user_is_not_admin : UserRoles.user ≢ UserRoles.admin
user_is_not_admin e = cc

demoted :
    change_body admin_database 9 500 501 (member "c" UserRoles.admin) "a" UserRoles.user people ≡ (
      ok 1,
      changed admin_database 9 500 501 "a" UserRoles.user people (member "c" UserRoles.admin),
    )
unfolding change_body is_user has_role
demoted = refl

demotion_needs_two_example : 2 ≤ others "c" UserRoles.admin people.users
unfolding is_role_tracked
demotion_needs_two_example =
    demotion_needs_two admin_database 9 500 501 "a" UserRoles.user people
      (member "c" UserRoles.admin) 1
      (changed admin_database 9 500 501 "a" UserRoles.user people (member "c" UserRoles.admin))
      UserRoles.admin refl refl user_is_not_admin demoted
