-- ===== src/Roles.antt =====
-- The enum `UserRoles` of prisma/schema.prisma, and the order of the roles that
-- common/guards/roles.guard.ts under src keeps.
use trust_post.Common.{ℕ, zero, suc, ◌≡◌, refl, Bool, true, nat_eq, nat_eq_iff, ap}

pub data UserRoles : Type 0 where
  user admin moderator : UserRoles

abbrev pub hierarchy : UserRoles → ℕ
hierarchy UserRoles.user = 1
hierarchy UserRoles.moderator = 2
hierarchy UserRoles.admin = 3

-- `a === b`
abbrev pub same_role : UserRoles → UserRoles → Bool
same_role a b = nat_eq (hierarchy a) (hierarchy b)

of_hierarchy : ℕ → UserRoles
of_hierarchy (suc zero) = UserRoles.user
of_hierarchy (suc (suc zero)) = UserRoles.moderator
of_hierarchy _ = UserRoles.admin

of_hierarchy_lem : (a : UserRoles) → of_hierarchy (hierarchy a) ≡ a
unfolding of_hierarchy
of_hierarchy_lem UserRoles.user = refl
of_hierarchy_lem UserRoles.moderator = refl
of_hierarchy_lem UserRoles.admin = refl

pub same_role-eq : (a b : UserRoles) → same_role a b ≡ true → a ≡ b
same_role-eq a b h =
    rw (← of_hierarchy_lem a)
      (rw (← of_hierarchy_lem b) (ap of_hierarchy ((nat_eq_iff (hierarchy a) (hierarchy b)).0 h)))
