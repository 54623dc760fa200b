-- ===== src/RolePeriods/History.antt =====
-- The active periods of a user agree with the user's role.
use text.Mathlib.TextPositions.{eq_refl}
use trust_post.Common.{
  ℕ, ◌≡◌, ◌≢◌, refl, sym, ap, ◌∙◌, subst, String, true, false, List, [], ◌∷◌, ◌++◌, if◌then◌else◌,
  Bool-cases, inl, inr, arith, eq_iff,
}
use mathlib.Core.List.{append-nil}
use trust_post.Prisma.{Table, update_where}
use trust_post.Roles.{UserRoles, same_role, same_role-eq}
use trust_post.RolePeriods.{
  UserRolePeriod, RoleChange, is_active, is_role_tracked, end_at, period_of, close_active_period,
  create_period, handle_role_change,
}

-- The roles of the user's periods that have not ended.
abbrev pub active_roles : String → List UserRolePeriod → List UserRoles
active_roles u [] = []
active_roles u (p ∷ rows) =
    if is_active u p then p.role ∷ active_roles u rows else active_roles u rows

-- The roles that the periods should show for a user of this role.
abbrev pub tracked : UserRoles → List UserRoles
tracked role = if is_role_tracked role then role ∷ [] else []

active_roles-append :
    (u : String) (rows : List UserRolePeriod) (p : UserRolePeriod)
    → active_roles u (rows ++ p ∷ [])
      ≡ active_roles u rows ++ (if is_active u p then p.role ∷ [] else [])
active_roles-append u [] p = ground arith
active_roles-append u (q ∷ rows) p = elim (Bool-cases (is_active u q)) [
  | inl act ↦ rw act (ap (λ l. q.role ∷ l) (active_roles-append u rows p))
  | inr past ↦ rw past (active_roles-append u rows p)
]

ended : (u : String) (now : ℕ) (p : UserRolePeriod) → is_active u (end_at now p) ≡ false
unfolding is_active end_at
ended u now p = ground arith

other_user :
    (u v : String) (p : UserRolePeriod) → v ≢ u → is_active u p ≡ true → is_active v p ≡ false
unfolding is_active
other_user u v p n h = ground (arith, eq_iff p.user_id u, eq_iff p.user_id v)

active_roles-closed :
    (u : String) (now : ℕ) (rows : List UserRolePeriod)
    → active_roles u (update_where (is_active u) (end_at now) rows) ≡ []
active_roles-closed u now [] = refl
active_roles-closed u now (p ∷ rows) = elim (Bool-cases (is_active u p)) [
  | inl act ↦ rw (act, ended u now p) (active_roles-closed u now rows)
  | inr past ↦ rw past (rw past (active_roles-closed u now rows))
]

active_roles-closed_other :
    (u v : String) (now : ℕ) (rows : List UserRolePeriod)
    → v ≢ u
    → active_roles v (update_where (is_active u) (end_at now) rows) ≡ active_roles v rows
active_roles-closed_other u v now [] n = refl
active_roles-closed_other u v now (p ∷ rows) n = elim (Bool-cases (is_active u p)) [
  | inl act ↦
      rw (act, ended v now p, other_user u v p n act) (active_roles-closed_other u v now rows n)
  | inr past ↦ rw past (rw (active_roles-closed_other u v now rows n))
]

started :
    (id now : ℕ) (change : RoleChange) → is_active change.user_id (period_of id now change) ≡ true
unfolding is_active period_of
started id now change = rw (eq_refl change.user_id)

started_other :
    (v : String) (id now : ℕ) (change : RoleChange)
    → v ≢ change.user_id
    → is_active v (period_of id now change) ≡ false
unfolding is_active period_of
started_other v id now change n = ground (arith, eq_iff change.user_id v)

module _ (db : Table UserRolePeriod) (id closed_at started_at : ℕ) (change : RoleChange) where
  create_own :
      (rows : List UserRolePeriod)
      → active_roles change.user_id rows ≡ []
      → active_roles change.user_id (create_period db id started_at change rows)
        ≡ change.new_role ∷ []
  unfolding create_period period_of
  create_own rows e = rw (db.create_lem (period_of id started_at change) rows) (
      rw (
        active_roles-append change.user_id rows (period_of id started_at change),
        e,
        started id started_at change,
      ))

  close_own :
      (rows : List UserRolePeriod)
      → active_roles change.user_id (close_active_period db closed_at change.user_id rows) ≡ []
  unfolding close_active_period
  close_own rows =
      subst (λ (x : ℕ × List UserRolePeriod). active_roles change.user_id x.1 ≡ [])
        (sym (db.update_many_lem (is_active change.user_id) (end_at closed_at) rows))
        (active_roles-closed change.user_id closed_at rows)

  module _ (v : String) (other : v ≢ change.user_id) where
    create_other :
        (rows : List UserRolePeriod)
        → active_roles v (create_period db id started_at change rows) ≡ active_roles v rows
    unfolding create_period
    create_other rows = rw (db.create_lem (period_of id started_at change) rows) (
        rw
          (
            active_roles-append v rows (period_of id started_at change),
            started_other v id started_at change other,
          )
          append_nil)
      where
        append_nil : active_roles v rows ++ [] ≡ active_roles v rows
        append_nil = append-nil (active_roles v rows)

    close_other :
        (rows : List UserRolePeriod)
        → active_roles v (close_active_period db closed_at change.user_id rows)
          ≡ active_roles v rows
    unfolding close_active_period
    close_other rows =
        subst (λ (x : ℕ × List UserRolePeriod). active_roles v x.1 ≡ active_roles v rows)
          (sym (db.update_many_lem (is_active change.user_id) (end_at closed_at) rows))
          (active_roles-closed_other change.user_id v closed_at rows other)

  -- If the user's active periods show the old role, then after the change they show the new one: one active period with the
  -- role if it is tracked, none if not.
  pub handle_role_change-tracked :
      (rows : List UserRolePeriod)
      → active_roles change.user_id rows ≡ tracked change.old_role
      → active_roles change.user_id (handle_role_change db id closed_at started_at change rows)
        ≡ tracked change.new_role
  unfolding handle_role_change
  handle_role_change-tracked rows e =
      elim (Bool-cases (same_role change.old_role change.new_role)) [
        | inl same ↦ rw same (rw (← same_role-eq change.old_role change.new_role same) e)
        | inr changed ↦ elim (Bool-cases (is_role_tracked change.old_role)) [
          | inl was ↦ elim (Bool-cases (is_role_tracked change.new_role)) [
            | inl now_is ↦
                rw (changed, was, now_is)
                  (create_own (close_active_period db closed_at change.user_id rows)
                    (close_own rows))
            | inr now_not ↦ rw (changed, was, now_not) (close_own rows)
          ]
          | inr was_not ↦ elim (Bool-cases (is_role_tracked change.new_role)) [
            | inl now_is ↦ rw (changed, was_not, now_is) (create_own rows (rw was_not at e))
            | inr now_not ↦ rw (changed, was_not, now_not) (rw was_not at e)
          ]
        ]
      ]

  -- The active periods of any other user stay.
  pub handle_role_change_other :
      (v : String) (rows : List UserRolePeriod)
      → v ≢ change.user_id
      → active_roles v (handle_role_change db id closed_at started_at change rows)
        ≡ active_roles v rows
  unfolding handle_role_change
  handle_role_change_other v rows other =
      elim (Bool-cases (same_role change.old_role change.new_role)) [
        | inl same ↦ rw same
        | inr changed ↦ elim (Bool-cases (is_role_tracked change.old_role)) [
          | inl was ↦ elim (Bool-cases (is_role_tracked change.new_role)) [
            | inl now_is ↦
                rw (changed, was, now_is)
                  (create_other v other (close_active_period db closed_at change.user_id rows)
                    ∙ close_other v other rows)
            | inr now_not ↦ rw (changed, was, now_not) (close_other v other rows)
          ]
          | inr was_not ↦ elim (Bool-cases (is_role_tracked change.new_role)) [
            | inl now_is ↦ rw (changed, was_not, now_is) (create_other v other rows)
            | inr now_not ↦ rw (changed, was_not, now_not)
          ]
        ]
      ]
