-- ===== src/Handler/Assignments.antt =====
-- internal/handler/auth.go: AssignRole, AssignRoleBulk and RevokeRole, with validateAssign of
-- internal/handler/tenant.go.
pub mod Given
pub mod Kept
pub mod Bulk
use iam_go_auth.Base.{
  ℕ, ◌+◌, String, Bool, true, false, Option, none, some, List, [], ◌∷◌, length, str_append, decimal,
}
use iam_go_auth.Db.Roles.{
  get_role_in_tenant, get_role_by_name, assign_role_to_user, revoke_role_from_user,
}
use iam_go_auth.Cache.{invalidate_perms}
use iam_go_auth.Rpc.{
  M, pure, ◌>>=◌, ◌>>◌, or_raise, when, must, succeeded, internal, invalid_argument, not_found,
}
use iam_go_auth.Handler.{
  AuthHandler, Identity, require_perm, active_tenant, audit, parse_optional_uuid,
}
use iam_go_auth.Handler.Roles.{with_tenant}
use iam_go_auth.Handler.Tenants.{check_project}

-- The counter of AssignRoleBulk, an int32, and the ids that failed. A message of gRPC is too small
-- for 2^31 ids.
abbrev pub tally : String → Bool → ℕ × List String → ℕ × List String
tally uid true (assigned, failed) = (assigned + 1, failed)
tally uid false (assigned, failed) = (assigned, uid ∷ failed)

-- fmt.Sprintf("%d assigned, %d failed", assigned, len(failed))
abbrev pub bulk_detail : ℕ → ℕ → String
bulk_detail assigned failed =
    str_append (decimal assigned) (str_append " assigned, " (str_append (decimal failed) " failed"))

module _ (h : AuthHandler) where
  unfoldable pub validate_assign : String → String → ℕ → M (Unit {0})
  unfolding check_project
  validate_assign role_name project_id tenant = do
    must (get_role_in_tenant role_name tenant) not_found "role not found in this tenant"
    check_project h project_id tenant

  module _ (role_name : String) (tenant : ℕ) (project : Option ℕ) where
    -- One round of the loop: whether the id was assigned the role.
    pub assign_parsed : String → Option ℕ → M Bool
    unfolding with_tenant invalidate_perms succeeded
    assign_parsed uid none = pure false
    assign_parsed uid (some user) = do
      done ← succeeded (
          with_tenant tenant (assign_role_to_user user role_name tenant project) internal
            "failed to assign role")
      when done (invalidate_perms h.cache uid)
      pure done

    unfoldable pub assign_each : List String → M (ℕ × List String)
    unfolding assign_parsed
    assign_each [] = pure (0, [])
    assign_each (uid ∷ uids) = do
      done ← assign_parsed uid (h.uuid_parse uid)
      rest ← assign_each uids
      pure (tally uid done rest)

module _ (h : AuthHandler) (ctx : Identity) where
  unfoldable pub assign_role : String → String → String → M Bool
  unfolding with_tenant invalidate_perms validate_assign
  assign_role user_id role_name project_id = do
    require_perm ctx "role:assign"
    tenant ← active_tenant h ctx
    uid ← or_raise (h.uuid_parse user_id) invalid_argument "invalid user id"
    validate_assign h role_name project_id tenant
    with_tenant tenant (assign_role_to_user uid role_name tenant (parse_optional_uuid h project_id))
        internal "failed to assign role"
    invalidate_perms h.cache user_id
    audit h ctx "role.assign" user_id role_name
    pure true

  unfoldable pub assign_role_bulk : List String → String → String → M (ℕ × List String)
  unfolding assign_each validate_assign
  assign_role_bulk user_ids role_name project_id = do
    require_perm ctx "role:assign"
    tenant ← active_tenant h ctx
    validate_assign h role_name project_id tenant
    done ← assign_each h role_name tenant (parse_optional_uuid h project_id) user_ids
    audit h ctx "role.assign_bulk" role_name (bulk_detail done.0 (length done.1))
    pure done

  unfoldable pub revoke_role : String → String → String → M Bool
  unfolding with_tenant invalidate_perms
  revoke_role user_id role_name project_id = do
    require_perm ctx "role:assign"
    tenant ← active_tenant h ctx
    uid ← or_raise (h.uuid_parse user_id) invalid_argument "invalid user id"
    must (get_role_by_name role_name) not_found "role not found"
    with_tenant tenant
        (revoke_role_from_user uid role_name tenant (parse_optional_uuid h project_id)) internal
        "failed to revoke role"
    invalidate_perms h.cache user_id
    audit h ctx "role.revoke" user_id role_name
    pure true
