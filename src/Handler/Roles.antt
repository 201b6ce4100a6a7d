-- ===== src/Handler/Roles.antt =====
-- internal/handler/auth.go: the custom roles of a tenant and their permissions, and withTenant of
-- internal/handler/tenant.go, the transaction that they are written in.
pub mod Creation
use iam_go_auth.Base.{ℕ, String, Bool, true, false, Option, none, some, str_eq}
use iam_go_auth.Db.Models.{Db, Role}
use iam_go_auth.Db.Query.{Query, row}
use iam_go_auth.Db.Roles.{create_role, update_role, delete_role, get_tenant_role}
use iam_go_auth.Db.Permissions.{grant_permission_to_role, revoke_permission_from_role}
use iam_go_auth.Rpc.{
  M, World, Status, Code, ok, pure, raise, ◌>>=◌, ◌>>◌, or_raise, fail_if, must, in_tx, internal,
  invalid_argument, failed_precondition, already_exists, not_found,
}
use iam_go_auth.Handler.{AuthHandler, Identity, require_perm, active_tenant, audit, is_builtin_role}
use iam_go_auth.Handler.Validate.{set_tenant}

-- SET LOCAL ROLE iam_rls: a role that is held to the policies.
unfoldable pub set_role_rls : Query (Unit {0})
set_role_rls now db = row (tt, record db { bypass_rls = false })

-- The role and the setting are local to the transaction: they end with it.
unfoldable pub reset_session : Db → M (Unit {0})
reset_session before w = (
  ok tt,
  record w { db = record w.db { bypass_rls = before.bypass_rls; app_tenant = before.app_tenant } },
)

-- withTenant: every error of it becomes the one status that its caller answers with.
unfoldable pub with_tenant : {A : Type 0} → ℕ → Query A → Code → String → M A
unfolding set_role_rls set_tenant reset_session
with_tenant tenant q code message w =
    let e : Status = record { code = code; message = message } in
    (do
      a ← in_tx e e (do
        must set_role_rls code message
        must (set_tenant tenant) code message
        must q code message)
      reset_session w.db
      pure a)
      w

module _ (h : AuthHandler) (ctx : Identity) where
  unfoldable pub create_role_rpc : String → String → M Role
  unfolding with_tenant
  create_role_rpc name description = do
    require_perm ctx "role:write"
    tenant ← active_tenant h ctx
    fail_if (str_eq name "") invalid_argument "role name is required"
    fail_if (is_builtin_role name) failed_precondition "name reserved for a built-in role"
    role ←
        with_tenant tenant (create_role name description tenant) already_exists
          "role already exists"
    audit h ctx "role.create" name ""
    pure role

  unfoldable pub update_role_rpc : String → String → M Role
  unfolding with_tenant
  update_role_rpc name description = do
    require_perm ctx "role:write"
    tenant ← active_tenant h ctx
    fail_if (is_builtin_role name) failed_precondition "cannot modify a built-in role"
    with_tenant tenant (update_role name description tenant) not_found
        "role not found in this tenant"

  unfoldable pub delete_role_rpc : String → M Bool
  unfolding with_tenant
  delete_role_rpc name = do
    require_perm ctx "role:write"
    tenant ← active_tenant h ctx
    fail_if (is_builtin_role name) failed_precondition "cannot delete a built-in role"
    must (get_tenant_role name tenant) not_found "role not found in this tenant"
    with_tenant tenant (delete_role name tenant) internal "failed to delete role"
    audit h ctx "role.delete" name ""
    pure true

  unfoldable pub perm_role_guard : String → ℕ → M Role
  perm_role_guard role_name tenant = do
    fail_if (is_builtin_role role_name) failed_precondition
        "cannot modify a built-in role's permissions"
    must (get_tenant_role role_name tenant) not_found "role not found in this tenant"

  unfoldable pub grant_permission : String → String → M Bool
  unfolding with_tenant perm_role_guard
  grant_permission role_name permission_name = do
    require_perm ctx "role:write"
    tenant ← active_tenant h ctx
    perm_role_guard role_name tenant
    with_tenant tenant (grant_permission_to_role role_name permission_name tenant) internal
        "failed to grant permission"
    audit h ctx "permission.grant" role_name permission_name
    pure true

  unfoldable pub revoke_permission : String → String → M Bool
  unfolding with_tenant perm_role_guard
  revoke_permission role_name permission_name = do
    require_perm ctx "role:write"
    tenant ← active_tenant h ctx
    perm_role_guard role_name tenant
    with_tenant tenant (revoke_permission_from_role role_name permission_name tenant) internal
        "failed to revoke permission"
    audit h ctx "permission.revoke" role_name permission_name
    pure true
