-- ===== src/Handler/Listings.antt =====
-- internal/handler/auth.go: ListRoles, ListPermissions and ListAuditEvents, and
-- GetUserRoleAssignments of internal/handler/tenant.go.
pub mod Bounds
use iam_go_auth.Base.{
  ℕ, String, Bool, ◌||◌, Option, none, some, List, map, ltb, ◌==◌, if◌then◌else◌,
}
use iam_go_auth.Db.Models.{Permission, AuditEvent}
use iam_go_auth.Db.Permissions.{list_permissions}
use iam_go_auth.Db.Listings.{
  RoleRow, AssignmentRow, list_roles_with_permissions, get_user_role_assignments,
}
use iam_go_auth.Db.Log.{list_audit_events}
use iam_go_auth.Rpc.{M, pure, ◌>>=◌, ◌>>◌, or_raise, must, internal, invalid_argument}
use iam_go_auth.Handler.{AuthHandler, Identity, require_perm, active_tenant}

-- authv1.RoleAssignment
pub record RoleAssignment : Type 0 where
  pub role : String
  pub project_id : String
  pub project_slug : String

-- The zero value of a Go string where there is none.
abbrev pub or_empty : Option String → String
or_empty none = ""
or_empty (some s) = s

-- An int32 of the request as its bits: from 2 ^ 31 on it is negative.
abbrev pub audit_limit : ℕ → ℕ
audit_limit requested = if requested == 0 || ltb 200 requested then 50 else requested

module _ (h : AuthHandler) (ctx : Identity) where
  unfoldable pub list_roles_rpc : M (List RoleRow)
  list_roles_rpc = do
    require_perm ctx "role:read"
    tenant ← active_tenant h ctx
    must (list_roles_with_permissions tenant) internal "failed to list roles"

  unfoldable pub list_permissions_rpc : M (List Permission)
  list_permissions_rpc = do
    require_perm ctx "role:read"
    must list_permissions internal "failed to list permissions"

  unfoldable pub list_audit_events_rpc : ℕ → M (List AuditEvent)
  list_audit_events_rpc limit = do
    require_perm ctx "audit:read"
    tenant ← active_tenant h ctx
    must (list_audit_events tenant (audit_limit limit)) internal "failed to list audit events"

  abbrev pub assignment_info : AssignmentRow → RoleAssignment
  assignment_info r = record {
    role = r.role;
    project_id = elim r.project_id [ none ↦ "" | some p ↦ h.uuid_string p ];
    project_slug = or_empty r.project_slug;
  }

  unfoldable pub get_user_role_assignments_rpc : String → M (List RoleAssignment)
  get_user_role_assignments_rpc user_id = do
    require_perm ctx "role:read"
    tenant ← active_tenant h ctx
    uid ← or_raise (h.uuid_parse user_id) invalid_argument "invalid user id"
    rows ← must (get_user_role_assignments uid tenant) internal "failed to load role assignments"
    pure (map assignment_info rows)
