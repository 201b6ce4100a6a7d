-- ===== src/Handler/Tenants.antt =====
-- internal/handler/tenant.go: the caller's memberships and SwitchTenant, and the tenants, projects
-- and members that the administrators manage.
pub mod Projects
pub mod Switch
pub mod Founding
pub mod Removal
use iam_go_auth.Base.{
  ℕ, String, Bool, true, false, not, ◌||◌, none, List, map, str_eq, if◌then◌else◌,
}
use iam_go_auth.Db.Models.{User, Tenant, Project}
use iam_go_auth.Db.Query.{Answer, row, no_rows, failed}
use iam_go_auth.Db.Users.{get_user_by_id, get_user_by_email}
use iam_go_auth.Db.Tenants.{
  MembershipRow, MemberRow, list_memberships_by_user, is_active_member, create_tenant,
  create_membership, list_tenants, remove_member, list_members_by_tenant,
}
use iam_go_auth.Db.Projects.{create_project, list_projects_by_tenant, is_project_in_tenant}
use iam_go_auth.Db.Roles.{assign_role_in_tenant}
use iam_go_auth.Rpc.{
  M, Status, pure, raise, ◌>>=◌, ◌>>◌, or_raise, fail_if, exec, must, in_tx, internal,
  invalid_argument, permission_denied, already_exists, not_found,
}
use iam_go_auth.Handler.{
  AuthHandler, Identity, require_perm, active_tenant, audit, caller_id, parse_optional_uuid,
}
use iam_go_auth.Handler.Tokens.{TokenPair, issue_tokens}
use iam_go_auth.Handler.Roles.{with_tenant}

-- authv1.Membership
pub record MembershipInfo : Type 0 where
  pub tenant_id : String
  pub tenant_slug : String
  pub tenant_name : String
  pub status : String

-- authv1.Tenant
pub record TenantInfo : Type 0 where
  pub id : String
  pub slug : String
  pub name : String
  pub status : String

-- authv1.Project
pub record ProjectInfo : Type 0 where
  pub id : String
  pub tenant_id : String
  pub slug : String
  pub name : String

-- authv1.Member
pub record MemberInfo : Type 0 where
  pub user_id : String
  pub email : String
  pub status : String

abbrev pub tx_not_started : Status
tx_not_started = record { code = internal; message = "could not start tx" }

abbrev pub tx_not_committed : Status
tx_not_committed = record { code = internal; message = "could not commit tenant" }

-- user, err := h.q.GetUserByEmail(...) of AddMember
pub found_user : Answer User → M User
found_user (row u) = pure u
found_user no_rows = raise not_found "no user with that email"
found_user failed = raise internal "user lookup failed"

module _ (h : AuthHandler) where
  abbrev pub membership_info : MembershipRow → MembershipInfo
  membership_info r = record {
    tenant_id = h.uuid_string r.tenant_id;
    tenant_slug = r.tenant_slug;
    tenant_name = r.tenant_name;
    status = r.status;
  }

  abbrev pub tenant_info : Tenant → TenantInfo
  tenant_info t = record {
    id = h.uuid_string t.id;
    slug = t.slug;
    name = t.name;
    status = t.status;
  }

  abbrev pub project_info : Project → ProjectInfo
  project_info p = record {
    id = h.uuid_string p.id;
    tenant_id = h.uuid_string p.tenant_id;
    slug = p.slug;
    name = p.name;
  }

  abbrev pub member_info : MemberRow → MemberInfo
  member_info m = record { user_id = h.uuid_string m.user_id; email = m.email; status = m.status }

  -- A project that is named must belong to the tenant.
  unfoldable pub check_project : String → ℕ → M (Unit {0})
  check_project project_id tenant = if str_eq project_id "" then pure tt else (do
    pid ← or_raise (h.uuid_parse project_id) invalid_argument "invalid project id"
    found ←
        must (is_project_in_tenant pid tenant) invalid_argument
          "project does not belong to this tenant"
    fail_if (not found) invalid_argument "project does not belong to this tenant")

module _ (h : AuthHandler) (ctx : Identity) where
  unfoldable pub list_my_memberships : M (List MembershipInfo)
  list_my_memberships = do
    uid ← caller_id h ctx
    rows ← must (list_memberships_by_user uid) internal "failed to list memberships"
    pure (map (membership_info h) rows)

  unfoldable pub switch_tenant : String → String → M TokenPair
  unfolding check_project
  switch_tenant tenant_id project_id = do
    uid ← caller_id h ctx
    tid ← or_raise (h.uuid_parse tenant_id) invalid_argument "invalid tenant id"
    member ← must (is_active_member uid tid) permission_denied "not a member of that tenant"
    fail_if (not member) permission_denied "not a member of that tenant"
    check_project h project_id tid
    user ← must (get_user_by_id uid) not_found "user not found"
    audit h ctx "tenant.switch" tenant_id project_id
    issue_tokens h uid user.email tid (parse_optional_uuid h project_id)

  -- Begin to Commit of CreateTenant.
  unfoldable pub create_tenant_tx : ℕ → String → String → M Tenant
  create_tenant_tx uid slug name = in_tx tx_not_started tx_not_committed (do
    t ← must (create_tenant slug name) already_exists "tenant slug already taken"
    must (create_membership uid t.id) internal "could not enroll creator"
    must (assign_role_in_tenant uid "admin" t.id) internal "could not grant creator admin"
    pure t)

  unfoldable pub create_tenant_rpc : String → String → M TenantInfo
  unfolding create_tenant_tx
  create_tenant_rpc slug name = do
    require_perm ctx "tenant:write"
    fail_if (str_eq slug "" || str_eq name "") invalid_argument "slug and name are required"
    uid ← caller_id h ctx
    t ← create_tenant_tx uid slug name
    audit h ctx "tenant.create" (h.uuid_string t.id) slug
    pure (tenant_info h t)

  unfoldable pub list_tenants_rpc : M (List TenantInfo)
  list_tenants_rpc = do
    require_perm ctx "tenant:read"
    rows ← must list_tenants internal "failed to list tenants"
    pure (map (tenant_info h) rows)

  unfoldable pub create_project_rpc : String → String → M ProjectInfo
  unfolding with_tenant
  create_project_rpc slug name = do
    require_perm ctx "project:write"
    fail_if (str_eq slug "" || str_eq name "") invalid_argument "slug and name are required"
    tenant ← active_tenant h ctx
    p ←
        with_tenant tenant (create_project tenant slug name) already_exists
          "project slug already taken in this tenant"
    audit h ctx "project.create" (h.uuid_string p.id) slug
    pure (project_info h p)

  unfoldable pub list_projects : M (List ProjectInfo)
  unfolding with_tenant
  list_projects = do
    require_perm ctx "project:read"
    tenant ← active_tenant h ctx
    rows ← with_tenant tenant (list_projects_by_tenant tenant) internal "failed to list projects"
    pure (map (project_info h) rows)

  unfoldable pub add_member : String → M MemberInfo
  unfolding with_tenant found_user
  add_member email = do
    require_perm ctx "member:write"
    tenant ← active_tenant h ctx
    user ← found_user (← exec (get_user_by_email email))
    with_tenant tenant (create_membership user.id tenant) internal "could not add member"
    audit h ctx "member.add" (h.uuid_string user.id) (h.uuid_string tenant)
    pure (record { user_id = h.uuid_string user.id; email = user.email; status = "active" })

  unfoldable pub remove_member_rpc : String → M Bool
  unfolding with_tenant
  remove_member_rpc user_id = do
    require_perm ctx "member:write"
    tenant ← active_tenant h ctx
    uid ← or_raise (h.uuid_parse user_id) invalid_argument "invalid user id"
    with_tenant tenant (remove_member uid tenant) internal "could not remove member"
    audit h ctx "member.remove" user_id (h.uuid_string tenant)
    pure true

  unfoldable pub list_members : M (List MemberInfo)
  unfolding with_tenant
  list_members = do
    require_perm ctx "member:read"
    tenant ← active_tenant h ctx
    rows ← with_tenant tenant (list_members_by_tenant tenant) internal "failed to list members"
    pure (map (member_info h) rows)
