-- ===== src/Handler/Validate.antt =====
-- internal/handler/auth.go: ValidateToken, and withTenantGUC of internal/handler/tenant.go, the
-- transaction that it reads in.
pub mod Gate
use iam_go_auth.Base.{ℕ, String, not, Option, none, some, List, str_eq, if◌then◌else◌}
use iam_go_auth.Db.Query.{Query, row}
use iam_go_auth.Db.Users.{is_user_active}
use iam_go_auth.Db.Tokens.{is_token_revoked}
use iam_go_auth.Db.Tenants.{is_active_member}
use iam_go_auth.Db.Roles.{get_user_roles, get_user_roles_scoped}
use iam_go_auth.Db.Permissions.{get_user_permissions, get_user_permissions_scoped}
use iam_go_auth.Jwt.{Claims, parse_access}
use iam_go_auth.Cache.{is_denied, get_perms, set_perms}
use iam_go_auth.Rpc.{
  M, Status, ok, pure, ◌>>=◌, ◌>>◌, or_raise, fail_if, must, get_now, in_tx, internal,
  unauthenticated,
}
use iam_go_auth.Handler.{AuthHandler, parse_optional_uuid}

-- authv1.ValidateTokenResponse
pub record Validated : Type 0 where
  pub user_id : String
  pub email : String
  pub roles : List String
  pub permissions : List String
  pub tenant_id : String
  pub project_id : String

-- SELECT set_config('app.tenant_id', $1, true)
unfoldable pub set_tenant : ℕ → Query (Unit {0})
set_tenant tenant now db = row (tt, record db { app_tenant = some tenant })

-- The setting is local to the transaction: it ends with it.
unfoldable pub unset_tenant : Option ℕ → M (Unit {0})
unset_tenant before w = (ok tt, record w { db = record w.db { app_tenant = before } })

-- withTenantGUC: every error of it becomes the one status that its callers answer with.
unfoldable pub with_tenant_guc : {A : Type 0} → ℕ → Query A → String → M A
unfolding set_tenant unset_tenant
with_tenant_guc tenant q message w =
    let e : Status = record { code = internal; message = message } in
    (do
      a ← in_tx e e (do must (set_tenant tenant) internal message; must q internal message)
      unset_tenant w.db.app_tenant
      pure a)
      w

module _ (h : AuthHandler) where
  -- The denylist in Redis, or the one in the database where Redis gives no answer.
  unfoldable pub check_denied : String → M (Unit {0})
  check_denied jti = if str_eq jti "" then pure tt else (do
    d ← is_denied h.cache jti
    if d.1 then fail_if d.0 unauthenticated "token revoked" else (do
      revoked ← must (is_token_revoked jti) internal "failed to check token status"
      fail_if revoked unauthenticated "token revoked"))

  unfoldable pub check_member : ℕ → String → M (Unit {0})
  check_member user_id tenant_id = if str_eq tenant_id "" then pure tt else (do
    tid ← or_raise (h.uuid_parse tenant_id) unauthenticated "invalid tenant"
    member ← must (is_active_member user_id tid) unauthenticated "tenant membership revoked"
    fail_if (not member) unauthenticated "tenant membership revoked")

  load_roles : ℕ → Claims → M (List String)
  load_roles user_id c =
      if str_eq c.tenant_id ""
      then must (get_user_roles user_id) internal "failed to load roles"
      else (do
        tid ← or_raise (h.uuid_parse c.tenant_id) unauthenticated "invalid tenant"
        with_tenant_guc tid (get_user_roles_scoped user_id tid (parse_optional_uuid h c.project_id))
            "failed to load roles")

  -- On a miss: the query, for the nil tenant where the claim does not parse, and the new entry.
  query_permissions : ℕ → Claims → M (List String)
  query_permissions user_id c =
      if str_eq c.tenant_id ""
      then must (get_user_permissions user_id) internal "failed to load permissions"
      else (let tid = elim (h.uuid_parse c.tenant_id) as (λ _. ℕ) [ none ↦ 0 | some t ↦ t ] in
          with_tenant_guc tid
            (get_user_permissions_scoped user_id tid (parse_optional_uuid h c.project_id))
            "failed to load permissions")

  on_miss : ℕ → Claims → Option (List String) → M (List String)
  unfolding query_permissions
  on_miss user_id c (some perms) = pure perms
  on_miss user_id c none = do
    perms ← query_permissions user_id c
    set_perms h.cache c.tenant_id c.project_id c.subject perms
    pure perms

  load_permissions : ℕ → Claims → M (List String)
  unfolding on_miss
  load_permissions user_id c = do
    cached ← get_perms h.cache c.tenant_id c.project_id c.subject
    on_miss user_id c cached

  unfoldable pub validate_token : String → M Validated
  unfolding check_denied check_member load_roles load_permissions
  validate_token access_token = do
    now ← get_now
    c ←
        or_raise (parse_access h.jwt_lib h.jwt now access_token) unauthenticated
          "invalid or expired token"
    check_denied c.id
    user_id ← or_raise (h.uuid_parse c.subject) unauthenticated "invalid subject"
    active ← must (is_user_active user_id) unauthenticated "account is not active"
    fail_if (not active) unauthenticated "account is not active"
    check_member user_id c.tenant_id
    roles ← load_roles user_id c
    perms ← load_permissions user_id c
    pure (record {
      user_id = c.subject;
      email = c.email;
      roles = roles;
      permissions = perms;
      tenant_id = c.tenant_id;
      project_id = c.project_id;
    })
