-- ===== src/Db/Permissions.antt =====
-- The statements on permissions and role_permissions of internal/db/auth.sql.go.
pub mod Laws
use mathlib.Core.Option
use iam_go_auth.Base.{
  ℕ, String, Bool, ◌&&◌, Option, none, some, List, [], ◌∷◌, ◌++◌, str_eq, ◌==◌, any, find, select,
  filter_map, flat_map, sort_by, delete_where, distinct, if◌then◌else◌,
}
use iam_go_auth.Db.Models.{Db, Permission, RolePermission, UserRole}
use iam_go_auth.Db.Query.{Query, wrote}
use iam_go_auth.Db.Roles.{visible_roles, visible_user_roles, own_role, applies}

-- The names that a role's grants join to.
abbrev pub granted : Db → ℕ → List String
granted db role_id =
    filter_map
      (λ (g : RolePermission).
        Option.map (λ p. p.name)
          (find (λ (p : Permission). p.id == g.permission_id) db.permissions))
      (select (λ (g : RolePermission). g.role_id == role_id) db.role_permissions)

-- SELECT DISTINCT p.name ... ORDER BY p.name, over some assignments.
abbrev pub permission_names : Db → List UserRole → List String
permission_names db assignments =
    sort_by db.name_le (distinct (flat_map (λ (a : UserRole). granted db a.role_id) assignments))

unfoldable pub get_user_permissions : ℕ → Query (List String)
get_user_permissions user_id now db =
    wrote
      (permission_names db
        (select (λ (a : UserRole). a.user_id == user_id) (visible_user_roles db)))
      db

unfoldable pub get_user_permissions_scoped : ℕ → ℕ → Option ℕ → Query (List String)
get_user_permissions_scoped user_id tenant_id project_id now db =
    wrote
      (permission_names db (select (applies user_id tenant_id project_id) (visible_user_roles db)))
      db

unfoldable pub list_permissions : Query (List Permission)
list_permissions now db =
    wrote (sort_by (λ (a b : Permission). db.name_le a.name b.name) db.permissions) db

abbrev pub is_grant : ℕ → ℕ → RolePermission → Bool
is_grant role_id permission_id g = g.role_id == role_id && g.permission_id == permission_id

-- Nothing is inserted where the tenant has no such role, or there is no such permission.
unfoldable pub grant_permission_to_role : String → String → ℕ → Query (Unit {0})
grant_permission_to_role role_name permission_name tenant_id now db =
    elim (find (own_role role_name tenant_id) (visible_roles db)) [
      | none ↦ wrote tt db
      | some r ↦ elim (find (λ (p : Permission). str_eq p.name permission_name) db.permissions) [
        | none ↦ wrote tt db
        | some p ↦
            let g : RolePermission = record { role_id = r.id; permission_id = p.id } in
            if any (is_grant r.id p.id) db.role_permissions
            then wrote tt db
            else wrote tt (record db { role_permissions = db.role_permissions ++ g ∷ [] })
      ]
    ]

unfoldable pub revoke_permission_from_role : String → String → ℕ → Query (Unit {0})
revoke_permission_from_role role_name permission_name tenant_id now db =
    elim (find (own_role role_name tenant_id) (visible_roles db)) [
      | none ↦ wrote tt db
      | some r ↦ elim (find (λ (p : Permission). str_eq p.name permission_name) db.permissions) [
        | none ↦ wrote tt db
        | some p ↦
            wrote tt (record db {
              role_permissions = delete_where (is_grant r.id p.id) db.role_permissions;
            })
      ]
    ]
