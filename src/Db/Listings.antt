-- ===== src/Db/Listings.antt =====
-- The listings of roles and of their assignments of internal/db/auth.sql.go, under the policies.
use mathlib.Core.Option
use iam_go_auth.Base.{
  ℕ, String, Bool, true, false, ◌&&◌, ◌||◌, not, Option, none, some, List, map, ◌==◌, is_some,
  some_eq, find, select, filter_map, sort_by,
}
use iam_go_auth.Db.Models.{Db, Role, UserRole, Project}
use iam_go_auth.Db.Query.{Query, wrote}
use iam_go_auth.Db.Roles.{visible_roles, visible_user_roles}
use iam_go_auth.Db.Permissions.{granted}
use iam_go_auth.Db.Projects.{visible_projects}

unfoldable pub list_roles : Query (List Role)
list_roles now db = wrote (sort_by (λ (a b : Role). db.name_le a.name b.name) (visible_roles db)) db

-- p.name of the grants of a role, ORDER BY p.name
abbrev pub permissions_of : Db → ℕ → List String
permissions_of db role_id = sort_by db.name_le (granted db role_id)

unfoldable pub list_role_permission_names : ℕ → Query (List String)
list_role_permission_names role_id now db = wrote (permissions_of db role_id) db

-- A row of ListRolesWithPermissions, and authv1.Role.
pub record RoleRow : Type 0 where
  pub id : ℕ
  pub name : String
  pub description : String
  pub permissions : List String

unfoldable pub list_roles_with_permissions : ℕ → Query (List RoleRow)
list_roles_with_permissions tenant_id now db =
    wrote
      (sort_by (λ (a b : RoleRow). db.name_le a.name b.name)
        (map
          (λ (r : Role). record {
            id = r.id;
            name = r.name;
            description = r.description;
            permissions = permissions_of db r.id;
          })
          (select (λ (r : Role). some_eq r.tenant_id tenant_id || not (is_some r.tenant_id))
            (visible_roles db))))
      db

-- A row of GetUserRoleAssignments.
pub record AssignmentRow : Type 0 where
  pub role : String
  pub project_id : Option ℕ
  pub project_slug : Option String

-- NULLS FIRST
abbrev pub slug_le : (String → String → Bool) → Option String → Option String → Bool
slug_le le none b = true
slug_le le (some a) none = false
slug_le le (some a) (some b) = le a b

-- ORDER BY r.name, p.slug NULLS FIRST
abbrev pub assignment_le : (String → String → Bool) → AssignmentRow → AssignmentRow → Bool
assignment_le le a b =
    le a.role b.role && (not (le b.role a.role) || slug_le le a.project_slug b.project_slug)

-- The slug of the project that an assignment names, where the LEFT JOIN finds it.
abbrev pub slug_of : Db → Option ℕ → Option String
slug_of db none = none
slug_of db (some p) =
    Option.map (λ (o : Project). o.slug) (find (λ (o : Project). o.id == p) (visible_projects db))

unfoldable pub get_user_role_assignments : ℕ → ℕ → Query (List AssignmentRow)
get_user_role_assignments user_id tenant_id now db =
    wrote
      (sort_by (assignment_le db.name_le) (
        filter_map
          (λ (a : UserRole).
            Option.map
              (λ (r : Role). record {
                role = r.name;
                project_id = a.project_id;
                project_slug = slug_of db a.project_id;
              })
              (find (λ (r : Role). r.id == a.role_id) (visible_roles db)))
          (select (λ (a : UserRole). a.user_id == user_id && a.tenant_id == tenant_id)
            (visible_user_roles db))))
      db
