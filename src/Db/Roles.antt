-- ===== src/Db/Roles.antt =====
-- The statements on roles and user_roles of internal/db/auth.sql.go, under the policy on both.
pub mod Laws
use iam_go_auth.Base.{
  ℕ, ◌+◌, String, Bool, not, ◌&&◌, Option, none, some, List, [], ◌∷◌, ◌++◌, str_eq, ◌==◌, is_some,
  some_eq, same_option, is_none_or, any, find, select, filter_map, sort_by, update_where,
  delete_where, if◌then◌else◌,
}
use iam_go_auth.Db.Models.{Db, Role, RolePermission, UserRole, User, Tenant, Project}
use iam_go_auth.Db.Query.{Query, Answer, failed, one, wrote, check, returning, admits}

abbrev pub visible_roles : Db → List Role
visible_roles db = select (λ (r : Role). admits db r.tenant_id) db.roles

abbrev pub visible_user_roles : Db → List UserRole
visible_user_roles db = select (λ (a : UserRole). admits db (some a.tenant_id)) db.user_roles

abbrev pub named : String → Role → Bool
named name r = str_eq r.name name

-- The tenant's own role, and a built-in template.
abbrev pub own_role : String → ℕ → Role → Bool
own_role name tenant r = named name r && some_eq r.tenant_id tenant

abbrev pub built_in : String → Role → Bool
built_in name r = named name r && not (is_some r.tenant_id)

-- ORDER BY tenant_id NULLS LAST LIMIT 1: the tenant's own role, else the template.
unfoldable pub resolve_role : String → ℕ → List Role → Option Role
resolve_role name tenant roles = elim (find (own_role name tenant) roles) [
  | none ↦ find (built_in name) roles
  | some r ↦ some r
]

-- COALESCE(project_id, the zero UUID)
abbrev pub or_nil : Option ℕ → ℕ
or_nil none = 0
or_nil (some p) = p

-- The key of the unique index on user_roles.
abbrev pub same_assignment : UserRole → UserRole → Bool
same_assignment a b =
    a.user_id == b.user_id
    && a.role_id == b.role_id
    && a.tenant_id == b.tenant_id
    && or_nil a.project_id == or_nil b.project_id

abbrev pub assignment : ℕ → Role → ℕ → Option ℕ → UserRole
assignment user_id r tenant_id project_id = record {
  user_id = user_id;
  role_id = r.id;
  tenant_id = tenant_id;
  project_id = project_id;
}

-- INSERT INTO user_roles ... ON CONFLICT DO NOTHING, of the row that a role was found for, if one
-- was. The policy admits the row, and what it names exists.
unfoldable pub insert_user_role : ℕ → Option Role → ℕ → Option ℕ → Db → Answer (Unit {0} × Db)
insert_user_role user_id none tenant_id project_id db = wrote tt db
insert_user_role user_id (some r) tenant_id project_id db =
    let a = assignment user_id r tenant_id project_id in
    check (admits db (some tenant_id)) (
      if any (same_assignment a) db.user_roles
      then wrote tt db
      else check
          (any (λ (u : User). u.id == user_id) db.users
            && any (λ (t : Tenant). t.id == tenant_id) db.tenants
            && is_none_or (λ p. any (λ (o : Project). o.id == p) db.projects) project_id)
          (wrote tt (record db { user_roles = db.user_roles ++ a ∷ [] })))

unfoldable pub assign_role_in_tenant : ℕ → String → ℕ → Query (Unit {0})
unfolding insert_user_role
assign_role_in_tenant user_id name tenant_id now db =
    insert_user_role user_id (find (built_in name) (visible_roles db)) tenant_id none db

unfoldable pub assign_role_to_user : ℕ → String → ℕ → Option ℕ → Query (Unit {0})
unfolding insert_user_role resolve_role
assign_role_to_user user_id name tenant_id project_id now db =
    insert_user_role user_id (resolve_role name tenant_id (visible_roles db)) tenant_id project_id
      db

-- At most one row may come from the sub-select for the id of a role: more is an error.
abbrev pub scalar : List Role → Answer (Option ℕ)
scalar [] = Answer.row none
scalar (r ∷ []) = Answer.row (some r.id)
scalar (_ ∷ _ ∷ _) = failed

unfoldable pub revoke_role_from_user : ℕ → String → ℕ → Option ℕ → Query (Unit {0})
revoke_role_from_user user_id name tenant_id project_id now db =
    elim (scalar (select (named name) (visible_roles db))) [
      | Answer.failed ↦ failed
      | Answer.no_rows ↦ failed
      | Answer.row none ↦ wrote tt db
      | Answer.row (some role_id) ↦ wrote tt (record db {
        user_roles =
            delete_where
              (λ (a : UserRole).
                admits db (some a.tenant_id)
                && a.user_id == user_id
                && a.role_id == role_id
                && a.tenant_id == tenant_id
                && same_option a.project_id project_id)
              db.user_roles;
      })
    ]

unfoldable pub get_role_by_name : String → Query Role
get_role_by_name name now db = one (find (named name) (visible_roles db)) db

unfoldable pub get_role_in_tenant : String → ℕ → Query Role
unfolding resolve_role
get_role_in_tenant name tenant_id now db = one (resolve_role name tenant_id (visible_roles db)) db

unfoldable pub get_tenant_role : String → ℕ → Query Role
get_tenant_role name tenant_id now db = one (find (own_role name tenant_id) (visible_roles db)) db

-- The pair of tenant and name is unique, and the policy admits the row.
unfoldable pub create_role : String → String → ℕ → Query Role
create_role name description tenant_id now db =
    let r : Role = record {
      id = db.next_serial;
      name = name;
      description = description;
      tenant_id = some tenant_id;
    } in
    check
      (admits db (some tenant_id)
        && not (any (own_role name tenant_id) db.roles)
        && any (λ (t : Tenant). t.id == tenant_id) db.tenants)
      (wrote r (record db { roles = db.roles ++ r ∷ []; next_serial = db.next_serial + 1 }))

unfoldable pub update_role : String → String → ℕ → Query Role
update_role name description tenant_id now db =
    returning (find (own_role name tenant_id) (visible_roles db)) (λ r.
      wrote (record r { description = description })
        (record db {
          roles =
              update_where (λ (o : Role). admits db o.tenant_id && own_role name tenant_id o)
                (λ o. record o { description = description }) db.roles;
        }))

-- The foreign keys on roles(id) cascade.
unfoldable pub delete_role : String → ℕ → Query (Unit {0})
delete_role name tenant_id now db =
    let doomed = select (own_role name tenant_id) (visible_roles db) in
    let gone = λ (id : ℕ). any (λ (r : Role). r.id == id) doomed in
    wrote tt (record db {
      roles =
          delete_where (λ (r : Role). admits db r.tenant_id && own_role name tenant_id r) db.roles;
      role_permissions = delete_where (λ (g : RolePermission). gone g.role_id) db.role_permissions;
      user_roles = delete_where (λ (a : UserRole). gone a.role_id) db.user_roles;
    })

-- The names of the roles of some assignments, in the order of the collation.
abbrev pub role_names : Db → List UserRole → List String
role_names db assignments = sort_by db.name_le (
    filter_map
      (λ (a : UserRole). elim (find (λ (r : Role). r.id == a.role_id) (visible_roles db)) [
        | none ↦ none
        | some r ↦ some r.name
      ])
      assignments)

-- ur.user_id = $1 AND ur.tenant_id = $2 AND (ur.project_id IS NULL OR ur.project_id = $3)
abbrev pub applies : ℕ → ℕ → Option ℕ → UserRole → Bool
applies user_id tenant_id project_id a =
    a.user_id == user_id && a.tenant_id == tenant_id && is_none_or (some_eq project_id) a.project_id

unfoldable pub get_user_roles : ℕ → Query (List String)
get_user_roles user_id now db =
    wrote (role_names db (select (λ (a : UserRole). a.user_id == user_id) (visible_user_roles db)))
      db

unfoldable pub get_user_roles_scoped : ℕ → ℕ → Option ℕ → Query (List String)
get_user_roles_scoped user_id tenant_id project_id now db =
    wrote (role_names db (select (applies user_id tenant_id project_id) (visible_user_roles db))) db
