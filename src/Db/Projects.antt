-- ===== src/Db/Projects.antt =====
-- The statements on projects of internal/db/auth.sql.go, under the policy on that table.
use mathlib.Core.Option
use iam_go_auth.Base.{
  ℕ, ◌+◌, String, Bool, not, ◌||◌, ◌&&◌, some, List, [], ◌∷◌, ◌++◌, str_eq, ◌==◌, any, select,
  sort_by, find,
}
use iam_go_auth.Db.Models.{Db, Tenant, Project}
use iam_go_auth.Db.Query.{Query, one, wrote, check, admits}

abbrev pub visible_projects : Db → List Project
visible_projects db = select (λ (p : Project). admits db (some p.tenant_id)) db.projects

-- The pair of tenant and slug is unique, the tenant exists, and the policy admits the row.
unfoldable pub create_project : ℕ → String → String → Query Project
create_project tenant_id slug name now db =
    let id = db.uuids db.drawn in
    let p : Project = record {
      id = id;
      tenant_id = tenant_id;
      slug = slug;
      name = name;
      created_at = now;
    } in
    check
      (admits db (some tenant_id)
        && not (
            any (λ (o : Project). o.id == id || (o.tenant_id == tenant_id && str_eq o.slug slug))
              db.projects)
        && any (λ (t : Tenant). t.id == tenant_id) db.tenants)
      (wrote p (record db { projects = db.projects ++ p ∷ []; drawn = db.drawn + 1 }))

unfoldable pub list_projects_by_tenant : ℕ → Query (List Project)
list_projects_by_tenant tenant_id now db =
    wrote
      (sort_by (λ (a b : Project). db.name_le a.name b.name)
        (select (λ (p : Project). p.tenant_id == tenant_id) (visible_projects db)))
      db

unfoldable pub is_project_in_tenant : ℕ → ℕ → Query Bool
is_project_in_tenant id tenant_id now db =
    wrote (any (λ (p : Project). p.id == id && p.tenant_id == tenant_id) (visible_projects db)) db

-- WHERE tenant_id = $1 AND slug = 'default' LIMIT 1; the slug is unique in the tenant.
unfoldable pub get_default_project : ℕ → Query ℕ
get_default_project tenant_id now db =
    one
      (Option.map (λ (p : Project). p.id)
        (find (λ (p : Project). p.tenant_id == tenant_id && str_eq p.slug "default")
          (visible_projects db)))
      db
