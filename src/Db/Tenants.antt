-- ===== src/Db/Tenants.antt =====
-- The statements on tenants, projects and memberships of internal/db/auth.sql.go.
use mathlib.Core.Option
use iam_go_auth.Base.{
  filter_map, if◌then◌else◌, ℕ, ◌+◌, String, Bool, not, ◌||◌, ◌&&◌, Option, List, [], ◌∷◌, ◌++◌,
  str_eq, ◌==◌, any, find, select, sort_by, delete_where,
}
use iam_go_auth.Db.Models.{Db, Tenant, Membership, User}
use iam_go_auth.Db.Query.{Query, wrote, check}

abbrev pub is_membership : ℕ → ℕ → Membership → Bool
is_membership user_id tenant_id m = m.user_id == user_id && m.tenant_id == tenant_id

-- The user and the tenant exist; ON CONFLICT (user_id, tenant_id) DO NOTHING.
unfoldable pub create_membership : ℕ → ℕ → Query (Unit {0})
create_membership user_id tenant_id now db =
    let m : Membership = record {
      user_id = user_id;
      tenant_id = tenant_id;
      status = "active";
      created_at = now;
    } in
    if any (is_membership user_id tenant_id) db.memberships
    then wrote tt db
    else check
        (any (λ (u : User). u.id == user_id) db.users
          && any (λ (t : Tenant). t.id == tenant_id) db.tenants)
        (wrote tt (record db { memberships = db.memberships ++ m ∷ [] }))

-- A row of ListMembershipsByUser.
pub record MembershipRow : Type 0 where
  pub tenant_id : ℕ
  pub tenant_slug : String
  pub tenant_name : String
  pub status : String

abbrev pub with_tenant_row : List Tenant → Membership → Option MembershipRow
with_tenant_row tenants m =
    Option.map
      (λ t. record {
        tenant_id = m.tenant_id;
        tenant_slug = t.slug;
        tenant_name = t.name;
        status = m.status;
      })
      (find (λ (t : Tenant). t.id == m.tenant_id) tenants)

-- The rows of ListMembershipsByUser: the active memberships, by the name of the tenant.
unfoldable pub memberships_of : ℕ → Db → List MembershipRow
memberships_of user_id db =
    sort_by (λ (a b : MembershipRow). db.name_le a.tenant_name b.tenant_name)
      (filter_map (with_tenant_row db.tenants) (
        select (λ (m : Membership). m.user_id == user_id && str_eq m.status "active")
          db.memberships))

unfoldable pub list_memberships_by_user : ℕ → Query (List MembershipRow)
list_memberships_by_user user_id now db = wrote (memberships_of user_id db) db

-- Both the membership and the tenant are active.
abbrev pub active_in : ℕ → ℕ → List Tenant → Membership → Bool
active_in user_id tenant_id tenants m =
    is_membership user_id tenant_id m
    && str_eq m.status "active"
    && any (λ (t : Tenant). t.id == m.tenant_id && str_eq t.status "active") tenants

unfoldable pub is_active_member : ℕ → ℕ → Query Bool
is_active_member user_id tenant_id now db =
    wrote (any (active_in user_id tenant_id db.tenants) db.memberships) db

-- The slug is unique.
unfoldable pub create_tenant : String → String → Query Tenant
create_tenant slug name now db =
    let id = db.uuids db.drawn in
    let t : Tenant = record {
      id = id;
      slug = slug;
      name = name;
      status = "active";
      created_at = now;
    } in
    check (not (any (λ (o : Tenant). o.id == id || str_eq o.slug slug) db.tenants))
      (wrote t (record db { tenants = db.tenants ++ t ∷ []; drawn = db.drawn + 1 }))

unfoldable pub list_tenants : Query (List Tenant)
list_tenants now db = wrote (sort_by (λ (a b : Tenant). db.name_le a.name b.name) db.tenants) db

unfoldable pub remove_member : ℕ → ℕ → Query (Unit {0})
remove_member user_id tenant_id now db =
    wrote tt
      (record db { memberships = delete_where (is_membership user_id tenant_id) db.memberships })

-- A row of ListMembersByTenant.
pub record MemberRow : Type 0 where
  pub user_id : ℕ
  pub email : String
  pub status : String

unfoldable pub list_members_by_tenant : ℕ → Query (List MemberRow)
list_members_by_tenant tenant_id now db =
    wrote
      (sort_by (λ (a b : MemberRow). db.name_le a.email b.email)
        (filter_map
          (λ (m : Membership).
            Option.map (λ u. record { user_id = m.user_id; email = u.email; status = m.status })
              (find (λ (u : User). u.id == m.user_id) db.users))
          (select (λ (m : Membership). m.tenant_id == tenant_id) db.memberships)))
      db
