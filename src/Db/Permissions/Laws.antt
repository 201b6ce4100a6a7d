-- ===== src/Db/Permissions/Laws.antt =====
-- What GetUserPermissionsScoped gives, said without its order, its duplicates and its joins.
use mathlib.Core.Option
use iam_go_auth.Base.{
  ℕ, String, Bool, true, false, ◌&&◌, ◌||◌, ◌==◌, ◌≡◌, refl, sym, ap, ap₂, ◌∙◌, Option, none, some,
  List, [], ◌∷◌, find, filter_map, is_none_or, some_eq, str_eq, any, any-sort_by, any-flat_map,
  any-distinct, any-select_and,
}
use iam_go_auth.Db.Models.{Db, UserRole, RolePermission, Permission}
use iam_go_auth.Db.Query.{row, admits}
use iam_go_auth.Db.Query.Laws.{row-fst, row-snd}
use iam_go_auth.Db.Roles.{applies}
use iam_go_auth.Db.Permissions.{granted, get_user_permissions_scoped}

-- An assignment for a project counts in a token for that project only.
abbrev pub in_scope : Option ℕ → Option ℕ → Bool
in_scope none asked = true
in_scope (some p) none = false
in_scope (some p) (some q) = q == p

abbrev pub is_named : String → Option Permission → Bool
is_named name none = false
is_named name (some p) = str_eq name p.name

-- The grant is of the permission of that name.
abbrev pub grants : Db → String → RolePermission → Bool
grants db name g = is_named name (find (λ (p : Permission). p.id == g.permission_id) db.permissions)

-- Some row of user_roles that the policy shows, of the user and the tenant, and tenant-wide or for
-- the project, has a role with a row of role_permissions for the permission of that name.
abbrev pub is_permitted : ℕ → ℕ → Option ℕ → Db → String → Bool
is_permitted user tenant project db name =
    any
      (λ (a : UserRole).
        admits db (some a.tenant_id)
        && ((a.user_id == user && a.tenant_id == tenant && in_scope a.project_id project)
            && any (λ (g : RolePermission). g.role_id == a.role_id && grants db name g)
                db.role_permissions))
      db.user_roles

in_scope_lem : (of_row asked : Option ℕ) → is_none_or (some_eq asked) of_row ≡ in_scope of_row asked
in_scope_lem none asked = refl
in_scope_lem (some p) none = refl
in_scope_lem (some p) (some q) = refl

any_same :
    {A : Type 0} (p q : A → Bool) → ((x : A) → p x ≡ q x) → (xs : List A) → any p xs ≡ any q xs
unfolding any
any_same p q same [] = refl
any_same p q same (x ∷ xs) = ap₂ (λ a b. a || b) (same x) (any_same p q same xs)

any-names :
    (db : Db) (name : String) (gs : List RolePermission)
    → any (str_eq name) (
        filter_map
          (λ (g : RolePermission).
            Option.map
              (λ p. p.name)
              (find (λ (p : Permission). p.id == g.permission_id) db.permissions))
          gs)
      ≡ any (grants db name) gs
unfolding any filter_map
any-names db name [] = refl
any-names db name (g ∷ gs) =
    on _ _ (find (λ (p : Permission). p.id == g.permission_id) db.permissions)
      (any-names db name gs)
  where
    on :
        (ns : List String) (rest : Bool) (o : Option Permission)
        → any (str_eq name) ns ≡ rest
        → any
            (str_eq name)
            (elim (Option.map (λ (p : Permission). p.name) o) as (λ _. List String) [
              | none ↦ ns
              | some n ↦ n ∷ ns
            ])
          ≡ (is_named name o || rest)
    on ns rest none e = e
    on ns rest (some p) e = ap (λ b. str_eq name p.name || b) e

any-granted :
    (db : Db) (name : String) (role : ℕ)
    → any (str_eq name) (granted db role)
      ≡ any (λ (g : RolePermission). g.role_id == role && grants db name g) db.role_permissions
any-granted db name role =
    any-names db name _ ∙ any-select_and (grants db name) _ db.role_permissions

-- GetUserPermissionsScoped changes nothing, and a name is among the permissions that it gives exactly
-- if some visible row of user_roles with that user and tenant, tenant-wide or for the project, has a
-- role with a row of role_permissions whose permission has that name.
pub get_user_permissions_scoped-is_permitted :
    (user tenant : ℕ) (project : Option ℕ) (now : ℕ) (db db' : Db) (names : List String)
    (name : String)
    → get_user_permissions_scoped user tenant project now db ≡ row (names, db')
    → (any (str_eq name) names ≡ is_permitted user tenant project db name) × (db' ≡ db)
unfolding get_user_permissions_scoped
get_user_permissions_scoped-is_permitted user tenant project now db db' names name e = (
  ap (any (str_eq name)) (sym (row-fst e))
      ∙ any-sort_by (str_eq name) db.name_le _
      ∙ any-distinct name _
      ∙ any-flat_map (str_eq name) (λ (a : UserRole). granted db a.role_id) _
      ∙ any-select_and _ (applies user tenant project) _
      ∙ any-select_and _ (λ (a : UserRole). admits db (some a.tenant_id)) db.user_roles
      ∙ any_same _ _
          (λ (a : UserRole).
            ap₂ (λ b c. admits db (some a.tenant_id) && (b && c)) (applies-in_scope a)
              (any-granted db name a.role_id))
          db.user_roles,
  sym (row-snd e),
)
  where
    applies-in_scope :
        (a : UserRole)
        → applies user tenant project a
          ≡ (a.user_id == user && a.tenant_id == tenant && in_scope a.project_id project)
    applies-in_scope a =
        ap (λ b. a.user_id == user && a.tenant_id == tenant && b)
          (in_scope_lem a.project_id project)
