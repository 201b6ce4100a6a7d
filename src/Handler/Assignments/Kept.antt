-- ===== src/Handler/Assignments/Kept.antt =====
-- What one round of AssignRoleBulk leaves as it was, and what it adds.
use iam_go_auth.Base.{
  ℕ, String, Bool, true, ◌≡◌, Option, some, arith, subst, ap, ◌∙◌, inl, inr, any-append, ◌||◌, any,
}
use iam_go_auth.Db.Models.{Db, Role, UserRole}
use iam_go_auth.Db.Query.{row}
use iam_go_auth.Db.Roles.{
  resolve_role, visible_roles, assign_role_to_user, assignment, same_assignment,
}
use iam_go_auth.Db.Roles.Laws.{
  RoleGiven, no_role, had, given, in_session, insert_user_role-RoleGiven,
}
use iam_go_auth.Rpc.{World}
use iam_go_auth.Handler.{AuthHandler}
use iam_go_auth.Handler.Assignments.Given.{Holds-assign}

-- The roles are the same ones, and no assignment is gone.
pub record Kept (w w' : World) : Type 0 where
  pub roles : w'.db.roles ≡ w.db.roles
  pub holds : (p : UserRole → Bool) → any p w.db.user_roles ≡ true → any p w'.db.user_roles ≡ true

pub Kept-trans : {u v w : World} → Kept u v → Kept v w → Kept u w
Kept-trans p q = record { roles = q.roles ∙ p.roles; holds = λ f e. q.holds f (p.holds f e) }

pub Kept-same :
    {w w' : World} → w'.db.roles ≡ w.db.roles → w'.db.user_roles ≡ w.db.user_roles → Kept w w'
Kept-same r u = record { roles = r; holds = λ p e. ap (any p) u ∙ e }

-- The user of the id has the role in the tenant, for the project.
pub record Given (h : AuthHandler) (role : Role) (tenant : ℕ) (project : Option ℕ) (uid : String)
    (w : World) : Type 0 where
  pub user : ℕ
  pub named : h.uuid_parse uid ≡ some user
  pub holds : any (same_assignment (assignment user role tenant project)) w.db.user_roles ≡ true

sooner : (a b : Bool) → a ≡ true → (a || b) ≡ true
sooner a b e = ground arith

-- What the statement did in the session of the tenant.
pub assigned :
    (user : ℕ) (name : String) (role : Role) (tenant : ℕ) (project : Option ℕ) (w w' : World)
    (d : Db)
    → resolve_role name tenant w.db.roles ≡ some role
    → assign_role_to_user user name tenant project w.now (in_session tenant w.db) ≡ row (tt, d)
    → w'.db ≡ record d { bypass_rls = w.db.bypass_rls; app_tenant = w.db.app_tenant }
    → Kept w w'
      × (any (same_assignment (assignment user role tenant project)) w'.db.user_roles ≡ true)
unfolding assign_role_to_user
assigned user name role tenant project w w' d resolved ran kept =
    let o = resolve_role name tenant (visible_roles (in_session tenant w.db)) in
    let g : RoleGiven user o tenant project (in_session tenant w.db) d =
      insert_user_role-RoleGiven user o tenant project (in_session tenant w.db) tt d ran in
    let held = Holds-assign user name tenant project w.db w.now role d resolved ran in
    (
      record {
        roles = ap (λ (x : Db). x.roles) kept ∙ same_roles g;
        holds = λ p e. ap (λ (x : Db). any p x.user_roles) kept ∙ elim held.others [
          | inl same ↦ ap (any p) same ∙ e
          | inr more ↦
              ap (any p) more ∙ any-append p w.db.user_roles _ ∙ sooner (any p w.db.user_roles) _ e
        ];
      },
      ap (λ (x : Db). any (same_assignment (assignment user role tenant project)) x.user_roles) kept
          ∙ subst
              (λ r. any (same_assignment (assignment user r tenant project)) d.user_roles ≡ true)
              (one_role held.resolved resolved) held.holds,
    )
  where
    one_role : {o : Option Role} {a b : Role} → o ≡ some a → o ≡ some b → a ≡ b
    one_role p q = cc

    same_roles :
        {o : Option Role}
        → RoleGiven user o tenant project (in_session tenant w.db) d
        → d.roles ≡ w.db.roles
    same_roles (no_role _ e) = ap (λ (x : Db). x.roles) e
    same_roles (had _ _ _ e) = ap (λ (x : Db). x.roles) e
    same_roles (given _ _ _ e) = ap (λ (x : Db). x.roles) e
