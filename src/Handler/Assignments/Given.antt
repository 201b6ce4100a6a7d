-- ===== src/Handler/Assignments/Given.antt =====
-- AssignRole gives one role, in the tenant of the caller.
use iam_go_auth.Base.{
  ℕ, String, true, ◌≡◌, refl, sym, ap, subst, ◌∙◌, ◌⊎◌, inl, inr, Option, none, some, List, [], ◌∷◌,
  ◌++◌, any,
}
use iam_go_auth.Db.Models.{Db, Role, UserRole}
use iam_go_auth.Db.Query.{row}
use iam_go_auth.Db.Roles.{
  resolve_role, visible_roles, same_assignment, assignment, assign_role_to_user, get_role_in_tenant,
}
use iam_go_auth.Db.Roles.Laws.{
  RoleGiven, no_role, had, given, in_session, insert_user_role-RoleGiven, RoleGiven-any,
  resolve_role-session, resolve_role-visible,
}
use iam_go_auth.Rpc.{World}
use iam_go_auth.Rpc.Laws.{After, after-pure, after-or_raise, after-bind, after-weaken}
use iam_go_auth.Rpc.Reads.{Read, Read-trans, after-must_one}
use iam_go_auth.Cache.Invalidation.{after-invalidate_perms}
use iam_go_auth.Handler.{AuthHandler, Identity, parse_optional_uuid, audit}
use iam_go_auth.Handler.Guards.{after-require_perm, after-active_tenant}
use iam_go_auth.Handler.Frame.{after-audit_as}
use iam_go_auth.Handler.Roles.Creation.{after-with_tenant}
use iam_go_auth.Handler.Register.Atomic.{Unwritten, Unwritten-same}
use iam_go_auth.Handler.Tenants.Projects.{InTenant, check_project-InTenant}
use iam_go_auth.Handler.Assignments.{validate_assign, assign_role}

-- The user has the role in the tenant, and no other assignment was touched.
pub record Holds (uid : ℕ) (name : String) (tenant : ℕ) (project : Option ℕ) (db : Db)
    (assignments : List UserRole) : Type 0 where
  pub role : Role
  pub resolved : resolve_role name tenant db.roles ≡ some role
  pub holds : any (same_assignment (assignment uid role tenant project)) assignments ≡ true
  pub others :
      (assignments ≡ db.user_roles)
      ⊎ (assignments ≡ db.user_roles ++ assignment uid role tenant project ∷ [])

some_is : {A : Type 0} {o : Option A} {a : A} → o ≡ none → o ≡ some a → ⊥
some_is p q = cc

same : {A : Type 0} {o : Option A} {a b : A} → o ≡ some a → o ≡ some b → a ≡ b
same p q = cc

-- What the statement did in the session of the tenant, where the role is one that resolves.
pub Holds-assign :
    (uid : ℕ) (name : String) (tenant : ℕ) (project : Option ℕ) (db : Db) (now : ℕ) (role : Role)
    (d : Db)
    → resolve_role name tenant db.roles ≡ some role
    → assign_role_to_user uid name tenant project now (in_session tenant db) ≡ row (tt, d)
    → Holds uid name tenant project db d.user_roles
unfolding assign_role_to_user
Holds-assign uid name tenant project db now role d resolved ran =
    let o = resolve_role name tenant (visible_roles (in_session tenant db)) in
    let g : RoleGiven uid o tenant project (in_session tenant db) d =
      insert_user_role-RoleGiven uid o tenant project (in_session tenant db) tt d ran in
    let same_role = resolve_role-session name tenant db ∙ resolved in
    record {
      role = role;
      resolved = resolved;
      holds = elim (RoleGiven-any uid o tenant project _ d g) [
        | inl e ↦ absurd (some_is e same_role)
        | inr (r, e, h) ↦
            subst (λ x. any (same_assignment (assignment uid x tenant project)) d.user_roles ≡ true)
              (same e same_role) h
      ];
      others = split g same_role;
    }
  where
    split :
        {o : Option Role}
        → RoleGiven uid o tenant project (in_session tenant db) d
        → o ≡ some role
        → (d.user_roles ≡ db.user_roles)
          ⊎ (d.user_roles ≡ db.user_roles ++ assignment uid role tenant project ∷ [])
    split (no_role e _) is = absurd (some_is e is)
    split (had r _ _ e) is = inl (ap (λ (x : Db). x.user_roles) e)
    split (given r e _ e') is = inr (
        ap (λ (x : Db). x.user_roles) e'
        ∙ ap (λ x. db.user_roles ++ assignment uid x tenant project ∷ []) (same e is))

module _ (h : AuthHandler) where
  -- The role is known in the tenant, and the project, if one is named, is of the tenant.
  pub validate_assign-After :
      (name project_id : String) (tenant : ℕ) (w : World)
      → After
          (validate_assign h name project_id tenant)
          w
          (λ _ w'.
            Read w w'
            × ((r : Role) × (resolve_role name tenant w.db.roles ≡ some r))
            × InTenant tenant w.db (parse_optional_uuid h project_id))
          (λ _ w'. w'.db ≡ w.db)
  unfolding validate_assign get_role_in_tenant
  validate_assign-After name project_id tenant w = after-bind _ _ _ (
      after-must_one (get_role_in_tenant name tenant)
        (λ _ (db : Db). resolve_role name tenant (visible_roles db)) _ _ w (λ _ _. refl)
        (λ role w1 hit r1.
          after-weaken _ w1 (check_project-InTenant h project_id tenant w1)
            (λ _ w2 c. (
              Read-trans r1 c.0,
              resolve_role-visible name tenant w.db role hit,
              subst (λ d. InTenant tenant d (parse_optional_uuid h project_id)) r1.db c.1,
            ))
            (λ _ w2 e. e ∙ r1.db))
        (λ _ e. e))

pub Unwritten-read : {w w1 w2 : World} → w1.db ≡ w.db → Unwritten w1 w2 → Unwritten w w2
Unwritten-read e u = record {
  drawn = u.drawn;
  serial = u.serial;
  db = u.db ∙ ap (λ (d : Db). record d { drawn = u.drawn; next_serial = u.serial }) e;
}

module _ (h : AuthHandler) (ctx : Identity) where
  -- What a successful AssignRole shows.
  pub record Assigned (user_id name project_id : String) (w w' : World) : Type 0 where
    pub permitted : ctx.has_permission "role:assign" ≡ true
    pub tenant : ℕ
    pub active : h.uuid_parse ctx.tenant_id ≡ some tenant
    pub uid : ℕ
    pub named : h.uuid_parse user_id ≡ some uid
    pub project : InTenant tenant w.db (parse_optional_uuid h project_id)
    pub held : Holds uid name tenant (parse_optional_uuid h project_id) w.db w'.db.user_roles

  -- Whatever calls fail, an AssignRole that succeeds was made with the permission role:assign; the
  -- named user holds the role that the name resolves to in the caller's tenant, there and for the
  -- named project, which is of that tenant; and of the other assignments none was touched. One that
  -- ends with an error has left every table as it was.
  pub assign_role-Assigned :
      (user_id name project_id : String) (w : World)
      → After
          (assign_role h ctx user_id name project_id)
          w
          (λ _. Assigned user_id name project_id w)
          (λ _. Unwritten w)
  unfolding assign_role audit
  assign_role-Assigned user_id name project_id w = after-bind _ _ _ (
      after-require_perm ctx _ w
        (λ permitted. after-bind _ _ _ (
          after-active_tenant h ctx w
            (λ tenant active. after-bind _ _ _ (
              after-or_raise _ _ _ w
                (λ uid named. after-bind _ _ _ (
                  after-weaken _ w (validate_assign-After h name project_id tenant w)
                    (λ _ w1 valid. after-bind _ _ _ (
                      after-with_tenant tenant _ _ _ w1
                        (λ _ d w2 ran kept. after-bind _ _ _ (
                          after-invalidate_perms h.cache user_id w2 (λ w3 u. after-bind _ _ _ (
                            after-audit_as h ctx _ _ _ _ _ w3 (λ w4 _ f. after-pure _ w4 (record {
                              permitted = permitted;
                              tenant = tenant;
                              active = active;
                              uid = uid;
                              named = named;
                              project = valid.2;
                              held =
                                  subst
                                    (Holds uid name tenant (parse_optional_uuid h project_id) w.db)
                                    (sym (
                                      ap (λ (x : Db). x.user_roles) f.db
                                      ∙ ap (λ (x : Db). x.user_roles) u.db
                                      ∙ ap (λ (x : Db). x.user_roles) kept))
                                    (Holds-assign uid name tenant _ w.db w1.now valid.1.0 d
                                      valid.1.1
                                      (ap
                                          (λ (x : Db).
                                            assign_role_to_user uid name tenant
                                              (parse_optional_uuid h project_id) w1.now
                                              (in_session tenant x))
                                          (sym valid.0.db)
                                        ∙ ran));
                            }))))))
                        (λ _ w2 u. Unwritten-read valid.0.db u)))
                    (λ _ w1 e. Unwritten-same e)))
                (λ _. Unwritten-same refl)))
            (λ _. Unwritten-same refl)))
        (λ _. Unwritten-same refl))
