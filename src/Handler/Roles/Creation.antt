-- ===== src/Handler/Roles/Creation.antt =====
-- A new role belongs to the tenant of the caller.
use iam_go_auth.Base.{
  ℕ, ◌+◌, String, Bool, true, false, not, ◌&&◌, ◌≡◌, refl, sym, ap, ap₂, ◌∙◌, some, [], ◌∷◌, ◌++◌,
  any, arith, ◌||◌, str_eq,
}
use iam_go_auth.Db.Models.{Db, Role}
use iam_go_auth.Db.Query.{Query, row}
use iam_go_auth.Db.Query.Laws.{check-row, row-fst, row-snd}
use iam_go_auth.Db.Roles.{own_role, create_role}
use iam_go_auth.Rpc.{World, Status, Code, ◌>>=◌}
use iam_go_auth.Rpc.Laws.{After, after-pure, after-raise, after-bind, after-if, after-fail_if}
use iam_go_auth.Rpc.Statements.{after-must}
use iam_go_auth.Rpc.Transactions.{Undone, after-in_tx}
use iam_go_auth.Handler.{AuthHandler, Identity, require_perm, audit}
use iam_go_auth.Handler.Guards.{after-active_tenant}
use iam_go_auth.Handler.Frame.{after-audit_as}
use iam_go_auth.Handler.Validate.{set_tenant}
use iam_go_auth.Handler.Register.Atomic.{Unwritten, Unwritten-same}
use iam_go_auth.Handler.Roles.{set_role_rls, reset_session, with_tenant, create_role_rpc}

-- The statement ran on the tables of `w` under the policy of the tenant, and what it wrote is kept
-- in a session like that of `w`; or the tables are as they were.
pub after-with_tenant :
    {A : Type 0} {P : A → World → Type 0} {E : Status → World → Type 0} (tenant : ℕ) (q : Query A)
    (code : Code) (message : String) (w : World)
    → ((a : A) (d : Db) (w' : World)
        → q w.now (record w.db { bypass_rls = false; app_tenant = some tenant }) ≡ row (a, d)
        → w'.db ≡ record d { bypass_rls = w.db.bypass_rls; app_tenant = w.db.app_tenant }
        → P a w')
    → ((s : Status) (w' : World) → Unwritten w w' → E s w')
    → After (with_tenant tenant q code message) w P E
unfolding with_tenant reset_session set_role_rls set_tenant ◌>>=◌
after-with_tenant tenant q code message w p e = record {
  ends =
      (after-bind _ _ w (
        after-in_tx _ _ _ w (λ w' same _. e _ _ (Unwritten-same same))
          (λ w1 b. after-bind _ _ _ (
            after-must _ _ _ w1
              (λ _ w2 role. after-bind _ _ _ (
                after-must _ _ _ w2
                  (λ _ w3 set.
                    after-must q _ _ w3
                      (λ a w4 ran. (
                        (λ w5 c. record {
                          ends =
                              p a w4.db _
                                (ap₂ q (sym (set.same.now ∙ role.same.now ∙ b.same.now)) (
                                    ap
                                      (λ (d : Db). record d {
                                        bypass_rls = false;
                                        app_tenant = some tenant;
                                      })
                                      (sym b.db)
                                    ∙ ap (λ (d : Db). record d { app_tenant = some tenant })
                                        (row-snd role.answered)
                                    ∙ row-snd set.answered)
                                  ∙ ran.answered)
                                (ap
                                  (λ (d : Db). record d {
                                    bypass_rls = w.db.bypass_rls;
                                    app_tenant = w.db.app_tenant;
                                  })
                                  c.db);
                        }),
                        (λ w5 u. e _ w5 (undone w4 w5 u)),
                      ))
                      (λ w4 _ w5 u. e _ w5 (undone w4 w5 u)))
                  (λ w3 _ w4 u. e _ w4 (undone w3 w4 u))))
              (λ w2 _ w3 u. e _ w3 (undone w2 w3 u)))))).ends;
}
  where
    undone : (w2 w' : World) → Undone w.db w2 w' → Unwritten w w'
    undone w2 w' u = record { drawn = w2.db.drawn; serial = w2.db.next_serial; db = u.db }

neither_left : (a b : Bool) → (a || b) ≡ false → a ≡ false
neither_left a b e = ground arith

neither_right : (a b : Bool) → (a || b) ≡ false → b ≡ false
neither_right a b e = ground arith

-- The row that CreateRole has stored.
create_role-Made :
    (name description : String) (tenant now : ℕ) (db : Db) (r : Role) (db' : Db)
    → create_role name description tenant now db ≡ row (r, db')
    → (any (own_role name tenant) db.roles ≡ false)
      × (r.name ≡ name)
      × (r.description ≡ description)
      × (r.tenant_id ≡ some tenant)
      × (db' ≡ record db { roles = db.roles ++ r ∷ []; next_serial = db.next_serial + 1 })
unfolding create_role
create_role-Made name description tenant now db r db' e =
    let (ok', wrote') = check-row _ _ e in
    let er = row-fst wrote' in
    (
      unused _ _ _ ok',
      sym (ap (λ (x : Role). x.name) er),
      sym (ap (λ (x : Role). x.description) er),
      sym (ap (λ (x : Role). x.tenant_id) er),
      sym (row-snd wrote')
          ∙ ap
              (λ (x : Role). record db {
                roles = db.roles ++ x ∷ [];
                next_serial = db.next_serial + 1;
              })
              er,
    )
  where
    unused : (a b c : Bool) → (a && not b && c) ≡ true → b ≡ false
    unused a b c h = ground arith

module _ (h : AuthHandler) (ctx : Identity) where
  -- What a successful CreateRole shows.
  pub record RoleCreated (name description : String) (w : World) (role : Role) (w' : World)
      : Type 0 where
    pub permitted : ctx.has_permission "role:write" ≡ true
    pub tenant : ℕ
    pub active : h.uuid_parse ctx.tenant_id ≡ some tenant
    pub not_admin : str_eq name "admin" ≡ false
    pub not_user : str_eq name "user" ≡ false
    pub unused : any (own_role name tenant) w.db.roles ≡ false
    pub named : role.name ≡ name
    pub described : role.description ≡ description
    pub owned : role.tenant_id ≡ some tenant
    pub roles : w'.db.roles ≡ w.db.roles ++ role ∷ []
    pub session : (w'.db.bypass_rls ≡ w.db.bypass_rls) × (w'.db.app_tenant ≡ w.db.app_tenant)

  -- Whatever calls fail, a CreateRole that succeeds was made with the permission role:write in a
  -- token with an active tenant; the name is neither "admin" nor "user" and the tenant had no role of it;
  -- exactly one role was added, it belongs to that tenant, and the session's role and setting are
  -- what they were. One that ends with an error has left every table as it was.
  pub create_role-RoleCreated :
      (name description : String) (w : World)
      → After
          (create_role_rpc h ctx name description)
          w
          (RoleCreated name description w)
          (λ _. Unwritten w)
  unfolding create_role_rpc require_perm audit
  create_role-RoleCreated name description w = after-bind _ _ _ (
      after-if _ _ _ w
        (λ permitted. after-pure _ w (
          after-bind _ _ _ (
            after-active_tenant h ctx w
              (λ tenant active. after-bind _ _ _ (
                after-fail_if _ _ _ w (λ _. Unwritten-same refl)
                  (λ _. after-bind _ _ _ (
                    after-fail_if _ _ _ w (λ _. Unwritten-same refl)
                      (λ custom. after-bind _ _ _ (
                        after-with_tenant tenant _ _ _ w
                          (λ role d w1 ran kept.
                            let made = create_role-Made _ _ _ _ _ _ _ ran in
                            after-bind _ _ _ (
                              after-audit_as h ctx _ _ _ _ _ w1 (λ w2 _ f.
                                after-pure role w2 (record {
                                  permitted = permitted;
                                  tenant = tenant;
                                  active = active;
                                  not_admin = neither_left _ _ custom;
                                  not_user = neither_right _ _ custom;
                                  unused = made.0;
                                  named = made.1;
                                  described = made.2;
                                  owned = made.3;
                                  roles =
                                      ap (λ (x : Db). x.roles) f.db
                                      ∙ ap (λ (x : Db). x.roles) kept
                                      ∙ ap (λ (x : Db). x.roles) made.4;
                                  session = (
                                    ap (λ (x : Db). x.bypass_rls) f.db
                                        ∙ ap (λ (x : Db). x.bypass_rls) kept,
                                    ap (λ (x : Db). x.app_tenant) f.db
                                        ∙ ap (λ (x : Db). x.app_tenant) kept,
                                  );
                                }))))
                          (λ _ _ u. u)))))))
              (λ _. Unwritten-same refl))))
        (λ _. after-raise _ _ w (Unwritten-same refl)))
