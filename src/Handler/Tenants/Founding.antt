-- ===== src/Handler/Tenants/Founding.antt =====
-- CreateTenant writes the tenant with its first member and administrator, or nothing.
use iam_go_auth.Base.{
  ℕ, ◌+◌, String, Bool, true, false, not, ◌||◌, ◌≡◌, refl, sym, ap, ◌∙◌, ◌⊎◌, inl, inr, none, some,
  List, [], ◌∷◌, ◌++◌, str_eq, any, any-or, find, arith,
}
use iam_go_auth.Db.Models.{Db, Tenant, Membership, Role}
use iam_go_auth.Db.Query.{row}
use iam_go_auth.Db.Query.Laws.{check-row, row-fst, row-snd}
use iam_go_auth.Db.Tenants.{create_tenant, is_membership}
use iam_go_auth.Db.Roles.{
  built_in, visible_roles, same_assignment, assignment, assign_role_in_tenant,
}
use iam_go_auth.Db.Roles.Laws.{
  RoleGiven, insert_user_role-RoleGiven, RoleGiven-any, RoleGiven-frame,
}
use iam_go_auth.Rpc.{World}
use iam_go_auth.Rpc.Laws.{
  After, after-pure, after-or_raise, after-bind, after-weaken, after-fail_if,
}
use iam_go_auth.Rpc.Statements.{after-must}
use iam_go_auth.Rpc.Transactions.{Undone, after-in_tx}
use iam_go_auth.Handler.{AuthHandler, Identity, caller_id, audit}
use iam_go_auth.Handler.Guards.{after-require_perm}
use iam_go_auth.Handler.Frame.{Frame, after-audit_as}
use iam_go_auth.Handler.Register.Writes.{create_membership-Made}
use iam_go_auth.Handler.Register.Atomic.{Unwritten, Unwritten-same}
use iam_go_auth.Handler.Tenants.{TenantInfo, tenant_info, create_tenant_tx, create_tenant_rpc}

abbrev pub has_slug : String → Tenant → Bool
has_slug slug t = str_eq t.slug slug

-- The row that CreateTenant has stored.
create_tenant-Made :
    (slug name : String) (now : ℕ) (db : Db) (t : Tenant) (db' : Db)
    → create_tenant slug name now db ≡ row (t, db')
    → (any (has_slug slug) db.tenants ≡ false)
      × (t.slug ≡ slug)
      × (t.name ≡ name)
      × (t.status ≡ "active")
      × (db' ≡ record db { tenants = db.tenants ++ t ∷ []; drawn = db.drawn + 1 })
unfolding create_tenant
create_tenant-Made slug name now db t db' e =
    let (free, wrote') = check-row _ _ e in
    let et = row-fst wrote' in
    (
      unused _ db.tenants free,
      sym (ap (λ (x : Tenant). x.slug) et),
      sym (ap (λ (x : Tenant). x.name) et),
      sym (ap (λ (x : Tenant). x.status) et),
      sym (row-snd wrote')
          ∙ ap (λ (x : Tenant). record db { tenants = db.tenants ++ x ∷ []; drawn = db.drawn + 1 })
              et,
    )
  where
    unused :
        (p : Tenant → Bool) (ts : List Tenant)
        → not (any (λ (o : Tenant). p o || has_slug slug o) ts) ≡ true
        → any (has_slug slug) ts ≡ false
    unused p ts h = ground (arith, any-or p (has_slug slug) ts)

module _ (h : AuthHandler) (ctx : Identity) where
  -- The tenant, its first member and, where there is a role of that name, its administrator.
  pub record Founded (uid : ℕ) (slug name : String) (w : World) (t : Tenant) (w' : World)
      : Type 0 where
    pub unused : any (has_slug slug) w.db.tenants ≡ false
    pub slug_kept : t.slug ≡ slug
    pub name_kept : t.name ≡ name
    pub active : t.status ≡ "active"
    pub tenants : w'.db.tenants ≡ w.db.tenants ++ t ∷ []
    pub member : any (is_membership uid t.id) w'.db.memberships ≡ true
    pub admin :
        (find (built_in "admin") (visible_roles w.db) ≡ none)
        ⊎ ((r : Role) × (find (built_in "admin") (visible_roles w.db) ≡ some r)
            × (any (same_assignment (assignment uid r t.id none)) w'.db.user_roles ≡ true))

  Founded-writes :
      (uid : ℕ) (slug name : String) (w : World) (d1 d2 d3 d4 : Db) (w' : World) (t : Tenant)
      → d1 ≡ w.db
      → (any (has_slug slug) d1.tenants ≡ false)
        × (t.slug ≡ slug)
        × (t.name ≡ name)
        × (t.status ≡ "active")
        × (d2 ≡ record d1 { tenants = d1.tenants ++ t ∷ []; drawn = d1.drawn + 1 })
      → ((ms : List Membership) × (d3 ≡ record d2 { memberships = ms })
          × (any (is_membership uid t.id) ms ≡ true))
      → RoleGiven uid (find (built_in "admin") (visible_roles d3)) t.id none d3 d4
      → w'.db ≡ d4
      → Founded uid slug name w t w'
  Founded-writes uid slug name w d1 d2 d3 d4 w' t e1 e2 e3 g e5 =
      let (_, e4) = RoleGiven-frame _ _ _ _ _ _ g in
      let roles : visible_roles d3 ≡ visible_roles w.db =
        ap visible_roles e3.1 ∙ ap visible_roles e2.4 ∙ ap visible_roles e1 in
      record {
        unused = ap (λ (d : Db). any (has_slug slug) d.tenants) (sym e1) ∙ e2.0;
        slug_kept = e2.1;
        name_kept = e2.2;
        active = e2.3;
        tenants =
            ap (λ (d : Db). d.tenants) (e5 ∙ e4)
            ∙ ap (λ (d : Db). d.tenants) e3.1
            ∙ ap (λ (d : Db). d.tenants) e2.4
            ∙ ap (λ (d : Db). d.tenants ++ t ∷ []) e1;
        member =
            ap (λ (d : Db). any (is_membership uid t.id) d.memberships) (e5 ∙ e4)
            ∙ ap (λ (d : Db). any (is_membership uid t.id) d.memberships) e3.1
            ∙ e3.2;
        admin = elim (RoleGiven-any _ _ _ _ _ _ g) [
          | inl e ↦ inl (ap (find (built_in "admin")) (sym roles) ∙ e)
          | inr (r, e, had) ↦ inr (
            r,
            ap (find (built_in "admin")) (sym roles) ∙ e,
            ap (λ (d : Db). any (same_assignment (assignment uid r t.id none)) d.user_roles) e5
                ∙ had,
          )
        ];
      }

  create_tenant_tx-Founded :
      (uid : ℕ) (slug name : String) (w : World)
      → After (create_tenant_tx h ctx uid slug name) w (Founded uid slug name w) (λ _. Unwritten w)
  unfolding create_tenant_tx assign_role_in_tenant
  create_tenant_tx-Founded uid slug name w =
      after-in_tx _ _ _ w (λ w' e _. Unwritten-same e)
        (λ w1 b. after-bind _ _ _ (
          after-must _ _ _ w1
            (λ t w2 created. after-bind _ _ _ (
              after-must _ _ _ w2
                (λ _ w3 joined. after-bind _ _ _ (
                  after-must _ _ _ w3
                    (λ _ w4 granted. after-pure t w4 (
                      λ w' c.
                          Founded-writes uid slug name w w1.db w2.db w3.db w4.db w' t b.db
                            (create_tenant-Made _ _ _ _ _ _ created.answered)
                            (create_membership-Made _ _ _ _ _ _ joined.answered)
                            (insert_user_role-RoleGiven _ _ _ _ _ _ _ granted.answered) c.db,
                      λ w' u. undone w4 w' u,
                    ))
                    (λ w4 _ w'. undone w4 w')))
                (λ w3 _ w'. undone w3 w')))
            (λ w2 _ w'. undone w2 w')))
    where
      undone : (w2 w' : World) → Undone w.db w2 w' → Unwritten w w'
      undone w2 w' u = record { drawn = w2.db.drawn; serial = w2.db.next_serial; db = u.db }

  Founded-audit :
      (uid : ℕ) (slug name : String) (w w1 w2 : World) (t : Tenant)
      → Founded uid slug name w t w1
      → Frame w1 w2
      → Founded uid slug name w t w2
  Founded-audit uid slug name w w1 w2 t x f = record {
    unused = x.unused;
    slug_kept = x.slug_kept;
    name_kept = x.name_kept;
    active = x.active;
    tenants = ap (λ (d : Db). d.tenants) f.db ∙ x.tenants;
    member = ap (λ (d : Db). any (is_membership uid t.id) d.memberships) f.db ∙ x.member;
    admin = elim x.admin [
      | inl e ↦ inl e
      | inr (r, e, had) ↦ inr (
        r,
        e,
        ap (λ (d : Db). any (same_assignment (assignment uid r t.id none)) d.user_roles) f.db ∙ had,
      )
    ];
  }

  -- What a successful CreateTenant shows.
  pub record TenantCreated (slug name : String) (w : World) (answer : TenantInfo) (w' : World)
      : Type 0 where
    pub permitted : ctx.has_permission "tenant:write" ≡ true
    pub uid : ℕ
    pub caller : h.uuid_parse ctx.user_id ≡ some uid
    pub tenant : Tenant
    pub founded : Founded uid slug name w tenant w'
    pub answered : answer ≡ tenant_info h tenant

  -- Whatever calls fail, a CreateTenant that succeeds was made with the permission tenant:write,
  -- the slug was free, and the tenant, the caller's membership in it and, where there is a built-in
  -- role admin, the caller's assignment of it in that tenant are stored together; one that ends
  -- with an error has left every table as it was.
  pub create_tenant-TenantCreated :
      (slug name : String) (w : World)
      → After (create_tenant_rpc h ctx slug name) w (TenantCreated slug name w) (λ _. Unwritten w)
  unfolding create_tenant_rpc caller_id audit
  create_tenant-TenantCreated slug name w = after-bind _ _ _ (
      after-require_perm ctx _ w
        (λ permitted. after-bind _ _ _ (
          after-fail_if _ _ _ w (λ _. Unwritten-same refl)
            (λ _. after-bind _ _ _ (
              after-or_raise _ _ _ w
                (λ uid caller. after-bind _ _ _ (
                  after-weaken _ w (create_tenant_tx-Founded uid slug name w)
                    (λ t w1 founded. after-bind _ _ _ (
                      after-audit_as h ctx _ _ _ _ _ w1 (λ w2 _ f. after-pure _ w2 (record {
                        permitted = permitted;
                        uid = uid;
                        caller = caller;
                        tenant = t;
                        founded = Founded-audit uid slug name w w1 w2 t founded f;
                        answered = refl;
                      }))))
                    (λ _ _ u. u)))
                (λ _. Unwritten-same refl)))))
        (λ _. Unwritten-same refl))
