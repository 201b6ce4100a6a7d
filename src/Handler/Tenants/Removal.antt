-- ===== src/Handler/Tenants/Removal.antt =====
-- A member that was removed is let into the tenant no more.
use iam_go_auth.Base.{
  ℕ, String, true, false, ◌≡◌, refl, sym, ap, ◌∙◌, some, List, [], ◌∷◌, any, any-delete_where,
  delete_where, arith,
}
use iam_go_auth.Db.Models.{Db, Membership, Tenant}
use iam_go_auth.Db.Query.Laws.{row-snd}
use iam_go_auth.Db.Tenants.{is_membership, active_in, remove_member}
use iam_go_auth.Rpc.{World}
use iam_go_auth.Rpc.Laws.{After, after-pure, after-or_raise, after-bind}
use iam_go_auth.Handler.{AuthHandler, Identity, audit}
use iam_go_auth.Handler.Guards.{after-require_perm, after-active_tenant}
use iam_go_auth.Handler.Frame.{after-audit_as}
use iam_go_auth.Handler.Roles.Creation.{after-with_tenant}
use iam_go_auth.Handler.Register.Atomic.{Unwritten, Unwritten-same}
use iam_go_auth.Handler.Tenants.{remove_member_rpc}

no_member :
    (uid tenant : ℕ) (ts : List Tenant) (ms : List Membership)
    → any (is_membership uid tenant) ms ≡ false
    → any (active_in uid tenant ts) ms ≡ false
unfolding any
no_member uid tenant ts [] e = refl
no_member uid tenant ts (m ∷ ms) e = ground (arith, no_member uid tenant ts ms)

module _ (h : AuthHandler) (ctx : Identity) where
  -- What a successful RemoveMember shows.
  pub record Removed (user_id : String) (w w' : World) : Type 0 where
    pub permitted : ctx.has_permission "member:write" ≡ true
    pub tenant : ℕ
    pub active : h.uuid_parse ctx.tenant_id ≡ some tenant
    pub uid : ℕ
    pub named : h.uuid_parse user_id ≡ some uid
    pub memberships : w'.db.memberships ≡ delete_where (is_membership uid tenant) w.db.memberships
    pub refused : any (active_in uid tenant w'.db.tenants) w'.db.memberships ≡ false

  -- Whatever calls fail, a RemoveMember that succeeds was made with the permission member:write; of
  -- the memberships exactly those of the named user in the caller's tenant are gone, and the test
  -- for an active member, which SwitchTenant, the exchange of a code and the validation of tokens
  -- and API keys make, now fails for that user and tenant. One that ends with an error has left
  -- every table as it was.
  pub remove_member-Removed :
      (user_id : String) (w : World)
      → After (remove_member_rpc h ctx user_id) w (λ _. Removed user_id w) (λ _. Unwritten w)
  unfolding remove_member_rpc remove_member audit
  remove_member-Removed user_id w = after-bind _ _ _ (
      after-require_perm ctx _ w
        (λ permitted. after-bind _ _ _ (
          after-active_tenant h ctx w
            (λ tenant active. after-bind _ _ _ (
              after-or_raise _ _ _ w
                (λ uid named. after-bind _ _ _ (
                  after-with_tenant tenant (remove_member uid tenant) _ _ w
                    (λ _ d w1 ran kept. after-bind _ _ _ (
                      after-audit_as h ctx _ _ _ _ _ w1 (λ w2 _ f.
                        let gone : w2.db.memberships
                            ≡ delete_where (is_membership uid tenant) w.db.memberships =
                          ap (λ (d : Db). d.memberships) f.db
                          ∙ ap (λ (d : Db). d.memberships) kept
                          ∙ ap (λ (d : Db). d.memberships) (sym (row-snd ran)) in
                        after-pure _ w2 (record {
                          permitted = permitted;
                          tenant = tenant;
                          active = active;
                          uid = uid;
                          named = named;
                          memberships = gone;
                          refused = no_member uid tenant w2.db.tenants w2.db.memberships (
                              ap (any (is_membership uid tenant)) gone
                              ∙ any-delete_where (is_membership uid tenant) w.db.memberships);
                        }))))
                    (λ _ _ u. u)))
                (λ _. Unwritten-same refl)))
            (λ _. Unwritten-same refl)))
        (λ _. Unwritten-same refl))
