-- ===== src/Handler/Tenants/Switch.antt =====
-- SwitchTenant gives tokens for a tenant of the caller only.
use iam_go_auth.Base.{
  ℕ, String, true, ◌≡◌, refl, sym, ap, subst, ◌∙◌, some, [], ◌∷◌, ◌++◌, any, not-false, find,
}
use iam_go_auth.Db.Models.{Db, User, RefreshToken}
use iam_go_auth.Db.Users.{has_id, get_user_by_id}
use iam_go_auth.Db.Tenants.{active_in, is_active_member}
use iam_go_auth.Rpc.{World}
use iam_go_auth.Rpc.Laws.{After, after-or_raise, after-bind, after-fail_if, after-weaken}
use iam_go_auth.Rpc.Reads.{after-must_one, after-must_value}
use iam_go_auth.Handler.{AuthHandler, Identity, hash_token, caller_id, parse_optional_uuid, audit}
use iam_go_auth.Handler.Frame.{after-audit_as}
use iam_go_auth.Jwt.{issue}
use iam_go_auth.Handler.Tokens.{TokenPair, project_string}
use iam_go_auth.Handler.Tokens.Laws.{issue_tokens-Issued}
use iam_go_auth.Handler.Login.Sound.{SameTokens, SameTokens-Frame}
use iam_go_auth.Handler.Tenants.{switch_tenant}
use iam_go_auth.Handler.Tenants.Projects.{InTenant, check_project-InTenant}

module _ (h : AuthHandler) (ctx : Identity) where
  -- What a successful SwitchTenant shows.
  pub record Switched (tenant_id project_id : String) (w : World) (pair : TokenPair) (w' : World)
      : Type 0 where
    pub uid : ℕ
    pub caller : h.uuid_parse ctx.user_id ≡ some uid
    pub tenant : ℕ
    pub named : h.uuid_parse tenant_id ≡ some tenant
    pub member : any (active_in uid tenant w.db.tenants) w.db.memberships ≡ true
    pub user : User
    pub exists : find (has_id uid) w.db.users ≡ some user
    pub jti : String
    pub signed :
        issue h.jwt_lib h.jwt w.now jti
          (h.uuid_string uid)
          user.email
          (h.uuid_string tenant)
          (project_string h (parse_optional_uuid h project_id))
        ≡ some pair.access_token
    pub stored : RefreshToken
    pub hash : stored.token_hash ≡ hash_token h pair.refresh_token
    pub owner : stored.user_id ≡ uid
    pub for_tenant : stored.tenant_id ≡ tenant
    pub for_project : stored.project_id ≡ parse_optional_uuid h project_id
    pub project : InTenant tenant w.db (parse_optional_uuid h project_id)
    pub tokens : w'.db.refresh_tokens ≡ w.db.refresh_tokens ++ stored ∷ []

  -- Whatever calls fail, tokens from SwitchTenant are for a tenant that the caller is an active
  -- member of and for no project or one of that tenant: the access token is signed for that user,
  -- tenant and project, and exactly one refresh token is added, for the same three; where it ends
  -- with an error none is added.
  pub switch_tenant-Switched :
      (tenant_id project_id : String) (w : World)
      → After
          (switch_tenant h ctx tenant_id project_id)
          w
          (Switched tenant_id project_id w)
          (λ _. SameTokens w)
  unfolding switch_tenant caller_id is_active_member get_user_by_id audit
  switch_tenant-Switched tenant_id project_id w = after-bind _ _ _ (
      after-or_raise _ _ _ w
        (λ uid caller. after-bind _ _ _ (
          after-or_raise _ _ _ w
            (λ tid named. after-bind _ _ _ (
              after-must_value (is_active_member uid tid)
                (λ _ (db : Db). any (active_in uid tid db.tenants) db.memberships) _ _ w
                (λ _ _. refl)
                (λ w1 r1. after-bind _ _ _ (
                  after-fail_if _ _ _ w1 (λ _. tokens r1.db)
                    (λ member. after-bind _ _ _ (
                      after-weaken _ w1 (check_project-InTenant h project_id tid w1)
                        (λ _ w2 checked. after-bind _ _ _ (
                          after-must_one (get_user_by_id uid)
                            (λ _ (db : Db). find (has_id uid) db.users) _ _ w2 (λ _ _. refl)
                            (λ user w3 exists r3. after-bind _ _ _ (
                              after-audit_as h ctx _ _ _ _ _ w3 (λ w4 _ f.
                                after-weaken _ w4 (issue_tokens-Issued h _ _ _ _ w4)
                                  (λ pair w5 issued.
                                    let e2 = checked.0.db ∙ r1.db in
                                    record {
                                      uid = uid;
                                      caller = caller;
                                      tenant = tid;
                                      named = named;
                                      member = not-false _ member;
                                      user = user;
                                      exists =
                                          ap (λ (d : Db). find (has_id uid) d.users) (sym e2)
                                          ∙ exists;
                                      jti = issued.0.jti;
                                      signed =
                                          subst
                                            (λ n.
                                              issue h.jwt_lib h.jwt n issued.0.jti
                                                (h.uuid_string uid) user.email (h.uuid_string tid)
                                                (project_string h
                                                  (parse_optional_uuid h project_id))
                                              ≡ some pair.access_token)
                                            (f.now ∙ r3.same.now ∙ checked.0.same.now ∙ r1.same.now)
                                            issued.0.signed;
                                      stored = issued.0.stored;
                                      hash = issued.0.created.hash;
                                      owner = issued.0.created.user;
                                      for_tenant = issued.0.created.tenant;
                                      for_project = issued.0.created.project;
                                      project =
                                          subst
                                            (λ d. InTenant tid d (parse_optional_uuid h project_id))
                                            r1.db checked.1;
                                      tokens =
                                          issued.0.created.tokens
                                          ∙ ap (λ ts. ts ++ issued.0.stored ∷ [])
                                              (SameTokens-Frame f ∙ tokens (r3.db ∙ e2));
                                    })
                                  (λ _ w5 k.
                                    tokens k.db
                                    ∙ SameTokens-Frame f
                                    ∙ tokens (r3.db ∙ checked.0.db ∙ r1.db)))))
                            (λ _ e. tokens (e ∙ checked.0.db ∙ r1.db))))
                        (λ _ _ e. tokens (e ∙ r1.db))))))
                (λ _ e. tokens e)))
            (λ _. refl)))
        (λ _. refl))
    where
      tokens : {d d' : Db} → d' ≡ d → d'.refresh_tokens ≡ d.refresh_tokens
      tokens e = ap (λ (d : Db). d.refresh_tokens) e
