-- ===== src/Handler/Oidc/Grant.antt =====
-- The later steps of an exchange: the authentication of the client, and the tokens.
use iam_go_auth.Base.{
  ℕ, ◌+◌, String, Bool, true, false, ◌≡◌, refl, sym, ap, subst, ◌∙◌, ◌⊎◌, inl, inr, Option, none,
  some, [], ◌∷◌, ◌++◌, ltb, any, find, not-false,
}
use iam_go_auth.Db.Models.{Db, OauthAuthorizationCode, OauthClient, RefreshToken}
use iam_go_auth.Db.Users.{has_id, get_user_by_id}
use iam_go_auth.Db.Tenants.{active_in, is_active_member}
use iam_go_auth.Db.Oauth.{with_expiry, has_client_id, get_client_row}
use iam_go_auth.Rpc.{World}
use iam_go_auth.Rpc.Laws.{
  After, after-pure, after-or_raise, after-bind, after-if, after-fail_if, after-get_now,
  after-weaken,
}
use iam_go_auth.Rpc.Reads.{Read, after-must_one, after-must_value}
use iam_go_auth.Handler.{AuthHandler, hash_token}
use iam_go_auth.Handler.Tokens.{TokenPair}
use iam_go_auth.Handler.Tokens.Laws.{Issued, issue_tokens-Issued}
use iam_go_auth.Handler.Oidc.{
  Exchange, OidcTokens, has_pkce, wrong_secret, authenticate_client, grant_tokens,
}

pub same : {A : Type 0} {x y : A} → some x ≡ some y → x ≡ y
same e = cc

pub with_expiry-some :
    (now : ℕ) (o : Option OauthAuthorizationCode) (found : OauthAuthorizationCode × Bool)
    → with_expiry now o ≡ some found
    → (o ≡ some found.0) × (ltb found.0.expires_at now ≡ found.1)
with_expiry-some now none found e = absurd (cc)
with_expiry-some now (some c) found e = (
  ap (λ (x : OauthAuthorizationCode × Bool). some x.0) (same e),
  subst (λ (x : OauthAuthorizationCode × Bool). ltb x.0.expires_at now ≡ x.1) (same e) refl,
)

module _ (h : AuthHandler) where
  -- The client has proved who it is: by its secret, or, if it has none, by a PKCE challenge.
  abbrev pub Authenticated : Exchange → OauthAuthorizationCode → OauthClient → Type 0
  Authenticated req c client =
      (client.is_confidential ≡ true) × (wrong_secret h req client ≡ false)
      ⊎ (client.is_confidential ≡ false) × (has_pkce c ≡ true)

  pub authenticate_client-After :
      (req : Exchange) (c : OauthAuthorizationCode) (w : World)
      → After
          (authenticate_client h req c)
          w
          (λ _ w'.
            Read w w'
            × ((client : OauthClient) × (find (has_client_id c.client_id) w.db.oauth_clients
                  ≡ some client)
                × Authenticated req c client))
          (λ _ _. Unit {0})
  unfolding authenticate_client get_client_row
  authenticate_client-After req c w = after-bind _ _ _ (
      after-must_one (get_client_row c.client_id)
        (λ _ (db : Db). find (has_client_id c.client_id) db.oauth_clients) _ _ w (λ _ _. refl)
        (λ client w1 hit read.
          after-if _ _ _ w1
            (λ confidential.
              after-fail_if _ _ _ w1 (λ _. tt)
                (λ right. (read, (client, hit, inl (confidential, right)))))
            (λ public.
              after-fail_if _ _ _ w1 (λ _. tt)
                (λ pkce. (read, (client, hit, inr (public, not-false _ pkce))))))
        (λ _ _. tt))

  -- The pair belongs to the user of the code, in the tenant of the client, of which the user is an
  -- active member.
  pub record Bound (c : OauthAuthorizationCode) (w : World) (tokens : OidcTokens) (w' : World)
      : Type 0 where
    pub client : OauthClient
    pub registered : find (has_client_id c.client_id) w.db.oauth_clients ≡ some client
    pub member : any (active_in c.user_id client.tenant_id w.db.tenants) w.db.memberships ≡ true
    pub stored : RefreshToken
    pub hash : stored.token_hash ≡ hash_token h tokens.refresh_token
    pub owner : stored.user_id ≡ c.user_id
    pub tenant : stored.tenant_id ≡ client.tenant_id
    pub project : stored.project_id ≡ none
    pub scope : tokens.scope ≡ c.scope
    pub change : w'.db ≡ record w.db {
      refresh_tokens = w.db.refresh_tokens ++ stored ∷ [];
      drawn = w.db.drawn + 1;
    }

  pub grant_tokens-Bound :
      (c : OauthAuthorizationCode) (w : World)
      → After (grant_tokens h c) w (Bound c w) (λ _ _. Unit {0})
  unfolding grant_tokens get_client_row get_user_by_id is_active_member
  grant_tokens-Bound c w = after-bind _ _ _ (
      after-must_one (get_user_by_id c.user_id) (λ _ (db : Db). find (has_id c.user_id) db.users) _
        _ w (λ _ _. refl)
        (λ user w1 _ r1. after-bind _ _ _ (
          after-must_one (get_client_row c.client_id)
            (λ _ (db : Db). find (has_client_id c.client_id) db.oauth_clients) _ _ w1 (λ _ _. refl)
            (λ client w2 hit r2. after-bind _ _ _ (
              after-must_value (is_active_member c.user_id client.tenant_id)
                (λ _ (db : Db).
                  any (active_in c.user_id client.tenant_id db.tenants) db.memberships)
                _ _ w2 (λ _ _. refl)
                (λ w3 r3. after-bind _ _ _ (
                  after-fail_if _ _ _ w3 (λ _. tt)
                    (λ member. after-bind _ _ _ (
                      after-weaken _ w3
                        (issue_tokens-Issued h c.user_id user.email client.tenant_id none w3)
                        (λ pair w4 issued. after-bind _ _ _ (
                          after-get_now w4 (
                            after-bind _ _ _ (
                              after-or_raise _ _ _ w4
                                (λ id_token _. after-pure _ w4 (
                                  bound w1 w2 w3 w4 client user.email pair _ hit r1.db r2.db r3.db
                                    (not-false _ member) issued.0 refl refl))
                                (λ _. tt)))))
                        (λ _ _ _. tt)))))
                (λ _ _. tt)))
            (λ _ _. tt)))
        (λ _ _. tt))
    where
      bound :
          (w1 w2 w3 w4 : World) (client : OauthClient) (email : String) (pair : TokenPair)
          (tokens : OidcTokens)
          → find (has_client_id c.client_id) w1.db.oauth_clients ≡ some client
          → w1.db ≡ w.db
          → w2.db ≡ w1.db
          → w3.db ≡ w2.db
          → any (active_in c.user_id client.tenant_id w2.db.tenants) w2.db.memberships ≡ true
          → Issued h c.user_id email client.tenant_id none w3.now w3.db pair w4
          → tokens.refresh_token ≡ pair.refresh_token
          → tokens.scope ≡ c.scope
          → Bound c w tokens w4
      bound w1 w2 w3 w4 client email pair tokens hit e1 e2 e3 member i et es = record {
        client = client;
        registered =
            ap (λ (d : Db). find (has_client_id c.client_id) d.oauth_clients) (sym e1) ∙ hit;
        member =
            ap (λ (d : Db). any (active_in c.user_id client.tenant_id d.tenants) d.memberships)
              (sym (e2 ∙ e1))
            ∙ member;
        stored = i.stored;
        hash = i.created.hash ∙ ap (λ s. hash_token h s) (sym et);
        owner = i.created.user;
        tenant = i.created.tenant;
        project = i.created.project;
        scope = es;
        change =
            i.created.change
            ∙ ap
                (λ (d : Db). record d {
                  refresh_tokens = d.refresh_tokens ++ i.stored ∷ [];
                  drawn = d.drawn + 1;
                })
                (e3 ∙ e2 ∙ e1);
      }
