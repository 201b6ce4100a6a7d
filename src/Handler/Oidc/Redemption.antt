-- ===== src/Handler/Oidc/Redemption.antt =====
-- Whoever exchanges an authorization code for tokens has passed every test, and only once.
use iam_go_auth.Base.{
  ◌+◌, Bool, true, false, not, ◌&&◌, ◌||◌, ◌≡◌, refl, sym, ap, ap₂, subst, ◌∙◌, ◌⊎◌, inl, inr, none,
  some, List, [], ◌∷◌, ◌++◌, str_eq, ltb, any, find, ==_iff, not-false, arith, update_where,
}
use iam_go_auth.Db.Models.{Db, OauthAuthorizationCode, OauthClient, RefreshToken}
use iam_go_auth.Db.Query.{row}
use iam_go_auth.Db.Tenants.{active_in}
use iam_go_auth.Db.Oauth.{
  with_expiry, has_code, has_client_id, unclaimed, use_code, get_authorization_code,
  claim_authorization_code,
}
use iam_go_auth.Db.Oauth.Laws.{Claimed, claim-Claimed}
use iam_go_auth.Rpc.{World}
use iam_go_auth.Rpc.Laws.{After, after-bind, after-fail_if, after-weaken}
use iam_go_auth.Rpc.Statements.{after-must}
use iam_go_auth.Rpc.Reads.{Read, after-must_one}
use iam_go_auth.Handler.{AuthHandler, hash_token}
use iam_go_auth.Handler.Oidc.{
  Exchange, OidcTokens, text_of, has_pkce, verify_pkce, bad_grant, exchange_authorization_code,
}
use iam_go_auth.Handler.Oidc.Grant.{
  same, with_expiry-some, Authenticated, Bound, authenticate_client-After, grant_tokens-Bound,
}

module _ (h : AuthHandler) where
  -- What a successful exchange shows: the code was stored for the client and the redirect URI of
  -- the request, unused and in time; its PKCE challenge, if it has one, was answered; the client
  -- proved who it is; the user is an active member of the client's tenant. Afterwards the code is
  -- used up, and one refresh token more is stored, of the code's user in that tenant.
  pub record Redeemed (req : Exchange) (w : World) (reply : OidcTokens) (w' : World) : Type 0 where
    pub grant : OauthAuthorizationCode
    pub known : find (has_code (hash_token h req.code)) w.db.authorization_codes ≡ some grant
    pub unused : grant.used ≡ false
    pub in_time : ltb grant.expires_at w.now ≡ false
    pub for_client : str_eq grant.client_id req.client_id ≡ true
    pub for_uri : str_eq grant.redirect_uri req.redirect_uri ≡ true
    pub proved :
        (has_pkce grant ≡ false)
        ⊎ (verify_pkce h
              (text_of grant.code_challenge)
              (text_of grant.code_challenge_method)
              req.code_verifier
            ≡ true)
    pub client : OauthClient
    pub registered : find (has_client_id grant.client_id) w.db.oauth_clients ≡ some client
    pub authenticated : Authenticated h req grant client
    pub member : any (active_in grant.user_id client.tenant_id w.db.tenants) w.db.memberships ≡ true
    pub spent : any (unclaimed (hash_token h req.code)) w'.db.authorization_codes ≡ false
    pub stored : RefreshToken
    pub hash : stored.token_hash ≡ hash_token h reply.refresh_token
    pub owner : stored.user_id ≡ grant.user_id
    pub tenant : stored.tenant_id ≡ client.tenant_id
    pub project : stored.project_id ≡ none
    pub tokens : w'.db.refresh_tokens ≡ w.db.refresh_tokens ++ stored ∷ []
    pub scope : reply.scope ≡ grant.scope

  pub no_or :
      (a b c d : Bool)
      → (a || b || not c || not d) ≡ false
      → (a ≡ false) × (b ≡ false) × (c ≡ true) × (d ≡ true)
  no_or a b c d e = (ground arith, ground arith, ground arith, ground arith)

  answered : (a b : Bool) → (a && not b) ≡ false → (a ≡ false) ⊎ (b ≡ true)
  answered false b e = inl refl
  answered true b e = inr (not-false b e)

  -- Whatever calls fail, an exchange that ends with tokens has passed every test of the code, of
  -- PKCE, of the client and of the membership; its code is used up, and the one refresh token that
  -- was added belongs to the user of the code in the tenant of the client.
  pub exchange-Redeemed :
      (req : Exchange) (w : World)
      → After (exchange_authorization_code h req) w (Redeemed req w) (λ _ _. Unit {0})
  unfolding exchange_authorization_code get_authorization_code
  exchange-Redeemed req w = after-bind _ _ _ (
      after-must_one (get_authorization_code (hash_token h req.code))
        (λ now (db : Db).
          with_expiry now (find (has_code (hash_token h req.code)) db.authorization_codes))
        _ _ w (λ _ _. refl)
        (λ found w1 hit r1. after-bind _ _ _ (
          after-fail_if _ _ _ w1 (λ _. tt)
            (λ good. after-bind _ _ _ (
              after-must (claim_authorization_code (hash_token h req.code)) _ _ w1
                (λ affected w2 ran. after-bind _ _ _ (
                  after-fail_if _ _ _ w2 (λ _. tt)
                    (λ one_row. after-bind _ _ _ (
                      after-fail_if _ _ _ w2 (λ _. tt)
                        (λ proved. after-bind _ _ _ (
                          after-weaken _ w2 (authenticate_client-After h req found.0 w2)
                            (λ _ w3 auth.
                              after-weaken _ w3 (grant_tokens-Bound h found.0 w3)
                                (λ tokens w4 b.
                                  redeemed found w1 w2 w3 tokens w4 hit r1 good
                                    (claim-Claimed _ _ _ _ (
                                      subst
                                        (λ n.
                                          claim_authorization_code (hash_token h req.code) w1.now
                                            w1.db
                                          ≡ row (n, w2.db))
                                        ((==_iff affected 1).0 (not-false _ one_row)) ran.answered))
                                    proved auth b)
                                (λ _ _ _. tt))
                            (λ _ _ _. tt)))))))
                (λ _ _. tt)))))
        (λ _ _. tt))
    where
      redeemed :
          (found : OauthAuthorizationCode × Bool) (w1 w2 w3 : World) (tokens : OidcTokens)
          (w4 : World)
          → with_expiry w.now (find (has_code (hash_token h req.code)) w.db.authorization_codes)
            ≡ some found
          → Read w w1
          → bad_grant h req found.0 found.1 ≡ false
          → Claimed (hash_token h req.code) w1.db w2.db
          → (has_pkce found.0
              && not (
                  verify_pkce h
                    (text_of found.0.code_challenge)
                    (text_of found.0.code_challenge_method)
                    req.code_verifier))
            ≡ false
          → Read w2 w3
            × ((client : OauthClient) × (find (has_client_id found.0.client_id) w2.db.oauth_clients
                  ≡ some client)
                × Authenticated h req found.0 client)
          → Bound h found.0 w3 tokens w4
          → Redeemed req w tokens w4
      redeemed found w1 w2 w3 tokens w4 hit r1 good claimed proved auth b =
          let kept : w3.db ≡ record w.db { authorization_codes = w3.db.authorization_codes } =
            only_codes (auth.0.db ∙ claimed.change) r1.db in
          let (client, registered, authenticated) = auth.1 in
          let one_client : b.client ≡ client = same (
            sym b.registered
            ∙ ap (λ (d : Db). find (has_client_id found.0.client_id) d.oauth_clients) auth.0.db
            ∙ registered) in
          let tests = no_or _ _ _ _ good in
          let (row_found, expiry) = with_expiry-some _ _ found hit in
          record {
            grant = found.0;
            known = row_found;
            unused = tests.0;
            in_time = expiry ∙ tests.1;
            for_client = tests.2;
            for_uri = tests.3;
            proved = answered _ _ proved;
            client = client;
            registered =
                ap (λ (d : Db). find (has_client_id found.0.client_id) d.oauth_clients)
                  (sym kept ∙ auth.0.db)
                ∙ registered;
            authenticated = authenticated;
            member = ap2_member (sym kept) one_client b.member;
            spent =
                ap (λ (d : Db). any (unclaimed (hash_token h req.code)) d.authorization_codes)
                  (b.change
                    ∙ ap
                        (λ (d : Db). record d {
                          refresh_tokens = d.refresh_tokens ++ b.stored ∷ [];
                          drawn = d.drawn + 1;
                        })
                        auth.0.db)
                ∙ claimed.none_open;
            stored = b.stored;
            hash = b.hash;
            owner = b.owner;
            tenant = b.tenant ∙ ap (λ (c : OauthClient). c.tenant_id) one_client;
            project = b.project;
            tokens =
                ap (λ (d : Db). d.refresh_tokens) b.change
                ∙ ap (λ (d : Db). d.refresh_tokens ++ b.stored ∷ []) kept;
            scope = b.scope;
          }
        where
          only_codes :
              {d1 d2 d3 : Db}
              → d3 ≡ record d2 {
                authorization_codes =
                    update_where
                      (unclaimed (hash_token h req.code))
                      use_code
                      d2.authorization_codes;
              }
              → d2 ≡ d1
              → d3 ≡ record d1 { authorization_codes = d3.authorization_codes }
          only_codes {d1} {d2} {d3} e e' =
              subst
                (λ (cs : List OauthAuthorizationCode). d3 ≡ record d1 { authorization_codes = cs })
                (sym (ap (λ (d : Db). d.authorization_codes) done)) done
            where
              done : d3 ≡ record d1 {
                authorization_codes =
                    update_where
                      (unclaimed (hash_token h req.code))
                      use_code
                      d1.authorization_codes;
              }
              done =
                  e
                  ∙ ap
                      (λ (d : Db). record d {
                        authorization_codes =
                            update_where (unclaimed (hash_token h req.code)) use_code
                              d.authorization_codes;
                      })
                      e'

          ap2_member :
              {d1 d3 : Db} {a c : OauthClient}
              → d3 ≡ d1
              → a ≡ c
              → any (active_in found.0.user_id a.tenant_id d1.tenants) d1.memberships ≡ true
              → any (active_in found.0.user_id c.tenant_id d3.tenants) d3.memberships ≡ true
          ap2_member e e' m =
              ap₂
                (λ (d : Db) (x : OauthClient).
                  any (active_in found.0.user_id x.tenant_id d.tenants) d.memberships)
                e (sym e')
              ∙ m
