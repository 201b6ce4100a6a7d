-- ===== src/Handler/Tokens/Laws.antt =====
-- What issueTokens and issueForActiveTenant leave behind.
use iam_go_auth.Base.{
  ℕ, ◌+◌, String, false, ◌≡◌, refl, sym, subst₂, ◌∙◌, Option, none, some, List, [], ◌∷◌,
}
use iam_go_auth.Db.Models.{Db, RefreshToken}
use iam_go_auth.Db.Query.Laws.{row-fst, row-snd}
use iam_go_auth.Db.Tokens.Laws.{Created, create_refresh_token-Created}
use iam_go_auth.Db.Tenants.{MembershipRow, list_memberships_by_user, memberships_of}
use iam_go_auth.Jwt.{issue}
use iam_go_auth.Rpc.{World, Status}
use iam_go_auth.Rpc.Laws.{
  After, after-pure, after-raise, after-or_raise, after-bind, after-weaken, after-draw,
  after-get_now,
}
use iam_go_auth.Rpc.Statements.{Calm, Calm-Ran, after-must}
use iam_go_auth.Handler.{AuthHandler, hash_token}
use iam_go_auth.Handler.Tokens.{
  TokenPair, project_string, issue_tokens, first_tenant, issue_for_active_tenant,
}

module _ (h : AuthHandler) where
  -- The pair that was issued from `w`, and the token row behind it.
  pub record Issued (user_id : ℕ) (email : String) (tenant_id : ℕ) (project_id : Option ℕ) (now : ℕ)
      (db : Db) (pair : TokenPair) (w' : World) : Type 0 where
    pub jti : String
    pub signed :
        issue h.jwt_lib h.jwt now jti
          (h.uuid_string user_id)
          email
          (h.uuid_string tenant_id)
          (project_string h project_id)
        ≡ some pair.access_token
    pub single : pair.mfa_required ≡ false
    pub stored : RefreshToken
    pub created :
        Created user_id
          (hash_token h pair.refresh_token)
          (now + h.refresh_ttl)
          tenant_id
          project_id
          db
          stored
          w'.db
    pub clock : w'.now ≡ now

  -- No row was written.
  pub record NotIssued (w w' : World) : Type 0 where
    pub db : w'.db ≡ w.db

  pub issue_tokens-Issued :
      (user_id : ℕ) (email : String) (tenant_id : ℕ) (project_id : Option ℕ) (w : World)
      → After
          (issue_tokens h user_id email tenant_id project_id)
          w
          (λ pair w'.
            Issued user_id email tenant_id project_id w.now w.db pair w' × (Calm w → Calm w'))
          (λ _. NotIssued w)
  unfolding issue_tokens
  issue_tokens-Issued user_id email tenant_id project_id w = after-bind _ _ _ (
      after-get_now w (
        after-bind _ _ _ (
          after-draw w (λ jti es. after-bind _ _ _ (
            after-or_raise _ _ _ _
              (λ j _. after-bind _ _ _ (
                after-or_raise _ _ _ _
                  (λ access signed. after-bind _ _ _ (
                    after-draw _ (λ r es'. after-bind _ _ _ (
                      after-or_raise _ _ _ _
                        (λ refresh _. after-bind _ _ _ (
                          after-must _ _ _ _
                            (λ t w' ran. after-pure _ _ (
                              record {
                                jti = j;
                                signed = signed;
                                single = refl;
                                stored = t;
                                created =
                                    create_refresh_token-Created _ _ _ _ _ _ _ _ _ ran.answered;
                                clock = ran.same.now;
                              },
                              λ c.
                                  Calm-Ran ran
                                    (record { no_faults = c.no_faults; accepting = c.accepting }),
                            ))
                            (λ w' m. record { db = m.db })))
                        (λ _. record { db = refl })))))
                  (λ _. record { db = refl })))
              (λ _. record { db = refl }))))))

  -- The tenant of a pair that was issued for the active tenant is one of the user's memberships.
  pub record IssuedActive (user_id : ℕ) (email : String) (w : World) (pair : TokenPair) (w' : World)
      : Type 0 where
    pub membership : MembershipRow
    pub others : List MembershipRow
    pub listed : memberships_of user_id w.db ≡ membership ∷ others
    pub issued : Issued user_id email membership.tenant_id none w.now w.db pair w'

  first_tenant-After :
      {P : ℕ → World → Type 0} {E : Status → World → Type 0} (ms : List MembershipRow) (w : World)
      → ((m : MembershipRow) (rest : List MembershipRow) → ms ≡ m ∷ rest → P m.tenant_id w)
      → ((s : Status) → E s w)
      → After (first_tenant h ms) w P E
  unfolding first_tenant
  first_tenant-After [] w p e = after-raise _ _ w (e _)
  first_tenant-After (m ∷ rest) w p e = after-pure _ w (p m rest refl)

  pub issue_for_active_tenant-IssuedActive :
      (user_id : ℕ) (email : String) (w : World)
      → After
          (issue_for_active_tenant h user_id email)
          w
          (IssuedActive user_id email w)
          (λ _. NotIssued w)
  unfolding issue_for_active_tenant list_memberships_by_user
  issue_for_active_tenant-IssuedActive user_id email w = after-bind _ _ _ (
      after-must _ _ _ _
        (λ members w1 ran.
          let same = sym (row-snd ran.answered) in
          after-bind _ _ _ (
            first_tenant-After _ _
              (λ m rest e.
                after-weaken _ _ (issue_tokens-Issued user_id email m.tenant_id none w1)
                  (λ pair w' issued. record {
                    membership = m;
                    others = rest;
                    listed = row-fst ran.answered ∙ e;
                    issued =
                        subst₂ (λ n d. Issued user_id email m.tenant_id none n d pair w')
                          ran.same.now same issued.0;
                  })
                  (λ s w' k. record { db = k.db ∙ same }))
              (λ _. record { db = same })))
        (λ w1 m. record { db = m.db }))
