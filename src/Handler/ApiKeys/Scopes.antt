-- ===== src/Handler/ApiKeys/Scopes.antt =====
-- What a key is worth: no more than it was given, and no more than its owner still holds.
use iam_go_auth.Base.{
  not-false, ℕ, String, Bool, true, false, ◌&&◌, ◌≡◌, refl, sym, ap, ap₂, ◌∙◌, some, List, [], ◌∷◌,
  str_eq, any, find, select, is_some, arith, eq_iff, Bool-cases, inl, inr,
}
use iam_go_auth.Db.Models.{Db, User, ApiKey}
use iam_go_auth.Db.Query.{Query, row}
use iam_go_auth.Db.Query.Laws.{row-fst, row-snd, one-row}
use iam_go_auth.Db.Users.{has_id, get_user_by_id}
use iam_go_auth.Db.Tenants.{active_in, is_active_member}
use iam_go_auth.Db.Permissions.{get_user_permissions_scoped}
use iam_go_auth.Db.ApiKeys.{get_api_key_by_hash}
use iam_go_auth.Rpc.{World, Status, ◌>>=◌}
use iam_go_auth.Rpc.Laws.{After, after-pure, after-bind, after-weaken, after-fail_if, after-get_now}
use iam_go_auth.Rpc.Statements.{after-must, after-try}
use iam_go_auth.Rpc.Transactions.{after-in_tx}
use iam_go_auth.Handler.{AuthHandler, Identity, hash_token}
use iam_go_auth.Handler.Validate.{set_tenant, unset_tenant, with_tenant_guc}
use iam_go_auth.Handler.ApiKeys.{KeyOwner, effective, expired_at, owner_of, validate_api_key}

any-select :
    (s : String) (p : String → Bool) (xs : List String)
    → any (str_eq s) (select p xs) ≡ (any (str_eq s) xs && p s)
unfolding any select
any-select s p [] = refl
any-select s p (x ∷ xs) = elim (Bool-cases (str_eq s x)) [
  | inl e ↦
      let same = ap p ((eq_iff s x).0 e) in
      elim (Bool-cases (p x)) [
        | inl y ↦ ground (arith, any-select s p xs, same, y, e)
        | inr n ↦ ground (arith, any-select s p xs, same, n, e)
      ]
  | inr e ↦ ground (arith, any-select s p xs)
]

-- The scopes in effect are those that the key and the permissions both have.
pub effective-both :
    (s : String) (scopes perms : List String)
    → any (str_eq s) (effective scopes perms) ≡ (any (str_eq s) scopes && any (str_eq s) perms)
unfolding effective
effective-both s scopes perms = any-select s (λ t. any (str_eq t) perms) scopes

-- The query has run under the tenant's setting on the tables of `w`.
pub after-with_tenant_guc :
    {A : Type 0} {P : A → World → Type 0} {E : Status → World → Type 0} (tenant : ℕ) (q : Query A)
    (message : String) (w : World)
    → ((a : A) (d : Db) (w' : World)
        → q w.now (record w.db { app_tenant = some tenant }) ≡ row (a, d)
        → P a w')
    → ((s : Status) (w' : World) → E s w')
    → After (with_tenant_guc tenant q message) w P E
unfolding with_tenant_guc unset_tenant set_tenant ◌>>=◌
after-with_tenant_guc tenant q message w p e = record {
  ends =
      (after-bind _ _ w (
        after-in_tx _ _ _ w (λ _ _ _. e _ _)
          (λ w1 b. after-bind _ _ _ (
            after-must _ _ _ w1
              (λ _ w2 set.
                after-weaken _ w2
                  (after-must q _ _ w2
                    (λ a w3 ran. (
                      (λ w4 _. record {
                        ends = p a w3.db _ (
                            ap₂ q (sym (set.same.now ∙ b.same.now)) (
                              ap (λ (d : Db). record d { app_tenant = some tenant }) (sym b.db)
                              ∙ row-snd set.answered)
                            ∙ ran.answered);
                      }),
                      (λ w4 _. e _ w4),
                    ))
                    (λ w3 _ w4 _. e _ w4))
                  (λ _ _ x. x) (λ _ _ x. x))
              (λ w2 _ w3 _. e _ w3))))).ends;
}

module _ (h : AuthHandler) (ctx : Identity) where
  -- The owner of a key as the tables have it, and what the key gives it.
  pub record Owned (key : ApiKey) (now : ℕ) (db : Db) (owner : KeyOwner) : Type 0 where
    pub user : User
    pub known : find (has_id key.user_id) db.users ≡ some user
    pub live : is_some user.deleted_at ≡ false
    pub member : any (active_in key.user_id key.tenant_id db.tenants) db.memberships ≡ true
    pub perms : List String
    pub after_read : Db
    pub held :
        get_user_permissions_scoped key.user_id key.tenant_id key.project_id now
          (record db { app_tenant = some key.tenant_id })
        ≡ row (perms, after_read)
    pub subject : owner.user_id ≡ h.uuid_string key.user_id
    pub scopes :
        (s : String)
        → any (str_eq s) owner.scopes ≡ (any (str_eq s) key.scopes && any (str_eq s) perms)

  owner_of-Owned :
      (key : ApiKey) (now : ℕ) (db : Db) (w : World)
      → w.db ≡ db
      → w.now ≡ now
      → After (owner_of h ctx key) w (λ owner _. Owned key now db owner) (λ _ _. Unit {0})
  unfolding owner_of get_user_by_id is_active_member
  owner_of-Owned key now db w edb enow = after-bind _ _ _ (
      after-must _ _ _ w
        (λ user w1 ran1.
          let (known, same1) = one-row _ _ ran1.answered in
          let at1 = same1 ∙ edb in
          after-bind _ _ _ (
            after-fail_if _ _ _ w1 (λ _. tt)
              (λ live. after-bind _ _ _ (
                after-must _ _ _ w1
                  (λ member w2 ran2. after-bind _ _ _ (
                    after-fail_if _ _ _ w2 (λ _. tt)
                      (λ is_member. after-bind _ _ _ (
                        after-with_tenant_guc _ _ _ w2
                          (λ perms d w3 held.
                            let owned : Owned key now db (record {
                              user_id = h.uuid_string key.user_id;
                              email = user.email;
                              scopes = effective key.scopes perms;
                            }) =
                              record {
                                user = user;
                                known =
                                    ap (λ (x : Db). find (has_id key.user_id) x.users) (sym edb)
                                    ∙ known;
                                live = live;
                                member =
                                    ap
                                      (λ (x : Db).
                                        any (active_in key.user_id key.tenant_id x.tenants)
                                          x.memberships)
                                      (sym at1)
                                    ∙ row-fst ran2.answered
                                    ∙ not-false _ is_member;
                                perms = perms;
                                after_read = d;
                                held =
                                    ap₂
                                      (λ n (x : Db).
                                        get_user_permissions_scoped key.user_id key.tenant_id
                                          key.project_id n
                                          (record x { app_tenant = some key.tenant_id }))
                                      (sym (ran2.same.now ∙ ran1.same.now ∙ enow))
                                      (sym at1 ∙ row-snd ran2.answered)
                                    ∙ held;
                                subject = refl;
                                scopes = λ s. effective-both s key.scopes perms;
                              } in
                            after-bind _ _ _ (
                              after-try _ w3 (λ _ w4 _. after-pure _ w4 owned)
                                (λ w4 _. after-pure _ w4 owned)))
                          (λ _ _. tt)))))
                  (λ _ _. tt)))))
        (λ _ _. tt))

  -- The key that was accepted, and its owner.
  pub record Accepted (api_key : String) (w : World) (owner : KeyOwner) : Type 0 where
    pub key : ApiKey
    pub found :
        find (λ (k : ApiKey). str_eq k.key_hash (hash_token h api_key)) w.db.api_keys ≡ some key
    pub unrevoked : is_some key.revoked_at ≡ false
    pub unexpired : expired_at w.now key.expires_at ≡ false
    pub owned : Owned key w.now w.db owner

  -- Whatever calls fail, an API key that is accepted is stored, not revoked and not expired, its
  -- owner is an account that is not deleted and an active member of the key's active tenant, and the
  -- scopes in effect are exactly those that are both among the key's and among the permissions that
  -- the owner now holds in the key's tenant and project.
  pub validate_api_key-Accepted :
      (api_key : String) (w : World)
      → After
          (validate_api_key h ctx api_key)
          w
          (λ owner _. Accepted api_key w owner)
          (λ _ _. Unit {0})
  unfolding validate_api_key get_api_key_by_hash
  validate_api_key-Accepted api_key w = after-bind _ _ _ (
      after-must _ _ _ w
        (λ key w1 ran1.
          let (found, same1) = one-row _ _ ran1.answered in
          after-bind _ _ _ (
            after-fail_if _ _ _ w1 (λ _. tt)
              (λ unrevoked. after-bind _ _ _ (
                after-get_now w1 (
                  after-bind _ _ _ (
                    after-fail_if _ _ _ w1 (λ _. tt)
                      (λ unexpired.
                        after-weaken _ w1 (owner_of-Owned key w.now w.db w1 same1 ran1.same.now)
                          (λ owner _ owned. record {
                            key = key;
                            found = found;
                            unrevoked = unrevoked;
                            unexpired =
                                ap (λ n. expired_at n key.expires_at) (sym ran1.same.now)
                                ∙ unexpired;
                            owned = owned;
                          })
                          (λ _ _ x. x))))))))
        (λ _ _. tt))
