-- ===== src/Handler/Validate/Gate.antt =====
-- Whoever ValidateToken answers for has passed every gate.
use iam_go_auth.Base.{
  not-false, ℕ, String, Bool, true, false, not, ◌≡◌, refl, sym, ap, subst, ◌∙◌, ◌⊎◌, inl, inr,
  Option, none, some, str_eq, any, find, is_some,
}
use iam_go_auth.Db.Models.{Db, User}
use iam_go_auth.Db.Query.Laws.{row-fst, row-snd, one-row}
use iam_go_auth.Db.Users.{has_id, is_user_active}
use iam_go_auth.Db.Tokens.{has_jti, is_token_revoked}
use iam_go_auth.Db.Tenants.{active_in, is_active_member}
use iam_go_auth.Jwt.{Claims, parse_access}
use iam_go_auth.Cache.{live, deny_key}
use iam_go_auth.Cache.Laws.{Silent, after-is_denied}
use iam_go_auth.Rpc.{World, next_fault}
use iam_go_auth.Rpc.Laws.{
  After, after-pure, after-or_raise, after-bind, after-if, after-weaken, after-get_now,
  after-fail_if, after-any,
}
use iam_go_auth.Rpc.Statements.{after-must}
use iam_go_auth.Handler.{AuthHandler}
use iam_go_auth.Handler.Validate.{Validated, check_denied, check_member, validate_token}

not-true : (b : Bool) → some (not b) ≡ some true → b ≡ false
not-true true e = cc
not-true false e = refl

-- Where the row is active, it is there and not deleted.
active_user :
    (o : Option User)
    → elim o as (λ _. Option Bool) [ none ↦ none | some u ↦ some (not (is_some u.deleted_at)) ]
      ≡ some true
    → (u : User) × (o ≡ some u) × (is_some u.deleted_at ≡ false)
active_user none e = absurd (cc)
active_user (some u) e = (u, refl, not-true (is_some u.deleted_at) e)

module _ (h : AuthHandler) where
  -- The jti is not denied: it is empty, or Redis answers the first call and has no live entry for it,
  -- or Redis does not answer and the table has no row for it.
  abbrev pub NotDenied : String → World → Type 0
  NotDenied jti w =
      (str_eq jti "" ≡ true)
      ⊎ ((h.cache.enabled ≡ true)
            × ((next_fault w.faults).0 ≡ false)
            × (is_some (find (live (deny_key jti) w.now) w.redis) ≡ false)
          ⊎ Silent h.cache w × (any (has_jti jti) w.db.revoked_tokens ≡ false))

  check_denied-NotDenied :
      (jti : String) (w : World)
      → After (check_denied h jti) w (λ _ w'. (w'.db ≡ w.db) × NotDenied jti w) (λ _ _. Unit {0})
  unfolding check_denied is_token_revoked
  check_denied-NotDenied jti w =
      after-if _ _ _ w (λ empty. after-pure tt w (refl, inl empty))
        (λ named. after-bind _ _ _ (
          after-is_denied h.cache jti w (λ d w1 u known on answers silent.
            after-if _ _ _ w1
              (λ answered.
                after-fail_if _ _ _ w1 (λ _. tt)
                  (λ e.
                    (u.db, inr (inl (on answered, answers answered, sym (known answered) ∙ e)))))
              (λ unknown. after-bind _ _ _ (
                after-must _ _ _ w1
                  (λ revoked w2 ran.
                    after-fail_if _ _ _ w2 (λ _. tt)
                      (λ e. (
                        sym (row-snd ran.answered) ∙ u.db,
                        inr (
                            inr (
                              silent named unknown,
                              ap (λ (x : Db). any (has_jti jti) x.revoked_tokens) (sym u.db)
                                  ∙ row-fst ran.answered
                                  ∙ e,
                            )),
                      )))
                  (λ _ _. tt))))))

  -- The claim names no tenant, or one that the user is an active member of.
  abbrev pub MemberOf : ℕ → String → World → Type 0
  MemberOf user tenant w =
      (str_eq tenant "" ≡ true)
      ⊎ ((tid : ℕ) × (h.uuid_parse tenant ≡ some tid)
          × (any (active_in user tid w.db.tenants) w.db.memberships ≡ true))

  check_member-MemberOf :
      (user : ℕ) (tenant : String) (w : World)
      → After (check_member h user tenant) w (λ _ _. MemberOf user tenant w) (λ _ _. Unit {0})
  unfolding check_member is_active_member
  check_member-MemberOf user tenant w =
      after-if _ _ _ w (λ empty. after-pure tt w (inl empty))
        (λ _. after-bind _ _ _ (
          after-or_raise _ _ _ w
            (λ tid parsed. after-bind _ _ _ (
              after-must _ _ _ w
                (λ member w1 ran.
                  after-fail_if _ _ _ w1 (λ _. tt)
                    (λ e. inr (tid, parsed, row-fst ran.answered ∙ not-false _ e)))
                (λ _ _. tt)))
            (λ _. tt)))

  -- What an answer of ValidateToken shows.
  pub record Admitted (token : String) (w : World) (v : Validated) : Type 0 where
    pub claims : Claims
    pub parsed : parse_access h.jwt_lib h.jwt w.now token ≡ some claims
    pub not_denied : NotDenied claims.id w
    pub uid : ℕ
    pub subject : h.uuid_parse claims.subject ≡ some uid
    pub user : User
    pub known : find (has_id uid) w.db.users ≡ some user
    pub active : is_some user.deleted_at ≡ false
    pub member : MemberOf uid claims.tenant_id w
    pub same_user : v.user_id ≡ claims.subject
    pub same_tenant : v.tenant_id ≡ claims.tenant_id

  -- Whatever calls fail, a token that ValidateToken answers for parses as an access token; its jti
  -- is empty or not denied, by Redis where it is configured and the call of it does not fail, and by
  -- the table of revoked tokens where it is not or does;
  -- its subject is a known account that is not deleted; the tenant that it names, if any, has that
  -- account as an active member; and the answer is about that subject and tenant.
  pub validate_token-Admitted :
      (token : String) (w : World)
      → After (validate_token h token) w (λ v _. Admitted token w v) (λ _ _. Unit {0})
  unfolding validate_token is_user_active
  validate_token-Admitted token w = after-bind _ _ _ (
      after-get_now w (
        after-bind _ _ _ (
          after-or_raise _ _ _ w
            (λ c parsed. after-bind _ _ _ (
              after-weaken _ w (check_denied-NotDenied c.id w)
                (λ _ w1 x. after-bind _ _ _ (
                  after-or_raise _ _ _ w1
                    (λ uid subject. after-bind _ _ _ (
                      after-must _ _ _ w1
                        (λ active w2 ran.
                          let (is_active, same) = one-row _ _ ran.answered in
                          after-bind _ _ _ (
                            after-fail_if _ _ _ w2 (λ _. tt)
                              (λ yes.
                                let u =
                                  active_user (find (has_id uid) w1.db.users)
                                    (is_active ∙ ap some (not-false _ yes)) in
                                after-bind _ _ _ (
                                  after-weaken _ w2 (check_member-MemberOf uid c.tenant_id w2)
                                    (λ _ w3 member. after-bind _ _ _ (
                                      after-any _ w3 (λ roles w4. after-bind _ _ _ (
                                        after-any _ w4 (λ perms w5. after-pure _ w5 (record {
                                          claims = c;
                                          parsed = parsed;
                                          not_denied = x.1;
                                          uid = uid;
                                          subject = subject;
                                          user = u.0;
                                          known =
                                              ap (λ (d : Db). find (has_id uid) d.users) (sym x.0)
                                              ∙ u.1;
                                          active = u.2;
                                          member =
                                              subst
                                                (λ (d : Db).
                                                  (str_eq c.tenant_id "" ≡ true)
                                                  ⊎ ((tid : ℕ) × (h.uuid_parse c.tenant_id
                                                        ≡ some tid)
                                                      × (any (active_in uid tid d.tenants)
                                                            d.memberships
                                                          ≡ true)))
                                                (same ∙ x.0) member;
                                          same_user = refl;
                                          same_tenant = refl;
                                        }))))))
                                    (λ _ _ y. y)))))
                        (λ _ _. tt)))
                    (λ _. tt)))
                (λ _ _ y. y)))
            (λ _. tt))))
