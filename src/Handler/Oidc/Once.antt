-- ===== src/Handler/Oidc/Once.antt =====
-- An authorization code gives tokens once.
use iam_go_auth.Base.{
  Bool, true, false, not, ◌&&◌, ◌≡◌, refl, sym, subst, some, List, [], ◌∷◌, any, find, arith,
}
use iam_go_auth.Db.Models.{Db, OauthAuthorizationCode}
use iam_go_auth.Db.Oauth.{with_expiry, has_code, unclaimed, get_authorization_code}
use iam_go_auth.Rpc.{World, Status, invalid_argument, ◌>>=◌}
use iam_go_auth.Rpc.Laws.{After, after-bind, after-fail_if, after-weaken}
use iam_go_auth.Rpc.Reads.{after-must_one}
use iam_go_auth.Handler.{AuthHandler, hash_token}
use iam_go_auth.Handler.Oidc.{Exchange, exchange_authorization_code}
use iam_go_auth.Handler.Oidc.Grant.{with_expiry-some}
use iam_go_auth.Handler.Oidc.Redemption.{no_or, exchange-Redeemed}

any-and_find :
    {A : Type 0} (p q : A → Bool) (xs : List A) {a : A}
    → find p xs ≡ some a
    → q a ≡ true
    → any (λ x. p x && q x) xs ≡ true
unfolding find any
any-and_find p q [] {a} e t = ground arith
any-and_find p q (x ∷ xs) {a} e t = ground (arith, any-and_find p q xs {a = a})

not-true : (b : Bool) → b ≡ false → not b ≡ true
not-true b e = ground arith

abbrev pub invalid_grant : Status
invalid_grant = record { code = invalid_argument; message = "invalid_grant" }

module _ (h : AuthHandler) where
  -- Whatever calls fail, where no row of the code is unused the exchange of the code is refused
  -- with invalid_grant, and no table has changed.
  pub exchange-Used :
      (req : Exchange) (w : World)
      → any (unclaimed (hash_token h req.code)) w.db.authorization_codes ≡ false
      → After
          (exchange_authorization_code h req)
          w
          (λ _ _. ⊥)
          (λ s w'. (s ≡ invalid_grant) × (w'.db ≡ w.db))
  unfolding exchange_authorization_code get_authorization_code
  exchange-Used req w none_open = after-bind _ _ _ (
      after-must_one (get_authorization_code (hash_token h req.code))
        (λ now (db : Db).
          with_expiry now (find (has_code (hash_token h req.code)) db.authorization_codes))
        _ _ w (λ _ _. refl)
        (λ found w1 hit r1. after-bind _ _ _ (
          after-fail_if _ _ _ w1 (λ _. (refl, r1.db))
            (λ good.
              absurd
                (still_open found.0 (with_expiry-some _ _ found hit).0 (no_or h _ _ _ _ good).0))))
        (λ _ e. (refl, e)))
    where
      still_open :
          (c : OauthAuthorizationCode)
          → find (has_code (hash_token h req.code)) w.db.authorization_codes ≡ some c
          → c.used ≡ false
          → ⊥
      still_open c e unused =
          let open_ =
            any-and_find (has_code (hash_token h req.code)) (λ x. not x.used)
              w.db.authorization_codes e (not-true c.used unused) in
          cc

  -- Whatever calls fail, two exchanges of one code, one after the other and with whatever client,
  -- redirect URI and verifier, do not both succeed.
  pub exchange-once :
      (req again : Exchange) (w : World)
      → again.code ≡ req.code
      → After
          (exchange_authorization_code h req >>= λ _. exchange_authorization_code h again)
          w
          (λ _ _. ⊥)
          (λ _ _. Unit {0})
  exchange-once req again w e = after-bind _ _ _ (
      after-weaken _ w (exchange-Redeemed h req w)
        (λ _ w1 done.
          after-weaken _ w1
            (exchange-Used again w1 (
              subst (λ code. any (unclaimed (hash_token h code)) w1.db.authorization_codes ≡ false)
                (sym e) done.spent))
            (λ _ _ x. x) (λ _ _ _. tt))
        (λ _ _ _. tt))
