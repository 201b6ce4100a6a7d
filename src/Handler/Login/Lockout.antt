-- ===== src/Handler/Login/Lockout.antt =====
-- The lock that repeated failures put on an account.
use iam_go_auth.Base.{
  ℕ, ◌+◌, String, Bool, true, false, ◌≡◌, refl, sym, ap, ap₂, str_eq, ◌∙◌, Option, some, List, inl,
  inr, find, find-update_where, ltb, leb, arith, if◌then◌else◌, update_where,
}
use mathlib.Core.Option
use iam_go_auth.Db.Models.{Db, User}
use iam_go_auth.Db.Query.{row, no_rows, failed, returning, wrote}
use iam_go_auth.Db.Query.Laws.{row-snd, one-row, one-missed}
use iam_go_auth.Db.Users.{
  has_id, has_email, bump, get_user_by_email, increment_login_failure, lock_user,
}
use iam_go_auth.Db.Users.Laws.{increment_login_failure-Counted}
use iam_go_auth.Rpc.{World, unauthenticated}
use iam_go_auth.Rpc.Laws.{
  After, after-raise, after-bind, after-weaken, after-get_now, after-fail_if, after-when, after-if,
}
use iam_go_auth.Rpc.Statements.{Calm, Calm-Ran, after-must, after-try, after-exec}
use iam_go_auth.Handler.{AuthHandler, Identity}
use iam_go_auth.Handler.Frame.{after-audit_as}
use iam_go_auth.Handler.Tokens.{TokenPair}
use iam_go_auth.Handler.Login.{locked_at, lock_after, count_failure, refuse, login}

-- The row that a look-up by address finds is the one that an update by its id has rewritten.
found_after_update :
    (email : String) (us : List User) (u : User) (id : ℕ) (f : User → User)
    → ((x : User) → (f x).email ≡ x.email)
    → has_id id u ≡ true
    → find (has_email email) us ≡ some u
    → find (has_email email) (update_where (has_id id) f us) ≡ some (f u)
found_after_update email us u id f keeps same found =
    find-update_where (has_email email) (has_id id) f (λ x. ap (λ e. str_eq e email) (keeps x)) us
    ∙ ap (Option.map (λ (x : User). if has_id id x then f x else x)) found
    ∙ ap (λ b. some (if b then f u else u)) same

itself : (u : User) → has_id u.id u ≡ true
itself u = ground arith

same_user : {o : Option User} {x y : User} → o ≡ some x → o ≡ some y → x ≡ y
same_user p q = cc

clash : {b : Bool} → b ≡ false → b ≡ true → ⊥
clash p q = cc

module _ (h : AuthHandler) (ctx : Identity) where
  -- The row of a user after a wrong password: the count is one more, or, where that is the limit,
  -- the account is locked from now on and the count starts again.
  abbrev pub after_wrong : ℕ → User → User
  after_wrong now u =
      if leb h.login_max_failures (u.failed_login_attempts + 1)
      then record u { locked_until = some (now + h.lockout_duration); failed_login_attempts = 0 }
      else record u { failed_login_attempts = u.failed_login_attempts + 1 }

  -- Whatever calls fail and whatever the password is, a login to an account that is locked beyond
  -- now ends with an Unauthenticated error, and no table has changed.
  pub login-locked :
      (email password : String) (w : World) (u : User)
      → find (has_email email) w.db.users ≡ some u
      → locked_at w.now u ≡ true
      → After
          (login h ctx email password)
          w
          (λ _ _. ⊥)
          (λ s w'. (s.code ≡ unauthenticated) × (w'.db ≡ w.db))
  unfolding login get_user_by_email
  login-locked email password w u found locked = after-bind _ _ _ (
      after-must _ _ _ w
        (λ user w1 ran.
          let (known, same) = one-row _ _ ran.answered in
          after-bind _ _ _ (
            after-get_now w1 (
              after-bind _ _ _ (
                after-fail_if _ _ _ w1 (λ _. (refl, same))
                  (λ unlocked. absurd (
                    clash (sym (ap₂ locked_at ran.same.now (same_user known found)) ∙ unlocked)
                      locked))))))
        (λ w1 m. (refl, m.db)))

  lock_after-row :
      (email : String) (u : User) (detail : String) (n : ℕ) (w : World)
      → Calm w
      → n ≡ u.failed_login_attempts + 1
      → find (has_email email) w.db.users ≡ some (bump u)
      → After
          (lock_after h ctx u detail (row n))
          w
          (λ _ w'. find (has_email email) w'.db.users ≡ some (after_wrong w.now u))
          (λ _ _. ⊥)
  unfolding lock_after lock_user
  lock_after-row email u detail n w calm count found =
      after-when _ _ w
        (λ reached. after-bind _ _ _ (
          after-get_now w (
            after-bind _ _ _ (
              after-try _ w
                (λ _ w1 ran. after-audit_as h ctx _ _ _ _ _ w1 (λ w2 same _.
                  ap (find (has_email email)) same
                  ∙ ap (λ (d : Db). find (has_email email) d.users) (sym (row-snd ran.answered))
                  ∙ found_after_update email w.db.users (bump u) u.id _ (λ _. refl) (itself u) found
                  ∙ ap some (locked_row (sym (ap (leb h.login_max_failures) count) ∙ reached))))
                (λ w1 m. absurd (elim (m.cause calm) [ inl x ↦ cc | inr x ↦ cc ]))))))
        (λ below. found ∙ ap some (counted_row (sym (ap (leb h.login_max_failures) count) ∙ below)))
    where
      locked_row :
          leb h.login_max_failures (u.failed_login_attempts + 1) ≡ true
          → record u { locked_until = some (w.now + h.lockout_duration); failed_login_attempts = 0 }
            ≡ after_wrong w.now u
      locked_row e = rw e refl

      counted_row :
          leb h.login_max_failures (u.failed_login_attempts + 1) ≡ false
          → bump u ≡ after_wrong w.now u
      counted_row e = rw e refl

  count_failure-row :
      (email : String) (u : User) (detail : String) (w : World)
      → Calm w
      → find (has_email email) w.db.users ≡ some u
      → find (has_id u.id) w.db.users ≡ some u
      → ltb 0 h.login_max_failures ≡ true
      → After
          (count_failure h ctx u detail)
          w
          (λ _ w'. find (has_email email) w'.db.users ≡ some (after_wrong w.now u))
          (λ _ _. ⊥)
  unfolding count_failure increment_login_failure
  count_failure-row email u detail w calm found by_id limit =
      after-when _ _ w
        (λ _. after-bind _ _ _ (
          after-weaken _ _
            (after-exec _ w
              (λ a w1.
                After (lock_after h ctx u detail a) w1
                  (λ _ w'. find (has_email email) w'.db.users ≡ some (after_wrong w.now u))
                  (λ _ _. ⊥))
              (λ n w1 ran.
                let c = increment_login_failure-Counted u.id w.now w.db n w1.db ran.answered in
                after-weaken _ w1
                  (lock_after-row email u detail n w1 (Calm-Ran ran calm)
                    (c.count
                      ∙ ap (λ (x : User). x.failed_login_attempts + 1) (same_user c.found by_id))
                    (ap (λ (d : Db). find (has_email email) d.users) c.change
                      ∙ found_after_update email w.db.users u u.id bump (λ _. refl) (itself u)
                          found))
                  (λ _ _ e. e ∙ ap (λ t. some (after_wrong t u)) ran.same.now) (λ _ _ x. x))
              (λ w1 none m. absurd (returned none))
              (λ w1 m. absurd (elim (m.cause calm) [ inl x ↦ returned x | inr x ↦ fails x ])))
            (λ _ _ x. x) (λ _ _ x. absurd x)))
        (λ off. absurd (clash off limit))
    where
      returned : increment_login_failure u.id w.now w.db ≡ no_rows → ⊥
      returned e = cc (
          sym (
            ap
              (λ (o : Option User). returning o (λ x.
                wrote (x.failed_login_attempts + 1)
                  (record w.db { users = update_where (has_id u.id) bump w.db.users })))
              by_id)
          ∙ e)

      fails : increment_login_failure u.id w.now w.db ≡ failed → ⊥
      fails e = cc (
          sym (
            ap
              (λ (o : Option User). returning o (λ x.
                wrote (x.failed_login_attempts + 1)
                  (record w.db { users = update_where (has_id u.id) bump w.db.users })))
              by_id)
          ∙ e)

  refuse-row :
      {P : TokenPair → World → Type 0} (email : String) (u : User) (detail action message : String)
      (w : World)
      → Calm w
      → find (has_email email) w.db.users ≡ some u
      → find (has_id u.id) w.db.users ≡ some u
      → ltb 0 h.login_max_failures ≡ true
      → After (refuse h ctx u detail action message) w P (λ s w'.
        (s.code ≡ unauthenticated)
        × (find (has_email email) w'.db.users ≡ some (after_wrong w.now u)))
  unfolding refuse
  refuse-row email u detail action message w calm found by_id limit = after-bind _ _ _ (
      after-weaken _ _ (count_failure-row email u detail w calm found by_id limit)
        (λ _ w1 e. after-bind _ _ _ (
          after-audit_as h ctx _ _ _ _ _ w1
            (λ w2 same _. after-raise _ _ w2 (refl, ap (find (has_email email)) same ∙ e))))
        (λ _ _ x. absurd x))

  -- Where no call fails and the limit is not zero, a login with a wrong password to an account that
  -- is known and not locked ends with an Unauthenticated error, and the account's row is then the
  -- one of `after_wrong`: counted, or locked for the configured time once the count is the limit.
  pub login-counts :
      (email password : String) (w : World) (u : User)
      → Calm w
      → find (has_email email) w.db.users ≡ some u
      → find (has_id u.id) w.db.users ≡ some u
      → locked_at w.now u ≡ false
      → h.passwords.verify u.password_hash password ≡ false
      → ltb 0 h.login_max_failures ≡ true
      → After
          (login h ctx email password)
          w
          (λ _ _. ⊥)
          (λ s w'.
            (s.code ≡ unauthenticated)
            × (find (has_email email) w'.db.users ≡ some (after_wrong w.now u)))
  unfolding login get_user_by_email
  login-counts email password w u calm found by_id unlocked wrong limit = after-bind _ _ _ (
      after-must _ _ _ w
        (λ user w1 ran.
          let (known, same) = one-row _ _ ran.answered in
          let eu = same_user known found in
          after-bind _ _ _ (
            after-get_now w1 (
              after-bind _ _ _ (
                after-fail_if _ _ _ w1
                  (λ locked. absurd (clash unlocked (sym (ap₂ locked_at ran.same.now eu) ∙ locked)))
                  (λ _.
                    after-if _ _ _ w1
                      (λ right. absurd (
                        clash wrong (
                          ap (λ (x : User). h.passwords.verify x.password_hash password) (sym eu)
                          ∙ right)))
                      (λ _.
                        after-weaken _ w1
                          (refuse-row {P = λ _ _. ⊥} email user _ _ _ w1 (Calm-Ran ran calm)
                            (ap (λ (d : Db). find (has_email email) d.users) same ∙ known)
                            (ap (λ (d : Db). find (has_id user.id) d.users) same
                              ∙ ap (λ (x : User). find (has_id x.id) w.db.users) eu
                              ∙ by_id
                              ∙ ap some (sym eu))
                            limit)
                          (λ _ _ x. x)
                          (λ s w' x.
                            (x.0, x.1 ∙ ap₂ (λ t x. some (after_wrong t x)) ran.same.now eu))))))))
        (λ w1 m. absurd (one-missed _ _ found (m.cause calm))))
