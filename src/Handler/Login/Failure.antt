-- ===== src/Handler/Login/Failure.antt =====
-- A refused login changes nothing but the users and the audit trail.
use iam_go_auth.Base.{ℕ, String, sym}
use iam_go_auth.Db.Models.{User}
use iam_go_auth.Db.Query.{Answer, row, no_rows, failed}
use iam_go_auth.Db.Query.Laws.{row-snd}
use iam_go_auth.Db.Users.{lock_user}
use iam_go_auth.Db.Users.Laws.{increment_login_failure-Counted}
use iam_go_auth.Rpc.{World}
use iam_go_auth.Rpc.Laws.{
  After, after-pure, after-raise, after-bind, after-weaken, after-get_now, after-when,
}
use iam_go_auth.Rpc.Statements.{after-try, after-exec}
use iam_go_auth.Handler.{AuthHandler, Identity}
use iam_go_auth.Handler.Frame.{
  Frame, Frame-refl, Frame-trans, Frame-Missed, Frame-users, after-audit_as, after-extend,
}
use iam_go_auth.Handler.Tokens.{TokenPair}
use iam_go_auth.Handler.Login.{lock_after, count_failure, refuse}

module _ (h : AuthHandler) (ctx : Identity) where
  lock_after-Frame :
      (user : User) (detail : String) (a : Answer ℕ) (w : World)
      → After (lock_after h ctx user detail a) w (λ _. Frame w) (λ _. Frame w)
  unfolding lock_after lock_user
  lock_after-Frame user detail (row n) w =
      after-when _ _ _
        (λ _. after-bind _ _ _ (
          after-get_now w (
            after-bind _ _ _ (
              after-try _ w
                (λ _ w1 ran. after-audit_as h ctx _ _ _ _ _ w1 (λ w2 _ f.
                  Frame-trans (Frame-users _ (sym (row-snd ran.answered)) ran.same.now) f))
                (λ w1 m.
                  after-audit_as h ctx _ _ _ _ _ w1 (λ w2 _ f. Frame-trans (Frame-Missed m) f))))))
        (λ _. Frame-refl w)
  lock_after-Frame user detail _ w = after-pure _ w (Frame-refl w)

  count_failure-Frame :
      (user : User) (detail : String) (w : World)
      → After (count_failure h ctx user detail) w (λ _. Frame w) (λ _. Frame w)
  unfolding count_failure
  count_failure-Frame user detail w =
      after-when _ _ w
        (λ _. after-bind _ _ _ (
          after-weaken _ _
            (after-exec _ w
              (λ a w1. After (lock_after h ctx user detail a) w1 (λ _. Frame w) (λ _. Frame w))
              (λ n w1 ran.
                let c = increment_login_failure-Counted _ _ _ _ _ ran.answered in
                after-extend (Frame-users _ c.change ran.same.now)
                  (lock_after-Frame user detail (row n) w1))
              (λ w1 _ m. after-extend (Frame-Missed m) (lock_after-Frame user detail no_rows w1))
              (λ w1 m. after-extend (Frame-Missed m) (lock_after-Frame user detail failed w1)))
            (λ _ _ x. x) (λ _ _ x. absurd x)))
        (λ _. Frame-refl w)

  -- `refuse` ends with an error.
  pub refuse-Frame :
      {P : TokenPair → World → Type 0} (user : User) (detail action message : String) (w : World)
      → After (refuse h ctx user detail action message) w P (λ _. Frame w)
  unfolding refuse
  refuse-Frame user detail action message w = after-bind _ _ _ (
      after-weaken _ _ (count_failure-Frame user detail w)
        (λ _ w1 f.
          after-bind _ _ _
            (after-audit_as h ctx _ _ _ _ _ w1 (λ w2 _ g. after-raise _ _ w2 (Frame-trans f g))))
        (λ _ _ f. f))
