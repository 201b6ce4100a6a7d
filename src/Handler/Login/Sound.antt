-- ===== src/Handler/Login/Sound.antt =====
-- Whoever gets tokens from Login has passed every test.
use iam_go_auth.Base.{
  String, true, false, not, ◌&&◌, ◌≡◌, refl, sym, ap, ◌∙◌, ◌⊎◌, inl, inr, none, some, List, [], ◌∷◌,
  ◌++◌, is_some, find, if◌then◌else◌,
}
use iam_go_auth.Db.Models.{Db, User, RefreshToken}
use iam_go_auth.Db.Query.Laws.{row-snd, one-row}
use iam_go_auth.Db.Users.{has_email, get_user_by_email, reset_login_state}
use iam_go_auth.Db.Tenants.{MembershipRow, memberships_of}
use iam_go_auth.Rpc.{World}
use iam_go_auth.Rpc.Laws.{
  After, after-pure, after-or_raise, after-bind, after-weaken, after-get_now, after-fail_if,
  after-if,
}
use iam_go_auth.Rpc.Statements.{after-must, after-try}
use iam_go_auth.Handler.{AuthHandler, Identity, hash_token}
use iam_go_auth.Handler.Frame.{
  Frame, Frame-trans, Frame-Missed, Frame-users, Frame-read, after-audit_as,
}
use iam_go_auth.Handler.Tokens.{TokenPair}
use iam_go_auth.Handler.Tokens.Laws.{IssuedActive, issue_for_active_tenant-IssuedActive}
use iam_go_auth.Handler.Login.Failure.{refuse-Frame}
use iam_go_auth.Handler.Login.{locked_at, challenge, issue_after, admit, login}

-- No refresh token has been added, removed or changed.
abbrev pub SameTokens : World → World → Type 0
SameTokens w w' = w'.db.refresh_tokens ≡ w.db.refresh_tokens

pub SameTokens-Frame : {w w' : World} → Frame w w' → SameTokens w w'
SameTokens-Frame f = ap (λ (d : Db). d.refresh_tokens) f.db

module _ (h : AuthHandler) (ctx : Identity) where
  -- The tokens that a login through the password alone has issued.
  pub record Session (user : User) (w : World) (pair : TokenPair) (w' : World) : Type 0 where
    pub membership : MembershipRow
    pub others : List MembershipRow
    pub listed : memberships_of user.id w.db ≡ membership ∷ others
    pub stored : RefreshToken
    pub hash : stored.token_hash ≡ hash_token h pair.refresh_token
    pub owner : stored.user_id ≡ user.id
    pub tenant : stored.tenant_id ≡ membership.tenant_id
    pub project : stored.project_id ≡ none
    pub tokens : w'.db.refresh_tokens ≡ w.db.refresh_tokens ++ stored ∷ []

  Session-IssuedActive :
      (user : User) (w : World) (pair : TokenPair) (w' : World)
      → IssuedActive h user.id user.email w pair w'
      → Session user w pair w'
  Session-IssuedActive user w pair w' i = record {
    membership = i.membership;
    others = i.others;
    listed = i.listed;
    stored = i.issued.stored;
    hash = i.issued.created.hash;
    owner = i.issued.created.user;
    tenant = i.issued.created.tenant;
    project = i.issued.created.project;
    tokens = i.issued.created.tokens;
  }

  Session-Frame :
      (user : User) (w w1 : World) (pair : TokenPair) (w' : World)
      → Frame w w1
      → Session user w1 pair w'
      → Session user w pair w'
  unfolding memberships_of
  Session-Frame user w w1 pair w' f s = record {
    membership = s.membership;
    others = s.others;
    listed = sym (ap (λ (d : Db). memberships_of user.id d) f.db) ∙ s.listed;
    stored = s.stored;
    hash = s.hash;
    owner = s.owner;
    tenant = s.tenant;
    project = s.project;
    tokens = s.tokens ∙ ap (λ (ts : List RefreshToken). ts ++ s.stored ∷ []) (SameTokens-Frame f);
  }

  -- What a login that ended with a pair shows: of `w`, that every test was passed, and of `w'`, that
  -- it holds one more refresh token, for the user's first tenant, or that a second factor is asked
  -- for and none was added.
  pub record LoggedIn (email password : String) (w : World) (pair : TokenPair) (w' : World)
      : Type 0 where
    pub user : User
    pub known : find (has_email email) w.db.users ≡ some user
    pub verified : h.passwords.verify user.password_hash password ≡ true
    pub unlocked : locked_at w.now user ≡ false
    pub live : is_some user.deleted_at ≡ false
    pub confirmed : (h.require_email_verification && not user.email_verified) ≡ false
    pub outcome :
        (user.totp_enabled ≡ true) × (pair.mfa_required ≡ true) × SameTokens w w'
        ⊎ (user.totp_enabled ≡ false) × (pair.mfa_required ≡ false) × Session user w pair w'

  challenge-After :
      (user : User) (w : World)
      → After
          (challenge h ctx user)
          w
          (λ pair w'. (pair.mfa_required ≡ true) × Frame w w')
          (λ _. Frame w)
  unfolding challenge
  challenge-After user w = after-bind _ _ _ (
      after-audit_as h ctx _ _ _ _ _ w (λ w1 _ f. after-bind _ _ _ (
        after-get_now w1 (
          after-bind _ _ _
            (after-or_raise _ _ _ w1 (λ token _. after-pure _ w1 (refl, f)) (λ _. f))))))

  pub issue_after-After :
      (user : User) (detail : String) (w : World)
      → After
          (issue_after h ctx user detail)
          w
          (λ pair w'. (pair.mfa_required ≡ false) × Session user w pair w')
          (λ _. SameTokens w)
  unfolding issue_after
  issue_after-After user detail w = after-bind _ _ _ (
      after-audit_as h ctx _ _ _ _ _ w (λ w1 _ f.
        after-weaken _ w1 (issue_for_active_tenant-IssuedActive h user.id user.email w1)
          (λ pair w' i. (
            i.issued.single,
            Session-Frame user w w1 pair w' f (Session-IssuedActive user w1 pair w' i),
          ))
          (λ _ w' k. ap (λ (d : Db). d.refresh_tokens) k.db ∙ SameTokens-Frame f)))

  -- `admit`, from a world that differs from `w` by a frame.
  admit-After :
      {P : TokenPair → World → Type 0} (user : User) (w w1 : World)
      → Frame w w1
      → ((pair : TokenPair) (w' : World)
          → (h.require_email_verification && not user.email_verified) ≡ false
          → is_some user.deleted_at ≡ false
          → (user.totp_enabled ≡ true) × (pair.mfa_required ≡ true) × SameTokens w w'
            ⊎ (user.totp_enabled ≡ false) × (pair.mfa_required ≡ false) × Session user w pair w'
          → P pair w')
      → After (admit h ctx user) w1 P (λ _. SameTokens w)
  unfolding admit reset_login_state
  admit-After {P} user w w1 f p = after-bind _ _ _ (
      after-fail_if _ _ _ w1 (λ _. SameTokens-Frame f)
        (λ confirmed. after-bind _ _ _ (
          after-fail_if _ _ _ w1 (λ _. SameTokens-Frame f)
            (λ live. after-bind _ _ _ (
              after-try _ w1
                (λ _ w2 ran.
                  rest w2 confirmed live
                    (Frame-trans f (Frame-users _ (sym (row-snd ran.answered)) ran.same.now)))
                (λ w2 m. rest w2 confirmed live (Frame-trans f (Frame-Missed m))))))))
    where
      rest :
          (w2 : World)
          → (h.require_email_verification && not user.email_verified) ≡ false
          → is_some user.deleted_at ≡ false
          → Frame w w2
          → After
              (if user.totp_enabled then challenge h ctx user else issue_after h ctx user "")
              w2
              P
              (λ _. SameTokens w)
      rest w2 confirmed live g =
          after-if _ _ _ w2
            (λ on.
              after-weaken _ w2 (challenge-After user w2)
                (λ pair w' x.
                  p pair w' confirmed live (inl (on, x.0, SameTokens-Frame (Frame-trans g x.1))))
                (λ _ w' x. SameTokens-Frame (Frame-trans g x)))
            (λ off.
              after-weaken _ w2 (issue_after-After user "" w2)
                (λ pair w' x.
                  p pair w' confirmed live (inr (off, x.0, Session-Frame user w w2 pair w' g x.1)))
                (λ _ w' x. x ∙ SameTokens-Frame g))

  -- Whatever calls fail, a login that ends with a pair was for a known address, the stored hash
  -- verifies the password, and the account is not locked at this instant, not deleted and, where
  -- that is required, verified; either two-factor authentication is on, the pair asks for it and no
  -- refresh token was added, or it is off and exactly one was added, for the first tenant that the
  -- user is listed in and no project. One that ends with an error has added, removed or changed no
  -- refresh token.
  pub login-LoggedIn :
      (email password : String) (w : World)
      → After (login h ctx email password) w (LoggedIn email password w) (λ _. SameTokens w)
  unfolding login get_user_by_email
  login-LoggedIn email password w = after-bind _ _ _ (
      after-must _ _ _ w
        (λ user w1 ran.
          let (known, same) = one-row _ _ ran.answered in
          after-bind _ _ _ (
            after-get_now w1 (
              after-bind _ _ _ (
                after-fail_if _ _ _ w1 (λ _. ap (λ (d : Db). d.refresh_tokens) same)
                  (λ unlocked.
                    after-if _ _ _ w1
                      (λ verified.
                        admit-After user w w1 (Frame-read same ran.same.now)
                          (λ pair w' confirmed live outcome. record {
                            user = user;
                            known = known;
                            verified = verified;
                            unlocked = ap (λ n. locked_at n user) (sym ran.same.now) ∙ unlocked;
                            live = live;
                            confirmed = confirmed;
                            outcome = outcome;
                          }))
                      (λ _.
                        after-weaken _ w1 (refuse-Frame h ctx user _ _ _ w1) (λ _ _ x. x)
                          (λ _ w' f.
                            SameTokens-Frame f ∙ ap (λ (d : Db). d.refresh_tokens) same)))))))
        (λ w1 m. ap (λ (d : Db). d.refresh_tokens) m.db))
