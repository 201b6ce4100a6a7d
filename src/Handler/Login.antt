-- ===== src/Handler/Login.antt =====
-- internal/handler/auth.go: Login, and LoginTotp of internal/handler/m4.go, which ends a login with
-- a second factor.
pub mod Lockout
pub mod Failure
pub mod Sound
pub mod SecondFactor
use iam_go_auth.Base.{
  ℕ, ◌+◌, ◌*◌, String, Bool, true, false, not, ◌&&◌, ◌||◌, Option, none, some, str_eq, ltb, leb,
  is_some, if◌then◌else◌,
}
use iam_go_auth.Db.Models.{User}
use iam_go_auth.Db.Query.{Answer, row, no_rows, failed}
use iam_go_auth.Db.Users.{
  get_user_by_email, get_user_by_id, increment_login_failure, lock_user, reset_login_state,
}
use iam_go_auth.Db.Recovery.{consume_recovery_code}
use iam_go_auth.Jwt.{Claims, second, issue_mfa, parse}
use iam_go_auth.Rpc.{
  M, pure, raise, ◌>>=◌, ◌>>◌, or_raise, fail_if, when, exec, must, try, get_now, internal,
  unauthenticated,
}
use iam_go_auth.Handler.{AuthHandler, Identity, audit_as, hash_token}
use iam_go_auth.Handler.Tokens.{TokenPair, issue_for_active_tenant}

abbrev pub mfa_token_ttl : ℕ
mfa_token_ttl = 300 * second

-- user.LockedUntil.Valid && user.LockedUntil.Time.After(now)
abbrev pub locked_at : ℕ → User → Bool
locked_at now u = elim u.locked_until [ none ↦ false | some until ↦ ltb now until ]

module _ (h : AuthHandler) (ctx : Identity) where
  -- What follows IncrementLoginFailure: the lock, once the count has reached the limit.
  lock_after : User → String → Answer ℕ → M (Unit {0})
  lock_after user detail (row n) = when (leb h.login_max_failures n) (do
    now ← get_now
    try (lock_user user.id (now + h.lockout_duration))
    audit_as h ctx (h.uuid_string user.id) user.email "login.locked" "" detail)
  lock_after user detail _ = pure tt

  unfoldable pub count_failure : User → String → M (Unit {0})
  unfolding lock_after
  count_failure user detail =
      when (ltb 0 h.login_max_failures)
        (do n ← exec (increment_login_failure user.id); lock_after user detail n)

  -- A wrong password.
  unfoldable pub refuse : User → String → String → String → M TokenPair
  unfolding count_failure
  refuse user detail action message = do
    count_failure user detail
    audit_as h ctx (h.uuid_string user.id) user.email action "" ""
    raise unauthenticated message

  challenge : User → M TokenPair
  challenge user = do
    audit_as h ctx (h.uuid_string user.id) user.email "login.mfa_challenge" "" ""
    now ← get_now
    token ←
        or_raise (issue_mfa h.jwt_lib h.jwt now (h.uuid_string user.id) mfa_token_ttl) internal
          "failed to issue mfa token"
    pure (record {
      access_token = "";
      refresh_token = "";
      expires_in = 0;
      token_type = "Bearer";
      mfa_required = true;
      mfa_token = token;
    })

  pub issue_after : User → String → M TokenPair
  issue_after user detail = do
    audit_as h ctx (h.uuid_string user.id) user.email "login.success" "" detail
    issue_for_active_tenant h user.id user.email

  -- The rest of Login, once the password is right.
  admit : User → M TokenPair
  unfolding challenge issue_after
  admit user = do
    fail_if (h.require_email_verification && not user.email_verified) unauthenticated
        "email not verified"
    fail_if (is_some user.deleted_at) unauthenticated "invalid credentials"
    try (reset_login_state user.id)
    if user.totp_enabled then challenge user else issue_after user ""

  -- The compare with the dummy hash, of an unknown user, has no effect but time.
  unfoldable pub login : String → String → M TokenPair
  unfolding refuse admit
  login email password = do
    user ← must (get_user_by_email email) unauthenticated "invalid credentials"
    now ← get_now
    fail_if (locked_at now user) unauthenticated "account temporarily locked, try again later"
    if h.passwords.verify user.password_hash password
        then admit user
        else refuse user "too many failed attempts" "login.failure" "invalid credentials"

  -- consumeRecoveryCode: true where a row was spent.
  spent : Answer ℕ → Bool
  spent (row _) = true
  spent _ = false

  unfoldable pub try_recovery_code : ℕ → String → M Bool
  unfolding spent
  try_recovery_code uid code = do
    a ← exec (consume_recovery_code uid (hash_token h code))
    pure (spent a)

  abbrev pub totp_valid : ℕ → String → Option String → Bool
  totp_valid now code none = false
  totp_valid now code (some secret) = h.totp.validate code secret now

  -- ok, or a recovery code where it is not.
  unfoldable pub second_factor : ℕ → String → String → M Bool
  unfolding try_recovery_code
  second_factor uid stored code = do
    now ← get_now
    if totp_valid now code (h.totp.decrypt stored) then pure true else try_recovery_code uid code

  abbrev pub mfa_only : Option Claims → Option Claims
  mfa_only none = none
  mfa_only (some c) = if str_eq c.purpose "mfa" then some c else none

  abbrev pub enrolled_secret : User → Option String
  enrolled_secret u = if is_some u.deleted_at || not u.totp_enabled then none else u.totp_secret

  unfoldable pub login_totp : String → String → M TokenPair
  unfolding second_factor refuse issue_after
  login_totp mfa_token code = do
    now ← get_now
    claims ←
        or_raise (mfa_only (parse h.jwt_lib h.jwt now mfa_token)) unauthenticated
          "invalid or expired mfa token"
    uid ← or_raise (h.uuid_parse claims.subject) unauthenticated "invalid mfa token"
    user ← must (get_user_by_id uid) unauthenticated "invalid credentials"
    stored ← or_raise (enrolled_secret user) unauthenticated "invalid credentials"
    fail_if (locked_at now user) unauthenticated "account temporarily locked, try again later"
    passed ← second_factor uid stored code
    if passed
        then (do try (reset_login_state uid); issue_after user "2fa")
        else refuse user "too many failed mfa attempts" "login.mfa_failure" "invalid code"
