-- ===== src/Handler/Account.antt =====
-- internal/handler/auth.go: email verification, password reset and ChangePassword.
pub mod Sessions
use iam_go_auth.Base.{
  ℕ, ◌+◌, ◌*◌, String, Bool, true, false, not, Option, none, some, str_append, ltb, if◌then◌else◌,
  byte_length,
}
use iam_go_auth.Db.Models.{User}
use iam_go_auth.Db.Query.{Answer, row, no_rows, failed}
use iam_go_auth.Db.Users.{get_user_by_email, get_user_by_id, mark_email_verified, update_password}
use iam_go_auth.Db.Tokens.{revoke_all_user_refresh_tokens}
use iam_go_auth.Db.Recovery.{
  create_email_verification, consume_email_verification, create_password_reset,
  consume_password_reset,
}
use iam_go_auth.Jwt.{second}
use iam_go_auth.Rpc.{
  M, pure, raise, ◌>>=◌, ◌>>◌, or_raise, fail_if, draw, exec, must, try, get_now, send, internal,
  invalid_argument, unauthenticated,
}
use iam_go_auth.Handler.{AuthHandler, Identity, audit_as, caller_id, hash_token}
use iam_go_auth.Handler.Tokens.{new_refresh_token}

-- authv1.DevTokenResponse
pub record DevToken : Type 0 where
  pub success : Bool
  pub dev_token : String

-- How long a token for the verification of an address, and one for a reset, stays valid.
abbrev pub verification_ttl : ℕ
verification_ttl = 86400 * second

abbrev pub reset_ttl : ℕ
reset_ttl = 3600 * second

module _ (h : AuthHandler) (ctx : Identity) where
  abbrev silent : DevToken
  silent = record { success = true; dev_token = "" }

  abbrev shown : String → DevToken
  shown token = record { success = true; dev_token = if h.is_production then "" else token }

  verification_for : Answer User → M DevToken
  verification_for (row user) = do
    token ← or_raise (← new_refresh_token) internal "failed to generate token"
    now ← get_now
    must (create_email_verification (hash_token h token) user.id (now + verification_ttl)) internal
        "failed to create verification"
    send user.email "Verify your email" (str_append "Your email verification token: " token)
    audit_as h ctx (h.uuid_string user.id) user.email "email.verification_requested" "" ""
    pure (shown token)
  verification_for _ = pure silent

  unfoldable pub request_email_verification : String → M DevToken
  unfolding verification_for
  request_email_verification email = do a ← exec (get_user_by_email email); verification_for a

  unfoldable pub verify_email : String → M Bool
  verify_email token = do
    uid ←
        must (consume_email_verification (hash_token h token)) invalid_argument
          "invalid or expired token"
    must (mark_email_verified uid) internal "failed to verify email"
    audit_as h ctx (h.uuid_string uid) "" "email.verified" "" ""
    pure true

  reset_for : Answer User → M DevToken
  reset_for (row user) = do
    token ← or_raise (← new_refresh_token) internal "failed to generate token"
    now ← get_now
    must (create_password_reset (hash_token h token) user.id (now + reset_ttl)) internal
        "failed to create reset token"
    send user.email "Reset your password" (str_append "Your password reset token: " token)
    audit_as h ctx (h.uuid_string user.id) user.email "password.reset_requested" "" ""
    pure (shown token)
  reset_for _ = pure silent

  unfoldable pub request_password_reset : String → M DevToken
  unfolding reset_for
  request_password_reset email = do a ← exec (get_user_by_email email); reset_for a

  unfoldable pub reset_password : String → String → M Bool
  reset_password token new_password = do
    fail_if (ltb (byte_length new_password) 8) invalid_argument
        "password must be at least 8 characters"
    uid ←
        must (consume_password_reset (hash_token h token)) invalid_argument
          "invalid or expired token"
    salt ← or_raise (← draw) internal "failed to hash password"
    must (update_password uid (h.passwords.hash salt new_password)) internal
        "failed to update password"
    try (revoke_all_user_refresh_tokens uid)
    audit_as h ctx (h.uuid_string uid) "" "password.reset" "" ""
    pure true

  unfoldable pub change_password : String → String → M Bool
  change_password old_password new_password = do
    uid ← caller_id h ctx
    fail_if (ltb (byte_length new_password) 8) invalid_argument
        "password must be at least 8 characters"
    user ← must (get_user_by_id uid) unauthenticated "user not found"
    fail_if (not (h.passwords.verify user.password_hash old_password)) unauthenticated
        "current password is incorrect"
    salt ← or_raise (← draw) internal "failed to hash password"
    must (update_password uid (h.passwords.hash salt new_password)) internal
        "failed to update password"
    try (revoke_all_user_refresh_tokens uid)
    audit_as h ctx (h.uuid_string uid) user.email "password.change" "" ""
    pure true
