-- ===== src/Handler/Totp.antt =====
-- internal/handler/m4.go: enrolment in two-factor authentication, its status, activation and end.
use iam_go_auth.Base.{
  ℕ, zero, suc, String, Bool, true, not, Option, none, some, List, [], ◌∷◌, if◌then◌else◌,
}
use iam_go_auth.Db.Models.{User}
use iam_go_auth.Db.Users.{get_user_by_id, set_totp_secret, enable_totp, disable_totp}
use iam_go_auth.Db.Recovery.{insert_recovery_code, delete_recovery_codes}
use iam_go_auth.Rpc.{
  M, pure, ◌>>=◌, ◌>>◌, or_raise, fail_if, draw, must, try, get_now, internal, not_found,
  failed_precondition, unauthenticated,
}
use iam_go_auth.Handler.{AuthHandler, Identity, audit, caller_id, hash_token}
use iam_go_auth.Handler.Login.{second_factor, try_recovery_code}

abbrev pub recovery_code_count : ℕ
recovery_code_count = 10

-- authv1.EnrollTotpResponse
pub record Enrolled : Type 0 where
  pub secret : String
  pub otpauth_uri : String
  pub recovery_codes : List String

-- totp.GenerateRecoveryCodes: n draws, each in the form xxxx-xxxx.
unfoldable pub generate_recovery_codes : ℕ → M (List String)
generate_recovery_codes zero = pure []
generate_recovery_codes (suc n) = do
  code ← or_raise (← draw) internal "failed to generate recovery codes"
  codes ← generate_recovery_codes n
  pure (code ∷ codes)

module _ (h : AuthHandler) (ctx : Identity) where
  unfoldable pub store_codes : ℕ → List String → M (Unit {0})
  store_codes uid [] = pure tt
  store_codes uid (c ∷ codes) = do
    must (insert_recovery_code uid (hash_token h c)) internal "failed to store recovery code"
    store_codes uid codes

  unfoldable pub enroll_totp : M Enrolled
  unfolding generate_recovery_codes store_codes
  enroll_totp = do
    uid ← caller_id h ctx
    user ← must (get_user_by_id uid) not_found "user not found"
    fail_if user.totp_enabled failed_precondition "2FA is already enabled; disable it first"
    bytes ← or_raise (← draw) internal "failed to generate secret"
    secret ← or_raise (h.totp.generate bytes user.email) internal "failed to generate secret"
    codes ← generate_recovery_codes recovery_code_count
    nonce ← or_raise (← draw) internal "failed to encrypt secret"
    stored ← or_raise (h.totp.encrypt nonce secret.0) internal "failed to encrypt secret"
    must (set_totp_secret uid (some stored)) internal "failed to store secret"
    try (delete_recovery_codes uid)
    store_codes uid codes
    audit h ctx "totp.enroll" "" ""
    pure (record { secret = secret.0; otpauth_uri = secret.1; recovery_codes = codes })

  unfoldable pub get_totp_status : M Bool
  get_totp_status = do
    uid ← caller_id h ctx
    user ← must (get_user_by_id uid) not_found "user not found"
    pure user.totp_enabled

  unfoldable pub activate_totp : String → M Bool
  activate_totp code = do
    uid ← caller_id h ctx
    user ← must (get_user_by_id uid) not_found "user not found"
    stored ←
        or_raise user.totp_secret failed_precondition "no pending enrollment; call EnrollTotp first"
    secret ← or_raise (h.totp.decrypt stored) internal "failed to read secret"
    now ← get_now
    fail_if (not (h.totp.validate code secret now)) unauthenticated "invalid code"
    must (enable_totp uid) internal "failed to enable 2FA"
    audit h ctx "totp.activate" "" ""
    pure true

  -- A current code of the authenticator, if there is a secret, or a recovery code.
  proof_of_possession : ℕ → Option String → String → M Bool
  proof_of_possession uid none code = try_recovery_code h ctx uid code
  proof_of_possession uid (some stored) code = second_factor h ctx uid stored code

  disable_enrolled : ℕ → User → String → M Bool
  unfolding proof_of_possession
  disable_enrolled uid user code = do
    passed ← proof_of_possession uid user.totp_secret code
    fail_if (not passed) unauthenticated "invalid code"
    must (disable_totp uid) internal "failed to disable 2FA"
    try (delete_recovery_codes uid)
    audit h ctx "totp.disable" "" ""
    pure true

  unfoldable pub disable_totp_rpc : String → M Bool
  unfolding disable_enrolled
  disable_totp_rpc code = do
    uid ← caller_id h ctx
    user ← must (get_user_by_id uid) not_found "user not found"
    if user.totp_enabled then disable_enrolled uid user code else pure true
