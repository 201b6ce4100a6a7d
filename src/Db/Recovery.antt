-- ===== src/Db/Recovery.antt =====
-- The statements on email_verifications, password_resets and totp_recovery_codes of
-- internal/db/auth.sql.go.
pub mod Laws
use iam_go_auth.Base.{
  ℕ, ◌+◌, String, Bool, not, ◌&&◌, Option, none, some, [], ◌∷◌, ◌++◌, str_eq, ◌==◌, ltb, is_some,
  any, find, update_where, delete_where,
}
use iam_go_auth.Db.Models.{Db, EmailVerification, PasswordReset, TotpRecoveryCode, User}
use iam_go_auth.Db.Query.{Query, wrote, check, returning}

-- The hash is the primary key, and the user exists.
unfoldable pub create_email_verification : String → ℕ → ℕ → Query (Unit {0})
create_email_verification token_hash user_id expires_at now db =
    let v : EmailVerification = record {
      token_hash = token_hash;
      user_id = user_id;
      expires_at = expires_at;
      consumed_at = none;
      created_at = now;
    } in
    check
      (not (any (λ (o : EmailVerification). str_eq o.token_hash token_hash) db.email_verifications)
        && any (λ (u : User). u.id == user_id) db.users)
      (wrote tt (record db { email_verifications = db.email_verifications ++ v ∷ [] }))

-- WHERE token_hash = $1 AND consumed_at IS NULL AND expires_at > now()
abbrev pub verification_open : String → ℕ → EmailVerification → Bool
verification_open token_hash now v =
    str_eq v.token_hash token_hash && not (is_some v.consumed_at) && ltb now v.expires_at

unfoldable pub consume_email_verification : String → Query ℕ
consume_email_verification token_hash now db =
    returning (find (verification_open token_hash now) db.email_verifications) (λ v.
      wrote v.user_id (record db {
        email_verifications =
            update_where (verification_open token_hash now)
              (λ (o : EmailVerification). record o { consumed_at = some now })
              db.email_verifications;
      }))

unfoldable pub create_password_reset : String → ℕ → ℕ → Query (Unit {0})
create_password_reset token_hash user_id expires_at now db =
    let r : PasswordReset = record {
      token_hash = token_hash;
      user_id = user_id;
      expires_at = expires_at;
      consumed_at = none;
      created_at = now;
    } in
    check
      (not (any (λ (o : PasswordReset). str_eq o.token_hash token_hash) db.password_resets)
        && any (λ (u : User). u.id == user_id) db.users)
      (wrote tt (record db { password_resets = db.password_resets ++ r ∷ [] }))

abbrev pub reset_open : String → ℕ → PasswordReset → Bool
reset_open token_hash now r =
    str_eq r.token_hash token_hash && not (is_some r.consumed_at) && ltb now r.expires_at

unfoldable pub consume_password_reset : String → Query ℕ
consume_password_reset token_hash now db =
    returning (find (reset_open token_hash now) db.password_resets) (λ r.
      wrote r.user_id (record db {
        password_resets =
            update_where (reset_open token_hash now)
              (λ (o : PasswordReset). record o { consumed_at = some now }) db.password_resets;
      }))

-- The id is the next value of a sequence; nothing makes the hash unique.
unfoldable pub insert_recovery_code : ℕ → String → Query (Unit {0})
insert_recovery_code user_id code_hash now db =
    let c : TotpRecoveryCode = record {
      id = db.next_serial;
      user_id = user_id;
      code_hash = code_hash;
      used_at = none;
      created_at = now;
    } in
    check (any (λ (u : User). u.id == user_id) db.users) (
      wrote tt (record db {
        recovery_codes = db.recovery_codes ++ c ∷ [];
        next_serial = db.next_serial + 1;
      }))

unfoldable pub delete_recovery_codes : ℕ → Query (Unit {0})
delete_recovery_codes user_id now db = wrote tt (record db {
  recovery_codes = delete_where (λ (c : TotpRecoveryCode). c.user_id == user_id) db.recovery_codes;
})

-- WHERE user_id = $1 AND code_hash = $2 AND used_at IS NULL
abbrev pub code_open : ℕ → String → TotpRecoveryCode → Bool
code_open user_id code_hash c =
    c.user_id == user_id && str_eq c.code_hash code_hash && not (is_some c.used_at)

-- Every matching row is marked, and the first one's id is returned.
unfoldable pub consume_recovery_code : ℕ → String → Query ℕ
consume_recovery_code user_id code_hash now db =
    returning (find (code_open user_id code_hash) db.recovery_codes) (λ c. wrote c.id (record db {
      recovery_codes =
          update_where (code_open user_id code_hash)
            (λ (o : TotpRecoveryCode). record o { used_at = some now }) db.recovery_codes;
    }))
