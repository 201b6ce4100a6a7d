-- ===== src/Db/Users.antt =====
-- The statements on the users table of internal/db/auth.sql.go.
pub mod Laws
use iam_go_auth.Base.{
  ℕ, ◌+◌, String, Bool, true, false, not, ◌||◌, Option, none, some, List, [], ◌∷◌, ◌++◌, str_eq,
  ◌==◌, is_some, any, find, update_where, delete_where, if◌then◌else◌, ◌&&◌,
}
use iam_go_auth.Db.Models.{
  Db, User, RefreshToken, EmailVerification, PasswordReset, TotpRecoveryCode, ApiKey, Membership,
  UserRole,
}
use iam_go_auth.Db.Query.{Query, one, wrote, check, returning}

-- WHERE id = $1 and WHERE email = $1
abbrev pub has_id : ℕ → User → Bool
has_id id u = u.id == id

abbrev pub has_email : String → User → Bool
has_email email u = str_eq u.email email

-- UPDATE users SET f WHERE id = $1
abbrev pub set_user : ℕ → (User → User) → Query (Unit {0})
set_user id f now db = wrote tt (record db { users = update_where (has_id id) f db.users })

-- The id and the email are unique.
unfoldable pub create_user : String → String → Query User
create_user email password_hash now db =
    let id = db.uuids db.drawn in
    let u : User = record {
      id = id;
      email = email;
      password_hash = password_hash;
      status = "active";
      created_at = now;
      updated_at = now;
      email_verified = false;
      failed_login_attempts = 0;
      locked_until = none;
      totp_secret = none;
      totp_enabled = false;
      deleted_at = none;
    } in
    check (not (any (has_id id) db.users || any (has_email email) db.users))
      (wrote u (record db { users = db.users ++ u ∷ []; drawn = db.drawn + 1 }))

unfoldable pub get_user_by_email : String → Query User
get_user_by_email email now db = one (find (has_email email) db.users) db

unfoldable pub get_user_by_id : ℕ → Query User
get_user_by_id id now db = one (find (has_id id) db.users) db

-- The foreign keys on users(id) cascade to every table that names a user.
unfoldable pub delete_user : ℕ → Query (Unit {0})
delete_user id now db = wrote tt (record db {
  users = delete_where (has_id id) db.users;
  refresh_tokens = delete_where (λ (t : RefreshToken). t.user_id == id) db.refresh_tokens;
  email_verifications =
      delete_where (λ (v : EmailVerification). v.user_id == id) db.email_verifications;
  password_resets = delete_where (λ (r : PasswordReset). r.user_id == id) db.password_resets;
  recovery_codes = delete_where (λ (c : TotpRecoveryCode). c.user_id == id) db.recovery_codes;
  api_keys = delete_where (λ (k : ApiKey). k.user_id == id) db.api_keys;
  memberships = delete_where (λ (m : Membership). m.user_id == id) db.memberships;
  user_roles = delete_where (λ (r : UserRole). r.user_id == id) db.user_roles;
})

unfoldable pub soft_delete_user : ℕ → Query (Unit {0})
soft_delete_user id now db = wrote tt (record db {
  users =
      update_where (λ (u : User). has_id id u && not (is_some u.deleted_at))
        (λ u. record u { deleted_at = some now; updated_at = now }) db.users;
})

unfoldable pub restore_user : ℕ → Query (Unit {0})
restore_user id now = set_user id (λ u. record u { deleted_at = none; updated_at = now }) now

unfoldable pub is_user_active : ℕ → Query Bool
is_user_active id now db =
    one
      (elim (find (has_id id) db.users) [
        | none ↦ none
        | some u ↦ some (not (is_some u.deleted_at))
      ])
      db

unfoldable pub set_totp_secret : ℕ → Option String → Query (Unit {0})
set_totp_secret id secret now =
    set_user id (λ u. record u { totp_secret = secret; totp_enabled = false; updated_at = now }) now

unfoldable pub enable_totp : ℕ → Query (Unit {0})
enable_totp id now = set_user id (λ u. record u { totp_enabled = true; updated_at = now }) now

unfoldable pub disable_totp : ℕ → Query (Unit {0})
disable_totp id now =
    set_user id (λ u. record u { totp_secret = none; totp_enabled = false; updated_at = now }) now

abbrev pub bump : User → User
bump u = record u { failed_login_attempts = u.failed_login_attempts + 1 }

-- RETURNING failed_login_attempts, the value after the increment.
unfoldable pub increment_login_failure : ℕ → Query ℕ
increment_login_failure id now db =
    let users' = update_where (has_id id) bump db.users in
    returning (find (has_id id) db.users)
      (λ u. wrote (u.failed_login_attempts + 1) (record db { users = users' }))

unfoldable pub lock_user : ℕ → ℕ → Query (Unit {0})
lock_user id until =
    set_user id (λ u. record u { locked_until = some until; failed_login_attempts = 0 })

unfoldable pub reset_login_state : ℕ → Query (Unit {0})
reset_login_state id =
    set_user id (λ u. record u { failed_login_attempts = 0; locked_until = none })

unfoldable pub mark_email_verified : ℕ → Query (Unit {0})
mark_email_verified id = set_user id (λ u. record u { email_verified = true })

unfoldable pub update_password : ℕ → String → Query (Unit {0})
update_password id password_hash now =
    set_user id (λ u. record u { password_hash = password_hash; updated_at = now }) now
