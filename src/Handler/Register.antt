-- ===== src/Handler/Register.antt =====
-- internal/handler/auth.go: Register and DeleteUser, and RestoreUser of internal/handler/m4.go: the
-- transactions that write the identity with its event.
pub mod Writes
pub mod Atomic
pub mod Deletion
use iam_go_auth.Base.{ℕ, String, Bool, true, false, ◌||◌, Option, none, some, str_eq, if◌then◌else◌}
use iam_go_auth.Db.Models.{User}
use iam_go_auth.Db.Users.{create_user, delete_user, soft_delete_user, restore_user}
use iam_go_auth.Db.Tokens.{revoke_all_user_refresh_tokens}
use iam_go_auth.Db.Tenants.{create_membership}
use iam_go_auth.Db.Roles.{assign_role_to_user}
use iam_go_auth.Db.Log.{insert_outbox}
use iam_go_auth.Rpc.{
  M, World, Status, Code, pure, raise, ◌>>=◌, ◌>>◌, or_raise, fail_if, draw, must, try, in_tx,
  internal, invalid_argument, already_exists,
}
use iam_go_auth.Handler.{AuthHandler, Identity, require_perm, audit, audit_as, display_from_email}
use iam_go_auth.Handler.Validate.{set_tenant, unset_tenant}

abbrev pub default_role : String
default_role = "user"

abbrev pub tx_begin_failed : Status
tx_begin_failed = record { code = internal; message = "tx begin failed" }

abbrev pub tx_commit_failed : Status
tx_commit_failed = record { code = internal; message = "tx commit failed" }

-- The setting of app.tenant_id ends with the transaction.
unfoldable pub keep_tenant : {A : Type 0} → M A → M A
unfolding unset_tenant
keep_tenant m w = (do a ← m; unset_tenant w.db.app_tenant; pure a) w

module _ (h : AuthHandler) (ctx : Identity) where
  -- Begin to Commit of Register.
  unfoldable pub register_tx : String → String → M User
  unfolding set_tenant
  register_tx email hash = in_tx tx_begin_failed tx_commit_failed (do
    must (set_tenant h.default_tenant) internal "failed to set tenant context"
    user ← must (create_user email hash) already_exists "email already registered"
    must (assign_role_to_user user.id default_role h.default_tenant none) internal
        "failed to assign default role"
    must (create_membership user.id h.default_tenant) internal "failed to create membership"
    must
        (insert_outbox user.id h.type_user_registered
          (h.user_registered (h.uuid_string user.id) user.email (display_from_email user.email)))
        internal "failed to enqueue event"
    pure user)

  -- The id and the email of the new user.
  unfoldable pub register : String → String → M (String × String)
  unfolding register_tx keep_tenant
  register email password = do
    fail_if (str_eq email "" || str_eq password "") invalid_argument
        "email and password are required"
    salt ← or_raise (← draw) internal "failed to hash password"
    user ← keep_tenant (register_tx email (h.passwords.hash salt password))
    audit_as h ctx (h.uuid_string user.id) user.email "user.register" "" ""
    pure (h.uuid_string user.id, user.email)

  pub soft_delete : ℕ → M (Unit {0})
  soft_delete user_id = do
    must (soft_delete_user user_id) internal "failed to delete user"
    try (revoke_all_user_refresh_tokens user_id)

  unfoldable pub delete_user_tx : ℕ → Bool → M (Unit {0})
  unfolding soft_delete
  delete_user_tx user_id hard = in_tx tx_begin_failed tx_commit_failed (do
    if hard
        then must (delete_user user_id) internal "failed to delete user"
        else soft_delete user_id
    must (insert_outbox user_id h.type_user_deleted (h.user_deleted (h.uuid_string user_id) hard))
        internal "failed to enqueue event")

  unfoldable pub delete_user_rpc : String → Bool → M Bool
  unfolding delete_user_tx
  delete_user_rpc user_id hard = do
    require_perm ctx "user:delete"
    uid ← or_raise (h.uuid_parse user_id) invalid_argument "invalid user id"
    delete_user_tx uid hard
    audit h ctx "user.delete" user_id (if hard then "hard" else "soft")
    pure true

  unfoldable pub restore_user_tx : ℕ → M (Unit {0})
  restore_user_tx user_id = in_tx tx_begin_failed tx_commit_failed (do
    must (restore_user user_id) internal "failed to restore user"
    must (insert_outbox user_id h.type_user_restored (h.user_restored (h.uuid_string user_id)))
        internal "failed to enqueue event")

  unfoldable pub restore_user_rpc : String → M Bool
  unfolding restore_user_tx
  restore_user_rpc user_id = do
    require_perm ctx "user:delete"
    uid ← or_raise (h.uuid_parse user_id) invalid_argument "invalid user id"
    restore_user_tx uid
    audit h ctx "user.restore" user_id ""
    pure true
