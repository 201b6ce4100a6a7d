-- ===== src/Handler/Bootstrap.antt =====
-- internal/handler/bootstrap.go: the accounts that are made at start-up.
--
-- An error is a Go error whose text the caller only logs: it is the status internal with no message.
pub mod Once
use iam_go_auth.Base.{ℕ, String, Bool, true, false, ◌||◌, Option, none, some, str_eq, if◌then◌else◌}
use iam_go_auth.Db.Models.{User}
use iam_go_auth.Db.Query.{Answer, row, no_rows, failed}
use iam_go_auth.Db.Users.{create_user, get_user_by_email}
use iam_go_auth.Db.Tenants.{create_membership}
use iam_go_auth.Db.Roles.{assign_role_to_user}
use iam_go_auth.Rpc.{
  M, Status, pure, raise, ◌>>=◌, ◌>>◌, or_raise, draw, exec, must, in_tx, internal,
}
use iam_go_auth.Handler.{AuthHandler}
use iam_go_auth.Handler.Validate.{set_tenant}
use iam_go_auth.Handler.Register.{keep_tenant}

abbrev pub boot_error : Status
boot_error = record { code = internal; message = "" }

module _ (h : AuthHandler) where
  -- Begin to Commit of BootstrapAdmin and BootstrapDemo, with the role that they give.
  unfoldable pub bootstrap_tx : String → String → String → M (Unit {0})
  unfolding set_tenant
  bootstrap_tx role email hash = in_tx boot_error boot_error (do
    must (set_tenant h.default_tenant) internal ""
    user ← must (create_user email hash) internal ""
    must (assign_role_to_user user.id role h.default_tenant none) internal ""
    must (create_membership user.id h.default_tenant) internal "")

  pub make_account : String → String → String → M (Unit {0})
  unfolding bootstrap_tx keep_tenant
  make_account role email password = do
    salt ← or_raise (← draw) internal ""
    keep_tenant (bootstrap_tx role email (h.passwords.hash salt password))

  -- The account is made where the look-up finds none.
  pub unless_known : String → String → String → Answer User → M (Unit {0})
  unfolding make_account
  unless_known role email password (row u) = pure tt
  unless_known role email password no_rows = make_account role email password
  unless_known role email password failed = raise internal ""

  unfoldable pub bootstrap_account : String → String → String → M (Unit {0})
  unfolding unless_known
  bootstrap_account role email password =
      if str_eq email "" || str_eq password ""
      then pure tt
      else (do known ← exec (get_user_by_email email); unless_known role email password known)

  abbrev pub bootstrap_admin : String → String → M (Unit {0})
  bootstrap_admin = bootstrap_account "admin"

  abbrev pub bootstrap_demo : String → String → M (Unit {0})
  bootstrap_demo = bootstrap_account "viewer"
