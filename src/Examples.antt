-- ===== src/Examples.antt =====
-- The theorems run on a small installation.
pub mod Installation
pub mod RedisServer
pub mod Alice
mod Tenancy
mod Secrets
use iam_go_auth.Examples.Installation.{
  now, alice, bob, carol, acme, member, revoked_token, key, reset, code, event, database, world,
  calm, jwt_lib, libs, handler, caller,
}
use iam_go_auth.Base.{
  ℕ, ◌+◌, ◌*◌, true, false, none, some, [], ◌∷◌, str_eq, str_append, refl, ◌==◌, if◌then◌else◌,
}
use iam_go_auth.Db.Models.{
  Db, User, RefreshToken, Tenant, Membership, ApiKey, PasswordReset, TotpRecoveryCode, Outbox,
}
use iam_go_auth.Jwt.{JwtLib, second}
use iam_go_auth.Rpc.{World, idle}
use iam_go_auth.Rpc.Statements.{Calm}
use iam_go_auth.Handler.{AuthHandler, Identity, Libs}
use iam_go_auth.Handler.Login.Sound.{LoggedIn, SameTokens, login-LoggedIn}
use iam_go_auth.Handler.Login.{login}
use iam_go_auth.Handler.Refresh.{refresh}
use iam_go_auth.Handler.Refresh.Rotation.{live_of}
use iam_go_auth.Handler.Refresh.Reuse.{Refreshed, refresh-Refreshed, refresh-Stale}
use iam_go_auth.Db.Tokens.{has_hash}
use iam_go_auth.Base.{find, any, ◌≡◌}
use iam_go_auth.Rpc.Laws.{After}
use iam_go_auth.Rpc.{unauthenticated}
use iam_go_auth.Db.Users.{has_id, has_email}
use iam_go_auth.Db.Query.{row}
use iam_go_auth.Db.Recovery.{consume_recovery_code}
use iam_go_auth.Db.Recovery.Laws.{Spent, consume_recovery_code-Spent}
use iam_go_auth.Handler.Login.{login_totp}
use iam_go_auth.Handler.Login.SecondFactor.{Confirmed, login_totp-Confirmed}
use iam_go_auth.Handler.Login.Lockout.{after_wrong, login-counts, login-locked}
use iam_go_auth.Handler.ApiKeys.{validate_api_key}
use iam_go_auth.Handler.ApiKeys.Scopes.{Accepted, validate_api_key-Accepted}
use iam_go_auth.Handler.Register.{register}
use iam_go_auth.Handler.Register.Atomic.{Registered, Unwritten, register-Registered}
use iam_go_auth.Handler.Account.{reset_password, change_password}
use iam_go_auth.Handler.Account.Sessions.{
  Reset, Changed, Untouched, reset_password-Reset, change_password-Changed,
}
use iam_go_auth.Handler.Register.{delete_user_rpc}
use iam_go_auth.Handler.Register.Deletion.{Deleted, delete_user-Deleted}
use iam_go_auth.Handler.Validate.{validate_token}
use iam_go_auth.Handler.Validate.Gate.{Admitted, validate_token-Admitted}
use iam_go_auth.Handler.Logout.{logout}
use iam_go_auth.Handler.Logout.Revoked.{LoggedOut, logout-LoggedOut}
use iam_go_auth.Handler.Roles.{create_role_rpc}
use iam_go_auth.Handler.Roles.Creation.{RoleCreated, create_role-RoleCreated}
use iam_go_auth.Outbox.{Relay, batch, drain, run}
use iam_go_auth.Outbox.Waiting.{unpublished}
use iam_go_auth.Outbox.Progress.{drain-Published}
use iam_go_auth.Outbox.Delivery.{Delivered, has_message, run-Delivered}
use iam_go_auth.Base.{update_where, inl, select, length, All, is_some, arith, ◌≤◌}

revoked_found : find (has_hash "h-revoked") database.refresh_tokens ≡ some revoked_token
unfolding find
revoked_found = refl

login-LoggedIn_example :
    After
      (login handler caller "alice@acme" "secret")
      world
      (LoggedIn handler caller "alice@acme" "secret" world)
      (λ _. SameTokens world)
login-LoggedIn_example = login-LoggedIn handler caller "alice@acme" "secret" world

refresh-Refreshed_example :
    After
      (refresh handler caller "active")
      world
      (Refreshed handler caller "active" world)
      (λ _ _. Unit)
refresh-Refreshed_example = refresh-Refreshed handler caller "active" world

refresh-Stale_example :
    After
      (refresh handler caller "revoked")
      world
      (λ _ _. ⊥)
      (λ _ w'. any (live_of 1) w'.db.refresh_tokens ≡ false)
refresh-Stale_example =
    refresh-Stale handler caller "revoked" world revoked_token calm (revoked_found, 3, refl, refl)

login_totp-Confirmed_example :
    After
      (login_totp handler caller "mfa" "123456")
      world
      (Confirmed handler caller "mfa" "123456" world)
      (λ _. SameTokens world)
login_totp-Confirmed_example = login_totp-Confirmed handler caller "mfa" "123456" world

validate_api_key-Accepted_example :
    After
      (validate_api_key handler caller "iamk_k_s")
      world
      (λ owner _. Accepted handler caller "iamk_k_s" world owner)
      (λ _ _. Unit)
validate_api_key-Accepted_example = validate_api_key-Accepted handler caller "iamk_k_s" world

register-Registered_example :
    After
      (register handler caller "dave@acme" "secret")
      world
      (Registered handler caller "dave@acme" "secret" world)
      (λ _. Unwritten world)
register-Registered_example = register-Registered handler caller "dave@acme" "secret" world

reset_password-Reset_example :
    After
      (reset_password handler caller "reset" "new secret")
      world
      (λ _. Reset handler caller "reset" "new secret" world)
      (λ _. Untouched world)
reset_password-Reset_example = reset_password-Reset handler caller "reset" "new secret" world calm

change_password-Changed_example :
    After
      (change_password handler caller "secret" "new secret")
      world
      (λ _. Changed handler caller "secret" "new secret" world)
      (λ _. Untouched world)
change_password-Changed_example =
    change_password-Changed handler caller "secret" "new secret" world calm

alice_found : find (has_email "alice@acme") database.users ≡ some alice
unfolding find
alice_found = refl

alice_by_id : find (has_id 1) database.users ≡ some alice
unfolding find
alice_by_id = refl

bob_found : find (has_email "bob@acme") database.users ≡ some bob
unfolding find
bob_found = refl

login-counts_example :
    After
      (login handler caller "alice@acme" "guess")
      world
      (λ _ _. ⊥)
      (λ s w'.
        (s.code ≡ unauthenticated)
        × (find (has_email "alice@acme") w'.db.users ≡ some (after_wrong handler caller now alice)))
login-counts_example =
    login-counts handler caller "alice@acme" "guess" world alice calm alice_found alice_by_id refl
      refl refl

login-locked_example :
    After
      (login handler caller "bob@acme" "secret")
      world
      (λ _ _. ⊥)
      (λ s w'. (s.code ≡ unauthenticated) × (w'.db ≡ world.db))
login-locked_example = login-locked handler caller "bob@acme" "secret" world bob bob_found refl

abbrev relay : Relay
relay = record { world = world; accepted = [] }

run-Delivered_example : Delivered "iam." libs.uuid_string (run "iam." libs.uuid_string 3 relay)
run-Delivered_example = run-Delivered "iam." libs.uuid_string 3 relay (inl refl, tt)

few_events : length (select unpublished world.db.outbox) ≤ batch
unfolding select
few_events = omega arith

drain-Published_example :
    ((drain "iam." libs.uuid_string relay).0 ≡ true)
    × All
        (λ (o : Outbox).
          (is_some o.published_at ≡ true)
          × (has_message "iam." libs.uuid_string o.id
                (drain "iam." libs.uuid_string relay).1.accepted
              ≡ true))
        (drain "iam." libs.uuid_string relay).1.world.db.outbox
drain-Published_example =
    drain-Published "iam." libs.uuid_string relay calm few_events (inl refl, tt)

code_spent :
    consume_recovery_code 3 "h-aaaa-bbbb" now database
    ≡ row (1, record database { recovery_codes = record code { used_at = some now } ∷ [] })
unfolding consume_recovery_code find update_where
code_spent = refl

consume_recovery_code-Spent_example :
    Spent 3 "h-aaaa-bbbb" now database
      (record database { recovery_codes = record code { used_at = some now } ∷ [] })
consume_recovery_code-Spent_example =
    consume_recovery_code-Spent 3 "h-aaaa-bbbb" now database 1
      (record database { recovery_codes = record code { used_at = some now } ∷ [] }) code_spent

validate_token-Admitted_example :
    After
      (validate_token handler "access")
      world
      (λ v _. Admitted handler "access" world v)
      (λ _ _. Unit)
validate_token-Admitted_example = validate_token-Admitted handler "access" world

delete_user-Deleted_example :
    After
      (delete_user_rpc handler caller "1" false)
      world
      (λ _. Deleted handler caller "1" false world)
      (λ _. Unwritten world)
delete_user-Deleted_example = delete_user-Deleted handler caller "1" false world calm

logout-LoggedOut_example :
    After
      (logout handler caller "active" "access")
      world
      (λ _. LoggedOut handler caller "active" "access" world)
      (λ _ _. Unit)
logout-LoggedOut_example = logout-LoggedOut handler caller "active" "access" world calm

create_role-RoleCreated_example :
    After
      (create_role_rpc handler caller "auditor" "reads the trail")
      world
      (RoleCreated handler caller "auditor" "reads the trail" world)
      (λ _. Unwritten world)
create_role-RoleCreated_example =
    create_role-RoleCreated handler caller "auditor" "reads the trail" world
