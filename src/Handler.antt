-- ===== src/Handler.antt =====
-- internal/handler: the AuthHandler, its configuration, the caller's identity, and the helpers that
-- the methods share. The methods are in the modules below, by what they serve.
pub mod Frame
pub mod Guards
pub mod Tokens
pub mod Login
pub mod Refresh
pub mod Logout
pub mod Validate
pub mod Register
pub mod Account
pub mod Totp
pub mod ApiKeys
pub mod Roles
pub mod Tenants
pub mod Assignments
pub mod Listings
pub mod Oidc
pub mod Clients
pub mod Sequences
pub mod Display
pub mod Bootstrap
use Prim.Native.Char.{Char, code}
use iam_go_auth.Base.{
  ℕ, String, Bool, true, false, Option, none, some, ◌==◌, ◌||◌, str_eq, str_append, if◌then◌else◌,
}
use iam_go_auth.Db.Log.{insert_audit_event}
use iam_go_auth.Jwt.{Manager, JwtLib}
use iam_go_auth.Cache.{Cache}
use iam_go_auth.Rpc.{
  M, World, ok, pure, raise, ◌>>=◌, ◌>>◌, or_raise, fail_if, when, draw, try, permission_denied,
  failed_precondition, internal, unauthenticated,
}

-- The settings of iam-go-libs/config, with their defaults filled in. A limit of no failures or less turns the lockout off.
pub record Config : Type 0 where
  pub audit_enabled : Bool
  pub login_max_failures : ℕ
  pub lockout_duration : ℕ
  pub require_email_verification : Bool
  pub is_production : Bool
  pub oidc_issuer : String

-- internal/password: Hash, on the 16 bytes of salt that it draws, and Verify.
pub record Passwords : Type 0 where
  pub hash : String → String → String
  pub verify : String → String → Bool

-- internal/totpsecret and internal/totp: Encrypt, on the nonce that it draws, Decrypt, Generate on
-- the bytes that it draws (the secret in base 32, and its URI), and Validate at an instant.
pub record TotpSecrets : Type 0 where
  pub encrypt : String → String → Option String
  pub decrypt : String → Option String
  pub generate : String → String → Option (String × String)
  pub validate : String → String → ℕ → Bool

-- google/uuid, crypto/sha256 in hexadecimal and in unpadded base64url, and the JSON of the events of
-- iam-go-libs/events.
pub record Libs : Type 0 where
  pub uuid_parse : String → Option ℕ
  pub uuid_string : ℕ → String
  pub sha256_hex : String → String
  pub sha256_base64url : String → String
  pub user_registered : String → String → String → String
  pub user_deleted : String → Bool → String
  pub user_restored : String → String
  pub type_user_registered : String
  pub type_user_deleted : String
  pub type_user_restored : String

pub record AuthHandler : Type 0 where
  pub config : Config
  pub open config use *
  pub passwords : Passwords
  pub totp : TotpSecrets
  pub libs : Libs
  pub open libs use *
  pub jwt_lib : JwtLib
  pub jwt : Manager
  pub refresh_ttl : ℕ
  pub cache : Cache
  pub default_tenant : ℕ

-- grpcutil.FromIncoming: the identity that the gateway puts into the call's metadata.
pub record Identity : Type 0 where
  pub user_id : String
  pub email : String
  pub tenant_id : String
  pub project_id : String
  pub has_permission : String → Bool

unfoldable pub require_perm : Identity → String → M (Unit {0})
require_perm ctx perm =
    if ctx.has_permission perm
    then pure tt
    else raise permission_denied (str_append "permission denied: " perm)

-- The local part of an address, up to its first '@'.
unfoldable pub before_at : String → Option String
before_at String.[] = none
before_at (String.◌∷◌ c s) =
    let rest = before_at s in
    if code c == b'@' then some "" else elim rest [ none ↦ none | some l ↦ some (String.◌∷◌ c l) ]

unfoldable pub display_from_email : String → String
unfolding before_at
display_from_email email = elim (before_at email) [
  | none ↦ email
  | some l ↦ if str_eq l "" then email else l
]

abbrev pub is_builtin_role : String → Bool
is_builtin_role name = str_eq name "admin" || str_eq name "user"

module _ (h : AuthHandler) where
  abbrev pub hash_token : String → String
  hash_token token = h.sha256_hex token

  unfoldable pub active_tenant : Identity → M ℕ
  active_tenant ctx =
      if str_eq ctx.tenant_id ""
      then raise failed_precondition "no active tenant on token"
      else or_raise (h.uuid_parse ctx.tenant_id) internal "invalid active tenant"

  unfoldable pub caller_id : Identity → M ℕ
  caller_id ctx =
      or_raise (h.uuid_parse ctx.user_id) unauthenticated "missing or invalid caller identity"

  abbrev pub parse_optional_uuid : String → Option ℕ
  parse_optional_uuid s = if str_eq s "" then none else h.uuid_parse s

  -- The tenant that an audit row is stamped with; NULL where activeTenant fails.
  abbrev pub audit_tenant : Identity → Option ℕ
  audit_tenant ctx = if str_eq ctx.tenant_id "" then none else h.uuid_parse ctx.tenant_id

  unfoldable pub audit_as : Identity → String → String → String → String → String → M (Unit {0})
  audit_as ctx actor_id actor_email action target detail =
      when h.audit_enabled
        (try (insert_audit_event actor_id actor_email action target detail (audit_tenant ctx)))

  unfoldable pub audit : Identity → String → String → String → M (Unit {0})
  unfolding audit_as
  audit ctx action target detail = audit_as ctx ctx.user_id ctx.email action target detail
