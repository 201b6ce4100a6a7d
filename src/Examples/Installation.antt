-- ===== src/Examples/Installation.antt =====
-- A small installation: one tenant, three users, refresh tokens in each state, and a handler whose
-- libraries are concrete functions.
use iam_go_auth.Base.{
  ℕ, ◌+◌, ◌*◌, true, false, none, some, [], ◌∷◌, str_eq, str_append, refl, ◌==◌, if◌then◌else◌,
}
use iam_go_auth.Db.Models.{
  Db, User, RefreshToken, Tenant, Membership, ApiKey, PasswordReset, TotpRecoveryCode, Outbox,
  OauthClient, OauthAuthorizationCode, Role,
}
use iam_go_auth.Jwt.{JwtLib, second}
use iam_go_auth.Rpc.{World, idle}
use iam_go_auth.Rpc.Statements.{Calm}
use iam_go_auth.Handler.{AuthHandler, Identity, Libs}

abbrev pub now : ℕ
now = 1000 * second

abbrev pub alice : User
alice = record {
  id = 1;
  email = "alice@acme";
  password_hash = "#secret";
  status = "active";
  created_at = 0;
  updated_at = 0;
  email_verified = true;
  failed_login_attempts = 2;
  locked_until = none;
  totp_secret = none;
  totp_enabled = false;
  deleted_at = none;
}

abbrev pub bob : User
bob = record alice { id = 2; email = "bob@acme"; locked_until = some (now + 5) }

-- Two-factor authentication is on.
abbrev pub carol : User
carol = record alice {
  id = 3;
  email = "carol@acme";
  totp_secret = some "123456";
  totp_enabled = true;
}

abbrev pub acme : Tenant
acme = record { id = 7; slug = "acme"; name = "Acme"; status = "active"; created_at = 0 }

abbrev pub member : ℕ → Membership
member user = record { user_id = user; tenant_id = 7; status = "active"; created_at = 0 }

abbrev pub active_token : RefreshToken
active_token = record {
  id = 20;
  user_id = 1;
  token_hash = "h-active";
  expires_at = now + 100;
  revoked_at = none;
  created_at = 0;
  tenant_id = 7;
  project_id = none;
  replaced_by = none;
}

abbrev pub revoked_token : RefreshToken
revoked_token = record active_token { id = 21; token_hash = "h-revoked"; revoked_at = some 3 }

abbrev pub key : ApiKey
key = record {
  id = "k";
  user_id = 1;
  key_hash = "h-iamk_k_s";
  name = "ci";
  scopes = "user:read" ∷ [];
  expires_at = none;
  revoked_at = none;
  last_used_at = none;
  created_at = 0;
  tenant_id = 7;
  project_id = none;
}

abbrev pub reset : PasswordReset
reset = record {
  token_hash = "h-reset";
  user_id = 1;
  expires_at = now + 100;
  consumed_at = none;
  created_at = 0;
}

abbrev pub code : TotpRecoveryCode
code = record { id = 1; user_id = 3; code_hash = "h-aaaa-bbbb"; used_at = none; created_at = 0 }

abbrev pub event : Outbox
event = record {
  id = 50;
  aggregate_id = 1;
  event_type = "user.registered";
  payload = "{}";
  created_at = 0;
  published_at = none;
  tenant_id = none;
}

-- The built-in roles.
abbrev pub admin_role : Role
admin_role = record { id = 1; name = "admin"; description = ""; tenant_id = none }

abbrev pub user_role : Role
user_role = record { id = 2; name = "user"; description = ""; tenant_id = none }

-- A public client of the tenant, which has to use PKCE.
abbrev pub client : OauthClient
client = record {
  client_id = "app";
  client_secret_hash = none;
  name = "App";
  redirect_uris = "https://app/cb" ∷ [];
  grant_types = "authorization_code" ∷ [];
  scopes = "openid" ∷ [];
  is_confidential = false;
  created_at = 0;
  tenant_id = 7;
  default_project_id = none;
}

abbrev pub authorization_code : OauthAuthorizationCode
authorization_code = record {
  code_hash = "h-code";
  client_id = "app";
  user_id = 1;
  redirect_uri = "https://app/cb";
  scope = "openid";
  code_challenge = some "b-verifier";
  code_challenge_method = some "S256";
  nonce = none;
  expires_at = now + 100;
  used = false;
  created_at = 0;
}

abbrev pub database : Db
database = record {
  users = alice ∷ bob ∷ carol ∷ [];
  refresh_tokens = active_token ∷ revoked_token ∷ [];
  revoked_tokens = [];
  email_verifications = [];
  password_resets = reset ∷ [];
  recovery_codes = code ∷ [];
  api_keys = key ∷ [];
  tenants = acme ∷ [];
  projects = [];
  memberships = member 1 ∷ member 2 ∷ member 3 ∷ [];
  roles = admin_role ∷ user_role ∷ [];
  permissions = record { id = 1; name = "audit:read"; description = "" } ∷ [];
  role_permissions = record { role_id = 1; permission_id = 1 } ∷ [];
  user_roles = record { user_id = 1; role_id = 1; tenant_id = 7; project_id = none } ∷ [];
  audit_events = [];
  outbox = event ∷ [];
  oauth_clients = client ∷ [];
  authorization_codes = authorization_code ∷ [];
  consents = [];
  signing_keys = [];
  uuids = λ n. n + 100;
  drawn = 0;
  next_serial = 1;
  name_le = λ _ _. true;
  bypass_rls = true;
  app_tenant = none;
}

abbrev pub world : World
world = record {
  db = database;
  now = now;
  tx = idle;
  faults = [];
  entropy = "#" ∷ "jti" ∷ "opaque" ∷ [];
  redis = [];
  mails = [];
}

pub calm : Calm world
calm = record { no_faults = refl; accepting = λ e. cc }

abbrev pub jwt_lib : JwtLib
jwt_lib = record {
  sign = λ kid key c. some (str_append kid (str_append "." c.id));
  sign_id = λ kid key c. some (str_append kid (str_append "." c.sub));
  modulus = λ key. str_append "n-" key;
  exponent = λ key. "AQAB";
  parse_with_claims = λ f issuer leeway at token.
      if str_eq token "mfa"
      then some (record {
        email = "";
        token_use = "";
        purpose = "mfa";
        tenant_id = "";
        project_id = "";
        id = "";
        subject = "3";
        issuer = issuer;
        issued_at = some at;
        expires_at = some (at + 1);
      })
      else if str_eq token "access"
      then some (record {
        email = "alice@acme";
        token_use = "access";
        purpose = "";
        tenant_id = "7";
        project_id = "";
        id = "jti";
        subject = "1";
        issuer = issuer;
        issued_at = some at;
        expires_at = some (at + 1);
      })
      else none;
}

abbrev pub libs : Libs
libs = record {
  uuid_parse = λ s.
      if str_eq s "1"
      then some 1
      else if str_eq s "3"
      then some 3
      else if str_eq s "7"
      then some 7
      else none;
  uuid_string = λ n. if n == 1 then "1" else if n == 3 then "3" else if n == 7 then "7" else "?";
  sha256_hex = λ s. str_append "h-" s;
  sha256_base64url = λ s. str_append "b-" s;
  user_registered = λ id email name. str_append id (str_append email name);
  user_deleted = λ id hard. id;
  user_restored = λ id. id;
  type_user_registered = "user.registered";
  type_user_deleted = "user.deleted";
  type_user_restored = "user.restored";
}

abbrev pub handler : AuthHandler
handler = record {
  config = record {
    audit_enabled = true;
    login_max_failures = 3;
    lockout_duration = 900 * second;
    require_email_verification = false;
    is_production = true;
    oidc_issuer = "http://localhost:8080";
  };
  passwords = record {
    hash = str_append;
    verify = λ stored password. str_eq stored (str_append "#" password);
  };
  totp = record {
    encrypt = λ nonce secret. some (str_append nonce secret);
    decrypt = λ stored. some stored;
    generate = λ bytes account. some (bytes, account);
    validate = λ code secret at. str_eq code secret;
  };
  libs = libs;
  jwt_lib = jwt_lib;
  jwt = record {
    active = record { kid = "k1"; private = "key" };
    verifiers = ("k1", "public") ∷ [];
    issuer = "iam";
    access_ttl = 900 * second;
  };
  refresh_ttl = 86400 * second;
  cache = record {
    enabled = false;
    server = record { matches = λ _ _. false; scan = λ _ keys. keys ∷ [] };
    json = record { marshal = λ _. ""; unmarshal = λ _. none };
  };
  default_tenant = 7;
}

abbrev pub caller : Identity
caller = record {
  user_id = "1";
  email = "alice@acme";
  tenant_id = "7";
  project_id = "";
  has_permission = λ _. true;
}
