-- ===== src/Db/Models.antt =====
-- The row types of internal/db/models.go, and the database as the record of its tables.
--
-- A uuid.UUID is the number that its 16 bytes spell. A pgtype.Timestamptz that may be NULL, a
-- pgtype.UUID and a *string are optional values; an instant is a number of nanoseconds.
use iam_go_auth.Base.{ℕ, String, Bool, Option, List}

pub record User : Type 0 where
  pub id : ℕ
  pub email : String
  pub password_hash : String
  pub status : String
  pub created_at : ℕ
  pub updated_at : ℕ
  pub email_verified : Bool
  pub failed_login_attempts : ℕ
  pub locked_until : Option ℕ
  pub totp_secret : Option String
  pub totp_enabled : Bool
  pub deleted_at : Option ℕ

pub record RefreshToken : Type 0 where
  pub id : ℕ
  pub user_id : ℕ
  pub token_hash : String
  pub expires_at : ℕ
  pub revoked_at : Option ℕ
  pub created_at : ℕ
  pub tenant_id : ℕ
  pub project_id : Option ℕ
  pub replaced_by : Option String

pub record RevokedToken : Type 0 where
  pub jti : String
  pub expires_at : ℕ
  pub revoked_at : ℕ

pub record EmailVerification : Type 0 where
  pub token_hash : String
  pub user_id : ℕ
  pub expires_at : ℕ
  pub consumed_at : Option ℕ
  pub created_at : ℕ

pub record PasswordReset : Type 0 where
  pub token_hash : String
  pub user_id : ℕ
  pub expires_at : ℕ
  pub consumed_at : Option ℕ
  pub created_at : ℕ

pub record TotpRecoveryCode : Type 0 where
  pub id : ℕ
  pub user_id : ℕ
  pub code_hash : String
  pub used_at : Option ℕ
  pub created_at : ℕ

pub record ApiKey : Type 0 where
  pub id : String
  pub user_id : ℕ
  pub key_hash : String
  pub name : String
  pub scopes : List String
  pub expires_at : Option ℕ
  pub revoked_at : Option ℕ
  pub last_used_at : Option ℕ
  pub created_at : ℕ
  pub tenant_id : ℕ
  pub project_id : Option ℕ

pub record Tenant : Type 0 where
  pub id : ℕ
  pub slug : String
  pub name : String
  pub status : String
  pub created_at : ℕ

pub record Project : Type 0 where
  pub id : ℕ
  pub tenant_id : ℕ
  pub slug : String
  pub name : String
  pub created_at : ℕ

pub record Membership : Type 0 where
  pub user_id : ℕ
  pub tenant_id : ℕ
  pub status : String
  pub created_at : ℕ

pub record Role : Type 0 where
  pub id : ℕ
  pub name : String
  pub description : String
  pub tenant_id : Option ℕ

pub record Permission : Type 0 where
  pub id : ℕ
  pub name : String
  pub description : String

pub record RolePermission : Type 0 where
  pub role_id : ℕ
  pub permission_id : ℕ

pub record UserRole : Type 0 where
  pub user_id : ℕ
  pub role_id : ℕ
  pub tenant_id : ℕ
  pub project_id : Option ℕ

pub record AuditEvent : Type 0 where
  pub id : ℕ
  pub actor_id : String
  pub actor_email : String
  pub action : String
  pub target : String
  pub detail : String
  pub created_at : ℕ
  pub tenant_id : Option ℕ

pub record Outbox : Type 0 where
  pub id : ℕ
  pub aggregate_id : ℕ
  pub event_type : String
  pub payload : String
  pub created_at : ℕ
  pub published_at : Option ℕ
  pub tenant_id : Option ℕ

pub record OauthClient : Type 0 where
  pub client_id : String
  pub client_secret_hash : Option String
  pub name : String
  pub redirect_uris : List String
  pub grant_types : List String
  pub scopes : List String
  pub is_confidential : Bool
  pub created_at : ℕ
  pub tenant_id : ℕ
  pub default_project_id : Option ℕ

pub record OauthAuthorizationCode : Type 0 where
  pub code_hash : String
  pub client_id : String
  pub user_id : ℕ
  pub redirect_uri : String
  pub scope : String
  pub code_challenge : Option String
  pub code_challenge_method : Option String
  pub nonce : Option String
  pub expires_at : ℕ
  pub used : Bool
  pub created_at : ℕ

pub record OauthConsent : Type 0 where
  pub user_id : ℕ
  pub client_id : String
  pub scopes : List String
  pub granted_at : ℕ

pub record OidcSigningKey : Type 0 where
  pub kid : String
  pub private_pem : String
  pub public_pem : String
  pub alg : String
  pub active : Bool
  pub created_at : ℕ

-- The tables, and what the server itself contributes: the values that gen_random_uuid() will
-- return (`uuids` after `drawn` draws), the next value of its sequences, the collation that ORDER BY
-- compares names with, and the session: whether the role of the connection bypasses row-level
-- security, and the setting app.tenant_id.
pub record Db : Type 0 where
  pub users : List User
  pub refresh_tokens : List RefreshToken
  pub revoked_tokens : List RevokedToken
  pub email_verifications : List EmailVerification
  pub password_resets : List PasswordReset
  pub recovery_codes : List TotpRecoveryCode
  pub api_keys : List ApiKey
  pub tenants : List Tenant
  pub projects : List Project
  pub memberships : List Membership
  pub roles : List Role
  pub permissions : List Permission
  pub role_permissions : List RolePermission
  pub user_roles : List UserRole
  pub audit_events : List AuditEvent
  pub outbox : List Outbox
  pub oauth_clients : List OauthClient
  pub authorization_codes : List OauthAuthorizationCode
  pub consents : List OauthConsent
  pub signing_keys : List OidcSigningKey
  pub uuids : ℕ → ℕ
  pub drawn : ℕ
  pub next_serial : ℕ
  pub name_le : String → String → Bool
  pub bypass_rls : Bool
  pub app_tenant : Option ℕ
