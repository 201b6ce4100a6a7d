-- ===== src/Handler/ApiKeys.antt =====
-- internal/handler/m4.go: the API keys.
pub mod Scopes
use iam_go_auth.Base.{
  ℕ, ◌+◌, ◌*◌, String, Bool, true, false, not, ◌&&◌, ◌||◌, Option, none, some, List, [], ◌∷◌, map,
  str_eq, str_append, ltb, is_some, any, select, if◌then◌else◌,
}
use iam_go_auth.Db.Models.{ApiKey, User}
use iam_go_auth.Db.Users.{get_user_by_id}
use iam_go_auth.Db.Tenants.{is_active_member}
use iam_go_auth.Db.Permissions.{get_user_permissions_scoped}
use iam_go_auth.Db.ApiKeys.{
  create_api_key, get_api_key_by_hash, list_api_keys_by_user, revoke_api_key, touch_api_key,
}
use iam_go_auth.Jwt.{second}
use iam_go_auth.Rpc.{
  M, pure, raise, ◌>>=◌, ◌>>◌, or_raise, fail_if, draw, must, try, get_now, internal,
  invalid_argument, unauthenticated, permission_denied,
}
use iam_go_auth.Handler.{
  AuthHandler, Identity, active_tenant, audit, caller_id, hash_token, parse_optional_uuid,
}
use iam_go_auth.Handler.Validate.{with_tenant_guc}

-- authv1.ApiKey; an instant is none where the field is the empty string.
pub record KeyInfo : Type 0 where
  pub id : String
  pub name : String
  pub scopes : List String
  pub created_at : ℕ
  pub expires_at : Option ℕ
  pub last_used_at : Option ℕ

-- authv1.ValidateApiKeyResponse
pub record KeyOwner : Type 0 where
  pub user_id : String
  pub email : String
  pub scopes : List String

-- for _, s := range req.GetScopes() { if !id.HasPermission(s) { return ... } }
pub hold_all : Identity → List String → M (Unit {0})
hold_all ctx [] = pure tt
hold_all ctx (s ∷ scopes) = do
  fail_if (not (ctx.has_permission s)) permission_denied
      (str_append "cannot grant a scope you do not hold: " s)
  hold_all ctx scopes

-- The scopes of a key that are among the permissions.
unfoldable pub effective : List String → List String → List String
effective scopes perms = select (λ s. any (str_eq s) perms) scopes

-- row.ExpiresAt.Valid && row.ExpiresAt.Time.Before(now)
abbrev pub expired_at : ℕ → Option ℕ → Bool
expired_at now none = false
expired_at now (some t) = ltb t now

module _ (h : AuthHandler) (ctx : Identity) where
  abbrev key_expiry : ℕ → ℕ → Option ℕ
  key_expiry now ttl_seconds = if ltb 0 ttl_seconds then some (now + ttl_seconds * second) else none

  -- The full secret, and what is shown of the key. A time to live of zero or less means none.
  unfoldable pub create_api_key_rpc : String → List String → ℕ → M (String × KeyInfo)
  unfolding hold_all
  create_api_key_rpc name scopes ttl_seconds = do
    uid ← caller_id h ctx
    fail_if (str_eq name "") invalid_argument "name is required"
    hold_all ctx scopes
    key_id ← or_raise (← draw) internal "failed to generate key"
    secret ← or_raise (← draw) internal "failed to generate key"
    now ← get_now
    let full = str_append "iamk_" (str_append key_id (str_append "_" secret))
    let expires = key_expiry now ttl_seconds
    tenant ← active_tenant h ctx
    must
        (create_api_key key_id uid (hash_token h full) name scopes expires tenant
          (parse_optional_uuid h ctx.project_id))
        internal "failed to create api key"
    audit h ctx "apikey.create" key_id name
    pure (
      full,
      record {
        id = key_id;
        name = name;
        scopes = scopes;
        created_at = now;
        expires_at = expires;
        last_used_at = none;
      },
    )

  abbrev key_info : ApiKey → KeyInfo
  key_info k = record {
    id = k.id;
    name = k.name;
    scopes = k.scopes;
    created_at = k.created_at;
    expires_at = k.expires_at;
    last_used_at = k.last_used_at;
  }

  unfoldable pub list_api_keys : M (List KeyInfo)
  list_api_keys = do
    uid ← caller_id h ctx
    rows ← must (list_api_keys_by_user uid) internal "failed to list api keys"
    pure (map key_info rows)

  unfoldable pub revoke_api_key_rpc : String → M Bool
  revoke_api_key_rpc id = do
    uid ← caller_id h ctx
    must (revoke_api_key id uid) internal "failed to revoke api key"
    audit h ctx "apikey.revoke" id ""
    pure true

  owner_of : ApiKey → M KeyOwner
  owner_of key = do
    user ← must (get_user_by_id key.user_id) unauthenticated "invalid api key"
    fail_if (is_some user.deleted_at) unauthenticated "invalid api key"
    member ←
        must (is_active_member key.user_id key.tenant_id) unauthenticated
          "api key tenant membership revoked"
    fail_if (not member) unauthenticated "api key tenant membership revoked"
    perms ←
        with_tenant_guc key.tenant_id
          (get_user_permissions_scoped key.user_id key.tenant_id key.project_id)
          "failed to load permissions"
    try (touch_api_key key.id)
    pure (record {
      user_id = h.uuid_string key.user_id;
      email = user.email;
      scopes = effective key.scopes perms;
    })

  unfoldable pub validate_api_key : String → M KeyOwner
  unfolding owner_of
  validate_api_key api_key = do
    key ← must (get_api_key_by_hash (hash_token h api_key)) unauthenticated "invalid api key"
    fail_if (is_some key.revoked_at) unauthenticated "api key revoked"
    now ← get_now
    fail_if (expired_at now key.expires_at) unauthenticated "api key expired"
    owner_of key
