-- ===== src/Db/ApiKeys.antt =====
-- The statements on api_keys of internal/db/auth.sql.go.
use iam_go_auth.Base.{
  ℕ, String, not, ◌||◌, ◌&&◌, Option, none, some, List, [], ◌∷◌, ◌++◌, str_eq, ◌==◌, leb, is_some,
  any, find, select, sort_by, update_where, is_none_or,
}
use iam_go_auth.Db.Models.{ApiKey, User, Tenant, Project}
use iam_go_auth.Db.Query.{not_null, Query, one, wrote, check}

-- The arguments are those of CreateApiKeyParams. The id and the hash are unique; the user, the
-- tenant and the project, if one is named, exist.
unfoldable pub create_api_key :
    String → ℕ → String → String → List String → Option ℕ → ℕ → Option ℕ → Query (Unit {0})
create_api_key id user_id key_hash name scopes expires_at tenant_id project_id now db =
    let k : ApiKey = record {
      id = id;
      user_id = user_id;
      key_hash = key_hash;
      name = name;
      scopes = scopes;
      expires_at = expires_at;
      revoked_at = none;
      last_used_at = none;
      created_at = now;
      tenant_id = tenant_id;
      project_id = project_id;
    } in
    check
      (not_null scopes
        && not (any (λ (o : ApiKey). str_eq o.id id || str_eq o.key_hash key_hash) db.api_keys)
        && any (λ (u : User). u.id == user_id) db.users
        && any (λ (o : Tenant). o.id == tenant_id) db.tenants
        && is_none_or (λ p. any (λ (o : Project). o.id == p) db.projects) project_id)
      (wrote tt (record db { api_keys = db.api_keys ++ k ∷ [] }))

unfoldable pub get_api_key_by_hash : String → Query ApiKey
get_api_key_by_hash key_hash now db =
    one (find (λ (k : ApiKey). str_eq k.key_hash key_hash) db.api_keys) db

-- ORDER BY created_at DESC
unfoldable pub list_api_keys_by_user : ℕ → Query (List ApiKey)
list_api_keys_by_user user_id now db =
    wrote
      (sort_by (λ (a b : ApiKey). leb b.created_at a.created_at)
        (select (λ (k : ApiKey). k.user_id == user_id && not (is_some k.revoked_at)) db.api_keys))
      db

unfoldable pub revoke_api_key : String → ℕ → Query (Unit {0})
revoke_api_key id user_id now db = wrote tt (record db {
  api_keys =
      update_where
        (λ (k : ApiKey). str_eq k.id id && k.user_id == user_id && not (is_some k.revoked_at))
        (λ k. record k { revoked_at = some now }) db.api_keys;
})

unfoldable pub touch_api_key : String → Query (Unit {0})
touch_api_key id now db = wrote tt (record db {
  api_keys =
      update_where (λ (k : ApiKey). str_eq k.id id) (λ k. record k { last_used_at = some now })
        db.api_keys;
})
