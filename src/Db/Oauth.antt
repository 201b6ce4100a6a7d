-- ===== src/Db/Oauth.antt =====
-- The statements that internal/handler/oidc_flow.go and internal/jwt/keys.go send themselves, on
-- oauth_clients, oauth_authorization_codes, oauth_consents and oidc_signing_keys. Their policies, where
-- they have one, admit every row.
pub mod Laws
use iam_go_auth.Base.{
  ℕ, ◌+◌, ◌*◌, String, Bool, true, false, not, ◌&&◌, ◌||◌, Option, none, some, List, [], ◌∷◌, ◌++◌,
  str_eq, ◌==◌, ltb, any, find, select, length, update_where, if◌then◌else◌,
}
use iam_go_auth.Db.Models.{
  Db, OauthClient, OauthAuthorizationCode, OauthConsent, OidcSigningKey, Tenant,
}
use iam_go_auth.Db.Query.{Query, one, wrote, check, not_null}

-- NULLIF($1, '')
abbrev pub null_if_empty : String → Option String
null_if_empty s = if str_eq s "" then none else some s

abbrev pub has_client_id : String → OauthClient → Bool
has_client_id client_id c = str_eq c.client_id client_id

unfoldable pub get_client_row : String → Query OauthClient
get_client_row client_id now db = one (find (has_client_id client_id) db.oauth_clients) db

-- The lists are not NULL, the client id is unique and the tenant exists.
unfoldable pub insert_client :
    String
    → Option String
    → String
    → List String
    → List String
    → List String
    → Bool
    → ℕ
    → Query (Unit {0})
insert_client client_id secret_hash name redirect_uris scopes grant_types is_confidential tenant_id
      now db =
    let c : OauthClient = record {
      client_id = client_id;
      client_secret_hash = secret_hash;
      name = name;
      redirect_uris = redirect_uris;
      grant_types = grant_types;
      scopes = scopes;
      is_confidential = is_confidential;
      created_at = now;
      tenant_id = tenant_id;
      default_project_id = none;
    } in
    check
      (not_null redirect_uris
        && not_null scopes
        && not_null grant_types
        && not (any (has_client_id client_id) db.oauth_clients)
        && any (λ (t : Tenant). t.id == tenant_id) db.tenants)
      (wrote tt (record db { oauth_clients = db.oauth_clients ++ c ∷ [] }))

-- The default of the column tenant_id, 00000000-0000-0000-0000-000000000001.
abbrev pub default_tenant_id : ℕ
default_tenant_id = 1

-- ON CONFLICT (client_id) DO NOTHING
unfoldable pub insert_client_if_new :
    String
    → Option String
    → String
    → List String
    → List String
    → List String
    → Bool
    → Query (Unit {0})
unfolding insert_client
insert_client_if_new client_id secret_hash name redirect_uris scopes grant_types is_confidential now
      db =
    if any (has_client_id client_id) db.oauth_clients
    then wrote tt db
    else insert_client client_id secret_hash name redirect_uris scopes grant_types is_confidential
        default_tenant_id now db

abbrev pub minute : ℕ
minute = 60 * 1000000000

abbrev pub has_code : String → OauthAuthorizationCode → Bool
has_code hash c = str_eq c.code_hash hash

-- The hash is the primary key, and the client exists; the code is good for five minutes.
unfoldable pub insert_authorization_code :
    String → String → ℕ → String → String → String → String → String → Query (Unit {0})
insert_authorization_code hash client_id user_id redirect_uri scope challenge method nonce now db =
    let c : OauthAuthorizationCode = record {
      code_hash = hash;
      client_id = client_id;
      user_id = user_id;
      redirect_uri = redirect_uri;
      scope = scope;
      code_challenge = null_if_empty challenge;
      code_challenge_method = null_if_empty method;
      nonce = null_if_empty nonce;
      expires_at = now + 5 * minute;
      used = false;
      created_at = now;
    } in
    check
      (not (any (has_code hash) db.authorization_codes)
        && any (has_client_id client_id) db.oauth_clients)
      (wrote tt (record db { authorization_codes = db.authorization_codes ++ c ∷ [] }))

-- The row, and (expires_at < now()).
abbrev pub with_expiry : ℕ → Option OauthAuthorizationCode → Option (OauthAuthorizationCode × Bool)
with_expiry now none = none
with_expiry now (some c) = some (c, ltb c.expires_at now)

unfoldable pub get_authorization_code : String → Query (OauthAuthorizationCode × Bool)
get_authorization_code hash now db =
    one (with_expiry now (find (has_code hash) db.authorization_codes)) db

abbrev pub unclaimed : String → OauthAuthorizationCode → Bool
unclaimed hash c = has_code hash c && not c.used

abbrev pub use_code : OauthAuthorizationCode → OauthAuthorizationCode
use_code c = record c { used = true }

-- UPDATE ... SET used = true WHERE code_hash = $1 AND used = false: the number of rows.
unfoldable pub claim_authorization_code : String → Query ℕ
claim_authorization_code hash now db =
    wrote (length (select (unclaimed hash) db.authorization_codes)) (record db {
      authorization_codes = update_where (unclaimed hash) use_code db.authorization_codes;
    })

abbrev pub is_consent : ℕ → String → OauthConsent → Bool
is_consent user_id client_id c = c.user_id == user_id && str_eq c.client_id client_id

unfoldable pub get_consent_row : ℕ → String → Query OauthConsent
get_consent_row user_id client_id now db = one (find (is_consent user_id client_id) db.consents) db

-- ON CONFLICT (user_id, client_id) DO UPDATE; the scopes are not NULL, and the client exists.
unfoldable pub upsert_consent : ℕ → String → List String → Query (Unit {0})
upsert_consent user_id client_id scopes now db =
    let c : OauthConsent = record {
      user_id = user_id;
      client_id = client_id;
      scopes = scopes;
      granted_at = now;
    } in
    check (not_null scopes) (
      if any (is_consent user_id client_id) db.consents
      then wrote tt (record db {
        consents =
            update_where (is_consent user_id client_id)
              (λ o. record o { scopes = scopes; granted_at = now }) db.consents;
      })
      else check (any (has_client_id client_id) db.oauth_clients)
          (wrote tt (record db { consents = db.consents ++ c ∷ [] })))

unfoldable pub list_signing_keys : Query (List OidcSigningKey)
list_signing_keys now db = wrote db.signing_keys db

-- The kid is the primary key, and at most one key is active.
unfoldable pub insert_signing_key : String → String → String → Query (Unit {0})
insert_signing_key kid private_pem public_pem now db =
    let k : OidcSigningKey = record {
      kid = kid;
      private_pem = private_pem;
      public_pem = public_pem;
      alg = "RS256";
      active = true;
      created_at = now;
    } in
    check (not (any (λ (o : OidcSigningKey). str_eq o.kid kid || o.active) db.signing_keys))
      (wrote tt (record db { signing_keys = db.signing_keys ++ k ∷ [] }))
