-- ===== src/Handler/Clients.antt =====
-- internal/handler/oidc_flow.go: the OAuth clients and the consents.
pub mod Consent
use iam_go_auth.Base.{
  ℕ, String, Bool, true, false, Option, none, some, List, [], ◌∷◌, ◌==◌, if◌then◌else◌, str_eq,
}
use Prim.Native.Char.{Char, code}
use iam_go_auth.Db.Models.{OauthClient, OauthConsent}
use iam_go_auth.Db.Query.{Answer, row, no_rows, failed}
use iam_go_auth.Db.Oauth.{
  get_client_row, get_consent_row, upsert_consent, insert_client, insert_client_if_new,
}
use iam_go_auth.Rpc.{
  M, pure, raise, ◌>>=◌, ◌>>◌, or_raise, draw, exec, must, internal, invalid_argument, not_found,
}
use iam_go_auth.Handler.{AuthHandler, Identity, require_perm, active_tenant}
use iam_go_auth.Handler.Oidc.{rand_code}

-- authv1.OAuthClient
pub record ClientInfo : Type 0 where
  pub client_id : String
  pub name : String
  pub redirect_uris : List String
  pub scopes : List String
  pub grant_types : List String
  pub is_confidential : Bool

pub client_of : Answer OauthClient → M ClientInfo
client_of (row c) = pure (record {
  client_id = c.client_id;
  name = c.name;
  redirect_uris = c.redirect_uris;
  scopes = c.scopes;
  grant_types = c.grant_types;
  is_confidential = c.is_confidential;
})
client_of no_rows = raise not_found "client not found"
client_of failed = raise internal "client lookup failed"

unfoldable pub get_client : String → M ClientInfo
unfolding client_of
get_client client_id = do a ← exec (get_client_row client_id); client_of a

pub consent_of : Answer OauthConsent → M (List String)
consent_of (row c) = pure c.scopes
consent_of no_rows = pure []
consent_of failed = raise internal "consent lookup failed"

abbrev pub default_scopes : List String → List String
default_scopes [] = "openid" ∷ "profile" ∷ "email" ∷ []
default_scopes (s ∷ ss) = s ∷ ss

abbrev pub grants : List String
grants = "authorization_code" ∷ "refresh_token" ∷ []

-- strings.Split(s, ",")
abbrev pub on_first : Char → List String → List String
on_first c [] = String.◌∷◌ c "" ∷ []
on_first c (s ∷ ss) = String.◌∷◌ c s ∷ ss

unfoldable pub split_commas : String → List String
split_commas String.[] = "" ∷ []
split_commas (String.◌∷◌ c s) =
    let rest = split_commas s in if code c == b',' then "" ∷ rest else on_first c rest

module _ (h : AuthHandler) where
  unfoldable pub get_consent : String → String → M (List String)
  unfolding consent_of
  get_consent user_id client_id = do
    uid ← or_raise (h.uuid_parse user_id) invalid_argument "invalid user id"
    consent_of (← exec (get_consent_row uid client_id))

  unfoldable pub save_consent : String → String → List String → M Bool
  save_consent user_id client_id scopes = do
    uid ← or_raise (h.uuid_parse user_id) invalid_argument "invalid user id"
    must (upsert_consent uid client_id scopes) internal "could not save consent"
    pure true

  -- The new client's secret and its hash: none for a public client.
  pub new_secret : Bool → M (String × Option String)
  unfolding rand_code
  new_secret false = pure ("", none)
  new_secret true = do secret ← rand_code; pure (secret, some (h.sha256_hex secret))

  -- The client id and the secret. A failed draw of the id, where uuid.NewString panics, is counted
  -- as a failure to register.
  unfoldable pub register_client :
      Identity → String → List String → List String → Bool → M (String × String)
  unfolding new_secret
  register_client ctx name redirect_uris scopes is_confidential = do
    require_perm ctx "role:write"
    tenant ← active_tenant h ctx
    client_id ← or_raise (← draw) internal "could not register client"
    secret ← new_secret is_confidential
    must
        (insert_client client_id secret.1 name redirect_uris (default_scopes scopes) grants
          is_confidential tenant)
        internal "could not register client"
    pure (client_id, secret.0)

  -- The arguments are the settings OIDC_CONSOLE_CLIENT_ID, _SECRET and _REDIRECT_URIS.
  unfoldable pub bootstrap_oidc_client : String → String → String → M (Unit {0})
  unfolding split_commas
  bootstrap_oidc_client client_id secret redirects =
      must
        (insert_client_if_new client_id (some (h.sha256_hex secret)) "IAM Admin Console"
          (split_commas redirects) ("openid" ∷ "profile" ∷ "email" ∷ []) grants true)
        internal ""
