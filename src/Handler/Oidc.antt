-- ===== src/Handler/Oidc.antt =====
-- internal/handler/oidc_flow.go: the authorization codes, PKCE and their exchange for tokens; and
-- GetJwks of internal/handler/oidc.go.
pub mod Grant
pub mod Redemption
pub mod Once
use iam_go_auth.Base.{
  ℕ, String, Bool, true, false, not, ◌&&◌, ◌||◌, Option, none, some, List, map, str_eq, ◌==◌,
  if◌then◌else◌,
}
use iam_go_auth.Db.Models.{OauthAuthorizationCode, OauthClient}
use iam_go_auth.Db.Users.{get_user_by_id}
use iam_go_auth.Db.Tenants.{is_active_member}
use iam_go_auth.Db.Oauth.{
  get_client_row, insert_authorization_code, get_authorization_code, claim_authorization_code,
}
use iam_go_auth.Jwt.{issue_id_token}
use iam_go_auth.Rpc.{
  M, pure, ◌>>=◌, ◌>>◌, or_raise, fail_if, draw, must, get_now, internal, invalid_argument,
  unauthenticated, permission_denied, not_found,
}
use iam_go_auth.Handler.{AuthHandler, hash_token}
use iam_go_auth.Handler.Tokens.{issue_tokens}

-- 32 zero bytes in base64url: what is encoded when rand.Read fails, for its error is dropped.
abbrev pub zero_code : String
zero_code = "AAAAAAAAAAAAAAAAAAAAAAAAAAAAAAAAAAAAAAAAAAA"

abbrev pub or_zero : Option String → String
or_zero none = zero_code
or_zero (some s) = s

unfoldable pub rand_code : M String
rand_code = do o ← draw; pure (or_zero o)

-- authv1.ExchangeAuthorizationCodeRequest
pub record Exchange : Type 0 where
  pub code : String
  pub client_id : String
  pub client_secret : String
  pub redirect_uri : String
  pub code_verifier : String

-- authv1.OidcTokenResponse
pub record OidcTokens : Type 0 where
  pub access_token : String
  pub id_token : String
  pub refresh_token : String
  pub expires_in : ℕ
  pub token_type : String
  pub scope : String

-- The String of a pgtype.Text: the empty one for NULL.
abbrev pub text_of : Option String → String
text_of none = ""
text_of (some s) = s

-- hasPKCE
abbrev pub has_pkce : OauthAuthorizationCode → Bool
has_pkce c = elim c.code_challenge [ none ↦ false | some s ↦ not (str_eq s "") ]

module _ (h : AuthHandler) where
  unfoldable pub verify_pkce : String → String → String → Bool
  verify_pkce challenge method verifier =
      if str_eq method "S256"
      then str_eq (h.sha256_base64url verifier) challenge
      else if str_eq method "plain" || str_eq method ""
      then str_eq verifier challenge
      else false

  -- authv1.CreateAuthorizationCodeRequest, field by field.
  unfoldable pub create_authorization_code :
      String → String → String → String → String → String → String → M String
  unfolding rand_code
  create_authorization_code user_id client_id redirect_uri scope challenge method nonce = do
    uid ← or_raise (h.uuid_parse user_id) invalid_argument "invalid user id"
    client ← must (get_client_row client_id) not_found "client not found"
    member ←
        must (is_active_member uid client.tenant_id) permission_denied
          "not a member of this client's organization"
    fail_if (not member) permission_denied "not a member of this client's organization"
    code ← rand_code
    must
        (insert_authorization_code (hash_token h code) client_id uid redirect_uri scope challenge
          method nonce)
        internal "could not create authorization code"
    pure code

  -- used || expired || clientID != ... || redirectURI != ...
  abbrev pub bad_grant : Exchange → OauthAuthorizationCode → Bool → Bool
  bad_grant req c expired =
      c.used
      || expired
      || not (str_eq c.client_id req.client_id)
      || not (str_eq c.redirect_uri req.redirect_uri)

  -- The secret of a confidential client.
  abbrev pub wrong_secret : Exchange → OauthClient → Bool
  wrong_secret req client = elim client.client_secret_hash [
    | none ↦ true
    | some s ↦ not (str_eq (h.sha256_hex req.client_secret) s)
  ]

  pub authenticate_client : Exchange → OauthAuthorizationCode → M (Unit {0})
  authenticate_client req c = do
    client ← must (get_client_row c.client_id) invalid_argument "invalid_client"
    if client.is_confidential
        then fail_if (wrong_secret req client) unauthenticated "invalid_client"
        else fail_if (not (has_pkce c)) invalid_argument "PKCE required for public clients"

  -- From the look-up of the user on: the pair and the ID token.
  pub grant_tokens : OauthAuthorizationCode → M OidcTokens
  grant_tokens c = do
    user ← must (get_user_by_id c.user_id) internal "user lookup failed"
    client ← must (get_client_row c.client_id) internal "client tenant lookup failed"
    member ← must (is_active_member c.user_id client.tenant_id) internal "membership check failed"
    fail_if (not member) permission_denied "not a member of this organization"
    pair ← issue_tokens h c.user_id user.email client.tenant_id none
    now ← get_now
    id_token ←
        or_raise
          (issue_id_token h.jwt_lib h.jwt now (h.uuid_string c.user_id) user.email c.client_id
            (text_of c.nonce) h.oidc_issuer)
          internal "failed to sign id_token"
    pure (record {
      access_token = pair.access_token;
      id_token = id_token;
      refresh_token = pair.refresh_token;
      expires_in = pair.expires_in;
      token_type = "Bearer";
      scope = c.scope;
    })

  unfoldable pub exchange_authorization_code : Exchange → M OidcTokens
  unfolding verify_pkce authenticate_client grant_tokens
  exchange_authorization_code req = do
    found ← must (get_authorization_code (hash_token h req.code)) invalid_argument "invalid_grant"
    fail_if (bad_grant req found.0 found.1) invalid_argument "invalid_grant"
    affected ←
        must (claim_authorization_code (hash_token h req.code)) invalid_argument "invalid_grant"
    fail_if (not (affected == 1)) invalid_argument "invalid_grant"
    fail_if
        (has_pkce found.0
          && not (
              verify_pkce (text_of found.0.code_challenge) (text_of found.0.code_challenge_method)
                req.code_verifier))
        invalid_argument "invalid_grant"
    authenticate_client req found.0
    grant_tokens found.0

-- authv1.Jwk, with N and E in base64url.
pub record Jwk : Type 0 where
  pub kid : String
  pub kty : String
  pub usage : String
  pub alg : String
  pub n : String
  pub e : String

abbrev pub jwk : AuthHandler → String × String → Jwk
jwk h (kid, key) = record {
  kid = kid;
  kty = "RSA";
  usage = "sig";
  alg = "RS256";
  n = h.jwt_lib.modulus key;
  e = h.jwt_lib.exponent key;
}

-- In an order of its own: the verifiers are a Go map.
unfoldable pub get_jwks : AuthHandler → M (List Jwk)
get_jwks h = pure (map (jwk h) h.jwt.verifiers)
