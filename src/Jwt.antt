-- ===== src/Jwt.antt =====
-- internal/jwt/jwt.go: the claims, and the manager that issues and parses tokens.
--
-- golang-jwt is the parameter `JwtLib`: signing, and ParseWithClaims with the issuer, the leeway and
-- the key function that the source passes.
pub mod Keys
pub mod RoundTrip
use iam_go_auth.Base.{
  ℕ, ◌+◌, ◌*◌, ◌/◌, String, Bool, not, ◌&&◌, ◌||◌, Option, none, some, List, [], ◌∷◌, str_eq,
  if◌then◌else◌,
}

-- Durations are counted in nanoseconds, as time.Duration is.
abbrev pub second : ℕ
second = 1000000000

-- jwt.NewNumericDate, and Time.Unix: the instant, cut off to its second.
abbrev pub numeric_date : ℕ → ℕ
numeric_date instant = instant / second * second

abbrev pub token_use_access : String
token_use_access = "access"

abbrev pub clock_skew_leeway : ℕ
clock_skew_leeway = 60 * second

-- Claims, with the registered claims that are set or read (jti, sub, iss, iat, exp).
pub record Claims : Type 0 where
  pub email : String
  pub token_use : String
  pub purpose : String
  pub tenant_id : String
  pub project_id : String
  pub id : String
  pub subject : String
  pub issuer : String
  pub issued_at : Option ℕ
  pub expires_at : Option ℕ

-- The map of claims of an ID token; the nonce is there only if it is not empty.
pub record IdClaims : Type 0 where
  pub iss : String
  pub sub : String
  pub aud : String
  pub iat : ℕ
  pub exp : ℕ
  pub email : String
  pub nonce : Option String

-- What the key function sees of a token: whether its method is RSA, and the kid of its header.
pub record Header : Type 0 where
  pub is_rsa : Bool
  pub kid : String

-- The signing functions take the kid and the private key. ParseWithClaims takes the key function,
-- the issuer and leeway options, the instant and the token; it yields the claims of a valid token.
pub record JwtLib : Type 0 where
  pub sign : String → String → Claims → Option String
  pub sign_id : String → String → IdClaims → Option String
  -- The modulus and the exponent of a public key, in unpadded base64url.
  pub modulus : String → String
  pub exponent : String → String
  pub parse_with_claims : (Header → Option String) → String → ℕ → ℕ → String → Option Claims

pub record SigningKey : Type 0 where
  pub kid : String
  pub private : String

-- A key is whatever text crypto/rsa spells it with; the verifiers are a map from the kid.
pub record Manager : Type 0 where
  pub active : SigningKey
  pub verifiers : List (String × String)
  pub issuer : String
  pub access_ttl : ℕ

unfoldable pub verifier : String → List (String × String) → Option String
verifier kid [] = none
verifier kid ((k, key) ∷ keys) = if str_eq k kid then some key else verifier kid keys

pub key_func : Manager → Header → Option String
unfolding verifier
key_func m header = if header.is_rsa then verifier header.kid m.verifiers else none

module _ (lib : JwtLib) where
  -- The jti is uuid.NewString(), drawn by the caller.
  abbrev pub access_claims : Manager → ℕ → String → String → String → String → String → Claims
  access_claims m now jti user_id email tenant_id project_id = record {
    email = email;
    token_use = token_use_access;
    purpose = "";
    tenant_id = tenant_id;
    project_id = project_id;
    id = jti;
    subject = user_id;
    issuer = m.issuer;
    issued_at = some (numeric_date now);
    expires_at = some (numeric_date (now + m.access_ttl));
  }

  unfoldable pub issue : Manager → ℕ → String → String → String → String → String → Option String
  issue m now jti user_id email tenant_id project_id =
      lib.sign m.active.kid m.active.private
        (access_claims m now jti user_id email tenant_id project_id)

  abbrev pub mfa_claims : Manager → ℕ → String → ℕ → Claims
  mfa_claims m now user_id ttl = record {
    email = "";
    token_use = "";
    purpose = "mfa";
    tenant_id = "";
    project_id = "";
    id = "";
    subject = user_id;
    issuer = m.issuer;
    issued_at = some (numeric_date now);
    expires_at = some (numeric_date (now + ttl));
  }

  unfoldable pub issue_mfa : Manager → ℕ → String → ℕ → Option String
  issue_mfa m now user_id ttl =
      lib.sign m.active.kid m.active.private (mfa_claims m now user_id ttl)

  unfoldable pub issue_id_token :
      Manager → ℕ → String → String → String → String → String → Option String
  issue_id_token m now sub email audience nonce issuer =
      lib.sign_id m.active.kid m.active.private (record {
        iss = issuer;
        sub = sub;
        aud = audience;
        iat = numeric_date now;
        exp = numeric_date (now + m.access_ttl);
        email = email;
        nonce = if str_eq nonce "" then none else some nonce;
      })

  -- token.Valid holds whenever ParseWithClaims returns no error, so it is not asked again.
  unfoldable pub parse : Manager → ℕ → String → Option Claims
  unfolding key_func
  parse m now token = lib.parse_with_claims (key_func m) m.issuer clock_skew_leeway now token

  -- The three tests of ParseAccess.
  abbrev pub is_access : Claims → Bool
  is_access c =
      str_eq c.purpose ""
      && not (str_eq c.id "")
      && (str_eq c.token_use "" || str_eq c.token_use token_use_access)

  abbrev pub only_access : Option Claims → Option Claims
  only_access none = none
  only_access (some c) = if is_access c then some c else none

  unfoldable pub parse_access : Manager → ℕ → String → Option Claims
  unfolding parse
  parse_access m now token = only_access (parse m now token)
