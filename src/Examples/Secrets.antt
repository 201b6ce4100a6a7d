-- ===== src/Examples/Secrets.antt =====
-- The theorems on keys, tokens and secrets at rest, run on small libraries.
use iam_go_auth.Base.{
  ℕ, ◌+◌, ◌*◌, ltb, List, length, true, false, ◌⊎◌, ◌≢◌, ◌==◌, decimal, digits, String, none, some,
  [], ◌∷◌, ◌≡◌, refl, any, str_eq, if◌then◌else◌,
}
use iam_go_auth.Rpc.{World, pure, ◌>>=◌}
use iam_go_auth.Rpc.Laws.{After}
use iam_go_auth.Jwt.{
  second, issue, issue_mfa, verifier, numeric_date, parse, parse_access, clock_skew_leeway,
}
use iam_go_auth.Jwt.RoundTrip.{parse-issued}
use iam_go_auth.Jwt.Keys.{RsaLib, KeySet, rsa, load_keys}
use iam_go_auth.Jwt.Keys.Signer.{Known, load_keys-Known}
use iam_go_auth.Jwt.Keys.Reload.{load_keys-reload}
use iam_go_auth.Password.{Argon2, header, hash, verify}
use iam_go_auth.Password.RoundTrip.{verify-hash}
use iam_go_auth.TotpSecret.{Crypto, encrypt, decrypt}
use iam_go_auth.TotpSecret.RoundTrip.{decrypt-encrypt}
use iam_go_auth.Examples.Alice.{access_alice, mfa_alice, verifying, key_pair}
use iam_go_auth.Examples.Installation.{now, database, world, handler}

-- Each key and each encoding of it is the same text.
abbrev rsa_lib : RsaLib
rsa_lib = record {
  generate_key = λ bytes. some bytes;
  public_key = λ key. key;
  pem_encode = λ type block. block;
  pem_decode = λ text. some text;
  marshal_pkcs1 = λ key. key;
  parse_pkcs1 = λ block. some block;
  marshal_pkix = λ key. some key;
  parse_pkix = λ der. some (rsa der);
}

same_key : (key der : String) → some key ≡ some der → some (rsa der) ≡ some (rsa key)
same_key key der e = cc

-- A retired key and the active one.
abbrev with_keys : World
with_keys = record world {
  db = record database {
    signing_keys =
        record {
          kid = "k0";
          private_pem = "old";
          public_pem = "old";
          alg = "RS256";
          active = false;
          created_at = now;
        }
        ∷ record {
          kid = "k1";
          private_pem = "new";
          public_pem = "new";
          alg = "RS256";
          active = true;
          created_at = now;
        }
        ∷ [];
  };
}

load_keys-Known_example : After (load_keys rsa_lib) with_keys (Known rsa_lib) (λ _ _. Unit)
unfolding any
load_keys-Known_example =
    load_keys-Known rsa_lib (λ _ _. refl) (λ _. refl) same_key with_keys (refl, (refl, tt))
      (refl, (refl, tt))

load_keys-reload_example :
    After
      (load_keys rsa_lib >>= λ ks. (load_keys rsa_lib >>= λ again. pure (ks, again)))
      world
      (λ (r : KeySet × KeySet) _. r.1 ≡ r.0)
      (λ _ _. Unit)
load_keys-reload_example = load_keys-reload rsa_lib (λ _ _. refl) (λ _. refl) same_key world refl

issued : issue verifying handler.jwt now "jti" "1" "alice@acme" "7" "" ≡ some "access"
unfolding issue
issued = refl

issued_mfa : issue_mfa verifying handler.jwt now "1" (300 * second) ≡ some "mfa"
unfolding issue_mfa
issued_mfa = refl

found : verifier "k1" handler.jwt.verifiers ≡ some "public"
unfolding verifier
found = refl

parse-issued_example :
    (parse_access verifying handler.jwt now "access" ≡ (
      if ltb now (numeric_date (now + handler.jwt.access_ttl) + clock_skew_leeway)
      then some access_alice
      else none))
    × (parse verifying handler.jwt now "mfa" ≡ (
        if ltb now (numeric_date (now + 300 * second) + clock_skew_leeway)
        then some mfa_alice
        else none))
    × (parse_access verifying handler.jwt now "mfa" ≡ none)
parse-issued_example =
    parse-issued verifying handler.jwt "public" now now (300 * second) "jti" "1" "alice@acme" "7" ""
      "access" "mfa" key_pair found refl issued issued_mfa

abbrev crypto : Crypto
crypto = record {
  nonce_size = 2;
  seal = λ key nonce plaintext. 7 ∷ 8 ∷ [];
  open_sealed = λ key nonce sealed. some "JBSWY3DP";
  base64_encode = λ bytes. "AQIHCA==";
  base64_decode = λ text. some (1 ∷ 2 ∷ 7 ∷ 8 ∷ []);
  sha256 = λ text. [];
}

encrypted :
    encrypt crypto (record { gcm = some (5 ∷ []) }) (some (1 ∷ 2 ∷ [])) "JBSWY3DP"
    ≡ some "enc:v1:AQIHCA=="
unfolding encrypt
encrypted = refl

decrypt-encrypt_example :
    decrypt crypto (record { gcm = some (5 ∷ []) }) "enc:v1:AQIHCA==" ≡ some "JBSWY3DP"
decrypt-encrypt_example =
    decrypt-encrypt crypto (5 ∷ []) (1 ∷ 2 ∷ []) "JBSWY3DP" "enc:v1:AQIHCA==" refl refl refl
      encrypted

abbrev key_bytes : List ℕ
key_bytes =
    1 ∷ 2 ∷ 3 ∷ 4 ∷ 5 ∷ 6 ∷ 7 ∷ 8 ∷ 1 ∷ 2 ∷ 3 ∷ 4 ∷ 5 ∷ 6 ∷ 7 ∷ 8 ∷ 1 ∷ 2 ∷ 3 ∷ 4 ∷ 5 ∷ 6 ∷ 7 ∷ 8
    ∷ 1 ∷ 2 ∷ 3 ∷ 4 ∷ 5 ∷ 6 ∷ 7 ∷ 8 ∷ []

abbrev salt_bytes : List ℕ
salt_bytes = 9 ∷ 9 ∷ []

abbrev argon2 : Argon2
argon2 = record {
  id_key = λ plain salt t m p n. if str_eq plain "secret" then some key_bytes else some [];
  base64_encode = λ bytes. if length bytes == 2 then "CQk" else "AQID";
  base64_decode = λ text. if str_eq text "CQk" then some salt_bytes else some key_bytes;
}

abbrev stored_hash : String
stored_hash = "$argon2id$v=19$m=19456,t=2,p=1$CQk$AQID"

hashed : hash argon2 (some salt_bytes) "secret" ≡ some stored_hash
unfolding hash header decimal digits
hashed = refl

verify-hash_example :
    (verify argon2 stored_hash "guess" ≡ some true × [] ≡ key_bytes)
    ⊎ (verify argon2 stored_hash "guess" ≡ some false × [] ≢ key_bytes)
verify-hash_example =
    verify-hash argon2 salt_bytes key_bytes [] "secret" "guess" stored_hash refl refl refl refl refl
      refl refl hashed
