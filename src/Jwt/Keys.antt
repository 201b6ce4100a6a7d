-- ===== src/Jwt/Keys.antt =====
-- internal/jwt/keys.go: the signing keys, loaded from the database or made on the first boot.
--
-- crypto/rsa, crypto/x509 and encoding/pem are the parameter `RsaLib`. An error is a Go error whose
-- text the caller only logs: it is the status internal with no message.
pub mod Signer
pub mod Reload
use iam_go_auth.Base.{String, Option, none, some, List, [], ◌∷◌, if◌then◌else◌}
use iam_go_auth.Db.Models.{OidcSigningKey}
use iam_go_auth.Db.Oauth.{list_signing_keys, insert_signing_key}
use iam_go_auth.Jwt.{SigningKey}
use iam_go_auth.Rpc.{M, pure, raise, ◌>>=◌, ◌>>◌, or_raise, draw, must, internal}

-- What x509.ParsePKIXPublicKey finds: an RSA key, or one of another kind.
pub data PublicKey : Type 0 where
  rsa : String → PublicKey
  other_kind : PublicKey

-- `generate_key` takes the bytes that it draws; a PEM text has a type and a block.
pub record RsaLib : Type 0 where
  pub generate_key : String → Option String
  pub public_key : String → String
  pub pem_encode : String → String → String
  pub pem_decode : String → Option String
  pub marshal_pkcs1 : String → String
  pub parse_pkcs1 : String → Option String
  pub marshal_pkix : String → Option String
  pub parse_pkix : String → Option PublicKey

pub record KeySet : Type 0 where
  pub active : SigningKey
  pub verifiers : List (String × String)

-- The key set of the loop: the active key is nil until its row has been met.
pub record Loaded : Type 0 where
  pub signer : Option SigningKey
  pub verifiers : List (String × String)

pub record Generated : Type 0 where
  pub key : String
  pub kid : String
  pub private_pem : String
  pub public_pem : String

abbrev pub of_rsa : PublicKey → Option String
of_rsa (rsa key) = some key
of_rsa other_kind = none

module _ (lib : RsaLib) where
  abbrev pub private_block : Option String → Option String
  private_block none = none
  private_block (some block) = lib.parse_pkcs1 block

  abbrev pub parse_private_pem : String → Option String
  parse_private_pem s = private_block (lib.pem_decode s)

  abbrev pub rsa_key : Option PublicKey → Option String
  rsa_key none = none
  rsa_key (some k) = of_rsa k

  abbrev pub public_block : Option String → Option String
  public_block none = none
  public_block (some block) = rsa_key (lib.parse_pkix block)

  abbrev pub parse_public_pem : String → Option String
  parse_public_pem s = public_block (lib.pem_decode s)

  -- A failed draw of the kid, where uuid.NewString panics, is counted as a failure to generate.
  unfoldable pub generate_rsa : M Generated
  generate_rsa = do
    bytes ← or_raise (← draw) internal ""
    key ← or_raise (lib.generate_key bytes) internal ""
    kid ← or_raise (← draw) internal ""
    der ← or_raise (lib.marshal_pkix (lib.public_key key)) internal ""
    pure (record {
      key = key;
      kid = kid;
      private_pem = lib.pem_encode "RSA PRIVATE KEY" (lib.marshal_pkcs1 key);
      public_pem = lib.pem_encode "PUBLIC KEY" der;
    })

  unfoldable pub first_boot : M KeySet
  unfolding generate_rsa
  first_boot = do
    g ← generate_rsa
    must (insert_signing_key g.kid g.private_pem g.public_pem) internal ""
    pure (record {
      active = record { kid = g.kid; private = g.key };
      verifiers = (g.kid, lib.public_key g.key) ∷ [];
    })

  unfoldable pub load_active : OidcSigningKey → String → Loaded → M Loaded
  load_active r public ks = do
    private ← or_raise (parse_private_pem r.private_pem) internal ""
    pure (record {
      signer = some (record { kid = r.kid; private = private });
      verifiers = (r.kid, public) ∷ ks.verifiers;
    })

  abbrev pub load_inactive : OidcSigningKey → String → Loaded → M Loaded
  load_inactive r public ks = pure (record ks { verifiers = (r.kid, public) ∷ ks.verifiers })

  -- One round of the loop over the rows.
  unfoldable pub load_row : OidcSigningKey → Loaded → M Loaded
  unfolding load_active
  load_row r ks = do
    public ← or_raise (parse_public_pem r.public_pem) internal ""
    if r.active then load_active r public ks else load_inactive r public ks

  unfoldable pub load_rows : List OidcSigningKey → Loaded → M Loaded
  unfolding load_row
  load_rows [] ks = pure ks
  load_rows (r ∷ rs) ks = do next ← load_row r ks; load_rows rs next

  abbrev pub no_keys : Loaded
  no_keys = record { signer = none; verifiers = [] }

  unfoldable pub load_found : List OidcSigningKey → M KeySet
  unfolding first_boot load_rows
  load_found [] = first_boot
  load_found (r ∷ rs) = do
    ks ← load_rows (r ∷ rs) no_keys
    active ← or_raise ks.signer internal "no active signing key"
    pure (record { active = active; verifiers = ks.verifiers })

  unfoldable pub load_keys : M KeySet
  unfolding load_found
  load_keys = do found ← must list_signing_keys internal ""; load_found found
