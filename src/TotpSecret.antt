-- ===== src/TotpSecret.antt =====
-- internal/totpsecret/totpsecret.go: the encryption of TOTP secrets at rest.
--
-- crypto/aes with crypto/cipher, encoding/base64 and crypto/sha256 are the parameter `Crypto`. Bytes
-- are numbers; a plaintext goes in and comes out as the Go string of its bytes.
pub mod RoundTrip
use iam_go_auth.Base.{
  ℕ, zero, suc, String, Bool, true, false, not, ◌&&◌, Option, none, some, List, [], ◌∷◌, ◌++◌,
  length, take, ltb, ◌==◌, str_eq, str_append, strip_prefix, is_some, if◌then◌else◌,
}

abbrev pub prefix : String
prefix = "enc:v1:"

-- `seal` and `open` take the key and the nonce; the additional data is nil.
pub record Crypto : Type 0 where
  pub nonce_size : ℕ
  pub seal : List ℕ → List ℕ → String → List ℕ
  pub open_sealed : List ℕ → List ℕ → List ℕ → Option String
  pub base64_encode : List ℕ → String
  pub base64_decode : String → Option (List ℕ)
  pub sha256 : String → List ℕ

-- Encryptor: its key, or none for the one that passes plaintext through.
pub record Encryptor : Type 0 where
  pub gcm : Option (List ℕ)

-- raw[n:]
abbrev pub drop : ℕ → List ℕ → List ℕ
drop zero bs = bs
drop (suc n) [] = []
drop (suc n) (b ∷ bs) = drop n bs

module _ (lib : Crypto) where
  abbrev pub key_of : String → Option (List ℕ) → List ℕ
  key_of key none = lib.sha256 key
  key_of key (some b) = if length b == 32 then b else lib.sha256 key

  abbrev pub derive_key : String → List ℕ
  derive_key key = key_of key (lib.base64_decode key)

  -- New; aes.NewCipher and cipher.NewGCM accept every key of 32 bytes.
  abbrev pub new : String → Encryptor
  new key = if str_eq key "" then record { gcm = none } else record { gcm = some (derive_key key) }

  abbrev pub enabled : Encryptor → Bool
  enabled e = is_some e.gcm

  -- The nonce is what rand.Read drew, or none where it failed.
  abbrev pub seal_with : String → List ℕ → Option (List ℕ) → Option String
  seal_with plaintext key none = none
  seal_with plaintext key (some nonce) =
      some (str_append prefix (lib.base64_encode (nonce ++ lib.seal key nonce plaintext)))

  abbrev pub encrypt_with : Option (List ℕ) → Option (List ℕ) → String → Option String
  encrypt_with none drawn plaintext = some plaintext
  encrypt_with (some key) drawn plaintext = seal_with plaintext key drawn

  unfoldable pub encrypt : Encryptor → Option (List ℕ) → String → Option String
  encrypt e drawn plaintext = encrypt_with e.gcm drawn plaintext

  abbrev pub open_raw : List ℕ → Option (List ℕ) → Option String
  open_raw key none = none
  open_raw key (some raw) =
      if ltb (length raw) lib.nonce_size
      then none
      else lib.open_sealed key (take lib.nonce_size raw) (drop lib.nonce_size raw)

  abbrev pub open_text : Option (List ℕ) → String → Option String
  open_text none text = none
  open_text (some key) text = open_raw key (lib.base64_decode text)

  abbrev pub decrypt_tagged : Encryptor → String → Option String → Option String
  decrypt_tagged e stored none = some stored
  decrypt_tagged e stored (some text) = open_text e.gcm text

  unfoldable pub decrypt : Encryptor → String → Option String
  unfolding strip_prefix
  decrypt e stored = decrypt_tagged e stored (strip_prefix prefix stored)
