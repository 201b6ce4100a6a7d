-- ===== src/TotpSecret/RoundTrip.antt =====
-- What was encrypted is decrypted to itself.
use iam_go_auth.Base.{
  ℕ, suc, String, false, ◌≡◌, refl, ap, subst, ◌∙◌, Option, none, some, List, [], ◌∷◌, ◌++◌, length,
  take, ltb, str_append, strip_prefix, strip_prefix-append, if◌then◌else◌, arith,
}
use iam_go_auth.TotpSecret.{prefix, Crypto, drop, open_raw, decrypt_tagged, encrypt, decrypt}

take-append : (xs ys : List ℕ) → take (length xs) (xs ++ ys) ≡ xs
take-append [] ys = refl
take-append (x ∷ xs) ys = ap (λ zs. x ∷ zs) (take-append xs ys)

drop-append : (xs ys : List ℕ) → drop (length xs) (xs ++ ys) ≡ ys
drop-append [] ys = refl
drop-append (x ∷ xs) ys = drop-append xs ys

long_enough : (xs ys : List ℕ) → ltb (length (xs ++ ys)) (length xs) ≡ false
long_enough [] ys = ground arith
long_enough (x ∷ xs) ys = next (length (xs ++ ys)) (length xs) (long_enough xs ys)
  where
    next : (a b : ℕ) → ltb a b ≡ false → ltb (suc a) (suc b) ≡ false
    next a b h = ground arith

module _ (lib : Crypto) where
  open_raw-seal :
      (key nonce sealed : List ℕ) (plaintext : String)
      → length nonce ≡ lib.nonce_size
      → lib.open_sealed key nonce sealed ≡ some plaintext
      → open_raw lib key (some (nonce ++ sealed)) ≡ some plaintext
  open_raw-seal key nonce sealed plaintext size opens =
      subst
        (λ n.
          (if ltb (length (nonce ++ sealed)) n
            then none
            else lib.open_sealed key (take n (nonce ++ sealed)) (drop n (nonce ++ sealed)))
          ≡ some plaintext)
        size
        (rw (long_enough nonce sealed, take-append nonce sealed, drop-append nonce sealed) opens)

  -- Where encoding/base64 decodes what it encoded, the AEAD opens what it sealed, and the nonce that
  -- was drawn has the size that the AEAD asks for: an encryptor with a key decrypts what it
  -- encrypted, whatever the plaintext.
  pub decrypt-encrypt :
      (key nonce : List ℕ) (plaintext stored : String)
      → lib.base64_decode (lib.base64_encode (nonce ++ lib.seal key nonce plaintext))
        ≡ some (nonce ++ lib.seal key nonce plaintext)
      → lib.open_sealed key nonce (lib.seal key nonce plaintext) ≡ some plaintext
      → length nonce ≡ lib.nonce_size
      → encrypt lib (record { gcm = some key }) (some nonce) plaintext ≡ some stored
      → decrypt lib (record { gcm = some key }) stored ≡ some plaintext
  unfolding encrypt decrypt
  decrypt-encrypt key nonce plaintext stored base64 opens size e =
      let sealed = nonce ++ lib.seal key nonce plaintext in
      subst (λ s. decrypt lib (record { gcm = some key }) s ≡ some plaintext) (same e)
        (ap
            (decrypt_tagged lib (record { gcm = some key })
              (str_append prefix (lib.base64_encode sealed)))
            (strip_prefix-append prefix (lib.base64_encode sealed))
          ∙ ap (open_raw lib key) base64
          ∙ open_raw-seal key nonce (lib.seal key nonce plaintext) plaintext size opens)
    where
      same : {a b : String} → some a ≡ some b → a ≡ b
      same p = cc

  -- Without a key a plaintext is stored as it is, and read back as it is unless it begins with the
  -- tag of the encrypted form: then it is refused.
  pub decrypt-plain :
      (drawn : Option (List ℕ)) (plaintext stored : String)
      → encrypt lib (record { gcm = none }) drawn plaintext ≡ some stored
      → decrypt lib (record { gcm = none }) stored
        ≡ (elim (strip_prefix prefix plaintext) as (λ _. Option String) [
          | none ↦ some plaintext
          | some _ ↦ none
        ])
  unfolding encrypt decrypt
  decrypt-plain drawn plaintext stored e =
      subst
        (λ s.
          decrypt lib (record { gcm = none }) s
          ≡ (elim (strip_prefix prefix plaintext) as (λ _. Option String) [
            | none ↦ some plaintext
            | some _ ↦ none
          ]))
        (same e) (on (strip_prefix prefix plaintext))
    where
      same : {a b : String} → some a ≡ some b → a ≡ b
      same p = cc

      on :
          (o : Option String)
          → decrypt_tagged lib (record { gcm = none }) plaintext o
            ≡ (elim o as (λ _. Option String) [ none ↦ some plaintext | some _ ↦ none ])
      on none = refl
      on (some t) = refl
