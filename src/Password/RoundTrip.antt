-- ===== src/Password/RoundTrip.antt =====
-- What Hash stores is what Verify reads.
use iam_go_auth.Base.{
  ℕ, String, Bool, true, false, not, ◌&&◌, ◌≡◌, refl, sym, ap, ap₂, ◌∙◌, ◌↔◌, inl, inr, some, List,
  [], ◌∷◌, length, str_append, append_nil, append_cons, append_assoc, ==_iff, &&-true, Bool-cases,
  ◌⊎◌, ◌≢◌, decimal, digits, arith,
}
use iam_go_auth.Password.{
  Argon2, version, argon_memory, argon_time, argon_threads, argon_key_len, header, is_dollar, push,
  split, scan_version, scan_params, bytes_eq, with_parts, with_version, with_params, encode,
  compare_key, with_key, hash, verify,
}

-- The base64 alphabet has no dollar sign.
abbrev pub no_dollar : String → Bool
no_dollar String.[] = true
no_dollar (String.◌∷◌ c s) = not (is_dollar c) && no_dollar s

not-true : (b : Bool) → not b ≡ true → b ≡ false
not-true b h = ground arith

split_last : (p : String) → no_dollar p ≡ true → split p ≡ p ∷ []
unfolding split
split_last String.[] h = refl
split_last (String.◌∷◌ c p) h =
    rw (not-true (is_dollar c) (&&-true _ _ h).0) (ap (push c) (split_last p (&&-true _ _ h).1))

split_field :
    (p s : String) → no_dollar p ≡ true → split (str_append p (str_append "$" s)) ≡ p ∷ split s
unfolding split
split_field String.[] s h =
    ap split (append_nil _ ∙ append_cons "$" "" s ∙ ap (String.◌∷◌ "$") (append_nil s))
split_field (String.◌∷◌ c p) s h =
    ap split (append_cons c p (str_append "$" s))
    ∙ next (not-true (is_dollar c) (&&-true _ _ h).0) (split_field p s (&&-true _ _ h).1)
  where
    next :
        is_dollar c ≡ false
        → split (str_append p (str_append "$" s)) ≡ p ∷ split s
        → split (String.◌∷◌ c (str_append p (str_append "$" s))) ≡ String.◌∷◌ c p ∷ split s
    next e rest = rw e (ap (push c) rest)

-- A field of a text that more is appended to.
split_front :
    (p q s : String)
    → no_dollar p ≡ true
    → split (str_append (str_append p (str_append "$" q)) s) ≡ p ∷ split (str_append q s)
split_front p q s h =
    ap split (append_assoc p (str_append "$" q) s ∙ ap (str_append p) (append_assoc "$" q s))
    ∙ split_field p (str_append q s) h

header_fields :
    header
    ≡ str_append "" (
        str_append "$" (
          str_append "argon2id" (
            str_append "$" (
              str_append "v=19"
                (str_append "$" (str_append "m=19456,t=2,p=1" (str_append "$" "")))))))
unfolding header decimal digits
header_fields = refl

split_stored :
    (salt key : String)
    → no_dollar salt ≡ true
    → no_dollar key ≡ true
    → split (str_append header (str_append salt (str_append "$" key)))
      ≡ "" ∷ "argon2id" ∷ "v=19" ∷ "m=19456,t=2,p=1" ∷ salt ∷ key ∷ []
split_stored salt key hs hk =
    ap (λ t. split (str_append t rest)) header_fields
    ∙ split_front "" _ rest refl
    ∙ ap (λ ps. "" ∷ ps)
        (split_front "argon2id" _ rest refl
          ∙ ap (λ ps. "argon2id" ∷ ps)
              (split_front "v=19" _ rest refl
                ∙ ap (λ ps. "v=19" ∷ ps)
                    (split_front "m=19456,t=2,p=1" "" rest refl
                      ∙ ap (λ ps. "m=19456,t=2,p=1" ∷ ps)
                          (ap split (append_nil rest)
                            ∙ split_field salt key hs
                            ∙ ap (λ ps. salt ∷ ps) (split_last key hk)))))
  where
    rest : String
    rest = str_append salt (str_append "$" key)

version_scanned : scan_version "v=19" ≡ some (false, version)
unfolding scan_version
version_scanned = refl

params_scanned : scan_params "m=19456,t=2,p=1" ≡ some (argon_memory, argon_time, argon_threads)
unfolding scan_params
params_scanned = refl

bytes_eq_iff : (xs ys : List ℕ) → (bytes_eq xs ys ≡ true) ↔ (xs ≡ ys)
unfolding bytes_eq
bytes_eq_iff [] [] = (λ _. refl, λ _. refl)
bytes_eq_iff [] (y ∷ ys) = (λ e. ground arith, λ e. cc)
bytes_eq_iff (x ∷ xs) [] = (λ e. ground arith, λ e. cc)
bytes_eq_iff (x ∷ xs) (y ∷ ys) = (
  λ e.
      ap₂ (λ a as_. a ∷ as_) ((==_iff x y).0 (&&-true _ _ e).0)
        ((bytes_eq_iff xs ys).0 (&&-true _ _ e).1),
  λ e. rw ((==_iff x y).1 (heads e)) ((bytes_eq_iff xs ys).1 (tails e)),
)
  where
    heads : x ∷ xs ≡ y ∷ ys → x ≡ y
    heads e = cc

    tails : x ∷ xs ≡ y ∷ ys → xs ≡ ys
    tails e = cc

module _ (lib : Argon2) where
  clash : {b : Bool} → b ≡ false → b ≡ true → ⊥
  clash e f = ground arith

  some_injective : {a b : String} → some a ≡ some b → a ≡ b
  some_injective e = cc

  -- Where encoding/base64 reads back the salt and the key that it wrote, without a dollar sign in
  -- their texts, and argon2 gives the key `key` of 32 bytes to the password and `got` to an attempt
  -- under the parameters of Hash: Verify of what Hash stored and the attempt answers, and answers
  -- yes exactly where the two keys are the same.
  pub verify-hash :
      (salt key got : List ℕ) (plain attempt stored : String)
      → lib.base64_decode (lib.base64_encode salt) ≡ some salt
      → lib.base64_decode (lib.base64_encode key) ≡ some key
      → no_dollar (lib.base64_encode salt) ≡ true
      → no_dollar (lib.base64_encode key) ≡ true
      → lib.id_key plain salt argon_time argon_memory argon_threads argon_key_len ≡ some key
      → length key ≡ argon_key_len
      → lib.id_key attempt salt argon_time argon_memory argon_threads argon_key_len ≡ some got
      → hash lib (some salt) plain ≡ some stored
      → (verify lib stored attempt ≡ some true × got ≡ key)
        ⊎ (verify lib stored attempt ≡ some false × got ≢ key)
  unfolding hash verify
  verify-hash salt key got plain attempt stored dec_salt dec_key free_salt free_key made size tried
        e =
      elim (Bool-cases (bytes_eq got key)) [
        | inl same ↦ inl (answer ∙ ap some same, (bytes_eq_iff got key).0 same)
        | inr other ↦ inr (answer ∙ ap some other, λ p. clash other ((bytes_eq_iff got key).1 p))
      ]
    where
      answer : verify lib stored attempt ≡ some (bytes_eq got key)
      answer =
          ap (λ t. with_parts lib attempt (split t))
            (sym (some_injective (sym (ap (encode lib salt) made) ∙ e)))
          ∙ ap (with_parts lib attempt)
              (split_stored (lib.base64_encode salt) (lib.base64_encode key) free_salt free_key)
          ∙ ap
              (λ v.
                with_version lib attempt v "m=19456,t=2,p=1" (lib.base64_encode salt)
                  (lib.base64_encode key))
              version_scanned
          ∙ ap (λ ps. with_params lib attempt ps (lib.base64_encode salt) (lib.base64_encode key))
              params_scanned
          ∙ ap₂ (with_key lib attempt (argon_memory, argon_time, argon_threads)) dec_salt dec_key
          ∙ ap
              (λ n.
                compare_key lib key
                  (lib.id_key attempt salt argon_time argon_memory argon_threads n))
              size
          ∙ ap (compare_key lib key) tried
