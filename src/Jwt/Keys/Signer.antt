-- ===== src/Jwt/Keys/Signer.antt =====
-- The tokens that are signed can be verified: the kid of the signing key leads to its public key.
use iam_go_auth.Base.{
  String, Bool, false, ◌||◌, ◌≡◌, refl, sym, ap, subst, ◌∙◌, Option, none, some, List, [], ◌∷◌, All,
  any, str_eq, str_eq_refl, arith,
}
use iam_go_auth.Db.Models.{Db, OidcSigningKey}
use iam_go_auth.Db.Oauth.{list_signing_keys}
use iam_go_auth.Rpc.{World}
use iam_go_auth.Rpc.Laws.{After, after-pure, after-or_raise, after-bind, after-weaken, after-if}
use iam_go_auth.Rpc.Reads.{after-must_value}
use iam_go_auth.Jwt.{SigningKey, verifier}
use iam_go_auth.Jwt.Keys.{
  RsaLib, rsa, KeySet, Loaded, no_keys, parse_private_pem, parse_public_pem, load_active,
  load_inactive, load_row, load_rows, load_found, load_keys,
}
use iam_go_auth.Jwt.Keys.Reload.{Stored, first_boot-Stored, public_read, private_read}

abbrev pub has_kid : String → OidcSigningKey → Bool
has_kid kid k = str_eq k.kid kid

-- The kid is the primary key of the table.
abbrev pub Distinct : List OidcSigningKey → Type 0
Distinct [] = Unit
Distinct (k ∷ ks) = (any (has_kid k.kid) ks ≡ false) × Distinct ks

module _ (lib : RsaLib) where
  -- The public key is that of the private one, if that can be read.
  abbrev pub Pair : Option String → Option String → Type 0
  Pair none public = Unit
  Pair (some private) public = public ≡ some (lib.public_key private)

  -- The two PEM texts of a row belong together.
  abbrev pub Paired : OidcSigningKey → Type 0
  Paired k = Pair (parse_private_pem lib k.private_pem) (parse_public_pem lib k.public_pem)

  -- The verifier that the kid of the signing key selects is the public key of the signing key.
  abbrev pub Verifiable : SigningKey → List (String × String) → Type 0
  Verifiable s vs = verifier s.kid vs ≡ some (lib.public_key s.private)

  -- That, of the signing key if it has been met, and no row that is left has its kid.
  abbrev SignerKnown : Option SigningKey → List (String × String) → List OidcSigningKey → Type 0
  SignerKnown none vs rs = Unit
  SignerKnown (some s) vs rs = Verifiable s vs × (any (has_kid s.kid) rs ≡ false)

  kept :
      (o : Option SigningKey) (r : OidcSigningKey) (public : String) (vs : List (String × String))
      (rs : List OidcSigningKey)
      → SignerKnown o vs (r ∷ rs)
      → SignerKnown o ((r.kid, public) ∷ vs) rs
  unfolding verifier any
  kept none r public vs rs k = tt
  kept (some s) r public vs rs k = (
    rw (left (str_eq r.kid s.kid) (any (has_kid s.kid) rs) k.1) k.0,
    right (str_eq r.kid s.kid) _ k.1,
  )
    where
      left : (a b : Bool) → (a || b) ≡ false → a ≡ false
      left a b e = ground arith

      right : (a b : Bool) → (a || b) ≡ false → b ≡ false
      right a b e = ground arith

  met :
      (r : OidcSigningKey) (private public : String) (vs : List (String × String))
      → Paired r
      → parse_private_pem lib r.private_pem ≡ some private
      → parse_public_pem lib r.public_pem ≡ some public
      → Verifiable (record { kid = r.kid; private = private }) ((r.kid, public) ∷ vs)
  unfolding verifier
  met r private public vs p a b =
      rw (str_eq_refl r.kid) (sym b ∙ subst (λ o. Pair o (parse_public_pem lib r.public_pem)) a p)

  load_row-Known :
      (r : OidcSigningKey) (rs : List OidcSigningKey) (ks : Loaded) (w : World)
      → Paired r
      → any (has_kid r.kid) rs ≡ false
      → SignerKnown ks.signer ks.verifiers (r ∷ rs)
      → After
          (load_row lib r ks)
          w
          (λ next w'. (w'.db ≡ w.db) × SignerKnown next.signer next.verifiers rs)
          (λ _ _. Unit {0})
  unfolding load_row load_active
  load_row-Known r rs ks w paired other known = after-bind _ _ _ (
      after-or_raise _ _ _ w
        (λ public read.
          after-if r.active (load_active lib r public ks) (load_inactive lib r public ks) w
            (λ _. after-bind _ _ _ (
              after-or_raise _ _ _ w
                (λ private read'.
                  after-pure _ w
                    (refl, (met r private public ks.verifiers paired read' read, other)))
                (λ _. tt)))
            (λ _. after-pure _ w (refl, kept ks.signer r public ks.verifiers rs known)))
        (λ _. tt))

  load_rows-Known :
      (rs : List OidcSigningKey) (ks : Loaded) (w : World)
      → All Paired rs
      → Distinct rs
      → SignerKnown ks.signer ks.verifiers rs
      → After
          (load_rows lib rs ks)
          w
          (λ next w'. (w'.db ≡ w.db) × SignerKnown next.signer next.verifiers [])
          (λ _ _. Unit {0})
  unfolding load_rows
  load_rows-Known [] ks w paired distinct known = after-pure ks w (refl, known)
  load_rows-Known (r ∷ rs) ks w paired distinct known = after-bind _ _ _ (
      after-weaken _ w (load_row-Known r rs ks w paired.0 distinct.0 known)
        (λ next w1 k.
          after-weaken _ w1 (load_rows-Known rs next w1 paired.1 distinct.1 k.1)
            (λ _ w2 x. (x.0 ∙ k.0, x.1)) (λ _ _ x. x))
        (λ _ _ x. x))

  -- What LoadKeys leaves: the signing key can be verified with, and the rows are pairs still.
  abbrev pub Known : KeySet → World → Type 0
  Known ks w =
      Verifiable ks.active ks.verifiers × All Paired w.db.signing_keys × Distinct w.db.signing_keys

  -- The laws of encoding/pem and crypto/x509: what was encoded is decoded.
  module _ (pem : (type block : String) → lib.pem_decode (lib.pem_encode type block) ≡ some block)
      (pkcs1 : (key : String) → lib.parse_pkcs1 (lib.marshal_pkcs1 key) ≡ some key)
      (pkix : (key der : String)
        → lib.marshal_pkix key ≡ some der
        → lib.parse_pkix der ≡ some (rsa key)) where
    Stored-Known : (ks : KeySet) (w : World) → Stored lib ks w.db.signing_keys → Known ks w
    unfolding verifier any
    Stored-Known ks w s = (
      subst (λ vs. Verifiable ks.active vs) (sym s.verifiers)
          (rw (str_eq_refl ks.active.kid) (ap (λ k. some (lib.public_key k)) (sym s.signs))),
      subst (λ l. All Paired l) (sym s.only)
          (
            subst (λ o. Pair o (parse_public_pem lib s.stored.public_pem))
                (sym (private_read lib pem pkcs1 pkix s.key s.stored.private_pem s.private_pem))
                (public_read lib pem pkcs1 pkix (lib.public_key s.key) s.der s.stored.public_pem
                  s.marshalled s.public_pem),
            tt,
          ),
      subst (λ l. Distinct l) (sym s.only) (refl, tt),
    )

    load_found-Known :
        (rs : List OidcSigningKey) (w : World)
        → w.db.signing_keys ≡ rs
        → All Paired rs
        → Distinct rs
        → After (load_found lib rs) w Known (λ _ _. Unit {0})
    unfolding load_found
    load_found-Known [] w e paired distinct =
        after-weaken _ w (first_boot-Stored lib w e) (λ ks w1 s. Stored-Known ks w1 s) (λ _ _ x. x)
    load_found-Known (r ∷ rs) w e paired distinct = after-bind _ _ _ (
        after-weaken _ w (load_rows-Known (r ∷ rs) (no_keys lib) w paired distinct tt)
          (λ ks w1 known. after-bind _ _ _ (
            after-or_raise ks.signer _ _ w1
              (λ active signer.
                let same = ap (λ (d : Db). d.signing_keys) known.0 ∙ e in
                after-pure _ w1 (
                  (subst (λ o. SignerKnown o ks.verifiers []) signer known.1).0,
                  subst (λ l. All Paired l) (sym same) paired,
                  subst (λ l. Distinct l) (sym same) distinct,
                ))
              (λ _. tt)))
          (λ _ _ x. x))

    -- Where encoding/pem and crypto/x509 decode what they encoded, the kids of the rows are distinct,
    -- and the private and the public PEM text of each row belong to one key: whatever calls fail, if
    -- LoadKeys succeeds, then the verifier that the kid of the signing key selects is the public key
    -- of the signing key, and the rows, with the one of a first boot, are distinct pairs still.
    pub load_keys-Known :
        (w : World)
        → All Paired w.db.signing_keys
        → Distinct w.db.signing_keys
        → After (load_keys lib) w Known (λ _ _. Unit {0})
    unfolding load_keys list_signing_keys
    load_keys-Known w paired distinct = after-bind _ _ _ (
        after-must_value list_signing_keys (λ _ (db : Db). db.signing_keys) _ _ w (λ _ _. refl)
          (λ w1 r1.
            load_found-Known w.db.signing_keys w1 (ap (λ (d : Db). d.signing_keys) r1.db) paired
              distinct)
          (λ _ _. tt))
