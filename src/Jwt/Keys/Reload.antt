-- ===== src/Jwt/Keys/Reload.antt =====
-- A restart finds the keys of the first boot.
use iam_go_auth.Base.{
  ℕ, String, Bool, true, false, ◌≡◌, refl, sym, ap, ap₂, subst, ◌∙◌, Option, some, List, [], ◌∷◌,
  ◌++◌,
}
use iam_go_auth.Db.Models.{Db, OidcSigningKey}
use iam_go_auth.Db.Query.{row}
use iam_go_auth.Db.Query.Laws.{check-row, row-snd}
use iam_go_auth.Db.Oauth.{list_signing_keys, insert_signing_key}
use iam_go_auth.Rpc.{World, pure, ◌>>=◌}
use iam_go_auth.Rpc.Laws.{
  After, after-pure, after-or_raise, after-bind, after-weaken, after-if, after-draw,
}
use iam_go_auth.Rpc.Statements.{after-must}
use iam_go_auth.Rpc.Reads.{after-must_value}
use iam_go_auth.Jwt.{SigningKey}
use iam_go_auth.Jwt.Keys.{
  RsaLib, rsa, KeySet, parse_private_pem, parse_public_pem, private_block, public_block, rsa_key,
  no_keys, generate_rsa, first_boot, load_active, load_inactive, load_row, load_rows, load_found,
  load_keys,
}

key_set : SigningKey → List (String × String) → KeySet
key_set active verifiers = record { active = active; verifiers = verifiers }

module _ (lib : RsaLib) where
  -- What the first boot leaves: the one row of the key that it signs with.
  pub record Stored (ks : KeySet) (keys : List OidcSigningKey) : Type 0 where
    pub key : String
    pub der : String
    pub marshalled : lib.marshal_pkix (lib.public_key key) ≡ some der
    pub signs : ks.active.private ≡ key
    pub verifiers : ks.verifiers ≡ (ks.active.kid, lib.public_key key) ∷ []
    pub stored : OidcSigningKey
    pub kid : stored.kid ≡ ks.active.kid
    pub private_pem : stored.private_pem ≡ lib.pem_encode "RSA PRIVATE KEY" (lib.marshal_pkcs1 key)
    pub public_pem : stored.public_pem ≡ lib.pem_encode "PUBLIC KEY" der
    pub active : stored.active ≡ true
    pub only : keys ≡ stored ∷ []

  insert_signing_key-keys :
      (kid private public : String) (now : ℕ) (db : Db) (x : Unit {0}) (db' : Db)
      → insert_signing_key kid private public now db ≡ row (x, db')
      → (k : OidcSigningKey) × (k.kid ≡ kid)
        × (k.private_pem ≡ private)
        × (k.public_pem ≡ public)
        × (k.active ≡ true)
        × (db'.signing_keys ≡ db.signing_keys ++ k ∷ [])
  unfolding insert_signing_key
  insert_signing_key-keys kid private public now db x db' e = (
    _,
    refl,
    refl,
    refl,
    refl,
    sym (ap (λ (d : Db). d.signing_keys) (row-snd (check-row _ _ e).1)),
  )

  pub first_boot-Stored :
      (w : World)
      → w.db.signing_keys ≡ []
      → After (first_boot lib) w (λ ks w'. Stored ks w'.db.signing_keys) (λ _ _. Unit {0})
  unfolding first_boot generate_rsa
  first_boot-Stored w none_yet = after-bind _ _ _ (
      after-bind _ _ _ (
        after-draw w (λ bytes es. after-bind _ _ _ (
          after-or_raise bytes _ _ _
            (λ b _. after-bind _ _ _ (
              after-or_raise _ _ _ _
                (λ key _. after-bind _ _ _ (
                  after-draw _ (λ o es'. after-bind _ _ _ (
                    after-or_raise o _ _ _
                      (λ kid _. after-bind _ _ _ (
                        after-or_raise _ _ _ _
                          (λ der marshalled. after-pure _ _ (
                            after-bind _ _ _ (
                              after-must _ _ _ _
                                (λ x w1 ran.
                                  let (k, a, b, c, d, only) =
                                    insert_signing_key-keys _ _ _ _ _ x w1.db ran.answered in
                                  after-pure _ w1 (record {
                                    key = key;
                                    der = der;
                                    marshalled = marshalled;
                                    signs = refl;
                                    verifiers = refl;
                                    stored = k;
                                    kid = a;
                                    private_pem = b;
                                    public_pem = c;
                                    active = d;
                                    only = only ∙ ap (λ ks. ks ++ k ∷ []) none_yet;
                                  }))
                                (λ _ _. tt))))
                          (λ _. tt)))
                      (λ _. tt)))))
                (λ _. tt)))
            (λ _. tt)))))

  -- The laws of encoding/pem and crypto/x509: what was encoded is decoded.
  module _ (pem : (type block : String) → lib.pem_decode (lib.pem_encode type block) ≡ some block)
      (pkcs1 : (key : String) → lib.parse_pkcs1 (lib.marshal_pkcs1 key) ≡ some key)
      (pkix : (key der : String)
        → lib.marshal_pkix key ≡ some der
        → lib.parse_pkix der ≡ some (rsa key)) where
    pub public_read :
        (key der text : String)
        → lib.marshal_pkix key ≡ some der
        → text ≡ lib.pem_encode "PUBLIC KEY" der
        → parse_public_pem lib text ≡ some key
    public_read key der text m e =
        ap (public_block lib) (ap lib.pem_decode e ∙ pem "PUBLIC KEY" der)
        ∙ ap (rsa_key lib) (pkix key der m)

    pub private_read :
        (key text : String)
        → text ≡ lib.pem_encode "RSA PRIVATE KEY" (lib.marshal_pkcs1 key)
        → parse_private_pem lib text ≡ some key
    private_read key text e =
        ap (private_block lib) (ap lib.pem_decode e ∙ pem "RSA PRIVATE KEY" (lib.marshal_pkcs1 key))
        ∙ pkcs1 key

    same : {A : Type 0} {o : Option A} {a b : A} → o ≡ some a → o ≡ some b → a ≡ b
    same p q = cc

    load_found-Stored :
        (ks : KeySet) (keys : List OidcSigningKey) (w : World)
        → Stored ks keys
        → After (load_found lib keys) w (λ again _. again ≡ ks) (λ _ _. Unit {0})
    unfolding load_found load_rows load_row load_active key_set
    load_found-Stored ks keys w s =
        subst (λ x. After (load_found lib x) w (λ again _. again ≡ ks) (λ _ _. Unit {0}))
          (sym s.only)
          (after-bind _ _ _ (
            after-bind _ _ _ (
              after-bind _ _ _ (
                after-or_raise _ _ _ w
                  (λ public read.
                    after-if s.stored.active (load_active lib s.stored public (no_keys lib))
                      (load_inactive lib s.stored public (no_keys lib)) w
                      (λ _. after-bind _ _ _ (
                        after-or_raise _ _ _ w
                          (λ private read'. after-pure _ w (
                            after-pure _ w (
                              after-bind _ _ _ (
                                after-or_raise _ _ _ w
                                  (λ active signer. after-pure _ w (
                                    one_set active public private signer
                                      (same read (public_read _ _ _ s.marshalled s.public_pem))
                                      (same read' (private_read _ _ s.private_pem))))
                                  (λ _. tt)))))
                          (λ _. tt)))
                      (λ off. absurd (clash s.active off)))
                  (λ _. tt)))))
      where
        clash : {b : Bool} → b ≡ true → b ≡ false → ⊥
        clash x y = cc

        one_set :
            (active : SigningKey) (public private : String)
            → some (record { kid = s.stored.kid; private = private }) ≡ some active
            → public ≡ lib.public_key s.key
            → private ≡ s.key
            → ◌≡◌ {A = KeySet}
                (record { active = active; verifiers = (s.stored.kid, public) ∷ [] })
                ks
        one_set active public private signer ep er =
            ap₂ (λ (a : SigningKey) (vs : List (String × String)). key_set a vs)
              (same refl (sym signer)
                ∙ ap₂ (λ (k p : String). record { kid = k; private = p }) s.kid (er ∙ sym s.signs))
              (ap₂ (λ (k p : String). (k, p) ∷ []) s.kid ep ∙ sym s.verifiers)

    -- Where the table has no key yet and encoding/pem and crypto/x509 decode what they encoded:
    -- whatever calls fail, if LoadKeys succeeds and, after a restart, succeeds again, it gives the
    -- same signing key and the same verifiers.
    pub load_keys-reload :
        (w : World)
        → w.db.signing_keys ≡ []
        → After
            (load_keys lib >>= λ ks. (load_keys lib >>= λ again. pure (ks, again)))
            w
            (λ (r : KeySet × KeySet) _. r.1 ≡ r.0)
            (λ _ _. Unit {0})
    unfolding load_keys list_signing_keys
    load_keys-reload w none_yet = after-bind _ _ _ (
        after-bind _ _ _ (
          after-must_value list_signing_keys (λ _ (db : Db). db.signing_keys) _ _ w (λ _ _. refl)
            (λ w1 r1.
              subst
                (λ keys.
                  After (load_found lib keys) w1
                    (λ ks w2.
                      After (load_keys lib >>= λ again. pure (ks, again)) w2
                        (λ (r : KeySet × KeySet) _. r.1 ≡ r.0) (λ _ _. Unit {0}))
                    (λ _ _. Unit {0}))
                (sym none_yet)
                (after-weaken _ w1
                  (first_boot-Stored w1 (ap (λ (d : Db). d.signing_keys) r1.db ∙ none_yet))
                  (λ ks w2 s. after-bind _ _ _ (
                    after-bind _ _ _ (
                      after-must_value list_signing_keys (λ _ (db : Db). db.signing_keys) _ _ w2
                        (λ _ _. refl)
                        (λ w3 r3.
                          after-weaken _ w3 (load_found-Stored ks _ w3 s)
                            (λ again w4 e. after-pure _ w4 e) (λ _ _ x. x))
                        (λ _ _. tt))))
                  (λ _ _ x. x)))
            (λ _ _. tt)))
