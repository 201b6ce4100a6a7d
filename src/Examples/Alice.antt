-- ===== src/Examples/Alice.antt =====
-- The tokens of one user, under a library that signs no others.
use iam_go_auth.Base.{
  ℕ, ◌+◌, ◌*◌, ◌&&◌, Bool, Option, sym, subst, ap, ◌∙◌, inl, inr, same_option, ==_iff, eq_iff,
  &&-true, ltb, true, false, ◌⊎◌, String, none, some, ◌≡◌, refl, str_eq, if◌then◌else◌,
}
use iam_go_auth.Jwt.{JwtLib, Claims, second, access_claims, mfa_claims}
use iam_go_auth.Jwt.RoundTrip.{KeyPair}
use iam_go_auth.Examples.Installation.{now, jwt_lib, handler}

-- A library that signs the two tokens of alice, and verifies them by the clock.
abbrev pub access_alice : Claims
access_alice = access_claims jwt_lib handler.jwt now "jti" "1" "alice@acme" "7" ""

abbrev pub mfa_alice : Claims
mfa_alice = mfa_claims jwt_lib handler.jwt now "1" (300 * second)

abbrev same_claims : Claims → Claims → Bool
same_claims a b =
    str_eq a.email b.email
    && (str_eq a.token_use b.token_use
        && (str_eq a.purpose b.purpose
            && (str_eq a.tenant_id b.tenant_id
                && (str_eq a.project_id b.project_id
                    && (str_eq a.id b.id
                        && (str_eq a.subject b.subject
                            && (str_eq a.issuer b.issuer
                                && (same_option a.issued_at b.issued_at
                                    && same_option a.expires_at b.expires_at))))))))

same_option_sound : (a b : Option ℕ) → same_option a b ≡ true → a ≡ b
same_option_sound none none e = refl
same_option_sound none (some y) e = cc
same_option_sound (some x) none e = cc
same_option_sound (some x) (some y) e = ap some ((==_iff x y).0 e)

same_text : (x y : String) (rest : Bool) → (str_eq x y && rest) ≡ true → (x ≡ y) × (rest ≡ true)
same_text x y rest e =
    ((eq_iff x y).0 (&&-true (str_eq x y) rest e).0, (&&-true (str_eq x y) rest e).1)

same_claims_sound : (a b : Claims) → same_claims a b ≡ true → a ≡ b
same_claims_sound a b e =
    let e1 = same_text a.email b.email _ e in
    let e2 = same_text a.token_use b.token_use _ e1.1 in
    let e3 = same_text a.purpose b.purpose _ e2.1 in
    let e4 = same_text a.tenant_id b.tenant_id _ e3.1 in
    let e5 = same_text a.project_id b.project_id _ e4.1 in
    let e6 = same_text a.id b.id _ e5.1 in
    let e7 = same_text a.subject b.subject _ e6.1 in
    let e8 = same_text a.issuer b.issuer _ e7.1 in
    let e9 = &&-true (same_option a.issued_at b.issued_at) _ e8.1 in
    λ i. record {
      email = e1.0 i;
      token_use = e2.0 i;
      purpose = e3.0 i;
      tenant_id = e4.0 i;
      project_id = e5.0 i;
      id = e6.0 i;
      subject = e7.0 i;
      issuer = e8.0 i;
      issued_at = same_option_sound a.issued_at b.issued_at e9.0 i;
      expires_at = same_option_sound a.expires_at b.expires_at e9.1 i;
    }

abbrev until : Option ℕ → ℕ → ℕ → Claims → Option Claims
until none leeway at c = none
until (some expires) leeway at c = if ltb at (expires + leeway) then some c else none

abbrev checked : Option String → String → ℕ → ℕ → Claims → Option Claims
checked none issuer leeway at c = none
checked (some public) issuer leeway at c =
    if str_eq public "public" && str_eq c.issuer issuer
    then until c.expires_at leeway at c
    else none

abbrev pub verifying : JwtLib
verifying = record jwt_lib {
  sign = λ kid key c.
      if str_eq kid "k1"
      then if same_claims c access_alice
        then some "access"
        else if same_claims c mfa_alice
        then some "mfa"
        else none
      else none;
  parse_with_claims = λ f issuer leeway at token.
      if str_eq token "access"
      then checked (f (record { is_rsa = true; kid = "k1" })) issuer leeway at access_alice
      else if str_eq token "mfa"
      then checked (f (record { is_rsa = true; kid = "k1" })) issuer leeway at mfa_alice
      else none;
}

-- What it says of a token of either.
verdict :
    (o : Option String) (c : Claims) (issuer : String) (expires leeway at : ℕ)
    → o ≡ some "public"
    → c.issuer ≡ issuer
    → c.expires_at ≡ some expires
    → checked o issuer leeway at c ≡ (if ltb at (expires + leeway) then some c else none)
verdict o c issuer expires leeway at key named e =
    ap (λ k. checked k issuer leeway at c) key
    ∙ rw ((eq_iff c.issuer issuer).1 named) (ap (λ x. until x leeway at c) e)

text_of_some : {a b : String} → some a ≡ some b → b ≡ a
text_of_some e = cc

-- Which of the two it has signed.
signed_as :
    (a b c : Bool) (token : String)
    → (if a then (if b then some "access" else if c then some "mfa" else none) else none)
      ≡ some token
    → (a ≡ true) × ((b ≡ true × token ≡ "access") ⊎ (c ≡ true × token ≡ "mfa"))
signed_as true true c token e = (refl, inl (refl, text_of_some e))
signed_as true false true token e = (refl, inr (refl, text_of_some e))
signed_as true false false token e = cc
signed_as false b c token e = cc

pub key_pair : KeyPair verifying "key" "public"
key_pair = record {
  verifies = λ kid token issuer c f issued expires leeway at signed key named i e wi we.
      let x =
        signed_as (str_eq kid "k1") (same_claims c access_alice) (same_claims c mfa_alice) token
          signed in
      let key' =
        ap (λ k. f (record { is_rsa = true; kid = k })) (sym ((eq_iff kid "k1").0 x.0)) ∙ key in
      let by : (alice : Claims)
          → c ≡ alice
          → checked (f (record { is_rsa = true; kid = "k1" })) issuer leeway at alice
            ≡ (if ltb at (expires + leeway) then some c else none) =
        λ alice same.
          subst
            (λ (d : Claims).
              checked (f (record { is_rsa = true; kid = "k1" })) issuer leeway at d
              ≡ (if ltb at (expires + leeway) then some c else none))
            same (verdict _ c issuer expires leeway at key' named e) in
      elim x.1 [
        | inl y ↦
            ap (λ t. verifying.parse_with_claims f issuer leeway at t) y.1
            ∙ by access_alice (same_claims_sound c access_alice y.0)
        | inr y ↦
            ap (λ t. verifying.parse_with_claims f issuer leeway at t) y.1
            ∙ by mfa_alice (same_claims_sound c mfa_alice y.0)
      ];
}
