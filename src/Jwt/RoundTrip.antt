-- ===== src/Jwt/RoundTrip.antt =====
-- The tokens that the manager issues, as it parses them.
use Prim.Native.Nat.{◌%◌}
use iam_go_auth.Base.{
  ℕ, ◌+◌, String, Bool, true, false, ◌≡◌, refl, ap, ◌∙◌, Option, none, some, str_eq, ltb,
  if◌then◌else◌, arith,
}
use iam_go_auth.Jwt.{
  JwtLib, Manager, Claims, Header, second, numeric_date, verifier, key_func, clock_skew_leeway,
  access_claims, mfa_claims, is_access, only_access, issue, issue_mfa, parse, parse_access,
}

-- What golang-jwt promises of a key pair: a token that the private key signed for claims with whole
-- seconds, checked with a key function that gives the public key for its kid and with the issuer of
-- the claims, is accepted with those claims before its expiry and the leeway, and refused from then on.
pub record KeyPair (lib : JwtLib) (private public : String) : Type 0 where
  pub verifies :
      (kid token issuer : String) (c : Claims) (f : Header → Option String)
      (issued expires leeway at : ℕ)
      → lib.sign kid private c ≡ some token
      → f (record { is_rsa = true; kid = kid }) ≡ some public
      → c.issuer ≡ issuer
      → c.issued_at ≡ some issued
      → c.expires_at ≡ some expires
      → issued % second ≡ 0
      → expires % second ≡ 0
      → lib.parse_with_claims f issuer leeway at token
        ≡ (if ltb at (expires + leeway) then some c else none)

whole : (n : ℕ) → numeric_date n % second ≡ 0
whole n = omega arith

only :
    (lib : JwtLib) (b : Bool) (c : Claims)
    → is_access lib c ≡ true
    → only_access lib (if b then some c else none) ≡ (if b then some c else none)
only lib true c e = rw e refl
only lib false c e = refl

never :
    (lib : JwtLib) (b : Bool) (c : Claims)
    → is_access lib c ≡ false
    → only_access lib (if b then some c else none) ≡ none
never lib true c e = rw e refl
never lib false c e = refl

module _ (lib : JwtLib) (m : Manager) where
  -- Where golang-jwt keeps its promise of the manager's signing key and of the public key that the
  -- verifiers have for its kid: an access token with a jti, and a token of the second factor, parse to
  -- the claims that they were issued with, instants cut off to the second, up to their expiry and the
  -- leeway of the clocks, and not from then on; and ParseAccess gives the same for the access token,
  -- but refuses the other at every instant.
  pub parse-issued :
      (public : String) (now at ttl : ℕ) (jti user_id email tenant_id project_id token mfa : String)
      → KeyPair lib m.active.private public
      → verifier m.active.kid m.verifiers ≡ some public
      → str_eq jti "" ≡ false
      → issue lib m now jti user_id email tenant_id project_id ≡ some token
      → issue_mfa lib m now user_id ttl ≡ some mfa
      → (parse_access lib m at token ≡ (
          if ltb at (numeric_date (now + m.access_ttl) + clock_skew_leeway)
          then some (access_claims lib m now jti user_id email tenant_id project_id)
          else none))
        × (parse lib m at mfa ≡ (
            if ltb at (numeric_date (now + ttl) + clock_skew_leeway)
            then some (mfa_claims lib m now user_id ttl)
            else none))
        × (parse_access lib m at mfa ≡ none)
  unfolding issue issue_mfa parse_access parse key_func
  parse-issued public now at ttl jti user_id email tenant_id project_id token mfa pair found has_jti
        issued issued_mfa =
      let first =
        pair.verifies m.active.kid token m.issuer
          (access_claims lib m now jti user_id email tenant_id project_id) (key_func m)
          (numeric_date now) (numeric_date (now + m.access_ttl)) clock_skew_leeway at issued found
          refl refl refl (whole now) (whole (now + m.access_ttl)) in
      let second_factor =
        pair.verifies m.active.kid mfa m.issuer (mfa_claims lib m now user_id ttl) (key_func m)
          (numeric_date now) (numeric_date (now + ttl)) clock_skew_leeway at issued_mfa found refl
          refl refl (whole now) (whole (now + ttl)) in
      (
        ap (only_access lib) first
            ∙ only lib (ltb at (numeric_date (now + m.access_ttl) + clock_skew_leeway))
                (access_claims lib m now jti user_id email tenant_id project_id) (rw has_jti refl),
        second_factor,
        ap (only_access lib) second_factor
            ∙ never lib (ltb at (numeric_date (now + ttl) + clock_skew_leeway))
                (mfa_claims lib m now user_id ttl) refl,
      )
