-- ===== src/Handler/Login/SecondFactor.antt =====
-- Whoever gets tokens from LoginTotp has shown a token of the first step and a second factor.
use iam_go_auth.Base.{
  ℕ, String, Bool, true, false, not, ◌||◌, ◌&&◌, ◌≡◌, refl, sym, ap, ◌∙◌, ◌⊎◌, inl, inr, Option,
  none, some, List, ◌∷◌, [], ◌++◌, any, find, if◌then◌else◌, str_eq, eq_iff, Bool-cases,
}
use iam_go_auth.Db.Models.{Db, User, RefreshToken}
use iam_go_auth.Db.Query.Laws.{row-snd, one-row}
use iam_go_auth.Db.Users.{has_id, get_user_by_id, reset_login_state}
use iam_go_auth.Db.Tenants.{memberships_of}
use iam_go_auth.Db.Recovery.{code_open}
use iam_go_auth.Db.Recovery.Laws.{consume_recovery_code-Spent}
use iam_go_auth.Jwt.{Claims, parse, only_access, parse_access}
use iam_go_auth.Rpc.{World, ◌>>◌, try}
use iam_go_auth.Rpc.Laws.{
  After, after-pure, after-or_raise, after-bind, after-weaken, after-get_now, after-fail_if,
  after-if,
}
use iam_go_auth.Rpc.Statements.{after-must, after-try, after-exec}
use iam_go_auth.Handler.{AuthHandler, Identity, hash_token}
use iam_go_auth.Handler.Tokens.{TokenPair}
use iam_go_auth.Handler.Login.{
  locked_at, totp_valid, mfa_only, enrolled_secret, spent, try_recovery_code, second_factor,
  issue_after, login_totp,
}
use iam_go_auth.Handler.Login.Failure.{refuse-Frame}
use iam_go_auth.Handler.Login.Sound.{SameTokens, SameTokens-Frame, Session, issue_after-After}

-- The refresh tokens and the memberships are as they were.
pub record Kept (w w' : World) : Type 0 where
  pub tokens : SameTokens w w'
  pub members : (id : ℕ) → memberships_of id w'.db ≡ memberships_of id w.db

Kept-same : {w w' : World} → w'.db ≡ w.db → Kept w w'
Kept-same e = record {
  tokens = ap (λ (d : Db). d.refresh_tokens) e;
  members = λ id. ap (memberships_of id) e;
}

Kept-trans : {u v w : World} → Kept u v → Kept v w → Kept u w
Kept-trans p q = record {
  tokens = q.tokens ∙ p.tokens;
  members = λ id. q.members id ∙ p.members id;
}

module _ (h : AuthHandler) (ctx : Identity) where
  second_factor-After :
      (uid : ℕ) (stored code : String) (w : World)
      → After
          (second_factor h ctx uid stored code)
          w
          (λ passed w'.
            Kept w w'
            × ((passed ≡ true)
                → (totp_valid h ctx w.now code (h.totp.decrypt stored) ≡ true)
                  ⊎ (any (code_open uid (hash_token h code)) w.db.recovery_codes ≡ true)))
          (λ _ _. ⊥)
  unfolding second_factor try_recovery_code spent memberships_of
  second_factor-After uid stored code w = after-bind _ _ _ (
      after-get_now w (
        after-if _ _ _ w (λ valid. after-pure true w (Kept-same refl, λ _. inl valid))
          (λ _. after-bind _ _ _ (
            after-weaken _ w
              (after-exec _ w
                (λ a w1.
                  Kept w w1
                  × ((spent h ctx a ≡ true)
                      → any (code_open uid (hash_token h code)) w.db.recovery_codes ≡ true))
                (λ n w1 ran.
                  let s = consume_recovery_code-Spent _ _ _ _ _ _ ran.answered in
                  (
                    record {
                      tokens = ap (λ (d : Db). d.refresh_tokens) s.change;
                      members = λ id. ap (memberships_of id) s.change;
                    },
                    λ _. s.was_open,
                  ))
                (λ w1 _ m. (Kept-same m.db, λ e. cc)) (λ w1 m. (Kept-same m.db, λ e. cc)))
              (λ a w1 x. after-pure _ w1 (x.0, λ e. inr (x.1 e))) (λ _ _ x. absurd x)))))

  -- What a LoginTotp that ended with a pair shows.
  pub record Confirmed (mfa_token code : String) (w : World) (pair : TokenPair) (w' : World)
      : Type 0 where
    pub claims : Claims
    pub parsed : parse h.jwt_lib h.jwt w.now mfa_token ≡ some claims
    pub purpose : str_eq claims.purpose "mfa" ≡ true
    pub not_access : parse_access h.jwt_lib h.jwt w.now mfa_token ≡ none
    pub uid : ℕ
    pub subject : h.uuid_parse claims.subject ≡ some uid
    pub user : User
    pub known : find (has_id uid) w.db.users ≡ some user
    pub unlocked : locked_at w.now user ≡ false
    pub stored : String
    pub enrolled : enrolled_secret h ctx user ≡ some stored
    pub possession :
        (totp_valid h ctx w.now code (h.totp.decrypt stored) ≡ true)
        ⊎ (any (code_open uid (hash_token h code)) w.db.recovery_codes ≡ true)
    pub session : Session h ctx user w pair w'

  mfa_only-some :
      (o : Option Claims) {c : Claims}
      → mfa_only h ctx o ≡ some c
      → (o ≡ some c) × (str_eq c.purpose "mfa" ≡ true)
  mfa_only-some none e = absurd (cc)
  mfa_only-some (some d) {c} e = elim (Bool-cases (str_eq d.purpose "mfa")) [
    | inl y ↦
        let same = ap (λ b. if b then some d else none) (sym y) ∙ e in
        (same, ap (λ p. str_eq p "mfa") (sym (some_purpose same)) ∙ y)
    | inr n ↦ absurd (no_claims (ap (λ b. if b then some d else none) (sym n) ∙ e))
  ]
    where
      some_purpose : {x y : Claims} → some x ≡ some y → x.purpose ≡ y.purpose
      some_purpose p = cc

      no_claims : {x : Claims} → none ≡ some x → ⊥
      no_claims p = cc

  parse_access-mfa :
      (now : ℕ) (token : String) {c : Claims}
      → parse h.jwt_lib h.jwt now token ≡ some c
      → str_eq c.purpose "mfa" ≡ true
      → parse_access h.jwt_lib h.jwt now token ≡ none
  unfolding parse_access
  parse_access-mfa now token {c} p m =
      ap only_access' p
      ∙ ap refuse_unless (
          ap
            (λ s.
              str_eq s ""
              && not (str_eq c.id "")
              && (str_eq c.token_use "" || str_eq c.token_use "access"))
            ((eq_iff c.purpose "mfa").0 m))
    where
      only_access' : Option Claims → Option Claims
      only_access' = only_access h.jwt_lib

      refuse_unless : Bool → Option Claims
      refuse_unless b = if b then some c else none

  Session-Kept :
      (user : User) (w w1 : World) (pair : TokenPair) (w' : World)
      → Kept w w1
      → Session h ctx user w1 pair w'
      → Session h ctx user w pair w'
  Session-Kept user w w1 pair w' k s = record {
    membership = s.membership;
    others = s.others;
    listed = sym (k.members user.id) ∙ s.listed;
    stored = s.stored;
    hash = s.hash;
    owner = s.owner;
    tenant = s.tenant;
    project = s.project;
    tokens = s.tokens ∙ ap (λ (ts : List RefreshToken). ts ++ s.stored ∷ []) k.tokens;
  }

  -- The last steps, from a world that has kept the tokens and memberships of `w`.
  issued :
      {P : TokenPair → World → Type 0} (uid : ℕ) (user : User) (w w1 : World)
      → Kept w w1
      → ((pair : TokenPair) (w' : World) → Session h ctx user w pair w' → P pair w')
      → After
          (do try (reset_login_state uid); issue_after h ctx user "2fa")
          w1
          P
          (λ _. SameTokens w)
  unfolding reset_login_state memberships_of
  issued {P} uid user w w1 k p = after-bind _ _ _ (
      after-try _ w1
        (λ _ w2 ran. rest w2 (
          Kept-trans k (record {
            tokens = ap (λ (d : Db). d.refresh_tokens) (sym (row-snd ran.answered));
            members = λ id. ap (memberships_of id) (sym (row-snd ran.answered));
          })))
        (λ w2 m. rest w2 (Kept-trans k (Kept-same m.db))))
    where
      rest :
          (w2 : World) → Kept w w2 → After (issue_after h ctx user "2fa") w2 P (λ _. SameTokens w)
      rest w2 k2 =
          after-weaken _ w2 (issue_after-After h ctx user "2fa" w2)
            (λ pair w' x. p pair w' (Session-Kept user w w2 pair w' k2 x.1))
            (λ _ w' x. x ∙ k2.tokens)

  -- Whatever calls fail, a LoginTotp that ends with a pair was shown a valid token of purpose "mfa",
  -- which is never accepted as an access token, and it names a known, unlocked account that is not
  -- deleted and has two-factor authentication on; the code was one of its authenticator or one of
  -- its unused recovery codes; and one refresh token was added, for that user's first tenant. One
  -- that ends with an error has added or changed no refresh token.
  pub login_totp-Confirmed :
      (mfa_token code : String) (w : World)
      → After (login_totp h ctx mfa_token code) w (Confirmed mfa_token code w) (λ _. SameTokens w)
  unfolding login_totp get_user_by_id
  login_totp-Confirmed mfa_token code w = after-bind _ _ _ (
      after-get_now w (
        after-bind _ _ _ (
          after-or_raise _ _ _ w
            (λ claims mfa.
              let (parsed, purpose) = mfa_only-some _ mfa in
              after-bind _ _ _ (
                after-or_raise _ _ _ w
                  (λ uid subject. after-bind _ _ _ (
                    after-must _ _ _ w
                      (λ user w1 ran.
                        let (known, same) = one-row _ _ ran.answered in
                        after-bind _ _ _ (
                          after-or_raise _ _ _ w1
                            (λ stored enrolled. after-bind _ _ _ (
                              after-fail_if _ _ _ w1 (λ _. ap (λ (d : Db). d.refresh_tokens) same)
                                (λ unlocked. after-bind _ _ _ (
                                  after-weaken _ w1 (second_factor-After uid stored code w1)
                                    (λ passed w2 x.
                                      let k = Kept-trans (Kept-same same) x.0 in
                                      after-if _ _ _ w2
                                        (λ yes. issued uid user w w2 k (λ pair w' session. record {
                                          claims = claims;
                                          parsed = parsed;
                                          purpose = purpose;
                                          not_access =
                                              parse_access-mfa w.now mfa_token parsed purpose;
                                          uid = uid;
                                          subject = subject;
                                          user = user;
                                          known = known;
                                          unlocked = unlocked;
                                          stored = stored;
                                          enrolled = enrolled;
                                          possession = elim (x.1 yes) [
                                            | inl v ↦ inl (
                                                ap
                                                  (λ n.
                                                    totp_valid h ctx n code (h.totp.decrypt stored))
                                                  (sym ran.same.now)
                                                ∙ v)
                                            | inr v ↦ inr (
                                                ap
                                                  (λ (d : Db).
                                                    any (code_open uid (hash_token h code))
                                                      d.recovery_codes)
                                                  (sym same)
                                                ∙ v)
                                          ];
                                          session = session;
                                        }))
                                        (λ _.
                                          after-weaken _ w2 (refuse-Frame h ctx user _ _ _ w2)
                                            (λ _ _ y. y) (λ _ w' f. SameTokens-Frame f ∙ k.tokens)))
                                    (λ _ _ y. absurd y)))))
                            (λ _. ap (λ (d : Db). d.refresh_tokens) same)))
                      (λ w1 m. ap (λ (d : Db). d.refresh_tokens) m.db)))
                  (λ _. refl)))
            (λ _. refl))))
