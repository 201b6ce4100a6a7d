-- ===== src/Handler/Logout/Revoked.antt =====
-- What a logout ends.
use iam_go_auth.Base.{
  ℕ, String, Bool, true, false, not, ◌&&◌, ◌||◌, ◌≡◌, refl, sym, ap, subst, ◌∙◌, ◌⊎◌, inl, inr,
  Option, none, some, List, [], ◌∷◌, ◌++◌, str_eq, str_eq_refl, any, any-append,
  any-update_where_none, is_some, arith, if◌then◌else◌,
}
use iam_go_auth.Db.Models.{Db, RefreshToken, RevokedToken}
use iam_go_auth.Db.Query.{Answer, row, no_rows, failed}
use iam_go_auth.Db.Query.Laws.{row-snd}
use iam_go_auth.Db.Tokens.{has_hash, has_jti, revoke_refresh_token, revoke_access_jti}
use iam_go_auth.Jwt.{Claims, parse}
use iam_go_auth.Cache.Laws.{after-deny}
use iam_go_auth.Rpc.{World, Status}
use iam_go_auth.Rpc.Laws.{After, after-pure, after-bind, after-if, after-weaken, after-get_now}
use iam_go_auth.Rpc.Statements.{Calm, Calm-Ran, after-must, after-try}
use iam_go_auth.Handler.{AuthHandler, Identity, audit, hash_token}
use iam_go_auth.Handler.Frame.{Frame, after-audit_as}
use iam_go_auth.Handler.Logout.{deny_jti, deny_claims, deny_access, logout}

-- A token with the hash that is not revoked.
abbrev pub active_hash : String → RefreshToken → Bool
active_hash hash t = has_hash hash t && not (is_some t.revoked_at)

last : (b : Bool) {c : Bool} → c ≡ true → (b || (c || false)) ≡ true
last b e = ground arith

-- After RevokeAccessJTI the jti is in the table, and the refresh tokens are as they were.
revoke_access_jti-Listed :
    (jti : String) (expires now : ℕ) (db : Db) (x : Unit {0}) (db' : Db)
    → revoke_access_jti jti expires now db ≡ row (x, db')
    → (any (has_jti jti) db'.revoked_tokens ≡ true) × (db'.refresh_tokens ≡ db.refresh_tokens)
unfolding revoke_access_jti any
revoke_access_jti-Listed jti expires now db x db' e =
    on (any (has_jti jti) db.revoked_tokens) refl e
  where
    r : RevokedToken
    r = record { jti = jti; expires_at = expires; revoked_at = now }

    on :
        (b : Bool)
        → any (has_jti jti) db.revoked_tokens ≡ b
        → ◌≡◌ {A = Answer (Unit {0} × Db)}
            (if b
              then row (tt, db)
              else row (tt, record db { revoked_tokens = db.revoked_tokens ++ r ∷ [] }))
            (row (x, db'))
        → (any (has_jti jti) db'.revoked_tokens ≡ true) × (db'.refresh_tokens ≡ db.refresh_tokens)
    on true listed h = (
      ap (λ (d : Db). any (has_jti jti) d.revoked_tokens) (sym (row-snd h)) ∙ listed,
      ap (λ (d : Db). d.refresh_tokens) (sym (row-snd h)),
    )
    on false _ h = (
      ap (λ (d : Db). any (has_jti jti) d.revoked_tokens) (sym (row-snd h))
          ∙ any-append (has_jti jti) db.revoked_tokens (r ∷ [])
          ∙ last (any (has_jti jti) db.revoked_tokens) (str_eq_refl jti),
      ap (λ (d : Db). d.refresh_tokens) (sym (row-snd h)),
    )

module _ (h : AuthHandler) (ctx : Identity) where
  -- The jti of the claims, if there is one and they expire, is in the table of revoked tokens.
  abbrev pub Listed : Option Claims → World → Type 0
  Listed none w = Unit
  Listed (some c) w =
      (is_some c.expires_at ≡ false)
      ⊎ (str_eq c.id "" ≡ true)
      ⊎ (any (has_jti c.id) w.db.revoked_tokens ≡ true)

  -- What a logout that succeeded shows.
  pub record LoggedOut (refresh_token access_token : String) (w w' : World) : Type 0 where
    pub session : any (active_hash (hash_token h refresh_token)) w'.db.refresh_tokens ≡ false
    pub access :
        (str_eq access_token "" ≡ true) ⊎ Listed (parse h.jwt_lib h.jwt w.now access_token) w'

  Listed-Frame : (o : Option Claims) (w w' : World) → Frame w w' → Listed o w → Listed o w'
  Listed-Frame none w w' f x = tt
  Listed-Frame (some c) w w' f x =
      subst
        (λ (ts : List RevokedToken).
          (is_some c.expires_at ≡ false) ⊎ (str_eq c.id "" ≡ true) ⊎ (any (has_jti c.id) ts ≡ true))
        (sym (ap (λ (d : Db). d.revoked_tokens) f.db)) x

  deny_jti-Listed :
      {E : Status → World → Type 0} (now : ℕ) (jti : String) (o : Option ℕ) (w : World)
      → Calm w
      → After
          (deny_jti h ctx now jti o)
          w
          (λ _ w'.
            ((is_some o ≡ false)
              ⊎ (str_eq jti "" ≡ true)
              ⊎ (any (has_jti jti) w'.db.revoked_tokens ≡ true))
            × (w'.db.refresh_tokens ≡ w.db.refresh_tokens))
          E
  unfolding deny_jti revoke_access_jti
  deny_jti-Listed now jti none w calm = after-pure tt w (inl refl, refl)
  deny_jti-Listed now jti (some expires) w calm =
      after-if _ _ _ w (λ empty. after-pure tt w (inr (inl empty), refl))
        (λ _. after-bind _ _ _ (
          after-try (revoke_access_jti jti expires) w
            (λ x w1 ran.
              let listed = revoke_access_jti-Listed jti expires w.now w.db x w1.db ran.answered in
              after-deny h.cache jti _ w1 (λ w2 u. (
                inr (inr (ap (λ (d : Db). any (has_jti jti) d.revoked_tokens) u.db ∙ listed.0)),
                ap (λ (d : Db). d.refresh_tokens) u.db ∙ listed.1,
              )))
            (λ w1 m. absurd (no_miss _ (any (has_jti jti) w.db.revoked_tokens) (m.cause calm)))))
    where
      no_miss :
          (d : Db) (b : Bool)
          → let x : Answer (Unit {0} × Db) = if b then row (tt, w.db) else row (tt, d) in
            (x ≡ no_rows) ⊎ (x ≡ failed) → ⊥
      no_miss d true (inl e) = cc
      no_miss d true (inr e) = cc
      no_miss d false (inl e) = cc
      no_miss d false (inr e) = cc

  deny_claims-Listed :
      {E : Status → World → Type 0} (now : ℕ) (o : Option Claims) (w : World)
      → Calm w
      → After
          (deny_claims h ctx now o)
          w
          (λ _ w'. Listed o w' × (w'.db.refresh_tokens ≡ w.db.refresh_tokens))
          E
  unfolding deny_claims
  deny_claims-Listed now none w calm = after-pure tt w (tt, refl)
  deny_claims-Listed now (some c) w calm = deny_jti-Listed now c.id c.expires_at w calm

  -- Where no call fails, a logout that succeeds leaves no active refresh token with the hash of the
  -- presented one; and the jti of the presented access token, where there is one that parses, has an
  -- id and expires, is in the table of revoked tokens.
  pub logout-LoggedOut :
      (refresh_token access_token : String) (w : World)
      → Calm w
      → After
          (logout h ctx refresh_token access_token)
          w
          (λ _. LoggedOut refresh_token access_token w)
          (λ _ _. Unit {0})
  unfolding logout deny_access revoke_refresh_token audit
  logout-LoggedOut refresh_token access_token w calm = after-bind _ _ _ (
      after-must _ _ _ w
        (λ _ w1 ran.
          let session =
            ap (λ (d : Db). any (active_hash (hash_token h refresh_token)) d.refresh_tokens)
              (sym (row-snd ran.answered))
            ∙ any-update_where_none (active_hash (hash_token h refresh_token)) _ (λ x. ground arith)
                w.db.refresh_tokens in
          after-bind _ _ _ (
            after-if _ _ _ w1
              (λ empty. after-pure tt w1 (
                after-bind _ _ _ (
                  after-audit_as h ctx _ _ _ _ _ w1 (λ w2 _ f. after-pure true w2 (record {
                    session =
                        ap
                          (λ (d : Db).
                            any (active_hash (hash_token h refresh_token)) d.refresh_tokens)
                          f.db
                        ∙ session;
                    access = inl empty;
                  })))))
              (λ _. after-bind _ _ _ (
                after-get_now w1 (
                  after-weaken _ w1
                    (deny_claims-Listed w1.now (parse h.jwt_lib h.jwt w1.now access_token) w1
                      (Calm-Ran ran calm))
                    (λ _ w2 x. after-bind _ _ _ (
                      after-audit_as h ctx _ _ _ _ _ w2 (λ w3 _ f. after-pure true w3 (record {
                        session =
                            ap
                              (λ (d : Db).
                                any (active_hash (hash_token h refresh_token)) d.refresh_tokens)
                              f.db
                            ∙ ap (any (active_hash (hash_token h refresh_token))) x.1
                            ∙ session;
                        access = inr (
                            subst (λ n. Listed (parse h.jwt_lib h.jwt n access_token) w3)
                              ran.same.now (Listed-Frame _ w2 w3 f x.0));
                      }))))
                    (λ _ _ x. x))))))
        (λ _ _. tt))
