-- ===== src/Handler/Refresh/Rotation.antt =====
-- What Refresh does with a token that is active, rotated or revoked.
use iam_go_auth.Base.{
  ℕ, ◌+◌, String, Bool, true, false, not, ◌&&◌, ◌≡◌, refl, sym, ap, ap₂, ◌∙◌, ◌⊎◌, inl, inr, Option,
  none, some, List, [], ◌∷◌, ◌++◌, is_some, subst, ltb, any, find, update_where,
  any-update_where_none, arith,
}
use iam_go_auth.Db.Models.{Db, User, RefreshToken}
use iam_go_auth.Db.Query.Laws.{row-snd, one-row, one-missed}
use iam_go_auth.Db.Users.{has_id, get_user_by_id}
use iam_go_auth.Db.Tokens.{
  has_hash, belongs_to, rotate, get_refresh_token, revoke_all_user_refresh_tokens,
  rotate_refresh_token,
}
use iam_go_auth.Rpc.{World, Status}
use iam_go_auth.Rpc.Laws.{
  After, after-pure, after-raise, after-bind, after-weaken, after-get_now, after-fail_if, after-if,
}
use iam_go_auth.Rpc.Statements.{Calm, Calm-Ran, after-must, after-try}
use iam_go_auth.Handler.{AuthHandler, Identity, hash_token}
use iam_go_auth.Handler.Frame.{after-audit_as}
use iam_go_auth.Jwt.{issue}
use iam_go_auth.Handler.Tokens.{TokenPair, project_string}
use iam_go_auth.Handler.Tokens.Laws.{Issued, issue_tokens-Issued}
use iam_go_auth.Handler.Refresh.{
  in_grace, reissue, reuse_detected, rotate_active, refresh_row, refresh,
}

-- A token of the user that is not revoked.
abbrev pub live_of : ℕ → RefreshToken → Bool
live_of user t = belongs_to user t && not (is_some t.revoked_at)

module _ (h : AuthHandler) (ctx : Identity) where
  -- The token table once the one with the hash was presented and the pair issued: with the new row, and the presented
  -- one marked as rotated to it.
  abbrev pub rotated_table : String → RefreshToken → TokenPair → World → List RefreshToken
  rotated_table hash stored pair w =
      update_where (λ x. has_hash hash x && not (is_some x.revoked_at))
        (rotate w.now (some (hash_token h pair.refresh_token))) (w.db.refresh_tokens ++ stored ∷ [])

  -- The token table with the pair's row, and nothing else, added.
  abbrev pub added_table : RefreshToken → World → List RefreshToken
  added_table stored w = w.db.refresh_tokens ++ stored ∷ []

  -- What the pair that replaces the presented token `t` is bound to.
  pub record Replaced (t : RefreshToken) (w : World) (pair : TokenPair) : Type 0 where
    pub user : User
    pub known : find (has_id t.user_id) w.db.users ≡ some user
    pub jti : String
    pub signed :
        issue h.jwt_lib h.jwt w.now jti
          (h.uuid_string user.id)
          user.email
          (h.uuid_string t.tenant_id)
          (project_string h t.project_id)
        ≡ some pair.access_token
    pub stored : RefreshToken
    pub hash : stored.token_hash ≡ hash_token h pair.refresh_token
    pub owner : stored.user_id ≡ user.id
    pub tenant : stored.tenant_id ≡ t.tenant_id
    pub project : stored.project_id ≡ t.project_id
    pub active : stored.revoked_at ≡ none
    pub expires : stored.expires_at ≡ w.now + h.refresh_ttl

  -- The tables of a refresh of an active token: as above, unless a call failed.
  abbrev pub Rotated : String → RefreshToken → TokenPair → World → World → Type 0
  Rotated hash stored pair w w' =
      (w'.db.refresh_tokens ≡ rotated_table hash stored pair w)
      ⊎ ((w'.db.refresh_tokens ≡ added_table stored w) × ¬ Calm w)

  Replaced-Issued :
      (t : RefreshToken) (user : User) (w w1 : World) (pair : TokenPair) (w' : World)
      → find (has_id t.user_id) w.db.users ≡ some user
      → w1.now ≡ w.now
      → (i : Issued h user.id user.email t.tenant_id t.project_id w1.now w1.db pair w')
      → Replaced t w pair
  Replaced-Issued t user w w1 pair w' known now i = record {
    user = user;
    known = known;
    jti = i.jti;
    signed =
        subst
          (λ n.
            issue h.jwt_lib h.jwt n i.jti (h.uuid_string user.id) user.email
              (h.uuid_string t.tenant_id) (project_string h t.project_id)
            ≡ some pair.access_token)
          now i.signed;
    stored = i.stored;
    hash = i.created.hash;
    owner = i.created.user;
    tenant = i.created.tenant;
    project = i.created.project;
    active = i.created.open_token;
    expires = i.created.expires ∙ ap (λ n. n + h.refresh_ttl) now;
  }

  -- Every active token of the user has been revoked, unless a call failed.
  reuse_detected-Revoked :
      {P : TokenPair → World → Type 0} (t : RefreshToken) (w : World)
      → After
          (reuse_detected h ctx t)
          w
          P
          (λ _ w'. Calm w → any (live_of t.user_id) w'.db.refresh_tokens ≡ false)
  unfolding reuse_detected revoke_all_user_refresh_tokens
  reuse_detected-Revoked t w = after-bind _ _ _ (
      after-try _ w
        (λ _ w1 ran. after-bind _ _ _ (
          after-audit_as h ctx _ _ _ _ _ w1 (λ w2 _ f. after-raise _ _ w2 (λ _.
            ap (λ (d : Db). any (live_of t.user_id) d.refresh_tokens) f.db
            ∙ ap (λ (d : Db). any (live_of t.user_id) d.refresh_tokens) (sym (row-snd ran.answered))
            ∙ any-update_where_none (live_of t.user_id) _ (λ x. ground arith)
                w.db.refresh_tokens))))
        (λ w1 m. after-bind _ _ _ (
          after-audit_as h ctx _ _ _ _ _ w1 (λ w2 _ f.
            after-raise _ _ w2 (λ c. absurd (elim (m.cause c) [ inl e ↦ cc | inr e ↦ cc ]))))))

  reissue-Replaced :
      {E : Status → World → Type 0} (t : RefreshToken) (w w0 : World)
      → w.db ≡ w0.db
      → w.now ≡ w0.now
      → ((s : Status) (w' : World) → E s w')
      → After
          (reissue h ctx t)
          w
          (λ pair w'. (r : Replaced t w0 pair) × (w'.db.refresh_tokens ≡ added_table r.stored w0))
          E
  unfolding reissue get_user_by_id Replaced-Issued
  reissue-Replaced t w w0 db now e = after-bind _ _ _ (
      after-must _ _ _ w
        (λ user w1 ran.
          after-weaken _ w1 (issue_tokens-Issued h user.id user.email t.tenant_id t.project_id w1)
            (λ pair w' i. (
              Replaced-Issued t user w0 w1 pair w'
                  (ap (λ (d : Db). find (has_id t.user_id) d.users) (sym db)
                    ∙ (one-row _ _ ran.answered).0)
                  (ran.same.now ∙ now) i.0,
              i.0.created.tokens
                  ∙ ap (λ (d : Db). d.refresh_tokens ++ i.0.stored ∷ [])
                      ((one-row _ _ ran.answered).1 ∙ db),
            ))
            (λ s w' _. e s w'))
        (λ w1 _. e _ w1))

  rotate_active-After :
      {E : Status → World → Type 0} (hash : String) (t : RefreshToken) (w w0 : World)
      → w.db ≡ w0.db
      → w.now ≡ w0.now
      → (Calm w0 → Calm w)
      → ((s : Status) (w' : World) → E s w')
      → After
          (rotate_active h ctx hash w.now t)
          w
          (λ pair w'.
            (ltb t.expires_at w0.now ≡ false)
            × (r : Replaced t w0 pair) × Rotated hash r.stored pair w0 w')
          E
  unfolding rotate_active get_user_by_id rotate_refresh_token Replaced-Issued
  rotate_active-After hash t w w0 db now calm e = after-bind _ _ _ (
      after-fail_if _ _ _ w (λ _. e _ w)
        (λ valid. after-bind _ _ _ (
          after-must _ _ _ w
            (λ user w1 ran.
              let (known, same) = one-row _ _ ran.answered in
              after-bind _ _ _ (
                after-weaken _ w1
                  (issue_tokens-Issued h user.id user.email t.tenant_id t.project_id w1)
                  (λ pair w2 i.
                    let r =
                      Replaced-Issued t user w0 w1 pair w2
                        (ap (λ (d : Db). find (has_id t.user_id) d.users) (sym db) ∙ known)
                        (ran.same.now ∙ now) i.0 in
                    after-bind _ _ _ (
                      after-try _ w2
                        (λ _ w3 last. after-pure _ w3 (
                          ap (λ n. ltb t.expires_at n) (sym now) ∙ valid,
                          r,
                          inl (
                              ap (λ (d : Db). d.refresh_tokens) (sym (row-snd last.answered))
                              ∙ ap₂
                                  (λ n ts.
                                    update_where
                                      (λ x. has_hash hash x && not (is_some x.revoked_at))
                                      (rotate n (some (hash_token h pair.refresh_token))) ts)
                                  (i.0.clock ∙ ran.same.now ∙ now)
                                  (i.0.created.tokens
                                    ∙ ap (λ (d : Db). d.refresh_tokens ++ i.0.stored ∷ [])
                                        (same ∙ db))),
                        ))
                        (λ w3 m. after-pure _ w3 (
                          ap (λ n. ltb t.expires_at n) (sym now) ∙ valid,
                          r,
                          inr (
                            ap (λ (d : Db). d.refresh_tokens) m.db
                                ∙ i.0.created.tokens
                                ∙ ap (λ (d : Db). d.refresh_tokens ++ i.0.stored ∷ []) (same ∙ db),
                            λ c. elim (m.cause (i.1 (Calm-Ran ran (calm c)))) [
                              | inl x ↦ cc
                              | inr x ↦ cc
                            ],
                          ),
                        ))))
                  (λ s w' _. e s w')))
            (λ w1 _. e _ w1))))

  -- The presented token, and what the pair is.
  pub record Outcome (token : String) (w : World) (pair : TokenPair) (w' : World) : Type 0 where
    pub presented : RefreshToken
    pub found : find (has_hash (hash_token h token)) w.db.refresh_tokens ≡ some presented
    pub replaced : Replaced presented w pair
    pub admitted :
        (presented.revoked_at ≡ none)
          × (ltb presented.expires_at w.now ≡ false)
          × Rotated (hash_token h token) replaced.stored pair w w'
        ⊎ (at : ℕ) × (presented.revoked_at ≡ some at)
          × (in_grace w.now at presented ≡ true)
          × (w'.db.refresh_tokens ≡ added_table replaced.stored w)

  -- A token that is revoked, and not within the grace of a rotation.
  abbrev pub Stale : String → World → RefreshToken → Type 0
  Stale token w t =
      (find (has_hash (hash_token h token)) w.db.refresh_tokens ≡ some t)
      × (at : ℕ) × (t.revoked_at ≡ some at)
      × (in_grace w.now at t ≡ false)

  pub same_row : {o : Option RefreshToken} {t y : RefreshToken} → o ≡ some t → o ≡ some y → t ≡ y
  same_row p q = cc

  pub not_active :
      {t y : RefreshToken} {at : ℕ} → t ≡ y → t.revoked_at ≡ none → y.revoked_at ≡ some at → ⊥
  not_active same p q = cc (ap (λ (x : RefreshToken). x.revoked_at) same)

  pub not_in_grace :
      {t y : RefreshToken} {at at' : ℕ} (now : ℕ)
      → t ≡ y
      → t.revoked_at ≡ some at
      → y.revoked_at ≡ some at'
      → in_grace now at t ≡ true
      → in_grace now at' y ≡ false
      → ⊥
  not_in_grace {t} {y} {at} {at'} now same p q g n =
      let e : at ≡ at' = cc (ap (λ (x : RefreshToken). x.revoked_at) same) in
      cc (ap₂ (λ x a. in_grace now a x) same e)

  refresh_row-After :
      (token : String) (t : RefreshToken) (revoked : Option ℕ) (w w0 : World)
      → t.revoked_at ≡ revoked
      → find (has_hash (hash_token h token)) w0.db.refresh_tokens ≡ some t
      → w.db ≡ w0.db
      → w.now ≡ w0.now
      → (Calm w0 → Calm w)
      → After (refresh_row h ctx (hash_token h token) w.now t revoked) w (Outcome token w0) (λ _ w'.
        (x : RefreshToken)
        → Stale token w0 x
        → Calm w0
        → any (live_of x.user_id) w'.db.refresh_tokens ≡ false)
  unfolding refresh_row
  refresh_row-After token t none w w0 e found db now calm =
      after-weaken _ w
        (rotate_active-After {E = λ _ _. Unit} (hash_token h token) t w w0 db now calm (λ _ _. tt))
        (λ pair w' x. record {
          presented = t;
          found = found;
          replaced = x.1;
          admitted = inl (e, x.0, x.2);
        })
        (λ _ w' _ y stale _. absurd (not_active (same_row found stale.0) e stale.2))
  refresh_row-After token t (some at) w w0 e found db now calm =
      after-if _ _ _ w
        (λ grace.
          let grace0 = ap (λ n. in_grace n at t) (sym now) ∙ grace in
          after-weaken _ w (reissue-Replaced {E = λ _ _. Unit} t w w0 db now (λ _ _. tt))
            (λ pair w' r. record {
              presented = t;
              found = found;
              replaced = r.0;
              admitted = inr (at, e, grace0, r.1);
            })
            (λ _ w' _ y stale _.
              absurd (not_in_grace w0.now (same_row found stale.0) e stale.2 grace0 stale.3)))
        (λ _.
          after-weaken _ w (reuse_detected-Revoked t w) (λ _ _ r. r)
            (λ _ w' revoked y stale c.
              ap (λ (x : RefreshToken). any (live_of x.user_id) w'.db.refresh_tokens)
                (sym (same_row found stale.0))
              ∙ revoked (calm c)))

  -- Both ends of a refresh at once; the properties are taken from it.
  pub refresh-Outcome :
      (token : String) (w : World)
      → After (refresh h ctx token) w (Outcome token w) (λ _ w'.
        (t : RefreshToken)
        → Stale token w t
        → Calm w
        → any (live_of t.user_id) w'.db.refresh_tokens ≡ false)
  unfolding refresh get_refresh_token
  refresh-Outcome token w = after-bind _ _ _ (
      after-must _ _ _ w
        (λ t w1 ran.
          let (found, same) = one-row _ _ ran.answered in
          after-bind _ _ _ (
            after-get_now w1 (
              refresh_row-After token t t.revoked_at w1 w refl found same ran.same.now
                (Calm-Ran ran))))
        (λ w1 m t stale c. absurd (one-missed _ _ stale.0 (m.cause c))))
