-- ===== src/Handler/Clients/Consent.antt =====
-- A consent that was saved is the one that is read.
use iam_go_auth.Base.{
  ℕ, String, Bool, true, false, ◌≡◌, refl, sym, ap, subst, ◌∙◌, Option, none, some, List, [], ◌∷◌,
  ◌++◌, str_eq_refl, ==_refl, any, find, update_where, find-append_new, arith, if◌then◌else◌,
  Bool-cases, inl, inr,
}
use iam_go_auth.Db.Models.{Db, OauthConsent}
use iam_go_auth.Db.Query.{Answer, row, no_rows, check, one}
use iam_go_auth.Db.Query.Laws.{check-row, row-snd, one-row}
use iam_go_auth.Db.Oauth.{is_consent, get_consent_row, upsert_consent}
use iam_go_auth.Rpc.{World, ◌>>=◌}
use iam_go_auth.Rpc.Laws.{After, after-pure, after-raise, after-or_raise, after-bind, after-weaken}
use iam_go_auth.Rpc.Statements.{after-must, after-exec}
use iam_go_auth.Handler.{AuthHandler}
use iam_go_auth.Handler.Clients.{consent_of, get_consent, save_consent}

-- The scopes that the look-up finds.
abbrev pub scopes_of : Option OauthConsent → Option (List String)
scopes_of none = none
scopes_of (some c) = some c.scopes

updated :
    (user : ℕ) (client : String) (scopes : List String) (now : ℕ) (cs : List OauthConsent)
    → any (is_consent user client) cs ≡ true
    → scopes_of (
        find (is_consent user client) (
          update_where
            (is_consent user client)
            (λ (o : OauthConsent). record o { scopes = scopes; granted_at = now })
            cs))
      ≡ some scopes
unfolding any find update_where
updated user client scopes now [] e = ground arith
updated user client scopes now (c ∷ cs) e = elim (Bool-cases (is_consent user client c)) [
  | inl h ↦ rw h (rw h refl)
  | inr h ↦ rw h (rw h (updated user client scopes now cs (later h)))
]
  where
    later : is_consent user client c ≡ false → any (is_consent user client) cs ≡ true
    later h = ground arith

upsert_consent-scopes :
    (user : ℕ) (client : String) (scopes : List String) (now : ℕ) (db : Db) (x : Unit {0})
    (db' : Db)
    → upsert_consent user client scopes now db ≡ row (x, db')
    → scopes_of (find (is_consent user client) db'.consents) ≡ some scopes
unfolding upsert_consent
upsert_consent-scopes user client scopes now db x db' e =
    split _ (any (is_consent user client) db.consents) refl (check-row _ _ e).1
  where
    c : OauthConsent
    c = record { user_id = user; client_id = client; scopes = scopes; granted_at = now }

    is_own : is_consent user client c ≡ true
    is_own = rw (==_refl user, str_eq_refl client) refl

    split :
        (k b : Bool)
        → any (is_consent user client) db.consents ≡ b
        → ◌≡◌ {A = Answer (Unit {0} × Db)}
            (if b
              then row (
                tt,
                record db {
                  consents =
                      update_where
                        (is_consent user client)
                        (λ (o : OauthConsent). record o { scopes = scopes; granted_at = now })
                        db.consents;
                },
              )
              else check k (row (tt, record db { consents = db.consents ++ c ∷ [] })))
            (row (x, db'))
        → scopes_of (find (is_consent user client) db'.consents) ≡ some scopes
    split k true eb h =
        ap (λ (d : Db). scopes_of (find (is_consent user client) d.consents)) (sym (row-snd h))
        ∙ updated user client scopes now db.consents eb
    split k false eb h =
        ap (λ (d : Db). scopes_of (find (is_consent user client) d.consents))
          (sym (row-snd (check-row _ _ h).1))
        ∙ ap scopes_of (find-append_new (is_consent user client) db.consents c eb is_own)

missing :
    (o : Option OauthConsent) (db : Db) {ss : List String}
    → scopes_of o ≡ some ss
    → one o db ≡ no_rows
    → ⊥
missing none db e h = cc
missing (some c) db e h = cc

module _ (h : AuthHandler) where
  -- Whatever calls fail: where a consent was saved and the consent of that user and client is then
  -- read, both with success, the scopes that are read are those that were saved, whether or not
  -- there was a consent before.
  pub save-get_consent :
      (user_id client_id : String) (scopes : List String) (w : World)
      → After
          (save_consent h user_id client_id scopes >>= λ _. get_consent h user_id client_id)
          w
          (λ read _. read ≡ scopes)
          (λ _ _. Unit {0})
  unfolding save_consent get_consent get_consent_row consent_of
  save-get_consent user_id client_id scopes w = after-bind _ _ _ (
      after-bind _ _ _ (
        after-or_raise _ _ _ w
          (λ uid named. after-bind _ _ _ (
            after-must _ _ _ w
              (λ x w1 ran. after-pure true w1 (
                after-bind _ _ _ (
                  after-or_raise _ _ _ w1
                    (λ uid' again.
                      let saved =
                        subst
                          (λ u.
                            scopes_of (find (is_consent u client_id) w1.db.consents) ≡ some scopes)
                          (same named again)
                          (upsert_consent-scopes uid client_id scopes w.now w.db x w1.db
                            ran.answered) in
                      after-bind _ _ _ (
                        after-weaken _ w1
                          (after-exec (get_consent_row uid' client_id) w1
                            (λ a w2.
                              After (consent_of a) w2 (λ read _. read ≡ scopes) (λ _ _. Unit {0}))
                            (λ c w2 found.
                              after-pure c.scopes w2
                                (read_back _ (one-row _ _ found.answered).0 saved))
                            (λ w2 e _. absurd (missing _ w1.db saved e))
                            (λ w2 _. after-raise _ _ w2 tt))
                          (λ _ _ y. y) (λ _ _ y. absurd y)))
                    (λ _. tt))))
              (λ _ _. tt)))
          (λ _. tt)))
    where
      same : {a b : ℕ} → h.uuid_parse user_id ≡ some a → h.uuid_parse user_id ≡ some b → a ≡ b
      same p q = cc

      read_back :
          (o : Option OauthConsent) {c : OauthConsent}
          → o ≡ some c
          → scopes_of o ≡ some scopes
          → c.scopes ≡ scopes
      read_back none e s = absurd (cc)
      read_back (some c) e s = cc
