-- ===== src/Handler/Account/Sessions.antt =====
-- A new password: who may set it, and what it ends.
use iam_go_auth.Base.{
  not-false, ℕ, String, Bool, true, false, ◌≡◌, refl, sym, ap, ap₂, ◌∙◌, some, List, ltb, any, find,
  update_where, any-update_where_none, byte_length, arith, inl, inr,
}
use iam_go_auth.Db.Models.{Db, User, PasswordReset}
use iam_go_auth.Db.Query.{row, wrote}
use iam_go_auth.Db.Query.Laws.{row-fst, row-snd, one-row, returning-row}
use iam_go_auth.Db.Users.{has_id, get_user_by_id, update_password}
use iam_go_auth.Db.Tokens.{revoke_all_user_refresh_tokens}
use iam_go_auth.Db.Recovery.{reset_open, consume_password_reset}
use iam_go_auth.Rpc.{World, Status, ◌>>◌, must, try, pure, internal}
use iam_go_auth.Rpc.Laws.{After, after-pure, after-or_raise, after-bind, after-fail_if, after-draw}
use iam_go_auth.Rpc.Statements.{Calm, Calm-Ran, after-must, after-try}
use iam_go_auth.Handler.{AuthHandler, Identity, audit_as, caller_id, hash_token}
use iam_go_auth.Handler.Frame.{after-audit_as}
use iam_go_auth.Handler.Refresh.Rotation.{live_of}
use iam_go_auth.Handler.Account.{reset_password, change_password}

-- What ConsumePasswordReset did, where it gave a user.
pub record Consumed (hash : String) (now : ℕ) (db : Db) (user : ℕ) (db' : Db) : Type 0 where
  pub reset : PasswordReset
  pub found : find (reset_open hash now) db.password_resets ≡ some reset
  pub owner : reset.user_id ≡ user
  pub spent : any (reset_open hash now) db'.password_resets ≡ false
  pub users : db'.users ≡ db.users
  pub tokens : db'.refresh_tokens ≡ db.refresh_tokens

pub consume_password_reset-Consumed :
    (hash : String) (now : ℕ) (db : Db) (user : ℕ) (db' : Db)
    → consume_password_reset hash now db ≡ row (user, db')
    → Consumed hash now db user db'
unfolding consume_password_reset
consume_password_reset-Consumed hash now db user db' e =
    let (r, found, e') =
      returning-row {B = PasswordReset} (find (reset_open hash now) db.password_resets)
        (λ r. wrote r.user_id (record db {
          password_resets =
              update_where (reset_open hash now)
                (λ (o : PasswordReset). record o { consumed_at = some now }) db.password_resets;
        }))
        e in
    record {
      reset = r;
      found = found;
      owner = row-fst e';
      spent =
          ap (λ (d : Db). any (reset_open hash now) d.password_resets) (sym (row-snd e'))
          ∙ any-update_where_none (reset_open hash now) _ (λ x. ground arith) db.password_resets;
      users = ap (λ (d : Db). d.users) (sym (row-snd e'));
      tokens = ap (λ (d : Db). d.refresh_tokens) (sym (row-snd e'));
    }

-- Neither a user nor a refresh token has been added, removed or changed.
pub record Untouched (w w' : World) : Type 0 where
  pub users : w'.db.users ≡ w.db.users
  pub tokens : w'.db.refresh_tokens ≡ w.db.refresh_tokens

Calm-draw : {w : World} → Calm w → (es : List String) → Calm (record w { entropy = es })
Calm-draw c es = record { no_faults = c.no_faults; accepting = c.accepting }

module _ (h : AuthHandler) (ctx : Identity) where
  -- The rows with the user's id have the new hash, and the user no active refresh token.
  pub record Replaced (user : ℕ) (password : String) (w w' : World) : Type 0 where
    pub salt : String
    pub users :
        w'.db.users
        ≡ update_where
            (has_id user)
            (λ u. record u { password_hash = h.passwords.hash salt password; updated_at = w.now })
            w.db.users
    pub signed_out : any (live_of user) w'.db.refresh_tokens ≡ false

  -- The tail that ResetPassword and ChangePassword share, where nothing fails.
  Replaced-tail :
      {P : Bool → World → Type 0} {E : Status → World → Type 0} (user : ℕ) (salt password : String)
      (w0 w : World) (actor email action : String)
      → Calm w
      → w.db.users ≡ w0.db.users
      → w.now ≡ w0.now
      → ((w' : World)
          → w'.db.password_resets ≡ w.db.password_resets
          → Replaced user password w0 w'
          → P true w')
      → ((s : Status) (w' : World) → w'.db ≡ w.db → E s w')
      → After
          (do
            must
                (update_password user (h.passwords.hash salt password))
                internal
                "failed to update password"
            try (revoke_all_user_refresh_tokens user)
            audit_as h ctx actor email action "" ""
            pure true)
          w
          P
          E
  unfolding update_password revoke_all_user_refresh_tokens
  Replaced-tail user salt password w0 w actor email action calm users now p e = after-bind _ _ _ (
      after-must _ _ _ w
        (λ _ w1 changed. after-bind _ _ _ (
          after-try _ w1
            (λ _ w2 revoked. after-bind _ _ _ (
              after-audit_as h ctx _ _ _ _ _ w2 (λ w3 same f. after-pure true w3 (
                p w3
                  (ap (λ (d : Db). d.password_resets) f.db
                    ∙ ap (λ (d : Db). d.password_resets) (sym (row-snd revoked.answered))
                    ∙ ap (λ (d : Db). d.password_resets) (sym (row-snd changed.answered)))
                  (record {
                    salt = salt;
                    users =
                        same
                        ∙ ap (λ (d : Db). d.users) (sym (row-snd revoked.answered))
                        ∙ ap (λ (d : Db). d.users) (sym (row-snd changed.answered))
                        ∙ ap₂
                            (λ n us.
                              update_where (has_id user)
                                (λ u. record u {
                                  password_hash = h.passwords.hash salt password;
                                  updated_at = n;
                                })
                                us)
                            now users;
                    signed_out =
                        ap (λ (d : Db). any (live_of user) d.refresh_tokens) f.db
                        ∙ ap (λ (d : Db). any (live_of user) d.refresh_tokens)
                            (sym (row-snd revoked.answered))
                        ∙ any-update_where_none (live_of user) _ (λ x. ground arith)
                            w1.db.refresh_tokens;
                  })))))
            (λ w2 m. absurd (elim (m.cause (Calm-Ran changed calm)) [ inl x ↦ cc | inr x ↦ cc ]))))
        (λ w1 m. e _ w1 m.db))

  -- What a successful ResetPassword shows.
  pub record Reset (token password : String) (w w' : World) : Type 0 where
    pub long : ltb (byte_length password) 8 ≡ false
    pub reset : PasswordReset
    pub found : find (reset_open (hash_token h token) w.now) w.db.password_resets ≡ some reset
    pub spent : any (reset_open (hash_token h token) w.now) w'.db.password_resets ≡ false
    pub replaced : Replaced reset.user_id password w w'

  -- Where no call fails, a reset that succeeds was shown a token that was open and belongs to the
  -- user, has spent it so that none with its hash is open, has set the new password for that user
  -- alone and has left that user no active refresh token; one that ends with an error has changed no
  -- user and no refresh token.
  pub reset_password-Reset :
      (token password : String) (w : World)
      → Calm w
      → After
          (reset_password h ctx token password)
          w
          (λ _. Reset token password w)
          (λ _. Untouched w)
  unfolding reset_password
  reset_password-Reset token password w calm = after-bind _ _ _ (
      after-fail_if _ _ _ w (λ _. record { users = refl; tokens = refl })
        (λ long. after-bind _ _ _ (
          after-must _ _ _ w
            (λ user w1 ran.
              let c = consume_password_reset-Consumed _ _ _ _ _ ran.answered in
              after-bind _ _ _ (
                after-draw w1 (λ o es. after-bind _ _ _ (
                  after-or_raise o _ _ _
                    (λ salt _.
                      Replaced-tail user salt password w (record w1 { entropy = es }) _ _ _
                        (Calm-draw (Calm-Ran ran calm) es) c.users ran.same.now
                        (λ w' kept r. record {
                          long = long;
                          reset = c.reset;
                          found = c.found;
                          spent = ap (any (reset_open (hash_token h token) w.now)) kept ∙ c.spent;
                          replaced = rw c.owner r;
                        })
                        (λ _ w' same. record {
                          users = ap (λ (d : Db). d.users) same ∙ c.users;
                          tokens = ap (λ (d : Db). d.refresh_tokens) same ∙ c.tokens;
                        }))
                    (λ _. record { users = c.users; tokens = c.tokens })))))
            (λ w1 m. record {
              users = ap (λ (d : Db). d.users) m.db;
              tokens = ap (λ (d : Db). d.refresh_tokens) m.db;
            }))))

  -- What a successful ChangePassword shows.
  pub record Changed (old_password password : String) (w w' : World) : Type 0 where
    pub long : ltb (byte_length password) 8 ≡ false
    pub uid : ℕ
    pub caller : h.uuid_parse ctx.user_id ≡ some uid
    pub user : User
    pub known : find (has_id uid) w.db.users ≡ some user
    pub verified : h.passwords.verify user.password_hash old_password ≡ true
    pub replaced : Replaced uid password w w'

  -- Where no call fails, a change of password that succeeds was made by a known caller who gave the
  -- current password, has set the new one for that user alone and has left that user no active
  -- refresh token; one that ends with an error has changed no user and no refresh token.
  pub change_password-Changed :
      (old_password password : String) (w : World)
      → Calm w
      → After
          (change_password h ctx old_password password)
          w
          (λ _. Changed old_password password w)
          (λ _. Untouched w)
  unfolding change_password caller_id get_user_by_id
  change_password-Changed old_password password w calm = after-bind _ _ _ (
      after-or_raise _ _ _ w
        (λ uid caller. after-bind _ _ _ (
          after-fail_if _ _ _ w (λ _. record { users = refl; tokens = refl })
            (λ long. after-bind _ _ _ (
              after-must _ _ _ w
                (λ user w1 ran.
                  let (known, same) = one-row _ _ ran.answered in
                  after-bind _ _ _ (
                    after-fail_if _ _ _ w1 (λ _. untouched w1 same)
                      (λ verified. after-bind _ _ _ (
                        after-draw w1 (λ o es. after-bind _ _ _ (
                          after-or_raise o _ _ _
                            (λ salt _.
                              Replaced-tail uid salt password w (record w1 { entropy = es }) _ _ _
                                (Calm-draw (Calm-Ran ran calm) es) (ap (λ (d : Db). d.users) same)
                                ran.same.now
                                (λ w' _ r. record {
                                  long = long;
                                  uid = uid;
                                  caller = caller;
                                  user = user;
                                  known = known;
                                  verified = not-false _ verified;
                                  replaced = r;
                                })
                                (λ _ w' e. untouched w' (e ∙ same)))
                            (λ _. untouched _ same)))))))
                (λ w1 m. untouched w1 m.db)))))
        (λ _. untouched w refl))
    where
      untouched : (w' : World) → w'.db ≡ w.db → Untouched w w'
      untouched w' e = record {
        users = ap (λ (d : Db). d.users) e;
        tokens = ap (λ (d : Db). d.refresh_tokens) e;
      }
