-- ===== src/Handler/Bootstrap/Once.antt =====
-- Start-up makes an account once.
use iam_go_auth.Base.{
  ℕ, ◌+◌, String, Bool, true, false, ◌||◌, ◌≡◌, sym, ap, ◌∙◌, Option, List, [], ◌∷◌, ◌++◌, str_eq,
  any, any-find, any-append_new, str_eq_refl,
}
use iam_go_auth.Db.Models.{Db, User, Membership, UserRole}
use iam_go_auth.Db.Query.Laws.{one-row, row-snd}
use iam_go_auth.Db.Users.{has_email, get_user_by_email}
use iam_go_auth.Db.Tenants.{is_membership}
use iam_go_auth.Rpc.{World, pure, exec, ◌>>=◌}
use iam_go_auth.Rpc.Laws.{
  After, after-pure, after-raise, after-or_raise, after-bind, after-weaken, after-if, after-draw,
}
use iam_go_auth.Rpc.Statements.{after-must, after-exec}
use iam_go_auth.Rpc.Transactions.{Undone, after-in_tx}
use iam_go_auth.Handler.{AuthHandler}
use iam_go_auth.Handler.Validate.{set_tenant}
use iam_go_auth.Handler.Register.Writes.{
  create_user-Made, assign_role_to_user-roles, create_membership-Made,
}
use iam_go_auth.Handler.Register.Atomic.{Unwritten, Unwritten-same, after-keep_tenant}
use iam_go_auth.Handler.Bootstrap.{bootstrap_tx, make_account, unless_known, bootstrap_account}

module _ (h : AuthHandler) where
  -- The account and its membership of the default tenant were added.
  pub record Made (email password : String) (w w' : World) : Type 0 where
    pub user : User
    pub salt : String
    pub address : user.email ≡ email
    pub hashed : user.password_hash ≡ h.passwords.hash salt password
    pub users : w'.db.users ≡ w.db.users ++ user ∷ []
    pub member : any (is_membership user.id h.default_tenant) w'.db.memberships ≡ true

  Made-writes :
      (email password salt : String) (w : World) (d1 d2 d3 d4 d5 : Db) (w' : World) (user : User)
      (tenant : Option ℕ)
      → d1 ≡ w.db
      → d2 ≡ record d1 { app_tenant = tenant }
      → (user.email ≡ email)
        × (user.password_hash ≡ h.passwords.hash salt password)
        × (d3 ≡ record d2 { users = d2.users ++ user ∷ []; drawn = d2.drawn + 1 })
      → ((rs : List UserRole) × (d4 ≡ record d3 { user_roles = rs }))
      → ((ms : List Membership) × (d5 ≡ record d4 { memberships = ms })
          × (any (is_membership user.id h.default_tenant) ms ≡ true))
      → w'.db ≡ d5
      → Made email password w w'
  Made-writes email password salt w d1 d2 d3 d4 d5 w' user tenant e1 e2 e3 e4 e5 e6 = record {
    user = user;
    salt = salt;
    address = e3.0;
    hashed = e3.1;
    users =
        ap (λ (d : Db). d.users) (e6 ∙ e5.1)
        ∙ ap (λ (d : Db). d.users) e4.1
        ∙ ap (λ (d : Db). d.users) e3.2
        ∙ ap (λ (d : Db). d.users ++ user ∷ []) e2
        ∙ ap (λ (d : Db). d.users ++ user ∷ []) e1;
    member =
        ap (λ (d : Db). any (is_membership user.id h.default_tenant) d.memberships) (e6 ∙ e5.1)
        ∙ e5.2;
  }

  bootstrap_tx-Made :
      (role email password salt : String) (w : World)
      → After
          (bootstrap_tx h role email (h.passwords.hash salt password))
          w
          (λ _. Made email password w)
          (λ _. Unwritten w)
  unfolding bootstrap_tx set_tenant
  bootstrap_tx-Made role email password salt w =
      after-in_tx _ _ _ w (λ w' e _. Unwritten-same e)
        (λ w1 b. after-bind _ _ _ (
          after-must _ _ _ w1
            (λ _ w2 tenant_set. after-bind _ _ _ (
              after-must _ _ _ w2
                (λ user w3 created. after-bind _ _ _ (
                  after-must _ _ _ w3
                    (λ _ w4 assigned.
                      after-must _ _ _ w4
                        (λ _ w5 joined. (
                          (λ w' c.
                              Made-writes email password salt w w1.db w2.db w3.db w4.db w5.db w'
                                user _ b.db (sym (row-snd tenant_set.answered))
                                (create_user-Made _ _ _ _ _ _ created.answered)
                                (assign_role_to_user-roles _ _ _ _ _ _ _ _ assigned.answered)
                                (create_membership-Made _ _ _ _ _ _ joined.answered) c.db),
                          λ w' u. undone w5 w' u,
                        ))
                        (λ w5 _ w'. undone w5 w'))
                    (λ w4 _ w'. undone w4 w')))
                (λ w3 _ w'. undone w3 w')))
            (λ w2 _ w'. undone w2 w')))
    where
      undone : (w2 w' : World) → Undone w.db w2 w' → Unwritten w w'
      undone w2 w' u = record { drawn = w2.db.drawn; serial = w2.db.next_serial; db = u.db }

  -- There is an account with the address: the one that was there, untouched, or a new one.
  pub data Present (email password : String) (w w' : World) : Type 0 where
    was_there : any (has_email email) w.db.users ≡ true → w'.db ≡ w.db → Present email password w w'
    was_made :
        any (has_email email) w'.db.users ≡ true
        → Made email password w w'
        → Present email password w w'

  Made-present :
      (email password : String) (w w' : World)
      → Made email password w w'
      → any (has_email email) w'.db.users ≡ true
  Made-present email password w w' m =
      ap (any (has_email email)) m.users
      ∙ any-append_new (has_email email) w.db.users m.user
          (ap (λ s. str_eq s email) m.address ∙ str_eq_refl email)

  not_empty : (a b : Bool) → (a || b) ≡ true → (a || b) ≡ false → ⊥
  not_empty a b x y = cc

  -- Whatever calls fail, for an address and a password that are set: after a start-up of which
  -- BootstrapAdmin or BootstrapDemo succeeded there is an account with the address; one that was
  -- there is as it was, password included, and no table has changed, and a new one has the hash of
  -- the password and a membership of the default tenant. One that fails has left every table as it
  -- was.
  pub bootstrap_account-Present :
      (role email password : String) (w : World)
      → (str_eq email "" || str_eq password "") ≡ false
      → After
          (bootstrap_account h role email password)
          w
          (λ _. Present email password w)
          (λ _. Unwritten w)
  unfolding bootstrap_account unless_known make_account get_user_by_email
  bootstrap_account-Present role email password w set =
      after-if (str_eq email "" || str_eq password "") (pure tt)
        (do known ← exec (get_user_by_email email); unless_known h role email password known) w
        (λ unset. absurd (not_empty (str_eq email "") (str_eq password "") unset set))
        (λ _. after-bind _ _ _ (
          after-weaken _ w
            (after-exec (get_user_by_email email) w
              (λ known w1.
                After (unless_known h role email password known) w1 (λ _. Present email password w)
                  (λ _. Unwritten w))
              (λ u w1 ran.
                let (hit, kept) = one-row _ _ ran.answered in
                after-pure tt w1 (was_there (any-find (has_email email) w.db.users hit) kept))
              (λ w1 _ m. after-bind _ _ _ (
                after-draw w1 (λ o es. after-bind _ _ _ (
                  after-or_raise o _ _ _
                    (λ salt _. after-keep_tenant _ _ (
                      after-weaken _ _ (bootstrap_tx-Made role email password salt _)
                        (λ _ w2 made. present w1 w2 es m.db made)
                        (λ _ w2 u. record {
                          drawn = u.drawn;
                          serial = u.serial;
                          db =
                              u.db
                              ∙ ap
                                  (λ (d : Db). record d { drawn = u.drawn; next_serial = u.serial })
                                  m.db;
                        })))
                    (λ _. Unwritten-same m.db)))))
              (λ w1 m. after-raise _ _ w1 (Unwritten-same m.db)))
            (λ _ _ x. x) (λ _ _ x. absurd x)))
    where
      present :
          (w1 w2 : World) (es : List String)
          → w1.db ≡ w.db
          → Made email password (record w1 { entropy = es }) w2
          → Present email password w
              (record w2 { db = record w2.db { app_tenant = w1.db.app_tenant } })
      present w1 w2 es e m =
          was_made (Made-present email password (record w1 { entropy = es }) w2 m) (record {
            user = m.user;
            salt = m.salt;
            address = m.address;
            hashed = m.hashed;
            users = m.users ∙ ap (λ (d : Db). d.users ++ m.user ∷ []) e;
            member = m.member;
          })
