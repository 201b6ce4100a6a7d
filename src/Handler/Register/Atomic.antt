-- ===== src/Handler/Register/Atomic.antt =====
-- Register writes the user, the membership and the event together, or nothing.
use iam_go_auth.Base.{
  ℕ, ◌+◌, String, true, ◌≡◌, refl, sym, ap, ◌∙◌, Option, none, List, [], ◌∷◌, ◌++◌, any,
}
use iam_go_auth.Db.Models.{Db, User, Membership, Outbox, UserRole}
use iam_go_auth.Db.Query.Laws.{row-snd}
use iam_go_auth.Db.Tenants.{is_membership}
use iam_go_auth.Rpc.{World, M, Status, ◌>>=◌}
use iam_go_auth.Rpc.Laws.{
  After, after-pure, after-or_raise, after-bind, after-weaken, after-fail_if, after-draw,
}
use iam_go_auth.Rpc.Statements.{after-must}
use iam_go_auth.Rpc.Transactions.{Undone, after-in_tx}
use iam_go_auth.Handler.{AuthHandler, Identity, display_from_email}
use iam_go_auth.Handler.Frame.{Frame, after-audit_as}
use iam_go_auth.Handler.Validate.{set_tenant, unset_tenant}
use iam_go_auth.Handler.Register.{register_tx, register, keep_tenant}
use iam_go_auth.Handler.Register.Writes.{
  create_user-Made, assign_role_to_user-roles, create_membership-Made, insert_outbox-Made,
}

-- The tables are those of `w`. What the server has given out of its sequences is not taken back.
pub record Unwritten (w w' : World) : Type 0 where
  pub drawn : ℕ
  pub serial : ℕ
  pub db : w'.db ≡ record w.db { drawn = drawn; next_serial = serial }

pub Unwritten-same : {w w' : World} → w'.db ≡ w.db → Unwritten w w'
Unwritten-same {w} e = record { drawn = w.db.drawn; serial = w.db.next_serial; db = e }

pub after-keep_tenant :
    {A : Type 0} {P : A → World → Type 0} {E : Status → World → Type 0} (m : M A) (w : World)
    → After m w (λ a w1. P a (record w1 { db = record w1.db { app_tenant = w.db.app_tenant } })) E
    → After (keep_tenant m) w P E
unfolding keep_tenant unset_tenant ◌>>=◌
after-keep_tenant m w a = record {
  ends = (after-bind m _ w (after-weaken m w a (λ x w1 p. record { ends = p }) (λ _ _ e. e))).ends;
}

module _ (h : AuthHandler) (ctx : Identity) where
  -- The user, its membership in the default tenant and its event are in the tables.
  pub record Enrolled (email hash : String) (w : World) (user : User) (w' : World) : Type 0 where
    pub email_kept : user.email ≡ email
    pub hashed : user.password_hash ≡ hash
    pub users : w'.db.users ≡ w.db.users ++ user ∷ []
    pub member : any (is_membership user.id h.default_tenant) w'.db.memberships ≡ true
    pub event : Outbox
    pub aggregate : event.aggregate_id ≡ user.id
    pub kind : event.event_type ≡ h.type_user_registered
    pub payload :
        event.payload
        ≡ h.user_registered (h.uuid_string user.id) user.email (display_from_email user.email)
    pub pending : event.published_at ≡ none
    pub outbox : w'.db.outbox ≡ w.db.outbox ++ event ∷ []

  -- From the writes of the five statements, in their order, to the tables after the commit.
  Enrolled-writes :
      (email hash : String) (w : World) (d1 d2 d3 d4 d5 d6 : Db) (w' : World) (user : User)
      (tenant : Option ℕ)
      → d1 ≡ w.db
      → d2 ≡ record d1 { app_tenant = tenant }
      → (user.email ≡ email)
        × (user.password_hash ≡ hash)
        × (d3 ≡ record d2 { users = d2.users ++ user ∷ []; drawn = d2.drawn + 1 })
      → ((rs : List UserRole) × (d4 ≡ record d3 { user_roles = rs }))
      → ((ms : List Membership) × (d5 ≡ record d4 { memberships = ms })
          × (any (is_membership user.id h.default_tenant) ms ≡ true))
      → ((o : Outbox) × (o.aggregate_id ≡ user.id)
          × (o.event_type ≡ h.type_user_registered)
          × (o.payload
              ≡ h.user_registered
                  (h.uuid_string user.id)
                  user.email
                  (display_from_email user.email))
          × (o.published_at ≡ none)
          × (d6 ≡ record d5 { outbox = d5.outbox ++ o ∷ []; drawn = d5.drawn + 1 }))
      → w'.db ≡ d6
      → Enrolled email hash w user w'
  Enrolled-writes email hash w d1 d2 d3 d4 d5 d6 w' user tenant e1 e2 e3 e4 e5 e6 e7 = record {
    email_kept = e3.0;
    hashed = e3.1;
    users =
        ap (λ (d : Db). d.users) (e7 ∙ e6.5)
        ∙ ap (λ (d : Db). d.users) e5.1
        ∙ ap (λ (d : Db). d.users) e4.1
        ∙ ap (λ (d : Db). d.users) e3.2
        ∙ ap (λ (d : Db). d.users ++ user ∷ []) e2
        ∙ ap (λ (d : Db). d.users ++ user ∷ []) e1;
    member =
        ap (λ (d : Db). any (is_membership user.id h.default_tenant) d.memberships) (e7 ∙ e6.5)
        ∙ ap (λ (d : Db). any (is_membership user.id h.default_tenant) d.memberships) e5.1
        ∙ e5.2;
    event = e6.0;
    aggregate = e6.1;
    kind = e6.2;
    payload = e6.3;
    pending = e6.4;
    outbox =
        ap (λ (d : Db). d.outbox) (e7 ∙ e6.5)
        ∙ ap (λ (d : Db). d.outbox ++ e6.0 ∷ []) e5.1
        ∙ ap (λ (d : Db). d.outbox ++ e6.0 ∷ []) e4.1
        ∙ ap (λ (d : Db). d.outbox ++ e6.0 ∷ []) e3.2
        ∙ ap (λ (d : Db). d.outbox ++ e6.0 ∷ []) e2
        ∙ ap (λ (d : Db). d.outbox ++ e6.0 ∷ []) e1;
  }

  register_tx-Enrolled :
      (email hash : String) (w : World)
      → After (register_tx h ctx email hash) w (Enrolled email hash w) (λ _. Unwritten w)
  unfolding register_tx set_tenant
  register_tx-Enrolled email hash w =
      after-in_tx _ _ _ w (λ w' e _. Unwritten-same e)
        (λ w1 b. after-bind _ _ _ (
          after-must _ _ _ w1
            (λ _ w2 tenant_set. after-bind _ _ _ (
              after-must _ _ _ w2
                (λ user w3 created. after-bind _ _ _ (
                  after-must _ _ _ w3
                    (λ _ w4 assigned. after-bind _ _ _ (
                      after-must _ _ _ w4
                        (λ _ w5 joined. after-bind _ _ _ (
                          after-must _ _ _ w5
                            (λ _ w6 queued. after-pure user w6 (
                              λ w' c.
                                  Enrolled-writes email hash w w1.db w2.db w3.db w4.db w5.db w6.db
                                    w' user _ b.db (sym (row-snd tenant_set.answered))
                                    (create_user-Made _ _ _ _ _ _ created.answered)
                                    (assign_role_to_user-roles _ _ _ _ _ _ _ _ assigned.answered)
                                    (create_membership-Made _ _ _ _ _ _ joined.answered)
                                    (insert_outbox-Made _ _ _ _ _ _ _ queued.answered) c.db,
                              λ w' u. undone w6 w' u,
                            ))
                            (λ w6 _ w'. undone w6 w')))
                        (λ w5 _ w'. undone w5 w')))
                    (λ w4 _ w'. undone w4 w')))
                (λ w3 _ w'. undone w3 w')))
            (λ w2 _ w'. undone w2 w')))
    where
      undone : (w2 w' : World) → Undone w.db w2 w' → Unwritten w w'
      undone w2 w' u = record { drawn = w2.db.drawn; serial = w2.db.next_serial; db = u.db }

  -- The audit of the registration adds nothing to the tables that it speaks of.
  Enrolled-audit :
      (email hash : String) (w : World) (es : List String) (user : User) (w1 w2 : World)
      (tenant : Option ℕ)
      → Enrolled email hash (record w { entropy = es }) user w1
      → w2.db.users ≡ w1.db.users
      → Frame (record w1 { db = record w1.db { app_tenant = tenant } }) w2
      → Enrolled email hash w user w2
  Enrolled-audit email hash w es user w1 w2 tenant e users f = record {
    email_kept = e.email_kept;
    hashed = e.hashed;
    users = users ∙ e.users;
    member =
        ap (λ (d : Db). any (is_membership user.id h.default_tenant) d.memberships) f.db ∙ e.member;
    event = e.event;
    aggregate = e.aggregate;
    kind = e.kind;
    payload = e.payload;
    pending = e.pending;
    outbox = ap (λ (d : Db). d.outbox) f.db ∙ e.outbox;
  }

  -- The user of an `Enrolled` whose hash is of the password, and what was answered of it.
  pub record Registered (email password : String) (w : World) (answer : String × String)
      (w' : World) : Type 0 where
    pub user : User
    pub salt : String
    pub enrolled : Enrolled email (h.passwords.hash salt password) w user w'
    pub answered : answer ≡ (h.uuid_string user.id, email)

  -- Whatever calls fail, a registration that succeeds has added the user with the hash of the
  -- password, a membership of the default tenant and one unpublished event that carries the user's
  -- id, address and display name; one that ends with an error has left every table as it was.
  pub register-Registered :
      (email password : String) (w : World)
      → After (register h ctx email password) w (Registered email password w) (λ _. Unwritten w)
  unfolding register
  register-Registered email password w = after-bind _ _ _ (
      after-fail_if _ _ _ w (λ _. Unwritten-same refl)
        (λ _. after-bind _ _ _ (
          after-draw w (λ o es. after-bind _ _ _ (
            after-or_raise o _ _ _
              (λ salt _. after-bind _ _ _ (
                after-keep_tenant _ _ (
                  after-weaken _ _ (register_tx-Enrolled email (h.passwords.hash salt password) _)
                    (λ user w1 e. after-bind _ _ _ (
                      after-audit_as h ctx _ _ _ _ _ _ (λ w2 us f. after-pure _ w2 (record {
                        user = user;
                        salt = salt;
                        enrolled = Enrolled-audit _ _ w es user w1 w2 _ e us f;
                        answered = ap (λ s. (h.uuid_string user.id, s)) e.email_kept;
                      }))))
                    (λ _ _ u. record { drawn = u.drawn; serial = u.serial; db = u.db }))))
              (λ _. Unwritten-same refl))))))
