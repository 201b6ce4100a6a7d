-- ===== src/Handler/Register/Writes.antt =====
-- What the statements of a registration write.
use iam_go_auth.Base.{
  ℕ, ◌+◌, String, Bool, true, false, ◌||◌, ◌≡◌, refl, sym, ap, ◌∙◌, Option, none, List, [], ◌∷◌,
  ◌++◌, any, any-append, arith, if◌then◌else◌,
}
use iam_go_auth.Db.Models.{Db, User, Membership, Outbox, UserRole}
use iam_go_auth.Db.Query.{Answer, row, check}
use iam_go_auth.Db.Query.Laws.{check-row, row-fst, row-snd}
use iam_go_auth.Db.Users.{create_user}
use iam_go_auth.Db.Tenants.{is_membership, create_membership}
use iam_go_auth.Db.Roles.{assign_role_to_user}
use iam_go_auth.Db.Roles.Laws.{insert_user_role-RoleGiven, RoleGiven-frame}
use iam_go_auth.Db.Log.{insert_outbox}

-- The rows that the statements of a registration have written.
pub create_user-Made :
    (email hash : String) (now : ℕ) (db : Db) (u : User) (db' : Db)
    → create_user email hash now db ≡ row (u, db')
    → (u.email ≡ email)
      × (u.password_hash ≡ hash)
      × (db' ≡ record db { users = db.users ++ u ∷ []; drawn = db.drawn + 1 })
unfolding create_user
create_user-Made email hash now db u db' e =
    let (_, wrote') = check-row _ _ e in
    let eu = row-fst wrote' in
    (
      sym (ap (λ (x : User). x.email) eu),
      sym (ap (λ (x : User). x.password_hash) eu),
      sym (row-snd wrote')
          ∙ ap (λ (x : User). record db { users = db.users ++ x ∷ []; drawn = db.drawn + 1 }) eu,
    )

pub assign_role_to_user-roles :
    (user : ℕ) (name : String) (tenant : ℕ) (project : Option ℕ) (now : ℕ) (db : Db) (x : Unit {0})
    (db' : Db)
    → assign_role_to_user user name tenant project now db ≡ row (x, db')
    → (rs : List UserRole) × (db' ≡ record db { user_roles = rs })
unfolding assign_role_to_user
assign_role_to_user-roles user name tenant project now db x db' e =
    RoleGiven-frame _ _ _ _ _ _ (insert_user_role-RoleGiven user _ tenant project db x db' e)

pub create_membership-Made :
    (user tenant now : ℕ) (db : Db) (x : Unit {0}) (db' : Db)
    → create_membership user tenant now db ≡ row (x, db')
    → (ms : List Membership) × (db' ≡ record db { memberships = ms })
      × (any (is_membership user tenant) ms ≡ true)
unfolding create_membership any
create_membership-Made user tenant now db x db' e =
    split _ (any (is_membership user tenant) db.memberships) refl e
  where
    joined :
        (any (is_membership user tenant) db.memberships
          || any (is_membership user tenant) (
              record { user_id = user; tenant_id = tenant; status = "active"; created_at = now }
              ∷ []))
        ≡ true
    joined = ground arith

    split :
        (c b : Bool)
        → any (is_membership user tenant) db.memberships ≡ b
        → ◌≡◌ {A = Answer (Unit {0} × Db)}
            (if b
              then row (tt, db)
              else check c (
                  row (
                    tt,
                    record db {
                      memberships =
                          db.memberships
                          ++ record {
                            user_id = user;
                            tenant_id = tenant;
                            status = "active";
                            created_at = now;
                          }
                            ∷ [];
                    },
                  )))
            (row (x, db'))
        → (ms : List Membership) × (db' ≡ record db { memberships = ms })
          × (any (is_membership user tenant) ms ≡ true)
    split c true eb h = (db.memberships, sym (row-snd h), eb)
    split c false eb h = (
      _,
      sym (row-snd (check-row _ _ h).1),
      any-append (is_membership user tenant) db.memberships _ ∙ joined,
    )

pub insert_outbox-Made :
    (aggregate : ℕ) (type payload : String) (now : ℕ) (db : Db) (x : Unit {0}) (db' : Db)
    → insert_outbox aggregate type payload now db ≡ row (x, db')
    → (o : Outbox) × (o.aggregate_id ≡ aggregate)
      × (o.event_type ≡ type)
      × (o.payload ≡ payload)
      × (o.published_at ≡ none)
      × (db' ≡ record db { outbox = db.outbox ++ o ∷ []; drawn = db.drawn + 1 })
unfolding insert_outbox
insert_outbox-Made aggregate type payload now db x db' e =
    (_, refl, refl, refl, refl, sym (row-snd (check-row _ _ e).1))
