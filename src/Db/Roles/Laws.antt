-- ===== src/Db/Roles/Laws.antt =====
-- What an assignment of a role writes.
use iam_go_auth.Base.{
  ℕ, String, Bool, true, false, ◌≡◌, refl, sym, ap, ◌∙◌, ◌⊎◌, inl, inr, Option, none, some, List,
  [], ◌∷◌, ◌++◌, any, any-append_new, find, select, not, &&-true, is_some, some_eq, ap₂, String,
  ==_refl, if◌then◌else◌, Bool-cases, arith,
}
use iam_go_auth.Db.Models.{Db, Role, UserRole}
use iam_go_auth.Db.Query.{Answer, row, check, admits}
use iam_go_auth.Db.Query.Laws.{check-row, row-snd}
use iam_go_auth.Db.Roles.{
  own_role, built_in, named, resolve_role, visible_roles, same_assignment, assignment, or_nil,
  insert_user_role,
}

module _ {A : Type 0} (p q : A → Bool) where
  -- A condition that implies the policy sees the table as if there were none.
  find-select :
      ((x : A) → p x ≡ true → q x ≡ true) → (xs : List A) → find p (select q xs) ≡ find p xs
  unfolding find select
  find-select imp [] = refl
  find-select imp (x ∷ xs) = elim (Bool-cases (p x)) [
    | inl e ↦ rw (imp x e, e) refl
    | inr e ↦ dropped (q x) e (find-select imp xs)
  ]
    where
      dropped :
          (b : Bool)
          → p x ≡ false
          → find p (select q xs) ≡ find p xs
          → let rest = select q xs in find p (if b then x ∷ rest else rest) ≡ find p (x ∷ xs)
      dropped true e ih = rw e ih
      dropped false e ih = rw e ih

  -- What is found under the policy is there.
  any-select : (xs : List A) {a : A} → find p (select q xs) ≡ some a → any p xs ≡ true
  unfolding find select any
  any-select [] {a} e = ground arith
  any-select (x ∷ xs) {a} e = ground (arith, any-select xs {a = a})

  find-any : (xs : List A) → any p xs ≡ true → (a : A) × (find p xs ≡ some a)
  unfolding find any
  find-any [] e = absurd (cc)
  find-any (x ∷ xs) e = elim (Bool-cases (p x)) [
    | inl h ↦ (x, rw h refl)
    | inr h ↦ rw h (find-any xs (later h))
  ]
    where
      later : p x ≡ false → any p xs ≡ true
      later h = ground arith

abbrev pub in_session : ℕ → Db → Db
in_session tenant db = record db { bypass_rls = false; app_tenant = some tenant }

own-admits :
    (name : String) (tenant : ℕ) (db : Db) (r : Role)
    → own_role name tenant r ≡ true
    → admits (in_session tenant db) r.tenant_id ≡ true
own-admits name tenant db r e = on r.tenant_id (&&-true (named name r) _ e).1
  where
    on : (o : Option ℕ) → some_eq o tenant ≡ true → admits (in_session tenant db) o ≡ true
    on none e = cc
    on (some t) e = ground arith

template-admits :
    (name : String) (db : Db) (r : Role) → built_in name r ≡ true → admits db r.tenant_id ≡ true
template-admits name db r e = on r.tenant_id (&&-true (named name r) _ e).1
  where
    on : (o : Option ℕ) → not (is_some o) ≡ true → admits db o ≡ true
    on none e = ground arith
    on (some t) e = ground arith

-- Under the tenant's policy a name resolves as if there were no policy.
pub resolve_role-session :
    (name : String) (tenant : ℕ) (db : Db)
    → resolve_role name tenant (visible_roles (in_session tenant db))
      ≡ resolve_role name tenant db.roles
unfolding resolve_role
resolve_role-session name tenant db =
    ap₂ (λ (a b : Option Role). elim a as (λ _. Option Role) [ none ↦ b | some r ↦ some r ])
      (find-select (own_role name tenant) (λ r. admits (in_session tenant db) r.tenant_id)
        (own-admits name tenant db) db.roles)
      (find-select (built_in name) (λ r. admits (in_session tenant db) r.tenant_id)
        (template-admits name (in_session tenant db)) db.roles)

nothing : {x : Role} → none ≡ some x → ⊥
nothing p = cc

-- A name that resolves under some policy resolves without one.
pub resolve_role-visible :
    (name : String) (tenant : ℕ) (db : Db) (r : Role)
    → resolve_role name tenant (visible_roles db) ≡ some r
    → (r' : Role) × (resolve_role name tenant db.roles ≡ some r')
unfolding resolve_role
resolve_role-visible name tenant db r e =
    split (find (own_role name tenant) (visible_roles db)) refl
      (find (own_role name tenant) db.roles) refl e
  where
    visible : Role → Bool
    visible x = admits db x.tenant_id

    split :
        (a : Option Role)
        → find (own_role name tenant) (visible_roles db) ≡ a
        → (b : Option Role) → find (own_role name tenant) db.roles ≡ b
        → elim a as (λ _. Option Role) [
          | none ↦ find (built_in name) (visible_roles db)
          | some x ↦ some x
        ]
          ≡ some r
        → (r' : Role) × (elim b as (λ _. Option Role) [
          | none ↦ find (built_in name) db.roles
          | some x ↦ some x
        ]
            ≡ some r')
    split a ea (some b) eb e = (b, refl)
    split none ea none eb e =
        find-any (built_in name) visible db.roles (any-select (built_in name) visible db.roles e)
    split (some a) ea none eb e = absurd (
        nothing (
          sym eb
          ∙ (find-any (own_role name tenant) visible db.roles
              (any-select (own_role name tenant) visible db.roles ea)).1))

-- There was no such role, or the user had it already, or exactly its row was added, under the
-- policy.
pub data RoleGiven (user : ℕ) (o : Option Role) (tenant : ℕ) (project : Option ℕ) (db db' : Db)
    : Type 0 where
  no_role : o ≡ none → db' ≡ db → RoleGiven user o tenant project db db'
  had :
      (r : Role)
      → o ≡ some r
      → any (same_assignment (assignment user r tenant project)) db.user_roles ≡ true
      → db' ≡ db
      → RoleGiven user o tenant project db db'
  given :
      (r : Role)
      → o ≡ some r
      → admits db (some tenant) ≡ true
      → db' ≡ record db { user_roles = db.user_roles ++ assignment user r tenant project ∷ [] }
      → RoleGiven user o tenant project db db'

pub insert_user_role-RoleGiven :
    (user : ℕ) (o : Option Role) (tenant : ℕ) (project : Option ℕ) (db : Db) (x : Unit {0})
    (db' : Db)
    → insert_user_role user o tenant project db ≡ row (x, db')
    → RoleGiven user o tenant project db db'
unfolding insert_user_role
insert_user_role-RoleGiven user none tenant project db x db' e = no_role refl (sym (row-snd e))
insert_user_role-RoleGiven user (some r) tenant project db x db' e =
    let (admitted, e') = check-row _ _ e in
    split _ (any (same_assignment (assignment user r tenant project)) db.user_roles) refl admitted
      e'
  where
    split :
        (c b : Bool)
        → any (same_assignment (assignment user r tenant project)) db.user_roles ≡ b
        → admits db (some tenant) ≡ true
        → ◌≡◌ {A = Answer (Unit {0} × Db)}
            (if b
              then row (tt, db)
              else check c (
                  row (
                    tt,
                    record db {
                      user_roles = db.user_roles ++ assignment user r tenant project ∷ [];
                    },
                  )))
            (row (x, db'))
        → RoleGiven user (some r) tenant project db db'
    split c true eb admitted h = had r refl eb (sym (row-snd h))
    split c false eb admitted h = given r refl admitted (sym (row-snd (check-row _ _ h).1))

same_assignment_refl : (a : UserRole) → same_assignment a a ≡ true
same_assignment_refl a =
    rw (==_refl a.user_id, ==_refl a.role_id, ==_refl a.tenant_id, ==_refl (or_nil a.project_id))
      refl

-- The user has the role, if there is one.
pub RoleGiven-any :
    (user : ℕ) (o : Option Role) (tenant : ℕ) (project : Option ℕ) (db db' : Db)
    → RoleGiven user o tenant project db db'
    → (o ≡ none)
      ⊎ ((r : Role) × (o ≡ some r)
          × (any (same_assignment (assignment user r tenant project)) db'.user_roles ≡ true))
unfolding any
RoleGiven-any user o tenant project db db' (no_role e _) = inl e
RoleGiven-any user o tenant project db db' (had r e h d) = inr (
  r,
  e,
  ap (λ (x : Db). any (same_assignment (assignment user r tenant project)) x.user_roles) d ∙ h,
)
RoleGiven-any user o tenant project db db' (given r e _ d) = inr (
  r,
  e,
  ap (λ (x : Db). any (same_assignment (assignment user r tenant project)) x.user_roles) d
      ∙ any-append_new (same_assignment (assignment user r tenant project)) db.user_roles
          (assignment user r tenant project)
          (same_assignment_refl (assignment user r tenant project)),
)

-- Nothing but the assignments has changed.
pub RoleGiven-frame :
    (user : ℕ) (o : Option Role) (tenant : ℕ) (project : Option ℕ) (db db' : Db)
    → RoleGiven user o tenant project db db'
    → (rs : List UserRole) × (db' ≡ record db { user_roles = rs })
RoleGiven-frame user o tenant project db db' (no_role _ d) = (db.user_roles, d)
RoleGiven-frame user o tenant project db db' (had r _ _ d) = (db.user_roles, d)
RoleGiven-frame user o tenant project db db' (given r _ _ d) = (_, d)
