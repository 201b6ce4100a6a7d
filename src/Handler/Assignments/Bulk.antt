-- ===== src/Handler/Assignments/Bulk.antt =====
-- AssignRoleBulk accounts for every id that it was given.
use iam_go_auth.Base.{
  ℕ, ◌+◌, String, Bool, true, false, ◌≡◌, refl, Option, none, some, List, [], ◌∷◌, length, arith,
  All, All-imp, suc, ap, ◌∙◌, ◌⊎◌, inl, inr, ◌||◌, str_eq, any, str_eq_refl,
}
use iam_go_auth.Db.Models.{Db, Role}
use iam_go_auth.Db.Roles.{resolve_role}
use iam_go_auth.Rpc.{World, M, Status, Result, ok, err, is_ok, succeeded}
use iam_go_auth.Rpc.Laws.{Ends, After, after-pure, after-bind, after-weaken, after-when}
use iam_go_auth.Cache.Invalidation.{after-invalidate_perms}
use iam_go_auth.Handler.{AuthHandler, Identity, audit, parse_optional_uuid}
use iam_go_auth.Handler.Guards.{after-require_perm, after-active_tenant}
use iam_go_auth.Handler.Frame.{after-audit_as}
use iam_go_auth.Handler.Assignments.{tally, assign_parsed, assign_each, assign_role_bulk}
use iam_go_auth.Handler.Assignments.Kept.{Kept, Kept-trans, Kept-same, Given, assigned}
use iam_go_auth.Handler.Assignments.Given.{validate_assign-After}
use iam_go_auth.Handler.Register.Atomic.{Unwritten}
use iam_go_auth.Handler.Roles.Creation.{after-with_tenant}
use iam_go_auth.Handler.Tenants.Projects.{InTenant}

after-succeeded :
    {A : Type 0} {P : Bool → World → Type 0} {E F : Status → World → Type 0} (m : M A) (w : World)
    → After m w (λ _ w'. P true w') F
    → ((s : Status) (w' : World) → F s w' → P false w')
    → After (succeeded m) w P E
unfolding succeeded
after-succeeded {A} {P} {E} {F} m w a fails = record { ends = on (m w).0 (m w).1 a.ends }
  where
    on : (r : Result A) (w' : World) → Ends r w' (λ _ w1. P true w1) F → Ends (ok (is_ok r)) w' P E
    on (ok x) w' e = e
    on (err st) w' e = fails st w' e

-- The ids are counted or listed, what is listed was asked for, and every id that is not listed has
-- been given what `Done` says.
pub record Accounted (Done : String → Type 0) (uids : List String) (answer : ℕ × List String)
    : Type 0 where
  pub all_of : answer.0 + length answer.1 ≡ length uids
  pub asked : All (λ u. any (str_eq u) uids ≡ true) answer.1
  pub held : All (λ u. (any (str_eq u) answer.1 ≡ true) ⊎ Done u) uids

later : (a b : Bool) → b ≡ true → (a || b) ≡ true
later a b e = ground arith

asked_later :
    (uid : String) (uids us : List String)
    → All (λ u. any (str_eq u) uids ≡ true) us
    → All (λ u. any (str_eq u) (uid ∷ uids) ≡ true) us
unfolding any
asked_later uid uids us a =
    All-imp (λ u. any (str_eq u) uids ≡ true) (λ u. any (str_eq u) (uid ∷ uids) ≡ true) us
      (λ u e. later (str_eq u uid) _ e) a

still_listed :
    {Done Later : String → Type 0} (uid : String) (uids us : List String)
    → ((u : String) → Done u → Later u)
    → All (λ u. (any (str_eq u) us ≡ true) ⊎ Done u) uids
    → All (λ u. (any (str_eq u) (uid ∷ us) ≡ true) ⊎ Later u) uids
unfolding any
still_listed {Done} {Later} uid uids us lasts a =
    All-imp _ _ uids
      (λ u e. elim e [ inl x ↦ inl (later (str_eq u uid) _ x) | inr x ↦ inr (lasts u x) ]) a

tally-Accounted :
    {Done : String → Type 0} (uid : String) (uids : List String) (done : Bool)
    (rest : ℕ × List String)
    → (done ≡ true → Done uid)
    → Accounted Done uids rest
    → Accounted Done (uid ∷ uids) (tally uid done rest)
unfolding any
tally-Accounted uid uids true rest gave a = record {
  all_of = counted rest.0 (length rest.1) (length uids) a.all_of;
  asked = asked_later uid uids rest.1 a.asked;
  held = (inr (gave refl), a.held);
}
  where
    counted : (a b c : ℕ) → a + b ≡ c → a + 1 + b ≡ suc c
    counted a b c e = omega arith
tally-Accounted uid uids false rest gave a = record {
  all_of = counted rest.0 (length rest.1) (length uids) a.all_of;
  asked = (rw (str_eq_refl uid) refl, asked_later uid uids rest.1 a.asked);
  held = (inl (rw (str_eq_refl uid) refl), still_listed uid uids rest.1 (λ _ x. x) a.held);
}
  where
    counted : (a b c : ℕ) → a + b ≡ c → a + suc b ≡ suc c
    counted a b c e = omega arith

module _ (h : AuthHandler) (name : String) (role : Role) (tenant : ℕ) (project : Option ℕ) where
  after-assign_parsed :
      {E : Status → World → Type 0} (uid : String) (o : Option ℕ) (w : World)
      → h.uuid_parse uid ≡ o
      → resolve_role name tenant w.db.roles ≡ some role
      → After
          (assign_parsed h name tenant project uid o)
          w
          (λ done w'. Kept w w' × (done ≡ true → Given h role tenant project uid w'))
          E
  unfolding assign_parsed
  after-assign_parsed uid none w named resolved = after-pure false w (Kept-same refl refl, λ e. cc)
  after-assign_parsed uid (some user) w named resolved = after-bind _ _ _ (
      after-succeeded {F = λ _ w'. Unwritten w w'} _ w
        (after-with_tenant tenant _ _ _ w
          (λ _ d w1 ran kept. after-bind _ _ _ (
            let x = assigned user name role tenant project w w1 d resolved ran kept in
            after-when _ _ w1
              (λ _. after-invalidate_perms h.cache uid w1 (λ w2 u. after-pure true w2 (
                Kept-trans x.0 (undisturbed u.db),
                λ _. record {
                  user = user;
                  named = named;
                  holds = (undisturbed {w1 = w1} {w2 = w2} u.db).holds _ x.1;
                },
              )))
              (λ _.
                after-pure true w1 (x.0, λ _. record { user = user; named = named; holds = x.1 }))))
          (λ _ _ u. u))
        (λ _ w1 u. after-bind _ _ _ (
          after-when _ _ w1 (λ on. absurd (clash on))
            (λ _. after-pure false w1 (
              Kept-same (ap (λ (x : Db). x.roles) u.db) (ap (λ (x : Db). x.user_roles) u.db),
              λ e. cc,
            )))))
    where
      clash : false ≡ true → ⊥
      clash e = cc

      undisturbed : {w1 w2 : World} → w2.db ≡ w1.db → Kept w1 w2
      undisturbed e = Kept-same (ap (λ (x : Db). x.roles) e) (ap (λ (x : Db). x.user_roles) e)

  Given-Kept :
      {uid : String} {w w' : World}
      → Kept w w'
      → Given h role tenant project uid w
      → Given h role tenant project uid w'
  Given-Kept k g = record { user = g.user; named = g.named; holds = k.holds _ g.holds }

  assign_each-Accounted :
      (uids : List String) (w : World)
      → resolve_role name tenant w.db.roles ≡ some role
      → After
          (assign_each h name tenant project uids)
          w
          (λ answer w'. Kept w w' × Accounted (λ u. Given h role tenant project u w') uids answer)
          (λ _ _. ⊥)
  unfolding assign_each
  assign_each-Accounted [] w resolved =
      after-pure (0, []) w (Kept-same refl refl, record { all_of = refl; asked = tt; held = tt })
  assign_each-Accounted (uid ∷ uids) w resolved = after-bind _ _ _ (
      after-weaken _ w (after-assign_parsed uid (h.uuid_parse uid) w refl resolved)
        (λ done w1 x. after-bind _ _ _ (
          after-weaken _ w1
            (assign_each-Accounted uids w1 (ap (resolve_role name tenant) x.0.roles ∙ resolved))
            (λ rest w2 a. after-pure _ w2 (
              Kept-trans x.0 a.0,
              tally-Accounted uid uids done rest (λ e. Given-Kept a.0 (x.1 e)) a.1,
            ))
            (λ _ _ y. y)))
        (λ _ _ y. y))

module _ (h : AuthHandler) (ctx : Identity) where
  -- What an answer of AssignRoleBulk shows.
  pub record Bulk (uids : List String) (name project_id : String) (w : World)
      (answer : ℕ × List String) (w' : World) : Type 0 where
    pub permitted : ctx.has_permission "role:assign" ≡ true
    pub tenant : ℕ
    pub active : h.uuid_parse ctx.tenant_id ≡ some tenant
    pub role : Role
    pub resolved : resolve_role name tenant w.db.roles ≡ some role
    pub project : InTenant tenant w.db (parse_optional_uuid h project_id)
    pub accounted :
        Accounted (λ u. Given h role tenant (parse_optional_uuid h project_id) u w') uids answer

  -- Whatever calls fail: AssignRoleBulk either ends with an error before it has written anything,
  -- or it answers, for a caller with the permission role:assign, a role that the name resolves to in
  -- the caller's tenant and no project or one of that tenant. Then the number of assigned ids and that
  -- of the failed ones add up to the number of ids in the request, every failed id is one of them, and
  -- every id that is not among the failed ones names a user who holds that role afterwards, in the
  -- tenant and for the project.
  pub assign_role_bulk-Bulk :
      (uids : List String) (name project_id : String) (w : World)
      → After
          (assign_role_bulk h ctx uids name project_id)
          w
          (Bulk uids name project_id w)
          (λ _ w'. w'.db ≡ w.db)
  unfolding assign_role_bulk audit
  assign_role_bulk-Bulk uids name project_id w = after-bind _ _ _ (
      after-require_perm ctx _ w
        (λ permitted. after-bind _ _ _ (
          after-active_tenant h ctx w
            (λ tenant active. after-bind _ _ _ (
              after-weaken _ w (validate_assign-After h name project_id tenant w)
                (λ _ w1 valid. after-bind _ _ _ (
                  after-weaken _ w1
                    (assign_each-Accounted h name valid.1.0 tenant _ uids w1
                      (ap (λ (x : Db). resolve_role name tenant x.roles) valid.0.db ∙ valid.1.1))
                    (λ answer w2 a. after-bind _ _ _ (
                      after-audit_as h ctx _ _ _ _ _ w2 (λ w3 _ f. after-pure answer w3 (record {
                        permitted = permitted;
                        tenant = tenant;
                        active = active;
                        role = valid.1.0;
                        resolved = valid.1.1;
                        project = valid.2;
                        accounted = record {
                          all_of = a.1.all_of;
                          asked = a.1.asked;
                          held =
                              All-imp _ _ uids
                                (λ u e. elim e [
                                  | inl x ↦ inl x
                                  | inr g ↦ inr (
                                      Given-Kept h name valid.1.0 tenant _
                                        (Kept-same (ap (λ (x : Db). x.roles) f.db)
                                          (ap (λ (x : Db). x.user_roles) f.db))
                                        g)
                                ])
                                a.1.held;
                        };
                      }))))
                    (λ _ _ x. absurd x)))
                (λ _ _ e. e)))
            (λ _. refl)))
        (λ _. refl))
