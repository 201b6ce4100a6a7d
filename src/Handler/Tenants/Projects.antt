-- ===== src/Handler/Tenants/Projects.antt =====
-- A project that a request names belongs to the tenant that it is used in.
use iam_go_auth.Base.{
  ℕ, String, Bool, true, false, ◌&&◌, ◌≡◌, refl, Option, none, some, str_eq, ◌==◌, any, not-false,
}
use iam_go_auth.Db.Models.{Db, Project}
use iam_go_auth.Db.Projects.{visible_projects, is_project_in_tenant}
use iam_go_auth.Rpc.{World}
use iam_go_auth.Rpc.Laws.{After, after-pure, after-or_raise, after-bind, after-if, after-fail_if}
use iam_go_auth.Rpc.Reads.{Read, Read-refl, after-must_value}
use iam_go_auth.Handler.{AuthHandler, parse_optional_uuid}
use iam_go_auth.Handler.Tenants.{check_project}

-- The project is one of the tenant.
abbrev pub belongs : ℕ → ℕ → Db → Bool
belongs project tenant db =
    any (λ (p : Project). p.id == project && p.tenant_id == tenant) (visible_projects db)

-- No project, or one of the tenant.
pub data InTenant (tenant : ℕ) (db : Db) : Option ℕ → Type 0 where
  no_project : InTenant tenant db none
  project_of : (project : ℕ) → belongs project tenant db ≡ true → InTenant tenant db (some project)

module _ (h : AuthHandler) where
  pub check_project-InTenant :
      (project_id : String) (tenant : ℕ) (w : World)
      → After
          (check_project h project_id tenant)
          w
          (λ _ w'. Read w w' × InTenant tenant w.db (parse_optional_uuid h project_id))
          (λ _ w'. w'.db ≡ w.db)
  unfolding check_project is_project_in_tenant
  check_project-InTenant project_id tenant w =
      after-if _ _ _ w (λ e. after-pure tt w (Read-refl w, none_named e))
        (λ e. after-bind _ _ _ (
          after-or_raise _ _ _ w
            (λ pid parsed. after-bind _ _ _ (
              after-must_value (is_project_in_tenant pid tenant)
                (λ _ (db : Db). belongs pid tenant db) _ _ w (λ _ _. refl)
                (λ w1 r1.
                  after-fail_if _ _ _ w1 (λ _. r1.db)
                    (λ found. (r1, named e pid parsed (not-false _ found))))
                (λ _ e. e)))
            (λ _. refl)))
    where
      none_named :
          str_eq project_id "" ≡ true → InTenant tenant w.db (parse_optional_uuid h project_id)
      none_named e = rw e no_project

      named :
          str_eq project_id "" ≡ false
          → (pid : ℕ) → h.uuid_parse project_id ≡ some pid
          → belongs pid tenant w.db ≡ true
          → InTenant tenant w.db (parse_optional_uuid h project_id)
      named e pid parsed found = rw (e, parsed) (project_of pid found)
