-- ===== src/Handler/Guards.antt =====
-- The tests that the methods begin with.
use iam_go_auth.Base.{ℕ, true, ◌≡◌, some, String, str_eq}
use iam_go_auth.Rpc.{World, Status, raise, or_raise, failed_precondition, internal}
use iam_go_auth.Rpc.Laws.{After, after-pure, after-raise, after-or_raise, after-if}
use iam_go_auth.Handler.{AuthHandler, Identity, require_perm, active_tenant}

module _ (ctx : Identity) where
  pub after-require_perm :
      {P : Unit {0} → World → Type 0} {E : Status → World → Type 0} (perm : String) (w : World)
      → (ctx.has_permission perm ≡ true → P tt w)
      → ((s : Status) → E s w)
      → After (require_perm ctx perm) w P E
  unfolding require_perm
  after-require_perm perm w p e =
      after-if _ _ _ w (λ held. after-pure _ w (p held)) (λ _. after-raise _ _ w (e _))

module _ (h : AuthHandler) (ctx : Identity) where
  pub after-active_tenant :
      {P : ℕ → World → Type 0} {E : Status → World → Type 0} (w : World)
      → ((tenant : ℕ) → h.uuid_parse ctx.tenant_id ≡ some tenant → P tenant w)
      → ((s : Status) → E s w)
      → After (active_tenant h ctx) w P E
  unfolding active_tenant
  after-active_tenant w p e =
      after-if (str_eq ctx.tenant_id "") (raise failed_precondition "no active tenant on token")
        (or_raise (h.uuid_parse ctx.tenant_id) internal "invalid active tenant") w
        (λ _. after-raise _ _ w (e _)) (λ _. after-or_raise _ _ _ w p (λ _. e _))
