-- ===== src/Handler/Logout.antt =====
-- internal/handler/auth.go: Logout.
pub mod Revoked
use iam_go_auth.Base.{ℕ, ◌-◌, String, Bool, true, Option, none, some, str_eq, if◌then◌else◌}
use iam_go_auth.Db.Tokens.{revoke_refresh_token, revoke_access_jti}
use iam_go_auth.Jwt.{Claims, parse}
use iam_go_auth.Cache.{deny}
use iam_go_auth.Rpc.{M, pure, ◌>>=◌, ◌>>◌, must, try, get_now, internal}
use iam_go_auth.Handler.{AuthHandler, Identity, audit, hash_token}

module _ (h : AuthHandler) (ctx : Identity) where
  pub deny_jti : ℕ → String → Option ℕ → M (Unit {0})
  deny_jti now jti none = pure tt
  deny_jti now jti (some expires) =
      if str_eq jti ""
      then pure tt
      else (do try (revoke_access_jti jti expires); deny h.cache jti (expires - now))

  pub deny_claims : ℕ → Option Claims → M (Unit {0})
  unfolding deny_jti
  deny_claims now none = pure tt
  deny_claims now (some c) = deny_jti now c.id c.expires_at

  -- The denylist entry of an access token that still parses; nothing is done for any other.
  pub deny_access : String → M (Unit {0})
  unfolding deny_claims
  deny_access access_token =
      if str_eq access_token ""
      then pure tt
      else (do now ← get_now; deny_claims now (parse h.jwt_lib h.jwt now access_token))

  unfoldable pub logout : String → String → M Bool
  unfolding deny_access
  logout refresh_token access_token = do
    must (revoke_refresh_token (hash_token h refresh_token)) internal "failed to revoke token"
    deny_access access_token
    audit h ctx "auth.logout" "" ""
    pure true
