-- ===== src/Handler/Tokens.antt =====
-- internal/handler/auth.go: issueTokens and issueForActiveTenant.
pub mod Laws
use iam_go_auth.Base.{ℕ, ◌+◌, ◌/◌, String, Bool, true, false, Option, none, some, List, [], ◌∷◌}
use iam_go_auth.Db.Tokens.{create_refresh_token}
use iam_go_auth.Db.Tenants.{MembershipRow, list_memberships_by_user}
use iam_go_auth.Jwt.{issue, second}
use iam_go_auth.Rpc.{
  M, pure, raise, ◌>>=◌, ◌>>◌, or_raise, draw, must, get_now, internal, permission_denied,
}
use iam_go_auth.Handler.{AuthHandler, hash_token}

-- authv1.TokenPair
pub record TokenPair : Type 0 where
  pub access_token : String
  pub refresh_token : String
  pub expires_in : ℕ
  pub token_type : String
  pub mfa_required : Bool
  pub mfa_token : String

-- newRefreshToken: 32 bytes of crypto/rand in hexadecimal.
abbrev pub new_refresh_token : M (Option String)
new_refresh_token = draw

module _ (h : AuthHandler) where
  abbrev pub project_string : Option ℕ → String
  project_string none = ""
  project_string (some p) = h.uuid_string p

  abbrev pub bearer : String → String → TokenPair
  bearer access refresh = record {
    access_token = access;
    refresh_token = refresh;
    expires_in = h.jwt.access_ttl / second;
    token_type = "Bearer";
    mfa_required = false;
    mfa_token = "";
  }

  -- A failed draw of the jti, where uuid.NewString panics, is counted as a failure to sign.
  unfoldable pub issue_tokens : ℕ → String → ℕ → Option ℕ → M TokenPair
  issue_tokens user_id email tenant_id project_id = do
    now ← get_now
    jti ← or_raise (← draw) internal "failed to sign token"
    access ←
        or_raise
          (issue h.jwt_lib h.jwt now jti (h.uuid_string user_id) email (h.uuid_string tenant_id)
            (project_string project_id))
          internal "failed to sign token"
    refresh ← or_raise (← new_refresh_token) internal "failed to generate refresh token"
    must
        (create_refresh_token user_id (hash_token h refresh) (now + h.refresh_ttl) tenant_id
          project_id)
        internal "failed to persist refresh token"
    pure (bearer access refresh)

  pub first_tenant : List MembershipRow → M ℕ
  first_tenant [] = raise permission_denied "user has no tenant membership"
  first_tenant (m ∷ _) = pure m.tenant_id

  unfoldable pub issue_for_active_tenant : ℕ → String → M TokenPair
  unfolding issue_tokens
  issue_for_active_tenant user_id email = do
    members ← must (list_memberships_by_user user_id) internal "failed to load memberships"
    tenant ← first_tenant members
    issue_tokens user_id email tenant none
