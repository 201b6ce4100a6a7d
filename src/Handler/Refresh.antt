-- ===== src/Handler/Refresh.antt =====
-- internal/handler/auth.go: Refresh.
pub mod Rotation
pub mod Reuse
use iam_go_auth.Base.{
  ℕ, ◌-◌, ◌*◌, String, Bool, true, false, not, ◌&&◌, Option, none, some, str_eq, ltb, if◌then◌else◌,
}
use iam_go_auth.Db.Models.{RefreshToken}
use iam_go_auth.Db.Users.{get_user_by_id}
use iam_go_auth.Db.Tokens.{get_refresh_token, revoke_all_user_refresh_tokens, rotate_refresh_token}
use iam_go_auth.Jwt.{second}
use iam_go_auth.Rpc.{M, pure, raise, ◌>>=◌, ◌>>◌, fail_if, must, try, get_now, unauthenticated}
use iam_go_auth.Handler.{AuthHandler, Identity, audit_as, hash_token}
use iam_go_auth.Handler.Tokens.{TokenPair, issue_tokens}

abbrev pub refresh_rotation_grace : ℕ
refresh_rotation_grace = 60 * second

-- row.ReplacedBy != nil && *row.ReplacedBy != ""
abbrev pub rotated : RefreshToken → Bool
rotated t = elim t.replaced_by [ none ↦ false | some s ↦ not (str_eq s "") ]

-- A token revoked by rotation less than the grace ago. (time.Since is negative for an instant that
-- is still to come, which is less than the grace too.)
abbrev pub in_grace : ℕ → ℕ → RefreshToken → Bool
in_grace now at t = rotated t && ltb (now - at) refresh_rotation_grace

module _ (h : AuthHandler) (ctx : Identity) where
  reissue : RefreshToken → M TokenPair
  reissue t = do
    user ← must (get_user_by_id t.user_id) unauthenticated "user not found"
    issue_tokens h user.id user.email t.tenant_id t.project_id

  reuse_detected : RefreshToken → M TokenPair
  reuse_detected t = do
    try (revoke_all_user_refresh_tokens t.user_id)
    audit_as h ctx (h.uuid_string t.user_id) "" "refresh.reuse_detected" "" "all sessions revoked"
    raise unauthenticated "refresh token revoked"

  rotate_active : String → ℕ → RefreshToken → M TokenPair
  rotate_active hash now t = do
    fail_if (ltb t.expires_at now) unauthenticated "refresh token expired"
    user ← must (get_user_by_id t.user_id) unauthenticated "user not found"
    pair ← issue_tokens h user.id user.email t.tenant_id t.project_id
    try (rotate_refresh_token hash (some (hash_token h pair.refresh_token)))
    pure pair

  refresh_row : String → ℕ → RefreshToken → Option ℕ → M TokenPair
  unfolding reissue reuse_detected rotate_active
  refresh_row hash now t none = rotate_active hash now t
  refresh_row hash now t (some at) = if in_grace now at t then reissue t else reuse_detected t

  unfoldable pub refresh : String → M TokenPair
  unfolding refresh_row
  refresh refresh_token = do
    t ←
        must (get_refresh_token (hash_token h refresh_token)) unauthenticated
          "invalid refresh token"
    now ← get_now
    refresh_row (hash_token h refresh_token) now t t.revoked_at
