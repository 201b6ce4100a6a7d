-- ===== src/Db/Tokens.antt =====
-- The statements on refresh_tokens and revoked_tokens of internal/db/auth.sql.go.
pub mod Laws
use iam_go_auth.Base.{
  if◌then◌else◌, ℕ, ◌+◌, String, Bool, not, ◌||◌, ◌&&◌, Option, none, some, [], ◌∷◌, ◌++◌, str_eq,
  ◌==◌, is_some, any, find, update_where, is_none_or,
}
use iam_go_auth.Db.Models.{Db, RefreshToken, RevokedToken, User, Tenant, Project}
use iam_go_auth.Db.Query.{Query, one, wrote, check}

abbrev pub has_hash : String → RefreshToken → Bool
has_hash hash t = str_eq t.token_hash hash

abbrev pub belongs_to : ℕ → RefreshToken → Bool
belongs_to user t = t.user_id == user

-- The arguments are those of CreateRefreshTokenParams. The hash is unique; the user, the tenant and
-- the project, if one is named, exist.
unfoldable pub create_refresh_token : ℕ → String → ℕ → ℕ → Option ℕ → Query RefreshToken
create_refresh_token user_id token_hash expires_at tenant_id project_id now db =
    let id = db.uuids db.drawn in
    let t : RefreshToken = record {
      id = id;
      user_id = user_id;
      token_hash = token_hash;
      expires_at = expires_at;
      revoked_at = none;
      created_at = now;
      tenant_id = tenant_id;
      project_id = project_id;
      replaced_by = none;
    } in
    check
      (not (any (λ (o : RefreshToken). o.id == id || has_hash token_hash o) db.refresh_tokens)
        && any (λ (u : User). u.id == user_id) db.users
        && any (λ (o : Tenant). o.id == tenant_id) db.tenants
        && is_none_or (λ p. any (λ (o : Project). o.id == p) db.projects) project_id)
      (wrote t (record db { refresh_tokens = db.refresh_tokens ++ t ∷ []; drawn = db.drawn + 1 }))

unfoldable pub get_refresh_token : String → Query RefreshToken
get_refresh_token token_hash now db = one (find (has_hash token_hash) db.refresh_tokens) db

abbrev pub revoke : ℕ → RefreshToken → RefreshToken
revoke now t = record t { revoked_at = some now }

abbrev pub rotate : ℕ → Option String → RefreshToken → RefreshToken
rotate now successor t = record t { revoked_at = some now; replaced_by = successor }

unfoldable pub revoke_refresh_token : String → Query (Unit {0})
revoke_refresh_token token_hash now db = wrote tt (record db {
  refresh_tokens =
      update_where (λ (t : RefreshToken). has_hash token_hash t && not (is_some t.revoked_at))
        (revoke now) db.refresh_tokens;
})

unfoldable pub rotate_refresh_token : String → Option String → Query (Unit {0})
rotate_refresh_token token_hash replaced_by now db = wrote tt (record db {
  refresh_tokens =
      update_where (λ (t : RefreshToken). has_hash token_hash t && not (is_some t.revoked_at))
        (rotate now replaced_by) db.refresh_tokens;
})

unfoldable pub revoke_all_user_refresh_tokens : ℕ → Query (Unit {0})
revoke_all_user_refresh_tokens user_id now db = wrote tt (record db {
  refresh_tokens =
      update_where (λ (t : RefreshToken). belongs_to user_id t && not (is_some t.revoked_at))
        (revoke now) db.refresh_tokens;
})

abbrev pub has_jti : String → RevokedToken → Bool
has_jti jti r = str_eq r.jti jti

-- ON CONFLICT (jti) DO NOTHING
unfoldable pub revoke_access_jti : String → ℕ → Query (Unit {0})
revoke_access_jti jti expires_at now db =
    let r : RevokedToken = record { jti = jti; expires_at = expires_at; revoked_at = now } in
    if any (has_jti jti) db.revoked_tokens
    then wrote tt db
    else wrote tt (record db { revoked_tokens = db.revoked_tokens ++ r ∷ [] })

unfoldable pub is_token_revoked : String → Query Bool
is_token_revoked jti now db = wrote (any (has_jti jti) db.revoked_tokens) db
