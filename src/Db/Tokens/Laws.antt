-- ===== src/Db/Tokens/Laws.antt =====
-- What the statements on refresh_tokens do to the look-up by hash.
use iam_go_auth.Base.{
  ℕ, ◌+◌, String, Bool, true, false, not, ◌||◌, ◌&&◌, ◌≡◌, sym, ap, ◌∙◌, Option, none, some, List,
  [], ◌∷◌, ◌++◌, str_eq_refl, any, find, find-append_new, any-or, arith,
}
use iam_go_auth.Db.Models.{Db, RefreshToken}
use iam_go_auth.Db.Query.{row}
use iam_go_auth.Db.Query.Laws.{check-row, row-fst, row-snd}
use iam_go_auth.Db.Tokens.{has_hash, create_refresh_token}

-- The unique key in the check of the insertion.
fresh_hash :
    (ids : RefreshToken → Bool) (hash : String) (ts : List RefreshToken) (b c d : Bool)
    → (not (any (λ t. ids t || has_hash hash t) ts) && b && c && d) ≡ true
    → any (has_hash hash) ts ≡ false
fresh_hash ids hash ts b c d h = ground (arith, any-or ids (has_hash hash) ts)

-- The token that CreateRefreshToken has stored.
pub record Created (user_id : ℕ) (token_hash : String) (expires_at tenant_id : ℕ)
    (project_id : Option ℕ) (db : Db) (t : RefreshToken) (db' : Db) : Type 0 where
  pub user : t.user_id ≡ user_id
  pub hash : t.token_hash ≡ token_hash
  pub expires : t.expires_at ≡ expires_at
  pub tenant : t.tenant_id ≡ tenant_id
  pub project : t.project_id ≡ project_id
  pub open_token : t.revoked_at ≡ none
  pub tokens : db'.refresh_tokens ≡ db.refresh_tokens ++ t ∷ []
  pub found : find (has_hash token_hash) db'.refresh_tokens ≡ some t
  pub users : db'.users ≡ db.users
  pub change :
      db' ≡ record db { refresh_tokens = db.refresh_tokens ++ t ∷ []; drawn = db.drawn + 1 }

pub create_refresh_token-Created :
    (user_id : ℕ) (hash : String) (expires tenant : ℕ) (project : Option ℕ) (now : ℕ) (db : Db)
    (t : RefreshToken) (db' : Db)
    → create_refresh_token user_id hash expires tenant project now db ≡ row (t, db')
    → Created user_id hash expires tenant project db t db'
unfolding create_refresh_token
create_refresh_token-Created user_id hash expires tenant project now db t db' e =
    let (ok', wrote') = check-row _ _ e in
    let et = row-fst wrote' in
    let ed = row-snd wrote' in
    record {
      user = sym (ap (λ (x : RefreshToken). x.user_id) et);
      hash = sym (ap (λ (x : RefreshToken). x.token_hash) et);
      expires = sym (ap (λ (x : RefreshToken). x.expires_at) et);
      tenant = sym (ap (λ (x : RefreshToken). x.tenant_id) et);
      project = sym (ap (λ (x : RefreshToken). x.project_id) et);
      open_token = sym (ap (λ (x : RefreshToken). x.revoked_at) et);
      tokens =
          sym (ap (λ (x : Db). x.refresh_tokens) ed) ∙ ap (λ t. db.refresh_tokens ++ t ∷ []) et;
      found = rw (sym (ap (λ (x : Db). x.refresh_tokens) ed)) (
          find-append_new (has_hash hash) db.refresh_tokens _
            (fresh_hash _ hash db.refresh_tokens _ _ _ ok') (str_eq_refl hash)
          ∙ ap some et);
      users = sym (ap (λ (x : Db). x.users) ed);
      change =
          sym ed
          ∙ ap
              (λ (x : RefreshToken). record db {
                refresh_tokens = db.refresh_tokens ++ x ∷ [];
                drawn = db.drawn + 1;
              })
              et;
    }
