-- ===== src/Db/Users/Laws.antt =====
-- What the statements on users do.
use iam_go_auth.Base.{ℕ, ◌+◌, ◌≡◌, sym, some, find, update_where}
use iam_go_auth.Db.Models.{Db, User}
use iam_go_auth.Db.Query.{row, wrote}
use iam_go_auth.Db.Query.Laws.{row-fst, row-snd, returning-row}
use iam_go_auth.Db.Users.{has_id, bump, increment_login_failure}

-- What IncrementLoginFailure did, where it gave `n`.
pub record Counted (id : ℕ) (db : Db) (n : ℕ) (db' : Db) : Type 0 where
  pub user : User
  pub found : find (has_id id) db.users ≡ some user
  pub count : n ≡ user.failed_login_attempts + 1
  pub change : db' ≡ record db { users = update_where (has_id id) bump db.users }

pub increment_login_failure-Counted :
    (id now : ℕ) (db : Db) (n : ℕ) (db' : Db)
    → increment_login_failure id now db ≡ row (n, db')
    → Counted id db n db'
unfolding increment_login_failure
increment_login_failure-Counted id now db n db' e =
    let (u, found, e') =
      returning-row {B = User} (find (has_id id) db.users)
        (λ u.
          wrote (u.failed_login_attempts + 1)
            (record db { users = update_where (has_id id) bump db.users }))
        e in
    record { user = u; found = found; count = sym (row-fst e'); change = sym (row-snd e') }
