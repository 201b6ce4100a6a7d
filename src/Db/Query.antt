-- ===== src/Db/Query.antt =====
-- What one SQL statement does: from the instant of now() and the tables it gives a row and the
-- tables after it, or no row (pgx.ErrNoRows), or an error (a violated constraint). A statement that
-- gives no row or an error has changed nothing.
pub mod Laws
use iam_go_auth.Base.{
  String, List, [], ◌∷◌, true, false, ℕ, Bool, ◌||◌, is_none_or, some_eq, Option, none, some,
  if◌then◌else◌,
}
use iam_go_auth.Db.Models.{Db}

pub data Answer (A : Type 0) : Type 0 where
  row : A → Answer A
  no_rows : Answer A
  failed : Answer A

abbrev pub Query : Type 0 → Type 0
Query A = ℕ → Db → Answer (A × Db)

module _ {A : Type 0} where
  -- A statement that reads one row, or finds none.
  abbrev pub one : Option A → Db → Answer (A × Db)
  one none db = no_rows
  one (some a) db = row (a, db)

  -- UPDATE ... RETURNING, of the first row that it matches, if it matches one.
  abbrev pub returning : {B : Type 0} → Option B → (B → Answer (A × Db)) → Answer (A × Db)
  returning none f = no_rows
  returning (some b) f = f b

  -- A statement that writes, and succeeds.
  abbrev pub wrote : A → Db → Answer (A × Db)
  wrote a db = row (a, db)

  -- A constraint: where it does not hold, the statement fails.
  abbrev pub check : Bool → Answer (A × Db) → Answer (A × Db)
  check holds rest = if holds then rest else failed

-- NOT NULL, of a text[] column: pgx sends the empty list of a request, a nil slice, as NULL.
abbrev pub not_null : List String → Bool
not_null [] = false
not_null (s ∷ ss) = true

-- The policy of migrations 000013 and 000016 on roles, user_roles and projects, for reading and for
-- writing: the tenant is NULL, or it is the setting app.tenant_id. A superuser is not held to it.
abbrev pub admits : Db → Option ℕ → Bool
admits db tenant = db.bypass_rls || is_none_or (some_eq db.app_tenant) tenant
