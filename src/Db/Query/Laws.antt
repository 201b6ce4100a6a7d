-- ===== src/Db/Query/Laws.antt =====
-- What is known of a statement that gave a row.
use iam_go_auth.Base.{Bool, true, false, ◌≡◌, refl, sym, ap, ◌⊎◌, inl, inr, Option, none, some}
use iam_go_auth.Db.Models.{Db}
use iam_go_auth.Db.Query.{Answer, row, no_rows, failed, check, one, returning}

module _ {A : Type 0} where
  pub check-row :
      (b : Bool) (x : Answer (A × Db)) {r : A × Db} → check b x ≡ row r → (b ≡ true) × (x ≡ row r)
  check-row true x e = (refl, e)
  check-row false x e = absurd (cc)

  pub row-fst : {a b : A} {d e : Db} → ◌≡◌ {A = Answer (A × Db)} (row (a, d)) (row (b, e)) → a ≡ b
  row-fst h = cc

  pub row-snd : {a b : A} {d e : Db} → ◌≡◌ {A = Answer (A × Db)} (row (a, d)) (row (b, e)) → d ≡ e
  row-snd h = cc

  pub one-row :
      (o : Option A) (d : Db) {a : A} {e : Db} → one o d ≡ row (a, e) → (o ≡ some a) × (e ≡ d)
  one-row none d h = absurd (cc)
  one-row (some b) d h = (ap some (row-fst h), sym (row-snd h))

  pub returning-row :
      {B : Type 0} (o : Option B) (f : B → Answer (A × Db)) {r : A × Db}
      → returning o f ≡ row r
      → (b : B) × (o ≡ some b) × (f b ≡ row r)
  returning-row none f h = absurd (cc)
  returning-row (some b) f h = (b, refl, h)

  -- A row that is there is not missed.
  pub one-missed :
      (o : Option A) (d : Db) {a : A} → o ≡ some a → (one o d ≡ no_rows) ⊎ (one o d ≡ failed) → ⊥
  one-missed none d e h = cc
  one-missed (some b) d e (inl h) = cc
  one-missed (some b) d e (inr h) = cc
