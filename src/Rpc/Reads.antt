-- ===== src/Rpc/Reads.antt =====
-- The rules for a statement that only reads.
use iam_go_auth.Base.{ℕ, String, ◌≡◌, refl, sym, subst, ◌∙◌, Option, some}
use iam_go_auth.Db.Models.{Db}
use iam_go_auth.Db.Query.{Query, one, wrote}
use iam_go_auth.Db.Query.Laws.{one-row, row-fst, row-snd}
use iam_go_auth.Rpc.{World, Status, Code, must}
use iam_go_auth.Rpc.Laws.{After}
use iam_go_auth.Rpc.Statements.{Calm, Calm-Ran, SameRest, SameRest-refl, SameRest-trans, after-must}

-- Nothing but the list of faults differs.
pub record Read (w w' : World) : Type 0 where
  pub db : w'.db ≡ w.db
  pub same : SameRest w w'
  pub calm : Calm w → Calm w'

pub Read-refl : (w : World) → Read w w
Read-refl w = record { db = refl; same = SameRest-refl w; calm = λ c. c }

pub Read-trans : {u v w : World} → Read u v → Read v w → Read u w
Read-trans p q = record {
  db = q.db ∙ p.db;
  same = SameRest-trans p.same q.same;
  calm = λ c. q.calm (p.calm c);
}

module _ {A : Type 0} {P : A → World → Type 0} {E : Status → World → Type 0} where
  -- SELECT of one row.
  pub after-must_one :
      (q : Query A) (found : ℕ → Db → Option A) (c : Code) (s : String) (w : World)
      → ((now : ℕ) (db : Db) → q now db ≡ one (found now db) db)
      → ((a : A) (w' : World) → found w.now w.db ≡ some a → Read w w' → P a w')
      → ((w' : World) → w'.db ≡ w.db → E (record { code = c; message = s }) w')
      → After (must q c s) w P E
  after-must_one q found c s w reads p e =
      after-must q c s w
        (λ a w' ran.
          let (hit, same) = one-row _ _ (sym (reads w.now w.db) ∙ ran.answered) in
          p a w' hit (record { db = same; same = ran.same; calm = Calm-Ran ran }))
        (λ w' m. e w' m.db)

  -- SELECT of a value that is always there.
  pub after-must_value :
      (q : Query A) (value : ℕ → Db → A) (c : Code) (s : String) (w : World)
      → ((now : ℕ) (db : Db) → q now db ≡ wrote (value now db) db)
      → ((w' : World) → Read w w' → P (value w.now w.db) w')
      → ((w' : World) → w'.db ≡ w.db → E (record { code = c; message = s }) w')
      → After (must q c s) w P E
  after-must_value q value c s w reads p e =
      after-must q c s w
        (λ a w' ran.
          let gave = sym (reads w.now w.db) ∙ ran.answered in
          subst (λ x. P x w') (row-fst gave)
            (p w' (record { db = sym (row-snd gave); same = ran.same; calm = Calm-Ran ran })))
        (λ w' m. e w' m.db)
