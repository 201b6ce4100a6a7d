-- ===== src/Rpc/Statements.antt =====
-- The rules for the statements of the database: what is known after one, whichever calls fail.
use iam_go_auth.Base.{
  ◌≢◌, Bool, true, false, ◌≡◌, refl, sym, ◌∙◌, ◌⊎◌, inl, inr, List, [], ◌∷◌, String,
}
use iam_go_auth.Db.Models.{Db}
use iam_go_auth.Db.Query.{Query, Answer, row, no_rows, failed}
use iam_go_auth.Rpc.{
  World, Status, Code, Tx, idle, open_tx, aborted, pure, next_fault, after_failure, settle, attempt,
  sent, exec, row_or_raise, must, try,
}
use iam_go_auth.Rpc.Laws.{Ends, After, after-pure, after-raise, after-bind, after-weaken}

-- The parts of the world that a statement of the database leaves alone.
pub record SameRest (w w' : World) : Type 0 where
  pub now : w'.now ≡ w.now
  pub entropy : w'.entropy ≡ w.entropy
  pub redis : w'.redis ≡ w.redis
  pub mails : w'.mails ≡ w.mails

-- The statement ran in `w`, gave `a` and left `w'`.
pub record Ran {A : Type 0} (q : Query A) (w : World) (a : A) (w' : World) : Type 0 where
  pub answered : q w.now w.db ≡ row (a, w'.db)
  pub same : SameRest w w'
  pub tx : w'.tx ≡ w.tx
  pub calm : w.faults ≡ [] → w'.faults ≡ []

absurd_cons : {fs : List Bool} {f : Bool} {rest : List Bool} → fs ≡ f ∷ rest → fs ≡ [] → ⊥
absurd_cons e n = cc

pub SameRest-refl : (w : World) → SameRest w w
SameRest-refl w = record { now = refl; entropy = refl; redis = refl; mails = refl }

SameRest-with :
    (w : World) (db : Db) (t : Tx) (fs : List Bool)
    → SameRest w (record w { db = db; tx = t; faults = fs })
SameRest-with w db t fs = record { now = refl; entropy = refl; redis = refl; mails = refl }

pub SameRest-trans : {u v w : World} → SameRest u v → SameRest v w → SameRest u w
SameRest-trans p q = record {
  now = q.now ∙ p.now;
  entropy = q.entropy ∙ p.entropy;
  redis = q.redis ∙ p.redis;
  mails = q.mails ∙ p.mails;
}

-- No call fails from here on, and the statements are not refused.
pub record Calm (w : World) : Type 0 where
  pub no_faults : w.faults ≡ []
  pub accepting : w.tx ≢ aborted

pub Calm-Ran : {A : Type 0} {q : Query A} {w w' : World} {a : A} → Ran q w a w' → Calm w → Calm w'
Calm-Ran r c = record {
  no_faults = r.calm c.no_faults;
  accepting = λ e. c.accepting (sym r.tx ∙ e);
}

-- What may be known where a statement did not give a row.
pub record Missed {A : Type 0} (q : Query A) (w w' : World) : Type 0 where
  pub db : w'.db ≡ w.db
  pub same : SameRest w w'
  -- no call failed and no transaction was aborted: so the statement itself gave no row
  pub cause : Calm w → (q w.now w.db ≡ no_rows) ⊎ (q w.now w.db ≡ failed)

module _ {A : Type 0} (q : Query A) (w : World) (P : Answer A → World → Type 0)
    (on_row : (a : A) (w' : World) → Ran q w a w' → P (row a) w')
    (on_empty : (w' : World) → q w.now w.db ≡ no_rows → Missed q w w' → P no_rows w')
    (on_failure : (w' : World) → Missed q w w' → P failed w') where
  settled :
      (x : Answer (A × Db)) (fs : List Bool)
      → (w.faults ≡ [] → fs ≡ [])
      → q w.now w.db ≡ x
      → Ends
          (settle x (record w { faults = fs })).0
          (settle x (record w { faults = fs })).1
          P
          (λ _ _. ⊥)
  unfolding settle
  settled (row (a, db)) fs calm e =
      on_row a (record w { faults = fs; db = db })
        (record { answered = e; same = SameRest-with w db w.tx fs; tx = refl; calm = calm })
  settled no_rows fs calm e =
      on_empty (record w { faults = fs }) e
        (record { db = refl; same = SameRest-with w w.db w.tx fs; cause = λ _. inl e })
  settled failed fs calm e =
      on_failure (record w { faults = fs; tx = after_failure w.tx })
        (record {
          db = refl;
          same = SameRest-with w w.db (after_failure w.tx) fs;
          cause = λ _. inr e;
        })

  attempted :
      (fs : List Bool)
      → w.faults ≡ fs
      → let (f, rest) = next_fault fs in
        Ends
          (attempt f q (record w { faults = rest })).0
          (attempt f q (record w { faults = rest })).1
          P
          (λ _ _. ⊥)
  unfolding attempt settle
  attempted [] e = settled (q w.now w.db) [] (λ _. refl) refl
  attempted (false ∷ rest) e = settled (q w.now w.db) rest (λ n. absurd (absurd_cons e n)) refl
  attempted (true ∷ rest) e =
      on_failure (record w { faults = rest; tx = after_failure w.tx })
        (record {
          db = refl;
          same = SameRest-with w w.db (after_failure w.tx) rest;
          cause = λ c. absurd (absurd_cons e c.no_faults);
        })

  sent-Ends : (t : Tx) → w.tx ≡ t → Ends (sent t q w).0 (sent t q w).1 P (λ _ _. ⊥)
  unfolding sent
  sent-Ends aborted e =
      on_failure w
        (record { db = refl; same = SameRest-refl w; cause = λ c. absurd (c.accepting e) })
  sent-Ends idle e = attempted w.faults refl
  sent-Ends open_tx e = attempted w.faults refl

  pub after-exec : After (exec q) w P (λ _ _. ⊥)
  unfolding exec
  after-exec = record { ends = sent-Ends w.tx refl }

module _ {A : Type 0} {P : A → World → Type 0} {E : Status → World → Type 0} where
  pub after-must :
      (q : Query A) (c : Code) (s : String) (w : World)
      → ((a : A) (w' : World) → Ran q w a w' → P a w')
      → ((w' : World) → Missed q w w' → E (record { code = c; message = s }) w')
      → After (must q c s) w P E
  unfolding must
  after-must q c s w p e =
      after-bind (exec q) (λ a. row_or_raise a c s) w
        (after-weaken (exec q) w
          (after-exec q w (λ a w'. After (row_or_raise a c s) w' P E)
            (λ a w' r. after-pure a w' (p a w' r)) (λ w' _ m. after-raise c s w' (e w' m))
            (λ w' m. after-raise c s w' (e w' m)))
          (λ _ _ x. x) (λ _ _ x. absurd x))

module _ {A : Type 0} {P : Unit {0} → World → Type 0} {E : Status → World → Type 0} where
  pub after-try :
      (q : Query A) (w : World)
      → ((a : A) (w' : World) → Ran q w a w' → P tt w')
      → ((w' : World) → Missed q w w' → P tt w')
      → After (try q) w P E
  unfolding try
  after-try q w p m =
      after-bind (exec q) (λ _. pure tt) w
        (after-weaken (exec q) w
          (after-exec q w (λ a w'. After (pure tt) w' P E) (λ a w' r. after-pure tt w' (p a w' r))
            (λ w' _ x. after-pure tt w' (m w' x)) (λ w' x. after-pure tt w' (m w' x)))
          (λ _ _ x. x) (λ _ _ x. absurd x))
