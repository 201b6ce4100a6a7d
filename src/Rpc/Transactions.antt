-- ===== src/Rpc/Transactions.antt =====
-- The rule for a transaction: it commits what its body did, or leaves the tables as they were.
use iam_go_auth.Base.{Bool, true, false, ◌≡◌, refl, List, [], ◌∷◌}
use iam_go_auth.Db.Models.{Db}
use iam_go_auth.Rpc.{
  World, M, Result, ok, err, Status, Tx, idle, open_tx, aborted, next_fault, restore, roll_back,
  commit, finish, begin, in_tx,
}
use iam_go_auth.Rpc.Laws.{Ends, After}
use iam_go_auth.Rpc.Statements.{SameRest}

-- The body's world with the transaction ended: its tables were kept.
pub record Committed (w w' : World) : Type 0 where
  pub db : w'.db ≡ w.db
  pub same : SameRest w w'
  pub was_open : w.tx ≡ open_tx
  pub calm : w.faults ≡ [] → w'.faults ≡ []

-- The tables are those of `before`, whatever the body has written.
pub record Undone (before : Db) (w w' : World) : Type 0 where
  pub db : w'.db ≡ restore before w.db
  pub same : SameRest w w'

-- The world that the body starts in.
pub record Begun (w w' : World) : Type 0 where
  pub db : w'.db ≡ w.db
  pub same : SameRest w w'
  pub tx : w'.tx ≡ open_tx
  pub calm : w.faults ≡ [] → w'.faults ≡ []

same_rest :
    {w w' : World}
    → w'.now ≡ w.now
    → w'.entropy ≡ w.entropy
    → w'.redis ≡ w.redis
    → w'.mails ≡ w.mails
    → SameRest w w'
same_rest a b c d = record { now = a; entropy = b; redis = c; mails = d }

undone :
    (before : Db) (w : World) (fs : List Bool)
    → Undone before w (roll_back before (record w { faults = fs }))
unfolding roll_back
undone before w fs = record { db = refl; same = same_rest refl refl refl refl }

absurd_cons : {f : Bool} {fs gs : List Bool} {X : Type 0} → gs ≡ f ∷ fs → gs ≡ [] → X
absurd_cons p q = absurd (cc)

module _ {A : Type 0} (P : A → World → Type 0) (E : Status → World → Type 0) where
  -- What the end of the transaction needs to know of the end of its body.
  abbrev pub Kept : Db → Status → A → World → Type 0
  Kept before e a w =
      ((w' : World) → Committed w w' → P a w') × ((w' : World) → Undone before w w' → E e w')

  commit-Ends :
      (before : Db) (e : Status) (a : A) (w : World) (t : Tx) (fault : Bool) (fs : List Bool)
      → w.tx ≡ t
      → (w.faults ≡ [] → fault ≡ false)
      → (w.faults ≡ [] → fs ≡ [])
      → Kept before e a w
      → Ends
          (commit before e a t fault (record w { faults = fs })).0
          (commit before e a t fault (record w { faults = fs })).1
          P
          E
  unfolding commit
  commit-Ends before e a w open_tx false fs et ef calm k =
      k.0 (record w { faults = fs; tx = idle })
        (record { db = refl; same = same_rest refl refl refl refl; was_open = et; calm = calm })
  commit-Ends before e a w open_tx true fs et ef calm k = k.1 _ (undone before w fs)
  commit-Ends before e a w idle _ fs et ef calm k = k.1 _ (undone before w fs)
  commit-Ends before e a w aborted _ fs et ef calm k = k.1 _ (undone before w fs)

  finish-Ends :
      (before : Db) (e : Status) (r : Result A) (w : World) (fs : List Bool)
      → w.faults ≡ fs
      → Ends r w (Kept before e) (λ s w1. (w' : World) → Undone before w1 w' → E s w')
      → Ends (finish before e r w).0 (finish before e r w).1 P E
  unfolding finish
  finish-Ends before e (err s) w fs ef h = h _ (undone before w w.faults)
  finish-Ends before e (ok a) w [] ef h =
      rw ef (commit-Ends before e a w w.tx false [] refl (λ _. refl) (λ _. refl) h)
  finish-Ends before e (ok a) w (f ∷ rest) ef h =
      rw ef (commit-Ends before e a w w.tx f rest refl (absurd_cons ef) (absurd_cons ef) h)

  begin-Ends :
      (e e' : Status) (body : M A) (w : World) (fault : Bool) (fs : List Bool)
      → (w.faults ≡ [] → fs ≡ [])
      → ((w' : World) → w'.db ≡ w.db → SameRest w w' → E e w')
      → ((w1 : World)
          → Begun w w1
          → After body w1 (Kept w.db e') (λ s w2. (w' : World) → Undone w.db w2 w' → E s w'))
      → Ends
          (begin e e' fault body (record w { faults = fs })).0
          (begin e e' fault body (record w { faults = fs })).1
          P
          E
  unfolding begin
  begin-Ends e e' body w true fs calm f h =
      f (record w { faults = fs }) refl (same_rest refl refl refl refl)
  begin-Ends e e' body w false fs calm f h =
      let w1 : World = record w { faults = fs; tx = open_tx } in
      finish-Ends w.db e' (body w1).0 (body w1).1 (body w1).1.faults refl
        (h w1
          (record { db = refl; same = same_rest refl refl refl refl; tx = refl; calm = calm })).ends

module _ {A : Type 0} {P : A → World → Type 0} {E : Status → World → Type 0} where
  -- The transaction did not begin, or the body ran and its end decides.
  pub after-in_tx :
      (e e' : Status) (body : M A) (w : World)
      → ((w' : World) → w'.db ≡ w.db → SameRest w w' → E e w')
      → ((w1 : World)
          → Begun w w1
          → After body w1 (Kept P E w.db e') (λ s w2. (w' : World) → Undone w.db w2 w' → E s w'))
      → After (in_tx e e' body) w P E
  unfolding in_tx
  after-in_tx e e' body w f h = record { ends = from w.faults refl }
    where
      from :
          (fs : List Bool)
          → w.faults ≡ fs
          → let (fault, rest) = next_fault fs in
            Ends
              (begin e e' fault body (record w { faults = rest })).0
              (begin e e' fault body (record w { faults = rest })).1
              P
              E
      from [] ef = begin-Ends P E e e' body w false [] (λ _. refl) f h
      from (b ∷ rest) ef = begin-Ends P E e e' body w b rest (absurd_cons ef) f h
