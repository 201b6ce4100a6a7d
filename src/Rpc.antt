-- ===== src/Rpc.antt =====
-- What a handler runs in: the world outside it, calls that may fail, and the result of a gRPC
-- method, a value or a status error.
--
-- A call of the database or of Redis fails when the next element of `faults` is true, and after the
-- last element no call fails: a theorem over every list of faults holds whichever calls fail. The
-- draws of crypto/rand come from `entropy` in the encoding of their use; a draw past the end fails.
-- The clock stands still during one method.
pub mod Laws
pub mod Statements
pub mod Transactions
pub mod Reads
use iam_go_auth.Base.{ℕ, String, Bool, true, false, Option, none, some, List, [], ◌∷◌, ◌++◌}
use iam_go_auth.Db.Models.{Db}
use iam_go_auth.Db.Query.{Query, Answer, row, no_rows, failed}

-- google.golang.org/grpc/codes, as far as it is used.
pub data Code : Type 0 where
  invalid_argument unauthenticated permission_denied not_found already_exists : Code
  failed_precondition internal : Code

pub record Status : Type 0 where
  pub code : Code
  pub message : String

pub data Result (A : Type 0) : Type 0 where
  ok : A → Result A
  err : Status → Result A

abbrev pub is_ok : {A : Type 0} → Result A → Bool
is_ok (ok a) = true
is_ok (err e) = false

-- A transaction of the connection: none, an open one, or one in which a statement failed, so that
-- the server refuses every further statement of it.
pub data Tx : Type 0 where
  idle open_tx aborted : Tx

pub record Mail : Type 0 where
  pub to : String
  pub subject : String
  pub body : String

-- An entry of Redis: its key, its value and the instant at which it expires.
pub record Entry : Type 0 where
  pub key : String
  pub value : String
  pub expires : ℕ

pub record World : Type 0 where
  pub db : Db
  pub now : ℕ
  pub tx : Tx
  pub faults : List Bool
  pub entropy : List String
  pub redis : List Entry
  pub mails : List Mail

abbrev pub M : Type 0 → Type 0
M A = World → Result A × World

pub pure : {A : Type 0} → A → M A
pure a w = (ok a, w)

pub raise : {A : Type 0} → Code → String → M A
raise code message w = (err (record { code = code; message = message }), w)

-- if cond { return nil, status.Error(code, message) }
pub fail_if : Bool → Code → String → M (Unit {0})
unfolding pure raise
fail_if true code message = raise code message
fail_if false code message = pure tt

pub when : Bool → M (Unit {0}) → M (Unit {0})
unfolding pure
when true m = m
when false m = pure tt

pub or_raise : {A : Type 0} → Option A → Code → String → M A
unfolding pure raise
or_raise none code message = raise code message
or_raise (some a) code message = pure a

-- time.Now()
pub get_now : M ℕ
get_now w = (ok w.now, w)

-- rand.Read, encoded.
abbrev pub draw_from : List String → M (Option String)
draw_from [] w = (ok none, w)
draw_from (s ∷ rest) w = (ok (some s), record w { entropy = rest })

pub draw : M (Option String)
draw w = draw_from w.entropy w

pub send : String → String → String → M (Unit {0})
send to subject body w =
    (ok tt, record w { mails = w.mails ++ record { to = to; subject = subject; body = body } ∷ [] })

module _ {A B : Type 0} where
  abbrev pub continue : Result A → (A → M B) → M B
  continue (ok a) f w = f a w
  continue (err e) f w = (err e, w)

  infixl 5 ◌>>=◌ ◌>>◌
  -- Opening this opens the actions above too.
  unfoldable pub ◌>>=◌ : M A → (A → M B) → M B
  unfolding pure raise fail_if when or_raise get_now draw send
  ◌>>=◌ m f w = let (r, w') = m w in continue r f w'

  abbrev pub ◌>>◌ : M A → M B → M B
  m >> k = m >>= λ _. k

-- `if err := m; err != nil`, where the error itself is dropped: whether the call succeeded.
unfoldable pub succeeded : {A : Type 0} → M A → M Bool
succeeded m w = let (r, w') = m w in (ok (is_ok r), w')

-- Whether the next call fails, and the faults after it.
abbrev pub next_fault : List Bool → Bool × List Bool
next_fault [] = (false, [])
next_fault (f ∷ fs) = (f, fs)

abbrev pub after_failure : Tx → Tx
after_failure idle = idle
after_failure open_tx = aborted
after_failure aborted = aborted

module _ {A : Type 0} where
  settle : Answer (A × Db) → M (Answer A)
  settle (row (a, db)) w = (ok (row a), record w { db = db })
  settle no_rows w = (ok no_rows, w)
  settle failed w = (ok failed, record w { tx = after_failure w.tx })

  attempt : Bool → Query A → M (Answer A)
  unfolding settle
  attempt true q w = settle failed w
  attempt false q w = settle (q w.now w.db) w

  sent : Tx → Query A → M (Answer A)
  unfolding attempt
  sent aborted q w = (ok failed, w)
  sent _ q w =
      let (fault, rest) = next_fault w.faults in attempt fault q (record w { faults = rest })

  -- One statement: `v, err := q.Statement(ctx, ...)`.
  unfoldable pub exec : Query A → M (Answer A)
  unfolding sent
  exec q w = sent w.tx q w

  pub row_or_raise : Answer A → Code → String → M A
  unfolding pure raise
  row_or_raise (row a) code message = pure a
  row_or_raise no_rows code message = raise code message
  row_or_raise failed code message = raise code message

  -- `if err != nil { return nil, status.Error(code, message) }` after a statement.
  unfoldable pub must : Query A → Code → String → M A
  unfolding exec ◌>>=◌ row_or_raise
  must q code message = do a ← exec q; row_or_raise a code message

  -- `_ = q.Statement(ctx, ...)`
  unfoldable pub try : Query A → M (Unit {0})
  unfolding exec ◌>>=◌
  try q = do exec q; pure tt

-- The tables as they were; what sequences and gen_random_uuid() gave out stays given out.
abbrev pub restore : Db → Db → Db
restore before after = record before { drawn = after.drawn; next_serial = after.next_serial }

roll_back : Db → World → World
roll_back before w = record w { db = restore before w.db; tx = idle }

module _ {A : Type 0} where
  commit : Db → Status → A → Tx → Bool → M A
  unfolding roll_back
  commit before e a open_tx false w = (ok a, record w { tx = idle })
  commit before e a _ _ w = (err e, roll_back before w)

  finish : Db → Status → Result A → M A
  unfolding commit
  finish before e (err e') w = (err e', roll_back before w)
  finish before e (ok a) w =
      let (fault, rest) = next_fault w.faults in
      commit before e a w.tx fault (record w { faults = rest })

  begin : Status → Status → Bool → M A → M A
  unfolding finish
  begin e e' true body w = (err e, w)
  begin e e' false body w = let (r, w') = body (record w { tx = open_tx }) in finish w.db e' r w'

  -- pool.Begin, the body, Commit, with Rollback deferred: its errors are the first two arguments.
  unfoldable pub in_tx : Status → Status → M A → M A
  unfolding begin
  in_tx e e' body w =
      let (fault, rest) = next_fault w.faults in begin e e' fault body (record w { faults = rest })
