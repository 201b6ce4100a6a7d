-- ===== src/Db/Recovery/Laws.antt =====
-- A recovery code can be spent once.
use iam_go_auth.Base.{
  ℕ, String, true, false, ◌≡◌, sym, ap, ◌∙◌, some, any, find, any-find, update_where,
  any-update_where_none, arith,
}
use iam_go_auth.Db.Models.{Db, TotpRecoveryCode}
use iam_go_auth.Db.Query.{row, wrote}
use iam_go_auth.Db.Query.Laws.{row-snd, returning-row}
use iam_go_auth.Db.Recovery.{code_open, consume_recovery_code}

-- What ConsumeRecoveryCode did, where it gave a row.
pub record Spent (user : ℕ) (hash : String) (now : ℕ) (db db' : Db) : Type 0 where
  pub was_open : any (code_open user hash) db.recovery_codes ≡ true
  pub change : db' ≡ record db {
    recovery_codes =
        update_where
          (code_open user hash)
          (λ (o : TotpRecoveryCode). record o { used_at = some now })
          db.recovery_codes;
  }
  pub none_open : any (code_open user hash) db'.recovery_codes ≡ false

-- A recovery code that is spent was unused, exactly the rows with its hash and user are marked as
-- used now, and after that none of them can be spent again.
pub consume_recovery_code-Spent :
    (user : ℕ) (hash : String) (now : ℕ) (db : Db) (id : ℕ) (db' : Db)
    → consume_recovery_code user hash now db ≡ row (id, db')
    → Spent user hash now db db'
unfolding consume_recovery_code
consume_recovery_code-Spent user hash now db id db' e =
    let (c, found, e') =
      returning-row {B = TotpRecoveryCode} (find (code_open user hash) db.recovery_codes)
        (λ c. wrote c.id (record db {
          recovery_codes =
              update_where (code_open user hash)
                (λ (o : TotpRecoveryCode). record o { used_at = some now }) db.recovery_codes;
        }))
        e in
    record {
      was_open = any-find (code_open user hash) db.recovery_codes found;
      change = sym (row-snd e');
      none_open =
          ap (λ (d : Db). any (code_open user hash) d.recovery_codes) (sym (row-snd e'))
          ∙ any-update_where_none (code_open user hash) _ (λ x. ground arith) db.recovery_codes;
    }
