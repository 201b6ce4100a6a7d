-- ===== src/Db/Oauth/Laws.antt =====
-- An authorization code can be claimed once.
use iam_go_auth.Base.{
  ℕ, String, Bool, true, false, ◌≡◌, sym, ap, ◌∙◌, List, [], ◌∷◌, any, select, length, update_where,
  any-update_where_none, arith,
}
use iam_go_auth.Db.Models.{Db}
use iam_go_auth.Db.Query.{row}
use iam_go_auth.Db.Query.Laws.{row-fst, row-snd}
use iam_go_auth.Db.Oauth.{unclaimed, use_code, claim_authorization_code}

-- What a claim that affected one row did.
pub record Claimed (hash : String) (db db' : Db) : Type 0 where
  pub was_open : any (unclaimed hash) db.authorization_codes ≡ true
  pub none_open : any (unclaimed hash) db'.authorization_codes ≡ false
  pub change : db' ≡ record db {
    authorization_codes = update_where (unclaimed hash) use_code db.authorization_codes;
  }

any-select : {A : Type 0} (p : A → Bool) (xs : List A) → length (select p xs) ≡ 1 → any p xs ≡ true
unfolding any select
any-select p [] e = ground arith
any-select p (x ∷ xs) e = ground (arith, any-select p xs)

-- A claim that affects one row found the code unused, marks it as used and changes nothing else,
-- and after it no claim of the code affects a row.
pub claim-Claimed :
    (hash : String) (now : ℕ) (db db' : Db)
    → claim_authorization_code hash now db ≡ row (1, db')
    → Claimed hash db db'
unfolding claim_authorization_code
claim-Claimed hash now db db' e = record {
  was_open = any-select (unclaimed hash) db.authorization_codes (row-fst e);
  none_open =
      ap (λ (d : Db). any (unclaimed hash) d.authorization_codes) (sym (row-snd e))
      ∙ any-update_where_none (unclaimed hash) use_code (λ x. ground arith) db.authorization_codes;
  change = sym (row-snd e);
}
