-- ===== src/Base/Decimal.antt =====
-- strconv.Itoa, as fmt writes %d.
use Prim.Native.Nat.{ℕ, zero, suc, ◌+◌, ◌/◌, ◌%◌, ◌<◌}
use Prim.Native.String.{String}
use mathlib.Core.Path.{◌≡◌, refl}
use mathlib.Core.Bool.{Bool}
use mathlib.Core.Logic.{inl, inr}
use native.Mathlib.Omega.{arith}
use iam_go_auth.Base.Tests.{if◌then◌else◌, ltb, str_append, ◌==◌, Bool-cases}

abbrev pub digit : ℕ → String
digit d =
    if d == 0
    then "0"
    else if d == 1
    then "1"
    else if d == 2
    then "2"
    else if d == 3
    then "3"
    else if d == 4
    then "4"
    else if d == 5
    then "5"
    else if d == 6
    then "6"
    else if d == 7
    then "7"
    else if d == 8
    then "8"
    else "9"

-- The digits of `n` before `acc`, at most `fuel` of them.
unfoldable pub digits : ℕ → ℕ → String → String
digits zero n acc = acc
digits (suc fuel) n acc =
    let acc' = str_append (digit (n % 10)) acc in
    let rest = digits fuel (n / 10) acc' in if ltb n 10 then acc' else rest

unfoldable pub decimal : ℕ → String
unfolding digits
decimal n = digits (n + 1) n ""

smaller : (n fuel : ℕ) → n < suc fuel → ltb n 10 ≡ Bool.false → n / 10 < fuel
smaller n fuel h e = ground arith

-- No number is cut off: all fuel beyond the number gives the same digits.
pub digits-enough : (a b n : ℕ) (acc : String) → n < a → n < b → digits a n acc ≡ digits b n acc
unfolding digits
digits-enough zero b n acc ha hb = ground arith
digits-enough (suc a) zero n acc ha hb = ground arith
digits-enough (suc a) (suc b) n acc ha hb = elim (Bool-cases (ltb n 10)) [
  | inl e ↦ rw e refl
  | inr e ↦ rw e (digits-enough a b (n / 10) _ (smaller n a ha e) (smaller n b hb e))
]
