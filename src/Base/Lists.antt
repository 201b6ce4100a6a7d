-- ===== src/Base/Lists.antt =====
-- Tables as lists: the scans that the SQL statements are made of.
use Prim.Native.Nat.{ℕ, zero, suc}
use Prim.Native.String.{String}
use mathlib.Core.Path.{◌≡◌, refl, sym, ◌∙◌, subst}
use mathlib.Core.Logic.{inl, inr}
use mathlib.Core.Option
use mathlib.Core.Bool.{Bool, true, false, ◌||◌}
use mathlib.Core.Option.{Option, none, some}
use mathlib.Core.List.{List, [], ◌∷◌, ◌++◌}
use native.Mathlib.Omega.{arith}
use iam_go_auth.Base.Tests.{if◌then◌else◌, Bool-cases, str_eq}

module _ {ℓ} {A : Type ℓ} where
  abbrev pub length : List A → ℕ
  length [] = 0
  length (x ∷ xs) = suc (length xs)

  abbrev pub head : List A → Option A
  head [] = none
  head (x ∷ xs) = some x

  -- LIMIT n
  abbrev pub take : ℕ → List A → List A
  take zero xs = []
  take (suc n) [] = []
  take (suc n) (x ∷ xs) = x ∷ take n xs

  -- Every element has the property.
  abbrev pub All {κ} : (A → Type κ) → List A → Type κ
  All P [] = Unit
  All P (x ∷ xs) = P x × All P xs

  -- EXISTS (SELECT 1 ... WHERE p)
  unfoldable pub any : (A → Bool) → List A → Bool
  any p [] = false
  any p (x ∷ xs) = p x || any p xs

  -- SELECT ... WHERE p, on a key that at most one row has
  unfoldable pub find : (A → Bool) → List A → Option A
  find p [] = none
  find p (x ∷ xs) = if p x then some x else find p xs

  -- SELECT ... WHERE p
  unfoldable pub select : (A → Bool) → List A → List A
  select p [] = []
  select p (x ∷ xs) = let rest = select p xs in if p x then x ∷ rest else rest

  -- UPDATE ... SET f WHERE p
  unfoldable pub update_where : (A → Bool) → (A → A) → List A → List A
  update_where p f [] = []
  update_where p f (x ∷ xs) = (if p x then f x else x) ∷ update_where p f xs

  -- DELETE ... WHERE p
  unfoldable pub delete_where : (A → Bool) → List A → List A
  delete_where p [] = []
  delete_where p (x ∷ xs) = let rest = delete_where p xs in if p x then rest else x ∷ rest

  -- SELECT f, of the rows that have one
  unfoldable pub filter_map {κ} : {B : Type κ} → (A → Option B) → List A → List B
  filter_map f [] = []
  filter_map f (x ∷ xs) =
      let rest = filter_map f xs in elim (f x) [ none ↦ rest | some b ↦ b ∷ rest ]

  unfoldable pub flat_map {κ} : {B : Type κ} → (A → List B) → List A → List B
  flat_map f [] = []
  flat_map f (x ∷ xs) = f x ++ flat_map f xs

  unfoldable pub insert_by : (A → A → Bool) → A → List A → List A
  insert_by le a [] = a ∷ []
  insert_by le a (x ∷ xs) = let rest = insert_by le a xs in if le a x then a ∷ x ∷ xs else x ∷ rest

  -- ORDER BY, a stable sort.
  unfoldable pub sort_by : (A → A → Bool) → List A → List A
  unfolding insert_by
  sort_by le [] = []
  sort_by le (x ∷ xs) = insert_by le x (sort_by le xs)

-- SELECT DISTINCT, on texts
unfoldable pub distinct : List String → List String
distinct [] = []
distinct (x ∷ xs) = let rest = distinct xs in if any (str_eq x) rest then rest else x ∷ rest

module _ {ℓ} {A : Type ℓ} where
  pub find-holds : (p : A → Bool) (xs : List A) {a : A} → find p xs ≡ some a → p a ≡ true
  unfolding find
  find-holds p [] {a} h = ground arith
  find-holds p (x ∷ xs) {a} h = ground (arith, find-holds p xs {a = a})

  pub any-find : (p : A → Bool) (xs : List A) {a : A} → find p xs ≡ some a → any p xs ≡ true
  unfolding find any
  any-find p [] {a} h = ground arith
  any-find p (x ∷ xs) {a} h = ground (arith, any-find p xs {a = a})

  pub find-append :
      (p : A → Bool) (xs ys : List A) → any p xs ≡ false → find p (xs ++ ys) ≡ find p ys
  unfolding find any
  find-append p [] ys h = refl
  find-append p (x ∷ xs) ys h = ground (arith, find-append p xs ys)

  pub All-append {κ} : (P : A → Type κ) (xs ys : List A) → All P xs → All P ys → All P (xs ++ ys)
  All-append P [] ys hx hy = hy
  All-append P (x ∷ xs) ys hx hy = (hx.0, All-append P xs ys hx.1 hy)

  pub All-imp {κ} : (P Q : A → Type κ) (xs : List A) → ((x : A) → P x → Q x) → All P xs → All Q xs
  All-imp P Q [] f h = tt
  All-imp P Q (x ∷ xs) f h = (f x h.0, All-imp P Q xs f h.1)

  same : {x a : A} → some x ≡ some a → x ≡ a
  same e = cc

  none_found : (p : A → Bool) {a : A} → ¬ (find p [] ≡ some a)
  unfolding find
  none_found p e = cc

  find_hit : (p : A → Bool) (x : A) (xs : List A) → p x ≡ true → find p (x ∷ xs) ≡ some x
  unfolding find
  find_hit p x xs e = rw e

  find_miss : (p : A → Bool) (x : A) (xs : List A) → p x ≡ false → find p (x ∷ xs) ≡ find p xs
  unfolding find
  find_miss p x xs e = rw e

  pub All-find {κ} :
      (P : A → Type κ) (p : A → Bool) (xs : List A) {a : A} → find p xs ≡ some a → All P xs → P a
  All-find P p [] e h = absurd (none_found p e)
  All-find P p (x ∷ xs) e h = elim (Bool-cases (p x)) [
    | inl hit ↦ subst P (same (sym (find_hit p x xs hit) ∙ e)) h.0
    | inr miss ↦ All-find P p xs (sym (find_miss p x xs miss) ∙ e) h.1
  ]

  -- A property that the update keeps, or makes, holds of the updated table.
  pub All-update_where {κ} :
      (P : A → Type κ) (p : A → Bool) (f : A → A) (xs : List A)
      → ((x : A) → P x → p x ≡ true → P (f x))
      → All P xs
      → All P (update_where p f xs)
  unfolding update_where
  All-update_where P p f [] keep h = tt
  All-update_where P p f (x ∷ xs) keep h = elim (Bool-cases (p x)) [
    | inl e ↦ rw e (keep x h.0 e, All-update_where P p f xs keep h.1)
    | inr e ↦ rw e (h.0, All-update_where P p f xs keep h.1)
  ]

  pub All-delete_where {κ} :
      (P : A → Type κ) (p : A → Bool) (xs : List A) → All P xs → All P (delete_where p xs)
  unfolding delete_where
  All-delete_where P p [] h = tt
  All-delete_where P p (x ∷ xs) h = elim (Bool-cases (p x)) [
    | inl e ↦ rw e (All-delete_where P p xs h.1)
    | inr e ↦ rw e (h.0, All-delete_where P p xs h.1)
  ]

  -- After an update that leaves the key alone, a look-up by the key finds the updated row.
  pub find-update_where :
      (q p : A → Bool) (f : A → A)
      → ((x : A) → q (f x) ≡ q x)
      → (xs : List A)
      → find q (update_where p f xs) ≡ Option.map (λ x. if p x then f x else x) (find q xs)
  unfolding find update_where
  find-update_where q p f keep [] = refl
  find-update_where q p f keep (x ∷ xs) = ground (arith, keep x, find-update_where q p f keep xs)

  pub any-update_where :
      (q p : A → Bool) (f : A → A)
      → ((x : A) → q (f x) ≡ q x)
      → (xs : List A) → any q (update_where p f xs) ≡ any q xs
  unfolding any update_where
  any-update_where q p f keep [] = refl
  any-update_where q p f keep (x ∷ xs) = ground (arith, keep x, any-update_where q p f keep xs)

  pub any-append : (p : A → Bool) (xs ys : List A) → any p (xs ++ ys) ≡ (any p xs || any p ys)
  unfolding any
  any-append p [] ys = refl
  any-append p (x ∷ xs) ys = ground (arith, any-append p xs ys)

  pub any-append_new :
      (p : A → Bool) (xs : List A) (a : A) → p a ≡ true → any p (xs ++ a ∷ []) ≡ true
  unfolding any
  any-append_new p [] a e = rw e refl
  any-append_new p (x ∷ xs) a e = ground (arith, any-append_new p xs a)

  -- No row is left that an update turns away from what it selects.
  pub any-update_where_none :
      (p : A → Bool) (f : A → A)
      → ((x : A) → p (f x) ≡ false)
      → (xs : List A) → any p (update_where p f xs) ≡ false
  unfolding any update_where
  any-update_where_none p f turns [] = refl
  any-update_where_none p f turns (x ∷ xs) =
      ground (arith, turns x, any-update_where_none p f turns xs)

  pub any-delete_where : (p : A → Bool) (xs : List A) → any p (delete_where p xs) ≡ false
  unfolding any delete_where
  any-delete_where p [] = refl
  any-delete_where p (x ∷ xs) = ground (arith, any-delete_where p xs)

  pub any-or : (p q : A → Bool) (xs : List A) → any (λ x. p x || q x) xs ≡ (any p xs || any q xs)
  unfolding any
  any-or p q [] = refl
  any-or p q (x ∷ xs) = ground (arith, any-or p q xs)

  -- The row that was appended is found, where no row had its key.
  pub find-append_new :
      (p : A → Bool) (xs : List A) (a : A)
      → any p xs ≡ false
      → p a ≡ true
      → find p (xs ++ a ∷ []) ≡ some a
  unfolding find
  find-append_new p xs a h e = rw (find-append p xs (a ∷ []) h, find, e)
