-- ===== src/Base/Order.antt =====
-- What sorting, cutting off and removing duplicates keep of a list.
use Prim.Native.Nat.{ℕ, zero, suc, ◌≤◌}
use Prim.Native.String.{String}
use mathlib.Core.Path.{◌≡◌, refl, sym, subst, ◌∙◌, ap}
use mathlib.Core.Logic.{inl, inr}
use mathlib.Core.Bool.{Bool, true, false, ◌||◌, ◌&&◌}
use mathlib.Core.List.{List, [], ◌∷◌}
use native.Mathlib.Omega.{arith}
use text.Mathlib.TextEquality.{eq_iff}
use iam_go_auth.Base.Tests.{if◌then◌else◌, Bool-cases, str_eq}
use iam_go_auth.Base.Lists.{
  length, take, All, any, select, insert_by, sort_by, flat_map, distinct, any-append,
}

module _ {ℓ} {A : Type ℓ} where
  pub length-take : (n : ℕ) (xs : List A) → length (take n xs) ≤ n
  length-take zero xs = ground arith
  length-take (suc n) [] = ground arith
  length-take (suc n) (x ∷ xs) = next (length-take n xs)
    where
      next : {a b : ℕ} → a ≤ b → suc a ≤ suc b
      next h = omega arith

  pub All-take {κ} : (P : A → Type κ) (n : ℕ) (xs : List A) → All P xs → All P (take n xs)
  All-take P zero xs h = tt
  All-take P (suc n) [] h = tt
  All-take P (suc n) (x ∷ xs) h = (h.0, All-take P n xs h.1)

  pub All-select : (p : A → Bool) (xs : List A) → All (λ x. p x ≡ true) (select p xs)
  unfolding select
  All-select p [] = tt
  All-select p (x ∷ xs) = elim (Bool-cases (p x)) [
    | inl e ↦ rw e (e, All-select p xs)
    | inr e ↦ rw e (All-select p xs)
  ]

  -- Of the selected elements, as a condition on all of them.
  pub any-select_and :
      (p q : A → Bool) (xs : List A) → any p (select q xs) ≡ any (λ x. q x && p x) xs
  unfolding select any
  any-select_and p q [] = refl
  any-select_and p q (x ∷ xs) = ground (arith, any-select_and p q xs)

  length-insert_by :
      (le : A → A → Bool) (a : A) (xs : List A) → length (insert_by le a xs) ≡ suc (length xs)
  unfolding insert_by
  length-insert_by le a [] = refl
  length-insert_by le a (x ∷ xs) = elim (Bool-cases (le a x)) [
    | inl e ↦ rw e refl
    | inr e ↦ rw e (ap suc (length-insert_by le a xs))
  ]

  pub length-sort_by : (le : A → A → Bool) (xs : List A) → length (sort_by le xs) ≡ length xs
  unfolding sort_by
  length-sort_by le [] = refl
  length-sort_by le (x ∷ xs) = length-insert_by le x (sort_by le xs) ∙ ap suc (length-sort_by le xs)

  pub take_all : (n : ℕ) (xs : List A) → length xs ≤ n → take n xs ≡ xs
  take_all zero [] h = refl
  take_all zero (x ∷ xs) h = ground arith
  take_all (suc n) [] h = refl
  take_all (suc n) (x ∷ xs) h = ap (λ ys. x ∷ ys) (take_all n xs (less h))
    where
      less : {a b : ℕ} → suc a ≤ suc b → a ≤ b
      less l = omega arith

  All-insert_by {κ} :
      (P : A → Type κ) (le : A → A → Bool) (a : A) (xs : List A)
      → P a
      → All P xs
      → All P (insert_by le a xs)
  unfolding insert_by
  All-insert_by P le a [] pa h = (pa, tt)
  All-insert_by P le a (x ∷ xs) pa h = put (le a x) h.0 h.1 (All-insert_by P le a xs pa h.1)
    where
      put :
          (b : Bool)
          → P x
          → All P xs
          → All P (insert_by le a xs)
          → let rest = insert_by le a xs in All P (if b then a ∷ x ∷ xs else x ∷ rest)
      put true px hx r = (pa, (px, hx))
      put false px hx r = (px, r)

  pub All-sort_by {κ} :
      (P : A → Type κ) (le : A → A → Bool) (xs : List A) → All P xs → All P (sort_by le xs)
  unfolding sort_by
  All-sort_by P le [] h = tt
  All-sort_by P le (x ∷ xs) h = All-insert_by P le x (sort_by le xs) h.0 (All-sort_by P le xs h.1)

  any-insert_by :
      (p : A → Bool) (le : A → A → Bool) (a : A) (xs : List A)
      → any p (insert_by le a xs) ≡ (p a || any p xs)
  unfolding insert_by any
  any-insert_by p le a [] = refl
  any-insert_by p le a (x ∷ xs) = ground (arith, any-insert_by p le a xs)

  -- Sorting keeps what is there.
  pub any-sort_by :
      (p : A → Bool) (le : A → A → Bool) (xs : List A) → any p (sort_by le xs) ≡ any p xs
  unfolding sort_by any
  any-sort_by p le [] = refl
  any-sort_by p le (x ∷ xs) =
      any-insert_by p le x (sort_by le xs) ∙ ap (λ b. p x || b) (any-sort_by p le xs)

  pub any-flat_map {κ} :
      {B : Type κ} (p : B → Bool) (f : A → List B) (xs : List A)
      → any p (flat_map f xs) ≡ any (λ x. any p (f x)) xs
  unfolding flat_map any
  any-flat_map p f [] = refl
  any-flat_map p f (x ∷ xs) =
      any-append p (f x) (flat_map f xs) ∙ ap (λ b. any p (f x) || b) (any-flat_map p f xs)

-- Removing duplicates keeps what is there.
pub any-distinct :
    (s : String) (xs : List String) → any (str_eq s) (distinct xs) ≡ any (str_eq s) xs
unfolding distinct any
any-distinct s [] = refl
any-distinct s (x ∷ xs) = on (any (str_eq x) (distinct xs)) refl (any-distinct s xs)
  where
    on :
        (b : Bool)
        → any (str_eq x) (distinct xs) ≡ b
        → any (str_eq s) (distinct xs) ≡ any (str_eq s) xs
        → let rest = distinct xs in
          any (str_eq s) (if b then rest else x ∷ rest) ≡ (str_eq s x || any (str_eq s) xs)
    on true seen ih = elim (Bool-cases (str_eq s x)) [
      | inl h ↦
          subst (λ y. any (str_eq y) (distinct xs) ≡ true) (sym ((eq_iff s x).0 h)) seen
          ∙ sym (ap (λ b. b || any (str_eq s) xs) h)
      | inr h ↦ ih ∙ sym (ap (λ b. b || any (str_eq s) xs) h)
    ]
    on false seen ih = ap (λ b. str_eq s x || b) ih
