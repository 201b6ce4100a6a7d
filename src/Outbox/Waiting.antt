-- ===== src/Outbox/Waiting.antt =====
-- The rows of the outbox that a drain has still to publish.
use iam_go_auth.Base.{
  ℕ, Bool, true, false, not, ◌||◌, ◌&&◌, ◌≡◌, refl, ◌⊎◌, inl, inr, List, [], ◌∷◌, All, All-imp, any,
  is_some, ◌==◌, ==_refl, arith, Bool-cases, some, update_where,
}
use iam_go_auth.Db.Models.{Outbox}

-- Published, or an element of the list has its id.
abbrev pub Waiting : List Outbox → Outbox → Type 0
Waiting os o = (is_some o.published_at ≡ true) ⊎ (any (λ (k : Outbox). k.id == o.id) os ≡ true)

abbrev pub Published : Outbox → Type 0
Published o = is_some o.published_at ≡ true

-- IS NULL, of the column published_at.
abbrev pub unpublished : Outbox → Bool
unpublished o = not (is_some o.published_at)

abbrev pub listed : Outbox → List Outbox → Bool
listed o xs = any (λ (x : Outbox). unpublished x && (x.id == o.id)) xs

pub each_listed : (xs : List Outbox) → All (λ o. Published o ⊎ (listed o xs ≡ true)) xs
unfolding any
each_listed [] = tt
each_listed (x ∷ xs) = (first x, All-imp _ _ xs more (each_listed xs))
  where
    first : (o : Outbox) → Published o ⊎ (((unpublished o && (o.id == o.id)) || listed o xs) ≡ true)
    first o = elim (Bool-cases (is_some o.published_at)) [
      | inl e ↦ inl e
      | inr e ↦ inr (rw (e, ==_refl o.id) refl)
    ]

    more :
        (o : Outbox)
        → Published o ⊎ (listed o xs ≡ true)
        → Published o ⊎ (((unpublished x && (x.id == o.id)) || listed o xs) ≡ true)
    more o (inl e) = inl e
    more o (inr e) = inr (ground arith)

pub none_waits : (xs : List Outbox) → All (Waiting []) xs → All Published xs
unfolding any
none_waits xs = All-imp _ _ xs (λ o w. elim w [ inl e ↦ e | inr e ↦ ground arith ])

-- Marking the first one.
pub still_waits :
    (k : Outbox) (ks xs : List Outbox) (now : ℕ)
    → All (Waiting (k ∷ ks)) xs
    → All
        (Waiting ks)
        (update_where (λ (o : Outbox). o.id == k.id) (λ o. record o { published_at = some now }) xs)
unfolding any update_where
still_waits k ks [] now h = tt
still_waits k ks (x ∷ xs) now h = elim (Bool-cases (x.id == k.id)) [
  | inl e ↦ rw e (inl refl, still_waits k ks xs now h.1)
  | inr e ↦ rw e (later e h.0, still_waits k ks xs now h.1)
]
  where
    later : (x.id == k.id) ≡ false → Waiting (k ∷ ks) x → Waiting ks x
    later e (inl p) = inl p
    later e (inr p) = inr (ground arith)
