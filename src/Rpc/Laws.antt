-- ===== src/Rpc/Laws.antt =====
-- How an action ends, with one rule for each way to build it. A property of a method is stated for
-- every list of faults by `After`, with a condition for a value and one for a status error.
use iam_go_auth.Base.{
  ℕ, Bool, true, false, ◌≡◌, refl, List, [], ◌∷◌, String, Option, none, some, if◌then◌else◌,
}
use iam_go_auth.Rpc.{
  World, M, Result, ok, err, Status, Code, pure, raise, continue, ◌>>=◌, draw, draw_from, fail_if,
  or_raise, when, get_now,
}

abbrev pub Ends :
    {A : Type 0} → Result A → World → (A → World → Type 0) → (Status → World → Type 0) → Type 0
Ends (ok a) w P E = P a w
Ends (err s) w P E = E s w

-- From `w` the action ends with a value and a world that satisfy `P`, or with an error and a world
-- that satisfy `E`.
pub record After {A : Type 0} (m : M A) (w : World) (P : A → World → Type 0)
    (E : Status → World → Type 0) : Type 0 where
  pub ends : Ends (m w).0 (m w).1 P E

module _ {A : Type 0} {P : A → World → Type 0} {E : Status → World → Type 0} where
  pub after-pure : (a : A) (w : World) → P a w → After (pure a) w P E
  unfolding pure
  after-pure a w p = record { ends = p }

  pub after-raise :
      (c : Code) (s : String) (w : World)
      → E (record { code = c; message = s }) w
      → After (raise c s) w P E
  unfolding raise
  after-raise c s w e = record { ends = e }

  pub after-or_raise :
      (o : Option A) (c : Code) (s : String) (w : World)
      → ((a : A) → o ≡ some a → P a w)
      → (o ≡ none → E (record { code = c; message = s }) w)
      → After (or_raise o c s) w P E
  unfolding or_raise
  after-or_raise none c s w p e = record { ends = e refl }
  after-or_raise (some a) c s w p e = record { ends = p a refl }

  pub after-if :
      (b : Bool) (m n : M A) (w : World)
      → (b ≡ true → After m w P E)
      → (b ≡ false → After n w P E)
      → After (if b then m else n) w P E
  after-if true m n w p q = p refl
  after-if false m n w p q = q refl

module _ {A : Type 0} {P Q : A → World → Type 0} {E F : Status → World → Type 0} where
  weaken :
      (r : Result A) (w : World)
      → ((a : A) (w' : World) → Q a w' → P a w')
      → ((s : Status) (w' : World) → F s w' → E s w')
      → Ends r w Q F
      → Ends r w P E
  weaken (ok a) w p e x = p a w x
  weaken (err s) w p e x = e s w x

  -- The conditions may be weakened.
  pub after-weaken :
      (m : M A) (w : World)
      → After m w Q F
      → ((a : A) (w' : World) → Q a w' → P a w')
      → ((s : Status) (w' : World) → F s w' → E s w')
      → After m w P E
  after-weaken m w h p e = record { ends = weaken (m w).0 (m w).1 p e h.ends }

module _ {P : ℕ → World → Type 0} {E : Status → World → Type 0} where
  pub after-get_now : (w : World) → P w.now w → After get_now w P E
  unfolding get_now
  after-get_now w p = record { ends = p }

module _ {P : Option String → World → Type 0} {E : Status → World → Type 0} where
  draw_from-After :
      (es : List String) (w : World)
      → ((o : Option String) (es' : List String) → P o (record w { entropy = es' }))
      → After (draw_from es) w P E
  draw_from-After [] w p = record { ends = p none w.entropy }
  draw_from-After (s ∷ rest) w p = record { ends = p (some s) rest }

  pub after-draw :
      (w : World)
      → ((o : Option String) (es : List String) → P o (record w { entropy = es }))
      → After draw w P E
  unfolding draw
  after-draw w p = record { ends = (draw_from-After w.entropy w p).ends }

module _ {P : Unit {0} → World → Type 0} {E : Status → World → Type 0} where
  pub after-fail_if :
      (b : Bool) (c : Code) (s : String) (w : World)
      → (b ≡ true → E (record { code = c; message = s }) w)
      → (b ≡ false → P tt w)
      → After (fail_if b c s) w P E
  unfolding fail_if
  after-fail_if true c s w e p = record { ends = e refl }
  after-fail_if false c s w e p = record { ends = p refl }

  pub after-when :
      (b : Bool) (m : M (Unit {0})) (w : World)
      → (b ≡ true → After m w P E)
      → (b ≡ false → P tt w)
      → After (when b m) w P E
  unfolding when
  after-when true m w t f = t refl
  after-when false m w t f = record { ends = f refl }

module _ {A B : Type 0} (P : B → World → Type 0) (E : Status → World → Type 0) where
  continue-Ends :
      (r : Result A) (w : World) (f : A → M B)
      → Ends r w (λ a w1. After (f a) w1 P E) E
      → Ends (continue r f w).0 (continue r f w).1 P E
  continue-Ends (ok a) w f h = h.ends
  continue-Ends (err s) w f h = h

module _ {A B : Type 0} {P : B → World → Type 0} {E : Status → World → Type 0} where
  pub after-bind :
      (m : M A) (f : A → M B) (w : World)
      → After m w (λ a w1. After (f a) w1 P E) E
      → After (m >>= f) w P E
  unfolding ◌>>=◌
  after-bind m f w h = record { ends = continue-Ends P E (m w).0 (m w).1 f h.ends }

-- An action about which nothing is asked.
pub after-any :
    {A : Type 0} {P : A → World → Type 0} (m : M A) (w : World)
    → ((a : A) (w' : World) → P a w')
    → After m w P (λ _ _. Unit {0})
after-any {A} {P} m w p = record { ends = on (m w).0 (m w).1 }
  where
    on : (r : Result A) (w' : World) → Ends r w' P (λ _ _. Unit {0})
    on (ok a) w' = p a w'
    on (err s) w' = tt
