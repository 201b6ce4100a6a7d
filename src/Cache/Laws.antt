-- ===== src/Cache/Laws.antt =====
-- What the denylist answers, and that Redis is all that a command touches.
use iam_go_auth.Base.{
  ℕ, ◌==◌, List, String, Bool, true, false, not, ◌||◌, ◌≡◌, refl, sym, ◌⊎◌, inl, inr, ◌∙◌, Option,
  none, some, str_eq, is_some, find, arith,
}
use iam_go_auth.Rpc.{World, Status, Entry, next_fault, pure, ◌>>=◌}
use iam_go_auth.Rpc.Laws.{After, after-pure, after-bind, after-if}
use iam_go_auth.Cache.{
  Cache, live, value_of, reply, denial, get_entry, deny_key, deny, set_entry, store, is_denied,
}

-- The tables and the clock are as they were.
pub record Undisturbed (w w' : World) : Type 0 where
  pub db : w'.db ≡ w.db
  pub now : w'.now ≡ w.now

some_value : (o : Option Entry) → is_some (value_of o) ≡ is_some o
some_value none = refl
some_value (some e) = refl

denial-reply :
    (fault : Bool) (v : Option String)
    → (denial (reply fault v)).1 ≡ true
    → (denial (reply fault v)).0 ≡ is_some v
denial-reply true v e = cc
denial-reply false v e = refl

module _ {P : Option String × Bool → World → Type 0} {E : Status → World → Type 0} where
  after-get_entry :
      (key : String) (w : World)
      → ((fault : Bool) (w' : World)
          → Undisturbed w w'
          → fault ≡ (next_fault w.faults).0
          → P (reply fault (value_of (find (live key w.now) w.redis))) w')
      → After (get_entry key) w P E
  unfolding get_entry
  after-get_entry key w p = record {
    ends =
        p (next_fault w.faults).0 (record w { faults = (next_fault w.faults).1 })
          (record { db = refl; now = refl }) refl;
  }

-- Redis gives no answer: there is none, or the call fails.
abbrev pub Silent : Cache → World → Type 0
Silent c w = (c.enabled ≡ false) ⊎ ((next_fault w.faults).0 ≡ true)

-- The denylist answers for a jti exactly where Redis does, and then whether an entry for it is alive.
pub after-is_denied :
    {P : Bool × Bool → World → Type 0} {E : Status → World → Type 0} (c : Cache) (jti : String)
    (w : World)
    → ((d : Bool × Bool) (w' : World)
        → Undisturbed w w'
        → (d.1 ≡ true → d.0 ≡ is_some (find (live (deny_key jti) w.now) w.redis))
        → (d.1 ≡ true → c.enabled ≡ true)
        → (d.1 ≡ true → (next_fault w.faults).0 ≡ false)
        → (str_eq jti "" ≡ false → d.1 ≡ false → Silent c w)
        → P d w')
    → After (is_denied c jti) w P E
unfolding is_denied
after-is_denied c jti w p =
    after-if (not c.enabled || str_eq jti "") (pure (false, false))
      (do found ← get_entry (deny_key jti); pure (denial found)) w
      (λ off.
        after-pure (false, false) w
          (p (false, false) w (record { db = refl; now = refl }) (λ e. cc) (λ e. cc) (λ e. cc)
            (λ named _. inl (disabled _ _ off named))))
      (λ on.
        after-bind _ (λ x. pure (denial x)) w
          (after-get_entry (deny_key jti) w (λ fault w' u same. after-pure _ w' (
            p _ w' u
              (λ e. denial-reply fault _ e ∙ some_value (find (live (deny_key jti) w.now) w.redis))
              (λ _. enabled _ _ on) (λ e. sym same ∙ answering fault _ e)
              (λ _ e. inr (sym same ∙ silent fault _ e))))))
  where
    disabled : (a b : Bool) → (not a || b) ≡ true → b ≡ false → a ≡ false
    disabled a b e n = ground arith

    enabled : (a b : Bool) → (not a || b) ≡ false → a ≡ true
    enabled a b e = ground arith

    answering :
        (fault : Bool) (v : Option String) → (denial (reply fault v)).1 ≡ true → fault ≡ false
    answering true v e = cc
    answering false v e = refl

    silent : (fault : Bool) (v : Option String) → (denial (reply fault v)).1 ≡ false → fault ≡ true
    silent true v e = refl
    silent false v e = cc

stored-Undisturbed :
    (fault : Bool) (e : Entry) (fs : List Bool) (w : World)
    → Undisturbed w (store fault e (record w { faults = fs }))
stored-Undisturbed true e fs w = record { db = refl; now = refl }
stored-Undisturbed false e fs w = record { db = refl; now = refl }

module _ {P : Unit {0} → World → Type 0} {E : Status → World → Type 0} where
  pub after-deny :
      (c : Cache) (jti : String) (ttl : ℕ) (w : World)
      → ((w' : World) → Undisturbed w w' → P tt w')
      → After (deny c jti ttl) w P E
  unfolding deny set_entry
  after-deny c jti ttl w p =
      after-if (not c.enabled || str_eq jti "" || ttl == 0) (pure tt)
        (set_entry (deny_key jti) "1" ttl) w
        (λ _. after-pure tt w (p w (record { db = refl; now = refl })))
        (λ _. record {
          ends = p _ (stored-Undisturbed (next_fault w.faults).0 _ (next_fault w.faults).1 w);
        })
