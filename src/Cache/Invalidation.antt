-- ===== src/Cache/Invalidation.antt =====
-- What InvalidatePerms leaves of a user's entries.
use iam_go_auth.Base.{
  String, Bool, true, false, ◌≡◌, refl, sym, ap, subst, inl, inr, Option, none, some, List, [], ◌∷◌,
  str_eq, any, head, delete_where, is_some, if◌then◌else◌,
}
use iam_go_auth.Rpc.{M, World, Status, Entry, next_fault, pure}
use iam_go_auth.Rpc.Laws.{Ends, After, after-pure, after-bind, after-when, after-weaken, after-if}
use iam_go_auth.Cache.Laws.{Undisturbed}
use iam_go_auth.Cache.{
  Cache, perms_key, user_pattern, keyspace, scan_count, del_entries, scan_reply, after_scan,
  scan_pages, invalidate_perms,
}
use iam_go_auth.Cache.Scan.{
  IsRedis, plain, any-keys, perms_key-matches, has_key, Forgotten, Todo, Aside, on_pages, looked_at,
  passed_over,
}

module _ {E : Status → World → Type 0} where
  after-scan_reply :
      {P : Option (List String) → World → Type 0} (keys : List String) (w : World)
      → w.faults ≡ []
      → P (some keys) (record w { faults = [] })
      → After (scan_reply keys) w P E
  unfolding scan_reply
  after-scan_reply {P} keys w calm p = record {
    ends =
        subst
          (λ (x : Bool × List Bool).
            P (if x.0 then none else some keys) (record w { faults = x.1 }))
          (sym (ap next_fault calm)) p;
  }

  after-del_entries :
      {P : Unit {0} → World → Type 0} (keys : List String) (w : World)
      → w.faults ≡ []
      → P tt (record w {
        faults = [];
        redis = delete_where (λ (o : Entry). any (str_eq o.key) keys) w.redis;
      })
      → After (del_entries keys) w P E
  unfolding del_entries
  after-del_entries {P} keys w calm p = record {
    ends =
        subst
          (λ (x : Bool × List Bool). P tt (record w {
            faults = x.1;
            redis =
                if x.0
                then w.redis
                else delete_where (λ (o : Entry). any (str_eq o.key) keys) w.redis;
          }))
          (sym (ap next_fault calm)) p;
  }

  scan_pages-Forgotten :
      (matches : String → Bool) (key : String) (ps : List (List String)) (w : World)
      → matches key ≡ true
      → w.faults ≡ []
      → Todo key ps w.redis
      → After (scan_pages matches ps) w (λ _ w'. Forgotten key w'.redis × Aside w w') E
  unfolding scan_pages after_scan on_pages
  scan_pages-Forgotten matches key [] w m calm todo = after-pure tt w (
    elim todo [ inl gone ↦ gone | inr e ↦ absurd (cc) ],
    record { db = refl; now = refl; faults = calm },
  )
  scan_pages-Forgotten matches key (p ∷ ps) w m calm todo = after-bind _ _ _ (
      after-scan_reply _ w calm (
        after-bind _ _ _ (
          after-when _ _ _
            (λ _. after-del_entries _ _ refl (
              after-weaken _ _
                (scan_pages-Forgotten matches key ps _ m refl
                  (looked_at matches key p ps w.redis m todo))
                (λ _ w' x. (x.0, record { db = x.1.db; now = x.1.now; faults = x.1.faults }))
                (λ _ _ x. x)))
            (λ none_found.
              after-weaken _ _
                (scan_pages-Forgotten matches key ps _ m refl
                  (passed_over matches key p ps w.redis m todo none_found))
                (λ _ w' x. (x.0, record { db = x.1.db; now = x.1.now; faults = x.1.faults }))
                (λ _ _ x. x)))))

-- Where no call of Redis fails, Redis keeps its documented laws, and the text of the user's id has no
-- character that a pattern gives a meaning: after InvalidatePerms for that text, no entry of
-- permissions that was stored under the same text is left, for any tenant and any project, and the
-- tables are as they were.
pub invalidate_perms-Forgotten :
    (c : Cache) (user tenant project : String) (w : World)
    → IsRedis c.server
    → plain user ≡ true
    → c.enabled ≡ true
    → w.faults ≡ []
    → After
        (invalidate_perms c user)
        w
        (λ _ w'. Forgotten (perms_key tenant project user) w'.redis × Aside w w')
        (λ _ _. ⊥)
unfolding invalidate_perms keyspace
invalidate_perms-Forgotten c user tenant project w laws id on calm = record {
  ends =
      subst
        (λ (b : Bool).
          Ends
            ((if b
                then scan_pages (c.server.matches (user_pattern user)) (keyspace c w)
                else pure tt)
              w).0
            ((if b
                then scan_pages (c.server.matches (user_pattern user)) (keyspace c w)
                else pure tt)
              w).1
            (λ _ w'. Forgotten (perms_key tenant project user) w'.redis × Aside w w') (λ _ _. ⊥))
        (sym on)
        (scan_pages-Forgotten (c.server.matches (user_pattern user)) (perms_key tenant project user)
          (keyspace c w) w (perms_key-matches c.server tenant project user laws id) calm
          (todo (any (has_key (perms_key tenant project user)) w.redis) refl)).ends;
}
  where
    todo :
        (b : Bool)
        → any (has_key (perms_key tenant project user)) w.redis ≡ b
        → Todo (perms_key tenant project user) (keyspace c w) w.redis
    todo true e =
        inr (laws.complete scan_count (perms_key tenant project user) _ (any-keys _ w.redis e))
    todo false e = inl e

-- InvalidatePerms touches Redis alone, whichever of its calls fail.
module _ {E : Status → World → Type 0} where
  after_scan-Undisturbed :
      (found : Option (List String)) (next : M (Unit {0})) (w : World)
      → ((w1 : World) → After next w1 (λ _. Undisturbed w1) E)
      → After (after_scan found next) w (λ _. Undisturbed w) E
  unfolding after_scan del_entries
  after_scan-Undisturbed none next w rest = after-pure tt w (record { db = refl; now = refl })
  after_scan-Undisturbed (some keys) next w rest = after-bind _ _ _ (
      after-when (is_some (head keys)) (del_entries keys) w
        (λ _. record {
          ends =
              after-weaken next _ (rest _) (λ _ _ u. record { db = u.db; now = u.now })
                (λ _ _ x. x);
        })
        (λ _. rest w))

  scan_pages-Undisturbed :
      (matches : String → Bool) (ps : List (List String)) (w : World)
      → After (scan_pages matches ps) w (λ _. Undisturbed w) E
  unfolding scan_pages scan_reply
  scan_pages-Undisturbed matches [] w = after-pure tt w (record { db = refl; now = refl })
  scan_pages-Undisturbed matches (p ∷ ps) w = after-bind _ _ _ (record {
    ends =
        after-weaken _ _
          (after_scan-Undisturbed _ (scan_pages matches ps) _ (scan_pages-Undisturbed matches ps))
          (λ _ _ u. record { db = u.db; now = u.now }) (λ _ _ x. x);
  })

module _ {P : Unit {0} → World → Type 0} {E : Status → World → Type 0} where
  pub after-invalidate_perms :
      (c : Cache) (user : String) (w : World)
      → ((w' : World) → Undisturbed w w' → P tt w')
      → After (invalidate_perms c user) w P E
  unfolding invalidate_perms
  after-invalidate_perms c user w p = record {
    ends =
        (after-if c.enabled (scan_pages (c.server.matches (user_pattern user)) (keyspace c w))
          (pure tt) w
          (λ _. after-weaken _ w (scan_pages-Undisturbed _ _ w) (λ _ w' u. p w' u) (λ _ _ x. x))
          (λ _. after-pure tt w (p w (record { db = refl; now = refl })))).ends;
  }
