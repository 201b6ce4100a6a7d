-- ===== src/Cache/Scan.antt =====
-- The laws of Redis that InvalidatePerms relies on: a SCAN meets every key of a user's permissions.
use Prim.Native.Char.{code}
use iam_go_auth.Base.{
  not, ◌&&◌, ◌==◌, map, ℕ, String, Bool, true, false, ◌||◌, ◌≡◌, refl, sym, ap, subst, ◌∙◌, ◌⊎◌,
  inl, inr, List, [], ◌∷◌, str_append, append_assoc, str_eq, str_eq_refl, eq_iff, any, select, head,
  delete_where, is_some, Bool-cases, if◌then◌else◌, arith,
}
use iam_go_auth.Rpc.{World, Entry}
use iam_go_auth.Cache.{perms_key, user_pattern, or_dash, Redis}

-- A text with none of the characters that MATCH gives a meaning.
unfoldable pub plain : String → Bool
plain String.[] = true
plain (String.◌∷◌ c s) =
    not (code c == b'*' || code c == b'?' || code c == b'[' || code c == b'\\') && plain s

-- The key stands on one of the pages.
unfoldable pub on_pages : String → List (List String) → Bool
on_pages key [] = false
on_pages key (p ∷ ps) = any (str_eq key) p || on_pages key ps

-- What the documentation of Redis says: a star matches any text, a plain text itself, and a full
-- iteration gives every key that is there from its start to its end.
pub record IsRedis (r : Redis) : Type 0 where
  pub star :
      (x q s : String) → r.matches q s ≡ true → r.matches (str_append "*" q) (str_append x s) ≡ true
  pub literal :
      (p q s : String)
      → plain p ≡ true
      → r.matches q s ≡ true
      → r.matches (str_append p q) (str_append p s) ≡ true
  pub itself : (p : String) → plain p ≡ true → r.matches p p ≡ true
  pub complete :
      (count : ℕ) (key : String) (keys : List String)
      → any (str_eq key) keys ≡ true
      → on_pages key (r.scan count keys) ≡ true

pattern_parts :
    (user : String)
    → user_pattern user
      ≡ str_append "perms:" (str_append "*" (str_append ":" (str_append "*" (str_append ":" user))))
unfolding user_pattern
pattern_parts user =
    append_assoc "perms:" "*:*:" user
    ∙ ap (str_append "perms:") (
        append_assoc "*" ":*:" user
        ∙ ap (str_append "*")
            (append_assoc ":" "*:" user ∙ ap (str_append ":") (append_assoc "*" ":" user)))

-- Every key of the user's permissions matches the pattern.
pub perms_key-matches :
    (r : Redis) (tenant project user : String)
    → IsRedis r
    → plain user ≡ true
    → r.matches (user_pattern user) (perms_key tenant project user) ≡ true
unfolding perms_key plain
perms_key-matches r tenant project user laws id =
    subst (λ p. r.matches p (perms_key tenant project user) ≡ true) (sym (pattern_parts user))
      (laws.literal "perms:" _ _ refl (
        laws.star (or_dash tenant) _ _ (
          laws.literal ":" _ _ refl
            (laws.star (or_dash project) _ _ (laws.literal ":" _ _ refl (laws.itself user id))))))

abbrev pub has_key : String → Entry → Bool
has_key key e = str_eq e.key key

turned : (key : String) (e : Entry) → has_key key e ≡ true → str_eq key e.key ≡ true
turned key e h = subst (λ k. str_eq k e.key ≡ true) ((eq_iff e.key key).0 h) (str_eq_refl e.key)

either_of :
    (a b c d : Bool)
    → (a || b) ≡ true
    → (a ≡ true → c ≡ true)
    → (b ≡ true → d ≡ true)
    → (c || d) ≡ true
either_of true b c d e f g = rw (f refl) refl
either_of false b c d e f g = ground (arith, g e)

-- The keys of the entries have the key of an entry.
pub any-keys :
    (key : String) (es : List Entry)
    → any (has_key key) es ≡ true
    → any (str_eq key) (map (λ (e : Entry). e.key) es) ≡ true
unfolding any
any-keys key [] e = e
any-keys key (x ∷ es) e = either_of _ _ _ _ e (turned key x) (any-keys key es)

-- No entry with the key is left.
abbrev pub Forgotten : String → List Entry → Type 0
Forgotten key es = any (has_key key) es ≡ false

delete-Forgotten :
    (p : Entry → Bool) (key : String) (es : List Entry)
    → Forgotten key es
    → Forgotten key (delete_where p es)
unfolding any delete_where
delete-Forgotten p key [] e = refl
delete-Forgotten p key (x ∷ es) e = ground (arith, delete-Forgotten p key es)

key_deleted :
    (keys : List String) (key : String) (es : List Entry)
    → any (str_eq key) keys ≡ true
    → Forgotten key (delete_where (λ (o : Entry). any (str_eq o.key) keys) es)
unfolding any delete_where
key_deleted keys key [] listed = refl
key_deleted keys key (x ∷ es) listed = elim (Bool-cases (str_eq x.key key)) [
  | inl e ↦
      rw (subst (λ k. any (str_eq k) keys ≡ true) (sym ((eq_iff x.key key).0 e)) listed)
        (key_deleted keys key es listed)
  | inr e ↦ kept (any (str_eq x.key) keys) e (key_deleted keys key es listed)
]
  where
    kept :
        (b : Bool)
        → str_eq x.key key ≡ false
        → Forgotten key (delete_where (λ (o : Entry). any (str_eq o.key) keys) es)
        → let rest = delete_where (λ (o : Entry). any (str_eq o.key) keys) es in
          Forgotten key (if b then rest else x ∷ rest)
    kept true e done = done
    kept false e done = rw (e, done) refl

-- What a SCAN finds on a page has the key if the page has it.
select-listed :
    (matches : String → Bool) (key : String) (p : List String)
    → matches key ≡ true
    → any (str_eq key) p ≡ true
    → any (str_eq key) (select matches p) ≡ true
unfolding any select
select-listed matches key [] m e = ground arith
select-listed matches key (k ∷ p) m e = elim (Bool-cases (str_eq key k)) [
  | inl h ↦ rw (subst (λ x. matches x ≡ true) ((eq_iff key k).0 h) m, h) refl
  | inr h ↦ passed (matches k) h (select-listed matches key p m (rest h))
]
  where
    rest : str_eq key k ≡ false → any (str_eq key) p ≡ true
    rest h = ground arith

    passed :
        (b : Bool)
        → str_eq key k ≡ false
        → any (str_eq key) (select matches p) ≡ true
        → let found = select matches p in any (str_eq key) (if b then k ∷ found else found) ≡ true
    passed true h found = rw (h, found) refl
    passed false h found = found

-- What is left to do: the key is gone, or on a page that has not been looked at.
abbrev pub Todo : String → List (List String) → List Entry → Type 0
Todo key ps es = Forgotten key es ⊎ (on_pages key ps ≡ true)

-- The tables, the clock and the faults of a call of Redis that does not fail.
pub record Aside (w w' : World) : Type 0 where
  pub db : w'.db ≡ w.db
  pub now : w'.now ≡ w.now
  pub faults : w'.faults ≡ []

not_empty :
    (key : String) (keys : List String)
    → is_some (head keys) ≡ false
    → any (str_eq key) keys ≡ false
unfolding any
not_empty key [] e = refl
not_empty key (k ∷ ks) e = absurd (cc)

-- The page was looked at: its keys are deleted, or there were none.
pub looked_at :
    (matches : String → Bool) (key : String) (p : List String) (ps : List (List String))
    (es : List Entry)
    → matches key ≡ true
    → Todo key (p ∷ ps) es
    → Todo key ps (delete_where (λ (o : Entry). any (str_eq o.key) (select matches p)) es)
unfolding on_pages
looked_at matches key p ps es m todo = elim todo [
  | inl gone ↦ inl (delete-Forgotten _ key es gone)
  | inr there ↦ elim (Bool-cases (any (str_eq key) p)) [
    | inl here ↦ inl (key_deleted (select matches p) key es (select-listed matches key p m here))
    | inr not_here ↦ inr (later _ _ there not_here)
  ]
]
  where
    later : (a b : Bool) → (a || b) ≡ true → a ≡ false → b ≡ true
    later a b h n = ground arith

pub passed_over :
    (matches : String → Bool) (key : String) (p : List String) (ps : List (List String))
    (es : List Entry)
    → matches key ≡ true
    → Todo key (p ∷ ps) es
    → is_some (head (select matches p)) ≡ false
    → Todo key ps es
unfolding on_pages
passed_over matches key p ps es m todo none_found = elim todo [
  | inl gone ↦ inl gone
  | inr there ↦ elim (Bool-cases (any (str_eq key) p)) [
    | inl here ↦
        absurd
          (clash (select-listed matches key p m here) (not_empty key (select matches p) none_found))
    | inr not_here ↦ inr (later _ _ there not_here)
  ]
]
  where
    later : (a b : Bool) → (a || b) ≡ true → a ≡ false → b ≡ true
    later a b h n = ground arith

    clash : {b : Bool} → b ≡ true → b ≡ false → ⊥
    clash x y = cc
