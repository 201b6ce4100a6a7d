-- ===== src/Examples/RedisServer.antt =====
-- A small server of Redis: its patterns have stars only, and its pages at most as many keys as COUNT.
use Prim.Native.Char.{Char, code}
use Prim.Native.String.{String}
use iam_go_auth.Cache.{Redis}
use iam_go_auth.Cache.Scan.{IsRedis, plain, on_pages}
use iam_go_auth.Base.{
  ℕ, zero, suc, List, [], ◌∷◌, any, str_eq, not, Bool, true, false, ◌||◌, ◌&&◌, ◌==◌, ◌≡◌, refl,
  str_append, if◌then◌else◌, ==_refl, arith, sym, ap, subst, subst₂, ◌∙◌, Bool-cases, inl, inr,
  append_nil, append_cons,
}

-- Some end of the text passes.
unfoldable pub star : (String → Bool) → String → Bool
star f String.[] = f ""
star f (String.◌∷◌ c s) = let rest = star f s in f (String.◌∷◌ c s) || rest

abbrev pub first : Char → (String → Bool) → String → Bool
first c f String.[] = false
first c f (String.◌∷◌ d s) = code c == code d && f s

abbrev pub is_empty : String → Bool
is_empty String.[] = true
is_empty (String.◌∷◌ c s) = false

or_right : (a b : Bool) → b ≡ true → (a || b) ≡ true
or_right a b e = ground arith

unfoldable pub matches : String → String → Bool
unfolding star
matches String.[] s = is_empty s
matches (String.◌∷◌ c p) s =
    let rest = matches p in if code c == b'*' then star rest s else first c rest s

star-here : (f : String → Bool) (s : String) → f s ≡ true → star f s ≡ true
unfolding star
star-here f String.[] e = e
star-here f (String.◌∷◌ c s) e = rw e refl

-- A star passes over any text.
pub star-append : (f : String → Bool) (x s : String) → f s ≡ true → star f (str_append x s) ≡ true
unfolding star
star-append f String.[] s e = subst (λ t. star f t ≡ true) (sym (append_nil s)) (star-here f s e)
star-append f (String.◌∷◌ c x) s e =
    subst (λ t. star f t ≡ true) (sym (append_cons c x s))
      (or_right (f (String.◌∷◌ c (str_append x s))) _ (star-append f x s e))

pub matches-star : (q s : String) → star (matches q) s ≡ true → matches (str_append "*" q) s ≡ true
unfolding matches
matches-star q s e =
    subst (λ p. matches p s ≡ true)
      (sym (append_cons "*" "" q ∙ ap (String.◌∷◌ "*") (append_nil q))) e

unfoldable pub no_star : String → Bool
no_star String.[] = true
no_star (String.◌∷◌ c s) = if code c == b'*' then false else no_star s

-- A text without a star stands for itself.
pub matches-literal :
    (p q s : String)
    → no_star p ≡ true
    → matches q s ≡ true
    → matches (str_append p q) (str_append p s) ≡ true
unfolding no_star matches
matches-literal String.[] q s n m =
    subst₂ (λ a b. matches a b ≡ true) (sym (append_nil q)) (sym (append_nil s)) m
matches-literal (String.◌∷◌ c p) q s n m =
    subst₂ (λ a b. matches a b ≡ true) (sym (append_cons c p q)) (sym (append_cons c p s))
      (elim (Bool-cases (code c == b'*')) [
        | inl e ↦ absurd (starred (code c == b'*') (no_star p) e n)
        | inr e ↦ rw (e, ==_refl (code c)) (matches-literal p q s (unstarred _ (no_star p) e n) m)
      ])
  where
    starred : (b n : Bool) → b ≡ true → (if b then false else n) ≡ true → ⊥
    starred b n e h = ground arith

    unstarred : (b n : Bool) → b ≡ false → (if b then false else n) ≡ true → n ≡ true
    unstarred b n e h = ground arith

-- A text matches itself, whatever stars it has.
pub matches_refl : (s : String) → matches s s ≡ true
unfolding matches
matches_refl String.[] = refl
matches_refl (String.◌∷◌ c s) = elim (Bool-cases (code c == b'*')) [
  | inl e ↦
      rw e (or_right (matches s (String.◌∷◌ c s)) _ (star-here (matches s) s (matches_refl s)))
  | inr e ↦ rw (e, ==_refl (code c)) (matches_refl s)
]

abbrev pub on_first_page : String → List (List String) → List (List String)
on_first_page key [] = (key ∷ []) ∷ []
on_first_page key (p ∷ ps) = (key ∷ p) ∷ ps

-- The pages of `count` keys, of which the first has room for `left`.
unfoldable pub pages : ℕ → ℕ → List String → List (List String)
pages count left [] = [] ∷ []
pages count zero (k ∷ ks) = [] ∷ on_first_page k (pages count count ks)
pages count (suc left) (k ∷ ks) = on_first_page k (pages count left ks)

on_first_page-on_pages :
    (key k : String) (ps : List (List String))
    → (str_eq key k || on_pages key ps) ≡ true
    → on_pages key (on_first_page k ps) ≡ true
unfolding any on_pages
on_first_page-on_pages key k [] e = ground arith
on_first_page-on_pages key k (p ∷ ps) e = ground arith

either_of :
    (a b c d : Bool)
    → (a || b) ≡ true
    → (a ≡ true → c ≡ true)
    → (b ≡ true → d ≡ true)
    → (c || d) ≡ true
either_of true b c d e f g = rw (f refl) refl
either_of false b c d e f g = ground (arith, g e)

complete :
    (count left : ℕ) (key : String) (keys : List String)
    → any (str_eq key) keys ≡ true
    → on_pages key (pages count left keys) ≡ true
unfolding any pages on_pages
complete count left key [] e = ground arith
complete count zero key (k ∷ ks) e =
    on_first_page-on_pages key k (pages count count ks)
      (either_of _ _ _ _ e (λ x. x) (complete count count key ks))
complete count (suc left) key (k ∷ ks) e =
    on_first_page-on_pages key k (pages count left ks)
      (either_of _ _ _ _ e (λ x. x) (complete count left key ks))

tail : (x y : Bool) → (x && y) ≡ true → y ≡ true
tail x y e = ground arith

plain-no_star : (p : String) → plain p ≡ true → no_star p ≡ true
unfolding plain no_star
plain-no_star String.[] e = refl
plain-no_star (String.◌∷◌ c p) e =
    on (code c == b'*') _ _ _ _ (no_star p) e (λ f. plain-no_star p f)
  where
    on :
        (a b c d n m : Bool)
        → (not (a || b || c || d) && n) ≡ true
        → (n ≡ true → m ≡ true)
        → (if a then false else m) ≡ true
    on true b c d n m e f = ground arith
    on false b c d n m e f = f (tail _ n e)

abbrev pub server : Redis
server = record { matches = matches; scan = λ count keys. pages count count keys }

pub server-IsRedis : IsRedis server
server-IsRedis = record {
  star = λ x q s m. matches-star q _ (star-append (matches q) x s m);
  literal = λ p q s n m. matches-literal p q s (plain-no_star p n) m;
  itself = λ p _. matches_refl p;
  complete = λ count key keys e. complete count count key keys e;
}
