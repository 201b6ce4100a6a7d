-- ===== src/Handler/Display.antt =====
-- The display name that Register derives from an address.
use Prim.Native.Char.{code}
use iam_go_auth.Base.{
  String, Bool, true, false, ◌≡◌, refl, ap, ◌∙◌, none, some, str_eq, str_append, append_nil,
  append_cons, ◌==◌, if◌then◌else◌, Bool-cases, inl, inr, arith,
}
use iam_go_auth.Handler.{before_at, display_from_email}

-- No character of the text is '@'.
abbrev pub no_at : String → Bool
no_at String.[] = true
no_at (String.◌∷◌ c s) = if code c == b'@' then false else no_at s

before_at-append :
    (l d : String) → no_at l ≡ true → before_at (str_append l (str_append "@" d)) ≡ some l
unfolding before_at
before_at-append String.[] d n = ap before_at (append_nil (str_append "@" d) ∙ append_cons "@" "" d)
before_at-append (String.◌∷◌ c l) d n = elim (Bool-cases (code c == b'@')) [
  | inl e ↦ absurd (at_sign e n)
  | inr e ↦
      ap before_at (append_cons c l (str_append "@" d))
      ∙ one_more e (before_at-append l d (rest e n))
]
  where
    at_sign : code c == b'@' ≡ true → no_at (String.◌∷◌ c l) ≡ true → ⊥
    at_sign e n = ground arith

    rest : code c == b'@' ≡ false → no_at (String.◌∷◌ c l) ≡ true → no_at l ≡ true
    rest e n = ground arith

    one_more :
        code c == b'@' ≡ false
        → before_at (str_append l (str_append "@" d)) ≡ some l
        → before_at (String.◌∷◌ c (str_append l (str_append "@" d))) ≡ some (String.◌∷◌ c l)
    one_more e ih = rw (e, ih) refl

-- Of an address the display name is what stands before its first '@'; an address that begins with
-- '@' is its own display name.
pub display_from_email-append :
    (l d : String)
    → no_at l ≡ true
    → display_from_email (str_append l (str_append "@" d))
      ≡ (if str_eq l "" then str_append l (str_append "@" d) else l)
unfolding display_from_email
display_from_email-append l d n =
    ap
      (λ o. elim o as (λ _. String) [
        | none ↦ str_append l (str_append "@" d)
        | some x ↦ if str_eq x "" then str_append l (str_append "@" d) else x
      ])
      (before_at-append l d n)
