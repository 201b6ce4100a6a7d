-- ===== src/Base/Texts.antt =====
-- Texts: their prefixes, and the laws of appending.
use Prim.Native.Char.{Char, code}
use Prim.Native.String.{String}
use Prim.Native.String.append
use mathlib.Core.Option.{Option, none, some}
use mathlib.Core.Path.{◌≡◌, sym, ap, ◌∙◌}
use iam_go_auth.Base.Tests.{if◌then◌else◌, str_append, ◌==◌, ==_refl}

pub append_nil : (s : String) → str_append "" s ≡ s
append_nil s = λ i. append.nil s i

pub append_cons :
    (c : Char) (s t : String) → str_append (String.◌∷◌ c s) t ≡ String.◌∷◌ c (str_append s t)
append_cons c s t = λ i. append.cons c s t i

pub append_assoc : (s t u : String) → str_append (str_append s t) u ≡ str_append s (str_append t u)
append_assoc String.[] t u =
    ap (λ x. str_append x u) (append_nil t) ∙ sym (append_nil (str_append t u))
append_assoc (String.◌∷◌ c s) t u =
    ap (λ x. str_append x u) (append_cons c s t)
    ∙ append_cons c (str_append s t) u
    ∙ ap (String.◌∷◌ c) (append_assoc s t u)
    ∙ sym (append_cons c s (str_append t u))

-- strings.HasPrefix and strings.TrimPrefix: the rest, where the text has the prefix.
unfoldable pub strip_prefix : String → String → Option String
strip_prefix String.[] s = some s
strip_prefix (String.◌∷◌ c p) String.[] = none
strip_prefix (String.◌∷◌ c p) (String.◌∷◌ d s) =
    let rest = strip_prefix p s in if code c == code d then rest else none

pub strip_prefix-append : (p s : String) → strip_prefix p (str_append p s) ≡ some s
unfolding strip_prefix
strip_prefix-append String.[] s = ap some (append_nil s)
strip_prefix-append (String.◌∷◌ c p) s =
    ap (strip_prefix (String.◌∷◌ c p)) (append_cons c p s) ∙ same_char (strip_prefix-append p s)
  where
    same_char :
        strip_prefix p (str_append p s) ≡ some s
        → strip_prefix (String.◌∷◌ c p) (String.◌∷◌ c (str_append p s)) ≡ some s
    same_char e = rw (==_refl (code c)) e
