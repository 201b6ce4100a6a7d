-- ===== src/Password.antt =====
-- internal/password/password.go: the stored form of a password, and its verification.
--
-- golang.org/x/crypto/argon2, crypto/rand and encoding/base64 are parameters; strings.Split and
-- fmt.Sscanf are written out as far as Verify uses them. Bytes are numbers.
pub mod RoundTrip
use Prim.Native.Char.{Char, code}
use Prim.Native.Nat.{◌^◌}
use iam_go_auth.Base.{
  ℕ, zero, suc, ◌+◌, ◌-◌, ◌*◌, String, Bool, true, false, ◌&&◌, ◌||◌, Option, none, some, List, [],
  ◌∷◌, length, ltb, leb, ◌==◌, str_eq, str_append, strip_prefix, decimal, if◌then◌else◌,
}

-- `id_key` is argon2.IDKey of the password, the salt, the time, the memory, the threads and the
-- length; it panics on some parameters, and has no key there. base64.RawStdEncoding decodes or fails.
pub record Argon2 : Type 0 where
  pub id_key : String → List ℕ → ℕ → ℕ → ℕ → ℕ → Option (List ℕ)
  pub base64_encode : List ℕ → String
  pub base64_decode : String → Option (List ℕ)

abbrev pub version : ℕ
version = 19

abbrev pub argon_memory : ℕ
argon_memory = 19456

abbrev pub argon_time : ℕ
argon_time = 2

abbrev pub argon_threads : ℕ
argon_threads = 1

abbrev pub argon_key_len : ℕ
argon_key_len = 32

-- What the format of Sprintf puts before the salt.
unfoldable pub header : String
header = str_append "$argon2id$v=" (
    str_append (decimal version) (
      str_append "$m=" (
        str_append (decimal argon_memory) (
          str_append ",t=" (
            str_append (decimal argon_time)
              (str_append ",p=" (str_append (decimal argon_threads) "$")))))))

abbrev pub is_dollar : Char → Bool
is_dollar c = code c == 36

abbrev pub push : Char → List String → List String
push c [] = []
push c (p ∷ ps) = String.◌∷◌ c p ∷ ps

-- strings.Split(s, "$")
unfoldable pub split : String → List String
split String.[] = "" ∷ []
split (String.◌∷◌ c s) = let rest = split s in if is_dollar c then "" ∷ rest else push c rest

-- fmt's isSpace.
abbrev pub is_space : ℕ → Bool
is_space c =
    leb 9 c && leb c 13
    || c == 32
    || c == 133
    || c == 160
    || c == 5760
    || leb 8192 c && leb c 8202
    || c == 8232
    || c == 8233
    || c == 8239
    || c == 8287
    || c == 12288

-- SkipSpace of Sscanf, for which a new line is an error.
unfoldable pub skip_space : String → Option String
skip_space String.[] = some String.[]
skip_space (String.◌∷◌ c s) =
    let rest = skip_space s in
    if code c == 10 then none else if is_space (code c) then rest else some (String.◌∷◌ c s)

abbrev pub is_digit : ℕ → Bool
is_digit c = leb 48 c && leb c 57

-- The digits at the front and what follows them.
unfoldable pub read_digits : ℕ → String → ℕ × String
read_digits acc String.[] = (acc, String.[])
read_digits acc (String.◌∷◌ c s) =
    let rest = read_digits (acc * 10 + (code c - 48)) s in
    if is_digit (code c) then rest else (acc, String.◌∷◌ c s)

infixl 10 ◌>>=◌
abbrev ◌>>=◌ : {A B : Type 0} → Option A → (A → Option B) → Option B
none >>= f = none
some a >>= f = f a

-- At least one digit, and a value below the bound.
unfoldable pub scan_number : ℕ → String → Option (ℕ × String)
unfolding read_digits
scan_number bound String.[] = none
scan_number bound (String.◌∷◌ c s) =
    let (n, rest) = read_digits 0 (String.◌∷◌ c s) in
    if is_digit (code c) && ltb n bound then some (n, rest) else none

-- %d into an unsigned integer of that many bits.
unfoldable pub scan_uint : ℕ → String → Option (ℕ × String)
unfolding skip_space scan_number
scan_uint bits s = skip_space s >>= scan_number (2 ^ bits)

-- The sign that %d accepts before an int: whether it is a minus, and what follows.
abbrev pub scan_sign : String → Bool × String
scan_sign String.[] = (false, String.[])
scan_sign (String.◌∷◌ c s) =
    if code c == 45 then (true, s) else if code c == 43 then (false, s) else (false, String.◌∷◌ c s)

-- %d into an int, as whether it is negative and its magnitude.
unfoldable pub scan_int : String → Option (Bool × ℕ)
unfolding skip_space scan_number
scan_int s = do
  s1 ← skip_space s
  n ← scan_number (if (scan_sign s1).0 then 2 ^ 63 + 1 else 2 ^ 63) (scan_sign s1).1
  some ((scan_sign s1).0, n.0)

-- fmt.Sscanf(part, "v=%d", &version): text after the format is left alone.
unfoldable pub scan_version : String → Option (Bool × ℕ)
unfolding strip_prefix scan_int
scan_version part = strip_prefix "v=" part >>= scan_int

-- fmt.Sscanf(part, "m=%d,t=%d,p=%d", &m, &t, &p)
unfoldable pub scan_params : String → Option (ℕ × ℕ × ℕ)
unfolding strip_prefix scan_uint
scan_params part = do
  s1 ← strip_prefix "m=" part
  m ← scan_uint 32 s1
  s2 ← strip_prefix ",t=" m.1
  t ← scan_uint 32 s2
  s3 ← strip_prefix ",p=" t.1
  p ← scan_uint 8 s3
  some (m.0, t.0, p.0)

-- subtle.ConstantTimeCompare(a, b) == 1
unfoldable pub bytes_eq : List ℕ → List ℕ → Bool
bytes_eq [] [] = true
bytes_eq [] (b ∷ bs) = false
bytes_eq (a ∷ as_) [] = false
bytes_eq (a ∷ as_) (b ∷ bs) = (a == b) && bytes_eq as_ bs

module _ (lib : Argon2) where
  abbrev pub encode : List ℕ → Option (List ℕ) → Option String
  encode salt none = none
  encode salt (some key) = some (
      str_append header
        (str_append (lib.base64_encode salt) (str_append "$" (lib.base64_encode key))))

  -- Hash, on the salt that rand.Read drew, or none where it failed; no text where IDKey panics.
  unfoldable pub hash : Option (List ℕ) → String → Option String
  hash none plain = none
  hash (some salt) plain =
      encode salt (lib.id_key plain salt argon_time argon_memory argon_threads argon_key_len)

  -- IDKey and the comparison; none where IDKey panics.
  abbrev pub compare_key : List ℕ → Option (List ℕ) → Option Bool
  compare_key want none = none
  compare_key want (some got) = some (bytes_eq got want)

  abbrev pub with_key : String → ℕ × ℕ × ℕ → Option (List ℕ) → Option (List ℕ) → Option Bool
  with_key plain (m, t, p) none want = some false
  with_key plain (m, t, p) (some salt) none = some false
  with_key plain (m, t, p) (some salt) (some want) =
      compare_key want (lib.id_key plain salt t m p (length want))

  abbrev pub with_params : String → Option (ℕ × ℕ × ℕ) → String → String → Option Bool
  with_params plain none salt key = some false
  with_params plain (some params) salt key =
      with_key plain params (lib.base64_decode salt) (lib.base64_decode key)

  abbrev pub with_version : String → Option (Bool × ℕ) → String → String → String → Option Bool
  with_version plain none params salt key = some false
  with_version plain (some (true, v)) params salt key = some false
  with_version plain (some (false, v)) params salt key =
      if v == version then with_params plain (scan_params params) salt key else some false

  abbrev pub with_parts : String → List String → Option Bool
  with_parts plain (p0 ∷ p1 ∷ p2 ∷ p3 ∷ p4 ∷ p5 ∷ []) =
      if str_eq p1 "argon2id" then with_version plain (scan_version p2) p3 p4 p5 else some false
  with_parts plain _ = some false

  -- Verify; none where IDKey panics.
  unfoldable pub verify : String → String → Option Bool
  unfolding split scan_version scan_params bytes_eq
  verify encoded plain = with_parts plain (split encoded)
