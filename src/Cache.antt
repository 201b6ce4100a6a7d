-- ===== src/Cache.antt =====
-- internal/cache/cache.go: the denylist of access tokens and the permission cache in Redis.
--
-- Redis is the list of the entries that were set, each with its expiry; a command may fail as any
-- call may. What MATCH takes for a pattern, and the pages in which a SCAN meets the keys that were
-- there when it began, are the parameter `Redis`; no other client writes meanwhile. The JSON form of a
-- list of permissions is the codec `Json`.
pub mod Laws
pub mod Scan
pub mod Invalidation
use iam_go_auth.Base.{
  ℕ, ◌+◌, ◌*◌, String, Bool, true, false, not, ◌||◌, ◌&&◌, Option, none, some, List, ◌∷◌, str_eq,
  ltb, ◌==◌, is_some, find, delete_where, if◌then◌else◌, str_append, zero, suc, [], select, any,
  head, map,
}
use iam_go_auth.Jwt.{second}
use iam_go_auth.Rpc.{World, M, ok, Entry, pure, when, ◌>>=◌, ◌>>◌, next_fault}

abbrev pub perms_ttl : ℕ
perms_ttl = 60 * second

-- encoding/json on []string
pub record Json : Type 0 where
  pub marshal : List String → String
  pub unmarshal : String → Option (List String)

-- `matches pattern key` is MATCH; `scan count keys` are the pages of the whole iteration.
pub record Redis : Type 0 where
  pub matches : String → String → Bool
  pub scan : ℕ → List String → List (List String)

-- `enabled` is that a Redis client is configured (rdb is not nil).
pub record Cache : Type 0 where
  pub enabled : Bool
  pub server : Redis
  pub json : Json

abbrev pub live : String → ℕ → Entry → Bool
live key now e = str_eq e.key key && ltb now e.expires

-- The entry takes the place of the one with its key, unless the command failed.
abbrev pub store : Bool → Entry → World → World
store true e w = w
store false e w = record w { redis = e ∷ delete_where (λ (o : Entry). str_eq o.key e.key) w.redis }

-- SET key value EX ttl, with its error dropped.
pub set_entry : String → String → ℕ → M (Unit {0})
set_entry key value ttl w =
    let (fault, rest) = next_fault w.faults in
    (
      ok tt,
      store fault (record { key = key; value = value; expires = w.now + ttl })
          (record w { faults = rest }),
    )

-- GET key: the value, or nothing where there is none or the command failed; and whether it failed.
abbrev pub value_of : Option Entry → Option String
value_of none = none
value_of (some e) = some e.value

-- The value, unless the command failed; and whether it failed.
abbrev pub reply : Bool → Option String → Option String × Bool
reply true v = (none, true)
reply false v = (v, false)

pub get_entry : String → M (Option String × Bool)
get_entry key w =
    let (fault, rest) = next_fault w.faults in
    (ok (reply fault (value_of (find (live key w.now) w.redis))), record w { faults = rest })

abbrev pub deny_key : String → String
deny_key jti = str_append "denylist:" jti

unfoldable pub deny : Cache → String → ℕ → M (Unit {0})
unfolding set_entry
deny c jti ttl =
    if not c.enabled || str_eq jti "" || ttl == 0 then pure tt else set_entry (deny_key jti) "1" ttl

-- (denied, ok), of a reply for the entry of a jti.
abbrev pub denial : Option String × Bool → Bool × Bool
denial (v, true) = (false, false)
denial (v, false) = (is_some v, true)

unfoldable pub is_denied : Cache → String → M (Bool × Bool)
unfolding get_entry
is_denied c jti =
    if not c.enabled || str_eq jti ""
    then pure (false, false)
    else do found ← get_entry (deny_key jti); pure (denial found)

abbrev pub or_dash : String → String
or_dash s = if str_eq s "" then "-" else s

unfoldable pub perms_key : String → String → String → String
perms_key tenant project user_id = str_append "perms:" (
    str_append (or_dash tenant)
      (str_append ":" (str_append (or_dash project) (str_append ":" user_id))))

unfoldable pub get_perms : Cache → String → String → String → M (Option (List String))
unfolding get_entry perms_key
get_perms c tenant project user_id = if not c.enabled then pure none else do
  found ← get_entry (perms_key tenant project user_id)
  pure (elim found.0 [ none ↦ none | some v ↦ c.json.unmarshal v ])

unfoldable pub set_perms : Cache → String → String → String → List String → M (Unit {0})
unfolding set_entry perms_key
set_perms c tenant project user_id perms =
    if c.enabled
    then set_entry (perms_key tenant project user_id) (c.json.marshal perms) perms_ttl
    else pure tt

-- COUNT of SCAN
abbrev pub scan_count : ℕ
scan_count = 100

-- DEL keys, with its error dropped.
unfoldable pub del_entries : List String → M (Unit {0})
del_entries keys w =
    let (fault, rest) = next_fault w.faults in
    (
      ok tt,
      record w {
        faults = rest;
        redis =
            if fault
            then w.redis
            else delete_where (λ (o : Entry). any (str_eq o.key) keys) w.redis;
      },
    )

-- A reply of SCAN, unless the command failed.
unfoldable pub scan_reply : List String → M (Option (List String))
scan_reply keys w =
    let (fault, rest) = next_fault w.faults in
    (ok (if fault then none else some keys), record w { faults = rest })

-- The rest of a round of the loop; a SCAN that failed ends it.
unfoldable pub after_scan : Option (List String) → M (Unit {0}) → M (Unit {0})
unfolding del_entries
after_scan none next = pure tt
after_scan (some keys) next = do when (is_some (head keys)) (del_entries keys); next

-- One round of the loop for each page, until the cursor is 0 again.
unfoldable pub scan_pages : (String → Bool) → List (List String) → M (Unit {0})
unfolding scan_reply after_scan
scan_pages matches [] = pure tt
scan_pages matches (p ∷ ps) = do
  found ← scan_reply (select matches p)
  after_scan found (scan_pages matches ps)

unfoldable pub user_pattern : String → String
user_pattern user_id = str_append "perms:*:*:" user_id

-- The pages of the keys that are there when the SCAN begins.
unfoldable pub keyspace : Cache → World → List (List String)
keyspace c w = c.server.scan scan_count (map (λ (e : Entry). e.key) w.redis)

unfoldable pub invalidate_perms : Cache → String → M (Unit {0})
unfolding scan_pages user_pattern keyspace
invalidate_perms c user_id w =
    (if c.enabled
        then scan_pages (c.server.matches (user_pattern user_id)) (keyspace c w)
        else pure tt)
      w
