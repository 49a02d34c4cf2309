-- ===== src/Allowlist.antt =====
-- internal/allowlist/allowlist.go: the static checker and the cache around a checker.
pub mod Entries
pub mod Freshness
mod Tests
use Prim.Native.Char.{nul}
use fusion_bff.Base.{
  ℕ, ◌+◌, String, Bool, true, false, Option, none, some, List, [], ◌∷◌, ltb, if◌then◌else◌,
  contains, add_new, string_eq, has_char, joined, Dict, lookup, insert,
}

-- `staticChecker`
pub record StaticChecker : Type 0 where
  pub emails : List String
  pub subs : List String
  pub allow_all : Bool

-- The body of the loop of `New`.
unfoldable pub add_entry : StaticChecker → String → StaticChecker
add_entry c e =
    if has_char b'@' e
    then record c { emails = add_new c.emails e }
    else record c { subs = add_new c.subs e }

unfoldable pub add_entries : StaticChecker → List String → StaticChecker
add_entries c [] = c
add_entries c (e ∷ entries) = add_entries (add_entry c e) entries

-- `New`
unfoldable pub new_checker : List String → StaticChecker
new_checker [] = record { emails = []; subs = []; allow_all = true }
new_checker (e ∷ entries) =
    add_entries (record { emails = []; subs = []; allow_all = false }) (e ∷ entries)

-- `staticChecker.Permitted`
unfoldable pub permitted : StaticChecker → String → String → Bool
permitted c sub email =
    if c.allow_all then true else if contains c.subs sub then true else contains c.emails email

-- `cachedEntry`
pub record CachedEntry : Type 0 where
  pub permitted : Bool
  pub expires_at : ℕ

-- `cachedChecker`, without its lock: each call runs alone. The inner checker is an argument of a
-- call, since its answers may change with time.
pub record CachedChecker : Type 0 where
  pub ttl : ℕ
  pub cache : Dict CachedEntry

-- `WithTTLCache`
unfoldable pub with_ttl_cache : ℕ → CachedChecker
with_ttl_cache ttl = record { ttl = ttl; cache = [] }

-- `sub + "\x00" + email`
abbrev pub cache_key : String → String → String
cache_key sub email = joined sub nul email

-- Asks the inner checker and stores its answer.
abbrev ask_inner : Bool → ℕ → String → CachedChecker → Bool × CachedChecker
ask_inner result now key c = (
  result,
  record c { cache = insert key (record { permitted = result; expires_at = now + c.ttl }) c.cache },
)

-- `cachedChecker.Permitted`, with what the inner checker answers now.
unfoldable pub cached_permitted :
    (String → String → Bool) → ℕ → String → String → CachedChecker → Bool × CachedChecker
cached_permitted inner now sub email c =
    let key = cache_key sub email in
    elim (lookup key c.cache) [
      | none ↦ ask_inner (inner sub email) now key c
      | some e ↦
          if ltb now e.expires_at then (e.permitted, c) else ask_inner (inner sub email) now key c
    ]
