-- ===== src/Allowlist/Tests.antt =====
-- Instances of the theorems about the allowlist.
use fusion_bff.Base.{
  ℕ, ◌+◌, ◌<◌, String, Bool, true, false, List, [], ◌∷◌, ◌≡◌, refl, ◌↔◌, ◌⊎◌, ltb, has_char,
  contains, add_new, lookup, insert,
}
use fusion_bff.Allowlist.{
  CachedChecker, add_entry, add_entries, new_checker, permitted, with_ttl_cache, cached_permitted,
}
use fusion_bff.Allowlist.Entries.{NamedBy, permitted_iff}
use fusion_bff.Allowlist.Freshness.{IsValid, with_ttl_cache-IsValid, cached_permitted-IsGenuine}

program : Unit {0}
unfolding has_char contains add_new lookup insert add_entry add_entries new_checker permitted
    with_ttl_cache cached_permitted
program = tt

abbrev entries : List String
entries = "u1" ∷ "a@b.c" ∷ []

-- An email is no `sub`, and a `sub` no email.
listed :
    (permitted (new_checker entries) "u1" "" ≡ true)
    × (permitted (new_checker entries) "u2" "a@b.c" ≡ true)
    × (permitted (new_checker entries) "a@b.c" "u1" ≡ false)
    × (permitted (new_checker []) "u2" "" ≡ true)
unfolding program
listed = (refl, refl, refl, refl)

permitted_iff_example :
    (permitted (new_checker entries) "u1" "" ≡ true) ↔ ((entries ≡ []) ⊎ NamedBy "u1" "" entries)
permitted_iff_example = permitted_iff "u1" "" entries

-- A checker that stops to permit at time 5.
abbrev until_five : ℕ → String → String → Bool
until_five now sub email = ltb now 5

abbrev asked_at_four : CachedChecker
asked_at_four = (cached_permitted (until_five 4) 4 "u1" "" (with_ttl_cache 10)).1

-- The cached answer lives on at time 13, and not at 14.
stale :
    ((cached_permitted (until_five 13) 13 "u1" "" asked_at_four).0 ≡ true)
    × ((cached_permitted (until_five 14) 14 "u1" "" asked_at_four).0 ≡ false)
unfolding program
stale = (refl, refl)

cached_permitted-IsGenuine_example :
    IsValid until_five (cached_permitted (until_five 4) 4 "u1" "" (with_ttl_cache 10)).1
    × ((asked : ℕ) × ((cached_permitted (until_five 4) 4 "u1" "" (with_ttl_cache 10)).0
          ≡ until_five asked "u1" "")
        × ((asked ≡ 4) ⊎ (4 < asked + (with_ttl_cache 10).ttl)))
unfolding program
cached_permitted-IsGenuine_example =
    cached_permitted-IsGenuine until_five 4 "u1" "" (with_ttl_cache 10) refl
      (with_ttl_cache-IsValid until_five 10)
