-- ===== src/Allowlist/Freshness.antt =====
-- How old an answer of the cached checker can be.
use Prim.Native.Char.{nul}
use fusion_bff.Base.{
  ℕ, ◌+◌, ◌<◌, code, String, Bool, false, some, ◌==◌, ◌≡◌, refl, ◌⊎◌, inl, inr, ap, sym, ◌∙◌, arith,
  eq_iff, ltb, Option-cases, Bool-cases, has_char, joined_inj, lookup, lookup-insert,
}
use fusion_bff.Allowlist.{
  CachedEntry, CachedChecker, with_ttl_cache, cache_key, ask_inner, cached_permitted,
}

-- A text without the character that separates the parts of a cache key.
abbrev pub IsNulFree : String → Type 0
IsNulFree s = has_char (code nul) s ≡ false

-- The inner checker's answers, which may change with time.
module _ (inner : ℕ → String → String → Bool) where
  -- The entry holds what the inner checker answered for the key's user at a time that the end of
  -- the entry's life tells.
  abbrev pub IsGenuine : ℕ → String → CachedEntry → Type 0
  IsGenuine ttl key e =
      (sub : String) × (email : String) × (asked : ℕ) × (IsNulFree sub)
      × (key ≡ cache_key sub email)
      × (e.permitted ≡ inner asked sub email)
      × (e.expires_at ≡ asked + ttl)

  abbrev pub IsValid : CachedChecker → Type 0
  IsValid c = (key : String) (e : CachedEntry) → lookup key c.cache ≡ some e → IsGenuine c.ttl key e

  pub with_ttl_cache-IsValid : (ttl : ℕ) → IsValid (with_ttl_cache ttl)
  unfolding with_ttl_cache lookup
  with_ttl_cache-IsValid ttl key e h = cc

  module _ (now : ℕ) (sub email : String) (c : CachedChecker) (free : IsNulFree sub)
      (v : IsValid c) where
    ask_inner-IsValid : IsValid (ask_inner (inner now sub email) now (cache_key sub email) c).1
    ask_inner-IsValid key e h =
        let entry : CachedEntry = record {
          permitted = inner now sub email;
          expires_at = now + c.ttl;
        } in
        let found = sym (lookup-insert (cache_key sub email) key entry c.cache) ∙ h in
        elim (Bool-cases (cache_key sub email == key)) [
          | inl same ↦
              let stored : some entry ≡ some e = rw same at found in
              (
                sub,
                email,
                now,
                free,
                sym ((eq_iff (cache_key sub email) key).0 same),
                ground arith,
                ground arith,
              )
          | inr other ↦ v key e (rw other at found)
        ]

    -- An entry that is still alive under this user's key holds an answer for this user.
    hit-answer :
        (e : CachedEntry)
        → lookup (cache_key sub email) c.cache ≡ some e
        → now < e.expires_at
        → (asked : ℕ) × (e.permitted ≡ inner asked sub email)
          × ((asked ≡ now) ⊎ (now < asked + c.ttl))
    hit-answer e h alive =
        let (sub', email', asked, free', same_key, answered, life) = v (cache_key sub email) e h in
        let (same_sub, same_email) = joined_inj nul sub sub' email email' free free' same_key in
        let same_user = ap (λ x. inner asked x email) same_sub ∙ ap (inner asked sub') same_email in
        (asked, answered ∙ sym same_user, inr (omega arith))

    -- The cache stays valid, and the answer is one that the inner checker gave for this very user:
    -- now, or at a time that lies less than the time to live before now. The `sub`s asked about
    -- hold no NUL, the separator of the cache keys.
    pub cached_permitted-IsGenuine :
        IsValid (cached_permitted (inner now) now sub email c).1
        × ((asked : ℕ) × ((cached_permitted (inner now) now sub email c).0 ≡ inner asked sub email)
            × ((asked ≡ now) ⊎ (now < asked + c.ttl)))
    unfolding cached_permitted
    cached_permitted-IsGenuine = elim (Option-cases (lookup (cache_key sub email) c.cache)) [
      | inl missing ↦ rw (missing, cached_permitted) (ask_inner-IsValid, (now, refl, inl refl))
      | inr (e, found) ↦ elim (Bool-cases (ltb now e.expires_at)) [
        | inl alive ↦ rw (found, cached_permitted) (rw alive (v, hit-answer e found (ground arith)))
        | inr dead ↦
            rw (found, cached_permitted) (rw dead (ask_inner-IsValid, (now, refl, inl refl)))
      ]
    ]
