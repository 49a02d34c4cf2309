-- ===== src/Oidc/KeySet/Freshness.antt =====
-- How old the keys can be that verify a token, over all interleavings of the callers.
mod Tests
use fusion_bff.Base.{
  ℕ, ◌+◌, ◌≤◌, ◌<◌, String, Bool, true, false, ltb, if◌then◌else◌, ◌≡◌, refl, sym, ap, ◌∙◌, ◌⊎◌,
  inl, inr, Bool-cases, arith,
}
use fusion_bff.Oidc.KeySet.{CachingKeySet, new_caching_key_set, is_over, renew, key_set}

module _ {KeySet : Type 0} (remote : String → ℕ → KeySet) where
  -- A cache and the time, and what they can be later: time passes, and callers hold the write lock.
  pub data Reaches (c : CachingKeySet KeySet) (t : ℕ) : CachingKeySet KeySet → ℕ → Type 0 where
    here : Reaches c t c t
    passes : {d : CachingKeySet KeySet} {u v : ℕ} → Reaches c t d u → u ≤ v → Reaches c t d v
    locks :
        {d : CachingKeySet KeySet} {u : ℕ} (made_at : ℕ)
        → Reaches c t d u
        → u ≤ made_at
        → Reaches c t (renew remote u made_at d) made_at

  -- The inner set was made at some time so far, and expires the time to live after it.
  abbrev pub IsStamped : String → ℕ → CachingKeySet KeySet → ℕ → Type 0
  IsStamped url ttl c t =
      (at : ℕ) × (at ≤ t)
      × (c.inner ≡ remote url at)
      × (c.expires_at ≡ at + ttl)
      × (c.jwks_url ≡ url)
      × (c.ttl ≡ ttl)

  Reaches-le :
      {c : CachingKeySet KeySet} {t : ℕ} {d : CachingKeySet KeySet} {u : ℕ}
      → Reaches c t d u
      → t ≤ u
  Reaches-le here = omega arith
  Reaches-le (passes r h) = let before = Reaches-le r in omega arith
  Reaches-le (locks made_at r h) = let before = Reaches-le r in omega arith

  renew-IsStamped :
      (url : String) (ttl now made_at : ℕ) (c : CachingKeySet KeySet)
      → now ≤ made_at
      → IsStamped url ttl c now
      → IsStamped url ttl (renew remote now made_at c) made_at
  unfolding renew
  renew-IsStamped url ttl now made_at c h (at, le, i, e, u, l) = elim (Bool-cases (is_over now c)) [
    | inl over ↦
        rw (over, renew)
          (made_at, omega arith, ap (λ w. remote w made_at) u, ap (λ n. made_at + n) l, u, l)
    | inr alive ↦ rw (alive, renew) (at, omega arith, i, e, u, l)
  ]

  Reaches-IsStamped :
      (url : String) (ttl : ℕ) {c : CachingKeySet KeySet} {t : ℕ} {d : CachingKeySet KeySet} {u : ℕ}
      → IsStamped url ttl c t
      → Reaches c t d u
      → IsStamped url ttl d u
  Reaches-IsStamped url ttl s here = s
  Reaches-IsStamped url ttl s (passes r h) =
      let (at, le, i, e, a, l) = Reaches-IsStamped url ttl s r in (at, omega arith, i, e, a, l)
  Reaches-IsStamped url ttl s (locks made_at r h) =
      renew-IsStamped url ttl _ made_at _ h (Reaches-IsStamped url ttl s r)

  renew-lives :
      (now made_at : ℕ) (c : CachingKeySet KeySet)
      → now ≤ made_at
      → now ≤ (renew remote now made_at c).expires_at
  unfolding renew
  renew-lives now made_at c h = elim (Bool-cases (is_over now c)) [
    | inl over ↦ rw (over, renew) (omega arith)
    | inr alive ↦ rw (alive, renew) (ground arith)
  ]

  -- From a new cache on, whatever other callers do in between and during the call, the keys that
  -- verify a token belong to a remote key set that was made by the end of the call, and whose time to
  -- live was not over when the call began.
  pub key_set-IsFresh :
      (url : String) (ttl start first now made_at : ℕ) (c d : CachingKeySet KeySet)
      → Reaches (new_caching_key_set remote url ttl start) start c first
      → Reaches c first d now
      → now ≤ made_at
      → (at : ℕ) × ((key_set remote first c now made_at d).0 ≡ remote url at)
        × (at ≤ made_at)
        × (first ≤ at + ttl)
  unfolding key_set new_caching_key_set
  key_set-IsFresh url ttl start first now made_at c d before during h =
      elim (Bool-cases (is_over first c)) [
        | inl over ↦
            let there =
              Reaches-IsStamped url ttl (start, omega arith, refl, refl, refl, refl) before in
            let stamped =
              renew-IsStamped url ttl now made_at d h (Reaches-IsStamped url ttl there during) in
            let (at, le, i, e, _, _) = stamped in
            let lives = renew-lives now made_at d h in
            let later = Reaches-le during in rw (over, key_set) (at, i, le, omega arith)
        | inr alive ↦
            let there =
              Reaches-IsStamped url ttl (start, omega arith, refl, refl, refl, refl) before in
            let (at, le, i, e, _, _) = there in
            let later = Reaches-le during in rw (alive, key_set) (at, i, omega arith, ground arith)
      ]
