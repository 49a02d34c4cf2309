-- ===== src/Oidc/KeySet.antt =====
-- internal/oidc/jwks.go: the key set that is replaced when its time to live is over. The remote key
-- sets of the OIDC library are a parameter: `remote url at` is the one that is made at the time `at`.
pub mod Freshness
use fusion_bff.Base.{ℕ, ◌+◌, String, Bool, ltb, if◌then◌else◌, Result}

-- `cachingKeySet`, without its lock.
pub record CachingKeySet (KeySet : Type 0) : Type 0 where
  pub inner : KeySet
  pub expires_at : ℕ
  pub jwks_url : String
  pub ttl : ℕ

-- The test of `VerifySignature` whether the set has expired.
abbrev pub is_over : {KeySet : Type 0} → ℕ → CachingKeySet KeySet → Bool
is_over now c = ltb c.expires_at now

module _ {KeySet : Type 0} (remote : String → ℕ → KeySet) where
  -- `newCachingKeySet`
  unfoldable pub new_caching_key_set : String → ℕ → ℕ → CachingKeySet KeySet
  new_caching_key_set url ttl now = record {
    inner = remote url now;
    expires_at = now + ttl;
    jwks_url = url;
    ttl = ttl;
  }

  -- The part of `VerifySignature` under the write lock: looks again at `now`, and makes a new set at
  -- `made_at`.
  unfoldable pub renew : ℕ → ℕ → CachingKeySet KeySet → CachingKeySet KeySet
  renew now made_at c =
      if is_over now c
      then record c { inner = remote c.jwks_url made_at; expires_at = made_at + c.ttl }
      else c

  -- The key set that `VerifySignature` uses, and the cache after it. Other callers may have changed
  -- the cache from `c` to `d` between the two locks.
  unfoldable pub key_set :
      ℕ → CachingKeySet KeySet → ℕ → ℕ → CachingKeySet KeySet → KeySet × CachingKeySet KeySet
  key_set first c now made_at d =
      let d' = renew now made_at d in if is_over first c then (d'.inner, d') else (c.inner, d)

  -- `VerifySignature`, with the method of the library's key set.
  unfoldable pub verify_signature :
      (KeySet → String → Result String)
      → ℕ
      → CachingKeySet KeySet
      → ℕ
      → ℕ
      → CachingKeySet KeySet
      → String
      → Result String × CachingKeySet KeySet
  verify_signature verify first c now made_at d jwt =
      let (used, d') = key_set first c now made_at d in (verify used jwt, d')
