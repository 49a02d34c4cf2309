-- ===== src/Token/Freshness.antt =====
-- Where the token comes from, and how old it can be, whatever other callers do meanwhile.
use fusion_bff.Base.{
  ℕ, ◌+◌, ◌<◌, String, true, List, [], ◌∷◌, ◌++◌, Result, ok, err, ltb, trim_space, ◌≡◌, refl, sym,
  ◌∙◌, ◌⊎◌, inl, inr, arith, Bool-cases, Result-cases,
}
use fusion_bff.Token.{FileProvider, new_file_provider, cached_token, refresh_token, token}

-- A passage through the second half of `Token`: the time of the look, the time after the read, and
-- what the file holds.
pub record Passage : Type 0 where
  pub now : ℕ
  pub read_at : ℕ
  pub file : Result String

abbrev pass : Passage → FileProvider → FileProvider
pass c p = (refresh_token c.now c.read_at c.file p).1

-- The provider after the passages of some callers, one after the other, as under the write lock.
unfoldable pub after : List Passage → FileProvider → FileProvider
after [] p = p
after (c ∷ calls) p = after calls (pass c p)

-- The passage finds no token that lives, and reads these bytes from the file, at the time `at`.
abbrev pub Reads : Passage → FileProvider → String → ℕ → Type 0
Reads c p bytes at = (¬ (c.now < p.expires_at)) × (c.file ≡ ok bytes) × (at ≡ c.read_at)

-- One of the passages reads these bytes, at the time `at`.
abbrev pub WasRead : List Passage → FileProvider → String → ℕ → Type 0
WasRead [] p bytes at = ⊥
WasRead (c ∷ calls) p bytes at = Reads c p bytes at ⊎ WasRead calls (pass c p) bytes at

-- The cached token is one of these reads, and lives for `ttl` from then; or nothing was read yet.
abbrev IsCached : (String → ℕ → Type 0) → ℕ → FileProvider → Type 0
IsCached Known ttl p =
    (p.ttl ≡ ttl)
    × ((p.expires_at ≡ 0)
        ⊎ ((bytes : String) × (at : ℕ) × Known bytes at
            × (p.cached ≡ trim_space bytes)
            × (p.expires_at ≡ at + ttl)))

-- The token is what a read at `at` gave, without the white space around it; the read is this call's,
-- or that of a passage before, less than `ttl` ago at one of the two times at which this call looks.
abbrev pub IsGenuine : List Passage → FileProvider → ℕ → ℕ → ℕ → Result String → String → Type 0
IsGenuine calls new first now read_at file tok =
    (bytes : String) × (at : ℕ) × (tok ≡ trim_space bytes)
    × ((WasRead calls new bytes at × ((first < at + new.ttl) ⊎ (now < at + new.ttl)))
        ⊎ ((file ≡ ok bytes) × (at ≡ read_at)))

IsCached-map :
    (Known More : String → ℕ → Type 0) (ttl : ℕ) (p : FileProvider)
    → ((bytes : String) (at : ℕ) → Known bytes at → More bytes at)
    → IsCached Known ttl p
    → IsCached More ttl p
IsCached-map Known More ttl p more (same, inl never) = (same, inl never)
IsCached-map Known More ttl p more (same, inr (bytes, at, w, e, x)) =
    (same, inr (bytes, at, more bytes at w, e, x))

-- A passage keeps what is cached, or caches what it reads.
refresh_token-IsCached :
    (Known : String → ℕ → Type 0) (ttl now read_at : ℕ) (file : Result String) (p : FileProvider)
    → IsCached Known ttl p
    → IsCached
        (λ bytes at.
          Known bytes at ⊎ ((¬ (now < p.expires_at)) × (file ≡ ok bytes) × (at ≡ read_at)))
        ttl
        (refresh_token now read_at file p).1
unfolding refresh_token
refresh_token-IsCached Known ttl now read_at (err e) p cached =
    let kept = IsCached-map Known _ ttl p (λ b a k. inl k) cached in
    elim (Bool-cases (ltb now p.expires_at)) [
      | inl lives ↦ rw (lives, refresh_token) kept
      | inr ended ↦ rw (ended, refresh_token) kept
    ]
refresh_token-IsCached Known ttl now read_at (ok bytes) p (same, cached) =
    elim (Bool-cases (ltb now p.expires_at)) [
      | inl lives ↦
          rw (lives, refresh_token) (IsCached-map Known _ ttl p (λ b a k. inl k) (same, cached))
      | inr ended ↦
          let old : ¬ (now < p.expires_at) = λ h. ground arith in
          rw (ended, refresh_token)
            (same, inr (bytes, read_at, inr (old, refl, refl), refl, rw same refl))
    ]

after-IsCached :
    (Known : String → ℕ → Type 0) (ttl : ℕ) (calls : List Passage) (p : FileProvider)
    → IsCached Known ttl p
    → IsCached (λ bytes at. Known bytes at ⊎ WasRead calls p bytes at) ttl (after calls p)
unfolding after
after-IsCached Known ttl [] p cached = IsCached-map Known _ ttl p (λ b a k. inl k) cached
after-IsCached Known ttl (c ∷ calls) p cached =
    IsCached-map _ _ ttl (after calls (pass c p))
      (λ b a k. elim k [
        | inl (inl known) ↦ inl known
        | inl (inr now) ↦ inr (inl now)
        | inr later ↦ inr (inr later)
      ])
      (after-IsCached (λ b a. Known b a ⊎ Reads c p b a) ttl calls (pass c p)
        (refresh_token-IsCached Known ttl c.now c.read_at c.file p cached))

WasRead-append :
    (calls more : List Passage) (p : FileProvider) (bytes : String) (at : ℕ)
    → WasRead calls p bytes at ⊎ WasRead more (after calls p) bytes at
    → WasRead (calls ++ more) p bytes at
unfolding after
WasRead-append [] more p bytes at w = elim w [ inl never ↦ absurd never | inr later ↦ later ]
WasRead-append (c ∷ calls) more p bytes at w = elim w [
  | inl (inl here) ↦ inl here
  | inl (inr soon) ↦ inr (WasRead-append calls more (pass c p) bytes at (inl soon))
  | inr later ↦ inr (WasRead-append calls more (pass c p) bytes at (inr later))
]

after-append :
    (calls more : List Passage) (p : FileProvider)
    → after (calls ++ more) p ≡ after more (after calls p)
unfolding after
after-append [] more p = refl
after-append (c ∷ calls) more p = after-append calls more (pass c p)

new-IsCached : (path : String) (ttl : ℕ) → IsCached (λ _ _. ⊥) ttl (new_file_provider path ttl)
unfolding new_file_provider
new-IsCached path ttl = (refl, inl refl)

-- After passages from the start, what is cached was read by one of them.
reached-IsCached :
    (path : String) (ttl : ℕ) (calls : List Passage)
    → IsCached
        (WasRead calls (new_file_provider path ttl))
        ttl
        (after calls (new_file_provider path ttl))
reached-IsCached path ttl calls =
    let new = new_file_provider path ttl in
    IsCached-map _ _ ttl (after calls new)
      (λ b a k. elim k [ inl never ↦ absurd never | inr read ↦ read ])
      (after-IsCached (λ _ _. ⊥) ttl calls new (new-IsCached path ttl))

-- A cached token that lives was read less than `ttl` ago.
alive :
    (Known : String → ℕ → Type 0) (ttl : ℕ) (p : FileProvider) (now : ℕ)
    → IsCached Known ttl p
    → ltb now p.expires_at ≡ true
    → (bytes : String) × (at : ℕ) × Known bytes at
      × (p.cached ≡ trim_space bytes)
      × (now < at + ttl)
alive Known ttl p now (_, inl never) h = absurd (ground arith)
alive Known ttl p now (_, inr (bytes, at, w, e, x)) h = (bytes, at, w, e, ground arith)

module _ (path : String) (ttl : ℕ) where
  abbrev pub new : FileProvider
  new = new_file_provider path ttl

  refresh_token-IsGenuine :
      (calls : List Passage) (first now read_at : ℕ) (file : Result String) (tok : String)
      → (refresh_token now read_at file (after calls new)).0 ≡ ok tok
      → IsGenuine calls new first now read_at file tok
  unfolding refresh_token new_file_provider
  refresh_token-IsGenuine calls first now read_at file tok h =
      let q = after calls new in
      elim (Bool-cases (ltb now q.expires_at)) [
        | inl lives ↦
            let (bytes, at, w, e, x) =
              alive (WasRead calls new) ttl q now (reached-IsCached path ttl calls) lives in
            let here : ok q.cached ≡ ok tok = rw (lives, refresh_token) at h in
            let same : q.cached ≡ tok = cc in (bytes, at, sym same ∙ e, inl (w, inr x))
        | inr ended ↦ elim (Result-cases file) [
          | inr (why, failed) ↦ (let clash = rw (ended, failed, refresh_token) at h in cc)
          | inl (bytes, given) ↦
              let here : ok (trim_space bytes) ≡ ok tok = rw (ended, given, refresh_token) at h in
              let same : trim_space bytes ≡ tok = cc in
              (bytes, read_at, sym same, inr (given, refl))
        ]
      ]

  -- A token that is returned was read from the file, with the white space around it taken off: by
  -- this call, or by an earlier one whose time to live had not passed at one of the two times at
  -- which this call looks. The provider is one that starts empty and that any callers may have used
  -- before this call, and between its two looks. This call changes it as one more passage or not at
  -- all.
  pub token-IsGenuine :
      (before between : List Passage) (first now read_at : ℕ) (file : Result String) (tok : String)
      → (token first (after before new) now read_at file (after (before ++ between) new)).0 ≡ ok tok
      → IsGenuine (before ++ between) new first now read_at file tok
        × (((token first (after before new) now read_at file (after (before ++ between) new)).1
              ≡ after (before ++ between) new)
            ⊎ ((token first (after before new) now read_at file (after (before ++ between) new)).1
                ≡ after
                    (before
                      ++ between
                      ++ (record { now = now; read_at = read_at; file = file } ∷ []))
                    new))
  unfolding token cached_token after new_file_provider
  token-IsGenuine before between first now read_at file tok h =
      let p = after before new in
      let all = before ++ between in
      let this : Passage = record { now = now; read_at = read_at; file = file } in
      elim (Bool-cases (ltb first p.expires_at)) [
        | inl lives ↦
            let (bytes, at, w, e, x) =
              alive (WasRead before new) ttl p first (reached-IsCached path ttl before) lives in
            let here : ok p.cached ≡ ok tok = rw (lives, token, cached_token) at h in
            let same : p.cached ≡ tok = cc in
            (
              (
                bytes,
                at,
                sym same ∙ e,
                inl (WasRead-append before between new bytes at (inl w), inl x),
              ),
              inl (rw (lives, token, cached_token) refl),
            )
        | inr ended ↦ (
          refresh_token-IsGenuine all first now read_at file tok
              (rw (ended, token, cached_token) at h),
          inr (rw (ended, token, cached_token) (sym (after-append all (this ∷ []) new))),
        )
      ]
