-- ===== src/Config/Succeeds.antt =====
-- Which environments `config.Load` accepts.
use fusion_bff.Base.{
  ℕ, ◌*◌, String, List, [], ◌∷◌, ◌≡◌, ◌≢◌, refl, ◌↔◌, ◌⊎◌, inl, inr, All, ◌==◌, eq_iff, is_empty,
  is_empty_iff, ok, >>=-eq-ok, Result-cases, Bool-cases, arith,
}
use fusion_bff.Config.{Env, Durations, Config, get_env, check_required, parse_duration}
use fusion_bff.Session.{second, minute}
use fusion_bff.Config.Load.{hour, Times, load_times, settings, override_bypass, load}

-- One of the durations that can be set.
abbrev durations : List String
durations =
    "OIDC_JWKS_CACHE_TTL" ∷ "SA_TOKEN_CACHE_TTL" ∷ "ALLOWLIST_CACHE_TTL" ∷ "SESSION_MAX_AGE"
    ∷ "HEALTH_PROBE_TIMEOUT" ∷ []

-- The bypass is on, or the provider and the client are set.
abbrev pub IsProvided : Env → Type 0
IsProvided env =
    (get_env env "OIDC_BYPASS" ≡ "true")
    ⊎ ((get_env env "OIDC_ISSUER_URL" ≢ "") × (get_env env "OIDC_CLIENT_ID" ≢ ""))

-- The variable is not set, or holds a duration.
abbrev pub IsReadable : {Duration : Type 0} → Durations Duration → Env → String → Type 0
IsReadable {Duration} time env key =
    (get_env env key ≡ "") ⊎ ((d : Duration) × (time.parse (get_env env key) ≡ ok d))

pub check_required_iff : (env : Env) → (check_required env ≡ ok tt) ↔ IsProvided env
unfolding check_required
check_required_iff env =
    let bypass = eq_iff (get_env env "OIDC_BYPASS") "true" in
    let issuer = is_empty_iff (get_env env "OIDC_ISSUER_URL") in
    let client = is_empty_iff (get_env env "OIDC_CLIENT_ID") in
    elim (Bool-cases (get_env env "OIDC_BYPASS" == "true")) [
      | inl on ↦ rw (on, check_required) (λ _. inl (bypass.0 on), λ _. refl)
      | inr off ↦ elim (Bool-cases (is_empty (get_env env "OIDC_ISSUER_URL"))) [
        | inl none_set ↦ rw (off, none_set, check_required) (λ h. cc, λ h. absurd (ground arith))
        | inr some_set ↦ elim (Bool-cases (is_empty (get_env env "OIDC_CLIENT_ID"))) [
          | inl no_id ↦
              rw (off, some_set, no_id, check_required) (λ h. cc, λ h. absurd (ground arith))
          | inr id ↦
              rw (off, some_set, id, check_required)
                (λ _. inr (ground arith, ground arith), λ _. refl)
        ]
      ]
    ]

module _ {Duration : Type 0} (time : Durations Duration) (env : Env) where
  parse_duration_iff :
      (key : String) (def : ℕ)
      → ((d : Duration) × (parse_duration time env key def ≡ ok d)) ↔ IsReadable time env key
  unfolding parse_duration
  parse_duration_iff key def =
      let empty = is_empty_iff (get_env env key) in
      elim (Bool-cases (is_empty (get_env env key))) [
        | inl unset ↦ rw (unset, parse_duration) (λ _. inl (empty.0 unset), λ _. (_, refl))
        | inr set ↦ elim (Result-cases (time.parse (get_env env key))) [
          | inl (d, eq) ↦ rw (set, eq, parse_duration) (λ _. inr (d, refl), λ _. (d, refl))
          | inr (e, eq) ↦ rw (set, eq, parse_duration) (λ h. absurd cc, λ h. absurd (ground arith))
        ]
      ]

  IsReadable-parse_duration :
      (key : String) (def : ℕ) {d : Duration}
      → parse_duration time env key def ≡ ok d
      → IsReadable time env key
  IsReadable-parse_duration key def done = (parse_duration_iff key def).0 (_, done)

  load_times-IsReadable :
      {times : Times Duration}
      → load_times time env ≡ ok times
      → All (IsReadable time env) durations
  unfolding load_times
  load_times-IsReadable done =
      let (jwks, a, done) = >>=-eq-ok _ _ done in
      let (sa_token, b, done) = >>=-eq-ok _ _ done in
      let (allowlist, c, done) = >>=-eq-ok _ _ done in
      let (session, d, done) = >>=-eq-ok _ _ done in
      let (probe, e, done) = >>=-eq-ok _ _ done in
      (
        IsReadable-parse_duration _ _ a,
        (
          IsReadable-parse_duration _ _ b,
          (
            IsReadable-parse_duration _ _ c,
            (IsReadable-parse_duration _ _ d, (IsReadable-parse_duration _ _ e, tt)),
          ),
        ),
      )

  load_times-Succeeds :
      All (IsReadable time env) durations
      → (times : Times Duration) × (load_times time env ≡ ok times)
  unfolding load_times
  load_times-Succeeds (a, (b, (c, (d, (e, _))))) =
      let (jwks, a) = (parse_duration_iff _ (15 * minute)).1 a in
      let (sa_token, b) = (parse_duration_iff _ (5 * minute)).1 b in
      let (allowlist, c) = (parse_duration_iff _ (30 * second)).1 c in
      let (session, d) = (parse_duration_iff _ (8 * hour)).1 d in
      let (probe, e) = (parse_duration_iff _ (5 * second)).1 e in
      (
        record {
          jwks = jwks;
          sa_token = sa_token;
          allowlist = allowlist;
          session = session;
          probe = probe;
        },
        rw (a, b, c, d, e) refl,
      )

  -- `Load` succeeds exactly when OIDC_BYPASS is "true" or both the issuer and the client id are set,
  -- and each of the five durations is unset or can be parsed. No other variable matters, SESSION_SECRET
  -- included.
  pub load-Succeeds_iff :
      ((cfg : Config Duration) × (load time env ≡ ok cfg))
      ↔ (IsProvided env × All (IsReadable time env) durations)
  unfolding load
  load-Succeeds_iff = (
    λ (cfg, done).
        let (_, required, done) = >>=-eq-ok _ _ done in
        let (times, read, done) = >>=-eq-ok _ _ done in
        ((check_required_iff env).0 required, load_times-IsReadable read),
    λ (provided, readable).
        let required = (check_required_iff env).1 provided in
        let (times, read) = load_times-Succeeds readable in
        (override_bypass (settings env times), rw (required, read) refl),
  )
