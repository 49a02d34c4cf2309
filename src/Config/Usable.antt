-- ===== src/Config/Usable.antt =====
-- What a configuration that `config.Load` returns can be relied on for.
use text.Mathlib.TextLemmas.{cons-append}
use fusion_bff.Base.{
  String, false, List, [], ◌∷◌, ◌≡◌, ◌≢◌, subst, refl, ◌⊎◌, inl, inr, All, ◌==◌, eq_iff, is_empty,
  is_empty_iff, ok, >>=-eq-ok, Bool-cases, arith, IsFreeOf, split, split-IsFreeOf, trim_space,
  has_char-trim_space,
}
use fusion_bff.Config.{
  Env, Durations, Config, ◌<>◌, get_env, env_or_default, env_list, keep_entries, check_required,
}
use fusion_bff.Config.Load.{
  Times, bypass_of, load_times, settings, mock_issuer, override_bypass, load,
}
use fusion_bff.Config.Succeeds.{IsProvided, check_required_iff}

-- An entry of a list with commas: neither empty nor with a comma.
abbrev pub IsEntry : String → Type 0
IsEntry e = (e ≢ "") × IsFreeOf b',' e

keep_entries-IsEntry :
    (parts : List String) → All (IsFreeOf b',') parts → All IsEntry (keep_entries parts)
unfolding keep_entries
keep_entries-IsEntry [] a = tt
keep_entries-IsEntry (part ∷ parts) (free, rest) = elim (Bool-cases (is_empty (trim_space part))) [
  | inl gone ↦ rw gone (keep_entries-IsEntry parts rest)
  | inr kept ↦
      let nonempty = is_empty_iff (trim_space part) in
      rw kept ((ground arith, has_char-trim_space b',' part free), keep_entries-IsEntry parts rest)
]

env_list-IsEntry : (env : Env) (key : String) → All IsEntry (env_list env key)
unfolding env_list
env_list-IsEntry env key = elim (Bool-cases (is_empty (get_env env key))) [
  | inl unset ↦ rw (unset, env_list) tt
  | inr set ↦
      rw (set, env_list)
        (keep_entries-IsEntry (split b',' (get_env env key)) (split-IsFreeOf b',' _))
]

env_or_default-set : (env : Env) (key def : String) → def ≢ "" → env_or_default env key def ≢ ""
unfolding env_or_default
env_or_default-set env key def h = let empty = is_empty_iff (get_env env key) in ground arith

-- What the rest of the program relies on in a configuration.
pub record IsUsable {Duration : Type 0} (cfg : Config Duration) : Type 0 where
  pub issuer : cfg.oidc_issuer_url ≢ ""
  pub client : cfg.oidc_client_id ≢ ""
  pub port : cfg.http_port ≢ ""
  pub cookie : cfg.session_cookie_name ≢ ""
  pub users : All IsEntry cfg.allowed_users
  pub origins : All IsEntry cfg.cors_origins
  pub provider :
      (cfg.oidc_bypass ≡ false)
      ⊎ ((cfg.oidc_issuer_url ≡ mock_issuer cfg.http_port) × (cfg.oidc_client_secret ≡ ""))

mock_issuer-set : (port : String) → mock_issuer port ≢ ""
unfolding mock_issuer
mock_issuer-set port h = let first = cons-append "h" "ttp://localhost:" (port <> "/mock-oidc") in cc

settings-IsUsable :
    {Duration : Type 0} (env : Env) (times : Times Duration)
    → IsProvided env
    → IsUsable (override_bypass (settings env times))
unfolding settings override_bypass bypass_of env_or_default
settings-IsUsable env times provided =
    let bypass = eq_iff (get_env env "OIDC_BYPASS") "true" in
    let client = is_empty_iff (get_env env "OIDC_CLIENT_ID") in
    let port = env_or_default-set env "HTTP_PORT" "8080" (λ h. cc) in
    let cookie = env_or_default-set env "SESSION_COOKIE_NAME" "sid" (λ h. cc) in
    let users = env_list-IsEntry env "ALLOWED_USERS" in
    let origins = env_list-IsEntry env "CORS_ORIGINS" in
    elim (Bool-cases (get_env env "OIDC_BYPASS" == "true")) [
      | inl on ↦
          rw (on, settings, override_bypass, bypass_of)
            (record {
              issuer = mock_issuer-set (env_or_default env "HTTP_PORT" "8080");
              client = env_or_default-set env "OIDC_CLIENT_ID" "fusion-bff-mock" (λ h. cc);
              port = port;
              cookie = cookie;
              users = users;
              origins = origins;
              provider = inr (refl, refl);
            })
      | inr off ↦
          rw (off, settings, override_bypass, bypass_of)
            (record {
              issuer = ground arith;
              client = ground arith;
              port = port;
              cookie = cookie;
              users = users;
              origins = origins;
              provider = inl refl;
            })
    ]

-- A configuration that `Load` returns is made of the settings and the last step.
pub load-settings :
    {Duration : Type 0} (time : Durations Duration) (env : Env) (cfg : Config Duration)
    → load time env ≡ ok cfg
    → (times : Times Duration) × (override_bypass (settings env times) ≡ cfg)
unfolding load
load-settings time env cfg done =
    let (_, required, rest) = >>=-eq-ok (check_required env) _ done in
    let (times, read, made) = >>=-eq-ok (load_times time env) _ rest in (times, cc)

-- A configuration that `Load` returns has an issuer, a client id, a port and a cookie name; its
-- lists of users and of origins have no empty entry and none with a comma; and with the bypass on its
-- issuer is the embedded server's and it has no client secret.
pub load-IsUsable :
    {Duration : Type 0} (time : Durations Duration) (env : Env) (cfg : Config Duration)
    → load time env ≡ ok cfg
    → IsUsable cfg
unfolding load
load-IsUsable time env cfg done =
    let (_, required, rest) = >>=-eq-ok (check_required env) _ done in
    let (times, read, made) = >>=-eq-ok (load_times time env) _ rest in
    let same : override_bypass (settings env times) ≡ cfg = cc in
    subst IsUsable same (settings-IsUsable env times ((check_required_iff env).0 required))
