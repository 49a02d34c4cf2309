-- ===== src/Config.antt =====
-- internal/config/config.go: the settings that the process reads from its environment. Durations and
-- their parser are package time's, and parameters.
pub mod Load
pub mod Succeeds
pub mod Usable
mod Tests
use Prim.Native.String
use fusion_bff.Base.{
  ℕ, ◌*◌, String, Bool, true, false, Option, none, some, List, [], ◌∷◌, ◌==◌, if◌then◌else◌,
  is_empty, Result, ok, err, Error, plain, wrapped, split, trim_space, trim_right,
}

-- `os.LookupEnv`: the value of a variable that is set.
abbrev pub Env : Type 0
Env = String → Option String

-- Package time: a duration of so many nanoseconds, and `time.ParseDuration`; package fmt's `%q`.
pub record Durations (Duration : Type 0) : Type 0 where
  pub nanoseconds : ℕ → Duration
  pub parse : String → Result Duration
  pub quoted : String → String

-- `Config`
pub record Config (Duration : Type 0) : Type 0 where
  pub http_port : String
  pub oidc_issuer_url : String
  pub oidc_client_id : String
  pub oidc_jwks_url : String
  pub allowed_users : List String
  pub oidc_user_id_claim : String
  pub default_owner_group : String
  pub forge_url : String
  pub index_url : String
  pub weave_url : String
  pub wizard_url : String
  pub content_url : String
  pub sa_token_path : String
  pub weave_sa_token_path : String
  pub jwks_cache_ttl : Duration
  pub sa_token_cache_ttl : Duration
  pub allowlist_cache_ttl : Duration
  pub oidc_client_secret : String
  pub oidc_redirect_url : String
  pub oidc_public_auth_url : String
  pub oidc_revoke_url : String
  pub oidc_end_session_url : String
  pub session_secret : String
  pub session_cookie_name : String
  pub session_cookie_domain : String
  pub session_cookie_secure : Bool
  pub session_max_age : Duration
  pub cors_origins : List String
  pub post_login_redirect_url : String
  pub oidc_bypass : Bool
  pub oidc_bypass_base_url : String
  pub oidc_bypass_sub : String
  pub oidc_bypass_email : String
  pub oidc_bypass_name : String
  pub oidc_bypass_groups : List String
  pub rbac_config_path : String
  pub presets_config_path : String
  pub log_level : String
  pub log_format : String
  pub db_dsn : String
  pub forge_health_url : String
  pub index_health_url : String
  pub weave_health_url : String
  pub wizard_health_url : String
  pub content_health_url : String
  pub health_probe_timeout : Duration

infixr 65 ◌<>◌
abbrev pub ◌<>◌ : String → String → String
s <> t = String.◌++◌ s t

-- `os.Getenv`: "" where the variable is not set.
unfoldable pub get_env : Env → String → String
get_env env key = elim (env key) [ none ↦ "" | some v ↦ v ]

-- `envOrDefault`
unfoldable pub env_or_default : Env → String → String → String
env_or_default env key def = if is_empty (get_env env key) then def else get_env env key

-- The loop that reads a list: the parts without white space around them, but not the empty ones.
unfoldable pub keep_entries : List String → List String
keep_entries [] = []
keep_entries (part ∷ parts) =
    let rest = keep_entries parts in
    if is_empty (trim_space part) then rest else trim_space part ∷ rest

-- A variable that holds a list with commas.
unfoldable pub env_list : Env → String → List String
env_list env key =
    if is_empty (get_env env key) then [] else keep_entries (split b',' (get_env env key))

-- `DEFAULT_OWNER_GROUP`: set and empty is not the same as not set.
unfoldable pub default_owner_group_of : Env → String
default_owner_group_of env = elim (env "DEFAULT_OWNER_GROUP") [
  | none ↦ "default"
  | some v ↦ trim_space v
]

-- `strings.TrimRight(url, "/") + path`
unfoldable pub at_path : String → String → String
at_path url path = trim_right b'/' url <> path

-- The checks for the two settings without a default.
unfoldable pub check_required : Env → Result (Unit {0})
check_required env =
    if get_env env "OIDC_BYPASS" == "true"
    then ok tt
    else if is_empty (get_env env "OIDC_ISSUER_URL")
    then err (plain "OIDC_ISSUER_URL is required")
    else if is_empty (get_env env "OIDC_CLIENT_ID")
    then err (plain "OIDC_CLIENT_ID is required")
    else ok tt

module _ {Duration : Type 0} (time : Durations Duration) where
  -- `parseDuration`, with the default in nanoseconds.
  unfoldable pub parse_duration : Env → String → ℕ → Result Duration
  parse_duration env key def =
      if is_empty (get_env env key)
      then ok (time.nanoseconds def)
      else elim (time.parse (get_env env key)) [
        | err e ↦ err (wrapped (key <> ": invalid duration " <> time.quoted (get_env env key)) e)
        | ok d ↦ ok d
      ]
