-- ===== src/Config/Load.antt =====
-- internal/config/config.go: `Load`.
use fusion_bff.Base.{
  ℕ, ◌*◌, String, Bool, not, ◌&&◌, [], ◌==◌, if◌then◌else◌, is_empty, Result, ok, ◌>>=◌,
}
use fusion_bff.Session.{second, minute}
use fusion_bff.Config.{
  Env, Durations, Config, ◌<>◌, get_env, env_or_default, env_list, default_owner_group_of, at_path,
  check_required, parse_duration,
}

-- The five durations of the configuration.
pub record Times (Duration : Type 0) : Type 0 where
  pub jwks : Duration
  pub sa_token : Duration
  pub allowlist : Duration
  pub session : Duration
  pub probe : Duration

abbrev pub hour : ℕ
hour = 60 * minute

-- `OIDC_BYPASS`
unfoldable pub bypass_of : Env → Bool
bypass_of env = get_env env "OIDC_BYPASS" == "true"

-- A setting of the bypass, which is only read where the bypass is on.
unfoldable pub bypass_or_empty : Env → String → String → String
bypass_or_empty env key def = if bypass_of env then env_or_default env key def else ""

-- The JWKS address: by default the one of Keycloak, unless the bypass is on.
unfoldable pub jwks_url_of : Env → String
jwks_url_of env =
    if is_empty (get_env env "OIDC_JWKS_URL") && not (bypass_of env)
    then at_path (get_env env "OIDC_ISSUER_URL") "/protocol/openid-connect/certs"
    else get_env env "OIDC_JWKS_URL"

module _ {Duration : Type 0} (time : Durations Duration) where
  -- The durations, in the order in which they are read.
  unfoldable pub load_times : Env → Result (Times Duration)
  load_times env = do
    jwks ← parse_duration time env "OIDC_JWKS_CACHE_TTL" (15 * minute)
    sa_token ← parse_duration time env "SA_TOKEN_CACHE_TTL" (5 * minute)
    allowlist ← parse_duration time env "ALLOWLIST_CACHE_TTL" (30 * second)
    session ← parse_duration time env "SESSION_MAX_AGE" (8 * hour)
    probe ← parse_duration time env "HEALTH_PROBE_TIMEOUT" (5 * second)
    ok (record {
      jwks = jwks;
      sa_token = sa_token;
      allowlist = allowlist;
      session = session;
      probe = probe;
    })

-- The configuration before the bypass replaces the addresses of the provider.
unfoldable pub settings : {Duration : Type 0} → Env → Times Duration → Config Duration
settings env times =
    let port = env_or_default env "HTTP_PORT" "8080" in
    let issuer = get_env env "OIDC_ISSUER_URL" in
    let forge =
      env_or_default env "FORGE_URL" "http://fusion-forge.fusion.svc.cluster.local:8080" in
    let index =
      env_or_default env "INDEX_URL" "http://fusion-index-backend.fusion.svc.cluster.local:8080" in
    let weave =
      env_or_default env "WEAVE_URL" "http://fusion-weave-api.fusion.svc.cluster.local:8082" in
    let wizard =
      env_or_default env "WIZARD_URL" "http://fusion-wizard-api.fusion.svc.cluster.local:8083" in
    let content =
      env_or_default env "CONTENT_URL" "http://fusion-content.fusion.svc.cluster.local:8080" in
    let public_auth = env_or_default env "OIDC_PUBLIC_AUTH_URL" issuer in
    record {
      http_port = port;
      oidc_issuer_url = issuer;
      oidc_client_id = get_env env "OIDC_CLIENT_ID";
      oidc_jwks_url = jwks_url_of env;
      allowed_users = env_list env "ALLOWED_USERS";
      oidc_user_id_claim = env_or_default env "OIDC_USER_ID_CLAIM" "sub";
      default_owner_group = default_owner_group_of env;
      forge_url = forge;
      index_url = index;
      weave_url = weave;
      wizard_url = wizard;
      content_url = content;
      sa_token_path =
          env_or_default env "K8S_SA_TOKEN_PATH"
            "/var/run/secrets/kubernetes.io/serviceaccount/token";
      weave_sa_token_path =
          env_or_default env "WEAVE_SA_TOKEN_PATH" "/var/run/secrets/fusion-bff/weave/token";
      jwks_cache_ttl = times.jwks;
      sa_token_cache_ttl = times.sa_token;
      allowlist_cache_ttl = times.allowlist;
      oidc_client_secret = get_env env "OIDC_CLIENT_SECRET";
      oidc_redirect_url = get_env env "OIDC_REDIRECT_URL";
      oidc_public_auth_url = public_auth;
      oidc_revoke_url =
          env_or_default env "OIDC_REVOKE_URL" (at_path issuer "/protocol/openid-connect/revoke");
      oidc_end_session_url =
          env_or_default env "OIDC_END_SESSION_URL"
            (at_path public_auth "/protocol/openid-connect/logout");
      session_secret = get_env env "SESSION_SECRET";
      session_cookie_name = env_or_default env "SESSION_COOKIE_NAME" "sid";
      session_cookie_domain = get_env env "SESSION_COOKIE_DOMAIN";
      session_cookie_secure = get_env env "SESSION_COOKIE_SECURE" == "true";
      session_max_age = times.session;
      cors_origins = env_list env "CORS_ORIGINS";
      post_login_redirect_url = env_or_default env "POST_LOGIN_REDIRECT_URL" "/";
      oidc_bypass = bypass_of env;
      oidc_bypass_base_url =
          bypass_or_empty env "OIDC_BYPASS_BASE_URL" ("http://localhost:" <> port);
      oidc_bypass_sub = bypass_or_empty env "OIDC_BYPASS_SUB" "dev-user";
      oidc_bypass_email = bypass_or_empty env "OIDC_BYPASS_EMAIL" "dev@local";
      oidc_bypass_name = bypass_or_empty env "OIDC_BYPASS_NAME" "Dev User";
      oidc_bypass_groups = if bypass_of env then env_list env "OIDC_BYPASS_GROUPS" else [];
      rbac_config_path = env_or_default env "RBAC_CONFIG_PATH" "./rbac.yaml";
      presets_config_path = env_or_default env "PRESETS_CONFIG_PATH" "./presets.yaml";
      log_level = env_or_default env "LOG_LEVEL" "info";
      log_format = env_or_default env "LOG_FORMAT" "json";
      db_dsn = get_env env "DB_DSN";
      forge_health_url = env_or_default env "FORGE_HEALTH_URL" (forge <> "/health");
      index_health_url = env_or_default env "INDEX_HEALTH_URL" (index <> "/health");
      weave_health_url = env_or_default env "WEAVE_HEALTH_URL" (weave <> "/health");
      wizard_health_url = env_or_default env "WIZARD_HEALTH_URL" (wizard <> "/healthz");
      content_health_url = env_or_default env "CONTENT_HEALTH_URL" (content <> "/q/health/ready");
      health_probe_timeout = times.probe;
    }

-- The base address of the embedded provider, as the process itself reaches it.
unfoldable pub mock_issuer : String → String
mock_issuer port = "http://localhost:" <> port <> "/mock-oidc"

-- The last step of `Load`: with the bypass on, the provider's addresses are the embedded server's.
unfoldable pub override_bypass : {Duration : Type 0} → Config Duration → Config Duration
override_bypass cfg =
    let internal = mock_issuer cfg.http_port in
    let public = at_path cfg.oidc_bypass_base_url "/mock-oidc" in
    if not cfg.oidc_bypass then cfg else record cfg {
      oidc_client_id =
          if is_empty cfg.oidc_client_id then "fusion-bff-mock" else cfg.oidc_client_id;
      oidc_issuer_url = internal;
      oidc_public_auth_url = public;
      oidc_revoke_url = internal <> "/protocol/openid-connect/revoke";
      oidc_end_session_url = public <> "/protocol/openid-connect/logout";
      oidc_client_secret = "";
      oidc_redirect_url =
          if is_empty cfg.oidc_redirect_url
          then at_path cfg.oidc_bypass_base_url "/bff/callback"
          else cfg.oidc_redirect_url;
    }

-- `Load`
unfoldable pub load : {Duration : Type 0} → Durations Duration → Env → Result (Config Duration)
load time env = do
  _ ← check_required env
  times ← load_times time env
  ok (override_bypass (settings env times))
