-- ===== src/Handler/Auth/Setup.antt =====
-- internal/api/handler/auth.go: the assembly of the login handler from the configuration, and the
-- request that revokes a refresh token; the OAuth configuration of cmd/server/main.go.
use fusion_bff.Base.{ℕ, String, List, [], ◌∷◌, Dict}
use fusion_bff.Rbac.Engine.{Engine}
use fusion_bff.Config.{Config, ◌<>◌, at_path}
use fusion_bff.Handler.Auth.{Services, AuthHandler}

-- `oauth2.Config`, as far as the program sets it.
pub record OauthConfig : Type 0 where
  pub client_id : String
  pub client_secret : String
  pub redirect_url : String
  pub scopes : List String
  pub auth_url : String
  pub token_url : String

-- A form that is posted to an address.
pub record Post : Type 0 where
  pub url : String
  pub form : Dict String

module _ {Duration : Type 0} where
  -- The `oauth2.Config` of `NewAuthHandler`.
  unfoldable pub oauth_config : Config Duration → OauthConfig
  oauth_config cfg = record {
    client_id = cfg.oidc_client_id;
    client_secret = cfg.oidc_client_secret;
    redirect_url = cfg.oidc_redirect_url;
    scopes = "openid" ∷ "email" ∷ "profile" ∷ "offline_access" ∷ [];
    auth_url = at_path cfg.oidc_public_auth_url "/protocol/openid-connect/auth";
    token_url = at_path cfg.oidc_issuer_url "/protocol/openid-connect/token";
  }

  -- The `oauth2.Config` of `main`, for silent refreshes: the token address alone is used.
  unfoldable pub refresh_config : Config Duration → OauthConfig
  refresh_config cfg = record {
    client_id = cfg.oidc_client_id;
    client_secret = cfg.oidc_client_secret;
    redirect_url = "";
    scopes = [];
    auth_url = "";
    token_url = cfg.oidc_issuer_url <> "/protocol/openid-connect/token";
  }

  -- `NewAuthHandler`: the functions of other packages are given for its `oauth2.Config`, and `seconds`
  -- is the method `Seconds` of a duration, cut to an integer.
  unfoldable pub new_auth_handler :
      (OauthConfig → Services) → (Duration → ℕ) → Config Duration → Engine → AuthHandler
  new_auth_handler services seconds cfg engine = record {
    services = services (oauth_config cfg);
    client_id = cfg.oidc_client_id;
    end_session_url = cfg.oidc_end_session_url;
    engine = engine;
    cookie_config = record {
      cookie_name = cfg.session_cookie_name;
      cookie_domain = cfg.session_cookie_domain;
      cookie_secure = cfg.session_cookie_secure;
    };
    cookie_max_age = seconds cfg.session_max_age;
    post_login_redirect_url = cfg.post_login_redirect_url;
  }

  -- `revokeRefreshToken`: what it sends; its answer is not read.
  unfoldable pub revoke_refresh_token : Config Duration → String → Post
  revoke_refresh_token cfg refresh_token = record {
    url = cfg.oidc_revoke_url;
    form =
        ("token", refresh_token)
        ∷ ("token_type_hint", "refresh_token")
        ∷ ("client_id", (oauth_config cfg).client_id)
        ∷ ("client_secret", (oauth_config cfg).client_secret)
        ∷ [];
  }
