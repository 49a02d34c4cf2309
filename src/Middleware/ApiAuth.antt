-- ===== src/Middleware/ApiAuth.antt =====
-- internal/api/middleware/apiauth.go: authentication by session cookie or bearer token, and the
-- permission check of the /api routes. The refresh call, the token validator and the checker are
-- parameters.
pub mod Permissions
pub mod Allowed
pub mod Sessions
use fusion_bff.Base.{
  ℕ, ◌+◌, ◌*◌, String, Bool, true, false, not, ◌&&◌, ◌||◌, Option, none, some, List, [], Result, ok,
  err, ◌==◌, if◌then◌else◌, ltb, is_empty, contains, string_eq, cut_prefix,
}
use fusion_bff.Session.{
  Session, ResourcePermission, SessionStore, second, get, update, delete_session,
}
use fusion_bff.Oidc.{UserClaims}
use fusion_bff.Proxy.{ProxyContext, no_context, set_user_context}
use fusion_bff.Rbac.Route.{RouteMatch, match_route}
use fusion_bff.Rbac.Engine.{Engine, resolve, resolve_resource_permissions, resolve_owner_groups}
use fusion_bff.Middleware.{
  Request, Outcome, denied, passes, Cookie, CookieConfig, clear_session_cookie, session_id,
  has_resource_perm,
}

-- `oauth2.Token`, as far as it is used.
pub record OauthToken : Type 0 where
  pub access_token : String
  pub refresh_token : String
  pub expiry : ℕ

-- The answer of the middleware: how it ends, the cookie that it clears, and the session store.
pub record Answer : Type 0 where
  pub outcome : Outcome ProxyContext
  pub cookie : Option Cookie
  pub store : SessionStore

-- The access token ends within 30 seconds.
abbrev pub expires_soon : ℕ → Session → Bool
expires_soon now sess = ltb sess.expires_at (now + 30 * second)

-- The session with the new tokens; the refresh token only where the provider gave a new one.
unfoldable pub with_tokens : OauthToken → Session → Session
with_tokens tok sess = record sess {
  access_token = tok.access_token;
  refresh_token = if is_empty tok.refresh_token then sess.refresh_token else tok.refresh_token;
  expires_at = tok.expiry;
}

-- The check of a resource-scoped grant, for a route that has a resource type.
abbrev pub has_scoped : RouteMatch → List ResourcePermission → Bool
has_scoped m grants =
    not (is_empty m.resource_type)
    && has_resource_perm grants m.permission m.resource_type m.resource_id

-- The permission check on a session.
unfoldable pub session_may : RouteMatch → Session → Bool
session_may m sess =
    is_empty m.permission
    || contains sess.permissions m.permission
    || has_scoped m sess.resource_permissions

abbrev owner_groups_or_nil : Result (List String) → List String
owner_groups_or_nil (ok groups) = groups
owner_groups_or_nil (err _) = []

module _ (engine : Engine) where
  -- The permission check of the bearer path, with the permissions that were resolved. The resource
  -- permissions are asked for with the permissions in the place of the roles, as the code has it.
  unfoldable pub bearer_scope : RouteMatch → UserClaims → List String → Bool
  bearer_scope m claims perms =
      if contains perms m.permission
      then true
      else if is_empty m.resource_type
      then false
      else elim (resolve_resource_permissions engine claims.subject claims.groups perms) [
        | err _ ↦ false
        | ok grants ↦ has_resource_perm grants m.permission m.resource_type m.resource_id
      ]

  unfoldable pub bearer_may : RouteMatch → UserClaims → Bool
  bearer_may m claims =
      if is_empty m.permission then true else elim (resolve engine claims.subject claims.groups) [
        | err _ ↦ false
        | ok (_, perms) ↦ bearer_scope m claims perms
      ]

  -- The context of a bearer request; it has no owner groups where these cannot be resolved.
  unfoldable pub bearer_context : UserClaims → ProxyContext
  bearer_context claims =
      set_user_context no_context claims.subject claims.email (
        owner_groups_or_nil (resolve_owner_groups engine claims.user_id claims.email claims.groups))

  module _ (validate : String → Result UserClaims) (permits : String → String → Bool) where
    -- The bearer path.
    unfoldable pub by_bearer : RouteMatch → Request → Outcome ProxyContext
    by_bearer m req = elim (cut_prefix "Bearer " req.authorization) [
      | none ↦ denied 401 "unauthorized"
      | some raw_token ↦ elim (validate raw_token) [
        | err _ ↦ denied 401 "unauthorized"
        | ok claims ↦
            if not (permits claims.subject claims.email)
            then denied 403 "forbidden"
            else if bearer_may m claims
            then passes (bearer_context claims)
            else denied 403 "forbidden"
      ]
    ]

-- The end of the session path, with the session as it is after a refresh.
unfoldable pub authorise_session : RouteMatch → Session → Outcome ProxyContext
authorise_session m sess =
    if session_may m sess
    then passes (set_user_context no_context sess.sub sess.email sess.owner_groups)
    else denied 403 "forbidden"

module _ (refresh : String → Result OauthToken) (cfg : CookieConfig) where
  -- The session path: a silent refresh where the access token ends soon, then the check.
  unfoldable pub by_session : ℕ → RouteMatch → Request → String → Session → SessionStore → Answer
  by_session now m req sid sess store =
      if expires_soon now sess
      then elim (refresh sess.refresh_token) [
        | err _ ↦ record {
          outcome = denied 401 "unauthorized";
          cookie = some (clear_session_cookie cfg req);
          store = delete_session sid store;
        }
        | ok tok ↦ record {
          outcome = authorise_session m (with_tokens tok sess);
          cookie = none;
          store = (update (with_tokens tok sess) store).1;
        }
      ]
      else record { outcome = authorise_session m sess; cookie = none; store = store }

  module _ (engine : Engine) (validate : String → Result UserClaims)
      (permits : String → String → Bool) where
    abbrev bearer_answer : RouteMatch → Request → SessionStore → Answer
    bearer_answer m req store = record {
      outcome = by_bearer engine validate permits m req;
      cookie = none;
      store = store;
    }

    -- `APIAuth`
    unfoldable pub api_auth : ℕ → Request → SessionStore → Answer
    api_auth now req store =
        let m = match_route engine.cfg.route_permissions req.method req.path in
        elim (session_id cfg.cookie_name req) [
          | none ↦ bearer_answer m req store
          | some sid ↦ elim (get sid store) [
            | err _ ↦ bearer_answer m req store
            | ok sess ↦ by_session now m req sid sess store
          ]
        ]
