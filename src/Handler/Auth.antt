-- ===== src/Handler/Auth.antt =====
-- internal/api/handler/auth.go: login, callback, logout and user info. The OAuth library, the
-- random generator, the token validator and `url.QueryEscape` are parameters.
pub mod Callback
pub mod Setup
use Prim.Native.String
use fusion_bff.Base.{
  ℕ, ◌+◌, String, Bool, true, false, not, ◌||◌, Option, none, some, List, [], ◌==◌, is_empty,
  if◌then◌else◌, Result, ok, err, Error,
}
use fusion_bff.Session.{
  Session, ResourcePermission, SessionStore, save_pending, take_pending, create, get,
  delete_session, cookie_domain,
}
use fusion_bff.Oidc.{UserClaims}
use fusion_bff.Rbac.Engine.{
  Engine, resolve, resolve_resource_permissions, resolve_owner_groups, stored_preferred_owner_group,
  effective_preferred_owner_group,
}
use fusion_bff.Middleware.{Request, Cookie, CookieConfig, clear_session_cookie, session_id}
use fusion_bff.Middleware.ApiAuth.{OauthToken}
use fusion_bff.Handler.{Reply, abort, redirect, json, internal_error}

-- What the token endpoint answers: the token and its `id_token`, "" where that is not a string.
pub record Exchanged : Type 0 where
  pub token : OauthToken
  pub id_token : String

-- The functions of other packages that the handler calls.
pub record Services : Type 0 where
  pub auth_code_url : String → String → String
  pub exchange : String → String → Result Exchanged
  pub validate : String → Result UserClaims
  pub permits : String → String → Bool
  pub query_escape : String → String

-- `AuthHandler`; the session store is passed to each handler and given back.
pub record AuthHandler : Type 0 where
  pub services : Services
  pub client_id : String
  pub end_session_url : String
  pub engine : Engine
  pub cookie_config : CookieConfig
  pub cookie_max_age : ℕ
  pub post_login_redirect_url : String

-- The body of `UserInfo`; `none` is JSON's null.
pub record UserInfo : Type 0 where
  pub sub : String
  pub user_id : String
  pub owner_groups : List String
  pub preferred_owner_group : Option String
  pub email : String
  pub name : String
  pub roles : List String
  pub permissions : List String
  pub resource_permissions : List ResourcePermission

-- A reply, the cookie that goes with it, and the session store after it.
pub record Served : Type 0 where
  pub reply : Reply UserInfo
  pub cookie : Option Cookie
  pub store : SessionStore

-- `preferredOwnerGroup`
unfoldable pub preferred_owner_group : Engine → Session → Option String
preferred_owner_group engine sess =
    let g = effective_preferred_owner_group engine sess.preferred_owner_group sess.owner_groups in
    if is_empty g then none else some g

-- The value, or the zero value where a resolution fails: these errors are only logged.
abbrev value_or {ℓ} : {A : Type ℓ} → A → Result A → A
value_or zero (ok a) = a
value_or zero (err _) = zero

module _ (h : AuthHandler) where
  -- `setSessionCookie`
  unfoldable pub set_session_cookie : Request → String → Cookie
  set_session_cookie req sid = record {
    name = h.cookie_config.cookie_name;
    value = sid;
    path = "/";
    domain = cookie_domain h.cookie_config.cookie_domain req.host;
    max_age = some h.cookie_max_age;
    http_only = true;
    secure = h.cookie_config.cookie_secure;
  }

  abbrev only : Reply UserInfo → SessionStore → Served
  only reply store = record { reply = reply; cookie = none; store = store }

  -- `Login`, with the state that `generateRandomHex` gave and the verifier of the OAuth library.
  unfoldable pub login : Result String → String → ℕ → SessionStore → Served
  login (err e) verifier now store = only internal_error store
  login (ok state) verifier now store =
      only (redirect (h.services.auth_code_url state verifier))
        (save_pending now state verifier store)

  -- The session that `Callback` creates for the claims; `id` and `created_at` are set later.
  unfoldable pub session_for : Exchanged → UserClaims → Session
  session_for tok claims =
      let (roles, permissions) =
        value_or ([], []) (resolve h.engine claims.subject claims.groups) in
      record {
        id = "";
        sub = claims.subject;
        user_id = claims.user_id;
        email = claims.email;
        name = claims.name;
        groups = claims.groups;
        roles = roles;
        permissions = permissions;
        resource_permissions =
            value_or [] (resolve_resource_permissions h.engine claims.subject claims.groups roles);
        owner_groups =
            value_or [] (resolve_owner_groups h.engine claims.user_id claims.email claims.groups);
        preferred_owner_group = value_or "" (stored_preferred_owner_group h.engine claims.user_id);
        access_token = tok.token.access_token;
        refresh_token = tok.token.refresh_token;
        id_token = tok.id_token;
        expires_at = tok.token.expiry;
        created_at = 0;
      }

  -- The end of `Callback`, for a permitted user; `sid` is what `GenerateSID` gave.
  unfoldable pub start_session : Request → Result String → ℕ → Session → SessionStore → Served
  start_session req sid now sess store =
      let (answer, store') = create sid now sess store in
      elim answer [
        | err e ↦ only internal_error store'
        | ok id ↦ record {
          reply = redirect h.post_login_redirect_url;
          cookie = some (set_session_cookie req id);
          store = store';
        }
      ]

  -- `Callback` after the pending state has been taken: exchange, id token, claims, allowlist.
  unfoldable pub exchange_code :
      Request → String → String → Result String → ℕ → SessionStore → Served
  exchange_code req code verifier sid now store = elim (h.services.exchange code verifier) [
    | err e ↦ only (abort 502 "token exchange failed") store
    | ok tok ↦
        if is_empty tok.id_token
        then only (abort 502 "no id_token in response") store
        else elim (h.services.validate tok.id_token) [
          | err e ↦ only (abort 502 "id_token validation failed") store
          | ok claims ↦
              if not (h.services.permits claims.subject claims.email)
              then only (abort 403 "forbidden") store
              else start_session req sid now (session_for tok claims) store
        ]
  ]

  -- `Callback`, with the query parameters `state` and `code`.
  unfoldable pub callback :
      Request → String → String → Result String → ℕ → ℕ → SessionStore → Served
  callback req state code sid taken_at now store =
      if is_empty state || is_empty code
      then only (abort 400 "missing state or code") store
      else (let (verifier, store') = take_pending taken_at state store in
          elim verifier [
            | none ↦ only (abort 400 "invalid or expired state") store'
            | some v ↦ exchange_code req code v sid now store'
          ])

  -- The address after a logout, with the hints for a session that has an id token.
  unfoldable pub end_url : Result Session → String
  end_url (err _) = h.end_session_url
  end_url (ok sess) =
      if is_empty sess.id_token
      then h.end_session_url
      else String.◌++◌ h.end_session_url (
          String.◌++◌ "?post_logout_redirect_uri=" (
            String.◌++◌ (h.services.query_escape "/") (
              String.◌++◌ "&id_token_hint=" (
                String.◌++◌ (h.services.query_escape sess.id_token)
                  (String.◌++◌ "&client_id=" (h.services.query_escape h.client_id))))))

  -- The refresh token that `Logout` revokes, if any.
  unfoldable pub revoked : Result Session → Option String
  revoked (err _) = none
  revoked (ok sess) = if is_empty sess.refresh_token then none else some sess.refresh_token

  -- `Logout`: what it serves and the token it sends to the revocation endpoint.
  unfoldable pub logout : Request → SessionStore → Served × Option String
  logout req store = elim (session_id h.cookie_config.cookie_name req) [
    | none ↦ (only (redirect h.end_session_url) store, none)
    | some sid ↦
        let sess = get sid store in
        (
          record {
            reply = redirect (end_url sess);
            cookie = some (clear_session_cookie h.cookie_config req);
            store = delete_session sid store;
          },
          revoked sess,
        )
  ]

  -- `UserInfo`
  unfoldable pub user_info : Request → SessionStore → Reply UserInfo
  user_info req store = elim (session_id h.cookie_config.cookie_name req) [
    | none ↦ abort 401 "unauthenticated"
    | some sid ↦ elim (get sid store) [
      | err _ ↦ abort 401 "unauthenticated"
      | ok sess ↦ json 200 (record {
        sub = sess.sub;
        user_id = sess.user_id;
        owner_groups = sess.owner_groups;
        preferred_owner_group = preferred_owner_group h.engine sess;
        email = sess.email;
        name = sess.name;
        roles = sess.roles;
        permissions = sess.permissions;
        resource_permissions = sess.resource_permissions;
      })
    ]
  ]
