-- ===== src/Middleware.antt =====
-- internal/api/middleware: session and bearer authentication, authorisation, CORS. Logging is left
-- out. What `c.Cookie` and `c.GetHeader` answer is part of the request.
pub mod ApiAuth
pub mod Cors
pub mod SessionAuth
mod Tests
use fusion_bff.Base.{
  ℕ, String, Bool, true, false, not, ◌&&◌, ◌||◌, Option, none, some, List, [], ◌∷◌, ◌++◌, Result,
  ok, err, ◌==◌, if◌then◌else◌, is_empty, contains, string_eq, cut_prefix,
}
use fusion_bff.Session.{Session, ResourcePermission, SessionStore, get, cookie_domain}
use fusion_bff.Oidc.{UserClaims}
use fusion_bff.Proxy.{ProxyContext, no_context, set_user_context}

-- The parts of a request that the middleware reads.
pub record Request : Type 0 where
  pub method : String
  pub path : String
  pub host : String
  pub cookie : String → Result String
  pub authorization : String
  pub origin : String

-- How the middleware ends: it aborts with a status and a text, or the next handler runs with the
-- value that the middleware leaves in the context.
pub data Outcome (A : Type 0) : Type 0 where
  denied : ℕ → String → Outcome A
  passes : A → Outcome A

-- `http.Cookie`, as far as the program sets it; `max_age` is `none` for -1, the order to delete it.
pub record Cookie : Type 0 where
  pub name : String
  pub value : String
  pub path : String
  pub domain : String
  pub max_age : Option ℕ
  pub http_only : Bool
  pub secure : Bool

-- The cookie settings of `config.Config`.
pub record CookieConfig : Type 0 where
  pub cookie_name : String
  pub cookie_domain : String
  pub cookie_secure : Bool

-- `clearSessionCookie`
unfoldable pub clear_session_cookie : CookieConfig → Request → Cookie
clear_session_cookie cfg req = record {
  name = cfg.cookie_name;
  value = "";
  path = "/";
  domain = cookie_domain cfg.cookie_domain req.host;
  max_age = none;
  http_only = true;
  secure = cfg.cookie_secure;
}

-- The id in the session cookie, if there is one and it is not empty.
unfoldable pub session_id : String → Request → Option String
session_id cookie_name req = elim (req.cookie cookie_name) [
  | err _ ↦ none
  | ok sid ↦ if is_empty sid then none else some sid
]

-- The test of `SessionAuth` for the permission that a route requires.
abbrev lacks : String → Session → Bool
lacks required sess = not (is_empty required) && not (contains sess.permissions required)

-- `SessionAuth`: the session goes into the context.
unfoldable pub session_auth : SessionStore → String → String → Request → Outcome Session
session_auth store cookie_name required req = elim (session_id cookie_name req) [
  | none ↦ denied 401 "unauthenticated"
  | some sid ↦ elim (get sid store) [
    | err _ ↦ denied 401 "unauthenticated"
    | ok sess ↦ if lacks required sess then denied 403 "forbidden" else passes sess
  ]
]

-- `Auth`: the bearer token alone.
unfoldable pub auth :
    (String → Result UserClaims) → (String → String → Bool) → Request → Outcome ProxyContext
auth validate permits req = elim (cut_prefix "Bearer " req.authorization) [
  | none ↦ denied 401 "unauthorized"
  | some raw_token ↦ elim (validate raw_token) [
    | err _ ↦ denied 401 "unauthorized"
    | ok claims ↦
        if permits claims.subject claims.email
        then passes (set_user_context no_context claims.subject claims.email [])
        else denied 403 "forbidden"
  ]
]

-- `hasResourcePerm`
unfoldable pub has_resource_perm : List ResourcePermission → String → String → String → Bool
has_resource_perm [] permission resource_type resource_id = false
has_resource_perm (rp ∷ rps) permission resource_type resource_id =
    (rp.permission == permission
      && rp.resource_type == resource_type
      && rp.resource_id == resource_id)
    || has_resource_perm rps permission resource_type resource_id

-- `CORS`: the headers that are added to the response, and whether the request ends with 204.
pub record CorsReply : Type 0 where
  pub header : List (String × String)
  pub ends : Bool

unfoldable pub cors : List String → Request → CorsReply
cors origins req =
    if contains origins req.origin
    then (let base : List (String × String) =
          ("Access-Control-Allow-Origin", req.origin)
          ∷ ("Access-Control-Allow-Credentials", "true")
          ∷ ("Vary", "Origin")
          ∷ [] in
        if req.method == "OPTIONS"
        then record {
          header =
              base
              ++ (("Access-Control-Allow-Methods", "GET, POST, PUT, PATCH, DELETE, OPTIONS")
                  ∷ ("Access-Control-Allow-Headers", "Authorization, Content-Type, X-Request-ID")
                  ∷ ("Access-Control-Max-Age", "86400")
                  ∷ []);
          ends = true;
        }
        else record { header = base; ends = false })
    else record { header = []; ends = false }
