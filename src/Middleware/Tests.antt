-- ===== src/Middleware/Tests.antt =====
-- Requests with a session and with a token, and instances of the theorems.
use fusion_bff.Base.{
  String, Bool, true, none, some, [], ◌∷◌, ◌≡◌, refl, ◌↔◌, ◌⊎◌, ◌∈◌, Result, ok, err, plain, lookup,
  insert, delete, is_empty, contains, cut_prefix, if◌then◌else◌, ◌==◌, has_char, after_first,
  before_last, join,
}
use fusion_bff.Session.{
  Session, SessionStore, new_store, create, get, update, delete_session, not_found, cookie_domain,
}
use fusion_bff.Session.Calls.{sessions_of}
use fusion_bff.Oidc.{UserClaims}
use fusion_bff.Proxy.{set_user_context}
use fusion_bff.Rbac.Engine.{Engine, new_engine}
use fusion_bff.Rbac.Route.{match_route}
use fusion_bff.Middleware.{
  Request, denied, passes, CookieConfig, clear_session_cookie, session_id, session_auth, cors,
}
use fusion_bff.Middleware.Cors.{cors-origin_iff}
use fusion_bff.Middleware.SessionAuth.{session_auth_iff}
use fusion_bff.Middleware.ApiAuth.{
  OauthToken, with_tokens, session_may, authorise_session, by_session, api_auth,
}
use fusion_bff.Middleware.ApiAuth.Allowed.{
  SessionWay, NoSession, BearerWay, session_context, api_auth_iff,
}
use fusion_bff.Middleware.ApiAuth.Sessions.{IsNewest, api_auth-ends_session, api_auth-refreshes}

program : Unit {0}
unfolding lookup insert delete is_empty contains cut_prefix has_char after_first before_last join
    new_store create get update delete_session cookie_domain set_user_context new_engine match_route
    clear_session_cookie session_id session_auth cors with_tokens session_may authorise_session
    by_session api_auth
program = tt

abbrev sess : Session
sess = record {
  id = "";
  sub = "u1";
  user_id = "u1";
  email = "u1@x";
  name = "";
  groups = [];
  roles = [];
  permissions = "index:read" ∷ [];
  resource_permissions = [];
  owner_groups = "team" ∷ [];
  preferred_owner_group = "";
  access_token = "old";
  refresh_token = "r";
  id_token = "";
  expires_at = 100;
  created_at = 0;
}

abbrev stored : Session
stored = record sess { id = "s1"; created_at = 50 }

abbrev store : SessionStore
store = (create (ok "s1") 50 sess (new_store 1000)).1

abbrev req : Request
req = record {
  method = "OPTIONS";
  path = "/api/index";
  host = "bff.fusion.local";
  cookie = λ _. ok "s1";
  authorization = "";
  origin = "https://gui";
}

abbrev cfg : CookieConfig
cfg = record { cookie_name = "sid"; cookie_domain = ""; cookie_secure = true }

abbrev engine : Engine
engine =
    new_engine
      (record {
        group_source = "jwt";
        group_roles = [];
        user_roles = [];
        role_permissions = [];
        route_permissions = [];
        permission_implies = [];
      })
      none

abbrev reject_all : String → Result UserClaims
reject_all _ = err (plain "no token")

abbrev permits : String → String → Bool
permits _ _ = true

abbrev new_token : OauthToken
new_token = record { access_token = "new"; refresh_token = ""; expiry = 900 }

abbrev fails : String → Result OauthToken
fails _ = err (plain "revoked")

abbrev renews : String → Result OauthToken
renews _ = ok new_token

runs :
    ((api_auth renews cfg engine reject_all permits 60 req store).outcome
      ≡ passes (session_context stored))
    × ((api_auth fails cfg engine reject_all permits 60 req store).outcome
        ≡ denied 401 "unauthorized")
    × (session_auth store "sid" "admin" req ≡ denied 403 "forbidden")
unfolding program
runs = (refl, refl, refl)

abbrev required : String
required = "index:read"

session_auth_iff_example : (session_auth store "sid" required req ≡ passes stored) ↔ (
    (sid : String) × (session_id "sid" req ≡ some sid)
    × (get sid store ≡ ok stored)
    × ((required ≡ "") ⊎ (required ∈ stored.permissions)))
session_auth_iff_example = session_auth_iff store "sid" required req stored

cors-origin_iff_example :
    (lookup "Access-Control-Allow-Origin" (cors ("https://gui" ∷ []) req).header
      ≡ some "https://gui")
    ↔ ((req.origin ∈ "https://gui" ∷ []) × (req.origin ≡ "https://gui"))
cors-origin_iff_example = cors-origin_iff ("https://gui" ∷ []) req "https://gui"

api_auth_iff_example :
    ((api_auth renews cfg engine reject_all permits 60 req store).outcome
      ≡ passes (session_context stored))
    ↔ (SessionWay engine reject_all permits renews cfg 60 req store (session_context stored)
        ⊎ (NoSession engine reject_all permits renews cfg req store
            × BearerWay engine reject_all permits
                (match_route engine.cfg.route_permissions req.method req.path)
                req
                (session_context stored)))
api_auth_iff_example =
    api_auth_iff engine reject_all permits renews cfg 60 req store (session_context stored)

api_auth-ends_session_example :
    ((api_auth fails cfg engine reject_all permits 60 req store).outcome
      ≡ denied 401 "unauthorized")
    × ((api_auth fails cfg engine reject_all permits 60 req store).cookie
        ≡ some (clear_session_cookie cfg req))
    × (get "s1" (api_auth fails cfg engine reject_all permits 60 req store).store ≡ err not_found)
unfolding program
api_auth-ends_session_example =
    api_auth-ends_session fails cfg engine reject_all permits 60 req store "s1" stored
      (plain "revoked") (refl, refl) refl refl

api_auth-refreshes_example :
    (kept : String) × IsNewest renews cfg engine reject_all permits new_token.refresh_token
      stored.refresh_token kept
    × (sessions_of (api_auth renews cfg engine reject_all permits 60 req store).store "s1" ≡ (
        if "s1" == "s1"
        then some (record stored {
          access_token = new_token.access_token;
          refresh_token = kept;
          expires_at = new_token.expiry;
        })
        else sessions_of store "s1"))
unfolding program
api_auth-refreshes_example =
    api_auth-refreshes renews cfg engine reject_all permits 60 req store "s1" "s1" stored new_token
      (refl, refl) refl refl refl
