-- ===== src/Server/Forward/Tests.antt =====
-- A request with a session that is forwarded, with an identity header of the client's.
use fusion_bff.Base.{
  ℕ, String, Bool, true, none, some, List, [], ◌∷◌, ◌≡◌, refl, inl, inr, ◌⊎◌, ◌∈◌, Error, Result,
  ok, err, lookup, insert, delete, is_empty, contains, cut_prefix, trim_prefix, join, trim,
  trim_left, trim_right, split, has_prefix, cut_last, string_eq,
}
use fusion_bff.Session.{Session, SessionStore, new_store, create, get, update}
use fusion_bff.Oidc.{UserClaims}
use fusion_bff.Proxy.{
  Upstream, Header, bearer, set_user_context, set_from, with_slash, strip_path, strip_raw_path,
  strip_identity, rewrite_header, rewrite, handle,
}
use fusion_bff.Proxy.{forwarded, plain}
use fusion_bff.Base
use fusion_bff.Proxy.Headers.{sent}
use fusion_bff.Rbac.Engine.{Engine, new_engine}
use fusion_bff.Rbac.Route.{parts_of, scan, match_and_capture, match_route}
use fusion_bff.Middleware.{Request, CookieConfig, session_id}
use fusion_bff.Middleware.ApiAuth.{
  OauthToken, with_tokens, session_may, authorise_session, by_session, api_auth,
}
use fusion_bff.Middleware.ApiAuth.Permissions.{MaySession}
use fusion_bff.Server.Forward.{proxied, serve_api, serve_api-identity}

program : Unit {0}
unfolding serve_api handle rewrite rewrite_header set_from with_slash strip_path strip_raw_path
    strip_identity set_user_context lookup insert delete is_empty contains cut_prefix trim_prefix
    join new_store create get update new_engine match_route session_id with_tokens session_may
    authorise_session by_session api_auth parts_of scan match_and_capture trim trim_left trim_right
    split has_prefix cut_last
program = tt

abbrev sess : Session
sess = record {
  id = "s1";
  sub = "u1";
  user_id = "u1";
  email = "u1@x";
  name = "";
  groups = [];
  roles = [];
  permissions = "index:read" ∷ [];
  resource_permissions = [];
  owner_groups = "team" ∷ "ops" ∷ [];
  preferred_owner_group = "";
  access_token = "old";
  refresh_token = "r";
  id_token = "";
  expires_at = 100;
  created_at = 50;
}

abbrev store : SessionStore
store = (create (ok "s1") 50 sess (new_store 1000)).1

abbrev req : Request
req = record {
  method = "GET";
  path = "/api/index/x";
  host = "bff.fusion.local";
  cookie = λ _. ok "s1";
  authorization = "";
  origin = "";
}

abbrev cfg : CookieConfig
cfg = record { cookie_name = "sid"; cookie_domain = ""; cookie_secure = true }

abbrev engine : Engine
engine =
    new_engine
      (record {
        group_source = "jwt";
        group_roles = [];
        user_roles = [];
        role_permissions = [];
        route_permissions =
            record {
              method = "GET";
              path = "/api/index/*";
              permission = "index:read";
              resource_type = "";
            }
            ∷ [];
        permission_implies = [];
      })
      none

abbrev no_token : Error
no_token = fusion_bff.Base.plain "no token"

abbrev reject_all : String → Result UserClaims
reject_all _ = err no_token

abbrev permits : String → String → Bool
permits _ _ = true

abbrev renews : String → Result OauthToken
renews _ = ok (record { access_token = "new"; refresh_token = ""; expiry = 900 })

-- The client claims to be the administrator.
abbrev header : Header
header = ("X-User-Id", "admin" ∷ []) ∷ ("Accept", "text/plain" ∷ []) ∷ []

abbrev up : Upstream
up = record {
  path = "/x";
  raw_path = "";
  header =
      ("Accept", "text/plain" ∷ [])
      ∷ ("Authorization", "Bearer t" ∷ [])
      ∷ ("X-User-Id", "u1" ∷ [])
      ∷ ("X-User-Email", "u1@x" ∷ [])
      ∷ ("X-User-Groups", "team,ops" ∷ [])
      ∷ [];
}

sent_up :
    (serve_api renews cfg engine reject_all permits "/api/index" (ok "t") 60 req "" header store).0
    ≡ proxied (forwarded up)
unfolding program
sent_up = refl

serve_api-identity_example :
    MaySession (match_route engine.cfg.route_permissions req.method req.path) sess
    × (lookup "X-User-Id" up.header ≡ sent plain (some sess.sub))
    × (lookup "X-User-Email" up.header ≡ sent plain (some sess.email))
    × (lookup "X-User-Groups" up.header ≡ sent plain (some (join "," sess.owner_groups)))
    × ((tok : String) × (ok "t" ≡ ok tok)
        × (lookup "Authorization" up.header ≡ sent bearer (some tok)))
unfolding program
serve_api-identity_example =
    serve_api-identity renews cfg engine reject_all permits "/api/index" (ok "t") 60 req "" header
      store up "s1" sess (refl, refl) sent_up
