-- ===== src/MockOidc/Tests.antt =====
-- A login through the embedded provider, with packages that can be evaluated.
mod Packages
use Prim.Native.Char.{code}
use Prim.Native.String.{[], ◌∷◌}
use text.Mathlib.TextEquality.{Char-path}
use fusion_bff.Base.{
  String, Bool, true, false, ◌&&◌, none, some, List, [], ◌∷◌, ◌==◌, eqb, if◌then◌else◌, Result, ok,
  err, plain, ◌≡◌, ◌≢◌, refl, sym, ap, ◌∙◌, All, lookup, insert, delete, eq_refl, eq_iff, string_eq,
  inl, inr, arith, is_empty, is_empty_iff, trim_space, IsFreeOf, has_char, Bool-cases,
}
use fusion_bff.Session.{Session, SessionStore, new_store, save_pending, take_pending, get}
use fusion_bff.Oidc.{UserClaims}
use fusion_bff.Rbac.Engine.{Engine, new_engine}
use fusion_bff.Allowlist.{new_checker, permitted}
use fusion_bff.Middleware.{Request}
use fusion_bff.Config.{◌<>◌}
use fusion_bff.Handler.{Reply, abort, json}
use fusion_bff.Handler.Auth.{AuthHandler, set_session_cookie, callback}
use fusion_bff.MockOidc.{
  Identity, Payload, MockClaims, Crypto, IsSound, MockServer, payload_of, mint_jwt, validate_mock,
}
use fusion_bff.MockOidc.Endpoints.{
  LoginForm, TokenReply, form_identity, handle_auth_submit, code_identity, issue, handle_token,
}
use fusion_bff.MockOidc.Validated.{claims_for, validate_mock-mint_jwt}
use fusion_bff.MockOidc.Grants.{
  Call, submits, after_call, after_calls, by_code, Spares, handle_token_once,
}
use fusion_bff.MockOidc.Login.{granted, submitted, handle_token-identifies}
use fusion_bff.MockOidc.Bypass.{callback-signs_in}
use fusion_bff.MockOidc.Tests.Packages.{encode, decode, marshal, crypto, crypto-IsSound}

program : Unit {0}
unfolding encode decode marshal mint_jwt payload_of form_identity handle_auth_submit code_identity
    issue handle_token after_call after_calls lookup insert delete is_empty trim_space new_store
    save_pending take_pending permitted new_checker
program = tt

abbrev server : MockServer String
server = record {
  private_key = "k";
  key_id = "";
  issuer = "iss";
  client_id = "bff";
  default_sub = "dev";
  default_email = "";
  default_name = "";
  default_groups = [];
  available_groups = [];
  codes = [];
  refreshes = [];
}

abbrev form : LoginForm
form = record {
  state = "st";
  redirect_uri = "";
  sub = " ann ";
  email = "ann@x";
  name = "";
  groups = [];
}

abbrev ann : Identity
ann = record { sub = "ann"; email = "ann@x"; name = ""; groups = [] }

abbrev token : String
token = ".0p.0k1x000p"

abbrev claims : UserClaims
claims = claims_for ann

minted : mint_jwt crypto server ann 0 ≡ ok token
unfolding program
minted = refl

validate_mock-mint_jwt_example : validate_mock crypto "k" 0 token ≡ ok claims
validate_mock-mint_jwt_example =
    validate_mock-mint_jwt crypto crypto-IsSound server ann 0 0 token minted

-- Another form is submitted in between.
abbrev others : List Call
others = submits form (ok "c2") 3 ∷ []

abbrev value_of : Result String → String
value_of (ok s) = s
value_of (err _) = ""

abbrev drawn : String
drawn = "c2"

codes_differ : drawn ≢ "c1"
codes_differ h = ground (arith, eq_iff drawn "c1")

others_spare : All (Spares "c1") others
others_spare = (λ h. codes_differ (ap value_of h), tt)

abbrev s1 : MockServer String
s1 = submitted crypto (λ t. t) "localhost" form "c1" 0 server

granted_reply :
    ((handle_token crypto (by_code "c1" "") (ok "r1") 1 0 (after_calls crypto others s1)).0
      ≡ granted token "r1")
    × (validate_mock crypto "k" 0 token ≡ ok (claims_for (form_identity server form)))
unfolding program
granted_reply =
    handle_token-identifies crypto (λ t. t) "localhost" form "c1" crypto-IsSound 0 1 0 0 others
      server "" "r1" token others_spare (omega arith) (omega arith) minted

handle_token_once_example :
    (handle_token crypto
      (by_code "c1" "")
      (ok "r2")
      2
      2
      (after_calls crypto others (handle_token crypto (by_code "c1" "") (ok "r1") 1 0 s1).1)).0
    ≡ abort 400 "invalid_grant"
handle_token_once_example =
    handle_token_once crypto "c1" "" "" (ok "r1") (ok "r2") 1 0 2 2 others s1 others_spare

abbrev engine : Engine
engine =
    new_engine
      (record {
        group_source = "jwt";
        group_roles = [];
        user_roles = [];
        role_permissions = [];
        route_permissions = [];
        permission_implies = [];
      })
      none

abbrev handler : AuthHandler
handler = record {
  services = record {
    auth_code_url = λ state verifier. state;
    exchange = λ code verifier. ok (record {
      token = record { access_token = token; refresh_token = "r1"; expiry = 86400 };
      id_token = token;
    });
    validate = validate_mock crypto "k" 0;
    permits = λ sub email. true;
    query_escape = λ t. t;
  };
  client_id = "bff";
  end_session_url = "/end";
  engine = engine;
  cookie_config = record { cookie_name = "sid"; cookie_domain = ""; cookie_secure = true };
  cookie_max_age = 60;
  post_login_redirect_url = "/home";
}

abbrev id_token_of : Reply TokenReply → String
id_token_of (json _ t) = t.id_token
id_token_of _ = ""

abbrev req : Request
req = record {
  method = "GET";
  path = "/bff/callback";
  host = "localhost";
  cookie = λ _. err (plain "no cookie");
  authorization = "";
  origin = "";
}

abbrev store : SessionStore
store = save_pending 0 "st" "v" (new_store 1000)

callback-signs_in_example :
    ((callback handler req "st" "c1" (ok "id") 1 2 store).cookie
      ≡ some (set_session_cookie handler req "id"))
    × ((sess : Session) × (get "id" (callback handler req "st" "c1" (ok "id") 1 2 store).store
          ≡ ok sess)
        × (sess.sub ≡ "ann")
        × (sess.email ≡ "ann@x")
        × (sess.name ≡ "")
        × (sess.groups ≡ []))
unfolding program
callback-signs_in_example =
    callback-signs_in crypto crypto-IsSound handler (λ t. t) "localhost" form "c1" 0 1 0 0 others
      server "r1" token req "st" "v" "id" 1 2 store (λ raw. refl) (λ sub email. refl)
      (λ t reply. (_, refl, ap id_token_of (sym granted_reply.0 ∙ reply))) others_spare
      (omega arith) (omega arith) minted (λ h. cc) (λ h. cc) refl
