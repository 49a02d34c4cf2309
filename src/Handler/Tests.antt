-- ===== src/Handler/Tests.antt =====
-- A login, a preference and a deletion, and instances of the theorems.
use fusion_bff.Base.{
  str_le, ◌≤◌, String, true, false, none, some, [], ◌∷◌, ◌≡◌, ◌≢◌, refl, ◌↔◌, ◌⊎◌, arith, eq_iff,
  ok, err, plain, lookup, insert, delete, is_empty, contains,
}
use fusion_bff.Session.{
  Session, SessionStore, new_store, create, get, update, save_pending, take_pending,
}
use fusion_bff.Oidc.{UserClaims}
use fusion_bff.Rbac.Engine.{Engine, new_engine, with_owner_groups}
use fusion_bff.Db.Tables.{Database, find_row, drop_rows, scan_row}
use fusion_bff.Db.Pools.{pool_of}
use fusion_bff.Db.OwnerGroups.{cascade, delete_owner_group, get_owner_group}
use fusion_bff.Middleware.{Request}
use fusion_bff.Handler.Auth.{
  AuthHandler, Exchanged, set_session_cookie, start_session, exchange_code, callback,
}
use fusion_bff.Handler.Auth.Callback.{
  SignsIn, Admits, callback_iff, callback-refuses, callback_once,
}
use fusion_bff.Handler.Preferences.{World, put_preferences}
use fusion_bff.Handler.Preferences.Laws.{IsStorable, IsStored, shown, put_preferences_cases}
use fusion_bff.Handler.Admin.{delete_by_id, delete_group_handler}
use fusion_bff.Handler.Admin.Names.{matches_tail, valid_owner_group_name}
use fusion_bff.Handler.Admin.NameBounds.{count, valid_owner_group_name-bounds}
use fusion_bff.Proxy.Groups.{IsListable}

program : Unit {0}
unfolding lookup insert delete is_empty contains new_store create get update save_pending
    take_pending set_session_cookie start_session exchange_code callback delete_by_id
    delete_group_handler cascade delete_owner_group get_owner_group find_row drop_rows scan_row
    matches_tail valid_owner_group_name
program = tt

abbrev db : Database
db = record {
  group_roles = [];
  user_roles = [];
  resource_perms = [];
  service_statuses = [];
  owner_groups =
      record { id = 1; name = "everyone"; description = ""; created_by = ""; created_at = 0 }
      ∷ record { id = 2; name = "ops"; description = ""; created_by = ""; created_at = 0 }
      ∷ [];
  mappings = [];
  members = [];
  preferences = [];
  collate = str_le;
}

abbrev engine : Engine
engine = with_owner_groups (some (pool_of (ok tt) (λ s. s) db)) (
    new_engine
      (record {
        group_source = "jwt";
        group_roles = [];
        user_roles = [];
        role_permissions = [];
        route_permissions = [];
        permission_implies = [];
      })
      none)

abbrev claims : UserClaims
claims = record { subject = "u1"; user_id = "u1"; email = ""; name = ""; groups = [] }

abbrev exchanged : Exchanged
exchanged = record {
  token = record { access_token = "a"; refresh_token = "r"; expiry = 900 };
  id_token = "id";
}

abbrev handler : AuthHandler
handler = record {
  services = record {
    auth_code_url = λ state verifier. state;
    exchange = λ code verifier. ok exchanged;
    validate = λ raw. ok claims;
    permits = λ sub email. true;
    query_escape = λ s. s;
  };
  client_id = "bff";
  end_session_url = "/end";
  engine = engine;
  cookie_config = record { cookie_name = "sid"; cookie_domain = ""; cookie_secure = true };
  cookie_max_age = 60;
  post_login_redirect_url = "/home";
}

abbrev req : Request
req = record {
  method = "GET";
  path = "/bff/callback";
  host = "bff.fusion.local";
  cookie = λ _. err (plain "no cookie");
  authorization = "";
  origin = "";
}

abbrev state : String
state = "st"

abbrev code : String
code = "code"

abbrev everyone : String
everyone = "everyone"

abbrev pending : SessionStore
pending = save_pending 1 "st" "v" (new_store 1000)

names_runs :
    (valid_owner_group_name "team-1" ≡ true)
    × (valid_owner_group_name "a,b" ≡ false)
    × (valid_owner_group_name "-a" ≡ false)
    × (valid_owner_group_name "" ≡ false)
unfolding program
names_runs = (refl, refl, refl, refl)

callback_iff_example :
    SignsIn
      (callback handler req state code (ok "s1") 2 3 pending)
      (set_session_cookie handler req "s1")
      (callback handler req state code (ok "s1") 2 3 pending).store
    ↔ ((state ≢ "")
        × (code ≢ "")
        × ((verifier : String) × ((take_pending 2 state pending).0 ≡ some verifier)
            × Admits handler req 3 code verifier
                (ok "s1")
                (take_pending 2 state pending).1
                (set_session_cookie handler req "s1")
                (callback handler req state code (ok "s1") 2 3 pending).store))
callback_iff_example =
    callback_iff handler req 3 2 state code (ok "s1") pending (set_session_cookie handler req "s1")
      (callback handler req state code (ok "s1") 2 3 pending).store

callback-refuses_example :
    (callback handler req "other" "code" (ok "s1") 2 3 pending).store.sessions ≡ pending.sessions
unfolding program
callback-refuses_example = callback-refuses handler req 3 2 "other" "code" (ok "s1") pending refl

code_given : code ≢ ""
code_given = λ e. ground (arith, eq_iff "code" "")

callback_once_example :
    (callback handler req "st" "again"
      (ok "s2")
      4
      5
      (callback handler req "st" "code" (ok "s1") 2 3 pending).store).cookie
    ≡ none
callback_once_example =
    callback_once handler req req "st" "code" "again" (ok "s1") (ok "s2") 2 3 4 5 pending code_given

abbrev sess : Session
sess = record {
  id = "s1";
  sub = "u1";
  user_id = "u1";
  email = "";
  name = "";
  groups = [];
  roles = [];
  permissions = [];
  resource_permissions = [];
  owner_groups = "ops" ∷ [];
  preferred_owner_group = "";
  access_token = "";
  refresh_token = "";
  id_token = "";
  expires_at = 100;
  created_at = 0;
}

-- The session is stored, and another one beside it.
abbrev world : World
world = record {
  store =
      (create (ok "s2") 0 sess
        (create (ok "s1") 0 (record sess { roles = "old" ∷ [] }) pending).1).1;
  db = db;
}

put_preferences_cases_example :
    ((group : String) × IsStorable engine (ok tt) sess (ok "ops") group
      × ((put_preferences engine (ok tt) sess (ok "ops") world).0 ≡ shown engine (ok tt) sess group)
      × IsStored engine
          (ok tt)
          sess
          group
          world
          (put_preferences engine (ok tt) sess (ok "ops") world).1)
    ⊎ (((group : String) → ¬ IsStorable engine (ok tt) sess (ok "ops") group)
        × ((put_preferences engine (ok tt) sess (ok "ops") world).1 ≡ world))
unfolding program
put_preferences_cases_example =
    put_preferences_cases engine (ok tt) sess (ok "ops") world (record sess { roles = "old" ∷ [] })
      refl (λ group bound empty. (let clash : ◌≡◌ {A = String} "ops" "" = cc in cc))

valid_owner_group_name-bounds_example : (1 ≤ count "ops") × (count "ops" ≤ 63) × IsListable "ops"
unfolding program
valid_owner_group_name-bounds_example = valid_owner_group_name-bounds "ops" refl
