-- ===== src/Server/Admin/Tests.antt =====
-- An administrator and another user send requests.
use fusion_bff.Base.{
  str_le, ℕ, String, true, some, List, [], ◌∷◌, ok, ◌≡◌, refl, ◌⊎◌, inl, inr, ◌∈◌, arith, lookup,
  insert, is_empty, contains, string_eq,
}
use fusion_bff.Session.{Session, SessionStore, new_store, create, get}
use fusion_bff.Db.Tables.{OwnerGroupRow, Database, find_row, insert_row, drop_rows, scan_row}
use fusion_bff.Db.OwnerGroups.{create_owner_group, delete_owner_group, get_owner_group, cascade}
use fusion_bff.Middleware.{Request, session_id, session_auth}
use fusion_bff.Handler.Admin.{post_owner_group, delete_by_id, delete_group_handler}
use fusion_bff.Handler.Admin.Names.{matches_tail, valid_owner_group_name}
use fusion_bff.Server.Admin.{
  AdminCall, creates_owner_group, deletes_owner_group, permission_of, Setting, Arrival, run_call,
  serve_admin, serve_all,
}
use fusion_bff.Server.Admin.Handlers.{IsSound}
use fusion_bff.Server.Admin.Invariant.{AreFresh, serve_all-IsSound, serve_admin-Authorised}

program : Unit {0}
unfolding serve_all serve_admin run_call permission_of session_auth session_id get create new_store
    lookup insert is_empty contains post_owner_group create_owner_group insert_row find_row
    delete_group_handler delete_by_id delete_owner_group get_owner_group scan_row drop_rows cascade
    matches_tail valid_owner_group_name
program = tt

abbrev session_of : String → List String → Session
session_of sub permissions = record {
  id = "";
  sub = sub;
  user_id = sub;
  email = "";
  name = "";
  groups = [];
  roles = [];
  permissions = permissions;
  resource_permissions = [];
  owner_groups = [];
  preferred_owner_group = "";
  access_token = "";
  refresh_token = "";
  id_token = "";
  expires_at = 100;
  created_at = 0;
}

abbrev store : SessionStore
store =
    (create (ok "s2") 1 (session_of "bob" [])
      (create (ok "s1") 1 (session_of "ann" ("admin:roles:manage" ∷ [])) (new_store 1000)).1).1

abbrev request_of : String → Request
request_of sid = record {
  method = "";
  path = "";
  host = "localhost";
  cookie = λ _. ok sid;
  authorization = "";
  origin = "";
}

abbrev arrival : String → ℕ → AdminCall → Arrival
arrival sid id call = record {
  req = request_of sid;
  store = store;
  link = ok tt;
  new_id = id;
  now = 7;
  call = call;
}

abbrev setting : Setting
setting = record {
  cookie_name = "sid";
  default_owner_group = "default";
  has_pool = true;
  lower = λ s. s;
}

abbrev row : ℕ → String → String → ℕ → OwnerGroupRow
row id name by at = record {
  id = id;
  name = name;
  description = "";
  created_by = by;
  created_at = at;
}

abbrev db : Database
db = record {
  group_roles = [];
  user_roles = [];
  resource_perms = [];
  service_statuses = [];
  owner_groups = row 1 "default" "system" 0 ∷ [];
  mappings = [];
  members = [];
  preferences = [];
  collate = str_le;
}

-- The administrator creates a group and tries to delete the default one; the other user tries to
-- delete the new one.
abbrev creation : Arrival
creation = arrival "s1" 2 (creates_owner_group (ok ("ops", "")))

abbrev arrivals : List Arrival
arrivals =
    creation
    ∷ arrival "s1" 3 (deletes_owner_group (ok 1))
    ∷ arrival "s2" 4 (deletes_owner_group (ok 2))
    ∷ []

both_left :
    serve_all setting arrivals db
    ≡ record db { owner_groups = row 2 "ops" "ann" 7 ∷ row 1 "default" "system" 0 ∷ [] }
unfolding program
both_left = refl

fresh : AreFresh setting arrivals db
unfolding program
fresh = (ground arith, (ground arith, (ground arith, tt)))

db-IsSound : IsSound "default" db
db-IsSound = (record { keyed = (λ h. h, tt); mapped = tt; included = tt }, inr (inl refl))

serve_all-IsSound_example : IsSound "default" (serve_all setting arrivals db)
serve_all-IsSound_example = serve_all-IsSound setting arrivals db fresh db-IsSound

serve_admin-Authorised_example :
    (serve_admin setting creation db ≡ db)
    ⊎ ((sid : String) × (sess : Session) × (session_id "sid" creation.req ≡ some sid)
        × (get sid store ≡ ok sess)
        × (permission_of creation.call ∈ sess.permissions))
serve_admin-Authorised_example = serve_admin-Authorised setting creation db
