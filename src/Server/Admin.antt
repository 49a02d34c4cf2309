-- ===== src/Server/Admin.antt =====
-- internal/api/router.go: the requests below /bff/admin that change the database, from the session
-- middleware through the handler of the route.
pub mod Kept
pub mod Handlers
mod Routed
pub mod Invariant
mod Tests
use fusion_bff.Base.{ℕ, String, Bool, List, [], ◌∷◌, Result}
use fusion_bff.Db.Tables.{Database}
use fusion_bff.Session.{Session, SessionStore}
use fusion_bff.Middleware.{Request, denied, passes, session_auth}
use fusion_bff.Handler.Admin.{
  post_group_role, post_user_role, post_resource_perm, post_owner_group, post_owner_group_mapping,
  post_owner_group_member, delete_group_handler,
}
use fusion_bff.Handler.Admin.Tables.{
  remove_group_role, remove_user_role, remove_resource_perm, remove_owner_group_mapping,
  remove_owner_group_member,
}
use fusion_bff.Handler.SystemHealth.{upsert_override, delete_override}

-- A request that the router gives to one of these handlers: its bound body, or its path parameter as
-- a number.
pub data AdminCall : Type 0 where
  creates_group_role creates_user_role creates_owner_group creates_mapping :
      Result (String × String) → AdminCall
  creates_resource_perm : Result (String × String × String × String × String) → AdminCall
  creates_member : Result (String × String × String) → AdminCall
  deletes_group_role deletes_user_role deletes_resource_perm deletes_owner_group deletes_mapping
        deletes_member :
      Result ℕ → AdminCall
  upserts_override : String → Result (String × String) → AdminCall
  deletes_override : String → AdminCall

-- The permission of the group of the route.
unfoldable pub permission_of : AdminCall → String
permission_of (upserts_override service body) = "admin:health:manage"
permission_of (deletes_override service) = "admin:health:manage"
permission_of _ = "admin:roles:manage"

-- What does not change while the process runs: the name of the session cookie, the default owner
-- group, whether there is a pool for the overrides, and lower-casing of texts.
pub record Setting : Type 0 where
  pub cookie_name : String
  pub default_owner_group : String
  pub has_pool : Bool
  pub lower : String → String

-- What a request meets: the sessions, the connection to the database, and the id and the time that
-- the database gives a new row.
pub record Arrival : Type 0 where
  pub req : Request
  pub store : SessionStore
  pub link : Result (Unit {0})
  pub new_id : ℕ
  pub now : ℕ
  pub call : AdminCall

module _ (set : Setting) where
  -- The database after the handler of the call.
  unfoldable pub run_call : Arrival → String → AdminCall → Database → Database
  run_call a sub (creates_group_role body) db =
      (post_group_role a.link db sub a.new_id a.now body).1
  run_call a sub (creates_user_role body) db = (post_user_role a.link db sub a.new_id a.now body).1
  run_call a sub (creates_owner_group body) db =
      (post_owner_group a.link db sub a.new_id a.now body).1
  run_call a sub (creates_mapping body) db =
      (post_owner_group_mapping a.link db sub a.new_id a.now body).1
  run_call a sub (creates_resource_perm body) db =
      (post_resource_perm a.link db sub a.new_id a.now body).1
  run_call a sub (creates_member body) db =
      (post_owner_group_member a.link db sub a.new_id a.now set.lower body).1
  run_call a sub (deletes_group_role param) db = (remove_group_role a.link db param).1
  run_call a sub (deletes_user_role param) db = (remove_user_role a.link db param).1
  run_call a sub (deletes_resource_perm param) db = (remove_resource_perm a.link db param).1
  run_call a sub (deletes_owner_group param) db =
      (delete_group_handler a.link db set.default_owner_group param).1
  run_call a sub (deletes_mapping param) db = (remove_owner_group_mapping a.link db param).1
  run_call a sub (deletes_member param) db = (remove_owner_group_member a.link db param).1
  run_call a sub (upserts_override service body) db =
      (upsert_override set.has_pool a.link db a.new_id a.now sub service body).1
  run_call a sub (deletes_override service) db = (delete_override set.has_pool a.link db service).1

  -- The database after a request: the handler runs where `SessionAuth` lets the request through.
  unfoldable pub serve_admin : Arrival → Database → Database
  serve_admin a db = elim (session_auth a.store set.cookie_name (permission_of a.call) a.req) [
    | denied code message ↦ db
    | passes sess ↦ run_call a sess.sub a.call db
  ]

  -- The database after a sequence of requests, of whatever users.
  unfoldable pub serve_all : List Arrival → Database → Database
  serve_all [] db = db
  serve_all (a ∷ arrivals) db = serve_all arrivals (serve_admin a db)
