-- ===== src/Server/Admin/Routed.antt =====
-- The requests of Server.Admin stand in the router's table, with the guard that `serve_admin` gives
-- them.
use fusion_bff.Base.{
  String, true, false, Option, none, some, List, [], ◌∷◌, ◌==◌, ◌&&◌, if◌then◌else◌, ◌≡◌, refl,
}
use fusion_bff.Server.Routes.{Route, session, Handlers, new_router}
use fusion_bff.Server.Admin.{
  AdminCall, creates_group_role, creates_user_role, creates_owner_group, creates_mapping,
  creates_resource_perm, creates_member, deletes_group_role, deletes_user_role,
  deletes_resource_perm, deletes_owner_group, deletes_mapping, deletes_member, upserts_override,
  deletes_override, permission_of,
}

abbrev every_handler : Handlers
every_handler = record {
  admin = true;
  resource_perm = true;
  owner_group = true;
  preferences = true;
  presets = true;
  system_health = true;
  mock = false;
}

-- The first route of a method and a path.
unfoldable find_route : String → String → List Route → Option Route
find_route method path [] = none
find_route method path (r ∷ routes) =
    if (r.method == method) && (r.path == path) then some r else find_route method path routes

abbrev guarded : AdminCall → String → String → String → Route
guarded call method path handler = record {
  method = method;
  path = path;
  guard = session (permission_of call);
  handler = handler;
}

-- The route that gives rise to a call.
unfoldable admin_route : AdminCall → Route
admin_route (creates_group_role b) =
    guarded (creates_group_role b) "POST" "/bff/admin/group-roles" "CreateGroupRole"
admin_route (creates_user_role b) =
    guarded (creates_user_role b) "POST" "/bff/admin/user-roles" "CreateUserRole"
admin_route (creates_owner_group b) =
    guarded (creates_owner_group b) "POST" "/bff/admin/owner-groups" "CreateGroup"
admin_route (creates_mapping b) =
    guarded (creates_mapping b) "POST" "/bff/admin/owner-group-mappings" "CreateMapping"
admin_route (creates_resource_perm b) =
    guarded (creates_resource_perm b) "POST" "/bff/admin/resource-permissions"
      "ResourcePermHandler.Create"
admin_route (creates_member b) =
    guarded (creates_member b) "POST" "/bff/admin/owner-group-members" "CreateMember"
admin_route (deletes_group_role i) =
    guarded (deletes_group_role i) "DELETE" "/bff/admin/group-roles/:id" "DeleteGroupRole"
admin_route (deletes_user_role i) =
    guarded (deletes_user_role i) "DELETE" "/bff/admin/user-roles/:id" "DeleteUserRole"
admin_route (deletes_resource_perm i) =
    guarded (deletes_resource_perm i) "DELETE" "/bff/admin/resource-permissions/:id"
      "ResourcePermHandler.Delete"
admin_route (deletes_owner_group i) =
    guarded (deletes_owner_group i) "DELETE" "/bff/admin/owner-groups/:id" "DeleteGroup"
admin_route (deletes_mapping i) =
    guarded (deletes_mapping i) "DELETE" "/bff/admin/owner-group-mappings/:id" "DeleteMapping"
admin_route (deletes_member i) =
    guarded (deletes_member i) "DELETE" "/bff/admin/owner-group-members/:id" "DeleteMember"
admin_route (upserts_override s b) =
    guarded (upserts_override s b) "PUT" "/bff/admin/service-status/:service" "UpsertOverride"
admin_route (deletes_override s) =
    guarded (deletes_override s) "DELETE" "/bff/admin/service-status/:service" "DeleteOverride"

-- The router registers the route of each call, guarded by a session with the call's permission.
find_route-admin_route :
    (call : AdminCall)
    → find_route (admin_route call).method (admin_route call).path (new_router every_handler)
      ≡ some (admin_route call)
unfolding find_route admin_route new_router permission_of
find_route-admin_route (creates_group_role b) = refl
find_route-admin_route (creates_user_role b) = refl
find_route-admin_route (creates_owner_group b) = refl
find_route-admin_route (creates_mapping b) = refl
find_route-admin_route (creates_resource_perm b) = refl
find_route-admin_route (creates_member b) = refl
find_route-admin_route (deletes_group_role i) = refl
find_route-admin_route (deletes_user_role i) = refl
find_route-admin_route (deletes_resource_perm i) = refl
find_route-admin_route (deletes_owner_group i) = refl
find_route-admin_route (deletes_mapping i) = refl
find_route-admin_route (deletes_member i) = refl
find_route-admin_route (upserts_override s b) = refl
find_route-admin_route (deletes_override s) = refl
