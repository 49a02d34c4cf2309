-- ===== src/Server/Routes.antt =====
-- internal/api/router.go: the table of routes that `NewRouter` registers, with the middleware that
-- guards each, and the routes of the embedded provider. Matching a path is gin's.
use fusion_bff.Base.{String, Bool, List, [], ◌∷◌, ◌++◌, if◌then◌else◌}

-- The middleware of a group or a route: none, `SessionAuth` with a permission, or `APIAuth`.
pub data Guard : Type 0 where
  anyone : Guard
  session : String → Guard
  api : Guard

-- A route: its method ("*" for `Any`), its path, its guard, and the Go name of its handler.
pub record Route : Type 0 where
  pub method : String
  pub path : String
  pub guard : Guard
  pub handler : String

-- Which of the handlers that `NewRouter` takes are not nil, and whether the provider is embedded.
pub record Handlers : Type 0 where
  pub admin : Bool
  pub resource_perm : Bool
  pub owner_group : Bool
  pub preferences : Bool
  pub presets : Bool
  pub system_health : Bool
  pub mock : Bool

abbrev route : Guard → String → String → String → Route
route guard method path handler = record {
  method = method;
  path = path;
  guard = guard;
  handler = handler;
}

abbrev only_if : Bool → List Route → List Route
only_if present routes = if present then routes else []

abbrev roles_guard : Guard
roles_guard = session "admin:roles:manage"

abbrev health_guard : Guard
health_guard = session "admin:health:manage"

abbrev pub public_routes : List Route
public_routes =
    route anyone "GET" "/health" "Health"
    ∷ route anyone "GET" "/livez" "Livez"
    ∷ route anyone "GET" "/readyz" "Readyz"
    ∷ route anyone "GET" "/bff/openapi.yaml" "SpecHandler"
    ∷ route anyone "GET" "/bff/docs/*any" "UIHandler"
    ∷ route anyone "GET" "/bff/login" "Login"
    ∷ route anyone "GET" "/bff/callback" "Callback"
    ∷ route anyone "POST" "/bff/logout" "Logout"
    ∷ route anyone "GET" "/bff/userinfo" "UserInfo"
    ∷ []

abbrev pub admin_routes : List Route
admin_routes =
    route roles_guard "GET" "/bff/admin/group-roles" "ListGroupRoles"
    ∷ route roles_guard "POST" "/bff/admin/group-roles" "CreateGroupRole"
    ∷ route roles_guard "DELETE" "/bff/admin/group-roles/:id" "DeleteGroupRole"
    ∷ route roles_guard "GET" "/bff/admin/user-roles" "ListUserRoles"
    ∷ route roles_guard "POST" "/bff/admin/user-roles" "CreateUserRole"
    ∷ route roles_guard "DELETE" "/bff/admin/user-roles/:id" "DeleteUserRole"
    ∷ route roles_guard "GET" "/bff/admin/rbac-config" "RBACConfig"
    ∷ []

abbrev pub resource_perm_routes : List Route
resource_perm_routes =
    route roles_guard "GET" "/bff/admin/resource-permissions" "ResourcePermHandler.List"
    ∷ route roles_guard "POST" "/bff/admin/resource-permissions" "ResourcePermHandler.Create"
    ∷ route roles_guard "DELETE" "/bff/admin/resource-permissions/:id" "ResourcePermHandler.Delete"
    ∷ []

abbrev pub owner_group_routes : List Route
owner_group_routes =
    route roles_guard "GET" "/bff/admin/owner-groups" "ListGroups"
    ∷ route roles_guard "POST" "/bff/admin/owner-groups" "CreateGroup"
    ∷ route roles_guard "DELETE" "/bff/admin/owner-groups/:id" "DeleteGroup"
    ∷ route roles_guard "GET" "/bff/admin/owner-group-mappings" "ListMappings"
    ∷ route roles_guard "POST" "/bff/admin/owner-group-mappings" "CreateMapping"
    ∷ route roles_guard "DELETE" "/bff/admin/owner-group-mappings/:id" "DeleteMapping"
    ∷ route roles_guard "GET" "/bff/admin/owner-group-members" "ListMembers"
    ∷ route roles_guard "POST" "/bff/admin/owner-group-members" "CreateMember"
    ∷ route roles_guard "DELETE" "/bff/admin/owner-group-members/:id" "DeleteMember"
    ∷ []

abbrev pub preferences_routes : List Route
preferences_routes =
    route (session "") "GET" "/bff/preferences" "PreferencesHandler.Get"
    ∷ route (session "") "PUT" "/bff/preferences" "PreferencesHandler.Put"
    ∷ route (session "") "DELETE" "/bff/preferences" "PreferencesHandler.Delete"
    ∷ []

abbrev pub presets_routes : List Route
presets_routes = route (session "bff:presets:read") "GET" "/bff/presets" "PresetsHandler.List" ∷ []

abbrev pub system_health_routes : List Route
system_health_routes =
    route (session "") "GET" "/bff/system-health" "Status"
    ∷ route health_guard "GET" "/bff/admin/service-status" "ListOverrides"
    ∷ route health_guard "PUT" "/bff/admin/service-status/:service" "UpsertOverride"
    ∷ route health_guard "DELETE" "/bff/admin/service-status/:service" "DeleteOverride"
    ∷ []

abbrev pub api_routes : List Route
api_routes =
    route api "*" "/api/forge/*path" "forge"
    ∷ route api "*" "/api/index/*path" "index"
    ∷ route api "*" "/api/weave/*path" "weave"
    ∷ route api "*" "/api/wizard/*path" "wizard"
    ∷ route api "*" "/api/content/*path" "content"
    ∷ []

-- `NewRouter`
unfoldable pub new_router : Handlers → List Route
new_router h =
    public_routes
    ++ (if h.admin then admin_routes ++ only_if h.resource_perm resource_perm_routes else [])
    ++ only_if h.owner_group owner_group_routes
    ++ only_if h.preferences preferences_routes
    ++ only_if h.presets presets_routes
    ++ only_if h.system_health system_health_routes
    ++ api_routes

-- `RegisterRoutes` of the embedded provider.
unfoldable pub mock_routes : List Route
mock_routes =
    route anyone "GET" "/mock-oidc/protocol/openid-connect/auth" "handleAuthForm"
    ∷ route anyone "POST" "/mock-oidc/protocol/openid-connect/auth" "handleAuthSubmit"
    ∷ route anyone "POST" "/mock-oidc/protocol/openid-connect/token" "handleToken"
    ∷ route anyone "GET" "/mock-oidc/protocol/openid-connect/certs" "handleCerts"
    ∷ route anyone "POST" "/mock-oidc/protocol/openid-connect/revoke" "revoke"
    ∷ route anyone "GET" "/mock-oidc/protocol/openid-connect/logout" "handleLogout"
    ∷ []

-- The routes of the process: `main` adds those of the provider where the bypass is on.
unfoldable pub all_routes : Handlers → List Route
all_routes h = new_router h ++ only_if h.mock mock_routes
