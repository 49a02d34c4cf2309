-- ===== src/Rbac/Engine.antt =====
-- internal/rbac/engine.go: the engine that resolves roles, permissions and owner groups.
pub mod Roles
pub mod Failures
pub mod Owners
pub mod Grants
pub mod Tables
mod Tests
use fusion_bff.Base.{
  String, Bool, not, ◌&&◌, Option, none, some, List, [], ◌∷◌, ◌++◌, map, ◌==◌, if◌then◌else◌,
  is_some, is_empty, Dict, Result, ok, err, Error, plain, ◌>>=◌, contains, add_new, add_all, sort,
  string_eq,
}
use fusion_bff.Db.{Pool, ResourcePermRow}
use fusion_bff.Session.{ResourcePermission, permission_eq}
use fusion_bff.Rbac.Config.{RbacConfig, keys}
use fusion_bff.Rbac.Store.{GroupRoleStore, roles_of, static_store, db_store, merged_store}

-- `Engine`; the resolver is always `JWTResolver`.
pub record Engine : Type 0 where
  pub role_store : GroupRoleStore
  pub cfg : RbacConfig
  pub pool : Option Pool
  pub owner_pool : Option Pool
  pub default_owner_group : String

-- A call through a nil pool: the Go program panics there, and the request fails.
abbrev pub nil_pool : Error
nil_pool = plain "nil pointer dereference"

abbrev nil_store : GroupRoleStore
nil_store = record { roles_for_group = λ _. err nil_pool; roles_for_user = λ _. err nil_pool }

abbrev store_of_pool : Option Pool → GroupRoleStore
store_of_pool none = nil_store
store_of_pool (some pool) = db_store pool

-- `NewEngine`
unfoldable pub new_engine : RbacConfig → Option Pool → Engine
new_engine cfg pool =
    let static = static_store cfg.group_roles cfg.user_roles in
    let db = store_of_pool pool in
    record {
      role_store =
          if cfg.group_source == "db"
          then db
          else if cfg.group_source == "both"
          then merged_store static db
          else static;
      cfg = cfg;
      pool = pool;
      owner_pool = none;
      default_owner_group = "";
    }

-- `WithOwnerGroups`
unfoldable pub with_owner_groups : Option Pool → Engine → Engine
with_owner_groups pool e = record e { owner_pool = pool }

-- `WithDefaultOwnerGroup`
unfoldable pub with_default_owner_group : String → Engine → Engine
with_default_owner_group name e = record e { default_owner_group = name }

-- `JWTResolver.Resolve`
abbrev pub resolve_groups : String → List String → Result (List String)
resolve_groups sub jwt_groups = ok jwt_groups

-- The loop over the groups that fills `roleSet`.
unfoldable pub collect_roles : GroupRoleStore → List String → List String → Result (List String)
collect_roles store roles [] = ok roles
collect_roles store roles (group ∷ groups) = do
  group_roles ← store.roles_for_group group
  collect_roles store (add_all roles group_roles) groups

-- The roles assigned to the user, unless `sub` is empty.
unfoldable pub add_user_roles : GroupRoleStore → String → List String → Result (List String)
add_user_roles store sub roles =
    if is_empty sub
    then ok roles
    else (do user_roles ← store.roles_for_user sub; ok (add_all roles user_roles))

-- The loop over `roleSet` that fills `permSet`.
unfoldable pub collect_permissions : Dict (List String) → List String → List String → List String
collect_permissions role_permissions perms [] = perms
collect_permissions role_permissions perms (role ∷ roles) =
    collect_permissions role_permissions (add_all perms (roles_of role_permissions role)) roles

-- `Resolve`: the sorted roles and permissions.
unfoldable pub resolve : Engine → String → List String → Result (List String × List String)
resolve e sub jwt_groups = do
  groups ← resolve_groups sub jwt_groups
  group_roles ← collect_roles e.role_store [] groups
  role_set ← add_user_roles e.role_store sub group_roles
  ok (sort role_set, sort (collect_permissions e.cfg.role_permissions [] role_set))

-- `ResolveOwnerGroups`
abbrev pub load_owner_groups : Option Pool → String → String → List String → Result (List String)
load_owner_groups none user_id email oidc_groups = ok []
load_owner_groups (some pool) user_id email oidc_groups =
    pool.load_owner_groups_for_user user_id email oidc_groups

abbrev add_default_group : String → List String → List String
add_default_group name groups =
    if not (is_empty name) && not (contains groups name)
    then sort (groups ++ (name ∷ []))
    else groups

unfoldable pub resolve_owner_groups : Engine → String → String → List String → Result (List String)
resolve_owner_groups e user_id email oidc_groups = do
  groups ← load_owner_groups e.owner_pool user_id email oidc_groups
  ok (add_default_group e.default_owner_group groups)

-- `PreferencesEnabled`
unfoldable pub preferences_enabled : Engine → Bool
preferences_enabled e = is_some e.owner_pool

-- `StoredPreferredOwnerGroup`
unfoldable pub stored_preferred_owner_group : Engine → String → Result String
stored_preferred_owner_group e user_id = elim e.owner_pool [
  | none ↦ ok ""
  | some pool ↦ if is_empty user_id then ok "" else pool.get_preferred_owner_group user_id
]

-- `EffectivePreferredOwnerGroup`
unfoldable pub effective_preferred_owner_group : Engine → String → List String → String
effective_preferred_owner_group e stored owner_groups =
    if not (is_empty stored) && contains owner_groups stored then stored else e.default_owner_group

-- A grant on the resource of a row.
abbrev pub grant_on : ResourcePermRow → String → ResourcePermission
grant_on row permission = record {
  permission = permission;
  resource_type = row.resource_type;
  resource_id = row.resource_id;
}

-- The body of the loop over the rows: the row's own permission, and those that it implies.
unfoldable pub add_row :
    Dict (List String) → List ResourcePermission → ResourcePermRow → List ResourcePermission
add_row implies grants row =
    add_all (add_new grants (grant_on row row.permission))
      (map (grant_on row) (roles_of implies row.permission))

unfoldable pub add_rows :
    Dict (List String) → List ResourcePermission → List ResourcePermRow → List ResourcePermission
add_rows implies grants [] = grants
add_rows implies grants (row ∷ rows) = add_rows implies (add_row implies grants row) rows

-- `ResolveResourcePermissions`
unfoldable pub resolve_resource_permissions :
    Engine → String → List String → List String → Result (List ResourcePermission)
resolve_resource_permissions e sub groups roles = elim e.pool [
  | none ↦ ok []
  | some pool ↦ do
    rows ← pool.load_resource_perms_for_user sub groups roles
    ok (add_rows e.cfg.permission_implies [] rows)
]

-- The loop of `RBACConfigSummary` over the permission lists of the roles.
unfoldable pub all_permissions : List String → Dict (List String) → List String
all_permissions perms [] = perms
all_permissions perms ((role, granted) ∷ roles) = all_permissions (add_all perms granted) roles

-- `RBACConfigSummary`: the sorted roles, groups and permissions of the configuration.
unfoldable pub rbac_config_summary : Engine → List String × List String × List String
rbac_config_summary e = (
  sort (keys e.cfg.role_permissions),
  sort (keys e.cfg.group_roles),
  sort (all_permissions [] e.cfg.role_permissions),
)
