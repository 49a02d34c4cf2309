-- ===== src/Rbac/Engine/Tests.antt =====
-- The cases of owner_default_test.go and user_roles_test.go, and instances of the theorems.
use fusion_bff.Base.{
  String, none, some, List, [], ◌∷◌, ◌≡◌, refl, ◌↔◌, ◌⊎◌, ◌≢◌, ok, err, plain, lookup, contains,
  add_new, add_all, sort, is_empty, str_le, ◌∈◌, IsDistinct,
}
use fusion_bff.Db.Tables.{order_by, Database, select}
use fusion_bff.Db.Pools.{pool_of}
use fusion_bff.Db.OwnerGroups.{is_member, load_owner_groups_for_user}
use fusion_bff.Db.OwnerGroups.Laws.{Maps, Includes}
use fusion_bff.Rbac.Engine.Tables.{resolve_owner_groups_iff}
use fusion_bff.Db.{Pool, ResourcePermRow}
use fusion_bff.Session.{ResourcePermission}
use fusion_bff.Rbac.Config.{RbacConfig, keys}
use fusion_bff.Rbac.Store.{static_store, db_store, merge_roles, merged_store, union_strings}
use fusion_bff.Rbac.Engine.{
  Engine, new_engine, with_owner_groups, with_default_owner_group, collect_roles, add_user_roles,
  collect_permissions, resolve, resolve_owner_groups, effective_preferred_owner_group, add_row,
  add_rows, resolve_resource_permissions, all_permissions, rbac_config_summary,
}
use fusion_bff.Rbac.Engine.Roles.{IsResolved, resolve-IsResolved}
use fusion_bff.Rbac.Engine.Failures.{Succeeds, AnswersAll, AnswersUser, resolve-Succeeds_iff}
use fusion_bff.Rbac.Engine.Grants.{Granted, resolve_resource_permissions_iff}

program : Unit {0}
unfolding str_le lookup contains add_new add_all sort is_empty keys static_store db_store
    merge_roles merged_store union_strings new_engine with_owner_groups with_default_owner_group
    collect_roles add_user_roles collect_permissions resolve resolve_owner_groups
    effective_preferred_owner_group add_row add_rows resolve_resource_permissions all_permissions
    rbac_config_summary select is_member load_owner_groups_for_user order_by pool_of
program = tt

abbrev config : RbacConfig
config = record {
  group_source = "jwt";
  group_roles = ("data", "viewer" ∷ "editor" ∷ []) ∷ [];
  user_roles = ("u1", "admin" ∷ []) ∷ [];
  role_permissions = ("admin", "admin:roles:manage" ∷ []) ∷ ("viewer", "index:read" ∷ []) ∷ [];
  route_permissions = [];
  permission_implies = ("edit", "view" ∷ []) ∷ ("view", "list" ∷ []) ∷ [];
}

abbrev row : ResourcePermRow
row = record {
  id = 1;
  subject_type = "user";
  subject = "u1";
  permission = "edit";
  resource_type = "artifact";
  resource_id = "7";
  created_by = "";
  created_at = 0;
}

abbrev pool : Pool
pool = record {
  load_all_group_roles = err (plain "down");
  load_roles_for_user = λ _. err (plain "down");
  load_resource_perms_for_user = λ _ _ _. ok (row ∷ []);
  load_owner_groups_for_user = λ _ _ _. ok ("a" ∷ "team" ∷ []);
  get_preferred_owner_group = λ _. ok "";
}

abbrev engine : Engine
engine =
    with_default_owner_group "everyone"
      (with_owner_groups (some pool) (new_engine config (some pool)))

abbrev viewer : List String
viewer = "admin" ∷ "editor" ∷ "viewer" ∷ []

abbrev granted : List String
granted = "admin:roles:manage" ∷ "index:read" ∷ []

abbrev grants : List ResourcePermission
grants =
    record { permission = "edit"; resource_type = "artifact"; resource_id = "7" }
    ∷ record { permission = "view"; resource_type = "artifact"; resource_id = "7" }
    ∷ []

runs :
    (resolve engine "u1" ("data" ∷ "other" ∷ []) ≡ ok (viewer, granted))
    × (resolve engine "" [] ≡ ok ([], []))
    × (resolve (new_engine (record config { group_source = "both" }) (some pool)) "u1" []
        ≡ err (plain "down"))
    × (resolve_owner_groups engine "u1" "" [] ≡ ok ("a" ∷ "everyone" ∷ "team" ∷ []))
    × (resolve_owner_groups (new_engine config none) "u1" "" [] ≡ ok [])
    × (resolve_resource_permissions engine "u1" [] [] ≡ ok grants)
    × (rbac_config_summary engine ≡ ("admin" ∷ "viewer" ∷ [], "data" ∷ [], granted))
unfolding program
runs = (refl, refl, refl, refl, refl, refl, refl)

resolve-IsResolved_example : IsResolved engine "u1" ("data" ∷ "other" ∷ []) viewer granted
resolve-IsResolved_example =
    resolve-IsResolved engine "u1" ("data" ∷ "other" ∷ []) viewer granted runs.0

resolve-Succeeds_iff_example :
    Succeeds (resolve engine "u1" ("data" ∷ []))
    ↔ (AnswersAll engine.role_store ("data" ∷ []) × AnswersUser engine.role_store "u1")
resolve-Succeeds_iff_example = resolve-Succeeds_iff engine "u1" ("data" ∷ [])

-- A stored preference.
abbrev stored_group : String
stored_group = "a"

resolve_resource_permissions_iff_example :
    ((grant : ResourcePermission)
      → (grant ∈ grants) ↔ Granted config.permission_implies (row ∷ []) grant)
    × IsDistinct grants
unfolding program
resolve_resource_permissions_iff_example =
    resolve_resource_permissions_iff engine pool "u1" [] [] (row ∷ []) grants refl refl runs.5

-- A database in which the user is a member of one owner group.
abbrev tables : Database
tables = record {
  group_roles = [];
  user_roles = [];
  resource_perms = [];
  service_statuses = [];
  owner_groups =
      record { id = 2; name = "ops"; description = ""; created_by = ""; created_at = 0 } ∷ [];
  mappings = [];
  members =
      record {
        id = 1;
        owner_group = "ops";
        match_type = "user_id";
        match_value = "u1";
        created_by = "";
        created_at = 0;
      }
      ∷ [];
  preferences = [];
  collate = str_le;
}

abbrev on_tables : Engine
on_tables =
    with_default_owner_group "everyone"
      (with_owner_groups (some (pool_of (ok tt) (λ s. s) tables)) (new_engine config none))

abbrev ops : String
ops = "ops"

resolve_owner_groups_iff_example : (ops ∈ "everyone" ∷ "ops" ∷ []) ↔ (
    (Maps [] ops tables.mappings ⊎ Includes (λ s. s) "u1" "" ops tables.members)
    ⊎ ((on_tables.default_owner_group ≢ "") × (ops ≡ on_tables.default_owner_group)))
unfolding program
resolve_owner_groups_iff_example =
    resolve_owner_groups_iff on_tables tables (λ s. s) "u1" "" [] ("everyone" ∷ "ops" ∷ []) refl
      refl ops
