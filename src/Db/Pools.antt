-- ===== src/Db/Pools.antt =====
-- The queries as the readers of package rbac use them: the database behind a pool.
use fusion_bff.Base.{String, Result}
use fusion_bff.Db.{Pool}
use fusion_bff.Db.Tables.{Database}
use fusion_bff.Db.Roles.{load_all_group_roles, load_roles_for_user}
use fusion_bff.Db.Grants.{load_resource_perms_for_user}
use fusion_bff.Db.OwnerGroups.{load_owner_groups_for_user, get_preferred_owner_group}

-- What the queries answer on the tables, over one connection and the function `lower` of SQL.
unfoldable pub pool_of : Result (Unit {0}) → (String → String) → Database → Pool
pool_of link lower db = record {
  load_all_group_roles = load_all_group_roles link db;
  load_roles_for_user = load_roles_for_user link db;
  load_resource_perms_for_user = load_resource_perms_for_user link db;
  load_owner_groups_for_user = load_owner_groups_for_user link db lower;
  get_preferred_owner_group = get_preferred_owner_group link db;
}
