-- ===== src/Handler/Admin/Tables.antt =====
-- internal/api/handler: the list and delete handlers of admin.go, resource_permissions.go and
-- owner_groups.go, one for each table.
use fusion_bff.Base.{ℕ, String, List, Result}
use fusion_bff.Db.{ResourcePermRow}
use fusion_bff.Db.Tables.{
  Database, GroupRoleRow, UserRoleRow, OwnerGroupRow, OwnerGroupMappingRow, OwnerGroupMemberRow,
}
use fusion_bff.Db.Roles.{list_group_roles, delete_group_role, list_user_roles, delete_user_role}
use fusion_bff.Db.Grants.{list_resource_perms, delete_resource_perm}
use fusion_bff.Db.OwnerGroups.{
  list_owner_groups, list_owner_group_mappings, delete_owner_group_mapping,
  list_owner_group_members, delete_owner_group_member,
}
use fusion_bff.Rbac.Engine.{Engine, rbac_config_summary}
use fusion_bff.Handler.{Reply, json}
use fusion_bff.Handler.Admin.{respond_list, delete_by_id}

-- `AdminHandler.RBACConfig`
unfoldable pub rbac_config : Engine → Reply (List String × List String × List String)
rbac_config engine = json 200 (rbac_config_summary engine)

module _ (link : Result (Unit {0})) (db : Database) where
  -- `AdminHandler.ListGroupRoles`
  unfoldable pub get_group_roles : Reply (List GroupRoleRow)
  get_group_roles = respond_list (list_group_roles link db)

  -- `AdminHandler.DeleteGroupRole`
  unfoldable pub remove_group_role : Result ℕ → Reply GroupRoleRow × Database
  remove_group_role param = delete_by_id param (delete_group_role link db) db

  -- `AdminHandler.ListUserRoles`
  unfoldable pub get_user_roles : Reply (List UserRoleRow)
  get_user_roles = respond_list (list_user_roles link db)

  -- `AdminHandler.DeleteUserRole`
  unfoldable pub remove_user_role : Result ℕ → Reply UserRoleRow × Database
  remove_user_role param = delete_by_id param (delete_user_role link db) db

  -- `ResourcePermHandler.List`
  unfoldable pub get_resource_perms : Reply (List ResourcePermRow)
  get_resource_perms = respond_list (list_resource_perms link db)

  -- `ResourcePermHandler.Delete`
  unfoldable pub remove_resource_perm : Result ℕ → Reply ResourcePermRow × Database
  remove_resource_perm param = delete_by_id param (delete_resource_perm link db) db

  -- `OwnerGroupHandler.ListGroups`
  unfoldable pub get_owner_groups : Reply (List OwnerGroupRow)
  get_owner_groups = respond_list (list_owner_groups link db)

  -- `OwnerGroupHandler.ListMappings`
  unfoldable pub get_owner_group_mappings : Reply (List OwnerGroupMappingRow)
  get_owner_group_mappings = respond_list (list_owner_group_mappings link db)

  -- `OwnerGroupHandler.DeleteMapping`
  unfoldable pub remove_owner_group_mapping : Result ℕ → Reply OwnerGroupMappingRow × Database
  remove_owner_group_mapping param = delete_by_id param (delete_owner_group_mapping link db) db

  -- `OwnerGroupHandler.ListMembers`
  unfoldable pub get_owner_group_members : Reply (List OwnerGroupMemberRow)
  get_owner_group_members = respond_list (list_owner_group_members link db)

  -- `OwnerGroupHandler.DeleteMember`
  unfoldable pub remove_owner_group_member : Result ℕ → Reply OwnerGroupMemberRow × Database
  remove_owner_group_member param = delete_by_id param (delete_owner_group_member link db) db
