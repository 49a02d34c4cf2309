-- ===== src/Rbac/Store/Tests.antt =====
-- A merged store of two static ones.
use fusion_bff.Base.{[], ◌∷◌}
use fusion_bff.Rbac.Store.{GroupRoleStore, static_store, merged_store}
use fusion_bff.Rbac.Store.Union.{Merges, merged_store-Merges}

abbrev from_file : GroupRoleStore
from_file = static_store (("data", "viewer" ∷ "editor" ∷ []) ∷ []) []

abbrev from_table : GroupRoleStore
from_table = static_store (("data", "admin" ∷ "viewer" ∷ []) ∷ []) []

merged_store-Merges_example :
    Merges
      (from_file.roles_for_group "data")
      (from_table.roles_for_group "data")
      ((merged_store from_file from_table).roles_for_group "data")
merged_store-Merges_example = merged_store-Merges from_file from_table "data"
