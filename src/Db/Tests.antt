-- ===== src/Db/Tests.antt =====
-- A database with two owner groups, and instances of the theorems about the tables.
use fusion_bff.Base.{
  String, List, [], ◌∷◌, ok, err, ◌≡◌, refl, inl, inr, lookup, insert, delete, contains, add_new,
  add_all, str_le, str_le_total, IsDistinct, is_empty,
}
use fusion_bff.Db.Tables.{
  ServiceStatusRow, Database, unique_violation, foreign_key_violation, find_row, drop_rows, select,
  insert_row, scan_row, delete_returning, order_by, list_rows, le_columns,
}
use fusion_bff.Db.Ordered.{IsOrdered}
use fusion_bff.Db.Roles.{roles_at, collect_group_roles, load_all_group_roles, create_group_role}
use fusion_bff.Db.OwnerGroups.{
  references, is_member, cascade, create_owner_group_mapping, delete_owner_group,
  load_owner_groups_for_user,
}
use fusion_bff.Db.OwnerGroups.Laws.{AreOwned, load_owner_groups_for_user_iff}
use fusion_bff.Db.OwnerGroups.Consistent.{IsConsistent}
use fusion_bff.Db.OwnerGroups.Statements.{after}

program : Unit {0}
unfolding lookup insert delete contains add_new add_all str_le is_empty find_row drop_rows select
    insert_row scan_row delete_returning roles_at collect_group_roles load_all_group_roles
    create_group_role references is_member cascade create_owner_group_mapping delete_owner_group
    load_owner_groups_for_user after order_by list_rows le_columns
program = tt

abbrev db : Database
db = record {
  group_roles =
      record { id = 1; group_name = "data"; role_name = "viewer"; created_by = ""; created_at = 0 }
      ∷ record {
        id = 2;
        group_name = "data";
        role_name = "editor";
        created_by = "";
        created_at = 0;
      }
      ∷ [];
  user_roles = [];
  resource_perms = [];
  service_statuses = [];
  owner_groups =
      record { id = 1; name = "team"; description = ""; created_by = ""; created_at = 0 }
      ∷ record { id = 2; name = "ops"; description = ""; created_by = ""; created_at = 0 }
      ∷ [];
  mappings =
      record { id = 1; owner_group = "team"; oidc_group = "data"; created_by = ""; created_at = 0 }
      ∷ [];
  members =
      record {
        id = 1;
        owner_group = "ops";
        match_type = "user_id";
        match_value = "u1";
        created_by = "";
        created_at = 0;
      }
      ∷ [];
  preferences = [];
  collate = str_le;
}

runs :
    (load_owner_groups_for_user (ok tt) db (λ s. s) "u1" "" ("data" ∷ [])
      ≡ ok ("ops" ∷ "team" ∷ []))
    × ((create_group_role (ok tt) db 3 0 "data" "editor" "root").0 ≡ err unique_violation)
    × ((create_owner_group_mapping (ok tt) db 3 0 "nobody" "data" "root").0
        ≡ err foreign_key_violation)
    × ((delete_owner_group (ok tt) db 2).1.members ≡ [])
unfolding program
runs = (refl, refl, refl, refl)

load_owner_groups_for_user_iff_example :
    (names : List String) × (load_owner_groups_for_user (ok tt) db (λ s. s) "u1" "" ("data" ∷ [])
      ≡ ok names)
    × IsOrdered db.collate names
    × IsDistinct names
    × AreOwned db (λ s. s) "u1" "" ("data" ∷ []) names
load_owner_groups_for_user_iff_example =
    load_owner_groups_for_user_iff db (λ s. s) "u1" "" ("data" ∷ []) str_le_total

db-IsConsistent : IsConsistent db
db-IsConsistent = record {
  keyed = ((λ h. elim h [ inl e ↦ cc | inr m ↦ m ]), ((λ h. h), tt));
  mapped = (inl refl, tt);
  included = (inr (inl refl), tt);
}

abbrev given : ServiceStatusRow
given = record {
  id = 9;
  service = "forge";
  status = "Offline";
  description = "";
  updated_by = "root";
  updated_at = 5;
}

abbrev before : List ServiceStatusRow
before = record given { id = 3; status = "Healthy" } ∷ []
