-- ===== src/Server/Admin/Kept.antt =====
-- The requests that do not touch the owner groups, their mappings and their members.
use fusion_bff.Base.{ℕ, String, Bool, Result, ok, err, ◌≡◌, refl, arith}
use fusion_bff.Db.Tables.{Database, insert_row, delete_returning}
use fusion_bff.Db.Roles.{create_group_role, create_user_role, delete_group_role, delete_user_role}
use fusion_bff.Db.Grants.{
  create_resource_perm, delete_resource_perm, upsert_service_status, delete_service_status,
}
use fusion_bff.Handler.Admin.{post_group_role, post_user_role, post_resource_perm, delete_by_id}
use fusion_bff.Handler.Admin.Tables.{remove_group_role, remove_user_role, remove_resource_perm}
use fusion_bff.Handler.SystemHealth.{upsert_override, delete_override}

-- The owner groups, the mappings and the members are the same.
abbrev pub SameOwners : Database → Database → Type 0
SameOwners db db' =
    (db'.owner_groups ≡ db.owner_groups) × (db'.mappings ≡ db.mappings) × (db'.members ≡ db.members)

module _ (link : Result (Unit {0})) (db : Database) (sub : String) (id now : ℕ) where
  pub post_group_role-same :
      (body : Result (String × String)) → SameOwners db (post_group_role link db sub id now body).1
  unfolding post_group_role create_group_role insert_row
  post_group_role-same (err e) = (refl, refl, refl)
  post_group_role-same (ok (group, role)) = (ground arith, ground arith, ground arith)

  pub post_user_role-same :
      (body : Result (String × String)) → SameOwners db (post_user_role link db sub id now body).1
  unfolding post_user_role create_user_role insert_row
  post_user_role-same (err e) = (refl, refl, refl)
  post_user_role-same (ok (user_sub, role)) = (ground arith, ground arith, ground arith)

  pub post_resource_perm-same :
      (body : Result (String × String × String × String × String))
      → SameOwners db (post_resource_perm link db sub id now body).1
  unfolding post_resource_perm create_resource_perm insert_row
  post_resource_perm-same (err e) = (refl, refl, refl)
  post_resource_perm-same (ok (a, b, c, d, e)) = (ground arith, ground arith, ground arith)

  pub upsert_override-same :
      (pool : Bool) (service : String) (body : Result (String × String))
      → SameOwners db (upsert_override pool link db id now sub service body).1
  unfolding upsert_override upsert_service_status
  upsert_override-same pool service (err e) = (ground arith, ground arith, ground arith)
  upsert_override-same pool service (ok (value, description)) =
      (ground arith, ground arith, ground arith)

module _ (link : Result (Unit {0})) (db : Database) where
  pub remove_group_role-same :
      (param : Result ℕ) → SameOwners db (remove_group_role link db param).1
  unfolding remove_group_role delete_by_id delete_group_role delete_returning
  remove_group_role-same (err e) = (refl, refl, refl)
  remove_group_role-same (ok id) = (ground arith, ground arith, ground arith)

  pub remove_user_role-same : (param : Result ℕ) → SameOwners db (remove_user_role link db param).1
  unfolding remove_user_role delete_by_id delete_user_role delete_returning
  remove_user_role-same (err e) = (refl, refl, refl)
  remove_user_role-same (ok id) = (ground arith, ground arith, ground arith)

  pub remove_resource_perm-same :
      (param : Result ℕ) → SameOwners db (remove_resource_perm link db param).1
  unfolding remove_resource_perm delete_by_id delete_resource_perm delete_returning
  remove_resource_perm-same (err e) = (refl, refl, refl)
  remove_resource_perm-same (ok id) = (ground arith, ground arith, ground arith)

  pub delete_override-same :
      (pool : Bool) (service : String) → SameOwners db (delete_override pool link db service).1
  unfolding delete_override delete_service_status
  delete_override-same pool service = (ground arith, ground arith, ground arith)
