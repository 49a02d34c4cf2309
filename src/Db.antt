-- ===== src/Db.antt =====
-- internal/db: the rows of the tables, and what the readers of package rbac ask the database.
pub mod Tables
pub mod Ordered
pub mod Roles
pub mod Grants
pub mod OwnerGroups
pub mod Pools
mod Tests
use fusion_bff.Base.{ℕ, String, List, Dict, Result}

-- `ResourcePermRow`
pub record ResourcePermRow : Type 0 where
  pub id : ℕ
  pub subject_type : String
  pub subject : String
  pub permission : String
  pub resource_type : String
  pub resource_id : String
  pub created_by : String
  pub created_at : ℕ

-- What the queries behind `pgxpool.Pool` answer at one moment: rows, or an error.
pub record Pool : Type 0 where
  pub load_all_group_roles : Result (Dict (List String))
  pub load_roles_for_user : String → Result (List String)
  pub load_resource_perms_for_user :
      String → List String → List String → Result (List ResourcePermRow)
  pub load_owner_groups_for_user : String → String → List String → Result (List String)
  pub get_preferred_owner_group : String → Result String
