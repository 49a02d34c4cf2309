-- ===== src/Rbac/Store.antt =====
-- internal/rbac: store.go, static_store.go, db_store.go and merged_store.go, the three sources of
-- role names.
pub mod Union
mod Tests
use fusion_bff.Base.{
  String, List, [], ◌++◌, Option, none, some, Dict, lookup, Result, ok, ◌>>=◌, add_all, string_eq,
}
use fusion_bff.Db.{Pool}

-- `GroupRoleStore`
pub record GroupRoleStore : Type 0 where
  pub roles_for_group : String → Result (List String)
  pub roles_for_user : String → Result (List String)

-- `m[key]` of a map of slices: nil where the key is missing.
abbrev pub roles_of : Dict (List String) → String → List String
roles_of m key = elim (lookup key m) [ none ↦ [] | some roles ↦ roles ]

-- `StaticGroupRoleStore`
unfoldable pub static_store : Dict (List String) → Dict (List String) → GroupRoleStore
static_store groups users = record {
  roles_for_group = λ group. ok (roles_of groups group);
  roles_for_user = λ sub. ok (roles_of users sub);
}

-- `DBGroupRoleStore`
unfoldable pub db_store : Pool → GroupRoleStore
db_store pool = record {
  roles_for_group = λ group. do
    m ← pool.load_all_group_roles
    ok (roles_of m group);
  roles_for_user = pool.load_roles_for_user;
}

-- `unionStrings`
unfoldable pub union_strings : List String → List String → List String
union_strings a b = add_all [] (a ++ b)

-- `mergeRoles`
unfoldable pub merge_roles :
    String
    → (String → Result (List String))
    → (String → Result (List String))
    → Result (List String)
merge_roles key static db = do a ← static key; b ← db key; ok (union_strings a b)

-- `MergedGroupRoleStore`
unfoldable pub merged_store : GroupRoleStore → GroupRoleStore → GroupRoleStore
merged_store static db = record {
  roles_for_group = λ group. merge_roles group static.roles_for_group db.roles_for_group;
  roles_for_user = λ sub. merge_roles sub static.roles_for_user db.roles_for_user;
}
