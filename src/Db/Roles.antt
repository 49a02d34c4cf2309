-- ===== src/Db/Roles.antt =====
-- internal/db/queries.go: the role assignments of groups and of users. `id` and `now` are what the
-- database gives a new row.
pub mod Laws
use fusion_bff.Base.{
  ℕ, String, Bool, true, false, ◌&&◌, Option, none, some, List, [], ◌∷◌, ◌++◌, map, ◌==◌,
  if◌then◌else◌, eqb, Dict, lookup, insert, Result, ok, err, ◌>>=◌,
}
use fusion_bff.Db.Tables.{
  GroupRoleRow, UserRoleRow, Database, insert_row, delete_returning, list_rows, le_columns, select,
}

-- The order of `ListGroupRoles`.
abbrev group_role_le : (String → String → Bool) → GroupRoleRow → GroupRoleRow → Bool
group_role_le collate a b =
    le_columns collate (a.group_name ∷ a.role_name ∷ []) (b.group_name ∷ b.role_name ∷ [])

abbrev user_role_le : (String → String → Bool) → UserRoleRow → UserRoleRow → Bool
user_role_le collate a b =
    le_columns collate (a.user_sub ∷ a.role_name ∷ []) (b.user_sub ∷ b.role_name ∷ [])

-- `UNIQUE (group_name, role_name)`
abbrev pub has_group_role : String → String → GroupRoleRow → Bool
has_group_role group role r = r.group_name == group && r.role_name == role

-- `UNIQUE (user_sub, role_name)`
abbrev pub has_user_role : String → String → UserRoleRow → Bool
has_user_role sub role r = r.user_sub == sub && r.role_name == role

-- The loop of `LoadAllGroupRoles`: `m[group] = append(m[group], role)`.
abbrev pub or_nil : Option (List String) → List String
or_nil none = []
or_nil (some roles) = roles

unfoldable pub roles_at : Dict (List String) → String → List String
roles_at m group = or_nil (lookup group m)

unfoldable pub collect_group_roles : Dict (List String) → List GroupRoleRow → Dict (List String)
collect_group_roles m [] = m
collect_group_roles m (r ∷ rows) =
    collect_group_roles (insert r.group_name (roles_at m r.group_name ++ (r.role_name ∷ [])) m) rows

module _ (link : Result (Unit {0})) (db : Database) where
  -- `ListGroupRoles`
  unfoldable pub list_group_roles : Result (List GroupRoleRow)
  list_group_roles = list_rows link (group_role_le db.collate) db.group_roles

  -- `CreateGroupRole`
  unfoldable pub create_group_role :
      ℕ → ℕ → String → String → String → Result GroupRoleRow × Database
  create_group_role id now group role created_by =
      let row : GroupRoleRow = record {
        id = id;
        group_name = group;
        role_name = role;
        created_by = created_by;
        created_at = now;
      } in
      elim (do _ ← link; insert_row (has_group_role group role) row db.group_roles) [
        | err e ↦ (err e, db)
        | ok rows ↦ (ok row, record db { group_roles = rows })
      ]

  -- `DeleteGroupRole`
  unfoldable pub delete_group_role : ℕ → Result (Option GroupRoleRow) × Database
  delete_group_role id =
      let (answer, rows) = delete_returning link (λ r. eqb r.id id) db.group_roles in
      (answer, record db { group_roles = rows })

  -- `LoadAllGroupRoles`
  unfoldable pub load_all_group_roles : Result (Dict (List String))
  load_all_group_roles = do _ ← link; ok (collect_group_roles [] db.group_roles)

  -- `ListUserRoles`
  unfoldable pub list_user_roles : Result (List UserRoleRow)
  list_user_roles = list_rows link (user_role_le db.collate) db.user_roles

  -- `CreateUserRole`
  unfoldable pub create_user_role : ℕ → ℕ → String → String → String → Result UserRoleRow × Database
  create_user_role id now sub role created_by =
      let row : UserRoleRow = record {
        id = id;
        user_sub = sub;
        role_name = role;
        created_by = created_by;
        created_at = now;
      } in
      elim (do _ ← link; insert_row (has_user_role sub role) row db.user_roles) [
        | err e ↦ (err e, db)
        | ok rows ↦ (ok row, record db { user_roles = rows })
      ]

  -- `DeleteUserRole`
  unfoldable pub delete_user_role : ℕ → Result (Option UserRoleRow) × Database
  delete_user_role id =
      let (answer, rows) = delete_returning link (λ r. eqb r.id id) db.user_roles in
      (answer, record db { user_roles = rows })

  -- `LoadRolesForUser`
  unfoldable pub load_roles_for_user : String → Result (List String)
  load_roles_for_user sub = do
    _ ← link
    ok (map (λ r. r.role_name) (select (λ r. r.user_sub == sub) db.user_roles))
