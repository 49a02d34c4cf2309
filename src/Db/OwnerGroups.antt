-- ===== src/Db/OwnerGroups.antt =====
-- internal/db/owner_groups.go: the owner groups, their OIDC mappings and members, and the users'
-- preferences. `id` and `now` are what the database gives a new row.
pub mod Laws
pub mod Consistent
pub mod Statements
use fusion_bff.Base.{
  ℕ, String, Bool, true, false, not, ◌&&◌, ◌||◌, Option, none, some, List, [], ◌∷◌, ◌++◌, map, ◌==◌,
  if◌then◌else◌, eqb, contains, string_eq, is_empty, Dict, lookup, insert, delete, Result, ok, err,
  ◌>>=◌, is_some, add_all,
}
use fusion_bff.Db.Tables.{
  OwnerGroupRow, OwnerGroupMappingRow, OwnerGroupMemberRow, Database, insert_row, delete_returning,
  scan_row, list_rows, le_columns, order_by, select, find_row, drop_rows, foreign_key_violation,
  checked,
}

-- `MatchTypeEmail` and `MatchTypeUserID`
abbrev pub match_type_email : String
match_type_email = "email"

abbrev pub match_type_user_id : String
match_type_user_id = "user_id"

-- `REFERENCES owner_groups(name)`
unfoldable pub references : String → List OwnerGroupRow → Result (Unit {0})
references name groups =
    if is_some (find_row (λ g. g.name == name) groups) then ok tt else err foreign_key_violation

-- The condition of `LoadOwnerGroupsForUser` on a member.
unfoldable pub is_member : (String → String) → String → String → OwnerGroupMemberRow → Bool
is_member lower user_id email r =
    (r.match_type == "email" && not (is_empty email) && r.match_value == lower email)
    || (r.match_type == "user_id" && not (is_empty user_id) && r.match_value == user_id)

-- `ON DELETE CASCADE`, for the rows of the deleted group.
unfoldable pub cascade : Option OwnerGroupRow → Database → Database
cascade none db = db
cascade (some g) db = record db {
  mappings = drop_rows (λ r. r.owner_group == g.name) db.mappings;
  members = drop_rows (λ r. r.owner_group == g.name) db.members;
}

module _ (link : Result (Unit {0})) (db : Database) where
  -- `ListOwnerGroups`
  unfoldable pub list_owner_groups : Result (List OwnerGroupRow)
  list_owner_groups =
      list_rows link (λ a b. le_columns db.collate (a.name ∷ []) (b.name ∷ [])) db.owner_groups

  -- `CreateOwnerGroup`
  unfoldable pub create_owner_group :
      ℕ → ℕ → String → String → String → Result OwnerGroupRow × Database
  create_owner_group id now name description created_by =
      let row : OwnerGroupRow = record {
        id = id;
        name = name;
        description = description;
        created_by = created_by;
        created_at = now;
      } in
      elim (do _ ← link; insert_row (λ g. g.name == name) row db.owner_groups) [
        | err e ↦ (err e, db)
        | ok rows ↦ (ok row, record db { owner_groups = rows })
      ]

  -- `DeleteOwnerGroup`
  unfoldable pub delete_owner_group : ℕ → Result (Option OwnerGroupRow) × Database
  delete_owner_group id = elim link [
    | err e ↦ (err e, db)
    | ok _ ↦
        let found = find_row (λ g. eqb g.id id) db.owner_groups in
        (
          ok found,
          cascade found (record db { owner_groups = drop_rows (λ g. eqb g.id id) db.owner_groups }),
        )
  ]

  -- `GetOwnerGroup`
  unfoldable pub get_owner_group : ℕ → Result (Option OwnerGroupRow)
  get_owner_group id = scan_row link (λ g. eqb g.id id) db.owner_groups

  -- `EnsureOwnerGroup`
  unfoldable pub ensure_owner_group : ℕ → ℕ → String → String → Result (Unit {0}) × Database
  ensure_owner_group id now name description = elim link [
    | err e ↦ (err e, db)
    | ok _ ↦ elim (find_row (λ g. g.name == name) db.owner_groups) [
      | some _ ↦ (ok tt, db)
      | none ↦ (
        ok tt,
        record db {
          owner_groups =
              record {
                id = id;
                name = name;
                description = description;
                created_by = "system";
                created_at = now;
              }
              ∷ db.owner_groups;
        },
      )
    ]
  ]

  -- `ListOwnerGroupMappings`
  unfoldable pub list_owner_group_mappings : Result (List OwnerGroupMappingRow)
  list_owner_group_mappings =
      list_rows link
        (λ a b.
          le_columns db.collate (a.owner_group ∷ a.oidc_group ∷ [])
            (b.owner_group ∷ b.oidc_group ∷ []))
        db.mappings

  -- `CreateOwnerGroupMapping`
  unfoldable pub create_owner_group_mapping :
      ℕ → ℕ → String → String → String → Result OwnerGroupMappingRow × Database
  create_owner_group_mapping id now owner_group oidc_group created_by =
      let row : OwnerGroupMappingRow = record {
        id = id;
        owner_group = owner_group;
        oidc_group = oidc_group;
        created_by = created_by;
        created_at = now;
      } in
      elim (do
        _ ← link
        rows ←
            insert_row (λ r. r.owner_group == owner_group && r.oidc_group == oidc_group) row
              db.mappings
        _ ← references owner_group db.owner_groups
        ok rows) [ err e ↦ (err e, db) | ok rows ↦ (ok row, record db { mappings = rows }) ]

  -- `DeleteOwnerGroupMapping`
  unfoldable pub delete_owner_group_mapping : ℕ → Result (Option OwnerGroupMappingRow) × Database
  delete_owner_group_mapping id =
      let (answer, rows) = delete_returning link (λ r. eqb r.id id) db.mappings in
      (answer, record db { mappings = rows })

  -- `ListOwnerGroupMembers`
  unfoldable pub list_owner_group_members : Result (List OwnerGroupMemberRow)
  list_owner_group_members =
      list_rows link
        (λ a b.
          le_columns db.collate (a.owner_group ∷ a.match_type ∷ a.match_value ∷ [])
            (b.owner_group ∷ b.match_type ∷ b.match_value ∷ []))
        db.members

  -- `CreateOwnerGroupMember`
  unfoldable pub create_owner_group_member :
      ℕ → ℕ → String → String → String → String → Result OwnerGroupMemberRow × Database
  create_owner_group_member id now owner_group match_type match_value created_by =
      let row : OwnerGroupMemberRow = record {
        id = id;
        owner_group = owner_group;
        match_type = match_type;
        match_value = match_value;
        created_by = created_by;
        created_at = now;
      } in
      elim (do
        _ ← link
        _ ← checked (match_type == match_type_email || match_type == match_type_user_id)
        rows ←
            insert_row
              (λ r.
                r.owner_group == owner_group
                && r.match_type == match_type
                && r.match_value == match_value)
              row db.members
        _ ← references owner_group db.owner_groups
        ok rows) [ err e ↦ (err e, db) | ok rows ↦ (ok row, record db { members = rows }) ]

  -- `DeleteOwnerGroupMember`
  unfoldable pub delete_owner_group_member : ℕ → Result (Option OwnerGroupMemberRow) × Database
  delete_owner_group_member id =
      let (answer, rows) = delete_returning link (λ r. eqb r.id id) db.members in
      (answer, record db { members = rows })

  -- `LoadOwnerGroupsForUser`, over the function `lower` of SQL.
  unfoldable pub load_owner_groups_for_user :
      (String → String) → String → String → List String → Result (List String)
  load_owner_groups_for_user lower user_id email oidc_groups = do
    _ ← link
    ok (
        order_by db.collate (
          add_all [] (
            map (λ r. r.owner_group) (select (λ r. contains oidc_groups r.oidc_group) db.mappings)
            ++ map (λ r. r.owner_group) (select (is_member lower user_id email) db.members))))

  -- `GetPreferredOwnerGroup`
  unfoldable pub get_preferred_owner_group : String → Result String
  get_preferred_owner_group user_id = do
    _ ← link
    elim (lookup user_id db.preferences) [ none ↦ ok "" | some name ↦ ok name ]

  -- `UpsertPreferredOwnerGroup`
  unfoldable pub upsert_preferred_owner_group : String → String → Result (Unit {0}) × Database
  upsert_preferred_owner_group user_id owner_group = elim link [
    | err e ↦ (err e, db)
    | ok _ ↦ (ok tt, record db { preferences = insert user_id owner_group db.preferences })
  ]

  -- `DeletePreferredOwnerGroup`
  unfoldable pub delete_preferred_owner_group : String → Result (Unit {0}) × Database
  delete_preferred_owner_group user_id = elim link [
    | err e ↦ (err e, db)
    | ok _ ↦ (ok tt, record db { preferences = delete user_id db.preferences })
  ]
