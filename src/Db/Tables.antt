-- ===== src/Db/Tables.antt =====
-- internal/db: the tables of the schema, and the statements on one table: insert, select by id and
-- delete by id. `link` is nil, or the error of the connection, which comes before any change.
use fusion_bff.Base.{
  ℕ, String, Bool, true, false, Option, none, some, List, [], ◌∷◌, ◌==◌, if◌then◌else◌, Dict,
  Result, ok, err, Error, pg, ◌>>=◌,
}
use fusion_bff.Db.{ResourcePermRow}

-- `GroupRoleRow`
pub record GroupRoleRow : Type 0 where
  pub id : ℕ
  pub group_name : String
  pub role_name : String
  pub created_by : String
  pub created_at : ℕ

-- `UserRoleRow`
pub record UserRoleRow : Type 0 where
  pub id : ℕ
  pub user_sub : String
  pub role_name : String
  pub created_by : String
  pub created_at : ℕ

-- `ServiceStatusRow`
pub record ServiceStatusRow : Type 0 where
  pub id : ℕ
  pub service : String
  pub status : String
  pub description : String
  pub updated_by : String
  pub updated_at : ℕ

-- `OwnerGroupRow`
pub record OwnerGroupRow : Type 0 where
  pub id : ℕ
  pub name : String
  pub description : String
  pub created_by : String
  pub created_at : ℕ

-- `OwnerGroupMappingRow`
pub record OwnerGroupMappingRow : Type 0 where
  pub id : ℕ
  pub owner_group : String
  pub oidc_group : String
  pub created_by : String
  pub created_at : ℕ

-- `OwnerGroupMemberRow`
pub record OwnerGroupMemberRow : Type 0 where
  pub id : ℕ
  pub owner_group : String
  pub match_type : String
  pub match_value : String
  pub created_by : String
  pub created_at : ℕ

-- The tables of `schema`, and the collation of the database, which orders texts; the repository does
-- not choose one. The rows of a table stand in no order that counts.
pub record Database : Type 0 where
  pub group_roles : List GroupRoleRow
  pub user_roles : List UserRoleRow
  pub resource_perms : List ResourcePermRow
  pub service_statuses : List ServiceStatusRow
  pub owner_groups : List OwnerGroupRow
  pub mappings : List OwnerGroupMappingRow
  pub members : List OwnerGroupMemberRow
  pub preferences : Dict String
  pub collate : String → String → Bool

-- SQLSTATE 23505, 23503 and 23514.
abbrev pub unique_violation : Error
unique_violation = pg "23505"

abbrev pub foreign_key_violation : Error
foreign_key_violation = pg "23503"

abbrev pub check_violation : Error
check_violation = pg "23514"

-- A `CHECK` constraint.
abbrev pub checked : Bool → Result (Unit {0})
checked true = ok tt
checked false = err check_violation

module _ {Row : Type 0} where
  -- The first row that passes the test.
  unfoldable pub find_row : (Row → Bool) → List Row → Option Row
  find_row p [] = none
  find_row p (r ∷ rows) = if p r then some r else find_row p rows

  -- `DELETE … WHERE`: the rows that do not pass the test.
  unfoldable pub drop_rows : (Row → Bool) → List Row → List Row
  drop_rows p [] = []
  drop_rows p (r ∷ rows) = if p r then drop_rows p rows else r ∷ drop_rows p rows

  -- `SELECT … WHERE`
  unfoldable pub select : (Row → Bool) → List Row → List Row
  select p [] = []
  select p (r ∷ rows) = if p r then r ∷ select p rows else select p rows

  -- `INSERT` into a table with a `UNIQUE` constraint, where `clashes` tells the rows with the key.
  unfoldable pub insert_row : (Row → Bool) → Row → List Row → Result (List Row)
  insert_row clashes row rows = elim (find_row clashes rows) [
    | some _ ↦ err unique_violation
    | none ↦ ok (row ∷ rows)
  ]

  -- The row that a statement with `RETURNING` or a `SELECT` by id scans: `found` is false where
  -- there is none.
  unfoldable pub scan_row : Result (Unit {0}) → (Row → Bool) → List Row → Result (Option Row)
  scan_row (err e) p rows = err e
  scan_row (ok _) p rows = ok (find_row p rows)

  -- `deleteReturning`: the deleted row, if there is one, and the table after it.
  unfoldable pub delete_returning :
      Result (Unit {0}) → (Row → Bool) → List Row → Result (Option Row) × List Row
  delete_returning (err e) p rows = (err e, rows)
  delete_returning (ok _) p rows = (ok (find_row p rows), drop_rows p rows)

  unfoldable pub insert_by : (Row → Row → Bool) → Row → List Row → List Row
  insert_by le r [] = r ∷ []
  insert_by le r (x ∷ xs) = if le r x then r ∷ x ∷ xs else x ∷ insert_by le r xs

  -- `ORDER BY`
  unfoldable pub order_by : (Row → Row → Bool) → List Row → List Row
  unfolding insert_by
  order_by le [] = []
  order_by le (r ∷ rows) = insert_by le r (order_by le rows)

  -- `listRows`, and the other queries without a condition.
  unfoldable pub list_rows : Result (Unit {0}) → (Row → Row → Bool) → List Row → Result (List Row)
  list_rows link le rows = do _ ← link; ok (order_by le rows)

-- The order of rows by several text columns, the first one first.
unfoldable pub le_columns : (String → String → Bool) → List String → List String → Bool
le_columns collate [] bs = true
le_columns collate (a ∷ as') [] = false
le_columns collate (a ∷ as') (b ∷ bs) = if a == b then le_columns collate as' bs else collate a b
