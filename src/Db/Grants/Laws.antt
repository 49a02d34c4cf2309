-- ===== src/Db/Grants/Laws.antt =====
-- The status override of a service after `UpsertServiceStatus`.
use fusion_bff.Base.{
  String, some, List, [], ◌∷◌, ◌==◌, eq_iff, if◌then◌else◌, ◌≡◌, refl, arith, Bool-cases, inl, inr,
}
use fusion_bff.Db.Tables.{ServiceStatusRow, find_row}
use fusion_bff.Db.Grants.{upsert_status}

-- The returned row is the given one, but for its id.
upsert_status-row :
    (row : ServiceStatusRow) (rows : List ServiceStatusRow)
    → record (upsert_status row rows).0 { id = row.id } ≡ row
unfolding upsert_status
upsert_status-row row [] = refl
upsert_status-row row (r ∷ rows) = elim (Bool-cases (r.service == row.service)) [
  | inl same ↦ rw (same, upsert_status) refl
  | inr other ↦ rw (other, upsert_status) (upsert_status-row row rows)
]

find_row-upsert :
    (row : ServiceStatusRow) (rows : List ServiceStatusRow) (name : String)
    → find_row (λ r. r.service == name) (upsert_status row rows).1 ≡ (
        if row.service == name
        then some (upsert_status row rows).0
        else find_row (λ r. r.service == name) rows)
unfolding upsert_status find_row
find_row-upsert row [] name = refl
find_row-upsert row (r ∷ rows) name = ground (
  arith,
  eq_iff r.service row.service,
  eq_iff r.service name,
  eq_iff row.service name,
  find_row-upsert row rows name,
)

-- After an upsert the service of the given row has the row that the statement returns, every other
-- service has the override that it had, and the returned row is the given one but for its id.
pub find_row-upsert_status :
    (row : ServiceStatusRow) (rows : List ServiceStatusRow)
    → ((name : String)
        → find_row (λ r. r.service == name) (upsert_status row rows).1 ≡ (
            if row.service == name
            then some (upsert_status row rows).0
            else find_row (λ r. r.service == name) rows))
      × (record (upsert_status row rows).0 { id = row.id } ≡ row)
find_row-upsert_status row rows = (find_row-upsert row rows, upsert_status-row row rows)
