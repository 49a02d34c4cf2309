-- ===== src/Db/Grants.antt =====
-- internal/db/queries.go: the resource permissions and the status overrides of services. `id` and
-- `now` are what the database gives a new row.
pub mod Laws
use fusion_bff.Base.{
  ℕ, String, Bool, not, ◌&&◌, ◌||◌, Option, List, [], ◌∷◌, ◌==◌, if◌then◌else◌, eqb, contains,
  string_eq, Result, ok, err, ◌>>=◌, is_some,
}
use fusion_bff.Db.{ResourcePermRow}
use fusion_bff.Db.Tables.{
  ServiceStatusRow, Database, insert_row, delete_returning, list_rows, le_columns, select,
  check_violation, checked,
}

abbrev perm_columns : ResourcePermRow → List String
perm_columns r = r.resource_type ∷ r.resource_id ∷ r.subject_type ∷ r.subject ∷ []

-- `UNIQUE (subject_type, subject, permission, resource_type, resource_id)`
abbrev pub same_grant : ResourcePermRow → ResourcePermRow → Bool
same_grant row r =
    r.subject_type == row.subject_type
    && r.subject == row.subject
    && r.permission == row.permission
    && r.resource_type == row.resource_type
    && r.resource_id == row.resource_id

abbrev pub subject_types : List String
subject_types = "user" ∷ "group" ∷ "role" ∷ []

abbrev pub statuses : List String
statuses = "Healthy" ∷ "Unhealthy" ∷ "Offline" ∷ "Maintenance" ∷ []

-- The condition of `LoadResourcePermsForUser`.
unfoldable pub applies_to : String → List String → List String → ResourcePermRow → Bool
applies_to sub groups roles r =
    (r.subject_type == "user" && r.subject == sub)
    || (r.subject_type == "group" && contains groups r.subject)
    || (r.subject_type == "role" && contains roles r.subject)

-- `ON CONFLICT (service) DO UPDATE`: the row keeps its id.
unfoldable pub upsert_status :
    ServiceStatusRow → List ServiceStatusRow → ServiceStatusRow × List ServiceStatusRow
upsert_status row [] = (row, row ∷ [])
upsert_status row (r ∷ rows) =
    let rest = upsert_status row rows in
    if r.service == row.service
    then (record row { id = r.id }, record row { id = r.id } ∷ rows)
    else (rest.0, r ∷ rest.1)

module _ (link : Result (Unit {0})) (db : Database) where
  -- `ListResourcePerms`
  unfoldable pub list_resource_perms : Result (List ResourcePermRow)
  list_resource_perms =
      list_rows link (λ a b. le_columns db.collate (perm_columns a) (perm_columns b))
        db.resource_perms

  -- `CreateResourcePerm`; the columns stand in the row.
  unfoldable pub create_resource_perm : ResourcePermRow → Result ResourcePermRow × Database
  create_resource_perm row =
      elim (do
        _ ← link
        _ ← checked (contains subject_types row.subject_type)
        insert_row (same_grant row) row db.resource_perms) [
          | err e ↦ (err e, db)
          | ok rows ↦ (ok row, record db { resource_perms = rows })
        ]

  -- `DeleteResourcePerm`
  unfoldable pub delete_resource_perm : ℕ → Result (Option ResourcePermRow) × Database
  delete_resource_perm id =
      let (answer, rows) = delete_returning link (λ r. eqb r.id id) db.resource_perms in
      (answer, record db { resource_perms = rows })

  -- `LoadResourcePermsForUser`
  unfoldable pub load_resource_perms_for_user :
      String → List String → List String → Result (List ResourcePermRow)
  load_resource_perms_for_user sub groups roles = do
    _ ← link
    ok (select (applies_to sub groups roles) db.resource_perms)

  -- `ListServiceStatuses`
  unfoldable pub list_service_statuses : Result (List ServiceStatusRow)
  list_service_statuses =
      list_rows link (λ a b. le_columns db.collate (a.service ∷ []) (b.service ∷ []))
        db.service_statuses

  -- `UpsertServiceStatus`
  unfoldable pub upsert_service_status :
      ℕ → ℕ → String → String → String → String → Result ServiceStatusRow × Database
  upsert_service_status id now service status description updated_by = elim link [
    | err e ↦ (err e, db)
    | ok _ ↦
        if not (contains statuses status)
        then (err check_violation, db)
        else (let (row, rows) =
              upsert_status
                (record {
                  id = id;
                  service = service;
                  status = status;
                  description = description;
                  updated_by = updated_by;
                  updated_at = now;
                })
                db.service_statuses in
            (ok row, record db { service_statuses = rows }))
  ]

  -- `DeleteServiceStatus`
  unfoldable pub delete_service_status : String → Result Bool × Database
  delete_service_status service =
      let (answer, rows) = delete_returning link (λ r. r.service == service) db.service_statuses in
      (do row ← answer; ok (is_some row), record db { service_statuses = rows })
