-- ===== src/Handler/SystemHealth.antt =====
-- internal/api/handler/system_health.go: the status of the services. What the HTTP client answers to
-- a probe is a parameter: an error, or a status code and the milliseconds it took.
use fusion_bff.Base.{
  ℕ, String, Bool, false, not, Option, none, some, List, [], ◌∷◌, ◌++◌, map, ◌==◌, ltb,
  if◌then◌else◌, contains, string_eq, Result, ok, err,
}
use fusion_bff.Db.Tables.{Database, ServiceStatusRow, find_row}
use fusion_bff.Db.Grants.{list_service_statuses, upsert_service_status, delete_service_status}
use fusion_bff.Handler.{Reply, abort, json, status, internal_error}
use fusion_bff.Handler.Admin.{respond_list}

-- `validServiceStatuses`
abbrev pub valid_service_statuses : List String
valid_service_statuses = "Healthy" ∷ "Unhealthy" ∷ "Offline" ∷ "Maintenance" ∷ []

-- `validServices`
abbrev pub valid_services : List String
valid_services = "forge" ∷ "index" ∷ "weave" ∷ "wizard" ∷ "spectra" ∷ "content" ∷ []

-- `liveResult`; `none` for a field that is left out.
pub record LiveResult : Type 0 where
  pub reachable : Bool
  pub status_code : Option ℕ
  pub latency_ms : Option ℕ
  pub error : String

-- `serviceStatus`
pub record ServiceStatus : Type 0 where
  pub name : String
  pub live : Option LiveResult
  pub override : Option ServiceStatusRow

-- `probe`
unfoldable pub probe : Result (ℕ × ℕ) → LiveResult
probe (err _) = record {
  reachable = false;
  status_code = none;
  latency_ms = none;
  error = "probe failed";
}
probe (ok (code, latency_ms)) = record {
  reachable = ltb code 500;
  status_code = some code;
  latency_ms = some latency_ms;
  error = "";
}

-- The override of a service: `overrideMap[name]`.
unfoldable pub override_of : List ServiceStatusRow → String → Option ServiceStatusRow
override_of rows name = find_row (λ r. r.service == name) rows

-- The rows of `Status`: the probed services, and spectra, which is not probed.
unfoldable pub service_rows : (String → Result (ℕ × ℕ)) → List ServiceStatusRow → List ServiceStatus
service_rows answer rows =
    map
      (λ name. record {
        name = name;
        live = some (probe (answer name));
        override = override_of rows name;
      })
      ("forge" ∷ "index" ∷ "weave" ∷ "wizard" ∷ "content" ∷ [])
    ++ (record { name = "spectra"; live = none; override = override_of rows "spectra" } ∷ [])

-- The pool is nil where no database is configured.
module _ (pool : Bool) (link : Result (Unit {0})) (db : Database) where
  -- `Status`
  unfoldable pub get_system_health : (String → Result (ℕ × ℕ)) → Reply (List ServiceStatus)
  get_system_health answer =
      if pool
      then elim (list_service_statuses link db) [
        | err _ ↦ internal_error
        | ok rows ↦ json 200 (service_rows answer rows)
      ]
      else json 200 (service_rows answer [])

  -- `ListOverrides`
  unfoldable pub list_overrides : Reply (List ServiceStatusRow)
  list_overrides =
      if pool
      then respond_list (list_service_statuses link db)
      else abort 503 "database not configured"

  abbrev reply_row : Result ServiceStatusRow → Reply ServiceStatusRow
  reply_row (err _) = internal_error
  reply_row (ok row) = json 200 row

  -- `UpsertOverride`; the body has a status and a description, or cannot be bound.
  unfoldable pub upsert_override :
      ℕ → ℕ → String → String → Result (String × String) → Reply ServiceStatusRow × Database
  upsert_override id now sub service body =
      if not pool
      then (abort 503 "database not configured", db)
      else if not (contains valid_services service)
      then (abort 400 "unknown service", db)
      else elim body [
        | err _ ↦ (abort 400 "status is required", db)
        | ok (value, description) ↦
            let (answer, db') =
              upsert_service_status link db id now service value description sub in
            if not (contains valid_service_statuses value)
            then (abort 400 "status must be Healthy, Unhealthy, Offline, or Maintenance", db)
            else (reply_row answer, db')
      ]

  abbrev reply_found : Result Bool → Reply ServiceStatusRow
  reply_found (err _) = internal_error
  reply_found (ok found) = if found then status 204 else abort 404 "not found"

  -- `DeleteOverride`
  unfoldable pub delete_override : String → Reply ServiceStatusRow × Database
  delete_override service =
      let (answer, db') = delete_service_status link db service in
      if not pool
      then (abort 503 "database not configured", db)
      else if not (contains valid_services service)
      then (abort 400 "unknown service", db)
      else (reply_found answer, db')
