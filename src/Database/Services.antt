-- ===== src/Database/Services.antt =====
-- The statements on `watched_services` and `tracked_services` in internal/db/queries.sql.go.
use mahogany.Base.{
  ℕ, String, Bool, Option, none, some, List, [], ◌∷◌, ◌++◌, map, not, ◌&&◌, Result, ok, err, any,
  keep, find_first, sort_by, ◌==◌, string_eq, number_eq, if◌then◌else◌,
}
use mahogany.Database.{
  WatchedService, TrackedService, Query, run, no_rows, not_unique, fresh_id, text_le,
}

-- `SELECT name FROM watched_services ORDER BY name`
unfoldable pub list_watched_services : Query (List String)
unfolding run
list_watched_services =
    run λ db. (ok (sort_by text_le (map (λ (w : WatchedService). w.name) db.watched_services)), db)

-- `SELECT … FROM tracked_services ORDER BY (device_id, name)`: what the engine makes of the row value
-- by which the rows are to be ordered is a parameter.
unfoldable list_tracked_services :
    (List TrackedService → Result (List TrackedService)) → Query (List TrackedService)
unfolding run
list_tracked_services order_by_row_value = run λ db. (order_by_row_value db.tracked_services, db)

abbrev pub new_watched : String → List WatchedService → WatchedService
new_watched name rows = record {
  id = fresh_id (map (λ (w : WatchedService). w.id) rows);
  name = name;
}

-- `INSERT INTO watched_services (name) VALUES (?)`
unfoldable pub add_watched_service : String → Query (Unit {0})
unfolding run
add_watched_service name = run λ db.
    if any (λ w. w.name == name) db.watched_services then (err not_unique, db) else (
      ok tt,
      record db {
        watched_services = db.watched_services ++ (new_watched name db.watched_services ∷ []);
      },
    )

-- `DELETE FROM watched_services WHERE name = ?`
unfoldable pub delete_watched_service : String → Query (Unit {0})
unfolding run
delete_watched_service name = run λ db.
    (ok tt, record db { watched_services = keep (λ w. not (w.name == name)) db.watched_services })

-- A row is found by its device and its name, which are UNIQUE together.
abbrev pub is_service : ℕ → String → TrackedService → Bool
is_service device name t = t.device_id == device && t.name == name

-- `SELECT id FROM tracked_services WHERE name=? and device_id=?`
unfoldable pub get_tracked_service_id : String → ℕ → Query ℕ
unfolding run
get_tracked_service_id name device = run λ db.
    elim (find_first (is_service device name) db.tracked_services) [
      | none ↦ (err no_rows, db)
      | some t ↦ (ok t.id, db)
    ]

pub record AddTrackedServiceParams : Type 0 where
  pub device_id : ℕ
  pub name : String
  pub status : String
  pub last_updated : ℕ
  pub container_id : Option String
  pub container_image : Option String

abbrev pub new_tracked : AddTrackedServiceParams → List TrackedService → TrackedService
new_tracked arg rows = record {
  id = fresh_id (map (λ (t : TrackedService). t.id) rows);
  device_id = arg.device_id;
  name = arg.name;
  status = arg.status;
  last_updated = arg.last_updated;
  container_id = arg.container_id;
  container_image = arg.container_image;
}

-- `INSERT INTO tracked_services (device_id, name, status, last_updated, container_id,
-- container_image) VALUES (?, ?, ?, ?, ?, ?) RETURNING *`
unfoldable pub add_tracked_service : AddTrackedServiceParams → Query TrackedService
unfolding run
add_tracked_service arg = run λ db.
    if any (is_service arg.device_id arg.name) db.tracked_services then (err not_unique, db) else (
      ok (new_tracked arg db.tracked_services),
      record db {
        tracked_services = db.tracked_services ++ (new_tracked arg db.tracked_services ∷ []);
      },
    )

pub record UpdateTrackedServiceParams : Type 0 where
  pub status : String
  pub last_updated : ℕ
  pub id : ℕ

abbrev pub refresh : UpdateTrackedServiceParams → TrackedService → TrackedService
refresh arg t =
    if t.id == arg.id then record t { status = arg.status; last_updated = arg.last_updated } else t

-- `UPDATE tracked_services set status = ?, last_updated = ? WHERE id = ?`
unfoldable pub update_tracked_service : UpdateTrackedServiceParams → Query (Unit {0})
unfolding run
update_tracked_service arg =
    run λ db. (ok tt, record db { tracked_services = map (refresh arg) db.tracked_services })

-- `DELETE FROM tracked_services WHERE id = ?`
unfoldable delete_tracked_service : ℕ → Query (Unit {0})
unfolding run
delete_tracked_service id =
    run λ db.
      (ok tt, record db { tracked_services = keep (λ t. not (t.id == id)) db.tracked_services })
