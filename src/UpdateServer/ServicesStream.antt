-- ===== src/UpdateServer/ServicesStream.antt =====
-- `RegisterManifest` and `ServicesStream`: an agent's reports go into the table of tracked services.
use mahogany.Base.{ℕ, String, true, Option, none, some, List, [], ◌∷◌, Result, ok, err, string_eq}
use mahogany.Base.Dict.{Dict, lookup, insert}
use mahogany.Schema.{
  Service, docker_service, systemd_service, unset, ServiceStatus, ServicesStreamRequest,
  RegisterManifestResponse,
}
use mahogany.Database.{Database, Query}
use mahogany.Database.Devices.{get_device}
use mahogany.Database.Services.{
  AddTrackedServiceParams, UpdateTrackedServiceParams, add_tracked_service, update_tracked_service,
  get_tracked_service_id, list_watched_services,
}

-- `RegisterManifest`
unfoldable pub register_manifest : Database → RegisterManifestResponse × Database
register_manifest db =
    let (services, db') = list_watched_services db in
    (
      record {
        subscribe_to_docker = true;
        subscribe_to_systemd = true;
        subscribe_to_services = elim services [ ok names ↦ names | err e ↦ [] ];
      },
      db',
    )

-- The status that goes into the table; a report with neither kind of service has the empty one.
abbrev pub status_of : Service → String
status_of (docker_service s) = s.status
status_of (systemd_service s) = s.active_state
status_of unset = ""

abbrev container_id_of : Service → Option String
container_id_of (docker_service s) = some s.id
container_id_of (systemd_service s) = none
container_id_of unset = none

abbrev container_image_of : Service → Option String
container_image_of (docker_service s) = some s.image
container_image_of (systemd_service s) = none
container_image_of unset = none

-- The arguments of the two statements.
abbrev pub row_of : ℕ → ℕ → ServiceStatus → AddTrackedServiceParams
row_of now device svc = record {
  device_id = device;
  name = svc.name;
  status = status_of svc.service;
  last_updated = now;
  container_id = container_id_of svc.service;
  container_image = container_image_of svc.service;
}

abbrev pub update_of : ℕ → ℕ → ServiceStatus → UpdateTrackedServiceParams
update_of now id svc = record { status = status_of svc.service; last_updated = now; id = id }

-- `addTrackedService`, at the time `now`
unfoldable insert_tracked : ℕ → ℕ → ServiceStatus → Query ℕ
insert_tracked now device svc db =
    let (row, db') = add_tracked_service (row_of now device svc) db in
    (elim row [ ok t ↦ ok t.id | err e ↦ err e ], db')

-- `updateTrackedService`
unfoldable refresh_tracked : ℕ → ℕ → ServiceStatus → Query (Unit {0})
refresh_tracked now id svc = update_tracked_service (update_of now id svc)

-- The variables of the handler: `deviceID`, where none is -1, and `trackedServices`.
pub record Stream : Type 0 where
  pub device_id : Option ℕ
  pub tracked : Dict String ℕ
  pub database : Database

-- The body of the inner loop once the device is known.
unfoldable pub report_service : ℕ → ℕ → ServiceStatus → Stream → Stream
unfolding insert_tracked refresh_tracked
report_service now device svc s = elim (lookup svc.name s.tracked) [
  | some id ↦ record s { database = (refresh_tracked now id svc s.database).1 }
  | none ↦
      let (found, db) = get_tracked_service_id svc.name device s.database in
      elim found [
        | ok id ↦ record s { tracked = insert svc.name id s.tracked; database = db }
        | err _ ↦
            let (added, db') = insert_tracked now device svc db in
            elim added [
              | ok id ↦ record s { tracked = insert svc.name id s.tracked; database = db' }
              | err _ ↦ record s { database = db' }
            ]
      ]
]

-- `getDeviceID`
unfoldable pub find_device : String → Query ℕ
find_device hostname db =
    let (device, db') = get_device hostname db in
    (elim device [ ok d ↦ ok d.id | err e ↦ err e ], db')

-- The inner loop. The device is looked up once; where that fails the rest of the message is dropped.
unfoldable pub report_services : ℕ → String → List ServiceStatus → Stream → Stream
unfolding report_service find_device
report_services now hostname [] s = s
report_services now hostname (svc ∷ more) s = elim s.device_id [
  | some device ↦ report_services now hostname more (report_service now device svc s)
  | none ↦
      let (device, db) = find_device hostname s.database in
      elim device [
        | err _ ↦ record s { database = db }
        | ok id ↦
            report_services now hostname more
              (report_service now id svc (record s { device_id = some id; database = db }))
      ]
]

-- The messages of the stream with the times at which they are handled, until the first that cannot
-- be received.
unfoldable pub receive_reports : List (ℕ × Result ServicesStreamRequest) → Stream → Stream
unfolding report_services
receive_reports [] s = s
receive_reports ((now, err _) ∷ more) s = s
receive_reports ((now, ok msg) ∷ more) s =
    receive_reports more (report_services now msg.hostname msg.services s)

-- `ServicesStream`, by the tables that it leaves.
unfoldable pub services_stream : List (ℕ × Result ServicesStreamRequest) → Database → Database
unfolding receive_reports
services_stream messages db =
    (receive_reports messages (record { device_id = none; tracked = []; database = db })).database
