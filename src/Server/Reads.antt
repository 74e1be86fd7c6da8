-- ===== src/Server/Reads.antt =====
-- What the requests that only look leave as it was.
use mahogany.Base.{
  String, ◌≡◌, refl, ap, ◌∙◌, Result-cases, inl, inr, Option, List, [], ◌∷◌, arith, Error,
}
use mahogany.Database.{Device as TableDevice, Database, run}
use mahogany.Database.Devices.{count_devices, add_device}
use mahogany.Database.Packages.{list_packages}
use mahogany.Database.Settings.{get_setting}
use mahogany.Database.Services.{list_watched_services}
use mahogany.Sources.Docker.{Docker}
use mahogany.Sources.Vpn
use mahogany.Sources.Vpn.{Device}
use mahogany.Views.ControlPlane.{get_control_plane}
use mahogany.Views.{World, ViewFinder, get_status}
use mahogany.Views.Settings.{read_setting, get_settings}
use mahogany.Views.Index.{get_index}
use mahogany.Views.Images.{get_registry}
use mahogany.Views.Devices.{sync_devices, get_devices, get_device_view}
use mahogany.Views.Packages.{get_packages}

-- The second tables differ from the first at most in the devices, and in the faults that are used up.
pub record SameTables (before after : Database) : Type 0 where
  pub same : after ≡ record before { devices = after.devices; faults = after.faults }

-- The clients and the transactions are the same, and so are the tables.
pub record SameFinder (before after : ViewFinder) : Type 0 where
  pub clients : after ≡ record before { database = after.database }
  pub tables : SameTables before.database after.database

abbrev the_tables : Database → List TableDevice → List (Option Error) → Database
the_tables db devices faults = record db { devices = devices; faults = faults }

abbrev over : Database → ViewFinder → ViewFinder
over db v = record v { database = db }

SameTables-refl : (db : Database) → SameTables db db
SameTables-refl db = record { same = refl }

SameTables-trans : {a b c : Database} → SameTables a b → SameTables b c → SameTables a c
SameTables-trans {c = c} h k = record {
  same = k.same ∙ ap (λ (x : Database). the_tables x c.devices c.faults) h.same;
}

SameFinder-trans : {a b c : ViewFinder} → SameFinder a b → SameFinder b c → SameFinder a c
SameFinder-trans {c = c} h k = record {
  clients = k.clients ∙ ap (λ (x : ViewFinder). over c.database x) h.clients;
  tables = SameTables-trans h.tables k.tables;
}

pub SameFinder-refl : (v : ViewFinder) → SameFinder v v
SameFinder-refl v = record { clients = refl; tables = SameTables-refl v.database }

with_tables :
    (v : ViewFinder) (db : Database)
    → SameTables v.database db
    → SameFinder v (record v { database = db })
with_tables v db h = record { clients = refl; tables = h }

count_devices-SameTables : (db : Database) → SameTables db (count_devices db).1
unfolding count_devices run
count_devices-SameTables db = record { same = ground arith }

read_setting-SameTables : (name : String) (db : Database) → SameTables db (read_setting name db).1
unfolding read_setting get_setting run
read_setting-SameTables name db = record { same = ground arith }

list_watched_services-SameTables : (db : Database) → SameTables db (list_watched_services db).1
unfolding list_watched_services run
list_watched_services-SameTables db = record { same = ground arith }

list_packages-SameTables : (db : Database) → SameTables db (list_packages db).1
unfolding list_packages run
list_packages-SameTables db = record { same = ground arith }

add_device-SameTables :
    (hostname : String) (db : Database) → SameTables db (add_device hostname db).1
unfolding add_device run
add_device-SameTables hostname db = record { same = ground arith }

sync_devices-SameTables :
    (devices : List Device) (db : Database) → SameTables db (sync_devices devices db)
unfolding sync_devices
sync_devices-SameTables [] db = SameTables-refl db
sync_devices-SameTables (d ∷ more) db =
    SameTables-trans (add_device-SameTables d.hostname db) (sync_devices-SameTables more _)

pub get_status-SameFinder : (w : World) (v : ViewFinder) → SameFinder v (get_status w v).1
unfolding get_status
get_status-SameFinder w v = with_tables v _ (count_devices-SameTables v.database)

pub get_control_plane-SameFinder :
    (w : World) (v : ViewFinder) → SameFinder v (get_control_plane w v).1
unfolding get_control_plane
get_control_plane-SameFinder w v = get_status-SameFinder w v

pub get_settings-SameFinder : (w : World) (v : ViewFinder) → SameFinder v (get_settings w v).1
unfolding get_settings get_status
get_settings-SameFinder w v =
    let db1 : Database = (read_setting "WatchtowerAddr" v.database).1 in
    let db2 : Database = (read_setting "WatchtowerToken" db1).1 in
    let db3 : Database = (read_setting "WatchtowerTimeout" db2).1 in
    let db4 : Database = (read_setting "RegistryAddr" db3).1 in
    let db5 : Database = (read_setting "RegistryTimeout" db4).1 in
    let db6 : Database = (read_setting "TailscaleApiKey" db5).1 in
    let db7 : Database = (read_setting "TailnetName" db6).1 in
    let db8 : Database = (count_devices db7).1 in
    with_tables v (list_watched_services db8).1 (
      SameTables-trans (read_setting-SameTables "WatchtowerAddr" v.database) (
        SameTables-trans (read_setting-SameTables "WatchtowerToken" db1) (
          SameTables-trans (read_setting-SameTables "WatchtowerTimeout" db2) (
            SameTables-trans (read_setting-SameTables "RegistryAddr" db3) (
              SameTables-trans (read_setting-SameTables "RegistryTimeout" db4) (
                SameTables-trans (read_setting-SameTables "TailscaleApiKey" db5) (
                  SameTables-trans (read_setting-SameTables "TailnetName" db6) (
                    SameTables-trans (count_devices-SameTables db7)
                      (list_watched_services-SameTables db8)))))))))

pub get_packages-SameFinder : (w : World) (v : ViewFinder) → SameFinder v (get_packages w v).1
unfolding get_packages
get_packages-SameFinder w v =
    SameFinder-trans (get_status-SameFinder w v) (with_tables _ _ (list_packages-SameTables _))

pub get_registry-SameFinder : (w : World) (v : ViewFinder) → SameFinder v (get_registry w v).1
unfolding get_registry
get_registry-SameFinder w v = get_status-SameFinder w v

pub get_index-SameFinder :
    {Info Daemon : Type 0} (docker : Docker Info Daemon) (w : World) (v : ViewFinder) (d : Daemon)
    → SameFinder v (get_index docker w v d).1.0
unfolding get_index
get_index-SameFinder docker w v d = get_status-SameFinder w v

pub get_devices-SameFinder : (w : World) (v : ViewFinder) → SameFinder v (get_devices w v).1
unfolding get_devices
get_devices-SameFinder w v =
    elim (Result-cases (Vpn.list_devices w.net w.vpn_decoders v.device_finder)) [
      | inr (e, failed) ↦ rw (failed, get_devices) (SameFinder-refl v)
      | inl (devices, found) ↦
          rw (found, get_devices)
            (SameFinder-trans (with_tables v _ (sync_devices-SameTables devices v.database))
              (get_status-SameFinder w _))
    ]

pub get_device_view-SameFinder :
    (w : World) (id : String) (v : ViewFinder) → SameFinder v (get_device_view w id v).1
unfolding get_device_view
get_device_view-SameFinder w id v =
    elim (Result-cases (Vpn.get_device w.net w.vpn_decoders v.device_finder id)) [
      | inr (e, failed) ↦ rw (failed, get_device_view) (SameFinder-refl v)
      | inl (device, found) ↦
          elim (Result-cases (Vpn.get_acl w.net w.vpn_decoders v.device_finder)) [
            | inr (e, failed) ↦ rw (found, failed, get_device_view) (SameFinder-refl v)
            | inl (policy, known) ↦
                rw (found, known, get_device_view)
                  (with_tables v _ (list_packages-SameTables v.database))
          ]
    ]
