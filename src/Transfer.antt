-- ===== src/Transfer.antt =====
-- `exportData` and `importData` of main.go, between the reading and the writing of the file: the
-- data that goes into the file, and what becomes of the data that comes out of it.
mod Loops
pub mod Values
pub mod Roundtrip
pub mod Commands
mod Tests
use mahogany.Base.{String, List, [], ◌∷◌, ◌++◌, Error, Result, ok, err}
use mahogany.Database.{Package, Setting, Database, Query}
use mahogany.Database.Packages.{AddPackageParams, list_packages, add_package}
use mahogany.Database.Settings.{UpdateSettingParams, list_settings, update_setting}
use mahogany.Database.Services.{list_watched_services, add_watched_service}

-- `AppData` of pkg/mahogany/config.go
pub record AppData : Type 0 where
  pub packages : List Package
  pub settings : List Setting
  pub watched_services : List String

-- `exportData`: the first statement that fails ends it.
pub export_data : Query AppData
export_data db =
    let (settings, db1) = list_settings db in
    elim settings [
      | err e ↦ (err e, db1)
      | ok settings ↦
          let (packages, db2) = list_packages db1 in
          elim packages [
            | err e ↦ (err e, db2)
            | ok packages ↦
                let (services, db3) = list_watched_services db2 in
                elim services [
                  | err e ↦ (err e, db3)
                  | ok services ↦ (
                    ok (record {
                      packages = packages;
                      settings = settings;
                      watched_services = services;
                    }),
                    db3,
                  )
                ]
          ]
    ]

abbrev pub params_of : Package → AddPackageParams
params_of p = record {
  name = p.name;
  install_cmd = p.install_cmd;
  update_cmd = p.update_cmd;
  remove_cmd = p.remove_cmd;
}

-- `errors.Join`, as the list of the errors that are not nil.
abbrev pub join : {A : Type 0} → List Error → Result A → List Error
join errors (ok a) = errors
join errors (err e) = errors ++ (e ∷ [])

-- The three loops of `importData`, each with the errors so far.
pub import_packages : List Package → List Error → Database → List Error × Database
import_packages [] errors db = (errors, db)
import_packages (p ∷ more) errors db =
    let (added, db') = add_package (params_of p) db in import_packages more (join errors added) db'

pub import_settings : List Setting → List Error → Database → List Error × Database
import_settings [] errors db = (errors, db)
import_settings (s ∷ more) errors db =
    let (updated, db') = update_setting (record { value = s.value; name = s.name }) db in
    import_settings more (join errors updated) db'

pub import_services : List String → List Error → Database → List Error × Database
import_services [] errors db = (errors, db)
import_services (name ∷ more) errors db =
    let (added, db') = add_watched_service name db in import_services more (join errors added) db'

-- `importData`: all the errors, and the tables.
pub import_data : AppData → Database → List Error × Database
unfolding import_packages import_settings import_services
import_data app db =
    let (errors1, db1) = import_packages app.packages [] db in
    let (errors2, db2) = import_settings app.settings errors1 db1 in
    import_services app.watched_services errors2 db2
