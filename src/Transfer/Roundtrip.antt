-- ===== src/Transfer/Roundtrip.antt =====
-- What was exported from one database comes back when it is imported into a new one.
use mathlib.Core.Path.{ap₂}
use mahogany.Base.{
  ◌≤◌, String, ◌≡◌, refl, ap, ◌∙◌, sym, Option, List, [], ◌∷◌, map, arith, Error, ok, count_if,
  count_if-sort_by, sort_by, leb, ◌==◌, string_eq, number_eq,
}
use mahogany.Database.{Package, Setting, WatchedService, Database, run, text_le}
use mahogany.Database.Packages.{AddPackageParams, list_packages}
use mahogany.Database.Settings.{list_settings}
use mahogany.Database.Services.{list_watched_services}
use mahogany.Database.Unique.{IsUnique}
use mahogany.Transfer.{
  AppData, params_of, export_data, import_packages, import_services, import_data,
}
use mahogany.Transfer.Loops.{
  Imported, FitsPackages, import_packages-Imported, name_of, FitsServices, Watched,
  import_services-Watched,
}
use mahogany.Transfer.Values.{
  assigned, import_settings_lem, setting_value, setting_value-sort_by, merged,
  setting_value-assigned,
}

abbrev by_id : List Setting → List Setting
by_id = sort_by (λ a b. leb a.id b.id)

abbrev by_name : List Package → List Package
by_name = sort_by (λ a b. text_le a.name b.name)

abbrev service_names : Database → List String
service_names db = sort_by text_le (map name_of db.watched_services)

-- The data of the tables, as the export orders it.
abbrev exported : Database → AppData
exported db = record {
  packages = by_name db.packages;
  settings = by_id db.settings;
  watched_services = service_names db;
}

export_data_lem : (db : Database) → db.faults ≡ [] → export_data db ≡ (ok (exported db), db)
unfolding export_data list_settings list_packages list_watched_services run
export_data_lem db fine = ground arith

-- A new database: nothing but settings.
pub record IsNew (db : Database) : Type 0 where
  pub no_packages : db.packages ≡ []
  pub no_services : db.watched_services ≡ []
  pub works : db.faults ≡ []

-- The texts of a package: its name and its commands.
abbrev texts : Package → String × (String × (String × Option String))
texts p = (p.name, (p.install_cmd, (p.update_cmd, p.remove_cmd)))

abbrev given : AddPackageParams → String × (String × (String × Option String))
given params = (params.name, (params.install_cmd, (params.update_cmd, params.remove_cmd)))

texts-given : (xs : List Package) → map given (map params_of xs) ≡ map texts xs
texts-given [] = refl
texts-given (p ∷ xs) = ap (λ rest. texts p ∷ rest) (texts-given xs)

-- `params_of` keeps them all.
texts-params_of :
    (xs ys : List Package) → map params_of xs ≡ map params_of ys → map texts xs ≡ map texts ys
texts-params_of xs ys same = sym (texts-given xs) ∙ ap (map given) same ∙ texts-given ys

-- What the import leaves, beside the data that was exported.
pub record Restored (db : Database) (new : Database) (r : List Error × Database) : Type 0 where
  pub no_errors : r.0 ≡ []
  pub packages : map texts r.1.packages ≡ map texts (by_name db.packages)
  pub services : map name_of r.1.watched_services ≡ service_names db
  pub settings :
      (n : String)
      → setting_value n r.1.settings
        ≡ merged (setting_value n new.settings) (setting_value n db.settings)

count_names :
    (n : String) (rows : List WatchedService)
    → count_if (λ m. m == n) (map name_of rows) ≡ count_if (λ w. w.name == n) rows
count_names n [] = refl
count_names n (w ∷ rows) = ground (arith, count_names n rows)

module _ (db new : Database) (unique : IsUnique db)
    (unique_settings : (n : String) → count_if (λ s. s.name == n) db.settings ≤ 1)
    (is_new : IsNew new) where
  fits_packages : FitsPackages (by_name db.packages) new
  fits_packages n = rw is_new.no_packages (
      omega (
        arith,
        unique.package_names n,
        count_if-sort_by (λ p. p.name == n) (λ a b. text_le a.name b.name) db.packages,
      ))

  -- The tables after the loop over the packages, and after the loop over the settings.
  abbrev with_packages : List Error × Database
  with_packages = import_packages (by_name db.packages) [] new

  abbrev with_settings : Database
  with_settings = record with_packages.1 {
    settings = assigned (by_id db.settings) with_packages.1.settings;
  }

  packages_step : Imported (by_name db.packages) [] new with_packages
  packages_step = import_packages-Imported (by_name db.packages) [] new is_new.works fits_packages

  services_kept : with_packages.1.watched_services ≡ []
  services_kept =
      ap (λ (d : Database). d.watched_services) packages_step.rest_same ∙ is_new.no_services

  settings_kept : with_packages.1.settings ≡ new.settings
  settings_kept = ap (λ (d : Database). d.settings) packages_step.rest_same

  still_works : with_packages.1.faults ≡ []
  still_works = ap (λ (d : Database). d.faults) packages_step.rest_same ∙ is_new.works

  fits_services : FitsServices (service_names db) with_settings
  fits_services n = rw services_kept (
      omega (
        arith,
        unique.watched_names n,
        count_names n db.watched_services,
        count_if-sort_by (λ m. m == n) text_le (map name_of db.watched_services),
      ))

  services_step :
      Watched
        (service_names db)
        with_packages.0
        with_settings
        (import_services (service_names db) with_packages.0 with_settings)
  services_step =
      import_services-Watched (service_names db) with_packages.0 with_settings still_works
        fits_services

  import_data-Restored : Restored db new (import_data (exported db) new)
  unfolding import_data
  import_data-Restored =
      rw (import_settings_lem (by_id db.settings) with_packages.0 with_packages.1 still_works)
        (record {
          no_errors = services_step.errors_same ∙ packages_step.errors_same;
          packages = texts-params_of _ (by_name db.packages) (
              ap (λ (d : Database). map params_of d.packages) services_step.rest_same
              ∙ packages_step.added
              ∙ rw is_new.no_packages refl);
          services = services_step.added ∙ rw services_kept refl;
          settings = λ n.
              ap (λ (d : Database). setting_value n d.settings) services_step.rest_same
              ∙ setting_value-assigned n (by_id db.settings) with_packages.1.settings (
                  omega (
                    arith,
                    unique_settings n,
                    count_if-sort_by (λ s. s.name == n) (λ a b. leb a.id b.id) db.settings,
                  ))
              ∙ ap₂ merged (ap (setting_value n) settings_kept)
                  (setting_value-sort_by (λ a b. leb a.id b.id) n db.settings (unique_settings n));
        })

-- What is exported from a database that keeps its UNIQUE columns and whose settings have different
-- names, and imported into a database with no packages and no watched services, if no statement
-- fails, brings no error and restores the data: the packages with all
-- their texts and the watched services, in the order of their names, and every setting that both
-- have; a setting that only the new database has keeps its value, and one that it lacks is lost.
pub import-export :
    (db new : Database)
    → IsUnique db
    → ((n : String) → count_if (λ s. s.name == n) db.settings ≤ 1)
    → IsNew new
    → db.faults ≡ []
    → (app : AppData) × (export_data db ≡ (ok app, db)) × Restored db new (import_data app new)
import-export db new unique unique_settings is_new fine = (
  exported db,
  export_data_lem db fine,
  import_data-Restored db new unique unique_settings is_new,
)
