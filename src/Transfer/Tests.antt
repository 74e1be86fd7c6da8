-- ===== src/Transfer/Tests.antt =====
-- An export and the import of it into a new database.
use mahogany.Base.{◌≡◌, refl, none, [], ◌∷◌, arith, ok, string_eq, number_eq}
use mahogany.Database.{Database}
use mahogany.Database.Unique.{IsUnique}
use mahogany.Transfer.{AppData, export_data, import_data}
use mahogany.Transfer.Roundtrip.{Restored, import-export}

abbrev new : Database
new = record {
  devices = [];
  packages = [];
  assets = [];
  settings = record { id = 1; name = "RegistryAddr"; value = "" } ∷ [];
  watched_services = [];
  tracked_services = [];
  faults = [];
}

abbrev used : Database
used = record new {
  packages =
      record { id = 1; name = "tool"; install_cmd = "get"; update_cmd = "get"; remove_cmd = none }
      ∷ [];
  settings = record { id = 1; name = "RegistryAddr"; value = "registry:5000" } ∷ [];
  watched_services = record { id = 1; name = "cron" } ∷ [];
}

used-IsUnique : IsUnique used
used-IsUnique = record {
  hostnames = λ h. omega arith;
  package_names = λ n. ground arith;
  package_ids = λ i. ground arith;
  watched_names = λ n. ground arith;
  services = λ d n. omega arith;
  service_ids = λ i. omega arith;
}

import-export_example :
    (app : AppData) × (export_data used ≡ (ok app, used)) × Restored used new (import_data app new)
import-export_example =
    import-export used new used-IsUnique (λ n. ground arith)
      (record { no_packages = refl; no_services = refl; works = refl }) refl
