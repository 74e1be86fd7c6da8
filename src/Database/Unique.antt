-- ===== src/Database/Unique.antt =====
-- What the UNIQUE columns and the ids of the rows promise, statement by statement.
use mahogany.Base.{
  ℕ, String, ◌≤◌, ◌<◌, ◌≡◌, refl, not, List, [], ◌∷◌, map, arith, count_if, count_if-append,
  count_if-keep, any-eq-count_if, ◌==◌, string_eq, number_eq,
}
use mahogany.Database.{Package, TrackedService, Database, largest, fresh_id}
use mahogany.Database.Devices.{add_device, new_device, get_device}
use mahogany.Database.Packages.{AddPackageParams, add_package, new_package, delete_package}
use mahogany.Database.Services.{
  is_service, AddTrackedServiceParams, new_tracked, add_tracked_service, UpdateTrackedServiceParams,
  refresh, update_tracked_service, add_watched_service, new_watched, delete_watched_service,
  get_tracked_service_id,
}

pub record IsUnique (db : Database) : Type 0 where
  pub hostnames : (h : String) → count_if (λ d. d.hostname == h) db.devices ≤ 1
  pub package_names : (n : String) → count_if (λ p. p.name == n) db.packages ≤ 1
  pub package_ids : (i : ℕ) → count_if (λ p. p.id == i) db.packages ≤ 1
  pub watched_names : (n : String) → count_if (λ w. w.name == n) db.watched_services ≤ 1
  pub services : (device : ℕ) (n : String) → count_if (is_service device n) db.tracked_services ≤ 1
  pub service_ids : (i : ℕ) → count_if (λ t. t.id == i) db.tracked_services ≤ 1

abbrev service_id : TrackedService → ℕ
service_id t = t.id

-- The largest id bounds the others, so a fresh one is new.
count-fresh :
    (rows : List TrackedService) (i : ℕ)
    → largest (map service_id rows) < i
    → count_if (λ t. t.id == i) rows ≡ 0
count-fresh [] i h = refl
count-fresh (t ∷ rows) i h = ground (arith, count-fresh rows i)

abbrev package_id : Package → ℕ
package_id p = p.id

count_package-fresh :
    (rows : List Package) (i : ℕ)
    → largest (map package_id rows) < i
    → count_if (λ p. p.id == i) rows ≡ 0
count_package-fresh [] i h = refl
count_package-fresh (p ∷ rows) i h = ground (arith, count_package-fresh rows i)

count_service-refresh :
    (arg : UpdateTrackedServiceParams) (device : ℕ) (n : String) (rows : List TrackedService)
    → count_if (is_service device n) (map (refresh arg) rows) ≡ count_if (is_service device n) rows
count_service-refresh arg device n [] = refl
count_service-refresh arg device n (t ∷ rows) =
    ground (arith, count_service-refresh arg device n rows)

count_id-refresh :
    (arg : UpdateTrackedServiceParams) (i : ℕ) (rows : List TrackedService)
    → count_if (λ t. t.id == i) (map (refresh arg) rows) ≡ count_if (λ t. t.id == i) rows
count_id-refresh arg i [] = refl
count_id-refresh arg i (t ∷ rows) = ground (arith, count_id-refresh arg i rows)

module _ (db : Database) (h : IsUnique db) where
  pub add_device-IsUnique : (hostname : String) → IsUnique (add_device hostname db).1
  unfolding add_device
  add_device-IsUnique hostname = record {
    hostnames = λ k. ground (
      arith,
      h.hostnames k,
      any-eq-count_if (λ d. d.hostname == hostname) db.devices,
      count_if-append (λ d. d.hostname == k) db.devices (new_device hostname db.devices ∷ []),
    );
    package_names = λ n. ground (arith, h.package_names n);
    package_ids = λ i. ground (arith, h.package_ids i);
    watched_names = λ n. ground (arith, h.watched_names n);
    services = λ d n. ground (arith, h.services d n);
    service_ids = λ i. ground (arith, h.service_ids i);
  }

  add_package-IsUnique : (arg : AddPackageParams) → IsUnique (add_package arg db).1
  unfolding add_package
  add_package-IsUnique arg = record {
    hostnames = λ k. ground (arith, h.hostnames k);
    package_names = λ n. ground (
      arith,
      h.package_names n,
      any-eq-count_if (λ p. p.name == arg.name) db.packages,
      count_if-append (λ p. p.name == n) db.packages (new_package arg db.packages ∷ []),
    );
    package_ids = λ i. ground (
      arith,
      h.package_ids i,
      count_package-fresh db.packages (fresh_id (map package_id db.packages)),
      count_if-append (λ p. p.id == i) db.packages (new_package arg db.packages ∷ []),
    );
    watched_names = λ n. ground (arith, h.watched_names n);
    services = λ d n. ground (arith, h.services d n);
    service_ids = λ i. ground (arith, h.service_ids i);
  }

  delete_package-IsUnique : (id : ℕ) → IsUnique (delete_package id db).1
  unfolding delete_package
  delete_package-IsUnique id = record {
    hostnames = λ k. ground (arith, h.hostnames k);
    package_names = λ n. ground (
      arith,
      h.package_names n,
      count_if-keep (λ p. p.name == n) (λ p. not (p.id == id)) db.packages,
    );
    package_ids = λ i. ground (
      arith,
      h.package_ids i,
      count_if-keep (λ p. p.id == i) (λ p. not (p.id == id)) db.packages,
    );
    watched_names = λ n. ground (arith, h.watched_names n);
    services = λ d n. ground (arith, h.services d n);
    service_ids = λ i. ground (arith, h.service_ids i);
  }

  add_watched_service-IsUnique : (name : String) → IsUnique (add_watched_service name db).1
  unfolding add_watched_service
  add_watched_service-IsUnique name = record {
    hostnames = λ k. ground (arith, h.hostnames k);
    package_names = λ n. ground (arith, h.package_names n);
    package_ids = λ i. ground (arith, h.package_ids i);
    watched_names = λ n. ground (
      arith,
      h.watched_names n,
      any-eq-count_if (λ w. w.name == name) db.watched_services,
      count_if-append (λ w. w.name == n) db.watched_services
          (new_watched name db.watched_services ∷ []),
    );
    services = λ d n. ground (arith, h.services d n);
    service_ids = λ i. ground (arith, h.service_ids i);
  }

  delete_watched_service-IsUnique : (name : String) → IsUnique (delete_watched_service name db).1
  unfolding delete_watched_service
  delete_watched_service-IsUnique name = record {
    hostnames = λ k. ground (arith, h.hostnames k);
    package_names = λ n. ground (arith, h.package_names n);
    package_ids = λ i. ground (arith, h.package_ids i);
    watched_names = λ n. ground (
      arith,
      h.watched_names n,
      count_if-keep (λ w. w.name == n) (λ w. not (w.name == name)) db.watched_services,
    );
    services = λ d n. ground (arith, h.services d n);
    service_ids = λ i. ground (arith, h.service_ids i);
  }

  pub add_tracked_service-IsUnique :
      (arg : AddTrackedServiceParams) → IsUnique (add_tracked_service arg db).1
  unfolding add_tracked_service
  add_tracked_service-IsUnique arg = record {
    hostnames = λ k. ground (arith, h.hostnames k);
    package_names = λ n. ground (arith, h.package_names n);
    package_ids = λ i. ground (arith, h.package_ids i);
    watched_names = λ n. ground (arith, h.watched_names n);
    services = λ d n. ground (
      arith,
      h.services d n,
      any-eq-count_if (is_service arg.device_id arg.name) db.tracked_services,
      count_if-append (is_service d n) db.tracked_services
          (new_tracked arg db.tracked_services ∷ []),
    );
    service_ids = λ i. ground (
      arith,
      h.service_ids i,
      count-fresh db.tracked_services (fresh_id (map service_id db.tracked_services)),
      count_if-append (λ t. t.id == i) db.tracked_services
          (new_tracked arg db.tracked_services ∷ []),
    );
  }

  pub update_tracked_service-IsUnique :
      (arg : UpdateTrackedServiceParams) → IsUnique (update_tracked_service arg db).1
  unfolding update_tracked_service
  update_tracked_service-IsUnique arg = record {
    hostnames = λ k. ground (arith, h.hostnames k);
    package_names = λ n. ground (arith, h.package_names n);
    package_ids = λ i. ground (arith, h.package_ids i);
    watched_names = λ n. ground (arith, h.watched_names n);
    services =
        λ d n. ground (arith, h.services d n, count_service-refresh arg d n db.tracked_services);
    service_ids = λ i. ground (arith, h.service_ids i, count_id-refresh arg i db.tracked_services);
  }

  -- A statement that only reads keeps the tables.
  pub get_device-IsUnique : (hostname : String) → IsUnique (get_device hostname db).1
  unfolding get_device
  get_device-IsUnique hostname = record {
    hostnames = λ k. ground (arith, h.hostnames k);
    package_names = λ n. ground (arith, h.package_names n);
    package_ids = λ i. ground (arith, h.package_ids i);
    watched_names = λ n. ground (arith, h.watched_names n);
    services = λ d n. ground (arith, h.services d n);
    service_ids = λ i. ground (arith, h.service_ids i);
  }

  pub get_tracked_service_id-IsUnique :
      (name : String) (device : ℕ) → IsUnique (get_tracked_service_id name device db).1
  unfolding get_tracked_service_id
  get_tracked_service_id-IsUnique name device = record {
    hostnames = λ k. ground (arith, h.hostnames k);
    package_names = λ n. ground (arith, h.package_names n);
    package_ids = λ i. ground (arith, h.package_ids i);
    watched_names = λ n. ground (arith, h.watched_names n);
    services = λ d n. ground (arith, h.services d n);
    service_ids = λ i. ground (arith, h.service_ids i);
  }
