-- ===== src/Transfer/Loops.antt =====
-- The loops of `importData` over packages and services that are new to the tables.
use mathlib.Core.List.{append-nil, append_assoc, map-append}
use mahogany.Base.{
  ◌+◌, ◌≤◌, String, ◌≡◌, refl, ◌∙◌, List, [], ◌∷◌, ◌++◌, map, arith, Error, ok, count_if,
  count_if-append, any-eq-count_if, ◌==◌, string_eq, number_eq,
}
use mahogany.Database.{Package, WatchedService, Database, run}
use mahogany.Database.Packages.{add_package, new_package}
use mahogany.Database.Services.{add_watched_service, new_watched}
use mahogany.Transfer.{params_of, import_packages, import_services}

-- A table in which all of these packages are new, and differ from one another.
abbrev pub FitsPackages : List Package → Database → Type 0
FitsPackages packages db =
    (n : String)
    → count_if (λ p. p.name == n) db.packages + count_if (λ p. p.name == n) packages ≤ 1

FitsPackages-next :
    (p : Package) (more : List Package) (db : Database)
    → FitsPackages (p ∷ more) db
    → FitsPackages more
        (record db { packages = db.packages ++ (new_package (params_of p) db.packages ∷ []) })
FitsPackages-next p more db fits n = ground (
  arith,
  fits n,
  count_if-append (λ p. p.name == n) db.packages (new_package (params_of p) db.packages ∷ []),
)

add_package_new :
    (p : Package) (more : List Package) (db : Database)
    → db.faults ≡ []
    → FitsPackages (p ∷ more) db
    → add_package (params_of p) db ≡ (
      ok (new_package (params_of p) db.packages),
      record db { packages = db.packages ++ (new_package (params_of p) db.packages ∷ []) },
    )
unfolding add_package run
add_package_new p more db fine fits =
    ground (arith, fits p.name, any-eq-count_if (λ q. q.name == p.name) db.packages)

-- No error, the new packages behind the old ones, and all else as it was.
pub record Imported (packages : List Package) (errors : List Error) (db : Database)
    (r : List Error × Database) : Type 0 where
  pub errors_same : r.0 ≡ errors
  pub added : map params_of r.1.packages ≡ map params_of db.packages ++ map params_of packages
  pub rest_same : r.1 ≡ record db { packages = r.1.packages }

pub import_packages-Imported :
    (packages : List Package) (errors : List Error) (db : Database)
    → db.faults ≡ []
    → FitsPackages packages db
    → Imported packages errors db (import_packages packages errors db)
unfolding import_packages
import_packages-Imported [] errors db fine fits = record {
  errors_same = refl;
  added = rw append-nil;
  rest_same = refl;
}
import_packages-Imported (p ∷ more) errors db fine fits =
    let row : Package = new_package (params_of p) db.packages in
    let db' : Database = record db { packages = db.packages ++ (row ∷ []) } in
    let ih = import_packages-Imported more errors db' fine (FitsPackages-next p more db fits) in
    rw (add_package_new p more db fine fits) (record {
      errors_same = ih.errors_same;
      added = ih.added ∙ rw (map-append, append_assoc) refl;
      rest_same = ih.rest_same;
    })

abbrev pub name_of : WatchedService → String
name_of w = w.name

abbrev pub FitsServices : List String → Database → Type 0
FitsServices names db =
    (n : String)
    → count_if (λ w. w.name == n) db.watched_services + count_if (λ m. m == n) names ≤ 1

add_watched_new :
    (name : String) (more : List String) (db : Database)
    → db.faults ≡ []
    → FitsServices (name ∷ more) db
    → add_watched_service name db ≡ (
      ok tt,
      record db {
        watched_services = db.watched_services ++ (new_watched name db.watched_services ∷ []);
      },
    )
unfolding add_watched_service run
add_watched_new name more db fine fits =
    ground (arith, fits name, any-eq-count_if (λ w. w.name == name) db.watched_services)

pub record Watched (names : List String) (errors : List Error) (db : Database)
    (r : List Error × Database) : Type 0 where
  pub errors_same : r.0 ≡ errors
  pub added : map name_of r.1.watched_services ≡ map name_of db.watched_services ++ names
  pub rest_same : r.1 ≡ record db { watched_services = r.1.watched_services }

pub import_services-Watched :
    (names : List String) (errors : List Error) (db : Database)
    → db.faults ≡ []
    → FitsServices names db
    → Watched names errors db (import_services names errors db)
unfolding import_services
import_services-Watched [] errors db fine fits = record {
  errors_same = refl;
  added = rw append-nil;
  rest_same = refl;
}
import_services-Watched (name ∷ more) errors db fine fits =
    let row : WatchedService = new_watched name db.watched_services in
    let db' : Database = record db { watched_services = db.watched_services ++ (row ∷ []) } in
    let ih = import_services-Watched more errors db' fine (λ n.
      ground (arith, fits n, count_if-append (λ w. w.name == n) db.watched_services (row ∷ []))) in
    rw (add_watched_new name more db fine fits) (record {
      errors_same = ih.errors_same;
      added = ih.added ∙ rw (map-append, append_assoc) refl;
      rest_same = ih.rest_same;
    })
