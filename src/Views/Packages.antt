-- ===== src/Views/Packages.antt =====
-- pkg/mahogany/views/packages.go: the page of packages.
use mahogany.Base.{
  ℕ, String, ◌≡◌, Bool, true, false, Option, none, some, List, [], ◌∷◌, ◌++◌, arith, Error, Result,
  ok, err, any, sort_by, ◌==◌, string_eq, if◌then◌else◌,
}
use mahogany.Database.{Package, Database, run, text_le}
use mahogany.Database.Devices.{count_devices}
use mahogany.Database.Packages.{AddPackageParams, list_packages, add_package, delete_package}
use mahogany.Views.{World, ViewFinder, StatusView, get_status}

pub record PackagesView : Type 0 where
  pub template_name : String
  pub is_success : Bool
  pub error : Option Error
  pub packages : List Package
  pub add_package : AddPackageParams
  pub toast : String
  pub status : StatusView

abbrev pub no_params : AddPackageParams
no_params = record { name = ""; install_cmd = ""; update_cmd = ""; remove_cmd = none }

-- The view before the packages are listed.
abbrev pub empty_view : StatusView → PackagesView
empty_view status = record {
  template_name = "";
  is_success = true;
  error = none;
  packages = [];
  add_package = no_params;
  toast = "";
  status = status;
}

-- `GetPackages`
unfoldable pub get_packages : World → ViewFinder → PackagesView × ViewFinder
unfolding get_status
get_packages w v =
    let (status, v') = get_status w v in
    let (packages, db) = list_packages v'.database in
    (
      elim packages [
        | err e ↦ record (empty_view status) { is_success = false; error = some e }
        | ok rows ↦ record (empty_view status) { packages = rows }
      ],
      record v' { database = db },
    )

-- The three checks of `AddPackage`, in its order.
abbrev pub missing : AddPackageParams → Option String
missing params =
    if params.name == ""
    then some "Name required"
    else if params.install_cmd == ""
    then some "Install command required"
    else if params.update_cmd == ""
    then some "Update command required"
    else none

-- `AddPackage`
unfoldable pub post_package : World → AddPackageParams → ViewFinder → PackagesView × ViewFinder
unfolding get_packages
post_package w params v =
    let (view, v') = get_packages w v in
    if view.is_success
    then (elim (missing params) [
      | some toast ↦ (record view { add_package = params; toast = toast }, v')
      | none ↦
          let (added, db) = add_package params v'.database in
          (
            elim added [
              | err e ↦ record view { add_package = params; is_success = false; error = some e }
              | ok row ↦ record view {
                add_package = no_params;
                packages = view.packages ++ (row ∷ []);
              }
            ],
            record v' { database = db },
          )
    ])
    else (view, v')

-- `strconv.ParseInt(id, 10, 64)` is a parameter: its value, as far as it can be an id, or its error.
module _ (parse_id : String → Result ℕ) where
  -- `DeletePackage`
  unfoldable pub remove_package : World → String → ViewFinder → PackagesView × ViewFinder
  unfolding get_packages
  remove_package w id v =
      let (view, v') = get_packages w v in
      if view.is_success
      then (elim (parse_id id) [
        | err e ↦ (record view { is_success = false; toast = e }, v')
        | ok package_id ↦
            let (deleted, db) = delete_package package_id v'.database in
            elim deleted [
              | err e ↦ (record view { is_success = false; toast = e }, record v' { database = db })
              | ok _ ↦ get_packages w (record v' { database = db })
            ]
      ])
      else (record view { toast = elim view.error [ some e ↦ e | none ↦ "" ] }, v')

-- The packages of a database in the order of the page.
abbrev pub listing : Database → List Package
listing db = sort_by (λ a b. text_le a.name b.name) db.packages

pub get_packages_lem :
    (w : World) (v : ViewFinder)
    → v.database.faults ≡ []
    → get_packages w v
      ≡ (record (empty_view (get_status w v).0) { packages = listing v.database }, v)
unfolding get_packages list_packages count_devices run
get_packages_lem w v fine = ground arith

abbrev pub is_taken : AddPackageParams → Database → Bool
is_taken params db = any (λ p. p.name == params.name) db.packages
