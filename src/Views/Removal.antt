-- ===== src/Views/Removal.antt =====
-- A package that was added can be deleted again.
use mahogany.Base.{
  ℕ, String, ◌<◌, ◌≡◌, refl, ap, ◌∙◌, Bool, false, not, none, List, [], ◌∷◌, ◌++◌, map, arith,
  Result, ok, keep, ◌==◌, string_eq, number_eq,
}
use mathlib.Core.List.{append-nil}
use mahogany.Database.{Package, Database, run, largest, fresh_id}
use mahogany.Database.Packages.{AddPackageParams, delete_package, new_package}
use mahogany.Views.{World, ViewFinder}
use mahogany.Views.Posting.{post_package-added}
use mahogany.Views.Packages.{remove_package, post_package, get_packages_lem, missing, is_taken}

abbrev package_id : Package → ℕ
package_id p = p.id

keep-append :
    (p : Package → Bool) (xs ys : List Package) → keep p (xs ++ ys) ≡ keep p xs ++ keep p ys
keep-append p [] ys = refl
keep-append p (x ∷ xs) ys = ground (arith, keep-append p xs ys)

keep_fresh :
    (n : ℕ) (packages : List Package)
    → largest (map package_id packages) < n
    → keep (λ p. not (p.id == n)) packages ≡ packages
keep_fresh n [] h = refl
keep_fresh n (p ∷ packages) h = ground (arith, keep_fresh n packages)

keep_known :
    (n : ℕ) (packages : List Package) (row : Package)
    → row.id ≡ n
    → largest (map package_id packages) < n
    → keep (λ p. not (p.id == n)) (packages ++ (row ∷ [])) ≡ packages
keep_known n packages row same h = ground (
  arith,
  keep-append (λ p. not (p.id == n)) packages (row ∷ []),
  keep_fresh n packages h,
  append-nil packages,
)

abbrev with_packages : List Package → ViewFinder → ViewFinder
with_packages ps v = record v { database = record v.database { packages = ps } }

module _ (parse_id : String → Result ℕ) where
  -- The tables without the packages of an id.
  abbrev without : ℕ → Database → Database
  without n db = record db { packages = keep (λ p. not (p.id == n)) db.packages }

  remove_package_lem :
      (w : World) (id : String) (n : ℕ) (v : ViewFinder)
      → v.database.faults ≡ []
      → parse_id id ≡ ok n
      → (remove_package parse_id w id v).1 ≡ record v { database = without n v.database }
  unfolding remove_package delete_package run
  remove_package_lem w id n v fine parsed = ground (
    arith,
    get_packages_lem w v fine,
    get_packages_lem w (record v { database = without n v.database }) fine,
  )

  -- If no statement fails, deleting a package by the id that it was given when it was just added to
  -- the page, with all its texts and a name that was free, leaves the state as it was before.
  pub remove_package-post_package :
      (w : World) (params : AddPackageParams) (id : String) (v : ViewFinder)
      → v.database.faults ≡ []
      → missing params ≡ none
      → is_taken params v.database ≡ false
      → parse_id id ≡ ok (fresh_id (map package_id v.database.packages))
      → (remove_package parse_id w id (post_package w params v).1).1 ≡ v
  remove_package-post_package w params id v fine given free parsed =
      let rows = v.database.packages in
      let row : Package = new_package params rows in
      let n = fresh_id (map package_id rows) in
      let grown : ViewFinder = with_packages (rows ++ (row ∷ [])) v in
      let added : (post_package w params v).1 ≡ grown =
        ground (arith, post_package-added w params v fine) in
      ap (λ x. (remove_package parse_id w id x).1) added
      ∙ remove_package_lem w id n grown fine parsed
      ∙ ap (λ ps. with_packages ps v) (keep_known n rows row refl (omega arith))
