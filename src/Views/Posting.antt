-- ===== src/Views/Posting.antt =====
-- What the form for a new package does (`AddPackage` of pkg/mahogany/views/packages.go), against the
-- pages that are shown before and after it.
use mahogany.Base.{
  ℕ, String, ◌≡◌, Bool, true, false, Option, none, some, List, [], ◌∷◌, ◌++◌, arith, ap, ◌∙◌,
  Bool-cases, inl, inr, ◌+◌, not, ◌&&◌, find_first, count_if, count_if-append, count_if-sort_by,
  ◌==◌, string_eq, if◌then◌else◌,
}
use mahogany.Database.{Package, Database, run, text_le}
use mahogany.Database.Packages.{AddPackageParams, add_package, new_package}
use mahogany.Views.{World, ViewFinder, get_status}
use mahogany.Views.Packages.{
  PackagesView, no_params, empty_view, get_packages, missing, post_package, listing,
  get_packages_lem, is_taken,
}

-- What each branch of `AddPackage` does where no statement fails.
post_package_branches :
    (w : World) (params : AddPackageParams) (v : ViewFinder)
    → v.database.faults ≡ []
    → post_package w params v ≡ (
        let view : PackagesView = record (empty_view (get_status w v).0) {
          packages = listing v.database;
        } in
        elim (missing params) [
          | some toast ↦ (record view { add_package = params; toast = toast }, v)
          | none ↦
              if is_taken params v.database
              then (
                record view {
                  add_package = params;
                  is_success = false;
                  error = some "UNIQUE constraint failed";
                },
                v,
              )
              else (
                record view {
                  packages = listing v.database ++ (new_package params v.database.packages ∷ []);
                },
                record v {
                  database = record v.database {
                    packages = v.database.packages ++ (new_package params v.database.packages ∷ []);
                  };
                },
              )
        ])
unfolding post_package add_package run
post_package_branches w params v fine = ground (arith, get_packages_lem w v fine)

-- The texts that a package must have, with what the page says where one is empty.
abbrev pub required : AddPackageParams → List (String × String)
required params =
    (params.name, "Name required")
    ∷ (params.install_cmd, "Install command required")
    ∷ (params.update_cmd, "Update command required")
    ∷ []

abbrev pub first_empty : List (String × String) → Option (String × String)
first_empty = find_first (λ r. r.0 == "")

abbrev pub toast_for : Option (String × String) → String
toast_for none = ""
toast_for (some r) = r.1

abbrev pub is_nothing : {A : Type 0} → Option A → Bool
is_nothing none = true
is_nothing (some a) = false

-- All the required texts are there, and no package has the name.
abbrev pub is_accepted : AddPackageParams → Database → Bool
is_accepted params db = is_nothing (first_empty (required params)) && not (is_taken params db)

-- Whether an accepted package is of a kind, by its texts.
abbrev pub gained : AddPackageParams → Database → (AddPackageParams → Bool) → ℕ
gained params db kind = if is_accepted params db && kind params then 1 else 0

abbrev pub texts_of : Package → AddPackageParams
texts_of p = record {
  name = p.name;
  install_cmd = p.install_cmd;
  update_cmd = p.update_cmd;
  remove_cmd = p.remove_cmd;
}

abbrev pub shown : World → ViewFinder → List Package
shown w v = (get_packages w v).0.packages

-- What the form adds to the tables.
abbrev pub added : AddPackageParams → ViewFinder → ViewFinder
added params v = record v {
  database = record v.database {
    packages = v.database.packages ++ (new_package params v.database.packages ∷ []);
  };
}

count_if-shown :
    (w : World) (v : ViewFinder) (kind : Package → Bool)
    → v.database.faults ≡ []
    → count_if kind (shown w v) ≡ count_if kind v.database.packages
count_if-shown w v kind fine =
    ap (λ (r : PackagesView × ViewFinder). count_if kind r.0.packages) (get_packages_lem w v fine)
    ∙ count_if-sort_by kind (λ a b. text_le a.name b.name) v.database.packages

count_if-added :
    (w : World) (params : AddPackageParams) (v : ViewFinder) (kind : AddPackageParams → Bool)
    → v.database.faults ≡ []
    → count_if (λ p. kind (texts_of p)) (shown w (added params v))
      ≡ count_if (λ p. kind (texts_of p)) (shown w v) + (if kind params then 1 else 0)
count_if-added w params v kind fine = ground (
  arith,
  count_if-shown w v (λ p. kind (texts_of p)) fine,
  count_if-shown w (added params v) (λ p. kind (texts_of p)) fine,
  count_if-append (λ p. kind (texts_of p)) v.database.packages
      (new_package params v.database.packages ∷ []),
)

pub post_package-added :
    (w : World) (params : AddPackageParams) (v : ViewFinder)
    → v.database.faults ≡ []
    → (post_package w params v).1 ≡ (if is_accepted params v.database then added params v else v)
post_package-added w params v fine = ground (arith, post_package_branches w params v fine)

-- The packages on the page that answers.
answer-packages :
    (w : World) (params : AddPackageParams) (v : ViewFinder)
    → v.database.faults ≡ []
    → (post_package w params v).0.packages ≡ (
        if is_accepted params v.database
        then listing v.database ++ (new_package params v.database.packages ∷ [])
        else listing v.database)
answer-packages w params v fine = ground (arith, post_package_branches w params v fine)

count_if-answer :
    (w : World) (params : AddPackageParams) (v : ViewFinder) (kind : AddPackageParams → Bool)
    → v.database.faults ≡ []
    → count_if (λ p. kind (texts_of p)) (post_package w params v).0.packages
      ≡ count_if (λ p. kind (texts_of p)) (shown w v) + gained params v.database kind
count_if-answer w params v kind fine = ground (
  arith,
  answer-packages w params v fine,
  get_packages_lem w v fine,
  count_if-append (λ p. kind (texts_of p)) (listing v.database)
      (new_package params v.database.packages ∷ []),
)

count_if-post_package :
    (w : World) (params : AddPackageParams) (v : ViewFinder) (kind : AddPackageParams → Bool)
    → v.database.faults ≡ []
    → count_if (λ p. kind (texts_of p)) (shown w (post_package w params v).1)
      ≡ count_if (λ p. kind (texts_of p)) (shown w v) + gained params v.database kind
count_if-post_package w params v kind fine =
    ap (λ x. count_if (λ p. kind (texts_of p)) (shown w x)) (post_package-added w params v fine)
    ∙ elim (Bool-cases (is_accepted params v.database)) [
      | inl taken_in ↦ rw taken_in (count_if-added w params v kind fine)
      | inr refused ↦ rw refused (omega arith)
    ]

-- Of any kind of packages, the page that answers a form lists as many as before, and so does the page
-- that is shown next, if no statement fails, but one more exactly if the form's texts are of that kind,
-- its three required texts are given and no package had its name. The answer asks for the first
-- required text that is empty, or else reports a name that is taken; in both cases it keeps the form,
-- and nothing but the table of packages may change.
pub post_package-get_packages :
    (w : World) (params : AddPackageParams) (v : ViewFinder) (kind : AddPackageParams → Bool)
    → v.database.faults ≡ []
    → let (page, v') = post_package w params v in
      let asked = first_empty (required params) in
      let refused = is_nothing asked && is_taken params v.database in
      (count_if (λ p. kind (texts_of p)) page.packages
        ≡ count_if (λ p. kind (texts_of p)) (shown w v) + gained params v.database kind)
      × (count_if (λ p. kind (texts_of p)) (shown w v')
          ≡ count_if (λ p. kind (texts_of p)) (shown w v) + gained params v.database kind)
      × (page.toast ≡ toast_for asked)
      × (page.error ≡ (if refused then some "UNIQUE constraint failed" else none))
      × (page.is_success ≡ not refused)
      × (page.add_package ≡ (if is_accepted params v.database then no_params else params))
      × (v' ≡ record v { database = record v.database { packages = v'.database.packages } })
post_package-get_packages w params v kind fine =
    let does = post_package_branches w params v fine in
    (
      count_if-answer w params v kind fine,
      count_if-post_package w params v kind fine,
      ground (arith, does),
      ground (arith, does),
      ground (arith, does),
      ground (arith, does),
      ground (arith, does),
    )
