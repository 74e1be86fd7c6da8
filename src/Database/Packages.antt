-- ===== src/Database/Packages.antt =====
-- The statements on `packages` in internal/db/queries.sql.go.
use mahogany.Base.{
  ℕ, String, Option, List, [], ◌∷◌, ◌++◌, map, not, ◌&&◌, ok, err, any, keep, sort_by, ◌==◌,
  string_eq, number_eq, if◌then◌else◌,
}
use mahogany.Database.{Package, Query, run, not_unique, fresh_id, text_le}

pub record AddPackageParams : Type 0 where
  pub name : String
  pub install_cmd : String
  pub update_cmd : String
  pub remove_cmd : Option String

record UpdatePackageParams : Type 0 where
  pub name : String
  pub install_cmd : String
  pub update_cmd : String
  pub remove_cmd : Option String
  pub id : ℕ

-- `SELECT * FROM packages ORDER BY name`
unfoldable pub list_packages : Query (List Package)
unfolding run
list_packages = run λ db. (ok (sort_by (λ a b. text_le a.name b.name) db.packages), db)

abbrev pub new_package : AddPackageParams → List Package → Package
new_package arg rows = record {
  id = fresh_id (map (λ (p : Package). p.id) rows);
  name = arg.name;
  install_cmd = arg.install_cmd;
  update_cmd = arg.update_cmd;
  remove_cmd = arg.remove_cmd;
}

-- `INSERT INTO packages (name, install_cmd, update_cmd, remove_cmd) VALUES (?, ?, ?, ?) RETURNING *`
unfoldable pub add_package : AddPackageParams → Query Package
unfolding run
add_package arg = run λ db.
    if any (λ p. p.name == arg.name) db.packages then (err not_unique, db) else (
      ok (new_package arg db.packages),
      record db { packages = db.packages ++ (new_package arg db.packages ∷ []) },
    )

abbrev changed : UpdatePackageParams → Package → Package
changed arg p =
    if p.id == arg.id
    then record p {
      name = arg.name;
      install_cmd = arg.install_cmd;
      update_cmd = arg.update_cmd;
      remove_cmd = arg.remove_cmd;
    }
    else p

-- `UPDATE packages set name = ?, install_cmd = ?, update_cmd = ?, remove_cmd = ? WHERE id = ?`: it
-- fails where there is such a row and another one has the new name.
unfoldable update_package : UpdatePackageParams → Query (Unit {0})
unfolding run
update_package arg = run λ db.
    if any (λ p. p.id == arg.id) db.packages
      && any (λ p. not (p.id == arg.id) && p.name == arg.name) db.packages
    then (err not_unique, db)
    else (ok tt, record db { packages = map (changed arg) db.packages })

-- `DELETE FROM packages WHERE id = ?`. The argument is an `int64`, of which only the positive ones
-- are ids.
unfoldable pub delete_package : ℕ → Query (Unit {0})
unfolding run
delete_package id =
    run λ db. (ok tt, record db { packages = keep (λ p. not (p.id == id)) db.packages })
