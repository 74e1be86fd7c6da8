-- ===== src/Database/Settings.antt =====
-- The statements on `settings` in internal/db/queries.sql.go. The column `name` is not UNIQUE.
use mahogany.Base.{
  String, none, some, List, map, ok, err, find_first, sort_by, leb, ◌==◌, string_eq, if◌then◌else◌,
}
use mahogany.Database.{Setting, Query, run, no_rows}

pub record UpdateSettingParams : Type 0 where
  pub value : String
  pub name : String

-- `SELECT name, value FROM settings WHERE name = ? LIMIT 1`, by the value
unfoldable pub get_setting : String → Query Setting
unfolding run
get_setting name = run λ db. elim (find_first (λ s. s.name == name) db.settings) [
  | none ↦ (err no_rows, db)
  | some s ↦ (ok s, db)
]

abbrev pub assign : UpdateSettingParams → Setting → Setting
assign arg s = if s.name == arg.name then record s { value = arg.value } else s

-- `UPDATE settings set value = ? WHERE name = ?`: no error where no row has the name
unfoldable pub update_setting : UpdateSettingParams → Query (Unit {0})
unfolding run
update_setting arg = run λ db. (ok tt, record db { settings = map (assign arg) db.settings })

-- `SELECT * FROM settings ORDER BY id`
unfoldable pub list_settings : Query (List Setting)
unfolding run
list_settings = run λ db. (ok (sort_by (λ a b. leb a.id b.id) db.settings), db)
