-- ===== src/Transfer/Values.antt =====
-- The loop of `importData` over the settings, and the values that it leaves.
use mahogany.Base.{
  ◌≤◌, String, ◌≡◌, refl, Bool, Option, none, some, List, [], ◌∷◌, map, arith, Error, ok,
  find_first, count_if, count_if-sort_by, sort_by, insert_sorted, ◌==◌, string_eq, number_eq,
  if◌then◌else◌,
}
use mahogany.Database.{Setting, Database, run}
use mahogany.Database.Settings.{UpdateSettingParams, assign, update_setting}
use mahogany.Transfer.{import_settings}

-- The settings after a list of assignments.
abbrev pub assigned : List Setting → List Setting → List Setting
assigned [] rows = rows
assigned (s ∷ more) rows =
    assigned more (map (assign (record { value = s.value; name = s.name })) rows)

update_setting_fine :
    (params : UpdateSettingParams) (db : Database)
    → db.faults ≡ []
    → update_setting params db ≡ (ok tt, record db { settings = map (assign params) db.settings })
unfolding update_setting run
update_setting_fine params db fine = ground arith

pub import_settings_lem :
    (settings : List Setting) (errors : List Error) (db : Database)
    → db.faults ≡ []
    → import_settings settings errors db
      ≡ (errors, record db { settings = assigned settings db.settings })
unfolding import_settings
import_settings_lem [] errors db fine = refl
import_settings_lem (s ∷ more) errors db fine =
    let p : UpdateSettingParams = record { value = s.value; name = s.name } in
    rw (update_setting_fine p db fine)
      (import_settings_lem more errors (record db { settings = map (assign p) db.settings }) fine)

-- The value of a setting, if the table has it.
abbrev pub setting_value : String → List Setting → Option String
setting_value n rows = elim (find_first (λ s. s.name == n) rows) [
  | none ↦ none
  | some s ↦ some s.value
]

setting_value-assign :
    (params : UpdateSettingParams) (n : String) (rows : List Setting)
    → setting_value n (map (assign params) rows) ≡ elim (setting_value n rows) [
      | none ↦ none
      | some v ↦ if params.name == n then some params.value else some v
    ]
setting_value-assign params n [] = refl
setting_value-assign params n (s ∷ rows) = ground (arith, setting_value-assign params n rows)

setting_value-none :
    (n : String) (rows : List Setting)
    → count_if (λ s. s.name == n) rows ≡ 0
    → setting_value n rows ≡ none
setting_value-none n [] h = refl
setting_value-none n (s ∷ rows) h = ground (arith, setting_value-none n rows)

setting_value-insert_sorted :
    (le : Setting → Setting → Bool) (n : String) (s : Setting) (rows : List Setting)
    → count_if (λ s. s.name == n) (s ∷ rows) ≤ 1
    → setting_value n (insert_sorted le s rows) ≡ setting_value n (s ∷ rows)
setting_value-insert_sorted le n s [] h = refl
setting_value-insert_sorted le n s (r ∷ rows) h =
    ground (arith, setting_value-insert_sorted le n s rows)

pub setting_value-sort_by :
    (le : Setting → Setting → Bool) (n : String) (rows : List Setting)
    → count_if (λ s. s.name == n) rows ≤ 1
    → setting_value n (sort_by le rows) ≡ setting_value n rows
setting_value-sort_by le n [] h = refl
setting_value-sort_by le n (s ∷ rows) h = ground (
  arith,
  setting_value-insert_sorted le n s (sort_by le rows),
  setting_value-sort_by le n rows,
  count_if-sort_by (λ r. r.name == n) le rows,
)

-- A setting of the new table takes the exported value, if there is one.
abbrev pub merged : Option String → Option String → Option String
merged none u = none
merged (some v) none = some v
merged (some v) (some u) = some u

pub setting_value-assigned :
    (n : String) (settings rows : List Setting)
    → count_if (λ s. s.name == n) settings ≤ 1
    → setting_value n (assigned settings rows)
      ≡ merged (setting_value n rows) (setting_value n settings)
setting_value-assigned n [] rows h = ground arith
setting_value-assigned n (s ∷ more) rows h =
    let p : UpdateSettingParams = record { value = s.value; name = s.name } in
    ground (
      arith,
      setting_value-assigned n more (map (assign p) rows),
      setting_value-assign p n rows,
      setting_value-none n more,
    )
