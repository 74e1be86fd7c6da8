-- ===== src/Views/PostSettings.antt =====
-- Changing a setting: all of it or nothing, and where a transaction is left open.
use mahogany.Base.{
  ℕ, zero, refl, suc, String, ◌≡◌, Option, none, some, List, [], ◌∷◌, map, arith, Error, Result, ok,
  err, find_first, ◌==◌, string_eq,
}
use mahogany.Database.{Setting, Database, run}
use mahogany.Database.Settings.{UpdateSettingParams, assign, get_setting, update_setting}
use mahogany.Sources.Watchtower.{new_watchtower}
use mahogany.Views.{World, ViewFinder}
use mahogany.Views.Settings.{read_setting, reload, post_settings, transaction_step}

-- The value of a setting in a table; one that is missing reads as the empty text.
abbrev value_of : String → List Setting → String
value_of name rows = elim (find_first (λ s. s.name == name) rows) [ none ↦ "" | some s ↦ s.value ]

-- The clients that a table of settings calls for, or the complaint about a duration in it.
abbrev pub configured : World → List Setting → ViewFinder → Result ViewFinder
configured w rows v = elim (w.parse_duration (value_of "RegistryTimeout" rows)) [
  | err e ↦ err e
  | ok registry_timeout ↦ elim (w.parse_duration (value_of "WatchtowerTimeout" rows)) [
    | err e ↦ err e
    | ok watchtower_timeout ↦ ok (record v {
      registry = record { addr = value_of "RegistryAddr" rows; timeout = registry_timeout };
      watchtower =
          new_watchtower (value_of "WatchtowerAddr" rows) (value_of "WatchtowerToken" rows)
            watchtower_timeout;
      device_finder = record {
        api_key = value_of "TailscaleApiKey" rows;
        tailnet = value_of "TailnetName" rows;
      };
    })
  ]
]

read_setting_lem :
    (name : String) (db : Database)
    → db.faults ≡ []
    → read_setting name db ≡ (value_of name db.settings, db)
unfolding read_setting get_setting
read_setting_lem name db fine = ground arith

abbrev reloaded : World → Database → ViewFinder → Option Error × ViewFinder × Database
reloaded w db v = elim (configured w db.settings v) [
  | err e ↦ (some e, v, db)
  | ok v' ↦ (none, v', db)
]

pub reload_lem :
    (w : World) (v : ViewFinder) (db : Database) → db.faults ≡ [] → reload w v db ≡ reloaded w db v
unfolding reload
reload_lem w v db fine = ground (
  arith,
  read_setting_lem "RegistryTimeout" db fine,
  read_setting_lem "WatchtowerTimeout" db fine,
  read_setting_lem "RegistryAddr" db fine,
  read_setting_lem "WatchtowerAddr" db fine,
  read_setting_lem "WatchtowerToken" db fine,
  read_setting_lem "TailscaleApiKey" db fine,
  read_setting_lem "TailnetName" db fine,
)

-- The tables with a setting changed.
abbrev pub with_setting : UpdateSettingParams → Database → Database
with_setting params db = record db { settings = map (assign params) db.settings }

abbrev pub posted : World → UpdateSettingParams → ViewFinder → Option Error × ViewFinder
posted w params v = elim (configured w (with_setting params v.database).settings v) [
  | err e ↦ (some e, v)
  | ok v' ↦ (none, record v' { database = with_setting params v.database })
]

-- If no statement fails, a change of a setting is all or nothing: where both timeouts of the
-- changed table are durations, the table is changed and every client is the one that it calls for;
-- otherwise the error is returned, and neither the tables nor the clients have changed. No
-- transaction is left open.
pub post_settings-eq-posted :
    (w : World) (params : UpdateSettingParams) (v : ViewFinder)
    → v.database.faults ≡ []
    → post_settings w params v ≡ posted w params v
unfolding post_settings update_setting run
post_settings-eq-posted w params v fine =
    ground (arith, reload_lem w v (with_setting params v.database))

transaction_step_tables :
    (db : Database)
    → (transaction_step db).1 ≡ record db { faults = (transaction_step db).1.faults }
unfolding run
transaction_step_tables db = ground arith

update_setting_settings :
    (params : UpdateSettingParams) (db : Database)
    → (update_setting params db).1.settings ≡ elim (update_setting params db).0 [
      | ok _ ↦ map (assign params) db.settings
      | err _ ↦ db.settings
    ]
unfolding update_setting run
update_setting_settings params db = ground arith

-- Whichever statements fail, where an error is returned the table of settings is as it was.
post_settings_error :
    (w : World) (params : UpdateSettingParams) (v : ViewFinder) (e : Error)
    → (post_settings w params v).0 ≡ some e
    → (post_settings w params v).1.database.settings ≡ v.database.settings
unfolding post_settings
post_settings_error w params v e failed = ground (
  arith,
  transaction_step_tables v.database,
  update_setting_settings params (transaction_step v.database).1,
)

-- Where the transaction begins and its update fails, the error is returned with the transaction
-- still open.
post_settings_leak :
    (w : World) (params : UpdateSettingParams) (v : ViewFinder) (e : Error)
    (later : List (Option Error))
    → v.database.faults ≡ none ∷ some e ∷ later
    → post_settings w params v ≡ (
      some e,
      record v {
        database = record v.database { faults = later };
        open_transactions = suc v.open_transactions;
      },
    )
unfolding post_settings update_setting run
post_settings_leak w params v e later faults = ground arith

-- So many statements go through before the later ones.
abbrev pub goes_on : ℕ → List (Option Error) → List (Option Error)
goes_on zero later = later
goes_on (suc n) later = none ∷ goes_on n later

read_setting_next :
    (name : String) (db : Database) (later : List (Option Error))
    → db.faults ≡ none ∷ later
    → read_setting name db ≡ (value_of name db.settings, record db { faults = later })
unfolding read_setting get_setting
read_setting_next name db later next = ground arith

reload_next :
    (w : World) (v v' : ViewFinder) (db : Database) (later : List (Option Error))
    → configured w db.settings v ≡ ok v'
    → reload w v (record db { faults = goes_on 7 later }) ≡ (none, v', record db { faults = later })
unfolding reload
reload_next w v v' db later good = ground (
  arith,
  read_setting_next "RegistryTimeout" (record db { faults = goes_on 7 later }) (goes_on 6 later)
      refl,
  read_setting_next "WatchtowerTimeout" (record db { faults = goes_on 6 later }) (goes_on 5 later)
      refl,
  read_setting_next "RegistryAddr" (record db { faults = goes_on 5 later }) (goes_on 4 later) refl,
  read_setting_next "WatchtowerAddr" (record db { faults = goes_on 4 later }) (goes_on 3 later)
      refl,
  read_setting_next "WatchtowerToken" (record db { faults = goes_on 3 later }) (goes_on 2 later)
      refl,
  read_setting_next "TailscaleApiKey" (record db { faults = goes_on 2 later }) (goes_on 1 later)
      refl,
  read_setting_next "TailnetName" (record db { faults = goes_on 1 later }) later refl,
  good,
)

-- Where only the commit fails and the changed table configures the clients, the error is returned
-- and the table is as it was, but the clients are already those that the changed table calls for.
pub post_settings_split :
    (w : World) (params : UpdateSettingParams) (v v' : ViewFinder) (e : Error)
    (later : List (Option Error))
    → v.database.faults ≡ goes_on 9 (some e ∷ later)
    → configured w (with_setting params v.database).settings v ≡ ok v'
    → post_settings w params v
      ≡ (some e, record v' { database = record v.database { faults = later } })
unfolding post_settings update_setting run
post_settings_split w params v v' e later faults good =
    ground (arith, reload_next w v v' (with_setting params v.database) (some e ∷ later) good)
