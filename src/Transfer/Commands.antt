-- ===== src/Transfer/Commands.antt =====
-- `exportData` and `importData` of main.go as commands: the flags, the file and the JSON codec around
-- the data. The file is its text, if it is there; what the libraries give is a parameter.
use mahogany.Base.{String, ◌≡◌, Option, none, some, List, Error, Result, ok, err, arith}
use mahogany.Database.{Database}
use mahogany.Transfer.{AppData, export_data, import_data}

-- What happens before the data is touched: parsing the flags, opening the file, opening the database.
record Opening : Type 0 where
  pub flags : Option Error
  pub file : Option Error
  pub database : Option Error

-- `exportData`. The file is emptied when it is opened, so a later failure leaves it empty.
unfoldable export_command :
    (AppData → Result String) → Opening → Database → Option String → Option String × Database
export_command encode o db file = elim o.flags [
  | some _ ↦ (file, db)
  | none ↦ elim o.file [
    | some _ ↦ (file, db)
    | none ↦ elim o.database [
      | some _ ↦ (some "", db)
      | none ↦
          let (exported, db') = export_data db in
          elim exported [
            | err _ ↦ (some "", db')
            | ok app ↦ (some (elim (encode app) [ err _ ↦ "" | ok text ↦ text ]), db')
          ]
    ]
  ]
]

-- `importData`, by the errors that are joined, if it comes to the loops, and the tables.
unfoldable import_command :
    (String → Result AppData) → Opening → Option String → Database → Option (List Error) × Database
import_command decode o file db = elim o.flags [
  | some _ ↦ (none, db)
  | none ↦ elim o.file [
    | some _ ↦ (none, db)
    | none ↦ elim file [
      | none ↦ (none, db)
      | some text ↦ elim o.database [
        | some _ ↦ (none, db)
        | none ↦ elim (decode text) [
          | err _ ↦ (none, db)
          | ok app ↦ let (errors, db') = import_data app db in (some errors, db')
        ]
      ]
    ]
  ]
]

-- An export that opens the file and fails later empties it, whatever it held.
export_command_empties :
    (encode : AppData → Result String) (db : Database) (file : Option String) (e : Error)
    → (export_data db).0 ≡ err e
    → (export_command encode (record { flags = none; file = none; database = none }) db file).0
      ≡ some ""
unfolding export_command
export_command_empties encode db file e failed = ground arith

-- From command to command: if nothing fails to open and the decoder reads what the encoder wrote,
-- the import has exactly the data of the export.
import_command-export_command :
    (encode : AppData → Result String) (decode : String → Result AppData) (db new : Database)
    (app : AppData) (text : String) (file : Option String)
    → encode app ≡ ok text
    → decode text ≡ ok app
    → (export_data db).0 ≡ ok app
    → import_command decode
        (record { flags = none; file = none; database = none })
        (export_command encode (record { flags = none; file = none; database = none }) db file).0
        new
      ≡ (some (import_data app new).0, (import_data app new).1)
unfolding export_command import_command
import_command-export_command encode decode db new app text file written same exported =
    ground arith
