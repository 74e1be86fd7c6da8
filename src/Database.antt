-- ===== src/Database.antt =====
-- The database: the tables of internal/db/schema.sql with the row types of internal/db/models.go,
-- and how a statement runs. A statement may fail before it does anything (a lost connection, a
-- cancelled context): `faults` lists in advance which of the next statements do. SQLite does not
-- enforce foreign keys, since the program does not turn them on.
pub mod Order
pub mod Devices
pub mod Packages
pub mod Settings
pub mod Services
pub mod Unique
pub mod Watched
use Prim.Native.Nat.{Ordering}
use Prim.Native.String
use mahogany.Base.{
  ℕ, suc, String, Bool, true, false, Option, none, some, List, [], ◌∷◌, map, Error, Result, ok, err,
  ltb, if◌then◌else◌,
}

pub record Device : Type 0 where
  pub id : ℕ
  pub hostname : String
  pub tailscale_last_seen : Option ℕ
  pub agent_last_seen : Option ℕ

pub record Package : Type 0 where
  pub id : ℕ
  pub name : String
  pub install_cmd : String
  pub update_cmd : String
  pub remove_cmd : Option String

pub record Asset : Type 0 where
  pub id : ℕ
  pub device_id : ℕ
  pub package_id : ℕ
  pub source_url : Option String
  pub version : Option String

pub record Setting : Type 0 where
  pub id : ℕ
  pub name : String
  pub value : String

pub record WatchedService : Type 0 where
  pub id : ℕ
  pub name : String

pub record TrackedService : Type 0 where
  pub id : ℕ
  pub device_id : ℕ
  pub name : String
  pub status : String
  pub last_updated : ℕ
  pub container_id : Option String
  pub container_image : Option String

pub record Database : Type 0 where
  pub devices : List Device
  pub packages : List Package
  pub assets : List Asset
  pub settings : List Setting
  pub watched_services : List WatchedService
  pub tracked_services : List TrackedService
  pub faults : List (Option Error)

-- A statement with its result.
abbrev pub Query {ℓ} : Type ℓ → Type ℓ
Query A = Database → Result A × Database

-- A statement that fails changes no table.
unfoldable pub run {ℓ} : {A : Type ℓ} → Query A → Query A
run q db = elim db.faults [
  | [] ↦ q db
  | none ∷ later ↦ q (record db { faults = later })
  | some e ∷ later ↦ (err e, record db { faults = later })
]

-- `sql.ErrNoRows`
abbrev pub no_rows : Error
no_rows = "sql: no rows in result set"

-- What the driver reports for a duplicate in a column that is UNIQUE.
abbrev pub not_unique : Error
not_unique = "UNIQUE constraint failed"

abbrev pub largest : List ℕ → ℕ
largest [] = 0
largest (n ∷ ns) = let rest = largest ns in if ltb rest n then n else rest

-- The id of a new row of an `INTEGER PRIMARY KEY`: one more than the largest in the table.
abbrev pub fresh_id : List ℕ → ℕ
fresh_id ids = suc (largest ids)

-- The order of `text` columns.
abbrev pub text_le : String → String → Bool
text_le a b = elim (String.compare a b) [ Ordering.gt ↦ false | _ ↦ true ]
