-- ===== src/Database/Devices.antt =====
-- The statements on `devices` and `assets` in internal/db/queries.sql.go.
use mahogany.Base.{
  ℕ, String, Option, none, some, List, [], ◌∷◌, ◌++◌, map, not, ok, err, any, keep, find_first,
  length, sort_by, leb, ◌==◌, string_eq, number_eq, if◌then◌else◌,
}
use mahogany.Database.{Device, Asset, Query, run, no_rows, not_unique, fresh_id, text_le}

-- `SELECT * FROM devices ORDER BY hostname`
abbrev pub list_devices : Query (List Device)
unfolding run
list_devices = run λ db. (ok (sort_by (λ a b. text_le a.hostname b.hostname) db.devices), db)

abbrev pub new_device : String → List Device → Device
new_device hostname rows = record {
  id = fresh_id (map (λ (d : Device). d.id) rows);
  hostname = hostname;
  tailscale_last_seen = none;
  agent_last_seen = none;
}

-- `INSERT INTO devices (hostname) VALUES (?) RETURNING *`
unfoldable pub add_device : String → Query Device
unfolding run
add_device hostname = run λ db.
    if any (λ d. d.hostname == hostname) db.devices then (err not_unique, db) else (
      ok (new_device hostname db.devices),
      record db { devices = db.devices ++ (new_device hostname db.devices ∷ []) },
    )

-- `SELECT * FROM devices WHERE hostname = ?`
unfoldable pub get_device : String → Query Device
unfolding run
get_device hostname = run λ db. elim (find_first (λ d. d.hostname == hostname) db.devices) [
  | none ↦ (err no_rows, db)
  | some d ↦ (ok d, db)
]

-- `UPDATE devices SET tailscale_last_seen = ?, agent_last_seen = ? WHERE hostname = ?`
unfoldable update_device : Option ℕ → Option ℕ → String → Query (Unit {0})
unfolding run
update_device tailscale agent hostname = run λ db. (
  ok tt,
  record db {
    devices =
        map
          (λ (d : Device).
            if d.hostname == hostname
            then record d { tailscale_last_seen = tailscale; agent_last_seen = agent }
            else d)
          db.devices;
  },
)

-- `SELECT COUNT(*) FROM devices`
unfoldable pub count_devices : Query ℕ
unfolding run
count_devices = run λ db. (ok (length db.devices), db)

-- `DELETE FROM devices WHERE id = ?`
unfoldable delete_device : ℕ → Query (Unit {0})
unfolding run
delete_device id =
    run λ db. (ok tt, record db { devices = keep (λ d. not (d.id == id)) db.devices })

record AddAssetParams : Type 0 where
  pub device_id : ℕ
  pub package_id : ℕ
  pub source_url : Option String
  pub version : Option String

abbrev new_asset : AddAssetParams → List Asset → Asset
new_asset arg rows = record {
  id = fresh_id (map (λ (a : Asset). a.id) rows);
  device_id = arg.device_id;
  package_id = arg.package_id;
  source_url = arg.source_url;
  version = arg.version;
}

-- `INSERT INTO assets (device_id, package_id, source_url, version) VALUES (?, ?, ?, ?) RETURNING *`
unfoldable add_asset : AddAssetParams → Query Asset
unfolding run
add_asset arg = run λ db. (
  ok (new_asset arg db.assets),
  record db { assets = db.assets ++ (new_asset arg db.assets ∷ []) },
)

-- `SELECT * FROM assets ORDER BY id`, on a device, and for a package
unfoldable list_assets : Query (List Asset)
unfolding run
list_assets = run λ db. (ok (sort_by (λ a b. leb a.id b.id) db.assets), db)

unfoldable list_assets_on_device : ℕ → Query (List Asset)
unfolding run
list_assets_on_device device =
    run
      λ db. (ok (sort_by (λ a b. leb a.id b.id) (keep (λ a. a.device_id == device) db.assets)), db)

unfoldable list_assets_for_package : ℕ → Query (List Asset)
unfolding run
list_assets_for_package package_id = run λ db.
    (ok (sort_by (λ a b. leb a.id b.id) (keep (λ a. a.package_id == package_id) db.assets)), db)
