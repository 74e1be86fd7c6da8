-- ===== src/Views.antt =====
-- pkg/mahogany/views: the state behind the pages, and the status that every page shows.
pub mod Settings
pub mod PostSettings
pub mod Packages
pub mod Posting
pub mod Devices
pub mod Sync
pub mod Containers
pub mod Index
pub mod ControlPlane
pub mod Removal
pub mod Restart
pub mod Images
pub mod Holdings
pub mod Tests
use mahogany.Base.{ℕ, String, Bool, true, false, Option, none, some, List, Result, ok, err, ℤ}
use mahogany.Database.{Database}
use mahogany.Database.Devices.{count_devices}
use mahogany.Sources.Http.{Network}
use mahogany.Sources.Registry
use mahogany.Sources.Watchtower
use mahogany.Sources.Vpn

-- What the code takes from elsewhere: the network, the JSON decoders, `time.ParseDuration` (in
-- nanoseconds) and the number of open release streams.
pub record World : Type 0 where
  pub net : Network
  pub registry_decoders : Registry.Decoders
  pub vpn_decoders : Vpn.Decoders
  pub parse_duration : String → Result ℤ
  pub connections : ℤ

-- `ViewFinder`, with its database and the number of transactions that were begun and are neither
-- committed nor rolled back.
pub record ViewFinder : Type 0 where
  pub registry : Registry.Registry
  pub watchtower : Watchtower.Watchtower
  pub device_finder : Vpn.TailscaleClient
  pub database : Database
  pub open_transactions : ℕ

pub record StatusView : Type 0 where
  pub num_agents : ℤ
  pub num_devices : ℕ
  pub registry_connected : Bool
  pub watchtower_connected : Bool

abbrev pub is_none : {A : Type 0} → Option A → Bool
is_none none = true
is_none (some a) = false

-- `GetStatus`: a failed count shows as 0.
unfoldable pub get_status : World → ViewFinder → StatusView × ViewFinder
get_status w v =
    let (devices, db) = count_devices v.database in
    (
      record {
        num_agents = w.connections;
        num_devices = elim devices [ ok n ↦ n | err e ↦ 0 ];
        registry_connected = is_none (Registry.status w.net v.registry);
        watchtower_connected = is_none (Watchtower.status w.net v.watchtower);
      },
      record v { database = db },
    )
