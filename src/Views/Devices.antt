-- ===== src/Views/Devices.antt =====
-- pkg/mahogany/views/devices.go: the pages of the devices of the tailnet.
use mahogany.Base.{
  String, starts_with, Bool, false, Option, none, some, List, [], ◌∷◌, ◌++◌, Error, ok, err, any,
  contains, string_eq, if◌then◌else◌,
}
use mahogany.Database.{Package, Database}
use mahogany.Database.Devices.{add_device}
use mahogany.Database.Packages.{list_packages}
use mahogany.Sources.Vpn
use mahogany.Sources.Vpn.{Device, NetPolicy, Acl}
use mahogany.Views.{World, ViewFinder, StatusView, get_status}

pub record DevicesView : Type 0 where
  pub devices : List Device
  pub policy : Option NetPolicy
  pub is_success : Bool
  pub error : Option Error
  pub status : Option StatusView

-- `syncDevices`: the errors are joined and then dropped by the caller.
unfoldable pub sync_devices : List Device → Database → Database
sync_devices [] db = db
sync_devices (d ∷ more) db = sync_devices more (add_device d.hostname db).1

-- `GetDevices`: `IsSuccess` keeps its zero value on every path.
unfoldable pub get_devices : World → ViewFinder → DevicesView × ViewFinder
unfolding sync_devices get_status
get_devices w v = elim (Vpn.list_devices w.net w.vpn_decoders v.device_finder) [
  | err e ↦
      (record { devices = []; policy = none; is_success = false; error = some e; status = none }, v)
  | ok devices ↦
      let (status, v') = get_status w (record v { database = sync_devices devices v.database }) in
      (
        elim (Vpn.get_acl w.net w.vpn_decoders v.device_finder) [
          | err e ↦ record {
            devices = devices;
            policy = none;
            is_success = false;
            error = some e;
            status = some status;
          }
          | ok policy ↦ record {
            devices = devices;
            policy = some policy;
            is_success = false;
            error = none;
            status = some status;
          }
        ],
        v',
      )
]

-- The loop over the device's tags, for one rule.
abbrev pub per_tag : (String → Bool) → Acl → List String → List Acl
per_tag test acl [] = []
per_tag test acl (tag ∷ tags) =
    let rest = per_tag test acl tags in if test tag then acl ∷ rest else rest

-- The loop over the rules.
abbrev pub per_acl : (Acl → String → Bool) → List String → List Acl → List Acl
per_acl test tags [] = []
per_acl test tags (acl ∷ acls) = per_tag (test acl) acl tags ++ per_acl test tags acls

-- `slices.Contains(acl.Source, tag)`
abbrev pub is_source : Acl → String → Bool
is_source acl tag = contains acl.source tag

-- `slices.ContainsFunc(acl.Destination, …)`
abbrev pub is_destination : Acl → String → Bool
is_destination acl tag = any (λ dest. starts_with dest tag) acl.destination

unfoldable pub source_acls : List String → List Acl → List Acl
source_acls = per_acl is_source

unfoldable pub dest_acls : List String → List Acl → List Acl
dest_acls = per_acl is_destination

pub record DeviceView : Type 0 where
  pub device : Option Device
  pub source_policy : Option (List Acl)
  pub dest_policy : Option (List Acl)
  pub all_packages : List Package
  pub is_success : Bool
  pub error : Option Error

abbrev failed_view : Error → DeviceView
failed_view e = record {
  device = none;
  source_policy = none;
  dest_policy = none;
  all_packages = [];
  is_success = false;
  error = some e;
}

-- `GetDevice`
unfoldable pub get_device_view : World → String → ViewFinder → DeviceView × ViewFinder
unfolding source_acls dest_acls
get_device_view w device_id v =
    elim (Vpn.get_device w.net w.vpn_decoders v.device_finder device_id) [
      | err e ↦ (failed_view e, v)
      | ok device ↦ elim (Vpn.get_acl w.net w.vpn_decoders v.device_finder) [
        | err e ↦ (failed_view e, v)
        | ok policy ↦
            let (packages, db) = list_packages v.database in
            (
              record {
                device = some device;
                source_policy = some (source_acls device.tags policy.acls);
                dest_policy = some (dest_acls device.tags policy.acls);
                all_packages = elim packages [ ok rows ↦ rows | err e ↦ [] ];
                is_success = false;
                error = none;
              },
              record v { database = db },
            )
      ]
    ]
