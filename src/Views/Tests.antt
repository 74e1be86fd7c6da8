-- ===== src/Views/Tests.antt =====
-- A small control plane, and the theorems of its pages at it.
use mahogany.Base.{
  not, ◌&&◌, ◌+◌, count_if, Bool, ℕ, String, ◌≡◌, refl, true, false, none, some, List, [], ◌∷◌,
  arith, ok, err, pos, ◌==◌, string_eq, number_eq, if◌then◌else◌,
}
use mahogany.Database.{Setting, Database}
use mahogany.Database.Unique.{IsUnique}
use mahogany.Database.Settings.{UpdateSettingParams}
use mahogany.Database.Packages.{AddPackageParams}
use mahogany.Sources.Http.{Network, Request}
use mahogany.Sources.Registry
use mahogany.Sources.Watchtower.{new_watchtower}
use mahogany.Sources.Vpn.{Device, NetPolicy}
use mahogany.Views.{World, ViewFinder}
use mahogany.Views.Settings.{post_settings}
use mahogany.Views.PostSettings.{posted, post_settings-eq-posted, post_settings_split, goes_on}
use mahogany.Views.Packages.{post_package, is_taken, no_params}
use mahogany.Views.Posting.{
  post_package-get_packages, required, first_empty, toast_for, is_nothing, is_accepted, gained,
  texts_of, shown,
}
use mahogany.Views.Removal.{remove_package-post_package}
use mahogany.Views.Packages.{remove_package}
use mahogany.Server.{handle_post_settings}
use mahogany.Server.Saving.{handle_post_settings_unknown}
use mahogany.Views.Images.{Shows, get_registry}
use mahogany.Views.Holdings.{all_held, get_registry-Shows}

-- A network whose every answer is a success with the address as its body.
abbrev net : Network
net = record {
  refuses = λ url. none;
  answer = λ (req : Request). ok (record { status_code = 200; status = "200 OK"; body = req.url });
}

abbrev no_blob : Registry.Blob
no_blob = record { media_type = ""; size = 0; digest = "" }

abbrev policy : NetPolicy
policy = record { groups = []; tag_owners = []; hosts = []; acls = []; ssh_acls = [] }

abbrev pub world : World
world = record {
  net = net;
  registry_decoders = record {
    catalog = λ body. ok (record { repositories = "tool" ∷ [] });
    tags = λ body. ok (record { name = "tool"; tags = "v1" ∷ "v2" ∷ [] });
    manifest = λ body. ok (record {
      schema_version = 2;
      name = "";
      tag = "";
      media_type = body;
      config = no_blob;
      layers = [];
    });
  };
  vpn_decoders = record {
    devices = λ body. ok [];
    device = λ body. err "not a device";
    policy = λ body. ok policy;
  };
  parse_duration = λ text. if text == "" then err "invalid duration" else ok (pos 5);
  connections = pos 0;
}

abbrev setting : ℕ → String → String → Setting
setting id name value = record { id = id; name = name; value = value }

abbrev tables : Database
tables = record {
  devices = [];
  packages = [];
  assets = [];
  settings =
      setting 1 "RegistryTimeout" "5s"
      ∷ setting 2 "WatchtowerTimeout" "5s"
      ∷ setting 3 "RegistryAddr" "old"
      ∷ [];
  watched_services = [];
  tracked_services = [];
  faults = [];
}

tables-IsUnique : IsUnique tables
tables-IsUnique = record {
  hostnames = λ h. omega arith;
  package_names = λ n. omega arith;
  package_ids = λ i. ground arith;
  watched_names = λ n. omega arith;
  services = λ d n. omega arith;
  service_ids = λ i. omega arith;
}

abbrev pub finder : ViewFinder
finder = record {
  registry = record { addr = "old"; timeout = pos 5 };
  watchtower = record { addr = ""; token = ""; timeout = pos 0 };
  device_finder = record { api_key = ""; tailnet = "" };
  database = tables;
  open_transactions = 0;
}

abbrev pub new_addr : UpdateSettingParams
new_addr = record { value = "new"; name = "RegistryAddr" }

post_settings-eq-posted_example : post_settings world new_addr finder ≡ posted world new_addr finder
post_settings-eq-posted_example = post_settings-eq-posted world new_addr finder refl

abbrev bad_timeout : UpdateSettingParams
bad_timeout = record { value = ""; name = "RegistryTimeout" }

abbrev locked : ViewFinder
locked = record finder {
  database = record tables { faults = none ∷ some "database is locked" ∷ [] };
}

abbrev no_commit : ViewFinder
no_commit = record finder {
  database = record tables { faults = goes_on 9 (some "disk I/O error" ∷ []) };
}

-- The clients for the changed table.
abbrev ahead : ViewFinder
ahead = record no_commit {
  registry = record { addr = "new"; timeout = pos 5 };
  watchtower = new_watchtower "" "" (pos 5);
}

post_settings_split_example :
    post_settings world new_addr no_commit
    ≡ (some "disk I/O error", record ahead { database = tables })
unfolding string_eq
post_settings_split_example =
    post_settings_split world new_addr no_commit ahead "disk I/O error" [] refl refl

abbrev params : AddPackageParams
params = record { name = "tool"; install_cmd = "get"; update_cmd = "get"; remove_cmd = none }

abbrev gets : AddPackageParams → Bool
gets p = p.install_cmd == "get"

post_package-get_packages_example :
    let (page, v) = post_package world params finder in
    let asked = first_empty (required params) in
    let refused = is_nothing asked && is_taken params finder.database in
    (count_if (λ p. gets (texts_of p)) page.packages
      ≡ count_if (λ p. gets (texts_of p)) (shown world finder) + gained params finder.database gets)
    × (count_if (λ p. gets (texts_of p)) (shown world v)
        ≡ count_if (λ p. gets (texts_of p)) (shown world finder)
          + gained params finder.database gets)
    × (page.toast ≡ toast_for asked)
    × (page.error ≡ (if refused then some "UNIQUE constraint failed" else none))
    × (page.is_success ≡ not refused)
    × (page.add_package ≡ (if is_accepted params finder.database then no_params else params))
    × (v ≡ record finder { database = record finder.database { packages = v.database.packages } })
post_package-get_packages_example = post_package-get_packages world params finder gets refl

remove_package-post_package_example :
    (remove_package (λ id. ok 1) world "1" (post_package world params finder).1).1 ≡ finder
unfolding string_eq
remove_package-post_package_example =
    remove_package-post_package (λ id. ok 1) world params "1" finder refl refl refl refl

abbrev configured_finder : ViewFinder
configured_finder = record finder { watchtower = new_watchtower "" "" (pos 5) }

handle_post_settings_unknown_example :
    handle_post_settings none (λ _ _. none) world "Colour" "red" none finder ≡ (
      record { code = 200; headers = []; template = some ("settings-toast", "saved") },
      configured_finder,
    )
unfolding string_eq
handle_post_settings_unknown_example =
    handle_post_settings_unknown world "Colour" "red" finder configured_finder refl refl refl

get_registry-Shows_example : Shows (get_registry world finder).0 (all_held world finder)
get_registry-Shows_example = get_registry-Shows world finder

abbrev device : String → Device
device hostname = record {
  addresses = [];
  id = "1";
  node_id = "";
  user = "";
  name = "";
  hostname = hostname;
  client_version = "";
  is_update_available = false;
  os = "linux";
  created = "";
  last_seen = "";
  is_key_expiry_disabled = false;
  expires_at = "";
  is_authorized = true;
  is_external = false;
  machine_key = "";
  node_key = "";
  blocks_incoming_connections = false;
  tailnet_lock_key = "";
  tailnet_lock_error = "";
  tags = "tag:web" ∷ [];
}

abbrev devices : List Device
devices = device "alpha" ∷ device "beta" ∷ device "alpha" ∷ []
