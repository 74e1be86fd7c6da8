-- ===== src/UpdateServer.antt =====
-- pkg/mahogany/sources/update_server.go: the tables that say which package comes from where and goes
-- to which host, and how they are built from the topology.
pub mod Tests
pub mod ConnectionsTests
pub mod TrackingTests
pub mod Routing
pub mod Propagate
pub mod Github
pub mod ReleaseStream
pub mod ServicesStream
pub mod Tracking
pub mod History
pub mod Connections
pub mod Manifest
mod ManifestTests
use mahogany.Base.{String, Bool, true, false, ◌||◌, Option, none, some, List, [], ◌∷◌}
use mahogany.Base.{◌==◌, string_eq, if◌then◌else◌}
use mahogany.Base.Dict.{Dict, lookup, insert}
use mahogany.Schema.{Package, HostPackages, Topology}

-- `ALL_HOSTS`
abbrev pub all_hosts : String
all_hosts = "*"

-- `map[string]bool`, as a set of host names: no entry is ever set to `false` or deleted.
abbrev pub Hosts : Type 0
Hosts = Dict String Bool

-- The fields that `NewUpdateServer` fills from the topology. The listener, the broker and the
-- database handle are in the modules of their own.
pub record UpdateServer : Type 0 where
  pub topology : Topology
  pub github_packages : Dict String Package
  pub package_to_host : Dict String Hosts

-- `m[k]` on a set of hosts: a missing key reads as `false`.
abbrev pub has_host : Hosts → String → Bool
has_host hosts host = elim (lookup host hosts) [ none ↦ false | some b ↦ b ]

-- `packOnHost, ok := s.packageToHost[name]`, with a new map where there is none.
abbrev pub hosts_of : String → Dict String Hosts → Hosts
hosts_of name table = elim (lookup name table) [ none ↦ [] | some hosts ↦ hosts ]

-- The look-up, and `packOnHost[host] = true` in the map that the table holds.
pub add_host : String → String → Dict String Hosts → Dict String Hosts
add_host host name table = insert name (insert host true (hosts_of name table)) table

pub add_github : Package → Dict String Package → Dict String Package
add_github pack table = elim pack.github_package [
  | none ↦ table
  | some g ↦ insert pack.id pack table
]

-- The loop over `topology.Baseline`.
pub add_baseline : List Package → UpdateServer → UpdateServer
unfolding add_github
add_baseline [] s = s
add_baseline (pack ∷ packs) s = add_baseline packs (record s {
  github_packages = add_github pack s.github_packages;
  package_to_host = insert pack.id (insert all_hosts true []) s.package_to_host;
})

-- The loop over `host.Packages`.
pub add_packages : String → List Package → UpdateServer → UpdateServer
unfolding add_github add_host
add_packages host [] s = s
add_packages host (pack ∷ packs) s = add_packages host packs (record s {
  github_packages = add_github pack s.github_packages;
  package_to_host = add_host host pack.id s.package_to_host;
})

-- The loop over `host.Skipped`.
pub add_skipped : String → List String → UpdateServer → UpdateServer
unfolding add_host
add_skipped host [] s = s
add_skipped host (name ∷ names) s =
    add_skipped host names (record s { package_to_host = add_host host name s.package_to_host })

-- The loop over `topology.HostPackages`.
pub add_hosts : List HostPackages → UpdateServer → UpdateServer
unfolding add_packages add_skipped
add_hosts [] s = s
add_hosts (h ∷ hs) s =
    add_hosts hs (add_skipped h.host_name h.skipped (add_packages h.host_name h.packages s))

abbrev pub start : Topology → UpdateServer
start topo = record { topology = topo; github_packages = []; package_to_host = [] }

-- `NewUpdateServer`, from the topology on.
pub new_update_server : Topology → UpdateServer
unfolding add_baseline add_hosts
new_update_server topo = add_hosts topo.host_packages (add_baseline topo.baseline (start topo))

-- The test of `ReleaseStream`: `ok && (pack[req.Hostname] || pack[ALL_HOSTS])`.
pub is_entitled : UpdateServer → String → String → Bool
is_entitled s host name = elim (lookup name s.package_to_host) [
  | none ↦ false
  | some hosts ↦ has_host hosts host || has_host hosts all_hosts
]
