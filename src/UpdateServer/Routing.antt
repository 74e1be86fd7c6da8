-- ===== src/UpdateServer/Routing.antt =====
-- Which hosts `NewUpdateServer` entitles to which package, read off the topology.
use mahogany.Base.{
  String, ◌≡◌, refl, Bool, true, false, ◌&&◌, ◌||◌, none, some, List, [], ◌∷◌, arith,
}
use mahogany.Base.{◌==◌, contains, string_eq, if◌then◌else◌}
use mahogany.Base.Dict.{Dict, lookup, insert, lookup-insert, lookup-nil}
use mahogany.Schema.{Package, HostPackages, Topology}
use mahogany.UpdateServer.{
  UpdateServer, Hosts, all_hosts, has_host, hosts_of, add_host, add_github, add_baseline,
  add_packages, add_skipped, add_hosts, start, new_update_server, is_entitled,
}

-- Whether the table of hosts has `host` under `name`.
abbrev listed : Dict String Hosts → String → String → Bool
listed table host name = elim (lookup name table) [
  | none ↦ false
  | some hosts ↦ has_host hosts host
]

abbrev pub is_listed : String → List Package → Bool
is_listed name [] = false
is_listed name (pack ∷ packs) = name == pack.id || is_listed name packs

-- Some entry for `host` names the package, among its packages or among those it skips.
abbrev pub is_mentioned : String → String → List HostPackages → Bool
is_mentioned host name [] = false
is_mentioned host name (h ∷ hs) =
    (host == h.host_name && (is_listed name h.packages || contains h.skipped name))
    || is_mentioned host name hs

has_host-insert :
    (host host' : String) (hosts : Hosts)
    → has_host (insert host' true hosts) host ≡ (host == host' || has_host hosts host)
has_host-insert host host' hosts = ground (arith, lookup-insert host host' true hosts)

listed-add_host :
    (table : Dict String Hosts) (host host' name name' : String)
    → listed (add_host host' name' table) host name
      ≡ ((host == host' && name == name') || listed table host name)
unfolding add_host
listed-add_host table host host' name name' = ground (
  arith,
  lookup-insert name name' (insert host' true (hosts_of name' table)) table,
  has_host-insert host host' (hosts_of name' table),
  lookup-nil {V = Bool} host,
)

listed-add_packages :
    (host' : String) (packs : List Package) (s : UpdateServer) (host name : String)
    → listed (add_packages host' packs s).package_to_host host name
      ≡ ((host == host' && is_listed name packs) || listed s.package_to_host host name)
unfolding add_packages
listed-add_packages host' [] s host name = ground arith
listed-add_packages host' (pack ∷ packs) s host name = ground (
  arith,
  listed-add_packages host' packs
      (record s {
        github_packages = add_github pack s.github_packages;
        package_to_host = add_host host' pack.id s.package_to_host;
      })
      host name,
  listed-add_host s.package_to_host host host' name pack.id,
)

listed-add_skipped :
    (host' : String) (names : List String) (s : UpdateServer) (host name : String)
    → listed (add_skipped host' names s).package_to_host host name
      ≡ ((host == host' && contains names name) || listed s.package_to_host host name)
unfolding add_skipped
listed-add_skipped host' [] s host name = ground arith
listed-add_skipped host' (n ∷ names) s host name = ground (
  arith,
  listed-add_skipped host' names (record s { package_to_host = add_host host' n s.package_to_host })
      host name,
  listed-add_host s.package_to_host host host' name n,
)

listed-add_hosts :
    (hs : List HostPackages) (s : UpdateServer) (host name : String)
    → listed (add_hosts hs s).package_to_host host name
      ≡ (is_mentioned host name hs || listed s.package_to_host host name)
unfolding add_hosts
listed-add_hosts [] s host name = refl
listed-add_hosts (h ∷ hs) s host name = ground (
  arith,
  listed-add_hosts hs (add_skipped h.host_name h.skipped (add_packages h.host_name h.packages s))
      host name,
  listed-add_skipped h.host_name h.skipped (add_packages h.host_name h.packages s) host name,
  listed-add_packages h.host_name h.packages s host name,
)

listed-add_baseline :
    (packs : List Package) (s : UpdateServer) (host name : String)
    → listed (add_baseline packs s).package_to_host host name
      ≡ (if is_listed name packs then host == all_hosts else listed s.package_to_host host name)
unfolding add_baseline
listed-add_baseline [] s host name = refl
listed-add_baseline (pack ∷ packs) s host name = ground (
  arith,
  listed-add_baseline packs
      (record s {
        github_packages = add_github pack s.github_packages;
        package_to_host = insert pack.id (insert all_hosts true []) s.package_to_host;
      })
      host name,
  lookup-insert name pack.id (insert all_hosts true []) s.package_to_host,
  has_host-insert host all_hosts [],
  lookup-nil {V = Bool} host,
)

is_entitled-eq-listed :
    (s : UpdateServer) (host name : String)
    → is_entitled s host name
      ≡ (listed s.package_to_host host name || listed s.package_to_host all_hosts name)
unfolding is_entitled
is_entitled-eq-listed s host name = ground arith

start-listed :
    (topo : Topology) (host name : String) → listed (start topo).package_to_host host name ≡ false
start-listed topo host name = ground (arith, lookup-nil {V = Hosts} name)

listed-new_update_server :
    (topo : Topology) (host name : String)
    → listed (new_update_server topo).package_to_host host name ≡ (
        is_mentioned host name topo.host_packages
        || (is_listed name topo.baseline && host == all_hosts))
unfolding new_update_server
listed-new_update_server topo host name = ground (
  arith,
  listed-add_hosts topo.host_packages (add_baseline topo.baseline (start topo)) host name,
  listed-add_baseline topo.baseline (start topo) host name,
  start-listed topo host name,
)

-- A host gets the releases of a package exactly when the baseline has the package, or an entry of
-- the topology for that host, or for the host `*`, names it among its packages or among the
-- packages that it skips.
pub new_update_server-is_entitled :
    (topo : Topology) (host name : String)
    → is_entitled (new_update_server topo) host name ≡ (
        is_listed name topo.baseline
        || is_mentioned host name topo.host_packages
        || is_mentioned all_hosts name topo.host_packages)
new_update_server-is_entitled topo host name = ground (
  arith,
  is_entitled-eq-listed (new_update_server topo) host name,
  listed-new_update_server topo host name,
  listed-new_update_server topo all_hosts name,
)
