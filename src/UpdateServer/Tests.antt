-- ===== src/UpdateServer/Tests.antt =====
-- A small topology, and the theorems of the update server at it.
use mahogany.Base.{
  String, starts_with, ◌≡◌, refl, true, false, ◌||◌, Option, none, some, List, [], ◌∷◌, Result, ok,
  Error, keep, string_eq, number_eq,
}
use mahogany.Base.Dict.{lookup, insert}
use mahogany.Schema.{Regex, Release, GithubPackage, Package, Topology}
use mahogany.Schema.Read.{read_topology, read_topology-AllCompiled, AllCompiled}
use mahogany.UpdateServer.{all_hosts, new_update_server, is_entitled}
use mahogany.UpdateServer.Routing.{is_listed, is_mentioned, new_update_server-is_entitled}
use mahogany.UpdateServer.Propagate.{
  Announcement, event_of, propagate, is_accepted, release_of, propagate-event_of,
}
use mahogany.UpdateServer.Github.{propagate-read_topology}
use mahogany.UpdateServer.ReleaseStream.{
  closed_end, messages_of, outcome_of, release_stream, release_stream-eq-keep,
}

abbrev pub matches_tar : Regex
matches_tar name = starts_with name "tool"

abbrev source : GithubPackage
source = record { name = "me/tool"; asset_regex = "^tool"; regex = none }

abbrev pub compiled : GithubPackage
compiled = record source { regex = some matches_tar }

abbrev tool : Package
tool = record {
  id = "tool";
  install_command = "install {}";
  github_package = some source;
  apt_package = none;
  docker_package = none;
  local_package = none;
}

abbrev pub ready_tool : Package
ready_tool = record tool { github_package = some compiled }

-- `tool` goes to `alpha`; `beta` skips it.
abbrev written : Topology
written = record {
  baseline = [];
  host_packages =
      record { host_name = "alpha"; packages = tool ∷ []; skipped = [] }
      ∷ record { host_name = "beta"; packages = []; skipped = "tool" ∷ [] }
      ∷ [];
}

abbrev pub topo : Topology
topo = record written {
  host_packages =
      record { host_name = "alpha"; packages = ready_tool ∷ []; skipped = [] }
      ∷ record { host_name = "beta"; packages = []; skipped = "tool" ∷ [] }
      ∷ [];
}

abbrev compile : String → Result Regex
compile text = ok (λ name. starts_with name "tool")

abbrev read : String → Result Topology
read = read_topology {File = String} ok (λ _. ok written) (λ _. none) compile

read-topo : read "topology.toml" ≡ ok topo
unfolding read_topology
read-topo = refl

read_topology-AllCompiled_example : AllCompiled compile topo
read_topology-AllCompiled_example =
    read_topology-AllCompiled ok (λ _. ok written) (λ _. none) compile "topology.toml" read-topo

-- The host that skips the package gets its releases, and one that is not mentioned does not.
skipping_host_gets_it : is_entitled (new_update_server topo) "beta" "tool" ≡ true
unfolding new_update_server is_entitled string_eq insert lookup
skipping_host_gets_it = refl

other_host_does_not : is_entitled (new_update_server topo) "gamma" "tool" ≡ false
unfolding new_update_server is_entitled string_eq insert lookup
other_host_does_not = refl

new_update_server-is_entitled_example : is_entitled (new_update_server topo) "beta" "tool" ≡ (
    is_listed "tool" topo.baseline
    || is_mentioned "beta" "tool" topo.host_packages
    || is_mentioned all_hosts "tool" topo.host_packages)
new_update_server-is_entitled_example = new_update_server-is_entitled topo "beta" "tool"

abbrev pub announcement : Announcement
announcement = record {
  repo_name = "tool";
  full_name = "me/tool";
  version = "v1";
  assets =
      record { name = "tool.tar"; source_url = "https://github.com/me/tool/releases/tool.tar" }
      ∷ record { name = "tool.exe"; source_url = "https://elsewhere.org/tool.exe" }
      ∷ [];
}

pub found : lookup "tool" (new_update_server topo).github_packages ≡ some ready_tool
unfolding new_update_server string_eq insert lookup
found = refl

propagate-event_of_example :
    propagate (new_update_server topo) (event_of announcement)
    ≡ some (
        release_of announcement ready_tool
          (keep (is_accepted compiled matches_tar) announcement.assets))
propagate-event_of_example =
    propagate-event_of ready_tool compiled matches_tar refl refl (new_update_server topo)
      announcement found

propagate-read_topology_example :
    (r : Option Release) × (propagate (new_update_server topo) (event_of announcement) ≡ some r)
propagate-read_topology_example =
    propagate-read_topology ok (λ _. ok written) (λ _. none) compile "topology.toml" topo
      announcement read-topo

abbrev release : Release
release = record {
  name = "tool";
  version = "v1";
  repository_name = "me/tool";
  assets = [];
  install_command = "install {}";
}

abbrev pub sends_all : List Release → Release → Option Error
sends_all sent r = none

release_stream-eq-keep_example :
    release_stream
      (new_update_server topo)
      "alpha"
      sends_all
      (some (messages_of (release ∷ []) closed_end))
    ≡ (
      outcome_of closed_end,
      keep (λ r. is_entitled (new_update_server topo) "alpha" r.name) (release ∷ []),
    )
release_stream-eq-keep_example =
    release_stream-eq-keep (new_update_server topo) "alpha" sends_all (λ sent r. refl)
      (release ∷ []) closed_end
