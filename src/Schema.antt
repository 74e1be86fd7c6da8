-- ===== src/Schema.antt =====
-- pkg/schema/topology.go: the topology file, and the protocol messages of the update service
-- (schema/update_service.proto). A compiled regular expression is known by what it matches.
pub mod Read
use mahogany.Base.{String, ℕ, Bool, Option, List}

-- `regexp.Regexp`, by its `MatchString`.
abbrev pub Regex : Type 0
Regex = String → Bool

pub record GithubPackage : Type 0 where
  pub name : String
  pub asset_regex : String
  pub regex : Option Regex

pub record AptPackage : Type 0 where
  pub name : String

pub record DockerPackage : Type 0 where
  pub name : String

pub record LocalPackage : Type 0 where
  pub name : String
  pub source : String
  pub destination : String

pub record Package : Type 0 where
  pub id : String
  pub install_command : String
  pub github_package : Option GithubPackage
  pub apt_package : Option AptPackage
  pub docker_package : Option DockerPackage
  pub local_package : Option LocalPackage

pub record HostPackages : Type 0 where
  pub host_name : String
  pub packages : List Package
  pub skipped : List String

pub record Topology : Type 0 where
  pub baseline : List Package
  pub host_packages : List HostPackages

-- The messages `Asset` and `Release`.
pub record Asset : Type 0 where
  pub name : String
  pub source_url : String

pub record Release : Type 0 where
  pub name : String
  pub version : String
  pub repository_name : String
  pub assets : List Asset
  pub install_command : String

-- The messages by which an agent reports its services. The times that a message carries are not
-- read by the program.
pub record ServiceDocker : Type 0 where
  pub command : String
  pub created : ℕ
  pub id : String
  pub image : String
  pub image_id : String
  pub names : List String
  pub ports : List ℕ
  pub state : String
  pub status : String

pub record ServiceSystemd : Type 0 where
  pub name : String
  pub description : String
  pub load_state : String
  pub active_state : String
  pub path : String

-- The `oneof` of a service status, which may be unset.
pub data Service : Type 0 where
  docker_service : ServiceDocker → Service
  systemd_service : ServiceSystemd → Service
  unset : Service

pub record ServiceStatus : Type 0 where
  pub name : String
  pub service : Service

pub record ServicesStreamRequest : Type 0 where
  pub hostname : String
  pub services : List ServiceStatus

pub record RegisterManifestRequest : Type 0 where
  pub hostname : String
  pub timestamp : ℕ
  pub assets : List Asset

pub record RegisterManifestResponse : Type 0 where
  pub subscribe_to_docker : Bool
  pub subscribe_to_systemd : Bool
  pub subscribe_to_services : List String
