-- ===== src/Sources/Docker.antt =====
-- pkg/mahogany/sources/docker.go: the interface `DockerI`, which the program leaves to Docker's own
-- client. A container in a list is known by the fields that the program reads; the daemon's state
-- and what an inspection tells are parameters.
use mahogany.Base.{ℕ, String, Bool, Option, List, Error, Result}

pub record Container : Type 0 where
  pub command : String
  pub created : ℕ
  pub id : String
  pub image : String
  pub image_id : String
  pub names : List String
  pub public_ports : List ℕ
  pub state : String
  pub status : String

-- `DockerI`: each call with the daemon's state before it and after it. An inspection gives its
-- information beside its error.
pub record Docker (Info Daemon : Type 0) : Type 0 where
  -- `true` for `All`, the stopped containers too
  pub container_list : Bool → Daemon → Result (List Container) × Daemon
  pub container_stop : String → Daemon → Option Error × Daemon
  pub container_start : String → Daemon → Option Error × Daemon
  pub container_restart : String → Daemon → Option Error × Daemon
  pub container_inspect : String → Daemon → (Info × Option Error) × Daemon
  pub container_remove : String → Daemon → Option Error × Daemon
  -- the lines of the log
  pub container_logs : String → Daemon → Result (List String) × Daemon
