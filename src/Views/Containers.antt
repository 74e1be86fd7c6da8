-- ===== src/Views/Containers.antt =====
-- pkg/mahogany/views/docker.go: the pages of the containers, over Docker's client.
use mahogany.Base.{String, Bool, Option, Error, Result, List}
use mahogany.Sources.Docker.{Docker}
use mahogany.Views.{is_none}

pub record ContainerView (Info : Type 0) : Type 0 where
  pub template_name : String
  pub container_info : Info
  pub is_success : Bool
  pub error : Option Error

-- `ContainerStartView`, `ContainerStopView`, `ContainerRestartView` and `ContainerRemoveView`, which
-- differ in the names of their templates.
pub record ContainerActionView : Type 0 where
  pub template_name : String
  pub id : String
  pub is_success : Bool
  pub error : Option Error

abbrev action_view : String → String → Option Error → ContainerActionView
action_view template_name id error = record {
  template_name = template_name;
  id = id;
  is_success = is_none error;
  error = error;
}

module _ {Info Daemon : Type 0} (docker : Docker Info Daemon) where
  -- `GetContainer`, with the name that `WithName` gives it
  abbrev pub get_container : String → String → Daemon → ContainerView Info × Daemon
  get_container name id d =
      let (found, d') = docker.container_inspect id d in
      (
        record {
          template_name = name;
          container_info = found.0;
          is_success = is_none found.1;
          error = found.1;
        },
        d',
      )

  -- `StartContainer`
  abbrev pub start_container : String → Daemon → ContainerActionView × Daemon
  start_container id d =
      let (error, d') = docker.container_start id d in (action_view "container-start" id error, d')

  -- `StopContainer`
  abbrev pub stop_container : String → Daemon → ContainerActionView × Daemon
  stop_container id d =
      let (error, d') = docker.container_stop id d in (action_view "container-stop" id error, d')

  -- `RestartContainer`
  abbrev pub restart_container : String → Daemon → ContainerActionView × Daemon
  restart_container id d =
      let (error, d') = docker.container_restart id d in
      (action_view "container-restart" id error, d')

  -- `RemoveContainer`
  abbrev pub remove_container : String → Daemon → ContainerActionView × Daemon
  remove_container id d =
      let (error, d') = docker.container_remove id d in
      (action_view "container-delete" id error, d')

  -- `GetContainerLogs`
  abbrev pub get_container_logs : String → Daemon → Result (List String) × Daemon
  get_container_logs id d = docker.container_logs id d
