-- ===== src/Server/Site.antt =====
-- The whole of the HTTP server of pkg/mahogany/server.go: what the handler of each route does with a
-- request, over the pages. Static files are left to `http.FileServer`.
pub mod Pages
pub mod Requests
use mahogany.Base.{
  ℕ, zero, suc, String, Option, none, some, List, [], ◌∷◌, map, Error, Result, ok, err, ◌==◌,
  string_eq, if◌then◌else◌,
}
use mahogany.Database.Packages.{AddPackageParams}
use mahogany.Sources.Docker.{Docker}
use mahogany.UpdateServer.Propagate.{GithubReleaseEvent}
use mahogany.Views.{World, ViewFinder, StatusView, get_status}
use mahogany.Views.Containers.{
  ContainerView, ContainerActionView, get_container, start_container, stop_container,
  restart_container, remove_container, get_container_logs,
}
use mahogany.Views.ControlPlane.{ControlPlaneView, get_control_plane}
use mahogany.Views.Index.{IndexView, get_index}
use mahogany.Views.Images.{
  RegistryView, get_registry, delete_registry_image, watchtower_update as update_view,
}
use mahogany.Views.Settings.{
  SettingsView, WatchedServiceView, ActionResponseView, get_settings, post_watched_service,
  delete_watched,
}
use mahogany.Views.Devices.{DevicesView, DeviceView, get_devices, get_device_view}
use mahogany.Views.Packages.{PackagesView, get_packages, post_package, remove_package}
use mahogany.Server.{Answer, Viewer, new_handler, handle_post_settings, stream_logs}
use mahogany.Server.Site.Pages.{
  Page, index_page, container_view, container_action, registry_page, toast, watchtower_page,
  control_plane_page, settings_page, watched_service, devices_page, device_page, packages_page,
  viewer, named,
}
use mahogany.Server.Site.Requests.{Request, path_value, package_params}
use mahogany.Server.Routes.{
  Segment, param, Verb, Route, index, container_page, container_inspect, container_start,
  container_stop, container_restart, container_remove, container_logs, container_logs_stream,
  registry, registry_delete, watchtower, watchtower_update, github_webhook, control_plane, settings,
  settings_post, service_post, service_delete, devices, device, packages, package_post,
  package_delete, static, pattern_of, Dispatch, serves, redirects, not_allowed, not_found, dispatch,
}

-- The templates: loading them, and executing one for a page or for the text of a toast.
pub record Templates (Info : Type 0) : Type 0 where
  pub load : Option Error
  pub execute : String → Page Info → Option Error
  pub execute_toast : String → String → Option Error

-- What the server keeps between requests: its view finder, and Docker's daemon behind it.
pub record Site (Daemon : Type 0) : Type 0 where
  pub finder : ViewFinder
  pub daemon : Daemon

pub data Reply (Info : Type 0) : Type 0 where
  page : Answer (Page Info) → Reply Info
  settings_toast : Answer String → Reply Info
  events : List String → Reply Info
  static_file moved : Reply Info
  status : ℕ → Reply Info
  -- a handler that writes nothing, and one that panics
  silent aborted : Reply Info

-- `HandleGithubWebHook`
unfoldable pub handle_github_webhook : {Info : Type 0} → Result GithubReleaseEvent → Reply Info
handle_github_webhook (err _) = silent
handle_github_webhook (ok event) = elim event.repo [
  | none ↦ aborted
  | some repo ↦ elim repo.name [ none ↦ aborted | some _ ↦ silent ]
]

-- A view of a part of what the server keeps.
abbrev pub through_finder :
    {Info Daemon : Type 0}
    → (ViewFinder → Page Info × ViewFinder)
    → Site Daemon
    → Option (Viewer (Page Info)) × Site Daemon
through_finder view s = let (p, v) = view s.finder in (some (viewer p), record s { finder = v })

abbrev pub through_daemon :
    {Info Daemon : Type 0}
    → (Daemon → Page Info × Daemon)
    → Site Daemon
    → Option (Viewer (Page Info)) × Site Daemon
through_daemon view s = let (p, d) = view s.daemon in (some (viewer p), record s { daemon = d })

abbrev pub through_both :
    {Info Daemon : Type 0}
    → Docker Info Daemon
    → World
    → Site Daemon
    → Option (Viewer (Page Info)) × Site Daemon
through_both docker w s =
    let (p, (v, d)) = get_index docker w s.finder s.daemon in
    (some (viewer (index_page p)), record { finder = v; daemon = d })

module _ {Info Daemon : Type 0} (docker : Docker Info Daemon) (w : World)
    (parse_id : String → Result ℕ) (templates : Templates Info) where
  -- The handler of a view that works on the finder alone, and of one that works on Docker alone.
  unfoldable pub on_finder :
      (ViewFinder → Page Info × ViewFinder) → Site Daemon → Reply Info × Site Daemon
  unfolding new_handler
  on_finder view s =
      let (answer, s') = new_handler templates.load templates.execute (through_finder view) s in
      (page answer, s')

  unfoldable pub on_daemon : (Daemon → Page Info × Daemon) → Site Daemon → Reply Info × Site Daemon
  unfolding new_handler
  on_daemon view s =
      let (answer, s') = new_handler templates.load templates.execute (through_daemon view) s in
      (page answer, s')

  abbrev as_page : {A S : Type 0} → (A → Page Info) → A × S → Page Info × S
  as_page f (a, s) = (f a, s)

  unfoldable pub handle : Route → Request → Site Daemon → Reply Info × Site Daemon
  handle index r s =
      let (answer, s') = new_handler templates.load templates.execute (through_both docker w) s in
      (page answer, s')
  handle container_page r s =
      on_daemon
        (λ d.
          as_page container_view
            (get_container docker "ContainerView" (path_value 0 container_page r) d))
        s
  handle container_inspect r s =
      on_daemon
        (λ d.
          as_page container_view
            (get_container docker "container" (path_value 0 container_inspect r) d))
        s
  handle container_start r s =
      on_daemon
        (λ d. as_page container_action (start_container docker (path_value 0 container_start r) d))
        s
  handle container_stop r s =
      on_daemon
        (λ d. as_page container_action (stop_container docker (path_value 0 container_stop r) d)) s
  handle container_restart r s =
      on_daemon
        (λ d.
          as_page container_action (restart_container docker (path_value 0 container_restart r) d))
        s
  handle container_remove r s =
      on_daemon
        (λ d.
          as_page container_action (remove_container docker (path_value 0 container_remove r) d))
        s
  handle container_logs r s =
      on_daemon
        (λ d.
          as_page container_view
            (get_container docker "container-logs" (path_value 0 container_logs r) d))
        s
  handle container_logs_stream r s =
      let (logs, d) = get_container_logs docker (path_value 0 container_logs_stream r) s.daemon in
      (events (stream_logs logs), record s { daemon = d })
  handle registry r s = on_finder (λ v. as_page registry_page (get_registry w v)) s
  handle registry_delete r s =
      on_finder
        (λ v. (
          toast (
              delete_registry_image w v (path_value 0 registry_delete r)
                (path_value 1 registry_delete r)),
          v,
        ))
        s
  handle watchtower r s = on_finder (λ v. as_page watchtower_page (get_status w v)) s
  handle watchtower_update r s = on_finder (λ v. (toast (update_view w v), v)) s
  handle github_webhook r s = (handle_github_webhook r.event, s)
  handle control_plane r s = on_finder (λ v. as_page control_plane_page (get_control_plane w v)) s
  handle settings r s = on_finder (λ v. as_page settings_page (get_settings w v)) s
  handle settings_post r s =
      let (answer, v) =
        handle_post_settings templates.load templates.execute_toast w r.query_name
          (r.form r.query_name) r.parse_form s.finder in
      (settings_toast answer, record s { finder = v })
  handle service_post r s =
      on_finder (λ v. as_page watched_service (post_watched_service (r.form "watchedService") v)) s
  handle service_delete r s =
      on_finder (λ v. as_page toast (delete_watched (path_value 0 service_delete r) v)) s
  handle devices r s = on_finder (λ v. as_page devices_page (get_devices w v)) s
  handle device r s =
      on_finder (λ v. as_page device_page (get_device_view w (path_value 0 device r) v)) s
  handle packages r s = on_finder (λ v. as_page (named "PackagesView") (get_packages w v)) s
  handle package_post r s =
      on_finder (λ v. as_page (named "packages-content") (post_package w (package_params r) v)) s
  handle package_delete r s =
      on_finder
        (λ v.
          as_page (named "packages-content")
            (remove_package parse_id w (path_value 0 package_delete r) v))
        s
  handle static r s = (static_file, s)

  -- `ServeHTTP` of the mux.
  abbrev pub served : Dispatch → Request → Site Daemon → Reply Info × Site Daemon
  served (serves route) r s = handle route r s
  served redirects r s = (moved, s)
  served not_allowed r s = (status 405, s)
  served not_found r s = (status 404, s)

  unfoldable pub serve : Request → Site Daemon → Reply Info × Site Daemon
  unfolding dispatch handle on_finder on_daemon
  serve r s = served (dispatch r.verb r.path) r s
