-- ===== src/Server/Site/Pages.antt =====
-- The views of pkg/mahogany/views as the handlers of pkg/mahogany/server.go pass them to the templates.
use mahogany.Base.{String, List, [], ◌∷◌, map}
use mahogany.Views.{StatusView}
use mahogany.Views.Containers.{ContainerView, ContainerActionView}
use mahogany.Views.ControlPlane.{ControlPlaneView}
use mahogany.Views.Index.{IndexView}
use mahogany.Views.Images.{RegistryView}
use mahogany.Views.Settings.{SettingsView, WatchedServiceView, ActionResponseView}
use mahogany.Views.Devices.{DevicesView, DeviceView}
use mahogany.Views.Packages.{PackagesView}
use mahogany.Server.{Viewer}

-- What the views give to the templates.
pub data Page (Info : Type 0) : Type 0 where
  index_page : IndexView → Page Info
  container_view : ContainerView Info → Page Info
  container_action : ContainerActionView → Page Info
  registry_page : RegistryView → Page Info
  toast : ActionResponseView → Page Info
  watchtower_page : StatusView → Page Info
  control_plane_page : ControlPlaneView → Page Info
  settings_page : SettingsView → Page Info
  watched_service : WatchedServiceView → Page Info
  devices_page : DevicesView → Page Info
  device_page : DeviceView → Page Info
  packages_page : PackagesView → Page Info

-- A header with one value.
abbrev one_value : String × String → String × List String
one_value (name, value) = (name, value ∷ [])

-- The methods `Name` and `Headers` of the views.
abbrev pub name_of : {Info : Type 0} → Page Info → String
name_of (index_page v) = "IndexView"
name_of (container_view v) = v.template_name
name_of (container_action v) = v.template_name
name_of (registry_page v) = "RegistryView"
name_of (toast v) = "toast"
name_of (watchtower_page v) = "WatchtowerView"
name_of (control_plane_page v) = "ControlPlaneView"
name_of (settings_page v) = "SettingsView"
name_of (watched_service v) = v.template_name
name_of (devices_page v) = "DevicesView"
name_of (device_page v) = "DeviceView"
name_of (packages_page v) = v.template_name

abbrev headers_of : {Info : Type 0} → Page Info → List (String × List String)
headers_of (toast v) = map one_value v.headers
headers_of (watched_service v) = map one_value v.headers
headers_of page = []

abbrev pub viewer : {Info : Type 0} → Page Info → Viewer (Page Info)
viewer page = record { name = name_of page; headers = headers_of page; contents = page }

-- `WithName` of the packages' view.
abbrev pub named : {Info : Type 0} → String → PackagesView → Page Info
named name v = packages_page (record v { template_name = name })
