-- ===== src/Views/Settings.antt =====
-- pkg/mahogany/views/settings.go: reading the settings, and changing them in a transaction.
use mahogany.Base.{
  suc, String, Option, none, some, List, [], ◌∷◌, Error, ok, err, Bool, false, ◌==◌, string_eq,
  if◌then◌else◌,
}
use mahogany.Database.{Database, Query, run}
use mahogany.Database.Settings.{UpdateSettingParams, get_setting, update_setting}
use mahogany.Database.Services.{list_watched_services, add_watched_service, delete_watched_service}
use mahogany.Sources.Watchtower.{new_watchtower}
use mahogany.Views.{World, ViewFinder, StatusView, get_status}

-- `getSetting`: a failure is logged, and reads as the empty text.
unfoldable pub read_setting : String → Database → String × Database
read_setting name db =
    let (row, db') = get_setting name db in (elim row [ ok s ↦ s.value | err e ↦ "" ], db')

-- `reload`, over the tables that its query sees.
unfoldable pub reload : World → ViewFinder → Database → Option Error × ViewFinder × Database
unfolding read_setting
reload w v db =
    let (registry_text, db1) = read_setting "RegistryTimeout" db in
    elim (w.parse_duration registry_text) [
      | err e ↦ (some e, v, db1)
      | ok registry_timeout ↦
          let (watchtower_text, db2) = read_setting "WatchtowerTimeout" db1 in
          elim (w.parse_duration watchtower_text) [
            | err e ↦ (some e, v, db2)
            | ok watchtower_timeout ↦
                let (registry_addr, db3) = read_setting "RegistryAddr" db2 in
                let (watchtower_addr, db4) = read_setting "WatchtowerAddr" db3 in
                let (token, db5) = read_setting "WatchtowerToken" db4 in
                let (api_key, db6) = read_setting "TailscaleApiKey" db5 in
                let (tailnet, db7) = read_setting "TailnetName" db6 in
                (
                  none,
                  record v {
                    registry = record { addr = registry_addr; timeout = registry_timeout };
                    watchtower = new_watchtower watchtower_addr token watchtower_timeout;
                    device_finder = record { api_key = api_key; tailnet = tailnet };
                  },
                  db7,
                )
          ]
    ]

-- `BeginTx`, `Rollback` and `Commit` as statements that may fail.
abbrev pub transaction_step : Query (Unit {0})
transaction_step = run (λ db. (ok tt, db))

-- The tables as they were; the statements that ran have used up their faults.
abbrev rolled_back : Database → Database → Database
rolled_back before after = record before { faults = after.faults }

-- `PostSettings`: the error that it returns, and the state after it. Where the update fails the
-- method returns with the transaction open.
unfoldable pub post_settings : World → UpdateSettingParams → ViewFinder → Option Error × ViewFinder
unfolding reload
post_settings w params v =
    let (begun, db0) = transaction_step v.database in
    elim begun [
      | err e ↦ (some e, record v { database = db0 })
      | ok _ ↦
          let (updated, db1) = update_setting params db0 in
          elim updated [
            | err e ↦
                (some e, record v { database = db1; open_transactions = suc v.open_transactions })
            | ok _ ↦
                let (failed, v', db2) = reload w v db1 in
                let (done, db3) = transaction_step db2 in
                elim failed [
                  | some e ↦ (some e, record v' { database = rolled_back db0 db3 })
                  | none ↦ elim done [
                    | ok _ ↦ (none, record v' { database = db3 })
                    | err e ↦ (some e, record v' { database = rolled_back db0 db3 })
                  ]
                ]
          ]
    ]

pub record SettingsView : Type 0 where
  pub watchtower_addr : String
  pub watchtower_token : String
  pub watchtower_timeout : String
  pub registry_addr : String
  pub registry_timeout : String
  pub tailscale_api_key : String
  pub tailnet_name : String
  pub watched_services : List String
  pub status : StatusView

-- `GetSettings`
unfoldable pub get_settings : World → ViewFinder → SettingsView × ViewFinder
unfolding read_setting get_status
get_settings w v =
    let (watchtower_addr, db1) = read_setting "WatchtowerAddr" v.database in
    let (watchtower_token, db2) = read_setting "WatchtowerToken" db1 in
    let (watchtower_timeout, db3) = read_setting "WatchtowerTimeout" db2 in
    let (registry_addr, db4) = read_setting "RegistryAddr" db3 in
    let (registry_timeout, db5) = read_setting "RegistryTimeout" db4 in
    let (tailscale_api_key, db6) = read_setting "TailscaleApiKey" db5 in
    let (tailnet_name, db7) = read_setting "TailnetName" db6 in
    let (status, v') = get_status w (record v { database = db7 }) in
    let (services, db8) = list_watched_services v'.database in
    (
      record {
        watchtower_addr = watchtower_addr;
        watchtower_token = watchtower_token;
        watchtower_timeout = watchtower_timeout;
        registry_addr = registry_addr;
        registry_timeout = registry_timeout;
        tailscale_api_key = tailscale_api_key;
        tailnet_name = tailnet_name;
        watched_services = elim services [ ok names ↦ names | err e ↦ [] ];
        status = status;
      },
      record v' { database = db8 },
    )

pub record WatchedServiceView : Type 0 where
  pub service : String
  pub toast : String
  pub template_name : String
  pub headers : List (String × String)

abbrev toast_headers : List (String × String)
toast_headers = ("HX-Retarget", "#toast") ∷ ("HX-Reswap", "outerHTML") ∷ []

abbrev toast_view : String → String → WatchedServiceView
toast_view service toast = record {
  service = service;
  toast = toast;
  template_name = "toast";
  headers = toast_headers;
}

-- `PostSettingsWatchedService`
abbrev pub post_watched_service : String → ViewFinder → WatchedServiceView × ViewFinder
post_watched_service name v =
    if name == ""
    then (toast_view name "service name cannot be empty", v)
    else let (added, db) = add_watched_service name v.database in
      (
        elim added [
          | err e ↦ toast_view name e
          | ok _ ↦ record {
            service = name;
            toast = "";
            template_name = "watched-service";
            headers = [];
          }
        ],
        record v { database = db },
      )

pub record ActionResponseView : Type 0 where
  pub is_success : Bool
  pub toast : String
  pub headers : List (String × String)

-- `DeleteWatchedService`
abbrev pub delete_watched : String → ViewFinder → ActionResponseView × ViewFinder
delete_watched name v =
    let (deleted, db) = delete_watched_service name v.database in
    (
      elim deleted [
        | err e ↦ record { is_success = false; toast = e; headers = toast_headers }
        | ok _ ↦ record { is_success = false; toast = ""; headers = [] }
      ],
      record v { database = db },
    )
