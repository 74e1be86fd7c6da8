-- ===== src/Views/Index.antt =====
-- pkg/mahogany/views/views.go: a new view finder, and the first page.
use mahogany.Base.{pos, true, Option, none, some, List, [], Error, Result, ok, err}
use mahogany.Database.{Database}
use mahogany.Sources.Docker.{Container, Docker}
use mahogany.Views.{World, ViewFinder, StatusView, get_status}
use mahogany.Views.Settings.{reload}

-- The clients before `reload` sets them; a view finder with these is never returned.
abbrev pub unset_finder : Database → ViewFinder
unset_finder db = record {
  registry = record { addr = ""; timeout = pos 0 };
  watchtower = record { addr = ""; token = ""; timeout = pos 0 };
  device_finder = record { api_key = ""; tailnet = "" };
  database = db;
  open_transactions = 0;
}

-- `NewViewFinder`, from what `NewDocker` reports.
unfoldable pub new_view_finder : World → Option Error → Database → Result ViewFinder × Database
unfolding reload
new_view_finder w docker db = elim docker [
  | some e ↦ (err e, db)
  | none ↦
      let (failed, v, db') = reload w (unset_finder db) db in
      (elim failed [ some e ↦ err e | none ↦ ok (record v { database = db' }) ], db')
]

pub record IndexView : Type 0 where
  pub containers : List Container
  pub status : StatusView

-- `GetIndex`: a list that fails is logged, and the page has no containers.
unfoldable pub get_index :
    {Info Daemon : Type 0}
    → Docker Info Daemon
    → World
    → ViewFinder
    → Daemon
    → IndexView × (ViewFinder × Daemon)
unfolding get_status
get_index docker w v d =
    let (status, v') = get_status w v in
    let (containers, d') = docker.container_list true d in
    (record { containers = elim containers [ ok cs ↦ cs | err _ ↦ [] ]; status = status }, (v', d'))
