-- ===== src/Server/Main.antt =====
-- `RunServer` of main.go: the configuration, `NewServer`, and the goroutines that go on from there,
-- which Server.Lifecycle follows.
use mahogany.Base.{String, ◌≡◌, Option, none, Error, Result, ok, err, arith, []}
use mahogany.Config.{Environment, load_config}
use mahogany.Schema.{Topology}
use mahogany.Database.{Database}
use mahogany.Database.Settings.{UpdateSettingParams}
use mahogany.Views.{World, ViewFinder}
use mahogany.Views.Settings.{post_settings}
use mahogany.Views.Restart.{new_view_finder-post_settings}
use mahogany.Server.New.{Server, new_server, server_of}
use mahogany.Server.Lifecycle.{Process, launched}

module _ (w : World) (read : String → Result Topology) (opens docker : Option Error) where
  -- The server and its goroutines, if it can be made; else the error is logged and the program ends.
  pub run_server : Environment → Database → Result (Server × Process) × Database
  run_server env db =
      let (made, db') = new_server w read opens docker (load_config env) db in
      (elim made [ err e ↦ err e | ok s ↦ ok (s, launched) ], db')

-- A setting that was saved without an error survives the end of the program: if no statement fails,
-- the database opens and Docker's client can be had, then `RunServer`, whose topology can be read,
-- begins on the tables with the clients that the page of settings left, and leaves the tables so.
pub run_server-post_settings :
    (w : World) (read : String → Result Topology) (env : Environment) (topo : Topology)
    (params : UpdateSettingParams) (v : ViewFinder)
    → v.database.faults ≡ []
    → (post_settings w params v).0 ≡ none
    → read (load_config env).topology_file ≡ ok topo
    → let v' = (post_settings w params v).1 in
      run_server w read none none env v'.database ≡ (
        ok (server_of (load_config env) topo (record v' { open_transactions = 0 }), launched),
        v'.database,
      )
unfolding run_server new_server
run_server-post_settings w read env topo params v fine saved known =
    ground (arith, known, new_view_finder-post_settings w params v fine saved)
