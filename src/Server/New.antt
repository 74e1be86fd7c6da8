-- ===== src/Server/New.antt =====
-- `NewServer` of pkg/mahogany/server.go, from what the libraries give: the handle of the database,
-- the topology that `ReadTopology` makes of a file, and Docker's client. The routes are in
-- Server.Routes.
use mahogany.Base.{
  ◌+◌, ◌%◌, ◌^◌, String, ◌≡◌, Option, none, some, Error, Result, ok, err, ℤ, arith, [],
}
use mahogany.Config.{Config, to_word, of_word}
use mahogany.Schema.{Topology}
use mahogany.Database.{Database}
use mahogany.UpdateServer.{UpdateServer, new_update_server}
use mahogany.Views.{World, ViewFinder}
use mahogany.Views.Index.{unset_finder, new_view_finder}
use mahogany.Views.PostSettings.{configured}
use mahogany.Views.Restart.{new_view_finder-configured}

-- The update server with the port that it is to listen on, and the server's own port and time outs.
pub record Server : Type 0 where
  pub view : ViewFinder
  pub update_server : UpdateServer
  pub update_port : ℤ
  pub port : ℤ
  pub read_timeout : ℤ
  pub write_timeout : ℤ

-- `config.Port+1`, which wraps around.
abbrev next_port : ℤ → ℤ
next_port port = of_word ((to_word port + 1) % 2 ^ 64)

abbrev pub server_of : Config → Topology → ViewFinder → Server
server_of config topo view = record {
  view = view;
  update_server = new_update_server topo;
  update_port = next_port config.port;
  port = config.port;
  read_timeout = config.timeout;
  write_timeout = config.timeout;
}

module _ (w : World) (read : String → Result Topology) (opens docker : Option Error) where
  unfoldable pub new_server : Config → Database → Result Server × Database
  unfolding new_view_finder
  new_server config db = elim opens [
    | some e ↦ (err e, db)
    | none ↦ elim (read config.topology_file) [
      | err e ↦ (err e, db)
      | ok topo ↦
          let (view, db') = new_view_finder w docker db in
          (elim view [ err e ↦ err e | ok v ↦ ok (server_of config topo v) ], db')
    ]
  ]

-- If the database opens, Docker's client can be had and no statement fails, a server is made exactly
-- where the topology can be read and both time outs of the settings are durations; its clients are
-- those that the settings call for, and the tables stay as they are.
new_server-configured :
    (w : World) (read : String → Result Topology) (config : Config) (db : Database)
    → db.faults ≡ []
    → new_server w read none none config db ≡ (
      elim (read config.topology_file) [
        | err e ↦ err e
        | ok topo ↦ elim (configured w db.settings (unset_finder db)) [
          | err e ↦ err e
          | ok v ↦ ok (server_of config topo v)
        ]
      ],
      db,
    )
unfolding new_server
new_server-configured w read config db fine = ground (arith, new_view_finder-configured w db fine)
