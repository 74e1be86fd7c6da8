-- ===== src/Server/MainTests.antt =====
-- A program that starts again on the tables that a saved setting left.
use mahogany.Base.{String, ◌≡◌, refl, none, Result, ok, string_eq}
use mahogany.Schema.{Topology}
use mahogany.Config.{Environment, load_config}
use mahogany.Database.{run}
use mahogany.Database.Settings.{get_setting, update_setting}
use mahogany.Views.Settings.{post_settings}
use mahogany.Views.Tests.{world, finder, new_addr}
use mahogany.UpdateServer.Tests.{topo}
use mahogany.Server.New.{server_of}
use mahogany.Server.Lifecycle.{launched}
use mahogany.Server.Main.{run_server, run_server-post_settings}

abbrev unset : Environment
unset name = none

abbrev reads : String → Result Topology
reads file = ok topo

run_server-post_settings_example :
    let v = (post_settings world new_addr finder).1 in
    run_server world reads none none unset v.database ≡ (
      ok (server_of (load_config unset) topo (record v { open_transactions = 0 }), launched),
      v.database,
    )
unfolding post_settings update_setting run string_eq get_setting
run_server-post_settings_example =
    run_server-post_settings world reads unset topo new_addr finder refl refl refl
