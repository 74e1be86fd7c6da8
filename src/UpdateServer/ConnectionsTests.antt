-- ===== src/UpdateServer/ConnectionsTests.antt =====
-- A stream that has joined a broker of releases, at the end of `Stop` and before an announcement.
use mahogany.Base.{
  ◌≡◌, refl, false, Option, none, some, [], ◌∷◌, pos, arith, number_eq, option_eq, Error, string_eq,
}
use mahogany.Schema.{Release}
use mahogany.Broker.{
  Broker, subscribing, sub_case, stop_case, select, complete, start, new_broker, subscribe, stop,
}
use mahogany.Broker.Session.{Reachable, Step, started, next, subscribes, sends, turns}
use mahogany.UpdateServer.{new_update_server}
use mahogany.UpdateServer.Tests.{topo, sends_all}
use mahogany.UpdateServer.ReleaseStream.{returned, release_stream}
use mahogany.UpdateServer.Connections.{yields, stop-release_stream}

abbrev asked : Broker (Option Release)
asked = (subscribe (start new_broker)).1

abbrev handed : Broker (Option Release)
handed = record asked { calls = []; sub_c = record { buffer = some 0 ∷ []; closed = false } }

abbrev pub joined : Broker (Option Release)
joined = record handed {
  sub_c = record { buffer = []; closed = false };
  subs = some 0 ∷ [];
  count = pos 1;
}

pub joined-Reachable : Reachable none joined
unfolding start new_broker subscribe complete select option_eq number_eq
joined-Reachable =
    let hand : Step none asked handed = sends [] [] (subscribing 0) refl refl in
    let join : Step none handed joined = turns sub_case refl refl in
    next (next (next started subscribes) hand) join

stop-release_stream_example :
    (st t : Broker (Option Release)) × (stop joined ≡ some st)
    × (select none stop_case st ≡ some t)
    × ((e : Option Error) × ((release_stream
            (new_update_server topo)
            "alpha"
            sends_all
            (some (yields (t.chans 0)))).0
          ≡ returned e))
unfolding option_eq number_eq
stop-release_stream_example =
    stop-release_stream (new_update_server topo) "alpha" sends_all joined 0 joined-Reachable
      (omega arith)
