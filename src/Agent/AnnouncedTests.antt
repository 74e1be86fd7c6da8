-- ===== src/Agent/AnnouncedTests.antt =====
-- A release that is announced while one agent is connected.
use mahogany.Base.{
  false, ◌≡◌, refl, Option, none, some, [], ◌∷◌, arith, number_eq, option_eq, string_eq, keep,
}
use mahogany.Schema.{Release}
use mahogany.Broker.{
  Broker, start, new_broker, subscribe, broadcast, complete, select, stop, stop_case,
  broadcast_case, broadcasting, set_chan,
}
use mahogany.Broker.Session.{Reachable, Step, next, broadcasts, sends, turns}
use mahogany.Broker.Draining.{Drains}
use mahogany.UpdateServer.{new_update_server, is_entitled}
use mahogany.UpdateServer.Propagate.{event_of, propagate, propagate-event_of}
use mahogany.UpdateServer.ReleaseStream.{waiting, returned}
use mahogany.UpdateServer.Connections.{yields, propagate_github_release}
use mahogany.UpdateServer.Tests.{
  topo, announcement, ready_tool, compiled, matches_tar, found, sends_all,
}
use mahogany.UpdateServer.ConnectionsTests.{joined, joined-Reachable}
use mahogany.Agent.Session.{plans}
use mahogany.Agent.Tests.{working, content, registration}
use mahogany.Agent.Announced.{after_stream, run_agent-propagate_github_release, run_agent-stop}

abbrev announced : Release
announced = record {
  name = "tool";
  version = "v1";
  repository_name = "me/tool";
  assets =
      record { name = "tool.tar"; source_url = "https://github.com/me/tool/releases/tool.tar" }
      ∷ [];
  install_command = "install {}";
}

makes_it : propagate (new_update_server topo) (event_of announcement) ≡ some (some announced)
makes_it =
    propagate-event_of ready_tool compiled matches_tar refl refl (new_update_server topo)
      announcement found

run_agent-propagate_github_release_example :
    (b1 b2 : Broker (Option Release)) × (propagate_github_release
        (new_update_server topo)
        (event_of announcement)
        joined
      ≡ some b1)
    × Drains none b1 2 b2
    × (after_stream working content
          ((λ done e. refl), (λ done url. refl))
          "/tmp"
          (new_update_server topo)
          "alpha"
          sends_all
          (λ sent r. refl)
          registration
          (yields (b2.chans 0))
        ≡ (
          some registration,
          (
            waiting,
            plans working content "/tmp"
                (keep (λ r. is_entitled (new_update_server topo) "alpha" r.name) (announced ∷ [])),
          ),
        ))
unfolding option_eq number_eq new_broker subscribe start
run_agent-propagate_github_release_example =
    run_agent-propagate_github_release working content ((λ done e. refl), (λ done url. refl)) "/tmp"
      (new_update_server topo) "alpha" sends_all (λ sent r. refl) registration joined 0 []
      (event_of announcement) announced joined-Reachable refl refl (omega arith) refl (omega arith)
      makes_it

-- The same broker with the release in the host's channel.
abbrev spoken : Broker (Option Release)
spoken = broadcast (some announced) joined

abbrev queued : Broker (Option Release)
queued = record joined { broadcast_c = record { buffer = some announced ∷ []; closed = false } }

abbrev delivered : Broker (Option Release)
delivered = record joined {
  chans = set_chan 0 (record { buffer = some announced ∷ []; closed = false }) joined.chans;
}

delivered-Reachable : Reachable none delivered
unfolding start new_broker subscribe broadcast complete select option_eq number_eq
delivered-Reachable =
    let say : Step none spoken queued = sends [] [] (broadcasting (some announced)) refl refl in
    let give : Step none queued delivered = turns broadcast_case refl refl in
    next (next (next joined-Reachable (broadcasts (some announced))) say) give

run_agent-stop_example :
    (st t : Broker (Option Release)) × (stop delivered ≡ some st)
    × (select none stop_case st ≡ some t)
    × (after_stream working content
          ((λ done e. refl), (λ done url. refl))
          "/tmp"
          (new_update_server topo)
          "alpha"
          sends_all
          (λ sent r. refl)
          registration
          (yields (t.chans 0))
        ≡ (
          some registration,
          (
            returned none,
            plans working content "/tmp"
                (keep (λ r. is_entitled (new_update_server topo) "alpha" r.name) (announced ∷ [])),
          ),
        ))
unfolding option_eq number_eq new_broker subscribe start
run_agent-stop_example =
    run_agent-stop working content ((λ done e. refl), (λ done url. refl)) "/tmp"
      (new_update_server topo) "alpha" sends_all (λ sent r. refl) registration delivered 0
      (announced ∷ []) delivered-Reachable (omega arith) refl
