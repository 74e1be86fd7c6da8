-- ===== src/Agent/Announced.antt =====
-- From a release that is broadcast, and from the server's `Stop`, to a machine: the broker, the stream
-- of a host and the agent on it. `PropagateGithubRelease` has no caller at this commit.
use mahogany.Base.{
  ℕ, ◌<◌, ◌≡◌, refl, arith, ap, ◌∙◌, String, Option, none, some, List, [], ◌∷◌, ◌++◌, map, Error,
  ok, keep, length,
}
use mahogany.Schema.{Release, RegisterManifestResponse}
use mahogany.Broker.{Chan, Broker, message_capacity, close_chan, stop, select, stop_case}
use mahogany.Broker.Shutdown.{stop_then_return}
use mahogany.Broker.Delivery.{occ}
use mahogany.Broker.Session.{Reachable}
use mahogany.Broker.Draining.{Drains}
use mahogany.UpdateServer.{UpdateServer, is_entitled}
use mahogany.UpdateServer.Propagate.{GithubReleaseEvent, propagate}
use mahogany.UpdateServer.ReleaseStream.{
  Outcome, waiting, returned, release_stream, open_end, closed_end, messages_of,
}
use mahogany.UpdateServer.Connections.{
  yields, propagate_github_release, propagate_github_release-yields,
}
use mahogany.Agent.{Effect, Machine}
use mahogany.Agent.Completion.{IsWorking}
use mahogany.Agent.Session.{run_agent, received, plans, run_agent-release_stream}

nil_behind :
    (held : List Release)
    → map (λ (r : Release). some r) held ++ (none ∷ []) ≡ messages_of held closed_end
nil_behind [] = refl
nil_behind (r ∷ held) = ap (λ messages. some r ∷ messages) (nil_behind held)

-- What a closed channel yields ends in a nil.
yields-close_chan :
    (c : Chan (Option Release)) (held : List Release)
    → c.buffer ≡ map (λ (r : Release). some r) held
    → yields (close_chan c) ≡ messages_of held closed_end
yields-close_chan c held holds = ap (λ buffer. buffer ++ (none ∷ [])) holds ∙ nil_behind held

module _ (m : Machine) (content : String → String) (works : IsWorking m content)
    (download_dir : String) (s : UpdateServer) (hostname : String)
    (send : List Release → Release → Option Error)
    (reliable : (sent : List Release) (release : Release) → send sent release ≡ none)
    (registration : RegisterManifestResponse) where
  -- What the agent has done once it has read what a channel yields.
  abbrev pub after_stream :
      List (Option Release) → Option RegisterManifestResponse × (Outcome × List Effect)
  after_stream messages =
      run_agent m download_dir (ok registration) none none
        (received (release_stream s hostname send (some messages)))

  -- What `PropagateGithubRelease` would do, were it called, which it is not at this commit, since the
  -- webhook's handler has its call commented out: if no call waits at a broker in use, no release is
  -- queued, the host's channel is subscribed and has room, and nothing on the way or on the machine
  -- fails, then the release that the event makes is broadcast, is in the channel two steps later, and a
  -- registered agent carries out its plan, after those of the releases that the channel held, exactly
  -- if the host is entitled to it.
  pub run_agent-propagate_github_release :
      (b : Broker (Option Release)) (k : ℕ) (held : List Release) (event : GithubReleaseEvent)
      (release : Release)
      → Reachable none b
      → b.calls ≡ []
      → b.broadcast_c.buffer ≡ []
      → 0 < occ (some k) b.subs
      → (b.chans k).buffer ≡ map some held
      → length held < message_capacity
      → propagate s event ≡ some (some release)
      → (b1 b2 : Broker (Option Release)) × (propagate_github_release s event b ≡ some b1)
        × Drains none b1 2 b2
        × (after_stream (yields (b2.chans k)) ≡ (
          some registration,
          (
            waiting,
            plans m content download_dir
                (keep (λ r. is_entitled s hostname r.name) (held ++ (release ∷ []))),
          ),
        ))
  run_agent-propagate_github_release b k held event release r quiet unqueued subscribed holds room
        made =
      let (b1, b2, announced, drains, there) =
        propagate_github_release-yields b k held release subscribed holds room r s event quiet
          unqueued made in
      (
        b1,
        b2,
        announced,
        drains,
        ap after_stream there
            ∙ run_agent-release_stream m content works download_dir s hostname send registration
                reliable (held ++ (release ∷ [])) open_end,
      )

  -- The end of the server reaches the machine: `Stop` goes through on a broker in use, and once the
  -- loop takes the closed `stopC`, a registered agent, if nothing on the way or on the machine
  -- fails, still carries out the plans of the releases that its host's channel holds and that the
  -- host is entitled to, and then its `Run` comes back without an error.
  pub run_agent-stop :
      (b : Broker (Option Release)) (k : ℕ) (held : List Release)
      → Reachable none b
      → 0 < occ (some k) b.subs
      → (b.chans k).buffer ≡ map (λ (r : Release). some r) held
      → (st t : Broker (Option Release)) × (stop b ≡ some st)
        × (select none stop_case st ≡ some t)
        × (after_stream (yields (t.chans k)) ≡ (
          some registration,
          (
            returned none,
            plans m content download_dir (keep (λ r. is_entitled s hostname r.name) held),
          ),
        ))
  run_agent-stop b k held r subscribed holds =
      let (st, t, stops, returns, over, closes) = stop_then_return none b r in
      let closed : t.chans k ≡ close_chan (b.chans k) = ground (arith, closes k) in
      (
        st,
        t,
        stops,
        returns,
        ap after_stream (ap yields closed ∙ yields-close_chan (b.chans k) held holds)
            ∙ run_agent-release_stream m content works download_dir s hostname send registration
                reliable held closed_end,
      )
