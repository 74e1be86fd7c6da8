-- ===== src/UpdateServer/Connections.antt =====
-- The release streams at the broker: what a subscriber's channel yields to `ReleaseStream`.
use mathlib.Core.List.{append-nil, map-append}
use mahogany.Base.{
  ℕ, suc, ◌<◌, ◌≡◌, refl, ap, ◌∙◌, false, String, Option, none, some, List, [], ◌∷◌, ◌++◌, map,
  Error, arith, Bool-cases, Option-cases, inl, inr, if◌then◌else◌, length,
}
use mahogany.Schema.{Release}
use mahogany.Broker.{Chan, Broker, stop_case, select, broadcast, stop, close_chan, message_capacity}
use mahogany.Broker.Delivery.{occ, delivered_to}
use mahogany.Broker.Session.{Reachable}
use mahogany.Broker.Safety.{Reachable-IsSound}
use mahogany.Broker.Draining.{Drains}
use mahogany.Broker.Announce.{broadcast-delivered_to}
use mahogany.Broker.Shutdown.{stop_then_return}
use mahogany.UpdateServer.{UpdateServer, is_entitled}
use mahogany.UpdateServer.Propagate.{GithubReleaseEvent, propagate}
use mahogany.UpdateServer.ReleaseStream.{
  returned, stream_loop, release_stream, messages_of, open_end,
}

-- The messages of the broker are pointers to releases. A closed channel yields nil behind what it
-- holds, and goes on so; the handler returns at the first.
abbrev pub yields : Chan (Option Release) → List (Option Release)
yields c = c.buffer ++ (if c.closed then none ∷ [] else [])

module _ (s : UpdateServer) (hostname : String) (send : List Release → Release → Option Error) where
  stream_loop-returned :
      (held : List (Option Release)) (done : List Release)
      → (e : Option Error) × ((stream_loop s hostname send done (held ++ (none ∷ []))).0
          ≡ returned e)
  unfolding stream_loop
  stream_loop-returned [] done = (none, refl)
  stream_loop-returned (none ∷ held) done = (none, refl)
  stream_loop-returned (some release ∷ held) done =
      let (later, delivered) = stream_loop-returned held (done ++ (release ∷ [])) in
      let (skip, skipped) = stream_loop-returned held done in
      elim (Bool-cases (is_entitled s hostname release.name)) [
        | inr other ↦ (skip, rw other skipped)
        | inl meant ↦ elim (Option-cases (send done release)) [
          | inr (e, failed) ↦ (some e, ground arith)
          | inl fine ↦ (later, ground arith)
        ]
      ]

  -- `Stop` ends the open streams: it goes through on a broker in use, and once the loop takes the
  -- closed `stopC`, the handler of every subscribed channel returns after at most what the channel
  -- holds, whatever it holds and whichever sends fail.
  pub stop-release_stream :
      (b : Broker (Option Release)) (k : ℕ)
      → Reachable none b
      → 0 < occ (some k) b.subs
      → (st t : Broker (Option Release)) × (stop b ≡ some st)
        × (select none stop_case st ≡ some t)
        × ((e : Option Error) × ((release_stream s hostname send (some (yields (t.chans k)))).0
              ≡ returned e))
  unfolding release_stream
  stop-release_stream b k r subscribed =
      let (st, t, stops, returns, over, closes) = stop_then_return none b r in
      let (e, ends) = stream_loop-returned (b.chans k).buffer [] in
      let closed : t.chans k ≡ close_chan (b.chans k) = ground (arith, closes k) in
      (st, t, stops, returns, (e, rw closed ends))

-- The whole of `PropagateGithubRelease`: what the event makes is given to the broker, where the send
-- waits among the calls, and panics once `Stop` has closed its channel (`complete`).
pub propagate_github_release :
    UpdateServer → GithubReleaseEvent → Broker (Option Release) → Option (Broker (Option Release))
unfolding propagate broadcast
propagate_github_release s event b = elim (propagate s event) [
  | none ↦ none
  | some none ↦ some b
  | some (some release) ↦ some (broadcast (some release) b)
]

length-map :
    (releases : List Release) → length (map (λ (r : Release). some r) releases) ≡ length releases
length-map [] = refl
length-map (release ∷ more) = ap suc (length-map more)

yields-messages_of :
    (c : Chan (Option Release)) (releases : List Release)
    → c.closed ≡ false
    → c.buffer ≡ map some releases
    → yields c ≡ messages_of releases open_end
yields-messages_of c releases is_open held =
    ground (arith, append-nil c.buffer) ∙ held ∙ by_list releases
  where
    by_list : (releases : List Release) → map some releases ≡ messages_of releases open_end
    by_list [] = refl
    by_list (release ∷ more) = ap (λ rest. some release ∷ rest) (by_list more)

-- A subscribed channel with room for a release, which holds others.
module _ (b : Broker (Option Release)) (k : ℕ) (held : List Release) (release : Release)
    (subscribed : 0 < occ (some k) b.subs) (holds : (b.chans k).buffer ≡ map some held)
    (room : length held < message_capacity) (r : Reachable none b) where
  yields-delivered_to :
      yields (delivered_to (some release) b.subs b.chans k)
      ≡ messages_of (held ++ (release ∷ [])) open_end
  yields-delivered_to =
      let t = (Reachable-IsSound none b r).tracked k in
      yields-messages_of _ (held ++ (release ∷ [])) (ground (arith, t.is_open))
        (ground (arith, length-map held, map-append some held (release ∷ [])))

  -- An event that makes a release reaches the stream of every such channel: if no call waits and no
  -- release is queued, it is broadcast and taken in two steps, and the channel then yields it last.
  pub propagate_github_release-yields :
      (s : UpdateServer) (event : GithubReleaseEvent)
      → b.calls ≡ []
      → b.broadcast_c.buffer ≡ []
      → propagate s event ≡ some (some release)
      → (b1 b2 : Broker (Option Release)) × (propagate_github_release s event b ≡ some b1)
        × Drains none b1 2 b2
        × (yields (b2.chans k) ≡ messages_of (held ++ (release ∷ [])) open_end)
  unfolding propagate_github_release
  propagate_github_release-yields s event quiet unqueued made =
      let (b2, drains, at) = broadcast-delivered_to none b (some release) r quiet unqueued in
      (broadcast (some release) b, b2, ground arith, drains, ap yields (at k) ∙ yields-delivered_to)
