-- ===== src/Broker/Announce.antt =====
-- A broadcast, from the call to the subscribers' buffers.
use mahogany.Base.{ℕ, ◌≡◌, refl, [], ◌∷◌, arith}
use mahogany.Broker.{Broker, broadcasting, broadcast_case, sent, complete, broadcast}
use mahogany.Broker.Delivery.{delivered_to}
use mahogany.Broker.Session.{Reachable, broadcasts, sends, next}
use mahogany.Broker.Safety.{Reachable-IsSound, broadcast_turn}
use mahogany.Broker.Draining.{Drains, stays, goes_on, makes, takes}

module _ {T : Type 0} (nil : T) where
  -- Where no call waits and no message is queued, a broadcast is made and taken in two steps, and
  -- then stands in the channel of every subscriber that had room.
  pub broadcast-delivered_to :
      (b : Broker T) (msg : T)
      → Reachable nil b
      → b.calls ≡ []
      → b.broadcast_c.buffer ≡ []
      → (b' : Broker T) × Drains nil (broadcast msg b) 2 b'
        × ((k : ℕ) → b'.chans k ≡ delivered_to msg b.subs b.chans k)
  unfolding broadcast complete
  broadcast-delivered_to b msg r quiet unqueued =
      let run = (Reachable-IsSound nil b r).running in
      let asked : Broker T = broadcast msg b in
      let queued : Broker T = record b {
        calls = [];
        broadcast_c = record b.broadcast_c { buffer = msg ∷ [] };
      } in
      let waits : asked.calls ≡ broadcasting msg ∷ [] = ground arith in
      let made : complete (broadcasting msg) (record asked { calls = [] }) ≡ sent queued =
        ground arith in
      let queued-Reachable =
        next (next r (broadcasts msg)) (sends [] [] (broadcasting msg) waits made) in
      let (chans', turned, at) = broadcast_turn nil queued msg [] queued-Reachable refl in
      (
        _,
        goes_on (goes_on stays (makes [] [] (broadcasting msg) waits made))
            (takes broadcast_case run.runs turned),
        at,
      )
