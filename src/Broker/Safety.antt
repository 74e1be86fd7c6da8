-- ===== src/Broker/Safety.antt =====
-- The broker from `Start` until `Stop`: it never panics, its count is right, it loses no call, and a
-- broadcast reaches whoever has room.
use mahogany.Base.{ℕ, ◌≡◌, ◌⊎◌, inl, inr, refl, some, List, [], ◌∷◌, arith}
use mahogany.Broker.{
  Chan, ChanId, running, on_sub, on_unsub, on_broadcast, Call, subscribing, unsubscribing,
  broadcasting, Broker, Case, sub_case, unsub_case, broadcast_case, sent, complete, select,
}
use mahogany.Broker.Delivery.{delivered_to}
use mahogany.Broker.Session.{
  Step, Reachable, subscribes, unsubscribes, broadcasts, sends, turns, receives, started, next,
}
use mahogany.Broker.Invariant.{IsSound, start-IsSound}
use mahogany.Broker.Invariant.Calls.{
  subscribe-IsSound, unsubscribe-IsSound, broadcast-IsSound, complete-IsSound, receive-IsSound,
}
use mahogany.Broker.Invariant.Turns.{select-IsSound, on_broadcast_lem}

module _ {T : Type 0} (nil : T) where
  Step-IsSound : {b b' : Broker T} → IsSound b → Step nil b b' → IsSound b'
  Step-IsSound {b} h subscribes = subscribe-IsSound b h
  Step-IsSound {b} h (unsubscribes k may) = unsubscribe-IsSound b k h may
  Step-IsSound {b} h (broadcasts msg) = broadcast-IsSound b msg h
  Step-IsSound {b} {b'} h (sends before after c here done) =
      complete-IsSound b before after c b' h here done
  Step-IsSound {b} {b'} h (turns c runs done) = select-IsSound nil c b b' h done
  Step-IsSound {b} h (receives k msg rest e) = receive-IsSound b k msg rest h e

  -- From `Start` until `Stop`, whatever the interleaving of handlers, sends, turns and receives, if
  -- a handler gives its channel back once and only after the loop took it in: the loop has not
  -- panicked, the count is the number of subscribed channels, no subscribed channel is closed or
  -- nil or subscribed twice, and no buffer holds more than it was made for.
  pub Reachable-IsSound : (b : Broker T) → Reachable nil b → IsSound b
  Reachable-IsSound b started = start-IsSound
  Reachable-IsSound b (next r st) = Step-IsSound (Reachable-IsSound _ r) st

  -- In a broker in use, a turn that takes a queued message always goes through: every channel in
  -- the map that has room gets the message behind what it holds, every other channel is left as it
  -- was, and nothing else of the broker changes but the queue.
  pub broadcast_turn :
      (b : Broker T) (msg : T) (rest : List T)
      → Reachable nil b
      → b.broadcast_c.buffer ≡ msg ∷ rest
      → (chans' : ℕ → Chan T) × (select nil broadcast_case b
          ≡ some
              (record b { broadcast_c = record b.broadcast_c { buffer = rest }; chans = chans' }))
        × ((k : ℕ) → chans' k ≡ delivered_to msg b.subs b.chans k)
  unfolding select
  broadcast_turn b msg rest r e =
      let (chans', same, at) = on_broadcast_lem nil b msg rest (Reachable-IsSound b r) in
      (chans', ground (arith, same), at)

  -- The loop can take a turn.
  abbrev HasTurn : Broker T → Type 0
  HasTurn b = (c : Case) × (b' : Broker T) × (select nil c b ≡ some b')

  subscribing_or_turn :
      (b : Broker T) (j : ℕ) (buffer : List ChanId)
      → IsSound b
      → b.sub_c.buffer ≡ buffer
      → ((b' : Broker T) × (complete (subscribing j) b ≡ sent b')) ⊎ HasTurn b
  unfolding complete select
  subscribing_or_turn b j [] h e =
      let run = h.running in
      inl (record b { sub_c = record b.sub_c { buffer = some j ∷ [] } }, ground arith)
  subscribing_or_turn b j (c ∷ rest) h e =
      inr (
        sub_case,
        on_sub nil c (record b { sub_c = record b.sub_c { buffer = rest } }),
        ground arith,
      )

  unsubscribing_or_turn :
      (b : Broker T) (j : ℕ) (buffer : List ChanId)
      → IsSound b
      → b.unsub_c.buffer ≡ buffer
      → ((b' : Broker T) × (complete (unsubscribing j) b ≡ sent b')) ⊎ HasTurn b
  unfolding complete select
  unsubscribing_or_turn b j [] h e =
      let run = h.running in
      inl (record b { unsub_c = record b.unsub_c { buffer = some j ∷ [] } }, ground arith)
  unsubscribing_or_turn b j (c ∷ rest) h e = inr (
    unsub_case,
    on_unsub nil c (record b { unsub_c = record b.unsub_c { buffer = rest } }),
    ground arith,
  )

  broadcasting_or_turn :
      (b : Broker T) (msg : T) (buffer : List T)
      → IsSound b
      → b.broadcast_c.buffer ≡ buffer
      → ((b' : Broker T) × (complete (broadcasting msg) b ≡ sent b')) ⊎ HasTurn b
  unfolding complete select
  broadcasting_or_turn b msg [] h e =
      let run = h.running in
      inl (record b { broadcast_c = record b.broadcast_c { buffer = msg ∷ [] } }, ground arith)
  broadcasting_or_turn b msg (m ∷ rest) h e = inr (
    broadcast_case,
    on_broadcast nil m (record b { broadcast_c = record b.broadcast_c { buffer = rest } }),
    ground arith,
  )

  -- In a broker in use, every send that waits can be made at once, or the loop, which is running,
  -- has a turn that it can take.
  pub send_or_turn :
      (b : Broker T) (c : Call T)
      → Reachable nil b
      → (((b' : Broker T) × (complete c b ≡ sent b')) ⊎ HasTurn b) × (b.loop ≡ running)
  send_or_turn b (subscribing j) r =
      let h = Reachable-IsSound b r in
      (subscribing_or_turn b j b.sub_c.buffer h refl, h.running.runs)
  send_or_turn b (unsubscribing j) r =
      let h = Reachable-IsSound b r in
      (unsubscribing_or_turn b j b.unsub_c.buffer h refl, h.running.runs)
  send_or_turn b (broadcasting msg) r =
      let h = Reachable-IsSound b r in
      (broadcasting_or_turn b msg b.broadcast_c.buffer h refl, h.running.runs)
