-- ===== src/Broker/Session.antt =====
-- The broker in use: the interleavings of the handlers' calls, of the sends that wait for room, of
-- the loop's turns and of the subscribers' receives, from `Start` until `Stop` is called.
use mahogany.Base.{ℕ, suc, ◌+◌, ◌≡◌, some, List, [], ◌∷◌, ◌++◌, number_eq, ◌==◌, if◌then◌else◌}
use mahogany.Broker.{
  Call, subscribing, unsubscribing, broadcasting, Broker, running, Case, sent, set_chan, select,
  complete, start, new_broker, subscribe, unsubscribe, broadcast,
}
use mahogany.Broker.Delivery.{occ}

module _ {T : Type 0} where
  -- How often a call waits to hand over the channel `k`.
  abbrev pub waits_to_join : ℕ → List (Call T) → ℕ
  waits_to_join k [] = 0
  waits_to_join k (subscribing j ∷ more) =
      let rest = waits_to_join k more in if j == k then suc rest else rest
  waits_to_join k (unsubscribing j ∷ more) = waits_to_join k more
  waits_to_join k (broadcasting msg ∷ more) = waits_to_join k more

  abbrev pub waits_to_leave : ℕ → List (Call T) → ℕ
  waits_to_leave k [] = 0
  waits_to_leave k (subscribing j ∷ more) = waits_to_leave k more
  waits_to_leave k (unsubscribing j ∷ more) =
      let rest = waits_to_leave k more in if j == k then suc rest else rest
  waits_to_leave k (broadcasting msg ∷ more) = waits_to_leave k more

  -- The channel is on its way into the map, in it, or on its way out of it, so many times.
  abbrev pub joining : ℕ → Broker T → ℕ
  joining k b = waits_to_join k b.calls + occ (some k) b.sub_c.buffer

  abbrev pub leaving : ℕ → Broker T → ℕ
  leaving k b = waits_to_leave k b.calls + occ (some k) b.unsub_c.buffer

  abbrev pub member : ℕ → Broker T → ℕ
  member k b = occ (some k) b.subs

  -- A handler gives its channel back once, and only after the loop has taken it in: it has then
  -- received a release from it.
  abbrev pub MayLeave : ℕ → Broker T → Type 0
  MayLeave k b = (member k b ≡ 1) × (leaving k b ≡ 0)

-- `nil` is the zero value of the messages.
module _ {T : Type 0} (nil : T) where
  pub data Step (b : Broker T) : Broker T → Type 0 where
    subscribes : Step b (subscribe b).1
    unsubscribes : (k : ℕ) → MayLeave k b → Step b (unsubscribe k b)
    broadcasts : (msg : T) → Step b (broadcast msg b)
    sends :
        (before after : List (Call T)) (c : Call T) {b' : Broker T}
        → b.calls ≡ before ++ (c ∷ after)
        → complete c (record b { calls = before ++ after }) ≡ sent b'
        → Step b b'
    turns : (c : Case) {b' : Broker T} → b.loop ≡ running → select nil c b ≡ some b' → Step b b'
    receives :
        (k : ℕ) (msg : T) (rest : List T)
        → (b.chans k).buffer ≡ msg ∷ rest
        → Step b (record b { chans = set_chan k (record (b.chans k) { buffer = rest }) b.chans })

  -- The states that a broker comes to from its start.
  pub data Reachable : Broker T → Type 0 where
    started : Reachable (start new_broker)
    next : {b b' : Broker T} → Reachable b → Step b b' → Reachable b'
