-- ===== src/Broker/Shutdown.antt =====
-- `Stop`: what it does to a broker in use, and what the loop may do next.
use mahogany.Base.{ℕ, ◌≡◌, refl, none, some, [], arith}
use mahogany.Broker.{
  Broker, returned, panicked, stop_case, unsub_case, on_unsub, select, stop, stopped, subscribe,
  unsubscribe, broadcast,
}
use mahogany.Broker.Delivery.{closed_in, close_all-closed_in}
use mahogany.Broker.Session.{Reachable}
use mahogany.Broker.Invariant.{IsSound-CanSend}
use mahogany.Broker.Safety.{Reachable-IsSound}

module _ {T : Type 0} (nil : T) where
  -- `Stop` goes through on a broker in use, and the loop's next turn, if it takes the closed
  -- `stopC`, closes exactly the subscribed channels, keeps what they hold, and returns.
  pub stop_then_return :
      (b : Broker T)
      → Reachable nil b
      → (s t : Broker T) × (stop b ≡ some s)
        × (select nil stop_case s ≡ some t)
        × (t.loop ≡ returned)
        × ((k : ℕ) → t.chans k ≡ closed_in b.subs b.chans k)
  unfolding stop select
  stop_then_return b r =
      let h = Reachable-IsSound nil b r in
      let (chans', e, at) = close_all-closed_in b.subs b.chans (IsSound-CanSend b h) in
      let run = h.running in
      (
        stopped b,
        record (stopped b) { chans = chans'; loop = returned },
        ground arith,
        ground (arith, e),
        refl,
        at,
      )

  -- `Stop` closes `unsubC` too. If no channel waits in it, the loop may take that case instead of
  -- `stopC`: it receives nil, and `close(nil)` panics.
  pub stop_then_panic :
      (b : Broker T)
      → Reachable nil b
      → b.unsub_c.buffer ≡ []
      → (s p : Broker T) × (stop b ≡ some s)
        × (select nil unsub_case s ≡ some p)
        × (p.loop ≡ panicked)
  unfolding stop select
  stop_then_panic b r e =
      let run = (Reachable-IsSound nil b r).running in
      (stopped b, on_unsub nil none (stopped b), ground arith, ground arith, refl)

module _ {T : Type 0} where
  -- After a `Stop` that went through, a broker takes no more calls: `Subscribe` gives nil, `Unsubscribe` and
  -- `Broadcast` do nothing, and a second `Stop` panics.
  stop_refuses :
      (b s : Broker T) (k : ℕ) (msg : T)
      → stop b ≡ some s
      → (subscribe s ≡ (none, s)) × (unsubscribe k s ≡ s) × (broadcast msg s ≡ s) × (stop s ≡ none)
  unfolding stop subscribe unsubscribe broadcast
  stop_refuses b s k msg e = (ground arith, ground arith, ground arith, ground arith)
