-- ===== src/Broker/Invariant.antt =====
-- What holds of a broker in use, whatever the interleaving.
pub mod Calls
pub mod Turns
use mahogany.Base.{ℕ, ◌+◌, ◌≤◌, ◌≡◌, refl, true, false, none, arith, length, pos}
use mahogany.Broker.{Broker, running, request_capacity, message_capacity, start, new_broker}
use mahogany.Broker.Delivery.{occ, CanSend}
use mahogany.Broker.Session.{joining, leaving, member}

module _ {T : Type 0} where
  -- What holds of each channel.
  pub record IsTracked (b : Broker T) (k : ℕ) : Type 0 where
    pub once : joining k b + member k b ≤ 1
    pub leaves_once : leaving k b ≤ member k b
    pub made : b.next ≤ k → joining k b + member k b ≡ 0
    pub is_open : (b.chans k).closed ≡ true → joining k b + member k b ≡ 0
    pub bounded : length (b.chans k).buffer ≤ message_capacity

  pub record IsRunning (b : Broker T) : Type 0 where
    pub in_use : b.is_stopped ≡ false
    pub not_stopping : b.stop_closed ≡ false
    pub sub_open : b.sub_c.closed ≡ false
    pub unsub_open : b.unsub_c.closed ≡ false
    pub broadcast_open : b.broadcast_c.closed ≡ false
    pub sub_bounded : length b.sub_c.buffer ≤ request_capacity
    pub unsub_bounded : length b.unsub_c.buffer ≤ request_capacity
    pub broadcast_bounded : length b.broadcast_c.buffer ≤ request_capacity
    pub no_nil_joins : occ none b.sub_c.buffer ≡ 0
    pub no_nil_leaves : occ none b.unsub_c.buffer ≡ 0
    pub no_nil : occ none b.subs ≡ 0
    pub counted : b.count ≡ pos (length b.subs)
    pub runs : b.loop ≡ running

  pub record IsSound (b : Broker T) : Type 0 where
    pub tracked : (k : ℕ) → IsTracked b k
    pub running : IsRunning b

  pub start-IsSound : IsSound (start (new_broker {T = T}))
  unfolding start new_broker
  start-IsSound = record { tracked = λ k. ground arith; running = ground arith }

  pub IsSound-CanSend : (b : Broker T) → IsSound b → CanSend b.subs b.chans
  IsSound-CanSend b h = record {
    no_nil = h.running.no_nil;
    once = λ k. let t = h.tracked k in omega (arith, t.once);
    is_open = λ k closed. let t = h.tracked k in omega (arith, t.is_open closed);
  }
