-- ===== src/Broker/Invariant/Calls.antt =====
-- The calls of `Subscribe`, `Unsubscribe` and `Broadcast`, the sends that they wait for, and the
-- receives of the subscribers keep the invariant.
use mahogany.Base.{ℕ, ◌+◌, ◌≡◌, none, some, List, [], ◌∷◌, ◌++◌, arith, length-append}
use mahogany.Broker.{
  Call, subscribing, unsubscribing, broadcasting, Broker, sent, set_chan, complete, subscribe,
  unsubscribe, broadcast,
}
use mahogany.Broker.Delivery.{occ-append}
use mahogany.Broker.Session.{waits_to_join, waits_to_leave, MayLeave}
use mahogany.Broker.Invariant.{IsSound}

module _ {T : Type 0} where
  pub subscribe-IsSound : (b : Broker T) → IsSound b → IsSound (subscribe b).1
  unfolding subscribe
  subscribe-IsSound b h = record {
    tracked = λ k.
        let t = h.tracked k in ground (arith, t.once, t.leaves_once, t.made, t.is_open, t.bounded);
    running = let r = h.running in ground arith;
  }

  pub unsubscribe-IsSound :
      (b : Broker T) (k : ℕ) → IsSound b → MayLeave k b → IsSound (unsubscribe k b)
  unfolding unsubscribe
  unsubscribe-IsSound b j h may = record {
    tracked = λ k.
        let t = h.tracked k in ground (arith, t.once, t.leaves_once, t.made, t.is_open, t.bounded);
    running = let r = h.running in ground arith;
  }

  pub broadcast-IsSound : (b : Broker T) (msg : T) → IsSound b → IsSound (broadcast msg b)
  unfolding broadcast
  broadcast-IsSound b msg h = record {
    tracked = λ k.
        let t = h.tracked k in ground (arith, t.once, t.leaves_once, t.made, t.is_open, t.bounded);
    running = let r = h.running in ground arith;
  }

  waits_to_join-append :
      (k : ℕ) (xs ys : List (Call T))
      → waits_to_join k (xs ++ ys) ≡ waits_to_join k xs + waits_to_join k ys
  waits_to_join-append k [] ys = omega arith
  waits_to_join-append k (subscribing j ∷ xs) ys = ground (arith, waits_to_join-append k xs ys)
  waits_to_join-append k (unsubscribing j ∷ xs) ys = waits_to_join-append k xs ys
  waits_to_join-append k (broadcasting msg ∷ xs) ys = waits_to_join-append k xs ys

  waits_to_leave-append :
      (k : ℕ) (xs ys : List (Call T))
      → waits_to_leave k (xs ++ ys) ≡ waits_to_leave k xs + waits_to_leave k ys
  waits_to_leave-append k [] ys = omega arith
  waits_to_leave-append k (subscribing j ∷ xs) ys = waits_to_leave-append k xs ys
  waits_to_leave-append k (unsubscribing j ∷ xs) ys = ground (arith, waits_to_leave-append k xs ys)
  waits_to_leave-append k (broadcasting msg ∷ xs) ys = waits_to_leave-append k xs ys

  pub complete-IsSound :
      (b : Broker T) (before after : List (Call T)) (c : Call T) (b' : Broker T)
      → IsSound b
      → b.calls ≡ before ++ (c ∷ after)
      → complete c (record b { calls = before ++ after }) ≡ sent b'
      → IsSound b'
  unfolding complete
  complete-IsSound b before after (subscribing j) b' h here done = record {
    tracked = λ k.
        let t = h.tracked k in
        ground (
          arith,
          t.once,
          t.leaves_once,
          t.made,
          t.is_open,
          t.bounded,
          waits_to_join-append k before after,
          waits_to_leave-append k before after,
          waits_to_join-append k before (subscribing j ∷ after),
          waits_to_leave-append k before (subscribing j ∷ after),
          occ-append (some k) b.sub_c.buffer (some j ∷ []),
        );
    running =
        let r = h.running in
        ground (
          arith,
          occ-append none b.sub_c.buffer (some j ∷ []),
          length-append b.sub_c.buffer (some j ∷ []),
        );
  }
  complete-IsSound b before after (unsubscribing j) b' h here done = record {
    tracked = λ k.
        let t = h.tracked k in
        ground (
          arith,
          t.once,
          t.leaves_once,
          t.made,
          t.is_open,
          t.bounded,
          waits_to_join-append k before after,
          waits_to_leave-append k before after,
          waits_to_join-append k before (unsubscribing j ∷ after),
          waits_to_leave-append k before (unsubscribing j ∷ after),
          occ-append (some k) b.unsub_c.buffer (some j ∷ []),
        );
    running =
        let r = h.running in
        ground (
          arith,
          occ-append none b.unsub_c.buffer (some j ∷ []),
          length-append b.unsub_c.buffer (some j ∷ []),
        );
  }
  complete-IsSound b before after (broadcasting msg) b' h here done = record {
    tracked = λ k.
        let t = h.tracked k in
        ground (
          arith,
          t.once,
          t.leaves_once,
          t.made,
          t.is_open,
          t.bounded,
          waits_to_join-append k before after,
          waits_to_leave-append k before after,
          waits_to_join-append k before (broadcasting msg ∷ after),
          waits_to_leave-append k before (broadcasting msg ∷ after),
        );
    running = let r = h.running in ground (arith, length-append b.broadcast_c.buffer (msg ∷ []));
  }

  pub receive-IsSound :
      (b : Broker T) (j : ℕ) (msg : T) (rest : List T)
      → IsSound b
      → (b.chans j).buffer ≡ msg ∷ rest
      → IsSound (record b { chans = set_chan j (record (b.chans j) { buffer = rest }) b.chans })
  receive-IsSound b j msg rest h e = record {
    tracked = λ k.
        let t = h.tracked k in ground (arith, t.once, t.leaves_once, t.made, t.is_open, t.bounded);
    running = let r = h.running in ground arith;
  }
