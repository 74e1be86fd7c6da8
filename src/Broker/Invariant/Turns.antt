-- ===== src/Broker/Invariant/Turns.antt =====
-- The turns of the loop of `Start` keep the invariant, and none of them panics.
use mathlib.Core.Path.{subst}
use mahogany.Base.{
  ℕ, ◌≡◌, ◌≢◌, refl, length-append, none, some, List, [], ◌∷◌, arith, option_eq, number_eq,
}
use mahogany.Broker.{
  Chan, ChanId, Broker, Case, stop_case, sub_case, unsub_case, broadcast_case, on_sub, on_unsub,
  on_broadcast, select,
}
use mahogany.Broker.Delivery.{
  occ-delete, length-delete, contains-eq-occ, delivered_to, send_all-delivered_to,
}
use mahogany.Broker.Invariant.{IsSound, IsSound-CanSend}

module _ {T : Type 0} (nil : T) where
  on_sub-IsSound :
      (b : Broker T) (j : ℕ) (rest : List ChanId)
      → IsSound b
      → b.sub_c.buffer ≡ some j ∷ rest
      → IsSound (on_sub nil (some j) (record b { sub_c = record b.sub_c { buffer = rest } }))
  on_sub-IsSound b j rest h e = record {
    tracked = λ k.
        let t = h.tracked k in
        ground (
          arith,
          t.once,
          t.leaves_once,
          t.made,
          t.is_open,
          t.bounded,
          contains-eq-occ (some j) b.subs,
        );
    running =
        let r = h.running in
        let t = h.tracked j in ground (arith, t.once, contains-eq-occ (some j) b.subs);
  }

  on_unsub-IsSound :
      (b : Broker T) (j : ℕ) (rest : List ChanId)
      → IsSound b
      → b.unsub_c.buffer ≡ some j ∷ rest
      → IsSound (on_unsub nil (some j) (record b { unsub_c = record b.unsub_c { buffer = rest } }))
  on_unsub-IsSound b j rest h e = record {
    tracked = λ k.
        let t = h.tracked k in
        let u = h.tracked j in
        ground (
          arith,
          t.once,
          t.leaves_once,
          t.made,
          t.is_open,
          t.bounded,
          u.leaves_once,
          u.once,
          u.is_open,
          occ-delete (some k) (some j) b.subs,
        );
    running =
        let r = h.running in
        let u = h.tracked j in
        ground (
          arith,
          u.once,
          u.leaves_once,
          u.is_open,
          length-delete (some j) b.subs,
          occ-delete none (some j) b.subs,
        );
  }

  -- A broadcast turn leaves everything but the subscribers' channels as it was.
  pub on_broadcast_lem :
      (b : Broker T) (msg : T) (rest : List T)
      → IsSound b
      → (chans' : ℕ → Chan T) × (on_broadcast nil msg
            (record b { broadcast_c = record b.broadcast_c { buffer = rest } })
          ≡ record b { broadcast_c = record b.broadcast_c { buffer = rest }; chans = chans' })
        × ((k : ℕ) → chans' k ≡ delivered_to msg b.subs b.chans k)
  on_broadcast_lem b msg rest h =
      let (chans', e, at) = send_all-delivered_to msg b.subs b.chans (IsSound-CanSend b h) in
      (chans', rw e, at)

  on_broadcast-IsSound :
      (b : Broker T) (msg : T) (rest : List T)
      → IsSound b
      → b.broadcast_c.buffer ≡ msg ∷ rest
      → IsSound
          (on_broadcast nil msg (record b { broadcast_c = record b.broadcast_c { buffer = rest } }))
  on_broadcast-IsSound b msg rest h e =
      let (chans', same, at) = on_broadcast_lem b msg rest h in
      rw same (record {
        tracked = λ k.
            let t = h.tracked k in
            ground (
              arith,
              t.once,
              t.leaves_once,
              t.made,
              t.is_open,
              t.bounded,
              at k,
              length-append (b.chans k).buffer (msg ∷ []),
            );
        running = let r = h.running in ground arith;
      })

  select_stop : (b b' : Broker T) → IsSound b → select nil stop_case b ≢ some b'
  unfolding select
  select_stop b b' h e = let r = h.running in ground arith

  select_sub :
      (b b' : Broker T) (buffer : List ChanId)
      → IsSound b
      → b.sub_c.buffer ≡ buffer
      → select nil sub_case b ≡ some b'
      → IsSound b'
  unfolding select
  select_sub b b' [] h e done = let r = h.running in absurd (ground arith)
  select_sub b b' (none ∷ rest) h e done = let r = h.running in absurd (ground arith)
  select_sub b b' (some j ∷ rest) h e done =
      subst IsSound (ground arith) (on_sub-IsSound b j rest h e)

  select_unsub :
      (b b' : Broker T) (buffer : List ChanId)
      → IsSound b
      → b.unsub_c.buffer ≡ buffer
      → select nil unsub_case b ≡ some b'
      → IsSound b'
  unfolding select
  select_unsub b b' [] h e done = let r = h.running in absurd (ground arith)
  select_unsub b b' (none ∷ rest) h e done = let r = h.running in absurd (ground arith)
  select_unsub b b' (some j ∷ rest) h e done =
      subst IsSound (ground arith) (on_unsub-IsSound b j rest h e)

  select_broadcast :
      (b b' : Broker T) (buffer : List T)
      → IsSound b
      → b.broadcast_c.buffer ≡ buffer
      → select nil broadcast_case b ≡ some b'
      → IsSound b'
  unfolding select
  select_broadcast b b' [] h e done = let r = h.running in absurd (ground arith)
  select_broadcast b b' (msg ∷ rest) h e done =
      subst IsSound (ground arith) (on_broadcast-IsSound b msg rest h e)

  pub select-IsSound :
      (c : Case) (b b' : Broker T) → IsSound b → select nil c b ≡ some b' → IsSound b'
  select-IsSound stop_case b b' h e = absurd (select_stop b b' h e)
  select-IsSound sub_case b b' h e = select_sub b b' b.sub_c.buffer h refl e
  select-IsSound unsub_case b b' h e = select_unsub b b' b.unsub_c.buffer h refl e
  select-IsSound broadcast_case b b' h e = select_broadcast b b' b.broadcast_c.buffer h refl e
