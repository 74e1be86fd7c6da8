-- ===== src/Broker/Draining.antt =====
-- How long the broker works off what it was asked for: sends that wait, and requests in its buffers.
use mathlib.Core.Path.{subst}
use mahogany.Base.{
  ℕ, suc, ◌+◌, ◌*◌, ◌≡◌, refl, ap, zero, some, List, [], ◌∷◌, ◌++◌, arith, length, length-append,
  inl, inr, ◌⊎◌,
}
use mahogany.Broker.{
  ChanId, running, on_sub, on_unsub, on_broadcast, Call, subscribing, unsubscribing, broadcasting,
  Broker, Case, stop_case, sub_case, unsub_case, broadcast_case, sent, complete, select,
}
use mahogany.Broker.Session.{Step, Reachable, sends, turns, next}
use mahogany.Broker.Invariant.{IsSound}
use mahogany.Broker.Safety.{Reachable-IsSound, send_or_turn}

-- A send that waits still has to be made and then to be taken by the loop.
abbrev pub work : {T : Type 0} → Broker T → ℕ
work b =
    2 * length b.calls
    + (length b.sub_c.buffer + (length b.unsub_c.buffer + length b.broadcast_c.buffer))

module _ {T : Type 0} (nil : T) where
  -- The steps by which the broker works: a send that is made, and a turn of the loop.
  pub data Works (b : Broker T) : Broker T → Type 0 where
    makes :
        (before after : List (Call T)) (c : Call T) {b' : Broker T}
        → b.calls ≡ before ++ (c ∷ after)
        → complete c (record b { calls = before ++ after }) ≡ sent b'
        → Works b b'
    takes : (c : Case) {b' : Broker T} → b.loop ≡ running → select nil c b ≡ some b' → Works b b'

  -- So many such steps, one after another.
  pub data Drains (b : Broker T) : ℕ → Broker T → Type 0 where
    stays : Drains b 0 b
    goes_on : {n : ℕ} {b' b'' : Broker T} → Drains b n b' → Works b' b'' → Drains b (suc n) b''

  Works-Step : {b b' : Broker T} → Works b b' → Step nil b b'
  Works-Step (makes before after c here done) = sends before after c here done
  Works-Step (takes c runs done) = turns c runs done

  complete-work : (c : Call T) (b b' : Broker T) → complete c b ≡ sent b' → work b' ≡ suc (work b)
  unfolding complete
  complete-work (subscribing k) b b' done =
      ground (arith, length-append b.sub_c.buffer (some k ∷ []))
  complete-work (unsubscribing k) b b' done =
      ground (arith, length-append b.unsub_c.buffer (some k ∷ []))
  complete-work (broadcasting msg) b b' done =
      ground (arith, length-append b.broadcast_c.buffer (msg ∷ []))

  select-work :
      (c : Case) (b b' : Broker T) → IsSound b → select nil c b ≡ some b' → suc (work b') ≡ work b
  unfolding select
  select-work stop_case b b' h done = ground (arith, h.running)
  select-work sub_case b b' h done = ground (arith, h.running)
  select-work unsub_case b b' h done = ground (arith, h.running)
  select-work broadcast_case b b' h done = ground (arith, h.running)

  Works-work : {b b' : Broker T} → IsSound b → Works b b' → suc (work b') ≡ work b
  Works-work {b} {b'} h (makes before after c here done) =
      let made = complete-work c (record b { calls = before ++ after }) b' done in
      omega
        (arith, made, ap length here, length-append before (c ∷ after), length-append before after)
  Works-work {b} {b'} h (takes c runs done) = select-work c b b' h done

  Drains-Reachable : {b b' : Broker T} {n : ℕ} → Reachable nil b → Drains b n b' → Reachable nil b'
  Drains-Reachable r stays = r
  Drains-Reachable r (goes_on d w) = next (Drains-Reachable r d) (Works-Step w)

  Drains-work : {b b' : Broker T} {n : ℕ} → Reachable nil b → Drains b n b' → n + work b' ≡ work b
  Drains-work r stays = omega arith
  Drains-work r (goes_on d w) =
      let before = Drains-work r d in
      let last = Works-work (Reachable-IsSound nil _ (Drains-Reachable r d)) w in
      omega (arith, before, last)

  -- A send that can be made can be made with other calls waiting.
  complete-calls :
      (c : Call T) (b b' : Broker T) (calls : List (Call T))
      → complete c b ≡ sent b'
      → complete c (record b { calls = calls }) ≡ sent (record b' { calls = calls })
  unfolding complete
  complete-calls (subscribing k) b b' calls done = ground arith
  complete-calls (unsubscribing k) b b' calls done = ground arith
  complete-calls (broadcasting msg) b b' calls done = ground arith

  -- The loop can take what stands in a buffer.
  by_requests :
      (b : Broker T) (joins leaves : List ChanId) (messages : List T)
      → b.loop ≡ running
      → b.calls ≡ []
      → b.sub_c.buffer ≡ joins
      → b.unsub_c.buffer ≡ leaves
      → b.broadcast_c.buffer ≡ messages
      → (work b ≡ 0) ⊎ ((b' : Broker T) × Works b b')
  unfolding select
  by_requests b (c ∷ rest) leaves messages runs quiet j l m =
      let b1 : Broker T = record b { sub_c = record b.sub_c { buffer = rest } } in
      inr (on_sub nil c b1, takes sub_case runs (ground arith))
  by_requests b [] (c ∷ rest) messages runs quiet j l m =
      let b1 : Broker T = record b { unsub_c = record b.unsub_c { buffer = rest } } in
      inr (on_unsub nil c b1, takes unsub_case runs (ground arith))
  by_requests b [] [] (msg ∷ rest) runs quiet j l m =
      let b1 : Broker T = record b { broadcast_c = record b.broadcast_c { buffer = rest } } in
      inr (on_broadcast nil msg b1, takes broadcast_case runs (ground arith))
  by_requests b [] [] [] runs quiet j l m = inl (ground arith)

  idle_or_busy : (b : Broker T) → Reachable nil b → (work b ≡ 0) ⊎ ((b' : Broker T) × Works b b')
  idle_or_busy b r = by_calls b.calls refl
    where
      by_calls :
          (calls : List (Call T)) → b.calls ≡ calls → (work b ≡ 0) ⊎ ((b' : Broker T) × Works b b')
      by_calls [] e =
          let runs = (Reachable-IsSound nil b r).running.runs in
          by_requests b b.sub_c.buffer b.unsub_c.buffer b.broadcast_c.buffer runs e refl refl refl
      by_calls (c ∷ rest) e =
          let (choice, runs) = send_or_turn nil b c r in
          elim choice [
            | inl (b', done) ↦
                inr
                  (record b' { calls = rest }, makes [] rest c e (complete-calls c b b' rest done))
            | inr (case, b', done) ↦ inr (b', takes case runs done)
          ]

  -- As many steps as there is work can be made.
  drained :
      (n m total : ℕ) (b b' : Broker T)
      → m + n ≡ total
      → Reachable nil b
      → Drains b m b'
      → work b' ≡ n
      → (b'' : Broker T) × Drains b total b'' × (work b'' ≡ 0)
  drained zero m total b b' sum r d e = (b', subst (λ k. Drains b k b') (omega arith) d, e)
  drained (suc n) m total b b' sum r d e =
      let r' = Drains-Reachable r d in
      elim (idle_or_busy b' r') [
        | inl idle ↦ absurd (omega arith)
        | inr (b1, w) ↦
            let left = Works-work (Reachable-IsSound nil b' r') w in
            drained n (suc m) total b b1 (omega arith) r (goes_on d w) (omega arith)
      ]

  -- Left to itself, a broker in use comes to rest: however its sends and the turns of its loop
  -- alternate, each of them brings it one step nearer, and after as many as it has work, which can
  -- all be made, no call waits and no request is left in its buffers.
  pub drains :
      (b : Broker T)
      → Reachable nil b
      → ((n : ℕ) (b' : Broker T) → Drains b n b' → n + work b' ≡ work b)
        × ((b' : Broker T) × Drains b (work b) b' × (work b' ≡ 0))
  drains b r =
      (λ n b' d. Drains-work r d, drained (work b) 0 (work b) b b (omega arith) r stays refl)
