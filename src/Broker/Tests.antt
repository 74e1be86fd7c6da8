-- ===== src/Broker/Tests.antt =====
-- A broker of numbers at work, and the theorems at its states.
use mahogany.Base.{◌+◌, ℕ, ◌≡◌, ◌⊎◌, refl, false, some, [], ◌∷◌, pos, number_eq, option_eq}
use mahogany.Broker.{
  Chan, Broker, Case, subscribing, broadcasting, running, returned, panicked, sub_case, stop_case,
  unsub_case, broadcast_case, sent, select, complete, start, new_broker, subscribe, broadcast, stop,
}
use mahogany.Broker.Delivery.{delivered_to, closed_in}
use mahogany.Broker.Session.{Reachable, Step, started, next, subscribes, broadcasts, sends, turns}
use mahogany.Broker.Invariant.{IsSound}
use mahogany.Broker.Safety.{Reachable-IsSound, broadcast_turn, send_or_turn}
use mahogany.Broker.Draining.{Drains, work, drains}
use mahogany.Broker.Shutdown.{stop_then_return, stop_then_panic}

-- Started, a stream has called `Subscribe`, its channel was handed over, and the loop took it.
abbrev asked : Broker ℕ
asked = (subscribe (start new_broker)).1

abbrev handed : Broker ℕ
handed = record asked { calls = []; sub_c = record { buffer = some 0 ∷ []; closed = false } }

abbrev joined : Broker ℕ
joined = record handed {
  sub_c = record { buffer = []; closed = false };
  subs = some 0 ∷ [];
  count = pos 1;
}

-- A release was announced, and waits in `broadcastC`.
abbrev announced : Broker ℕ
announced = (broadcast 7 joined)

abbrev queued : Broker ℕ
queued = record joined { broadcast_c = record { buffer = 7 ∷ []; closed = false } }

joined-Reachable : Reachable 0 joined
unfolding start new_broker subscribe complete select option_eq number_eq
joined-Reachable =
    let hand : Step 0 asked handed = sends [] [] (subscribing 0) refl refl in
    let join : Step 0 handed joined = turns sub_case refl refl in
    next (next (next started subscribes) hand) join

queued-Reachable : Reachable 0 queued
unfolding start new_broker subscribe broadcast complete
queued-Reachable =
    let hand : Step 0 announced queued = sends [] [] (broadcasting 7) refl refl in
    next (next joined-Reachable (broadcasts 7)) hand

Reachable-IsSound_example : IsSound queued
Reachable-IsSound_example = Reachable-IsSound 0 queued queued-Reachable

broadcast_turn_example :
    (chans' : ℕ → Chan ℕ) × (select 0 broadcast_case queued
      ≡ some
          (record queued { broadcast_c = record { buffer = []; closed = false }; chans = chans' }))
    × ((k : ℕ) → chans' k ≡ delivered_to 7 queued.subs queued.chans k)
broadcast_turn_example = broadcast_turn 0 queued 7 [] queued-Reachable refl

send_or_turn_example :
    (((b' : Broker ℕ) × (complete (broadcasting 8) queued ≡ sent b'))
      ⊎ ((c : Case) × (b' : Broker ℕ) × (select 0 c queued ≡ some b')))
    × (queued.loop ≡ running)
send_or_turn_example = send_or_turn 0 queued (broadcasting 8) queued-Reachable

stop_then_return_example :
    (s t : Broker ℕ) × (stop queued ≡ some s)
    × (select 0 stop_case s ≡ some t)
    × (t.loop ≡ returned)
    × ((k : ℕ) → t.chans k ≡ closed_in queued.subs queued.chans k)
stop_then_return_example = stop_then_return 0 queued queued-Reachable

stop_then_panic_example :
    (s p : Broker ℕ) × (stop queued ≡ some s)
    × (select 0 unsub_case s ≡ some p)
    × (p.loop ≡ panicked)
unfolding start new_broker subscribe
stop_then_panic_example = stop_then_panic 0 queued queued-Reachable refl

drains_example :
    ((n : ℕ) (b' : Broker ℕ) → Drains 0 queued n b' → n + work b' ≡ work queued)
    × ((b' : Broker ℕ) × Drains 0 queued (work queued) b' × (work b' ≡ 0))
drains_example = drains 0 queued queued-Reachable
