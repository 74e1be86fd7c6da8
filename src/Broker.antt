-- ===== src/Broker.antt =====
-- pkg/mahogany/sources/broker.go: the broker that fans releases out to the open streams. A channel
-- is its buffer with a flag for `close`; a goroutine that is blocked in a send is an entry of
-- `calls`; the goroutine of `Start` takes one ready case of its `select` at a time. `none` stands
-- for the nil channel, which a receive from a closed channel of channels yields.
mod Tests
pub mod Delivery
pub mod Session
pub mod Invariant
pub mod Safety
pub mod Shutdown
pub mod Draining
pub mod Announce
use mahogany.Base.{
  ℕ, suc, ◌+◌, Bool, true, false, ◌||◌, Option, none, some, List, [], ◌∷◌, ◌++◌, length, ltb, ℤ,
  pos, increment, decrement, ◌==◌, contains, number_eq, option_eq, if◌then◌else◌,
}

pub record Chan (A : Type 0) : Type 0 where
  pub buffer : List A
  pub closed : Bool

abbrev open_chan : {A : Type 0} → Chan A
open_chan = record { buffer = []; closed = false }

-- What a receive yields, with the channel after it; `none` where it would block. A closed channel
-- that is empty yields the zero value.
abbrev receive : {A : Type 0} → A → Chan A → Option (A × Chan A)
receive zero_value c = elim c.buffer [
  | [] ↦ if c.closed then some (zero_value, c) else none
  | a ∷ rest ↦ some (a, record c { buffer = rest })
]

-- The goroutine of `Start`: not started, in its loop, returned, or ended by a panic.
pub data Loop : Type 0 where
  idle running returned panicked : Loop

-- A call that waits for room in one of the broker's channels. A subscriber's channel is known by
-- the number that its `make` gave it.
pub data Call (T : Type 0) : Type 0 where
  subscribing : ℕ → Call T
  unsubscribing : ℕ → Call T
  broadcasting : T → Call T

abbrev pub ChanId : Type 0
ChanId = Option ℕ

pub record Broker (T : Type 0) : Type 0 where
  pub is_stopped : Bool
  pub count : ℤ
  pub stop_closed : Bool
  pub broadcast_c : Chan T
  pub sub_c : Chan ChanId
  pub unsub_c : Chan ChanId
  -- the map `subs` of `Start`, by its keys
  pub subs : List ChanId
  pub chans : ℕ → Chan T
  -- the number that the next `make(chan T, 5)` gets
  pub next : ℕ
  pub calls : List (Call T)
  pub loop : Loop

-- The buffers that the code gives to its channels.
abbrev pub request_capacity : ℕ
request_capacity = 1

abbrev pub message_capacity : ℕ
message_capacity = 5

-- `NewBroker`
unfoldable pub new_broker : {T : Type 0} → Broker T
new_broker = record {
  is_stopped = true;
  count = pos 0;
  stop_closed = false;
  broadcast_c = open_chan;
  sub_c = open_chan;
  unsub_c = open_chan;
  subs = [];
  chans = λ _. open_chan;
  next = 0;
  calls = [];
  loop = idle;
}

-- `delete(subs, c)`
abbrev pub delete : ChanId → List ChanId → List ChanId
delete c [] = []
delete c (d ∷ ds) = let rest = delete c ds in if d == c then rest else d ∷ rest

-- `subs[c] = true`
abbrev add : ChanId → List ChanId → List ChanId
add c ds = if contains ds c then ds else c ∷ ds

module _ {T : Type 0} where
  abbrev pub set_chan : ℕ → Chan T → (ℕ → Chan T) → ℕ → Chan T
  set_chan k c chans j = if j == k then c else chans j

  abbrev pub close_chan : Chan T → Chan T
  close_chan c = record c { closed = true }

  -- `for c := range subs { close(c) }`: `none` where a `close` panics, on nil or on a closed channel.
  pub close_all : List ChanId → (ℕ → Chan T) → Option (ℕ → Chan T)
  close_all [] chans = some chans
  close_all (none ∷ more) chans = none
  close_all (some k ∷ more) chans =
      let rest = close_all more (set_chan k (close_chan (chans k)) chans) in
      if (chans k).closed then none else rest

  -- The inner `select` with its `default`: the message is dropped where the buffer is full or the
  -- channel is nil, and a send on a closed channel panics.
  pub send_all : T → List ChanId → (ℕ → Chan T) → Option (ℕ → Chan T)
  send_all msg [] chans = some chans
  send_all msg (none ∷ more) chans = send_all msg more chans
  send_all msg (some k ∷ more) chans =
      let c = chans k in
      let delivered =
        send_all msg more (set_chan k (record c { buffer = c.buffer ++ (msg ∷ []) }) chans) in
      let dropped = send_all msg more chans in
      if c.closed
      then none
      else if ltb (length c.buffer) message_capacity
      then delivered
      else dropped

  -- The loop goes on with the channels, or ends by the panic.
  abbrev or_panic : Broker T → Option (ℕ → Chan T) → Broker T
  or_panic b none = record b { loop = panicked }
  or_panic b (some chans) = record b { chans = chans }

-- What becomes of a blocking send: a send on a closed channel panics in the caller's goroutine.
pub data Attempt (A : Type 0) : Type 0 where
  blocked client_panics : Attempt A
  sent : A → Attempt A

abbrev put : {A : Type 0} → A → Chan A → Attempt (Chan A)
put a c =
    if c.closed
    then client_panics
    else if ltb (length c.buffer) request_capacity
    then sent (record c { buffer = c.buffer ++ (a ∷ []) })
    else blocked

-- The cases of the `select` in `Start`.
pub data Case : Type 0 where
  stop_case sub_case unsub_case broadcast_case : Case

module _ {T : Type 0} (nil : T) where
  -- The body of a case after its receive.
  abbrev on_stop : Broker T → Broker T
  on_stop b = elim (close_all b.subs b.chans) [
    | none ↦ record b { loop = panicked }
    | some chans ↦ record b { chans = chans; loop = returned }
  ]

  abbrev pub on_sub : ChanId → Broker T → Broker T
  on_sub c b = record b { subs = add c b.subs; count = increment b.count }

  abbrev pub on_unsub : ChanId → Broker T → Broker T
  on_unsub none b = record b { subs = delete none b.subs; loop = panicked }
  on_unsub (some k) b =
      if (b.chans k).closed
      then record b { subs = delete (some k) b.subs; loop = panicked }
      else record b {
        subs = delete (some k) b.subs;
        chans = set_chan k (close_chan (b.chans k)) b.chans;
        count = decrement b.count;
      }

  abbrev pub on_broadcast : T → Broker T → Broker T
  on_broadcast msg b = or_panic b (send_all msg b.subs b.chans)

  -- One turn of the `for` loop, by a case; `none` where the case is not ready.
  unfoldable pub select : Case → Broker T → Option (Broker T)
  unfolding close_all send_all
  select stop_case b = if b.stop_closed then some (on_stop b) else none
  select sub_case b = elim (receive none b.sub_c) [
    | none ↦ none
    | some (c, ch) ↦ some (on_sub c (record b { sub_c = ch }))
  ]
  select unsub_case b = elim (receive none b.unsub_c) [
    | none ↦ none
    | some (c, ch) ↦ some (on_unsub c (record b { unsub_c = ch }))
  ]
  select broadcast_case b = elim (receive nil b.broadcast_c) [
    | none ↦ none
    | some (msg, ch) ↦ some (on_broadcast msg (record b { broadcast_c = ch }))
  ]

module _ {T : Type 0} where
  -- `Start`, up to its loop.
  unfoldable pub start : Broker T → Broker T
  start b = record b { is_stopped = false; subs = []; loop = running }

  -- The test of `Subscribe`, and its `make`; `none` is the nil channel that it returns.
  unfoldable pub subscribe : Broker T → Option ℕ × Broker T
  subscribe b = if b.is_stopped then (none, b) else (
    some b.next,
    record b {
      chans = set_chan b.next open_chan b.chans;
      next = suc b.next;
      calls = subscribing b.next ∷ b.calls;
    },
  )

  -- The tests of `Unsubscribe` and `Broadcast`.
  pub unsubscribe : ℕ → Broker T → Broker T
  unsubscribe k b = if b.is_stopped then b else record b { calls = unsubscribing k ∷ b.calls }

  unfoldable pub broadcast : T → Broker T → Broker T
  broadcast msg b = if b.is_stopped then b else record b { calls = broadcasting msg ∷ b.calls }

  -- A send that waits is made once its channel has room.
  unfoldable pub complete : Call T → Broker T → Attempt (Broker T)
  complete (subscribing k) b = elim (put (some k) b.sub_c) [
    | blocked ↦ blocked
    | client_panics ↦ client_panics
    | sent c ↦ sent (record b { sub_c = c })
  ]
  complete (unsubscribing k) b = elim (put (some k) b.unsub_c) [
    | blocked ↦ blocked
    | client_panics ↦ client_panics
    | sent c ↦ sent (record b { unsub_c = c })
  ]
  complete (broadcasting msg) b = elim (put msg b.broadcast_c) [
    | blocked ↦ blocked
    | client_panics ↦ client_panics
    | sent c ↦ sent (record b { broadcast_c = c })
  ]

  -- The closes of `Stop`.
  abbrev pub stopped : Broker T → Broker T
  stopped b = record b {
    is_stopped = true;
    stop_closed = true;
    broadcast_c = record b.broadcast_c { closed = true };
    sub_c = record b.sub_c { closed = true };
    unsub_c = record b.unsub_c { closed = true };
  }

  -- `Stop`; a second call panics at `close(b.stopC)`, and is `none`.
  pub stop : Broker T → Option (Broker T)
  stop b = if b.stop_closed then none else some (stopped b)
