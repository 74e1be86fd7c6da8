-- ===== src/Broker/Delivery.antt =====
-- What a turn of the loop does to the subscribers' channels: a broadcast, and the map `subs`.
use mahogany.Base.{
  ℕ, suc, ◌+◌, ◌≤◌, ◌≡◌, refl, true, false, Option, none, some, List, [], ◌∷◌, ◌++◌, arith, length,
  ltb, ◌==◌, contains, number_eq, option_eq, if◌then◌else◌, Bool-cases, inl, inr,
}
use mahogany.Broker.{
  Chan, ChanId, message_capacity, set_chan, close_chan, delete, send_all, close_all,
}

-- How often a channel stands in a list.
abbrev pub occ : ChanId → List ChanId → ℕ
occ c [] = 0
occ c (d ∷ ds) = let rest = occ c ds in if d == c then suc rest else rest

pub occ-append : (c : ChanId) (xs ys : List ChanId) → occ c (xs ++ ys) ≡ occ c xs + occ c ys
occ-append c [] ys = omega arith
occ-append c (x ∷ xs) ys = ground (arith, occ-append c xs ys)

pub occ-delete :
    (c d : ChanId) (ds : List ChanId) → occ c (delete d ds) ≡ (if d == c then 0 else occ c ds)
occ-delete c d [] = ground arith
occ-delete c d (x ∷ ds) = ground (arith, occ-delete c d ds)

pub length-delete : (d : ChanId) (ds : List ChanId) → length (delete d ds) + occ d ds ≡ length ds
length-delete d [] = omega arith
length-delete d (x ∷ ds) = ground (arith, length-delete d ds)

pub contains-eq-occ :
    (c : ChanId) (ds : List ChanId) → contains ds c ≡ (if ltb 0 (occ c ds) then true else false)
contains-eq-occ c [] = ground arith
contains-eq-occ c (d ∷ ds) = ground (arith, contains-eq-occ c ds)

-- What a broadcast leaves in a subscriber's channel: a full buffer drops the message.
module _ {T : Type 0} where
  abbrev deliver : T → Chan T → Chan T
  deliver msg c =
      if ltb (length c.buffer) message_capacity
      then record c { buffer = c.buffer ++ (msg ∷ []) }
      else c

  abbrev pub delivered_to : T → List ChanId → (ℕ → Chan T) → ℕ → Chan T
  delivered_to msg subs chans k =
      if ltb 0 (occ (some k) subs) then deliver msg (chans k) else chans k

  -- The keys are channels, each once, and none of them is closed.
  pub record CanSend (subs : List ChanId) (chans : ℕ → Chan T) : Type 0 where
    pub no_nil : occ none subs ≡ 0
    pub once : (k : ℕ) → occ (some k) subs ≤ 1
    pub is_open : (k : ℕ) → (chans k).closed ≡ true → occ (some k) subs ≡ 0

  CanSend-tail :
      (j : ℕ) (more : List ChanId) (chans : ℕ → Chan T) (c : Chan T)
      → CanSend (some j ∷ more) chans
      → c.closed ≡ (chans j).closed
      → CanSend more (set_chan j c chans)
  CanSend-tail j more chans c h same = record {
    no_nil = ground (arith, h.no_nil);
    once = λ k. ground (arith, h.once k);
    is_open = λ k e. ground (arith, h.is_open k, h.once k, h.is_open j);
  }

  CanSend-rest :
      (j : ℕ) (more : List ChanId) (chans : ℕ → Chan T)
      → CanSend (some j ∷ more) chans
      → CanSend more chans
  CanSend-rest j more chans h = record {
    no_nil = ground (arith, h.no_nil);
    once = λ k. ground (arith, h.once k);
    is_open = λ k e. ground (arith, h.is_open k);
  }

  abbrev Delivers : T → List ChanId → (ℕ → Chan T) → Option (ℕ → Chan T) → Type 0
  Delivers msg subs chans result =
      (chans' : ℕ → Chan T) × (result ≡ some chans')
      × ((k : ℕ) → chans' k ≡ delivered_to msg subs chans k)

  pub send_all-delivered_to :
      (msg : T) (subs : List ChanId) (chans : ℕ → Chan T)
      → CanSend subs chans
      → Delivers msg subs chans (send_all msg subs chans)
  unfolding send_all
  send_all-delivered_to msg [] chans h = (chans, refl, λ k. refl)
  send_all-delivered_to msg (none ∷ more) chans h = absurd (ground (arith, h.no_nil))
  send_all-delivered_to msg (some j ∷ more) chans h =
      let c : Chan T = record (chans j) { buffer = (chans j).buffer ++ (msg ∷ []) } in
      let (full, full_eq, full_at) =
        send_all-delivered_to msg more chans (CanSend-rest j more chans h) in
      let (room, room_eq, room_at) =
        send_all-delivered_to msg more (set_chan j c chans) (CanSend-tail j more chans c h refl) in
      elim (Bool-cases (ltb (length (chans j).buffer) message_capacity)) [
        | inl fits ↦
            (room, ground (arith, room_eq, h.is_open j), λ k. ground (arith, room_at k, h.once k))
        | inr not_fits ↦
            (full, ground (arith, full_eq, h.is_open j), λ k. ground (arith, full_at k, h.once k))
      ]

  -- Stopping closes the subscribers' channels, and leaves what they still hold.
  abbrev pub closed_in : List ChanId → (ℕ → Chan T) → ℕ → Chan T
  closed_in subs chans k = if ltb 0 (occ (some k) subs) then close_chan (chans k) else chans k

  CanSend-closed :
      (j : ℕ) (more : List ChanId) (chans : ℕ → Chan T)
      → CanSend (some j ∷ more) chans
      → CanSend more (set_chan j (close_chan (chans j)) chans)
  CanSend-closed j more chans h = record {
    no_nil = ground (arith, h.no_nil);
    once = λ k. ground (arith, h.once k);
    is_open = λ k e. ground (arith, h.is_open k, h.once k);
  }

  pub close_all-closed_in :
      (subs : List ChanId) (chans : ℕ → Chan T)
      → CanSend subs chans
      → (chans' : ℕ → Chan T) × (close_all subs chans ≡ some chans')
        × ((k : ℕ) → chans' k ≡ closed_in subs chans k)
  unfolding close_all
  close_all-closed_in [] chans h = (chans, refl, λ k. refl)
  close_all-closed_in (none ∷ more) chans h = absurd (ground (arith, h.no_nil))
  close_all-closed_in (some j ∷ more) chans h =
      let (rest, rest_eq, rest_at) =
        close_all-closed_in more (set_chan j (close_chan (chans j)) chans)
          (CanSend-closed j more chans h) in
      (rest, ground (arith, rest_eq, h.is_open j), λ k. ground (arith, rest_at k, h.once k))
