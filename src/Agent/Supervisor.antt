-- ===== src/Agent/Supervisor.antt =====
-- `RunAgent` of main.go: the loop that runs the agent again after each failure, once `NewAgent` and
-- the set-up of telemetry worked; and the goroutines that `Run` leaves behind.
use mahogany.Base.{
  ℕ, suc, ◌+◌, ◌≡◌, refl, Bool, true, false, Option, none, some, List, [], ◌∷◌, ◌++◌, Error, Result,
  ok, err, String, not, ◌||◌, if◌then◌else◌, arith, count_if, length, length-append, ◌&&◌,
}
use mahogany.Schema.{RegisterManifestResponse}
use mahogany.UpdateServer.ReleaseStream.{Outcome, waiting, returned}
use mahogany.Agent.{Effect, Machine}
use mahogany.Agent.Session.{Received, Goroutine, collecting, reporting, Running, run}

-- What one call of `Run` meets, and whether the context is done when the loop wakes after it.
pub record Attempt : Type 0 where
  pub registered : Result RegisterManifestResponse
  pub metrics : Option Error
  pub stream : Option Error
  pub messages : List Received
  pub cancelled : Bool

-- Where the loop stands: whether the context is done, how many goroutines were started to run
-- `Collect`, the errors that were logged, the effects of each call of `Run` on the machine, and
-- whether the loop is over. Nothing waits for the goroutines: each of them ends by itself, some time
-- after the context is done.
pub record Supervisor : Type 0 where
  pub done : Bool
  pub collectors : ℕ
  pub logged : List Error
  pub effects : List (List Effect)
  pub over : Bool

-- Before the loop, with or without an interrupt before it.
abbrev pub idle : Bool → Supervisor
idle early = record { done = early; collectors = 0; logged = []; effects = []; over = false }

abbrev pub log : Option Error → List Error → List Error
log none errors = errors
log (some e) errors = errors ++ (e ∷ [])

abbrev is_collecting : Goroutine → Bool
is_collecting collecting = true
is_collecting reporting = false

abbrev error_of : Outcome → Option Error
error_of waiting = none
error_of (returned error) = error

abbrev is_ok : {A : Type 0} → Result A → Bool
is_ok (ok a) = true
is_ok (err e) = false

abbrev is_none : {A : Type 0} → Option A → Bool
is_none none = true
is_none (some a) = false

-- What a call of `Run` leaves, with what it is known to have returned.
abbrev after_run : Attempt → Running → Option Error → Supervisor → Supervisor
after_run a r error s = record s {
  done = s.done || a.cancelled;
  collectors = s.collectors + count_if is_collecting r.started;
  logged = log error s.logged;
  effects = s.effects ++ (r.effects ∷ []);
}

module _ (m : Machine) (download_dir : String) where
  abbrev pub run_attempt : Attempt → Running
  run_attempt a = run m download_dir a.registered a.metrics a.stream a.messages

  -- The `for` loop, which looks at the context before each call of `Run`; a call that still waits for
  -- a release is the last.
  pub supervise : List Attempt → Supervisor → Supervisor
  supervise [] s = if s.done then record s { over = true } else s
  supervise (a ∷ more) s =
      let r = run_attempt a in
      let next = supervise more (after_run a r (error_of r.outcome) s) in
      if s.done
      then record s { over = true }
      else elim r.outcome [ waiting ↦ after_run a r none s | returned error ↦ next ]

  -- A call of `Run` comes back, and the context is not done.
  abbrev comes_back : Attempt → Bool
  comes_back a = elim (run_attempt a).outcome [ waiting ↦ false | returned _ ↦ not a.cancelled ]

  abbrev pub all_back : List Attempt → Bool
  all_back [] = true
  all_back (a ∷ more) = comes_back a && all_back more

-- What a call of `Run` needs to come to its `go` statements: the server registers the agent, and the
-- gauges can be made.
abbrev pub is_set_up : Attempt → Bool
is_set_up a = is_ok a.registered && is_none a.metrics

run_attempt-started :
    (m : Machine) (download_dir : String) (a : Attempt)
    → count_if is_collecting (run_attempt m download_dir a).started ≡ count_if is_set_up (a ∷ [])
unfolding run
run_attempt-started m download_dir a = ground arith

-- While the context is not done, every call of `Run` that came back, if the server registered the
-- agent and the gauges could be made, has left a goroutine that collects the metrics, whatever came
-- of its stream; so the machine's measures are taken as many times over.
pub collectors-supervise :
    (m : Machine) (download_dir : String) (attempts : List Attempt) (s : Supervisor)
    → s.done ≡ false
    → all_back m download_dir attempts ≡ true
    → (supervise m download_dir attempts s).collectors ≡ s.collectors + count_if is_set_up attempts
unfolding supervise
collectors-supervise m download_dir [] s open_yet h = ground arith
collectors-supervise m download_dir (a ∷ more) s open_yet h =
    let r = run_attempt m download_dir a in
    ground (
      arith,
      run_attempt-started m download_dir a,
      collectors-supervise m download_dir more (after_run a r (error_of r.outcome) s),
    )

supervise_done :
    (m : Machine) (download_dir : String) (attempts : List Attempt) (s : Supervisor)
    → s.done ≡ true
    → supervise m download_dir attempts s ≡ record s { over = true }
unfolding supervise
supervise_done m download_dir [] s h = rw h refl
supervise_done m download_dir (a ∷ more) s h = rw h refl

-- An interrupt while a call of `Run` comes back, after others that came back, is the end of the loop.
pub supervise_interrupted :
    (m : Machine) (download_dir : String) (before after : List Attempt) (a : Attempt)
    (error : Option Error) (s : Supervisor)
    → s.done ≡ false
    → all_back m download_dir before ≡ true
    → (run_attempt m download_dir a).outcome ≡ returned error
    → a.cancelled ≡ true
    → let s' = supervise m download_dir (before ++ (a ∷ after)) s in
      (s'.over ≡ true)
      × (s'.collectors ≡ s.collectors + count_if is_set_up (before ++ (a ∷ [])))
      × (length s'.effects ≡ length s.effects + suc (length before))
unfolding supervise
supervise_interrupted m download_dir [] after a error s open_yet back comes cancelled =
    let r = run_attempt m download_dir a in
    ground (
      arith,
      length-append s.effects (r.effects ∷ []),
      run_attempt-started m download_dir a,
      supervise_done m download_dir after (after_run a r error s) (ground arith),
    )
supervise_interrupted m download_dir (b ∷ before) after a error s open_yet back comes cancelled =
    let r = run_attempt m download_dir b in
    ground (
      arith,
      length-append s.effects (r.effects ∷ []),
      run_attempt-started m download_dir b,
      supervise_interrupted m download_dir before after a error
          (after_run b r (error_of r.outcome) s),
    )

-- The loop is over only where the context is done.
pub supervise-over :
    (m : Machine) (download_dir : String) (attempts : List Attempt) (s : Supervisor)
    → s.over ≡ false
    → (supervise m download_dir attempts s).over ≡ true
    → (supervise m download_dir attempts s).done ≡ true
unfolding supervise
supervise-over m download_dir [] s at h = ground arith
supervise-over m download_dir (a ∷ more) s at h =
    let r = run_attempt m download_dir a in
    ground (arith, supervise-over m download_dir more (after_run a r (error_of r.outcome) s))
