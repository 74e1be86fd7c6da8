-- ===== src/Server/Lifecycle/Blame.antt =====
-- Whom an error that ends the server is to blame on.
use mahogany.Base.{
  ◌≡◌, refl, Bool, true, false, ◌||◌, Option, none, some, List, [], ◌∷◌, ◌++◌, Error, arith,
  contains, string_eq,
}
use mahogany.Server.Lifecycle.{
  Updater, reporting, Web, complaining, Main, selecting, returned, Watcher, Listener, no_listener,
  opened, closed, Process, launched, Event, listens, serves_until, web_fails, sees_done, step,
}

-- The faults of the system's calls: a listener that cannot be had, an HTTP server that fails, and a
-- `Serve` that fails although its listener is open.
abbrev serve_faults : Listener → Error → List Error
serve_faults opened e = e ∷ []
serve_faults no_listener e = e ∷ []
serve_faults closed e = []

abbrev pub faults_of : Event → Process → List Error
faults_of (listens (some e)) p = e ∷ []
faults_of (serves_until (some e)) p = serve_faults p.listener e
faults_of (web_fails e) p = e ∷ []
faults_of event p = []

-- The states that the server comes to, with the faults on the way.
pub data Reachable : List Error → Process → Type 0 where
  begins : Reachable [] launched
  goes :
      {faults : List Error} {p q : Process} (e : Event)
      → Reachable faults p
      → step e p ≡ some q
      → Reachable (faults_of e p ++ faults) q

-- Every error under way is a fault, and the listener is not closed before `Stop` is marked.
abbrev updater_blames : List Error → Updater → Bool
updater_blames faults (reporting e) = contains faults e
updater_blames faults updater = true

abbrev web_blames : List Error → Web → Bool
web_blames faults (complaining e) = contains faults e
web_blames faults web = true

abbrev main_blames : List Error → Main → Bool
main_blames faults (returned (some e)) = contains faults e
main_blames faults main = true

abbrev still_open : Listener → Bool
still_open closed = false
still_open l = true

abbrev has_marked : Watcher → Bool
has_marked Watcher.waiting = false
has_marked Watcher.cancelling = false
has_marked Watcher.marking = false
has_marked watcher = true

abbrev pub has_cancelled : Watcher → Bool
has_cancelled Watcher.waiting = false
has_cancelled Watcher.cancelling = false
has_cancelled watcher = true

pub record Blames (faults : List Error) (p : Process) : Type 0 where
  updater : updater_blames faults p.updater ≡ true
  web : web_blames faults p.web ≡ true
  main : main_blames faults p.main ≡ true
  listener : (still_open p.listener || p.is_closed) ≡ true
  marked : has_marked p.watcher ≡ true → p.is_closed ≡ true
  done : p.main ≡ returned none → p.cancelled ≡ true
  pub cancelled : has_cancelled p.watcher ≡ true → p.cancelled ≡ true

step-Blames :
    (e : Event) (faults : List Error) (p q : Process)
    → Blames faults p
    → step e p ≡ some q
    → Blames (faults_of e p ++ faults) q
unfolding step
step-Blames e faults p q h s = record {
  updater = ground (arith, h.updater, h.listener);
  web = ground (arith, h.web);
  main = ground (arith, h.main, h.updater, h.web);
  listener = ground (arith, h.listener, h.marked);
  marked = λ m. ground (arith, h.marked);
  done = λ m. ground (arith, h.done);
  cancelled = λ m. ground (arith, h.cancelled);
}

pub Reachable-Blames : {faults : List Error} {p : Process} → Reachable faults p → Blames faults p
unfolding launched
Reachable-Blames begins = record {
  updater = refl;
  web = refl;
  main = refl;
  listener = refl;
  marked = λ m. absurd (ground arith);
  done = λ m. absurd (ground arith);
  cancelled = λ m. absurd (ground arith);
}
Reachable-Blames (goes e before s) = step-Blames e _ _ _ (Reachable-Blames before) s

-- What stands behind the result of `Start`: an error is a fault that happened, and no error means
-- that the context was cancelled.
abbrev pub Behind : List Error → Process → Option Error → Type 0
Behind faults p (some e) = contains faults e ≡ true
Behind faults p none = p.cancelled ≡ true

-- In whatever order the goroutines go on, `Start` returns an error only if that error is a fault of
-- the listener, of `Serve` or of the HTTP server, and in particular not for a listener that `Stop`
-- closed; it returns without an error only after the context was cancelled.
pub Reachable-Behind :
    (faults : List Error) (p : Process) (result : Option Error)
    → Reachable faults p
    → p.main ≡ returned result
    → Behind faults p result
Reachable-Behind faults p none r m = (Reachable-Blames r).done m
Reachable-Behind faults p (some e) r m = ground (arith, (Reachable-Blames r).main)

-- Once the watcher has cancelled the context, the process may end at once: `Start` may return
-- before any statement of `Stop` that is still to come, so that the listener stays open, the broker
-- runs on and the HTTP server is not shut down.
Reachable-step :
    (faults : List Error) (p : Process)
    → Reachable faults p
    → p.main ≡ selecting
    → has_cancelled p.watcher ≡ true
    → step sees_done p ≡ some (record p { main = returned none })
unfolding step
Reachable-step faults p r m c = ground (arith, (Reachable-Blames r).cancelled)
