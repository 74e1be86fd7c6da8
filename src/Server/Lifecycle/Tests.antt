-- ===== src/Server/Lifecycle/Tests.antt =====
-- A server that is interrupted while it serves.
use mahogany.Base.{◌≡◌, ◌≤◌, ◌⊎◌, Option, Error, refl, none, some, [], ◌∷◌, true}
use mahogany.Server.Lifecycle.{
  Process, launched, listens, watches, web_fails, hears_web, returned, step, serving, opened,
  Watcher, Web, sees_done,
}
use mahogany.Server.Lifecycle.Ending.{Runs, starts, goes_on, Runs-ends}
use mahogany.Server.Lifecycle.Blame.{Reachable, begins, goes, Behind, Reachable-Behind}

abbrev served : Process
served = record launched { updater = serving; listener = opened; broker_started = true }

abbrev cancelled : Process
cancelled = record served { watcher = Watcher.marking; cancelled = true }

cancelled-Runs : Runs 3 cancelled
unfolding step launched
cancelled-Runs = goes_on watches (goes_on watches (goes_on (listens none) starts refl) refl) refl

abbrev failed : Process
failed = record launched { main = returned (some "address in use"); web = Web.silent }

failed-Reachable : Reachable ("address in use" ∷ []) failed
unfolding step launched
failed-Reachable = goes hears_web (goes (web_fails "address in use") begins refl) refl

Reachable-Behind_example : Behind ("address in use" ∷ []) failed (some "address in use")
Reachable-Behind_example =
    Reachable-Behind ("address in use" ∷ []) failed (some "address in use") failed-Reachable refl

Runs-ends_example :
    (3 ≤ 12)
    × (((result : Option Error) × (cancelled.main ≡ returned result))
        ⊎ ((cancelled.watcher ≡ Watcher.waiting)
            ⊎ ((q : Process) × ((step watches cancelled ≡ some q)
                  ⊎ (step sees_done cancelled ≡ some q)))))
Runs-ends_example = Runs-ends 3 cancelled cancelled-Runs
