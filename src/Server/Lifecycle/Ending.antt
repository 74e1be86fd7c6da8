-- ===== src/Server/Lifecycle/Ending.antt =====
-- How long the server's process goes on.
use mahogany.Base.{
  ℕ, suc, ◌+◌, ◌≤◌, ◌≡◌, refl, ◌⊎◌, inl, inr, true, Option, none, some, List, [], ◌++◌, Error,
  arith,
}
use mahogany.Server.Lifecycle.{
  Updater, binding, serving, reporting, over, Web, listening, complaining, silent, Main, selecting,
  returned, Watcher, Process, launched, Event, watches, sees_done, step,
}
use mahogany.Server.Lifecycle.Blame.{
  Reachable, begins, goes, faults_of, has_cancelled, Reachable-Blames,
}

-- The states that the process comes to by so many events.
pub data Runs : ℕ → Process → Type 0 where
  starts : Runs 0 launched
  goes_on : {n : ℕ} {p q : Process} (e : Event) → Runs n p → step e p ≡ some q → Runs (suc n) q

-- The events that a goroutine can still take part in.
abbrev updater_left : Updater → ℕ
updater_left binding = 3
updater_left serving = 2
updater_left (reporting e) = 1
updater_left over = 0

abbrev web_left : Web → ℕ
web_left listening = 2
web_left (complaining e) = 1
web_left silent = 0

abbrev main_left : Main → ℕ
main_left selecting = 1
main_left (returned result) = 0

abbrev watcher_left : Watcher → ℕ
watcher_left Watcher.waiting = 6
watcher_left Watcher.cancelling = 5
watcher_left Watcher.marking = 4
watcher_left Watcher.closing = 3
watcher_left Watcher.stopping_broker = 2
watcher_left Watcher.shutting_down = 1
watcher_left Watcher.finished = 0

abbrev left : Process → ℕ
left p = updater_left p.updater + web_left p.web + main_left p.main + watcher_left p.watcher

step-left : (e : Event) (p q : Process) → step e p ≡ some q → suc (left q) ≤ left p
unfolding step
step-left e p q h = ground arith

Runs-left : {n : ℕ} {p : Process} → Runs n p → n + left p ≤ 12
unfolding launched
Runs-left starts = omega arith
Runs-left (goes_on {n} {p} {q} e r h) = omega (arith, Runs-left r, step-left e p q h)

Runs-Reachable : {n : ℕ} {p : Process} → Runs n p → (faults : List Error) × Reachable faults p
Runs-Reachable starts = ([], begins)
Runs-Reachable (goes_on {p = p} e r h) =
    let (faults, reached) = Runs-Reachable r in (faults_of e p ++ faults, goes e reached h)

Main-cases : (m : Main) → (m ≡ selecting) ⊎ ((result : Option Error) × (m ≡ returned result))
Main-cases selecting = inl refl
Main-cases (returned result) = inr (result, refl)

-- Once the signal came, the watcher has a statement to run, or the context is cancelled.
own_step :
    (p : Process)
    → p.main ≡ selecting
    → (has_cancelled p.watcher ≡ true → p.cancelled ≡ true)
    → (p.watcher ≡ Watcher.waiting)
      ⊎ ((q : Process) × ((step watches p ≡ some q) ⊎ (step sees_done p ≡ some q)))
unfolding step
own_step p selects cancels = by_watcher p.watcher refl
  where
    ending :
        p.cancelled ≡ true
        → (q : Process) × ((step watches p ≡ some q) ⊎ (step sees_done p ≡ some q))
    ending done = (record p { main = returned none }, inr (ground arith))

    by_watcher :
        (w : Watcher)
        → p.watcher ≡ w
        → (p.watcher ≡ Watcher.waiting)
          ⊎ ((q : Process) × ((step watches p ≡ some q) ⊎ (step sees_done p ≡ some q)))
    by_watcher Watcher.waiting at = inl at
    by_watcher Watcher.cancelling at =
        inr (record p { watcher = Watcher.marking; cancelled = true }, inl (ground arith))
    by_watcher Watcher.marking at = inr (ending (cancels (ground arith)))
    by_watcher Watcher.closing at = inr (ending (cancels (ground arith)))
    by_watcher Watcher.stopping_broker at = inr (ending (cancels (ground arith)))
    by_watcher Watcher.shutting_down at = inr (ending (cancels (ground arith)))
    by_watcher Watcher.finished at = inr (ending (cancels (ground arith)))

-- The server's process comes to its end after the interrupt: in whatever order its goroutines go on,
-- there are at most 12 events in all; and while `main` is not back, either the signal has not come,
-- or there is an event that waits for nothing from outside, a statement of the signal's goroutine or
-- the receive from the context that is done.
pub Runs-ends :
    (n : ℕ) (p : Process)
    → Runs n p
    → (n ≤ 12)
      × (((result : Option Error) × (p.main ≡ returned result))
          ⊎ ((p.watcher ≡ Watcher.waiting)
              ⊎ ((q : Process) × ((step watches p ≡ some q) ⊎ (step sees_done p ≡ some q)))))
Runs-ends n p r = (
  omega (arith, Runs-left r),
  elim (Main-cases p.main) [
    | inr back ↦ inl back
    | inl selects ↦ inr (own_step p selects (Reachable-Blames (Runs-Reachable r).1).cancelled)
  ],
)
