-- ===== src/Server/Lifecycle.antt =====
-- The life of the server's process: `RunServer` of main.go, `Start` and `Stop` of
-- pkg/mahogany/server.go and of pkg/mahogany/sources/update_server.go. Four goroutines take turns in
-- any order; a turn is one event. What the system's calls give is part of the event.
pub mod Blame
pub mod Ending
mod Tests
use mahogany.Base.{
  String, Bool, true, false, not, ◌&&◌, Option, none, some, List, [], ◌∷◌, Error, if◌then◌else◌,
}

-- The goroutine of `Start` that runs the update server: before `Listen`, in `Serve`, at its send
-- into the channel, or over.
pub data Updater : Type 0 where
  binding serving : Updater
  reporting : Error → Updater
  over : Updater

-- The goroutine that runs the HTTP server.
pub data Web : Type 0 where
  listening : Web
  complaining : Error → Web
  silent : Web

-- The goroutine of `main`, in the `select` of `Start` or back from it; then the process ends.
pub data Main : Type 0 where
  selecting : Main
  returned : Option Error → Main

-- The goroutine of the signal, by the statement that it is about to run.
pub data Watcher : Type 0 where
  waiting cancelling marking closing stopping_broker shutting_down finished : Watcher

-- `listener` is `s.ln`, open or closed where there is one.
pub data Listener : Type 0 where
  no_listener opened closed : Listener

pub record Process : Type 0 where
  pub main : Main
  pub updater : Updater
  pub web : Web
  pub watcher : Watcher
  pub cancelled : Bool
  pub is_closed : Bool
  pub listener : Listener
  pub broker_started : Bool
  pub broker_stopped : Bool
  pub web_shut : Bool

pub launched : Process
launched = record {
  main = selecting;
  updater = binding;
  web = listening;
  watcher = waiting;
  cancelled = false;
  is_closed = false;
  listener = no_listener;
  broker_started = false;
  broker_stopped = false;
  web_shut = false;
}

pub data Event : Type 0 where
  -- the watcher's next statement; its first is the receipt of the signal
  watches : Event
  -- `Listen`, and what `Serve` and `ListenAndServe` give
  listens : Option Error → Event
  serves_until : Option Error → Event
  web_fails : Error → Event
  web_closes : Event
  -- the cases of the `select`
  hears_updater hears_web sees_done : Event

abbrev close_listener : Listener → Listener
close_listener no_listener = no_listener
close_listener opened = closed
close_listener closed = closed

-- `Stop` of the update server, statement by statement.
abbrev stop_updates : Watcher → Process → Option Process
stop_updates marking p = some (record p { watcher = closing; is_closed = true })
stop_updates closing p =
    some (record p { watcher = stopping_broker; listener = close_listener p.listener })
stop_updates stopping_broker p = some (record p { watcher = shutting_down; broker_stopped = true })
stop_updates watcher p = none

-- The goroutine of the signal: `cancel`, and `Stop` of the server.
abbrev pub watch : Watcher → Process → Option Process
watch waiting p = some (record p { watcher = cancelling })
watch cancelling p = some (record p { watcher = marking; cancelled = true })
watch shutting_down p = some (record p { watcher = finished; web_shut = true })
watch finished p = none
watch watcher p = stop_updates watcher p

-- `Start` of the update server: an error of `Serve` after `Stop` is not passed on.
abbrev listen : Option Error → Updater → Process → Option Process
listen (some e) binding p = some (record p { updater = reporting e })
listen none binding p =
    some (record p { updater = serving; listener = opened; broker_started = true })
listen result updater p = none

abbrev end_serve : Option Error → Updater → Process → Option Process
end_serve none serving p = some (record p { updater = over })
end_serve (some e) serving p =
    some (record p { updater = if p.is_closed then over else reporting e })
end_serve result updater p = none

abbrev hear_updater : Updater → Process → Option Process
hear_updater (reporting e) p = some (record p { main = returned (some e); updater = over })
hear_updater updater p = none

abbrev hear_web : Web → Process → Option Process
hear_web (complaining e) p = some (record p { main = returned (some e); web = silent })
hear_web web p = none

-- `ListenAndServe` gives `ErrServerClosed` only after `Shutdown`, and that is not passed on.
abbrev end_web : Option Error → Web → Process → Option Process
end_web (some e) listening p = some (record p { web = complaining e })
end_web none listening p = if p.web_shut then some (record p { web = silent }) else none
end_web result web p = none

abbrev happen : Event → Process → Option Process
happen watches p = watch p.watcher p
happen (listens result) p = listen result p.updater p
happen (serves_until result) p = end_serve result p.updater p
happen (web_fails e) p = end_web (some e) p.web p
happen web_closes p = end_web none p.web p
happen hears_updater p = hear_updater p.updater p
happen hears_web p = hear_web p.web p
happen sees_done p = if p.cancelled then some (record p { main = returned none }) else none

-- One event; `none` where it cannot happen. Nothing happens once `main` is back.
pub step : Event → Process → Option Process
step e p = elim p.main [ returned _ ↦ none | selecting ↦ happen e p ]
