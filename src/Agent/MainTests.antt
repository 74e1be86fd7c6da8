-- ===== src/Agent/MainTests.antt =====
-- One call of `Run` that the server refuses, and an interrupt during the next.
use mahogany.Base.{
  ℕ, String, suc, length, count_if, ◌≡◌, refl, Bool, true, false, Option, none, some, List, [], ◌∷◌,
  ◌++◌, Error, Result, ok, if◌then◌else◌,
}
use mahogany.Config.{Environment, load_agent_config, load_str_env}
use mahogany.Telemetry.{Telemetry}
use mahogany.Agent.Session.{run}
use mahogany.Agent.Supervisor.{Attempt, Supervisor, is_set_up}
use mahogany.Agent.Main.{returns, run_agent_main, run_agent_main_interrupted}
use mahogany.Agent.Tests.{working, refused}

abbrev unset : Environment
unset name = none

abbrev interrupted : Attempt
interrupted = record refused { cancelled = true }

abbrev dial : String → Result String
dial addr = ok addr

abbrev flush_fails : List (ℕ × Bool) → ℕ → Bool → Option Error
flush_fails calls k done = if done then some "context canceled" else none

abbrev number : String → ℕ
number endpoint = 7

run_agent_main_interrupted_example :
    (s : Supervisor) × (failures : List Error) × (t : Telemetry ℕ) × ((run_agent_main dial
          (λ c. c)
          flush_fails
          dial
          number
          working
          unset
          (ok "alpha")
          false
          ((refused ∷ []) ++ (interrupted ∷ []))
        ≡ returns s ("localhost:9091" ∷ []) failures t)
      × (s.collectors ≡ count_if is_set_up ((refused ∷ []) ++ (interrupted ∷ [])))
      × (length s.effects ≡ suc (length (refused ∷ [])))
      × (t.calls ≡ (7, true) ∷ []))
unfolding run load_agent_config load_str_env
run_agent_main_interrupted_example =
    run_agent_main_interrupted dial (λ c. c) flush_fails dial number working unset (ok "alpha")
      (refused ∷ []) [] interrupted (some "unavailable") "localhost:9091" "localhost:4317" refl refl
      refl refl refl
