-- ===== src/Agent/Main.antt =====
-- `RunAgent` of main.go from its start to its return: the configuration, `NewAgent`, the telemetry,
-- the loop of Agent.Supervisor, and what is deferred. gRPC's and OpenTelemetry's calls are parameters.
use mahogany.Base.{
  String, ◌≡◌, refl, suc, length, count_if, Bool, true, false, Option, List, [], ◌∷◌, ◌++◌, Error,
  Result, ok, err, arith, if◌then◌else◌,
}
use mahogany.Config.{Environment, load_agent_config}
use mahogany.Telemetry.{Telemetry, shutdown, set_up_otel_sdk, new_meter_provider, call_all}
use mahogany.Agent.{Machine}
use mahogany.UpdateServer.ReleaseStream.{returned}
use mahogany.Agent.Client.{new_agent, close}
use mahogany.Agent.Supervisor.{
  Attempt, Supervisor, idle, supervise, run_attempt, all_back, is_set_up, supervise_interrupted,
  supervise-over,
}

-- How far `RunAgent` came. It closes the connections and shuts the telemetry down as it returns.
pub data Progress (Conn K : Type 0) : Type 0 where
  no_agent : Error → Progress Conn K
  no_telemetry : List Error → Telemetry K → Progress Conn K
  runs : Supervisor → Telemetry K → Progress Conn K
  returns : Supervisor → List Conn → List Error → Telemetry K → Progress Conn K

module _ {Conn Client K X : Type 0} (new_client : String → Result Conn)
    (service_client : Conn → Client) (answer : List (K × Bool) → K → Bool → Option Error)
    (new_exporter : String → Result X) (provider_of : X → K) (m : Machine) where
  -- The interrupt may come before the loop (`early`); the deferred shutdown gets the context as the
  -- loop left it.
  pub run_agent_main : Environment → Result String → Bool → List Attempt → Progress Conn K
  unfolding new_agent set_up_otel_sdk load_agent_config
  run_agent_main env hostname early attempts =
      let config = load_agent_config env hostname in
      elim (new_agent new_client service_client config) [
        | err e ↦ no_agent e
        | ok a ↦
            let (errors, t) =
              set_up_otel_sdk answer new_exporter provider_of false config.telemetry_endpoint in
            elim errors [
              | e ∷ more ↦ no_telemetry (e ∷ more) t
              | [] ↦
                  let s = supervise m config.download_dir attempts (idle early) in
                  if s.over
                  then (let (failures, t') = shutdown answer s.done t in
                      returns s (close a []) failures t')
                  else runs s t
            ]
      ]

  -- Where the client and the exporter can be made, an interrupt that comes after some calls of `Run`
  -- that came back, and while another comes back, ends `RunAgent`: `Run` was called no more, the
  -- connection is closed, and the provider's clean-up is called once, but under a context that is
  -- already done; and for none of the goroutines that collect the metrics, one for each call that was
  -- set up, has it waited.
  pub run_agent_main_interrupted :
      (env : Environment) (hostname : Result String) (before after : List Attempt) (a : Attempt)
      (error : Option Error) (conn : Conn) (x : X)
      → let config = load_agent_config env hostname in
        new_client config.server_addr ≡ ok conn
        → new_exporter config.telemetry_endpoint ≡ ok x
        → all_back m config.download_dir before ≡ true
        → (run_attempt m config.download_dir a).outcome ≡ returned error
        → a.cancelled ≡ true
        → (s : Supervisor) × (failures : List Error) × (t : Telemetry K) × ((run_agent_main env
                hostname false
                (before ++ (a ∷ after))
              ≡ returns s (conn ∷ []) failures t)
            × (s.collectors ≡ count_if is_set_up (before ++ (a ∷ [])))
            × (length s.effects ≡ suc (length before))
            × (t.calls ≡ (provider_of x, true) ∷ []))
  unfolding run_agent_main new_agent set_up_otel_sdk new_meter_provider shutdown call_all
  run_agent_main_interrupted env hostname before after a error conn x connects exports back comes
        cancelled =
      let config = load_agent_config env hostname in
      let s = supervise m config.download_dir (before ++ (a ∷ after)) (idle false) in
      let h =
        supervise_interrupted m config.download_dir before after a error (idle false) refl back
          comes cancelled in
      let over : s.done ≡ true =
        supervise-over m config.download_dir (before ++ (a ∷ after)) (idle false) refl h.0 in
      let t =
        shutdown answer s.done
          (set_up_otel_sdk answer new_exporter provider_of false config.telemetry_endpoint).1 in
      (
        s,
        t.0,
        t.1,
        (
          ground (arith, connects, exports, h.0),
          omega (arith, h.1),
          omega (arith, h.2),
          ground (arith, connects, exports, over),
        ),
      )
