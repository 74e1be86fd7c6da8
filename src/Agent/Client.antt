-- ===== src/Agent/Client.antt =====
-- `NewAgent`, `register` and `Close` of pkg/mahogany/agent.go. The connection and the client are
-- gRPC's, so their types and their calls are parameters.
use mahogany.Base.{ℕ, String, Option, none, some, List, [], ◌∷◌, ◌++◌, Error, Result, ok, err}
use mahogany.Config.{AgentConfig}
use mahogany.Schema.{RegisterManifestRequest, RegisterManifestResponse}

pub record Agent (Conn Client : Type 0) : Type 0 where
  pub config : AgentConfig
  pub conn : Option Conn
  pub client : Client
  pub registration : Option RegisterManifestResponse

module _ {Conn Client : Type 0} (new_client : String → Result Conn)
    (service_client : Conn → Client) where
  unfoldable pub new_agent : AgentConfig → Result (Agent Conn Client)
  new_agent config = elim (new_client config.server_addr) [
    | err e ↦ err e
    | ok conn ↦ ok (record {
      config = config;
      conn = some conn;
      client = service_client conn;
      registration = none;
    })
  ]

module _ {Conn Client : Type 0} where
  abbrev request : ℕ → Agent Conn Client → RegisterManifestRequest
  request now a = record { hostname = a.config.host_name; timestamp = now; assets = [] }

  -- `register` at the time `now`; a registration that an earlier call left is kept when it fails.
  unfoldable register :
      (Client → RegisterManifestRequest → Result RegisterManifestResponse)
      → ℕ
      → Agent Conn Client
      → Option Error × Agent Conn Client
  register call now a = elim (call a.client (request now a)) [
    | err e ↦ (some e, a)
    | ok resp ↦ (none, record a { registration = some resp })
  ]

  -- `Close`, by the connections that are closed.
  abbrev pub close : Agent Conn Client → List Conn → List Conn
  close a closed = elim a.conn [ none ↦ closed | some conn ↦ closed ++ (conn ∷ []) ]
