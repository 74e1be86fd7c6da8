-- ===== src/Lib.antt =====
-- Mahogany: a control plane for the machines of a small network. A server keeps a topology of
-- packages and hosts, streams releases to the agents on the hosts that are entitled to them, collects
-- the agents' reports on services, and shows pages over its database and over three services that
-- it reaches by HTTP (an image registry, Watchtower, Tailscale).
--
-- The parts and the files that model them:
--   * Schema: pkg/schema/topology.go. Schema.Read is `ReadTopology`; the TOML decoder, the validator
--     and `regexp.Compile` are its parameters, and a regular expression is known by its matches.
--   * Broker: pkg/mahogany/sources/broker.go. The state has the channels with their buffers, the
--     calls that wait for room, and the goroutine of `Start`, which takes one case of its `select`
--     at a time (`select`). Broker.Session is the step relation of handlers, sends, turns and
--     receives; Broker.Invariant, Broker.Safety, Broker.Draining and Broker.Shutdown reason about it.
--     A handler is assumed to give its channel back once and only after the loop took it in, as
--     `ReleaseStream` does, which first waits for a message.
--   * UpdateServer: pkg/mahogany/sources/update_server.go. The tables of `NewUpdateServer` are here,
--     `PropagateGithubRelease` in UpdateServer.Propagate, `ReleaseStream` in
--     UpdateServer.ReleaseStream, `RegisterManifest` and `ServicesStream` in
--     UpdateServer.ServicesStream. A stream is the list of the messages that it yields, and
--     UpdateServer.Connections says which ones the broker's channel yields.
--   * Database: internal/db. A table is the list of its rows in the order of insertion, and a
--     statement has the meaning of its SQL. `faults` says in advance which statements fail.
--     Database.Watched sees the table of watched services as a collection without an order, and
--     UpdateServer.Manifest what an agent is told of it.
--   * Sources: the clients in pkg/mahogany/sources and pkg/vpn, over a network and JSON decoders that
--     are parameters.
--   * Views: pkg/mahogany/views, the pages over the database and the clients. Views.Posting,
--     Views.Holdings and their like reason about them. A transaction keeps
--     the tables as they were until it commits. The daemon behind Docker's client is a parameter
--     (Sources.Docker), with its state before and after each call.
--   * Metrics: pkg/mahogany/metrics.go, its parsers on lists of bytes, with `uint64` modulo 2^64 and
--     `byte` modulo 256. Metrics.New is `NewMetrics`, Metrics.Disk `diskUsage`;
--     Metrics.Collect is `Collect` over the list of its ticks, and records the two numbers of each
--     quotient.
--   * Transfer: `exportData` and `importData` of main.go, between the files and the JSON codec;
--     Transfer.Commands puts these around them.
--   * Agent: pkg/mahogany/agent.go. `installRelease` is a list of effects on a machine whose answers,
--     and `path.Join`, are parameters; Agent.Plan is what it is to do. Agent.Session is `Run`, also
--     at the other end of the server's `ReleaseStream`; Agent.Report is `reportServices`,
--     over what the Docker and systemd clients list in each round, and Agent.Stored joins it to the
--     server's `ServicesStream`. Agent.Client is `NewAgent`, `register` and `Close`;
--     Agent.Supervisor is the loop of `RunAgent` and Agent.Main all of it. Agent.Announced follows a
--     release that is broadcast, and the server's `Stop`, through the stream to the machine.
--   * Telemetry: pkg/mahogany/otel.go, with the exporter and the provider as parameters.
--   * Main: the choice of a command in main.go. Server.Main is `RunServer`.
--   * Server: pkg/mahogany/server.go, with the templates as parameters. Server holds the shared
--     handlers, Server.Routes the routes and the choice that `http.ServeMux` makes among them,
--     Server.Site every route's handler over the pages. A request's path is given by its segments,
--     clean and decoded. The webhook's handler only logs at this commit: its call of
--     `PropagateGithubRelease` is commented out. Server.Templates and Server.LastSeen are the
--     functions that the templates call. Server.New is `NewServer`. Server.Lifecycle is `RunServer`
--     with `Start` and `Stop`, once `NewServer` worked: four goroutines whose turns come in any order;
--     Server.Lifecycle.Blame and Server.Lifecycle.Ending reason about them.
--   * Config: pkg/mahogany/config.go, over an environment that is a function.
--   * Base: numbers, texts, lists, results and association lists that the parts share.
--
-- Every loop is a recursion on the list that it ranges over, or on the messages that a stream
-- yields; only the decimal digits of Server.LastSeen run on fuel, 20 of them, which is enough for a
-- duration. Ids are natural numbers, as the database makes them, and the times of reports are numbers
-- that the caller gives.
--
-- Not modelled: generated code (the protocol messages' codec, gRPC, the handle of sqlc), the parsing
-- and the execution of the templates, and floating point. How the engine orders by a row value, as
-- `listTrackedServices` asks it to, is a parameter.
pub mod Base
pub mod Schema
pub mod Broker
pub mod Database
pub mod Sources
pub mod UpdateServer
pub mod Views
pub mod Agent
pub mod Config
pub mod Server
pub mod Metrics
pub mod Transfer
pub mod Telemetry
pub mod Main
