-- ===== src/Agent/Report.antt =====
-- `reportServices` of pkg/mahogany/agent.go. The Docker API's containers
-- and systemd's units are known by the fields that the agent reads; what their lists give are
-- arguments. `none` is a panic.
use mahogany.Base.{
  Bool, Error, String, Option, none, some, List, [], ◌∷◌, ◌++◌, map, Result, ok, err, if◌then◌else◌,
}
use mahogany.Sources.Docker.{Container}
use mahogany.Schema.{
  docker_service, systemd_service, ServiceStatus, ServicesStreamRequest, RegisterManifestResponse,
}

pub record SystemdUnit : Type 0 where
  pub name : String
  pub description : String
  pub load_state : String
  pub active_state : String
  pub path : String

-- The body of the loop over the containers: `container.Names[0]` panics where there is no name.
abbrev pub report_container : Container → Option ServiceStatus
report_container c = elim c.names [
  | [] ↦ none
  | name ∷ _ ↦ some (record {
    name = name;
    service = docker_service (record {
      command = c.command;
      created = c.created;
      id = c.id;
      image = c.image;
      image_id = c.image_id;
      names = c.names;
      ports = c.public_ports;
      state = c.state;
      status = c.status;
    });
  })
]

unfoldable pub report_containers : List Container → Option (List ServiceStatus)
report_containers [] = some []
report_containers (c ∷ more) = elim (report_container c) [
  | none ↦ none
  | some status ↦ elim (report_containers more) [ none ↦ none | some rest ↦ some (status ∷ rest) ]
]

-- The body of the loop over the units.
abbrev pub report_unit : SystemdUnit → ServiceStatus
report_unit u = record {
  name = u.name;
  service = systemd_service (record {
    name = u.name;
    description = u.description;
    load_state = u.load_state;
    active_state = u.active_state;
    path = u.path;
  });
}

-- The request that one round of the loop sends.
unfoldable pub report_round :
    String
    → RegisterManifestResponse
    → Result (List Container)
    → Result (List SystemdUnit)
    → Option ServicesStreamRequest
unfolding report_containers
report_round hostname registration containers units =
    let from_docker : Option (List ServiceStatus) =
      if registration.subscribe_to_docker
      then (elim containers [ err _ ↦ some [] | ok cs ↦ report_containers cs ])
      else some [] in
    let from_systemd : List ServiceStatus =
      if registration.subscribe_to_systemd
      then (elim units [ err _ ↦ [] | ok us ↦ map report_unit us ])
      else [] in
    elim from_docker [
      | none ↦ none
      | some services ↦ some (record { hostname = hostname; services = services ++ from_systemd })
    ]

-- What one round of the loop meets: the two lists, and what `Send` gives.
pub record Round : Type 0 where
  pub containers : Result (List Container)
  pub units : Result (List SystemdUnit)
  pub send : Option Error

-- How the loop stands: waiting for its ticker, returned, or ended by a panic.
pub data Finish : Type 0 where
  ticking stopped aborted : Finish

-- The loop, by the requests that it sends; `cancelled` tells whether the context is done after the
-- last round.
unfoldable pub report_loop :
    String → RegisterManifestResponse → Bool → List Round → Finish × List ServicesStreamRequest
unfolding report_round
report_loop hostname registration cancelled [] = (if cancelled then stopped else ticking, [])
report_loop hostname registration cancelled (r ∷ more) =
    let (finish, sent) = report_loop hostname registration cancelled more in
    elim (report_round hostname registration r.containers r.units) [
      | none ↦ (aborted, [])
      | some req ↦ (finish, elim r.send [ none ↦ req ∷ sent | some _ ↦ sent ])
    ]

-- `reportServices`, from the errors of opening the stream, Docker's client and systemd's connection.
-- The closing of these is left out.
unfoldable pub report_services :
    String
    → RegisterManifestResponse
    → Option Error
    → Option Error
    → Option Error
    → Bool
    → List Round
    → Finish × List ServicesStreamRequest
unfolding report_loop
report_services hostname registration stream docker dbus cancelled rounds =
    let loop = report_loop hostname registration cancelled rounds in
    let with_systemd =
      if registration.subscribe_to_systemd
      then (elim dbus [ some _ ↦ (stopped, []) | none ↦ loop ])
      else loop in
    elim stream [
      | some _ ↦ (stopped, [])
      | none ↦
          if registration.subscribe_to_docker
          then (elim docker [ some _ ↦ (stopped, []) | none ↦ with_systemd ])
          else with_systemd
    ]
