-- ===== src/Agent/Reporting.antt =====
-- What a round of `reportServices` sends of the services that it lists.
use mahogany.Base.{
  String, ◌≡◌, refl, Bool, true, false, ◌&&◌, Option, none, some, List, [], ◌∷◌, ◌++◌, map, arith,
  Error, Result, ok, err, ◌==◌, string_eq, if◌then◌else◌, Option-cases, inl, inr,
}
use mahogany.Schema.{ServiceStatus, ServicesStreamRequest, RegisterManifestResponse}
use mahogany.Sources.Docker.{Container}
use mahogany.UpdateServer.History.Streams.{statuses}
use mahogany.Agent.Report.{
  SystemdUnit, report_container, report_containers, report_unit, report_round, Round,
}

-- Each container has a name.
abbrev all_named : List Container → Bool
all_named [] = true
all_named (c ∷ more) = elim c.names [ [] ↦ false | _ ∷ _ ↦ all_named more ]

abbrev lists_named : Result (List Container) → Bool
lists_named (ok cs) = all_named cs
lists_named (err _) = true

abbrev pub named_lists : List Round → Bool
named_lists [] = true
named_lists (r ∷ more) = lists_named r.containers && named_lists more

-- The statuses of a service that the lists of a round show.
abbrev of_containers : String → List Container → List String
of_containers name [] = []
of_containers name (c ∷ more) =
    let rest = of_containers name more in
    elim c.names [ [] ↦ rest | n ∷ _ ↦ if n == name then c.status ∷ rest else rest ]

abbrev of_units : String → List SystemdUnit → List String
of_units name [] = []
of_units name (u ∷ more) =
    let rest = of_units name more in if u.name == name then u.active_state ∷ rest else rest

abbrev shown : String → Round → List String
shown name r =
    elim r.containers [ ok cs ↦ of_containers name cs | err _ ↦ [] ]
    ++ (elim r.units [ ok us ↦ of_units name us | err _ ↦ [] ])

-- The statuses that the agent sees in the rounds whose requests are sent.
abbrev pub observed : String → List Round → List String
observed name [] = []
observed name (r ∷ more) =
    let rest = observed name more in elim r.send [ none ↦ shown name r ++ rest | some _ ↦ rest ]

pub statuses-append :
    (name : String) (a b : List ServiceStatus)
    → statuses name (a ++ b) ≡ statuses name a ++ statuses name b
statuses-append name [] b = refl
statuses-append name (svc ∷ a) b = ground (arith, statuses-append name a b)

statuses-units :
    (name : String) (us : List SystemdUnit) → statuses name (map report_unit us) ≡ of_units name us
statuses-units name [] = refl
statuses-units name (u ∷ us) = ground (arith, statuses-units name us)

named_container :
    (c : Container)
    → (elim c.names [ [] ↦ false | _ ∷ _ ↦ true ]) ≡ true
    → (status : ServiceStatus) × (report_container c ≡ some status)
named_container c h = elim (Option-cases (report_container c)) [
  | inl e ↦ absurd (ground arith)
  | inr (status, e) ↦ (status, e)
]

-- The reports of the containers, if each has a name.
report_containers-statuses :
    (name : String) (cs : List Container)
    → all_named cs ≡ true
    → (reports : List ServiceStatus) × (report_containers cs ≡ some reports)
      × (statuses name reports ≡ of_containers name cs)
unfolding report_containers
report_containers-statuses name [] h = ([], refl, refl)
report_containers-statuses name (c ∷ cs) h =
    let (reports, found, same) = report_containers-statuses name cs (ground arith) in
    let (status, is) = named_container c (ground arith) in
    (status ∷ reports, ground arith, ground arith)

-- The registration that the server gives: both kinds of services are to be reported.
abbrev pub AsksAll : RegisterManifestResponse → Type 0
AsksAll registration =
    (registration.subscribe_to_docker ≡ true) × (registration.subscribe_to_systemd ≡ true)

module _ (hostname name : String) (registration : RegisterManifestResponse)
    (asked : AsksAll registration) where
  -- What a round sends, if the containers that it lists have names.
  pub record Says (r : Round) : Type 0 where
    pub request : ServicesStreamRequest
    pub sends : report_round hostname registration r.containers r.units ≡ some request
    pub named : request.hostname ≡ hostname
    pub shows : statuses name request.services ≡ shown name r

  abbrev request_of : List ServiceStatus → List ServiceStatus → ServicesStreamRequest
  request_of containers units = record { hostname = hostname; services = containers ++ units }

  pub report_round-Says :
      (containers : Result (List Container)) (units : Result (List SystemdUnit))
      (send : Option Error)
      → lists_named containers ≡ true
      → Says (record { containers = containers; units = units; send = send })
  unfolding report_round
  report_round-Says (ok cs) (ok us) send h =
      let (reports, found, same) = report_containers-statuses name cs h in
      record {
        request = request_of reports (map report_unit us);
        sends = ground (arith, asked.0, asked.1, found);
        named = refl;
        shows = ground (
          arith,
          statuses-append name reports (map report_unit us),
          statuses-units name us,
          same,
        );
      }
  report_round-Says (ok cs) (err e) send h =
      let (reports, found, same) = report_containers-statuses name cs h in
      record {
        request = request_of reports [];
        sends = ground (arith, asked.0, asked.1, found);
        named = refl;
        shows = ground (arith, statuses-append name reports [], same);
      }
  report_round-Says (err e) (ok us) send h = record {
    request = request_of [] (map report_unit us);
    sends = ground (arith, asked.0, asked.1);
    named = refl;
    shows = statuses-units name us;
  }
  report_round-Says (err e) (err e') send h = record {
    request = request_of [] [];
    sends = ground (arith, asked.0, asked.1);
    named = refl;
    shows = refl;
  }
