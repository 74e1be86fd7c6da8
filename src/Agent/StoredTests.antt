-- ===== src/Agent/StoredTests.antt =====
-- An agent whose host runs one service and one container.
use mahogany.Base.{
  ℕ, suc, String, ◌≡◌, refl, false, true, none, some, List, [], ◌∷◌, Result, ok, err, string_eq,
  number_eq,
}
use mahogany.Schema.{ServicesStreamRequest, RegisterManifestResponse}
use mahogany.Sources.Docker.{Container}
use mahogany.UpdateServer.ServicesStream.{services_stream}
use mahogany.UpdateServer.Tracking.{stored}
use mahogany.UpdateServer.TrackingTests.{alpha, with_device, with_device-IsUnique}
use mahogany.Agent.Report.{SystemdUnit, Round, report_services}
use mahogany.Agent.Stored.{stored-report_services}

abbrev registration : RegisterManifestResponse
registration = record {
  subscribe_to_docker = true;
  subscribe_to_systemd = true;
  subscribe_to_services = "cron" ∷ [];
}

abbrev cron : String → SystemdUnit
cron state = record {
  name = "cron";
  description = "";
  load_state = "loaded";
  active_state = state;
  path = "";
}

abbrev web : Container
web = record {
  command = "serve";
  created = 5;
  id = "c1";
  image = "web";
  image_id = "i1";
  names = "/web" ∷ [];
  public_ports = 80 ∷ [];
  state = "running";
  status = "Up 5 minutes";
}

abbrev rounds : List Round
rounds =
    record { containers = ok (web ∷ []); units = ok (cron "active" ∷ []); send = none }
    ∷ record { containers = err "no answer"; units = ok (cron "failed" ∷ []); send = none }
    ∷ []

abbrev sent : List ServicesStreamRequest
sent = (report_services "alpha" registration none none none false rounds).1

abbrev at_times : ℕ → List ServicesStreamRequest → List (ℕ × Result ServicesStreamRequest)
at_times now [] = []
at_times now (req ∷ more) = (now, ok req) ∷ at_times (suc now) more

stored-report_services_example :
    stored 1 "cron" (services_stream (at_times 10 sent) with_device) ≡ some "failed"
unfolding string_eq number_eq report_services
stored-report_services_example =
    stored-report_services "alpha" "cron" registration (refl, refl) false rounds (at_times 10 sent)
      alpha with_device refl refl refl with_device-IsUnique refl
