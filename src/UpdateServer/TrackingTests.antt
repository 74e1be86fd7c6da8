-- ===== src/UpdateServer/TrackingTests.antt =====
-- A stream of reports from one device, and the theorems on reports at it.
use mahogany.Base.{
  ℕ, String, ◌≡◌, refl, none, some, List, [], ◌∷◌, arith, Result, ok, err, string_eq, number_eq,
}
use mahogany.Schema.{systemd_service, ServiceStatus, ServicesStreamRequest}
use mahogany.UpdateServer.History.Streams.{stored-services_stream}
use mahogany.Database.{Database, Device, TrackedService}
use mahogany.Database.Unique.{IsUnique}
use mahogany.UpdateServer.ServicesStream.{services_stream}
use mahogany.UpdateServer.Tracking.{stored}

abbrev no_rows : Database
no_rows = record {
  devices = [];
  packages = [];
  assets = [];
  settings = [];
  watched_services = [];
  tracked_services = [];
  faults = [];
}

no_rows-IsUnique : IsUnique no_rows
no_rows-IsUnique = record {
  hostnames = λ h. omega arith;
  package_names = λ n. omega arith;
  package_ids = λ i. ground arith;
  watched_names = λ n. omega arith;
  services = λ d n. omega arith;
  service_ids = λ i. omega arith;
}

abbrev report : String → ServiceStatus
report state = record {
  name = "cron";
  service = systemd_service (record {
    name = "cron";
    description = "";
    load_state = "loaded";
    active_state = state;
    path = "";
  });
}

abbrev pub alpha : Device
alpha = record { id = 1; hostname = "alpha"; tailscale_last_seen = none; agent_last_seen = none }

abbrev pub with_device : Database
with_device = record no_rows { devices = alpha ∷ [] }

pub with_device-IsUnique : IsUnique with_device
with_device-IsUnique = record {
  hostnames = λ h. ground arith;
  package_names = λ n. omega arith;
  package_ids = λ i. ground arith;
  watched_names = λ n. omega arith;
  services = λ d n. omega arith;
  service_ids = λ i. omega arith;
}

abbrev reports : List (ℕ × Result ServicesStreamRequest)
reports =
    (10, ok (record { hostname = "alpha"; services = report "active" ∷ report "failed" ∷ [] }))
    ∷ (11, err "closed")
    ∷ []

abbrev row : TrackedService
row = record {
  id = 1;
  device_id = 1;
  name = "cron";
  status = "active";
  last_updated = 9;
  container_id = none;
  container_image = none;
}

abbrev with_row : Database
with_row = record with_device { tracked_services = row ∷ [] }

with_row-IsUnique : IsUnique with_row
with_row-IsUnique = record {
  hostnames = λ h. ground arith;
  package_names = λ n. omega arith;
  package_ids = λ i. ground arith;
  watched_names = λ n. omega arith;
  services = λ d n. ground arith;
  service_ids = λ i. ground arith;
}

-- The first report does not count, since the table has the service.
stored-services_stream_example : stored 1 "cron" (services_stream reports with_row) ≡ some "failed"
unfolding string_eq number_eq
stored-services_stream_example =
    stored-services_stream reports "alpha" "cron" alpha with_row refl with_row-IsUnique refl refl
