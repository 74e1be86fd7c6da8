-- ===== src/UpdateServer/History/Streams.antt =====
-- The whole history of a service: what the table says after a stream of reports.
use mathlib.Core.Path.{subst}
use mahogany.Base.{
  ℕ, String, ◌≡◌, refl, ap, ◌∙◌, true, false, Option, none, some, List, [], ◌∷◌, ◌++◌, arith,
  Result, ok, err, find_first, ◌==◌, string_eq, if◌then◌else◌,
}
use mahogany.Base.Dict.{lookup-nil}
use mahogany.Schema.{ServiceStatus, ServicesStreamRequest}
use mahogany.Database.{Device, Database}
use mahogany.Database.Devices.{get_device}
use mahogany.Database.Unique.{IsUnique}
use mahogany.UpdateServer.ServicesStream.{
  status_of, find_device, Stream, report_service, report_services, receive_reports, services_stream,
}
use mahogany.UpdateServer.Tracking.{stored}
use mahogany.UpdateServer.History.{
  Watch, watch, watch_report, Follows, report_service-Goes, report_service-device_id,
}

-- The reports of a message, and of a stream up to its end.
abbrev watch_reports : String → List ServiceStatus → Watch → Watch
watch_reports name [] w = w
watch_reports name (svc ∷ more) w = watch_reports name more (watch_report name svc w)

abbrev pub heard : List (ℕ × Result ServicesStreamRequest) → List ServiceStatus
heard [] = []
heard ((now, err _) ∷ more) = []
heard ((now, ok msg) ∷ more) = msg.services ++ heard more

-- The host of the first report.
abbrev pub reporter : List (ℕ × Result ServicesStreamRequest) → Option String
reporter [] = none
reporter ((now, err _) ∷ more) = none
reporter ((now, ok msg) ∷ more) = elim msg.services [
  | [] ↦ reporter more
  | _ ∷ _ ↦ some msg.hostname
]

-- One stream follows another after some reports, for a device that is known.
record After (device : ℕ) (services : List ServiceStatus) (s s' : Stream) : Type 0 where
  known : s'.device_id ≡ some device
  follows : Follows device s'
  watched :
      (name : String) → watch device name s' ≡ watch_reports name services (watch device name s)

report_services-After :
    (now device : ℕ) (hostname : String) (services : List ServiceStatus) (s : Stream)
    → s.device_id ≡ some device
    → Follows device s
    → After device services s (report_services now hostname services s)
unfolding report_services
report_services-After now device hostname [] s known h = record {
  known = known;
  follows = h;
  watched = λ name. refl;
}
report_services-After now device hostname (svc ∷ more) s known h =
    let (watched, follows) = report_service-Goes now device svc s h in
    let s1 : Stream = report_service now device svc s in
    let rest =
      report_services-After now device hostname more s1
        (report_service-device_id now device svc s h ∙ known) follows in
    rw (known, report_services)
      (record {
        known = rest.known;
        follows = rest.follows;
        watched = λ name. rest.watched name ∙ ap (watch_reports name more) (watched name);
      })

watch_reports-append :
    (name : String) (a b : List ServiceStatus) (w : Watch)
    → watch_reports name b (watch_reports name a w) ≡ watch_reports name (a ++ b) w
watch_reports-append name [] b w = refl
watch_reports-append name (svc ∷ a) b w = watch_reports-append name a b (watch_report name svc w)

After-trans :
    (device : ℕ) (a b : List ServiceStatus) {s s' s'' : Stream}
    → After device a s s'
    → After device b s' s''
    → After device (a ++ b) s s''
After-trans device a b h k = record {
  known = k.known;
  follows = k.follows;
  watched = λ name.
      k.watched name ∙ ap (watch_reports name b) (h.watched name) ∙ watch_reports-append name a b _;
}

-- The reports of a stream whose device is known.
receive_reports-After :
    (device : ℕ) (messages : List (ℕ × Result ServicesStreamRequest)) (s : Stream)
    → s.device_id ≡ some device
    → Follows device s
    → After device (heard messages) s (receive_reports messages s)
unfolding receive_reports
receive_reports-After device [] s known h = record {
  known = known;
  follows = h;
  watched = λ name. refl;
}
receive_reports-After device ((now, err e) ∷ more) s known h = record {
  known = known;
  follows = h;
  watched = λ name. refl;
}
receive_reports-After device ((now, ok msg) ∷ more) s known h =
    let first = report_services-After now device msg.hostname msg.services s known h in
    After-trans device msg.services (heard more) first
      (receive_reports-After device more _ first.known first.follows)

find_device-fine :
    (hostname : String) (d : Device) (db : Database)
    → db.faults ≡ []
    → find_first (λ d. d.hostname == hostname) db.devices ≡ some d
    → find_device hostname db ≡ (ok d.id, db)
unfolding find_device get_device
find_device-fine hostname d db fine found = ground arith

module _ (hostname : String) (d : Device) where
  -- The first report finds the device.
  report_services-known :
      (now : ℕ) (svc : ServiceStatus) (services : List ServiceStatus) (s : Stream)
      → s.device_id ≡ none
      → find_device hostname s.database ≡ (ok d.id, s.database)
      → report_services now hostname (svc ∷ services) (record s { device_id = some d.id })
        ≡ report_services now hostname (svc ∷ services) s
  unfolding report_services
  report_services-known now svc services s unknown found = ground arith

  report_services-found :
      (now : ℕ) (svc : ServiceStatus) (services : List ServiceStatus) (s : Stream)
      → s.device_id ≡ none
      → Follows d.id s
      → find_first (λ d. d.hostname == hostname) s.database.devices ≡ some d
      → After d.id (svc ∷ services) s (report_services now hostname (svc ∷ services) s)
  report_services-found now svc services s unknown h found =
      let s1 : Stream = record s { device_id = some d.id } in
      let h1 : Follows d.id s1 = record { fine = h.fine; unique = h.unique; row = h.row } in
      let rest = report_services-After now d.id hostname (svc ∷ services) s1 refl h1 in
      subst (After d.id (svc ∷ services) s)
        (report_services-known now svc services s unknown
          (find_device-fine hostname d s.database h.fine found))
        (record { known = rest.known; follows = rest.follows; watched = rest.watched })

  -- A message of a stream whose device is not known yet.
  message-After :
      (now : ℕ) (host : String) (services : List ServiceStatus)
      (more : List (ℕ × Result ServicesStreamRequest)) (s : Stream)
      → s.device_id ≡ none
      → Follows d.id s
      → find_first (λ d. d.hostname == hostname) s.database.devices ≡ some d
      → (elim services [ [] ↦ reporter more | _ ∷ _ ↦ some host ]) ≡ some hostname
      → (reporter more ≡ some hostname → After d.id (heard more) s (receive_reports more s))
      → After d.id
          (services ++ heard more)
          s
          (receive_reports more (report_services now host services s))
  unfolding report_services
  message-After now host [] more s unknown h found from later = later from
  message-After now host (svc ∷ services) more s unknown h found from later =
      let same : host ≡ hostname = ground arith in
      rw same (
        let first = report_services-found now svc services s unknown h found in
        After-trans d.id (svc ∷ services) (heard more) first
          (receive_reports-After d.id more _ first.known first.follows))

  receive_reports-found :
      (messages : List (ℕ × Result ServicesStreamRequest)) (s : Stream)
      → s.device_id ≡ none
      → Follows d.id s
      → find_first (λ d. d.hostname == hostname) s.database.devices ≡ some d
      → reporter messages ≡ some hostname
      → After d.id (heard messages) s (receive_reports messages s)
  unfolding receive_reports
  receive_reports-found [] s unknown h found from = ground arith
  receive_reports-found ((now, err e) ∷ more) s unknown h found from = ground arith
  receive_reports-found ((now, ok msg) ∷ more) s unknown h found from =
      message-After now msg.hostname msg.services more s unknown h found from
        (receive_reports-found more s unknown h found)

-- What a list of reported statuses makes of the status that the table had: the last one counts, but
-- the first one does not count where the table had one before.
abbrev latest : Option String → List String → Option String
latest old [] = old
latest old (status ∷ more) = latest (some status) more

abbrev pub final_status : Option String → List String → Option String
final_status none reported = latest none reported
final_status (some old) [] = some old
final_status (some old) (first ∷ more) = latest (some old) more

-- The statuses that the reports give to one service.
abbrev pub statuses : String → List ServiceStatus → List String
statuses name [] = []
statuses name (svc ∷ more) =
    let rest = statuses name more in if svc.name == name then status_of svc.service ∷ rest else rest

watch-latest :
    (name : String) (services : List ServiceStatus) (status : Option String)
    → (watch_reports name services (record { status = status; seen = true })).status
      ≡ latest status (statuses name services)
watch-latest name [] status = refl
watch-latest name (svc ∷ more) status =
    ground
      (arith, watch-latest name more status, watch-latest name more (some (status_of svc.service)))

watch-final_status :
    (name : String) (services : List ServiceStatus) (status : Option String)
    → (watch_reports name services (record { status = status; seen = false })).status
      ≡ final_status status (statuses name services)
watch-final_status name [] none = refl
watch-final_status name [] (some old) = refl
watch-final_status name (svc ∷ more) none = ground (
  arith,
  watch-final_status name more none,
  watch-latest name more (some (status_of svc.service)),
)
watch-final_status name (svc ∷ more) (some old) =
    ground (arith, watch-final_status name more (some old), watch-latest name more (some old))

-- If no statement fails and the host of the stream's first report has a device, then the stream
-- leaves for each service of that device the status of its last report; but where the table had the
-- service before, the first report of the stream does not count, and with at most one report the
-- old status stays.
pub stored-services_stream :
    (messages : List (ℕ × Result ServicesStreamRequest)) (hostname name : String) (d : Device)
    (db : Database)
    → db.faults ≡ []
    → IsUnique db
    → reporter messages ≡ some hostname
    → find_first (λ d. d.hostname == hostname) db.devices ≡ some d
    → stored d.id name (services_stream messages db)
      ≡ final_status (stored d.id name db) (statuses name (heard messages))
unfolding services_stream
stored-services_stream messages hostname name d db fine unique from found =
    let s : Stream = record { device_id = none; tracked = []; database = db } in
    let h : Follows d.id s = record {
      fine = fine;
      unique = unique;
      row = λ name i e. absurd (ground (arith, lookup-nil {V = ℕ} name));
    } in
    let after = receive_reports-found hostname d messages s refl h found from in
    ap (λ w. w.status) (after.watched name)
    ∙ rw (lookup-nil {V = ℕ} name) (watch-final_status name (heard messages) (stored d.id name db))
